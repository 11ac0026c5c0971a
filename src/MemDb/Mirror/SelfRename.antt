-- ===== src/MemDb/Mirror/SelfRename.antt =====
-- `rename` of a path to itself: the source is taken for a target that is to be replaced.
use pve_cluster.Prelude.{ℕ, ◌≡◌, ◌≢◌, refl, none, Option, some, arith, inl, inr}
use pve_cluster.Bytes.{Bytes}
use pve_cluster.MemDb.Mutation.{update_root_metadata}
use pve_cluster.Map.{remove, get, get-insert, nat_eq}
use pve_cluster.MemDb.Types.{TreeEntry, Result, ok, err}
use pve_cluster.MemDb.External.{External, Stmt, update_place}
use pve_cluster.MemDb.State.{MemDb, lookup_path}
use pve_cluster.MemDb.Mutation.Outcome.{next_version, with_mutation-Outcome}
use pve_cluster.MemDb.Remove.{rename, rename_checks, rename_if, rename_body, moved}
use pve_cluster.MemDb.Checks.{rename_checks-ok}
use pve_cluster.MemDb.Mirror.Moves.{drop_target-table, rename_inv}

-- The row is gone, the entry is still in memory.
abbrev pub RowLost : {x : External} → MemDb x → ℕ → Type 0
RowLost {x} m i = (x.table m.conn i ≡ none) × (get i m.index ≢ none)

module _ {x : External} (m : MemDb x) where
  rename_if-RowLost :
      (path : Bytes) (writer mtime : ℕ) (e : TreeEntry)
      (checked : Result (TreeEntry × Option ℕ × ℕ × Bytes))
      → rename_checks m path path ≡ checked
      → lookup_path m path ≡ some e
      → (rename_if m writer mtime checked).1 ≡ ok tt
      → RowLost (rename_if m writer mtime checked).0 e.inode
  unfolding rename_if
  rename_if-RowLost path writer mtime e (err f) c found done = cc
  rename_if-RowLost path writer mtime e (ok (e1, none, parent, name)) c found done =
      let checks = rename_checks-ok m path path c in absurd (ground (arith, checks.3, found))
  rename_if-RowLost path writer mtime e (ok (e1, some i, parent, name)) c found done =
      let checks = rename_checks-ok m path path c in
      let one : e1 ≡ e = ground (arith, checks.0, found) in
      let target : i ≡ e.inode = ground (arith, checks.3, found) in
      elim (with_mutation-Outcome m writer mtime
        (rename_body x (some i) e1 parent name writer mtime)) [
          | inl (_, _, f, eq) ↦
              let stop : ◌≡◌ {A = Result (Unit {0})} (err f) (ok tt) = rw eq at done in cc
          | inr (r, tx, tx', conn, start, ran, stored, eq) ↦
              let version : ℕ = next_version m.version in
              let q : Stmt = update_place parent name version writer mtime e1.inode in
              let (mid, dropped, moved_row, same) =
                rename_inv x (some i) e1 parent name writer mtime version tx ran in
              rw (eq, same)
                (
                  ground (
                    arith,
                    stored e.inode,
                    x.execute_lem q mid tx' moved_row e.inode,
                    drop_target-table x (some i) tx mid dropped e.inode,
                  ),
                  ground (
                    arith,
                    get-insert e1.inode e.inode (moved e1 parent name writer mtime version)
                        (remove i (update_root_metadata m.index version writer mtime)),
                  ),
                )
        ]

  -- A rename of a path to itself that reports success has deleted the entry's row from the database
  -- and kept the entry in memory.
  pub rename-RowLost :
      (path : Bytes) (writer mtime : ℕ) (e : TreeEntry)
      → lookup_path m path ≡ some e
      → (rename m path path writer mtime).1 ≡ ok tt
      → RowLost (rename m path path writer mtime).0 e.inode
  unfolding rename
  rename-RowLost path writer mtime e found done =
      rename_if-RowLost path writer mtime e _ refl found done
