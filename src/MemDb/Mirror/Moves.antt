-- ===== src/MemDb/Mirror/Moves.antt =====
-- The relation through `set_mtime`, `delete` and `rename` of database.rs.
use pve_cluster.Prelude.{
  ℕ, ◌≡◌, sym, ap, ◌∙◌, Bool, inl, inr, Option, none, some, arith, ◌==◌, if◌then◌else◌, ◌≢◌, refl,
}
use pve_cluster.Bytes.{Bytes}
use pve_cluster.Map.{nat_eq, get, insert, remove}
use pve_cluster.MemDb.Types.{TreeEntry, Result, ok, err}
use pve_cluster.MemDb.External.{
  External, Stmt, Table, update_meta, delete_row, update_place, effect,
}
use pve_cluster.MemDb.State.{MemDb}
use pve_cluster.MemDb.Mutation.Outcome.{run_inv, next_version, with_mutation-Outcome}
use pve_cluster.MemDb.Remove.{
  touched, moved, set_mtime_body, set_mtime_checks, set_mtime_if, delete_body, delete_checks,
  delete_if, drop_target, rename_body, rename_if,
}
use pve_cluster.MemDb.Checks.{set_mtime_checks-ok, delete_checks-ok}
use pve_cluster.MemDb.Mirror.{
  IsMirrored, Mirrors-meta, Mirrors-remove, Mirrors-stored, row_of, Index, Mirrors, root_inode,
  to_row, update_root_metadata, Mirrors-insert,
}
use pve_cluster.MemDb.Mirror.Steps.{found_entry}

-- The rows of a rename, target and all.
abbrev pub without_target : Option ℕ → Table → Table
without_target none t = t
without_target (some i) t = λ j. if i == j then none else t j

pub drop_target-table :
    (x : External) (target : Option ℕ) (tx tx' : x.Conn)
    → drop_target x target tx ≡ some tx'
    → (j : ℕ) → x.table tx' j ≡ without_target target (x.table tx) j
unfolding drop_target
drop_target-table x none tx tx' h j = ap (λ t. x.table t j) (sym (ground (arith, h)))
drop_target-table x (some i) tx tx' h j = x.execute_lem (delete_row i) tx tx' h j

pub rename_inv :
    (x : External) (target : Option ℕ) (e : TreeEntry) (parent : ℕ) (name : Bytes)
    (writer mtime version : ℕ) (tx : x.Conn) {r : TreeEntry} {tx'' : x.Conn}
    → rename_body x target e parent name writer mtime tx version ≡ some (r, tx'')
    → (tx' : x.Conn) × (drop_target x target tx ≡ some tx')
      × (x.execute (update_place parent name version writer mtime e.inode) tx' ≡ some tx'')
      × (r ≡ moved e parent name writer mtime version)
unfolding rename_body
rename_inv x target e parent name writer mtime version tx h = ground arith

-- The rows below, with the target gone, then the entry moved.
rename_rows :
    (target : Option ℕ) (index : Index) (t u v : Table) (e : TreeEntry) (parent : ℕ) (name : Bytes)
    (writer mtime version : ℕ)
    → Mirrors index t
    → ((i : ℕ) → target ≡ some i → (i ≢ e.inode) × (i ≢ root_inode))
    → e.inode ≢ root_inode
    → t e.inode ≡ some (to_row e)
    → ((j : ℕ) → u j ≡ without_target target t j)
    → ((j : ℕ) → v j ≡ effect (update_place parent name version writer mtime e.inode) u j)
    → Mirrors
        (insert e.inode
          (moved e parent name writer mtime version)
          (elim target as (λ _. Index) [ none ↦ index | some i ↦ remove i index ]))
        v
rename_rows none index t u v e parent name writer mtime version h away ne row q k =
    Mirrors-insert index t v (moved e parent name writer mtime version) h ne
      (λ j. ground (arith, k j, q j, row))
rename_rows (some i) index t u v e parent name writer mtime version h away ne row q k =
    Mirrors-insert (remove i index) u v (moved e parent name writer mtime version)
      (Mirrors-remove index t u i h (away i refl).1 q) ne
      (λ j. ground (arith, k j, q j, row, away i refl))

module _ {x : External} where
  pub set_mtime_if-IsMirrored :
      (m : MemDb x) (path : Bytes) (writer mtime now : ℕ) (checked : Result (TreeEntry × Bool))
      → set_mtime_checks m path writer mtime ≡ checked
      → IsMirrored m
      → IsMirrored (set_mtime_if m path writer mtime now checked).0
  unfolding set_mtime_if set_mtime_body
  set_mtime_if-IsMirrored m path writer mtime now (err e) c h = h
  set_mtime_if-IsMirrored m path writer mtime now (ok (e, is_lock)) c h =
      elim (with_mutation-Outcome m writer mtime (set_mtime_body x e writer mtime)) [
        | inl (_, _, _, eq) ↦ rw eq h
        | inr (r, tx, tx', conn, start, ran, stored, eq) ↦
            let version : ℕ = next_version m.version in
            let e' : TreeEntry = touched e writer mtime version in
            let q : Stmt = update_meta version writer mtime e.inode in
            let (done, same) = run_inv e' (x.execute q tx) ran in
            let checks = set_mtime_checks-ok m path writer mtime c in
            let here = found_entry m path h checks.0 in
            let ne = checks.1 in
            rw (eq, same)
              (Mirrors-stored m.index (x.table m.conn) (x.table tx) (x.table tx') (x.table conn)
                version writer mtime e' h start ne
                (λ j. ground (
                  arith,
                  x.execute_lem q tx tx' done j,
                  row_of m.index (x.table m.conn) (x.table tx) version writer mtime e.inode e h
                      start here ne,
                ))
                stored)
      ]

  pub delete_if-IsMirrored :
      (m : MemDb x) (path : Bytes) (writer mtime : ℕ) (checked : Result TreeEntry)
      → delete_checks m path ≡ checked
      → IsMirrored m
      → IsMirrored (delete_if m path writer mtime checked).0
  unfolding delete_if delete_body
  delete_if-IsMirrored m path writer mtime (err e) c h = h
  delete_if-IsMirrored m path writer mtime (ok e) c h =
      elim (with_mutation-Outcome m writer mtime (delete_body x e)) [
        | inl (_, _, _, eq) ↦ rw eq h
        | inr (r, tx, tx', conn, start, ran, stored, eq) ↦
            let version : ℕ = next_version m.version in
            let (done, _) = run_inv tt (x.execute (delete_row e.inode) tx) ran in
            rw eq (
              Mirrors-remove _ (x.table tx) (x.table conn) e.inode
                (Mirrors-meta m.index (x.table m.conn) (x.table tx) version writer mtime h start)
                (delete_checks-ok m path c).1
                (λ j. stored j ∙ x.execute_lem (delete_row e.inode) tx tx' done j))
      ]

  pub rename_if-IsMirrored :
      (m : MemDb x) (writer mtime : ℕ) (e : TreeEntry) (target : Option ℕ) (parent : ℕ)
      (name : Bytes)
      → get e.inode m.index ≡ some e
      → e.inode ≢ root_inode
      → ((i : ℕ) → target ≡ some i → (i ≢ e.inode) × (i ≢ root_inode))
      → IsMirrored m
      → IsMirrored (rename_if m writer mtime (ok (e, target, parent, name))).0
  unfolding rename_if
  rename_if-IsMirrored m writer mtime e target parent name here ne away h =
      elim (with_mutation-Outcome m writer mtime
        (rename_body x target e parent name writer mtime)) [
          | inl (_, _, _, eq) ↦ rw eq h
          | inr (r, tx, tx', conn, start, ran, stored, eq) ↦
              let version : ℕ = next_version m.version in
              let e' : TreeEntry = moved e parent name writer mtime version in
              let q : Stmt = update_place parent name version writer mtime e.inode in
              let (mid, dropped, done, same) =
                rename_inv x target e parent name writer mtime version tx ran in
              let meta =
                Mirrors-meta m.index (x.table m.conn) (x.table tx) version writer mtime h start in
              rw (eq, same)
                (rename_rows target (update_root_metadata m.index version writer mtime) (x.table tx)
                  (x.table mid) (x.table conn) e parent name writer mtime version meta away ne
                  (row_of m.index (x.table m.conn) (x.table tx) version writer mtime e.inode e h
                    start here ne)
                  (drop_target-table x target tx mid dropped)
                  (λ j. stored j ∙ x.execute_lem q mid tx' done j))
        ]
