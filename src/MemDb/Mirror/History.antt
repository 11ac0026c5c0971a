-- ===== src/MemDb/Mirror/History.antt =====
-- Whole histories of calls of `MemDbOps` (traits.rs, database.rs).
use pve_cluster.Prelude.{
  inl, inr, ℕ, ◌+◌, ◌≡◌, ◌≢◌, refl, List, [], ◌∷◌, Bool, ◌<◌, some, Option, ◌^◌, Option-cases,
  arith,
}
use pve_cluster.Bytes.{Bytes}
use pve_cluster.MemDb.Types.{TreeEntry, Result, ok, err, root_inode}
use pve_cluster.MemDb.External.{External}
use pve_cluster.MemDb.State.{MemDb, lookup_path}
use pve_cluster.MemDb.Create.{create, create_checks}
use pve_cluster.MemDb.Write.{write}
use pve_cluster.MemDb.Remove.{set_mtime, delete, rename, rename_checks, rename_if}
use pve_cluster.MemDb.Checks.{rename_checks-ok}
use pve_cluster.MemDb.Mirror.{IsMirrored}
use pve_cluster.MemDb.Mirror.Steps.{create_if-IsMirrored, write_if-IsMirrored, found_entry}
use pve_cluster.MemDb.Mirror.Moves.{
  set_mtime_if-IsMirrored, delete_if-IsMirrored, rename_if-IsMirrored,
}

-- A call of the interface `MemDbOps` that changes the tree, with its writer, its time stamp and the
-- clock.
pub data Call : Type 0 where
  create_at : Bytes → (mode writer mtime now : ℕ) → Call
  write_at : Bytes → (offset writer mtime : ℕ) → Bytes → Bool → Call
  set_mtime_at : Bytes → (writer mtime now : ℕ) → Call
  delete_at : Bytes → (writer mtime : ℕ) → Call
  rename_at : Bytes → Bytes → (writer mtime : ℕ) → Call

module _ {x : External} where
  unfoldable pub step : MemDb x → Call → MemDb x
  step m (create_at path mode writer mtime now) = (create m path mode writer mtime now).0
  step m (write_at path offset writer mtime bytes truncate) =
      (write m path offset writer mtime bytes truncate).0
  step m (set_mtime_at path writer mtime now) = (set_mtime m path writer mtime now).0
  step m (delete_at path writer mtime) = (delete m path writer mtime).0
  step m (rename_at old_path new_path writer mtime) = (rename m old_path new_path writer mtime).0

  unfoldable pub run : MemDb x → List Call → MemDb x
  run m [] = m
  run m (c ∷ cs) = run (step m c) cs

  -- No rename onto its own source or onto the root.
  abbrev pub MovesAway : MemDb x → Call → Type 0
  MovesAway m (rename_at old_path new_path writer mtime) =
      (e t : TreeEntry)
      → lookup_path m old_path ≡ some e
      → lookup_path m new_path ≡ some t
      → (t.inode ≢ e.inode) × (t.inode ≢ root_inode)
  MovesAway m c = Unit {0}

  -- So along a whole history, in which the version counter does not wrap either.
  abbrev pub AllMoveAway : MemDb x → List Call → Type 0
  AllMoveAway m [] = Unit {0}
  AllMoveAway m (c ∷ cs) = (m.version + 1 < 2 ^ 64) × MovesAway m c × AllMoveAway (step m c) cs

  rename-IsMirrored :
      (m : MemDb x) (old_path new_path : Bytes) (writer mtime : ℕ)
      (checked : Result (TreeEntry × Option ℕ × ℕ × Bytes))
      → rename_checks m old_path new_path ≡ checked
      → MovesAway m (rename_at old_path new_path writer mtime)
      → IsMirrored m
      → IsMirrored (rename_if m writer mtime checked).0
  unfolding rename_if
  rename-IsMirrored m old_path new_path writer mtime (err e) c away h = h
  rename-IsMirrored m old_path new_path writer mtime (ok (e, target, parent, name)) c away h =
      let checks = rename_checks-ok m old_path new_path c in
      rename_if-IsMirrored m writer mtime e target parent name (found_entry m old_path h checks.0)
        checks.1
        (λ i q. elim (Option-cases (lookup_path m new_path)) [
          | inl z ↦ absurd (ground (arith, checks.3, q))
          | inr (t, z) ↦ ground (arith, checks.3, q, away e t checks.0 z)
        ])
        h

  -- If the table of SQLite mirrored the entries in memory before a call, it does after it, whether the
  -- call succeeds or fails at any of its steps. The version counter must not wrap, and a rename must
  -- not lead onto its own source or onto the root.
  pub step-IsMirrored :
      (m : MemDb x) (c : Call)
      → m.version + 1 < 2 ^ 64
      → MovesAway m c
      → IsMirrored m
      → IsMirrored (step m c)
  unfolding step create write set_mtime delete rename
  step-IsMirrored m (create_at path mode writer mtime now) v away h =
      create_if-IsMirrored m path mode writer mtime now (create_checks m path) v h
  step-IsMirrored m (write_at path offset writer mtime bytes truncate) v away h =
      write_if-IsMirrored m path offset writer mtime bytes truncate _ refl h
  step-IsMirrored m (set_mtime_at path writer mtime now) v away h =
      set_mtime_if-IsMirrored m path writer mtime now _ refl h
  step-IsMirrored m (delete_at path writer mtime) v away h =
      delete_if-IsMirrored m path writer mtime _ refl h
  step-IsMirrored m (rename_at old_path new_path writer mtime) v away h =
      rename-IsMirrored m old_path new_path writer mtime _ refl away h

  -- If the table of SQLite mirrored the entries in memory at first, it does after any list of calls, in
  -- each of which the version counter does not wrap and no rename leads onto its own source or onto
  -- the root.
  pub run-IsMirrored :
      (m : MemDb x) (cs : List Call) → AllMoveAway m cs → IsMirrored m → IsMirrored (run m cs)
  unfolding run
  run-IsMirrored m [] a h = h
  run-IsMirrored m (c ∷ cs) a h = run-IsMirrored (step m c) cs a.2 (step-IsMirrored m c a.0 a.1 h)
