-- ===== src/MemDb/Mirror/Steps.antt =====
-- The relation through a mutation, `create` and `write` of database.rs.
use pve_cluster.Prelude.{
  ℕ, ◌+◌, ◌^◌, ◌<◌, ◌≡◌, ◌≢◌, sym, subst, Bool, true, false, inl, inr, some, arith, if◌then◌else◌,
  ◌&&◌,
}
use pve_cluster.Bytes.{Bytes, bytes_eq}
use pve_cluster.Map.{get, nat_eq}
use pve_cluster.MemDb.Types.{TreeEntry, Result, ok, err, is_dir, root_inode, lock_dir_path}
use pve_cluster.MemDb.External.{External, Stmt, insert_row, update_content}
use pve_cluster.MemDb.State.{MemDb, lookup_path}
use pve_cluster.MemDb.Mutation.Outcome.{run_inv, run_inv, next_version, mutate-Outcome}
use pve_cluster.MemDb.Create.{
  to_row, new_entry, create_body, add_entry, register_lock, create_if, lock_expired,
  compute_checksum,
}
use pve_cluster.MemDb.Write.{write_body, write_checks, written_entry, write_if}
use pve_cluster.MemDb.Checks.{lookup_path-get, write_checks-ok}
use pve_cluster.MemDb.Mirror.{IsMirrored, Mirrors-stored, row_of, file-ne-root}

module _ {x : External} where
  lock_expired-IsMirrored :
      (m : MemDb x) (path csum : Bytes) (now : ℕ)
      → IsMirrored m
      → IsMirrored (lock_expired m path csum now).0
  unfolding lock_expired
  lock_expired-IsMirrored m path csum now h = ground (arith, h)

  if-IsMirrored :
      (b : Bool) (n m : MemDb x) → IsMirrored n → IsMirrored m → IsMirrored (if b then n else m)
  if-IsMirrored true n m h k = h
  if-IsMirrored false n m h k = k

  register_lock-IsMirrored :
      (m : MemDb x) (path parent_path : Bytes) (e : TreeEntry) (now : ℕ)
      → IsMirrored m
      → IsMirrored (register_lock path parent_path e now m)
  unfolding register_lock
  register_lock-IsMirrored m path parent_path e now h =
      if-IsMirrored (is_dir e && bytes_eq parent_path lock_dir_path) _ m
        (lock_expired-IsMirrored m path (compute_checksum x e) now h) h

  pub create_if-IsMirrored :
      (m : MemDb x) (path : Bytes) (mode writer mtime now : ℕ)
      (checked : Result (Bytes × Bytes × TreeEntry))
      → m.version + 1 < 2 ^ 64
      → IsMirrored m
      → IsMirrored (create_if m path mode writer mtime now checked).0
  unfolding create_if create_body add_entry
  create_if-IsMirrored m path mode writer mtime now (err e) v h = h
  create_if-IsMirrored m path mode writer mtime now (ok (pp, b, parent)) v h =
      elim (mutate-Outcome m writer mtime (create_body x parent b mode writer mtime)) [
        | inl (_, _, _, eq) ↦ rw eq h
        | inr (r, tx, tx', conn, start, ran, stored, eq) ↦
            let version : ℕ = next_version m.version in
            let e : TreeEntry = new_entry parent b mode writer mtime version in
            let (done, same) = run_inv e (x.execute (insert_row e.inode (to_row e)) tx) ran in
            rw (eq, same)
              (register_lock-IsMirrored _ path pp e now (
                Mirrors-stored m.index (x.table m.conn) (x.table tx) (x.table tx') (x.table conn)
                  version writer mtime e h start (omega arith)
                  (x.execute_lem (insert_row e.inode (to_row e)) tx tx' done) stored))
      ]

  pub found_entry :
      (m : MemDb x) (path : Bytes) {e : TreeEntry}
      → IsMirrored m
      → lookup_path m path ≡ some e
      → get e.inode m.index ≡ some e
  found_entry m path {e} h found =
      let (i, _, at) = lookup_path-get m path found in
      subst (λ k. get k m.index ≡ some e) (sym (h.keyed i e at)) at

  pub write_if-IsMirrored :
      (m : MemDb x) (path : Bytes) (offset writer mtime : ℕ) (bytes : Bytes) (truncate : Bool)
      (checked : Result TreeEntry)
      → write_checks m path offset bytes ≡ checked
      → IsMirrored m
      → IsMirrored (write_if m offset writer mtime bytes truncate checked).0
  unfolding write_if write_body
  write_if-IsMirrored m path offset writer mtime bytes truncate (err e) c h = h
  write_if-IsMirrored m path offset writer mtime bytes truncate (ok e) c h =
      elim (mutate-Outcome m writer mtime (write_body x e offset writer mtime bytes truncate)) [
        | inl (_, _, _, eq) ↦ rw eq h
        | inr (r, tx, tx', conn, start, ran, stored, eq) ↦
            let version : ℕ = next_version m.version in
            let e' : TreeEntry = written_entry e offset writer mtime bytes truncate version in
            let q : Stmt = update_content version writer mtime e'.content e.inode in
            let (done, same) = run_inv e' (x.execute q tx) ran in
            let checks = write_checks-ok m path offset bytes c in
            let here = found_entry m path h checks.0 in
            let file = checks.1 in
            let ne : e.inode ≢ root_inode =
              file-ne-root m.index (x.table m.conn) e.inode e h here file in
            rw (eq, same)
              (Mirrors-stored m.index (x.table m.conn) (x.table tx) (x.table tx') (x.table conn)
                version writer mtime e' h start ne
                (λ j. ground (
                  arith,
                  x.execute_lem q tx tx' done j,
                  row_of m.index (x.table m.conn) (x.table tx) version writer mtime e.inode e h
                      start here ne,
                ))
                stored)
      ]
