-- ===== src/MemDb/Checks.antt =====
-- What the checks of each operation establish when they let it through.
use pve_cluster.Prelude.{
  ℕ, ◌+◌, ◌≡◌, ◌≢◌, ◌≤◌, ◌<◌, Bool, ◌&&◌, true, false, Option, some, arith, length, ap,
  if◌then◌else◌,
}
use mathlib.Core.Option
use pve_cluster.Bytes.{Bytes}
use pve_cluster.Map.{get, nat_eq}
use pve_cluster.MemDb.Types.{
  TreeEntry, ok, is_dir, root_inode, memdb_max_file_size, memdb_max_fssize, memdb_max_inodes,
}
use pve_cluster.MemDb.External.{External}
use pve_cluster.MemDb.Paths.{split_path, is_lock_dir, is_root_path, parts}
use pve_cluster.MemDb.State.{MemDb, lookup_path, resolve, exists, total_size, walk}
use pve_cluster.MemDb.Create.{create_checks}
use pve_cluster.MemDb.Write.{write_checks, size_delta}
use pve_cluster.MemDb.Remove.{set_mtime_checks, delete_checks, rename_checks, is_empty_dir}

module _ {x : External} (m : MemDb x) where
  -- A path that is found leads to an entry of the index.
  pub lookup_path-get :
      (path : Bytes) {e : TreeEntry}
      → lookup_path m path ≡ some e
      → (i : ℕ) × (resolve m path ≡ some i) × (get i m.index ≡ some e)
  unfolding lookup_path
  lookup_path-get path h = ground arith

  pub resolve_tree :
      (n : MemDb x) (path : Bytes) → n.tree ≡ m.tree → resolve n path ≡ resolve m path
  unfolding resolve
  resolve_tree n path e =
      ap (λ t. if is_root_path path then some root_inode else walk t (parts path) root_inode) e

  pub lookup_path_at :
      (path : Bytes) {i : ℕ} → resolve m path ≡ some i → lookup_path m path ≡ get i m.index
  unfolding lookup_path
  lookup_path_at path h = rw (h, lookup_path)

  pub write_checks-ok :
      (path : Bytes) (offset : ℕ) (bytes : Bytes) {e : TreeEntry}
      → write_checks m path offset bytes ≡ ok e
      → (lookup_path m path ≡ some e)
        × (is_dir e ≡ false)
        × (m.errors ≡ false)
        × (offset + length bytes ≤ memdb_max_file_size)
        × (0 < size_delta e (offset + length bytes)
            → total_size m.index + size_delta e (offset + length bytes) ≤ memdb_max_fssize)
  unfolding write_checks
  write_checks-ok path offset bytes h = ground arith

  pub create_checks-ok :
      (path : Bytes) {parent_path basename : Bytes} {parent : TreeEntry}
      → create_checks m path ≡ ok (parent_path, basename, parent)
      → (exists m path ≡ false)
        × (split_path path ≡ ok (parent_path, basename))
        × (lookup_path m parent_path ≡ some parent)
        × (is_dir parent ≡ true)
        × (m.errors ≡ false)
        × (length m.index < memdb_max_inodes)
  unfolding create_checks
  create_checks-ok path h = ground arith

  pub delete_checks-ok :
      (path : Bytes) {e : TreeEntry}
      → delete_checks m path ≡ ok e
      → (lookup_path m path ≡ some e)
        × (e.inode ≢ root_inode)
        × (is_dir e ≡ true → is_empty_dir m.tree e.inode ≡ true)
  unfolding delete_checks
  delete_checks-ok path h = ground arith

  pub set_mtime_checks-ok :
      (path : Bytes) (writer mtime : ℕ) {e : TreeEntry} {is_lock : Bool}
      → set_mtime_checks m path writer mtime ≡ ok (e, is_lock)
      → (lookup_path m path ≡ some e)
        × (e.inode ≢ root_inode)
        × (is_lock ≡ true → (e.mtime ≤ mtime) × (e.writer ≡ writer))
  unfolding set_mtime_checks
  set_mtime_checks-ok path writer mtime h = ground arith

  pub rename_checks-ok :
      (old_path new_path : Bytes) {e : TreeEntry} {target : Option ℕ} {parent : ℕ} {name : Bytes}
      → rename_checks m old_path new_path ≡ ok (e, target, parent, name)
      → (lookup_path m old_path ≡ some e)
        × (e.inode ≢ root_inode)
        × (is_dir e && is_lock_dir old_path ≡ false)
        × (target ≡ Option.map (λ (t : TreeEntry). t.inode) (lookup_path m new_path))
  unfolding rename_checks
  rename_checks-ok old_path new_path h = ground arith
