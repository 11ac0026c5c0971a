-- ===== src/MemDb/Remove.antt =====
-- `set_mtime`, `delete` and `rename` of database.rs, which run under `with_mutation`.
use pve_cluster.Prelude.{
  ℕ, Bool, true, false, not, ◌&&◌, ◌||◌, Option, none, some, [], ◌∷◌, ltb, ◌==◌, if◌then◌else◌,
}
use mathlib.Core.Option
use pve_cluster.Bytes.{Bytes, bytes_eq}
use pve_cluster.Map.{get, insert, remove, nat_eq, bytes_key}
use pve_cluster.MemDb.Types.{
  TreeEntry, LockInfo, Result, ok, err, is_dir, root_inode, lock_dir_path, file_not_found,
  cannot_change_root, lock_older_mtime, lock_wrong_owner, directory_not_empty, access_denied,
  parent_not_found, parent_not_directory,
}
use pve_cluster.MemDb.External.{External, Stmt, update_meta, update_place, delete_row}
use pve_cluster.MemDb.Paths.{split_path, trim_start, is_lock_dir}
use pve_cluster.MemDb.State.{MemDb, Index, Tree, ◌>>=◌, ◌>>◌, guard, or_fail, lookup_path}
use pve_cluster.MemDb.Mutation.{Body, with_mutation}
use pve_cluster.MemDb.Create.{compute_checksum, link}

-- `if let Some(children) = tree.get_mut(&parent) { children.remove(&name) }`.
unfoldable pub unlink : ℕ → Bytes → Tree → Tree
unlink parent name t = elim (get parent t) [ none ↦ t | some cs ↦ insert parent (remove name cs) t ]

-- A closure that runs one statement and returns a value made from the version.
abbrev pub run_one : (x : External) {R : Type 0} → Stmt → R → x.Conn → Option (R × x.Conn)
run_one x q r tx = Option.map (λ tx'. (r, tx')) (x.execute q tx)

abbrev pub is_empty_dir : Tree → ℕ → Bool
is_empty_dir t i = elim (get i t) [ none ↦ true | some cs ↦ elim cs [ [] ↦ true | _ ∷ _ ↦ false ] ]

-- `parent_path.trim_start_matches('/') == LOCK_DIR_PATH && entry.is_dir()`.
abbrev pub is_lock_entry : Bytes → TreeEntry → Bool
is_lock_entry parent_path e = bytes_eq (trim_start parent_path) lock_dir_path && is_dir e

abbrev pub touched : TreeEntry → ℕ → ℕ → ℕ → TreeEntry
touched e writer mtime version = record e { version = version; writer = writer; mtime = mtime }

abbrev pub moved : TreeEntry → ℕ → Bytes → ℕ → ℕ → ℕ → TreeEntry
moved e parent name writer mtime version = record e {
  parent = parent;
  name = name;
  writer = writer;
  mtime = mtime;
  version = version;
}

unfoldable pub set_mtime_body : (x : External) → TreeEntry → ℕ → ℕ → Body x TreeEntry
set_mtime_body x e writer mtime tx version =
    run_one x (update_meta version writer mtime e.inode) (touched e writer mtime version) tx

unfoldable pub delete_body : (x : External) → TreeEntry → Body x (Unit {0})
delete_body x e tx version = run_one x (delete_row e.inode) tt tx

-- The target's row goes first, if there is a target.
unfoldable pub drop_target : (x : External) → Option ℕ → x.Conn → Option x.Conn
drop_target x none tx = some tx
drop_target x (some i) tx = x.execute (delete_row i) tx

unfoldable pub rename_body :
    (x : External) → Option ℕ → TreeEntry → ℕ → Bytes → ℕ → ℕ → Body x TreeEntry
unfolding drop_target
rename_body x target e parent name writer mtime tx version = elim (drop_target x target tx) [
  | none ↦ none
  | some tx' ↦
      run_one x (update_place parent name version writer mtime e.inode)
        (moved e parent name writer mtime version) tx'
]

module _ {x : External} where
  unfoldable pub set_mtime_checks : MemDb x → Bytes → ℕ → ℕ → Result (TreeEntry × Bool)
  set_mtime_checks m path writer mtime = do
    entry ← or_fail (lookup_path m path) file_not_found
    guard (not (entry.inode == root_inode)) cannot_change_root
    (parent_path, _) ← split_path path
    let is_lock = is_lock_entry parent_path entry
    guard (not (is_lock && ltb mtime entry.mtime)) lock_older_mtime
    guard (not (is_lock && not (entry.writer == writer))) lock_wrong_owner
    ok (entry, is_lock)

  -- The refreshed lock goes under the path as it was given.
  unfoldable pub finish_set_mtime :
      Bytes → Bool → ℕ → MemDb x × Result TreeEntry → MemDb x × Result (Unit {0})
  finish_set_mtime path is_lock now (m, err e) = (m, err e)
  finish_set_mtime path is_lock now (m, ok e) =
      let info : LockInfo = record { ltime = now; csum = compute_checksum x e } in
      (
        record m {
          index = insert e.inode e m.index;
          locks = if is_lock then insert path info (remove path m.locks) else m.locks;
        },
        ok tt,
      )

  unfoldable pub set_mtime_if :
      MemDb x → Bytes → ℕ → ℕ → ℕ → Result (TreeEntry × Bool) → MemDb x × Result (Unit {0})
  unfolding finish_set_mtime
  set_mtime_if m path writer mtime now (err e) = (m, err e)
  set_mtime_if m path writer mtime now (ok (entry, is_lock)) =
      finish_set_mtime path is_lock now
        (with_mutation m writer mtime (set_mtime_body x entry writer mtime))

  unfoldable pub set_mtime : MemDb x → Bytes → ℕ → ℕ → ℕ → MemDb x × Result (Unit {0})
  unfolding set_mtime_if
  set_mtime m path writer mtime now =
      set_mtime_if m path writer mtime now (set_mtime_checks m path writer mtime)

  unfoldable pub delete_checks : MemDb x → Bytes → Result TreeEntry
  delete_checks m path = do
    entry ← or_fail (lookup_path m path) file_not_found
    guard (not (entry.inode == root_inode)) cannot_change_root
    guard (not (is_dir entry) || is_empty_dir m.tree entry.inode) directory_not_empty
    ok entry

  unfoldable pub finish_delete :
      Bytes → TreeEntry → MemDb x × Result (Unit {0}) → MemDb x × Result (Unit {0})
  finish_delete path entry (m, err e) = (m, err e)
  finish_delete path entry (m, ok r) =
      let t = unlink entry.parent entry.name m.tree in
      (
        record m {
          index = remove entry.inode m.index;
          tree = if is_dir entry then remove entry.inode t else t;
          locks = if is_dir entry then remove path m.locks else m.locks;
        },
        ok tt,
      )

  unfoldable pub delete_if :
      MemDb x → Bytes → ℕ → ℕ → Result TreeEntry → MemDb x × Result (Unit {0})
  unfolding finish_delete
  delete_if m path writer mtime (err e) = (m, err e)
  delete_if m path writer mtime (ok entry) =
      finish_delete path entry (with_mutation m writer mtime (delete_body x entry))

  unfoldable pub delete : MemDb x → Bytes → ℕ → ℕ → MemDb x × Result (Unit {0})
  unfolding delete_if
  delete m path writer mtime = delete_if m path writer mtime (delete_checks m path)

  -- The checks of `rename`: the entry, the target's inode, the new parent's inode and the new name.
  unfoldable pub rename_checks : MemDb x → Bytes → Bytes → Result (TreeEntry × Option ℕ × ℕ × Bytes)
  rename_checks m old_path new_path = do
    entry ← or_fail (lookup_path m old_path) file_not_found
    guard (not (entry.inode == root_inode)) cannot_change_root
    guard (not (is_dir entry && is_lock_dir old_path)) access_denied
    let target = Option.map (λ (t : TreeEntry). t.inode) (lookup_path m new_path)
    (new_parent_path, new_basename) ← split_path new_path
    parent ← or_fail (lookup_path m new_parent_path) parent_not_found
    guard (is_dir parent) parent_not_directory
    ok (entry, target, parent.inode, new_basename)

  unfoldable pub finish_rename :
      TreeEntry → Option ℕ → MemDb x × Result TreeEntry → MemDb x × Result (Unit {0})
  finish_rename old target (m, err e) = (m, err e)
  finish_rename old target (m, ok e) =
      let without : Index = elim target [ none ↦ m.index | some i ↦ remove i m.index ] in
      (
        record m {
          index = insert e.inode e without;
          tree = link e.parent e.name e.inode (unlink old.parent old.name m.tree);
        },
        ok tt,
      )

  unfoldable pub rename_if :
      MemDb x → ℕ → ℕ → Result (TreeEntry × Option ℕ × ℕ × Bytes) → MemDb x × Result (Unit {0})
  unfolding finish_rename
  rename_if m writer mtime (err e) = (m, err e)
  rename_if m writer mtime (ok (entry, target, parent, name)) =
      finish_rename entry target
        (with_mutation m writer mtime (rename_body x target entry parent name writer mtime))

  unfoldable pub rename : MemDb x → Bytes → Bytes → ℕ → ℕ → MemDb x × Result (Unit {0})
  unfolding rename_if
  rename m old_path new_path writer mtime =
      rename_if m writer mtime (rename_checks m old_path new_path)
