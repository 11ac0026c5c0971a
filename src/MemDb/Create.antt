-- ===== src/MemDb/Create.antt =====
-- `create` of database.rs, with the lock registration that follows it (`lock_expired`, locks.rs).
pub mod Registration
use Prim.Native.Nat.{bit_and}
use pve_cluster.Prelude.{
  ℕ, ◌-◌, Bool, false, not, ◌&&◌, ◌||◌, none, some, [], ltb, ◌==◌, if◌then◌else◌, length,
}
use mathlib.Core.Option
use pve_cluster.Bytes.{Bytes, codes, bytes_eq}
use pve_cluster.Map.{get, insert, nat_eq, bytes_key}
use pve_cluster.MemDb.Types.{
  TreeEntry, Result, ok, err, is_dir, checksum_input, dt_dir, dt_reg, lock_dir_path, lock_timeout,
  memdb_max_inodes, database_has_errors, file_exists, access_denied, parent_not_found,
  parent_not_directory, too_many_inodes,
}
use pve_cluster.MemDb.External.{External, Row, insert_row}
use pve_cluster.MemDb.Paths.{split_path, lock_cache_key}
use pve_cluster.MemDb.State.{
  MemDb, Tree, Children, ◌>>=◌, ◌>>◌, guard, or_fail, lookup_path, exists,
}
use pve_cluster.MemDb.Mutation.{Body, mutate}

-- The columns that a statement stores for an entry: a directory has no data.
abbrev pub to_row : TreeEntry → Row
to_row e = record {
  parent = e.parent;
  version = e.version;
  writer = e.writer;
  mtime = e.mtime;
  row_type = e.entry_type;
  name = e.name;
  content = if is_dir e then none else some e.content;
}

-- `tree.entry(i).or_default()`.
abbrev pub children_of : ℕ → Tree → Children
children_of i t = elim (get i t) [ none ↦ [] | some cs ↦ cs ]

-- `tree.entry(parent).or_default().insert(name, inode)`.
unfoldable pub link : ℕ → Bytes → ℕ → Tree → Tree
link parent name i t = insert parent (insert name i (children_of parent t)) t

abbrev pub s_ifdir : ℕ
s_ifdir = 0x4000

unfoldable pub compute_checksum : External → TreeEntry → Bytes
compute_checksum x e = x.sha256 (checksum_input e)

abbrev pub new_entry : TreeEntry → Bytes → ℕ → ℕ → ℕ → ℕ → TreeEntry
new_entry parent basename mode writer mtime version = record {
  inode = version;
  parent = parent.inode;
  version = version;
  writer = writer;
  mtime = mtime;
  size = 0;
  entry_type = if bit_and mode s_ifdir == 0 then dt_reg else dt_dir;
  name = basename;
  content = [];
}

-- The closure that inserts the row.
unfoldable pub create_body : (x : External) → TreeEntry → Bytes → ℕ → ℕ → ℕ → Body x TreeEntry
create_body x parent basename mode writer mtime tx version =
    let e = new_entry parent basename mode writer mtime version in
    Option.map (λ tx'. (e, tx')) (x.execute (insert_row e.inode (to_row e)) tx)

module _ {x : External} where
  -- `lock_expired` at the time `now`: the table of locks after the call, and its answer.
  unfoldable pub lock_expired : MemDb x → Bytes → Bytes → ℕ → MemDb x × Bool
  lock_expired m path csum now =
      let key = lock_cache_key path in
      let fresh = record m { locks = insert key (record { ltime = now; csum = csum }) m.locks } in
      elim (get key m.locks) [
        | none ↦ (fresh, false)
        | some info ↦
            if bytes_eq info.csum csum
            then (m, ltb lock_timeout (now - info.ltime))
            else (fresh, false)
      ]

  -- The checks of `create`, in their order: the parent's path, the base name, and the parent.
  unfoldable pub create_checks : MemDb x → Bytes → Result (Bytes × Bytes × TreeEntry)
  create_checks m path = do
    guard (not m.errors) database_has_errors
    guard (not (exists m path)) file_exists
    (parent_path, basename) ← split_path path
    guard
        (not (
          bytes_eq basename []
          || (bytes_eq basename (codes ".") || bytes_eq basename (codes ".."))))
        access_denied
    parent ← or_fail (lookup_path m parent_path) parent_not_found
    guard (is_dir parent) parent_not_directory
    guard (ltb (length m.index) memdb_max_inodes) too_many_inodes
    ok (parent_path, basename, parent)

  -- The in-memory structures after the commit.
  unfoldable pub add_entry : TreeEntry → MemDb x → MemDb x
  unfolding link
  add_entry e m =
      let linked = link e.parent e.name e.inode m.tree in
      record m {
        index = insert e.inode e m.index;
        tree = if is_dir e then insert e.inode [] linked else linked;
      }

  unfoldable pub register_lock : Bytes → Bytes → TreeEntry → ℕ → MemDb x → MemDb x
  register_lock path parent_path e now m =
      if is_dir e && bytes_eq parent_path lock_dir_path
      then (lock_expired m path (compute_checksum x e) now).0
      else m

  unfoldable pub finish_create :
      Bytes → Bytes → ℕ → MemDb x × Result TreeEntry → MemDb x × Result (Unit {0})
  finish_create path parent_path now (m, err e) = (m, err e)
  finish_create path parent_path now (m, ok e) =
      (register_lock path parent_path e now (add_entry e m), ok tt)

  unfoldable pub create_if :
      MemDb x
      → Bytes
      → ℕ
      → ℕ
      → ℕ
      → ℕ
      → Result (Bytes × Bytes × TreeEntry)
      → MemDb x × Result (Unit {0})
  unfolding finish_create
  create_if m path mode writer mtime now (err e) = (m, err e)
  create_if m path mode writer mtime now (ok (parent_path, basename, parent)) =
      finish_create path parent_path now
        (mutate m writer mtime (create_body x parent basename mode writer mtime))

  unfoldable pub create : MemDb x → Bytes → ℕ → ℕ → ℕ → ℕ → MemDb x × Result (Unit {0})
  unfolding create_if
  create m path mode writer mtime now =
      create_if m path mode writer mtime now (create_checks m path)
