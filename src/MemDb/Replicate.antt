-- ===== src/MemDb/Replicate.antt =====
-- What a node takes over from others: `apply_tree_entry` and `replace_all_entries` of
-- src/pmxcfs-rs/pmxcfs-memdb/src/database.rs.
use pve_cluster.Prelude.{
  ℕ, none, some, [], ◌∷◌, true, false, if◌then◌else◌, Option, max, List, ◌==◌, ◌&&◌,
}
use pve_cluster.Bytes.{bytes_eq}
use pve_cluster.Map.{get, insert, nat_eq}
use pve_cluster.MemDb.Types.{
  TreeEntry, Result, ok, err, is_dir, root_inode, version_filename, begin_failed, mutation_failed,
  commit_failed,
}
use pve_cluster.MemDb.External.{External, Row, insert_row, replace_row, delete_all, update_meta}
use pve_cluster.MemDb.State.{MemDb, Index, Tree}
use pve_cluster.MemDb.Mutation.{update_root_metadata}
use pve_cluster.MemDb.Create.{to_row, link, children_of}
use pve_cluster.MemDb.Remove.{unlink}
pub mod Agreement

-- The root's row is named `__version__`.
abbrev pub stored_row : TreeEntry → Row
stored_row e =
    if e.inode == root_inode then record (to_row e) { name = version_filename } else to_row e

-- The statements of `apply_tree_entry`, the second one being `update_version_entry`.
unfoldable pub apply_statements : (x : External) → TreeEntry → x.Conn → Option x.Conn
apply_statements x e tx = elim (x.execute (replace_row e.inode (stored_row e)) tx) [
  | none ↦ none
  | some tx' ↦
      if e.inode == root_inode
      then some tx'
      else x.execute (update_meta e.version e.writer e.mtime root_inode) tx'
]

-- The entry moves in the tree if it is new or its parent or name has changed.
unfoldable pub relink : Option TreeEntry → TreeEntry → Tree → Tree
relink none e t = link e.parent e.name e.inode t
relink (some old) e t =
    if (old.parent == e.parent) && bytes_eq old.name e.name
    then t
    else link e.parent e.name e.inode (unlink old.parent old.name t)

-- `tree.entry(entry.inode).or_default()` for a directory.
abbrev pub with_children : TreeEntry → Tree → Tree
with_children e t = if is_dir e then insert e.inode (children_of e.inode t) t else t

abbrev pub applied_index : TreeEntry → Index → Index
applied_index e index =
    let i = insert e.inode e index in
    if e.inode == root_inode then i else update_root_metadata i e.version e.writer e.mtime

module _ {x : External} where
  -- The structures in memory, which change before the commit.
  unfoldable pub apply_memory : TreeEntry → MemDb x → MemDb x
  unfolding relink
  apply_memory e m = record m {
    index = applied_index e m.index;
    tree = with_children e (relink (get e.inode m.index) e m.tree);
    version = max m.version e.version;
  }

  unfoldable pub apply_committed : MemDb x → Option x.Conn → MemDb x × Result (Unit {0})
  apply_committed m none = (m, err commit_failed)
  apply_committed m (some conn) = (record m { conn = conn }, ok tt)

  unfoldable pub apply_executed : MemDb x → TreeEntry → Option x.Conn → MemDb x × Result (Unit {0})
  unfolding apply_committed apply_memory
  apply_executed m e none = (m, err mutation_failed)
  apply_executed m e (some tx) = apply_committed (apply_memory e m) (x.commit tx)

  unfoldable pub apply_begun : MemDb x → TreeEntry → Option x.Conn → MemDb x × Result (Unit {0})
  unfolding apply_executed apply_statements
  apply_begun m e none = (m, err begin_failed)
  apply_begun m e (some tx) = apply_executed m e (apply_statements x e tx)

  unfoldable pub apply_tree_entry : MemDb x → TreeEntry → MemDb x × Result (Unit {0})
  unfolding apply_begun
  apply_tree_entry m e = apply_begun m e (x.begin m.conn)

-- `replace_all_entries`: the statements, the highest version, and the structures in memory.
unfoldable pub insert_rows : (x : External) → List TreeEntry → x.Conn → Option x.Conn
insert_rows x [] tx = some tx
insert_rows x (e ∷ es) tx = elim (x.execute (insert_row e.inode (to_row e)) tx) [
  | none ↦ none
  | some tx' ↦ insert_rows x es tx'
]

unfoldable pub replace_rows : (x : External) → List TreeEntry → x.Conn → Option x.Conn
unfolding insert_rows
replace_rows x es tx = elim (x.execute delete_all tx) [
  | none ↦ none
  | some tx' ↦ insert_rows x es tx'
]

unfoldable pub max_version : List TreeEntry → ℕ
max_version [] = 0
max_version (e ∷ es) = max e.version (max_version es)

unfoldable pub load_entries : List TreeEntry → Index → Tree → Index × Tree
load_entries [] index tree = (index, tree)
load_entries (e ∷ es) index tree =
    load_entries es (insert e.inode e index) (with_children e (link e.parent e.name e.inode tree))

module _ {x : External} where
  unfoldable pub replaced : MemDb x → List TreeEntry → x.Conn → MemDb x
  unfolding max_version load_entries
  replaced m es conn = record m {
    conn = conn;
    index = (load_entries es [] []).0;
    tree = (load_entries es [] []).1;
    version = max_version es;
  }

  unfoldable pub replace_committed :
      MemDb x → List TreeEntry → Option x.Conn → MemDb x × Result (Unit {0})
  unfolding replaced
  replace_committed m es none = (m, err commit_failed)
  replace_committed m es (some conn) = (replaced m es conn, ok tt)

  unfoldable pub replace_executed :
      MemDb x → List TreeEntry → Option x.Conn → MemDb x × Result (Unit {0})
  unfolding replace_committed
  replace_executed m es none = (m, err mutation_failed)
  replace_executed m es (some tx) = replace_committed m es (x.commit tx)

  unfoldable pub replace_begun :
      MemDb x → List TreeEntry → Option x.Conn → MemDb x × Result (Unit {0})
  unfolding replace_executed replace_rows
  replace_begun m es none = (m, err begin_failed)
  replace_begun m es (some tx) = replace_executed m es (replace_rows x es tx)

  unfoldable pub replace_all_entries : MemDb x → List TreeEntry → MemDb x × Result (Unit {0})
  unfolding replace_begun
  replace_all_entries m es = replace_begun m es (x.begin m.conn)
