-- ===== src/MemDb/Encode.antt =====
-- `encode_index` of src/pmxcfs-rs/pmxcfs-memdb/src/sync.rs: the state that a node sends.
pub mod Mirrored
mod Tests
use pve_cluster.Prelude.{ℕ, Option, none, some, [], ◌∷◌, List, if◌then◌else◌, ◌==◌, max}
use pve_cluster.Map.{get, insert, nat_eq}
use pve_cluster.MemDb.Types.{
  TreeEntry, Result, ok, err, root_inode, root_not_found, root_begin_failed, root_update_failed,
  root_commit_failed,
}
use pve_cluster.MemDb.External.{External, update_version}
use pve_cluster.MemDb.State.{MemDb, Index}
use pve_cluster.MemDb.Index.{IndexEntry, MemDbIndex, compute_entry_digest, new, sort_by_inode}

unfoldable pub index_entry : External → TreeEntry → IndexEntry
index_entry x e = record {
  inode = e.inode;
  digest =
      compute_entry_digest x e.inode e.parent e.version e.writer e.mtime e.size e.entry_type e.name
        e.content;
}

-- The entries in the order of the index, before they are sorted.
unfoldable pub index_entries : External → Index → List IndexEntry
index_entries x [] = []
index_entries x ((i, e) ∷ es) = index_entry x e ∷ index_entries x es

unfoldable pub last_inode : Index → ℕ
last_inode [] = 0
last_inode ((i, e) ∷ es) = max i (last_inode es)

module _ {x : External} where
  unfoldable pub encoded : MemDb x → Result MemDbIndex
  encoded m = elim (get root_inode m.index) [
    | none ↦ err root_not_found
    | some root ↦ ok (
        new m.version (last_inode m.index) root.writer root.mtime
          (sort_by_inode (index_entries x m.index)))
  ]

  unfoldable pub version_committed : MemDb x → Option x.Conn → MemDb x × Result MemDbIndex
  version_committed m none = (m, err root_commit_failed)
  version_committed m (some conn) =
      let stored : MemDb x = record m { conn = conn } in (stored, encoded stored)

  unfoldable pub version_executed : MemDb x → Option x.Conn → MemDb x × Result MemDbIndex
  version_executed m none = (m, err root_update_failed)
  version_executed m (some tx) = version_committed m (x.commit tx)

  unfoldable pub version_begun : MemDb x → Option x.Conn → MemDb x × Result MemDbIndex
  version_begun m none = (m, err root_begin_failed)
  version_begun m (some tx) =
      version_executed m (x.execute (update_version m.version root_inode) tx)

  abbrev pub raised : MemDb x → TreeEntry → MemDb x
  raised m root = record m {
    index = insert root_inode (record root { version = m.version }) m.index;
  }

  -- The version of the root, where it lags behind, is set in memory before the transaction.
  unfoldable pub encode_root : MemDb x → Option TreeEntry → MemDb x × Result MemDbIndex
  encode_root m none = (m, err root_not_found)
  encode_root m (some root) =
      if root.version == m.version
      then (m, encoded m)
      else version_begun (raised m root) (x.begin m.conn)

  unfoldable pub encode_index : MemDb x → MemDb x × Result MemDbIndex
  encode_index m = encode_root m (get root_inode m.index)
