-- ===== src/MemDb/Encode/Tests.antt =====
-- `encode_index` where the version of the root lags behind.
use pve_cluster.Prelude.{◌≡◌, refl, [], ◌∷◌}
use pve_cluster.Map.{get, insert, nat_eq}
use pve_cluster.MemDb.Types.{ok}
use pve_cluster.MemDb.State.{MemDb}
use pve_cluster.MemDb.Index.{MemDbIndex, sort_by_inode, new}
use pve_cluster.MemDb.Mirror.{IsMirrored}
use pve_cluster.MemDb.Tests.{plain, small, root, motd, small-IsMirrored}
use pve_cluster.MemDb.Encode.{
  encode_index, encode_root, encoded, version_begun, version_executed, version_committed,
  index_entries, index_entry, last_inode,
}
use pve_cluster.MemDb.Encode.Mirrored.{encode_index-IsMirrored}

-- The counter of `small` after a mutation that failed.
abbrev lagging : MemDb plain
lagging = record small { version = 6 }

lagging-IsMirrored : IsMirrored lagging
lagging-IsMirrored = record {
  root = small-IsMirrored.root;
  rows = small-IsMirrored.rows;
  keyed = small-IsMirrored.keyed;
}

abbrev lagging_index : MemDbIndex
lagging_index =
    new 6 5 1 100 (
      sort_by_inode (index_entry plain (record root { version = 6 }) ∷ index_entry plain motd ∷ []))

encode_index-lagging : (encode_index lagging).1 ≡ ok lagging_index
unfolding encode_index encode_root version_begun version_executed version_committed encoded get
    insert index_entries last_inode
encode_index-lagging = refl

encode_index-IsMirrored_example : IsMirrored (encode_index lagging).0
encode_index-IsMirrored_example =
    encode_index-IsMirrored lagging lagging_index lagging-IsMirrored encode_index-lagging
