-- ===== src/Cluster/Callbacks/Tests.antt =====
-- The theorems on the callbacks of memdb_callbacks.rs at concrete inputs.
use pve_cluster.Prelude.{ℕ, none, some, [], ◌∷◌, true, false, ◌≡◌, ◌≢◌, refl, sym, arith, replicate}
use mathlib.Core.Option.{some-ne-none}
use mathlib.Core.List.{Memᴰ}
use pve_cluster.Bytes.{codes, bytes_eq}
use pve_cluster.Map.{get, nat_eq}
use pve_cluster.MemDb.Types.{root_inode}
use pve_cluster.MemDb.Index.{MemDbIndex, find_differences, differences, advance, head_matches}
use pve_cluster.MemDb.State.{lookup_path, get_entry_by_inode, resolve, walk}
use pve_cluster.MemDb.Paths.{trim_start, trim, push_part, split_from, parts, normalize_path}
use pve_cluster.MemDb.Mirror.{IsMirrored}
use pve_cluster.MemDb.Tests.{plain, small, motd, small-IsMirrored}
use pve_cluster.Status.{new}
use pve_cluster.Cluster.Leader.{Member}
use pve_cluster.Cluster.Callbacks.{
  App, deliver_message, send_update, is_alike, send_updates_to_followers,
}
use pve_cluster.Cluster.Callbacks.Mirrored.{LeadsAway, deliver_message-IsMirrored}
use pve_cluster.Cluster.Callbacks.Followers.{sends_differences}
use pve_cluster.Dfsm.Fuse

abbrev app : App plain
app = record { memdb = small; status = new (codes "n1") none 0; outbox = [] }

app-LeadsAway : LeadsAway app (Fuse.rename (codes "motd") (codes "new"))
unfolding get trim_start trim push_part split_from parts normalize_path walk resolve lookup_path
    bytes_eq
app-LeadsAway e t h k = absurd (some-ne-none t (sym k))

deliver_message-IsMirrored_example :
    IsMirrored
      (deliver_message (some true) 2 200 (Fuse.rename (codes "motd") (codes "new")) 200 app).0.memdb
deliver_message-IsMirrored_example =
    deliver_message-IsMirrored (some true) 2 200 (Fuse.rename (codes "motd") (codes "new")) 200 app
      (omega arith) app-LeadsAway small-IsMirrored

abbrev index_of : ℕ → ℕ → MemDbIndex
index_of version digest = record {
  version = version;
  last_inode = 5;
  writer = 1;
  mtime = 100;
  size = 1;
  bytes = 72;
  entries = record { inode = 5; digest = replicate 32 digest } ∷ [];
}

abbrev behind : Member
behind = record { nodeid = 2; pid = 9; index = index_of 4 8 }

is_alike-behind : is_alike behind.index (index_of 5 7) ≡ false
unfolding is_alike
is_alike-behind = refl

find_differences-behind : Memᴰ 5 (find_differences (index_of 5 7) behind.index)
unfolding find_differences differences advance head_matches bytes_eq
find_differences-behind = Memᴰ.head refl

get_entry_by_inode-small : get_entry_by_inode small 5 ≡ some motd
unfolding get_entry_by_inode get
get_entry_by_inode-small = refl

five-ne-root : 5 ≢ root_inode
five-ne-root e = omega (arith, e)

sends_differences_example :
    Memᴰ (send_update motd) (send_updates_to_followers (index_of 5 7) (behind ∷ []) app).outbox
sends_differences_example =
    sends_differences (index_of 5 7) (behind ∷ []) app behind 5 motd (Memᴰ.head refl)
      is_alike-behind find_differences-behind five-ne-root get_entry_by_inode-small
