-- ===== src/Logger/ClusterLog.antt =====
-- src/pmxcfs-rs/pmxcfs-logger/src/cluster_log.rs: the cluster log, which drops entries that it has
-- seen, and merges the logs of other nodes. The mutex makes each call one step.
use pve_cluster.Prelude.{
  none, some, [], ◌∷◌, true, false, ℕ, List, Bool, if◌then◌else◌, ltb, take, ◌==◌, false, ◌∷◌, ◌||◌,
  ◌&&◌, max, [],
}
use pve_cluster.Map.{get, insert, nat_eq}
use pve_cluster.Logger.Entry.{LogEntry, pack, packed, refused, Packed}
use pve_cluster.Logger.Ring.{new, RingBuffer, add_entry, add_all, before, clog_default_size}
use pve_cluster.Logger.Text.{Text}
pub mod Dedup

pub record DedupEntry : Type 0 where
  pub uid : ℕ
  pub time : ℕ

abbrev pub DedupMap : Type 0
DedupMap = List (ℕ × DedupEntry)

pub record ClusterLog : Type 0 where
  pub buffer : RingBuffer
  pub dedup : DedupMap

unfoldable pub with_capacity : ℕ → ClusterLog
unfolding new
with_capacity capacity = record { buffer = new capacity; dedup = [] }

abbrev pub latest : LogEntry → DedupEntry
latest e = record { uid = e.uid; time = e.time }

-- `entry.time > dd.time || (entry.time == dd.time && entry.uid > dd.uid)`.
abbrev pub is_newer : LogEntry → DedupEntry → Bool
is_newer e dd = ltb dd.time e.time || ((e.time == dd.time) && ltb dd.uid e.uid)

-- `is_not_duplicate`: the map after the call, and the answer.
unfoldable pub is_not_duplicate : DedupMap → LogEntry → DedupMap × Bool
is_not_duplicate dedup e = elim (get e.node_digest dedup) [
  | none ↦ (insert e.node_digest (latest e) dedup, true)
  | some dd ↦
      if is_newer e dd then (insert e.node_digest (latest e) dedup, true) else (dedup, false)
]

unfoldable pub insert_entry : ClusterLog → LogEntry → ClusterLog
insert_entry log e =
    let r = is_not_duplicate log.dedup e in
    record { buffer = if r.1 then add_entry log.buffer e else log.buffer; dedup = r.0 }

-- `add`: pack and insert; the counter of uids goes in and out. The answer is whether it succeeds.
unfoldable pub add_packed : ClusterLog → Packed → ClusterLog × Bool
unfolding insert_entry
add_packed log (packed e) = (insert_entry log e, true)
add_packed log (refused r) = (log, false)

unfoldable pub add :
    ClusterLog → ℕ → Text → Text → Text → (pid priority time : ℕ) → Text → (ClusterLog × Bool) × ℕ
unfolding add_packed
add log counter node ident tag pid priority time message =
    let r = pack counter node ident tag pid time priority message in (add_packed log r.1, r.0)

unfoldable pub get_entries : ClusterLog → ℕ → List LogEntry
get_entries log n = take n log.buffer.entries

unfoldable pub clear : ClusterLog → ClusterLog
clear log = record { buffer = new log.buffer.capacity; dedup = [] }

-- The sorted map of `merge` as the list of its values in the order of their keys.
abbrev pub same_key : LogEntry → LogEntry → Bool
same_key a b = (a.time == b.time) && ((a.node_digest == b.node_digest) && (a.uid == b.uid))

unfoldable pub is_occupied : LogEntry → List LogEntry → Bool
is_occupied e [] = false
is_occupied e (s ∷ ss) = same_key s e || is_occupied e ss

unfoldable pub insert_vacant : LogEntry → List LogEntry → List LogEntry
insert_vacant e [] = e ∷ []
insert_vacant e (s ∷ ss) = if before s e then s ∷ insert_vacant e ss else e ∷ s ∷ ss

-- Keep-first: an entry whose key is there already is passed over.
unfoldable pub merge_entry : List LogEntry × DedupMap → LogEntry → List LogEntry × DedupMap
merge_entry (sorted, dedup) e =
    if is_occupied e sorted
    then (sorted, dedup)
    else (insert_vacant e sorted, (is_not_duplicate dedup e).0)

unfoldable pub merge_entries : List LogEntry × DedupMap → List LogEntry → List LogEntry × DedupMap
merge_entries acc [] = acc
merge_entries acc (e ∷ es) = merge_entries (merge_entry acc e) es

unfoldable pub merge_buffers : List LogEntry × DedupMap → List RingBuffer → List LogEntry × DedupMap
merge_buffers acc [] = acc
merge_buffers acc (b ∷ bs) = merge_buffers (merge_entries acc b.entries) bs

-- `max` of the capacities, and `unwrap_or` of none.
unfoldable pub max_capacity : List RingBuffer → ℕ
max_capacity [] = 0
max_capacity (b ∷ bs) = max b.capacity (max_capacity bs)

abbrev pub max_size : List RingBuffer → ℕ
max_size [] = clog_default_size
max_size (b ∷ bs) = max_capacity (b ∷ bs)

unfoldable pub merge : ClusterLog → List RingBuffer → Bool → ClusterLog
merge log remote_logs include_local =
    let merged = if include_local then log.buffer ∷ remote_logs else remote_logs in
    let r = merge_buffers ([], []) merged in
    record { buffer = add_all (new (max_size merged)) r.0; dedup = r.1 }
