-- ===== src/Logger/Ring.antt =====
-- src/pmxcfs-rs/pmxcfs-logger/src/ring_buffer.rs: the ring buffer of the cluster log. The entries are
-- newest first, as in the source's VecDeque.
use pve_cluster.Prelude.{
  true, false, zero, suc, none, some, ℕ, ◌*◌, if◌then◌else◌, ◌+◌, Bool, Option, List, ltb, ◌∷◌, ◌-◌,
  ◌/◌, ◌||◌, ◌==◌, suc, ◌&&◌, some,
}
use mathlib.Core.List.{reverse, List, ◌∷◌, []}
use pve_cluster.Logger.Entry.{LogEntry, aligned_size, clog_max_entry_size}
pub mod Sizes

abbrev pub clog_default_size : ℕ
clog_default_size = 8192 * 16

pub record RingBuffer : Type 0 where
  pub capacity : ℕ
  pub current_size : ℕ
  pub entries : List LogEntry

unfoldable pub new : ℕ → RingBuffer
new capacity = record {
  capacity = if ltb capacity (clog_max_entry_size * 10) then clog_default_size else capacity;
  current_size = 0;
  entries = [];
}

-- The loop that makes room. Its list is the queue from its back, the oldest entry first; it returns
-- the size and the entries that are left.
unfoldable pub evict : (capacity entry_size current_size : ℕ) → List LogEntry → ℕ × List LogEntry
evict capacity entry_size current_size [] = (current_size, [])
evict capacity entry_size current_size (old ∷ es) =
    let rest = evict capacity entry_size (current_size - aligned_size old) es in
    if ltb capacity (current_size + entry_size) then rest else (current_size, old ∷ es)

unfoldable pub add_entry : RingBuffer → LogEntry → RingBuffer
unfolding evict
add_entry b entry =
    let entry_size = aligned_size entry in
    let r = evict b.capacity entry_size b.current_size (reverse b.entries) in
    record b { current_size = r.0 + entry_size; entries = entry ∷ reverse r.1 }

unfoldable pub is_near_full : RingBuffer → Bool
is_near_full b = ltb (b.capacity * 9 / 10) b.current_size

-- The sort key `(time, node_digest, uid)` and its lexicographic order.
abbrev pub before : LogEntry → LogEntry → Bool
before a b =
    ltb a.time b.time
    || ((a.time == b.time)
        && (ltb a.node_digest b.node_digest
            || ((a.node_digest == b.node_digest) && ltb a.uid b.uid)))

-- `sort_by_key`, which is stable: an entry goes in front of the first one that it is not after.
unfoldable pub insert_by_key : LogEntry → List LogEntry → List LogEntry
insert_by_key e [] = e ∷ []
insert_by_key e (s ∷ ss) = if before s e then s ∷ insert_by_key e ss else e ∷ s ∷ ss

unfoldable pub sort_by_key : List LogEntry → List LogEntry
unfolding insert_by_key
sort_by_key [] = []
sort_by_key (e ∷ es) = insert_by_key e (sort_by_key es)

unfoldable pub add_all : RingBuffer → List LogEntry → RingBuffer
add_all b [] = b
add_all b (e ∷ es) = add_all (add_entry b e) es

unfoldable pub sort : RingBuffer → RingBuffer
unfolding new sort_by_key add_all
sort b = add_all (new b.capacity) (sort_by_key b.entries)

-- The entries that `dump_json` prints: the newest `max_entries` whose ident has the digest, if one is
-- given. The loop counts up to the limit.
unfoldable pub dumped : Option ℕ → ℕ → List LogEntry → List LogEntry
dumped filter left [] = []
dumped filter zero (e ∷ es) = []
dumped none (suc left) (e ∷ es) = e ∷ dumped none left es
dumped (some digest) (suc left) (e ∷ es) = elim (digest == e.ident_digest) [
  | true ↦ e ∷ dumped (some digest) left es
  | false ↦ dumped (some digest) (suc left) es
]
