-- ===== src/Cluster/Leader.antt =====
-- src/pmxcfs-rs/pmxcfs/src/memdb_callbacks.rs, `process_state_update`: the choice of a leader among the
-- indices of the nodes, and which nodes are synced with it.
use Prim.Native.Nat.{Ordering}
use pve_cluster.Prelude.{
  ℕ, none, some, [], ◌∷◌, true, false, Bool, List, if◌then◌else◌, Option, ◌==◌, ◌&&◌, length, ◌||◌,
}
use pve_cluster.Bytes.{Bytes, bytes_eq}
use pve_cluster.MemDb.Index.{Decoded, ok, err, deserialize, IndexEntry, MemDbIndex, cmp}
pub mod Newest

-- An element of `indices`.
pub record Member : Type 0 where
  pub nodeid : ℕ
  pub pid : ℕ
  pub index : MemDbIndex

-- What `process_state_update` reads of a `NodeSyncInfo`.
pub record NodeState : Type 0 where
  pub node_id : ℕ
  pub pid : ℕ
  pub state : Option Bytes

-- The states that parse; the others are passed over.
abbrev pub parsed : NodeState → Decoded MemDbIndex → List Member → List Member
parsed n (ok index) ms = record { nodeid = n.node_id; pid = n.pid; index = index } ∷ ms
parsed n (err e) ms = ms

unfoldable pub parse_states : List NodeState → List Member
parse_states [] = []
parse_states (n ∷ ns) = elim n.state [
  | none ↦ parse_states ns
  | some bytes ↦ parsed n (deserialize bytes) (parse_states ns)
]

-- `current_index > leader_index`.
unfoldable pub is_greater : MemDbIndex → MemDbIndex → Bool
unfolding cmp
is_greater a b = elim (cmp a b) [ Ordering.gt ↦ true | _ ↦ false ]

-- The loop over the members after the first.
unfoldable pub leader_from : Member → List Member → Member
unfolding is_greater
leader_from leader [] = leader
leader_from leader (m ∷ ms) = leader_from (if is_greater m.index leader.index then m else leader) ms

unfoldable pub elect : List Member → Option Member
unfolding leader_from
elect [] = none
elect (m ∷ ms) = some (leader_from m ms)

-- `zip` and `all`: the shorter list ends it.
unfoldable pub zip_same : List IndexEntry → List IndexEntry → Bool
zip_same [] bs = true
zip_same (a ∷ as') [] = true
zip_same (a ∷ as') (b ∷ bs) =
    ((a.inode == b.inode) && bytes_eq a.digest b.digest) && zip_same as' bs

unfoldable pub is_synced : MemDbIndex → MemDbIndex → Bool
unfolding zip_same
is_synced index leader =
    (index.version == leader.version)
    && ((index.mtime == leader.mtime)
        && ((index.size == leader.size)
            && ((length index.entries == length leader.entries)
                && zip_same index.entries leader.entries)))

unfoldable pub synced_nodes : MemDbIndex → List Member → List (ℕ × ℕ)
unfolding is_synced
synced_nodes leader [] = []
synced_nodes leader (m ∷ ms) =
    let rest = synced_nodes leader ms in
    if is_synced m.index leader then (m.nodeid, m.pid) ∷ rest else rest

unfoldable pub contains_node : ℕ × ℕ → List (ℕ × ℕ) → Bool
contains_node us [] = false
contains_node us (n ∷ ns) = ((n.0 == us.0) && (n.1 == us.1)) || contains_node us ns

-- The answer for a node that DFSM knows under this id, where the leader's updates are sent without
-- error: whether it needs no updates.
unfoldable pub is_up_to_date : ℕ × ℕ → List Member → Bool
unfolding elect synced_nodes contains_node
is_up_to_date us ms = elim (elect ms) [
  | none ↦ true
  | some leader ↦
      ((us.0 == leader.nodeid) && (us.1 == leader.pid))
      || contains_node us (synced_nodes leader.index ms)
]

-- `process_state_update` up to the sending of the updates.
unfoldable pub process_state_update : ℕ × ℕ → List NodeState → Bool
unfolding is_up_to_date parse_states
process_state_update us states = is_up_to_date us (parse_states states)
