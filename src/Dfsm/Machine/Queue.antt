-- ===== src/Dfsm/Machine/Queue.antt =====
-- The queues of state_machine.rs: messages that wait for the node to be synced. `msg_queue` is a map in
-- the order of its keys, the counts of the messages.
pub mod Order
pub mod Delivery
pub mod Retention
use pve_cluster.Prelude.{
  ℕ, none, some, [], ◌∷◌, true, false, Option, Bool, List, if◌then◌else◌, ◌==◌, ◌++◌, ltb, leb,
  ◌&&◌, length, drop,
}
use pve_cluster.Dfsm.Protocol.Epoch
use pve_cluster.Dfsm.Protocol.Epoch.{DfsmMode, is_mode}
use pve_cluster.Dfsm.Machine.{NodeSyncInfo, QueuedMessage, Dfsm, World, ℤ, minus_eio}

abbrev pub max_queue_len : ℕ
max_queue_len = 500

-- `BTreeMap::insert` and `remove`.
unfoldable pub insert : {A : Type 0} → ℕ → A → List (ℕ × A) → List (ℕ × A)
insert k v [] = (k, v) ∷ []
insert k v ((j, w) ∷ m) =
    if ltb k j then (k, v) ∷ (j, w) ∷ m else (if k == j then (k, v) ∷ m else (j, w) ∷ insert k v m)

unfoldable pub remove : {A : Type 0} → ℕ → List (ℕ × A) → List (ℕ × A)
remove k [] = []
remove k ((j, w) ∷ m) = if k == j then m else (j, w) ∷ remove k m

unfoldable pub remove_all : {A : Type 0} → List ℕ → List (ℕ × A) → List (ℕ × A)
remove_all [] m = m
remove_all (k ∷ ks) m = remove_all ks (remove k m)

abbrev pub is_node : (nodeid pid : ℕ) → NodeSyncInfo → Bool
is_node nodeid pid n = (n.node_id == nodeid) && (n.pid == pid)

unfoldable pub find_node : (nodeid pid : ℕ) → List NodeSyncInfo → Option NodeSyncInfo
find_node nodeid pid [] = none
find_node nodeid pid (n ∷ ns) = if is_node nodeid pid n then some n else find_node nodeid pid ns

abbrev pub synced_flag : Option NodeSyncInfo → Bool
synced_flag none = false
synced_flag (some n) = n.synced

-- What happens to a queued message: a non-member's is dropped.
pub data Fate : Type 0 where
  dropped delivered moved kept : Fate

unfoldable pub fate : DfsmMode → Option NodeSyncInfo → Fate
fate mode none = dropped
fate mode (some info) =
    if is_mode mode Epoch.synced && info.synced
    then delivered
    else (if is_mode mode Epoch.update && info.synced then moved else kept)

unfoldable pub mem : ℕ → List ℕ → Bool
mem k [] = false
mem k (j ∷ js) = if k == j then true else mem k js

unfoldable pub without : ℕ → List ℕ → List ℕ
without k [] = []
without k (j ∷ js) = if k == j then without k js else j ∷ without k js

module _ {M W : Type 0} where
  unfoldable pub queue_message : QueuedMessage M → Dfsm M W → Dfsm M W
  queue_message qm s =
      let node_synced = synced_flag (find_node qm.nodeid qm.pid s.sync_nodes) in
      if is_mode s.mode Epoch.update && node_synced
      then record s {
        sync_queue =
            (if leb max_queue_len (length s.sync_queue) then drop 1 s.sync_queue else s.sync_queue)
            ++ (qm ∷ []);
      }
      else record s {
        msg_queue =
            insert qm.msg_count qm
              (if leb max_queue_len (length s.msg_queue) then drop 1 s.msg_queue else s.msg_queue);
      }

  unfoldable pub record_message_result : ℕ → ℤ → Bool → Dfsm M W → Dfsm M W
  record_message_result msg_count result processed s = record s {
    msgcount_rcvd = msg_count;
    waiting = without msg_count s.waiting;
    results =
        if mem msg_count s.waiting
        then s.results
          ++ (record { msgcount = msg_count; result = result; processed = processed } ∷ [])
        else s.results;
  }

  abbrev record_delivery : ℕ → Option (ℤ × Bool) → Dfsm M W → Dfsm M W
  record_delivery msg_count none s = record_message_result msg_count minus_eio false s
  record_delivery msg_count (some (result, processed)) s =
      record_message_result msg_count result processed s

module _ {M W : Type 0} (X : World M W) where
  -- `deliver_message` and the record of its result.
  unfoldable pub deliver_one : ℕ → (nodeid pid : ℕ) → M → ℕ → Dfsm M W → Dfsm M W
  deliver_one count nodeid pid m timestamp s =
      let r = X.callbacks.deliver_message s.app nodeid pid m timestamp in
      record_delivery count r.1 (record s { app = r.0 })

  abbrev pub deliver_queued : ℕ → QueuedMessage M → Dfsm M W → Dfsm M W
  deliver_queued count qm s = deliver_one count qm.nodeid qm.pid qm.message qm.timestamp s

-- The loop over the queue, with what it collects.
pub record Pass (M W : Type 0) : Type 0 where
  pub machine : Dfsm M W
  pub to_remove : List ℕ
  pub to_sync_queue : List (QueuedMessage M)

module _ {M W : Type 0} (X : World M W) where
  abbrev pub pass_one : Fate → ℕ → QueuedMessage M → Pass M W → Pass M W
  pass_one dropped count qm p = record p { to_remove = p.to_remove ++ (count ∷ []) }
  pass_one delivered count qm p = record p {
    machine = deliver_queued X count qm p.machine;
    to_remove = p.to_remove ++ (count ∷ []);
  }
  pass_one moved count qm p = record p {
    to_remove = p.to_remove ++ (count ∷ []);
    to_sync_queue = p.to_sync_queue ++ (qm ∷ []);
  }
  pass_one kept count qm p = p

  unfoldable pub pass_all :
      DfsmMode → List NodeSyncInfo → List (ℕ × QueuedMessage M) → Pass M W → Pass M W
  pass_all mode nodes [] p = p
  pass_all mode nodes ((count, qm) ∷ queue) p =
      pass_all mode nodes queue (pass_one (fate mode (find_node qm.nodeid qm.pid nodes)) count qm p)

  unfoldable pub deliver_message_queue : Dfsm M W → Dfsm M W
  deliver_message_queue s =
      let p =
        pass_all s.mode s.sync_nodes s.msg_queue
          (record { machine = s; to_remove = []; to_sync_queue = [] }) in
      record p.machine {
        msg_queue = remove_all p.to_remove p.machine.msg_queue;
        sync_queue = p.machine.sync_queue ++ p.to_sync_queue;
      }

  unfoldable pub deliver_each : List (QueuedMessage M) → Dfsm M W → Dfsm M W
  deliver_each [] s = s
  deliver_each (qm ∷ queue) s = deliver_each queue (deliver_queued X qm.msg_count qm s)

  unfoldable pub deliver_sync_queue : Dfsm M W → Dfsm M W
  deliver_sync_queue s = deliver_each s.sync_queue (record s { sync_queue = [] })
