-- ===== src/Dfsm/Machine/Sync.antt =====
-- `process_state` and `process_state_sync` of state_machine.rs: collecting the states of the members.
pub mod Completion
use pve_cluster.Prelude.{
  ℕ, none, some, [], ◌∷◌, true, false, Option, Bool, List, if◌then◌else◌, ◌&&◌,
}
use pve_cluster.Bytes.{Bytes}
use pve_cluster.Dfsm.Protocol.Epoch
use pve_cluster.Dfsm.Machine.{NodeSyncInfo, Dfsm, World, Outcome, finished, raised, set_mode}
use pve_cluster.Dfsm.Machine.Queue.{is_node, find_node, deliver_message_queue}

-- `iter_mut().find`, with the change of the node that is found.
unfoldable pub change_node :
    (nodeid pid : ℕ) → (NodeSyncInfo → NodeSyncInfo) → List NodeSyncInfo → List NodeSyncInfo
change_node nodeid pid f [] = []
change_node nodeid pid f (n ∷ ns) =
    if is_node nodeid pid n then f n ∷ ns else n ∷ change_node nodeid pid f ns

abbrev pub store_state : Bytes → NodeSyncInfo → NodeSyncInfo
store_state content n = record n { state = some content }

abbrev pub mark_synced : NodeSyncInfo → NodeSyncInfo
mark_synced n = record n { synced = true }

abbrev pub is_some : {A : Type 0} → Option A → Bool
is_some none = false
is_some (some a) = true

-- `iter().all(|n| n.state.is_some())`.
unfoldable pub all_received : List NodeSyncInfo → Bool
all_received [] = true
all_received (n ∷ ns) = is_some n.state && all_received ns

module _ {M W : Type 0} (X : World M W) where
  abbrev pub on_synced : Dfsm M W → Dfsm M W
  on_synced s = record s { app = X.callbacks.on_synced s.app }

  -- The three outcomes of the callback: failed, synced, or to be updated by the leader.
  unfoldable pub sync_to : Option Bool → Dfsm M W → Outcome (Dfsm M W)
  sync_to none s = raised (set_mode Epoch.error s)
  sync_to (some true) s =
      let marked = record s { sync_nodes = change_node s.nodeid s.pid mark_synced s.sync_nodes } in
      finished (deliver_message_queue X (on_synced (set_mode Epoch.synced marked)))
  sync_to (some false) s = finished (deliver_message_queue X (set_mode Epoch.update s))

  unfoldable pub process_state_sync : Dfsm M W → Outcome (Dfsm M W)
  process_state_sync s =
      let r = X.callbacks.process_state_update s.app s.sync_nodes in
      sync_to r.1 (record s { app = r.0 })

  abbrev pub receive_state : (nodeid pid : ℕ) → Bytes → Option Bytes → Dfsm M W → Outcome (Dfsm M W)
  receive_state nodeid pid content (some earlier) s = raised (set_mode Epoch.leave s)
  receive_state nodeid pid content none s =
      let stored = record s {
        sync_nodes = change_node nodeid pid (store_state content) s.sync_nodes;
      } in
      if all_received stored.sync_nodes then process_state_sync stored else finished stored

  abbrev receive_from :
      (nodeid pid : ℕ) → Bytes → Option NodeSyncInfo → Dfsm M W → Outcome (Dfsm M W)
  receive_from nodeid pid content none s = raised (set_mode Epoch.leave s)
  receive_from nodeid pid content (some n) s = receive_state nodeid pid content n.state s

  -- A state of a non-member and a second state of a member make the node leave.
  unfoldable pub process_state : (nodeid pid : ℕ) → Bytes → Dfsm M W → Outcome (Dfsm M W)
  process_state nodeid pid content s =
      receive_from nodeid pid content (find_node nodeid pid s.sync_nodes) s
