-- ===== src/Dfsm/Machine/Handlers.antt =====
-- The handlers of state_machine.rs: the messages and the membership changes that the group service
-- delivers. The clock reads of one handler see one time.
pub mod Epochs
use pve_cluster.Prelude.{
  ℕ, none, some, [], ◌∷◌, false, Option, Bool, List, if◌then◌else◌, ◌==◌, not, ◌+◌, ◌%◌, ◌^◌, map,
  length, min,
}
use pve_cluster.Bytes.{Bytes}
use pve_cluster.MemDb.Types.{TreeEntry}
use pve_cluster.MemDb.Update.{serialize_for_update}
use pve_cluster.Dfsm.Message.{Received, received, refused, panicked}
use pve_cluster.Dfsm.Protocol
use pve_cluster.Dfsm.Protocol.{DfsmMessage, deserialize}
use pve_cluster.Dfsm.Protocol.Epoch
use pve_cluster.Dfsm.Protocol.Epoch.{SyncEpoch, epoch_eq}
use pve_cluster.Dfsm.Machine.{
  Dfsm, World, NodeSyncInfo, MemberInfo, Outcome, finished, ◌>>=◌, left_behind, set_mode, is_leader,
  is_synced, send_sync_start, send_state,
}
use pve_cluster.Dfsm.Machine.Queue.{
  queue_message, deliver_one, deliver_message_queue, deliver_sync_queue,
}
use pve_cluster.Dfsm.Machine.Sync.{mark_synced, on_synced, process_state}
use pve_cluster.Dfsm.Machine.Verify.{handle_verify, handle_verify_request, invalidate_checksum}

-- `members.iter().map(|m| m.node_id).min().unwrap_or(0)`.
unfoldable pub lowest_from : ℕ → List MemberInfo → ℕ
lowest_from lowest [] = lowest
lowest_from lowest (m ∷ ms) = lowest_from (min lowest m.node_id) ms

unfoldable pub lowest : List MemberInfo → ℕ
lowest [] = 0
lowest (m ∷ ms) = lowest_from m.node_id ms

abbrev pub fresh_node : MemberInfo → NodeSyncInfo
fresh_node m = record { node_id = m.node_id; pid = m.pid; state = none; synced = false }

-- `first_mut`.
abbrev pub mark_first : List NodeSyncInfo → List NodeSyncInfo
mark_first [] = []
mark_first (n ∷ ns) = mark_synced n ∷ ns

-- The epoch of the messages that are checked: all but Normal and SyncStart.
abbrev pub checked_epoch : {M : Type 0} → DfsmMessage M → Option SyncEpoch
checked_epoch (Protocol.normal c t v m) = none
checked_epoch (Protocol.sync_start e) = none
checked_epoch (Protocol.state e content) = some e
checked_epoch (Protocol.update e entry) = some e
checked_epoch (Protocol.update_complete e) = some e
checked_epoch (Protocol.verify_request e id) = some e
checked_epoch (Protocol.verify e id checksum) = some e

abbrev pub is_stale : SyncEpoch → Option SyncEpoch → Bool
is_stale current none = false
is_stale current (some e) = not (epoch_eq e current)

module _ {M W : Type 0} (X : World M W) where
  unfoldable pub handle_normal_message :
      (nodeid pid msg_count timestamp : ℕ) → M → Dfsm M W → Dfsm M W
  handle_normal_message nodeid pid msg_count timestamp m s =
      if is_synced s
      then deliver_one X msg_count nodeid pid m timestamp s
      else queue_message
          (record {
            nodeid = nodeid;
            pid = pid;
            msg_count = msg_count;
            message = m;
            timestamp = timestamp;
          })
          s

  -- The leader has sent its state with the membership change.
  unfoldable pub handle_sync_start : ℕ → (nodeid : ℕ) → SyncEpoch → Dfsm M W → Outcome (Dfsm M W)
  handle_sync_start now nodeid new_epoch s =
      let adopted = record s { sync_epoch = new_epoch } in
      if nodeid == s.nodeid then finished adopted else send_state X now adopted

  unfoldable pub handle_update : (nodeid pid : ℕ) → TreeEntry → Dfsm M W → Dfsm M W
  handle_update nodeid pid entry s = record s {
    app = (X.callbacks.process_update s.app nodeid pid (serialize_for_update entry)).0;
  }

  unfoldable pub handle_update_complete : Dfsm M W → Dfsm M W
  handle_update_complete s = on_synced X (set_mode Epoch.synced (deliver_sync_queue X s))

  unfoldable pub dispatch : ℕ → (nodeid pid : ℕ) → DfsmMessage M → Dfsm M W → Outcome (Dfsm M W)
  dispatch now nodeid pid (Protocol.normal c t v m) s =
      finished (handle_normal_message nodeid pid c t m s)
  dispatch now nodeid pid (Protocol.sync_start e) s = handle_sync_start now nodeid e s
  dispatch now nodeid pid (Protocol.state e content) s = process_state X nodeid pid content s
  dispatch now nodeid pid (Protocol.update e entry) s = finished (handle_update nodeid pid entry s)
  dispatch now nodeid pid (Protocol.update_complete e) s = finished (handle_update_complete s)
  dispatch now nodeid pid (Protocol.verify_request e id) s = handle_verify_request X now e id s
  dispatch now nodeid pid (Protocol.verify e id checksum) s = handle_verify e id checksum s

  unfoldable pub handle_dfsm_message :
      ℕ → (nodeid pid : ℕ) → DfsmMessage M → Dfsm M W → Outcome (Dfsm M W)
  handle_dfsm_message now nodeid pid m s =
      if is_stale s.sync_epoch (checked_epoch m) then finished s else dispatch now nodeid pid m s

  -- `none`: reading the message panicked.
  abbrev pub deliver_received :
      ℕ → (nodeid pid : ℕ) → Received (DfsmMessage M) → Dfsm M W → Option (Dfsm M W)
  deliver_received now nodeid pid (received m) s =
      some (left_behind (handle_dfsm_message now nodeid pid m s))
  deliver_received now nodeid pid refused s = some s
  deliver_received now nodeid pid panicked s = none

  unfoldable pub on_deliver : ℕ → (nodeid pid : ℕ) → Bytes → Dfsm M W → Option (Dfsm M W)
  on_deliver now nodeid pid bs s = deliver_received now nodeid pid (deserialize X.messages bs) s

  -- The old members are released first, if there are any.
  abbrev cleaned_up : Dfsm M W → W
  cleaned_up s = elim s.sync_nodes [
    | [] ↦ s.app
    | n ∷ ns ↦ X.callbacks.cleanup_sync_resources s.app (n ∷ ns)
  ]

  -- The new epoch and the members without a state, with the callbacks told.
  unfoldable pub enter_epoch : ℕ → List MemberInfo → Dfsm M W → Dfsm M W
  enter_epoch now members s =
      let counter = (s.local_epoch_counter + 1) % 2 ^ 32 in
      record (invalidate_checksum s) {
        local_epoch_counter = counter;
        sync_epoch = record {
          epoch = counter;
          time = now % 2 ^ 32;
          nodeid = s.nodeid;
          pid = s.pid;
        };
        lowest_nodeid = lowest members;
        sync_nodes = map fresh_node members;
        sync_queue = [];
        app = X.callbacks.on_membership_change (cleaned_up s) members;
      }

  unfoldable pub handle_membership_change : ℕ → List MemberInfo → Dfsm M W → Outcome (Dfsm M W)
  handle_membership_change now members s =
      let entered = enter_epoch now members s in
      let alone = set_mode Epoch.synced entered in
      let syncing = set_mode Epoch.start_sync entered in
      if length members == 1
      then finished
          (deliver_message_queue X (record alone { sync_nodes = mark_first alone.sync_nodes }))
      else (if is_leader syncing
          then (send_sync_start X now syncing >>= send_state X now)
          else finished syncing)

  -- The member list of the group service, each with the time of the change.
  unfoldable pub on_confchg : ℕ → List (ℕ × ℕ) → Dfsm M W → Dfsm M W
  on_confchg now addresses s = left_behind (
      handle_membership_change now
        (map (λ a. record { node_id = a.0; pid = a.1; joined_at = now }) addresses) s)
