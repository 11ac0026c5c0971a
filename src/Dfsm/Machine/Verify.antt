-- ===== src/Dfsm/Machine/Verify.antt =====
-- The verification of the members' checksums of state_machine.rs.
pub mod Agreement
use pve_cluster.Prelude.{ℕ, none, some, Option, if◌then◌else◌, ◌==◌, ◌&&◌, not, ◌+◌, ◌%◌, ◌^◌, ◌||◌}
use pve_cluster.Bytes.{Bytes, bytes_eq}
use pve_cluster.Dfsm.Protocol
use pve_cluster.Dfsm.Protocol.Epoch
use pve_cluster.Dfsm.Protocol.Epoch.{SyncEpoch, epoch_eq, no_epoch}
use pve_cluster.Dfsm.Machine.{
  Dfsm, World, Outcome, finished, raised, set_mode, is_leader, is_synced, send_dfsm_message,
}

module _ {M W : Type 0} where
  unfoldable pub handle_verify : SyncEpoch → ℕ → Bytes → Dfsm M W → Outcome (Dfsm M W)
  handle_verify message_epoch csum_id received_checksum s =
      if (s.checksum_id == csum_id) && epoch_eq s.checksum_epoch message_epoch
      then (if bytes_eq s.checksum received_checksum
          then finished s
          else raised (set_mode Epoch.leave s))
      else finished s

  unfoldable pub invalidate_checksum : Dfsm M W → Dfsm M W
  invalidate_checksum s = record s { checksum_id = s.checksum_counter; checksum_epoch = no_epoch }

module _ {M W : Type 0} (X : World M W) where
  -- Only a leader that is synced asks, and only when the last verification is over.
  unfoldable pub verify_request : ℕ → Dfsm M W → Outcome (Dfsm M W)
  verify_request now s =
      let new_counter = (s.checksum_counter + 1) % 2 ^ 64 in
      if not (is_leader s) || (not (is_synced s) || not (s.checksum_counter == s.checksum_id))
      then finished s
      else send_dfsm_message X now (Protocol.verify_request s.sync_epoch new_counter)
          (record s { checksum_counter = new_counter })

  abbrev answer : ℕ → SyncEpoch → ℕ → Option Bytes → Dfsm M W → Outcome (Dfsm M W)
  answer now message_epoch csum_id none s = raised s
  answer now message_epoch csum_id (some checksum) s =
      send_dfsm_message X now (Protocol.verify s.sync_epoch csum_id checksum)
        (record s { checksum = checksum; checksum_epoch = message_epoch; checksum_id = csum_id })

  unfoldable pub handle_verify_request : ℕ → SyncEpoch → ℕ → Dfsm M W → Outcome (Dfsm M W)
  handle_verify_request now message_epoch csum_id s =
      answer now message_epoch csum_id (X.callbacks.compute_checksum s.app) s
