-- ===== src/Dfsm/Machine.antt =====
-- src/pmxcfs-rs/pmxcfs-dfsm/src/state_machine.rs: the state machine of a node. `sent` holds what was
-- given to the group service, `results` what the waiting senders got; `now` is the clock, and `app` the
-- state of the application behind the trait `Callbacks` of callbacks.rs.
pub mod Queue
pub mod Sync
pub mod Verify
pub mod Handlers
pub mod Service
pub mod Steps
mod Tests
use pve_cluster.Prelude.{
  ℕ, none, some, [], ◌∷◌, true, false, Option, Bool, List, if◌then◌else◌, ◌==◌, ◌^◌, ◌++◌, ltb, leb,
  ◌%◌, ◌&&◌, ◌||◌, not, ◌+◌,
}
use pve_cluster.Bytes.{Bytes}
use pve_cluster.MemDb.Types.{TreeEntry}
use pve_cluster.Dfsm.Message.{Message}
use pve_cluster.Dfsm.Protocol.Epoch.{DfsmMode, SyncEpoch, mode_number, is_mode, is_error, no_epoch}
use pve_cluster.Dfsm.Protocol.Epoch
use pve_cluster.Dfsm.Protocol.{
  DfsmMessage, serialize, sync_start, state, update_complete, from_message, from_tree_entry,
}

-- An `i32`.
pub data ℤ : Type 0 where
  pos negsuc : ℕ → ℤ

-- `-libc::EIO`.
abbrev pub minus_eio : ℤ
minus_eio = negsuc 4

pub record NodeSyncInfo : Type 0 where
  pub node_id : ℕ
  pub pid : ℕ
  pub state : Option Bytes
  pub synced : Bool

pub record MemberInfo : Type 0 where
  pub node_id : ℕ
  pub pid : ℕ
  pub joined_at : ℕ

pub record QueuedMessage (M : Type 0) : Type 0 where
  pub nodeid : ℕ
  pub pid : ℕ
  pub msg_count : ℕ
  pub message : M
  pub timestamp : ℕ

pub record MessageResult : Type 0 where
  pub msgcount : ℕ
  pub result : ℤ
  pub processed : Bool

-- The trait `Callbacks`, over a state `W` of the application.
pub record Callbacks (M W : Type 0) : Type 0 where
  pub deliver_message : W → (nodeid pid : ℕ) → M → ℕ → W × Option (ℤ × Bool)
  pub compute_checksum : W → Option Bytes
  pub get_state : W → Option Bytes
  pub process_state_update : W → List NodeSyncInfo → W × Option Bool
  pub process_update : W → (nodeid pid : ℕ) → Bytes → W × Bool
  pub on_synced : W → W
  pub cleanup_sync_resources : W → List NodeSyncInfo → W
  pub on_membership_change : W → List MemberInfo → W

-- What the machine stands on: the messages, the callbacks, and whether the group service takes a
-- message after those sent before.
pub record World (M W : Type 0) : Type 0 where
  pub messages : Message M
  pub callbacks : Callbacks M W
  pub accepts : List Bytes → Bytes → Bool

pub record Dfsm (M W : Type 0) : Type 0 where
  pub app : W
  pub cpg_service : Bool
  pub sent : List Bytes
  pub mode : DfsmMode
  pub sync_epoch : SyncEpoch
  pub local_epoch_counter : ℕ
  pub sync_nodes : List NodeSyncInfo
  pub msg_queue : List (ℕ × QueuedMessage M)
  pub sync_queue : List (QueuedMessage M)
  pub msg_counter : ℕ
  pub lowest_nodeid : ℕ
  pub nodeid : ℕ
  pub pid : ℕ
  pub protocol_version : ℕ
  pub checksum : Bytes
  pub checksum_epoch : SyncEpoch
  pub checksum_id : ℕ
  pub checksum_counter : ℕ
  pub msgcount_rcvd : ℕ
  pub waiting : List ℕ
  pub results : List MessageResult

-- `Result<()>` with the state that is left behind.
pub data Outcome (S : Type 0) : Type 0 where
  finished raised : S → Outcome S

infixl 5 ◌>>=◌
abbrev pub ◌>>=◌ : {S : Type 0} → Outcome S → (S → Outcome S) → Outcome S
finished s >>= next = next s
raised s >>= next = raised s

abbrev pub left_behind : {S : Type 0} → Outcome S → S
left_behind (finished s) = s
left_behind (raised s) = s

-- `new_with_protocol_version`, with the checksum of 32 zero bytes as an argument.
abbrev pub new_with_protocol_version :
    {M W : Type 0} → W → Bytes → (now pid protocol_version : ℕ) → Dfsm M W
new_with_protocol_version app zeros now pid protocol_version = record {
  app = app;
  cpg_service = false;
  sent = [];
  mode = Epoch.start;
  sync_epoch = record { epoch = 0; time = now % 2 ^ 32; nodeid = 0; pid = pid };
  local_epoch_counter = 0;
  sync_nodes = [];
  msg_queue = [];
  sync_queue = [];
  msg_counter = 0;
  lowest_nodeid = 0;
  nodeid = 0;
  pid = pid;
  protocol_version = protocol_version;
  checksum = zeros;
  checksum_epoch = no_epoch;
  checksum_id = 0;
  checksum_counter = 0;
  msgcount_rcvd = 0;
  waiting = [];
  results = [];
}

-- `allow_transition` of two modes that differ.
abbrev pub allow_transition : (old_mode new_mode : DfsmMode) → Bool
allow_transition old_mode new_mode =
    not (is_error new_mode)
    || (not (is_error old_mode) || leb (mode_number old_mode) (mode_number new_mode))

module _ {M W : Type 0} where
  unfoldable pub set_mode : DfsmMode → Dfsm M W → Dfsm M W
  set_mode new_mode s =
      if not (is_mode s.mode new_mode) && allow_transition s.mode new_mode
      then record s { mode = new_mode }
      else s

  unfoldable pub is_leader : Dfsm M W → Bool
  is_leader s = ltb 0 s.lowest_nodeid && (s.lowest_nodeid == s.nodeid)

  abbrev pub is_synced : Dfsm M W → Bool
  is_synced s = is_mode s.mode Epoch.synced

module _ {M W : Type 0} (X : World M W) where
  unfoldable pub send_dfsm_message : ℕ → DfsmMessage M → Dfsm M W → Outcome (Dfsm M W)
  send_dfsm_message now m s =
      let serialized = serialize X.messages now m in
      if s.cpg_service && X.accepts s.sent serialized
      then finished (record s { sent = s.sent ++ (serialized ∷ []) })
      else raised s

  unfoldable pub send_sync_start : ℕ → Dfsm M W → Outcome (Dfsm M W)
  send_sync_start now s = send_dfsm_message now (sync_start s.sync_epoch) s

  unfoldable pub send_state : ℕ → Dfsm M W → Outcome (Dfsm M W)
  send_state now s = elim (X.callbacks.get_state s.app) [
    | none ↦ raised s
    | some state_data ↦ send_dfsm_message now (state s.sync_epoch state_data) s
  ]

  -- The counter is taken before the message is sent, and kept when that fails.
  unfoldable pub send_message : ℕ → M → Dfsm M W → Outcome (Dfsm M W)
  send_message now m s =
      let msg_count = (s.msg_counter + 1) % 2 ^ 64 in
      send_dfsm_message now (from_message now msg_count m s.protocol_version)
        (record s { msg_counter = msg_count })

  unfoldable pub broadcast : ℕ → M → Dfsm M W → Outcome (Dfsm M W)
  broadcast now m s = if is_synced s then send_message now m s else finished s

  unfoldable pub send_update : ℕ → TreeEntry → Dfsm M W → Outcome (Dfsm M W)
  send_update now entry s = send_dfsm_message now (from_tree_entry entry s.sync_epoch) s

  unfoldable pub send_update_complete : ℕ → Dfsm M W → Outcome (Dfsm M W)
  send_update_complete now s = send_dfsm_message now (update_complete s.sync_epoch) s
