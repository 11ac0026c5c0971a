-- ===== src/Dfsm/Machine/Steps/Moves.antt =====
-- The changes of state_machine.rs that bear on the mode, the members and the queues, and how every call
-- is a sequence of them.
use pve_cluster.Prelude.{
  none, some, true, false, [], ◌∷◌, ℕ, [], ◌∷◌, false, List, ◌≡◌, refl, inl, inr, Bool-cases, ◌&&◌,
  not, Option, Option-cases, Bool, ◌==◌, ◌⊎◌,
}
use pve_cluster.Bytes.{Bytes, bytes_eq}
use pve_cluster.Dfsm.Protocol
use pve_cluster.Dfsm.Protocol.{DfsmMessage, deserialize}
use pve_cluster.Dfsm.Protocol.Epoch
use pve_cluster.Dfsm.Protocol.Epoch.{DfsmMode, epoch_eq}
use pve_cluster.Dfsm.Machine.{
  Dfsm, World, MemberInfo, QueuedMessage, left_behind, set_mode, is_synced, send_dfsm_message, not,
  send_state, Outcome, Option, is_mode, ◌>>=◌, Bool, SyncEpoch, allow_transition, finished, some,
  raised, NodeSyncInfo,
}
use pve_cluster.Dfsm.Machine.Queue.{
  queue_message, deliver_message_queue, deliver_sync_queue, deliver_one, record_message_result,
  find_node,
}
use pve_cluster.Dfsm.Machine.Sync.{
  change_node, store_state, mark_synced, sync_to, process_state_sync, process_state, receive_state,
  on_synced, all_received,
}
use pve_cluster.Dfsm.Machine.Verify.{handle_verify, handle_verify_request}
use pve_cluster.Dfsm.Machine.Handlers.{
  enter_epoch, mark_first, fresh_node, handle_normal_message, handle_sync_start,
  handle_update_complete, dispatch, handle_dfsm_message, handle_update, is_stale, checked_epoch,
}

-- What the queues and the members depend on.
pub record View (M : Type 0) : Type 0 where
  pub mode : DfsmMode
  pub sync_nodes : List NodeSyncInfo
  pub msg_queue : List (ℕ × QueuedMessage M)
  pub sync_queue : List (QueuedMessage M)
  pub nodeid : ℕ
  pub pid : ℕ

abbrev pub view : {M W : Type 0} → Dfsm M W → View M
view s = record {
  mode = s.mode;
  sync_nodes = s.sync_nodes;
  msg_queue = s.msg_queue;
  sync_queue = s.sync_queue;
  nodeid = s.nodeid;
  pid = s.pid;
}

abbrev pub IsAside : {M W : Type 0} → Dfsm M W → Dfsm M W → Type 0
IsAside s t = view t ≡ view s

pub data Move {M W : Type 0} (X : World M W) : Dfsm M W → Dfsm M W → Type 0 where
  aside : (s t : Dfsm M W) → IsAside s t → Move X s t
  entered_mode : (m : DfsmMode) (s : Dfsm M W) → Move X s (set_mode m s)
  queued :
      (qm : QueuedMessage M) (s : Dfsm M W) → is_synced s ≡ false → Move X s (queue_message qm s)
  passed : (s : Dfsm M W) → Move X s (deliver_message_queue X s)
  drained : (s : Dfsm M W) → Move X s (deliver_sync_queue X s)
  stored :
      (nodeid pid : ℕ) (content : Bytes) (s : Dfsm M W)
      → Move X s
          (record s { sync_nodes = change_node nodeid pid (store_state content) s.sync_nodes })
  marked :
      (s : Dfsm M W)
      → Move X s (record s { sync_nodes = change_node s.nodeid s.pid mark_synced s.sync_nodes })
  renewed :
      (now : ℕ) (members : List MemberInfo) (s : Dfsm M W) → Move X s (enter_epoch X now members s)
  alone :
      (member : MemberInfo) (s : Dfsm M W)
      → s.sync_nodes ≡ fresh_node member ∷ []
      → Move X s (record s { sync_nodes = mark_first s.sync_nodes })

pub data Moves {M W : Type 0} (X : World M W) (s : Dfsm M W) : Dfsm M W → Type 0 where
  still : Moves X s s
  then_move : {t u : Dfsm M W} → Moves X s t → Move X t u → Moves X s u

pub Moves-trans :
    {M W : Type 0} {X : World M W} {s t u : Dfsm M W} → Moves X s t → Moves X t u → Moves X s u
Moves-trans p still = p
Moves-trans p (then_move q m) = then_move (Moves-trans p q) m

-- A change of mode happens or not.
pub set_mode-cases :
    {M W : Type 0} (m : DfsmMode) (s : Dfsm M W)
    → (set_mode m s ≡ s) ⊎ (set_mode m s ≡ record s { mode = m })
unfolding set_mode
set_mode-cases m s = elim (Bool-cases (not (is_mode s.mode m) && allow_transition s.mode m)) [
  | inl h ↦ inr (rw (set_mode, h) refl)
  | inr h ↦ inl (rw (set_mode, h) refl)
]

pub set_mode-sync_nodes :
    {M W : Type 0} (m : DfsmMode) (s : Dfsm M W) → (set_mode m s).sync_nodes ≡ s.sync_nodes
unfolding set_mode
set_mode-sync_nodes m s = elim (Bool-cases (not (is_mode s.mode m) && allow_transition s.mode m)) [
  | inl h ↦ rw (set_mode, h) refl
  | inr h ↦ rw (set_mode, h) refl
]

module _ {M W : Type 0} (X : World M W) where
  pub one : {s t : Dfsm M W} → Move X s t → Moves X s t
  one m = then_move still m

  -- Sending touches what was sent alone.
  pub send_dfsm_message-IsAside :
      (now : ℕ) (m : DfsmMessage M) (s : Dfsm M W)
      → IsAside s (left_behind (send_dfsm_message X now m s))
  unfolding send_dfsm_message
  send_dfsm_message-IsAside now m s =
      elim (Bool-cases (s.cpg_service && X.accepts s.sent (Protocol.serialize X.messages now m))) [
        | inl h ↦ rw (send_dfsm_message, h) refl
        | inr h ↦ rw (send_dfsm_message, h) refl
      ]

  pub send_after :
      (now : ℕ) (m : DfsmMessage M) (s t : Dfsm M W)
      → IsAside s t
      → Moves X s (left_behind (send_dfsm_message X now m t))
  send_after now m s t h =
      then_move (one (aside s t h)) (aside t _ (send_dfsm_message-IsAside now m t))

  send_state-Moves : (now : ℕ) (s : Dfsm M W) → Moves X s (left_behind (send_state X now s))
  unfolding send_state
  send_state-Moves now s = elim (Option-cases (X.callbacks.get_state s.app)) [
    | inl h ↦ rw (send_state, h) still
    | inr (content, h) ↦ rw (send_state, h) (send_after now _ s s refl)
  ]

  pub then_send_state :
      (now : ℕ) (s : Dfsm M W) (o : Outcome (Dfsm M W))
      → Moves X s (left_behind o)
      → Moves X s (left_behind (o >>= send_state X now))
  then_send_state now s (finished t) h = Moves-trans h (send_state-Moves now t)
  then_send_state now s (raised t) h = h

  sync_to-Moves : (r : Option Bool) (s : Dfsm M W) → Moves X s (left_behind (sync_to X r s))
  unfolding sync_to
  sync_to-Moves none s = one (entered_mode Epoch.error s)
  sync_to-Moves (some true) s =
      let marked_s = record s {
        sync_nodes = change_node s.nodeid s.pid mark_synced s.sync_nodes;
      } in
      let in_mode = set_mode Epoch.synced marked_s in
      then_move
        (then_move (then_move (one (marked s)) (entered_mode Epoch.synced marked_s))
          (aside in_mode _ refl))
        (passed (on_synced X in_mode))
  sync_to-Moves (some false) s =
      then_move (one (entered_mode Epoch.update s)) (passed (set_mode Epoch.update s))

  process_state_sync-Moves : (s : Dfsm M W) → Moves X s (left_behind (process_state_sync X s))
  unfolding process_state_sync
  process_state_sync-Moves s =
      let r = X.callbacks.process_state_update s.app s.sync_nodes in
      Moves-trans (one (aside s _ refl)) (sync_to-Moves r.1 (record s { app = r.0 }))

  receive_state-Moves :
      (nodeid pid : ℕ) (content : Bytes) (earlier : Option Bytes) (s : Dfsm M W)
      → Moves X s (left_behind (receive_state X nodeid pid content earlier s))
  receive_state-Moves nodeid pid content (some bs) s = one (entered_mode Epoch.leave s)
  receive_state-Moves nodeid pid content none s =
      let nodes = change_node nodeid pid (store_state content) s.sync_nodes in
      let t = record s { sync_nodes = nodes } in
      elim (Bool-cases (all_received nodes)) [
        | inl h ↦
            rw h (Moves-trans (one (stored nodeid pid content s)) (process_state_sync-Moves t))
        | inr h ↦ rw h (one (stored nodeid pid content s))
      ]

  process_state-Moves :
      (nodeid pid : ℕ) (content : Bytes) (s : Dfsm M W)
      → Moves X s (left_behind (process_state X nodeid pid content s))
  unfolding process_state
  process_state-Moves nodeid pid content s =
      elim (Option-cases (find_node nodeid pid s.sync_nodes)) [
        | inl h ↦ rw (process_state, h) (one (entered_mode Epoch.leave s))
        | inr (n, h) ↦ rw (process_state, h) (receive_state-Moves nodeid pid content n.state s)
      ]

  pub deliver_one-IsAside :
      (count nodeid pid : ℕ) (m : M) (timestamp : ℕ) (s : Dfsm M W)
      → IsAside s (deliver_one X count nodeid pid m timestamp s)
  unfolding deliver_one record_message_result
  deliver_one-IsAside count nodeid pid m timestamp s =
      elim (Option-cases (X.callbacks.deliver_message s.app nodeid pid m timestamp).1) [
        | inl h ↦ rw (deliver_one, h) refl
        | inr (r, h) ↦ rw (deliver_one, h) refl
      ]

  handle_normal_message-Moves :
      (nodeid pid count timestamp : ℕ) (m : M) (s : Dfsm M W)
      → Moves X s (handle_normal_message X nodeid pid count timestamp m s)
  unfolding handle_normal_message
  handle_normal_message-Moves nodeid pid count timestamp m s = elim (Bool-cases (is_synced s)) [
    | inl h ↦
        rw (handle_normal_message, h)
          (one (aside s _ (deliver_one-IsAside count nodeid pid m timestamp s)))
    | inr h ↦ rw (handle_normal_message, h) (one (queued _ s h))
  ]

  handle_sync_start-Moves :
      (now nodeid : ℕ) (e : SyncEpoch) (s : Dfsm M W)
      → Moves X s (left_behind (handle_sync_start X now nodeid e s))
  unfolding handle_sync_start
  handle_sync_start-Moves now nodeid e s =
      let adopted = record s { sync_epoch = e } in
      let first = one (aside s adopted refl) in
      elim (Bool-cases (nodeid == s.nodeid)) [
        | inl h ↦ rw (handle_sync_start, h) first
        | inr h ↦ rw (handle_sync_start, h) (Moves-trans first (send_state-Moves now adopted))
      ]

  handle_update_complete-Moves : (s : Dfsm M W) → Moves X s (handle_update_complete X s)
  unfolding handle_update_complete
  handle_update_complete-Moves s =
      let t = deliver_sync_queue X s in
      then_move (then_move (one (drained s)) (entered_mode Epoch.synced t))
        (aside (set_mode Epoch.synced t) _ refl)

  handle_verify_request-Moves :
      (now : ℕ) (e : SyncEpoch) (id : ℕ) (s : Dfsm M W)
      → Moves X s (left_behind (handle_verify_request X now e id s))
  unfolding handle_verify_request
  handle_verify_request-Moves now e id s =
      elim (Option-cases (X.callbacks.compute_checksum s.app)) [
        | inl h ↦ rw (handle_verify_request, h) still
        | inr (checksum, h) ↦ rw (handle_verify_request, h) (send_after now _ s _ refl)
      ]

  handle_verify-Moves :
      (e : SyncEpoch) (id : ℕ) (checksum : Bytes) (s : Dfsm M W)
      → Moves X s (left_behind (handle_verify e id checksum s))
  unfolding handle_verify
  handle_verify-Moves e id checksum s =
      elim (Bool-cases ((s.checksum_id == id) && epoch_eq s.checksum_epoch e)) [
        | inl h ↦ elim (Bool-cases (bytes_eq s.checksum checksum)) [
          | inl k ↦ rw (handle_verify, h, k) still
          | inr k ↦ rw (handle_verify, h, k) (one (entered_mode Epoch.leave s))
        ]
        | inr h ↦ rw (handle_verify, h) still
      ]

  dispatch-Moves :
      (now nodeid pid : ℕ) (m : DfsmMessage M) (s : Dfsm M W)
      → Moves X s (left_behind (dispatch X now nodeid pid m s))
  unfolding dispatch handle_update
  dispatch-Moves now nodeid pid (Protocol.normal c t v m) s =
      handle_normal_message-Moves nodeid pid c t m s
  dispatch-Moves now nodeid pid (Protocol.sync_start e) s = handle_sync_start-Moves now nodeid e s
  dispatch-Moves now nodeid pid (Protocol.state e content) s =
      process_state-Moves nodeid pid content s
  dispatch-Moves now nodeid pid (Protocol.update e entry) s = one (aside s _ refl)
  dispatch-Moves now nodeid pid (Protocol.update_complete e) s = handle_update_complete-Moves s
  dispatch-Moves now nodeid pid (Protocol.verify_request e id) s =
      handle_verify_request-Moves now e id s
  dispatch-Moves now nodeid pid (Protocol.verify e id checksum) s =
      handle_verify-Moves e id checksum s

  pub handle_dfsm_message-Moves :
      (now nodeid pid : ℕ) (m : DfsmMessage M) (s : Dfsm M W)
      → Moves X s (left_behind (handle_dfsm_message X now nodeid pid m s))
  unfolding handle_dfsm_message
  handle_dfsm_message-Moves now nodeid pid m s =
      elim (Bool-cases (is_stale s.sync_epoch (checked_epoch m))) [
        | inl h ↦ rw (handle_dfsm_message, h) still
        | inr h ↦ rw (handle_dfsm_message, h) (dispatch-Moves now nodeid pid m s)
      ]
