-- ===== src/Dfsm/Machine/Handlers/Epochs.antt =====
-- The epochs of state_machine.rs: messages of another epoch than the node's are ignored, and a membership
-- change begins an epoch of a higher number.
use pve_cluster.Prelude.{
  ℕ, some, [], ◌∷◌, true, List, ◌≡◌, ◌≢◌, ◌<◌, ◌≤◌, ◌^◌, ◌+◌, refl, ap, ◌∙◌, inl, inr, Bool-cases,
  Option-cases, ◌==◌, ◌&&◌, arith, length,
}
use pve_cluster.Dfsm.Message.{IsLawful}
use pve_cluster.Dfsm.Protocol
use pve_cluster.Dfsm.Protocol.{DfsmMessage, serialize}
use pve_cluster.Dfsm.Protocol.Epoch
use pve_cluster.Dfsm.Protocol.Epoch.{SyncEpoch, epoch_eq, epoch_eq_iff, DfsmMode}
use pve_cluster.Dfsm.Protocol.RoundTrip.{IsSendable, deserialize-serialize_dfsm}
use pve_cluster.Dfsm.Machine.{
  Dfsm, World, NodeSyncInfo, MemberInfo, QueuedMessage, Outcome, finished, raised, ◌>>=◌,
  left_behind, set_mode, is_leader, send_dfsm_message, send_sync_start, send_state,
}
use pve_cluster.Dfsm.Machine.Queue.{
  deliver_message_queue, deliver_one, record_message_result, pass_all, pass_one, Pass, Fate,
  dropped, delivered, moved, kept, fate, find_node,
}
use pve_cluster.Dfsm.Machine.Handlers.{
  on_deliver, on_confchg, handle_dfsm_message, handle_membership_change, enter_epoch, checked_epoch,
  is_stale,
}
use pve_cluster.Dfsm.Machine.Steps.Moves.{set_mode-cases}

is_stale-other : (current e : SyncEpoch) → e ≢ current → is_stale current (some e) ≡ true
is_stale-other current e h = elim (Bool-cases (epoch_eq e current)) [
  | inl k ↦ absurd (h ((epoch_eq_iff e current).0 k))
  | inr k ↦ rw k refl
]

-- A message that is checked for its epoch and is of another one than the node's changes nothing when its
-- bytes arrive.
pub stale_ignored :
    {M W : Type 0} (X : World M W) (S : M → Type 0)
    → IsLawful X.messages S
    → (s : Dfsm M W) (now sent_at nodeid pid : ℕ) (m : DfsmMessage M) (e : SyncEpoch)
    → IsSendable S m
    → checked_epoch m ≡ some e
    → e ≢ s.sync_epoch
    → on_deliver X now nodeid pid (serialize X.messages sent_at m) s ≡ some s
unfolding on_deliver handle_dfsm_message
stale_ignored X S law s now sent_at nodeid pid m e sendable c h =
    let r = deserialize-serialize_dfsm X.messages S law sent_at m sendable in
    let k = ap (is_stale s.sync_epoch) c ∙ is_stale-other s.sync_epoch e h in
    rw (on_deliver, r, handle_dfsm_message, k) refl

-- The epoch is left alone by what follows its renewal.
module _ {M W : Type 0} (X : World M W) where
  abbrev epoch_after : Outcome (Dfsm M W) → SyncEpoch
  epoch_after o = (left_behind o).sync_epoch

  set_mode-epoch : (m : DfsmMode) (s : Dfsm M W) → (set_mode m s).sync_epoch ≡ s.sync_epoch
  set_mode-epoch m s = elim (set_mode-cases m s) [
    | inl e ↦ ap Dfsm.sync_epoch e
    | inr e ↦ ap Dfsm.sync_epoch e
  ]

  send-epoch :
      (now : ℕ) (m : DfsmMessage M) (s : Dfsm M W)
      → epoch_after (send_dfsm_message X now m s) ≡ s.sync_epoch
  unfolding send_dfsm_message
  send-epoch now m s =
      elim (Bool-cases (s.cpg_service && X.accepts s.sent (serialize X.messages now m))) [
        | inl h ↦ rw (send_dfsm_message, h) refl
        | inr h ↦ rw (send_dfsm_message, h) refl
      ]

  send_state-epoch : (now : ℕ) (s : Dfsm M W) → epoch_after (send_state X now s) ≡ s.sync_epoch
  unfolding send_state
  send_state-epoch now s = elim (Option-cases (X.callbacks.get_state s.app)) [
    | inl h ↦ rw (send_state, h) refl
    | inr (content, h) ↦ rw (send_state, h) (send-epoch now (Protocol.state s.sync_epoch content) s)
  ]

  then_state-epoch :
      (now : ℕ) (o : Outcome (Dfsm M W)) → epoch_after (o >>= send_state X now) ≡ epoch_after o
  then_state-epoch now (finished s) = send_state-epoch now s
  then_state-epoch now (raised s) = refl

  deliver_one-epoch :
      (count nodeid pid : ℕ) (m : M) (timestamp : ℕ) (s : Dfsm M W)
      → (deliver_one X count nodeid pid m timestamp s).sync_epoch ≡ s.sync_epoch
  unfolding deliver_one record_message_result
  deliver_one-epoch count nodeid pid m timestamp s =
      elim (Option-cases (X.callbacks.deliver_message s.app nodeid pid m timestamp).1) [
        | inl h ↦ rw (deliver_one, h) refl
        | inr (r, h) ↦ rw (deliver_one, h) refl
      ]

  pass_one-epoch :
      (f : Fate) (count : ℕ) (qm : QueuedMessage M) (p : Pass M W)
      → (pass_one X f count qm p).machine.sync_epoch ≡ p.machine.sync_epoch
  pass_one-epoch dropped count qm p = refl
  pass_one-epoch delivered count qm p =
      deliver_one-epoch count qm.nodeid qm.pid qm.message qm.timestamp p.machine
  pass_one-epoch moved count qm p = refl
  pass_one-epoch kept count qm p = refl

  pass_all-epoch :
      (mode : DfsmMode) (nodes : List NodeSyncInfo) (q : List (ℕ × QueuedMessage M)) (p : Pass M W)
      → (pass_all X mode nodes q p).machine.sync_epoch ≡ p.machine.sync_epoch
  unfolding pass_all
  pass_all-epoch mode nodes [] p = refl
  pass_all-epoch mode nodes ((count, qm) ∷ q) p =
      let f = fate mode (find_node qm.nodeid qm.pid nodes) in
      pass_all-epoch mode nodes q (pass_one X f count qm p) ∙ pass_one-epoch f count qm p

  deliver_message_queue-epoch :
      (s : Dfsm M W) → (deliver_message_queue X s).sync_epoch ≡ s.sync_epoch
  unfolding deliver_message_queue
  deliver_message_queue-epoch s = pass_all-epoch s.mode s.sync_nodes s.msg_queue _

  handle_membership_change-epoch :
      (now : ℕ) (members : List MemberInfo) (s : Dfsm M W)
      → epoch_after (handle_membership_change X now members s)
        ≡ (enter_epoch X now members s).sync_epoch
  unfolding handle_membership_change send_sync_start
  handle_membership_change-epoch now members s =
      let entered = enter_epoch X now members s in
      let syncing = set_mode Epoch.start_sync entered in
      let sync = send-epoch now (Protocol.sync_start syncing.sync_epoch) syncing in
      elim (Bool-cases (length members == 1)) [
        | inl h ↦
            rw (handle_membership_change, h)
              (deliver_message_queue-epoch _ ∙ set_mode-epoch Epoch.synced entered)
        | inr h ↦ elim (Bool-cases (is_leader syncing)) [
          | inl k ↦
              rw (handle_membership_change, h, k)
                (then_state-epoch now (send_sync_start X now syncing)
                  ∙ sync
                  ∙ set_mode-epoch Epoch.start_sync entered)
          | inr k ↦ rw (handle_membership_change, h, k) (set_mode-epoch Epoch.start_sync entered)
        ]
      ]

  renewed_number :
      (now : ℕ) (addresses : List (ℕ × ℕ)) (s : Dfsm M W)
      → s.local_epoch_counter + 1 < 2 ^ 32
      → (on_confchg X now addresses s).sync_epoch.epoch ≡ s.local_epoch_counter + 1
  unfolding on_confchg enter_epoch
  renewed_number now addresses s h =
      ap SyncEpoch.epoch (handle_membership_change-epoch now _ s) ∙ omega (arith, h)

-- After a membership change, where the 32 bits of the counter do not wrap around, a State, Update,
-- UpdateComplete, VerifyRequest or Verify message of an epoch whose number the node had counted to
-- before changes nothing when its bytes arrive. Normal and SyncStart messages, whose epoch is not
-- checked, are not covered.
pub late_ignored :
    {M W : Type 0} (X : World M W) (S : M → Type 0)
    → IsLawful X.messages S
    → (s : Dfsm M W) (changed_at : ℕ) (addresses : List (ℕ × ℕ)) (now sent_at nodeid pid : ℕ)
      (m : DfsmMessage M) (e : SyncEpoch)
    → IsSendable S m
    → checked_epoch m ≡ some e
    → e.epoch ≤ s.local_epoch_counter
    → s.local_epoch_counter + 1 < 2 ^ 32
    → on_deliver X now nodeid pid
        (serialize X.messages sent_at m)
        (on_confchg X changed_at addresses s)
      ≡ some (on_confchg X changed_at addresses s)
late_ignored X S law s changed_at addresses now sent_at nodeid pid m e sendable c le room =
    stale_ignored X S law (on_confchg X changed_at addresses s) now sent_at nodeid pid m e sendable
      c (λ h. omega (arith, ap SyncEpoch.epoch h, renewed_number X changed_at addresses s room, le))
