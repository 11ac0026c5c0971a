-- ===== src/Dfsm/Machine/Steps/Refinement.antt =====
-- Every call of state_machine.rs is a sequence of the changes of Moves.
use pve_cluster.Prelude.{
  ℕ, some, [], ◌∷◌, false, List, ◌≡◌, refl, subst, inl, inr, Bool-cases, ◌==◌, ◌||◌, not, length,
  arith, ◌+◌, ◌%◌, ◌^◌,
}
use mathlib.Core.Option.{some-injective, none-ne-some}
use pve_cluster.Bytes.{Bytes}
use pve_cluster.Dfsm.Message.{Received, received, refused, panicked}
use pve_cluster.Dfsm.Protocol.{from_message, DfsmMessage, deserialize}
use pve_cluster.Dfsm.Protocol.Epoch
use pve_cluster.Dfsm.Machine.{
  Dfsm, World, MemberInfo, Outcome, finished, raised, left_behind, set_mode, is_synced, is_leader,
  send_dfsm_message, send_sync_start, send_message, broadcast, send_update, send_update_complete,
}
use pve_cluster.Dfsm.Machine.Verify.{verify_request}
use pve_cluster.Dfsm.Machine.Handlers.{
  enter_epoch, mark_first, fresh_node, handle_membership_change, on_deliver, on_confchg,
  deliver_received,
}
use pve_cluster.Dfsm.Machine.Service.{send_message_sync, give_up, stop_services, clean_up}
use pve_cluster.Dfsm.Machine.Steps.{
  Event, delivered, changed, sent, broadcasted, sent_sync, gave_up, sent_update,
  sent_update_complete, asked_to_verify, stopped, step,
}
use pve_cluster.Dfsm.Machine.Steps.Moves.{
  Moves, still, then_move, aside, entered_mode, passed, renewed, alone, Moves-trans, one,
  send_after, then_send_state, handle_dfsm_message-Moves, set_mode-sync_nodes,
}

module _ {M W : Type 0} (X : World M W) where
  send_sync_start-Moves :
      (now : ℕ) (s : Dfsm M W) → Moves X s (left_behind (send_sync_start X now s))
  unfolding send_sync_start
  send_sync_start-Moves now s = send_after X now _ s s refl

  -- The members of a group of one.
  alone-Moves :
      (now : ℕ) (member : MemberInfo) (s : Dfsm M W)
      → Moves X s (left_behind (handle_membership_change X now (member ∷ []) s))
  unfolding handle_membership_change enter_epoch
  alone-Moves now member s =
      let entered = enter_epoch X now (member ∷ []) s in
      let t = set_mode Epoch.synced entered in
      let e : t.sync_nodes ≡ fresh_node member ∷ [] = set_mode-sync_nodes Epoch.synced entered in
      then_move
        (then_move
          (then_move (one X (renewed now (member ∷ []) s)) (entered_mode Epoch.synced entered))
          (alone member t e))
        (passed (record t { sync_nodes = mark_first t.sync_nodes }))

  syncing-Moves :
      (now : ℕ) (members : List MemberInfo) (s : Dfsm M W)
      → (length members == 1) ≡ false
      → Moves X s (left_behind (handle_membership_change X now members s))
  unfolding handle_membership_change
  syncing-Moves now members s h =
      let entered = enter_epoch X now members s in
      let t = set_mode Epoch.start_sync entered in
      let p = then_move (one X (renewed now members s)) (entered_mode Epoch.start_sync entered) in
      elim (Bool-cases (is_leader t)) [
        | inl k ↦
            rw (handle_membership_change, h, k)
              (Moves-trans p
                (then_send_state X now t (send_sync_start X now t) (send_sync_start-Moves now t)))
        | inr k ↦ rw (handle_membership_change, h, k) p
      ]

  handle_membership_change-Moves :
      (now : ℕ) (members : List MemberInfo) (s : Dfsm M W)
      → Moves X s (left_behind (handle_membership_change X now members s))
  handle_membership_change-Moves now [] s = syncing-Moves now [] s refl
  handle_membership_change-Moves now (m ∷ []) s = alone-Moves now m s
  handle_membership_change-Moves now (m ∷ n ∷ ms) s =
      syncing-Moves now (m ∷ n ∷ ms) s (ground arith)

  on_deliver-Moves :
      (now nodeid pid : ℕ) (bs : Bytes) (s t : Dfsm M W)
      → on_deliver X now nodeid pid bs s ≡ some t
      → Moves X s t
  unfolding on_deliver
  on_deliver-Moves now nodeid pid bs s t h = by_message (deserialize X.messages bs) h
    where
      by_message :
          (r : Received (DfsmMessage M))
          → deliver_received X now nodeid pid r s ≡ some t
          → Moves X s t
      by_message (received m) k =
          subst (Moves X s) (some-injective _ _ k) (handle_dfsm_message-Moves X now nodeid pid m s)
      by_message refused k = subst (Moves X s) (some-injective _ _ k) still
      by_message panicked k = absurd (none-ne-some t k)

  send_message-Moves :
      (now : ℕ) (m : M) (s : Dfsm M W) → Moves X s (left_behind (send_message X now m s))
  unfolding send_message
  send_message-Moves now m s = send_after X now _ s _ refl

  broadcast-Moves : (now : ℕ) (m : M) (s : Dfsm M W) → Moves X s (left_behind (broadcast X now m s))
  unfolding broadcast
  broadcast-Moves now m s = elim (Bool-cases (is_synced s)) [
    | inl h ↦ rw (broadcast, h) (send_message-Moves now m s)
    | inr h ↦ rw (broadcast, h) still
  ]

  cleaned_up-Moves :
      (count : ℕ) (s : Dfsm M W) (o : Outcome (Dfsm M W))
      → Moves X s (left_behind o)
      → Moves X s (left_behind (clean_up X count o))
  unfolding give_up
  cleaned_up-Moves count s (finished t) h = h
  cleaned_up-Moves count s (raised t) h = then_move h (aside t _ refl)

  send_message_sync-Moves :
      (now : ℕ) (m : M) (s : Dfsm M W) → Moves X s (left_behind (send_message_sync X now m s))
  unfolding send_message_sync
  send_message_sync-Moves now m s =
      let msg_count = (s.msg_counter + 1) % 2 ^ 64 in
      let t = record s { msg_counter = msg_count; waiting = msg_count ∷ s.waiting } in
      let message = from_message now msg_count m s.protocol_version in
      cleaned_up-Moves msg_count s (send_dfsm_message X now message t)
        (send_after X now message s t refl)

  verify_request-Moves : (now : ℕ) (s : Dfsm M W) → Moves X s (left_behind (verify_request X now s))
  unfolding verify_request
  verify_request-Moves now s =
      elim (Bool-cases
        (not (is_leader s) || (not (is_synced s) || not (s.checksum_counter == s.checksum_id)))) [
          | inl h ↦ rw (verify_request, h) still
          | inr h ↦ rw (verify_request, h) (send_after X now _ s _ refl)
        ]

  -- Every call that does not panic is a sequence of changes.
  pub step-Moves : (e : Event M) (s t : Dfsm M W) → step X e s ≡ some t → Moves X s t
  unfolding step send_update send_update_complete give_up stop_services on_confchg
  step-Moves (delivered now nodeid pid bs) s t h = on_deliver-Moves now nodeid pid bs s t h
  step-Moves (changed now addresses) s t h =
      subst (Moves X s) (some-injective _ _ h) (handle_membership_change-Moves now _ s)
  step-Moves (sent now m) s t h =
      subst (Moves X s) (some-injective _ _ h) (send_message-Moves now m s)
  step-Moves (broadcasted now m) s t h =
      subst (Moves X s) (some-injective _ _ h) (broadcast-Moves now m s)
  step-Moves (sent_sync now m) s t h =
      subst (Moves X s) (some-injective _ _ h) (send_message_sync-Moves now m s)
  step-Moves (gave_up count) s t h =
      subst (Moves X s) (some-injective _ _ h) (one X (aside s _ refl))
  step-Moves (sent_update now entry) s t h =
      subst (Moves X s) (some-injective _ _ h) (send_after X now _ s s refl)
  step-Moves (sent_update_complete now) s t h =
      subst (Moves X s) (some-injective _ _ h) (send_after X now _ s s refl)
  step-Moves (asked_to_verify now) s t h =
      subst (Moves X s) (some-injective _ _ h) (verify_request-Moves now s)
  step-Moves stopped s t h = subst (Moves X s) (some-injective _ _ h) (one X (aside s _ refl))
