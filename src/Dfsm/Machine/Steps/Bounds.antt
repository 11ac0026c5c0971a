-- ===== src/Dfsm/Machine/Steps/Bounds.antt =====
-- The bound and the order of the message queue of state_machine.rs in every state that is reached.
use pve_cluster.Prelude.{
  ℕ, [], ◌∷◌, List, ◌≡◌, ◌≤◌, refl, ap, subst, sym, inl, inr, Bool-cases, ◌&&◌, arith, length,
  length-drop, leb, drop, if◌then◌else◌, ◌∙◌,
}
use pve_cluster.Dfsm.Protocol.Epoch
use pve_cluster.Dfsm.Protocol.Epoch.{is_mode, DfsmMode}
use pve_cluster.Dfsm.Machine.{Dfsm, World, QueuedMessage}
use pve_cluster.Dfsm.Machine.Queue.{
  queue_message, deliver_sync_queue, deliver_each, deliver_queued, insert, max_queue_len,
  synced_flag, find_node, kept,
}
use pve_cluster.Dfsm.Machine.Queue.Order.{
  IsAscending, insert-IsAscending, drop-IsAscending, length-insert,
}
use pve_cluster.Dfsm.Machine.Queue.Delivery.{
  those-IsAscending, length-those, deliver_message_queue-those,
}
use pve_cluster.Dfsm.Machine.Handlers.{enter_epoch}
use pve_cluster.Dfsm.Machine.Verify.{invalidate_checksum}
use pve_cluster.Dfsm.Machine.Steps.{Reachable, here, next}
use pve_cluster.Dfsm.Machine.Steps.Moves.{
  View, view, Move, Moves, still, then_move, aside, entered_mode, queued, passed, drained, stored,
  marked, renewed, alone, set_mode-cases, deliver_one-IsAside,
}
use pve_cluster.Dfsm.Machine.Steps.Refinement.{step-Moves}

module _ {M W : Type 0} (X : World M W) (P : Dfsm M W → Type 0)
    (k : (s t : Dfsm M W) → Move X s t → P s → P t) where
  Moves-keeps : {s t : Dfsm M W} → Moves X s t → P s → P t
  Moves-keeps still p = p
  Moves-keeps (then_move {t = c} {u = d} ms m) p = k c d m (Moves-keeps ms p)

  -- What every change preserves holds in every state that is reached.
  pub Reachable-keeps : {s t : Dfsm M W} → Reachable X s t → P s → P t
  Reachable-keeps here h = h
  Reachable-keeps (next {s = t} {t = u} r e st) h =
      Moves-keeps (step-Moves X e t u st) (Reachable-keeps r h)

-- A queue in the order of its keys, with at most 500 messages.
abbrev pub IsFit : {M : Type 0} → List (ℕ × QueuedMessage M) → Type 0
IsFit q = IsAscending q × (length q ≤ max_queue_len)

insert-IsFit :
    {M : Type 0} (qm : QueuedMessage M) (q : List (ℕ × QueuedMessage M))
    → IsFit q
    → IsFit (insert qm.msg_count qm (if leb max_queue_len (length q) then drop 1 q else q))
insert-IsFit qm q h = elim (Bool-cases (leb max_queue_len (length q))) [
  | inl k ↦ rw k (
    insert-IsAscending qm.msg_count qm (drop 1 q) (drop-IsAscending q h.0),
    omega (arith, length-insert qm.msg_count qm (drop 1 q), length-drop 1 q, h.1),
  )
  | inr k ↦
      rw k (
        insert-IsAscending qm.msg_count qm q h.0,
        ground (arith, length-insert qm.msg_count qm q, k),
      )
]

module _ {M W : Type 0} where
  queue_message-IsFit :
      (qm : QueuedMessage M) (s : Dfsm M W)
      → IsFit s.msg_queue
      → IsFit (queue_message qm s).msg_queue
  unfolding queue_message
  queue_message-IsFit qm s h =
      elim (Bool-cases
        (is_mode s.mode Epoch.update && synced_flag (find_node qm.nodeid qm.pid s.sync_nodes))) [
          | inl k ↦ rw (queue_message, k) h
          | inr k ↦ rw (queue_message, k) (insert-IsFit qm s.msg_queue h)
        ]

  deliver_each-view :
      (X : World M W) (q : List (QueuedMessage M)) (s : Dfsm M W)
      → view (deliver_each X q s) ≡ view s
  unfolding deliver_each
  deliver_each-view X [] s = refl
  deliver_each-view X (qm ∷ q) s =
      deliver_each-view X q (deliver_queued X qm.msg_count qm s)
      ∙ deliver_one-IsAside X qm.msg_count qm.nodeid qm.pid qm.message qm.timestamp s

  pub deliver_sync_queue-view :
      (X : World M W) (s : Dfsm M W)
      → view (deliver_sync_queue X s) ≡ view (record s { sync_queue = [] })
  unfolding deliver_sync_queue
  deliver_sync_queue-view X s = deliver_each-view X s.sync_queue (record s { sync_queue = [] })

  Move-IsFit : (X : World M W) (s t : Dfsm M W) → Move X s t → IsFit s.msg_queue → IsFit t.msg_queue
  unfolding enter_epoch invalidate_checksum
  Move-IsFit X _ _ (aside s t e) h = subst IsFit (sym (ap View.msg_queue e)) h
  Move-IsFit X _ _ (entered_mode m s) h = elim (set_mode-cases m s) [
    | inl e ↦ subst (λ u. IsFit u.msg_queue) (sym e) h
    | inr e ↦ subst (λ u. IsFit u.msg_queue) (sym e) h
  ]
  Move-IsFit X _ _ (queued qm s k) h = queue_message-IsFit qm s h
  Move-IsFit X _ _ (passed s) h =
      subst (λ u. IsFit u.msg_queue) (sym (deliver_message_queue-those X s h.0))
        (
          those-IsAscending s.mode s.sync_nodes kept s.msg_queue h.0,
          omega (arith, h.1, length-those s.mode s.sync_nodes kept s.msg_queue),
        )
  Move-IsFit X _ _ (drained s) h =
      subst IsFit (sym (ap View.msg_queue (deliver_sync_queue-view X s))) h
  Move-IsFit X _ _ (stored nodeid pid content s) h = h
  Move-IsFit X _ _ (marked s) h = h
  Move-IsFit X _ _ (renewed now members s) h = h
  Move-IsFit X _ _ (alone member s e) h = h

-- In every state that events lead to from one whose message queue is in the order of its keys with at
-- most 500 messages, the message queue is in that order and holds at most 500 messages.
pub Reachable-IsFit :
    {M W : Type 0} (X : World M W) {s t : Dfsm M W}
    → Reachable X s t
    → IsFit s.msg_queue
    → IsFit t.msg_queue
Reachable-IsFit X r h = Reachable-keeps X (λ u. IsFit u.msg_queue) (Move-IsFit X) r h
