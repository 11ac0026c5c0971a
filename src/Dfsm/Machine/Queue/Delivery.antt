-- ===== src/Dfsm/Machine/Queue/Delivery.antt =====
-- `deliver_message_queue` of state_machine.rs and what it does to each queued message.
use pve_cluster.Prelude.{
  ℕ, [], ◌∷◌, true, false, List, ◌≡◌, ◌<◌, refl, ap, ◌∙◌, inl, inr, Bool-cases, ◌==◌, arith, All,
  if◌then◌else◌, ◌++◌, append_assoc, append-nil, length, ◌≤◌,
}
use pve_cluster.Dfsm.Protocol.Epoch.{DfsmMode}
use pve_cluster.Dfsm.Machine.{Dfsm, World, NodeSyncInfo, QueuedMessage}
use pve_cluster.Dfsm.Machine.Queue.{
  Fate, dropped, delivered, moved, kept, fate, find_node, remove, remove_all, Pass, pass_one,
  pass_all, deliver_queued, deliver_message_queue, length,
}
use pve_cluster.Dfsm.Machine.Queue.Order.{IsAbove, IsAscending}
use pve_cluster.Dfsm.Machine.Steps.Moves.{View, view, deliver_one-IsAside}

abbrev pub fate_number : Fate → ℕ
fate_number dropped = 0
fate_number delivered = 1
fate_number moved = 2
fate_number kept = 3

module _ {M : Type 0} (mode : DfsmMode) (nodes : List NodeSyncInfo) where
  abbrev pub fate_of : QueuedMessage M → Fate
  fate_of qm = fate mode (find_node qm.nodeid qm.pid nodes)

  -- The queued messages of one fate, in order.
  unfoldable pub those : Fate → List (ℕ × QueuedMessage M) → List (ℕ × QueuedMessage M)
  those f [] = []
  those f ((k, qm) ∷ q) =
      if fate_number (fate_of qm) == fate_number f then (k, qm) ∷ those f q else those f q

  unfoldable removed : List (ℕ × QueuedMessage M) → List ℕ
  removed [] = []
  removed ((k, qm) ∷ q) = if fate_number (fate_of qm) == 3 then removed q else k ∷ removed q

abbrev pub messages_of : {M : Type 0} → List (ℕ × QueuedMessage M) → List (QueuedMessage M)
messages_of [] = []
messages_of ((k, qm) ∷ q) = qm ∷ messages_of q

-- The calls of the application, one after the other.
unfoldable pub deliver_in_turn :
    {M W : Type 0} → World M W → List (ℕ × QueuedMessage M) → Dfsm M W → Dfsm M W
deliver_in_turn X [] s = s
deliver_in_turn X ((k, qm) ∷ q) s = deliver_in_turn X q (deliver_queued X k qm s)

-- Fewer keys are removed from a queue that is above them all but its head.
remove_all-cons :
    {A : Type 0} (ks : List ℕ) (k : ℕ) (v : A) (m : List (ℕ × A))
    → All (λ j. k < j) ks
    → remove_all ks ((k, v) ∷ m) ≡ (k, v) ∷ remove_all ks m
unfolding remove_all remove
remove_all-cons [] k v m a = refl
remove_all-cons (j ∷ ks) k v m a =
    rw (remove_all, remove, (let e : (j == k) ≡ false = ground (arith, a.0) in e))
      (remove_all-cons ks k v (remove j m) a.1)

module _ {M : Type 0} (mode : DfsmMode) (nodes : List NodeSyncInfo) where
  removed-IsAbove :
      (k : ℕ) (q : List (ℕ × QueuedMessage M))
      → IsAbove k q
      → All (λ j. k < j) (removed mode nodes q)
  unfolding removed
  removed-IsAbove k [] a = tt
  removed-IsAbove k ((j, qm) ∷ q) a = elim (Bool-cases (fate_number (fate_of mode nodes qm) == 3)) [
    | inl h ↦ rw (removed, h) (removed-IsAbove k q a.1)
    | inr h ↦ rw (removed, h) (a.0, removed-IsAbove k q a.1)
  ]

  -- Removing what was collected keeps the messages whose fate is to be kept.
  remove_all-removed :
      (q : List (ℕ × QueuedMessage M))
      → IsAscending q
      → remove_all (removed mode nodes q) q ≡ those mode nodes kept q
  unfolding removed those remove_all remove
  remove_all-removed [] a = refl
  remove_all-removed ((k, qm) ∷ q) a =
      elim (Bool-cases (fate_number (fate_of mode nodes qm) == 3)) [
        | inl h ↦
            rw (removed, those, h)
              (remove_all-cons (removed mode nodes q) k qm q (removed-IsAbove k q a.0)
                ∙ ap (λ m. (k, qm) ∷ m) (remove_all-removed q a.1))
        | inr h ↦
            rw
              (removed, those, h, remove_all, remove, (let e : (k == k) ≡ true = ground arith in e))
              (remove_all-removed q a.1)
      ]

  those-IsAbove :
      (f : Fate) (k : ℕ) (q : List (ℕ × QueuedMessage M))
      → IsAbove k q
      → IsAbove k (those mode nodes f q)
  unfolding those
  those-IsAbove f k [] a = tt
  those-IsAbove f k ((j, qm) ∷ q) a =
      elim (Bool-cases (fate_number (fate_of mode nodes qm) == fate_number f)) [
        | inl h ↦ rw (those, h) (a.0, those-IsAbove f k q a.1)
        | inr h ↦ rw (those, h) (those-IsAbove f k q a.1)
      ]

  pub those-IsAscending :
      (f : Fate) (q : List (ℕ × QueuedMessage M))
      → IsAscending q
      → IsAscending (those mode nodes f q)
  unfolding those
  those-IsAscending f [] a = tt
  those-IsAscending f ((k, qm) ∷ q) a =
      elim (Bool-cases (fate_number (fate_of mode nodes qm) == fate_number f)) [
        | inl h ↦ rw (those, h) (those-IsAbove f k q a.0, those-IsAscending f q a.1)
        | inr h ↦ rw (those, h) (those-IsAscending f q a.1)
      ]

  pub length-those :
      (f : Fate) (q : List (ℕ × QueuedMessage M)) → length (those mode nodes f q) ≤ length q
  unfolding those
  length-those f [] = omega arith
  length-those f ((k, qm) ∷ q) =
      elim (Bool-cases (fate_number (fate_of mode nodes qm) == fate_number f)) [
        | inl h ↦ rw (those, h) (omega (arith, length-those f q))
        | inr h ↦ rw (those, h) (omega (arith, length-those f q))
      ]

module _ {M W : Type 0} (X : World M W) (mode : DfsmMode) (nodes : List NodeSyncInfo) where
  -- What the loop collects.
  abbrev collected : List (ℕ × QueuedMessage M) → Pass M W → Pass M W
  collected q p = record {
    machine = deliver_in_turn X (those mode nodes delivered q) p.machine;
    to_remove = p.to_remove ++ removed mode nodes q;
    to_sync_queue = p.to_sync_queue ++ messages_of (those mode nodes moved q);
  }

  collected-pass_one :
      (k : ℕ) (qm : QueuedMessage M) (q : List (ℕ × QueuedMessage M)) (p : Pass M W) (f : Fate)
      → fate_of mode nodes qm ≡ f
      → collected q (pass_one X f k qm p) ≡ collected ((k, qm) ∷ q) p
  unfolding deliver_in_turn those removed
  collected-pass_one k qm q p dropped h =
      rw (those, removed, h, append_assoc p.to_remove (k ∷ []) (removed mode nodes q)) refl
  collected-pass_one k qm q p delivered h =
      rw (those, removed, h, append_assoc p.to_remove (k ∷ []) (removed mode nodes q)) refl
  collected-pass_one k qm q p moved h =
      rw
        (
          those,
          removed,
          h,
          append_assoc p.to_remove (k ∷ []) (removed mode nodes q),
          append_assoc p.to_sync_queue (qm ∷ []) (messages_of (those mode nodes moved q)),
        )
        refl
  collected-pass_one k qm q p kept h = rw (those, removed, h) refl

  pass_all-collected :
      (q : List (ℕ × QueuedMessage M)) (p : Pass M W) → pass_all X mode nodes q p ≡ collected q p
  unfolding pass_all those removed deliver_in_turn
  pass_all-collected [] p = rw (append-nil p.to_remove, append-nil p.to_sync_queue) refl
  pass_all-collected ((k, qm) ∷ q) p =
      let f = fate_of mode nodes qm in
      pass_all-collected q (pass_one X f k qm p) ∙ collected-pass_one k qm q p f refl

pub deliver_in_turn-view :
    {M W : Type 0} (X : World M W) (q : List (ℕ × QueuedMessage M)) (s : Dfsm M W)
    → view (deliver_in_turn X q s) ≡ view s
unfolding deliver_in_turn
deliver_in_turn-view X [] s = refl
deliver_in_turn-view X ((k, qm) ∷ q) s =
    deliver_in_turn-view X q (deliver_queued X k qm s)
    ∙ deliver_one-IsAside X k qm.nodeid qm.pid qm.message qm.timestamp s

-- A pass leaves the mode, the members and the node's own number as they are.
pub deliver_message_queue-view :
    {M W : Type 0} (X : World M W) (s : Dfsm M W)
    → view (deliver_message_queue X s)
      ≡ view (record s {
        msg_queue = (deliver_message_queue X s).msg_queue;
        sync_queue = (deliver_message_queue X s).sync_queue;
      })
unfolding deliver_message_queue
deliver_message_queue-view X s =
    let c =
      pass_all-collected X s.mode s.sync_nodes s.msg_queue
        (record { machine = s; to_remove = []; to_sync_queue = [] }) in
    let v =
      ap (λ p. view (Pass.machine p)) c
      ∙ deliver_in_turn-view X (those s.mode s.sync_nodes delivered s.msg_queue) s in
    λ i. record (view (deliver_message_queue X s)) {
      mode = ap View.mode v i;
      sync_nodes = ap View.sync_nodes v i;
      nodeid = ap View.nodeid v i;
      pid = ap View.pid v i;
    }

-- On a queue in the order of its keys, a pass hands the application the messages of synced senders in
-- order when the node is synced, moves them behind the sync queue while it waits for updates, drops those
-- of non-members, and keeps the others in the queue.
pub deliver_message_queue-those :
    {M W : Type 0} (X : World M W) (s : Dfsm M W)
    → IsAscending s.msg_queue
    → deliver_message_queue X s
      ≡ record (deliver_in_turn X (those s.mode s.sync_nodes delivered s.msg_queue) s) {
        msg_queue = those s.mode s.sync_nodes kept s.msg_queue;
        sync_queue = s.sync_queue ++ messages_of (those s.mode s.sync_nodes moved s.msg_queue);
      }
unfolding deliver_message_queue
deliver_message_queue-those X s a =
    let v = deliver_in_turn-view X (those s.mode s.sync_nodes delivered s.msg_queue) s in
    rw
      (
        deliver_message_queue,
        pass_all-collected X s.mode s.sync_nodes s.msg_queue
            (record { machine = s; to_remove = []; to_sync_queue = [] }),
        ap View.msg_queue v,
        ap View.sync_queue v,
        remove_all-removed s.mode s.sync_nodes s.msg_queue a,
      )
      refl
