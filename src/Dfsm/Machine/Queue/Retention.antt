-- ===== src/Dfsm/Machine/Queue/Retention.antt =====
-- `queue_message` of state_machine.rs: what waits in the queues afterwards.
use pve_cluster.Prelude.{
  ap, sym, subst, ℕ, none, [], ◌∷◌, ◌++◌, true, false, List, Bool, ◌≡◌, ◌≤◌, ◌⊎◌, inl, inr, refl,
  ◌==◌, ◌&&◌, ltb, if◌then◌else◌, leb, length, drop, Bool-cases, arith,
}
use mathlib.Core.List.{Memᴰ}
use mathlib.Core.List.Memᴰ
use pve_cluster.Map.{get, nat_eq}
use pve_cluster.Dfsm.Protocol.Epoch
use pve_cluster.Dfsm.Protocol.Epoch.{is_mode}
use pve_cluster.Dfsm.Machine.{Dfsm, QueuedMessage}
use pve_cluster.Dfsm.Machine.Queue.{queue_message, max_queue_len, insert, synced_flag, find_node}
use pve_cluster.Dfsm.Machine.Queue.Delivery.{messages_of}

module _ {M : Type 0} where
  under_head :
      (o w : QueuedMessage M) (xs ys : List (QueuedMessage M))
      → (Memᴰ o xs → Memᴰ o ys)
      → Memᴰ o (w ∷ xs)
      → Memᴰ o (w ∷ ys)
  under_head o w xs ys f (Memᴰ.head e) = Memᴰ.head e
  under_head o w xs ys f (Memᴰ.tail t) = Memᴰ.tail (f t)

  insert-kept :
      (k : ℕ) (qm o : QueuedMessage M) (m : List (ℕ × QueuedMessage M))
      → get k m ≡ none
      → Memᴰ o (messages_of m)
      → Memᴰ o (messages_of (insert k qm m))
  unfolding insert get
  insert-kept k qm o [] free h = elim h [ ]
  insert-kept k qm o ((j, w) ∷ m) free h = elim (Bool-cases (ltb k j)) [
    | inl x ↦ rw (insert, x) (Memᴰ.tail h)
    | inr x ↦ elim (Bool-cases (k == j)) [
      | inl y ↦ absurd (ground (arith, y, free))
      | inr y ↦
          rw (insert, x, y)
            (under_head o w (messages_of m) (messages_of (insert k qm m))
              (insert-kept k qm o m (ground (arith, y, free))) h)
    ]
  ]

  insert-Mem :
      (k : ℕ) (qm : QueuedMessage M) (m : List (ℕ × QueuedMessage M))
      → Memᴰ qm (messages_of (insert k qm m))
  unfolding insert
  insert-Mem k qm [] = Memᴰ.head refl
  insert-Mem k qm ((j, w) ∷ m) = elim (Bool-cases (ltb k j)) [
    | inl x ↦ rw (insert, x) (Memᴰ.head refl)
    | inr x ↦ elim (Bool-cases (k == j)) [
      | inl y ↦ rw (insert, x, y) (Memᴰ.head refl)
      | inr y ↦ rw (insert, x, y) (Memᴰ.tail (insert-Mem k qm m))
    ]
  ]

  drop-free : (k : ℕ) (m : List (ℕ × QueuedMessage M)) → get k m ≡ none → get k (drop 1 m) ≡ none
  unfolding get
  drop-free k [] free = refl
  drop-free k ((j, w) ∷ m) free = ground (arith, free)

  -- The first message of a queue that is full.
  abbrev pub IsOldest : QueuedMessage M → List (QueuedMessage M) → Type 0
  IsOldest o [] = ⊥
  IsOldest o (q ∷ qs) = (o ≡ q) × (max_queue_len ≤ length (q ∷ qs))

  -- What a queue keeps when room is made in it.
  trim-kept :
      (o : QueuedMessage M) (b : Bool) (qs : List (QueuedMessage M))
      → leb max_queue_len (length qs) ≡ b
      → Memᴰ o qs
      → Memᴰ o (if b then drop 1 qs else qs) ⊎ IsOldest o qs
  trim-kept o false qs full h = inl h
  trim-kept o true [] full h = elim h [ ]
  trim-kept o true (q ∷ qs) full (Memᴰ.head e) = inr (e, ground (arith, full))
  trim-kept o true (q ∷ qs) full (Memᴰ.tail t) = inl t

  length-messages_of : (m : List (ℕ × QueuedMessage M)) → length (messages_of m) ≡ length m
  length-messages_of [] = refl
  length-messages_of (e ∷ m) = omega (arith, length-messages_of m)

  trimmed_messages :
      (b : Bool) (m : List (ℕ × QueuedMessage M))
      → messages_of (if b then drop 1 m else m)
        ≡ (if b then drop 1 (messages_of m) else messages_of m)
  trimmed_messages false m = refl
  trimmed_messages true [] = refl
  trimmed_messages true (e ∷ m) = refl

  trimmed-free :
      (k : ℕ) (b : Bool) (m : List (ℕ × QueuedMessage M))
      → get k m ≡ none
      → get k (if b then drop 1 m else m) ≡ none
  trimmed-free k false m free = free
  trimmed-free k true m free = drop-free k m free

  msg_queue-kept :
      (qm o : QueuedMessage M) (m : List (ℕ × QueuedMessage M))
      → get qm.msg_count m ≡ none
      → Memᴰ o (messages_of m)
      → Memᴰ o (
          messages_of
            (insert qm.msg_count qm (if leb max_queue_len (length m) then drop 1 m else m)))
        ⊎ IsOldest o (messages_of m)
  msg_queue-kept qm o m free h =
      let full = leb max_queue_len (length m) in
      elim (trim-kept o full (messages_of m) (ap (λ n. leb max_queue_len n) (length-messages_of m))
        h) [
          | inr old ↦ inr old
          | inl k ↦ inl (
              insert-kept qm.msg_count qm o _ (trimmed-free qm.msg_count full m free)
                (subst (λ ms. Memᴰ o ms) (sym (trimmed_messages full m)) k))
        ]

  sync_queue-kept :
      (qm o : QueuedMessage M) (qs : List (QueuedMessage M))
      → Memᴰ o qs
      → Memᴰ o ((if leb max_queue_len (length qs) then drop 1 qs else qs) ++ (qm ∷ []))
        ⊎ IsOldest o qs
  sync_queue-kept qm o qs h = elim (trim-kept o (leb max_queue_len (length qs)) qs refl h) [
    | inr old ↦ inr old
    | inl k ↦ inl (Memᴰ.append_left (qm ∷ []) k)
  ]

module _ {M W : Type 0} where
  -- The message is in one of the two queues.
  abbrev pub IsWaiting : QueuedMessage M → Dfsm M W → Type 0
  IsWaiting o s = Memᴰ o (messages_of s.msg_queue) ⊎ Memᴰ o s.sync_queue

  -- The message is the first one of a full queue.
  abbrev pub IsEvicted : QueuedMessage M → Dfsm M W → Type 0
  IsEvicted o s = IsOldest o (messages_of s.msg_queue) ⊎ IsOldest o s.sync_queue

  -- Where no message waits under the count of a new one, the new message waits in one of the queues
  -- once it is queued, and a message that waited before still does, unless it was the first one of a
  -- queue that is full.
  pub queue_message-IsWaiting :
      (qm o : QueuedMessage M) (s : Dfsm M W)
      → get qm.msg_count s.msg_queue ≡ none
      → IsWaiting o s
      → IsWaiting qm (queue_message qm s) × (IsWaiting o (queue_message qm s) ⊎ IsEvicted o s)
  unfolding queue_message
  queue_message-IsWaiting qm o s free h =
      let into_sync : Bool =
        is_mode s.mode Epoch.update && synced_flag (find_node qm.nodeid qm.pid s.sync_nodes) in
      elim (Bool-cases into_sync) [
        | inl y ↦ rw (queue_message, y) (inr (Memᴰ.append_right _ (Memᴰ.head refl)), in_sync h)
        | inr n ↦ rw (queue_message, n) (inl (insert-Mem qm.msg_count qm _), in_msg h)
      ]
    where
      in_sync :
          IsWaiting o s
          → (Memᴰ o (messages_of s.msg_queue)
              ⊎ Memᴰ o (
                  (if leb max_queue_len (length s.sync_queue)
                    then drop 1 s.sync_queue
                    else s.sync_queue)
                  ++ (qm ∷ [])))
            ⊎ IsEvicted o s
      in_sync (inl a) = inl (inl a)
      in_sync (inr b) = elim (sync_queue-kept qm o s.sync_queue b) [
        | inl k ↦ inl (inr k)
        | inr old ↦ inr (inr old)
      ]

      in_msg :
          IsWaiting o s
          → (Memᴰ o (
                messages_of (
                  insert qm.msg_count qm (
                    if leb max_queue_len (length s.msg_queue)
                    then drop 1 s.msg_queue
                    else s.msg_queue)))
              ⊎ Memᴰ o s.sync_queue)
            ⊎ IsEvicted o s
      in_msg (inl a) = elim (msg_queue-kept qm o s.msg_queue free a) [
        | inl k ↦ inl (inl k)
        | inr old ↦ inr (inl old)
      ]
      in_msg (inr b) = inl (inr b)
