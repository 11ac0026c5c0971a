-- ===== src/Dfsm/Machine/Steps/Ownership.antt =====
-- Which members state_machine.rs marks as synced, and what that means for the messages of the others.
use pve_cluster.Prelude.{
  ℕ, suc, [], ◌∷◌, true, List, ◌≡◌, ◌⊎◌, refl, ap, subst, sym, inl, inr, Bool-cases, ◌&&◌, arith,
  length, map, All, ◌∙◌, some, false, ◌==◌, ◌≢◌, ◌≢◌, ◌==◌,
}
use mathlib.Core.Option.{some-injective, none-ne-some}
use pve_cluster.Map.{get, nat_eq}
use pve_cluster.Dfsm.Protocol.Epoch
use pve_cluster.Dfsm.Protocol.Epoch.{is_mode, DfsmMode}
use pve_cluster.Dfsm.Machine.{Dfsm, World, QueuedMessage, NodeSyncInfo, MemberInfo}
use pve_cluster.Dfsm.Machine.Queue.{
  is_node, find_node, queue_message, synced_flag, fate, kept, deliver_message_queue,
}
use pve_cluster.Dfsm.Machine.Queue.Delivery.{
  deliver_message_queue-view, those, fate_of, fate_number, deliver_message_queue-those,
}
use pve_cluster.Dfsm.Machine.Sync.{change_node, mark_synced, store_state}
use pve_cluster.Dfsm.Machine.Handlers.{enter_epoch, fresh_node, mark_first}
use pve_cluster.Dfsm.Machine.Verify.{invalidate_checksum}
use pve_cluster.Dfsm.Machine.Steps.{Reachable}
use pve_cluster.Dfsm.Machine.Steps.Moves.{
  View, view, Move, aside, entered_mode, queued, passed, drained, stored, marked, renewed, alone,
  set_mode-cases,
}
use pve_cluster.Dfsm.Machine.Steps.Bounds.{
  IsFit, Reachable-IsFit, Reachable-keeps, deliver_sync_queue-view,
}

-- A member that is marked is the node itself.
abbrev pub IsOwnMark : (nodeid pid : ℕ) → NodeSyncInfo → Type 0
IsOwnMark nodeid pid n = n.synced ≡ true → (n.node_id ≡ nodeid) × (n.pid ≡ pid)

-- The group has one member, or no other member is marked.
abbrev pub IsOwn : {M : Type 0} → View M → Type 0
IsOwn v = (length v.sync_nodes ≡ 1) ⊎ All (IsOwnMark v.nodeid v.pid) v.sync_nodes

length-change_node :
    (nodeid pid : ℕ) (f : NodeSyncInfo → NodeSyncInfo) (ns : List NodeSyncInfo)
    → length (change_node nodeid pid f ns) ≡ length ns
unfolding change_node
length-change_node nodeid pid f [] = refl
length-change_node nodeid pid f (n ∷ ns) = elim (Bool-cases (is_node nodeid pid n)) [
  | inl h ↦ rw (change_node, h) refl
  | inr h ↦ rw (change_node, h) (ap suc (length-change_node nodeid pid f ns))
]

All-change_node :
    (P : NodeSyncInfo → Type 0) (nodeid pid : ℕ) (f : NodeSyncInfo → NodeSyncInfo)
    (ns : List NodeSyncInfo)
    → ((n : NodeSyncInfo) → is_node nodeid pid n ≡ true → P n → P (f n))
    → All P ns
    → All P (change_node nodeid pid f ns)
unfolding change_node
All-change_node P nodeid pid f [] k a = tt
All-change_node P nodeid pid f (n ∷ ns) k a = elim (Bool-cases (is_node nodeid pid n)) [
  | inl h ↦ rw (change_node, h) (k n h a.0, a.1)
  | inr h ↦ rw (change_node, h) (a.0, All-change_node P nodeid pid f ns k a.1)
]

is_node-fields :
    (nodeid pid : ℕ) (n : NodeSyncInfo)
    → is_node nodeid pid n ≡ true
    → (n.node_id ≡ nodeid) × (n.pid ≡ pid)
is_node-fields nodeid pid n h = (ground (arith, h), ground (arith, h))

fresh-IsOwnMark :
    (nodeid pid : ℕ) (members : List MemberInfo)
    → All (IsOwnMark nodeid pid) (map fresh_node members)
fresh-IsOwnMark nodeid pid [] = tt
fresh-IsOwnMark nodeid pid (m ∷ ms) = ((λ h. cc), fresh-IsOwnMark nodeid pid ms)

-- A change of the nodes that keeps their number.
changed-IsOwn :
    {M : Type 0} (v w : View M)
    → length w.sync_nodes ≡ length v.sync_nodes
    → (All (IsOwnMark v.nodeid v.pid) v.sync_nodes → All (IsOwnMark w.nodeid w.pid) w.sync_nodes)
    → IsOwn v
    → IsOwn w
changed-IsOwn v w l k (inl h) = inl (l ∙ h)
changed-IsOwn v w l k (inr h) = inr (k h)

module _ {M W : Type 0} (X : World M W) where
  queue_message-IsOwn :
      (qm : QueuedMessage M) (s : Dfsm M W) → IsOwn (view s) → IsOwn (view (queue_message qm s))
  unfolding queue_message
  queue_message-IsOwn qm s h =
      elim (Bool-cases
        (is_mode s.mode Epoch.update && synced_flag (find_node qm.nodeid qm.pid s.sync_nodes))) [
          | inl k ↦ rw (queue_message, k) h
          | inr k ↦ rw (queue_message, k) h
        ]

  Move-IsOwn : (s t : Dfsm M W) → Move X s t → IsOwn (view s) → IsOwn (view t)
  unfolding enter_epoch invalidate_checksum
  Move-IsOwn _ _ (aside s t e) h = subst IsOwn (sym e) h
  Move-IsOwn _ _ (entered_mode m s) h = elim (set_mode-cases m s) [
    | inl e ↦ subst (λ u. IsOwn (view u)) (sym e) h
    | inr e ↦ subst (λ u. IsOwn (view u)) (sym e) h
  ]
  Move-IsOwn _ _ (queued qm s k) h = queue_message-IsOwn qm s h
  Move-IsOwn _ _ (passed s) h = subst IsOwn (sym (deliver_message_queue-view X s)) h
  Move-IsOwn _ _ (drained s) h = subst IsOwn (sym (deliver_sync_queue-view X s)) h
  Move-IsOwn _ _ (stored nodeid pid content s) h =
      changed-IsOwn (view s)
        (record (view s) { sync_nodes = change_node nodeid pid (store_state content) s.sync_nodes })
        (length-change_node nodeid pid (store_state content) s.sync_nodes)
        (All-change_node (IsOwnMark s.nodeid s.pid) nodeid pid (store_state content) s.sync_nodes
          (λ n e p. p))
        h
  Move-IsOwn _ _ (marked s) h =
      changed-IsOwn (view s)
        (record (view s) { sync_nodes = change_node s.nodeid s.pid mark_synced s.sync_nodes })
        (length-change_node s.nodeid s.pid mark_synced s.sync_nodes)
        (All-change_node (IsOwnMark s.nodeid s.pid) s.nodeid s.pid mark_synced s.sync_nodes
          (λ n e p q. is_node-fields s.nodeid s.pid n e))
        h
  Move-IsOwn _ _ (renewed now members s) h = inr (fresh-IsOwnMark s.nodeid s.pid members)
  Move-IsOwn _ _ (alone member s e) h = inl (ap (λ ns. length (mark_first ns)) e)

  -- In every state that events lead to from one without members, the group has one member or no member
  -- but the node itself is marked as synced.
  pub Reachable-IsOwn : {s t : Dfsm M W} → Reachable X s t → s.sync_nodes ≡ [] → IsOwn (view t)
  Reachable-IsOwn {s} r e =
      Reachable-keeps X (λ u. IsOwn (view u)) Move-IsOwn r
        (inr (subst (All (IsOwnMark s.nodeid s.pid)) (sym e) tt))

-- The member that is found stands in the list.
All-find_node :
    (P : NodeSyncInfo → Type 0) (nodeid pid : ℕ) (ns : List NodeSyncInfo) (n : NodeSyncInfo)
    → All P ns
    → find_node nodeid pid ns ≡ some n
    → P n × (is_node nodeid pid n ≡ true)
unfolding find_node
All-find_node P nodeid pid [] n a e = absurd (none-ne-some n e)
All-find_node P nodeid pid (m ∷ ns) n a e = elim (Bool-cases (is_node nodeid pid m)) [
  | inl h ↦
      let q : m ≡ n = some-injective m n (sym (at_head h) ∙ e) in
      (subst P q a.0, subst (λ k. is_node nodeid pid k ≡ true) q h)
  | inr h ↦ All-find_node P nodeid pid ns n a.1 (sym (at_tail h) ∙ e)
]
  where
    at_head : is_node nodeid pid m ≡ true → find_node nodeid pid (m ∷ ns) ≡ some m
    at_head h = rw (find_node, h) refl

    at_tail : is_node nodeid pid m ≡ false → find_node nodeid pid (m ∷ ns) ≡ find_node nodeid pid ns
    at_tail h = rw (find_node, h) refl

fate-unmarked : (mode : DfsmMode) (n : NodeSyncInfo) → n.synced ≡ false → fate mode (some n) ≡ kept
unfolding fate
fate-unmarked mode n h = ground (arith, h)

-- What is kept is still found.
get-those :
    {M : Type 0} (mode : DfsmMode) (nodes : List NodeSyncInfo) (k : ℕ) (qm : QueuedMessage M)
    (q : List (ℕ × QueuedMessage M))
    → fate_of mode nodes qm ≡ kept
    → get k q ≡ some qm
    → get k (those mode nodes kept q) ≡ some qm
unfolding those get
get-those mode nodes k qm [] f e = e
get-those mode nodes k qm ((j, w) ∷ q) f e = elim (Bool-cases (j == k)) [
  | inl h ↦
      let o : some w ≡ some qm = sym (at_key h) ∙ e in
      let p : fate_of mode nodes w ≡ kept = ap (fate_of mode nodes) (some-injective w qm o) ∙ f in
      rw (those, p, get, h) o
  | inr h ↦ beside h (get-those mode nodes k qm q f (sym (beside_key h) ∙ e))
]
  where
    at_key : (j == k) ≡ true → get k ((j, w) ∷ q) ≡ some w
    at_key h = rw (get, h) refl

    beside_key : (j == k) ≡ false → get k ((j, w) ∷ q) ≡ get k q
    beside_key h = rw (get, h) refl

    beside :
        (j == k) ≡ false
        → get k (those mode nodes kept q) ≡ some qm
        → get k (those mode nodes kept ((j, w) ∷ q)) ≡ some qm
    beside h e' = elim (Bool-cases (fate_number (fate_of mode nodes w) == 3)) [
      | inl u ↦ rw (those, u, get, h) e'
      | inr u ↦ rw (those, u) e'
    ]

-- In every state that events lead to from one without members and with an empty queue, a pass over the
-- queue leaves in it each message of another member of a group that has not one member.
pub others_wait :
    {M W : Type 0} (X : World M W) {s t : Dfsm M W}
    → Reachable X s t
    → s.sync_nodes ≡ []
    → s.msg_queue ≡ []
    → length t.sync_nodes ≢ 1
    → (count : ℕ) (qm : QueuedMessage M) (n : NodeSyncInfo) → get count t.msg_queue ≡ some qm
    → find_node qm.nodeid qm.pid t.sync_nodes ≡ some n
    → is_node t.nodeid t.pid n ≡ false
    → get count (deliver_message_queue X t).msg_queue ≡ some qm
others_wait X {s} {t} r e q l count qm n g m other =
    let own = Reachable-IsOwn X r e in
    let fit = Reachable-IsFit X r (subst IsFit (sym q) (tt, omega arith)) in
    let f = unmarked (Reachable-IsOwn X r e) in
    let d = ap (λ u. get count u.msg_queue) (deliver_message_queue-those X t fit.0) in
    d ∙ get-those t.mode t.sync_nodes count qm t.msg_queue f g
  where
    unmarked : IsOwn (view t) → fate_of t.mode t.sync_nodes qm ≡ kept
    unmarked (inl o) = absurd (l o)
    unmarked (inr a) =
        let p = All-find_node (IsOwnMark t.nodeid t.pid) qm.nodeid qm.pid t.sync_nodes n a m in
        let u : n.synced ≡ false = elim (Bool-cases n.synced) [
          | inl h ↦ absurd (ground (arith, p.0 h, other))
          | inr h ↦ h
        ] in
        ap (fate t.mode) m ∙ fate-unmarked t.mode n u
