-- ===== src/Dfsm/Machine/Sync/Completion.antt =====
-- The exchange of states of state_machine.rs comes to its end: once each member's state has arrived, in
-- any order, the node decides with all of them.
use pve_cluster.Prelude.{
  ℕ, suc, none, some, [], ◌∷◌, true, false, Option, Bool, List, ◌≡◌, ◌<◌, refl, ap, ◌∙◌, sym, inl,
  inr, Bool-cases, ◌==◌, arith, if◌then◌else◌, length, ==_ne, not, ◌&&◌,
}
use mathlib.Core.Option.{some-injective, none-ne-some}
use pve_cluster.Bytes.{Bytes}
use pve_cluster.Dfsm.Protocol.Epoch
use pve_cluster.Dfsm.Protocol.Epoch.{DfsmMode, is_mode}
use pve_cluster.Dfsm.Machine.{
  allow_transition, set_mode, Dfsm, World, NodeSyncInfo, Outcome, finished, raised, ◌>>=◌, not,
  left_behind,
}
use pve_cluster.Dfsm.Machine.Queue.Delivery.{deliver_message_queue-view}
use pve_cluster.Dfsm.Machine.Steps.Moves.{View}
use pve_cluster.Dfsm.Machine.Queue.{is_node, find_node}
use pve_cluster.Dfsm.Machine.Sync.{
  mark_synced, on_synced, sync_to, change_node, store_state, is_some, all_received, process_state,
  process_state_sync,
}

-- A state with the member that sent it.
pub record Sent : Type 0 where
  pub nodeid : ℕ
  pub pid : ℕ
  pub content : Bytes

abbrev pub with_state : Sent → List NodeSyncInfo → List NodeSyncInfo
with_state m ns = change_node m.nodeid m.pid (store_state m.content) ns

abbrev pub with_states : List Sent → List NodeSyncInfo → List NodeSyncInfo
with_states [] ns = ns
with_states (m ∷ ms) ns = with_states ms (with_state m ns)

-- Members whose state is not there yet.
unfoldable pub missing : List NodeSyncInfo → ℕ
missing [] = 0
missing (n ∷ ns) = if is_some n.state then missing ns else suc (missing ns)

-- A member that is found, with no state.
abbrev pub IsAwaited : Sent → List NodeSyncInfo → Type 0
IsAwaited m ns = (n : NodeSyncInfo) × ((find_node m.nodeid m.pid ns ≡ some n) × (n.state ≡ none))

-- Each of the senders is awaited when its turn comes.
abbrev pub AreAwaited : List Sent → List NodeSyncInfo → Type 0
AreAwaited [] ns = Unit {0}
AreAwaited (m ∷ ms) ns = IsAwaited m ns × AreAwaited ms (with_state m ns)

unfoldable pub process_states :
    {M W : Type 0} → World M W → List Sent → Dfsm M W → Outcome (Dfsm M W)
process_states X [] s = finished s
process_states X (m ∷ ms) s = process_state X m.nodeid m.pid m.content s >>= process_states X ms

find_node-head :
    (nodeid pid : ℕ) (n : NodeSyncInfo) (ns : List NodeSyncInfo) (b : Bool)
    → is_node nodeid pid n ≡ b
    → find_node nodeid pid (n ∷ ns) ≡ (if b then some n else find_node nodeid pid ns)
unfolding find_node
find_node-head nodeid pid n ns b h = rw (find_node, h) refl

missing-with_state :
    (m : Sent) (ns : List NodeSyncInfo)
    → IsAwaited m ns
    → missing ns ≡ suc (missing (with_state m ns))
unfolding missing change_node find_node
missing-with_state m [] (n, (f, e)) = absurd (none-ne-some n f)
missing-with_state m (k ∷ ns) (n, (f, e)) = elim (Bool-cases (is_node m.nodeid m.pid k)) [
  | inl h ↦
      let q : k ≡ n = some-injective k n (sym (find_node-head m.nodeid m.pid k ns true h) ∙ f) in
      let none_yet : k.state ≡ none = ap NodeSyncInfo.state q ∙ e in
      rw (change_node, h, none_yet) refl
  | inr h ↦
      let rest =
        missing-with_state m ns (n, (sym (find_node-head m.nodeid m.pid k ns false h) ∙ f, e)) in
      elim (Bool-cases (is_some k.state)) [
        | inl u ↦ rw (missing, change_node, h, u) rest
        | inr u ↦ rw (missing, change_node, h, u) (ap suc rest)
      ]
]

all_received-missing : (ns : List NodeSyncInfo) → all_received ns ≡ (missing ns == 0)
unfolding all_received missing
all_received-missing [] = refl
all_received-missing (n ∷ ns) = elim (Bool-cases (is_some n.state)) [
  | inl h ↦ rw (all_received, missing, h) (all_received-missing ns)
  | inr h ↦ rw (all_received, missing, h) (sym (==_ne (suc (missing ns)) 0 (λ e. omega (arith, e))))
]

-- The mode that the answer of the application leads to.
abbrev pub decided : Option Bool → DfsmMode
decided none = Epoch.error
decided (some true) = Epoch.synced
decided (some false) = Epoch.update

set_mode-decided_from :
    (r : Option Bool) (old : DfsmMode)
    → (if not (is_mode old (decided r)) && allow_transition old (decided r) then decided r else old)
      ≡ decided r
set_mode-decided_from none Epoch.start = refl
set_mode-decided_from none Epoch.start_sync = refl
set_mode-decided_from none Epoch.synced = refl
set_mode-decided_from none Epoch.update = refl
set_mode-decided_from none Epoch.leave = refl
set_mode-decided_from none Epoch.version_error = refl
set_mode-decided_from none Epoch.error = refl
set_mode-decided_from (some true) Epoch.start = refl
set_mode-decided_from (some true) Epoch.start_sync = refl
set_mode-decided_from (some true) Epoch.synced = refl
set_mode-decided_from (some true) Epoch.update = refl
set_mode-decided_from (some true) Epoch.leave = refl
set_mode-decided_from (some true) Epoch.version_error = refl
set_mode-decided_from (some true) Epoch.error = refl
set_mode-decided_from (some false) Epoch.start = refl
set_mode-decided_from (some false) Epoch.start_sync = refl
set_mode-decided_from (some false) Epoch.synced = refl
set_mode-decided_from (some false) Epoch.update = refl
set_mode-decided_from (some false) Epoch.leave = refl
set_mode-decided_from (some false) Epoch.version_error = refl
set_mode-decided_from (some false) Epoch.error = refl

set_mode-decided :
    {M W : Type 0} (r : Option Bool) (s : Dfsm M W) → (set_mode (decided r) s).mode ≡ decided r
unfolding set_mode
set_mode-decided r s =
    elim (Bool-cases (not (is_mode s.mode (decided r)) && allow_transition s.mode (decided r))) [
      | inl h ↦ rw (set_mode, h) refl
      | inr h ↦
          rw (set_mode, h)
            (ap (λ b. if b then decided r else s.mode) (sym h) ∙ set_mode-decided_from r s.mode)
    ]

module _ {M W : Type 0} (X : World M W) where
  -- An awaited state is stored, and the last of them ends the exchange.
  process_state-awaited :
      (m : Sent) (s : Dfsm M W)
      → IsAwaited m s.sync_nodes
      → process_state X m.nodeid m.pid m.content s ≡ (
          if missing (with_state m s.sync_nodes) == 0
          then process_state_sync X (record s { sync_nodes = with_state m s.sync_nodes })
          else finished (record s { sync_nodes = with_state m s.sync_nodes }))
  unfolding process_state
  process_state-awaited m s (n, (f, e)) =
      rw (process_state, f, e) (rw (all_received-missing (with_state m s.sync_nodes)) refl)

  -- When the states of all the members that are awaited arrive, one of each, the node processes the
  -- states of the whole group once, after the last of them.
  pub process_states_lem :
      (ms : List Sent) (s : Dfsm M W)
      → AreAwaited ms s.sync_nodes
      → missing s.sync_nodes ≡ length ms
      → 0 < length ms
      → process_states X ms s
        ≡ process_state_sync X (record s { sync_nodes = with_states ms s.sync_nodes })
  unfolding process_states
  process_states_lem [] s a l p = absurd (omega (arith, p))
  process_states_lem (m ∷ []) s a l p =
      let z : (missing (with_state m s.sync_nodes) == 0) ≡ true =
        ground (arith, missing-with_state m s.sync_nodes a.0, l) in
      rw (process_states, process_state-awaited m s a.0, z) (bind_finished _)
    where
      bind_finished : {S : Type 0} (o : Outcome S) → (o >>= finished) ≡ o
      bind_finished (finished t) = refl
      bind_finished (raised t) = refl
  process_states_lem (m ∷ k ∷ ms) s a l p =
      let one = missing-with_state m s.sync_nodes a.0 in
      let z : (missing (with_state m s.sync_nodes) == 0) ≡ false = ground (arith, one, l) in
      rw (process_states, process_state-awaited m s a.0, z)
        (process_states_lem (k ∷ ms) (record s { sync_nodes = with_state m s.sync_nodes }) a.1
          (omega (arith, one, l)) (omega arith))

  sync_to-decided :
      (r : Option Bool) (s : Dfsm M W) → (left_behind (sync_to X r s)).mode ≡ decided r
  unfolding sync_to
  sync_to-decided none s = set_mode-decided none s
  sync_to-decided (some true) s =
      let marked = record s { sync_nodes = change_node s.nodeid s.pid mark_synced s.sync_nodes } in
      ap View.mode (deliver_message_queue-view X (on_synced X (set_mode Epoch.synced marked)))
      ∙ set_mode-decided (some true) marked
  sync_to-decided (some false) s =
      ap View.mode (deliver_message_queue-view X (set_mode Epoch.update s))
      ∙ set_mode-decided (some false) s

  -- Once the states of all the members that are awaited have arrived, one of each, the node is in the mode
  -- that the application's answer to the states of the whole group decides: an error, synced, or waiting
  -- for the leader's updates.
  pub process_states-decides :
      (ms : List Sent) (s : Dfsm M W)
      → AreAwaited ms s.sync_nodes
      → missing s.sync_nodes ≡ length ms
      → 0 < length ms
      → (left_behind (process_states X ms s)).mode
        ≡ decided (X.callbacks.process_state_update s.app (with_states ms s.sync_nodes)).1
  unfolding process_state_sync
  process_states-decides ms s a l p =
      let r = X.callbacks.process_state_update s.app (with_states ms s.sync_nodes) in
      ap (λ o. Dfsm.mode (left_behind o)) (process_states_lem ms s a l p)
      ∙ sync_to-decided r.1 (record s { sync_nodes = with_states ms s.sync_nodes; app = r.0 })
