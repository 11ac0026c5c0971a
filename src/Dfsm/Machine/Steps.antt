-- ===== src/Dfsm/Machine/Steps.antt =====
-- What can happen to a node of state_machine.rs once it has joined its group, and the changes that each
-- of these is made of.
pub mod Moves
pub mod Refinement
pub mod Bounds
pub mod Ownership
use pve_cluster.Prelude.{ℕ, none, some, [], ◌∷◌, true, false, Option, List, ◌≡◌}
use pve_cluster.Bytes.{Bytes}
use pve_cluster.MemDb.Types.{TreeEntry}
use pve_cluster.Dfsm.Machine.{
  Dfsm, World, left_behind, send_message, broadcast, send_update, send_update_complete,
}
use pve_cluster.Dfsm.Machine.Verify.{verify_request}
use pve_cluster.Dfsm.Machine.Handlers.{on_deliver, on_confchg}
use pve_cluster.Dfsm.Machine.Service.{send_message_sync, give_up, stop_services}

-- The calls of the group service, of the application and of the timers, each with the clock.
pub data Event (M : Type 0) : Type 0 where
  delivered : (now nodeid pid : ℕ) → Bytes → Event M
  changed : (now : ℕ) → List (ℕ × ℕ) → Event M
  sent broadcasted sent_sync : (now : ℕ) → M → Event M
  gave_up : (msg_count : ℕ) → Event M
  sent_update : (now : ℕ) → TreeEntry → Event M
  sent_update_complete asked_to_verify : (now : ℕ) → Event M
  stopped : Event M

-- `none`: the call panicked.
unfoldable pub step : {M W : Type 0} → World M W → Event M → Dfsm M W → Option (Dfsm M W)
step X (delivered now nodeid pid bs) s = on_deliver X now nodeid pid bs s
step X (changed now addresses) s = some (on_confchg X now addresses s)
step X (sent now m) s = some (left_behind (send_message X now m s))
step X (broadcasted now m) s = some (left_behind (broadcast X now m s))
step X (sent_sync now m) s = some (left_behind (send_message_sync X now m s))
step X (gave_up msg_count) s = some (give_up msg_count s)
step X (sent_update now entry) s = some (left_behind (send_update X now entry s))
step X (sent_update_complete now) s = some (left_behind (send_update_complete X now s))
step X (asked_to_verify now) s = some (left_behind (verify_request X now s))
step X stopped s = some (stop_services s)

-- The states that events lead to from a first one.
pub data Reachable {M W : Type 0} (X : World M W) (first : Dfsm M W) : Dfsm M W → Type 0 where
  here : Reachable X first first
  next :
      {s t : Dfsm M W}
      → Reachable X first s
      → (e : Event M) → step X e s ≡ some t
      → Reachable X first t
