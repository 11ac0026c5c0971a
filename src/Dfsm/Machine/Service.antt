-- ===== src/Dfsm/Machine/Service.antt =====
-- The group service and the synchronous senders of state_machine.rs. What the service answers is an
-- argument.
use pve_cluster.Prelude.{
  ℕ, none, some, ◌∷◌, true, false, Option, Bool, ◌+◌, ◌%◌, ◌^◌, if◌then◌else◌,
}
use pve_cluster.Dfsm.Protocol.{from_message}
use pve_cluster.Dfsm.Machine.{Dfsm, World, Outcome, finished, raised, send_dfsm_message}
use pve_cluster.Dfsm.Machine.Queue.{without}

module _ {M W : Type 0} where
  -- The node's number, if the service has one, and whether the group was joined.
  unfoldable pub init_cpg : Option ℕ → Bool → Dfsm M W → Outcome (Dfsm M W)
  init_cpg none joined s = raised s
  init_cpg (some nodeid) joined s =
      if joined
      then finished (record s { nodeid = nodeid; cpg_service = true })
      else raised (record s { nodeid = nodeid })

  unfoldable pub stop_services : Dfsm M W → Dfsm M W
  stop_services s = record s { cpg_service = false }

  -- `CleanupGuard`: the sender no longer waits.
  unfoldable pub give_up : ℕ → Dfsm M W → Dfsm M W
  give_up msg_count s = record s { waiting = without msg_count s.waiting }

module _ {M W : Type 0} (X : World M W) where
  abbrev pub clean_up : ℕ → Outcome (Dfsm M W) → Outcome (Dfsm M W)
  clean_up msg_count (finished s) = finished s
  clean_up msg_count (raised s) = raised (give_up msg_count s)

  -- `send_message_sync` up to the wait for its result.
  unfoldable pub send_message_sync : ℕ → M → Dfsm M W → Outcome (Dfsm M W)
  send_message_sync now m s =
      let msg_count = (s.msg_counter + 1) % 2 ^ 64 in
      clean_up msg_count (
        send_dfsm_message X now (from_message now msg_count m s.protocol_version)
          (record s { msg_counter = msg_count; waiting = msg_count ∷ s.waiting }))
