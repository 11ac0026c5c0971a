-- ===== src/Dfsm/Machine/Tests.antt =====
-- The theorems on the state machine at inputs that meet their hypotheses.
use pve_cluster.Prelude.{
  ◌⊎◌, inl, ℕ, none, some, [], ◌∷◌, true, false, List, ◌≡◌, ◌≢◌, ◌<◌, refl, ◌+◌, ◌++◌, ◌^◌, arith,
  replicate, if◌then◌else◌, ap, sym, append-nil, length,
}
use pve_cluster.Bytes.{to_le, bytes_eq}
use pve_cluster.Bytes.Slices.{get_le, get_le_at}
use pve_cluster.Map.{get, nat_eq}
use pve_cluster.Dfsm.Message.{Message, IsLawful, received}
use pve_cluster.Dfsm.Protocol
use pve_cluster.Dfsm.Protocol.{DfsmMessage, serialize}
use pve_cluster.Dfsm.Protocol.RoundTrip.{deserialize-serialize_dfsm}
use pve_cluster.Dfsm.Protocol.Epoch
use pve_cluster.Dfsm.Protocol.Epoch.{SyncEpoch}
use pve_cluster.Dfsm.Machine.{
  Dfsm, World, NodeSyncInfo, QueuedMessage, left_behind, pos, new_with_protocol_version, set_mode,
  is_leader,
}
use pve_cluster.Dfsm.Machine.Queue.{
  queue_message, deliver_message_queue, insert, find_node, kept, moved,
}
use pve_cluster.Dfsm.Machine.Queue
use pve_cluster.Dfsm.Machine.Queue.Order.{IsAscending}
use pve_cluster.Dfsm.Machine.Queue.Delivery.{
  deliver_message_queue-those, deliver_in_turn, those, messages_of,
}
use mathlib.Core.List.Memᴰ
use pve_cluster.Dfsm.Machine.Queue.Retention.{queue_message-IsWaiting, IsWaiting, IsEvicted}
use pve_cluster.Dfsm.Machine.Sync.{change_node}
use pve_cluster.Dfsm.Machine.Sync.Completion.{Sent, missing, process_states, process_states-decides}
use pve_cluster.Dfsm.Machine.Verify.{handle_verify_request, invalidate_checksum}
use pve_cluster.Dfsm.Machine.Verify.Agreement.{verify_agreement}
use pve_cluster.Dfsm.Machine.Handlers.{
  on_deliver, on_confchg, handle_membership_change, enter_epoch, lowest, lowest_from,
  handle_dfsm_message, dispatch, handle_normal_message,
}
use pve_cluster.Dfsm.Machine.Handlers.Epochs.{late_ignored}
use pve_cluster.Dfsm.Machine.Steps.{Reachable, here, next, delivered, changed, step}
use pve_cluster.Dfsm.Machine.Steps.Bounds.{IsFit, Reachable-IsFit}
use pve_cluster.Dfsm.Machine.Steps.Ownership.{others_wait}

-- Messages of one byte.
abbrev bytes_alone : Message ℕ
bytes_alone = record {
  message_type = λ m. 1;
  serialize = λ m. to_le 1 m;
  deserialize = λ t bs. received (get_le bs 0 1);
}

abbrev IsByteMessage : ℕ → Type 0
IsByteMessage m = m < 256 ^ 1

bytes_alone-IsLawful : IsLawful bytes_alone IsByteMessage
bytes_alone-IsLawful = record {
  type_fits = λ m h. omega arith;
  round_trip = λ m h. ap received (get_le_at (to_le 1 m) 0 1 m [] (sym (append-nil (to_le 1 m))) h);
}

-- An application that counts its messages and is always synced.
abbrev counting : World ℕ ℕ
counting = record {
  messages = bytes_alone;
  callbacks = record {
    deliver_message = λ w nodeid pid m time. (w + 1, some (pos 0, true));
    compute_checksum = λ w. some (replicate 32 w);
    get_state = λ w. some (w ∷ []);
    process_state_update = λ w nodes. (w, some true);
    process_update = λ w nodeid pid bs. (w, true);
    on_synced = λ w. w;
    cleanup_sync_resources = λ w nodes. w;
    on_membership_change = λ w members. w;
  };
  accepts = λ sent bs. true;
}

abbrev joined : Dfsm ℕ ℕ
joined = record (new_with_protocol_version 0 [] 100 10 1) { nodeid = 2; cpg_service = true }

-- The group of the nodes 1 and 2, in which node 2 waits with a message of node 1.
abbrev addresses : List (ℕ × ℕ)
addresses = (1, 11) ∷ (2, 10) ∷ []

abbrev other_node : NodeSyncInfo
other_node = record { node_id = 1; pid = 11; state = none; synced = false }

abbrev own_node : NodeSyncInfo
own_node = record { node_id = 2; pid = 10; state = none; synced = false }

abbrev grouped : Dfsm ℕ ℕ
grouped = record joined {
  mode = Epoch.start_sync;
  local_epoch_counter = 1;
  sync_epoch = record { epoch = 1; time = 101; nodeid = 2; pid = 10 };
  lowest_nodeid = 1;
  sync_nodes = other_node ∷ own_node ∷ [];
}

grouped_is : on_confchg counting 101 addresses joined ≡ grouped
unfolding on_confchg handle_membership_change enter_epoch invalidate_checksum set_mode lowest
    lowest_from is_leader
grouped_is = refl

abbrev first_message : QueuedMessage ℕ
first_message = record { nodeid = 1; pid = 11; msg_count = 5; message = 9; timestamp = 102 }

abbrev waiting : Dfsm ℕ ℕ
waiting = record grouped { msg_queue = (5, first_message) ∷ [] }

waiting_is : queue_message first_message grouped ≡ waiting
unfolding queue_message insert find_node
waiting_is = refl

changed_to : step counting (changed 101 addresses) joined ≡ some grouped
unfolding step
changed_to = ap some grouped_is

queued_to :
    step counting
      (delivered 102 1 11 (serialize bytes_alone 102 (Protocol.normal 5 102 1 9)))
      grouped
    ≡ some waiting
unfolding step on_deliver handle_dfsm_message dispatch handle_normal_message
queued_to =
    let m : DfsmMessage ℕ = Protocol.normal 5 102 1 9 in
    let r =
      deserialize-serialize_dfsm bytes_alone IsByteMessage bytes_alone-IsLawful 102 m
        ((omega arith, (omega arith, omega arith)), omega arith) in
    rw (step, on_deliver, r) (ap some waiting_is)

waiting-Reachable : Reachable counting joined waiting
waiting-Reachable =
    next (next here (changed 101 addresses) changed_to)
      (delivered 102 1 11 (serialize bytes_alone 102 (Protocol.normal 5 102 1 9))) queued_to

Reachable-IsFit_example : IsFit waiting.msg_queue
Reachable-IsFit_example = Reachable-IsFit counting waiting-Reachable (tt, omega arith)

member : find_node 1 11 waiting.sync_nodes ≡ some other_node
unfolding find_node
member = refl

two_members : length waiting.sync_nodes ≢ 1
two_members e = let l : length (other_node ∷ own_node ∷ []) ≡ 1 = e in absurd (omega (arith, l))

others_wait_example : get 5 (deliver_message_queue counting waiting).msg_queue ≡ some first_message
unfolding get
others_wait_example =
    others_wait counting waiting-Reachable refl refl two_members 5 first_message other_node refl
      member refl

-- A pass of the node once it is synced, with a message of its own and one of a node that is gone.
abbrev synced_node : NodeSyncInfo
synced_node = record { node_id = 2; pid = 10; state = none; synced = true }

abbrev own_message : QueuedMessage ℕ
own_message = record { nodeid = 2; pid = 10; msg_count = 6; message = 8; timestamp = 103 }

abbrev gone_message : QueuedMessage ℕ
gone_message = record { nodeid = 3; pid = 12; msg_count = 7; message = 8; timestamp = 103 }

abbrev passing : Dfsm ℕ ℕ
passing = record grouped {
  mode = Epoch.synced;
  sync_nodes = other_node ∷ synced_node ∷ [];
  msg_queue = (5, first_message) ∷ (6, own_message) ∷ (7, gone_message) ∷ [];
}

passing-IsAscending : IsAscending passing.msg_queue
passing-IsAscending = ((omega arith, (omega arith, tt)), ((omega arith, tt), (tt, tt)))

deliver_message_queue-those_example :
    deliver_message_queue counting passing
    ≡ record (deliver_in_turn counting
        (those passing.mode passing.sync_nodes Queue.delivered passing.msg_queue)
        passing) {
          msg_queue = those passing.mode passing.sync_nodes kept passing.msg_queue;
          sync_queue =
              passing.sync_queue
              ++ messages_of (those passing.mode passing.sync_nodes moved passing.msg_queue);
        }
deliver_message_queue-those_example =
    deliver_message_queue-those counting passing passing-IsAscending

abbrev second_message : QueuedMessage ℕ
second_message = record { nodeid = 3; pid = 12; msg_count = 6; message = 7; timestamp = 104 }

queue_message-IsWaiting_example :
    IsWaiting second_message (queue_message second_message waiting)
    × (IsWaiting first_message (queue_message second_message waiting)
        ⊎ IsEvicted first_message waiting)
unfolding get
queue_message-IsWaiting_example =
    queue_message-IsWaiting second_message first_message waiting refl (inl (Memᴰ.head refl))

-- The states of both members arrive, the other node's second.
abbrev states : List Sent
states =
    record { nodeid = 2; pid = 10; content = 1 ∷ [] }
    ∷ record { nodeid = 1; pid = 11; content = 2 ∷ [] }
    ∷ []

process_states-decides_example :
    (left_behind (process_states counting states grouped)).mode ≡ Epoch.synced
unfolding find_node change_node missing
process_states-decides_example =
    process_states-decides counting states grouped
      ((own_node, (refl, refl)), ((other_node, (refl, refl)), tt)) refl (omega arith)

-- The other node asks, and the two have different checksums.
abbrev current : SyncEpoch
current = record { epoch = 1; time = 101; nodeid = 2; pid = 10 }

current-IsEpoch : Epoch.IsEpoch current
current-IsEpoch = record {
  epoch = omega arith;
  time = omega arith;
  nodeid = omega arith;
  pid = omega arith;
}

abbrev peer : Dfsm ℕ ℕ
peer = record grouped { app = 4; nodeid = 1; pid = 11 }

verify_agreement_example :
    ((left_behind (handle_verify_request counting 105 current 1 peer)).sent
      ≡ [] ++ (serialize bytes_alone 105 (Protocol.verify current 1 (replicate 32 4)) ∷ []))
    × (on_deliver counting 106 1 11
          (serialize bytes_alone 105 (Protocol.verify current 1 (replicate 32 4)))
          (left_behind (handle_verify_request counting 105 current 1 grouped))
        ≡ some (
            if bytes_eq (replicate 32 0) (replicate 32 4)
            then left_behind (handle_verify_request counting 105 current 1 grouped)
            else set_mode Epoch.leave
                (left_behind (handle_verify_request counting 105 current 1 grouped))))
verify_agreement_example =
    verify_agreement counting IsByteMessage bytes_alone-IsLawful grouped peer current 105 1
      (replicate 32 0) (replicate 32 4) current-IsEpoch (omega arith) refl
      (record { epoch = refl; computed = refl; connected = refl; accepted = refl })
      (record { epoch = refl; computed = refl; connected = refl; accepted = refl }) 106 1 11

-- A state of the epoch before arrives late.
abbrev before : SyncEpoch
before = record { epoch = 0; time = 100; nodeid = 1; pid = 11 }

before-IsEpoch : Epoch.IsEpoch before
before-IsEpoch = record {
  epoch = omega arith;
  time = omega arith;
  nodeid = omega arith;
  pid = omega arith;
}

late_ignored_example :
    on_deliver counting 102 1 11
      (serialize bytes_alone 99 (Protocol.state before (5 ∷ [])))
      (on_confchg counting 101 addresses joined)
    ≡ some (on_confchg counting 101 addresses joined)
late_ignored_example =
    late_ignored counting IsByteMessage bytes_alone-IsLawful joined 101 addresses 102 99 1 11
      (Protocol.state before (5 ∷ [])) before before-IsEpoch refl (omega arith) (omega arith)
