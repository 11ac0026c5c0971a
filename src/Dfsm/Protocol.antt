-- ===== src/Dfsm/Protocol.antt =====
-- src/pmxcfs-rs/pmxcfs-dfsm/src/dfsm_message.rs: the messages of the protocol. The clock that
-- `serialize` and `from_message` read is an argument.
pub mod Epoch
pub mod Kind
pub mod RoundTrip
use pve_cluster.Prelude.{
  ℕ, none, some, [], ◌∷◌, true, false, Option, if◌then◌else◌, length, ◌==◌, ◌^◌, ◌++◌, ltb, drop,
  ◌%◌,
}
use pve_cluster.Bytes.{Bytes, to_le}
use pve_cluster.Bytes.Slices.{slice, get_le}
use pve_cluster.MemDb.Types.{TreeEntry}
use pve_cluster.MemDb.Index.{Decoded, ok, err}
use pve_cluster.MemDb.Update.{serialize_for_update, deserialize_from_update}
use pve_cluster.Dfsm.Message.{Message, Received, received, refused, panicked, ◌>>=◌, of_option}
use pve_cluster.Dfsm.Protocol.Epoch
use pve_cluster.Dfsm.Protocol.Epoch.{SyncEpoch}
use pve_cluster.Dfsm.Protocol.Kind
use pve_cluster.Dfsm.Protocol.Kind.{DfsmMessageType, type_number, try_from, is_normal}

pub data DfsmMessage (M : Type 0) : Type 0 where
  normal : (msg_count timestamp protocol_version : ℕ) → (message : M) → DfsmMessage M
  sync_start : (sync_epoch : SyncEpoch) → DfsmMessage M
  state : (sync_epoch : SyncEpoch) → (content : Bytes) → DfsmMessage M
  update : (sync_epoch : SyncEpoch) → (tree_entry : TreeEntry) → DfsmMessage M
  update_complete : (sync_epoch : SyncEpoch) → DfsmMessage M
  verify_request : (sync_epoch : SyncEpoch) → (csum_id : ℕ) → DfsmMessage M
  verify : (sync_epoch : SyncEpoch) → (csum_id : ℕ) → (checksum : Bytes) → DfsmMessage M

abbrev pub default_protocol_version : ℕ
default_protocol_version = 1

abbrev pub header : (msg_type subtype protocol time : ℕ) → Bytes → Bytes
header msg_type subtype protocol time body =
    to_le 2 msg_type
    ++ (to_le 2 subtype ++ (to_le 4 protocol ++ (to_le 4 time ++ (to_le 4 0 ++ body))))

unfoldable pub serialize_state_message : ℕ → DfsmMessageType → SyncEpoch → Bytes → Bytes
serialize_state_message now msg_type sync_epoch payload =
    header (type_number msg_type) 0 default_protocol_version (now % 2 ^ 32)
      (Epoch.serialize sync_epoch ++ payload)

abbrev of_decoded : {A : Type 0} → Decoded A → Received A
of_decoded (ok a) = received a
of_decoded (err e) = refused

-- A checksum has 32 bytes.
unfoldable pub deserialize_state_message :
    {M : Type 0} → DfsmMessageType → SyncEpoch → Bytes → Received (DfsmMessage M)
deserialize_state_message Kind.normal e payload = panicked
deserialize_state_message Kind.update e payload =
    of_decoded (deserialize_from_update payload) >>= λ entry. received (update e entry)
deserialize_state_message Kind.sync_start e payload = received (sync_start e)
deserialize_state_message Kind.state e payload = received (state e payload)
deserialize_state_message Kind.update_complete e payload = received (update_complete e)
deserialize_state_message Kind.verify_request e payload =
    if ltb (length payload) 8 then refused else received (verify_request e (get_le payload 0 8))
deserialize_state_message Kind.verify e payload =
    if ltb (length payload) 40
    then refused
    else received (verify e (get_le payload 0 8) (slice payload 8 32))

module _ {M : Type 0} (I : Message M) where
  unfoldable pub serialize_normal_message : (msg_count timestamp protocol_version : ℕ) → M → Bytes
  serialize_normal_message msg_count timestamp protocol_version m =
      header (type_number Kind.normal) (I.message_type m) protocol_version timestamp
        (to_le 8 msg_count ++ I.serialize m)

  -- With the epoch and the payload of `extract_epoch_and_payload`.
  unfoldable pub serialize : ℕ → DfsmMessage M → Bytes
  serialize now (normal c t v m) = serialize_normal_message c t v m
  serialize now (sync_start e) = serialize_state_message now Kind.sync_start e []
  serialize now (state e content) = serialize_state_message now Kind.state e content
  serialize now (update e entry) =
      serialize_state_message now Kind.update e (serialize_for_update entry)
  serialize now (update_complete e) = serialize_state_message now Kind.update_complete e []
  serialize now (verify_request e id) =
      serialize_state_message now Kind.verify_request e (to_le 8 id)
  serialize now (verify e id checksum) =
      serialize_state_message now Kind.verify e (to_le 8 id ++ checksum)

  unfoldable pub deserialize_normal_message :
      (subtype protocol_version timestamp : ℕ) → Bytes → Received (DfsmMessage M)
  deserialize_normal_message subtype protocol_version timestamp payload =
      if ltb (length payload) 8
      then refused
      else (I.deserialize subtype (drop 8 payload) >>= λ m.
          received (normal (get_le payload 0 8) timestamp protocol_version m))

  unfoldable pub deserialize_typed : DfsmMessageType → Bytes → Received (DfsmMessage M)
  deserialize_typed dfsm_type bs =
      if is_normal dfsm_type
      then deserialize_normal_message (get_le bs 2 2) (get_le bs 4 4) (get_le bs 8 4) (drop 16 bs)
      else (if ltb (length bs) 32
          then refused
          else (of_option (Epoch.deserialize (slice bs 16 16)) >>= λ sync_epoch.
              deserialize_state_message dfsm_type sync_epoch (drop 32 bs)))

  unfoldable pub deserialize : Bytes → Received (DfsmMessage M)
  deserialize bs =
      if ltb (length bs) 16
      then refused
      else (of_option (try_from (get_le bs 0 2)) >>= λ dfsm_type. deserialize_typed dfsm_type bs)

abbrev pub from_message :
    {M : Type 0} → (now msg_count : ℕ) → M → (protocol_version : ℕ) → DfsmMessage M
from_message now msg_count m protocol_version = normal msg_count (now % 2 ^ 32) protocol_version m

abbrev pub from_tree_entry : {M : Type 0} → TreeEntry → SyncEpoch → DfsmMessage M
from_tree_entry entry sync_epoch = update sync_epoch entry
