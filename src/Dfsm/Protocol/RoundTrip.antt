-- ===== src/Dfsm/Protocol/RoundTrip.antt =====
-- `DfsmMessage::serialize` and `deserialize` of dfsm_message.rs, one after the other.
use pve_cluster.Prelude.{
  ℕ, [], false, ◌≡◌, refl, ap, ◌∙◌, sym, length, ◌^◌, ◌++◌, ltb, drop, ◌%◌, ◌<◌, arith,
  length-append, length-drop, append-nil, le→ltb,
}
use pve_cluster.Bytes.{Bytes, to_le, length-to_le}
use pve_cluster.Bytes.Slices.{get_le, drop_le, drop_next, slice_at, get_le_at}
use pve_cluster.MemDb.Update.{serialize_for_update, deserialize_from_update}
use pve_cluster.MemDb.Update.RoundTrip
use pve_cluster.MemDb.Update.RoundTrip.{deserialize_from_update-serialize}
use pve_cluster.MemDb.Types.{TreeEntry}
use pve_cluster.Dfsm.Message.{Message, IsLawful, received}
use pve_cluster.Dfsm.Protocol.Epoch
use pve_cluster.Dfsm.Protocol.Epoch.{SyncEpoch, IsEpoch}
use pve_cluster.Dfsm.Protocol.Kind
use pve_cluster.Dfsm.Protocol.Kind.{
  DfsmMessageType, type_number, try_from, is_normal, type_number_fits, try_from-type_number,
}
use pve_cluster.Dfsm.Protocol.{
  DfsmMessage, normal, sync_start, state, update, update_complete, verify_request, verify, header,
  serialize_state_message, deserialize_state_message, serialize_normal_message, serialize,
  deserialize_normal_message, deserialize_typed, deserialize, default_protocol_version, TreeEntry,
}

-- The header of 16 bytes, read back.
record IsHeaded (bs : Bytes) (msg_type subtype protocol time : ℕ) (body : Bytes) : Type 0 where
  at_type : get_le bs 0 2 ≡ msg_type
  at_subtype : get_le bs 2 2 ≡ subtype
  at_protocol : get_le bs 4 4 ≡ protocol
  at_time : get_le bs 8 4 ≡ time
  at_body : drop 16 bs ≡ body
  long : ltb (length bs) 16 ≡ false

header-IsHeaded :
    (msg_type subtype protocol time : ℕ) (body : Bytes)
    → msg_type < 256 ^ 2
    → subtype < 256 ^ 2
    → protocol < 256 ^ 4
    → time < 256 ^ 4
    → IsHeaded (header msg_type subtype protocol time body) msg_type subtype protocol time body
header-IsHeaded msg_type subtype protocol time body h0 h2 h4 h8 =
    let bs = header msg_type subtype protocol time body in
    let d2 = drop_le bs 0 2 msg_type _ 2 refl refl in
    let d4 = drop_le bs 2 2 subtype _ 4 d2 refl in
    let d8 = drop_le bs 4 4 protocol _ 8 d4 refl in
    let d12 = drop_le bs 8 4 time _ 12 d8 refl in
    record {
      at_type = get_le_at bs 0 2 msg_type _ refl h0;
      at_subtype = get_le_at bs 2 2 subtype _ d2 h2;
      at_protocol = get_le_at bs 4 4 protocol _ d4 h4;
      at_time = get_le_at bs 8 4 time _ d8 h8;
      at_body = drop_le bs 12 4 0 body 16 d12 refl;
      long = le→ltb (length bs) 16 (
          omega (
            arith,
            length-drop 12 bs,
            ap length d12,
            length-append (to_le 4 0) body,
            length-to_le 4 0,
          ));
    }

-- What follows the header of 32 bytes of a state message.
state_read :
    {M : Type 0} (I : Message M) (now : ℕ) (t : DfsmMessageType) (e : SyncEpoch) (payload : Bytes)
    → is_normal t ≡ false
    → IsEpoch e
    → deserialize I (serialize_state_message now t e payload)
      ≡ deserialize_state_message t e payload
unfolding serialize_state_message deserialize deserialize_typed
state_read I now t e payload k s =
    let bs = serialize_state_message now t e payload in
    let h =
      header-IsHeaded (type_number t) 0 default_protocol_version (now % 2 ^ 32)
        (Epoch.serialize e ++ payload) (type_number_fits t) (omega arith) (omega arith)
        (omega arith) in
    let l = Epoch.length-serialize e in
    let epoch = slice_at bs 16 (Epoch.serialize e) payload {n = 16} h.at_body l in
    let rest = drop_next bs 16 (Epoch.serialize e) payload 32 h.at_body (omega (arith, l)) in
    let long : ltb (length bs) 32 ≡ false = le→ltb (length bs) 32 (
      omega (
        arith,
        length-drop 16 bs,
        ap length h.at_body,
        length-append (Epoch.serialize e) payload,
        l,
      )) in
    rw
      (
        deserialize,
        h.long,
        h.at_type,
        try_from-type_number t,
        deserialize_typed,
        k,
        long,
        epoch,
        Epoch.deserialize-serialize e s,
        rest,
      )
      refl

-- A message of the protocol that is read back: its numbers fit their fields, and its payload is one
-- that is read back.
abbrev pub IsSendable : {M : Type 0} → (M → Type 0) → DfsmMessage M → Type 0
IsSendable S (normal c t v m) = ((c < 256 ^ 8) × ((t < 256 ^ 4) × (v < 256 ^ 4))) × S m
IsSendable S (sync_start e) = IsEpoch e
IsSendable S (state e content) = IsEpoch e
IsSendable S (update e entry) = IsEpoch e × RoundTrip.IsSendable entry
IsSendable S (update_complete e) = IsEpoch e
IsSendable S (verify_request e id) = IsEpoch e × (id < 256 ^ 8)
IsSendable S (verify e id checksum) = IsEpoch e × ((id < 256 ^ 8) × (length checksum ≡ 32))

normal_read :
    {M : Type 0} (I : Message M) (S : M → Type 0)
    → IsLawful I S
    → (c t v : ℕ) (m : M) → IsSendable S (normal c t v m)
    → deserialize I (serialize_normal_message I c t v m) ≡ received (normal c t v m)
unfolding serialize_normal_message deserialize deserialize_typed deserialize_normal_message
normal_read I S law c t v m s =
    let body = to_le 8 c ++ I.serialize m in
    let h =
      header-IsHeaded (type_number Kind.normal) (I.message_type m) v t body
        (type_number_fits Kind.normal) (omega (arith, law.type_fits m s.1)) s.0.1.1 s.0.1.0 in
    let count = get_le_at body 0 8 c (I.serialize m) refl s.0.0 in
    let rest = drop_le body 0 8 c (I.serialize m) 8 refl refl in
    let long : ltb (length body) 8 ≡ false =
      le→ltb (length body) 8
        (omega (arith, length-append (to_le 8 c) (I.serialize m), length-to_le 8 c)) in
    rw
      (
        deserialize,
        h.long,
        h.at_type,
        try_from-type_number Kind.normal,
        h.at_subtype,
        h.at_protocol,
        h.at_time,
        h.at_body,
        long,
        count,
        rest,
        law.round_trip m s.1,
      )
      refl

update_read :
    {M : Type 0} (e : SyncEpoch) (entry : TreeEntry)
    → RoundTrip.IsSendable entry
    → deserialize_state_message {M = M} Kind.update e (serialize_for_update entry)
      ≡ received (update e entry)
unfolding deserialize_state_message
update_read e entry s =
    let r =
      ap deserialize_from_update (sym (append-nil (serialize_for_update entry)))
      ∙ deserialize_from_update-serialize entry [] s in
    rw r refl

verify_request_read :
    {M : Type 0} (e : SyncEpoch) (id : ℕ)
    → id < 256 ^ 8
    → deserialize_state_message {M = M} Kind.verify_request e (to_le 8 id)
      ≡ received (verify_request e id)
unfolding deserialize_state_message
verify_request_read e id h =
    let bs = to_le 8 id in
    let g = get_le_at bs 0 8 id [] (sym (append-nil bs)) h in
    let long : ltb (length bs) 8 ≡ false = ground (arith, length-to_le 8 id) in rw (long, g) refl

verify_read :
    {M : Type 0} (e : SyncEpoch) (id : ℕ) (checksum : Bytes)
    → id < 256 ^ 8
    → length checksum ≡ 32
    → deserialize_state_message {M = M} Kind.verify e (to_le 8 id ++ checksum)
      ≡ received (verify e id checksum)
unfolding deserialize_state_message
verify_read e id checksum h l =
    let bs = to_le 8 id ++ checksum in
    let g = get_le_at bs 0 8 id checksum refl h in
    let d8 = drop_le bs 0 8 id checksum 8 refl refl in
    let c = slice_at bs 8 checksum [] {n = 32} (d8 ∙ sym (append-nil checksum)) l in
    let long : ltb (length bs) 40 ≡ false =
      ground (arith, length-append (to_le 8 id) checksum, length-to_le 8 id, l) in
    rw (long, g, c) refl

-- Over messages of an application that are read back, a message of the protocol whose numbers fit their
-- fields is read back from its bytes, whatever the clock showed when they were written.
pub deserialize-serialize_dfsm :
    {M : Type 0} (I : Message M) (S : M → Type 0)
    → IsLawful I S
    → (now : ℕ) (m : DfsmMessage M) → IsSendable S m
    → deserialize I (serialize I now m) ≡ received m
unfolding serialize deserialize_state_message
deserialize-serialize_dfsm I S law now (normal c t v m) s = normal_read I S law c t v m s
deserialize-serialize_dfsm I S law now (sync_start e) s =
    state_read I now Kind.sync_start e [] refl s
deserialize-serialize_dfsm I S law now (state e content) s =
    state_read I now Kind.state e content refl s
deserialize-serialize_dfsm I S law now (update_complete e) s =
    state_read I now Kind.update_complete e [] refl s
deserialize-serialize_dfsm I S law now (update e entry) s =
    state_read I now Kind.update e (serialize_for_update entry) refl s.0 ∙ update_read e entry s.1
deserialize-serialize_dfsm I S law now (verify_request e id) s =
    state_read I now Kind.verify_request e (to_le 8 id) refl s.0 ∙ verify_request_read e id s.1
deserialize-serialize_dfsm I S law now (verify e id checksum) s =
    state_read I now Kind.verify e (to_le 8 id ++ checksum) refl s.0
    ∙ verify_read e id checksum s.1.0 s.1.1
