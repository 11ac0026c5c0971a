-- ===== src/Dfsm/KvStore.antt =====
-- src/pmxcfs-rs/pmxcfs-dfsm/src/kv_store_message.rs: the messages of the status group.
pub mod Kind
pub mod RoundTrip
pub mod Panics
use pve_cluster.Prelude.{
  ℕ, zero, suc, none, some, [], ◌∷◌, true, false, Option, if◌then◌else◌, length, ◌==◌, ◌%◌, ◌^◌,
  ◌++◌, ◌+◌, ◌-◌, ltb, take, drop, replicate, min, not, ◌||◌,
}
use pve_cluster.Bytes.{Bytes, to_le}
use pve_cluster.Bytes.Slices.{slice, get_le}
use pve_cluster.Bytes.Utf8.{is_utf8}
use pve_cluster.Dfsm.Wire.{until_nul}
use pve_cluster.Dfsm.KvStore.Kind
use pve_cluster.Dfsm.KvStore.Kind.{KvStoreMessageType, type_number, try_from}
use pve_cluster.Dfsm.Message.{Received, received, refused, panicked, ◌>>=◌, Message}

pub record LogEntry : Type 0 where
  pub time : ℕ
  pub priority : ℕ
  pub node : Bytes
  pub ident : Bytes
  pub tag : Bytes
  pub message : Bytes

pub data KvStoreMessage : Type 0 where
  update : (key value : Bytes) → KvStoreMessage
  log : LogEntry → KvStoreMessage
  update_complete : KvStoreMessage

abbrev pub type_of : KvStoreMessage → KvStoreMessageType
type_of (update key value) = Kind.update
type_of (log e) = Kind.log
type_of update_complete = Kind.update_complete

-- The buffer of 256 zero bytes that holds at most 255 bytes of the key.
abbrev pub key_field : Bytes → Bytes
key_field key =
    let copy_len = min (length key) 255 in take copy_len key ++ replicate (256 - copy_len) 0

-- `(bytes.len() + 1) as u32`.
abbrev pub text_len : Bytes → ℕ
text_len s = (length s + 1) % 2 ^ 32

unfoldable pub serialize_log : LogEntry → Bytes
serialize_log e =
    to_le 4 e.time
    ++ (to_le 1 e.priority
        ++ (replicate 3 0
            ++ (to_le 4 (text_len e.node)
                ++ (to_le 4 (text_len e.ident)
                    ++ (to_le 4 (text_len e.tag)
                        ++ (to_le 4 (text_len e.message)
                            ++ ((e.node ++ (0 ∷ []))
                                ++ ((e.ident ++ (0 ∷ []))
                                    ++ ((e.tag ++ (0 ∷ [])) ++ (e.message ++ (0 ∷ [])))))))))))

unfoldable pub serialize : KvStoreMessage → Bytes
serialize (update key value) = key_field key ++ value
serialize (log e) = serialize_log e
serialize update_complete = []

abbrev pub read_key : Option Bytes → Received Bytes
read_key none = refused
read_key (some key) = if is_utf8 key then received key else refused

-- `&data[from..to]`, which panics when the bounds cross or reach past the end.
unfoldable pub range : Bytes → (from to : ℕ) → Received Bytes
range bs from to =
    if ltb to from || ltb (length bs) to then panicked else received (slice bs from (to - from))

-- `data[at]` and `u32::from_le_bytes([data[at], ..])`, which panic past the end.
unfoldable pub read_le : Bytes → (at width : ℕ) → Received ℕ
read_le bs at width =
    if ltb (length bs) (at + width) then panicked else received (get_le bs at width)

unfoldable pub deserialize_update : Bytes → Received KvStoreMessage
deserialize_update bs = if ltb (length bs) 256 then refused else (do
  field ← range bs 0 256
  key ← read_key (until_nul field)
  value ← range bs 256 (length bs)
  received (update key value))

abbrev pub text_of : Bytes → Received Bytes
text_of text = if is_utf8 text then received text else refused

-- `data[offset..offset + len - 1]` as text.
unfoldable pub log_text : Bytes → ℕ → ℕ → Received Bytes
log_text bs offset len = do text ← range bs offset (offset + len - 1); text_of text

-- The four texts behind the header of 24 bytes.
unfoldable pub log_texts :
    Bytes → (time priority node_len ident_len tag_len msg_len : ℕ) → Received KvStoreMessage
log_texts bs time priority node_len ident_len tag_len msg_len = do
  node ← log_text bs 24 node_len
  ident ← log_text bs (24 + node_len) ident_len
  tag ← log_text bs (24 + node_len + ident_len) tag_len
  message ← log_text bs (24 + node_len + ident_len + tag_len) msg_len
  received (
      log (record {
        time = time;
        priority = priority;
        node = node;
        ident = ident;
        tag = tag;
        message = message;
      }))

-- The length of the whole must be the sum of what the header says.
unfoldable pub log_body :
    Bytes → (time priority node_len ident_len tag_len msg_len : ℕ) → Received KvStoreMessage
log_body bs time priority node_len ident_len tag_len msg_len =
    if not (length bs == 24 + node_len + ident_len + tag_len + msg_len)
    then refused
    else log_texts bs time priority node_len ident_len tag_len msg_len

unfoldable pub log_header : Bytes → Received KvStoreMessage
log_header bs = do
  time ← read_le bs 0 4
  priority ← read_le bs 4 1
  node_len ← read_le bs 8 4
  ident_len ← read_le bs 12 4
  tag_len ← read_le bs 16 4
  msg_len ← read_le bs 20 4
  log_body bs time priority node_len ident_len tag_len msg_len

-- The guard asks for 20 bytes; the reads of the header reach up to 24.
unfoldable pub deserialize_log : Bytes → Received KvStoreMessage
deserialize_log bs = if ltb (length bs) 20 then refused else log_header bs

abbrev pub deserialize_as : KvStoreMessageType → Bytes → Received KvStoreMessage
deserialize_as Kind.update bs = deserialize_update bs
deserialize_as Kind.update_complete bs = received update_complete
deserialize_as Kind.log bs = deserialize_log bs

unfoldable pub deserialize : ℕ → Bytes → Received KvStoreMessage
deserialize msg_type bs = do t ← try_from msg_type; deserialize_as t bs

-- `impl Message for KvStoreMessage`.
abbrev pub kv_store_message : Message KvStoreMessage
kv_store_message = record {
  message_type = λ m. type_number (type_of m);
  serialize = serialize;
  deserialize = deserialize;
}
