-- ===== src/Dfsm/Fuse.antt =====
-- src/pmxcfs-rs/pmxcfs-dfsm/src/fuse_message.rs: the operations on files that a node broadcasts.
pub mod RoundTrip
use pve_cluster.Prelude.{
  ℕ, none, some, [], ◌∷◌, true, false, Option, if◌then◌else◌, length, ◌==◌, ◌%◌, ◌^◌,
}
use pve_cluster.Bytes.{Bytes}
use pve_cluster.Dfsm.Wire
use pve_cluster.Dfsm.Wire.{CMessageType, CFuseMessage, type_number, or_empty}
use pve_cluster.Dfsm.Message.{
  Received, received, refused, panicked, ◌>>=◌, of_parsed, of_option, Message,
}

pub data FuseMessage : Type 0 where
  create mkdir delete unlock_request unlock : (path : Bytes) → FuseMessage
  write : (path : Bytes) → (offset : ℕ) → (content : Bytes) → FuseMessage
  rename : (from to : Bytes) → FuseMessage
  mtime : (path : Bytes) → (mtime : ℕ) → FuseMessage

abbrev pub type_of : FuseMessage → CMessageType
type_of (create path) = Wire.create
type_of (mkdir path) = Wire.mkdir
type_of (write path offset content) = Wire.write
type_of (delete path) = Wire.delete
type_of (rename from to) = Wire.rename
type_of (mtime path time) = Wire.mtime
type_of (unlock_request path) = Wire.unlock_request
type_of (unlock path) = Wire.unlock

abbrev pub on_path : Bytes → CFuseMessage
on_path path = record { size = 0; offset = 0; flags = 0; path = path; to = none; content = [] }

unfoldable pub to_c_message : FuseMessage → CFuseMessage
to_c_message (create path) = on_path path
to_c_message (mkdir path) = on_path path
to_c_message (write path offset content) = record {
  size = length content % 2 ^ 32;
  offset = offset % 2 ^ 32;
  flags = 0;
  path = path;
  to = none;
  content = content;
}
to_c_message (delete path) = on_path path
to_c_message (rename from to) = record {
  size = 0;
  offset = 0;
  flags = 0;
  path = from;
  to = some to;
  content = [];
}
to_c_message (mtime path time) = record {
  size = 0;
  offset = time;
  flags = 0;
  path = path;
  to = none;
  content = [];
}
to_c_message (unlock_request path) = on_path path
to_c_message (unlock path) = on_path path

-- `CMessageType::try_from`.
unfoldable pub try_from : ℕ → Option CMessageType
try_from n =
    if n == 1
    then some Wire.write
    else (if n == 2
        then some Wire.mkdir
        else (if n == 3
            then some Wire.delete
            else (if n == 4
                then some Wire.rename
                else (if n == 5
                    then some Wire.create
                    else (if n == 6
                        then some Wire.mtime
                        else (if n == 7
                            then some Wire.unlock_request
                            else (if n == 8 then some Wire.unlock else none)))))))

unfoldable pub of_c_message : CMessageType → CFuseMessage → FuseMessage
of_c_message Wire.create m = create m.path
of_c_message Wire.mkdir m = mkdir m.path
of_c_message Wire.write m = write m.path m.offset m.content
of_c_message Wire.delete m = delete m.path
of_c_message Wire.rename m = rename m.path (or_empty m.to)
of_c_message Wire.mtime m = mtime m.path m.offset
of_c_message Wire.unlock_request m = unlock_request m.path
of_c_message Wire.unlock m = unlock m.path

unfoldable pub deserialize : ℕ → Bytes → Received FuseMessage
deserialize message_type bs = do
  c_msg ← of_parsed (Wire.parse bs)
  msg_type ← of_option (try_from message_type)
  received (of_c_message msg_type c_msg)

-- `impl Message for FuseMessage`.
abbrev pub fuse_message : Message FuseMessage
fuse_message = record {
  message_type = λ m. type_number (type_of m);
  serialize = λ m. Wire.serialize (to_c_message m);
  deserialize = deserialize;
}
