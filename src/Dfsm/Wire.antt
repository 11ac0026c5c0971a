-- ===== src/Dfsm/Wire.antt =====
-- src/pmxcfs-rs/pmxcfs-dfsm/src/wire_format.rs: the messages of FUSE operations, in the C format.
use pve_cluster.Prelude.{
  ℕ, none, some, [], ◌∷◌, true, false, Option, ◌*◌, if◌then◌else◌, ◌+◌, ◌++◌, length, ◌==◌, ltb,
  ◌%◌, leb, ◌^◌,
}
use pve_cluster.Bytes.{Bytes, to_le}
use pve_cluster.Bytes.Slices.{slice, get_le}
use pve_cluster.Bytes.Utf8.{is_utf8}
pub mod RoundTrip

-- `CMessageType` and its number.
pub data CMessageType : Type 0 where
  write mkdir delete rename create mtime unlock_request unlock : CMessageType

abbrev pub type_number : CMessageType → ℕ
type_number write = 1
type_number mkdir = 2
type_number delete = 3
type_number rename = 4
type_number create = 5
type_number mtime = 6
type_number unlock_request = 7
type_number unlock = 8

pub record CFuseMessage : Type 0 where
  pub size : ℕ
  pub offset : ℕ
  pub flags : ℕ
  pub path : Bytes
  pub to : Option Bytes
  pub content : Bytes

pub data FuseError : Type 0 where
  message_too_short size_overflow message_too_large : FuseError
  invalid_path_length invalid_to_length invalid_data_size : FuseError
  not_terminated not_utf8 : FuseError

pub data Parsed (A : Type 0) : Type 0 where
  failed : FuseError → Parsed A
  parsed : A → Parsed A

infixl 5 ◌>>=◌
abbrev pub ◌>>=◌ : {A B : Type 0} → Parsed A → (A → Parsed B) → Parsed B
failed e >>= next = failed e
parsed a >>= next = next a

abbrev pub max_message_size : ℕ
max_message_size = 16 * 1024 * 1024

-- `CStr::from_bytes_until_nul`.
unfoldable pub until_nul : Bytes → Option Bytes
until_nul [] = none
until_nul (c ∷ cs) = elim (c == 0) [
  | true ↦ some []
  | false ↦ elim (until_nul cs) [ none ↦ none | some s ↦ some (c ∷ s) ]
]

-- `data[offset..offset + n]`, within the message.
abbrev pub field : Bytes → ℕ → ℕ → FuseError → Parsed Bytes
field bs offset n e = if ltb (length bs) (offset + n) then failed e else parsed (slice bs offset n)

abbrev pub to_str : Option Bytes → Parsed Bytes
to_str none = failed not_terminated
to_str (some s) = if is_utf8 s then parsed s else failed not_utf8

unfoldable pub text_field : Bytes → ℕ → ℕ → FuseError → Parsed Bytes
text_field bs offset n e = do raw ← field bs offset n e; to_str (until_nul raw)

-- The three fields behind the header of 20 bytes.
unfoldable pub parse_fields : Bytes → (size offset pathlen tolen flags : ℕ) → Parsed CFuseMessage
unfolding text_field
parse_fields bs size offset pathlen tolen flags = do
  path ← if ltb 0 pathlen then text_field bs 20 pathlen invalid_path_length else parsed []
  to ←
      if ltb 0 tolen
      then (text_field bs (20 + pathlen) tolen invalid_to_length >>= λ s. parsed (some s))
      else parsed none
  content ← if ltb 0 size then field bs (20 + pathlen + tolen) size invalid_data_size else parsed []
  parsed (record {
    size = size;
    offset = offset;
    flags = flags;
    path = path;
    to = to;
    content = content;
  })

unfoldable pub parse : Bytes → Parsed CFuseMessage
unfolding parse_fields
parse bs =
    let size = get_le bs 0 4 in
    let pathlen = get_le bs 8 4 in
    let tolen = get_le bs 12 4 in
    let total_size = pathlen + tolen + size in
    if ltb (length bs) 20
    then failed message_too_short
    else (if leb (2 ^ 32) total_size
        then failed size_overflow
        else (if ltb max_message_size total_size
            then failed message_too_large
            else parse_fields bs size (get_le bs 4 4) pathlen tolen (get_le bs 16 4)))

-- A string with its terminator, or nothing if it is empty, and its length in the header.
abbrev pub terminated : Bytes → Bytes
terminated [] = []
terminated (c ∷ cs) = (c ∷ cs) ++ (0 ∷ [])

abbrev pub text_len : Bytes → ℕ
text_len [] = 0
text_len (c ∷ cs) = (length (c ∷ cs) + 1) % 2 ^ 32

-- `unwrap_or(&[])`.
abbrev pub or_empty : Option Bytes → Bytes
or_empty none = []
or_empty (some s) = s

unfoldable pub serialize : CFuseMessage → Bytes
serialize m =
    to_le 4 m.size
    ++ (to_le 4 m.offset
        ++ (to_le 4 (text_len m.path)
            ++ (to_le 4 (text_len (or_empty m.to))
                ++ (to_le 4 m.flags
                    ++ (terminated m.path
                        ++ (terminated (or_empty m.to)
                            ++ (if ltb 0 m.size then m.content else [])))))))
