-- ===== src/Dfsm/Fuse/RoundTrip.antt =====
-- `FuseMessage::serialize` and `deserialize` of fuse_message.rs, one after the other.
use pve_cluster.Prelude.{
  ℕ, some, [], ◌∷◌, ◌≡◌, refl, length, append-nil, ◌<◌, arith, ◌^◌, ◌+◌, ◌≤◌, ap, ◌∙◌, sym,
}
use pve_cluster.Bytes.{Bytes}
use pve_cluster.Dfsm.Wire
use pve_cluster.Dfsm.Wire.{
  CMessageType, CFuseMessage, parsed, type_number, terminated, or_empty, max_message_size,
}
use pve_cluster.Dfsm.Wire.RoundTrip.{IsText, parse-serialize}
use pve_cluster.Dfsm.Message.{received, IsLawful}
use pve_cluster.Dfsm.Fuse.{
  FuseMessage, create, mkdir, write, delete, rename, mtime, unlock_request, unlock, type_of,
  on_path, to_c_message, try_from, of_c_message, deserialize, fuse_message,
}

-- A text that leaves room for `n` bytes more.
abbrev pub IsPath : Bytes → ℕ → Type 0
IsPath path n = IsText path × (length (terminated path) + n ≤ max_message_size)

-- What a broadcast operation must satisfy to be read back.
abbrev pub IsSendable : FuseMessage → Type 0
IsSendable (create path) = IsPath path 0
IsSendable (mkdir path) = IsPath path 0
IsSendable (write path offset content) = IsPath path (length content) × (offset < 2 ^ 32)
IsSendable (delete path) = IsPath path 0
IsSendable (rename from to) = IsPath from (length (terminated to)) × IsText to
IsSendable (mtime path time) = IsPath path 0 × (time < 2 ^ 32)
IsSendable (unlock_request path) = IsPath path 0
IsSendable (unlock path) = IsPath path 0

try_from-type_number : (t : CMessageType) → try_from (type_number t) ≡ some t
unfolding try_from
try_from-type_number Wire.write = refl
try_from-type_number Wire.mkdir = refl
try_from-type_number Wire.delete = refl
try_from-type_number Wire.rename = refl
try_from-type_number Wire.create = refl
try_from-type_number Wire.mtime = refl
try_from-type_number Wire.unlock_request = refl
try_from-type_number Wire.unlock = refl

-- `parse` without anything behind the message.
parse_alone :
    (c : CFuseMessage) → Wire.RoundTrip.IsSendable c → Wire.parse (Wire.serialize c) ≡ parsed c
parse_alone c s = ap Wire.parse (sym (append-nil (Wire.serialize c))) ∙ parse-serialize c [] s

-- Reading back once the C message is parsed.
read_back :
    (m : FuseMessage) (c : CFuseMessage)
    → Wire.parse (Wire.serialize (to_c_message m)) ≡ parsed c
    → of_c_message (type_of m) c ≡ m
    → deserialize (type_number (type_of m)) (Wire.serialize (to_c_message m)) ≡ received m
unfolding deserialize
read_back m c p e = rw (p, try_from-type_number (type_of m), e) refl

on_path-IsSendable : (path : Bytes) → IsPath path 0 → Wire.RoundTrip.IsSendable (on_path path)
on_path-IsSendable path s = record {
  size = refl;
  offset = omega arith;
  flags = omega arith;
  path = s.0;
  to = tt;
  fits = omega (arith, s.1);
}

write-IsSendable :
    (path : Bytes) (offset : ℕ) (content : Bytes)
    → IsSendable (write path offset content)
    → Wire.RoundTrip.IsSendable (to_c_message (write path offset content))
unfolding to_c_message
write-IsSendable path offset content s = record {
  size = omega (arith, s.0.1);
  offset = omega arith;
  flags = omega arith;
  path = s.0.0;
  to = tt;
  fits = omega (arith, s.0.1);
}

-- An empty target is sent as none.
serialize_untargeted :
    (from : Bytes) → Wire.serialize (to_c_message (rename from [])) ≡ Wire.serialize (on_path from)
unfolding to_c_message Wire.serialize
serialize_untargeted from = refl

rename-IsSendable :
    (from : Bytes) (c : ℕ) (cs : Bytes)
    → IsSendable (rename from (c ∷ cs))
    → Wire.RoundTrip.IsSendable (to_c_message (rename from (c ∷ cs)))
unfolding to_c_message
rename-IsSendable from c cs s = record {
  size = refl;
  offset = omega arith;
  flags = omega arith;
  path = s.0.0;
  to = s.1;
  fits = omega (arith, s.0.1);
}

mtime-IsSendable :
    (path : Bytes) (time : ℕ)
    → IsSendable (mtime path time)
    → Wire.RoundTrip.IsSendable (to_c_message (mtime path time))
unfolding to_c_message
mtime-IsSendable path time s = record {
  size = refl;
  offset = omega (arith, s.1);
  flags = omega arith;
  path = s.0.0;
  to = tt;
  fits = omega (arith, s.0.1);
}

-- An operation whose texts hold no zero byte, whose numbers fit 32 bits and whose fields fit 16 MiB is
-- read back from its bytes under its type's number.
pub deserialize-serialize_fuse :
    (m : FuseMessage)
    → IsSendable m
    → deserialize (fuse_message.message_type m) (fuse_message.serialize m) ≡ received m
unfolding to_c_message of_c_message
deserialize-serialize_fuse (create path) s =
    read_back (create path) _ (parse_alone _ (on_path-IsSendable path s)) refl
deserialize-serialize_fuse (mkdir path) s =
    read_back (mkdir path) _ (parse_alone _ (on_path-IsSendable path s)) refl
deserialize-serialize_fuse (delete path) s =
    read_back (delete path) _ (parse_alone _ (on_path-IsSendable path s)) refl
deserialize-serialize_fuse (unlock_request path) s =
    read_back (unlock_request path) _ (parse_alone _ (on_path-IsSendable path s)) refl
deserialize-serialize_fuse (unlock path) s =
    read_back (unlock path) _ (parse_alone _ (on_path-IsSendable path s)) refl
deserialize-serialize_fuse (write path offset content) s =
    read_back (write path offset content) _ (parse_alone _ (write-IsSendable path offset content s))
      (ap (λ o. write path o content) (omega (arith, s.1)))
deserialize-serialize_fuse (rename from []) s =
    read_back (rename from []) (on_path from)
      (ap Wire.parse (serialize_untargeted from) ∙ parse_alone _ (on_path-IsSendable from s.0)) refl
deserialize-serialize_fuse (rename from (c ∷ cs)) s =
    read_back (rename from (c ∷ cs)) _ (parse_alone _ (rename-IsSendable from c cs s)) refl
deserialize-serialize_fuse (mtime path time) s =
    read_back (mtime path time) _ (parse_alone _ (mtime-IsSendable path time s)) refl

pub fuse_message-IsLawful : IsLawful fuse_message IsSendable
fuse_message-IsLawful = record {
  type_fits = λ m s. type_number-fits (type_of m);
  round_trip = deserialize-serialize_fuse;
}
  where
    type_number-fits : (t : CMessageType) → type_number t < 2 ^ 16
    type_number-fits Wire.write = omega arith
    type_number-fits Wire.mkdir = omega arith
    type_number-fits Wire.delete = omega arith
    type_number-fits Wire.rename = omega arith
    type_number-fits Wire.create = omega arith
    type_number-fits Wire.mtime = omega arith
    type_number-fits Wire.unlock_request = omega arith
    type_number-fits Wire.unlock = omega arith
