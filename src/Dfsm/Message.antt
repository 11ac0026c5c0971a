-- ===== src/Dfsm/Message.antt =====
-- src/pmxcfs-rs/pmxcfs-dfsm/src/message.rs: the trait `Message`, the interface between the protocol
-- and the messages of an application.
use pve_cluster.Prelude.{ℕ, none, some, Option, ◌≡◌, ◌<◌, ◌^◌}
use pve_cluster.Bytes.{Bytes}
use pve_cluster.Dfsm.Wire.{Parsed, failed, parsed}

-- The outcome of reading a message: the value, an error, or a panic of an index out of range.
pub data Received (A : Type 0) : Type 0 where
  received : A → Received A
  refused : Received A
  panicked : Received A

infixl 5 ◌>>=◌
abbrev pub ◌>>=◌ : {A B : Type 0} → Received A → (A → Received B) → Received B
received a >>= next = next a
refused >>= next = refused
panicked >>= next = panicked

abbrev pub of_parsed : {A : Type 0} → Parsed A → Received A
of_parsed (failed e) = refused
of_parsed (parsed a) = received a

abbrev pub of_option : {A : Type 0} → Option A → Received A
of_option none = refused
of_option (some a) = received a

-- The trait: the number of a message's type, its bytes, and the message of a number and bytes.
pub record Message (M : Type 0) : Type 0 where
  pub message_type : M → ℕ
  pub serialize : M → Bytes
  pub deserialize : ℕ → Bytes → Received M

-- What the protocol relies on: a message that may be sent has a type of 16 bits and is read back.
pub record IsLawful {M : Type 0} (I : Message M) (IsSendable : M → Type 0) : Type 0 where
  pub type_fits : (m : M) → IsSendable m → I.message_type m < 2 ^ 16
  pub round_trip :
      (m : M) → IsSendable m → I.deserialize (I.message_type m) (I.serialize m) ≡ received m
