-- ===== src/Logger/Entry.antt =====
-- src/pmxcfs-rs/pmxcfs-logger/src/entry.rs: log entries, their packing and their sizes. The global
-- `UID_COUNTER` is passed in and out.
use pve_cluster.Prelude.{ℕ, ◌*◌, if◌then◌else◌, ◌+◌, ltb, leb, ◌/◌, ◌-◌, ◌^◌, ◌%◌, take}
use pve_cluster.Bytes.{Bytes}
use pve_cluster.Logger.Text.{Text, len, truncate_string, utf8_to_ascii, as_bytes}
use pve_cluster.Logger.Hash.{fnv_64a_str}
pub mod Bounds

abbrev pub clog_max_entry_size : ℕ
clog_max_entry_size = 4096

pub record LogEntry : Type 0 where
  pub uid : ℕ
  pub time : ℕ
  pub node_digest : ℕ
  pub ident_digest : ℕ
  pub pid : ℕ
  pub priority : ℕ
  pub node : Text
  pub ident : Text
  pub tag : Text
  pub message : Text

pub data PackError : Type 0 where
  invalid_priority size_overflow : PackError

pub data Packed : Type 0 where
  packed : LogEntry → Packed
  refused : PackError → Packed

-- prev, next, uid, time; the digests; pid, msg_len; priority and the three lengths.
abbrev pub header_size : ℕ
header_size = 4 * 4 + 8 * 2 + 4 * 2 + 1 * 4

-- `msg_len` after the cut to `CLOG_MAX_ENTRY_SIZE`.
abbrev pub capped : ℕ → ℕ → ℕ
capped total_size msg_len =
    if ltb clog_max_entry_size total_size
    then msg_len - (total_size - clog_max_entry_size)
    else msg_len

-- The fields are cut already. The message is ASCII, so its bytes are its characters.
unfoldable pub pack_fields : ℕ → Text → Text → Text → (pid time priority : ℕ) → Text → ℕ × Packed
pack_fields counter node ident tag pid time priority message =
    let msg_len = len message + 1 in
    let total_size = header_size + (len node + 1) + (len ident + 1) + (len tag + 1) + msg_len in
    if leb (2 ^ 64) total_size then (counter, refused size_overflow) else (
      (counter + 1) % 2 ^ 32,
      packed (record {
        uid = (counter + 1) % 2 ^ 32;
        time = time;
        node_digest = fnv_64a_str (as_bytes node);
        ident_digest = fnv_64a_str (as_bytes ident);
        pid = pid;
        priority = priority;
        node = node;
        ident = ident;
        tag = tag;
        message = take (capped total_size msg_len - 1) message;
      }),
    )

unfoldable pub pack : ℕ → Text → Text → Text → (pid time priority : ℕ) → Text → ℕ × Packed
unfolding pack_fields
pack counter node ident tag pid time priority message =
    if leb 8 priority
    then (counter, refused invalid_priority)
    else pack_fields counter (truncate_string node 254) (truncate_string ident 254)
        (truncate_string tag 254) pid time priority (utf8_to_ascii message)

unfoldable pub size : LogEntry → ℕ
size e = header_size + len e.node + 1 + len e.ident + 1 + len e.tag + 1 + len e.message + 1

-- `(size + 7) & !7`.
unfoldable pub aligned_size : LogEntry → ℕ
unfolding size
aligned_size e = (size e + 7) / 8 * 8
