-- ===== src/Dfsm/KvStore/Panics.antt =====
-- `KvStoreMessage::deserialize` of kv_store_message.rs: the bytes at which an index is out of range.
use pve_cluster.Prelude.{
  ℕ, none, some, false, ◌≡◌, ◌≢◌, inl, inr, length, ◌≤◌, Option, arith, ◌+◌, ◌==◌, ltb, Bool-cases,
  not, ◌-◌, subst, ◌||◌,
}
use pve_cluster.Bytes.{Bytes}
use pve_cluster.Bytes.Slices.{get_le}
use pve_cluster.Bytes.Utf8.{is_utf8}
use pve_cluster.Dfsm.Wire.{until_nul}
use pve_cluster.Dfsm.Message.{Received, received, refused, panicked, ◌>>=◌}
use pve_cluster.Dfsm.KvStore.Kind
use pve_cluster.Dfsm.KvStore.Kind.{try_from}
use pve_cluster.Dfsm.KvStore.{
  range, read_le, text_of, log_body, log_header, deserialize, deserialize_log, deserialize_update,
  log_text, log_texts, read_key, deserialize_as,
}

-- A log message whose header is cut short, or that gives a text no byte, not even its terminator.
pub record IsWellSized (bs : Bytes) : Type 0 where
  pub header : 24 ≤ length bs
  pub node : get_le bs 8 4 ≢ 0
  pub ident : get_le bs 12 4 ≢ 0
  pub tag : get_le bs 16 4 ≢ 0
  pub message : get_le bs 20 4 ≢ 0

abbrev IsSafe : {A : Type 0} → Received A → Type 0
IsSafe (received a) = Unit {0}
IsSafe refused = Unit {0}
IsSafe panicked = ⊥

bind-IsSafe :
    {A B : Type 0} (r : Received A) (next : A → Received B)
    → IsSafe r
    → ((a : A) → IsSafe (next a))
    → IsSafe (r >>= next)
bind-IsSafe (received a) next h k = k a
bind-IsSafe refused next h k = tt
bind-IsSafe panicked next h k = h

range-IsSafe : (bs : Bytes) (from to : ℕ) → from ≤ to → to ≤ length bs → IsSafe (range bs from to)
unfolding range
range-IsSafe bs from to h k =
    let in_range : (ltb to from || ltb (length bs) to) ≡ false = ground (arith, h, k) in
    rw (range, in_range) tt

-- An integer within the bytes is read, whatever is done with it then.
read_le-IsSafe :
    {A : Type 0} (bs : Bytes) (at width : ℕ) (next : ℕ → Received A)
    → at + width ≤ length bs
    → IsSafe (next (get_le bs at width))
    → IsSafe (read_le bs at width >>= next)
unfolding read_le
read_le-IsSafe bs at width next h k =
    let in_range : ltb (length bs) (at + width) ≡ false = ground (arith, h) in
    rw (read_le, in_range) k

text_of-IsSafe : (text : Bytes) → IsSafe (text_of text)
text_of-IsSafe text = elim (Bool-cases (is_utf8 text)) [ inl u ↦ rw u tt | inr u ↦ rw u tt ]

log_text-IsSafe :
    (bs : Bytes) (offset n : ℕ) → n ≢ 0 → offset + n ≤ length bs → IsSafe (log_text bs offset n)
unfolding log_text
log_text-IsSafe bs offset n h k =
    bind-IsSafe (range bs offset (offset + n - 1)) _
      (range-IsSafe bs offset (offset + n - 1) (omega (arith, h)) (omega (arith, k))) text_of-IsSafe

log_texts-IsSafe :
    (bs : Bytes) (time priority n i t m : ℕ)
    → n ≢ 0
    → i ≢ 0
    → t ≢ 0
    → m ≢ 0
    → length bs ≡ 24 + n + i + t + m
    → IsSafe (log_texts bs time priority n i t m)
unfolding log_texts
log_texts-IsSafe bs time priority n i t m hn hi ht hm len =
    bind-IsSafe (log_text bs 24 n) _ (log_text-IsSafe bs 24 n hn (omega (arith, len))) (λ node.
      bind-IsSafe (log_text bs (24 + n) i) _ (log_text-IsSafe bs (24 + n) i hi (omega (arith, len)))
        (λ ident.
          bind-IsSafe (log_text bs (24 + n + i) t) _
            (log_text-IsSafe bs (24 + n + i) t ht (omega (arith, len)))
            (λ tag.
              bind-IsSafe (log_text bs (24 + n + i + t) m) _
                (log_text-IsSafe bs (24 + n + i + t) m hm (omega (arith, len))) (λ message. tt))))

log_body-IsSafe :
    (bs : Bytes) (time priority n i t m : ℕ)
    → n ≢ 0
    → i ≢ 0
    → t ≢ 0
    → m ≢ 0
    → IsSafe (log_body bs time priority n i t m)
unfolding log_body
log_body-IsSafe bs time priority n i t m hn hi ht hm =
    elim (Bool-cases (not (length bs == 24 + n + i + t + m))) [
      | inl c ↦ rw (log_body, c) tt
      | inr c ↦
          rw (log_body, c)
            (log_texts-IsSafe bs time priority n i t m hn hi ht hm (ground (arith, c)))
    ]

log_header-IsSafe : (bs : Bytes) → IsWellSized bs → IsSafe (log_header bs)
unfolding log_header
log_header-IsSafe bs s =
    let fits = s.header in
    read_le-IsSafe bs 0 4 _ (omega (arith, fits)) (
      read_le-IsSafe bs 4 1 _ (omega (arith, fits)) (
        read_le-IsSafe bs 8 4 _ (omega (arith, fits)) (
          read_le-IsSafe bs 12 4 _ (omega (arith, fits)) (
            read_le-IsSafe bs 16 4 _ (omega (arith, fits)) (
              read_le-IsSafe bs 20 4 _ (omega (arith, fits))
                (log_body-IsSafe bs _ _ _ _ _ _ s.node s.ident s.tag s.message))))))

deserialize_log-IsSafe : (bs : Bytes) → IsWellSized bs → IsSafe (deserialize_log bs)
unfolding deserialize_log
deserialize_log-IsSafe bs s = elim (Bool-cases (ltb (length bs) 20)) [
  | inl c ↦ rw (deserialize_log, c) tt
  | inr c ↦ rw (deserialize_log, c) (log_header-IsSafe bs s)
]

read_key-IsSafe : (key : Option Bytes) → IsSafe (read_key key)
read_key-IsSafe none = tt
read_key-IsSafe (some key) = elim (Bool-cases (is_utf8 key)) [ inl u ↦ rw u tt | inr u ↦ rw u tt ]

deserialize_update-IsSafe : (bs : Bytes) → IsSafe (deserialize_update bs)
unfolding deserialize_update
deserialize_update-IsSafe bs = elim (Bool-cases (ltb (length bs) 256)) [
  | inl c ↦ rw (deserialize_update, c) tt
  | inr c ↦
      let long : 256 ≤ length bs = ground (arith, c) in
      rw (deserialize_update, c)
        (bind-IsSafe (range bs 0 256) _ (range-IsSafe bs 0 256 (omega arith) long) (λ field.
          bind-IsSafe (read_key (until_nul field)) _ (read_key-IsSafe (until_nul field)) (λ key.
            bind-IsSafe (range bs 256 (length bs)) _
              (range-IsSafe bs 256 (length bs) long (omega arith)) (λ value. tt))))
]

deserialize_as-IsSafe :
    (t : Kind.KvStoreMessageType) (bs : Bytes) → IsWellSized bs → IsSafe (deserialize_as t bs)
deserialize_as-IsSafe Kind.update bs s = deserialize_update-IsSafe bs
deserialize_as-IsSafe Kind.update_complete bs s = tt
deserialize_as-IsSafe Kind.log bs s = deserialize_log-IsSafe bs s

try_from-IsSafe : (n : ℕ) → IsSafe (try_from n)
unfolding try_from
try_from-IsSafe n = elim (Bool-cases (n == 1)) [
  | inl a ↦ rw a tt
  | inr a ↦ elim (Bool-cases (n == 2)) [
    | inl b ↦ rw (a, b) tt
    | inr b ↦ elim (Bool-cases (n == 3)) [ inl c ↦ rw (a, b, c) tt | inr c ↦ rw (a, b, c) tt ]
  ]
]

-- Reading a message of any type number does not panic on bytes that hold the 24 bytes of a log entry's
-- header with four lengths that are not 0.
pub deserialize_safe :
    (msg_type : ℕ) (bs : Bytes) → IsWellSized bs → deserialize msg_type bs ≢ panicked
unfolding deserialize
deserialize_safe msg_type bs s h =
    let safe =
      bind-IsSafe (try_from msg_type) (λ t. deserialize_as t bs) (try_from-IsSafe msg_type)
        (λ t. deserialize_as-IsSafe t bs s) in
    subst IsSafe h safe
