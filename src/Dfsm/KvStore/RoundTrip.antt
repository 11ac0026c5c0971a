-- ===== src/Dfsm/KvStore/RoundTrip.antt =====
-- `KvStoreMessage::serialize` and `deserialize` of kv_store_message.rs, one after the other.
use pve_cluster.Prelude.{
  ◌||◌, ℕ, suc, some, [], ◌∷◌, true, false, ◌≡◌, ◌++◌, refl, length, ◌<◌, arith, ◌^◌, ◌+◌, ◌≤◌, ap,
  ◌∙◌, ◌==◌, ltb, take, drop, replicate, All, ◌≢◌, ==_ne, drop-append, length-replicate,
  length-append, append_assoc, ◌-◌, min, not, length-drop, sym, append-nil,
}
use pve_cluster.Bytes.{Bytes}
use pve_cluster.Bytes.Slices.{slice_at, get_le, drop_le, drop_next, get_le_at}
use pve_cluster.Bytes.Utf8.{is_utf8}
use pve_cluster.Dfsm.Wire.{until_nul}
use pve_cluster.Dfsm.Wire.RoundTrip.{IsText}
use pve_cluster.Dfsm.Message.{received, IsLawful}
use pve_cluster.Dfsm.KvStore.Kind
use pve_cluster.Dfsm.KvStore.Kind.{type_number, try_from, KvStoreMessageType}
use pve_cluster.Dfsm.KvStore.{
  range, read_le, log_body, log_header, KvStoreMessage, update, log, update_complete, LogEntry,
  key_field, deserialize_update, log_text, log_texts, deserialize_log, serialize_log, serialize,
  text_len, deserialize, kv_store_message, not,
}

-- A text of a log entry: its length and a terminator fit 32 bits.
abbrev pub IsLogText : Bytes → Type 0
IsLogText s = (is_utf8 s ≡ true) × (length s + 1 < 2 ^ 32)

pub record IsLoggable (e : LogEntry) : Type 0 where
  pub time : e.time < 256 ^ 4
  pub priority : e.priority < 256 ^ 1
  pub node : IsLogText e.node
  pub ident : IsLogText e.ident
  pub tag : IsLogText e.tag
  pub message : IsLogText e.message

-- What a message must satisfy to be read back: a key of at most 255 bytes, none of them zero.
abbrev pub IsSendable : KvStoreMessage → Type 0
IsSendable (update key value) = IsText key × (length key ≤ 255)
IsSendable (log e) = IsLoggable e
IsSendable update_complete = Unit {0}

until_nul-zeros : (s rest : Bytes) → All (λ c. c ≢ 0) s → until_nul (s ++ (0 ∷ rest)) ≡ some s
unfolding until_nul
until_nul-zeros [] rest h = refl
until_nul-zeros (c ∷ cs) rest h = rw (until_nul, ==_ne c 0 h.0, until_nul-zeros cs rest h.1) refl

take_all : (s : Bytes) → take (length s) s ≡ s
take_all [] = refl
take_all (c ∷ cs) = ap (λ t. c ∷ t) (take_all cs)

-- The field of a key that leaves room for its terminator.
key_field-small :
    (key : Bytes) → length key ≤ 255 → key_field key ≡ key ++ (0 ∷ replicate (255 - length key) 0)
key_field-small key h =
    let m : min (length key) 255 ≡ length key = omega (arith, h) in
    let p : 256 - length key ≡ suc (255 - length key) = omega (arith, h) in
    rw (m, p, take_all key) refl

length-key_field : (key : Bytes) → length key ≤ 255 → length (key_field key) ≡ 256
length-key_field key h =
    let zeros : Bytes = replicate (255 - length key) 0 in
    let n : length zeros ≡ 255 - length key = length-replicate (255 - length key) 0 in
    ap length (key_field-small key h) ∙ omega (arith, h, length-append key (0 ∷ zeros), n)

range_at :
    (bs : Bytes) (from to : ℕ) (xs rest : Bytes)
    → drop from bs ≡ xs ++ rest
    → to ≡ from + length xs
    → to ≤ length bs
    → range bs from to ≡ received xs
unfolding range
range_at bs from to xs rest d e fits =
    let in_range : (ltb to from || ltb (length bs) to) ≡ false = ground (arith, e, fits) in
    rw (range, in_range, slice_at bs from xs rest {n = to - from} d (omega (arith, e))) refl

update_read :
    (key value : Bytes)
    → IsSendable (update key value)
    → deserialize_update (key_field key ++ value) ≡ received (update key value)
unfolding deserialize_update
update_read key value s =
    let bs = key_field key ++ value in
    let l = length-key_field key s.1 in
    let all = length-append (key_field key) value in
    let long : ltb (length bs) 256 ≡ false = ground (arith, l, all) in
    let field =
      range_at bs 0 256 (key_field key) value refl (omega (arith, l)) (omega (arith, l, all)) in
    let rest =
      range_at bs 256 (length bs) value []
        (drop-append (key_field key) value l ∙ sym (append-nil value)) (omega (arith, l, all))
        (omega arith) in
    let u = ap until_nul (key_field-small key s.1) ∙ until_nul-zeros key _ s.0.1 in
    rw (deserialize_update, long, field, u, s.0.0, rest) refl

log_text_read :
    (bs : Bytes) (offset : ℕ) (s rest : Bytes) (n : ℕ)
    → drop offset bs ≡ (s ++ (0 ∷ [])) ++ rest
    → n ≡ length s + 1
    → offset + n ≤ length bs
    → is_utf8 s ≡ true
    → log_text bs offset n ≡ received s
unfolding log_text
log_text_read bs offset s rest n d l fits u =
    let t =
      range_at bs offset (offset + n - 1) s ((0 ∷ []) ++ rest) (d ∙ append_assoc s (0 ∷ []) rest)
        (omega (arith, l)) (omega (arith, fits)) in
    rw (log_text, t, u) refl

-- The texts behind the header, once each of them is read.
log_texts_at :
    (bs : Bytes) (e : LogEntry) (n i t m : ℕ)
    → log_text bs 24 n ≡ received e.node
    → log_text bs (24 + n) i ≡ received e.ident
    → log_text bs (24 + n + i) t ≡ received e.tag
    → log_text bs (24 + n + i + t) m ≡ received e.message
    → log_texts bs e.time e.priority n i t m ≡ received (log e)
unfolding log_texts
log_texts_at bs e n i t m node ident tag message = rw (log_texts, node, ident, tag, message) refl

read_le_at :
    (bs : Bytes) (at width k : ℕ)
    → at + width ≤ length bs
    → get_le bs at width ≡ k
    → read_le bs at width ≡ received k
unfolding read_le
read_le_at bs at width k fits e =
    let in_range : ltb (length bs) (at + width) ≡ false = ground (arith, fits) in
    rw (read_le, in_range, e) refl

deserialize_log_at :
    (bs : Bytes) (e : LogEntry) (n i t m : ℕ)
    → length bs ≡ 24 + n + i + t + m
    → get_le bs 0 4 ≡ e.time
    → get_le bs 4 1 ≡ e.priority
    → get_le bs 8 4 ≡ n
    → get_le bs 12 4 ≡ i
    → get_le bs 16 4 ≡ t
    → get_le bs 20 4 ≡ m
    → log_texts bs e.time e.priority n i t m ≡ received (log e)
    → deserialize_log bs ≡ received (log e)
unfolding deserialize_log log_header log_body
deserialize_log_at bs e n i t m len g0 g4 g8 g12 g16 g20 texts =
    let a : ltb (length bs) 20 ≡ false = ground (arith, len) in
    let c : not (length bs == 24 + n + i + t + m) ≡ false = ground (arith, len) in
    rw
      (
        deserialize_log,
        a,
        read_le_at bs 0 4 e.time (omega (arith, len)) g0,
        read_le_at bs 4 1 e.priority (omega (arith, len)) g4,
        read_le_at bs 8 4 n (omega (arith, len)) g8,
        read_le_at bs 12 4 i (omega (arith, len)) g12,
        read_le_at bs 16 4 t (omega (arith, len)) g16,
        read_le_at bs 20 4 m (omega (arith, len)) g20,
        c,
      )
      texts

length-terminated : (s : Bytes) → length (s ++ (0 ∷ [])) ≡ length s + 1
length-terminated s = length-append s (0 ∷ [])

log_read : (e : LogEntry) → IsLoggable e → deserialize_log (serialize_log e) ≡ received (log e)
unfolding serialize_log
log_read e s =
    let bs = serialize_log e in
    let n = text_len e.node in
    let i = text_len e.ident in
    let t = text_len e.tag in
    let m = text_len e.message in
    let node = e.node ++ (0 ∷ []) in
    let ident = e.ident ++ (0 ∷ []) in
    let tag = e.tag ++ (0 ∷ []) in
    let message = e.message ++ (0 ∷ []) in
    let fn : n ≡ length e.node + 1 = omega (arith, s.node.1) in
    let fi : i ≡ length e.ident + 1 = omega (arith, s.ident.1) in
    let ft : t ≡ length e.tag + 1 = omega (arith, s.tag.1) in
    let fm : m ≡ length e.message + 1 = omega (arith, s.message.1) in
    let d4 = drop_le bs 0 4 e.time _ 4 refl refl in
    let d5 = drop_le bs 4 1 e.priority _ 5 d4 refl in
    let d8 = drop_next bs 5 (replicate 3 0) _ 8 d5 refl in
    let d12 = drop_le bs 8 4 n _ 12 d8 refl in
    let d16 = drop_le bs 12 4 i _ 16 d12 refl in
    let d20 = drop_le bs 16 4 t _ 20 d16 refl in
    let d24 = drop_le bs 20 4 m (node ++ (ident ++ (tag ++ message))) 24 d20 refl in
    let di =
      drop_next bs 24 node (ident ++ (tag ++ message)) (24 + n) d24
        (omega (arith, fn, length-terminated e.node)) in
    let dt =
      drop_next bs (24 + n) ident (tag ++ message) (24 + n + i) di
        (omega (arith, fi, length-terminated e.ident)) in
    let dm =
      drop_next bs (24 + n + i) tag message (24 + n + i + t) dt
        (omega (arith, ft, length-terminated e.tag)) in
    let len : length bs ≡ 24 + n + i + t + m =
      omega
        (arith, length-drop (24 + n + i + t) bs, ap length dm, length-terminated e.message, fm) in
    deserialize_log_at bs e n i t m len (get_le_at bs 0 4 e.time _ refl s.time)
      (get_le_at bs 4 1 e.priority _ d4 s.priority) (get_le_at bs 8 4 n _ d8 (omega arith))
      (get_le_at bs 12 4 i _ d12 (omega arith)) (get_le_at bs 16 4 t _ d16 (omega arith))
      (get_le_at bs 20 4 m _ d20 (omega arith))
      (log_texts_at bs e n i t m
        (log_text_read bs 24 e.node _ n d24 fn (omega (arith, len)) s.node.0)
        (log_text_read bs (24 + n) e.ident _ i di fi (omega (arith, len)) s.ident.0)
        (log_text_read bs (24 + n + i) e.tag _ t dt ft (omega (arith, len)) s.tag.0)
        (log_text_read bs (24 + n + i + t) e.message [] m (dm ∙ sym (append-nil message)) fm
          (omega (arith, len)) s.message.0))

try_from-type_number : (t : KvStoreMessageType) → try_from (type_number t) ≡ received t
unfolding try_from
try_from-type_number Kind.update = refl
try_from-type_number Kind.update_complete = refl
try_from-type_number Kind.log = refl

-- A message whose key is text of at most 255 bytes other than zero, or whose entry's values fit their
-- fields and are text, is read back from its bytes under its type's number.
pub deserialize-serialize_kv :
    (m : KvStoreMessage)
    → IsSendable m
    → deserialize (kv_store_message.message_type m) (kv_store_message.serialize m) ≡ received m
unfolding serialize deserialize
deserialize-serialize_kv (update key value) s =
    rw (try_from-type_number Kind.update) (update_read key value s)
deserialize-serialize_kv (log e) s = rw (try_from-type_number Kind.log) (log_read e s)
deserialize-serialize_kv update_complete s = rw (try_from-type_number Kind.update_complete) refl

pub kv_store_message-IsLawful : IsLawful kv_store_message IsSendable
kv_store_message-IsLawful = record { type_fits = type_fits; round_trip = deserialize-serialize_kv }
  where
    type_fits : (m : KvStoreMessage) → IsSendable m → kv_store_message.message_type m < 2 ^ 16
    type_fits (update key value) s = omega arith
    type_fits (log e) s = omega arith
    type_fits update_complete s = omega arith
