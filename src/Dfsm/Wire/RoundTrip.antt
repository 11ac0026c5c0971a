-- ===== src/Dfsm/Wire/RoundTrip.antt =====
-- `CFuseMessage::serialize` and `parse` of wire_format.rs, one after the other.
use pve_cluster.Prelude.{
  ℕ, none, some, [], ◌∷◌, true, false, ◌≢◌, ◌≡◌, ◌++◌, refl, All, length, length-drop,
  length-append, append_assoc, ◌<◌, ==_ne, drop, Option, if◌then◌else◌, le→ltb, arith, ◌^◌, ltb,
  lt→ltb, Bool-cases, ◌+◌, ◌≤◌, ap, inl, ◌∙◌, inr, sym, leb,
}
use pve_cluster.Bytes.{Bytes, to_le, length-to_le}
use pve_cluster.Bytes.Slices.{get_le, drop_le, drop_next, slice_at, get_le_at}
use pve_cluster.Bytes.Utf8.{is_utf8}
use pve_cluster.Dfsm.Wire.{
  CFuseMessage, parsed, FuseError, parse, parse_fields, serialize, until_nul, text_field,
  terminated, text_len, or_empty, max_message_size, field, Option, ltb, ◌>>=◌, invalid_path_length,
  invalid_to_length, invalid_data_size, leb,
}

-- A text that a C string can hold.
abbrev pub IsText : Bytes → Type 0
IsText s = (is_utf8 s ≡ true) × All (λ c. c ≢ 0) s

-- A target is a text that is not empty.
abbrev pub IsTarget : Option Bytes → Type 0
IsTarget none = Unit {0}
IsTarget (some []) = ⊥
IsTarget (some (c ∷ cs)) = IsText (c ∷ cs)

pub record IsSendable (m : CFuseMessage) : Type 0 where
  pub size : m.size ≡ length m.content
  pub offset : m.offset < 256 ^ 4
  pub flags : m.flags < 256 ^ 4
  pub path : IsText m.path
  pub to : IsTarget m.to
  pub fits :
      length (terminated m.path) + length (terminated (or_empty m.to)) + m.size ≤ max_message_size

until_nul-terminated : (s : Bytes) → All (λ c. c ≢ 0) s → until_nul (s ++ (0 ∷ [])) ≡ some s
unfolding until_nul
until_nul-terminated [] h = refl
until_nul-terminated (c ∷ cs) h = rw (until_nul, ==_ne c 0 h.0, until_nul-terminated cs h.1) refl

text_len-terminated :
    (s : Bytes) → length (terminated s) < 2 ^ 32 → text_len s ≡ length (terminated s)
text_len-terminated [] h = refl
text_len-terminated (c ∷ cs) h = omega (arith, h, length-append (c ∷ cs) (0 ∷ []))

-- A field that lies within the message.
field_at :
    (bs : Bytes) (offset : ℕ) (xs rest : Bytes) (n : ℕ) (e : FuseError)
    → drop offset bs ≡ xs ++ rest
    → length xs ≡ n
    → 0 < n
    → field bs offset n e ≡ parsed xs
field_at bs offset xs rest n e d l p =
    rw
      (
        le→ltb (length bs) (offset + n)
            (omega (arith, length-drop offset bs, ap length d, length-append xs rest, l, p)),
        slice_at bs offset xs rest d l,
      )
      refl

text_field-terminated :
    (bs : Bytes) (offset c : ℕ) (cs rest : Bytes) (n : ℕ) (e : FuseError)
    → drop offset bs ≡ terminated (c ∷ cs) ++ rest
    → length (terminated (c ∷ cs)) ≡ n
    → IsText (c ∷ cs)
    → text_field bs offset n e ≡ parsed (c ∷ cs)
unfolding text_field
text_field-terminated bs offset c cs rest n e d l t =
    let f =
      field_at bs offset (terminated (c ∷ cs)) rest n e d l
        (omega (arith, l, length-append (c ∷ cs) (0 ∷ []))) in
    let u = until_nul-terminated (c ∷ cs) t.1 in rw (f, u, t.0) refl

path_read :
    (bs : Bytes) (offset : ℕ) (s rest : Bytes) (n : ℕ) (e : FuseError)
    → drop offset bs ≡ terminated s ++ rest
    → length (terminated s) ≡ n
    → IsText s
    → (if ltb 0 n then text_field bs offset n e else parsed []) ≡ parsed s
path_read bs offset [] rest n e d l t = ground (arith, l)
path_read bs offset (c ∷ cs) rest n e d l t =
    rw (lt→ltb 0 n (omega (arith, l, length-append (c ∷ cs) (0 ∷ []))))
      (text_field-terminated bs offset c cs rest n e d l t)

to_read :
    (bs : Bytes) (offset : ℕ) (to : Option Bytes) (rest : Bytes) (n : ℕ) (e : FuseError)
    → drop offset bs ≡ terminated (or_empty to) ++ rest
    → length (terminated (or_empty to)) ≡ n
    → IsTarget to
    → (if ltb 0 n then (text_field bs offset n e >>= λ s. parsed (some s)) else parsed none)
      ≡ parsed to
to_read bs offset none rest n e d l t = ground (arith, l)
to_read bs offset (some []) rest n e d l t = absurd t
to_read bs offset (some (c ∷ cs)) rest n e d l t =
    rw
      (
        lt→ltb 0 n (omega (arith, l, length-append (c ∷ cs) (0 ∷ []))),
        text_field-terminated bs offset c cs rest n e d l t,
      )
      refl

content_read :
    (bs : Bytes) (offset : ℕ) (xs rest : Bytes) (n : ℕ) (e : FuseError)
    → drop offset bs ≡ xs ++ rest
    → length xs ≡ n
    → (if ltb 0 n then field bs offset n e else parsed []) ≡ parsed xs
content_read bs offset [] rest n e d l = ground (arith, l)
content_read bs offset (x ∷ xs) rest n e d l =
    let p : 0 < n = omega (arith, l) in
    rw (lt→ltb 0 n p, field_at bs offset (x ∷ xs) rest n e d l p) refl

sent_content :
    (m : CFuseMessage)
    → m.size ≡ length m.content
    → (if ltb 0 m.size then m.content else []) ≡ m.content
sent_content m h = elim (Bool-cases (ltb 0 m.size)) [
  | inl k ↦ rw k refl
  | inr k ↦ rw k (sym (empty m.content (ground (arith, h, k))))
]
  where
    empty : (xs : Bytes) → length xs ≡ 0 → xs ≡ []
    empty [] e = refl
    empty (x ∷ xs) e = absurd (omega (arith, e))

flat :
    (m : CFuseMessage) (rest : Bytes)
    → serialize m ++ rest
      ≡ to_le 4 m.size
        ++ (to_le 4 m.offset
            ++ (to_le 4 (text_len m.path)
                ++ (to_le 4 (text_len (or_empty m.to))
                    ++ (to_le 4 m.flags
                        ++ (terminated m.path
                            ++ (terminated (or_empty m.to)
                                ++ ((if ltb 0 m.size then m.content else []) ++ rest)))))))
unfolding serialize
flat m rest = simp append_assoc

-- `parse` once its header is known, and its fields once each of them is.
parse_at :
    (bs : Bytes) (m : CFuseMessage) (pathlen tolen : ℕ)
    → ltb (length bs) 20 ≡ false
    → get_le bs 0 4 ≡ m.size
    → get_le bs 4 4 ≡ m.offset
    → get_le bs 8 4 ≡ pathlen
    → get_le bs 12 4 ≡ tolen
    → get_le bs 16 4 ≡ m.flags
    → pathlen + tolen + m.size ≤ max_message_size
    → parse_fields bs m.size m.offset pathlen tolen m.flags ≡ parsed m
    → parse bs ≡ parsed m
unfolding parse
parse_at bs m pathlen tolen long g0 g4 g8 g12 g16 fits fields =
    let total = pathlen + tolen + m.size in
    let fits32 : leb (2 ^ 32) total ≡ false = ground (arith, fits) in
    let fits16 : ltb max_message_size total ≡ false = ground (arith, fits) in
    rw (parse, long, g0, g4, g8, g12, g16, fits32, fits16) fields

parse_fields_at :
    (bs : Bytes) (m : CFuseMessage) (pathlen tolen : ℕ)
    → (if ltb 0 pathlen then text_field bs 20 pathlen invalid_path_length else parsed [])
      ≡ parsed m.path
    → (if ltb 0 tolen
        then (text_field bs (20 + pathlen) tolen invalid_to_length >>= λ s. parsed (some s))
        else parsed none)
      ≡ parsed m.to
    → (if ltb 0 m.size then field bs (20 + pathlen + tolen) m.size invalid_data_size else parsed [])
      ≡ parsed m.content
    → parse_fields bs m.size m.offset pathlen tolen m.flags ≡ parsed m
unfolding parse_fields
parse_fields_at bs m pathlen tolen p t c = rw (parse_fields, p, t, c) refl

-- A message is read back from its serialization, whatever follows it, where its numbers fit 32 bits,
-- its size is that of its data, its texts are UTF-8 without a zero byte, a second path is not empty, and
-- all of it fits 16 MiB.
pub parse-serialize :
    (m : CFuseMessage) (rest : Bytes) → IsSendable m → parse (serialize m ++ rest) ≡ parsed m
parse-serialize m rest s =
    let bs = serialize m ++ rest in
    let pathlen = length (terminated m.path) in
    let tolen = length (terminated (or_empty m.to)) in
    let body = (if ltb 0 m.size then m.content else []) ++ rest in
    let named = terminated (or_empty m.to) ++ body in
    let d0 = flat m rest in
    let d4 = drop_le bs 0 4 m.size _ 4 d0 refl in
    let d8 = drop_le bs 4 4 m.offset _ 8 d4 refl in
    let d12 = drop_le bs 8 4 (text_len m.path) _ 12 d8 refl in
    let d16 = drop_le bs 12 4 (text_len (or_empty m.to)) _ 16 d12 refl in
    let d20 = drop_le bs 16 4 m.flags (terminated m.path ++ named) 20 d16 refl in
    let dto = drop_next bs 20 (terminated m.path) named (20 + pathlen) d20 refl in
    let ddata =
      drop_next bs (20 + pathlen) (terminated (or_empty m.to)) body (20 + pathlen + tolen) dto
        refl in
    let path_len = text_len-terminated m.path (omega (arith, s.fits)) in
    let to_len = text_len-terminated (or_empty m.to) (omega (arith, s.fits)) in
    let g0 = get_le_at bs 0 4 m.size _ d0 (omega (arith, s.fits)) in
    let g4 = get_le_at bs 4 4 m.offset _ d4 s.offset in
    let g8 = get_le_at bs 8 4 (text_len m.path) _ d8 (omega (arith, s.fits, path_len)) ∙ path_len in
    let g12 =
      get_le_at bs 12 4 (text_len (or_empty m.to)) _ d12 (omega (arith, s.fits, to_len)) ∙ to_len in
    let g16 = get_le_at bs 16 4 m.flags _ d16 s.flags in
    let long : ltb (length bs) 20 ≡ false = le→ltb (length bs) 20 (
      omega (
        arith,
        length-drop 16 bs,
        ap length d16,
        length-append (to_le 4 m.flags) (terminated m.path ++ named),
        length-to_le 4 m.flags,
      )) in
    let content = sent_content m s.size in
    let p = path_read bs 20 m.path named pathlen invalid_path_length d20 refl s.path in
    let t = to_read bs (20 + pathlen) m.to body tolen invalid_to_length dto refl s.to in
    let c =
      content_read bs (20 + pathlen + tolen) (if ltb 0 m.size then m.content else []) rest m.size
        invalid_data_size ddata (ap length content ∙ sym s.size) in
    parse_at bs m pathlen tolen long g0 g4 g8 g12 g16 s.fits
      (parse_fields_at bs m pathlen tolen p t (c ∙ ap parsed content))
