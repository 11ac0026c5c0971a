-- ===== src/Logger/Text.antt =====
-- Rust's `&str` as its list of characters, each the number of its code point, and the two functions
-- on text of entry.rs.
pub mod Bounds
use pve_cluster.Prelude.{
  ℕ, ◌+◌, ◌/◌, ◌%◌, ◌≤◌, ◌<◌, ◌||◌, List, [], ◌∷◌, ◌++◌, ltb, leb, ◌==◌, if◌then◌else◌,
}
use pve_cluster.Bytes.{Bytes}

abbrev pub Text : Type 0
Text = List ℕ

-- `len_utf8`.
unfoldable pub len_utf8 : ℕ → ℕ
len_utf8 c = if ltb c 0x80 then 1 else (if ltb c 0x800 then 2 else (if ltb c 0x10000 then 3 else 4))

-- `len`, in bytes.
unfoldable pub len : Text → ℕ
unfolding len_utf8
len [] = 0
len (c ∷ cs) = len_utf8 c + len cs

-- The bytes of a character and of a string in UTF-8.
unfoldable pub encode_char : ℕ → Bytes
encode_char c =
    let last = 0x80 + c % 64 in
    let second = 0x80 + c / 64 % 64 in
    if ltb c 0x80
    then c ∷ []
    else (if ltb c 0x800
        then (0xc0 + c / 64) ∷ last ∷ []
        else (if ltb c 0x10000
            then (0xe0 + c / 4096) ∷ second ∷ last ∷ []
            else (0xf0 + c / 262144) ∷ (0x80 + c / 4096 % 64) ∷ second ∷ last ∷ []))

unfoldable pub as_bytes : Text → Bytes
unfolding encode_char
as_bytes [] = []
as_bytes (c ∷ cs) = encode_char c ++ as_bytes cs

-- `take_while` of `truncate_string`: the characters that end within `max_len` bytes, from the
-- position `idx` on.
unfoldable pub take_fitting : ℕ → ℕ → Text → Text
unfolding len_utf8
take_fitting max_len idx [] = []
take_fitting max_len idx (c ∷ cs) =
    let rest = take_fitting max_len (idx + len_utf8 c) cs in
    if leb (idx + len_utf8 c) max_len then c ∷ rest else []

unfoldable pub truncate_string : Text → ℕ → Text
unfolding len take_fitting
truncate_string s max_len = if leb (len s) max_len then s else take_fitting max_len 0 s

-- A decimal and a hexadecimal digit.
abbrev pub digit : ℕ → ℕ
digit d = if ltb d 10 then 48 + d else 87 + d

-- `format!("{:03}", code)` below 1000, and `format!("{:04x}", code)` below 65536.
abbrev pub decimal3 : ℕ → Text
decimal3 n = digit (n / 100 % 10) ∷ digit (n / 10 % 10) ∷ digit (n % 10) ∷ []

abbrev pub hex4 : ℕ → Text
hex4 n = digit (n / 4096 % 16) ∷ digit (n / 256 % 16) ∷ digit (n / 16 % 16) ∷ digit (n % 16) ∷ []

unfoldable pub escape : ℕ → Text
escape c =
    if ltb c 0x20 || c == 0x7f
    then b'#' ∷ decimal3 c
    else (if c == 0x22
        then 0x5c ∷ 0x22 ∷ []
        else (if ltb c 0x80 then c ∷ [] else (if ltb c 0x10000 then 0x5c ∷ b'u' ∷ hex4 c else [])))

unfoldable pub utf8_to_ascii : Text → Text
unfolding escape
utf8_to_ascii [] = []
utf8_to_ascii (c ∷ cs) = escape c ++ utf8_to_ascii cs

-- A printable ASCII character.
abbrev pub IsPrintable : ℕ → Type 0
IsPrintable c = (0x20 ≤ c) × (c < 0x7f)
