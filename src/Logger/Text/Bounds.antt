-- ===== src/Logger/Text/Bounds.antt =====
-- How long the texts of entry.rs get, and which characters are left.
use pve_cluster.Prelude.{
  ℕ, ◌+◌, ◌≤◌, ◌<◌, ◌≡◌, refl, [], ◌∷◌, ◌++◌, arith, All, length, ◌%◌, ◌/◌, Bool-cases, ltb, ◌||◌,
  ◌==◌, inl, inr,
}
use pve_cluster.Logger.Text.{
  Text, len, len_utf8, take_fitting, truncate_string, utf8_to_ascii, escape, digit, IsPrintable,
  ltb,
}

len-take_fitting :
    (max_len idx : ℕ) (s : Text) → idx ≤ max_len → idx + len (take_fitting max_len idx s) ≤ max_len
unfolding len take_fitting
len-take_fitting max_len idx [] h = omega arith
len-take_fitting max_len idx (c ∷ cs) h =
    ground (arith, len-take_fitting max_len (idx + len_utf8 c) cs)

pub len-truncate_string : (s : Text) (max_len : ℕ) → len (truncate_string s max_len) ≤ max_len
unfolding truncate_string
len-truncate_string s max_len = ground (arith, len-take_fitting max_len 0 s)

digit-IsPrintable : (d : ℕ) → d < 16 → IsPrintable (digit d)
digit-IsPrintable d h = (ground arith, ground arith)

All-append : (xs ys : Text) → All IsPrintable xs → All IsPrintable ys → All IsPrintable (xs ++ ys)
All-append [] ys h k = k
All-append (x ∷ xs) ys h k = (h.0, All-append xs ys h.1 k)

hex-IsPrintable : (n : ℕ) → IsPrintable (digit (n % 16))
hex-IsPrintable n = digit-IsPrintable (n % 16) (omega arith)

decimal-IsPrintable : (n : ℕ) → IsPrintable (digit (n % 10))
decimal-IsPrintable n = digit-IsPrintable (n % 10) (omega arith)

escape-IsPrintable : (c : ℕ) → All IsPrintable (escape c)
unfolding escape
escape-IsPrintable c = elim (Bool-cases (ltb c 0x20 || c == 0x7f)) [
  | inl h ↦ rw h (
    (omega arith, omega arith),
    (decimal-IsPrintable (c / 100), (decimal-IsPrintable (c / 10), (decimal-IsPrintable c, tt))),
  )
  | inr h ↦ elim (Bool-cases (c == 0x22)) [
    | inl k ↦ rw (h, k) ((omega arith, omega arith), ((omega arith, omega arith), tt))
    | inr k ↦ elim (Bool-cases (ltb c 0x80)) [
      | inl a ↦ rw (h, k, a) (ground (arith, h, k, a), tt)
      | inr a ↦ elim (Bool-cases (ltb c 0x10000)) [
        | inl b ↦
            rw (h, k, a, b)
              (
                (omega arith, omega arith),
                (
                  (omega arith, omega arith),
                  (
                    hex-IsPrintable (c / 4096),
                    (
                      hex-IsPrintable (c / 256),
                      (hex-IsPrintable (c / 16), (hex-IsPrintable c, tt)),
                    ),
                  ),
                ),
              )
        | inr b ↦ rw (h, k, a, b) tt
      ]
    ]
  ]
]

pub utf8_to_ascii-IsPrintable : (s : Text) → All IsPrintable (utf8_to_ascii s)
unfolding utf8_to_ascii
utf8_to_ascii-IsPrintable [] = tt
utf8_to_ascii-IsPrintable (c ∷ cs) =
    All-append (escape c) (utf8_to_ascii cs) (escape-IsPrintable c) (utf8_to_ascii-IsPrintable cs)

pub len-IsPrintable : (s : Text) → All IsPrintable s → len s ≡ length s
unfolding len len_utf8
len-IsPrintable [] h = refl
len-IsPrintable (c ∷ cs) h = ground (arith, len-IsPrintable cs h.1, h.0)
