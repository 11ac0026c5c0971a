-- ===== src/Logger/Hash.antt =====
-- src/pmxcfs-rs/pmxcfs-logger/src/hash.rs: the FNV-1a hash of 64 bits.
use Prim.Native.Nat.{bit_xor, bit_xor-bitwise, digits, differ, zero, suc}
use pve_cluster.Prelude.{
  ℕ, ◌+◌, ◌*◌, ◌%◌, ◌^◌, ◌≡◌, refl, ap, ◌∙◌, [], ◌∷◌, ◌++◌, arith, ◌≤◌, ◌/◌, sym,
}
use pve_cluster.Bytes.{Bytes}

abbrev pub fnv1a_64_init : ℕ
fnv1a_64_init = 0xcbf29ce484222325

-- `wrapping_add` and `<<` of u64.
abbrev pub wrapping_add : ℕ → ℕ → ℕ
wrapping_add a b = (a + b) % 2 ^ 64

abbrev pub shl : ℕ → ℕ → ℕ
shl a k = (a * 2 ^ k) % 2 ^ 64

-- The shifts and sums that follow the exclusive or.
unfoldable pub mix : ℕ → ℕ
mix hval = wrapping_add hval (
    wrapping_add
      (wrapping_add
        (wrapping_add (wrapping_add (wrapping_add (shl hval 1) (shl hval 4)) (shl hval 5))
          (shl hval 7))
        (shl hval 8))
      (shl hval 40))

unfoldable pub fnv_64a : Bytes → ℕ → ℕ
unfolding mix
fnv_64a [] hval = hval
fnv_64a (byte ∷ bytes) hval = fnv_64a bytes (mix (bit_xor hval byte))

-- The hash of a string: the loop over its bytes, and the step for the terminator.
unfoldable pub fnv_64a_str : Bytes → ℕ
unfolding fnv_64a mix
fnv_64a_str s = mix (fnv_64a s fnv1a_64_init)

-- FNV-1a as it is published: multiply by the prime of 64 bits.
unfoldable pub fnv1a : Bytes → ℕ → ℕ
fnv1a [] h = h
fnv1a (b ∷ bs) h = fnv1a bs ((bit_xor h b * 0x100000001b3) % 2 ^ 64)

mix-eq-prime : (h : ℕ) → mix h ≡ (h * 0x100000001b3) % 2 ^ 64
unfolding mix
mix-eq-prime h = omega arith

fnv_64a-eq-fnv1a : (bs : Bytes) (h : ℕ) → fnv_64a bs h ≡ fnv1a bs h
unfolding fnv_64a fnv1a
fnv_64a-eq-fnv1a [] h = refl
fnv_64a-eq-fnv1a (b ∷ bs) h = ap (fnv_64a bs) (mix-eq-prime (bit_xor h b)) ∙ fnv_64a-eq-fnv1a bs _

fnv1a-append : (xs ys : Bytes) (h : ℕ) → fnv1a (xs ++ ys) h ≡ fnv1a ys (fnv1a xs h)
unfolding fnv1a
fnv1a-append [] ys h = refl
fnv1a-append (x ∷ xs) ys h = fnv1a-append xs ys _

differ-zero : (d : ℕ) → differ d 0 ≡ d
differ-zero zero = refl
differ-zero (suc d) = refl

digits-zero : (n a : ℕ) → a ≤ n → digits (λ b. b) differ n a 0 ≡ a
digits-zero zero a h = omega arith
digits-zero (suc n) zero h = refl
digits-zero (suc n) (suc a) h =
    omega (arith, digits-zero n (suc a / 2) (omega arith), differ-zero (suc a % 2))

bit_xor-zero : (a : ℕ) → bit_xor a 0 ≡ a
bit_xor-zero a = (λ i. bit_xor-bitwise a 0 i) ∙ digits-zero a a (omega arith)

-- The hash of a string is the published FNV-1a hash, by multiplication with the prime, of its bytes
-- and the terminating zero byte.
pub fnv_64a_str-eq-fnv1a : (s : Bytes) → fnv_64a_str s ≡ fnv1a (s ++ (0 ∷ [])) fnv1a_64_init
unfolding fnv_64a_str fnv1a
fnv_64a_str-eq-fnv1a s =
    mix-eq-prime (fnv_64a s fnv1a_64_init)
    ∙ (ap (λ h. (h * 0x100000001b3) % 2 ^ 64)
          (fnv_64a-eq-fnv1a s fnv1a_64_init ∙ sym (bit_xor-zero (fnv1a s fnv1a_64_init)))
        ∙ sym (fnv1a-append s (0 ∷ []) fnv1a_64_init))
