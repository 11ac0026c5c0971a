-- ===== src/Bytes/Slices.antt =====
-- `&data[off..off + n]` and integers read from there, with the laws by which a decoder that walks its
-- input by offsets meets an encoder that appends.
use pve_cluster.Prelude.{
  ℕ, zero, suc, ◌+◌, ◌^◌, ◌<◌, ◌≡◌, refl, ap, ◌∙◌, List, [], ◌∷◌, ◌++◌, arith, length, take, drop,
  take-append, drop-append, sym,
}
use pve_cluster.Bytes.{Bytes, to_le, from_le, from_le-to_le, length-to_le}

unfoldable pub slice : Bytes → ℕ → ℕ → Bytes
slice bs off n = take n (drop off bs)

-- `uN::from_le_bytes(data[off..off + w])`.
unfoldable pub get_le : Bytes → ℕ → ℕ → ℕ
get_le bs off w = from_le (slice bs off w)

drop_nil {ℓ} : {A : Type ℓ} (n : ℕ) → drop {A = A} n [] ≡ []
drop_nil zero = refl
drop_nil (suc n) = refl

pub drop-drop {ℓ} : {A : Type ℓ} (m n : ℕ) (xs : List A) → drop n (drop m xs) ≡ drop (m + n) xs
drop-drop zero n xs = ap (λ k. drop k xs) (let e : n ≡ 0 + n = omega arith in e)
drop-drop (suc m) n [] = drop_nil n ∙ sym (drop_nil (suc m + n))
drop-drop (suc m) n (x ∷ xs) =
    drop-drop m n xs
    ∙ ap (λ k. drop k (x ∷ xs)) (let e : suc (m + n) ≡ suc m + n = omega arith in e)

module _ (bs : Bytes) where
  -- Past a block of known length.
  pub drop_next :
      (off : ℕ) (xs rest : Bytes) (next : ℕ)
      → drop off bs ≡ xs ++ rest
      → next ≡ off + length xs
      → drop next bs ≡ rest
  drop_next off xs rest next e n =
      ap (λ k. drop k bs) n
      ∙ sym (drop-drop off (length xs) bs)
      ∙ ap (drop (length xs)) e
      ∙ drop-append xs rest refl

  pub drop_le :
      (off : ℕ) (w x : ℕ) (rest : Bytes) (next : ℕ)
      → drop off bs ≡ to_le w x ++ rest
      → next ≡ off + w
      → drop next bs ≡ rest
  drop_le off w x rest next e n =
      drop_next off (to_le w x) rest next e (omega (arith, length-to_le w x))

  pub slice_at :
      (off : ℕ) (xs rest : Bytes) {n : ℕ}
      → drop off bs ≡ xs ++ rest
      → length xs ≡ n
      → slice bs off n ≡ xs
  unfolding slice
  slice_at off xs rest {n} e h = ap (take n) e ∙ take-append xs rest h

  pub get_le_at :
      (off : ℕ) (w x : ℕ) (rest : Bytes)
      → drop off bs ≡ to_le w x ++ rest
      → x < 256 ^ w
      → get_le bs off w ≡ x
  unfolding get_le
  get_le_at off w x rest e h =
      ap from_le (slice_at off (to_le w x) rest e (length-to_le w x)) ∙ from_le-to_le w x h
