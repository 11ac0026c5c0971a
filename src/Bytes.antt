-- ===== src/Bytes.antt =====
-- Byte strings: `to_le_bytes` and `from_le_bytes` of the integers that the wire formats hold, and
-- equality of byte strings. A byte is a number below 256; a Rust `String` is its UTF-8 bytes.
pub mod Slices
pub mod Utf8
use pve_cluster.Prelude.{
  ℕ, zero, suc, ◌+◌, ◌*◌, ◌/◌, ◌%◌, ◌^◌, ◌<◌, ◌≡◌, refl, ap, ◌↔◌, Bool, true, false, ◌&&◌, List, [],
  ◌∷◌, arith, ◌==◌, length, All,
}
use native.Mathlib.Nat.{pow-suc}
use Prim.Native.Char.{code}
use Prim.Native.String
use Prim.Native.String.{String}

abbrev pub Bytes : Type 0
Bytes = List ℕ

-- The bytes of a literal of the source (all of them are ASCII).
abbrev pub codes : String → Bytes
codes String.[] = []
codes (String.◌∷◌ c s) = code c ∷ codes s

abbrev pub IsByte : ℕ → Type 0
IsByte b = b < 256

-- `x.to_le_bytes()` of an integer of `w` bytes.
unfoldable pub to_le : ℕ → ℕ → Bytes
to_le zero x = []
to_le (suc w) x = (x % 256) ∷ to_le w (x / 256)

-- `uN::from_le_bytes(bytes)`.
unfoldable pub from_le : Bytes → ℕ
from_le [] = 0
from_le (b ∷ bs) = b + 256 * from_le bs

pub length-to_le : (w x : ℕ) → length (to_le w x) ≡ w
unfolding to_le
length-to_le zero x = refl
length-to_le (suc w) x = ap suc (length-to_le w (x / 256))

pub from_le-to_le : (w x : ℕ) → x < 256 ^ w → from_le (to_le w x) ≡ x
unfolding to_le from_le
from_le-to_le zero x h = omega arith
from_le-to_le (suc w) x h =
    rw (from_le-to_le w (x / 256) (omega (arith, pow-suc 256 w))) (omega arith)

pub All-IsByte-to_le : (w x : ℕ) → All IsByte (to_le w x)
unfolding to_le
All-IsByte-to_le zero x = tt
All-IsByte-to_le (suc w) x = (omega arith, All-IsByte-to_le w (x / 256))

-- `a == b` on byte strings.
unfoldable pub bytes_eq : Bytes → Bytes → Bool
bytes_eq [] [] = true
bytes_eq [] (y ∷ ys) = false
bytes_eq (x ∷ xs) [] = false
bytes_eq (x ∷ xs) (y ∷ ys) = (x == y) && bytes_eq xs ys

pub bytes_eq_iff : (xs ys : Bytes) → (bytes_eq xs ys ≡ true) ↔ (xs ≡ ys)
unfolding bytes_eq
bytes_eq_iff [] [] = ((λ _. refl), (λ _. refl))
bytes_eq_iff [] (y ∷ ys) = ((λ h. cc), (λ h. cc))
bytes_eq_iff (x ∷ xs) [] = ((λ h. cc), (λ h. cc))
bytes_eq_iff (x ∷ xs) (y ∷ ys) =
    ((λ h. ground (arith, bytes_eq_iff xs ys)), (λ h. ground (arith, bytes_eq_iff xs ys)))
