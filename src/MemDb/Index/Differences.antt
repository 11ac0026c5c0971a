-- ===== src/MemDb/Index/Differences.antt =====
-- `find_differences` of index.rs and its specification.
use pve_cluster.Bytes.{bytes_eq}
use pve_cluster.Prelude.{
  ℕ, suc, ◌≤◌, ◌<◌, ◌≡◌, refl, Bool, false, ◌||◌, List, [], ◌∷◌, arith, ltb, if◌then◌else◌,
  Bool-cases, inl, inr, ◌==◌, ◌&&◌,
}
use pve_cluster.MemDb.Index.{
  IndexEntry, advance, head_matches, differences, find_differences, MemDbIndex,
}

-- Inodes rise strictly, from `n` on.
abbrev pub Above : ℕ → List IndexEntry → Type 0
Above n [] = Unit {0}
Above n (e ∷ es) = (n ≤ e.inode) × Above (suc e.inode) es

unfoldable pub has : IndexEntry → List IndexEntry → Bool
has e [] = false
has e (s ∷ ss) = (s.inode == e.inode && bytes_eq s.digest e.digest) || has e ss

-- The specification: keep the inodes of the entries that the other index does not hold.
unfoldable pub missing : List IndexEntry → List IndexEntry → List ℕ
missing [] ss = []
missing (e ∷ es) ss = if has e ss then missing es ss else e.inode ∷ missing es ss

has-below :
    (e : IndexEntry) (n : ℕ) (ss : List IndexEntry) → Above n ss → e.inode < n → has e ss ≡ false
unfolding has
has-below e n [] a h = refl
has-below e n (s ∷ ss) a h = ground (arith, has-below e (suc s.inode) ss a.1)

has-advance :
    (e : IndexEntry) (i : ℕ) (ss : List IndexEntry) → i ≤ e.inode → has e (advance i ss) ≡ has e ss
unfolding has advance
has-advance e i [] h = refl
has-advance e i (s ∷ ss) h = ground (arith, has-advance e i ss)

advance-Above : (i n : ℕ) (ss : List IndexEntry) → Above n ss → Above i (advance i ss)
unfolding advance
advance-Above i n [] a = tt
advance-Above i n (s ∷ ss) a = elim (Bool-cases (ltb s.inode i)) [
  | inl e ↦ rw e (advance-Above i (suc s.inode) ss a.1)
  | inr e ↦ rw e (ground arith, a.1)
]

head_matches-eq-has :
    (e : IndexEntry) (ss : List IndexEntry) → Above e.inode ss → head_matches e ss ≡ has e ss
unfolding head_matches has
head_matches-eq-has e [] a = refl
head_matches-eq-has e (s ∷ ss) a = ground (arith, has-below e (suc s.inode) ss a.1)

missing-advance :
    (i n : ℕ) (es ss : List IndexEntry)
    → i ≤ n
    → Above n es
    → missing es (advance i ss) ≡ missing es ss
unfolding missing
missing-advance i n [] ss h a = refl
missing-advance i n (e ∷ es) ss h a =
    ground (arith, has-advance e i ss, missing-advance i (suc e.inode) es ss (omega arith) a.1)

differences-eq-missing :
    (n k : ℕ) (es ss : List IndexEntry)
    → Above n es
    → Above k ss
    → differences es ss ≡ missing es ss
unfolding differences missing
differences-eq-missing n k [] ss a b = refl
differences-eq-missing n k (e ∷ es) ss a b =
    let later = advance-Above e.inode k ss b in
    ground (
      arith,
      head_matches-eq-has e (advance e.inode ss) later,
      has-advance e e.inode ss,
      differences-eq-missing (suc e.inode) e.inode es (advance e.inode ss) a.1 later,
      missing-advance e.inode (suc e.inode) es ss (omega arith) a.1,
    )

-- Between two indices whose inodes rise strictly, `find_differences` lists exactly the inodes of the
-- entries of the first that the second does not hold with the same inode and digest, in order.
pub find_differences-missing :
    (master slave : MemDbIndex)
    → Above 0 master.entries
    → Above 0 slave.entries
    → find_differences master slave ≡ missing master.entries slave.entries
unfolding find_differences
find_differences-missing master slave a b =
    differences-eq-missing 0 0 master.entries slave.entries a b
