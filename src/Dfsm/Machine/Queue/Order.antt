-- ===== src/Dfsm/Machine/Queue/Order.antt =====
-- `BTreeMap` as state_machine.rs uses it: the queue stays in the order of its keys.
use pve_cluster.Prelude.{
  ℕ, [], ◌∷◌, List, ◌<◌, ◌≤◌, inl, inr, Bool-cases, ◌==◌, ltb, length, arith, drop, All, ltb→lt,
  ==_iff, ◌+◌,
}
use pve_cluster.Map.{nat_eq}
use pve_cluster.Dfsm.Machine.Queue.{insert, remove, remove_all}

module _ {A : Type 0} where
  abbrev pub IsAbove : ℕ → List (ℕ × A) → Type 0
  IsAbove k m = All (λ e. k < e.0) m

  -- Keys strictly rise.
  abbrev pub IsAscending : List (ℕ × A) → Type 0
  IsAscending [] = Unit {0}
  IsAscending ((k, v) ∷ m) = IsAbove k m × IsAscending m

  IsAbove-trans : (j k : ℕ) (m : List (ℕ × A)) → j < k → IsAbove k m → IsAbove j m
  IsAbove-trans j k [] h a = tt
  IsAbove-trans j k ((i, v) ∷ m) h a = (omega (arith, h, a.0), IsAbove-trans j k m h a.1)

  insert-IsAbove :
      (j k : ℕ) (v : A) (m : List (ℕ × A)) → j < k → IsAbove j m → IsAbove j (insert k v m)
  unfolding insert
  insert-IsAbove j k v [] h a = (h, tt)
  insert-IsAbove j k v ((i, w) ∷ m) h a = elim (Bool-cases (ltb k i)) [
    | inl x ↦ rw (insert, x) (h, a)
    | inr x ↦ elim (Bool-cases (k == i)) [
      | inl y ↦ rw (insert, x, y) (h, a.1)
      | inr y ↦ rw (insert, x, y) (a.0, insert-IsAbove j k v m h a.1)
    ]
  ]

  pub insert-IsAscending :
      (k : ℕ) (v : A) (m : List (ℕ × A)) → IsAscending m → IsAscending (insert k v m)
  unfolding insert
  insert-IsAscending k v [] a = (tt, tt)
  insert-IsAscending k v ((i, w) ∷ m) a = elim (Bool-cases (ltb k i)) [
    | inl x ↦ rw (insert, x) ((ltb→lt k i x, IsAbove-trans k i m (ltb→lt k i x) a.0), a)
    | inr x ↦ elim (Bool-cases (k == i)) [
      | inl y ↦ rw (insert, x, y) (rw ((==_iff k i).0 y) a.0, a.1)
      | inr y ↦
          rw (insert, x, y)
            (insert-IsAbove i k v m (ground (arith, x, y)) a.0, insert-IsAscending k v m a.1)
    ]
  ]

  remove-IsAbove : (j k : ℕ) (m : List (ℕ × A)) → IsAbove j m → IsAbove j (remove k m)
  unfolding remove
  remove-IsAbove j k [] a = tt
  remove-IsAbove j k ((i, w) ∷ m) a = elim (Bool-cases (k == i)) [
    | inl y ↦ rw (remove, y) a.1
    | inr y ↦ rw (remove, y) (a.0, remove-IsAbove j k m a.1)
  ]

  remove-IsAscending : (k : ℕ) (m : List (ℕ × A)) → IsAscending m → IsAscending (remove k m)
  unfolding remove
  remove-IsAscending k [] a = tt
  remove-IsAscending k ((i, w) ∷ m) a = elim (Bool-cases (k == i)) [
    | inl y ↦ rw (remove, y) a.1
    | inr y ↦ rw (remove, y) (remove-IsAbove i k m a.0, remove-IsAscending k m a.1)
  ]

  pub remove_all-IsAscending :
      (ks : List ℕ) (m : List (ℕ × A)) → IsAscending m → IsAscending (remove_all ks m)
  unfolding remove_all
  remove_all-IsAscending [] m a = a
  remove_all-IsAscending (k ∷ ks) m a =
      remove_all-IsAscending ks (remove k m) (remove-IsAscending k m a)

  pub drop-IsAscending : (m : List (ℕ × A)) → IsAscending m → IsAscending (drop 1 m)
  drop-IsAscending [] a = tt
  drop-IsAscending ((k, v) ∷ m) a = a.1

  pub length-insert : (k : ℕ) (v : A) (m : List (ℕ × A)) → length (insert k v m) ≤ length m + 1
  unfolding insert
  length-insert k v [] = omega arith
  length-insert k v ((i, w) ∷ m) = elim (Bool-cases (ltb k i)) [
    | inl x ↦ rw (insert, x) (omega arith)
    | inr x ↦ elim (Bool-cases (k == i)) [
      | inl y ↦ rw (insert, x, y) (omega arith)
      | inr y ↦ rw (insert, x, y) (omega (arith, length-insert k v m))
    ]
  ]

  length-remove : (k : ℕ) (m : List (ℕ × A)) → length (remove k m) ≤ length m
  unfolding remove
  length-remove k [] = omega arith
  length-remove k ((i, w) ∷ m) = elim (Bool-cases (k == i)) [
    | inl y ↦ rw (remove, y) (omega arith)
    | inr y ↦ rw (remove, y) (omega (arith, length-remove k m))
  ]

  pub length-remove_all : (ks : List ℕ) (m : List (ℕ × A)) → length (remove_all ks m) ≤ length m
  unfolding remove_all
  length-remove_all [] m = omega arith
  length-remove_all (k ∷ ks) m = omega (arith, length-remove_all ks (remove k m), length-remove k m)
