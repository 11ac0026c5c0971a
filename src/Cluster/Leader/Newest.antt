-- ===== src/Cluster/Leader/Newest.antt =====
-- What the election of memdb_callbacks.rs picks, and what being synced means.
use mathlib.Core.Option.{some-injective}
use pve_cluster.Prelude.{
  some, [], ◌∷◌, true, false, ◌≡◌, arith, inr, ◌<◌, List, ◌⊎◌, All, Bool-cases, ◌≤◌, inl, refl,
  subst, ◌↔◌, length, ap, sym, Bool, if◌then◌else◌,
}
use pve_cluster.Bytes.{bytes_eq_iff}
use pve_cluster.MemDb.Index.{IndexEntry, MemDbIndex, cmp}
use pve_cluster.Cluster.Leader.{
  Member, is_greater, leader_from, elect, zip_same, is_synced, List, length, Bool,
}

-- The order of the specification: by version, then by modification time.
abbrev pub AtMost : MemDbIndex → MemDbIndex → Type 0
AtMost a b = (a.version < b.version) ⊎ ((a.version ≡ b.version) × (a.mtime ≤ b.mtime))

is_greater-AtMost : (a b : MemDbIndex) → is_greater a b ≡ false → AtMost a b
unfolding is_greater cmp
is_greater-AtMost a b h = ground (arith, h)

is_greater-AtMost_flip : (a b : MemDbIndex) → is_greater a b ≡ true → AtMost b a
unfolding is_greater cmp
is_greater-AtMost_flip a b h = ground (arith, h)

AtMost-trans : (a b c : MemDbIndex) → AtMost a b → AtMost b c → AtMost a c
AtMost-trans a b c h k = ground (arith, h, k)

AtMost-refl : (a : MemDbIndex) → AtMost a a
AtMost-refl a = inr (refl, omega arith)

-- One round of the loop.
leader_from-if :
    (leader m : Member) (ms : List Member) (b : Bool)
    → is_greater m.index leader.index ≡ b
    → leader_from leader (m ∷ ms) ≡ leader_from (if b then m else leader) ms
unfolding leader_from
leader_from-if leader m ms b g = ap (λ (c : Bool). leader_from (if c then m else leader) ms) g

abbrev IsMax : Member → Member → List Member → Type 0
IsMax l leader ms = AtMost leader.index l.index × All (λ m. AtMost m.index l.index) ms

leader_from-AtMost : (leader : Member) (ms : List Member) → IsMax (leader_from leader ms) leader ms
unfolding leader_from
leader_from-AtMost leader [] = (AtMost-refl leader.index, tt)
leader_from-AtMost leader (m ∷ ms) = elim (Bool-cases (is_greater m.index leader.index)) [
  | inl g ↦
      let r = leader_from-AtMost m ms in
      let up =
        AtMost-trans leader.index m.index (leader_from m ms).index
          (is_greater-AtMost_flip m.index leader.index g) r.0 in
      subst (λ l. IsMax l leader (m ∷ ms)) (sym (leader_from-if leader m ms true g))
        (up, (r.0, r.1))
  | inr g ↦
      let r = leader_from-AtMost leader ms in
      let up =
        AtMost-trans m.index leader.index (leader_from leader ms).index
          (is_greater-AtMost m.index leader.index g) r.0 in
      subst (λ l. IsMax l leader (m ∷ ms)) (sym (leader_from-if leader m ms false g))
        (r.0, (up, r.1))
]

abbrev pub IsAmong : Member → List Member → Type 0
IsAmong a [] = ⊥
IsAmong a (m ∷ ms) = (a ≡ m) ⊎ IsAmong a ms

skip :
    (a leader m : Member) (ms : List Member) → IsAmong a (leader ∷ ms) → IsAmong a (leader ∷ m ∷ ms)
skip a leader m ms (inl h) = inl h
skip a leader m ms (inr h) = inr (inr h)

leader_from-IsAmong :
    (leader : Member) (ms : List Member) → IsAmong (leader_from leader ms) (leader ∷ ms)
unfolding leader_from
leader_from-IsAmong leader [] = inl refl
leader_from-IsAmong leader (m ∷ ms) = elim (Bool-cases (is_greater m.index leader.index)) [
  | inl g ↦
      subst (λ l. IsAmong l (leader ∷ m ∷ ms)) (sym (leader_from-if leader m ms true g))
        (inr (leader_from-IsAmong m ms))
  | inr g ↦
      subst (λ l. IsAmong l (leader ∷ m ∷ ms)) (sym (leader_from-if leader m ms false g))
        (skip _ leader m ms (leader_from-IsAmong leader ms))
]

-- The elected leader is one of the members, and no member's index is newer, by version and then by
-- modification time.
pub elect-newest :
    (ms : List Member) (leader : Member)
    → elect ms ≡ some leader
    → IsAmong leader ms × All (λ m. AtMost m.index leader.index) ms
unfolding elect
elect-newest [] leader h = cc
elect-newest (m ∷ ms) leader h =
    let one : leader_from m ms ≡ leader = some-injective _ _ h in
    let r = leader_from-AtMost m ms in
    subst (λ l. IsAmong l (m ∷ ms) × All (λ k. AtMost k.index l.index) (m ∷ ms)) one
      (leader_from-IsAmong m ms, (r.0, r.1))

zip_same_iff :
    (as' bs : List IndexEntry) → length as' ≡ length bs → (zip_same as' bs ≡ true) ↔ (as' ≡ bs)
unfolding zip_same
zip_same_iff [] [] l = ((λ _. refl), (λ _. refl))
zip_same_iff [] (b ∷ bs) l = absurd (omega (arith, l))
zip_same_iff (a ∷ as') [] l = absurd (omega (arith, l))
zip_same_iff (a ∷ as') (b ∷ bs) l =
    let r = zip_same_iff as' bs (omega (arith, l)) in
    ground (arith, r, bytes_eq_iff a.digest b.digest)

-- A node is synced with the leader exactly if its index has the same version, modification time, size
-- field and entries.
pub is_synced_iff :
    (i leader : MemDbIndex)
    → (is_synced i leader ≡ true) ↔ (
        (i.version ≡ leader.version)
        × (i.mtime ≡ leader.mtime)
        × (i.size ≡ leader.size)
        × (i.entries ≡ leader.entries))
unfolding is_synced
is_synced_iff i leader = (
  λ h.
      let l : length i.entries ≡ length leader.entries = ground (arith, h) in
      ground (arith, h, zip_same_iff i.entries leader.entries l),
  λ h.
      let l : length i.entries ≡ length leader.entries = ap length h.3 in
      ground (arith, h, l, zip_same_iff i.entries leader.entries l),
)
