-- ===== src/Cluster/Callbacks/Followers.antt =====
-- What the leader sends to its followers (`send_updates_to_followers` of memdb_callbacks.rs).
use pve_cluster.Prelude.{
  ℕ, ◌≡◌, ◌≢◌, refl, sym, ◌∙◌, ap, subst, inl, inr, List, [], ◌∷◌, ◌++◌, Bool, true, false, some,
  if◌then◌else◌, ◌==◌, Bool-cases, ==_ne, All, arith,
}
use mathlib.Core.List.{Memᴰ}
use mathlib.Core.List.Memᴰ
use pve_cluster.MemDb.Types.{TreeEntry, root_inode}
use pve_cluster.MemDb.External.{External}
use pve_cluster.MemDb.State.{MemDb, get_entry_by_inode}
use pve_cluster.MemDb.Index.{MemDbIndex, find_differences}
use pve_cluster.Cluster.Leader.{Member}
use pve_cluster.Cluster.Callbacks.{
  App, send_update, send_update_complete, is_alike, has, extend, inodes_to_update, update_of,
  updates, send_updates_to_followers,
}

if-tail : (b : Bool) (i j : ℕ) (is : List ℕ) → Memᴰ i is → Memᴰ i (if b then is else j ∷ is)
if-tail true i j is m = m
if-tail false i j is m = Memᴰ.tail m

has-Mem : (i : ℕ) (is : List ℕ) → has i is ≡ true → Memᴰ i is
unfolding has
has-Mem i [] h = cc
has-Mem i (j ∷ js) h = elim (Bool-cases (i == j)) [
  | inl e ↦ Memᴰ.head (ground (arith, e))
  | inr n ↦ Memᴰ.tail (has-Mem i js (ground (arith, n, h)))
]

added : (i : ℕ) (is : List ℕ) → Memᴰ i (if has i is then is else i ∷ is)
added i is = elim (Bool-cases (has i is)) [
  | inl h ↦ rw h (has-Mem i is h)
  | inr n ↦ rw n (Memᴰ.head refl)
]

-- What the set held stays in it.
extend-kept : (i : ℕ) (js is : List ℕ) → Memᴰ i is → Memᴰ i (extend js is)
unfolding extend
extend-kept i [] is m = m
extend-kept i (j ∷ js) is m = extend-kept i js _ (if-tail (has j is) i j is m)

extend-Mem : (i : ℕ) (js is : List ℕ) → Memᴰ i js → Memᴰ i (extend js is)
unfolding extend
extend-Mem i [] is k = elim k [ ]
extend-Mem i (j ∷ js) is (Memᴰ.head e) = extend-kept i js _ (Memᴰ.cast e (added j is))
extend-Mem i (j ∷ js) is (Memᴰ.tail m) = extend-Mem i js _ m

either-kept :
    (i : ℕ) (b : Bool) (js is : List ℕ) → Memᴰ i is → Memᴰ i (if b then is else extend js is)
either-kept i true js is m = m
either-kept i false js is m = extend-kept i js is m

inodes_to_update-kept :
    (i : ℕ) (leader : MemDbIndex) (ms : List Member) (is : List ℕ)
    → Memᴰ i is
    → Memᴰ i (inodes_to_update leader ms is)
unfolding inodes_to_update
inodes_to_update-kept i leader [] is m = m
inodes_to_update-kept i leader (f ∷ ms) is m =
    inodes_to_update-kept i leader ms _ (either-kept i (is_alike f.index leader) _ is m)

inodes_to_update-Mem :
    (i : ℕ) (leader : MemDbIndex) (f : Member) (ms : List Member) (is : List ℕ)
    → Memᴰ f ms
    → is_alike f.index leader ≡ false
    → Memᴰ i (find_differences leader f.index)
    → Memᴰ i (inodes_to_update leader ms is)
unfolding inodes_to_update
inodes_to_update-Mem i leader f [] is k a m = elim k [ ]
inodes_to_update-Mem i leader f (g ∷ ms) is (Memᴰ.head e) a m =
    inodes_to_update-kept i leader ms _ (
      rw (sym (ap (λ (h : Member). is_alike h.index leader) e) ∙ a)
        (extend-Mem i _ is (subst (λ (h : Member). Memᴰ i (find_differences leader h.index)) e m)))
inodes_to_update-Mem i leader f (g ∷ ms) is (Memᴰ.tail k) a m =
    inodes_to_update-Mem i leader f ms _ k a m

all_alike :
    (leader : MemDbIndex) (members : List Member)
    → All (λ f. is_alike f.index leader ≡ true) members
    → inodes_to_update leader members [] ≡ []
unfolding inodes_to_update
all_alike leader [] a = refl
all_alike leader (f ∷ ms) a = rw a.0 (all_alike leader ms a.1)

module _ {x : External} where
  updates-Mem :
      (m : MemDb x) (i : ℕ) (is : List ℕ) (e : TreeEntry)
      → Memᴰ i is
      → i ≢ root_inode
      → get_entry_by_inode m i ≡ some e
      → Memᴰ (send_update e) (updates m is)
  unfolding updates
  updates-Mem m i [] e k n g = elim k [ ]
  updates-Mem m i (j ∷ js) e (Memᴰ.head q) n g =
      rw (sym q, ==_ne i root_inode n, g) (Memᴰ.head refl)
  updates-Mem m i (j ∷ js) e (Memᴰ.tail k) n g = elim (Bool-cases (j == root_inode)) [
    | inl t ↦ rw t (updates-Mem m i js e k n g)
    | inr f ↦
        rw f (Memᴰ.append_right (update_of (get_entry_by_inode m j)) (updates-Mem m i js e k n g))
  ]

  -- If some follower is not alike the leader, then each inode that differs between their indices,
  -- other than the root, has its entry of the leader's database sent to the group.
  pub sends_differences :
      (leader : MemDbIndex) (members : List Member) (s : App x) (f : Member) (i : ℕ) (e : TreeEntry)
      → Memᴰ f members
      → is_alike f.index leader ≡ false
      → Memᴰ i (find_differences leader f.index)
      → i ≢ root_inode
      → get_entry_by_inode s.memdb i ≡ some e
      → Memᴰ (send_update e) (send_updates_to_followers leader members s).outbox
  unfolding send_updates_to_followers
  sends_differences leader members s f i e k a d n g = Memᴰ.append_right s.outbox (
      updates-Mem s.memdb i (inodes_to_update leader members []) e
        (inodes_to_update-Mem i leader f members [] k a d) n g)

  -- If every follower is alike the leader in version, modification time, size and number of entries,
  -- whatever the entries are, then no update is sent, and only the end of the updates is.
  pub sends_nothing :
      (leader : MemDbIndex) (members : List Member) (s : App x)
      → All (λ f. is_alike f.index leader ≡ true) members
      → (send_updates_to_followers leader members s).outbox
        ≡ s.outbox ++ (send_update_complete ∷ [])
  unfolding send_updates_to_followers updates
  sends_nothing leader members s a = rw (all_alike leader members a) refl
