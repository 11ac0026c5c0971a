-- ===== src/Logger/Ring/Sizes.antt =====
-- The size that a ring buffer keeps, and which entries `add_entry` drops to make room.
use pve_cluster.Prelude.{
  ℕ, List, ◌≤◌, ◌<◌, ◌++◌, ◌≡◌, ◌+◌, ◌-◌, arith, if◌then◌else◌, leb, Bool-cases, refl, inl, ap, inr,
  ◌∙◌, sym, ltb, ltb→lt,
}
use mathlib.Core.List.{reverse, List, ◌∷◌, [], reverse-reverse, reverse-cons}
use pve_cluster.Logger.Entry.{LogEntry, aligned_size, size}
use pve_cluster.Logger.Ring.{RingBuffer, evict, add_entry, ltb}

-- The sum of the aligned sizes.
unfoldable pub total : List LogEntry → ℕ
total [] = 0
total (e ∷ es) = aligned_size e + total es

-- The specification: the longest run of newest entries that fits the room.
unfoldable pub fitting : ℕ → List LogEntry → List LogEntry
unfolding total
fitting room [] = []
fitting room (e ∷ es) =
    let rest = fitting (room - aligned_size e) es in
    if leb (aligned_size e) room then e ∷ rest else []

total-append : (es ds : List LogEntry) → total (es ++ ds) ≡ total es + total ds
unfolding total
total-append [] ds = omega arith
total-append (e ∷ es) ds = omega (arith, total-append es ds)

-- What fits as a whole is all kept.
fitting-all : (room : ℕ) (es : List LogEntry) → total es ≤ room → fitting room es ≡ es
unfolding total fitting
fitting-all room [] h = refl
fitting-all room (e ∷ es) h =
    rw (fitting-all (room - aligned_size e) es (omega (arith, h))) (ground (arith, h))

-- An oldest entry that does not fit with the others makes no difference.
fitting-snoc :
    (room : ℕ) (es : List LogEntry) (old : LogEntry)
    → room < total es + aligned_size old
    → fitting room (es ++ (old ∷ [])) ≡ fitting room es
unfolding total fitting
fitting-snoc room [] old h = ground (arith, h)
fitting-snoc room (e ∷ es) old h = elim (Bool-cases (leb (aligned_size e) room)) [
  | inl k ↦
      rw k (ap (λ r. e ∷ r) (fitting-snoc (room - aligned_size e) es old (ground (arith, h, k))))
  | inr k ↦ rw k refl
]

aligned_size-pos : (e : LogEntry) → 0 < aligned_size e
unfolding aligned_size size
aligned_size-pos e = omega arith

-- The loop, whose list is reversed, leaves what the specification keeps, and its size.
evict-fitting :
    (capacity entry_size current_size : ℕ) (es : List LogEntry)
    → current_size ≡ total (reverse es)
    → (reverse (evict capacity entry_size current_size es).1
        ≡ fitting (capacity - entry_size) (reverse es))
      × ((evict capacity entry_size current_size es).0
          ≡ total (fitting (capacity - entry_size) (reverse es)))
unfolding evict total fitting
evict-fitting capacity entry_size current_size [] s = (refl, s)
evict-fitting capacity entry_size current_size (old ∷ es) s =
    let room = capacity - entry_size in
    let sum : current_size ≡ total (reverse es) + aligned_size old =
      s ∙ ap total (reverse-cons old es) ∙ total-append (reverse es) (old ∷ []) ∙ omega arith in
    elim (Bool-cases (ltb capacity (current_size + entry_size))) [
      | inl k ↦
          let r =
            evict-fitting capacity entry_size (current_size - aligned_size old) es
              (omega (arith, sum)) in
          let same : fitting room (reverse (old ∷ es)) ≡ fitting room (reverse es) =
            ap (fitting room) (reverse-cons old es)
            ∙ fitting-snoc room (reverse es) old
                (omega (arith, sum, ltb→lt _ _ k, aligned_size-pos old)) in
          rw (k, same) r
      | inr k ↦ rw (k, fitting-all room (reverse (old ∷ es)) (ground (arith, s, k))) (refl, s)
    ]

-- The size kept is the sum of the entries' sizes.
abbrev pub IsSized : RingBuffer → Type 0
IsSized b = b.current_size ≡ total b.entries

-- Where the size kept is the sum of the aligned sizes, adding an entry keeps it so, and leaves the new
-- entry followed by the longest run of the newest entries that fits beside it.
pub add_entry-fitting :
    (b : RingBuffer) (entry : LogEntry)
    → IsSized b
    → IsSized (add_entry b entry)
      × ((add_entry b entry).entries ≡ entry ∷ fitting (b.capacity - aligned_size entry) b.entries)
unfolding add_entry total
add_entry-fitting b entry s =
    let back : reverse (reverse b.entries) ≡ b.entries = reverse-reverse b.entries in
    let r =
      evict-fitting b.capacity (aligned_size entry) b.current_size (reverse b.entries)
        (s ∙ ap total (sym back)) in
    let kept = ap (fitting (b.capacity - aligned_size entry)) back in
    (omega (arith, r.1, ap total r.0), ap (λ es. entry ∷ es) (r.0 ∙ kept))

total-fitting : (room : ℕ) (es : List LogEntry) → total (fitting room es) ≤ room
unfolding total fitting
total-fitting room [] = omega arith
total-fitting room (e ∷ es) = ground (arith, total-fitting (room - aligned_size e) es)

-- Where the size kept is the sum of the aligned sizes and the new entry alone fits the capacity, the
-- buffer is within its capacity after the entry is added.
pub add_entry-le-capacity :
    (b : RingBuffer) (entry : LogEntry)
    → IsSized b
    → aligned_size entry ≤ b.capacity
    → (add_entry b entry).current_size ≤ (add_entry b entry).capacity
unfolding total add_entry
add_entry-le-capacity b entry s h =
    let r = add_entry-fitting b entry s in
    omega (arith, r.0, ap total r.1, total-fitting (b.capacity - aligned_size entry) b.entries)
