-- ===== src/Logger/ClusterLog/Dedup.antt =====
-- Which entries of each node the log of cluster_log.rs holds.
use mathlib.Core.Option.{some-injective}
use pve_cluster.Prelude.{
  some, [], ◌∷◌, true, false, Option-cases, Option, none, if◌then◌else◌, ℕ, ◌<◌, ◌≡◌, All, List,
  ◌⊎◌, some, true, ◌≤◌, Bool-cases, leb, inl, ◌-◌, inr, arith, refl, ◌==◌, sym, ◌∙◌, ap,
}
use pve_cluster.Map.{get, get-insert, nat_eq}
use pve_cluster.Logger.Entry.{LogEntry, aligned_size}
use pve_cluster.Logger.Ring.Sizes.{IsSized, fitting, add_entry-fitting}
use pve_cluster.Logger.ClusterLog.{
  DedupMap, DedupEntry, ClusterLog, is_not_duplicate, insert_entry, List, ◌∷◌, latest, is_newer,
}

-- The entry is older than another, or it is not newer than what the map records.
abbrev pub Older : LogEntry → LogEntry → Type 0
Older o e = (o.time < e.time) ⊎ ((o.time ≡ e.time) × (o.uid < e.uid))

abbrev pub IsKnown : DedupMap → LogEntry → Type 0
IsKnown dedup o =
    (d : DedupEntry) × (get o.node_digest dedup ≡ some d)
    × ((o.time < d.time) ⊎ ((o.time ≡ d.time) × (o.uid ≤ d.uid)))

-- Of two entries of one node, the one nearer the front is newer.
abbrev pub IsDescending : List LogEntry → Type 0
IsDescending [] = Unit {0}
IsDescending (e ∷ es) = All (λ o. o.node_digest ≡ e.node_digest → Older o e) es × IsDescending es

-- The entry of a node that is nearest the front.
unfoldable pub first_of : ℕ → List LogEntry → Option LogEntry
first_of k [] = none
first_of k (e ∷ es) = if e.node_digest == k then some e else first_of k es

-- For each node in the list the map records the uid and the time of its first entry, no others.
abbrev pub RecordsFirst : DedupMap → List LogEntry → Type 0
RecordsFirst dedup es =
    (k : ℕ) (o : LogEntry)
    → first_of k es ≡ some o
    → get k dedup ≡ some (record { uid = o.uid; time = o.time })

pub record IsDeduped (log : ClusterLog) : Type 0 where
  pub sized : IsSized log.buffer
  pub known : All (IsKnown log.dedup) log.buffer.entries
  pub descending : IsDescending log.buffer.entries
  pub first : RecordsFirst log.dedup log.buffer.entries

All-fitting {ℓ} :
    (P : LogEntry → Type ℓ) (room : ℕ) (es : List LogEntry) → All P es → All P (fitting room es)
unfolding fitting
All-fitting P room [] h = tt
All-fitting P room (e ∷ es) h = elim (Bool-cases (leb (aligned_size e) room)) [
  | inl k ↦ rw k (h.0, All-fitting P (room - aligned_size e) es h.1)
  | inr k ↦ rw k tt
]

fitting-IsDescending :
    (room : ℕ) (es : List LogEntry) → IsDescending es → IsDescending (fitting room es)
unfolding fitting
fitting-IsDescending room [] h = tt
fitting-IsDescending room (e ∷ es) h = elim (Bool-cases (leb (aligned_size e) room)) [
  | inl k ↦ rw k (
    All-fitting _ (room - aligned_size e) es h.0,
    fitting-IsDescending (room - aligned_size e) es h.1,
  )
  | inr k ↦ rw k tt
]

All-imp :
    (P Q : LogEntry → Type 0)
    → ((o : LogEntry) → P o → Q o)
    → (es : List LogEntry) → All P es
    → All Q es
All-imp P Q f [] h = tt
All-imp P Q f (e ∷ es) h = (f e h.0, All-imp P Q f es h.1)

is_newer-Older :
    (dedup : DedupMap) (e o : LogEntry) (d dd : DedupEntry)
    → get o.node_digest dedup ≡ some d
    → get e.node_digest dedup ≡ some dd
    → (o.time < d.time) ⊎ ((o.time ≡ d.time) × (o.uid ≤ d.uid))
    → is_newer e dd ≡ true
    → (e.node_digest == o.node_digest) ≡ true
    → Older o e
is_newer-Older dedup e o d dd at n le w q =
    let same : e.node_digest ≡ o.node_digest = ground (arith, q) in
    let one : d ≡ dd = some-injective d dd (sym at ∙ ap (λ k. get k dedup) (sym same) ∙ n) in
    ground (arith, le, w, ap (λ (x : DedupEntry). x.time) one, ap (λ (x : DedupEntry). x.uid) one)

weaken : (o e : LogEntry) → Older o e → (o.time < e.time) ⊎ ((o.time ≡ e.time) × (o.uid ≤ e.uid))
weaken o e (inl h) = inl h
weaken o e (inr h) = inr (h.0, omega (arith, h.1))

-- An accepted entry is newer than every known one of its node, and they all stay known.
accepted :
    (dedup : DedupMap) (e o : LogEntry)
    → (is_not_duplicate dedup e).1 ≡ true
    → IsKnown dedup o
    → (o.node_digest ≡ e.node_digest → Older o e) × IsKnown (is_not_duplicate dedup e).0 o
unfolding is_not_duplicate
accepted dedup e o a (d, at, le) =
    let put = get-insert e.node_digest o.node_digest (latest e) dedup in
    elim (Option-cases (get e.node_digest dedup)) [
      | inl n ↦ ((λ q. absurd (ground (arith, at, n, q))), (d, ground (arith, at, n, put), le))
      | inr (dd, n) ↦ elim (Bool-cases (is_newer e dd)) [
        | inr w ↦ absurd (ground (arith, a, n, w))
        | inl w ↦ elim (Bool-cases (e.node_digest == o.node_digest)) [
          | inr q ↦
              ((λ p. absurd (ground (arith, p, q))), (d, ground (arith, at, n, w, q, put), le))
          | inl q ↦
              let older = is_newer-Older dedup e o d dd at n le w q in
              ((λ _. older), (latest e, ground (arith, n, w, q, put), weaken o e older))
        ]
      ]
    ]

is_not_duplicate-IsKnown :
    (dedup : DedupMap) (e : LogEntry)
    → (is_not_duplicate dedup e).1 ≡ true
    → IsKnown (is_not_duplicate dedup e).0 e
unfolding is_not_duplicate
is_not_duplicate-IsKnown dedup e a = elim (Option-cases (get e.node_digest dedup)) [
  | inl n ↦ (
    latest e,
    ground (arith, n, get-insert e.node_digest e.node_digest (latest e) dedup),
    inr (refl, omega arith),
  )
  | inr (dd, n) ↦ elim (Bool-cases (is_newer e dd)) [
    | inl w ↦ (
      latest e,
      ground (arith, n, w, get-insert e.node_digest e.node_digest (latest e) dedup),
      inr (refl, omega arith),
    )
    | inr w ↦ absurd (ground (arith, a, n, w))
  ]
]

-- A refused entry leaves the map as it was.
not_accepted :
    (dedup : DedupMap) (e : LogEntry)
    → (is_not_duplicate dedup e).1 ≡ false
    → (is_not_duplicate dedup e).0 ≡ dedup
unfolding is_not_duplicate
not_accepted dedup e a = ground (arith, a)

first_of-fitting :
    (k room : ℕ) (es : List LogEntry) (o : LogEntry)
    → first_of k (fitting room es) ≡ some o
    → first_of k es ≡ some o
unfolding fitting first_of
first_of-fitting k room [] o h = cc
first_of-fitting k room (e ∷ es) o h = elim (Bool-cases (leb (aligned_size e) room)) [
  | inr f ↦ absurd (ground (arith, h, f))
  | inl f ↦ elim (Bool-cases (e.node_digest == k)) [
    | inl q ↦ ground (arith, h, f, q)
    | inr q ↦ rw q (first_of-fitting k (room - aligned_size e) es o (ground (arith, h, f, q)))
  ]
]

-- An accepted entry is recorded under its node, and nothing else changes.
get-accepted :
    (dedup : DedupMap) (e : LogEntry) (k : ℕ)
    → (is_not_duplicate dedup e).1 ≡ true
    → get k (is_not_duplicate dedup e).0
      ≡ (if e.node_digest == k then some (record { uid = e.uid; time = e.time }) else get k dedup)
unfolding is_not_duplicate
get-accepted dedup e k a =
    let put = get-insert e.node_digest k (latest e) dedup in
    elim (Option-cases (get e.node_digest dedup)) [
      | inl n ↦ rw (is_not_duplicate, n) put
      | inr (dd, n) ↦ elim (Bool-cases (is_newer e dd)) [
        | inl w ↦ rw (is_not_duplicate, n, w) put
        | inr w ↦ absurd (ground (arith, a, n, w))
      ]
    ]

accepted-RecordsFirst :
    (dedup : DedupMap) (e : LogEntry) (room : ℕ) (es : List LogEntry)
    → (is_not_duplicate dedup e).1 ≡ true
    → RecordsFirst dedup es
    → RecordsFirst (is_not_duplicate dedup e).0 (e ∷ fitting room es)
unfolding first_of
accepted-RecordsFirst dedup e room es a h k o f =
    get-accepted dedup e k a ∙ elim (Bool-cases (e.node_digest == k)) [
      | inl q ↦ let same : e ≡ o = some-injective e o (ground (arith, f, q)) in rw (q, same) refl
      | inr q ↦ rw q (h k o (first_of-fitting k room es o (ground (arith, f, q))))
    ]

-- If the size of the buffer is the sum of its entries' sizes, no entry in it is newer than what the map
-- records of its node, the map records exactly the time and the uid of the first entry of each node
-- in it, and of two entries of one node the nearer to the front is newer, then all of that holds
-- after any entry is inserted.
pub insert_entry-IsDeduped :
    (log : ClusterLog) (e : LogEntry) → IsDeduped log → IsDeduped (insert_entry log e)
unfolding insert_entry
insert_entry-IsDeduped log e h = elim (Bool-cases (is_not_duplicate log.dedup e).1) [
  | inl a ↦
      let r = add_entry-fitting log.buffer e h.sized in
      let room = log.buffer.capacity - aligned_size e in
      let es = log.buffer.entries in
      let all = All-imp (IsKnown log.dedup) _ (λ o. accepted log.dedup e o a) es h.known in
      let older = All-imp _ (λ o. o.node_digest ≡ e.node_digest → Older o e) (λ o x. x.0) es all in
      let known = All-imp _ (IsKnown (is_not_duplicate log.dedup e).0) (λ o x. x.1) es all in
      record {
        sized = rw a r.0;
        known =
            rw (a, r.1)
              (
                is_not_duplicate-IsKnown log.dedup e a,
                All-fitting (IsKnown (is_not_duplicate log.dedup e).0) room es known,
              );
        descending =
            rw (a, r.1)
              (
                All-fitting (λ o. o.node_digest ≡ e.node_digest → Older o e) room es older,
                fitting-IsDescending room es h.descending,
              );
        first = rw (a, r.1) (accepted-RecordsFirst log.dedup e room es a h.first);
      }
  | inr a ↦ record {
    sized = rw a h.sized;
    known = rw (a, not_accepted log.dedup e a) h.known;
    descending = rw a h.descending;
    first = rw (a, not_accepted log.dedup e a) h.first;
  }
]

-- What was inserted once is refused the second time.
second_refused :
    (dedup : DedupMap) (e : LogEntry) → (is_not_duplicate (is_not_duplicate dedup e).0 e).1 ≡ false
unfolding is_not_duplicate
second_refused dedup e =
    let put = get-insert e.node_digest e.node_digest (latest e) dedup in
    elim (Option-cases (get e.node_digest dedup)) [
      | inl n ↦ ground (arith, n, put)
      | inr (dd, n) ↦ elim (Bool-cases (is_newer e dd)) [
        | inl w ↦ ground (arith, n, w, put)
        | inr w ↦ ground (arith, n, w)
      ]
    ]

-- Inserting an entry a second time changes nothing.
pub insert_entry-insert_entry :
    (log : ClusterLog) (e : LogEntry) → insert_entry (insert_entry log e) e ≡ insert_entry log e
unfolding insert_entry
insert_entry-insert_entry log e =
    let no = second_refused log.dedup e in
    let same = not_accepted (is_not_duplicate log.dedup e).0 e no in rw (no, same) refl
