-- ===== src/Logger/Entry/Bounds.antt =====
-- The limits that packing enforces on an entry of entry.rs.
use pve_cluster.Prelude.{
  [], ◌∷◌, zero, suc, ℕ, ◌≤◌, All, ◌≡◌, ◌<◌, Bool-cases, take, leb, inl, inr, arith, suc, ◌+◌, ◌∷◌,
  ◌-◌, length-take, ◌^◌,
}
use pve_cluster.Logger.Text.{Text, len, IsPrintable}
use pve_cluster.Logger.Text.Bounds.{len-truncate_string, utf8_to_ascii-IsPrintable, len-IsPrintable}
use pve_cluster.Logger.Entry.{
  LogEntry, pack, pack_fields, packed, size, take, clog_max_entry_size, leb, capped, header_size,
}

-- What every packed entry satisfies: the names fit a length byte with their terminator, the message is
-- printable ASCII, and the entry fits the limit of an entry.
pub record IsPacked (e : LogEntry) : Type 0 where
  pub node : len e.node ≤ 254
  pub ident : len e.ident ≤ 254
  pub tag : len e.tag ≤ 254
  pub priority : e.priority < 8
  pub message : All IsPrintable e.message
  pub fits : size e ≤ clog_max_entry_size

All-take : (n : ℕ) (s : Text) → All IsPrintable s → All IsPrintable (take n s)
All-take zero s h = tt
All-take (suc n) [] h = tt
All-take (suc n) (c ∷ s) h = (h.0, All-take n s h.1)

-- The cut message leaves room for the rest of the entry.
cut_fits :
    (rest : ℕ) (message : Text)
    → rest ≤ 809
    → All IsPrintable message
    → rest + len (take (capped (rest + (len message + 1)) (len message + 1) - 1) message) + 1
      ≤ clog_max_entry_size
cut_fits rest message h m =
    let n = capped (rest + (len message + 1)) (len message + 1) - 1 in
    rw (len-IsPrintable (take n message) (All-take n message m))
      (ground (arith, length-take n message, len-IsPrintable message m))

-- What `pack_fields` returns, if it returns an entry.
pack_fields-packed :
    (counter : ℕ) (node ident tag : Text) (pid time priority : ℕ) (message : Text) (c : ℕ)
    (e : LogEntry)
    → pack_fields counter node ident tag pid time priority message ≡ (c, packed e)
    → (e.node ≡ node)
      × (e.ident ≡ ident)
      × (e.tag ≡ tag)
      × (e.priority ≡ priority)
      × (e.message
          ≡ take
              (capped
                  (header_size
                    + (len node + 1)
                    + (len ident + 1)
                    + (len tag + 1)
                    + (len message + 1))
                  (len message + 1)
                - 1)
              message)
unfolding pack_fields
pack_fields-packed counter node ident tag pid time priority message c e h =
    elim (Bool-cases (
      leb (2 ^ 64)
        (header_size + (len node + 1) + (len ident + 1) + (len tag + 1) + (len message + 1)))) [
          | inl k ↦ absurd (ground (arith, h, k))
          | inr k ↦ ground (arith, h, k)
        ]

pack_fields-IsPacked :
    (counter : ℕ) (node ident tag : Text) (pid time priority : ℕ) (message : Text) (c : ℕ)
    (e : LogEntry)
    → len node ≤ 254
    → len ident ≤ 254
    → len tag ≤ 254
    → priority < 8
    → All IsPrintable message
    → pack_fields counter node ident tag pid time priority message ≡ (c, packed e)
    → IsPacked e
unfolding size
pack_fields-IsPacked counter node ident tag pid time priority message c e n i t p m h =
    let r = pack_fields-packed counter node ident tag pid time priority message c e h in
    record {
      node = ground (arith, r.0);
      ident = ground (arith, r.1);
      tag = ground (arith, r.2);
      priority = ground (arith, r.3);
      message = rw r.4 (All-take _ message m);
      fits =
          rw (r.0, r.1, r.2, r.4)
            (omega (
              arith,
              cut_fits (header_size + (len node + 1) + (len ident + 1) + (len tag + 1)) message
                  (omega arith) m,
            ));
    }

-- An entry that `pack` returns has a node, an ident and a tag of at most 254 bytes, a priority below
-- 8, a message of printable ASCII characters, and a size of at most `CLOG_MAX_ENTRY_SIZE`.
pub pack-IsPacked :
    (counter : ℕ) (node ident tag : Text) (pid time priority : ℕ) (message : Text) (c : ℕ)
    (e : LogEntry)
    → pack counter node ident tag pid time priority message ≡ (c, packed e)
    → IsPacked e
unfolding pack
pack-IsPacked counter node ident tag pid time priority message c e h =
    elim (Bool-cases (leb 8 priority)) [
      | inl k ↦ absurd (ground (arith, h, k))
      | inr k ↦
          pack_fields-IsPacked counter _ _ _ pid time priority _ c e (len-truncate_string node 254)
            (len-truncate_string ident 254) (len-truncate_string tag 254) (ground (arith, k))
            (utf8_to_ascii-IsPrintable message) (ground (arith, h, k))
    ]
