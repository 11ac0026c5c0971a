-- ===== src/MemDb/Write/Content.antt =====
-- The bytes of a file after a write: how long they are, and what is read back at the same place.
use pve_cluster.Prelude.{
  ℕ, ◌+◌, ◌-◌, ◌≡◌, refl, ◌∙◌, ap, Bool, true, false, if◌then◌else◌, ◌++◌, ◌≤◌, max, arith, length,
  take, drop, replicate, length-append, length-take, length-drop, length-replicate, take-append,
  take-append_le, take-length, drop-append,
}
use pve_cluster.Bytes.{Bytes}
use pve_cluster.MemDb.Write.{written, resized, overwrite}

abbrev pub kept : Bytes → ℕ → Bool → Bytes
kept old offset truncate = if truncate then take offset old else old

length-resized : (old : Bytes) (end : ℕ) → length (resized old end) ≡ max (length old) end
length-resized old end = omega (
  arith,
  length-append old (replicate (end - length old) 0),
  length-replicate {A = ℕ} (end - length old) 0,
)

length-overwrite :
    (old : Bytes) (offset : ℕ) (bytes : Bytes)
    → offset + length bytes ≤ length old
    → length (overwrite old offset bytes) ≡ length old
length-overwrite old offset bytes h = omega (
  arith,
  length-append (take offset old) (bytes ++ drop (offset + length bytes) old),
  length-append bytes (drop (offset + length bytes) old),
  length-take offset old,
  length-drop (offset + length bytes) old,
)

pub length-written :
    (old : Bytes) (offset : ℕ) (bytes : Bytes) (truncate : Bool)
    → length (written old offset bytes truncate)
      ≡ max (length (kept old offset truncate)) (offset + length bytes)
unfolding written
length-written old offset bytes truncate =
    let base : Bytes = resized (kept old offset truncate) (offset + length bytes) in
    let len = length-resized (kept old offset truncate) (offset + length bytes) in
    length-overwrite base offset bytes (omega (arith, len)) ∙ len

pub length-kept-le :
    (old : Bytes) (offset : ℕ) (truncate : Bool) → length (kept old offset truncate) ≤ length old
length-kept-le old offset true = omega (arith, length-take offset old)
length-kept-le old offset false = omega arith

overwrite-slice :
    (old : Bytes) (offset : ℕ) (bytes : Bytes)
    → offset ≤ length old
    → take (length bytes) (drop offset (overwrite old offset bytes)) ≡ bytes
overwrite-slice old offset bytes h =
    ap (take (length bytes)) (
      drop-append (take offset old) (bytes ++ drop (offset + length bytes) old)
        (omega (arith, length-take offset old)))
    ∙ take-append bytes (drop (offset + length bytes) old) refl

pub written-slice :
    (old : Bytes) (offset : ℕ) (bytes : Bytes) (truncate : Bool)
    → take (length bytes) (drop offset (written old offset bytes truncate)) ≡ bytes
unfolding written
written-slice old offset bytes truncate =
    overwrite-slice (resized (kept old offset truncate) (offset + length bytes)) offset bytes
      (omega (arith, length-resized (kept old offset truncate) (offset + length bytes)))

kept-room :
    (old : Bytes) (offset : ℕ) (truncate : Bool)
    → offset ≤ length old
    → offset ≤ length (kept old offset truncate)
kept-room old offset true h = omega (arith, length-take offset old)
kept-room old offset false h = h

take-kept :
    (old : Bytes) (offset : ℕ) (truncate : Bool)
    → offset ≤ length old
    → take offset (kept old offset truncate) ≡ take offset old
take-kept old offset true h = take-length (take offset old) (omega (arith, length-take offset old))
take-kept old offset false h = refl

-- Below the write nothing changes.
pub written-before :
    (old : Bytes) (offset : ℕ) (bytes : Bytes) (truncate : Bool)
    → offset ≤ length old
    → take offset (written old offset bytes truncate) ≡ take offset old
unfolding written
written-before old offset bytes truncate h =
    let base : Bytes = resized (kept old offset truncate) (offset + length bytes) in
    let room : offset ≤ length (kept old offset truncate) = kept-room old offset truncate h in
    take-append (take offset base) (bytes ++ drop (offset + length bytes) base) (
      omega (
        arith,
        length-take offset base,
        length-resized (kept old offset truncate) (offset + length bytes),
      ))
    ∙ take-append_le offset (kept old offset truncate) _ room
    ∙ take-kept old offset truncate h
