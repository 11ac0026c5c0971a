-- ===== src/MemDb/Write/Quota.antt =====
-- The size limits of `write` in database.rs.
use pve_cluster.MemDb.Mutation.Root.{touch, get-update_root_metadata}
use pve_cluster.MemDb.Checks.{lookup_path-get}
use pve_cluster.Prelude.{
  ◌<◌, zero, suc, [], ◌∷◌, none, some, Option, refl, subst, sym, Bool-cases, ◌==◌,
}
use pve_cluster.MemDb.Mutation.Root.{touch, get-update_root_metadata}
use pve_cluster.MemDb.Checks.{lookup_path-get}
use pve_cluster.Prelude.{ℕ, ◌+◌, ◌≡◌, ◌≤◌, refl, Bool, some, if◌then◌else◌, inl, length, inr, arith}
use pve_cluster.Bytes.{Bytes}
use pve_cluster.Map.{get, insert, nat_eq}
use pve_cluster.MemDb.Types.{TreeEntry, ok, is_file, root_inode, memdb_max_fssize}
use pve_cluster.MemDb.External.{External}
use pve_cluster.MemDb.State.{MemDb, Index, total_size}
use pve_cluster.MemDb.Mutation.{update_root_metadata}
use pve_cluster.MemDb.Mutation.Outcome.{next_version}
use pve_cluster.MemDb.Write.{write, written_entry, size_delta, length}
use pve_cluster.MemDb.Write.Content.{length-written, length-kept-le}
use pve_cluster.MemDb.Write.ReadBack.{IsKeyed, write_if-Written}

abbrev pub counted : TreeEntry → ℕ
counted e = if is_file e then e.size else 0

-- The recorded size of each entry is the length of its bytes.
abbrev pub SizesMatch : Index → Type 0
SizesMatch index = (j : ℕ) (e : TreeEntry) → get j index ≡ some e → e.size ≡ length e.content

-- Replacing an entry changes the sum by the difference.
total_size-insert :
    (i : ℕ) (e : TreeEntry) (index : Index) {old : TreeEntry}
    → get i index ≡ some old
    → total_size (insert i e index) + counted old ≡ total_size index + counted e
unfolding total_size get insert
total_size-insert i e [] h = cc
total_size-insert i e ((j, f) ∷ index) {old} h = elim (Bool-cases (j == i)) [
  | inl z ↦ let same : f ≡ old = ground (arith, h, z) in rw (z, same) (omega arith)
  | inr z ↦
      let later : get i index ≡ some old = ground (arith, h, z) in
      rw z (omega (arith, total_size-insert i e index later))
]

total_size-touched :
    (index : Index) (v w t : ℕ) (o : Option TreeEntry)
    → get root_inode index ≡ o
    → total_size
        (elim o as (λ _. Index) [ none ↦ index | some e ↦ insert root_inode (touch v w t e) index ])
      ≡ total_size index
total_size-touched index v w t none h = refl
total_size-touched index v w t (some e) h =
    omega (arith, total_size-insert root_inode (touch v w t e) index h)

total_size-root :
    (index : Index) (v w t : ℕ) → total_size (update_root_metadata index v w t) ≡ total_size index
unfolding update_root_metadata
total_size-root index v w t = total_size-touched index v w t (get root_inode index) refl

-- An entry is found again under the root's new metadata, with the same size.
same_size :
    (index : Index) (v w t i : ℕ) (e : TreeEntry)
    → get i index ≡ some e
    → (f : TreeEntry) × (get i (update_root_metadata index v w t) ≡ some f)
      × (counted f ≡ counted e)
same_size index v w t i e h = elim (Bool-cases (root_inode == i)) [
  | inl z ↦ (touch v w t e, ground (arith, get-update_root_metadata index v w t i, z, h), refl)
  | inr z ↦ (e, ground (arith, get-update_root_metadata index v w t i, z, h), refl)
]

counted-written :
    (e : TreeEntry) (offset writer mtime : ℕ) (bytes : Bytes) (truncate : Bool) (version : ℕ)
    → e.size ≡ length e.content
    → counted (written_entry e offset writer mtime bytes truncate version)
      ≤ counted e + size_delta e (offset + length bytes)
counted-written e offset writer mtime bytes truncate version s = ground (
  arith,
  length-written e.content offset bytes truncate,
  length-kept-le e.content offset truncate,
)

-- The limit is checked only where the file grows.
room :
    (total delta limit : ℕ)
    → (0 < delta → total + delta ≤ limit)
    → total ≤ limit
    → total + delta ≤ limit
room total zero limit h k = omega arith
room total (suc delta) limit h k = h (omega arith)

module _ {x : External} (m : MemDb x) where
  -- Where entries lie under their inodes and record their sizes, a write that succeeds keeps the sum
  -- of the file sizes within the limit of the file system, if it was.
  pub write-within-limits :
      (path : Bytes) (offset writer mtime : ℕ) (bytes : Bytes) (truncate : Bool) (n : ℕ)
      → IsKeyed m.index
      → SizesMatch m.index
      → total_size m.index ≤ memdb_max_fssize
      → (write m path offset writer mtime bytes truncate).1 ≡ ok n
      → total_size (write m path offset writer mtime bytes truncate).0.index ≤ memdb_max_fssize
  unfolding write
  write-within-limits path offset writer mtime bytes truncate n k s total h =
      let w = write_if-Written m path offset writer mtime bytes truncate n _ refl k h in
      let e = w.0 in
      let e' = written_entry e offset writer mtime bytes truncate (next_version m.version) in
      let index = update_root_metadata m.index (next_version m.version) writer mtime in
      let (i, _, at) = lookup_path-get m path w.1 in
      let here = subst (λ j. get j m.index ≡ some e) (sym (k i e at)) at in
      let (f, found, same) =
        same_size m.index (next_version m.version) writer mtime e.inode e here in
      rw (w.4) (
        omega (
          arith,
          total_size-insert e.inode e' index found,
          same,
          total_size-root m.index (next_version m.version) writer mtime,
          counted-written e offset writer mtime bytes truncate (next_version m.version)
              (s e.inode e here),
          room (total_size m.index) (size_delta e (offset + length bytes)) memdb_max_fssize w.8
              total,
        ))
