-- ===== src/MemDb/Write/ReadBack.antt =====
-- `write` and then `read` of database.rs at one place.
use pve_cluster.Prelude.{◌≤◌, ◌<◌}
use pve_cluster.MemDb.Types.{memdb_max_file_size, memdb_max_fssize}
use pve_cluster.MemDb.State.{total_size}
use pve_cluster.MemDb.Write.{size_delta}
use pve_cluster.Prelude.{
  ℕ, ◌+◌, ◌-◌, ◌≡◌, refl, Bool, some, inl, false, inr, length, ◌≤◌, take, drop, ap, arith,
  if◌then◌else◌, leb, [], ◌∙◌, min, ◌∷◌, Bool-cases, leb→le,
}
use pve_cluster.Bytes.{Bytes}
use pve_cluster.Map.{get, insert, get-insert, nat_eq}
use pve_cluster.MemDb.Types.{TreeEntry, Result, ok, err, is_dir}
use pve_cluster.MemDb.External.{External}
use pve_cluster.MemDb.State.{MemDb, Index, lookup_path, read}
use pve_cluster.MemDb.Mutation.{update_root_metadata}
use pve_cluster.MemDb.Mutation.Outcome.{run_inv, next_version, mutate-Outcome}
use pve_cluster.MemDb.Write.{
  write, write_checks, write_body, write_if, written_entry, length, take, drop, leb,
}
use pve_cluster.MemDb.Write.Content.{length-written, written-slice}
use pve_cluster.MemDb.Checks.{write_checks-ok, lookup_path-get, lookup_path_at, resolve_tree}

-- Each entry lies under its own inode.
abbrev pub IsKeyed : Index → Type 0
IsKeyed index = (j : ℕ) (e : TreeEntry) → get j index ≡ some e → e.inode ≡ j

read_slice :
    (content : Bytes) (offset : ℕ) (bytes : Bytes)
    → offset + length bytes ≤ length content
    → take (length bytes) (drop offset content) ≡ bytes
    → (if leb (length content) offset
        then []
        else take (min (offset + length bytes) (length content) - offset) (drop offset content))
      ≡ bytes
read_slice content offset bytes fits slice = elim (Bool-cases (leb (length content) offset)) [
  | inl e ↦ rw e (empty bytes (omega (arith, leb→le (length content) offset e)))
  | inr e ↦ rw e (ap (λ k. take k (drop offset content)) (omega arith) ∙ slice)
]
  where
    empty : (b : Bytes) → length b ≡ 0 → [] ≡ b
    empty [] h = refl
    empty (c ∷ b) h = absurd (omega arith)

-- `read` of a file whose bytes hold the slice.
read_file :
    {x : External} (n : MemDb x) (path : Bytes) (offset : ℕ) (bytes : Bytes) (e : TreeEntry)
    → lookup_path n path ≡ some e
    → is_dir e ≡ false
    → offset + length bytes ≤ length e.content
    → take (length bytes) (drop offset e.content) ≡ bytes
    → read n path offset (length bytes) ≡ ok bytes
unfolding read
read_file n path offset bytes e look file fits slice =
    rw (look, file) (ap ok (read_slice e.content offset bytes fits slice))

module _ {x : External} (m : MemDb x) where
  -- The entry that a successful write leaves at its path.
  abbrev pub Written : Bytes → ℕ → ℕ → ℕ → Bytes → Bool → MemDb x × Result ℕ → Type 0
  Written path offset writer mtime bytes truncate res =
      (e : TreeEntry) × (lookup_path m path ≡ some e)
      × (is_dir e ≡ false)
      × (lookup_path res.0 path
          ≡ some (written_entry e offset writer mtime bytes truncate (next_version m.version)))
      × (res.0.index
          ≡ insert e.inode
              (written_entry e offset writer mtime bytes truncate (next_version m.version))
              (update_root_metadata m.index (next_version m.version) writer mtime))
      × (res.0.tree ≡ m.tree)
      × (res.1 ≡ ok (length bytes))
      × (offset + length bytes ≤ memdb_max_file_size)
      × (0 < size_delta e (offset + length bytes)
          → total_size m.index + size_delta e (offset + length bytes) ≤ memdb_max_fssize)

  pub write_if-Written :
      (path : Bytes) (offset writer mtime : ℕ) (bytes : Bytes) (truncate : Bool) (n : ℕ)
      (checked : Result TreeEntry)
      → write_checks m path offset bytes ≡ checked
      → IsKeyed m.index
      → (write_if m offset writer mtime bytes truncate checked).1 ≡ ok n
      → Written path offset writer mtime bytes truncate
          (write_if m offset writer mtime bytes truncate checked)
  unfolding write_if write_body
  write_if-Written path offset writer mtime bytes truncate n (err f) c k h = cc
  write_if-Written path offset writer mtime bytes truncate n (ok e) c k h =
      elim (mutate-Outcome m writer mtime (write_body x e offset writer mtime bytes truncate)) [
        | inl (_, _, f, eq) ↦ let stop : ◌≡◌ {A = Result ℕ} (err f) (ok n) = rw eq at h in cc
        | inr (r, tx, tx', conn, start, ran, stored, eq) ↦
            let version : ℕ = next_version m.version in
            let e' : TreeEntry = written_entry e offset writer mtime bytes truncate version in
            let (done, same) = run_inv e' _ ran in
            let checks = write_checks-ok m path offset bytes c in
            let (i, path_ok, at) = lookup_path-get m path checks.0 in
            let after : MemDb x = record m {
              conn = conn;
              index = insert e.inode e' (update_root_metadata m.index version writer mtime);
              version = version;
            } in
            let look : lookup_path after path ≡ some e' =
              lookup_path_at after path (resolve_tree m after path refl ∙ path_ok)
              ∙ ground (
                arith,
                k i e at,
                get-insert e.inode i e' (update_root_metadata m.index version writer mtime),
              ) in
            rw (eq, same) (e, checks.0, checks.1, look, refl, refl, refl, checks.3, checks.4)
      ]

  -- Where every entry lies in the index under its own inode, a write that succeeds returns the number
  -- of bytes given, and reading as many at the same path and offset gives the same bytes.
  pub read-write :
      (path : Bytes) (offset writer mtime : ℕ) (bytes : Bytes) (truncate : Bool) (n : ℕ)
      → IsKeyed m.index
      → (write m path offset writer mtime bytes truncate).1 ≡ ok n
      → (n ≡ length bytes)
        × (read (write m path offset writer mtime bytes truncate).0 path offset (length bytes)
            ≡ ok bytes)
  unfolding write
  read-write path offset writer mtime bytes truncate n k h =
      let w = write_if-Written path offset writer mtime bytes truncate n _ refl k h in
      let e = w.0 in
      let e' : TreeEntry =
        written_entry e offset writer mtime bytes truncate (next_version m.version) in
      (
        ground (arith, h, w.6),
        read_file _ path offset bytes e' w.3 w.2
            (omega (arith, length-written e.content offset bytes truncate))
            (written-slice e.content offset bytes truncate),
      )
