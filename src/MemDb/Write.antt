-- ===== src/MemDb/Write.antt =====
-- `write` of database.rs.
pub mod Content
pub mod ReadBack
pub mod Quota
use pve_cluster.Prelude.{
  ℕ, ◌+◌, ◌-◌, ◌^◌, Bool, true, not, ◌++◌, ltb, leb, if◌then◌else◌, length, take, drop, replicate,
}
use mathlib.Core.Option
use pve_cluster.Bytes.{Bytes}
use pve_cluster.Map.{insert, nat_eq}
use pve_cluster.MemDb.Types.{
  TreeEntry, Result, ok, err, is_dir, memdb_max_file_size, memdb_max_fssize, database_has_errors,
  file_not_found, is_directory, offset_overflow, file_too_large, filesystem_too_large,
  filesystem_overflow,
}
use pve_cluster.MemDb.External.{External, update_content}
use pve_cluster.MemDb.State.{MemDb, ◌>>=◌, ◌>>◌, guard, or_fail, lookup_path, total_size}
use pve_cluster.MemDb.Mutation.{Body, mutate}

-- The file's bytes after the write: cut at `offset` if `truncate`, extended with zeros to the end of
-- the write if shorter, and then overwritten from `offset` on.
abbrev pub resized : Bytes → ℕ → Bytes
resized old end = old ++ replicate (end - length old) 0

abbrev pub overwrite : Bytes → ℕ → Bytes → Bytes
overwrite old offset bytes = take offset old ++ (bytes ++ drop (offset + length bytes) old)

unfoldable pub written : Bytes → ℕ → Bytes → Bool → Bytes
written old offset bytes truncate =
    let kept = if truncate then take offset old else old in
    overwrite (resized kept (offset + length bytes)) offset bytes

-- `end_offset - entry.data.len()`, or 0.
abbrev pub size_delta : TreeEntry → ℕ → ℕ
size_delta e end = end - length e.content

-- The closure's result: the entry with its new bytes and metadata.
abbrev pub written_entry : TreeEntry → ℕ → ℕ → ℕ → Bytes → Bool → ℕ → TreeEntry
written_entry e offset writer mtime bytes truncate version =
    let content = written e.content offset bytes truncate in
    record e {
      content = content;
      size = length content;
      mtime = mtime;
      writer = writer;
      version = version;
    }

unfoldable pub write_body : (x : External) → TreeEntry → ℕ → ℕ → ℕ → Bytes → Bool → Body x TreeEntry
write_body x e offset writer mtime bytes truncate tx version =
    let e' = written_entry e offset writer mtime bytes truncate version in
    Option.map (λ tx'. (e', tx'))
      (x.execute (update_content e'.version e'.writer e'.mtime e'.content e'.inode) tx)

module _ {x : External} where
  -- The checks of `write`, in their order; `usize` has 64 bits.
  unfoldable pub write_checks : MemDb x → Bytes → ℕ → Bytes → Result TreeEntry
  write_checks m path offset bytes = do
    guard (not m.errors) database_has_errors
    entry ← or_fail (lookup_path m path) file_not_found
    guard (not (is_dir entry)) is_directory
    let end = offset + length bytes
    guard (ltb end (2 ^ 64)) offset_overflow
    guard (leb end memdb_max_file_size) file_too_large
    let delta = size_delta entry end
    let total = total_size m.index + delta
    guard (if ltb 0 delta then ltb total (2 ^ 64) else true) filesystem_overflow
    guard (if ltb 0 delta then leb total memdb_max_fssize else true) filesystem_too_large
    ok entry

  unfoldable pub finish_write : ℕ → MemDb x × Result TreeEntry → MemDb x × Result ℕ
  finish_write n (m, err e) = (m, err e)
  finish_write n (m, ok e) = (record m { index = insert e.inode e m.index }, ok n)

  unfoldable pub write_if :
      MemDb x → ℕ → ℕ → ℕ → Bytes → Bool → Result TreeEntry → MemDb x × Result ℕ
  unfolding finish_write
  write_if m offset writer mtime bytes truncate (err e) = (m, err e)
  write_if m offset writer mtime bytes truncate (ok entry) =
      finish_write (length bytes)
        (mutate m writer mtime (write_body x entry offset writer mtime bytes truncate))

  unfoldable pub write : MemDb x → Bytes → ℕ → ℕ → ℕ → Bytes → Bool → MemDb x × Result ℕ
  unfolding write_if
  write m path offset writer mtime bytes truncate =
      write_if m offset writer mtime bytes truncate (write_checks m path offset bytes)
