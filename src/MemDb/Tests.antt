-- ===== src/MemDb/Tests.antt =====
-- Tests, and each theorem at an input that meets its hypotheses. SQLite is a table in memory that
-- never fails here.
use pve_cluster.MemDb.Mutation.{
  update_root_metadata, after_commit, after_body, after_meta, after_begin, mutate, with_mutation,
}
use pve_cluster.MemDb.Paths.{
  trim_start, trim, starts_with, rfind, push_part, split_from, parts, normalize_path,
  split_at_slash, split_path, is_lock_dir, lock_cache_key,
}
use pve_cluster.Prelude.{
  ℕ, ◌≡◌, refl, ap, sym, true, false, none, some, [], ◌∷◌, arith, if◌then◌else◌, ◌==◌, ◌≢◌, ◌≤◌,
  ◌+◌, ◌<◌, ◌^◌,
}
use mathlib.Core.Option.{some-injective, some-ne-none}
use pve_cluster.Bytes.{codes, bytes_eq}
use pve_cluster.Map.{get, insert, remove, nat_eq, bytes_key}
use pve_cluster.MemDb.Types.{
  TreeEntry, ok, dt_dir, dt_reg, version_filename, root_inode, memdb_max_fssize,
}
use pve_cluster.MemDb.External.{External, Row, Table, effect}
use pve_cluster.MemDb.State.{MemDb, lookup_path, read, resolve, walk, total_size}
use pve_cluster.MemDb.Create.{to_row}
use pve_cluster.MemDb.Write.{write, written, write_body, write_checks, finish_write, write_if}
use pve_cluster.MemDb.Write.ReadBack.{IsKeyed, read-write}
use pve_cluster.MemDb.Write.Quota.{SizesMatch, write-within-limits}
use pve_cluster.MemDb.Remove.{
  rename, unlink, drop_target, rename_body, rename_checks, finish_rename, rename_if,
}
use pve_cluster.MemDb.Mirror.{IsMirrored}
use pve_cluster.MemDb.Mirror.History.{
  write_at, delete_at, rename_at, step, run, step-IsMirrored, run-IsMirrored,
}
use pve_cluster.MemDb.Mirror.SelfRename.{RowLost, rename-RowLost}

pub same : (c t : Table) → some c ≡ some t → (j : ℕ) → t j ≡ c j
same c t h j = ap (λ (t : Table). t j) (sym (some-injective c t h))

abbrev pub plain : External
plain = record {
  Conn = Table;
  table = λ c. c;
  begin = λ c. some c;
  execute = λ q t. some (effect q t);
  commit = λ t. some t;
  sha256 = λ bs. bs;
  begin_lem = λ c t h j. same _ _ h j;
  execute_lem = λ q t u h j. same _ _ h j;
  commit_lem = λ t c h j. same _ _ h j;
}

abbrev pub root : TreeEntry
root = record {
  inode = 0;
  parent = 0;
  version = 5;
  writer = 1;
  mtime = 100;
  size = 0;
  entry_type = dt_dir;
  name = [];
  content = [];
}

abbrev pub motd : TreeEntry
motd = record {
  inode = 5;
  parent = 0;
  version = 5;
  writer = 1;
  mtime = 100;
  size = 3;
  entry_type = dt_reg;
  name = codes "motd";
  content = 7 ∷ 8 ∷ 9 ∷ [];
}

abbrev pub version_row : Row
version_row = record {
  parent = 0;
  version = 5;
  writer = 1;
  mtime = 100;
  row_type = dt_reg;
  name = version_filename;
  content = none;
}

abbrev pub stored : Table
stored j = if 0 == j then some version_row else (if 5 == j then some (to_row motd) else none)

-- A root directory with one file, `/motd`.
abbrev pub small : MemDb plain
small = record {
  conn = stored;
  index = (0, root) ∷ (5, motd) ∷ [];
  tree = (0, (codes "motd", 5) ∷ []) ∷ [];
  version = 5;
  locks = [];
  errors = false;
}

small-IsKeyed : IsKeyed small.index
unfolding get
small-IsKeyed j e h = ground arith

small-SizesMatch : SizesMatch small.index
unfolding get
small-SizesMatch j e h = ground arith

pub small-IsMirrored : IsMirrored small
unfolding get
small-IsMirrored = record {
  root = (refl, refl, refl, refl, refl);
  rows = λ j n. ground arith;
  keyed = small-IsKeyed;
}

total_size-small : total_size small.index ≤ memdb_max_fssize
unfolding total_size
total_size-small = omega arith

write-small : (write small (codes "/motd") 1 2 200 (4 ∷ 5 ∷ 6 ∷ []) false).1 ≡ ok 3
unfolding get total_size insert remove trim_start trim starts_with rfind push_part split_from parts
    normalize_path split_at_slash split_path is_lock_dir lock_cache_key walk resolve lookup_path
    update_root_metadata after_commit after_body after_meta after_begin mutate with_mutation written
    write_body write_checks finish_write write_if write unlink drop_target rename_body rename_checks
    finish_rename rename_if rename bytes_eq
write-small = refl

rename-small : (rename small (codes "/motd") (codes "/motd") 2 200).1 ≡ ok tt
unfolding get insert remove trim_start trim starts_with rfind push_part split_from parts
    normalize_path split_at_slash split_path is_lock_dir lock_cache_key walk resolve lookup_path
    update_root_metadata after_commit after_body after_meta after_begin mutate with_mutation written
    write_body write_checks finish_write write_if write unlink drop_target rename_body rename_checks
    finish_rename rename_if rename bytes_eq
rename-small = refl

lookup_path-small : lookup_path small (codes "/motd") ≡ some motd
unfolding get insert remove trim_start trim starts_with rfind push_part split_from parts
    normalize_path split_at_slash split_path is_lock_dir lock_cache_key walk resolve lookup_path
    update_root_metadata after_commit after_body after_meta after_begin mutate with_mutation written
    write_body write_checks finish_write write_if write unlink drop_target rename_body rename_checks
    finish_rename rename_if rename bytes_eq
lookup_path-small = refl

small-MovesAway :
    (e t : TreeEntry)
    → lookup_path small (codes "motd") ≡ some e
    → lookup_path small (codes "new") ≡ some t
    → (t.inode ≢ e.inode) × (t.inode ≢ root_inode)
unfolding get insert remove trim_start trim starts_with rfind push_part split_from parts
    normalize_path split_at_slash split_path is_lock_dir lock_cache_key walk resolve lookup_path
    update_root_metadata after_commit after_body after_meta after_begin mutate with_mutation written
    write_body write_checks finish_write write_if write unlink drop_target rename_body rename_checks
    finish_rename rename_if rename bytes_eq
small-MovesAway e t h k = absurd (some-ne-none t (sym k))

step-IsMirrored_example : IsMirrored (step small (rename_at (codes "motd") (codes "new") 2 200))
step-IsMirrored_example =
    step-IsMirrored small (rename_at (codes "motd") (codes "new") 2 200) (omega arith)
      small-MovesAway small-IsMirrored

step-small : (step small (write_at (codes "motd") 1 2 200 (4 ∷ []) true)).version ≡ 6
unfolding step total_size get insert remove trim_start trim starts_with rfind push_part split_from
    parts normalize_path split_at_slash split_path is_lock_dir lock_cache_key walk resolve
    lookup_path update_root_metadata after_commit after_body after_meta after_begin mutate
    with_mutation written write_body write_checks finish_write write_if write unlink drop_target
    rename_body rename_checks finish_rename rename_if rename bytes_eq
step-small = refl

step-small_fits : (step small (write_at (codes "motd") 1 2 200 (4 ∷ []) true)).version + 1 < 2 ^ 64
step-small_fits = omega (arith, step-small)

run-IsMirrored_example : IsMirrored (
    run small (write_at (codes "motd") 1 2 200 (4 ∷ []) true ∷ delete_at (codes "motd") 2 300 ∷ []))
run-IsMirrored_example =
    run-IsMirrored small
      (write_at (codes "motd") 1 2 200 (4 ∷ []) true ∷ delete_at (codes "motd") 2 300 ∷ [])
      (omega arith, tt, (step-small_fits, tt, tt)) small-IsMirrored

rename-RowLost_example : RowLost (rename small (codes "/motd") (codes "/motd") 2 200).0 5
rename-RowLost_example =
    rename-RowLost small (codes "/motd") 2 200 motd lookup_path-small rename-small

read-write_example :
    (◌≡◌ {A = ℕ} 3 3)
    × (read (write small (codes "/motd") 1 2 200 (4 ∷ 5 ∷ 6 ∷ []) false).0 (codes "/motd") 1 3
        ≡ ok (4 ∷ 5 ∷ 6 ∷ []))
read-write_example =
    read-write small (codes "/motd") 1 2 200 (4 ∷ 5 ∷ 6 ∷ []) false 3 small-IsKeyed write-small

write-within-limits_example :
    total_size (write small (codes "/motd") 1 2 200 (4 ∷ 5 ∷ 6 ∷ []) false).0.index
    ≤ memdb_max_fssize
write-within-limits_example =
    write-within-limits small (codes "/motd") 1 2 200 (4 ∷ 5 ∷ 6 ∷ []) false 3 small-IsKeyed
      small-SizesMatch total_size-small write-small
