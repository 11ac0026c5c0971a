-- ===== src/MemDb/SharedTests.antt =====
-- The theorems on locks and on replication at inputs that meet their hypotheses.

use pve_cluster.MemDb.Create.{
  create, create_checks, add_entry, link, create_body, finish_create, register_lock, to_row,
}
use pve_cluster.MemDb.Mutation.{
  update_root_metadata, after_commit, after_body, after_meta, after_begin, mutate,
}
use pve_cluster.Map.{get, insert, remove}
use mathlib.Core.Option.{some-ne-none}
use pve_cluster.Map.{nat_eq, bytes_key}
use pve_cluster.Prelude.{none, some, [], ◌∷◌, true, false, ◌≢◌, ◌≡◌, arith, refl, sym}
use pve_cluster.Bytes.{Bytes, codes, bytes_eq}
use pve_cluster.MemDb.Types.{LockInfo, ok, err, root_inode, commit_failed, lock_held, TreeEntry}
use pve_cluster.MemDb.External.{External, Table, effect}
use pve_cluster.MemDb.State.{exists, MemDb, lookup_path, resolve, walk}
use pve_cluster.MemDb.Paths.{
  lock_cache_key, trim_start, starts_with, trim, rfind, push_part, split_from, parts,
  normalize_path, split_at_slash, split_path,
}
use pve_cluster.MemDb.Mirror.{IsMirrored}
use pve_cluster.MemDb.Create.Registration.{create-locks}
use pve_cluster.MemDb.Locks.{acquire_lock, release_lock, is_locked}
use pve_cluster.MemDb.Locks.Exclusion.{acquire_lock-exclusive, release_lock-unlocked}
use pve_cluster.MemDb.Replicate.{apply_tree_entry, replace_all_entries}
use pve_cluster.MemDb.Replicate.Agreement.{
  RowsAre, HasDiverged, replace_all_entries-RowsAre, apply_tree_entry-IsMirrored,
  apply_tree_entry-HasDiverged,
}
use pve_cluster.MemDb.Tests.{plain, small, motd, root, small-IsMirrored}

-- With the directory `/priv`.
abbrev with_priv : MemDb plain
with_priv = record small {
  index = (0, root) ∷ (3, record root { inode = 3; name = codes "priv" }) ∷ [];
  tree = (0, (codes "priv", 3) ∷ []) ∷ (3, []) ∷ [];
}

acquire_lock-with_priv : (acquire_lock with_priv (codes "priv/lock/vm") (1 ∷ []) 1000).1 ≡ ok tt
unfolding acquire_lock exists create create_checks add_entry link create_body finish_create
    register_lock get insert remove trim_start trim starts_with rfind push_part split_from parts
    normalize_path split_at_slash split_path lock_cache_key walk resolve lookup_path
    update_root_metadata after_commit after_body after_meta after_begin mutate bytes_eq
acquire_lock-with_priv = refl

one_lock : ◌≢◌ {A = Bytes} (1 ∷ []) (2 ∷ [])
one_lock h = ground (arith, h)

lock_cache_key-slash :
    lock_cache_key (codes "/priv/lock/vm") ≡ lock_cache_key (codes "priv/lock/vm")
unfolding trim_start starts_with lock_cache_key
lock_cache_key-slash = refl

abbrev acquired : MemDb plain
acquired = (acquire_lock with_priv (codes "priv/lock/vm") (1 ∷ []) 1000).0

acquire_lock-exclusive_example :
    (is_locked acquired (codes "/priv/lock/vm") 1100 ≡ true)
    × (acquire_lock acquired (codes "/priv/lock/vm") (2 ∷ []) 1100 ≡ (acquired, err lock_held))
acquire_lock-exclusive_example =
    acquire_lock-exclusive with_priv (codes "priv/lock/vm") (codes "/priv/lock/vm") (1 ∷ [])
      (2 ∷ []) 1000 1100 acquire_lock-with_priv lock_cache_key-slash one_lock (omega arith)

abbrev held : MemDb plain
held = record small { locks = (codes "priv/lock/vm", record { ltime = 900; csum = 1 ∷ [] }) ∷ [] }

release_lock-held : (release_lock held (codes "priv/lock/vm") (1 ∷ []) 1000).1 ≡ ok tt
unfolding release_lock exists get insert remove trim_start trim starts_with rfind push_part
    split_from parts normalize_path split_at_slash split_path lock_cache_key walk resolve
    lookup_path update_root_metadata after_commit after_body after_meta after_begin mutate bytes_eq
release_lock-held = refl

release_lock-unlocked_example :
    ((info : LockInfo) × (get (lock_cache_key (codes "priv/lock/vm")) held.locks ≡ some info)
      × (info.csum ≡ 1 ∷ []))
    × (is_locked
          (release_lock held (codes "priv/lock/vm") (1 ∷ []) 1000).0
          (codes "/priv/lock/vm")
          1001
        ≡ false)
release_lock-unlocked_example =
    release_lock-unlocked held (codes "priv/lock/vm") (codes "/priv/lock/vm") (1 ∷ []) 1000 1001
      release_lock-held lock_cache_key-slash

replace_all_entries-small : (replace_all_entries small (root ∷ motd ∷ [])).1 ≡ ok tt
unfolding replace_all_entries
replace_all_entries-small = refl

replace_all_entries-RowsAre_example :
    RowsAre
      (replace_all_entries small (root ∷ motd ∷ [])).0.index
      (replace_all_entries small (root ∷ motd ∷ [])).0.conn
replace_all_entries-RowsAre_example =
    replace_all_entries-RowsAre small (root ∷ motd ∷ []) replace_all_entries-small

apply_tree_entry-small : (apply_tree_entry small motd).1 ≢ err commit_failed
unfolding apply_tree_entry
apply_tree_entry-small h = cc

motd-ne-root : motd.inode ≢ root_inode
motd-ne-root h = omega (arith, h)

apply_tree_entry-IsMirrored_example : IsMirrored (apply_tree_entry small motd).0
apply_tree_entry-IsMirrored_example =
    apply_tree_entry-IsMirrored small motd small-IsMirrored motd-ne-root apply_tree_entry-small

-- The table of a disk that is full: no commit succeeds.
abbrev full : External
full = record {
  Conn = Table;
  table = λ c. c;
  begin = λ c. some c;
  execute = λ q t. some (effect q t);
  commit = λ t. none;
  sha256 = λ bs. bs;
  begin_lem = plain.begin_lem;
  execute_lem = plain.execute_lem;
  commit_lem = λ t c h. absurd (some-ne-none c (sym h));
}

abbrev on_full : MemDb full
on_full = record {
  conn = small.conn;
  index = small.index;
  tree = small.tree;
  version = small.version;
  locks = [];
  errors = false;
}

-- A file that the disk does not hold yet.
abbrev issue : TreeEntry
issue = record motd { inode = 9; name = codes "issue" }

issue-ne-root : issue.inode ≢ root_inode
issue-ne-root h = omega (arith, h)

issue-new : full.table on_full.conn 9 ≢ some (to_row issue)
issue-new h = some-ne-none (to_row issue) (sym h)

apply_tree_entry-full : (apply_tree_entry on_full issue).1 ≡ err commit_failed
unfolding apply_tree_entry
apply_tree_entry-full = refl

apply_tree_entry-HasDiverged_example :
    HasDiverged (apply_tree_entry on_full issue).0 9
    × ¬ IsMirrored (apply_tree_entry on_full issue).0
apply_tree_entry-HasDiverged_example =
    apply_tree_entry-HasDiverged on_full issue issue-ne-root issue-new apply_tree_entry-full

create-locks_example :
    (create with_priv (codes "/priv/lock") 0x41ed 0 1000 1000).0.locks ≡ with_priv.locks
create-locks_example = create-locks with_priv (codes "/priv/lock") 0x41ed 0 1000 1000
