-- ===== src/MemDb/Locks.antt =====
-- src/pmxcfs-rs/pmxcfs-memdb/src/locks.rs: acquiring, releasing and refreshing locks. A lock is a
-- directory below priv/lock, with a record of its age in the lock cache.
use pve_cluster.Prelude.{
  ℕ, none, some, [], ◌∷◌, true, false, Bool, ◌++◌, not, ◌%◌, if◌then◌else◌, List, ◌||◌, drop, leb,
  ◌^◌, length, ◌-◌, ◌&&◌,
}
use pve_cluster.Bytes.{Bytes, codes, bytes_eq}
use pve_cluster.Map.{get, insert, remove, bytes_key}
use pve_cluster.MemDb.Types.{
  TreeEntry, LockInfo, Result, ok, err, is_dir, lock_dir_path, lock_timeout, lock_held,
  lock_name_missing, lock_path_traversal, lock_mismatch, lock_not_found,
}
use pve_cluster.MemDb.External.{External}
use pve_cluster.MemDb.Paths.{starts_with, lock_cache_key, lock_key_and_path}
use pve_cluster.MemDb.State.{MemDb, ◌>>=◌, ◌>>◌, guard, or_fail, exists, lookup_path, readdir}
use pve_cluster.MemDb.Create.{create, compute_checksum}
use pve_cluster.MemDb.Remove.{delete}
pub mod Exclusion

-- `contains("..")`.
unfoldable pub contains_dots : Bytes → Bool
unfolding starts_with
contains_dots [] = false
contains_dots (c ∷ cs) = starts_with (codes "..") (c ∷ cs) || contains_dots cs

-- `strip_prefix("priv/lock/")`, or the key itself.
unfoldable pub lock_name : Bytes → Bytes
unfolding starts_with
lock_name key =
    let prefix = lock_dir_path ++ codes "/" in
    if starts_with prefix key then drop (length prefix) key else key

-- `S_IFDIR | 0o755`.
abbrev pub lock_mode : ℕ
lock_mode = 0x41ed

-- The time of a lock that is loaded: the cached one if the checksum is the same, else now.
unfoldable pub kept_ltime : List (Bytes × LockInfo) → Bytes → Bytes → ℕ → ℕ
kept_ltime old key csum now = elim (get key old) [
  | none ↦ now
  | some info ↦ if bytes_eq info.csum csum then info.ltime else now
]

abbrev pub loaded_key : TreeEntry → Bytes
loaded_key e = lock_dir_path ++ (codes "/" ++ e.name)

abbrev pub loaded : External → List (Bytes × LockInfo) → ℕ → TreeEntry → LockInfo
loaded x old now e =
    let csum = compute_checksum x e in
    record { ltime = kept_ltime old (loaded_key e) csum now; csum = csum }

unfoldable pub load_locks :
    External
    → List (Bytes × LockInfo)
    → ℕ
    → List TreeEntry
    → List (Bytes × LockInfo)
    → List (Bytes × LockInfo)
load_locks x old now [] new_locks = new_locks
load_locks x old now (e ∷ es) new_locks =
    load_locks x old now es
      (if is_dir e then insert (loaded_key e) (loaded x old now e) new_locks else new_locks)

module _ {x : External} where
  -- A lock that has not timed out and has another checksum.
  unfoldable pub is_held_by_other : MemDb x → Bytes → Bytes → ℕ → Bool
  is_held_by_other m key csum now = elim (get key m.locks) [
    | none ↦ false
    | some info ↦ leb (now - info.ltime) lock_timeout && not (bytes_eq info.csum csum)
  ]

  unfoldable pub acquire_checks : MemDb x → Bytes → Bytes → ℕ → Result (Unit {0})
  unfolding is_held_by_other lock_name contains_dots
  acquire_checks m key csum now = do
    guard (not (is_held_by_other m key csum now)) lock_held
    let name = lock_name key
    guard (not (bytes_eq key lock_dir_path || bytes_eq name [])) lock_name_missing
    guard (not (contains_dots name)) lock_path_traversal
    ok tt

  -- The directory priv/lock, created if it is missing.
  unfoldable pub ensure_lock_dir : MemDb x → ℕ → MemDb x × Result (Unit {0})
  ensure_lock_dir m now =
      let dir = codes "/" ++ lock_dir_path in
      if exists m dir then (m, ok tt) else create m dir lock_mode 0 (now % 2 ^ 32) now

  unfoldable pub create_lock : Bytes → ℕ → MemDb x × Result (Unit {0}) → MemDb x × Result (Unit {0})
  create_lock path now (m, err e) = (m, err e)
  create_lock path now (m, ok u) = create m path lock_mode 0 (now % 2 ^ 32) now

  unfoldable pub ensure_lock : MemDb x → Bytes → ℕ → MemDb x × Result (Unit {0})
  unfolding ensure_lock_dir create_lock
  ensure_lock m path now =
      if exists m path then (m, ok tt) else create_lock path now (ensure_lock_dir m now)

  unfoldable pub record_lock :
      Bytes → Bytes → ℕ → MemDb x × Result (Unit {0}) → MemDb x × Result (Unit {0})
  record_lock key csum now (m, err e) = (m, err e)
  record_lock key csum now (m, ok u) =
      (record m { locks = insert key (record { ltime = now; csum = csum }) m.locks }, ok tt)

  unfoldable pub acquire_if :
      MemDb x → Bytes → Bytes → Bytes → ℕ → Result (Unit {0}) → MemDb x × Result (Unit {0})
  unfolding record_lock ensure_lock
  acquire_if m key path csum now (err e) = (m, err e)
  acquire_if m key path csum now (ok u) = record_lock key csum now (ensure_lock m path now)

  unfoldable pub acquire_lock : MemDb x → Bytes → Bytes → ℕ → MemDb x × Result (Unit {0})
  unfolding acquire_if acquire_checks lock_key_and_path
  acquire_lock m path csum now =
      let k = lock_key_and_path path in
      acquire_if m k.0 k.1 csum now (acquire_checks m k.0 csum now)

  unfoldable pub release_checks : MemDb x → Bytes → Bytes → Result (Unit {0})
  release_checks m key csum = do
    info ← or_fail (get key m.locks) lock_not_found
    guard (bytes_eq info.csum csum) lock_mismatch
    ok tt

  unfoldable pub forget_lock : Bytes → MemDb x × Result (Unit {0}) → MemDb x × Result (Unit {0})
  forget_lock key (m, err e) = (m, err e)
  forget_lock key (m, ok u) = (record m { locks = remove key m.locks }, ok tt)

  unfoldable pub release_if :
      MemDb x → Bytes → Bytes → ℕ → Result (Unit {0}) → MemDb x × Result (Unit {0})
  unfolding forget_lock
  release_if m key path now (err e) = (m, err e)
  release_if m key path now (ok u) =
      forget_lock key (if exists m path then delete m path 0 (now % 2 ^ 32) else (m, ok tt))

  unfoldable pub release_lock : MemDb x → Bytes → Bytes → ℕ → MemDb x × Result (Unit {0})
  unfolding release_if release_checks lock_key_and_path
  release_lock m path csum now =
      let k = lock_key_and_path path in release_if m k.0 k.1 now (release_checks m k.0 csum)

  unfoldable pub is_locked : MemDb x → Bytes → ℕ → Bool
  is_locked m path now = elim (get (lock_cache_key path) m.locks) [
    | none ↦ false
    | some info ↦ leb (now - info.ltime) lock_timeout
  ]

  unfoldable pub update_locks : MemDb x → ℕ → MemDb x
  unfolding load_locks
  update_locks m now = elim (lookup_path m lock_dir_path) [
    | none ↦ record m { locks = [] }
    | some dir ↦
        if not (is_dir dir) then record m { locks = [] } else elim (readdir m lock_dir_path) [
          | ok entries ↦ record m { locks = load_locks x m.locks now entries [] }
          | err e ↦ m
        ]
  ]
