-- ===== src/MemDb/Locks/Exclusion.antt =====
-- Who holds a lock of locks.rs, and for how long.
use pve_cluster.Prelude.{
  ℕ, none, some, true, false, ◌≡◌, arith, ◌≢◌, ◌≤◌, ◌+◌, ap, leb, ◌∙◌, ◌-◌, Option-cases, inl, inr,
  refl,
}
use pve_cluster.Bytes.{Bytes, bytes_eq, bytes_eq_iff}
use pve_cluster.Map.{get, get-insert, get-remove, bytes_key}
use pve_cluster.MemDb.Types.{LockInfo, Result, ok, err, lock_timeout, lock_held}
use pve_cluster.MemDb.External.{External}
use pve_cluster.MemDb.Paths.{lock_cache_key, lock_key_and_path}
use pve_cluster.MemDb.State.{MemDb}
use pve_cluster.MemDb.Locks.{
  acquire_lock, acquire_if, acquire_checks, record_lock, ensure_lock, is_held_by_other,
  release_lock, release_if, release_checks, forget_lock, is_locked, leb,
}

module _ {x : External} where
  -- The cache holds the lock, as it was taken at this time.
  abbrev pub IsRecorded : MemDb x → Bytes → Bytes → ℕ → Type 0
  IsRecorded m key csum now = get key m.locks ≡ some (record { ltime = now; csum = csum })

  record_lock-IsRecorded :
      (key csum : Bytes) (now : ℕ) (r : MemDb x × Result (Unit {0}))
      → (record_lock key csum now r).1 ≡ ok tt
      → IsRecorded (record_lock key csum now r).0 key csum now
  unfolding record_lock
  record_lock-IsRecorded key csum now (m, err e) h = cc
  record_lock-IsRecorded key csum now (m, ok u) h = ground (
    arith,
    get-insert key key (record { ltime = now; csum = csum }) m.locks,
    bytes_eq_iff key key,
  )

  acquire_if-IsRecorded :
      (m : MemDb x) (key path csum : Bytes) (now : ℕ) (c : Result (Unit {0}))
      → (acquire_if m key path csum now c).1 ≡ ok tt
      → IsRecorded (acquire_if m key path csum now c).0 key csum now
  unfolding acquire_if
  acquire_if-IsRecorded m key path csum now (err e) h = cc
  acquire_if-IsRecorded m key path csum now (ok u) h =
      record_lock-IsRecorded key csum now (ensure_lock m path now) h

  acquire_lock-IsRecorded :
      (m : MemDb x) (path csum : Bytes) (now : ℕ)
      → (acquire_lock m path csum now).1 ≡ ok tt
      → IsRecorded (acquire_lock m path csum now).0 (lock_cache_key path) csum now
  unfolding acquire_lock lock_key_and_path
  acquire_lock-IsRecorded m path csum now h = acquire_if-IsRecorded m _ _ csum now _ h

  -- While a lock is recorded and young, it is held, and another checksum is refused.
  IsRecorded-exclusive :
      (m : MemDb x) (path csum csum' : Bytes) (now later : ℕ)
      → IsRecorded m (lock_cache_key path) csum now
      → csum ≢ csum'
      → later ≤ now + lock_timeout
      → (is_locked m path later ≡ true) × (acquire_lock m path csum' later ≡ (m, err lock_held))
  unfolding is_locked acquire_lock acquire_if acquire_checks is_held_by_other lock_key_and_path
  IsRecorded-exclusive m path csum csum' now later r d t =
      let young : leb (later - now) lock_timeout ≡ true = ground (arith, t) in
      let wrong : bytes_eq csum csum' ≡ false = ground (arith, bytes_eq_iff csum csum', d) in
      let key = lock_cache_key path in
      let held : is_held_by_other m key csum' later ≡ true =
        rw (is_held_by_other, r, young, wrong) refl in
      let refused : acquire_checks m key csum' later ≡ err lock_held =
        rw (acquire_checks, held) refl in
      (rw (is_locked, r) young, rw (acquire_lock, refused) refl)

  -- In the state that a successful acquisition leaves, the lock is locked at every time until its
  -- timeout has passed, under every path with the same lock, and an acquisition with another checksum
  -- in that time is refused and changes nothing. Calls in between that change the table of locks, as
  -- `lock_expired` with another checksum does, are not covered.
  pub acquire_lock-exclusive :
      (m : MemDb x) (path other csum csum' : Bytes) (now later : ℕ)
      → (acquire_lock m path csum now).1 ≡ ok tt
      → lock_cache_key other ≡ lock_cache_key path
      → csum ≢ csum'
      → later ≤ now + lock_timeout
      → (is_locked (acquire_lock m path csum now).0 other later ≡ true)
        × (acquire_lock (acquire_lock m path csum now).0 other csum' later
            ≡ ((acquire_lock m path csum now).0, err lock_held))
  acquire_lock-exclusive m path other csum csum' now later h k d t =
      IsRecorded-exclusive (acquire_lock m path csum now).0 other csum csum' now later
        (ap (λ i. get i (acquire_lock m path csum now).0.locks) k
          ∙ acquire_lock-IsRecorded m path csum now h)
        d t

  forget_lock-gone :
      (key : Bytes) (r : MemDb x × Result (Unit {0}))
      → (forget_lock key r).1 ≡ ok tt
      → get key (forget_lock key r).0.locks ≡ none
  unfolding forget_lock
  forget_lock-gone key (m, err e) h = cc
  forget_lock-gone key (m, ok u) h =
      ground (arith, get-remove key key m.locks, bytes_eq_iff key key)

  release_if-gone :
      (m : MemDb x) (key path : Bytes) (now : ℕ) (c : Result (Unit {0}))
      → (release_if m key path now c).1 ≡ ok tt
      → get key (release_if m key path now c).0.locks ≡ none
  unfolding release_if
  release_if-gone m key path now (err e) h = cc
  release_if-gone m key path now (ok u) h = forget_lock-gone key _ h

  -- A release that succeeds had the checksum that the cache held, and the lock is not locked
  -- afterwards, at no time and under no path with the same lock.
  pub release_lock-unlocked :
      (m : MemDb x) (path other csum : Bytes) (now later : ℕ)
      → (release_lock m path csum now).1 ≡ ok tt
      → lock_cache_key other ≡ lock_cache_key path
      → ((info : LockInfo) × (get (lock_cache_key path) m.locks ≡ some info) × (info.csum ≡ csum))
        × (is_locked (release_lock m path csum now).0 other later ≡ false)
  unfolding release_lock release_if release_checks lock_key_and_path is_locked
  release_lock-unlocked m path other csum now later h k =
      let gone : get (lock_cache_key other) (release_lock m path csum now).0.locks ≡ none =
        ap (λ i. get i (release_lock m path csum now).0.locks) k
        ∙ release_if-gone m (lock_cache_key path) _ now _ h in
      (
        elim (Option-cases (get (lock_cache_key path) m.locks)) [
          | inl n ↦ absurd (ground (arith, h, n))
          | inr (info, n) ↦ (info, n, ground (arith, h, n, bytes_eq_iff info.csum csum))
        ],
        rw (is_locked, gone) refl,
      )
