-- ===== src/Cluster/Callbacks/Mirrored.antt =====
-- The messages that memdb_callbacks.rs delivers and the table of SQLite.
use pve_cluster.Prelude.{
  ℕ, refl, ◌+◌, ◌<◌, ◌^◌, ◌%◌, Option, none, some, Bool, true, false, [], ◌∷◌, ◌&&◌, if◌then◌else◌,
  Bool-cases, inl, inr, Option-cases,
}
use pve_cluster.Map.{get, bytes_key}
use pve_cluster.Bytes.{Bytes, bytes_eq}
use pve_cluster.MemDb.Types.{Result, ok, err, TreeEntry, is_dir}
use pve_cluster.MemDb.External.{External}
use pve_cluster.MemDb.Paths.{is_lock_path, lock_cache_key}
use pve_cluster.MemDb.State.{MemDb, exists, lookup_path}
use pve_cluster.MemDb.Create.{lock_expired, compute_checksum, s_ifdir}
use pve_cluster.MemDb.Write.{write}
use pve_cluster.MemDb.Mirror.{IsMirrored}
use pve_cluster.MemDb.Mirror.Steps.{write_if-IsMirrored}
use pve_cluster.MemDb.Mirror.History.{
  step, step-IsMirrored, MovesAway, create_at, delete_at, rename_at, set_mtime_at,
}
use pve_cluster.Cluster.Callbacks.{
  App, deliver_message, handle_create, handle_mkdir, handle_write, handle_delete, handle_rename,
  handle_mtime, handle_unlock, handle_unlock_request, counted, counted_too, write_bytes,
  write_created, check_lock,
}
use pve_cluster.Dfsm.Fuse
use pve_cluster.Dfsm.Fuse.{FuseMessage}
use pve_cluster.Dfsm.Machine.{ℤ, pos, negsuc}

module _ {x : External} where
  -- A rename does not lead onto its own source or onto the root.
  abbrev pub LeadsAway : App x → FuseMessage → Type 0
  LeadsAway s (Fuse.rename from to) = MovesAway s.memdb (rename_at from to 0 0)
  LeadsAway s message = Unit {0}

  counted-IsMirrored :
      {A : Type 0} (path : Bytes) (r : MemDb x × Result A) (s : App x)
      → IsMirrored r.0
      → IsMirrored (counted path r s).0.memdb
  counted-IsMirrored path (db, ok a) s h = h
  counted-IsMirrored path (db, err e) s h = h

  counted_too-IsMirrored :
      (path : Bytes) (r : App x × ℤ)
      → IsMirrored r.0.memdb
      → IsMirrored (counted_too path r).0.memdb
  counted_too-IsMirrored path (s, pos n) h = h
  counted_too-IsMirrored path (s, negsuc n) h = h

  write_bytes-IsMirrored :
      (path : Bytes) (offset mtime : ℕ) (content : Bytes) (s : App x)
      → IsMirrored s.memdb
      → IsMirrored (write_bytes path offset mtime content s).0.memdb
  unfolding write
  write_bytes-IsMirrored path offset mtime [] s h = h
  write_bytes-IsMirrored path offset mtime (c ∷ cs) s h =
      counted-IsMirrored path _ s
        (write_if-IsMirrored s.memdb path offset 0 mtime (c ∷ cs) false _ refl h)

  write_created-IsMirrored :
      {A : Type 0} (path : Bytes) (offset mtime : ℕ) (content : Bytes) (r : MemDb x × Result A)
      (s : App x)
      → IsMirrored r.0
      → IsMirrored (write_created path offset mtime content r s).0.memdb
  write_created-IsMirrored path offset mtime content (db, ok a) s h =
      write_bytes-IsMirrored path offset mtime content (record s { memdb = db }) h
  write_created-IsMirrored path offset mtime content (db, err e) s h = h

  if-IsMirrored :
      (b : Bool) (r t : App x × ℤ)
      → IsMirrored r.0.memdb
      → IsMirrored t.0.memdb
      → IsMirrored (if b then r else t).0.memdb
  if-IsMirrored true r t h k = h
  if-IsMirrored false r t h k = k

  handle_write-IsMirrored :
      (path : Bytes) (offset mtime now : ℕ) (content : Bytes) (s : App x)
      → s.memdb.version + 1 < 2 ^ 64
      → IsMirrored s.memdb
      → IsMirrored (handle_write path offset mtime now content s).0.memdb
  unfolding handle_write step
  handle_write-IsMirrored path offset mtime now content s v h =
      if-IsMirrored (exists s.memdb path) _ _ (write_bytes-IsMirrored path offset mtime content s h)
        (write_created-IsMirrored path offset mtime content _ s
          (step-IsMirrored s.memdb (create_at path 0 0 mtime now) v tt h))

  lock_expired-IsMirrored :
      (m : MemDb x) (path csum : Bytes) (now : ℕ)
      → IsMirrored m
      → IsMirrored (lock_expired m path csum now).0
  unfolding lock_expired
  lock_expired-IsMirrored m path csum now h =
      elim (Option-cases (get (lock_cache_key path) m.locks)) [
        | inl z ↦ rw (lock_expired, z) h
        | inr (info, z) ↦ elim (Bool-cases (bytes_eq info.csum csum)) [
          | inl t ↦ rw (lock_expired, z, t) h
          | inr f ↦ rw (lock_expired, z, f) h
        ]
      ]

  handle_unlock_request-IsMirrored :
      (leads : Option Bool) (path : Bytes) (now : ℕ) (s : App x)
      → IsMirrored s.memdb
      → IsMirrored (handle_unlock_request leads path now s).memdb
  unfolding handle_unlock_request
  handle_unlock_request-IsMirrored none path now s h = h
  handle_unlock_request-IsMirrored (some false) path now s h = h
  handle_unlock_request-IsMirrored (some true) path now s h = checked (lookup_path s.memdb path)
    where
      checked : (o : Option TreeEntry) → IsMirrored (check_lock path now o s).memdb
      checked none = h
      checked (some entry) = elim (Bool-cases (is_dir entry && is_lock_path path)) [
        | inl t ↦ rw t (lock_expired-IsMirrored s.memdb path (compute_checksum x entry) now h)
        | inr f ↦ rw f h
      ]

  -- If the table of SQLite mirrored the entries in memory before the delivery of a message, it does
  -- after it, whatever the message and its outcome. The version counter must not wrap, and a rename
  -- must not lead onto its own source or onto the root.
  pub deliver_message-IsMirrored :
      (leads : Option Bool) (nodeid now : ℕ) (message : FuseMessage) (timestamp : ℕ) (s : App x)
      → s.memdb.version + 1 < 2 ^ 64
      → LeadsAway s message
      → IsMirrored s.memdb
      → IsMirrored (deliver_message leads nodeid now message timestamp s).0.memdb
  unfolding deliver_message handle_create handle_mkdir handle_delete handle_rename handle_mtime
      handle_unlock step
  deliver_message-IsMirrored leads nodeid now (Fuse.create path) timestamp s v away h =
      counted-IsMirrored path _ s
        (step-IsMirrored s.memdb (create_at path 0 0 (timestamp % 2 ^ 32) now) v tt h)
  deliver_message-IsMirrored leads nodeid now (Fuse.mkdir path) timestamp s v away h =
      counted-IsMirrored path _ s
        (step-IsMirrored s.memdb (create_at path s_ifdir 0 (timestamp % 2 ^ 32) now) v tt h)
  deliver_message-IsMirrored leads nodeid now (Fuse.write path offset content) timestamp s v away
        h =
      handle_write-IsMirrored path offset (timestamp % 2 ^ 32) now content s v h
  deliver_message-IsMirrored leads nodeid now (Fuse.delete path) timestamp s v away h =
      if-IsMirrored (exists s.memdb path) _ _
        (counted-IsMirrored path _ s
          (step-IsMirrored s.memdb (delete_at path 0 (now % 2 ^ 32)) v tt h))
        h
  deliver_message-IsMirrored leads nodeid now (Fuse.rename from to) timestamp s v away h =
      if-IsMirrored (exists s.memdb from) _ _
        (counted_too-IsMirrored to _ (
          counted-IsMirrored from _ s
            (step-IsMirrored s.memdb (rename_at from to 0 (now % 2 ^ 32)) v away h)))
        h
  deliver_message-IsMirrored leads nodeid now (Fuse.mtime path mtime) timestamp s v away h =
      if-IsMirrored (exists s.memdb path) _ _
        (counted-IsMirrored path _ s
          (step-IsMirrored s.memdb (set_mtime_at path nodeid mtime now) v tt h))
        h
  deliver_message-IsMirrored leads nodeid now (Fuse.unlock_request path) timestamp s v away h =
      handle_unlock_request-IsMirrored leads path now s h
  deliver_message-IsMirrored leads nodeid now (Fuse.unlock path) timestamp s v away h =
      counted-IsMirrored path _ s (step-IsMirrored s.memdb (delete_at path 0 (now % 2 ^ 32)) v tt h)
