-- ===== src/Cluster/Callbacks.antt =====
-- src/pmxcfs-rs/pmxcfs/src/memdb_callbacks.rs: what the state machine of the database group asks of the
-- database. What is handed back to the group is kept in `outbox`; the clock is an argument.
pub mod Mirrored
pub mod Followers
pub mod Tests
use pve_cluster.Prelude.{
  ℕ, none, some, [], ◌∷◌, true, false, Option, Bool, List, ◌++◌, ◌%◌, ◌^◌, if◌then◌else◌, ◌==◌,
  ◌&&◌, ◌||◌, not, length,
}
use pve_cluster.Bytes.{Bytes, codes, bytes_eq}
use pve_cluster.MemDb.Types.{TreeEntry, Result, ok, err, is_dir, root_inode}
use pve_cluster.MemDb.External.{External}
use pve_cluster.MemDb.Paths.{starts_with, trim_start, is_lock_path}
use pve_cluster.MemDb.State.{MemDb, exists, lookup_path, get_entry_by_inode}
use pve_cluster.MemDb.Create.{create, s_ifdir, lock_expired, compute_checksum}
use pve_cluster.MemDb.Write.{write}
use pve_cluster.MemDb.Remove.{set_mtime, delete, rename}
use pve_cluster.MemDb.Replicate.{apply_tree_entry}
use pve_cluster.MemDb.Encode.{encode_index}
use pve_cluster.MemDb.Index.{serialize, Decoded, MemDbIndex, find_differences}
use pve_cluster.MemDb.Index
use pve_cluster.MemDb.Update.{deserialize_from_update}
use pve_cluster.MemDb.VmList.{recreate_vmlist}
use pve_cluster.Status.{
  Status, increment_path_version, increment_vmlist_version, increment_all_path_versions,
}
use pve_cluster.Status.Vms.{scan_vmlist}
use pve_cluster.Cluster.Leader.{Member}
use pve_cluster.Dfsm.Fuse
use pve_cluster.Dfsm.Fuse.{FuseMessage}
use pve_cluster.Dfsm.Machine.{ℤ, pos, negsuc}

-- What is given to the state machine to be sent.
pub data Output : Type 0 where
  broadcast : FuseMessage → Output
  send_update : TreeEntry → Output
  send_update_complete : Output

pub record App (x : External) : Type 0 where
  pub memdb : MemDb x
  pub status : Status
  pub outbox : List Output

-- `-libc::EACCES` and `-libc::ENOENT`.
abbrev pub minus_eacces : ℤ
minus_eacces = negsuc 12

abbrev pub minus_enoent : ℤ
minus_enoent = negsuc 1

abbrev of_vm_dir : Bytes → Bool
of_vm_dir path = starts_with (codes "qemu-server/") path || starts_with (codes "lxc/") path

unfoldable pub update_version_counters : Bytes → Status → Status
update_version_counters path s =
    let trimmed = trim_start path in
    let counted = increment_path_version trimmed s in
    if of_vm_dir trimmed then increment_vmlist_version counted else counted

abbrev is_done : ℤ → Bool
is_done (pos n) = true
is_done (negsuc n) = false

-- The followers that are passed over: the entries are not compared.
unfoldable pub is_alike : MemDbIndex → MemDbIndex → Bool
is_alike follower leader =
    (follower.version == leader.version)
    && ((follower.mtime == leader.mtime)
        && ((follower.size == leader.size) && (length follower.entries == length leader.entries)))

unfoldable pub has : ℕ → List ℕ → Bool
has i [] = false
has i (j ∷ js) = if i == j then true else has i js

-- `HashSet::extend`, in some order.
unfoldable pub extend : List ℕ → List ℕ → List ℕ
extend [] inodes = inodes
extend (i ∷ is) inodes = extend is (if has i inodes then inodes else i ∷ inodes)

unfoldable pub inodes_to_update : MemDbIndex → List Member → List ℕ → List ℕ
inodes_to_update leader [] inodes = inodes
inodes_to_update leader (m ∷ ms) inodes =
    inodes_to_update leader ms
      (if is_alike m.index leader then inodes else extend (find_differences leader m.index) inodes)

abbrev update_of : Option TreeEntry → List Output
update_of none = []
update_of (some entry) = send_update entry ∷ []

module _ {x : External} where
  -- The errno of an outcome; a success counts up the version of the path.
  abbrev counted : {A : Type 0} → Bytes → MemDb x × Result A → App x → App x × ℤ
  counted path (db, ok a) s =
      (record s { memdb = db; status = update_version_counters path s.status }, pos 0)
  counted path (db, err e) s = (record s { memdb = db }, minus_eacces)

  unfoldable pub handle_create : Bytes → (mtime now : ℕ) → App x → App x × ℤ
  handle_create path mtime now s = counted path (create s.memdb path 0 0 mtime now) s

  unfoldable pub handle_mkdir : Bytes → (mtime now : ℕ) → App x → App x × ℤ
  handle_mkdir path mtime now s = counted path (create s.memdb path s_ifdir 0 mtime now) s

  abbrev pub write_bytes : Bytes → (offset mtime : ℕ) → Bytes → App x → App x × ℤ
  write_bytes path offset mtime [] s = (s, pos 0)
  write_bytes path offset mtime (c ∷ cs) s =
      counted path (write s.memdb path offset 0 mtime (c ∷ cs) false) s

  abbrev pub write_created :
      {A : Type 0} → Bytes → (offset mtime : ℕ) → Bytes → MemDb x × Result A → App x → App x × ℤ
  write_created path offset mtime content (db, ok a) s =
      write_bytes path offset mtime content (record s { memdb = db })
  write_created path offset mtime content (db, err e) s = (record s { memdb = db }, minus_eacces)

  -- A file that does not exist is created first.
  unfoldable pub handle_write : Bytes → (offset mtime now : ℕ) → Bytes → App x → App x × ℤ
  handle_write path offset mtime now content s =
      if exists s.memdb path
      then write_bytes path offset mtime content s
      else write_created path offset mtime content (create s.memdb path 0 0 mtime now) s

  unfoldable pub handle_delete : Bytes → (now : ℕ) → App x → App x × ℤ
  handle_delete path now s =
      if exists s.memdb path
      then counted path (delete s.memdb path 0 (now % 2 ^ 32)) s
      else (s, pos 0)

  abbrev counted_too : Bytes → App x × ℤ → App x × ℤ
  counted_too path (s, pos n) = (record s { status = update_version_counters path s.status }, pos n)
  counted_too path (s, negsuc n) = (s, negsuc n)

  unfoldable pub handle_rename : (from to : Bytes) → (now : ℕ) → App x → App x × ℤ
  handle_rename from to now s =
      if exists s.memdb from
      then counted_too to (counted from (rename s.memdb from to 0 (now % 2 ^ 32)) s)
      else (s, minus_enoent)

  unfoldable pub handle_mtime : Bytes → (nodeid mtime now : ℕ) → App x → App x × ℤ
  handle_mtime path nodeid mtime now s =
      if exists s.memdb path
      then counted path (set_mtime s.memdb path nodeid mtime now) s
      else (s, minus_enoent)

  abbrev sent_if_expired : Bytes → MemDb x × Bool → App x → App x
  sent_if_expired path (db, expired) s = record s {
    memdb = db;
    outbox = if expired then s.outbox ++ (broadcast (Fuse.unlock path) ∷ []) else s.outbox;
  }

  abbrev check_lock : Bytes → (now : ℕ) → Option TreeEntry → App x → App x
  check_lock path now none s = s
  check_lock path now (some entry) s =
      if is_dir entry && is_lock_path path
      then sent_if_expired path (lock_expired s.memdb path (compute_checksum x entry) now) s
      else s

  -- Whether the state machine is there, and whether it leads.
  unfoldable pub handle_unlock_request : Option Bool → Bytes → (now : ℕ) → App x → App x
  handle_unlock_request none path now s = s
  handle_unlock_request (some false) path now s = s
  handle_unlock_request (some true) path now s = check_lock path now (lookup_path s.memdb path) s

  unfoldable pub handle_unlock : Bytes → (now : ℕ) → App x → App x
  handle_unlock path now s = (counted path (delete s.memdb path 0 (now % 2 ^ 32)) s).0

  abbrev done : App x × ℤ → App x × (ℤ × Bool)
  done (s, result) = (s, (result, is_done result))

  unfoldable pub deliver_message :
      Option Bool → (nodeid now : ℕ) → FuseMessage → (timestamp : ℕ) → App x → App x × (ℤ × Bool)
  deliver_message leads nodeid now (Fuse.create path) timestamp s =
      done (handle_create path (timestamp % 2 ^ 32) now s)
  deliver_message leads nodeid now (Fuse.mkdir path) timestamp s =
      done (handle_mkdir path (timestamp % 2 ^ 32) now s)
  deliver_message leads nodeid now (Fuse.write path offset content) timestamp s =
      done (handle_write path offset (timestamp % 2 ^ 32) now content s)
  deliver_message leads nodeid now (Fuse.delete path) timestamp s = done (handle_delete path now s)
  deliver_message leads nodeid now (Fuse.rename from to) timestamp s =
      done (handle_rename from to now s)
  deliver_message leads nodeid now (Fuse.mtime path mtime) timestamp s =
      done (handle_mtime path nodeid mtime now s)
  deliver_message leads nodeid now (Fuse.unlock_request path) timestamp s =
      (handle_unlock_request leads path now s, (pos 0, true))
  deliver_message leads nodeid now (Fuse.unlock path) timestamp s =
      (handle_unlock path now s, (pos 0, true))

  abbrev sent_state : App x → MemDb x × Result MemDbIndex → App x × Result Bytes
  sent_state s (db, ok index) = (record s { memdb = db }, ok (serialize index))
  sent_state s (db, err e) = (record s { memdb = db }, err e)

  unfoldable pub get_state : App x → App x × Result Bytes
  get_state s = sent_state s (encode_index s.memdb)

  abbrev applied : Decoded TreeEntry → App x → App x × Bool
  applied (Index.ok e) s = applied_as (apply_tree_entry s.memdb e)
    where
      applied_as : MemDb x × Result (Unit {0}) → App x × Bool
      applied_as (db, ok u) = (record s { memdb = db }, true)
      applied_as (db, err e) = (record s { memdb = db }, false)
  applied (Index.err e) s = (s, false)

  unfoldable pub process_update : Bytes → App x → App x × Bool
  process_update bs s = applied (deserialize_from_update bs) s

  unfoldable pub commit_state : App x → App x
  commit_state s = record s {
    status = scan_vmlist (some (recreate_vmlist s.memdb)) (increment_all_path_versions s.status);
  }

  unfoldable pub updates : MemDb x → List ℕ → List Output
  updates m [] = send_update_complete ∷ []
  updates m (i ∷ is) =
      if i == root_inode then updates m is else update_of (get_entry_by_inode m i) ++ updates m is

  -- Where the group service takes each message.
  unfoldable pub send_updates_to_followers : MemDbIndex → List Member → App x → App x
  send_updates_to_followers leader members s = record s {
    outbox = s.outbox ++ updates s.memdb (inodes_to_update leader members []);
  }
