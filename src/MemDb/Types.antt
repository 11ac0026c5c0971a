-- ===== src/MemDb/Types.antt =====
-- src/pmxcfs-rs/pmxcfs-memdb/src/types.rs: limits, tree entries, lock records, and the errors of the
-- crate, one constructor for each message that the source can return.
use pve_cluster.Prelude.{ℕ, ◌*◌, Bool, ◌++◌, ◌==◌}
use pve_cluster.Bytes.{Bytes, codes, to_le}

abbrev pub memdb_max_file_size : ℕ
memdb_max_file_size = 1024 * 1024

abbrev pub memdb_max_fssize : ℕ
memdb_max_fssize = 128 * 1024 * 1024

abbrev pub memdb_max_inodes : ℕ
memdb_max_inodes = 256 * 1024

abbrev pub lock_timeout : ℕ
lock_timeout = 120

abbrev pub dt_dir : ℕ
dt_dir = 4

abbrev pub dt_reg : ℕ
dt_reg = 8

abbrev pub root_inode : ℕ
root_inode = 0

abbrev pub version_filename : Bytes
version_filename = codes "__version__"

abbrev pub lock_dir_path : Bytes
lock_dir_path = codes "priv/lock"

pub record LockInfo : Type 0 where
  pub ltime : ℕ
  pub csum : Bytes

pub record TreeEntry : Type 0 where
  pub inode : ℕ
  pub parent : ℕ
  pub version : ℕ
  pub writer : ℕ
  pub mtime : ℕ
  pub size : ℕ
  pub entry_type : ℕ
  pub name : Bytes
  pub content : Bytes

abbrev pub is_dir : TreeEntry → Bool
is_dir e = e.entry_type == dt_dir

abbrev pub is_file : TreeEntry → Bool
is_file e = e.entry_type == dt_reg

-- What `compute_checksum` feeds to SHA-256. The integers are in native order, here little-endian.
unfoldable pub checksum_input : TreeEntry → Bytes
checksum_input e =
    to_le 8 e.inode
    ++ (to_le 8 e.version
        ++ (to_le 4 e.writer
            ++ (to_le 4 e.mtime
                ++ (to_le 4 e.size
                    ++ (to_le 1 e.entry_type ++ (to_le 8 e.parent ++ (e.name ++ e.content)))))))

pub data Error : Type 0 where
  database_has_errors begin_failed version_update_failed mutation_failed commit_failed : Error
  file_exists empty_path access_denied parent_not_found parent_not_directory : Error
  too_many_inodes file_not_found is_directory not_a_directory offset_overflow : Error
  file_too_large filesystem_too_large filesystem_overflow cannot_change_root : Error
  directory_not_empty structure_corrupted lock_older_mtime lock_wrong_owner : Error
  lock_held lock_name_missing lock_path_traversal lock_mismatch lock_not_found : Error
  root_not_found root_begin_failed root_update_failed root_commit_failed : Error

pub data Result {ℓ} (A : Type ℓ) : Type ℓ where
  ok : A → Result A
  err : Error → Result A
