-- ===== src/MemDb/Mutation.antt =====
-- `with_mutation` of database.rs: a version bump, a transaction, and the root's metadata, one
-- function for what follows each fallible step. `create` and `write` hold
-- the same lines inline, behind their own checks; here they call `mutate`.
pub mod Outcome
pub mod Root
use pve_cluster.Prelude.{ℕ, ◌+◌, ◌%◌, ◌^◌, true, Option, none, some, if◌then◌else◌}
use pve_cluster.Map.{get, insert, nat_eq}
use pve_cluster.MemDb.Types.{
  Result, ok, err, root_inode, database_has_errors, begin_failed, version_update_failed,
  mutation_failed, commit_failed,
}
use pve_cluster.MemDb.External.{External, update_meta}
use pve_cluster.MemDb.State.{MemDb, Index}

-- `update_root_metadata`, and the block that repeats it inline.
unfoldable pub update_root_metadata : Index → ℕ → ℕ → ℕ → Index
update_root_metadata index version writer mtime = elim (get root_inode index) [
  | none ↦ index
  | some e ↦
      insert root_inode (record e { version = version; writer = writer; mtime = mtime }) index
]

-- What the closure of a mutation does inside the transaction, given the new version.
abbrev pub Body : External → Type 0 → Type 0
Body x R = x.Conn → ℕ → Option (R × x.Conn)

module _ {x : External} {R : Type 0} where
  unfoldable pub after_commit : MemDb x → ℕ → ℕ → R → Option x.Conn → MemDb x × Result R
  after_commit m writer mtime r none = (record m { errors = true }, err commit_failed)
  after_commit m writer mtime r (some conn) =
      (record m { conn = conn; index = update_root_metadata m.index m.version writer mtime }, ok r)

  unfoldable pub after_body : MemDb x → ℕ → ℕ → Option (R × x.Conn) → MemDb x × Result R
  after_body m writer mtime none = (record m { errors = true }, err mutation_failed)
  after_body m writer mtime (some (r, tx)) = after_commit m writer mtime r (x.commit tx)

  unfoldable pub after_meta : MemDb x → ℕ → ℕ → Body x R → Option x.Conn → MemDb x × Result R
  after_meta m writer mtime body none = (m, err version_update_failed)
  after_meta m writer mtime body (some tx) = after_body m writer mtime (body tx m.version)

  unfoldable pub after_begin : MemDb x → ℕ → ℕ → Body x R → Option x.Conn → MemDb x × Result R
  after_begin m writer mtime body none = (m, err begin_failed)
  after_begin m writer mtime body (some tx) =
      after_meta m writer mtime body (x.execute (update_meta m.version writer mtime root_inode) tx)

  -- `fetch_add` wraps at 64 bits.
  unfoldable pub mutate : MemDb x → ℕ → ℕ → Body x R → MemDb x × Result R
  mutate m writer mtime body =
      after_begin (record m { version = (m.version + 1) % 2 ^ 64 }) writer mtime body
        (x.begin m.conn)

  unfoldable pub with_mutation : MemDb x → ℕ → ℕ → Body x R → MemDb x × Result R
  with_mutation m writer mtime body =
      if m.errors then (m, err database_has_errors) else mutate m writer mtime body
