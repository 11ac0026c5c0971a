-- ===== src/MemDb/State.antt =====
-- src/pmxcfs-rs/pmxcfs-memdb/src/database.rs: the state `MemDbInner` and the operations that only
-- read it. The mutexes are not modelled: an operation holds the write guard from its checks to its
-- end, or (`set_mtime`, `delete`, `rename`) is taken as running alone.
use pve_cluster.Prelude.{
  ℕ, ◌+◌, ◌-◌, ◌/◌, min, Bool, true, false, not, Option, none, some, List, [], ◌∷◌, leb,
  if◌then◌else◌, length, take, drop,
}
use pve_cluster.Bytes.{Bytes}
use pve_cluster.Map.{get, nat_eq, bytes_key}
use pve_cluster.MemDb.Types.{
  TreeEntry, LockInfo, Result, ok, err, Error, is_dir, is_file, root_inode, memdb_max_fssize,
  memdb_max_inodes, file_not_found, is_directory, not_a_directory, structure_corrupted,
  root_not_found, dt_reg, version_filename,
}
use pve_cluster.MemDb.External.{External}
use pve_cluster.MemDb.Paths.{is_root_path, parts}

-- `ok_or_else`.
abbrev pub or_fail {ℓ} : {A : Type ℓ} → Option A → Error → Result A
or_fail (some a) e = ok a
or_fail none e = err e

-- `if !test { return Err(e) }`.
abbrev pub guard : (test : Bool) → Error → Result (Unit {0})
guard false e = err e
guard true e = ok tt

-- The operator `?`.
infixl 5 ◌>>=◌ ◌>>◌
abbrev pub ◌>>=◌ {ℓ₀ ℓ₁} : {A : Type ℓ₀} {R : Type ℓ₁} → Result A → (A → Result R) → Result R
err e >>= rest = err e
ok a >>= rest = rest a

abbrev pub ◌>>◌ {ℓ₁} : {R : Type ℓ₁} → Result (Unit {0}) → Result R → Result R
test >> rest = test >>= λ _. rest

abbrev pub Index : Type 0
Index = List (ℕ × TreeEntry)

abbrev pub Children : Type 0
Children = List (Bytes × ℕ)

abbrev pub Tree : Type 0
Tree = List (ℕ × Children)

pub record MemDb (x : External) : Type 0 where
  pub conn : x.Conn
  pub index : Index
  pub tree : Tree
  pub version : ℕ
  pub locks : List (Bytes × LockInfo)
  pub errors : Bool

-- The loop of `lookup_path` over the parts of the path.
unfoldable pub walk : Tree → List Bytes → ℕ → Option ℕ
walk t [] i = some i
walk t (p ∷ ps) i = elim (get i t) [
  | none ↦ none
  | some children ↦ elim (get p children) [ none ↦ none | some j ↦ walk t ps j ]
]

-- The sum of the sizes of the regular files.
unfoldable pub total_size : Index → ℕ
total_size [] = 0
total_size ((i, e) ∷ m) = (if is_file e then e.size else 0) + total_size m

unfoldable pub children_entries : Children → Index → List TreeEntry
children_entries [] index = []
children_entries ((n, i) ∷ cs) index = elim (get i index) [
  | none ↦ children_entries cs index
  | some e ↦ e ∷ children_entries cs index
]

module _ {x : External} (m : MemDb x) where
  unfoldable pub get_entry_by_inode : ℕ → Option TreeEntry
  get_entry_by_inode i = get i m.index

  -- `get_version_entry`.
  unfoldable pub get_version_entry : Result TreeEntry
  get_version_entry = do
    root ← or_fail (get root_inode m.index) root_not_found
    ok (record {
      inode = root_inode;
      parent = root_inode;
      version = root.version;
      writer = root.writer;
      mtime = root.mtime;
      size = 0;
      entry_type = dt_reg;
      name = version_filename;
      content = [];
    })

  -- The inode that a path leads to.
  unfoldable pub resolve : Bytes → Option ℕ
  resolve path = if is_root_path path then some root_inode else walk m.tree (parts path) root_inode

  unfoldable pub lookup_path : Bytes → Option TreeEntry
  unfolding resolve
  lookup_path path = elim (resolve path) [ none ↦ none | some i ↦ get i m.index ]

  unfoldable pub exists : Bytes → Bool
  exists path = elim (lookup_path path) [ none ↦ false | some e ↦ true ]

  unfoldable pub read : Bytes → ℕ → ℕ → Result Bytes
  read path offset size = do
    entry ← or_fail (lookup_path path) file_not_found
    guard (not (is_dir entry)) is_directory
    let n = length entry.content
    ok (
        if leb n offset
        then []
        else take (min (offset + size) n - offset) (drop offset entry.content))

  unfoldable pub readdir : Bytes → Result (List TreeEntry)
  unfolding children_entries
  readdir path = do
    entry ← or_fail (lookup_path path) file_not_found
    guard (is_dir entry) not_a_directory
    children ← or_fail (get entry.inode m.tree) structure_corrupted
    ok (children_entries children m.index)

  -- `statfs`: blocks, bfree, bavail, files, ffree; `saturating_sub` is the subtraction of ℕ.
  unfoldable pub statfs : ℕ × ℕ × ℕ × ℕ × ℕ
  statfs =
      let blocks = memdb_max_fssize / 4096 in
      let used = (total_size m.index + 4096 - 1) / 4096 in
      let bfree = blocks - used in
      (blocks, bfree, bfree, memdb_max_inodes, memdb_max_inodes - length m.index)
