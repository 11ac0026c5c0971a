-- ===== src/MemDb/Index.antt =====
-- src/pmxcfs-rs/pmxcfs-memdb/src/index.rs: the index that nodes exchange to compare their databases.
pub mod RoundTrip
pub mod Differences
use Prim.Native.Nat.{compare, Ordering, suc}
use pve_cluster.Prelude.{
  zero, suc, ℕ, ◌+◌, ◌*◌, ◌%◌, ◌^◌, Bool, ◌&&◌, List, [], ◌∷◌, ◌++◌, ltb, leb, ◌==◌, if◌then◌else◌,
  length, not, false,
}
use pve_cluster.Bytes.{Bytes, to_le, bytes_eq}
use pve_cluster.Bytes.Slices.{slice, get_le}
use pve_cluster.MemDb.External.{External}

pub data WireError : Type 0 where
  too_short bytes_mismatch invalid_type not_terminated invalid_utf8 : WireError
  -- A slice out of range, where the source panics.
  out_of_range : WireError

pub data Decoded {ℓ} (A : Type ℓ) : Type ℓ where
  ok : A → Decoded A
  err : WireError → Decoded A

infixl 5 ◌>>=◌
abbrev pub ◌>>=◌ {ℓ κ} : {A : Type ℓ} {B : Type κ} → Decoded A → (A → Decoded B) → Decoded B
ok a >>= f = f a
err e >>= f = err e

pub record IndexEntry : Type 0 where
  pub inode : ℕ
  pub digest : Bytes

unfoldable pub serialize_entry : IndexEntry → Bytes
serialize_entry e = to_le 8 e.inode ++ e.digest

unfoldable pub deserialize_entry : Bytes → Decoded IndexEntry
deserialize_entry bs =
    if ltb (length bs) 40
    then err too_short
    else ok (record { inode = get_le bs 0 8; digest = slice bs 8 32 })

pub record MemDbIndex : Type 0 where
  pub version : ℕ
  pub last_inode : ℕ
  pub writer : ℕ
  pub mtime : ℕ
  pub size : ℕ
  pub bytes : ℕ
  pub entries : List IndexEntry

-- `entries.sort_by_key(|e| e.inode)` is stable.
unfoldable pub insert_by_inode : IndexEntry → List IndexEntry → List IndexEntry
insert_by_inode e [] = e ∷ []
insert_by_inode e (f ∷ fs) = if leb e.inode f.inode then e ∷ (f ∷ fs) else f ∷ insert_by_inode e fs

unfoldable pub sort_by_inode : List IndexEntry → List IndexEntry
sort_by_inode [] = []
sort_by_inode (e ∷ es) = insert_by_inode e (sort_by_inode es)

-- The u32 arithmetic on the number of entries wraps.
abbrev pub index_bytes : ℕ → ℕ
index_bytes size = (32 + size * 40) % 2 ^ 32

unfoldable pub new : ℕ → ℕ → ℕ → ℕ → List IndexEntry → MemDbIndex
new version last_inode writer mtime entries = record {
  version = version;
  last_inode = last_inode;
  writer = writer;
  mtime = mtime;
  size = length entries % 2 ^ 32;
  bytes = index_bytes (length entries % 2 ^ 32);
  entries = sort_by_inode entries;
}

unfoldable pub serialize_entries : List IndexEntry → Bytes
serialize_entries [] = []
serialize_entries (e ∷ es) = serialize_entry e ++ serialize_entries es

unfoldable pub serialize : MemDbIndex → Bytes
serialize i =
    to_le 8 i.version
    ++ (to_le 8 i.last_inode
        ++ (to_le 4 i.writer
            ++ (to_le 4 i.mtime
                ++ (to_le 4 i.size ++ (to_le 4 i.bytes ++ serialize_entries i.entries)))))

-- The loop `for _ in 0..size` from `offset` on.
unfoldable pub deserialize_entries : ℕ → ℕ → Bytes → Decoded (List IndexEntry)
unfolding deserialize_entry
deserialize_entries zero offset bs = ok []
deserialize_entries (suc n) offset bs =
    let rest = deserialize_entries n (offset + 40) bs in
    if ltb (length bs) (offset + 40)
    then err out_of_range
    else (deserialize_entry (slice bs offset 40) >>= λ e. rest >>= λ es. ok (e ∷ es))

unfoldable pub deserialize : Bytes → Decoded MemDbIndex
deserialize bs =
    let size = get_le bs 24 4 in
    let bytes = get_le bs 28 4 in
    if ltb (length bs) 32
    then err too_short
    else (if not (bytes == index_bytes size)
        then err bytes_mismatch
        else (if ltb (length bs) bytes
            then err too_short
            else (deserialize_entries size 32 bs >>= λ es. ok (record {
              version = get_le bs 0 8;
              last_inode = get_le bs 8 8;
              writer = get_le bs 16 4;
              mtime = get_le bs 20 4;
              size = size;
              bytes = bytes;
              entries = es;
            }))))

-- `compute_entry_digest`; native byte order is little-endian. The inode is not digested.
unfoldable pub compute_entry_digest :
    External → (inode parent version writer mtime size entry_type : ℕ) → Bytes → Bytes → Bytes
compute_entry_digest x inode parent version writer mtime size entry_type name content = x.sha256 (
    to_le 8 version
    ++ (to_le 4 writer
        ++ (to_le 4 mtime
            ++ (to_le 4 (size % 2 ^ 32)
                ++ (to_le 1 entry_type
                    ++ (to_le 8 parent
                        ++ (name ++ (if entry_type == 8 && ltb 0 size then content else []))))))))

-- `Ord for MemDbIndex`: by version, then by mtime.
unfoldable pub cmp : MemDbIndex → MemDbIndex → Ordering
cmp a b = elim (compare a.version b.version) [
  | Ordering.eq ↦ compare a.mtime b.mtime
  | Ordering.lt ↦ Ordering.lt
  | Ordering.gt ↦ Ordering.gt
]

-- `while j < other.entries.len() && other.entries[j].inode < inode { j += 1 }`, on the entries from
-- `j` on.
unfoldable pub advance : ℕ → List IndexEntry → List IndexEntry
advance inode [] = []
advance inode (s ∷ ss) = if ltb s.inode inode then advance inode ss else s ∷ ss

abbrev pub same_entry : IndexEntry → IndexEntry → Bool
same_entry s e = (s.inode == e.inode) && bytes_eq s.digest e.digest

unfoldable pub head_matches : IndexEntry → List IndexEntry → Bool
head_matches e [] = false
head_matches e (s ∷ ss) = same_entry s e

unfoldable pub differences : List IndexEntry → List IndexEntry → List ℕ
differences [] ss = []
differences (e ∷ es) ss =
    let ss' = advance e.inode ss in
    let rest = differences es ss' in if head_matches e ss' then rest else e.inode ∷ rest

unfoldable pub find_differences : MemDbIndex → MemDbIndex → List ℕ
unfolding differences
find_differences master slave = differences master.entries slave.entries
