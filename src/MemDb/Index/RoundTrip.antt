-- ===== src/MemDb/Index/RoundTrip.antt =====
-- `MemDbIndex::serialize` and `deserialize` of index.rs, one after the other.
use pve_cluster.Prelude.{
  ℕ, ◌+◌, ◌*◌, ◌^◌, ◌<◌, ◌≤◌, ◌≡◌, refl, ap, ◌∙◌, sym, List, [], ◌∷◌, ◌++◌, arith, length, drop,
  All, append_assoc, length-append, le→ltb, append-nil, length-drop,
}
use pve_cluster.Bytes.{Bytes, to_le, length-to_le}
use pve_cluster.Bytes.Slices.{drop_next, drop_le, slice_at, get_le_at}
use pve_cluster.MemDb.Index.{
  IndexEntry, MemDbIndex, ok, serialize_entry, serialize_entries, serialize, deserialize_entry,
  deserialize_entries, deserialize,
}

-- The values fit their fields.
abbrev pub EntryFits : IndexEntry → Type 0
EntryFits e = (e.inode < 256 ^ 8) × (length e.digest ≡ 32)

pub record Fits (i : MemDbIndex) : Type 0 where
  pub version : i.version < 256 ^ 8
  pub last_inode : i.last_inode < 256 ^ 8
  pub writer : i.writer < 256 ^ 4
  pub mtime : i.mtime < 256 ^ 4
  pub size : i.size ≡ length i.entries
  pub bytes : i.bytes ≡ 32 + i.size * 40
  pub bytes_fit : i.bytes < 256 ^ 4
  pub entries : All EntryFits i.entries

length-serialize_entry : (e : IndexEntry) → EntryFits e → length (serialize_entry e) ≡ 40
unfolding serialize_entry
length-serialize_entry e f =
    omega (arith, length-append (to_le 8 e.inode) e.digest, length-to_le 8 e.inode)

length-serialize_entries :
    (es : List IndexEntry) → All EntryFits es → length (serialize_entries es) ≡ length es * 40
unfolding serialize_entries
length-serialize_entries [] f = refl
length-serialize_entries (e ∷ es) f = omega (
  arith,
  length-append (serialize_entry e) (serialize_entries es),
  length-serialize_entry e f.0,
  length-serialize_entries es f.1,
)

deserialize_entry-serialize :
    (e : IndexEntry) → EntryFits e → deserialize_entry (serialize_entry e) ≡ ok e
unfolding deserialize_entry
deserialize_entry-serialize e f =
    let bs = serialize_entry e in
    let d0 : drop 0 bs ≡ to_le 8 e.inode ++ e.digest = unfold serialize_entry in refl in
    let d8 = drop_le bs 0 8 e.inode e.digest 8 d0 refl in
    rw (le→ltb (length bs) 40 (omega (arith, length-serialize_entry e f))) (λ i. ok (record {
      inode = get_le_at bs 0 8 e.inode e.digest d0 f.0 i;
      digest = slice_at bs 8 e.digest [] (d8 ∙ sym (append-nil e.digest)) f.1 i;
    }))

deserialize_entries-serialize :
    (es : List IndexEntry) (bs rest : Bytes) (offset : ℕ)
    → All EntryFits es
    → drop offset bs ≡ serialize_entries es ++ rest
    → offset + length es * 40 ≤ length bs
    → deserialize_entries (length es) offset bs ≡ ok es
unfolding deserialize_entries serialize_entries
deserialize_entries-serialize [] bs rest offset f d h = refl
deserialize_entries-serialize (e ∷ es) bs rest offset f d h =
    let d' : drop offset bs ≡ serialize_entry e ++ (serialize_entries es ++ rest) =
      d ∙ append_assoc (serialize_entry e) (serialize_entries es) rest in
    let here = slice_at bs offset (serialize_entry e) _ d' (length-serialize_entry e f.0) in
    let next =
      drop_next bs offset (serialize_entry e) _ (offset + 40) d'
        (omega (arith, length-serialize_entry e f.0)) in
    ground (
      arith,
      le→ltb (length bs) (offset + 40) (omega arith),
      here,
      deserialize_entry-serialize e f.0,
      deserialize_entries-serialize es bs rest (offset + 40) f.1 next (omega arith),
    )

flat :
    (i : MemDbIndex) (rest : Bytes)
    → serialize i ++ rest
      ≡ to_le 8 i.version
        ++ (to_le 8 i.last_inode
            ++ (to_le 4 i.writer
                ++ (to_le 4 i.mtime
                    ++ (to_le 4 i.size
                        ++ (to_le 4 i.bytes ++ (serialize_entries i.entries ++ rest))))))
unfolding serialize
flat i rest = simp append_assoc

-- An index whose values fit their fields, and whose counts are those of its entries, is read back
-- from its serialization, whatever follows it.
pub deserialize-serialize :
    (i : MemDbIndex) (rest : Bytes) → Fits i → deserialize (serialize i ++ rest) ≡ ok i
unfolding deserialize
deserialize-serialize i rest f =
    let bs = serialize i ++ rest in
    let body = serialize_entries i.entries ++ rest in
    let d0 = flat i rest in
    let d8 = drop_le bs 0 8 i.version _ 8 d0 refl in
    let d16 = drop_le bs 8 8 i.last_inode _ 16 d8 refl in
    let d20 = drop_le bs 16 4 i.writer _ 20 d16 refl in
    let d24 = drop_le bs 20 4 i.mtime _ 24 d20 refl in
    let d28 = drop_le bs 24 4 i.size _ 28 d24 refl in
    let d32 = drop_le bs 28 4 i.bytes body 32 d28 refl in
    let len : length bs ≡ 32 + length i.entries * 40 + length rest = omega (
      arith,
      length-drop 28 bs,
      ap length d28,
      length-append (to_le 4 i.bytes) body,
      length-to_le 4 i.bytes,
      length-append (serialize_entries i.entries) rest,
      length-serialize_entries i.entries f.entries,
    ) in
    let size_read = get_le_at bs 24 4 i.size _ d24 (omega (arith, f.bytes, f.bytes_fit)) in
    let bytes_read = get_le_at bs 28 4 i.bytes body d28 f.bytes_fit in
    let entries_read =
      deserialize_entries-serialize i.entries bs rest 32 f.entries d32 (omega (arith, len)) in
    ground (
      arith,
      len,
      get_le_at bs 0 8 i.version _ d0 f.version,
      get_le_at bs 8 8 i.last_inode _ d8 f.last_inode,
      get_le_at bs 16 4 i.writer _ d16 f.writer,
      get_le_at bs 20 4 i.mtime _ d20 f.mtime,
      size_read,
      bytes_read,
      entries_read,
      f.size,
    )
