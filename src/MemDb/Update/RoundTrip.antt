-- ===== src/MemDb/Update/RoundTrip.antt =====
-- `serialize_for_update` and `deserialize_from_update` of types.rs, one after the other.
use pve_cluster.Prelude.{
  ◌+◌, ◌^◌, ◌<◌, ◌≡◌, ◌⊎◌, refl, ap, ◌∙◌, true, false, [], ◌∷◌, ◌++◌, arith, length, append_assoc,
  length-append, length-drop, ◌-◌, if◌then◌else◌, ◌==◌, ◌&&◌, ltb,
}
use pve_cluster.Bytes.{Bytes, bytes_eq_iff, to_le, length-to_le}
use pve_cluster.Bytes.Slices.{slice, drop_next, drop_le, slice_at, get_le_at}
use pve_cluster.Bytes.Utf8.{is_utf8}
use pve_cluster.MemDb.Types.{TreeEntry, dt_reg, dt_dir}
use pve_cluster.MemDb.Index.{ok}
use pve_cluster.MemDb.Update.{
  serialize_for_update, deserialize_from_update, update_data, is_unterminated, ltb,
}

-- An entry of the file tree: its values fit their fields, its name is text, its size is that of its
-- data, and a directory has none.
pub record IsSendable (e : TreeEntry) : Type 0 where
  pub parent : e.parent < 256 ^ 8
  pub inode : e.inode < 256 ^ 8
  pub version : e.version < 256 ^ 8
  pub writer : e.writer < 256 ^ 4
  pub mtime : e.mtime < 256 ^ 4
  pub size : e.size ≡ length e.content
  pub size_fits : e.size < 256 ^ 4
  pub name_fits : length e.name + 1 < 256 ^ 4
  pub name_text : is_utf8 e.name ≡ true
  pub kind : (e.entry_type ≡ dt_reg) ⊎ ((e.entry_type ≡ dt_dir) × (e.content ≡ []))

update_data-content : (e : TreeEntry) → IsSendable e → update_data e ≡ e.content
update_data-content e s = ground (arith, bytes_eq_iff e.content [])

flat :
    (e : TreeEntry) (rest : Bytes)
    → serialize_for_update e ++ rest
      ≡ to_le 8 e.parent
        ++ (to_le 8 e.inode
            ++ (to_le 8 e.version
                ++ (to_le 4 e.writer
                    ++ (to_le 4 e.mtime
                        ++ (to_le 4 e.size
                            ++ (to_le 4 (length e.name + 1)
                                ++ (to_le 1 e.entry_type
                                    ++ ((e.name ++ (0 ∷ [])) ++ (update_data e ++ rest)))))))))
unfolding serialize_for_update
flat e rest = simp append_assoc

empty_of_length : (bs : Bytes) → length bs ≡ 0 → bs ≡ []
empty_of_length [] h = refl
empty_of_length (b ∷ bs) h = absurd (omega arith)

-- The name and its terminator are taken apart again.
name_read :
    (name : Bytes)
    → (slice (name ++ (0 ∷ [])) 0 (length name + 1 - 1) ≡ name)
      × (is_unterminated (name ++ (0 ∷ [])) (length name + 1) ≡ false)
name_read name =
    let bs = name ++ (0 ∷ []) in
    let last = drop_next bs 0 name (0 ∷ []) (length name + 1 - 1) refl (omega arith) in
    (
      slice_at bs 0 name (0 ∷ []) refl (omega arith),
      ground (
        arith,
        slice_at bs (length name + 1 - 1) (0 ∷ []) [] {n = 1} last refl,
        bytes_eq_iff (0 ∷ []) (0 ∷ []),
      ),
    )

content_read :
    (e : TreeEntry) (read : Bytes)
    → IsSendable e
    → read ≡ e.content
    → (if e.entry_type == dt_reg && ltb 0 e.size then read else []) ≡ e.content
content_read e read s h = ground (arith, empty_of_length e.content)

-- A tree entry is read back from its Update message, whatever follows it, where its numbers and the
-- length of its name fit their fields, its size is that of its data, its name is text, and it is a
-- file or a directory without data.
pub deserialize_from_update-serialize :
    (e : TreeEntry) (rest : Bytes)
    → IsSendable e
    → deserialize_from_update (serialize_for_update e ++ rest) ≡ ok e
unfolding deserialize_from_update
deserialize_from_update-serialize e rest s =
    let bs = serialize_for_update e ++ rest in
    let named = e.name ++ (0 ∷ []) in
    let tail = update_data e ++ rest in
    let d0 = flat e rest in
    let d8 = drop_le bs 0 8 e.parent _ 8 d0 refl in
    let d16 = drop_le bs 8 8 e.inode _ 16 d8 refl in
    let d24 = drop_le bs 16 8 e.version _ 24 d16 refl in
    let d28 = drop_le bs 24 4 e.writer _ 28 d24 refl in
    let d32 = drop_le bs 28 4 e.mtime _ 32 d28 refl in
    let d36 = drop_le bs 32 4 e.size _ 36 d32 refl in
    let d40 = drop_le bs 36 4 (length e.name + 1) _ 40 d36 refl in
    let d41 = drop_le bs 40 1 e.entry_type (named ++ tail) 41 d40 refl in
    let named_len : length named ≡ length e.name + 1 = length-append e.name (0 ∷ []) in
    let d_data =
      drop_next bs 41 named tail (41 + (length e.name + 1)) d41 (omega (arith, named_len)) in
    let sent = update_data-content e s in
    let tail_len : length tail ≡ e.size + length rest =
      omega (arith, length-append (update_data e) rest, ap length sent, s.size) in
    let len : length bs ≡ 41 + (length e.name + 1) + e.size + length rest = omega (
      arith,
      length-drop 40 bs,
      ap length d40,
      length-append (to_le 1 e.entry_type) (named ++ tail),
      length-to_le 1 e.entry_type,
      length-append named tail,
      named_len,
      tail_len,
    ) in
    let data_read =
      slice_at bs (41 + (length e.name + 1)) (update_data e) rest {n = e.size} d_data
        (omega (arith, ap length sent, s.size)) in
    let name_bytes_read = slice_at bs 41 named tail d41 named_len in
    ground (
      arith,
      len,
      get_le_at bs 0 8 e.parent _ d0 s.parent,
      get_le_at bs 8 8 e.inode _ d8 s.inode,
      get_le_at bs 16 8 e.version _ d16 s.version,
      get_le_at bs 24 4 e.writer _ d24 s.writer,
      get_le_at bs 28 4 e.mtime _ d28 s.mtime,
      get_le_at bs 32 4 e.size _ d32 s.size_fits,
      get_le_at bs 36 4 (length e.name + 1) _ d36 s.name_fits,
      get_le_at bs 40 1 e.entry_type _ d40 (ground (arith, s.kind)),
      name_bytes_read,
      name_read e.name,
      s.name_text,
      data_read,
      sent,
      content_read e (slice bs (41 + (length e.name + 1)) e.size) s (data_read ∙ sent),
    )
