-- ===== src/MemDb/Update.antt =====
-- `serialize_for_update` and `deserialize_from_update` of types.rs: a tree entry in an Update message.
pub mod RoundTrip
use pve_cluster.Prelude.{
  ℕ, ◌+◌, ◌-◌, ◌%◌, ◌^◌, Bool, ◌&&◌, ◌||◌, not, List, [], ◌∷◌, ◌++◌, ltb, ◌==◌, if◌then◌else◌,
  length,
}
use pve_cluster.Bytes.{Bytes, to_le, bytes_eq}
use pve_cluster.Bytes.Slices.{slice, get_le}
use pve_cluster.Bytes.Utf8.{is_utf8}
use pve_cluster.MemDb.Types.{TreeEntry, is_file, dt_reg, dt_dir}
use pve_cluster.MemDb.Index.{
  Decoded, ok, err, too_short, invalid_type, not_terminated, invalid_utf8,
}

abbrev pub update_data : TreeEntry → Bytes
update_data e = if is_file e && not (bytes_eq e.content []) then e.content else []

unfoldable pub serialize_for_update : TreeEntry → Bytes
serialize_for_update e =
    to_le 8 e.parent
    ++ (to_le 8 e.inode
        ++ (to_le 8 e.version
            ++ (to_le 4 e.writer
                ++ (to_le 4 e.mtime
                    ++ (to_le 4 e.size
                        ++ (to_le 4 (length e.name + 1)
                            ++ (to_le 1 e.entry_type
                                ++ (e.name ++ ((0 ∷ []) ++ update_data e)))))))))

-- `name_bytes.is_empty() || name_bytes[namelen - 1] != 0`.
abbrev pub is_unterminated : Bytes → ℕ → Bool
is_unterminated name namelen = namelen == 0 || not (bytes_eq (slice name (namelen - 1) 1) (0 ∷ []))

unfoldable pub parse_body : Bytes → (size namelen entry_type : ℕ) → Decoded TreeEntry
parse_body bs size namelen entry_type =
    let name_bytes = slice bs 41 namelen in
    let name = slice name_bytes 0 (namelen - 1) in
    if is_unterminated name_bytes namelen
    then err not_terminated
    else (if not (is_utf8 name)
        then err invalid_utf8
        else ok (record {
          inode = get_le bs 8 8;
          parent = get_le bs 0 8;
          version = get_le bs 16 8;
          writer = get_le bs 24 4;
          mtime = get_le bs 28 4;
          size = size;
          entry_type = entry_type;
          name = name;
          content = if entry_type == dt_reg && ltb 0 size then slice bs (41 + namelen) size else [];
        }))

unfoldable pub deserialize_from_update : Bytes → Decoded TreeEntry
unfolding parse_body
deserialize_from_update bs =
    let size = get_le bs 32 4 in
    let namelen = get_le bs 36 4 in
    let entry_type = get_le bs 40 1 in
    if ltb (length bs) 41
    then err too_short
    else (if not (entry_type == dt_reg) && not (entry_type == dt_dir)
        then err invalid_type
        else (if ltb (length bs) (41 + namelen + size)
            then err too_short
            else parse_body bs size namelen entry_type))
