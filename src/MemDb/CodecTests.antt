-- ===== src/MemDb/CodecTests.antt =====
-- The theorems on the index and the Update message at inputs that meet their hypotheses.
use pve_cluster.Bytes.Utf8.{lead, next, utf8_from, is_utf8}
use pve_cluster.Prelude.{ℕ, ◌≡◌, refl, arith, List, [], ◌∷◌, ◌++◌, replicate, ◌+◌, ◌*◌, inl}
use pve_cluster.Bytes.{codes}
use pve_cluster.MemDb.Types.{TreeEntry}
use pve_cluster.MemDb.Index.{IndexEntry, MemDbIndex, serialize, deserialize, find_differences, ok}
use pve_cluster.MemDb.Index.RoundTrip.{Fits, deserialize-serialize}
use pve_cluster.MemDb.Index.Differences.{missing, find_differences-missing}
use pve_cluster.MemDb.Update.{serialize_for_update, deserialize_from_update}
use pve_cluster.MemDb.Update.RoundTrip.{IsSendable, deserialize_from_update-serialize}

abbrev item : ℕ → ℕ → IndexEntry
item i b = record { inode = i; digest = replicate 32 b }

abbrev index_of : List IndexEntry → ℕ → MemDbIndex
index_of es n = record {
  version = 9;
  last_inode = 7;
  writer = 1;
  mtime = 100;
  size = n;
  bytes = 32 + n * 40;
  entries = es;
}

abbrev master : MemDbIndex
master = index_of (item 1 5 ∷ item 4 6 ∷ item 7 8 ∷ []) 3

abbrev slave : MemDbIndex
slave = index_of (item 1 5 ∷ item 3 6 ∷ item 4 9 ∷ []) 3

master-Fits : Fits master
master-Fits = record {
  version = omega arith;
  last_inode = omega arith;
  writer = omega arith;
  mtime = omega arith;
  size = refl;
  bytes = refl;
  bytes_fit = omega arith;
  entries = ((omega arith, refl), ((omega arith, refl), ((omega arith, refl), tt)));
}

find_differences-missing_example :
    find_differences master slave ≡ missing master.entries slave.entries
find_differences-missing_example =
    find_differences-missing master slave (omega arith, (omega arith, (omega arith, tt)))
      (omega arith, (omega arith, (omega arith, tt)))

deserialize-serialize_example : deserialize (serialize master ++ (1 ∷ [])) ≡ ok master
deserialize-serialize_example = deserialize-serialize master (1 ∷ []) master-Fits

abbrev sent : TreeEntry
sent = record {
  inode = 5;
  parent = 0;
  version = 5;
  writer = 1;
  mtime = 100;
  size = 3;
  entry_type = 8;
  name = codes "motd";
  content = 7 ∷ 8 ∷ 9 ∷ [];
}

sent-IsSendable : IsSendable sent
unfolding lead next utf8_from is_utf8
sent-IsSendable = record {
  parent = omega arith;
  inode = omega arith;
  version = omega arith;
  writer = omega arith;
  mtime = omega arith;
  size = refl;
  size_fits = omega arith;
  name_fits = omega arith;
  name_text = refl;
  kind = inl refl;
}

deserialize_from_update-serialize_example :
    deserialize_from_update (serialize_for_update sent ++ []) ≡ ok sent
deserialize_from_update-serialize_example =
    deserialize_from_update-serialize sent [] sent-IsSendable
