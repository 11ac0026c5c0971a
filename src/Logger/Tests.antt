-- ===== src/Logger/Tests.antt =====
-- The theorems on the cluster log at inputs that meet their hypotheses.
use pve_cluster.Map.{get, nat_eq}
use pve_cluster.Prelude.{refl, [], ◌∷◌, arith, ◌≡◌, ℕ, ◌≤◌, ◌++◌, ◌-◌, inr, inl, Bool-cases, ◌==◌}
use pve_cluster.Bytes.{codes}
use pve_cluster.Logger.Text.{utf8_to_ascii, truncate_string, len, len_utf8}
use pve_cluster.Logger.Hash.{fnv_64a_str, fnv_64a_str-eq-fnv1a, fnv1a, fnv1a_64_init}
use pve_cluster.Logger.Entry.{
  LogEntry, pack, packed, Packed, refused, aligned_size, pack_fields, size,
}
use pve_cluster.Logger.Entry.Bounds.{IsPacked, pack-IsPacked}
use pve_cluster.Logger.Ring.{RingBuffer, add_entry}
use pve_cluster.Logger.Ring.Sizes.{
  total, IsSized, fitting, add_entry-fitting, add_entry-le-capacity,
}
use pve_cluster.Logger.ClusterLog.{ClusterLog, insert_entry, latest}
use pve_cluster.Logger.ClusterLog.Dedup.{
  RecordsFirst, first_of, IsDeduped, insert_entry-IsDeduped, insert_entry-insert_entry,
}

fnv_64a_str-eq-fnv1a_example :
    fnv_64a_str (codes "node1") ≡ fnv1a (codes "node1" ++ (0 ∷ [])) fnv1a_64_init
fnv_64a_str-eq-fnv1a_example = fnv_64a_str-eq-fnv1a (codes "node1")

-- Of one node, at times 10 and 11.
abbrev entry_at : ℕ → ℕ → LogEntry
entry_at time uid = record {
  uid = uid;
  time = time;
  node_digest = 77;
  ident_digest = 78;
  pid = 9;
  priority = 6;
  node = codes "node1";
  ident = codes "root";
  tag = codes "pmxcfs";
  message = codes "started";
}

abbrev filled : RingBuffer
filled = record { capacity = 200; current_size = 144; entries = entry_at 11 2 ∷ entry_at 10 1 ∷ [] }

filled-IsSized : IsSized filled
unfolding total aligned_size size len len_utf8
filled-IsSized = refl

aligned_size-entry_at : aligned_size (entry_at 12 3) ≤ 200
unfolding aligned_size size len len_utf8
aligned_size-entry_at = omega arith

add_entry-fitting_example :
    IsSized (add_entry filled (entry_at 12 3))
    × ((add_entry filled (entry_at 12 3)).entries
        ≡ entry_at 12 3 ∷ fitting (200 - aligned_size (entry_at 12 3)) filled.entries)
add_entry-fitting_example = add_entry-fitting filled (entry_at 12 3) filled-IsSized

add_entry-le-capacity_example :
    (add_entry filled (entry_at 12 3)).current_size ≤ (add_entry filled (entry_at 12 3)).capacity
add_entry-le-capacity_example =
    add_entry-le-capacity filled (entry_at 12 3) filled-IsSized aligned_size-entry_at

abbrev log : ClusterLog
log = record { buffer = filled; dedup = (77, latest (entry_at 11 2)) ∷ [] }

log-RecordsFirst : RecordsFirst log.dedup log.buffer.entries
unfolding get first_of
log-RecordsFirst k o h = elim (Bool-cases (77 == k)) [
  | inl q ↦ ground (arith, h, q)
  | inr q ↦ absurd (ground (arith, h, q))
]

log-IsDeduped : IsDeduped log
unfolding get
log-IsDeduped = record {
  sized = filled-IsSized;
  known = (
    (latest (entry_at 11 2), refl, inr (refl, omega arith)),
    ((latest (entry_at 11 2), refl, inl (omega arith)), tt),
  );
  descending = (((λ _. inl (omega arith)), tt), (tt, tt));
  first = log-RecordsFirst;
}

insert_entry-IsDeduped_example : IsDeduped (insert_entry log (entry_at 12 3))
insert_entry-IsDeduped_example = insert_entry-IsDeduped log (entry_at 12 3) log-IsDeduped

insert_entry-insert_entry_example :
    insert_entry (insert_entry log (entry_at 12 3)) (entry_at 12 3)
    ≡ insert_entry log (entry_at 12 3)
insert_entry-insert_entry_example = insert_entry-insert_entry log (entry_at 12 3)

-- The entry that `pack` returned, or one that stands for none.
abbrev entry_of : Packed → LogEntry
entry_of (packed e) = e
entry_of (refused r) = entry_at 0 0

abbrev call : ℕ × Packed
call = pack 4 (codes "node1") (codes "root") (codes "tag") 9 10 6 (codes "say \"hi\"")

call-packed : call ≡ (5, packed (entry_of call.1))
unfolding pack pack_fields truncate_string utf8_to_ascii
call-packed = refl

pack-IsPacked_example : IsPacked (entry_of call.1)
pack-IsPacked_example =
    pack-IsPacked 4 (codes "node1") (codes "root") (codes "tag") 9 10 6 (codes "say \"hi\"") 5
      (entry_of call.1) call-packed
