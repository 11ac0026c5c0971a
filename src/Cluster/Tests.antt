-- ===== src/Cluster/Tests.antt =====
-- The theorems on the election at inputs that meet their hypotheses.
use pve_cluster.Prelude.{ℕ, refl, some, [], ◌∷◌, true, replicate, List, ◌≡◌, All, ◌↔◌}
use pve_cluster.MemDb.Index.{MemDbIndex, cmp}
use pve_cluster.Cluster.Leader.{Member, is_greater, leader_from, elect, is_synced}
use pve_cluster.Cluster.Leader.Newest.{AtMost, IsAmong, elect-newest, is_synced_iff}

abbrev index_at : ℕ → ℕ → MemDbIndex
index_at version mtime = record {
  version = version;
  last_inode = 0;
  writer = 1;
  mtime = mtime;
  size = 1;
  bytes = 72;
  entries = record { inode = 4; digest = replicate 32 9 } ∷ [];
}

abbrev member : ℕ → MemDbIndex → Member
member nodeid index = record { nodeid = nodeid; pid = 100; index = index }

abbrev members : List Member
members = member 1 (index_at 5 20) ∷ member 2 (index_at 7 10) ∷ member 3 (index_at 7 15) ∷ []

elect-members : elect members ≡ some (member 3 (index_at 7 15))
unfolding elect leader_from is_greater cmp
elect-members = refl

elect-newest_example :
    IsAmong (member 3 (index_at 7 15)) members × All (λ m. AtMost m.index (index_at 7 15)) members
elect-newest_example = elect-newest members (member 3 (index_at 7 15)) elect-members

is_synced_iff_example : (is_synced (index_at 7 15) (index_at 7 15) ≡ true) ↔ (
    (◌≡◌ {A = ℕ} 7 7)
    × (◌≡◌ {A = ℕ} 15 15)
    × (◌≡◌ {A = ℕ} 1 1)
    × ((index_at 7 15).entries ≡ (index_at 7 15).entries))
is_synced_iff_example = is_synced_iff (index_at 7 15) (index_at 7 15)
