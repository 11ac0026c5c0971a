-- ===== src/MemDb/Mutation/Root.antt =====
-- `update_root_metadata` seen through lookups.
use mathlib.Core.Option
use pve_cluster.Prelude.{ℕ, ◌≡◌, refl, Option, none, some, arith, ◌==◌, if◌then◌else◌, ==_iff}
use pve_cluster.Map.{get, insert, get-insert, nat_eq}
use pve_cluster.MemDb.Types.{TreeEntry, root_inode}
use pve_cluster.MemDb.State.{Index}
use pve_cluster.MemDb.Mutation.{update_root_metadata}

abbrev pub touch : ℕ → ℕ → ℕ → TreeEntry → TreeEntry
touch v w t e = record e { version = v; writer = w; mtime = t }

touch_root :
    (index : Index) (v w t j : ℕ) (o : Option TreeEntry)
    → get root_inode index ≡ o
    → get j
        (elim o as (λ _. Index) [ none ↦ index | some e ↦ insert root_inode (touch v w t e) index ])
      ≡ (if root_inode == j then Option.map (touch v w t) (get j index) else get j index)
touch_root index v w t j none h = ground (arith, ==_iff root_inode j)
touch_root index v w t j (some e) h =
    ground (arith, ==_iff root_inode j, get-insert root_inode j (touch v w t e) index)

pub get-update_root_metadata :
    (index : Index) (v w t j : ℕ)
    → get j (update_root_metadata index v w t)
      ≡ (if root_inode == j then Option.map (touch v w t) (get j index) else get j index)
unfolding update_root_metadata
get-update_root_metadata index v w t j = touch_root index v w t j (get root_inode index) refl
