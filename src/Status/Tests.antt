-- ===== src/Status/Tests.antt =====
-- The theorems on the status of the cluster at concrete inputs.
use pve_cluster.Prelude.{none, some, [], ◌∷◌, true, false, ◌≡◌, refl}
use pve_cluster.Bytes.{codes, bytes_eq}
use pve_cluster.Map.{get, nat_eq}
use pve_cluster.MemDb.Paths.{starts_with}
use pve_cluster.Status.{Status, ClusterNode, new}
use pve_cluster.Status.Nodes.{nodes_of, update_members}
use pve_cluster.Status.Nodes.Online.{flag, update_members-online, has_id}
use pve_cluster.Status.Values.{set_node_kv, get_node_kv, rrd_key}
use pve_cluster.Status.Values.ReadBack.{get_node_kv-set_node_kv}

abbrev first : ClusterNode
first = record { name = codes "n1"; node_id = 1; ip = codes "::1"; online = true }

abbrev second : ClusterNode
second = record { name = codes "n2"; node_id = 2; ip = codes "::2"; online = false }

abbrev known : Status
known = record (new (codes "n1") none 0) {
  cluster_info = some (record {
    cluster_name = codes "c";
    config_version = 3;
    nodes_by_id = (1, first) ∷ (2, second) ∷ [];
    nodes_by_name = (codes "n1", 1) ∷ (codes "n2", 2) ∷ [];
  });
  kvstore = (1, (codes "k", (7 ∷ [], 4)) ∷ []) ∷ [];
}

-- Node 2 is the only member.
update_members-online_example :
    flag (
      get 1 (
        nodes_of
          (update_members
            (record { node_id = 2; pid = 9; joined_at = 0 } ∷ [])
            known).cluster_info))
    ≡ some false
unfolding get has_id
update_members-online_example =
    update_members-online (record { node_id = 2; pid = 9; joined_at = 0 } ∷ []) known 1

get_node_kv-set_node_kv_example :
    get_node_kv 2 (codes "k") (set_node_kv 2 (codes "k") (8 ∷ []) known) ≡ some (8 ∷ [])
unfolding get rrd_key starts_with bytes_eq
get_node_kv-set_node_kv_example =
    get_node_kv-set_node_kv 2 (codes "k") (8 ∷ []) known refl refl refl 2 (codes "k")
