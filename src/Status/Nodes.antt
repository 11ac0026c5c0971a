-- ===== src/Status/Nodes.antt =====
-- The nodes and the members of the cluster in status.rs.
pub mod Online
use pve_cluster.Prelude.{
  ℕ, none, some, [], ◌∷◌, true, false, Option, Bool, List, if◌then◌else◌, ◌==◌, not, ◌&&◌,
}
use pve_cluster.Bytes.{Bytes, bytes_eq}
use pve_cluster.Map.{get, insert, bytes_key, nat_eq}
use pve_cluster.Status.{
  Status, ClusterInfo, ClusterNode, MemberInfo, succ64, increment_cluster_version,
}

abbrev pub empty_info : Bytes → ℕ → ClusterInfo
empty_info cluster_name config_version = record {
  cluster_name = cluster_name;
  config_version = config_version;
  nodes_by_id = [];
  nodes_by_name = [];
}

unfoldable pub add_node : ClusterNode → ClusterInfo → ClusterInfo
add_node node info = record info {
  nodes_by_id = insert node.node_id node info.nodes_by_id;
  nodes_by_name = insert node.name node.node_id info.nodes_by_name;
}

unfoldable pub get_node_by_name : Bytes → ClusterInfo → Option ClusterNode
get_node_by_name name info = elim (get name info.nodes_by_name) [
  | none ↦ none
  | some node_id ↦ get node_id info.nodes_by_id
]

abbrev pub init_cluster : Bytes → Status → Status
init_cluster cluster_name s = record s {
  cluster_info = some (empty_info cluster_name 0);
  cluster_version = succ64 s.cluster_version;
}

abbrev with_info : Option ClusterInfo → (ClusterInfo → ClusterInfo) → Status → Status
with_info none f s = s
with_info (some info) f s = record s {
  cluster_info = some (f info);
  cluster_version = succ64 s.cluster_version;
}

unfoldable pub register_node : (node_id : ℕ) → (name ip : Bytes) → Status → Status
register_node node_id name ip s =
    with_info s.cluster_info
      (add_node (record { name = name; node_id = node_id; ip = ip; online = false })) s

-- `get_mut` and the change of the flag.
unfoldable pub set_flag : ℕ → Bool → List (ℕ × ClusterNode) → List (ℕ × ClusterNode)
set_flag node_id online [] = []
set_flag node_id online ((k, n) ∷ nodes) =
    if k == node_id
    then (k, record n { online = online }) ∷ nodes
    else (k, n) ∷ set_flag node_id online nodes

abbrev differs : Bool → Bool → Bool
differs true b = not b
differs false b = b

abbrev flag_changes : Bool → Option ClusterNode → Bool
flag_changes online none = false
flag_changes online (some n) = differs n.online online

unfoldable pub set_node_online : ℕ → Bool → Status → Status
set_node_online node_id online s = elim s.cluster_info [
  | none ↦ s
  | some info ↦
      if flag_changes online (get node_id info.nodes_by_id)
      then record s {
        cluster_info =
            some (record info { nodes_by_id = set_flag node_id online info.nodes_by_id });
        cluster_version = succ64 s.cluster_version;
      }
      else s
]

unfoldable pub all_offline : List (ℕ × ClusterNode) → List (ℕ × ClusterNode)
all_offline [] = []
all_offline ((k, n) ∷ nodes) = (k, record n { online = false }) ∷ all_offline nodes

unfoldable pub mark_online : List ℕ → List (ℕ × ClusterNode) → List (ℕ × ClusterNode)
mark_online [] nodes = nodes
mark_online (id ∷ ids) nodes = mark_online ids (set_flag id true nodes)

abbrev pub refreshed : List ℕ → ClusterInfo → ClusterInfo
refreshed ids info = record info { nodes_by_id = mark_online ids (all_offline info.nodes_by_id) }

unfoldable pub update_member_status : List ℕ → Status → Status
update_member_status member_list s = with_info s.cluster_info (refreshed member_list) s

abbrev pub ids_of : List MemberInfo → List ℕ
ids_of [] = []
ids_of (m ∷ ms) = m.node_id ∷ ids_of ms

unfoldable pub update_members : List MemberInfo → Status → Status
update_members members s =
    with_info s.cluster_info (refreshed (ids_of members)) (record s { members = members })

-- A node of the configuration: its number, name and address.
pub record Configured : Type 0 where
  pub node_id : ℕ
  pub name : Bytes
  pub ip : Bytes

abbrev pub was_online : Option ClusterNode → Bool
was_online none = false
was_online (some n) = n.online

unfoldable pub add_configured : List (ℕ × ClusterNode) → List Configured → ClusterInfo → ClusterInfo
add_configured old_nodes [] info = info
add_configured old_nodes (c ∷ cs) info = add_configured old_nodes cs (
    add_node
      (record {
        name = c.name;
        node_id = c.node_id;
        ip = c.ip;
        online = was_online (get c.node_id old_nodes);
      })
      info)

abbrev pub is_some : Option ClusterNode → Bool
is_some none = false
is_some (some n) = true

-- `nodes_by_id.contains_key(id)`.
abbrev pub is_known : ℕ → List (ℕ × ClusterNode) → Bool
is_known id nodes = is_some (get id nodes)

-- `retain(|nodeid, _| nodes_by_id.contains_key(nodeid))`.
unfoldable pub retain_known : {A : Type 0} → List (ℕ × ClusterNode) → List (ℕ × A) → List (ℕ × A)
retain_known nodes [] = []
retain_known nodes ((k, v) ∷ m) =
    if is_known k nodes then (k, v) ∷ retain_known nodes m else retain_known nodes m

abbrev pub nodes_of : Option ClusterInfo → List (ℕ × ClusterNode)
nodes_of none = []
nodes_of (some info) = info.nodes_by_id

-- The name, the version and the nodes are new, but for which of the nodes are online.
unfoldable pub update_cluster_info :
    (cluster_name : Bytes) → (config_version : ℕ) → List Configured → Status → Status
update_cluster_info cluster_name config_version nodes s =
    let info =
      add_configured (nodes_of s.cluster_info) nodes (empty_info cluster_name config_version) in
    record s {
      cluster_info = some info;
      kvstore = retain_known info.nodes_by_id s.kvstore;
      cluster_version = succ64 s.cluster_version;
    }
