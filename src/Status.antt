-- ===== src/Status.antt =====
-- The crate pmxcfs-status: what a node knows of the cluster besides its files. The types of
-- src/pmxcfs-rs/pmxcfs-status/src/types.rs, and the state and the version counters of status.rs there.
pub mod Nodes
pub mod Vms
pub mod Values
mod Tests
use pve_cluster.Prelude.{
  ℕ, none, some, [], ◌∷◌, true, false, Option, Bool, List, ◌+◌, ◌%◌, ◌^◌, if◌then◌else◌, map,
}
use pve_cluster.Bytes.{Bytes, codes}
use pve_cluster.Map.{get, insert, remove, bytes_key, nat_eq}

pub record ClusterNode : Type 0 where
  pub name : Bytes
  pub node_id : ℕ
  pub ip : Bytes
  pub online : Bool

pub record ClusterInfo : Type 0 where
  pub cluster_name : Bytes
  pub config_version : ℕ
  pub nodes_by_id : List (ℕ × ClusterNode)
  pub nodes_by_name : List (Bytes × ℕ)

pub record NodeStatus : Type 0 where
  pub name : Bytes
  pub content : Bytes
  pub timestamp : ℕ

pub record RrdEntry : Type 0 where
  pub key : Bytes
  pub content : Bytes
  pub timestamp : ℕ

pub data VmType : Type 0 where
  qemu lxc : VmType

pub record VmEntry : Type 0 where
  pub vmid : ℕ
  pub vmtype : VmType
  pub node : Bytes
  pub version : ℕ

pub record MemberInfo : Type 0 where
  pub node_id : ℕ
  pub pid : ℕ
  pub joined_at : ℕ

-- The log is the crate pmxcfs-logger; the RRD writer, if there is one, says whether a write succeeds.
pub record Status : Type 0 where
  pub nodename : Bytes
  pub cluster_info : Option ClusterInfo
  pub cluster_version : ℕ
  pub vmlist_version : ℕ
  pub vminfo_version_counter : ℕ
  pub memdb_path_versions : List (Bytes × ℕ)
  pub node_status : List (Bytes × NodeStatus)
  pub rrd_data : List (Bytes × RrdEntry)
  pub rrd_dump_cache : Option (ℕ × Bytes)
  pub rrd_writer : Option (Bytes → Bytes → Bool)
  pub vmlist : List (ℕ × VmEntry)
  pub quorate : Bool
  pub members : List MemberInfo
  pub start_time : ℕ
  pub kvstore : List (ℕ × List (Bytes × (Bytes × ℕ)))
  pub node_ips : List (Bytes × Bytes)

abbrev pub common_paths : List Bytes
common_paths =
    codes "corosync.conf"
    ∷ codes "corosync.conf.new"
    ∷ codes "storage.cfg"
    ∷ codes "user.cfg"
    ∷ codes "domains.cfg"
    ∷ codes "notifications.cfg"
    ∷ codes "priv/notifications.cfg"
    ∷ codes "priv/shadow.cfg"
    ∷ codes "priv/acme/plugins.cfg"
    ∷ codes "priv/tfa.cfg"
    ∷ codes "priv/token.cfg"
    ∷ codes "datacenter.cfg"
    ∷ codes "vzdump.cron"
    ∷ codes "vzdump.conf"
    ∷ codes "jobs.cfg"
    ∷ codes "ha/crm_commands"
    ∷ codes "ha/manager_status"
    ∷ codes "ha/resources.cfg"
    ∷ codes "ha/rules.cfg"
    ∷ codes "ha/groups.cfg"
    ∷ codes "ha/fence.cfg"
    ∷ codes "status.cfg"
    ∷ codes "replication.cfg"
    ∷ codes "ceph.conf"
    ∷ codes "sdn/vnets.cfg"
    ∷ codes "sdn/zones.cfg"
    ∷ codes "sdn/controllers.cfg"
    ∷ codes "sdn/subnets.cfg"
    ∷ codes "sdn/ipams.cfg"
    ∷ codes "sdn/mac-cache.json"
    ∷ codes "sdn/pve-ipam-state.json"
    ∷ codes "sdn/dns.cfg"
    ∷ codes "sdn/fabrics.cfg"
    ∷ codes "sdn/.running-config"
    ∷ codes "virtual-guest/cpu-models.conf"
    ∷ codes "virtual-guest/profiles.cfg"
    ∷ codes "firewall/cluster.fw"
    ∷ codes "mapping/directory.cfg"
    ∷ codes "mapping/pci.cfg"
    ∷ codes "mapping/usb.cfg"
    ∷ []

abbrev pub new : (nodename : Bytes) → Option (Bytes → Bytes → Bool) → (now : ℕ) → Status
new nodename rrd_writer now = record {
  nodename = nodename;
  cluster_info = none;
  cluster_version = 0;
  vmlist_version = 0;
  vminfo_version_counter = 0;
  memdb_path_versions = map (λ p. (p, 0)) common_paths;
  node_status = [];
  rrd_data = [];
  rrd_dump_cache = none;
  rrd_writer = rrd_writer;
  vmlist = [];
  quorate = false;
  members = [];
  start_time = now;
  kvstore = [];
  node_ips = [];
}

-- `fetch_add(1)` on 64 bits.
abbrev pub succ64 : ℕ → ℕ
succ64 n = (n + 1) % 2 ^ 64

abbrev pub increment_cluster_version : Status → Status
increment_cluster_version s = record s { cluster_version = succ64 s.cluster_version }

abbrev pub increment_vmlist_version : Status → Status
increment_vmlist_version s = record s { vmlist_version = succ64 s.vmlist_version }

-- A path that is not tracked has no counter.
unfoldable pub increment_path_version : Bytes → Status → Status
increment_path_version path s = elim (get path s.memdb_path_versions) [
  | none ↦ s
  | some n ↦ record s { memdb_path_versions = insert path (succ64 n) s.memdb_path_versions }
]

unfoldable pub get_path_version : Bytes → Status → ℕ
get_path_version path s = elim (get path s.memdb_path_versions) [ none ↦ 0 | some n ↦ n ]

unfoldable pub increment_all_path_versions : Status → Status
increment_all_path_versions s = record s {
  memdb_path_versions = map (λ e. (e.0, succ64 e.1)) s.memdb_path_versions;
}

unfoldable pub set_quorate : Bool → Status → Status
set_quorate quorate s = record s { quorate = quorate }
