-- ===== src/Status/Values.antt =====
-- The values that nodes publish in status.rs: node status, addresses, RRD data and the key-value store.
pub mod ReadBack
use pve_cluster.Prelude.{
  ℕ, none, some, [], ◌∷◌, true, false, Option, Bool, List, ◌+◌, ◌-◌, ◌*◌, ◌%◌, ◌^◌, ◌++◌,
  if◌then◌else◌, ltb, length, drop, not,
}
use pve_cluster.Bytes.{Bytes, bytes_eq, codes}
use pve_cluster.Bytes.Utf8.{is_utf8}
use pve_cluster.Map.{get, insert, remove, bytes_key, nat_eq}
use pve_cluster.MemDb.Paths.{starts_with}
use pve_cluster.Status.{Status, NodeStatus, RrdEntry, ClusterNode, ClusterInfo, succ64}
use pve_cluster.Status.Nodes.{is_known, nodes_of}

abbrev pub cfs_max_status_size : ℕ
cfs_max_status_size = 32 * 1024

-- `Err`, with a constructor per message; the state is kept.
pub data StatusError : Type 0 where
  too_large invalid_utf8 write_failed : StatusError

-- `strip_prefix("rrd/")`.
unfoldable pub rrd_key : Bytes → Option Bytes
rrd_key key = if starts_with (codes "rrd/") key then some (drop 4 key) else none

-- One NUL at the end is taken off.
unfoldable pub strip_nul : Bytes → Bytes
strip_nul [] = []
strip_nul (c ∷ []) = if bytes_eq (c ∷ []) (0 ∷ []) then [] else c ∷ []
strip_nul (c ∷ d ∷ cs) = c ∷ strip_nul (d ∷ cs)

abbrev written :
    Option (Bytes → Bytes → Bool) → Bytes → Bytes → Status → Status × Option StatusError
written none key content s = (s, none)
written (some update) key content s = (s, (if update key content then none else some write_failed))

-- The data is kept in memory also when the file cannot be written.
unfoldable pub set_rrd_data :
    (now : ℕ) → (key content : Bytes) → Status → Status × Option StatusError
set_rrd_data now key content s = written s.rrd_writer key content (record s {
  rrd_data = insert key (record { key = key; content = content; timestamp = now }) s.rrd_data;
})

abbrev is_other : Option Bytes → Bytes → Bool
is_other none ip = true
is_other (some old) ip = not (bytes_eq old ip)

-- A new address counts as a change of the cluster.
unfoldable pub set_node_ip : (nodename ip : Bytes) → Status → Status
set_node_ip nodename ip s =
    if is_other (get nodename s.node_ips) ip
    then record s {
      node_ips = insert nodename ip s.node_ips;
      cluster_version = succ64 s.cluster_version;
    }
    else s

abbrev set_text :
    (Bytes → Status → Status × Option StatusError) → Bytes → Status → Status × Option StatusError
set_text f content s = if is_utf8 content then f (strip_nul content) s else (s, some invalid_utf8)

abbrev set_by_key :
    (now : ℕ) → Option Bytes → (name content : Bytes) → Status → Status × Option StatusError
set_by_key now (some key) name content s = set_text (set_rrd_data now key) content s
set_by_key now none name content s =
    if bytes_eq name (codes "nodeip")
    then set_text (λ ip t. (set_node_ip t.nodename ip t, none)) content s
    else (
      record s {
        node_status =
            insert name (record { name = name; content = content; timestamp = now }) s.node_status;
      },
      none,
    )

unfoldable pub set_node_status :
    (now : ℕ) → (name content : Bytes) → Status → Status × Option StatusError
set_node_status now name content s =
    if ltb cfs_max_status_size (length content)
    then (s, some too_large)
    else set_by_key now (rrd_key name) name content s

unfoldable pub get_node_status : Bytes → Status → Option NodeStatus
get_node_status name s = get name s.node_status

-- `saturating_sub` and `retain`: an entry expires after 5 minutes.
unfoldable pub fresh : (now : ℕ) → List (Bytes × RrdEntry) → List (Bytes × RrdEntry)
fresh now [] = []
fresh now ((k, e) ∷ m) =
    if ltb (now - e.timestamp) (60 * 5) then (k, e) ∷ fresh now m else fresh now m

unfoldable pub remove_old_rrd_data : (now : ℕ) → Status → Status
remove_old_rrd_data now s = record s { rrd_data = fresh now s.rrd_data }

unfoldable pub dump_lines : List (Bytes × RrdEntry) → Bytes
dump_lines [] = 0 ∷ []
dump_lines ((k, e) ∷ m) = e.key ++ (codes ":" ++ (e.content ++ (10 ∷ dump_lines m)))

-- The cached dump, younger than 2 seconds.
abbrev cached : (now : ℕ) → Option (ℕ × Bytes) → Option Bytes
cached now none = none
cached now (some (cache_time, dump)) = if ltb (now - cache_time) 2 then some dump else none

unfoldable pub get_rrd_dump : (now : ℕ) → Status → Status × Bytes
get_rrd_dump now s = elim (cached now s.rrd_dump_cache) [
  | some dump ↦ (s, dump)
  | none ↦
      let kept = remove_old_rrd_data now s in
      let dump = dump_lines kept.rrd_data in
      (record kept { rrd_dump_cache = some (now, dump) }, dump)
]

abbrev pub or_default : {A : Type 0} → Option (List A) → List A
or_default none = []
or_default (some m) = m

abbrev pub new_version : Option (Bytes × ℕ) → ℕ
new_version none = 1
new_version (some (value, version)) = (version + 1) % 2 ^ 32

-- An empty value removes the key.
abbrev pub set_kv : (key value : Bytes) → List (Bytes × (Bytes × ℕ)) → List (Bytes × (Bytes × ℕ))
set_kv key [] kv = remove key kv
set_kv key (c ∷ cs) kv = insert key ((c ∷ cs), new_version (get key kv)) kv

abbrev set_ip_of : Option ClusterNode → (value : Bytes) → Status → Status
set_ip_of none value s = s
set_ip_of (some node) value s =
    if is_utf8 value then set_node_ip node.name (strip_nul value) s else s

abbrev set_known_kv : Option Bytes → (nodeid : ℕ) → (key value : Bytes) → Status → Status
set_known_kv (some rrd) nodeid key value s = s
set_known_kv none nodeid key value s =
    if bytes_eq key (codes "nodeip")
    then set_ip_of (get nodeid (nodes_of s.cluster_info)) value s
    else record s {
      kvstore = insert nodeid (set_kv key value (or_default (get nodeid s.kvstore))) s.kvstore;
    }

-- Unknown nodes are ignored, and so is RRD data of other nodes.
unfoldable pub set_node_kv : (nodeid : ℕ) → (key value : Bytes) → Status → Status
set_node_kv nodeid key value s =
    if is_known nodeid (nodes_of s.cluster_info)
    then set_known_kv (rrd_key key) nodeid key value s
    else s

abbrev pub value_of : Option (Bytes × ℕ) → Option Bytes
value_of none = none
value_of (some (value, version)) = some value

unfoldable pub get_node_kv : (nodeid : ℕ) → (key : Bytes) → Status → Option Bytes
get_node_kv nodeid key s = elim (get nodeid s.kvstore) [
  | none ↦ none
  | some kv ↦ value_of (get key kv)
]
