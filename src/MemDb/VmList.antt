-- ===== src/MemDb/VmList.antt =====
-- src/pmxcfs-rs/pmxcfs-memdb/src/vmlist.rs: the machines and containers whose configuration files lie
-- below the nodes' directories.
pub mod Unique
mod Tests
use pve_cluster.Prelude.{
  ℕ, none, some, [], ◌∷◌, true, false, Option, Bool, List, ◌+◌, ◌-◌, ◌*◌, ◌%◌, ◌^◌, ◌++◌,
  if◌then◌else◌, ltb, leb, length, take, drop, not, ◌&&◌, ◌||◌, ◌==◌,
}
use pve_cluster.Bytes.{Bytes, bytes_eq, codes}
use pve_cluster.Map.{get, insert, nat_eq}
use pve_cluster.MemDb.Types.{TreeEntry, Result, ok, err, is_dir}
use pve_cluster.MemDb.External.{External}
use pve_cluster.MemDb.Paths.{starts_with, trim_start, is_slash}
use pve_cluster.MemDb.State.{MemDb, readdir}
use pve_cluster.Status.{VmType, qemu, lxc, VmEntry}

-- `strip_suffix`.
unfoldable pub strip_suffix : Bytes → Bytes → Option Bytes
strip_suffix suffix name =
    let n = length name - length suffix in
    if leb (length suffix) (length name) && bytes_eq (drop n name) suffix
    then some (take n name)
    else none

-- `is_ascii_digit` and `is_ascii_alphanumeric`.
abbrev pub is_digit : ℕ → Bool
is_digit c = leb 48 c && leb c 57

abbrev pub is_alphanumeric : ℕ → Bool
is_alphanumeric c = is_digit c || ((leb 65 c && leb c 90) || (leb 97 c && leb c 122))

-- `parse::<u32>()`: one digit at least, no overflow, and a plus sign may come first.
unfoldable pub parse_digits : ℕ → Bytes → Option ℕ
parse_digits acc [] = some acc
parse_digits acc (c ∷ cs) =
    let next = acc * 10 + (c - 48) in
    let rest = parse_digits next cs in if is_digit c && ltb next (2 ^ 32) then rest else none

abbrev parse_unsigned : Bytes → Option ℕ
parse_unsigned [] = none
parse_unsigned (c ∷ cs) = parse_digits 0 (c ∷ cs)

unfoldable pub parse_u32 : Bytes → Option ℕ
parse_u32 [] = none
parse_u32 (c ∷ cs) = if c == 43 then parse_unsigned cs else parse_unsigned (c ∷ cs)

abbrev parse_vmid : Option Bytes → Option ℕ
parse_vmid none = none
parse_vmid (some vmid_str) = if starts_with (codes "0") vmid_str then none else parse_u32 vmid_str

unfoldable pub parse_vm_config_name : Bytes → Option ℕ
parse_vm_config_name name = parse_vmid (strip_suffix (codes ".conf") name)

unfoldable pub all_ldh : Bytes → Bool
all_ldh [] = true
all_ldh (c ∷ cs) = (is_alphanumeric c || (c == 45)) && all_ldh cs

unfoldable pub is_valid_nodename : Bytes → Bool
is_valid_nodename name =
    not (bytes_eq name [] || ltb 255 (length name))
    && (not (starts_with (codes "-") name || bytes_eq (drop (length name - 1) name) (codes "-"))
        && all_ldh name)

-- `split('/')`, with the empty parts.
abbrev to_first : ℕ → List Bytes → List Bytes
to_first c [] = (c ∷ []) ∷ []
to_first c (p ∷ ps) = (c ∷ p) ∷ ps

unfoldable pub split_slash : Bytes → List Bytes
split_slash [] = [] ∷ []
split_slash (c ∷ cs) =
    let rest = split_slash cs in if is_slash c then [] ∷ rest else to_first c rest

unfoldable pub vmtype_of : Bytes → Option VmType
vmtype_of name =
    if bytes_eq name (codes "qemu-server")
    then some qemu
    else (if bytes_eq name (codes "lxc") then some lxc else none)

abbrev config_of : Bytes → Option VmType → Option ℕ → Option (Bytes × (VmType × ℕ))
config_of nodename none vmid = none
config_of nodename (some vmtype) none = none
config_of nodename (some vmtype) (some vmid) = some (nodename, (vmtype, vmid))

abbrev config_at : List Bytes → Option (Bytes × (VmType × ℕ))
config_at [] = none
config_at (a ∷ []) = none
config_at (a ∷ b ∷ []) = none
config_at (a ∷ b ∷ c ∷ []) = none
config_at (nodes ∷ nodename ∷ vmtype_dir ∷ filename ∷ []) =
    if bytes_eq nodes (codes "nodes") && is_valid_nodename nodename
    then config_of nodename (vmtype_of vmtype_dir) (parse_vm_config_name filename)
    else none
config_at (a ∷ b ∷ c ∷ d ∷ e ∷ ps) = none

unfoldable pub parse_vm_config_path : Bytes → Option (Bytes × (VmType × ℕ))
parse_vm_config_path path = config_at (split_slash (trim_start path))

-- A machine that is there already is a duplicate, which is only logged.
abbrev pub add_new : Option VmEntry → ℕ → VmEntry → List (ℕ × VmEntry) → List (ℕ × VmEntry)
add_new none vmid found vmlist = insert vmid found vmlist
add_new (some existing) vmid found vmlist = vmlist

abbrev pub add_vm : VmType → Bytes → TreeEntry → Option ℕ → List (ℕ × VmEntry) → List (ℕ × VmEntry)
add_vm vmtype node entry none vmlist = vmlist
add_vm vmtype node entry (some vmid) vmlist =
    add_new (get vmid vmlist) vmid
      (record { vmid = vmid; vmtype = vmtype; node = node; version = entry.version % 2 ^ 32 })
      vmlist

unfoldable pub add_vms : VmType → Bytes → List TreeEntry → List (ℕ × VmEntry) → List (ℕ × VmEntry)
add_vms vmtype node [] vmlist = vmlist
add_vms vmtype node (e ∷ es) vmlist =
    add_vms vmtype node es (add_vm vmtype node e (parse_vm_config_name e.name) vmlist)

abbrev pub add_dir :
    VmType → Bytes → Result (List TreeEntry) → List (ℕ × VmEntry) → List (ℕ × VmEntry)
add_dir vmtype node (ok entries) vmlist = add_vms vmtype node entries vmlist
add_dir vmtype node (err e) vmlist = vmlist

abbrev pub node_path : Bytes → Bytes → Bytes
node_path node dir = codes "nodes/" ++ (node ++ (codes "/" ++ dir))

unfoldable pub add_nodes :
    {x : External} → MemDb x → List TreeEntry → List (ℕ × VmEntry) → List (ℕ × VmEntry)
add_nodes m [] vmlist = vmlist
add_nodes m (n ∷ ns) vmlist =
    if is_dir n && is_valid_nodename n.name
    then add_nodes m ns (
        add_dir lxc n.name (readdir m (node_path n.name (codes "lxc")))
          (add_dir qemu n.name (readdir m (node_path n.name (codes "qemu-server"))) vmlist))
    else add_nodes m ns vmlist

abbrev pub of_nodes : {x : External} → MemDb x → Result (List TreeEntry) → List (ℕ × VmEntry)
of_nodes m (ok entries) = add_nodes m entries []
of_nodes m (err e) = []

-- It never fails: an error of `readdir` is an empty directory.
unfoldable pub recreate_vmlist : {x : External} → MemDb x → List (ℕ × VmEntry)
recreate_vmlist m = of_nodes m (readdir m (codes "nodes"))
