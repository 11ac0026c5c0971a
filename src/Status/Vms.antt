-- ===== src/Status/Vms.antt =====
-- The list of virtual machines and containers in status.rs.
pub mod Scan
use pve_cluster.Prelude.{
  ℕ, none, some, [], ◌∷◌, true, false, Option, Bool, List, ◌+◌, ◌%◌, ◌^◌, if◌then◌else◌, not, ◌||◌,
}
use pve_cluster.Bytes.{Bytes, bytes_eq}
use pve_cluster.Map.{get, insert, remove, nat_eq}
use pve_cluster.Status.{Status, VmType, qemu, lxc, VmEntry, succ64, increment_vmlist_version}

abbrev pub same_type : VmType → VmType → Bool
same_type qemu qemu = true
same_type qemu lxc = false
same_type lxc qemu = false
same_type lxc lxc = true

-- `(fetch_add(1) + 1) as u32`, of the counter before.
abbrev pub next_version : ℕ → ℕ
next_version counter = (counter + 1) % 2 ^ 32

unfoldable pub register_vm : ℕ → VmType → Bytes → Status → Status
register_vm vmid vmtype node s = record s {
  vminfo_version_counter = succ64 s.vminfo_version_counter;
  vmlist =
      insert vmid
        (record {
          vmid = vmid;
          vmtype = vmtype;
          node = node;
          version = next_version s.vminfo_version_counter;
        })
        s.vmlist;
  vmlist_version = succ64 s.vmlist_version;
}

unfoldable pub delete_vm : ℕ → Status → Status
delete_vm vmid s = record s {
  vmlist = remove vmid s.vmlist;
  vmlist_version = succ64 s.vmlist_version;
}

abbrev pub has : {A : Type 0} → Option A → Bool
has none = false
has (some a) = true

unfoldable pub vm_exists : ℕ → Status → Bool
vm_exists vmid s = has (get vmid s.vmlist)

unfoldable pub different_vm_exists : ℕ → VmType → Bytes → Status → Bool
different_vm_exists vmid vmtype node s = elim (get vmid s.vmlist) [
  | none ↦ false
  | some entry ↦ not (same_type entry.vmtype vmtype) || not (bytes_eq entry.node node)
]

-- The list and the counter while a scan goes through the machines that it found.
pub record Scanned : Type 0 where
  pub vmlist : List (ℕ × VmEntry)
  pub counter : ℕ

abbrev pub renewed : ℕ → VmEntry → Scanned → Scanned
renewed vmid found p = record {
  vmlist =
      insert vmid
        (record {
          vmid = vmid;
          vmtype = found.vmtype;
          node = found.node;
          version = next_version p.counter;
        })
        p.vmlist;
  counter = succ64 p.counter;
}

abbrev pub is_changed : VmEntry → VmEntry → Bool
is_changed existing found =
    not (same_type existing.vmtype found.vmtype) || not (bytes_eq existing.node found.node)

abbrev pub scan_one : ℕ → VmEntry → Option VmEntry → Scanned → Scanned
scan_one vmid found none p = renewed vmid found p
scan_one vmid found (some existing) p =
    if is_changed existing found then renewed vmid found p else p

unfoldable pub scan_all : List (ℕ × VmEntry) → Scanned → Scanned
scan_all [] p = p
scan_all ((vmid, found) ∷ new_vmlist) p =
    scan_all new_vmlist (scan_one vmid found (get vmid p.vmlist) p)

-- `retain(|vmid, _| new_vmlist.contains_key(vmid))`.
unfoldable pub retain_found : List (ℕ × VmEntry) → List (ℕ × VmEntry) → List (ℕ × VmEntry)
retain_found found [] = []
retain_found found ((k, v) ∷ m) =
    if has (get k found) then (k, v) ∷ retain_found found m else retain_found found m

-- With the answer of `recreate_vmlist`.
unfoldable pub scan_vmlist : Option (List (ℕ × VmEntry)) → Status → Status
scan_vmlist none s = s
scan_vmlist (some new_vmlist) s =
    let p =
      scan_all new_vmlist (record { vmlist = s.vmlist; counter = s.vminfo_version_counter }) in
    record s {
      vmlist = retain_found new_vmlist p.vmlist;
      vminfo_version_counter = p.counter;
      vmlist_version = succ64 s.vmlist_version;
    }
