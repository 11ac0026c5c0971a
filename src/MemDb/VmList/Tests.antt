-- ===== src/MemDb/VmList/Tests.antt =====
-- The list of machines of a small database.
use pve_cluster.Prelude.{none, some, [], ◌∷◌, ◌≡◌, refl}
use pve_cluster.Bytes.{codes, bytes_eq}
use pve_cluster.Map.{get, insert, nat_eq, bytes_key}
use pve_cluster.MemDb.Types.{dt_reg}
use pve_cluster.MemDb.State.{MemDb, readdir, lookup_path, resolve, walk, children_entries}
use pve_cluster.MemDb.Paths.{trim_start, trim, rfind, push_part, split_from, parts, starts_with}
use pve_cluster.MemDb.Tests.{plain, small, root}
use pve_cluster.MemDb.VmList.{
  recreate_vmlist, add_nodes, add_vms, parse_vm_config_name, parse_u32, parse_digits,
  is_valid_nodename, all_ldh, strip_suffix, parse_vm_config_path, split_slash, vmtype_of,
}
use pve_cluster.MemDb.VmList.Unique.{scan_vmlist-recreate_vmlist}
use pve_cluster.Status.{VmEntry, qemu, lxc, new}
use pve_cluster.Status.Vms.{scan_vmlist}
use pve_cluster.Status.Vms.Scan.{kind_of}

-- A database with the configuration of machine 100 on the node n1.
abbrev with_vm : MemDb plain
with_vm = record small {
  index =
      (0, root)
      ∷ (1, record root { inode = 1; name = codes "nodes" })
      ∷ (2, record root { inode = 2; parent = 1; name = codes "n1" })
      ∷ (3, record root { inode = 3; parent = 2; name = codes "qemu-server" })
      ∷ (
        4,
        record root {
          inode = 4;
          parent = 3;
          version = 6;
          entry_type = dt_reg;
          name = codes "100.conf";
        },
      )
      ∷ [];
  tree =
      (0, (codes "nodes", 1) ∷ [])
      ∷ (1, (codes "n1", 2) ∷ [])
      ∷ (2, (codes "qemu-server", 3) ∷ [])
      ∷ (3, (codes "100.conf", 4) ∷ [])
      ∷ [];
}

abbrev machine : VmEntry
machine = record { vmid = 100; vmtype = qemu; node = codes "n1"; version = 6 }

recreated : recreate_vmlist with_vm ≡ (100, machine) ∷ []
unfolding recreate_vmlist add_nodes add_vms parse_vm_config_name parse_u32 parse_digits
    is_valid_nodename all_ldh strip_suffix readdir lookup_path resolve walk children_entries
    trim_start trim rfind push_part split_from parts starts_with get insert bytes_eq
recreated = refl

path_read : parse_vm_config_path (codes "/nodes/n1/lxc/7.conf") ≡ some (codes "n1", (lxc, 7))
unfolding parse_vm_config_path split_slash vmtype_of parse_vm_config_name parse_u32 parse_digits
    is_valid_nodename all_ldh strip_suffix trim_start starts_with bytes_eq
path_read = refl

scan_vmlist-recreate_vmlist_example :
    kind_of
      (get 100 (scan_vmlist (some (recreate_vmlist with_vm)) (new (codes "n1") none 0)).vmlist)
    ≡ kind_of (get 100 (recreate_vmlist with_vm))
scan_vmlist-recreate_vmlist_example =
    scan_vmlist-recreate_vmlist with_vm (new (codes "n1") none 0) 100
