-- ===== src/MemDb/VmList/Unique.antt =====
-- `recreate_vmlist` of vmlist.rs gives each number one machine, and a scan of status.rs takes them over.
use pve_cluster.Prelude.{
  ℕ, none, some, [], ◌∷◌, false, Option, List, ◌≡◌, refl, ◌∙◌, sym, inl, inr, Bool-cases, ◌==◌,
  ◌&&◌, arith,
}
use mathlib.Core.Option.{none-ne-some}
use pve_cluster.Bytes.{Bytes, codes}
use pve_cluster.Map.{get, insert, get-insert, nat_eq}
use pve_cluster.MemDb.Types.{TreeEntry, Result, ok, err, is_dir}
use pve_cluster.MemDb.State.{MemDb, readdir}
use pve_cluster.MemDb.External.{External}
use pve_cluster.MemDb.VmList.{
  add_new, parse_vm_config_name, is_valid_nodename, add_vm, add_vms, add_dir, node_path, add_nodes,
  of_nodes, recreate_vmlist,
}
use pve_cluster.Status.{VmType, qemu, lxc, VmEntry, Status}
use pve_cluster.Status.Vms.{scan_vmlist}
use pve_cluster.Status.Vms.Scan.{IsUnique, kind_of, get-head, get-tail, scan_vmlist-found}

insert-IsUnique :
    (k : ℕ) (v : VmEntry) (m : List (ℕ × VmEntry))
    → get k m ≡ none
    → IsUnique m
    → IsUnique (insert k v m)
unfolding insert get
insert-IsUnique k v [] h u = (refl, tt)
insert-IsUnique k v ((j, w) ∷ m) h u = elim (Bool-cases (j == k)) [
  | inl e ↦ absurd (none-ne-some w (sym h ∙ get-head k j w m e))
  | inr e ↦
      let apart : (k == j) ≡ false = ground (arith, e) in
      let kept : get j (insert k v m) ≡ none = get-insert k j v m ∙ rw apart u.0 in
      rw (insert, e) (kept, insert-IsUnique k v m (sym (get-tail k j w m e) ∙ h) u.1)
]

add_new-IsUnique :
    (o : Option VmEntry) (k : ℕ) (v : VmEntry) (m : List (ℕ × VmEntry))
    → get k m ≡ o
    → IsUnique m
    → IsUnique (add_new o k v m)
add_new-IsUnique none k v m h u = insert-IsUnique k v m h u
add_new-IsUnique (some w) k v m h u = u

add_vm-IsUnique :
    (t : VmType) (node : Bytes) (e : TreeEntry) (o : Option ℕ) (m : List (ℕ × VmEntry))
    → IsUnique m
    → IsUnique (add_vm t node e o m)
add_vm-IsUnique t node e none m u = u
add_vm-IsUnique t node e (some vmid) m u = add_new-IsUnique (get vmid m) vmid _ m refl u

add_vms-IsUnique :
    (t : VmType) (node : Bytes) (es : List TreeEntry) (m : List (ℕ × VmEntry))
    → IsUnique m
    → IsUnique (add_vms t node es m)
unfolding add_vms
add_vms-IsUnique t node [] m u = u
add_vms-IsUnique t node (e ∷ es) m u =
    let o = parse_vm_config_name e.name in
    add_vms-IsUnique t node es (add_vm t node e o m) (add_vm-IsUnique t node e o m u)

add_dir-IsUnique :
    (t : VmType) (node : Bytes) (r : Result (List TreeEntry)) (m : List (ℕ × VmEntry))
    → IsUnique m
    → IsUnique (add_dir t node r m)
add_dir-IsUnique t node (ok es) m u = add_vms-IsUnique t node es m u
add_dir-IsUnique t node (err e) m u = u

add_nodes-IsUnique :
    {x : External} (db : MemDb x) (ns : List TreeEntry) (m : List (ℕ × VmEntry))
    → IsUnique m
    → IsUnique (add_nodes db ns m)
unfolding add_nodes
add_nodes-IsUnique db [] m u = u
add_nodes-IsUnique db (n ∷ ns) m u = elim (Bool-cases (is_dir n && is_valid_nodename n.name)) [
  | inl h ↦
      rw (add_nodes, h)
        (add_nodes-IsUnique db ns _ (
          add_dir-IsUnique lxc n.name (readdir db (node_path n.name (codes "lxc"))) _ (
            add_dir-IsUnique qemu n.name (readdir db (node_path n.name (codes "qemu-server"))) m
              u)))
  | inr h ↦ rw (add_nodes, h) (add_nodes-IsUnique db ns m u)
]

of_nodes-IsUnique :
    {x : External} (db : MemDb x) (r : Result (List TreeEntry)) → IsUnique (of_nodes db r)
of_nodes-IsUnique db (ok es) = add_nodes-IsUnique db es [] tt
of_nodes-IsUnique db (err e) = tt

recreate_vmlist-IsUnique : {x : External} (db : MemDb x) → IsUnique (recreate_vmlist db)
unfolding recreate_vmlist
recreate_vmlist-IsUnique db = of_nodes-IsUnique db (readdir db (codes "nodes"))

-- After a scan of the database, the list of machines holds those whose configuration files were found,
-- and no others, each with the type and the node of its file.
pub scan_vmlist-recreate_vmlist :
    {x : External} (db : MemDb x) (s : Status) (id : ℕ)
    → kind_of (get id (scan_vmlist (some (recreate_vmlist db)) s).vmlist)
      ≡ kind_of (get id (recreate_vmlist db))
scan_vmlist-recreate_vmlist db s id =
    scan_vmlist-found (recreate_vmlist db) s id (recreate_vmlist-IsUnique db)
