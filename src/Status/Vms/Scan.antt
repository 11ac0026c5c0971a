-- ===== src/Status/Vms/Scan.antt =====
-- `scan_vmlist` of status.rs: the list after a scan is that of the machines that were found.
use pve_cluster.Prelude.{
  ℕ, none, some, [], ◌∷◌, true, false, Option, List, ◌≡◌, refl, ap, ap₂, ◌∙◌, sym, inl, inr,
  Bool-cases, Option-cases, if◌then◌else◌, ◌==◌, arith,
}
use mathlib.Core.Option.{some-injective, none-ne-some}
use pve_cluster.Bytes.{Bytes, bytes_eq, bytes_eq_iff}
use pve_cluster.Map.{get, get-insert, nat_eq}
use pve_cluster.Status.{Status, VmType, qemu, lxc, VmEntry}
use pve_cluster.Status.Vms.{
  same_type, Scanned, renewed, is_changed, scan_one, scan_all, retain_found, scan_vmlist,
  next_version, has,
}

-- What a scan sees of a machine: its type and the node it runs on.
abbrev pub kind_of : Option VmEntry → Option (VmType × Bytes)
kind_of none = none
kind_of (some e) = some (e.vmtype, e.node)

-- The keys of a map.
abbrev pub IsUnique : List (ℕ × VmEntry) → Type 0
IsUnique [] = Unit {0}
IsUnique ((k, v) ∷ m) = (get k m ≡ none) × IsUnique m

pub get-head :
    (id k : ℕ) (v : VmEntry) (m : List (ℕ × VmEntry))
    → (k == id) ≡ true
    → get id ((k, v) ∷ m) ≡ some v
unfolding get
get-head id k v m h = rw (get, h) refl

pub get-tail :
    (id k : ℕ) (v : VmEntry) (m : List (ℕ × VmEntry))
    → (k == id) ≡ false
    → get id ((k, v) ∷ m) ≡ get id m
unfolding get
get-tail id k v m h = rw (get, h) refl

get-renewed :
    (id k : ℕ) (f : VmEntry) (p : Scanned)
    → (k == id) ≡ false
    → get id (renewed k f p).vmlist ≡ get id p.vmlist
get-renewed id k f p h =
    rw
      (
        get-insert k id
            (record {
              vmid = k;
              vmtype = f.vmtype;
              node = f.node;
              version = next_version p.counter;
            })
            p.vmlist,
        h,
      )
      refl

-- A step of the scan leaves the other machines alone.
get-scan_one :
    (id k : ℕ) (f : VmEntry) (o : Option VmEntry) (p : Scanned)
    → (k == id) ≡ false
    → get id (scan_one k f o p).vmlist ≡ get id p.vmlist
get-scan_one id k f none p h = get-renewed id k f p h
get-scan_one id k f (some e) p h = elim (Bool-cases (is_changed e f)) [
  | inl u ↦ rw u (get-renewed id k f p h)
  | inr u ↦ rw u refl
]

get-scan_all :
    (id : ℕ) (found : List (ℕ × VmEntry)) (p : Scanned)
    → get id found ≡ none
    → get id (scan_all found p).vmlist ≡ get id p.vmlist
unfolding scan_all
get-scan_all id [] p h = refl
get-scan_all id ((k, f) ∷ found) p h = elim (Bool-cases (k == id)) [
  | inl u ↦ absurd (none-ne-some f (sym h ∙ get-head id k f found u))
  | inr u ↦
      get-scan_all id found (scan_one k f (get k p.vmlist) p) (sym (get-tail id k f found u) ∙ h)
      ∙ get-scan_one id k f (get k p.vmlist) p u
]

same_type_eq : (a b : VmType) → same_type a b ≡ true → a ≡ b
same_type_eq qemu qemu h = refl
same_type_eq qemu lxc h = absurd (ground (arith, h))
same_type_eq lxc qemu h = absurd (ground (arith, h))
same_type_eq lxc lxc h = refl

unchanged_kind : (e f : VmEntry) → is_changed e f ≡ false → kind_of (some e) ≡ kind_of (some f)
unchanged_kind e f h =
    let t : same_type e.vmtype f.vmtype ≡ true = ground (arith, h) in
    let n : bytes_eq e.node f.node ≡ true = ground (arith, h) in
    ap₂ (λ a b. some (a, b)) (same_type_eq e.vmtype f.vmtype t) ((bytes_eq_iff e.node f.node).0 n)

kind-renewed :
    (k : ℕ) (f : VmEntry) (p : Scanned) → kind_of (get k (renewed k f p).vmlist) ≡ kind_of (some f)
kind-renewed k f p =
    let self : (k == k) ≡ true = ground arith in
    rw
      (
        get-insert k k
            (record {
              vmid = k;
              vmtype = f.vmtype;
              node = f.node;
              version = next_version p.counter;
            })
            p.vmlist,
        self,
      )
      refl

kind-scan_one :
    (k : ℕ) (f : VmEntry) (p : Scanned)
    → kind_of (get k (scan_one k f (get k p.vmlist) p).vmlist) ≡ kind_of (some f)
kind-scan_one k f p = elim (Option-cases (get k p.vmlist)) [
  | inl h ↦ rw h (kind-renewed k f p)
  | inr (e, h) ↦ elim (Bool-cases (is_changed e f)) [
    | inl u ↦ ap (λ o. kind_of (get k (scan_one k f o p).vmlist)) h ∙ rw u (kind-renewed k f p)
    | inr u ↦
        ap (λ o. kind_of (get k (scan_one k f o p).vmlist)) h
        ∙ rw u (ap kind_of h ∙ unchanged_kind e f u)
  ]
]

kind-scan_all :
    (id : ℕ) (found : List (ℕ × VmEntry)) (p : Scanned) (f : VmEntry)
    → IsUnique found
    → get id found ≡ some f
    → kind_of (get id (scan_all found p).vmlist) ≡ kind_of (some f)
unfolding scan_all get
kind-scan_all id [] p f u h = absurd (none-ne-some f h)
kind-scan_all id ((k, g) ∷ found) p f u h = elim (Bool-cases (k == id)) [
  | inl e ↦
      let n : k ≡ id = ground (arith, e) in
      let same : g ≡ f = some-injective g f (sym (get-head id k g found e) ∙ h) in
      let absent : get id found ≡ none = sym (ap (λ j. get j found) n) ∙ u.0 in
      ap kind_of (get-scan_all id found (scan_one k g (get k p.vmlist) p) absent)
      ∙ sym (ap (λ j. kind_of (get j (scan_one k g (get k p.vmlist) p).vmlist)) n)
      ∙ kind-scan_one k g p
      ∙ ap (λ x. kind_of (some x)) same
  | inr e ↦
      kind-scan_all id found (scan_one k g (get k p.vmlist) p) f u.1
        (sym (get-tail id k g found e) ∙ h)
]

get-retain_found :
    (found : List (ℕ × VmEntry)) (id : ℕ) (m : List (ℕ × VmEntry))
    → get id (retain_found found m) ≡ (if has (get id found) then get id m else none)
unfolding retain_found get
get-retain_found found id [] = elim (Bool-cases (has (get id found))) [
  | inl u ↦ rw u refl
  | inr u ↦ rw u refl
]
get-retain_found found id ((k, v) ∷ m) = elim (Bool-cases (k == id)) [
  | inl h ↦
      let n : k ≡ id = ground (arith, h) in
      let e : has (get k found) ≡ has (get id found) = ap (λ j. has (get j found)) n in
      elim (Bool-cases (has (get id found))) [
        | inl u ↦
            rw (retain_found, e, u)
              (get-head id k v (retain_found found m) h ∙ sym (get-head id k v m h))
        | inr u ↦ rw (retain_found, e, u) (get-retain_found found id m ∙ rw u refl)
      ]
  | inr h ↦ elim (Bool-cases (has (get k found))) [
    | inl u ↦
        rw (retain_found, u, get-tail id k v (retain_found found m) h, get-tail id k v m h)
          (get-retain_found found id m)
    | inr u ↦ rw (retain_found, u, get-tail id k v m h) (get-retain_found found id m)
  ]
]

-- After a scan the list holds the machines that were found and no others, each with the type and the
-- node that it was found with.
pub scan_vmlist-found :
    (found : List (ℕ × VmEntry)) (s : Status) (id : ℕ)
    → IsUnique found
    → kind_of (get id (scan_vmlist (some found) s).vmlist) ≡ kind_of (get id found)
unfolding scan_vmlist
scan_vmlist-found found s id u =
    let p = scan_all found (record { vmlist = s.vmlist; counter = s.vminfo_version_counter }) in
    let r = get-retain_found found id p.vmlist in
    elim (Option-cases (get id found)) [
      | inl h ↦ rw (r, h) refl
      | inr (f, h) ↦
          rw (r, h)
            (kind-scan_all id found
              (record { vmlist = s.vmlist; counter = s.vminfo_version_counter }) f u h)
    ]
