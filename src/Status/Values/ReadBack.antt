-- ===== src/Status/Values/ReadBack.antt =====
-- `set_node_kv` and `get_node_kv` of status.rs, one after the other.
use pve_cluster.Prelude.{
  ℕ, none, some, [], ◌∷◌, true, false, Option, List, ◌≡◌, refl, ap, ◌∙◌, inl, inr, Bool-cases,
  Option-cases, if◌then◌else◌, ◌==◌, arith,
}
use pve_cluster.Bytes.{Bytes, bytes_eq, codes}
use pve_cluster.Map.{get, get-insert, get-remove, nat_eq, bytes_key}
use pve_cluster.Status.{Status}
use pve_cluster.Status.Nodes.{is_known, nodes_of}
use pve_cluster.Status.Values.{
  set_node_kv, get_node_kv, set_kv, or_default, new_version, value_of, rrd_key,
}

-- The value that a key has after it was set: none if it was set to nothing.
abbrev pub set_value : Bytes → Option Bytes
set_value [] = none
set_value (c ∷ cs) = some (c ∷ cs)

value-set_kv :
    (key value k : Bytes) (kv : List (Bytes × (Bytes × ℕ)))
    → value_of (get k (set_kv key value kv))
      ≡ (if bytes_eq key k then set_value value else value_of (get k kv))
value-set_kv key [] k kv = elim (Bool-cases (bytes_eq key k)) [
  | inl h ↦ rw (get-remove key k kv, h) refl
  | inr h ↦ rw (get-remove key k kv, h) refl
]
value-set_kv key (c ∷ cs) k kv =
    let e = get-insert key k (c ∷ cs, new_version (get key kv)) kv in
    elim (Bool-cases (bytes_eq key k)) [ inl h ↦ rw (e, h) refl | inr h ↦ rw (e, h) refl ]

get_node_kv-default :
    (id : ℕ) (k : Bytes) (s : Status)
    → value_of (get k (or_default (get id s.kvstore))) ≡ get_node_kv id k s
unfolding get_node_kv get
get_node_kv-default id k s = elim (Option-cases (get id s.kvstore)) [
  | inl h ↦ rw (get_node_kv, h) refl
  | inr (kv, h) ↦ rw (get_node_kv, h) refl
]

-- For a known node and a key that is neither RRD data nor the node's address, a value that is set is the
-- one that is read, an empty one removes the key, and all other keys and nodes keep their values.
pub get_node_kv-set_node_kv :
    (nodeid : ℕ) (key value : Bytes) (s : Status)
    → is_known nodeid (nodes_of s.cluster_info) ≡ true
    → rrd_key key ≡ none
    → bytes_eq key (codes "nodeip") ≡ false
    → (id : ℕ) (k : Bytes)
    → get_node_kv id k (set_node_kv nodeid key value s) ≡ (
        if nodeid == id
        then (if bytes_eq key k then set_value value else get_node_kv id k s)
        else get_node_kv id k s)
unfolding set_node_kv get_node_kv
get_node_kv-set_node_kv nodeid key value s known plain other id k =
    let kv = set_kv key value (or_default (get nodeid s.kvstore)) in
    let e = get-insert nodeid id kv s.kvstore in
    elim (Bool-cases (nodeid == id)) [
      | inl h ↦
          let n : nodeid ≡ id = ground (arith, h) in
          rw (set_node_kv, known, plain, other, get_node_kv, e, h)
            (value-set_kv key value k (or_default (get nodeid s.kvstore))
              ∙ ap (λ o. if bytes_eq key k then set_value value else o)
                  (get_node_kv-default nodeid k s ∙ ap (λ i. get_node_kv i k s) n))
      | inr h ↦ rw (set_node_kv, known, plain, other, get_node_kv, e, h) refl
    ]
