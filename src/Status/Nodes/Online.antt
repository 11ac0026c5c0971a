-- ===== src/Status/Nodes/Online.antt =====
-- Which nodes are online, and whose values are kept, after the changes of membership and configuration
-- in status.rs.
use pve_cluster.Prelude.{
  ℕ, none, some, [], ◌∷◌, true, false, Option, Bool, List, ◌≡◌, refl, ap, ◌∙◌, inl, inr, Bool-cases,
  Option-cases, if◌then◌else◌, ◌==◌, arith,
}
use pve_cluster.Bytes.{Bytes}
use pve_cluster.Map.{get, get-insert, nat_eq, bytes_key}
use pve_cluster.Status.{Status, ClusterInfo, ClusterNode, MemberInfo}
use pve_cluster.Status.Values.{get_node_kv}
use pve_cluster.Status.Nodes.{
  is_some, add_node, set_flag, all_offline, mark_online, update_members, ids_of, Configured,
  was_online, add_configured, is_known, retain_known, nodes_of, update_cluster_info, empty_info,
}

-- Whether a node is online, if it is known.
abbrev pub flag : Option ClusterNode → Option Bool
flag none = none
flag (some n) = some n.online

abbrev pub overwritten : Bool → Option Bool → Option Bool
overwritten b none = none
overwritten b (some old) = some b

unfoldable pub has_id : ℕ → List ℕ → Bool
has_id id [] = false
has_id id (k ∷ ks) = if k == id then true else has_id id ks

abbrev Nodes : Type 0
Nodes = List (ℕ × ClusterNode)

flag-set_flag :
    (id k : ℕ) (b : Bool) (m : Nodes)
    → flag (get id (set_flag k b m))
      ≡ (if k == id then overwritten b (flag (get id m)) else flag (get id m))
unfolding get set_flag
flag-set_flag id k b [] = ground arith
flag-set_flag id k b ((j, n) ∷ m) = grind (arith, flag-set_flag id k b m)

flag-all_offline :
    (id : ℕ) (m : Nodes) → flag (get id (all_offline m)) ≡ overwritten false (flag (get id m))
unfolding get all_offline
flag-all_offline id [] = refl
flag-all_offline id ((j, n) ∷ m) = elim (Bool-cases (j == id)) [
  | inl h ↦ rw (get, all_offline, h) refl
  | inr h ↦ rw (get, all_offline, h) (flag-all_offline id m)
]

overwritten-overwritten :
    (a b : Bool) (o : Option Bool) → overwritten a (overwritten b o) ≡ overwritten a o
overwritten-overwritten a b none = refl
overwritten-overwritten a b (some c) = refl

flag-mark_online :
    (id : ℕ) (ids : List ℕ) (m : Nodes)
    → flag (get id (mark_online ids m))
      ≡ (if has_id id ids then overwritten true (flag (get id m)) else flag (get id m))
unfolding mark_online has_id
flag-mark_online id [] m = refl
flag-mark_online id (k ∷ ks) m =
    let rest = flag-mark_online id ks (set_flag k true m) in
    let one = flag-set_flag id k true m in
    elim (Bool-cases (k == id)) [
      | inl h ↦ elim (Bool-cases (has_id id ks)) [
        | inl u ↦
            rw (mark_online, has_id, h)
              (rest ∙ rw (u, one, h) (overwritten-overwritten true true (flag (get id m))))
        | inr u ↦ rw (mark_online, has_id, h) (rest ∙ rw (u, one, h) refl)
      ]
      | inr h ↦ rw (mark_online, has_id, h) (rest ∙ rw (one, h) refl)
    ]

-- After the membership is updated, a known node is online when it is a member and else offline, whatever
-- it was before; the others stay unknown.
pub update_members-online :
    (members : List MemberInfo) (s : Status) (id : ℕ)
    → flag (get id (nodes_of (update_members members s).cluster_info))
      ≡ overwritten (has_id id (ids_of members)) (flag (get id (nodes_of s.cluster_info)))
unfolding update_members get
update_members-online members s id = elim (Option-cases s.cluster_info) [
  | inl h ↦ rw (update_members, h) refl
  | inr (info, h) ↦
      let offline = flag-all_offline id info.nodes_by_id in
      let o = flag-mark_online id (ids_of members) (all_offline info.nodes_by_id) in
      rw (update_members, h)
        (o ∙ (elim (Bool-cases (has_id id (ids_of members))) [
          | inl u ↦
              rw (u, offline) (overwritten-overwritten true false (flag (get id info.nodes_by_id)))
          | inr u ↦ rw (u, offline) refl
        ]))
]

abbrev pub configured_ids : List Configured → List ℕ
configured_ids [] = []
configured_ids (c ∷ cs) = c.node_id ∷ configured_ids cs

flag-add_node :
    (id : ℕ) (n : ClusterNode) (info : ClusterInfo)
    → flag (get id (add_node n info).nodes_by_id)
      ≡ (if n.node_id == id then some n.online else flag (get id info.nodes_by_id))
unfolding add_node
flag-add_node id n info = elim (Bool-cases (n.node_id == id)) [
  | inl h ↦ rw (get-insert n.node_id id n info.nodes_by_id, h) refl
  | inr h ↦ rw (get-insert n.node_id id n info.nodes_by_id, h) refl
]

flag-add_configured :
    (old : Nodes) (id : ℕ) (cs : List Configured) (info : ClusterInfo)
    → flag (get id (add_configured old cs info).nodes_by_id) ≡ (
        if has_id id (configured_ids cs)
        then some (was_online (get id old))
        else flag (get id info.nodes_by_id))
unfolding add_configured has_id
flag-add_configured old id [] info = refl
flag-add_configured old id (c ∷ cs) info =
    let n : ClusterNode = record {
      name = c.name;
      node_id = c.node_id;
      ip = c.ip;
      online = was_online (get c.node_id old);
    } in
    let rest = flag-add_configured old id cs (add_node n info) in
    let one = flag-add_node id n info in
    elim (Bool-cases (c.node_id == id)) [
      | inl h ↦
          let e : c.node_id ≡ id = ground (arith, h) in
          let own : some (was_online (get c.node_id old)) ≡ some (was_online (get id old)) =
            ap (λ k. some (was_online (get k old))) e in
          rw (add_configured, has_id, h)
            (rest ∙ (elim (Bool-cases (has_id id (configured_ids cs))) [
              | inl u ↦ rw u refl
              | inr u ↦ rw (u, one, h) own
            ]))
      | inr h ↦ rw (add_configured, has_id, h) (rest ∙ rw (one, h) refl)
    ]

-- After the configuration is updated, the known nodes are the configured ones; a node that was known
-- before stays online or offline, a new one is offline.
pub update_cluster_info-online :
    (cluster_name : Bytes) (config_version : ℕ) (nodes : List Configured) (s : Status) (id : ℕ)
    → flag
        (get id (nodes_of (update_cluster_info cluster_name config_version nodes s).cluster_info))
      ≡ (if has_id id (configured_ids nodes)
          then some (was_online (get id (nodes_of s.cluster_info)))
          else none)
unfolding update_cluster_info get
update_cluster_info-online cluster_name config_version nodes s id =
    flag-add_configured (nodes_of s.cluster_info) id nodes (empty_info cluster_name config_version)

get-retain_known :
    {A : Type 0} (nodes : Nodes) (id : ℕ) (m : List (ℕ × A))
    → get id (retain_known nodes m) ≡ (if is_known id nodes then get id m else none)
unfolding get retain_known
get-retain_known nodes id [] = ground arith
get-retain_known nodes id ((k, v) ∷ m) = elim (Bool-cases (k == id)) [
  | inl h ↦
      let e : is_known k nodes ≡ is_known id nodes =
        ap (λ j. is_known j nodes) (let p : k ≡ id = ground (arith, h) in p) in
      elim (Bool-cases (is_known id nodes)) [
        | inl u ↦ rw (retain_known, e, u, get, h) refl
        | inr u ↦ rw (retain_known, e, u) (get-retain_known nodes id m ∙ rw u refl)
      ]
  | inr h ↦ elim (Bool-cases (is_known k nodes)) [
    | inl u ↦ rw (retain_known, u, get, h) (get-retain_known nodes id m)
    | inr u ↦ rw (retain_known, u, get, h) (get-retain_known nodes id m)
  ]
]

abbrev is_flagged : Option Bool → Bool
is_flagged none = false
is_flagged (some b) = true

is_flagged_if : (b c : Bool) → is_flagged (if b then some c else none) ≡ b
is_flagged_if true c = refl
is_flagged_if false c = refl

is_some-flag : (o : Option ClusterNode) → is_some o ≡ is_flagged (flag o)
is_some-flag none = refl
is_some-flag (some n) = refl

is_known-flag : (id : ℕ) (m : Nodes) → is_known id m ≡ is_flagged (flag (get id m))
is_known-flag id m = is_some-flag (get id m)

get_node_kv-retain_known :
    (s t : Status) (nodes : Nodes) (id : ℕ) (key : Bytes)
    → t.kvstore ≡ retain_known nodes s.kvstore
    → get_node_kv id key t ≡ (if is_known id nodes then get_node_kv id key s else none)
unfolding get_node_kv
get_node_kv-retain_known s t nodes id key e =
    let r = ap (get id) e ∙ get-retain_known nodes id s.kvstore in
    elim (Bool-cases (is_known id nodes)) [
      | inl u ↦ rw (get_node_kv, r, u) refl
      | inr u ↦ rw (get_node_kv, r, u) refl
    ]

-- After the configuration is updated, the values of the nodes that it names are kept, and the others are
-- gone.
pub update_cluster_info-kvstore :
    (cluster_name : Bytes) (config_version : ℕ) (nodes : List Configured) (s : Status) (id : ℕ)
    (key : Bytes)
    → get_node_kv id key (update_cluster_info cluster_name config_version nodes s)
      ≡ (if has_id id (configured_ids nodes) then get_node_kv id key s else none)
unfolding update_cluster_info
update_cluster_info-kvstore cluster_name config_version nodes s id key =
    let t = update_cluster_info cluster_name config_version nodes s in
    let known : is_known id (nodes_of t.cluster_info) ≡ has_id id (configured_ids nodes) =
      is_known-flag id (nodes_of t.cluster_info)
      ∙ ap is_flagged (update_cluster_info-online cluster_name config_version nodes s id)
      ∙ is_flagged_if (has_id id (configured_ids nodes))
          (was_online (get id (nodes_of s.cluster_info))) in
    get_node_kv-retain_known s t (nodes_of t.cluster_info) id key refl
    ∙ ap (λ b. if b then get_node_kv id key s else none) known
