-- ===== src/MemDb/Encode/Mirrored.antt =====
-- `encode_index` of sync.rs and the table of SQLite.
use pve_cluster.Prelude.{
  ℕ, ◌≡◌, refl, subst, ◌∙◌, Option, none, some, arith, Bool, if◌then◌else◌, Bool-cases, ◌==◌, inl,
  inr,
}
use mathlib.Core.Option
use pve_cluster.Map.{get, insert, get-insert, nat_eq}
use pve_cluster.MemDb.Types.{TreeEntry, ok, root_inode}
use pve_cluster.MemDb.External.{External, Row, Table, effect, update_version}
use pve_cluster.MemDb.State.{MemDb, Index}
use pve_cluster.MemDb.Index.{MemDbIndex}
use pve_cluster.MemDb.Mirror.{Mirrors, IsMirrored, RootAgrees}
use pve_cluster.MemDb.Encode.{
  version_committed, raised, encode_index, encode_root, version_begun, version_executed, Result,
  encoded,
}

versioned-RootAgrees :
    (v : ℕ) (e : TreeEntry) (r : Option Row)
    → RootAgrees (some e) r
    → RootAgrees
        (some (record e { version = v }))
        (Option.map (λ (r : Row). record r { version = v }) r)
versioned-RootAgrees v e none h = absurd h
versioned-RootAgrees v e (some r) h = (refl, h.1, h.2, h.3, h.4)

-- The version of the root in both places.
Mirrors-version :
    (index : Index) (t u : Table) (v : ℕ) (e : TreeEntry)
    → Mirrors index t
    → get root_inode index ≡ some e
    → ((j : ℕ) → u j ≡ effect (update_version v root_inode) t j)
    → Mirrors (insert root_inode (record e { version = v }) index) u
Mirrors-version index t u v e h g s = record {
  root =
      rw (get-insert root_inode root_inode (record e { version = v }) index, s root_inode)
        (versioned-RootAgrees v e (t root_inode)
          (subst (λ o. RootAgrees o (t root_inode)) g h.root));
  rows = λ j n.
      ground (arith, s j, h.rows j n, get-insert root_inode j (record e { version = v }) index);
  keyed = λ j a. ground (
    arith,
    get-insert root_inode j (record e { version = v }) index,
    h.keyed j a,
    h.keyed root_inode e g,
  );
}

module _ {x : External} where
  committed-IsMirrored :
      (m : MemDb x) (e : TreeEntry) (i : MemDbIndex) (t u : x.Conn) (o : Option x.Conn)
      → IsMirrored m
      → get root_inode m.index ≡ some e
      → ((j : ℕ) → x.table u j ≡ effect (update_version m.version root_inode) (x.table m.conn) j)
      → x.commit u ≡ o
      → (version_committed (raised m e) o).1 ≡ ok i
      → IsMirrored (version_committed (raised m e) o).0
  unfolding version_committed
  committed-IsMirrored m e i t u none h g s c k = cc
  committed-IsMirrored m e i t u (some conn) h g s c k =
      Mirrors-version m.index (x.table m.conn) (x.table conn) m.version e h g
        (λ j. x.commit_lem u conn c j ∙ s j)

  executed-IsMirrored :
      (m : MemDb x) (e : TreeEntry) (i : MemDbIndex) (t : x.Conn) (o : Option x.Conn)
      → IsMirrored m
      → get root_inode m.index ≡ some e
      → ((j : ℕ) → x.table t j ≡ x.table m.conn j)
      → x.execute (update_version m.version root_inode) t ≡ o
      → (version_executed (raised m e) o).1 ≡ ok i
      → IsMirrored (version_executed (raised m e) o).0
  unfolding version_executed
  executed-IsMirrored m e i t none h g s c k = cc
  executed-IsMirrored m e i t (some u) h g s c k =
      committed-IsMirrored m e i t u (x.commit u) h g
        (λ j. ground (arith, x.execute_lem (update_version m.version root_inode) t u c j, s j)) refl
        k

  begun-IsMirrored :
      (m : MemDb x) (e : TreeEntry) (i : MemDbIndex) (o : Option x.Conn)
      → IsMirrored m
      → get root_inode m.index ≡ some e
      → x.begin m.conn ≡ o
      → (version_begun (raised m e) o).1 ≡ ok i
      → IsMirrored (version_begun (raised m e) o).0
  unfolding version_begun
  begun-IsMirrored m e i none h g c k = cc
  begun-IsMirrored m e i (some t) h g c k =
      executed-IsMirrored m e i t _ h g (λ j. x.begin_lem m.conn t c j) refl k

  encode_root-IsMirrored :
      (m : MemDb x) (i : MemDbIndex) (o : Option TreeEntry)
      → IsMirrored m
      → get root_inode m.index ≡ o
      → (encode_root m o).1 ≡ ok i
      → IsMirrored (encode_root m o).0
  unfolding encode_root
  encode_root-IsMirrored m i none h g k = h
  encode_root-IsMirrored m i (some e) h g k = elim (Bool-cases (e.version == m.version)) [
    | inl t ↦ rw t h
    | inr f ↦
        let k' : (version_begun (raised m e) (x.begin m.conn)).1 ≡ ok i =
          subst (λ (b : Bool). (encode_by m e b).1 ≡ ok i) f k in
        rw f (begun-IsMirrored m e i _ h g refl k')
  ]
    where
      encode_by : MemDb x → TreeEntry → Bool → MemDb x × Result MemDbIndex
      encode_by m e b = if b then (m, encoded m) else version_begun (raised m e) (x.begin m.conn)

  -- If the table of SQLite mirrored the entries in memory and the index of the database is encoded
  -- without an error, the table mirrors the entries afterwards too.
  pub encode_index-IsMirrored :
      (m : MemDb x) (i : MemDbIndex)
      → IsMirrored m
      → (encode_index m).1 ≡ ok i
      → IsMirrored (encode_index m).0
  unfolding encode_index
  encode_index-IsMirrored m i h k = encode_root-IsMirrored m i _ h refl k
