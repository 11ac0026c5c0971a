-- ===== src/MemDb/Mirror.antt =====
-- The relation between the table `tree` of SQLite and the index in memory (database.rs).
pub mod Steps
pub mod Moves
pub mod History
pub mod SelfRename
use pve_cluster.MemDb.Mutation.Root.{touch, get-update_root_metadata}
use pve_cluster.Prelude.{
  true, false, ℕ, ◌≡◌, ◌≢◌, refl, sym, subst, ap, ◌∙◌, inl, inr, Option, none, some, arith, ◌==◌,
  if◌then◌else◌, Option-cases, ==_iff, ==_ne,
}
use mathlib.Core.Option
use pve_cluster.Map.{get, insert, remove, get-insert, get-remove, nat_eq}
use pve_cluster.MemDb.Types.{TreeEntry, is_dir, root_inode}
use pve_cluster.MemDb.External.{External, Row, Table, effect, update_meta}
use pve_cluster.MemDb.State.{MemDb, Index}
use pve_cluster.MemDb.Mutation.{update_root_metadata}
use pve_cluster.MemDb.Create.{to_row}

-- The row `__version__` carries the metadata of the root, which is a directory; every other row is the entry of its inode.
abbrev pub RootAgrees : Option TreeEntry → Option Row → Type 0
RootAgrees none r = ⊥
RootAgrees (some e) none = ⊥
RootAgrees (some e) (some r) =
    (e.version ≡ r.version)
    × (e.writer ≡ r.writer)
    × (e.mtime ≡ r.mtime)
    × (e.inode ≡ root_inode)
    × (is_dir e ≡ true)

pub record Mirrors (index : Index) (t : Table) : Type 0 where
  pub root : RootAgrees (get root_inode index) (t root_inode)
  pub rows : (j : ℕ) → j ≢ root_inode → t j ≡ Option.map to_row (get j index)
  pub keyed : (j : ℕ) (e : TreeEntry) → get j index ≡ some e → e.inode ≡ j

abbrev pub IsMirrored : {x : External} → MemDb x → Type 0
IsMirrored {x} m = Mirrors m.index (x.table m.conn)

touch-RootAgrees :
    (v w m : ℕ) (o : Option TreeEntry) (r : Option Row)
    → RootAgrees o r
    → RootAgrees
        (Option.map (touch v w m) o)
        (Option.map (λ (r : Row). record r { version = v; writer = w; mtime = m }) r)
touch-RootAgrees v w m none r h = absurd h
touch-RootAgrees v w m (some e) none h = absurd h
touch-RootAgrees v w m (some e) (some r) h = (refl, refl, refl, h.3, h.4)

abbrev KeyedAt : ℕ → Option TreeEntry → Type 0
KeyedAt j o = (e : TreeEntry) → o ≡ some e → e.inode ≡ j

-- The metadata of the root in both places.
pub Mirrors-meta :
    (index : Index) (t u : Table) (v w m : ℕ)
    → Mirrors index t
    → ((j : ℕ) → u j ≡ effect (update_meta v w m root_inode) t j)
    → Mirrors (update_root_metadata index v w m) u
Mirrors-meta index t u v w m h e = record {
  root =
      rw (get-update_root_metadata index v w m root_inode, e root_inode)
        (touch-RootAgrees v w m (get root_inode index) (t root_inode) h.root);
  rows = λ j n. ground (arith, e j, h.rows j n, get-update_root_metadata index v w m j);
  keyed = λ j a k. elim (Option-cases (get j index)) [
    | inl z ↦ ground (arith, get-update_root_metadata index v w m j)
    | inr (b, z) ↦ ground (arith, h.keyed j b z, get-update_root_metadata index v w m j)
  ];
}

-- An entry that is stored in both places.
pub Mirrors-insert :
    (index : Index) (t u : Table) (e : TreeEntry)
    → Mirrors index t
    → e.inode ≢ root_inode
    → ((j : ℕ) → u j ≡ (if e.inode == j then some (to_row e) else t j))
    → Mirrors (insert e.inode e index) u
Mirrors-insert index t u e h n s = record {
  root =
      rw (get-insert e.inode root_inode e index, s root_inode, ==_ne e.inode root_inode n) h.root;
  rows = λ j k. ground (arith, s j, h.rows j k, get-insert e.inode j e index);
  keyed = λ j a k. ground (arith, get-insert e.inode j e index, h.keyed j a);
}

-- An entry that is gone from both places.
pub Mirrors-remove :
    (index : Index) (t u : Table) (i : ℕ)
    → Mirrors index t
    → i ≢ root_inode
    → ((j : ℕ) → u j ≡ (if i == j then none else t j))
    → Mirrors (remove i index) u
Mirrors-remove index t u i h n s = record {
  root = rw (get-remove i root_inode index, s root_inode, ==_ne i root_inode n) h.root;
  rows = λ j k. ground (arith, s j, h.rows j k, get-remove i j index);
  keyed = λ j a k. ground (arith, get-remove i j index, h.keyed j a);
}

pub Mirrors-ext :
    (index : Index) (t u : Table) → Mirrors index t → ((j : ℕ) → u j ≡ t j) → Mirrors index u
Mirrors-ext index t u h s = record {
  root = subst (RootAgrees (get root_inode index)) (sym (s root_inode)) h.root;
  rows = λ j n. s j ∙ h.rows j n;
  keyed = h.keyed;
}

-- What a commit leaves: the root's metadata and one stored entry.
pub Mirrors-stored :
    (index : Index) (t0 t u v : Table) (version w m : ℕ) (e : TreeEntry)
    → Mirrors index t0
    → ((j : ℕ) → t j ≡ effect (update_meta version w m root_inode) t0 j)
    → e.inode ≢ root_inode
    → ((j : ℕ) → u j ≡ (if e.inode == j then some (to_row e) else t j))
    → ((j : ℕ) → v j ≡ u j)
    → Mirrors (insert e.inode e (update_root_metadata index version w m)) v
Mirrors-stored index t0 t u v version w m e h s n q k =
    Mirrors-insert _ t v e (Mirrors-meta index t0 t version w m h s) n (λ j. k j ∙ q j)

-- The row of an entry below the root, once the transaction has begun.
pub row_of :
    (index : Index) (t0 t : Table) (version w m i : ℕ) (e : TreeEntry)
    → Mirrors index t0
    → ((j : ℕ) → t j ≡ effect (update_meta version w m root_inode) t0 j)
    → get i index ≡ some e
    → i ≢ root_inode
    → t i ≡ some (to_row e)
row_of index t0 t version w m i e h s g n = ground (arith, s i, h.rows i n)

pub file-ne-root :
    (index : Index) (t : Table) (i : ℕ) (e : TreeEntry)
    → Mirrors index t
    → get i index ≡ some e
    → is_dir e ≡ false
    → i ≢ root_inode
file-ne-root index t i e h g d z =
    let d' : is_dir e ≡ true =
      root_is_dir (get root_inode index) (t root_inode) h.root
        (ap (λ k. get k index) (sym z) ∙ g) in
    cc
  where
    root_is_dir :
        (o : Option TreeEntry) (r : Option Row) → RootAgrees o r → o ≡ some e → is_dir e ≡ true
    root_is_dir none r a q = cc
    root_is_dir (some e') none a q = absurd a
    root_is_dir (some e') (some r) a q = ground (arith, a.4)
