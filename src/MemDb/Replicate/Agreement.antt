-- ===== src/MemDb/Replicate/Agreement.antt =====
-- The table of SQLite and the index in memory through `apply_tree_entry` and `replace_all_entries`.
use pve_cluster.MemDb.Mutation.Root.{get-update_root_metadata}
use mathlib.Core.Option.{Option, some-injective}
use pve_cluster.Prelude.{
  ℕ, none, some, [], ◌∷◌, ◌≡◌, List, ap, Option-cases, Option, sym, inl, arith, ◌∙◌, inr, ◌≢◌, refl,
  ==_ne,
}
use mathlib.Core.Option
use pve_cluster.Map.{get, insert, get-insert, nat_eq}
use pve_cluster.MemDb.Types.{TreeEntry, ok, err, root_inode, commit_failed}
use pve_cluster.MemDb.External.{External, Table, update_meta, insert_row, replace_row, delete_all}
use pve_cluster.MemDb.State.{MemDb, Index, Tree}
use pve_cluster.MemDb.Create.{to_row, link}
use pve_cluster.MemDb.Mirror.{IsMirrored, Mirrors, Mirrors-insert, Mirrors-meta, Mirrors-ext}
use pve_cluster.MemDb.Replicate.{
  apply_tree_entry, apply_begun, apply_executed, apply_committed, apply_memory, apply_statements,
  applied_index, replace_all_entries, replace_begun, replace_executed, replace_committed,
  replace_rows, insert_rows, replaced, load_entries, List, stored_row, with_children,
}

-- Every row is the entry of its inode.
abbrev pub RowsAre : Index → Table → Type 0
RowsAre index t = (j : ℕ) → t j ≡ Option.map to_row (get j index)

module _ (x : External) where
  insert_rows-RowsAre :
      (es : List TreeEntry) (tx tx' : x.Conn) (index : Index) (tree : Tree)
      → RowsAre index (x.table tx)
      → insert_rows x es tx ≡ some tx'
      → RowsAre (load_entries es index tree).0 (x.table tx')
  unfolding insert_rows load_entries
  insert_rows-RowsAre [] tx tx' index tree r h j =
      ap (λ t. x.table t j) (sym (some-injective tx tx' h)) ∙ r j
  insert_rows-RowsAre (e ∷ es) tx tx' index tree r h j =
      elim (Option-cases (x.execute (insert_row e.inode (to_row e)) tx)) [
        | inl n ↦ absurd (ground (arith, h, n))
        | inr (tx1, n) ↦
            insert_rows-RowsAre es tx1 tx' (insert e.inode e index)
              (with_children e (link e.parent e.name e.inode tree))
              (λ i.
                x.execute_lem (insert_row e.inode (to_row e)) tx tx1 n i
                ∙ ground (arith, r i, get-insert e.inode i e index))
              (ground (arith, h, n)) j
      ]

  replace_rows-RowsAre :
      (es : List TreeEntry) (tx tx' : x.Conn)
      → replace_rows x es tx ≡ some tx'
      → RowsAre (load_entries es [] []).0 (x.table tx')
  unfolding replace_rows get
  replace_rows-RowsAre es tx tx' h = elim (Option-cases (x.execute delete_all tx)) [
    | inl n ↦ absurd (ground (arith, h, n))
    | inr (tx1, n) ↦
        insert_rows-RowsAre es tx1 tx' [] [] (λ j. x.execute_lem _ tx tx1 n j)
          (ground (arith, h, n))
  ]

  apply_statements-Mirrors :
      (index : Index) (e : TreeEntry) (tx tx' : x.Conn)
      → Mirrors index (x.table tx)
      → e.inode ≢ root_inode
      → apply_statements x e tx ≡ some tx'
      → Mirrors (applied_index e index) (x.table tx')
  unfolding apply_statements
  apply_statements-Mirrors index e tx tx' h n s =
      elim (Option-cases (x.execute (replace_row e.inode (stored_row e)) tx)) [
        | inl z ↦ absurd (ground (arith, s, z))
        | inr (tx1, z) ↦
            let other = ==_ne e.inode root_inode n in
            let put =
              Mirrors-insert index (x.table tx) (x.table tx1) e h n
                (λ j. x.execute_lem _ tx tx1 z j ∙ ground (arith, other)) in
            let meta =
              Mirrors-meta (insert e.inode e index) (x.table tx1) (x.table tx') e.version e.writer
                e.mtime put
                (x.execute_lem (update_meta e.version e.writer e.mtime root_inode) tx1 tx'
                  (ground (arith, s, z, other))) in
            rw other meta
      ]

module _ {x : External} where
  replace_executed-RowsAre :
      (m : MemDb x) (es : List TreeEntry) (tx : x.Conn) (o : Option x.Conn)
      → replace_rows x es tx ≡ o
      → (replace_executed m es o).1 ≡ ok tt
      → RowsAre (replace_executed m es o).0.index (x.table (replace_executed m es o).0.conn)
  unfolding replace_executed replace_committed replaced
  replace_executed-RowsAre m es tx none r h = cc
  replace_executed-RowsAre m es tx (some tx') r h = elim (Option-cases (x.commit tx')) [
    | inl n ↦ absurd (ground (arith, h, n))
    | inr (conn, n) ↦ rw n (λ j. x.commit_lem tx' conn n j ∙ replace_rows-RowsAre x es tx tx' r j)
  ]

  replace_begun-RowsAre :
      (m : MemDb x) (es : List TreeEntry) (o : Option x.Conn)
      → (replace_begun m es o).1 ≡ ok tt
      → RowsAre (replace_begun m es o).0.index (x.table (replace_begun m es o).0.conn)
  unfolding replace_begun
  replace_begun-RowsAre m es none h = cc
  replace_begun-RowsAre m es (some tx) h = replace_executed-RowsAre m es tx _ refl h

  -- After a replacement of all entries that succeeds, every row of the table is the entry in memory of
  -- its inode, and the inodes without an entry have no row.
  pub replace_all_entries-RowsAre :
      (m : MemDb x) (es : List TreeEntry)
      → (replace_all_entries m es).1 ≡ ok tt
      → RowsAre (replace_all_entries m es).0.index (x.table (replace_all_entries m es).0.conn)
  unfolding replace_all_entries
  replace_all_entries-RowsAre m es h = replace_begun-RowsAre m es (x.begin m.conn) h

  apply_executed-IsMirrored :
      (m : MemDb x) (e : TreeEntry) (tx : x.Conn) (o : Option x.Conn)
      → Mirrors m.index (x.table tx)
      → IsMirrored m
      → e.inode ≢ root_inode
      → apply_statements x e tx ≡ o
      → (apply_executed m e o).1 ≢ err commit_failed
      → IsMirrored (apply_executed m e o).0
  unfolding apply_executed apply_committed apply_memory
  apply_executed-IsMirrored m e tx none h h0 n s r = h0
  apply_executed-IsMirrored m e tx (some tx') h h0 n s r = elim (Option-cases (x.commit tx')) [
    | inl z ↦ absurd (r (rw z refl))
    | inr (conn, z) ↦ rw z (
        Mirrors-ext _ (x.table tx') (x.table conn)
          (apply_statements-Mirrors x m.index e tx tx' h n s) (x.commit_lem tx' conn z))
  ]

  apply_begun-IsMirrored :
      (m : MemDb x) (e : TreeEntry) (o : Option x.Conn)
      → x.begin m.conn ≡ o
      → IsMirrored m
      → e.inode ≢ root_inode
      → (apply_begun m e o).1 ≢ err commit_failed
      → IsMirrored (apply_begun m e o).0
  unfolding apply_begun
  apply_begun-IsMirrored m e none b h n r = h
  apply_begun-IsMirrored m e (some tx) b h n r =
      apply_executed-IsMirrored m e tx _
        (Mirrors-ext m.index (x.table m.conn) (x.table tx) h (x.begin_lem m.conn tx b)) h n refl r

  -- If the table mirrored the entries in memory, it does after an entry other than the root was
  -- applied, also if a statement failed, unless it is the commit that failed.
  pub apply_tree_entry-IsMirrored :
      (m : MemDb x) (e : TreeEntry)
      → IsMirrored m
      → e.inode ≢ root_inode
      → (apply_tree_entry m e).1 ≢ err commit_failed
      → IsMirrored (apply_tree_entry m e).0
  unfolding apply_tree_entry
  apply_tree_entry-IsMirrored m e h n r = apply_begun-IsMirrored m e (x.begin m.conn) refl h n r

  -- The row that the connection shows for an inode below the root is not the entry in memory.
  abbrev pub HasDiverged : MemDb x → ℕ → Type 0
  HasDiverged m i = (i ≢ root_inode) × (x.table m.conn i ≢ Option.map to_row (get i m.index))

  -- A failed commit leaves the connection and the new entry.
  apply_begun-left :
      (m : MemDb x) (e : TreeEntry) (o : Option x.Conn)
      → e.inode ≢ root_inode
      → (apply_begun m e o).1 ≡ err commit_failed
      → ((apply_begun m e o).0.conn ≡ m.conn) × (get e.inode (apply_begun m e o).0.index ≡ some e)
  unfolding apply_begun apply_executed apply_committed apply_memory
  apply_begun-left m e none n h = cc
  apply_begun-left m e (some tx) n h = elim (Option-cases (apply_statements x e tx)) [
    | inl z ↦ absurd (ground (arith, h, z))
    | inr (tx', z) ↦ elim (Option-cases (x.commit tx')) [
      | inr (conn, q) ↦ absurd (ground (arith, h, z, q))
      | inl q ↦
          rw (z, q)
            (
              refl,
              rw (==_ne e.inode root_inode n) (
                  ground (
                    arith,
                    n,
                    get-update_root_metadata (insert e.inode e m.index) e.version e.writer e.mtime
                        e.inode,
                    get-insert e.inode e.inode e m.index,
                  )),
            )
    ]
  ]

  -- If the commit of an entry other than the root fails, and the table did not hold the entry's row
  -- before, then its row and the entry in memory differ afterwards, so that the table does not mirror
  -- the entries, whether it did before or not.
  pub apply_tree_entry-HasDiverged :
      (m : MemDb x) (e : TreeEntry)
      → e.inode ≢ root_inode
      → x.table m.conn e.inode ≢ some (to_row e)
      → (apply_tree_entry m e).1 ≡ err commit_failed
      → HasDiverged (apply_tree_entry m e).0 e.inode × ¬ IsMirrored (apply_tree_entry m e).0
  unfolding apply_tree_entry
  apply_tree_entry-HasDiverged m e n new h =
      let left = apply_begun-left m e (x.begin m.conn) n h in
      let m' = (apply_tree_entry m e).0 in
      let differ : x.table m'.conn e.inode ≢ Option.map to_row (get e.inode m'.index) = λ q.
        new (ap (λ c. x.table c e.inode) (sym left.0) ∙ q ∙ ap (λ o. Option.map to_row o) left.1) in
      ((n, differ), λ mirrored. differ (mirrored.rows e.inode n))
