-- ===== src/MemDb/Mutation/Outcome.antt =====
-- What a mutation can leave behind: `mutate` and `with_mutation` by cases on their outcome.
use mathlib.Core.Option
use pve_cluster.Prelude.{
  ℕ, ◌+◌, ◌%◌, ◌^◌, ◌≡◌, refl, Bool, true, false, ◌⊎◌, inl, inr, Option, none, some, arith,
  if◌then◌else◌,
}
use pve_cluster.MemDb.Types.{
  Result, ok, err, Error, root_inode, database_has_errors, begin_failed, version_update_failed,
  mutation_failed, commit_failed,
}
use pve_cluster.MemDb.External.{External, effect, update_meta}
use pve_cluster.MemDb.State.{MemDb}
use pve_cluster.MemDb.Mutation.{
  Body, update_root_metadata, after_commit, after_body, after_meta, after_begin, mutate,
  with_mutation,
}

-- A closure of one statement that ends in success has run the statement.
pub run_inv :
    {A B : Type 0} (r : B) (o : Option A) {s : B} {a : A}
    → Option.map {B = B × A} (λ z. (r, z)) o ≡ some (s, a)
    → (o ≡ some a) × (s ≡ r)
run_inv r none h = cc
run_inv r (some a) h = (ground arith, ground arith)

abbrev pub next_version : ℕ → ℕ
next_version v = (v + 1) % 2 ^ 64

module _ {x : External} {R : Type 0} (m : MemDb x) (writer mtime : ℕ) (body : Body x R) where
  -- Only the version counter and the error flag may change.
  abbrev pub Failed : MemDb x × Result R → Type 0
  Failed res =
      (version : ℕ) × (errors : Bool) × (e : Error) × (res
        ≡ (record m { version = version; errors = errors }, err e))

  abbrev pub Committed : MemDb x × Result R → Type 0
  Committed res =
      (r : R) × (tx : x.Conn) × (tx' : x.Conn) × (conn : x.Conn) × ((j : ℕ)
        → x.table tx j
          ≡ effect (update_meta (next_version m.version) writer mtime root_inode) (x.table m.conn)
              j)
      × (body tx (next_version m.version) ≡ some (r, tx'))
      × ((j : ℕ) → x.table conn j ≡ x.table tx' j)
      × (res ≡ (
        record m {
          conn = conn;
          version = next_version m.version;
          index = update_root_metadata m.index (next_version m.version) writer mtime;
        },
        ok r,
      ))

  abbrev pub Outcome : MemDb x × Result R → Type 0
  Outcome res = Failed res ⊎ Committed res

  abbrev bumped : MemDb x
  bumped = record m { version = next_version m.version }

  abbrev Started : x.Conn → Type 0
  Started tx =
      (j : ℕ)
      → x.table tx j
        ≡ effect (update_meta (next_version m.version) writer mtime root_inode) (x.table m.conn) j

  after_commit-Outcome :
      (r : R) (tx tx' : x.Conn)
      → Started tx
      → body tx (next_version m.version) ≡ some (r, tx')
      → (o : Option x.Conn) → x.commit tx' ≡ o
      → Outcome (after_commit bumped writer mtime r o)
  unfolding after_commit
  after_commit-Outcome r tx tx' s b none e = inl (next_version m.version, true, commit_failed, refl)
  after_commit-Outcome r tx tx' s b (some conn) e =
      inr (r, tx, tx', conn, s, b, x.commit_lem tx' conn e, refl)

  after_body-Outcome :
      (tx : x.Conn)
      → Started tx
      → (o : Option (R × x.Conn)) → body tx (next_version m.version) ≡ o
      → Outcome (after_body bumped writer mtime o)
  unfolding after_body
  after_body-Outcome tx s none e = inl (next_version m.version, true, mutation_failed, refl)
  after_body-Outcome tx s (some (r, tx')) e = after_commit-Outcome r tx tx' s e (x.commit tx') refl

  after_meta-Outcome :
      (tx : x.Conn)
      → ((j : ℕ) → x.table tx j ≡ x.table m.conn j)
      → (o : Option x.Conn)
      → x.execute (update_meta (next_version m.version) writer mtime root_inode) tx ≡ o
      → Outcome (after_meta bumped writer mtime body o)
  unfolding after_meta
  after_meta-Outcome tx s none e =
      inl (next_version m.version, m.errors, version_update_failed, refl)
  after_meta-Outcome tx s (some tx') e =
      after_body-Outcome tx' (λ j. ground (arith, x.execute_lem _ tx tx' e j, s j))
        (body tx' (next_version m.version)) refl

  after_begin-Outcome :
      (o : Option x.Conn) → x.begin m.conn ≡ o → Outcome (after_begin bumped writer mtime body o)
  unfolding after_begin
  after_begin-Outcome none e = inl (next_version m.version, m.errors, begin_failed, refl)
  after_begin-Outcome (some tx) e = after_meta-Outcome tx (x.begin_lem m.conn tx e) _ refl

  pub mutate-Outcome : Outcome (mutate m writer mtime body)
  unfolding mutate
  mutate-Outcome = after_begin-Outcome (x.begin m.conn) refl

  gated-Outcome :
      (b : Bool) → Outcome (if b then (m, err database_has_errors) else mutate m writer mtime body)
  gated-Outcome true = inl (m.version, m.errors, database_has_errors, refl)
  gated-Outcome false = mutate-Outcome

  pub with_mutation-Outcome : Outcome (with_mutation m writer mtime body)
  unfolding with_mutation
  with_mutation-Outcome = gated-Outcome m.errors
