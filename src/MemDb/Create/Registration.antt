-- ===== src/MemDb/Create/Registration.antt =====
-- The lock registration at the end of `create` in database.rs, whose test compares the parent's path
-- with one that has no leading slash.
use pve_cluster.Prelude.{
  ℕ, zero, suc, none, some, [], ◌∷◌, false, ◌≡◌, Option, Bool-cases, arith, ◌∙◌, refl, inl, inr, ap,
  sym, ==_ne,
}
use pve_cluster.Bytes.{Bytes, bytes_eq}
use pve_cluster.MemDb.Types.{TreeEntry, Result, ok, err, lock_dir_path}
use pve_cluster.MemDb.External.{External}
use pve_cluster.MemDb.Paths.{normalize_path, split_at_slash, split_path, rfind, trim, is_root_path}
use pve_cluster.MemDb.State.{MemDb}
use pve_cluster.MemDb.Mutation.{Body, mutate, after_begin, after_meta, after_body, after_commit}
use pve_cluster.MemDb.Create.{
  create, create_if, create_checks, create_body, finish_create, register_lock, add_entry,
}
use pve_cluster.MemDb.Checks.{create_checks-ok}

normalize_path-slash : (p : Bytes) → (t : Bytes) × (normalize_path p ≡ b'/' ∷ t)
unfolding normalize_path
normalize_path-slash p = elim (Bool-cases (is_root_path p)) [
  | inl h ↦ ([], rw h refl)
  | inr h ↦ elim (Bool-cases (bytes_eq (trim p) [])) [
    | inl k ↦ ([], rw (h, k) refl)
    | inr k ↦ (trim p, rw (h, k) refl)
  ]
]

split_at_slash-ne :
    (t : Bytes) (o : Option ℕ) → bytes_eq (split_at_slash (b'/' ∷ t) o).0 lock_dir_path ≡ false
unfolding split_at_slash bytes_eq
split_at_slash-ne t none = refl
split_at_slash-ne t (some zero) = refl
split_at_slash-ne t (some (suc pos)) = rw (==_ne (suc pos) 0 (λ h. omega (arith, h))) refl

-- The parent of a path begins with a slash, which the name of the lock directory does not.
split_path-ne :
    (p parent basename : Bytes)
    → split_path p ≡ ok (parent, basename)
    → bytes_eq parent lock_dir_path ≡ false
unfolding split_path
split_path-ne p parent basename h = elim (Bool-cases (bytes_eq p [])) [
  | inl k ↦ absurd (ground (arith, h, k))
  | inr k ↦
      let n = normalize_path-slash p in
      let s = split_at_slash-ne n.0 (rfind 0 (normalize_path p)) in
      let e : split_at_slash (normalize_path p) (rfind 0 (normalize_path p)) ≡ (parent, basename) =
        ground (arith, h, k) in
      ap (λ (q : Bytes × Bytes). bytes_eq q.0 lock_dir_path) (sym e)
      ∙ ap (λ (q : Bytes). bytes_eq (split_at_slash q (rfind 0 (normalize_path p))).0 lock_dir_path)
          n.1
      ∙ s
]

module _ {x : External} where
  after_commit-locks :
      {R : Type 0} (m : MemDb x) (writer mtime : ℕ) (r : R) (o : Option x.Conn)
      → (after_commit m writer mtime r o).0.locks ≡ m.locks
  unfolding after_commit
  after_commit-locks m writer mtime r none = refl
  after_commit-locks m writer mtime r (some conn) = refl

  after_body-locks :
      {R : Type 0} (m : MemDb x) (writer mtime : ℕ) (o : Option (R × x.Conn))
      → (after_body m writer mtime o).0.locks ≡ m.locks
  unfolding after_body
  after_body-locks m writer mtime none = refl
  after_body-locks m writer mtime (some (r, tx)) = after_commit-locks m writer mtime r (x.commit tx)

  after_meta-locks :
      {R : Type 0} (m : MemDb x) (writer mtime : ℕ) (body : Body x R) (o : Option x.Conn)
      → (after_meta m writer mtime body o).0.locks ≡ m.locks
  unfolding after_meta
  after_meta-locks m writer mtime body none = refl
  after_meta-locks m writer mtime body (some tx) =
      after_body-locks m writer mtime (body tx m.version)

  after_begin-locks :
      {R : Type 0} (m : MemDb x) (writer mtime : ℕ) (body : Body x R) (o : Option x.Conn)
      → (after_begin m writer mtime body o).0.locks ≡ m.locks
  unfolding after_begin
  after_begin-locks m writer mtime body none = refl
  after_begin-locks m writer mtime body (some tx) = after_meta-locks m writer mtime body _

  mutate-locks :
      {R : Type 0} (m : MemDb x) (writer mtime : ℕ) (body : Body x R)
      → (mutate m writer mtime body).0.locks ≡ m.locks
  unfolding mutate
  mutate-locks m writer mtime body = after_begin-locks _ writer mtime body (x.begin m.conn)

  finish_create-locks :
      (path parent : Bytes) (now : ℕ) (r : MemDb x × Result TreeEntry)
      → bytes_eq parent lock_dir_path ≡ false
      → (finish_create path parent now r).0.locks ≡ r.0.locks
  unfolding finish_create register_lock add_entry
  finish_create-locks path parent now (m, err e) h = refl
  finish_create-locks path parent now (m, ok e) h = ground (arith, h)

  create_if-locks :
      (m : MemDb x) (path : Bytes) (mode writer mtime now : ℕ)
      (c : Result (Bytes × Bytes × TreeEntry))
      → create_checks m path ≡ c
      → (create_if m path mode writer mtime now c).0.locks ≡ m.locks
  unfolding create_if
  create_if-locks m path mode writer mtime now (err e) c = refl
  create_if-locks m path mode writer mtime now (ok (parent_path, basename, parent)) c =
      let split : split_path path ≡ ok (parent_path, basename) = (create_checks-ok m path c).1 in
      finish_create-locks path parent_path now _ (split_path-ne path parent_path basename split)
      ∙ mutate-locks m writer mtime (create_body x parent basename mode writer mtime)

  -- Whatever path `create` is called with, and however it ends, it leaves the table of locks as it was.
  pub create-locks :
      (m : MemDb x) (path : Bytes) (mode writer mtime now : ℕ)
      → (create m path mode writer mtime now).0.locks ≡ m.locks
  unfolding create
  create-locks m path mode writer mtime now = create_if-locks m path mode writer mtime now _ refl
