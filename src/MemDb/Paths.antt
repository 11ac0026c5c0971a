-- ===== src/MemDb/Paths.antt =====
-- Paths: `normalize_path`, `split_path` and `is_lock_dir` of database.rs, and the lock paths of
-- locks.rs. A path is the bytes of the `&str`; `/` is 47.
use pve_cluster.Prelude.{
  ℕ, ◌+◌, Bool, true, false, ◌&&◌, ◌||◌, Option, none, some, List, [], ◌∷◌, ◌++◌, ltb, ◌==◌,
  if◌then◌else◌, length, take, drop,
}
use mathlib.Core.List.{reverse}
use pve_cluster.Bytes.{Bytes, codes, bytes_eq}
use pve_cluster.MemDb.Types.{lock_dir_path, empty_path, Result, ok, err}

abbrev pub is_slash : ℕ → Bool
is_slash c = c == b'/'

-- `trim_start_matches('/')`.
unfoldable pub trim_start : Bytes → Bytes
trim_start [] = []
trim_start (c ∷ cs) = if is_slash c then trim_start cs else c ∷ cs

-- `trim_matches('/')`.
unfoldable pub trim : Bytes → Bytes
trim p = reverse (trim_start (reverse (trim_start p)))

-- `starts_with`.
unfoldable pub starts_with : Bytes → Bytes → Bool
starts_with [] cs = true
starts_with (p ∷ ps) [] = false
starts_with (p ∷ ps) (c ∷ cs) = (p == c) && starts_with ps cs

-- `rfind('/')`: the position of the last slash, in a text that begins at position `i`.
unfoldable pub rfind : ℕ → Bytes → Option ℕ
rfind i [] = none
rfind i (c ∷ cs) = elim (rfind (i + 1) cs) [
  | none ↦ if is_slash c then some i else none
  | some j ↦ some j
]

-- `split('/')` with the empty parts filtered out; `part` holds the bytes since the last slash, last
-- one first.
unfoldable pub push_part : Bytes → List Bytes → List Bytes
push_part [] ps = ps
push_part (c ∷ cs) ps = reverse (c ∷ cs) ∷ ps

unfoldable pub split_from : Bytes → Bytes → List Bytes
split_from part [] = push_part part []
split_from part (c ∷ cs) = elim (is_slash c) [
  | true ↦ push_part part (split_from [] cs)
  | false ↦ split_from (c ∷ part) cs
]

unfoldable pub parts : Bytes → List Bytes
parts p = split_from [] p

abbrev pub is_root_path : Bytes → Bool
is_root_path p = bytes_eq p [] || bytes_eq p (codes "/") || bytes_eq p (codes ".")

unfoldable pub normalize_path : Bytes → Bytes
normalize_path p =
    if is_root_path p
    then codes "/"
    else (let t = trim p in if bytes_eq t [] then codes "/" else b'/' ∷ t)

unfoldable pub split_at_slash : Bytes → Option ℕ → Bytes × Bytes
split_at_slash n none = (codes "/", n)
split_at_slash n (some pos) = (if pos == 0 then codes "/" else take pos n, drop (pos + 1) n)

unfoldable pub split_path : Bytes → Result (Bytes × Bytes)
split_path p =
    if bytes_eq p []
    then err empty_path
    else ok (split_at_slash (normalize_path p) (rfind 0 (normalize_path p)))

unfoldable pub is_lock_dir : Bytes → Bool
is_lock_dir p = let t = trim_start p in starts_with (codes "priv/lock/") t && ltb 10 (length t)

-- locks.rs
unfoldable pub is_lock_path : Bytes → Bool
is_lock_path p =
    let t = trim_start p in
    let prefix = lock_dir_path ++ codes "/" in
    starts_with prefix t && ltb (length prefix) (length t)

unfoldable pub lock_cache_key : Bytes → Bytes
lock_cache_key p =
    let t = trim_start p in if starts_with lock_dir_path t then t else lock_dir_path ++ (b'/' ∷ t)

unfoldable pub lock_key_and_path : Bytes → Bytes × Bytes
lock_key_and_path p = (lock_cache_key p, b'/' ∷ lock_cache_key p)
