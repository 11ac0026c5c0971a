-- ===== src/MemDb/External.antt =====
-- What pmxcfs-memdb takes from other crates: rusqlite and sha2. A statement is the SQL text of the
-- source with its parameters; `effect` says what SQLite documents of it for a table with the primary
-- key `inode`. Any call may fail, and a transaction that is dropped without a commit changes nothing.
use pve_cluster.Prelude.{ℕ, ◌≡◌, Option, none, some, if◌then◌else◌, ◌==◌}
use pve_cluster.Bytes.{Bytes}
use mathlib.Core.Option

-- A row of the table `tree`, under its inode.
pub record Row : Type 0 where
  pub parent : ℕ
  pub version : ℕ
  pub writer : ℕ
  pub mtime : ℕ
  pub row_type : ℕ
  pub name : Bytes
  pub content : Option Bytes

pub data Stmt : Type 0 where
  -- UPDATE tree SET version, writer, mtime WHERE inode
  update_meta : (version writer mtime inode : ℕ) → Stmt
  -- UPDATE tree SET version WHERE inode
  update_version : (version inode : ℕ) → Stmt
  -- UPDATE tree SET version, writer, mtime, data WHERE inode
  update_content : (version writer mtime : ℕ) → Bytes → (inode : ℕ) → Stmt
  -- UPDATE tree SET parent, name, version, writer, mtime WHERE inode
  update_place : (parent : ℕ) → Bytes → (version writer mtime inode : ℕ) → Stmt
  -- INSERT INTO tree, and INSERT OR REPLACE INTO tree
  insert_row : (inode : ℕ) → Row → Stmt
  replace_row : (inode : ℕ) → Row → Stmt
  -- DELETE FROM tree WHERE inode, and DELETE FROM tree
  delete_row : (inode : ℕ) → Stmt
  delete_all : Stmt

abbrev pub Table : Type 0
Table = ℕ → Option Row

abbrev pub update_at : ℕ → (Row → Row) → Table → Table
update_at i f t j = if i == j then Option.map f (t j) else t j

abbrev pub effect : Stmt → Table → Table
effect (update_meta v w m i) t =
    update_at i (λ r. record r { version = v; writer = w; mtime = m }) t
effect (update_version v i) t = update_at i (λ r. record r { version = v }) t
effect (update_content v w m d i) t =
    update_at i (λ r. record r { version = v; writer = w; mtime = m; content = some d }) t
effect (update_place p n v w m i) t =
    update_at i (λ r. record r { parent = p; name = n; version = v; writer = w; mtime = m }) t
effect (insert_row i r) t = λ j. if i == j then some r else t j
effect (replace_row i r) t = λ j. if i == j then some r else t j
effect (delete_row i) t = λ j. if i == j then none else t j
effect delete_all t = λ j. none

pub record External : Type 1 where
  pub Conn : Type 0
  pub table : Conn → Table
  pub begin : Conn → Option Conn
  pub execute : Stmt → Conn → Option Conn
  pub commit : Conn → Option Conn
  pub sha256 : Bytes → Bytes
  pub begin_lem : (c t : Conn) → begin c ≡ some t → (j : ℕ) → table t j ≡ table c j
  pub execute_lem :
      (q : Stmt) (t u : Conn) → execute q t ≡ some u → (j : ℕ) → table u j ≡ effect q (table t) j
  pub commit_lem : (t c : Conn) → commit t ≡ some c → (j : ℕ) → table c j ≡ table t j
