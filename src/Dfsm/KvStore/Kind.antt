-- ===== src/Dfsm/KvStore/Kind.antt =====
-- `KvStoreMessageType` of kv_store_message.rs: the types of the messages of the status group.
use pve_cluster.Prelude.{ℕ, ◌==◌, if◌then◌else◌}
use pve_cluster.Dfsm.Message.{Received, received, refused}

pub data KvStoreMessageType : Type 0 where
  update update_complete log : KvStoreMessageType

abbrev pub type_number : KvStoreMessageType → ℕ
type_number update = 1
type_number update_complete = 2
type_number log = 3

unfoldable pub try_from : ℕ → Received KvStoreMessageType
try_from n =
    if n == 1
    then received update
    else (if n == 2 then received update_complete else (if n == 3 then received log else refused))
