-- ===== src/Lib.antt =====
-- A model of pmxcfs-rs, the Rust implementation of the Proxmox cluster file system, and its
-- properties. Paths are from the root of the repository.
--
-- The program keeps the cluster's configuration as a tree of small files. Each node holds the whole
-- tree in memory and in an SQLite table (crate pmxcfs-memdb); nodes compare indices of their entries,
-- elect the newest as leader, and exchange the entries that differ. The crate pmxcfs-dfsm is the state
-- machine that orders this: a membership change begins an epoch, members send their states, and
-- messages wait in queues until the node is synced. The crate pmxcfs-logger keeps the
-- cluster's log in a ring buffer, drops entries it has seen, and merges the logs of the nodes. The crate
-- pmxcfs-status knows the members, the machines and the values that the nodes publish.
--
-- Which file models which part:
--   Prelude, Bytes, Map    notation, lists of bytes and little-endian numbers, association lists
--   MemDb/Types            src/pmxcfs-rs/pmxcfs-memdb/src/types.rs: limits, entries, errors
--   MemDb/External         what the crate takes from rusqlite and sha2, as the record External
--   MemDb/Paths            normalize_path, split_path, is_lock_dir (database.rs) and the lock paths
--                          (locks.rs)
--   MemDb/State            MemDbInner and the operations that only read it (database.rs)
--   MemDb/Mutation         with_mutation and update_root_metadata (database.rs)
--   MemDb/Create, Write, Remove   create; write; set_mtime, delete, rename (database.rs)
--   MemDb/Locks            src/pmxcfs-rs/pmxcfs-memdb/src/locks.rs
--   MemDb/Replicate        apply_tree_entry and replace_all_entries (database.rs)
--   MemDb/Index            src/pmxcfs-rs/pmxcfs-memdb/src/index.rs
--   MemDb/Encode           encode_index of src/pmxcfs-rs/pmxcfs-memdb/src/sync.rs
--   MemDb/Update           the Update message of types.rs
--   MemDb/VmList           src/pmxcfs-rs/pmxcfs-memdb/src/vmlist.rs
--   Logger/Hash, Text, Entry, Ring, ClusterLog   hash.rs, the strings, packing and sizes of entry.rs,
--                          ring_buffer.rs and cluster_log.rs of src/pmxcfs-rs/pmxcfs-logger/src
--   Cluster/Leader         process_state_update of src/pmxcfs-rs/pmxcfs/src/memdb_callbacks.rs, where
--                          this node's DFSM is present and the updates are sent without error
--   Cluster/Callbacks      the other callbacks there: deliver_message with its handlers, process_update,
--                          get_state, commit_state and send_updates_to_followers
--   Dfsm/Wire, Message, Fuse, KvStore   wire_format.rs, message.rs, fuse_message.rs and
--                          kv_store_message.rs of src/pmxcfs-rs/pmxcfs-dfsm/src
--   Dfsm/Protocol          dfsm_message.rs and types.rs there
--   Dfsm/Machine           state_machine.rs there: its state and what it sends; in Queue, Sync, Verify,
--                          Handlers and Service its operations, and in Steps the calls that reach it
--   Status                 src/pmxcfs-rs/pmxcfs-status/src/types.rs and status.rs: the state, and in
--                          Nodes, Vms and Values the cluster's nodes, its machines, and what nodes publish
-- The proofs stand in child modules named for what they prove: Mutation/Outcome and Checks say what
-- a call can leave behind, Mirror relates the table of SQLite to the index in memory.
--
-- How the state corresponds: a MemDb is the connection and the mutexed fields of MemDbInner. The
-- write guard is not a field: a call is one step, as the guard makes it in create and write, while
-- set_mtime, delete and rename look the path up before they take it. Hash maps are association lists
-- with unique answers per key. A String is its bytes in UTF-8. A call returns the state and a Result
-- whose errors have a constructor per message of the source. The clock is an argument. In the logger
-- a String is its characters, whose bytes are counted and encoded as UTF-8.
--
-- The state machine of pmxcfs-dfsm is one record; a handler is a function on it that says whether it
-- returned an error, and that keeps the state in both cases. Callbacks act on a state of the
-- application that is a parameter, the group service is a list of what was sent and a test whether it
-- takes more. A handler that reads the clock more than once sees one time.
--
-- Bounds and fuel: integers are natural numbers with the wrap-around of their width written out, the
-- version counter modulo 2^64. All loops are structural recursion, there is no fuel.
--
-- Not modelled: SQLite and SHA-256 (parameters: the statements have their documented effect on a
-- table, and any of them may fail), logging, the mutexes, FUSE, corosync, the IPC server, RRD files, the
-- binary and JSON forms of the log, and the parts of the crates that are not named above.
pub mod Prelude
pub mod Bytes
pub mod Map
pub mod MemDb
pub mod Logger
pub mod Cluster
pub mod Dfsm
pub mod Status
