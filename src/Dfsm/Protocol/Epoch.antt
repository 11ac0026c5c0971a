-- ===== src/Dfsm/Protocol/Epoch.antt =====
-- src/pmxcfs-rs/pmxcfs-dfsm/src/types.rs: the modes of the state machine, the types of its messages and
-- the epoch that names a synchronization.
use pve_cluster.Prelude.{
  ℕ, none, some, [], true, false, Option, Bool, if◌then◌else◌, length, ◌==◌, ◌^◌, ◌++◌, ltb, leb,
  ◌&&◌, ◌≡◌, ◌<◌, refl, arith, ◌↔◌, ap, append-nil, ◌∙◌, sym,
}
use pve_cluster.Bytes.{Bytes, to_le}
use pve_cluster.Bytes.Slices.{get_le, drop_le, get_le_at}

pub data DfsmMode : Type 0 where
  start start_sync synced update leave version_error error : DfsmMode

abbrev pub mode_number : DfsmMode → ℕ
mode_number start = 0
mode_number start_sync = 1
mode_number synced = 2
mode_number update = 3
mode_number leave = 253
mode_number version_error = 254
mode_number error = 255

abbrev pub is_error : DfsmMode → Bool
is_error mode = leb 128 (mode_number mode)

-- `==` and `>=` of two modes.
abbrev pub is_mode : DfsmMode → DfsmMode → Bool
is_mode a b = mode_number a == mode_number b

pub record SyncEpoch : Type 0 where
  pub epoch : ℕ
  pub time : ℕ
  pub nodeid : ℕ
  pub pid : ℕ

abbrev pub no_epoch : SyncEpoch
no_epoch = record { epoch = 0; time = 0; nodeid = 0; pid = 0 }

unfoldable pub epoch_eq : SyncEpoch → SyncEpoch → Bool
epoch_eq a b =
    (a.epoch == b.epoch) && (a.time == b.time) && (a.nodeid == b.nodeid) && (a.pid == b.pid)

unfoldable pub serialize : SyncEpoch → Bytes
serialize e = to_le 4 e.epoch ++ (to_le 4 e.time ++ (to_le 4 e.nodeid ++ to_le 4 e.pid))

unfoldable pub deserialize : Bytes → Option SyncEpoch
deserialize bs =
    if ltb (length bs) 16
    then none
    else some (record {
      epoch = get_le bs 0 4;
      time = get_le bs 4 4;
      nodeid = get_le bs 8 4;
      pid = get_le bs 12 4;
    })

pub record IsEpoch (e : SyncEpoch) : Type 0 where
  pub epoch : e.epoch < 256 ^ 4
  pub time : e.time < 256 ^ 4
  pub nodeid : e.nodeid < 256 ^ 4
  pub pid : e.pid < 256 ^ 4

pub epoch_eq_iff : (a b : SyncEpoch) → (epoch_eq a b ≡ true) ↔ (a ≡ b)
unfolding epoch_eq
epoch_eq_iff a b = (
  to,
  λ h.
      ground (
        arith,
        ap SyncEpoch.epoch h,
        ap SyncEpoch.time h,
        ap SyncEpoch.nodeid h,
        ap SyncEpoch.pid h,
      ),
)
  where
    to : epoch_eq a b ≡ true → a ≡ b
    to h =
        let e : a.epoch ≡ b.epoch = ground (arith, h) in
        let t : a.time ≡ b.time = ground (arith, h) in
        let n : a.nodeid ≡ b.nodeid = ground (arith, h) in
        let p : a.pid ≡ b.pid = ground (arith, h) in
        λ i. record { epoch = e i; time = t i; nodeid = n i; pid = p i }

pub length-serialize : (e : SyncEpoch) → length (serialize e) ≡ 16
unfolding serialize to_le
length-serialize e = refl

pub deserialize-serialize : (e : SyncEpoch) → IsEpoch e → deserialize (serialize e) ≡ some e
unfolding serialize deserialize
deserialize-serialize e s =
    let bs = serialize e in
    let d4 = drop_le bs 0 4 e.epoch _ 4 refl refl in
    let d8 = drop_le bs 4 4 e.time _ 8 d4 refl in
    let d12 = drop_le bs 8 4 e.nodeid (to_le 4 e.pid) 12 d8 refl in
    let g0 = get_le_at bs 0 4 e.epoch _ refl s.epoch in
    let g4 = get_le_at bs 4 4 e.time _ d4 s.time in
    let g8 = get_le_at bs 8 4 e.nodeid _ d8 s.nodeid in
    let g12 = get_le_at bs 12 4 e.pid [] (d12 ∙ sym (append-nil (to_le 4 e.pid))) s.pid in
    let long : ltb (length bs) 16 ≡ false = ground (arith, length-serialize e) in
    rw (deserialize, long, g0, g4, g8, g12) refl
