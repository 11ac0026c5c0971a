-- ===== src/Dfsm/Protocol/Kind.antt =====
-- `DfsmMessageType` of src/pmxcfs-rs/pmxcfs-dfsm/src/types.rs: the types of the protocol's messages.
use pve_cluster.Prelude.{
  ℕ, none, some, Option, Bool, ◌==◌, if◌then◌else◌, ◌≡◌, refl, ◌<◌, ◌^◌, arith,
}

pub data DfsmMessageType : Type 0 where
  normal sync_start state update update_complete verify_request verify : DfsmMessageType

abbrev pub type_number : DfsmMessageType → ℕ
type_number normal = 0
type_number sync_start = 1
type_number state = 2
type_number update = 3
type_number update_complete = 4
type_number verify_request = 5
type_number verify = 6

-- `DfsmMessageType::try_from`.
unfoldable pub try_from : ℕ → Option DfsmMessageType
try_from n =
    if n == 0
    then some normal
    else (if n == 1
        then some sync_start
        else (if n == 2
            then some state
            else (if n == 3
                then some update
                else (if n == 4
                    then some update_complete
                    else (if n == 5
                        then some verify_request
                        else (if n == 6 then some verify else none))))))

-- `dfsm_type == DfsmMessageType::Normal`.
abbrev pub is_normal : DfsmMessageType → Bool
is_normal t = type_number t == 0

pub try_from-type_number : (t : DfsmMessageType) → try_from (type_number t) ≡ some t
unfolding try_from
try_from-type_number normal = refl
try_from-type_number sync_start = refl
try_from-type_number state = refl
try_from-type_number update = refl
try_from-type_number update_complete = refl
try_from-type_number verify_request = refl
try_from-type_number verify = refl

pub type_number_fits : (t : DfsmMessageType) → type_number t < 256 ^ 2
type_number_fits normal = omega arith
type_number_fits sync_start = omega arith
type_number_fits state = omega arith
type_number_fits update = omega arith
type_number_fits update_complete = omega arith
type_number_fits verify_request = omega arith
type_number_fits verify = omega arith
