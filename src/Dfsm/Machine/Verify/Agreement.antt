-- ===== src/Dfsm/Machine/Verify/Agreement.antt =====
-- The verification of state_machine.rs between two nodes, over the bytes that they exchange.
use pve_cluster.Prelude.{
  ℕ, some, [], ◌∷◌, true, ◌≡◌, ◌<◌, ◌^◌, refl, ap, ◌∙◌, inl, inr, Bool-cases, ◌==◌, arith,
  if◌then◌else◌, ◌++◌, length, sym,
}
use pve_cluster.Bytes.{Bytes, bytes_eq}
use pve_cluster.Dfsm.Message.{IsLawful}
use pve_cluster.Dfsm.Protocol
use pve_cluster.Dfsm.Protocol.{serialize}
use pve_cluster.Dfsm.Protocol.Epoch
use pve_cluster.Dfsm.Protocol.Epoch.{SyncEpoch, IsEpoch, epoch_eq, epoch_eq_iff}
use pve_cluster.Dfsm.Protocol.RoundTrip.{deserialize-serialize_dfsm}
use pve_cluster.Dfsm.Machine.{Dfsm, World, finished, left_behind, set_mode, send_dfsm_message}
use pve_cluster.Dfsm.Machine.Verify.{handle_verify, handle_verify_request}
use pve_cluster.Dfsm.Machine.Handlers.{on_deliver, handle_dfsm_message, dispatch}

-- A node in an epoch whose checksum can be had and whose message is taken.
pub record IsReady {M W : Type 0} (X : World M W) (s : Dfsm M W) (e : SyncEpoch) (now id : ℕ)
    (checksum : Bytes) : Type 0 where
  pub epoch : s.sync_epoch ≡ e
  pub computed : X.callbacks.compute_checksum s.app ≡ some checksum
  pub connected : s.cpg_service ≡ true
  pub accepted : X.accepts s.sent (serialize X.messages now (Protocol.verify e id checksum)) ≡ true

-- The node once it has answered.
abbrev pub answered :
    {M W : Type 0} → World M W → Dfsm M W → SyncEpoch → (now id : ℕ) → Bytes → Dfsm M W
answered X s e now id own = record s {
  checksum = own;
  checksum_epoch = e;
  checksum_id = id;
  sent = s.sent ++ (serialize X.messages now (Protocol.verify e id own) ∷ []);
}

epoch_eq_self : (e : SyncEpoch) → epoch_eq e e ≡ true
epoch_eq_self e = (epoch_eq_iff e e).1 refl

answers :
    {M W : Type 0} (X : World M W) (s : Dfsm M W) (e : SyncEpoch) (now id : ℕ) (own : Bytes)
    → IsReady X s e now id own
    → handle_verify_request X now e id s ≡ finished (answered X s e now id own)
unfolding handle_verify_request send_dfsm_message
answers X s e now id own r =
    rw (handle_verify_request, r.computed, send_dfsm_message, r.epoch, r.connected, r.accepted) refl

handle_verify_answered :
    {M W : Type 0} (s : Dfsm M W) (e : SyncEpoch) (id : ℕ) (other : Bytes)
    → s.checksum_epoch ≡ e
    → s.checksum_id ≡ id
    → left_behind (handle_verify e id other s)
      ≡ (if bytes_eq s.checksum other then s else set_mode Epoch.leave s)
unfolding handle_verify
handle_verify_answered s e id other he hid =
    let i : (s.checksum_id == id) ≡ true = ground (arith, hid) in
    let k : epoch_eq s.checksum_epoch e ≡ true = (epoch_eq_iff s.checksum_epoch e).1 he in
    elim (Bool-cases (bytes_eq s.checksum other)) [
      | inl h ↦ rw (handle_verify, i, k, h) refl
      | inr h ↦ rw (handle_verify, i, k, h) refl
    ]

-- A verification of the node's epoch gets through to its handler.
handled :
    {M W : Type 0} (X : World M W) (S : M → Type 0)
    → IsLawful X.messages S
    → (s : Dfsm M W) (e : SyncEpoch) (now id : ℕ) (other : Bytes) → IsEpoch e
    → id < 256 ^ 8
    → length other ≡ 32
    → s.sync_epoch ≡ e
    → (later nodeid pid : ℕ)
    → on_deliver X later nodeid pid (serialize X.messages now (Protocol.verify e id other)) s
      ≡ some (left_behind (handle_verify e id other s))
unfolding on_deliver handle_dfsm_message dispatch
handled X S law s e now id other ie fits l he later nodeid pid =
    let r =
      deserialize-serialize_dfsm X.messages S law now (Protocol.verify e id other)
        (ie, (fits, l)) in
    let k : epoch_eq e s.sync_epoch ≡ true = (epoch_eq_iff e s.sync_epoch).1 (sym he) in
    rw (on_deliver, r, handle_dfsm_message, k) refl

-- Two nodes of one epoch answer a request for verification: the one sends its answer, and its bytes make
-- the other call `set_mode` with the mode of leaving when the checksums differ, and change nothing there
-- when they are equal.
pub verify_agreement :
    {M W : Type 0} (X : World M W) (S : M → Type 0)
    → IsLawful X.messages S
    → (s p : Dfsm M W) (e : SyncEpoch) (now id : ℕ) (own other : Bytes) → IsEpoch e
    → id < 256 ^ 8
    → length other ≡ 32
    → IsReady X s e now id own
    → IsReady X p e now id other
    → (later nodeid pid : ℕ)
    → ((left_behind (handle_verify_request X now e id p)).sent
        ≡ p.sent ++ (serialize X.messages now (Protocol.verify e id other) ∷ []))
      × (on_deliver X later nodeid pid
            (serialize X.messages now (Protocol.verify e id other))
            (left_behind (handle_verify_request X now e id s))
          ≡ some (
              if bytes_eq own other
              then left_behind (handle_verify_request X now e id s)
              else set_mode Epoch.leave (left_behind (handle_verify_request X now e id s))))
verify_agreement X S law s p e now id own other ie fits l rs rp later nodeid pid =
    let t = answered X s e now id own in
    let a = ap left_behind (answers X s e now id own rs) in
    let h = handled X S law t e now id other ie fits l rs.epoch later nodeid pid in
    (
      ap (λ o. Dfsm.sent (left_behind o)) (answers X p e now id other rp),
      rw a (h ∙ ap some (handle_verify_answered t e id other refl refl)),
    )
