-- ===== src/Contracts/Mailbox/Calls.antt =====
-- contracts/gmp/Mailbox.sol: the transactions that reach the mailbox, one after another. One that
-- reverts leaves the storage and emits nothing.
use evm_smart_contracts.Prelude.{
  ℕ, ◌≡◌, refl, arith, Bool, List, [], ◌∷◌, ◌++◌, Text, Bytes, Result, ok, err,
}
use evm_smart_contracts.Contracts.Context.{Guards}
use evm_smart_contracts.Contracts.Mailbox.{
  PathDirectionType, Error, Event, Context, Storage, set_default_max_payload_size,
  set_sender_config, set_fee, withdraw_fee, pause, unpause,
}
use evm_smart_contracts.Contracts.Mailbox.Paths.{enable_message_path, disable_message_path}
use evm_smart_contracts.Contracts.Mailbox.Send.{send}
use evm_smart_contracts.Contracts.Mailbox.Deliver.{deliver_and_handle}
pub mod Keeps
pub mod Nonces
pub mod Stages
pub mod Lives
pub mod Later
pub mod Deliveries

-- A transaction with its arguments. What the access library changes of itself, such as a grant of
-- a role by the admin, is any change of `access`.
pub data Call (g : Guards) : Type 0 where
  access_changed : g.Access → Call g
  enable_path disable_path : ℕ → ℕ → PathDirectionType → Call g
  default_size byte_fee : ℕ → Call g
  sender_conf : ℕ → ℕ → Bool → Call g
  send_message : ℕ → ℕ → ℕ → Bytes → Call g
  deliver_message : Bytes → Bytes → Call g
  take_fee stop start : Call g

-- The storage and the events, without what the call returns.
abbrev pub state_of :
    {S R : Type 0} → Result Error (S × List Event × R) → Result Error (S × List Event)
state_of (ok (s, es, r)) = ok (s, es)
state_of (err e) = err e

-- What a call that returned gave besides.
pub state_of_inv :
    {S R : Type 0} (result : Result Error (S × List Event × R)) {t : S} {es : List Event}
    → state_of result ≡ ok (t, es)
    → (r : R) × (result ≡ ok (t, es, r))
state_of_inv (ok (t, es, r)) h = (r, ground arith)
state_of_inv (err e) h = ground arith

module _ (g : Guards) (keccak256 sha256 : Bytes → ℕ) where
  unfoldable pub execute : Context → Call g → Storage g → Result Error (Storage g × List Event)
  execute c (access_changed access) s = ok (record s { access = access }, [])
  execute c (enable_path chain mailbox direction) s =
      enable_message_path g keccak256 c chain mailbox direction s
  execute c (disable_path chain mailbox direction) s =
      disable_message_path g keccak256 c chain mailbox direction s
  execute c (default_size size) s = set_default_max_payload_size g c size s
  execute c (byte_fee fee) s = set_fee g c fee s
  execute c (sender_conf sender size fee_disabled) s =
      set_sender_config g c sender size fee_disabled s
  execute c (send_message chain recipient caller body) s =
      state_of {S = Storage g} {R = ℕ × ℕ} (send g keccak256 sha256 c chain recipient caller body s)
  execute c (deliver_message raw proof) s =
      state_of {S = Storage g} {R = ℕ × Bool × Bytes} (deliver_and_handle g sha256 c raw proof s)
  execute c take_fee s = withdraw_fee g keccak256 c s
  execute c stop s = pause g keccak256 c s
  execute c start s = unpause g keccak256 c s

  abbrev pub settle : Storage g → Result Error (Storage g × List Event) → Storage g × List Event
  settle s (ok (s', es)) = (s', es)
  settle s (err e) = (s, [])

  unfoldable pub run : List (Context × Call g) → Storage g → Storage g × List Event
  run [] s = (s, [])
  run ((c, call) ∷ calls) s =
      let first = settle s (execute c call s) in
      let rest = run calls first.0 in (rest.0, first.1 ++ rest.1)
