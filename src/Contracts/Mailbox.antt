-- ===== src/Contracts/Mailbox.antt =====
-- contracts/gmp/Mailbox.sol: messages sent to other chains and messages delivered from them.
-- `AccessControl` and `Pausable` are the argument `g`; the hash functions are arguments. What a
-- call sees of the chain and of the other contracts is its `Context`: a contract called from
-- outside may answer each call in its own way. `nonReentrant` is the order of the calls: none runs
-- within another; the calls of the admin, which have no such guard, are not made by a handler. An operation returns the storage with the events that it emits, the first one
-- first, and what the function returns.
use evm_smart_contracts.Prelude.{
  ℕ, ◌+◌, Bool, true, false, not, ◌&&◌, ◌||◌, Option, none, some, List, [], ◌∷◌, Text, codes, Bytes,
  length, Result, ok, err, ◌>>=◌, ◌>>◌, guard, revert_if, or_revert, checked_add, checked_mul, ltb,
  ◌==◌, update, if◌then◌else◌,
}
use evm_smart_contracts.Contracts.Context.{Guards}
use evm_smart_contracts.Contracts.Gmp
use evm_smart_contracts.Contracts.Gmp.{
  Payload, encode_payload, decode_and_validate_payload, path_id, address_to_bytes32,
  lombard_chain_id,
}
pub mod Paths
pub mod Send
pub mod Fees
pub mod Retry
pub mod Deliver
pub mod Calls

pub data PathDirectionType : Type 0 where
  unknown outbound inbound both : PathDirectionType

pub record SenderConfig : Type 0 where
  pub max_payload_size : ℕ
  pub fee_disabled : Bool

pub data Error : Type 0 where
  zero_consortium zero_chain_id zero_mailbox zero_recipient zero_amount call_failed : Error
  message_path_enabled message_path_disabled : ℕ → Error
  payload_oversize not_enough_fee unexpected_destination_caller : ℕ → ℕ → Error
  handler_not_implemented : Error
  -- the reverts of the libraries, of `checkProof` and of Solidity's checked arithmetic
  unauthorized_account : ℕ → ℕ → Error
  enforced_pause pause_refused proof_refused panic : Error
  gmp : Gmp.Error → Error

pub data Event : Type 0 where
  path_enabled path_disabled : ℕ → ℕ → ℕ → ℕ → Event
  default_payload_size_set fee_per_byte_set : ℕ → Event
  sender_config_updated : ℕ → ℕ → Bool → Event
  message_sent : ℕ → ℕ → ℕ → Bytes → Event
  message_paid : ℕ → ℕ → ℕ → ℕ → Event
  message_delivered : ℕ → ℕ → ℕ → ℕ → Bytes → Event
  message_handled : ℕ → ℕ → Bytes → Event
  message_handle_error : ℕ → ℕ → Text → Bytes → Event
  fee_withdrawn : ℕ → ℕ → Event

-- What `handlePayload` does: it returns, or it reverts with a reason or with other data.
pub data Handling : Type 0 where
  returned : Bytes → Handling
  reverted : Text → Handling
  failed : Bytes → Handling

-- What a call sees: who calls, with how much, the chain, the mailbox's address and balance, and
-- the answers of the contracts it calls.
pub record Context : Type 0 where
  pub sender : ℕ
  pub value : ℕ
  pub chain_id : ℕ
  pub this : ℕ
  pub balance : ℕ
  -- `consortium.checkProof(payloadHash, proof)` does not revert
  pub check_proof : ℕ → ℕ → Bytes → Bool
  -- `ERC165Checker.supportsInterface(recipient, type(IHandler).interfaceId)`
  pub supports_handler : ℕ → Bool
  pub handle_payload : Payload → Handling
  -- the transfer of the balance to the caller succeeds
  pub accepts_fee : Bool

-- 10 KB.
abbrev pub global_max_payload_size : ℕ
global_max_payload_size = 10000

abbrev pub default_admin_role : ℕ
default_admin_role = 0

module _ (g : Guards) where
  pub record Storage : Type 0 where
    pub access : g.Access
    pub global_nonce : ℕ
    pub outbound_message_path : ℕ → ℕ
    pub inbound_message_path : ℕ → ℕ
    pub delivered_payload : ℕ → Bool
    pub handled_payload : ℕ → Bool
    pub consortium : ℕ
    pub default_max_payload_size : ℕ
    pub sender_config : ℕ → SenderConfig
    pub fee_per_byte : ℕ

  -- `initialize`: what is not written is zero.
  unfoldable pub initialize : ℕ → ℕ → ℕ → Result Error Storage
  initialize default_admin consortium fee_per_byte = do
    revert_if (consortium == 0) zero_consortium
    ok (record {
      access = g.initial default_admin;
      global_nonce = 1;
      outbound_message_path = λ id. 0;
      inbound_message_path = λ id. 0;
      delivered_payload = λ id. false;
      handled_payload = λ id. false;
      consortium = consortium;
      default_max_payload_size = 0;
      sender_config = λ id. record { max_payload_size = 0; fee_disabled = false };
      fee_per_byte = fee_per_byte;
    })

  abbrev pub only_role : ℕ → ℕ → Storage → Result Error (Unit {0})
  only_role role sender s =
      guard (g.has_role s.access role sender) (unauthorized_account sender role)

  abbrev pub when_not_paused : Storage → Result Error (Unit {0})
  when_not_paused s = revert_if (g.is_paused s.access) enforced_pause

  unfoldable pub set_default_max_payload_size :
      Context → ℕ → Storage → Result Error (Storage × List Event)
  set_default_max_payload_size c size s = do
    only_role default_admin_role c.sender s
    revert_if (ltb global_max_payload_size size) (payload_oversize global_max_payload_size size)
    ok (record s { default_max_payload_size = size }, default_payload_size_set size ∷ [])

  unfoldable pub set_sender_config :
      Context → ℕ → ℕ → Bool → Storage → Result Error (Storage × List Event)
  set_sender_config c sender size fee_disabled s = do
    only_role default_admin_role c.sender s
    revert_if (ltb global_max_payload_size size) (payload_oversize global_max_payload_size size)
    ok (
      record s {
        sender_config =
            update s.sender_config sender
              (record { max_payload_size = size; fee_disabled = fee_disabled });
      },
      sender_config_updated sender size fee_disabled ∷ [],
    )

  unfoldable pub set_fee : Context → ℕ → Storage → Result Error (Storage × List Event)
  set_fee c wei_per_byte s = do
    only_role default_admin_role c.sender s
    ok (record s { fee_per_byte = wei_per_byte }, fee_per_byte_set wei_per_byte ∷ [])

  unfoldable pub get_sender_config_with_default : Storage → ℕ → SenderConfig
  get_sender_config_with_default s sender =
      let config : SenderConfig = s.sender_config sender in
      if config.max_payload_size == 0
      then record config { max_payload_size = s.default_max_payload_size }
      else config

  unfoldable pub calc_fee : SenderConfig → ℕ → ℕ → Result Error ℕ
  calc_fee config fee_per_byte payload_size =
      if config.fee_disabled then ok 0 else checked_mul panic payload_size fee_per_byte

  unfoldable pub get_fee : Storage → ℕ → Bytes → Result Error ℕ
  get_fee s sender body =
      calc_fee (get_sender_config_with_default s sender) s.fee_per_byte
        (length (encode_payload 0 0 (address_to_bytes32 sender) 0 0 body))

  -- The transfer of the balance changes no storage of the mailbox.
  module _ (keccak256 : Text → ℕ) where
    abbrev pub pauser_role : ℕ
    pauser_role = keccak256 (codes "PAUSER_ROLE")

    abbrev pub treasurer_role : ℕ
    treasurer_role = keccak256 (codes "TREASURER_ROLE")

    unfoldable pub withdraw_fee : Context → Storage → Result Error (Storage × List Event)
    withdraw_fee c s = do
      when_not_paused s
      only_role treasurer_role c.sender s
      revert_if (c.balance == 0) zero_amount
      guard c.accepts_fee call_failed
      ok (s, fee_withdrawn c.sender c.balance ∷ [])

    unfoldable pub pause : Context → Storage → Result Error (Storage × List Event)
    pause c s = do
      only_role pauser_role c.sender s
      access' ← or_revert (g.pause s.access) pause_refused
      ok (record s { access = access' }, [])

    unfoldable pub unpause : Context → Storage → Result Error (Storage × List Event)
    unpause c s = do
      only_role default_admin_role c.sender s
      access' ← or_revert (g.unpause s.access) pause_refused
      ok (record s { access = access' }, [])
