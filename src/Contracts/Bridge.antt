-- ===== src/Contracts/Bridge.antt =====
-- contracts/bridge/BridgeV2.sol: tokens burnt here to be minted on another chain, and the other way
-- round. The mailbox, the tokens and the clock are what a call's `Context` answers; the owner is
-- that of `Ownable2Step`. `nonReentrant` is the order of the calls.
use evm_smart_contracts.Prelude.{
  ℕ, suc, ◌+◌, ◌-◌, ◌*◌, ◌/◌, Bool, true, false, not, Option, none, some, List, [], ◌∷◌, ◌++◌,
  Bytes, length, take, drop, be_nat, to_be, Result, ok, err, ◌>>=◌, ◌>>◌, guard, revert_if,
  or_revert, ltb, ◌==◌, update, if◌then◌else◌, checked_mul, checked_sub,
}
use evm_smart_contracts.Contracts.Abi.{encode_words, decode_words}
use evm_smart_contracts.Contracts.Gmp
use evm_smart_contracts.Contracts.Gmp.{
  Payload, address_to_bytes32, bytes32_to_address, validate_address_length,
}
use evm_smart_contracts.Contracts.RateLimits
use evm_smart_contracts.Contracts.RateLimits.{Data, Config, update_limit, set_rate_limit}
pub mod Body
pub mod Deposit
pub mod Withdraw
pub mod Calls

pub record SenderConfig : Type 0 where
  pub whitelisted : Bool
  pub fee_discount : ℕ

pub data Error : Type 0 where
  zero_mailbox zero_chain_id zero_path zero_bridge zero_token zero_sender zero_recipient
        zero_amount :
      Error
  invalid_token invalid_recipient path_not_allowed token_not_allowed too_big_discount : Error
  already_allowed sender_not_whitelisted : ℕ → Error
  mailbox_expected payload_spent_already bad_msg_sender : Error
  not_enough_fee invalid_msg_body_length version_mismatch : ℕ → ℕ → Error
  -- the reverts of the libraries, of the contracts called and of Solidity's checked arithmetic
  unauthorized_account : ℕ → Error
  gmp : Gmp.Error → Error
  rate_limits : RateLimits.Error → Error
  burn_refused mint_refused send_refused fee_refused panic : Error

pub data Event : Type 0 where
  destination_bridge_set : ℕ → ℕ → Event
  destination_token_added destination_token_removed : ℕ → ℕ → ℕ → Event
  rate_limits_set : ℕ → ℕ → ℕ → ℕ → Event
  sender_config_changed : ℕ → ℕ → Bool → Event
  deposit_to_bridge : ℕ → ℕ → ℕ → Event
  withdraw_from_bridge : ℕ → ℕ → ℕ → ℕ → Event

-- What a call sees: who calls, with how much, the time, and the answers of the mailbox and of the
-- tokens. A call of them that reverts is `none` or `false`.
pub record Context : Type 0 where
  pub sender : ℕ
  pub value : ℕ
  pub now : ℕ
  -- `mailbox.getInboundMessagePath(path)`
  pub inbound_message_path : ℕ → ℕ
  -- `mailbox.getFee(sender, body)`
  pub mailbox_fee : ℕ → Bytes → Option ℕ
  -- `mailbox.send(chain, recipient, caller, body)`: the nonce and the hash of the payload
  pub mailbox_send : ℕ → ℕ → ℕ → Bytes → Option (ℕ × ℕ)
  -- `safeTransferFrom(token, sender, this, amount)` and `token.burn(amount)` succeed
  pub burns : ℕ → ℕ → Bool
  -- `token.mint(recipient, amount)` succeeds
  pub mints : ℕ → ℕ → ℕ → Bool

abbrev pub fee_discount_base : ℕ
fee_discount_base = 10000

abbrev pub msg_version : ℕ
msg_version = 1

abbrev pub msg_length : ℕ
msg_length = 129

pub record Storage : Type 0 where
  pub owner : ℕ
  pub bridge_contract : ℕ → ℕ
  pub allowed_destination_token : ℕ → ℕ
  pub allowed_source_token : ℕ → ℕ
  pub mailbox : ℕ
  pub payload_spent : ℕ → Bool
  pub sender_config : ℕ → SenderConfig
  pub rate_limit : ℕ → Data

abbrev pub from_rate_limits : {A : Type 0} → Result RateLimits.Error A → Result Error A
from_rate_limits (ok a) = ok a
from_rate_limits (err e) = err (rate_limits e)

abbrev pub only_owner : Context → Storage → Result Error (Unit {0})
only_owner c s = guard (c.sender == s.owner) (unauthorized_account c.sender)

unfoldable pub initialize : ℕ → ℕ → Result Error Storage
initialize owner mailbox = do
  revert_if (mailbox == 0) zero_mailbox
  ok (record {
    owner = owner;
    bridge_contract = λ chain. 0;
    allowed_destination_token = λ id. 0;
    allowed_source_token = λ id. 0;
    mailbox = mailbox;
    payload_spent = λ id. false;
    sender_config = λ sender. record { whitelisted = false; fee_discount = 0 };
    rate_limit = λ id. record { amount_in_flight = 0; last_updated = 0; limit = 0; window = 0 };
  })

unfoldable pub set_destination_bridge :
    Context → ℕ → ℕ → Storage → Result Error (Storage × List Event)
set_destination_bridge c chain bridge s = do
  only_owner c s
  revert_if (chain == 0) zero_chain_id
  ok (
    record s { bridge_contract = update s.bridge_contract chain bridge },
    destination_bridge_set chain bridge ∷ [],
  )

unfoldable pub set_sender_config :
    Context → ℕ → ℕ → Bool → Storage → Result Error (Storage × List Event)
set_sender_config c sender fee_discount whitelisted s = do
  only_owner c s
  revert_if (sender == 0) zero_sender
  revert_if (ltb fee_discount_base fee_discount) too_big_discount
  ok (
    record s {
      sender_config =
          update s.sender_config sender
            (record { whitelisted = whitelisted; fee_discount = fee_discount });
    },
    sender_config_changed sender fee_discount whitelisted ∷ [],
  )

module _ (keccak256 : Bytes → ℕ) where
  -- `abi.encodePacked` of two words.
  unfoldable pub calc_allowed_token_id : ℕ → ℕ → ℕ
  calc_allowed_token_id chain token = keccak256 (encode_words (chain ∷ token ∷ []))

  -- `abi.encodePacked` of a word and an address.
  unfoldable pub calc_rate_limit_id : ℕ → ℕ → ℕ
  calc_rate_limit_id chain token = keccak256 (to_be 32 chain ++ to_be 20 token)

  unfoldable pub add_destination_token :
      Context → ℕ → ℕ → ℕ → Storage → Result Error (Storage × List Event)
  add_destination_token c chain source_token destination_token s = do
    only_owner c s
    revert_if (chain == 0) zero_path
    revert_if (source_token == 0) zero_token
    revert_if (destination_token == 0) zero_token
    guard (validate_address_length chain destination_token) invalid_token
    revert_if (s.bridge_contract chain == 0) path_not_allowed
    let dest_id = calc_allowed_token_id chain (address_to_bytes32 source_token)
    let src_id = calc_allowed_token_id chain destination_token
    guard (s.allowed_destination_token dest_id == 0) (already_allowed dest_id)
    guard (s.allowed_source_token src_id == 0) (already_allowed src_id)
    ok (
      record s {
        allowed_destination_token = update s.allowed_destination_token dest_id destination_token;
        allowed_source_token = update s.allowed_source_token src_id source_token;
      },
      destination_token_added chain destination_token source_token ∷ [],
    )

  unfoldable pub remove_destination_token :
      Context → ℕ → ℕ → Storage → Result Error (Storage × List Event)
  remove_destination_token c chain source_token s = do
    only_owner c s
    revert_if (chain == 0) zero_path
    revert_if (source_token == 0) zero_token
    revert_if (s.bridge_contract chain == 0) path_not_allowed
    let dest_id = calc_allowed_token_id chain (address_to_bytes32 source_token)
    let destination_token = s.allowed_destination_token dest_id
    revert_if (destination_token == 0) token_not_allowed
    let src_id = calc_allowed_token_id chain destination_token
    guard (s.allowed_source_token src_id == source_token) token_not_allowed
    ok (
      record s {
        allowed_destination_token = update s.allowed_destination_token dest_id 0;
        allowed_source_token = update s.allowed_source_token src_id 0;
      },
      destination_token_removed chain destination_token source_token ∷ [],
    )

  unfoldable pub set_token_rate_limits :
      Context → ℕ → Config → Storage → Result Error (Storage × List Event)
  set_token_rate_limits c token config s = do
    only_owner c s
    let id = calc_rate_limit_id config.chain_id token
    rl ← from_rate_limits (set_rate_limit c.now (s.rate_limit id) config)
    ok (
      record s { rate_limit = update s.rate_limit id rl },
      rate_limits_set token config.chain_id config.limit config.window ∷ [],
    )
