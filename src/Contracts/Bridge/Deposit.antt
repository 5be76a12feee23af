-- ===== src/Contracts/Bridge/Deposit.antt =====
-- contracts/bridge/BridgeV2.sol: `deposit` and the fee of a deposit.
use evm_smart_contracts.Prelude.{
  ℕ, ◌/◌, List, [], ◌∷◌, Bytes, Result, ok, ◌>>=◌, ◌>>◌, guard, revert_if, or_revert, ltb, ◌==◌,
  checked_mul, checked_sub,
}
use evm_smart_contracts.Contracts.Gmp.{address_to_bytes32, validate_address_length}
use evm_smart_contracts.Contracts.Bridge.{
  Error, zero_amount, zero_sender, zero_recipient, invalid_recipient, sender_not_whitelisted,
  path_not_allowed, token_not_allowed, burn_refused, send_refused, fee_refused, not_enough_fee,
  panic, Event, deposit_to_bridge, Context, Storage, fee_discount_base, calc_allowed_token_id,
}
use evm_smart_contracts.Contracts.Bridge.Body.{encode_msg}

-- `_getFee`: the fee of the zero address on the mailbox, less the sender's discount.
unfoldable pub fee_of : Context → ℕ → Bytes → Storage → Result Error ℕ
fee_of c sender body s = do
  fee ← or_revert (c.mailbox_fee 0 body) fee_refused
  scaled ← checked_mul panic fee (s.sender_config sender).fee_discount
  checked_sub panic fee (scaled / fee_discount_base)

unfoldable pub get_fee : Context → ℕ → Storage → Result Error ℕ
get_fee c sender s = fee_of c sender (encode_msg 0 0 0 0) s

unfoldable pub assert_fee : Context → Bytes → Storage → Result Error (Unit {0})
assert_fee c body s = do
  fee ← fee_of c c.sender body s
  revert_if (ltb c.value fee) (not_enough_fee fee c.value)

module _ (keccak256 : Bytes → ℕ) where
  -- `_deposit`: the nonce and the hash of the payload. It writes no storage of the bridge.
  unfoldable pub deposit_for :
      Context → ℕ → ℕ → ℕ → ℕ → ℕ → ℕ → Storage → Result Error (List Event × (ℕ × ℕ))
  deposit_for c chain token sender recipient amount caller s = do
    revert_if (amount == 0) zero_amount
    revert_if (recipient == 0) zero_recipient
    guard (validate_address_length chain recipient) invalid_recipient
    guard (s.sender_config c.sender).whitelisted (sender_not_whitelisted c.sender)
    let bridge = s.bridge_contract chain
    revert_if (bridge == 0) path_not_allowed
    let destination_token =
        s.allowed_destination_token
          (calc_allowed_token_id keccak256 chain (address_to_bytes32 token))
    revert_if (destination_token == 0) token_not_allowed
    guard (c.burns token amount) burn_refused
    let body = encode_msg destination_token (address_to_bytes32 sender) recipient amount
    assert_fee c body s
    (nonce, payload_hash) ← or_revert (c.mailbox_send chain bridge caller body) send_refused
    ok (deposit_to_bridge sender recipient payload_hash ∷ [], (nonce, payload_hash))

  -- `deposit` on behalf of a sender, and for the caller itself.
  unfoldable pub deposit_on_behalf :
      Context → ℕ → ℕ → ℕ → ℕ → ℕ → ℕ → Storage → Result Error (List Event × (ℕ × ℕ))
  deposit_on_behalf c chain token sender recipient amount caller s = do
    revert_if (sender == 0) zero_sender
    deposit_for c chain token sender recipient amount caller s

  unfoldable pub deposit :
      Context → ℕ → ℕ → ℕ → ℕ → ℕ → Storage → Result Error (List Event × (ℕ × ℕ))
  deposit c chain token recipient amount caller s =
      deposit_for c chain token c.sender recipient amount caller s
