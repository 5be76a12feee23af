-- ===== src/Contracts/Bridge/Withdraw.antt =====
-- contracts/bridge/BridgeV2.sol: `handlePayload`, which mints what a message of another bridge says.
use evm_smart_contracts.Prelude.{
  ℕ, true, false, List, [], ◌∷◌, Bytes, Result, ok, ◌>>=◌, ◌>>◌, guard, revert_if, ◌==◌, update,
  ◌≡◌, ◌≢◌, arith, >>=-eq-ok,
}
use evm_smart_contracts.Contracts.Gmp.{Payload, address_to_bytes32}
use evm_smart_contracts.Contracts.RateLimits.{Data, update_limit}
use evm_smart_contracts.Contracts.Bridge.{
  Error, mailbox_expected, payload_spent_already, path_not_allowed, bad_msg_sender,
  token_not_allowed, mint_refused, Event, withdraw_from_bridge, Context, Storage, from_rate_limits,
  calc_allowed_token_id, calc_rate_limit_id,
}
use evm_smart_contracts.Contracts.Bridge.Body.{Msg, decode_msg_body}

module _ (keccak256 : Bytes → ℕ) where
  unfoldable pub withdraw : Context → ℕ → Bytes → Storage → Result Error (Storage × List Event)
  withdraw c chain body s = do
    msg ← decode_msg_body body
    revert_if
        (s.allowed_destination_token
            (calc_allowed_token_id keccak256 chain (address_to_bytes32 msg.token))
          == 0)
        token_not_allowed
    let id = calc_rate_limit_id keccak256 chain msg.token
    rl ← from_rate_limits (update_limit c.now (s.rate_limit id) msg.amount)
    guard (c.mints msg.token msg.recipient msg.amount) mint_refused
    ok (
      record s { rate_limit = update s.rate_limit id rl },
      withdraw_from_bridge msg.recipient chain msg.token msg.amount ∷ [],
    )

  unfoldable pub handle_payload : Context → Payload → Storage → Result Error (Storage × List Event)
  handle_payload c payload s = do
    guard (c.sender == s.mailbox) mailbox_expected
    revert_if (s.payload_spent payload.id) payload_spent_already
    let s' : Storage = record s { payload_spent = update s.payload_spent payload.id true }
    let chain = c.inbound_message_path payload.msg_path
    let source_bridge = s'.bridge_contract chain
    revert_if (source_bridge == 0) path_not_allowed
    guard (payload.msg_sender == source_bridge) bad_msg_sender
    withdraw c chain payload.msg_body s'

  -- What a withdrawal that returns found and left.
  pub withdraw_inv :
      (c : Context) (chain : ℕ) (body : Bytes) (s : Storage) {t : Storage} {es : List Event}
      → withdraw c chain body s ≡ ok (t, es)
      → (msg : Msg) × (decode_msg_body body ≡ ok msg)
        × (s.allowed_destination_token
              (calc_allowed_token_id keccak256 chain (address_to_bytes32 msg.token))
            ≢ 0)
        × (let id : ℕ = calc_rate_limit_id keccak256 chain msg.token in
            (rl : Data) × (update_limit c.now (s.rate_limit id) msg.amount ≡ ok rl)
            × (t ≡ record s { rate_limit = update s.rate_limit id rl }))
        × (es ≡ withdraw_from_bridge msg.recipient chain msg.token msg.amount ∷ [])
  unfolding withdraw
  withdraw_inv c chain body s h =
      let (msg, decoded, h1) = >>=-eq-ok (decode_msg_body body) _ h in
      let (_, allowed, h2) =
        >>=-eq-ok
          (revert_if
            (s.allowed_destination_token
                (calc_allowed_token_id keccak256 chain (address_to_bytes32 msg.token))
              == 0)
            token_not_allowed)
          _ h1 in
      let id : ℕ = calc_rate_limit_id keccak256 chain msg.token in
      let (rl, limited, h3) =
        >>=-eq-ok (from_rate_limits (update_limit c.now (s.rate_limit id) msg.amount)) _ h2 in
      let (_, _, h4) =
        >>=-eq-ok (guard (c.mints msg.token msg.recipient msg.amount) mint_refused) _ h3 in
      (msg, decoded, ground arith, (rl, ground arith, ground arith), ground arith)

  -- A payload that is accepted comes from the mailbox, was not spent before, and was sent by the
  -- bridge that the owner set for the chain of its path; its token is allowed for that chain, and
  -- its amount passes the rate limit of the token and the chain. It is spent now, the window of
  -- that limit is updated, nothing else changes, and the event shows what its body says is minted.
  pub handle_payload_inv :
      (c : Context) (payload : Payload) (s : Storage) {t : Storage} {es : List Event}
      → handle_payload c payload s ≡ ok (t, es)
      → let chain : ℕ = c.inbound_message_path payload.msg_path in
        (c.sender ≡ s.mailbox)
        × (s.payload_spent payload.id ≡ false)
        × (s.bridge_contract chain ≢ 0)
        × (payload.msg_sender ≡ s.bridge_contract chain)
        × ((msg : Msg) × (decode_msg_body payload.msg_body ≡ ok msg)
            × (s.allowed_destination_token
                  (calc_allowed_token_id keccak256 chain (address_to_bytes32 msg.token))
                ≢ 0)
            × (let id : ℕ = calc_rate_limit_id keccak256 chain msg.token in
                (rl : Data) × (update_limit c.now (s.rate_limit id) msg.amount ≡ ok rl)
                × (t ≡ record s {
                  payload_spent = update s.payload_spent payload.id true;
                  rate_limit = update s.rate_limit id rl;
                }))
            × (es ≡ withdraw_from_bridge msg.recipient chain msg.token msg.amount ∷ []))
  unfolding handle_payload
  handle_payload_inv c payload s h =
      let chain : ℕ = c.inbound_message_path payload.msg_path in
      let s' : Storage = record s { payload_spent = update s.payload_spent payload.id true } in
      let (_, from_mailbox, h1) = >>=-eq-ok (guard (c.sender == s.mailbox) mailbox_expected) _ h in
      let (_, fresh, h2) =
        >>=-eq-ok (revert_if (s.payload_spent payload.id) payload_spent_already) _ h1 in
      let (_, known, h3) =
        >>=-eq-ok (revert_if (s.bridge_contract chain == 0) path_not_allowed) _ h2 in
      let (_, sent, h4) =
        >>=-eq-ok (guard (payload.msg_sender == s.bridge_contract chain) bad_msg_sender) _ h3 in
      (
        ground arith,
        ground arith,
        ground arith,
        ground arith,
        withdraw_inv c chain payload.msg_body s' h4,
      )
