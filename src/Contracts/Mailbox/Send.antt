-- ===== src/Contracts/Mailbox/Send.antt =====
-- contracts/gmp/Mailbox.sol: `send`, its fee and the size of its message.
use evm_smart_contracts.Prelude.{
  ℕ, ◌+◌, ◌≤◌, ◌<◌, ◌≡◌, ◌≢◌, ap, ◌∙◌, arith, >>=-eq-ok, word_mod, List, [], ◌∷◌, ◌++◌, Bytes,
  length, Result, ok, ◌>>=◌, ◌>>◌, revert_if, checked_add, ltb, ◌==◌,
}
use evm_smart_contracts.Contracts.Context.{Guards}
use evm_smart_contracts.Contracts.Gmp.{encode_payload, address_to_bytes32}
use evm_smart_contracts.Contracts.Mailbox.{
  SenderConfig, Error, zero_recipient, message_path_disabled, payload_oversize, not_enough_fee,
  panic, Event, message_sent, message_paid, Context, Storage, when_not_paused,
  get_sender_config_with_default, calc_fee,
}
use evm_smart_contracts.Contracts.Mailbox.Paths.{calc_outbound_message_path}

module _ (g : Guards) where
  unfoldable pub validate_payload_size : SenderConfig → ℕ → Result Error (Unit {0})
  validate_payload_size config size =
      revert_if (ltb config.max_payload_size size) (payload_oversize config.max_payload_size size)

  unfoldable pub validate_payload_size_and_fee :
      Context → ℕ → ℕ → Storage g → Result Error (List Event)
  validate_payload_size_and_fee c payload_hash size s = do
    let config = get_sender_config_with_default g s c.sender
    validate_payload_size config size
    fee ← calc_fee g config s.fee_per_byte size
    revert_if (ltb c.value fee) (not_enough_fee fee c.value)
    ok (message_paid payload_hash c.sender size c.value ∷ [])

  pub validate_payload_size_and_fee_inv :
      (c : Context) (hash size : ℕ) (s : Storage g) {paid : List Event}
      → validate_payload_size_and_fee c hash size s ≡ ok paid
      → let config : SenderConfig = get_sender_config_with_default g s c.sender in
        (paid ≡ message_paid hash c.sender size c.value ∷ [])
        × (size ≤ config.max_payload_size)
        × ((fee : ℕ) × (calc_fee g config s.fee_per_byte size ≡ ok fee) × (fee ≤ c.value))
  unfolding validate_payload_size_and_fee validate_payload_size
  validate_payload_size_and_fee_inv c hash size s h =
      let config : SenderConfig = get_sender_config_with_default g s c.sender in
      let (_, fits, h1) = >>=-eq-ok (validate_payload_size config size) _ h in
      let (fee, fee_is, h2) = >>=-eq-ok (calc_fee g config s.fee_per_byte size) _ h1 in
      (ground arith, ground arith, (fee, fee_is, ground arith))

  module _ (keccak256 sha256 : Bytes → ℕ) where
    -- It returns the nonce and the hash too.
    unfoldable pub send :
        Context → ℕ → ℕ → ℕ → Bytes → Storage g → Result Error (Storage g × List Event × (ℕ × ℕ))
    send c destination_chain recipient destination_caller body s = do
      when_not_paused g s
      revert_if (recipient == 0) zero_recipient
      let outbound_id = calc_outbound_message_path g keccak256 c destination_chain
      revert_if (s.outbound_message_path outbound_id == 0) (message_path_disabled outbound_id)
      let nonce = s.global_nonce
      next_nonce ← checked_add panic nonce 1
      let s' : Storage g = record s { global_nonce = next_nonce }
      let raw =
          encode_payload outbound_id nonce (address_to_bytes32 c.sender) recipient
            destination_caller body
      let payload_hash = sha256 raw
      paid ← validate_payload_size_and_fee c payload_hash (length raw) s'
      ok (
        s',
        paid ++ message_sent destination_chain c.sender recipient raw ∷ [],
        (nonce, payload_hash),
      )

    -- A message that is sent has a recipient and a path that is enabled, is not larger than the
    -- sender's limit, and is paid for. Only the nonce changes: the message has the old one.
    pub send_inv :
        (c : Context) (chain recipient caller : ℕ) (body : Bytes) (s : Storage g) {t : Storage g}
        {es : List Event} {nonce hash : ℕ}
        → send c chain recipient caller body s ≡ ok (t, es, (nonce, hash))
        → let id : ℕ = calc_outbound_message_path g keccak256 c chain in
          let raw : Bytes =
            encode_payload id s.global_nonce (address_to_bytes32 c.sender) recipient caller body in
          let config : SenderConfig = get_sender_config_with_default g s c.sender in
          (recipient ≢ 0)
          × (s.outbound_message_path id ≢ 0)
          × (s.global_nonce + 1 < word_mod)
          × (t ≡ record s { global_nonce = s.global_nonce + 1 })
          × (es
              ≡ message_paid (sha256 raw) c.sender (length raw) c.value
                ∷ message_sent chain c.sender recipient raw
                ∷ [])
          × (nonce ≡ s.global_nonce)
          × (hash ≡ sha256 raw)
          × (length raw ≤ config.max_payload_size)
          × ((fee : ℕ) × (calc_fee g config s.fee_per_byte (length raw) ≡ ok fee) × (fee ≤ c.value))
    unfolding send get_sender_config_with_default
    send_inv c chain recipient caller body s {t} {es} h =
        let id : ℕ = calc_outbound_message_path g keccak256 c chain in
        let raw : Bytes =
          encode_payload id s.global_nonce (address_to_bytes32 c.sender) recipient caller body in
        let (_, _, h1) = >>=-eq-ok (when_not_paused g s) _ h in
        let (_, has_recipient, h2) = >>=-eq-ok (revert_if (recipient == 0) zero_recipient) _ h1 in
        let (_, enabled, h3) =
          >>=-eq-ok (revert_if (s.outbound_message_path id == 0) (message_path_disabled id)) _ h2 in
        let (n, no_overflow, h4) = >>=-eq-ok (checked_add panic s.global_nonce 1) _ h3 in
        let s' : Storage g = record s { global_nonce = n } in
        let (paid, charged, h5) =
          >>=-eq-ok (validate_payload_size_and_fee c (sha256 raw) (length raw) s') _ h4 in
        let (e, size, due) =
          validate_payload_size_and_fee_inv c (sha256 raw) (length raw) s' charged in
        let sent : List Event = message_sent chain c.sender recipient raw ∷ [] in
        let et : t ≡ record s { global_nonce = n } = ground arith in
        let ee : es ≡ paid ++ sent = ground arith in
        let m : n ≡ s.global_nonce + 1 = ground arith in
        (
          ground arith,
          ground arith,
          ground arith,
          et ∙ ap (λ k. record s { global_nonce = k }) m,
          ee ∙ ap (λ l. l ++ sent) e,
          ground arith,
          ground arith,
          size,
          due,
        )
