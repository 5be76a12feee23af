-- ===== src/Contracts/Mailbox/Fees.antt =====
-- contracts/gmp/Mailbox.sol: when a message is sent, and that `getFee` gives the fee that it needs.
use evm_smart_contracts.Prelude.{
  ℕ, ◌+◌, ◌≤◌, ◌<◌, ◌≡◌, ◌≢◌, ◌↔◌, refl, ap, sym, ◌∙◌, arith, >>=-eq-ok, word_mod, List, [], ◌∷◌,
  true, false, Bytes, length, ok, ltb, ◌==◌,
}
use evm_smart_contracts.Contracts.Context.{Guards}
use evm_smart_contracts.Contracts.Gmp.{encode_payload, address_to_bytes32}
use evm_smart_contracts.Contracts.Gmp.RoundTrip.{length-encode_payload}
use evm_smart_contracts.Contracts.Mailbox.{
  Event, message_sent, message_paid, Context, Storage, when_not_paused,
  get_sender_config_with_default, calc_fee, get_fee,
}
use evm_smart_contracts.Contracts.Mailbox.Paths.{calc_outbound_message_path}
use evm_smart_contracts.Contracts.Mailbox.Send.{
  validate_payload_size, validate_payload_size_and_fee, send, send_inv,
}

module _ (g : Guards) (keccak256 sha256 : Bytes → ℕ) where
  -- What `send` writes.
  abbrev pub message : Context → ℕ → ℕ → ℕ → Bytes → Storage g → Bytes
  message c chain recipient caller body s =
      encode_payload (calc_outbound_message_path g keccak256 c chain) s.global_nonce
        (address_to_bytes32 c.sender) recipient caller body

  -- The size of the message that `getFee` builds is that of the one sent.
  same_length :
      (c : Context) (chain recipient caller : ℕ) (body : Bytes) (s : Storage g)
      → length (encode_payload 0 0 (address_to_bytes32 c.sender) 0 0 body)
        ≡ length (message c chain recipient caller body s)
  same_length c chain recipient caller body s =
      length-encode_payload 0 0 (address_to_bytes32 c.sender) 0 0 body
      ∙ sym (
          length-encode_payload (calc_outbound_message_path g keccak256 c chain) s.global_nonce
            (address_to_bytes32 c.sender) recipient caller body)

  get_fee-message :
      (c : Context) (chain recipient caller : ℕ) (body : Bytes) (s : Storage g)
      → get_fee g s c.sender body
        ≡ calc_fee g
            (get_sender_config_with_default g s c.sender)
            s.fee_per_byte
            (length (message c chain recipient caller body s))
  unfolding get_fee
  get_fee-message c chain recipient caller body s =
      ap (λ n. calc_fee g (get_sender_config_with_default g s c.sender) s.fee_per_byte n)
        (same_length c chain recipient caller body s)

  -- The conditions of a message: `getFee` of its body is the fee.
  abbrev pub CanSend : Context → ℕ → ℕ → ℕ → Bytes → Storage g → Type 0
  CanSend c chain recipient caller body s =
      (g.is_paused s.access ≡ false)
      × (recipient ≢ 0)
      × (s.outbound_message_path (calc_outbound_message_path g keccak256 c chain) ≢ 0)
      × (s.global_nonce + 1 < word_mod)
      × (length (message c chain recipient caller body s)
          ≤ (get_sender_config_with_default g s c.sender).max_payload_size)
      × ((fee : ℕ) × (get_fee g s c.sender body ≡ ok fee) × (fee ≤ c.value))

  not_paused :
      (c : Context) (chain recipient caller : ℕ) (body : Bytes) (s : Storage g)
      {r : Storage g × List Event × (ℕ × ℕ)}
      → send g keccak256 sha256 c chain recipient caller body s ≡ ok r
      → g.is_paused s.access ≡ false
  unfolding send
  not_paused c chain recipient caller body s h =
      let (_, k, _) = >>=-eq-ok (when_not_paused g s) _ h in ground arith

  charge :
      (c : Context) (hash size fee : ℕ) (s : Storage g)
      → size ≤ (get_sender_config_with_default g s c.sender).max_payload_size
      → calc_fee g (get_sender_config_with_default g s c.sender) s.fee_per_byte size ≡ ok fee
      → fee ≤ c.value
      → validate_payload_size_and_fee g c hash size s
        ≡ ok (message_paid hash c.sender size c.value ∷ [])
  unfolding validate_payload_size_and_fee validate_payload_size
  charge c hash size fee s fits e le =
      let a : ltb (get_sender_config_with_default g s c.sender).max_payload_size size ≡ false =
        ground arith in
      let b : ltb c.value fee ≡ false = ground arith in rw (a, e, b) refl

  send_ok :
      (c : Context) (chain recipient caller : ℕ) (body : Bytes) (s : Storage g)
      → CanSend c chain recipient caller body s
      → let raw : Bytes = message c chain recipient caller body s in
        send g keccak256 sha256 c chain recipient caller body s
        ≡ ok (
          record s { global_nonce = s.global_nonce + 1 },
          message_paid (sha256 raw) c.sender (length raw) c.value
              ∷ message_sent chain c.sender recipient raw
              ∷ [],
          (s.global_nonce, sha256 raw),
        )
  unfolding send get_sender_config_with_default
  send_ok c chain recipient caller body s (running, r, o, n, fits, (fee, e, le)) =
      let raw : Bytes = message c chain recipient caller body s in
      let a : (recipient == 0) ≡ false = ground arith in
      let b : (s.outbound_message_path (calc_outbound_message_path g keccak256 c chain) == 0)
          ≡ false =
        ground arith in
      let d : ltb (s.global_nonce + 1) word_mod ≡ true = ground arith in
      let s' : Storage g = record s { global_nonce = s.global_nonce + 1 } in
      let k =
        charge c (sha256 raw) (length raw) fee s' fits
          (sym (get_fee-message c chain recipient caller body s) ∙ e) le in
      rw (running, a, b, d, k) refl

  -- A message is sent exactly if the mailbox is not paused, there is a recipient, the path out is
  -- enabled, the nonce is not the last of 256 bits, the message is not larger than the sender's
  -- limit, and the value reaches the fee that `getFee` gives for the sender and the body.
  pub send-CanSend :
      (c : Context) (chain recipient caller : ℕ) (body : Bytes) (s : Storage g)
      → ((r : Storage g × List Event × (ℕ × ℕ)) × (send g keccak256 sha256 c chain recipient caller
              body s
            ≡ ok r))
        ↔ CanSend c chain recipient caller body s
  send-CanSend c chain recipient caller body s = (
    λ (r, h).
        let (a, b, n, _, _, _, _, fits, (fee, e, le)) =
          send_inv g keccak256 sha256 c chain recipient caller body s h in
        (
          not_paused c chain recipient caller body s h,
          a,
          b,
          n,
          fits,
          (fee, get_fee-message c chain recipient caller body s ∙ e, le),
        ),
    λ can. (_, send_ok c chain recipient caller body s can),
  )
