-- ===== src/Contracts/Mailbox/Retry.antt =====
-- contracts/gmp/Mailbox.sol: that a message whose handler failed can be delivered again.
use evm_smart_contracts.Prelude.{
  ℕ, ◌≡◌, ◌≢◌, ◌⊎◌, refl, ap, ◌∙◌, arith, List, [], ◌∷◌, Bool, true, false, Bytes, ok, ◌==◌, ◌&&◌,
  not, update,
}
use evm_smart_contracts.Contracts.Context.{Guards}
use evm_smart_contracts.Contracts.Gmp.{Payload, decode_and_validate_payload}
use evm_smart_contracts.Contracts.Mailbox.{Event, message_handled, Context, Storage, returned}
use evm_smart_contracts.Contracts.Mailbox.Deliver.{
  deliver_and_handle, deliver_and_handle_inv, deliver, verify_payload, handle,
}

module _ (g : Guards) (sha256 : Bytes → ℕ) where
  -- What a later call needs of the mailbox and of the recipient.
  abbrev pub IsReady : Context → Payload → Bytes → Storage g → Type 0
  IsReady c payload result s =
      (g.is_paused s.access ≡ false)
      × (s.inbound_message_path payload.msg_path ≢ 0)
      × ((payload.msg_destination_caller ≡ 0) ⊎ (payload.msg_destination_caller ≡ c.sender))
      × (c.supports_handler payload.msg_recipient ≡ true)
      × (c.handle_payload payload ≡ returned result)

  -- A message that is marked delivered needs no proof.
  pub redeliver :
      (c : Context) (payload : Payload) (raw proof result : Bytes) (s : Storage g)
      → decode_and_validate_payload sha256 raw ≡ ok payload
      → s.delivered_payload payload.id ≡ true
      → IsReady c payload result s
      → deliver_and_handle g sha256 c raw proof s
        ≡ ok (
          record s { handled_payload = update s.handled_payload payload.id true },
          message_handled payload.id c.sender result ∷ [],
          (payload.id, true, result),
        )
  unfolding deliver_and_handle deliver verify_payload handle
  redeliver c payload raw proof result s decoded done (running, path, caller, supports, ran) =
      let a : (s.inbound_message_path payload.msg_path == 0) ≡ false = ground arith in
      let b : (not (payload.msg_destination_caller == 0)
            && not (payload.msg_destination_caller == c.sender))
          ≡ false =
        ground arith in
      rw (running, decoded, a, done, b, supports, ran) refl

  deliver_marks :
      (c : Context) (payload : Payload) (raw proof : Bytes) (s : Storage g) {t : Storage g}
      {ds : List Event}
      → deliver g c payload raw proof s ≡ ok (t, ds)
      → t.delivered_payload payload.id ≡ true
  unfolding deliver verify_payload
  deliver_marks c payload raw proof s h = ground arith

  handle_keeps :
      (c : Context) (payload : Payload) (s : Storage g) {t : Storage g} {hs : List Event}
      {r : Bool × Bytes}
      → handle g c payload s ≡ ok (t, hs, r)
      → t.delivered_payload ≡ s.delivered_payload
  unfolding handle
  handle_keeps c payload s h = ground arith

  -- A call that returns, whatever the handler does, leaves the message delivered.
  pub deliver_and_handle_marks :
      (c : Context) (raw proof : Bytes) (s : Storage g) {t : Storage g} {es : List Event}
      {r : ℕ × Bool × Bytes}
      → deliver_and_handle g sha256 c raw proof s ≡ ok (t, es, r)
      → (payload : Payload) × (decode_and_validate_payload sha256 raw ≡ ok payload)
        × (t.delivered_payload payload.id ≡ true)
  deliver_and_handle_marks c raw proof s h =
      let (p, decoded, s1, _, d, _, (_, k), _, _) =
        deliver_and_handle_inv g sha256 c raw proof s h in
      (p, decoded, ap (λ m. m p.id) (handle_keeps c p s1 k) ∙ deliver_marks c p raw proof s d)
