-- ===== src/Contracts/Mailbox/Deliver.antt =====
-- contracts/gmp/Mailbox.sol: `deliverAndHandle`.
use evm_smart_contracts.Prelude.{
  ℕ, ◌≡◌, >>=-eq-ok, arith, Bool, true, false, not, ◌&&◌, List, [], ◌∷◌, ◌++◌, Bytes, Result, ok,
  err, ◌>>=◌, ◌>>◌, guard, revert_if, ◌==◌, update, if◌then◌else◌,
}
use evm_smart_contracts.Contracts.Context.{Guards}
use evm_smart_contracts.Contracts.Gmp
use evm_smart_contracts.Contracts.Gmp.{Payload, decode_and_validate_payload}
use evm_smart_contracts.Contracts.Mailbox.{
  Error, message_path_disabled, unexpected_destination_caller, handler_not_implemented,
  proof_refused, gmp, Event, message_delivered, message_handled, message_handle_error, returned,
  reverted, failed, Context, Storage, when_not_paused,
}

-- A library's revert is one of the mailbox's call.
abbrev pub from_gmp : {A : Type 0} → Result Gmp.Error A → Result Error A
from_gmp (ok a) = ok a
from_gmp (err e) = err (gmp e)

from_gmp_inv :
    {A : Type 0} (result : Result Gmp.Error A) {a : A} → from_gmp result ≡ ok a → result ≡ ok a
from_gmp_inv (ok a) h = ground arith
from_gmp_inv (err e) h = ground arith

module _ (g : Guards) where
  unfoldable pub verify_payload :
      Context → Payload → Bytes → Bytes → Storage g → Result Error (Storage g × List Event)
  verify_payload c payload proof raw s =
      let verified : Result Error (Storage g × List Event) =
        guard (c.check_proof s.consortium payload.id proof) proof_refused
        >> ok (
          record s { delivered_payload = update s.delivered_payload payload.id true },
          message_delivered payload.id c.sender payload.msg_nonce payload.msg_sender raw ∷ [],
        ) in
      if s.delivered_payload payload.id then ok (s, []) else verified

  unfoldable pub deliver :
      Context → Payload → Bytes → Bytes → Storage g → Result Error (Storage g × List Event)
  deliver c payload raw proof s = do
    revert_if (s.inbound_message_path payload.msg_path == 0)
        (message_path_disabled payload.msg_path)
    verify_payload c payload proof raw s

  -- It returns whether the handler succeeded, and the handler's result.
  unfoldable pub handle :
      Context → Payload → Storage g → Result Error (Storage g × List Event × (Bool × Bytes))
  handle c payload s = do
    revert_if
        (not (payload.msg_destination_caller == 0)
          && not (payload.msg_destination_caller == c.sender))
        (unexpected_destination_caller payload.msg_destination_caller c.sender)
    guard (c.supports_handler payload.msg_recipient) handler_not_implemented
    elim (c.handle_payload payload) [
      | returned result ↦ ok (
        record s { handled_payload = update s.handled_payload payload.id true },
        message_handled payload.id c.sender result ∷ [],
        (true, result),
      )
      | reverted reason ↦
          ok (s, message_handle_error payload.id c.sender reason [] ∷ [], (false, []))
      | failed data_ ↦ ok (s, message_handle_error payload.id c.sender [] data_ ∷ [], (false, []))
    ]

  module _ (sha256 : Bytes → ℕ) where
    unfoldable pub deliver_and_handle :
        Context
        → Bytes
        → Bytes
        → Storage g
        → Result Error (Storage g × List Event × (ℕ × Bool × Bytes))
    deliver_and_handle c raw proof s = do
      when_not_paused g s
      payload ← from_gmp (decode_and_validate_payload sha256 raw)
      (s1, delivered) ← deliver c payload raw proof s
      (s2, handled, (success, result)) ← handle c payload s1
      ok (s2, delivered ++ handled, (payload.id, success, result))

    -- The parts of a delivery that returns: the message is decoded, delivered, and handled.
    pub deliver_and_handle_inv :
        (c : Context) (raw proof : Bytes) (s : Storage g) {t : Storage g} {es : List Event}
        {r : ℕ × Bool × Bytes}
        → deliver_and_handle c raw proof s ≡ ok (t, es, r)
        → (payload : Payload) × (decode_and_validate_payload sha256 raw ≡ ok payload)
          × (s1 : Storage g) × (ds : List Event) × (deliver c payload raw proof s ≡ ok (s1, ds))
          × (hs : List Event) × ((result : Bool × Bytes) × (handle c payload s1
                ≡ ok (t, hs, result)))
          × (es ≡ ds ++ hs)
          × (r.0 ≡ payload.id)
    unfolding deliver_and_handle
    deliver_and_handle_inv c raw proof s h =
        let (_, _, h1) = >>=-eq-ok (when_not_paused g s) _ h in
        let (payload, decoded, h2) =
          >>=-eq-ok (from_gmp (decode_and_validate_payload sha256 raw)) _ h1 in
        let ((s1, ds), delivered, h3) = >>=-eq-ok (deliver c payload raw proof s) _ h2 in
        let ((s2, hs, result), handled, h4) = >>=-eq-ok (handle c payload s1) _ h3 in
        (
          payload,
          from_gmp_inv _ decoded,
          s1,
          ds,
          delivered,
          hs,
          (result, ground arith),
          ground arith,
          ground arith,
        )
