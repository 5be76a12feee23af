-- ===== src/Contracts/Mailbox/Calls/Later.antt =====
-- contracts/gmp/Mailbox.sol: that a message whose handler failed can be handled later.
use evm_smart_contracts.Prelude.{
  ℕ, ◌≡◌, ◌≢◌, refl, arith, List, [], ◌∷◌, some, Bool, true, false, Bytes, ok, update,
}
use evm_smart_contracts.Contracts.Context.{Guards}
use evm_smart_contracts.Contracts.Gmp.{Payload, decode_and_validate_payload}
use evm_smart_contracts.Contracts.Mailbox.{Event, message_handled, Context, Storage}
use evm_smart_contracts.Contracts.Mailbox.Deliver.{deliver_and_handle}
use evm_smart_contracts.Contracts.Mailbox.Retry.{IsReady, redeliver, deliver_and_handle_marks}
use evm_smart_contracts.Contracts.Mailbox.Calls.{Call, run}
use evm_smart_contracts.Contracts.Mailbox.Calls.Stages.{
  Stage, unknown, delivered, handled, stage_of, Life, stays, delivers, handles,
}
use evm_smart_contracts.Contracts.Mailbox.Calls.Lives.{run-Life}

-- A life does not go back.
pub Life-known : {P R : Type 0} {a b : Stage} → Life P R a b → a ≢ unknown → b ≢ unknown
Life-known stays h = h
Life-known (delivers l p) h = λ e. ground arith
Life-known (handles l r) h = λ e. ground arith

known_flag : (d h : Bool) {a : Stage} → stage_of d h ≡ some a → a ≢ unknown → d ≡ true
known_flag true h e k = refl
known_flag false true e k = ground arith
known_flag false false e k = ground arith

flag_known : (h : Bool) → (a : Stage) × (stage_of true h ≡ some a) × (a ≢ unknown)
flag_known true = (handled, refl, λ e. ground arith)
flag_known false = (delivered, refl, λ e. ground arith)

module _ (g : Guards) (keccak256 sha256 : Bytes → ℕ) where
  run-delivered :
      (id : ℕ) (calls : List (Context × Call g)) (s : Storage g)
      → s.delivered_payload id ≡ true
      → (run g keccak256 sha256 calls s).0.delivered_payload id ≡ true
  run-delivered id calls s h =
      let (a, e, k) = flag_known (s.handled_payload id) in
      let (_, (b, eb, l), _, _) = run-Life g keccak256 sha256 id calls s a (rw h e) in
      known_flag _ _ eb (Life-known l k)

  -- Once a call has delivered a message, whether or not its handler succeeded, and after any
  -- transactions, a call with the same message is handled, whatever proof it has, if the mailbox is
  -- not paused, the path in is enabled, the caller is the one named, if any, and the recipient
  -- supports the interface and its handler returns. The call returns the handler's result.
  pub deliver_and_handle_again :
      (c c' : Context) (raw proof proof' result : Bytes) (s : Storage g) {t : Storage g}
      {es : List Event} {r : ℕ × Bool × Bytes} {payload : Payload} (calls : List (Context × Call g))
      → deliver_and_handle g sha256 c raw proof s ≡ ok (t, es, r)
      → decode_and_validate_payload sha256 raw ≡ ok payload
      → IsReady g sha256 c' payload result (run g keccak256 sha256 calls t).0
      → let u : Storage g = (run g keccak256 sha256 calls t).0 in
        deliver_and_handle g sha256 c' raw proof' u
        ≡ ok (
          record u { handled_payload = update u.handled_payload payload.id true },
          message_handled payload.id c'.sender result ∷ [],
          (payload.id, true, result),
        )
  deliver_and_handle_again c c' raw proof proof' result s {t} {payload = payload} calls h decoded
        ready =
      let (p, e, marked) = deliver_and_handle_marks g sha256 c raw proof s h in
      let same : p ≡ payload = ground arith in
      let u : Storage g = (run g keccak256 sha256 calls t).0 in
      redeliver g sha256 c' payload raw proof' result u decoded
        (run-delivered payload.id calls t (rw (← same) marked)) ready
