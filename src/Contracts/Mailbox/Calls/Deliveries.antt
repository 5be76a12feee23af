-- ===== src/Contracts/Mailbox/Calls/Deliveries.antt =====
-- contracts/gmp/Mailbox.sol: how often a message is delivered, by the events.
use evm_smart_contracts.Prelude.{
  ℕ, ◌+◌, ◌≤◌, ◌≡◌, ap, refl, arith, inl, inr, Bool, true, false, Bool-cases, List, [], ◌∷◌, ◌++◌,
  Bytes, ok, Result-cases, ◌==◌, update, if◌then◌else◌,
}
use evm_smart_contracts.Contracts.Context.{Guards}
use evm_smart_contracts.Contracts.Gmp.{Payload}
use evm_smart_contracts.Contracts.Mailbox.{
  PathDirectionType, Event, message_delivered, message_handled, message_handle_error, Context,
  Storage, set_default_max_payload_size, set_sender_config, set_fee, withdraw_fee, pause, unpause,
}
use evm_smart_contracts.Contracts.Mailbox.Paths.{
  enable_message_path, disable_message_path, enable_outbound, enable_inbound,
}
use evm_smart_contracts.Contracts.Mailbox.Send.{send, send_inv}
use evm_smart_contracts.Contracts.Mailbox.Deliver.{
  verify_payload, deliver, handle, deliver_and_handle, deliver_and_handle_inv,
}
use evm_smart_contracts.Contracts.Mailbox.Calls.{
  Call, access_changed, enable_path, disable_path, default_size, byte_fee, sender_conf,
  send_message, deliver_message, take_fee, stop, start, execute, settle, run, state_of_inv,
}
use evm_smart_contracts.Contracts.Mailbox.Calls.Stages.{Handling-cases}

-- How many of the events say that the message was delivered.
unfoldable pub deliveries : ℕ → List Event → ℕ
deliveries id [] = 0
deliveries id (message_delivered key sender nonce from raw ∷ es) =
    (if key == id then 1 else 0) + deliveries id es
deliveries id (_ ∷ es) = deliveries id es

deliveries-append :
    (id : ℕ) (xs ys : List Event) → deliveries id (xs ++ ys) ≡ deliveries id xs + deliveries id ys
unfolding deliveries
deliveries-append id [] ys = omega arith
deliveries-append id (message_delivered a b c d raw ∷ xs) ys =
    omega (arith, deliveries-append id xs ys)
deliveries-append id (_ ∷ xs) ys = deliveries-append id xs ys

abbrev pub flag : Bool → ℕ
flag true = 1
flag false = 0

flag_le : (b : Bool) → flag b ≤ 1
flag_le b = ground arith

module _ (g : Guards) where
  -- The events of a call against the flag of the message.
  abbrev Counted : ℕ → Storage g → Storage g → List Event → Type 0
  Counted id s t es =
      flag (s.delivered_payload id) + deliveries id es ≡ flag (t.delivered_payload id)

  same-Counted :
      (id : ℕ) (s t : Storage g) (es : List Event)
      → t.delivered_payload ≡ s.delivered_payload
      → deliveries id es ≡ 0
      → Counted id s t es
  same-Counted id s t es e n = rw (e, n) (omega arith)

  new-Counted :
      (id key sender nonce from : ℕ) (raw : Bytes) (s t : Storage g)
      → s.delivered_payload key ≡ false
      → t.delivered_payload ≡ update s.delivered_payload key true
      → Counted id s t (message_delivered key sender nonce from raw ∷ [])
  unfolding deliveries
  new-Counted id key sender nonce from raw s t fresh e = elim (Bool-cases (id == key)) [
    | inl same ↦
        let k : key ≡ id = ground arith in
        let old : s.delivered_payload id ≡ false = rw (← k) fresh in
        let again : (key == id) ≡ true = ground arith in rw (e, same, old, again) refl
    | inr other ↦ let away : (key == id) ≡ false = ground arith in rw (e, other, away) (omega arith)
  ]

  deliver-Counted :
      (id : ℕ) (c : Context) (payload : Payload) (raw proof : Bytes) (s : Storage g) {t : Storage g}
      {es : List Event}
      → deliver g c payload raw proof s ≡ ok (t, es)
      → Counted id s t es
  unfolding deliver verify_payload deliveries
  deliver-Counted id c payload raw proof s {t} {es} h =
      elim (Bool-cases (s.delivered_payload payload.id)) [
        | inl old ↦
            let e : t ≡ s = ground arith in
            let n : [] ≡ es = ground arith in rw (e, ← n) (same-Counted id s s [] refl refl)
        | inr fresh ↦
            let n : message_delivered payload.id c.sender payload.msg_nonce payload.msg_sender raw
                  ∷ []
                ≡ es =
              ground arith in
            rw (← n) (
              new-Counted id payload.id c.sender payload.msg_nonce payload.msg_sender raw s t fresh
                (ground arith))
      ]

  no_delivery :
      (id : ℕ) (xs : List Event) {es : List Event}
      → xs ≡ es
      → deliveries id xs ≡ 0
      → deliveries id es ≡ 0
  no_delivery id xs e h = rw (← e) h

  handle_none :
      (id : ℕ) (c : Context) (payload : Payload) (s : Storage g) {t : Storage g} {hs : List Event}
      {r : Bool × Bytes}
      → handle g c payload s ≡ ok (t, hs, r)
      → (t.delivered_payload ≡ s.delivered_payload) × (deliveries id hs ≡ 0)
  unfolding handle deliveries
  handle_none id c payload s {hs = hs} h = elim (Handling-cases (c.handle_payload payload)) [
    | inl (result, k) ↦ (
      ground arith,
      no_delivery id (message_handled payload.id c.sender result ∷ []) {es = hs} (ground arith)
          refl,
    )
    | inr (inl (reason, k)) ↦ (
      ground arith,
      no_delivery id (message_handle_error payload.id c.sender reason [] ∷ []) {es = hs}
          (ground arith) refl,
    )
    | inr (inr (data_, k)) ↦ (
      ground arith,
      no_delivery id (message_handle_error payload.id c.sender [] data_ ∷ []) {es = hs}
          (ground arith) refl,
    )
  ]

  module _ (keccak256 sha256 : Bytes → ℕ) where
    delivery-Counted :
        (id : ℕ) (c : Context) (raw proof : Bytes) (s : Storage g) {t : Storage g} {es : List Event}
        {r : ℕ × Bool × Bytes}
        → deliver_and_handle g sha256 c raw proof s ≡ ok (t, es, r)
        → Counted id s t es
    delivery-Counted id c raw proof s {t} {es} h =
        let (p, _, s1, ds, d, hs, (res, k), e, _) =
          deliver_and_handle_inv g sha256 c raw proof s h in
        let first : Counted id s s1 ds = deliver-Counted id c p raw proof s d in
        let (same, n) = handle_none id c p s1 k in
        let last : t.delivered_payload id ≡ s1.delivered_payload id = ap (λ m. m id) same in
        rw (e, deliveries-append id ds hs, n, last) (omega (arith, first))

    enable_none :
        (id chain mailbox : ℕ) (c : Context) (d : PathDirectionType) (s : Storage g) {t : Storage g}
        {es : List Event}
        → enable_message_path g keccak256 c chain mailbox d s ≡ ok (t, es)
        → (t.delivered_payload ≡ s.delivered_payload) × (deliveries id es ≡ 0)
    unfolding enable_message_path enable_outbound enable_inbound deliveries
    enable_none id chain mailbox c d s h = (ground arith, ground arith)

    execute-Counted :
        (id : ℕ) (c : Context) (call : Call g) (s : Storage g) {t : Storage g} {es : List Event}
        → execute g keccak256 sha256 c call s ≡ ok (t, es)
        → Counted id s t es
    unfolding execute set_default_max_payload_size set_sender_config set_fee withdraw_fee pause
        unpause disable_message_path deliveries
    execute-Counted id c (access_changed a) s {t} {es} h =
        same-Counted id s t es (ground arith) (no_delivery id [] {es = es} (ground arith) refl)
    execute-Counted id c (enable_path chain mailbox d) s {t} {es} h =
        let (e, n) = enable_none id chain mailbox c d s h in same-Counted id s t es e n
    execute-Counted id c (disable_path chain mailbox d) s {t} {es} h =
        same-Counted id s t es (ground arith) (ground arith)
    execute-Counted id c (default_size n) s {t} {es} h =
        same-Counted id s t es (ground arith) (ground arith)
    execute-Counted id c (byte_fee n) s {t} {es} h =
        same-Counted id s t es (ground arith) (ground arith)
    execute-Counted id c (sender_conf a n b) s {t} {es} h =
        same-Counted id s t es (ground arith) (ground arith)
    execute-Counted id c (send_message chain recipient caller body) s {t} {es} h =
        let (r, k) = state_of_inv (send g keccak256 sha256 c chain recipient caller body s) h in
        let (_, _, _, et, ee, _, _, _, _) =
          send_inv g keccak256 sha256 c chain recipient caller body s k in
        same-Counted id s t es (ap (λ u. u.delivered_payload) et) (rw ee refl)
    execute-Counted id c (deliver_message raw proof) s h =
        let (r, k) = state_of_inv (deliver_and_handle g sha256 c raw proof s) h in
        delivery-Counted id c raw proof s k
    execute-Counted id c take_fee s {t} {es} h =
        same-Counted id s t es (ground arith) (ground arith)
    execute-Counted id c stop s {t} {es} h = same-Counted id s t es (ground arith) (ground arith)
    execute-Counted id c start s {t} {es} h = same-Counted id s t es (ground arith) (ground arith)

    settle-Counted :
        (id : ℕ) (c : Context) (call : Call g) (s : Storage g)
        → let r : Storage g × List Event =
            settle g keccak256 sha256 s (execute g keccak256 sha256 c call s) in
          Counted id s r.0 r.1
    unfolding deliveries
    settle-Counted id c call s = elim (Result-cases (execute g keccak256 sha256 c call s)) [
      | inl (e, k) ↦ rw k (same-Counted id s s [] refl refl)
      | inr ((t, es), k) ↦ rw k (execute-Counted id c call s k)
    ]

    -- Over any sequence of transactions a message is delivered at most once, never if it was
    -- delivered before, and it counts as delivered afterwards exactly if it did before or was.
    pub run-deliveries :
        (id : ℕ) (calls : List (Context × Call g)) (s : Storage g)
        → let r : Storage g × List Event = run g keccak256 sha256 calls s in
          (flag (s.delivered_payload id) + deliveries id r.1 ≡ flag (r.0.delivered_payload id))
          × (deliveries id r.1 ≤ 1)
    unfolding run deliveries
    run-deliveries id [] s = (omega arith, omega arith)
    run-deliveries id ((c, call) ∷ calls) s =
        let first = settle g keccak256 sha256 s (execute g keccak256 sha256 c call s) in
        let one : Counted id s first.0 first.1 = settle-Counted id c call s in
        let rest = run g keccak256 sha256 calls first.0 in
        let (more, _) = run-deliveries id calls first.0 in
        let e : flag (s.delivered_payload id) + deliveries id (first.1 ++ rest.1)
            ≡ flag (rest.0.delivered_payload id) =
          omega (arith, deliveries-append id first.1 rest.1, one, more) in
        (e, omega (arith, e, flag_le (rest.0.delivered_payload id)))
