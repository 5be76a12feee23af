-- ===== src/Contracts/Mailbox/Calls/Keeps.antt =====
-- contracts/gmp/Mailbox.sol: the limits on the size of messages over any sequence of transactions.
use evm_smart_contracts.Prelude.{
  ℕ, ◌≤◌, ◌≡◌, inl, inr, ◌∙◌, arith, List, [], ◌∷◌, Bool, Bool-cases, Bytes, ok, Result-cases,
  length, All, All-append, update, ◌==◌,
}
use evm_smart_contracts.Contracts.Context.{Guards}
use evm_smart_contracts.Contracts.Mailbox.{
  PathDirectionType, SenderConfig, Event, Context, Storage, global_max_payload_size,
  set_default_max_payload_size, set_sender_config, set_fee, withdraw_fee, pause, unpause,
  get_sender_config_with_default,
}
use evm_smart_contracts.Contracts.Mailbox.Paths.{
  enable_message_path, disable_message_path, enable_outbound, enable_inbound,
}
use evm_smart_contracts.Contracts.Mailbox.Send.{send, send_inv}
use evm_smart_contracts.Contracts.Mailbox.Deliver.{
  deliver_and_handle, deliver_and_handle_inv, deliver, verify_payload, handle,
}
use evm_smart_contracts.Contracts.Mailbox.Calls.{
  Call, access_changed, enable_path, disable_path, default_size, byte_fee, sender_conf,
  send_message, deliver_message, take_fee, stop, start, execute, settle, run, state_of_inv,
}
use evm_smart_contracts.Contracts.Mailbox.Calls.Nonces.{
  sent_payloads, sent_payloads-append, enable_inv, disable_inv, deliver_quiet,
}

abbrev pub IsSmall : Bytes → Type 0
IsSmall raw = length raw ≤ global_max_payload_size

module _ (g : Guards) (keccak256 sha256 : Bytes → ℕ) where
  -- No limit is above 10 KB.
  abbrev pub IsLimited : Storage g → Type 0
  IsLimited s =
      (s.default_max_payload_size ≤ global_max_payload_size)
      × ((sender : ℕ) → (s.sender_config sender).max_payload_size ≤ global_max_payload_size)

  abbrev IsKept : Storage g → List Event → Type 0
  IsKept t es = IsLimited t × All IsSmall (sent_payloads es)

  same_limits :
      (s t : Storage g) (es : List Event)
      → IsLimited s
      → (t.default_max_payload_size ≡ s.default_max_payload_size)
        × (t.sender_config ≡ s.sender_config)
      → sent_payloads es ≡ []
      → IsKept t es
  same_limits s t es (l, k) (d, e) none_ =
      ((omega (arith, d, l), λ sender. rw e (k sender)), rw none_ tt)

  get_sender_config_with_default-limit :
      (s : Storage g) (sender : ℕ)
      → IsLimited s
      → (get_sender_config_with_default g s sender).max_payload_size ≤ global_max_payload_size
  unfolding get_sender_config_with_default
  get_sender_config_with_default-limit s sender (l, k) =
      elim (Bool-cases ((s.sender_config sender).max_payload_size == 0)) [
        | inl e ↦ rw e l
        | inr e ↦ rw e (k sender)
      ]

  conf_limit :
      (m : ℕ → SenderConfig) (key : ℕ) (config : SenderConfig)
      → ((sender : ℕ) → (m sender).max_payload_size ≤ global_max_payload_size)
      → config.max_payload_size ≤ global_max_payload_size
      → (sender : ℕ) → (update m key config sender).max_payload_size ≤ global_max_payload_size
  conf_limit m key config k le sender = elim (Bool-cases (sender == key)) [
    | inl e ↦ rw e le
    | inr e ↦ rw e (k sender)
  ]

  set_sender_config_inv :
      (c : Context) (sender size : ℕ) (fee_disabled : Bool) (s : Storage g) {t : Storage g}
      {es : List Event}
      → set_sender_config g c sender size fee_disabled s ≡ ok (t, es)
      → (size ≤ global_max_payload_size)
        × (t.default_max_payload_size ≡ s.default_max_payload_size)
        × (t.sender_config
            ≡ update s.sender_config sender
                (record { max_payload_size = size; fee_disabled = fee_disabled }))
        × (sent_payloads es ≡ [])
  unfolding set_sender_config sent_payloads
  set_sender_config_inv c sender size fee_disabled s h = ground arith

  set_default_max_payload_size_inv :
      (c : Context) (size : ℕ) (s : Storage g) {t : Storage g} {es : List Event}
      → set_default_max_payload_size g c size s ≡ ok (t, es)
      → (size ≤ global_max_payload_size)
        × (t.default_max_payload_size ≡ size)
        × (t.sender_config ≡ s.sender_config)
        × (sent_payloads es ≡ [])
  unfolding set_default_max_payload_size sent_payloads
  set_default_max_payload_size_inv c size s h = ground arith

  enable_limits :
      (c : Context) (chain mailbox : ℕ) (d : PathDirectionType) (s : Storage g) {t : Storage g}
      {es : List Event}
      → enable_message_path g keccak256 c chain mailbox d s ≡ ok (t, es)
      → (t.default_max_payload_size ≡ s.default_max_payload_size)
        × (t.sender_config ≡ s.sender_config)
  unfolding enable_message_path enable_outbound enable_inbound
  enable_limits c chain mailbox d s h = ground arith

  deliver_limits :
      (c : Context) (raw proof : Bytes) (s : Storage g) {t : Storage g} {es : List Event}
      {r : ℕ × Bool × Bytes}
      → deliver_and_handle g sha256 c raw proof s ≡ ok (t, es, r)
      → (t.default_max_payload_size ≡ s.default_max_payload_size)
        × (t.sender_config ≡ s.sender_config)
  unfolding deliver verify_payload handle
  deliver_limits c raw proof s {t} {es} h =
      let (p, _, s1, ds, d, hs, (res, k), _, _) = deliver_and_handle_inv g sha256 c raw proof s h in
      let a : (s1.default_max_payload_size ≡ s.default_max_payload_size)
          × (s1.sender_config ≡ s.sender_config) =
        ground arith in
      let b : (t.default_max_payload_size ≡ s1.default_max_payload_size)
          × (t.sender_config ≡ s1.sender_config) =
        ground arith in
      (b.0 ∙ a.0, b.1 ∙ a.1)

  send-IsKept :
      (c : Context) (chain recipient caller : ℕ) (body : Bytes) (s : Storage g) {t : Storage g}
      {es : List Event} {r : ℕ × ℕ}
      → IsLimited s
      → send g keccak256 sha256 c chain recipient caller body s ≡ ok (t, es, r)
      → IsKept t es
  unfolding sent_payloads
  send-IsKept c chain recipient caller body s l h =
      let (_, _, _, et, ee, _, _, fits, _) =
        send_inv g keccak256 sha256 c chain recipient caller body s h in
      rw (et, ee)
        ((l.0, l.1), (omega (arith, fits, get_sender_config_with_default-limit s c.sender l), tt))

  execute-IsKept :
      (c : Context) (call : Call g) (s : Storage g) {t : Storage g} {es : List Event}
      → IsLimited s
      → execute g keccak256 sha256 c call s ≡ ok (t, es)
      → IsKept t es
  unfolding execute sent_payloads set_fee withdraw_fee pause unpause disable_message_path
  execute-IsKept c (access_changed a) s {t} {es} l h =
      same_limits s t es l (ground arith) (ground arith)
  execute-IsKept c (enable_path chain mailbox d) s {t} {es} l h =
      same_limits s t es l (enable_limits c chain mailbox d s h)
        (enable_inv g keccak256 sha256 c chain mailbox d s h).1
  execute-IsKept c (disable_path chain mailbox d) s {t} {es} l h =
      same_limits s t es l (ground arith) (disable_inv g keccak256 sha256 c chain mailbox d s h).1
  execute-IsKept c (default_size n) s l h =
      let (le, d, e, q) = set_default_max_payload_size_inv c n s h in
      ((omega (arith, d, le), λ sender. rw e (l.1 sender)), rw q tt)
  execute-IsKept c (byte_fee n) s {t} {es} l h = same_limits s t es l (ground arith) (ground arith)
  execute-IsKept c (sender_conf a n b) s l h =
      let (le, d, e, q) = set_sender_config_inv c a n b s h in
      (
        (
          omega (arith, d, l.0),
          λ sender. rw e (
              conf_limit s.sender_config a (record { max_payload_size = n; fee_disabled = b }) l.1
                le sender),
        ),
        rw q tt,
      )
  execute-IsKept c (send_message chain recipient caller body) s l h =
      let (r, k) = state_of_inv (send g keccak256 sha256 c chain recipient caller body s) h in
      send-IsKept c chain recipient caller body s l k
  execute-IsKept c (deliver_message raw proof) s {t} {es} l h =
      let (r, k) = state_of_inv (deliver_and_handle g sha256 c raw proof s) h in
      same_limits s t es l (deliver_limits c raw proof s k)
        (deliver_quiet g keccak256 sha256 c raw proof s k).1
  execute-IsKept c take_fee s {t} {es} l h = same_limits s t es l (ground arith) (ground arith)
  execute-IsKept c stop s {t} {es} l h = same_limits s t es l (ground arith) (ground arith)
  execute-IsKept c start s {t} {es} l h = same_limits s t es l (ground arith) (ground arith)

  settle-IsKept :
      (c : Context) (call : Call g) (s : Storage g)
      → IsLimited s
      → let r : Storage g × List Event =
          settle g keccak256 sha256 s (execute g keccak256 sha256 c call s) in
        IsKept r.0 r.1
  unfolding sent_payloads
  settle-IsKept c call s l = elim (Result-cases (execute g keccak256 sha256 c call s)) [
    | inl (e, k) ↦ rw k (l, tt)
    | inr ((t, es), k) ↦ rw k (execute-IsKept c call s l k)
  ]

  -- Where no limit is above 10000 bytes, no sequence of transactions sets one above or sends a
  -- message that is larger.
  pub run-IsLimited :
      (calls : List (Context × Call g)) (s : Storage g)
      → IsLimited s
      → let r : Storage g × List Event = run g keccak256 sha256 calls s in
        IsLimited r.0 × All IsSmall (sent_payloads r.1)
  unfolding run sent_payloads
  run-IsLimited [] s l = (l, tt)
  run-IsLimited ((c, call) ∷ calls) s l =
      let first = settle g keccak256 sha256 s (execute g keccak256 sha256 c call s) in
      let (l', small) = settle-IsKept c call s l in
      let rest = run g keccak256 sha256 calls first.0 in
      let (l'', small') = run-IsLimited calls first.0 l' in
      (
        l'',
        rw (sent_payloads-append first.1 rest.1)
            (All-append IsSmall (sent_payloads first.1) (sent_payloads rest.1) small small'),
      )
