-- ===== src/Contracts/Mailbox/Calls/Nonces.antt =====
-- contracts/gmp/Mailbox.sol: the nonces of the messages sent over any sequence of transactions.
use evm_smart_contracts.Prelude.{
  ℕ, ◌+◌, ◌<◌, ◌≡◌, ◌≢◌, inl, inr, refl, ap, ◌∙◌, List, [], ◌∷◌, ◌++◌, Bytes, Bool, length-append,
  ok, Result-cases, length, take, drop, be_nat, All, arith, word_mod,
}
use evm_smart_contracts.Contracts.Context.{Guards}
use evm_smart_contracts.Contracts.Gmp.{address_to_bytes32}
use evm_smart_contracts.Contracts.Gmp.RoundTrip.{encode_payload-nonce}
use evm_smart_contracts.Contracts.Mailbox.{
  PathDirectionType, Event, message_sent, Context, Storage, set_default_max_payload_size,
  set_sender_config, set_fee, withdraw_fee, pause, unpause,
}
use evm_smart_contracts.Contracts.Mailbox.Paths.{
  enable_message_path, disable_message_path, enable_outbound, enable_inbound,
  calc_outbound_message_path,
}
use evm_smart_contracts.Contracts.Mailbox.Send.{send, send_inv}
use evm_smart_contracts.Contracts.Mailbox.Deliver.{
  deliver_and_handle, deliver_and_handle_inv, deliver, verify_payload, handle,
}
use evm_smart_contracts.Contracts.Mailbox.Calls.{
  Call, access_changed, enable_path, disable_path, default_size, byte_fee, sender_conf,
  send_message, deliver_message, take_fee, stop, start, execute, settle, run, state_of_inv,
}

-- The messages that the events show as sent.
unfoldable pub sent_payloads : List Event → List Bytes
sent_payloads [] = []
sent_payloads (message_sent chain sender recipient raw ∷ es) = raw ∷ sent_payloads es
sent_payloads (_ ∷ es) = sent_payloads es

-- The second word of a message.
abbrev pub payload_nonce : Bytes → ℕ
payload_nonce raw = be_nat 0 (take 32 (drop 36 raw))

-- A value that stands twice in a list is refused.
abbrev pub Distinct : List Bytes → Type 0
Distinct [] = Unit
Distinct (x ∷ xs) = All (λ y. x ≢ y) xs × Distinct xs

pub sent_payloads-append :
    (xs ys : List Event) → sent_payloads (xs ++ ys) ≡ sent_payloads xs ++ sent_payloads ys
unfolding sent_payloads
sent_payloads-append [] ys = refl
sent_payloads-append (message_sent a b c raw ∷ xs) ys =
    ap (λ l. raw ∷ l) (sent_payloads-append xs ys)
sent_payloads-append (_ ∷ xs) ys = sent_payloads-append xs ys

-- The nonces in a list count up from a number.
abbrev pub CountUp : ℕ → List Bytes → Type 0
CountUp n [] = Unit
CountUp n (raw ∷ rest) = (payload_nonce raw ≡ n) × CountUp (n + 1) rest

CountUp-append :
    (n : ℕ) (xs ys : List Bytes) → CountUp n xs → CountUp (n + length xs) ys → CountUp n (xs ++ ys)
CountUp-append n [] ys h k = let e : n + 0 ≡ n = omega arith in rw e at k
CountUp-append n (x ∷ xs) ys h k =
    let e : n + length (x ∷ xs) ≡ n + 1 + length xs = omega arith in
    (h.0, CountUp-append (n + 1) xs ys h.1 (rw e at k))

-- A message with a nonce below all of them is none of them.
CountUp-above :
    (raw : Bytes) (n : ℕ) (xs : List Bytes)
    → payload_nonce raw < n
    → CountUp n xs
    → All (λ y. raw ≢ y) xs
CountUp-above raw n [] lt h = tt
CountUp-above raw n (x ∷ xs) lt h = (
  λ e.
      let same : payload_nonce raw ≡ payload_nonce x = ap payload_nonce e in
      omega (arith, same, h.0, lt),
  CountUp-above raw (n + 1) xs (omega arith) h.1,
)

pub CountUp-Distinct : (n : ℕ) (xs : List Bytes) → CountUp n xs → Distinct xs
CountUp-Distinct n [] h = tt
CountUp-Distinct n (x ∷ xs) h =
    (CountUp-above x (n + 1) xs (omega (arith, h.0)) h.1, CountUp-Distinct (n + 1) xs h.1)

module _ (g : Guards) (keccak256 sha256 : Bytes → ℕ) where
  -- What a call does to the nonce and to the messages.
  abbrev pub IsCounted : Storage g → Storage g → List Event → Type 0
  IsCounted s t es =
      (t.global_nonce < word_mod)
      × (t.global_nonce ≡ s.global_nonce + length (sent_payloads es))
      × CountUp s.global_nonce (sent_payloads es)

  quiet :
      (s t : Storage g) (es : List Event)
      → s.global_nonce < word_mod
      → t.global_nonce ≡ s.global_nonce
      → sent_payloads es ≡ []
      → IsCounted s t es
  quiet s t es lt e none_ = rw none_ (omega (arith, lt, e), omega (arith, e), tt)

  pub enable_inv :
      (c : Context) (chain mailbox : ℕ) (d : PathDirectionType) (s : Storage g) {t : Storage g}
      {es : List Event}
      → enable_message_path g keccak256 c chain mailbox d s ≡ ok (t, es)
      → (t.global_nonce ≡ s.global_nonce) × (sent_payloads es ≡ [])
  unfolding enable_message_path enable_outbound enable_inbound sent_payloads
  enable_inv c chain mailbox d s h = ground arith

  pub disable_inv :
      (c : Context) (chain mailbox : ℕ) (d : PathDirectionType) (s : Storage g) {t : Storage g}
      {es : List Event}
      → disable_message_path g keccak256 c chain mailbox d s ≡ ok (t, es)
      → (t.global_nonce ≡ s.global_nonce) × (sent_payloads es ≡ [])
  unfolding disable_message_path sent_payloads
  disable_inv c chain mailbox d s h = ground arith

  send-IsCounted :
      (c : Context) (chain recipient caller : ℕ) (body : Bytes) (s : Storage g) {t : Storage g}
      {es : List Event} {r : ℕ × ℕ}
      → s.global_nonce < word_mod
      → send g keccak256 sha256 c chain recipient caller body s ≡ ok (t, es, r)
      → IsCounted s t es
  unfolding sent_payloads
  send-IsCounted c chain recipient caller body s {t} {es} lt h =
      let (_, _, fits, et, ee, _, _, _, _) =
        send_inv g keccak256 sha256 c chain recipient caller body s h in
      let n =
        encode_payload-nonce (calc_outbound_message_path g keccak256 c chain) s.global_nonce
          (address_to_bytes32 c.sender) recipient caller body lt in
      rw (et, ee) (fits, refl, (n, tt))

  pub deliver_quiet :
      (c : Context) (raw proof : Bytes) (s : Storage g) {t : Storage g} {es : List Event}
      {r : ℕ × Bool × Bytes}
      → deliver_and_handle g sha256 c raw proof s ≡ ok (t, es, r)
      → (t.global_nonce ≡ s.global_nonce) × (sent_payloads es ≡ [])
  unfolding deliver verify_payload handle sent_payloads
  deliver_quiet c raw proof s {t} {es} h =
      let (p, _, s1, ds, d, hs, (res, k), ee, _) =
        deliver_and_handle_inv g sha256 c raw proof s h in
      let a : (s1.global_nonce ≡ s.global_nonce) × (sent_payloads ds ≡ []) = ground arith in
      let b : (t.global_nonce ≡ s1.global_nonce) × (sent_payloads hs ≡ []) = ground arith in
      (b.0 ∙ a.0, ap sent_payloads ee ∙ sent_payloads-append ds hs ∙ rw (a.1, b.1) refl)

  counted :
      (s t : Storage g) (es : List Event)
      → s.global_nonce < word_mod
      → (t.global_nonce ≡ s.global_nonce) × (sent_payloads es ≡ [])
      → IsCounted s t es
  counted s t es lt h = quiet s t es lt h.0 h.1

  execute-IsCounted :
      (c : Context) (call : Call g) (s : Storage g) {t : Storage g} {es : List Event}
      → s.global_nonce < word_mod
      → execute g keccak256 sha256 c call s ≡ ok (t, es)
      → IsCounted s t es
  unfolding execute sent_payloads set_default_max_payload_size set_sender_config set_fee
      withdraw_fee pause unpause
  execute-IsCounted c (access_changed a) s {t} {es} lt h = counted s t es lt (ground arith)
  execute-IsCounted c (enable_path chain mailbox d) s {t} {es} lt h =
      counted s t es lt (enable_inv c chain mailbox d s h)
  execute-IsCounted c (disable_path chain mailbox d) s {t} {es} lt h =
      counted s t es lt (disable_inv c chain mailbox d s h)
  execute-IsCounted c (default_size n) s {t} {es} lt h = counted s t es lt (ground arith)
  execute-IsCounted c (byte_fee n) s {t} {es} lt h = counted s t es lt (ground arith)
  execute-IsCounted c (sender_conf a n b) s {t} {es} lt h = counted s t es lt (ground arith)
  execute-IsCounted c (send_message chain recipient caller body) s lt h =
      let (r, k) = state_of_inv (send g keccak256 sha256 c chain recipient caller body s) h in
      send-IsCounted c chain recipient caller body s lt k
  execute-IsCounted c (deliver_message raw proof) s {t} {es} lt h =
      let (r, k) = state_of_inv (deliver_and_handle g sha256 c raw proof s) h in
      counted s t es lt (deliver_quiet c raw proof s k)
  execute-IsCounted c take_fee s {t} {es} lt h = counted s t es lt (ground arith)
  execute-IsCounted c stop s {t} {es} lt h = counted s t es lt (ground arith)
  execute-IsCounted c start s {t} {es} lt h = counted s t es lt (ground arith)

  settle-IsCounted :
      (c : Context) (call : Call g) (s : Storage g)
      → s.global_nonce < word_mod
      → let r : Storage g × List Event =
          settle g keccak256 sha256 s (execute g keccak256 sha256 c call s) in
        IsCounted s r.0 r.1
  unfolding sent_payloads
  settle-IsCounted c call s lt = elim (Result-cases (execute g keccak256 sha256 c call s)) [
    | inl (e, k) ↦ rw k (counted s s [] lt (refl, refl))
    | inr ((t, es), k) ↦ rw k (execute-IsCounted c call s lt k)
  ]

  IsCounted-append :
      (s t u : Storage g) (xs ys : List Event)
      → IsCounted s t xs
      → IsCounted t u ys
      → IsCounted s u (xs ++ ys)
  IsCounted-append s t u xs ys (a, e, up) (b, f, up') = rw (sent_payloads-append xs ys) (
    b,
    omega (arith, e, f, length-append (sent_payloads xs) (sent_payloads ys)),
    CountUp-append s.global_nonce (sent_payloads xs) (sent_payloads ys) up (rw e at up'),
  )

  run-IsCounted :
      (calls : List (Context × Call g)) (s : Storage g)
      → s.global_nonce < word_mod
      → let r : Storage g × List Event = run g keccak256 sha256 calls s in IsCounted s r.0 r.1
  unfolding run sent_payloads
  run-IsCounted [] s lt = counted s s [] lt (refl, refl)
  run-IsCounted ((c, call) ∷ calls) s lt =
      let first = settle g keccak256 sha256 s (execute g keccak256 sha256 c call s) in
      let one : IsCounted s first.0 first.1 = settle-IsCounted c call s lt in
      let rest = run g keccak256 sha256 calls first.0 in
      IsCounted-append s first.0 rest.0 first.1 rest.1 one (run-IsCounted calls first.0 one.0)

  -- Over any sequence of transactions, from a storage whose nonce fits 256 bits, no two of the
  -- messages sent are the same, their number is what the nonce grows by, and the nonce still fits.
  pub run-Distinct :
      (calls : List (Context × Call g)) (s : Storage g)
      → s.global_nonce < word_mod
      → let r : Storage g × List Event = run g keccak256 sha256 calls s in
        Distinct (sent_payloads r.1)
        × (r.0.global_nonce ≡ s.global_nonce + length (sent_payloads r.1))
        × (r.0.global_nonce < word_mod)
  run-Distinct calls s lt =
      let (a, e, up) = run-IsCounted calls s lt in (CountUp-Distinct s.global_nonce _ up, e, a)
