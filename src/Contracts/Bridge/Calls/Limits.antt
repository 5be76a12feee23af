-- ===== src/Contracts/Bridge/Calls/Limits.antt =====
-- contracts/bridge/BridgeV2.sol and contracts/libs/RateLimits.sol: how much the bridge mints of a
-- token for a chain over any sequence of transactions.
use evm_smart_contracts.Prelude.{
  ℕ, >>=-eq-ok, revert_if, ◌+◌, ◌-◌, ◌*◌, ◌≤◌, ◌≡◌, refl, ap, ◌∙◌, arith, inl, inr, true, false,
  Bool-cases, List, [], ◌∷◌, ◌++◌, Bytes, Result, ok, err, Result-cases, ◌==◌, if◌then◌else◌,
  update, All,
}
use evm_smart_contracts.Contracts.Gmp.{Payload}
use evm_smart_contracts.Contracts.RateLimits.{Data}
use evm_smart_contracts.Contracts.RateLimits.Flow
use evm_smart_contracts.Contracts.RateLimits.Flow.{run_one, run-append, run_throughput}
use evm_smart_contracts.Contracts.Bridge.{
  Error, zero_sender, Event, withdraw_from_bridge, Context, Storage, set_destination_bridge,
  set_sender_config, add_destination_token, remove_destination_token, calc_rate_limit_id,
}
use evm_smart_contracts.Contracts.Bridge.Deposit.{deposit_on_behalf, deposit, deposit_for}
use evm_smart_contracts.Contracts.Bridge.Withdraw.{handle_payload, handle_payload_inv}
use evm_smart_contracts.Contracts.Bridge.Calls.{
  Call, owner_changed, set_bridge, sender_conf, add_token, remove_token, token_limits,
  deposit_behalf, deposit_own, handle, unchanged, settle, execute, run,
}

-- The owner does not change the limits.
abbrev pub KeepsLimits : Context × Call → Type 0
KeepsLimits (c, token_limits token config) = ⊥
KeepsLimits (c, _) = Unit

module _ (keccak256 : Bytes → ℕ) where
  abbrev pub minted_by : ℕ → Event → ℕ
  minted_by key (withdraw_from_bridge recipient chain token amount) =
      if calc_rate_limit_id keccak256 chain token == key then amount else 0
  minted_by key _ = 0

  -- What the events show as minted under the id of a rate limit.
  unfoldable pub minted : ℕ → List Event → ℕ
  minted key [] = 0
  minted key (e ∷ es) = minted_by key e + minted key es

  minted-append :
      (key : ℕ) (xs ys : List Event) → minted key (xs ++ ys) ≡ minted key xs + minted key ys
  unfolding minted
  minted-append key [] ys = omega arith
  minted-append key (x ∷ xs) ys = omega (arith, minted-append key xs ys)

  -- The window under a key went through calls of `updateLimit` that let through what was minted.
  abbrev Passes : ℕ → Storage → Storage → List Event → Type 0
  Passes key s t es =
      (calls : List (ℕ × ℕ)) × (Flow.run (s.rate_limit key) calls
        ≡ (t.rate_limit key, minted key es))

  quiet :
      (key : ℕ) (s t : Storage) (es : List Event)
      → (t.rate_limit ≡ s.rate_limit) × (minted key es ≡ 0)
      → Passes key s t es
  unfolding Flow.run
  quiet key s t es (e, n) = ([], rw (e, n) refl)

  run_none : (rl : Data) → Flow.run rl [] ≡ (rl, 0)
  unfolding Flow.run
  run_none rl = refl

  handle-Passes :
      (key : ℕ) (c : Context) (payload : Payload) (s : Storage) {t : Storage} {es : List Event}
      → handle_payload keccak256 c payload s ≡ ok (t, es)
      → Passes key s t es
  unfolding minted
  handle-Passes key c payload s {t} {es} h =
      let chain : ℕ = c.inbound_message_path payload.msg_path in
      let (_, _, _, _, (msg, _, _, (rl, limited, et), ee)) =
        handle_payload_inv keccak256 c payload s h in
      let id : ℕ = calc_rate_limit_id keccak256 chain msg.token in
      let e : t.rate_limit ≡ update s.rate_limit id rl = ap (λ u. u.rate_limit) et in
      elim (Bool-cases (id == key)) [
        | inl same ↦
            let k : id ≡ key = ground arith in
            let back : (key == id) ≡ true = ground arith in
            let n : minted key es ≡ msg.amount = ap (minted key) ee ∙ rw same (omega arith) in
            let now : t.rate_limit key ≡ rl = ap (λ m. m key) e ∙ rw back refl in
            (
              (c.now, msg.amount) ∷ [],
              run_one c.now msg.amount (s.rate_limit key) (rw k at limited) ∙ rw (now, n) refl,
            )
        | inr other ↦
            let back : (key == id) ≡ false = ground arith in
            let n : minted key es ≡ 0 = ap (minted key) ee ∙ rw other refl in
            let now : t.rate_limit key ≡ s.rate_limit key = ap (λ m. m key) e ∙ rw back refl in
            ([], run_none (s.rate_limit key) ∙ rw (now, n) refl)
      ]

  deposit_quiet :
      (key : ℕ) (c : Context) (chain token sender recipient amount caller : ℕ) (s : Storage)
      {es : List Event} {r : ℕ × ℕ}
      → deposit_for keccak256 c chain token sender recipient amount caller s ≡ ok (es, r)
      → minted key es ≡ 0
  unfolding deposit_for minted
  deposit_quiet key c chain token sender recipient amount caller s h = ground arith

  unchanged_quiet :
      (key : ℕ) (s : Storage) (r : Result Error (List Event × (ℕ × ℕ))) {t : Storage}
      {es : List Event}
      → ((fs : List Event) (p : ℕ × ℕ) → r ≡ ok (fs, p) → minted key fs ≡ 0)
      → unchanged s r ≡ ok (t, es)
      → (t.rate_limit ≡ s.rate_limit) × (minted key es ≡ 0)
  unchanged_quiet key s (ok (fs, p)) {t} {es} k h =
      let e : es ≡ fs = ground arith in (ground arith, ap (minted key) e ∙ k fs p refl)
  unchanged_quiet key s (err e) k h = ground arith

  execute-Passes :
      (key : ℕ) (c : Context) (call : Call) (s : Storage) {t : Storage} {es : List Event}
      → KeepsLimits (c, call)
      → execute keccak256 c call s ≡ ok (t, es)
      → Passes key s t es
  unfolding execute minted set_destination_bridge set_sender_config add_destination_token
      remove_destination_token deposit_on_behalf deposit
  execute-Passes key c (handle p) s keeps h = handle-Passes key c p s h
  execute-Passes key c (owner_changed o) s {t} {es} keeps h = quiet key s t es (ground arith)
  execute-Passes key c (set_bridge a b) s {t} {es} keeps h = quiet key s t es (ground arith)
  execute-Passes key c (sender_conf a b d) s {t} {es} keeps h = quiet key s t es (ground arith)
  execute-Passes key c (add_token a b d) s {t} {es} keeps h = quiet key s t es (ground arith)
  execute-Passes key c (remove_token a b) s {t} {es} keeps h = quiet key s t es (ground arith)
  execute-Passes key c (token_limits a b) s keeps h = absurd keeps
  execute-Passes key c (deposit_behalf a b d e f i) s {t} {es} keeps h = quiet key s t es (
      unchanged_quiet key s _
        (λ fs p k.
          deposit_quiet key c a b d e f i s (>>=-eq-ok (revert_if (d == 0) zero_sender) _ k).2)
        h)
  execute-Passes key c (deposit_own a b d e f) s {t} {es} keeps h =
      quiet key s t es
        (unchanged_quiet key s _ (λ fs p k. deposit_quiet key c a b c.sender d e f s k) h)

  settle-Passes :
      (key : ℕ) (c : Context) (call : Call) (s : Storage)
      → KeepsLimits (c, call)
      → let r : Storage × List Event × List ℕ = settle s call (execute keccak256 c call s) in
        Passes key s r.0 r.1
  unfolding minted
  settle-Passes key c call s keeps = elim (Result-cases (execute keccak256 c call s)) [
    | inl (e, k) ↦ rw k (quiet key s s [] (refl, refl))
    | inr ((t, es), k) ↦ rw k (execute-Passes key c call s keeps k)
  ]

  Passes-trans :
      (key : ℕ) (s t u : Storage) (xs ys : List Event)
      → Passes key s t xs
      → Passes key t u ys
      → Passes key s u (xs ++ ys)
  Passes-trans key s t u xs ys (a, ea) (b, eb) =
      (a ++ b, run-append (s.rate_limit key) a b ∙ rw (ea, eb, minted-append key xs ys) refl)

  run-Passes :
      (key : ℕ) (calls : List (Context × Call)) (s : Storage)
      → All KeepsLimits calls
      → let r : Storage × List Event × List ℕ = run keccak256 calls s in Passes key s r.0 r.1
  unfolding run minted
  run-Passes key [] s keeps = quiet key s s [] (refl, refl)
  run-Passes key ((c, call) ∷ calls) s keeps =
      let first = settle s call (execute keccak256 c call s) in
      let rest = run keccak256 calls first.0 in
      Passes-trans key s first.0 rest.0 first.1 rest.1 (settle-Passes key c call s keeps.0)
        (run-Passes key calls first.0 keeps.1)

  -- Over any sequence of transactions in which the owner does not set limits, what the events show
  -- as minted under the id of a rate limit, times the window, is at most the limit times the window
  -- and the time between the first and the last update, if the amount in flight was within the
  -- limit at first; and it stays so.
  pub run-minted :
      (key : ℕ) (calls : List (Context × Call)) (s : Storage)
      → All KeepsLimits calls
      → (s.rate_limit key).amount_in_flight ≤ (s.rate_limit key).limit
      → let r : Storage × List Event × List ℕ = run keccak256 calls s in
        let rl : Data = s.rate_limit key in
        let last : Data = r.0.rate_limit key in
        (minted key r.1 * rl.window
          ≤ rl.limit * (rl.window + (last.last_updated - rl.last_updated)))
        × (last.amount_in_flight ≤ last.limit)
  run-minted key calls s keeps h =
      let (flow, e) = run-Passes key calls s keeps in
      rw e at (run_throughput (s.rate_limit key) flow h)
