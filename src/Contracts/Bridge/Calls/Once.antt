-- ===== src/Contracts/Bridge/Calls/Once.antt =====
-- contracts/bridge/BridgeV2.sol: the payloads accepted over any sequence of transactions.
use evm_smart_contracts.Prelude.{
  ℕ, ◌+◌, ◌≤◌, ◌≡◌, refl, ap, arith, inl, inr, Bool, true, false, Bool-cases, List, [], ◌∷◌, ◌++◌,
  Bytes, Result, ok, err, Result-cases, ◌==◌, if◌then◌else◌, update,
}
use evm_smart_contracts.Contracts.Gmp.{Payload}
use evm_smart_contracts.Contracts.Bridge.{
  Error, Event, Context, Storage, set_destination_bridge, set_sender_config, add_destination_token,
  remove_destination_token, set_token_rate_limits,
}
use evm_smart_contracts.Contracts.Bridge.Withdraw.{handle_payload, handle_payload_inv}
use evm_smart_contracts.Contracts.Bridge.Calls.{
  Call, owner_changed, set_bridge, sender_conf, add_token, remove_token, token_limits,
  deposit_behalf, deposit_own, handle, unchanged, payload_of, settle, execute, run,
}

-- How often an id stands in a list.
unfoldable pub count : ℕ → List ℕ → ℕ
count id [] = 0
count id (x ∷ xs) = (if x == id then 1 else 0) + count id xs

abbrev pub flag : Bool → ℕ
flag true = 1
flag false = 0

count-append : (id : ℕ) (xs ys : List ℕ) → count id (xs ++ ys) ≡ count id xs + count id ys
unfolding count
count-append id [] ys = omega arith
count-append id (x ∷ xs) ys = omega (arith, count-append id xs ys)

flag_le : (b : Bool) → flag b ≤ 1
flag_le b = ground arith

pub unchanged_inv :
    (s : Storage) (r : Result Error (List Event × (ℕ × ℕ))) {t : Storage} {es : List Event}
    → unchanged s r ≡ ok (t, es)
    → t ≡ s
unchanged_inv s (ok (es, r)) h = ground arith
unchanged_inv s (err e) h = ground arith

module _ (keccak256 : Bytes → ℕ) where
  -- What a call does to the count of a payload.
  abbrev Counted : ℕ → Storage → Storage → List ℕ → Type 0
  Counted id s t ids = flag (s.payload_spent id) + count id ids ≡ flag (t.payload_spent id)

  same-Counted : (id : ℕ) (s t : Storage) → t.payload_spent ≡ s.payload_spent → Counted id s t []
  unfolding count
  same-Counted id s t e = rw e (omega arith)

  handle-Counted :
      (id : ℕ) (c : Context) (payload : Payload) (s : Storage) {t : Storage} {es : List Event}
      → handle_payload keccak256 c payload s ≡ ok (t, es)
      → Counted id s t (payload.id ∷ [])
  unfolding count
  handle-Counted id c payload s {t} h =
      let (_, fresh, _, _, (msg, _, _, (rl, _, et), _)) =
        handle_payload_inv keccak256 c payload s h in
      let e : t.payload_spent ≡ update s.payload_spent payload.id true =
        ap (λ u. u.payload_spent) et in
      elim (Bool-cases (id == payload.id)) [
        | inl same ↦
            let k : payload.id ≡ id = ground arith in
            let old : s.payload_spent id ≡ false = rw (← k) fresh in
            let again : (payload.id == id) ≡ true = ground arith in rw (e, same, old, again) refl
        | inr other ↦
            let away : (payload.id == id) ≡ false = ground arith in
            rw (e, other, away) (omega arith)
      ]

  pub execute_keeps_spent :
      (c : Context) (call : Call) (s : Storage) {t : Storage} {es : List Event}
      → payload_of call ≡ []
      → execute keccak256 c call s ≡ ok (t, es)
      → t.payload_spent ≡ s.payload_spent
  unfolding execute set_destination_bridge set_sender_config add_destination_token
      remove_destination_token set_token_rate_limits
  execute_keeps_spent c (owner_changed o) s q h = ground arith
  execute_keeps_spent c (set_bridge a b) s q h = ground arith
  execute_keeps_spent c (sender_conf a b d) s q h = ground arith
  execute_keeps_spent c (add_token a b d) s q h = ground arith
  execute_keeps_spent c (remove_token a b) s q h = ground arith
  execute_keeps_spent c (token_limits a b) s q h = ground arith
  execute_keeps_spent c (deposit_behalf a b d e f i) s q h =
      ap (λ u. u.payload_spent) (unchanged_inv s _ h)
  execute_keeps_spent c (deposit_own a b d e f) s q h =
      ap (λ u. u.payload_spent) (unchanged_inv s _ h)
  execute_keeps_spent c (handle p) s q h = ground arith

  execute-Counted :
      (id : ℕ) (c : Context) (call : Call) (s : Storage) {t : Storage} {es : List Event}
      → execute keccak256 c call s ≡ ok (t, es)
      → Counted id s t (payload_of call)
  unfolding execute
  execute-Counted id c (handle p) s h = handle-Counted id c p s h
  execute-Counted id c (owner_changed o) s {t} h =
      same-Counted id s t (execute_keeps_spent c (owner_changed o) s refl h)
  execute-Counted id c (set_bridge a b) s {t} h =
      same-Counted id s t (execute_keeps_spent c (set_bridge a b) s refl h)
  execute-Counted id c (sender_conf a b d) s {t} h =
      same-Counted id s t (execute_keeps_spent c (sender_conf a b d) s refl h)
  execute-Counted id c (add_token a b d) s {t} h =
      same-Counted id s t (execute_keeps_spent c (add_token a b d) s refl h)
  execute-Counted id c (remove_token a b) s {t} h =
      same-Counted id s t (execute_keeps_spent c (remove_token a b) s refl h)
  execute-Counted id c (token_limits a b) s {t} h =
      same-Counted id s t (execute_keeps_spent c (token_limits a b) s refl h)
  execute-Counted id c (deposit_behalf a b d e f i) s {t} h =
      same-Counted id s t (execute_keeps_spent c (deposit_behalf a b d e f i) s refl h)
  execute-Counted id c (deposit_own a b d e f) s {t} h =
      same-Counted id s t (execute_keeps_spent c (deposit_own a b d e f) s refl h)

  settle-Counted :
      (id : ℕ) (c : Context) (call : Call) (s : Storage)
      → let r : Storage × List Event × List ℕ = settle s call (execute keccak256 c call s) in
        Counted id s r.0 r.2
  settle-Counted id c call s = elim (Result-cases (execute keccak256 c call s)) [
    | inl (e, k) ↦ rw k (same-Counted id s s refl)
    | inr ((t, es), k) ↦ rw k (execute-Counted id c call s k)
  ]

  -- Over any sequence of transactions a payload is accepted at most once, never if it was spent
  -- before, and it is spent afterwards exactly if it was spent before or accepted.
  pub run-count :
      (id : ℕ) (calls : List (Context × Call)) (s : Storage)
      → let r : Storage × List Event × List ℕ = run keccak256 calls s in
        (flag (s.payload_spent id) + count id r.2 ≡ flag (r.0.payload_spent id))
        × (count id r.2 ≤ 1)
  unfolding run count
  run-count id [] s = (omega arith, omega arith)
  run-count id ((c, call) ∷ calls) s =
      let first = settle s call (execute keccak256 c call s) in
      let one : Counted id s first.0 first.2 = settle-Counted id c call s in
      let rest = run keccak256 calls first.0 in
      let (more, _) = run-count id calls first.0 in
      let e : flag (s.payload_spent id) + count id (first.2 ++ rest.2)
          ≡ flag (rest.0.payload_spent id) =
        omega (arith, count-append id first.2 rest.2, one, more) in
      (e, omega (arith, e, flag_le (rest.0.payload_spent id)))
