-- ===== src/Contracts/RateLimits/Flow.antt =====
-- contracts/libs/RateLimits.sol: any sequence of calls of `updateLimit` on one window.
use evm_smart_contracts.Prelude.{
  ◌++◌, ℕ, ◌+◌, ◌-◌, ◌*◌, ◌≤◌, ◌≡◌, refl, ap, List, [], ◌∷◌, Result, ok, err, arith,
}
use evm_smart_contracts.Contracts.RateLimits.{Error, Data, update_limit}
use evm_smart_contracts.Contracts.RateLimits.Bounds.{
  update_limit_inv, available_exact, available_decay,
}

-- A call at a time: the window that it leaves and the amount that it let through. A call that
-- reverts leaves the window alone and lets nothing through.
abbrev settle : Data → ℕ → Result Error Data → Data × ℕ
settle rl amount (ok rl') = (rl', amount)
settle rl amount (err e) = (rl, 0)

-- The calls, each a time and an amount: the last window, and the sum of what was let through.
unfoldable pub run : Data → List (ℕ × ℕ) → Data × ℕ
run rl [] = (rl, 0)
run rl ((now, amount) ∷ calls) =
    let (rl', sent) = settle rl amount (update_limit now rl amount) in
    let (last, total) = run rl' calls in (last, sent + total)

-- What one call, or many, do to a window that was within its limit.
record Flows (rl : Data) (r : Data × ℕ) : Type 0 where
  within : r.0.amount_in_flight ≤ rl.limit
  same_limit : r.0.limit ≡ rl.limit
  same_window : r.0.window ≡ rl.window
  later : rl.last_updated ≤ r.0.last_updated
  balance :
      (rl.amount_in_flight + r.1) * rl.window
      ≤ r.0.amount_in_flight * rl.window + rl.limit * (r.0.last_updated - rl.last_updated)

settle-Flows :
    (now : ℕ) (rl : Data) (amount : ℕ)
    → rl.amount_in_flight ≤ rl.limit
    → Flows rl (settle rl amount (update_limit now rl amount))
settle-Flows now rl amount h = go (update_limit now rl amount) refl
  where
    go : (r : Result Error Data) → update_limit now rl amount ≡ r → Flows rl (settle rl amount r)
    go (err e) p = omega arith
    go (ok rl') p =
        let (c, s, a, le, e) = update_limit_inv now rl amount p in
        rw e (omega (arith, available_exact now rl h a, available_decay now rl h a))

add_spans :
    (f0 f1 f2 s t l w t0 t1 t2 : ℕ)
    → t0 ≤ t1
    → t1 ≤ t2
    → (f0 + s) * w ≤ f1 * w + l * (t1 - t0)
    → (f1 + t) * w ≤ f2 * w + l * (t2 - t1)
    → (f0 + (s + t)) * w ≤ f2 * w + l * (t2 - t0)
add_spans f0 f1 f2 s t l w t0 t1 t2 h k p q =
    let e : t2 - t0 ≡ (t1 - t0) + (t2 - t1) = omega arith in omega (arith, ap (λ (d : ℕ). l * d) e)

Flows-trans :
    (rl : Data) (r r' : Data × ℕ) → Flows rl r → Flows r.0 r' → Flows rl (r'.0, r.1 + r'.1)
Flows-trans rl r r' p q = record {
  within = omega arith;
  same_limit = omega arith;
  same_window = omega arith;
  later = omega arith;
  balance =
      add_spans rl.amount_in_flight r.0.amount_in_flight r'.0.amount_in_flight r.1 r'.1 rl.limit
        rl.window rl.last_updated r.0.last_updated r'.0.last_updated p.later q.later p.balance
        (rw (← p.same_limit, ← p.same_window) q.balance);
}

run-Flows :
    (rl : Data) (calls : List (ℕ × ℕ)) → rl.amount_in_flight ≤ rl.limit → Flows rl (run rl calls)
unfolding run
run-Flows rl [] h = omega arith
run-Flows rl ((now, amount) ∷ calls) h =
    let first = settle rl amount (update_limit now rl amount) in
    let f : Flows rl first = settle-Flows now rl amount h in
    Flows-trans rl first (run first.0 calls) f (run-Flows first.0 calls (omega arith))

-- A window whose amount in flight is within its limit lets through, over any sequence of calls, at
-- most its limit and the share of its limit that the time between its first and its last update is
-- of the window. The amount in flight stays within the limit.
pub run_throughput :
    (rl : Data) (calls : List (ℕ × ℕ))
    → rl.amount_in_flight ≤ rl.limit
    → let (last, total) = run rl calls in
      (total * rl.window ≤ rl.limit * (rl.window + (last.last_updated - rl.last_updated)))
      × (last.amount_in_flight ≤ last.limit)
run_throughput rl calls h = let f = run-Flows rl calls h in grind arith

-- A call that goes through, alone.
pub run_one :
    (now amount : ℕ) (rl : Data) {rl' : Data}
    → update_limit now rl amount ≡ ok rl'
    → run rl ((now, amount) ∷ []) ≡ (rl', amount)
unfolding run
run_one now amount rl {rl'} h = let e : amount + 0 ≡ amount = omega arith in rw (h, e) refl

-- Calls after calls: the second list starts with the window that the first one leaves.
pub run-append :
    (rl : Data) (xs ys : List (ℕ × ℕ))
    → run rl (xs ++ ys) ≡ ((run (run rl xs).0 ys).0, (run rl xs).1 + (run (run rl xs).0 ys).1)
unfolding run
run-append rl [] ys = let e : 0 + (run rl ys).1 ≡ (run rl ys).1 = omega arith in rw e refl
run-append rl ((now, amount) ∷ xs) ys =
    let first = settle rl amount (update_limit now rl amount) in
    let ih = run-append first.0 xs ys in
    let mid = (run first.0 xs).0 in
    let e : first.1 + ((run first.0 xs).1 + (run mid ys).1)
        ≡ first.1 + (run first.0 xs).1 + (run mid ys).1 =
      omega arith in
    rw (ih, e) refl
