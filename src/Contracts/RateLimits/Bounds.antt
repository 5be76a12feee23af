-- ===== src/Contracts/RateLimits/Bounds.antt =====
-- contracts/libs/RateLimits.sol: one update of a window.
use evm_smart_contracts.Prelude.{
  ℕ, Result-cases, ◌+◌, ◌-◌, ◌*◌, ◌/◌, ◌≤◌, ◌<◌, ◌≡◌, ap, leb, if◌then◌else◌, ok, arith, word_mod,
  ◌⊎◌, inl, inr, >>=-eq-ok,
}
use native.Mathlib.Nat.{mul-le-mul_right, div-mul-le_self}
use evm_smart_contracts.Contracts.RateLimits.{
  Data, Config, available_amount_to_send, set_rate_limit, update_limit,
}

-- Where the amount in flight is within the limit, and the call returns, what is in flight now and
-- what can be sent add up to the limit, and no more is in flight than before.
pub available_exact :
    (now : ℕ) (rl : Data) {c s : ℕ}
    → rl.amount_in_flight ≤ rl.limit
    → available_amount_to_send now rl ≡ ok (c, s)
    → (c + s ≡ rl.limit) × (c ≤ rl.amount_in_flight)
unfolding available_amount_to_send
available_exact now rl {c} {s} h e = ground arith

-- The two cases of a call that does not revert.
available_cases :
    (now : ℕ) (rl : Data) {c s : ℕ}
    → available_amount_to_send now rl ≡ ok (c, s)
    → (rl.last_updated ≤ now)
      × ((rl.window ≤ now - rl.last_updated)
          ⊎ ((0 < rl.window)
              × (rl.amount_in_flight ≤ c + rl.limit * (now - rl.last_updated) / rl.window)))
unfolding available_amount_to_send
available_cases now rl {c} {s} e = ground arith

scale : (f c q w n : ℕ) → f ≤ c + q → q * w ≤ n → f * w ≤ c * w + n
scale f c q w n h k = omega (arith, mul-le-mul_right w h)

scale_window : (f l w t r : ℕ) → f ≤ l → w ≤ t → f * w ≤ r + l * t
scale_window f l w t r h k = grind arith

-- The decay of one update: what was in flight is at most what still is and the share of the limit
-- that the elapsed time gives back.
pub available_decay :
    (now : ℕ) (rl : Data) {c s : ℕ}
    → rl.amount_in_flight ≤ rl.limit
    → available_amount_to_send now rl ≡ ok (c, s)
    → (rl.last_updated ≤ now)
      × (rl.amount_in_flight * rl.window ≤ c * rl.window + rl.limit * (now - rl.last_updated))
available_decay now rl {c} {s} h e =
    let elapsed : ℕ = now - rl.last_updated in
    let (later, cases) = available_cases now rl e in
    (
      later,
      elim cases [
        | inl over ↦ scale_window _ _ _ elapsed _ h over
        | inr (_, le) ↦ scale _ _ _ _ _ le (div-mul-le_self (rl.limit * elapsed) rl.window)
      ],
    )

-- Once the window is over, any amount within the limit, and within a word, goes through, and is
-- then the amount in flight.
pub update_limit_idle :
    (now : ℕ) (rl : Data) (amount : ℕ)
    → rl.last_updated + rl.window ≤ now
    → amount ≤ rl.limit
    → amount < word_mod
    → update_limit now rl amount ≡ ok (record rl { amount_in_flight = amount; last_updated = now })
unfolding update_limit available_amount_to_send
update_limit_idle now rl amount h k f = ground arith

-- The amount of a window that is in flight at a time; subtraction stops at zero.
unfoldable pub in_flight : ℕ → Data → ℕ
in_flight now rl =
    if leb rl.window (now - rl.last_updated)
    then 0
    else rl.amount_in_flight - rl.limit * (now - rl.last_updated) / rl.window

-- The parts of an update that goes through.
pub update_limit_inv :
    (now : ℕ) (rl : Data) (amount : ℕ) {rl' : Data}
    → update_limit now rl amount ≡ ok rl'
    → (c : ℕ) × (s : ℕ) × (available_amount_to_send now rl ≡ ok (c, s))
      × (amount ≤ s)
      × (rl' ≡ record rl { amount_in_flight = c + amount; last_updated = now })
unfolding update_limit
update_limit_inv now rl amount h =
    let (r, a, k) = >>=-eq-ok (available_amount_to_send now rl) _ h in
    (r.0, r.1, a, ground arith, ground arith)

available-in_flight :
    (now : ℕ) (rl : Data) {c s : ℕ}
    → available_amount_to_send now rl ≡ ok (c, s)
    → c ≡ in_flight now rl
unfolding available_amount_to_send in_flight
available-in_flight now rl h = ground arith

set_rate_limit-in_flight :
    (now : ℕ) (rl rl' : Data) (config : Config)
    → set_rate_limit now rl config ≡ ok rl'
    → rl'.amount_in_flight ≡ in_flight now rl
unfolding set_rate_limit
set_rate_limit-in_flight now rl rl' config h =
    let (u, updated, k) = >>=-eq-ok (update_limit now rl 0) _ h in
    let (c, s, a, _, e) = update_limit_inv now rl 0 updated in
    let same : u.amount_in_flight ≡ c + 0 = ap (λ x. x.amount_in_flight) e in
    let last : u.amount_in_flight ≡ rl'.amount_in_flight = ground arith in
    omega (arith, same, last, available-in_flight now rl a)

-- A new configuration is accepted, where the last update is not in the future and the calculation
-- fits in 256 bits. It sets the limit, the window and the time. What stays in flight is the amount
-- before, less the share of the old limit for the time that has passed, or nothing when the old
-- window is over or this share is the whole amount.
pub set_rate_limit_total :
    (now : ℕ) (rl : Data) (config : Config)
    → rl.last_updated ≤ now
    → rl.limit * (now - rl.last_updated) < word_mod
    → rl.amount_in_flight < word_mod
    → (rl' : Data) × (set_rate_limit now rl config ≡ ok rl')
      × (rl'.limit ≡ config.limit)
      × (rl'.window ≡ config.window)
      × (rl'.last_updated ≡ now)
      × (rl'.amount_in_flight ≡ in_flight now rl)
unfolding set_rate_limit update_limit available_amount_to_send
set_rate_limit_total now rl config h k f = elim (Result-cases (set_rate_limit now rl config)) [
  | inl (e, x) ↦ absurd (ground arith)
  | inr (r, x) ↦
      (r, x, ground arith, ground arith, ground arith, set_rate_limit-in_flight now rl r config x)
]
