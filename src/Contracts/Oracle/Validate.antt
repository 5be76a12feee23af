-- ===== src/Contracts/Oracle/Validate.antt =====
-- contracts/LBTC/StakedLBTCOracle.sol, `_validateRatio`: which ratios it lets through.
use evm_smart_contracts.Prelude.{
  ℕ, ◌+◌, ◌-◌, ◌*◌, ◌≤◌, ◌<◌, ◌≡◌, false, Option, some, Option-cases, ok, inl, inr, arith, word_mod,
}
use evm_smart_contracts.Contracts.Context.{IsFloorDiv}
use evm_smart_contracts.Contracts.Oracle.{Storage, validate_ratio, is_too_big_change}

-- How far two ratios are apart.
abbrev pub distance : ℕ → ℕ → ℕ
distance a b = (a - b) + (b - a)

-- What an update has to satisfy, in exact arithmetic: the current ratio may move by the threshold,
-- a share of a hundred million, for each day between the two switch times.
pub record IsAllowed (now : ℕ) (s : Storage) (new_ratio time denom_hash : ℕ) : Type 0 where
  pub token : denom_hash ≡ s.token_details.denom_hash
  pub later : s.switch_time < time
  pub near : time ≤ now + s.max_ahead_interval
  pub small :
      distance s.curr_ratio new_ratio * 8640000000000
      ≤ s.curr_ratio * ((time - s.switch_time) * s.ratio_threshold)

-- The calculation fits in 256 bits.
pub record IsInRange (now : ℕ) (s : Storage) (time : ℕ) : Type 0 where
  pub horizon : now + s.max_ahead_interval < word_mod
  pub weight : (time - s.switch_time) * s.ratio_threshold < word_mod
  pub product :
      s.curr_ratio * ((time - s.switch_time) * s.ratio_threshold) < word_mod * 8640000000000

change_le :
    (curr new_ratio threshold : ℕ)
    → is_too_big_change curr new_ratio threshold ≡ false
    → distance curr new_ratio ≤ threshold
unfolding is_too_big_change
change_le curr new_ratio threshold h = ground arith

change_small :
    (curr new_ratio threshold : ℕ)
    → distance curr new_ratio ≤ threshold
    → is_too_big_change curr new_ratio threshold ≡ false
unfolding is_too_big_change
change_small curr new_ratio threshold h = ground arith

floor_step : (d n r : ℕ) → d * 8640000000000 ≤ n → n < (r + 1) * 8640000000000 → d ≤ r
floor_step d n r h k = omega arith

module _ (mul_div : ℕ → ℕ → ℕ → Option ℕ) where
  -- What the checks of a call that returns come to.
  validate_ratio_facts :
      (now : ℕ) (s : Storage) (new_ratio time denom_hash : ℕ)
      → validate_ratio mul_div now s new_ratio time denom_hash ≡ ok tt
      → (denom_hash ≡ s.token_details.denom_hash)
        × (s.switch_time < time)
        × (time ≤ now + s.max_ahead_interval)
        × (t : ℕ) × (mul_div s.curr_ratio ((time - s.switch_time) * s.ratio_threshold) 8640000000000
            ≡ some t)
        × (is_too_big_change s.curr_ratio new_ratio t ≡ false)
  unfolding validate_ratio
  validate_ratio_facts now s new_ratio time denom_hash h =
      elim (Option-cases
        (mul_div s.curr_ratio ((time - s.switch_time) * s.ratio_threshold) 8640000000000)) [
          | inl e ↦ absurd (ground arith)
          | inr (t, e) ↦ (ground arith, ground arith, ground arith, t, e, ground arith)
        ]

  -- A call that returns has checked a switch time after the stored one.
  pub validate_ratio-later :
      (now : ℕ) (s : Storage) (new_ratio time denom_hash : ℕ)
      → validate_ratio mul_div now s new_ratio time denom_hash ≡ ok tt
      → s.switch_time < time
  validate_ratio-later now s new_ratio time denom_hash h =
      (validate_ratio_facts now s new_ratio time denom_hash h).1

  -- With a `mulDiv` that rounds down, a call that returns has checked an update that is allowed.
  pub validate_ratio-IsAllowed :
      IsFloorDiv mul_div
      → (now : ℕ) (s : Storage) (new_ratio time denom_hash : ℕ)
      → validate_ratio mul_div now s new_ratio time denom_hash ≡ ok tt
      → IsAllowed now s new_ratio time denom_hash
  validate_ratio-IsAllowed lawful now s new_ratio time denom_hash h =
      let (a, b, c, t, e, k) = validate_ratio_facts now s new_ratio time denom_hash h in
      let l = lawful.below _ _ _ e in
      let m = change_le s.curr_ratio new_ratio t k in
      record { token = a; later = b; near = c; small = omega (arith) }

  -- With a `mulDiv` that rounds down, and where the calculation fits in 256 bits, every allowed
  -- update is let through.
  pub IsAllowed-validate_ratio :
      IsFloorDiv mul_div
      → (now : ℕ) (s : Storage) (new_ratio time denom_hash : ℕ) → IsInRange now s time
      → IsAllowed now s new_ratio time denom_hash
      → validate_ratio mul_div now s new_ratio time denom_hash ≡ ok tt
  unfolding validate_ratio
  IsAllowed-validate_ratio lawful now s new_ratio time denom_hash r h =
      elim (Option-cases
        (mul_div s.curr_ratio ((time - s.switch_time) * s.ratio_threshold) 8640000000000)) [
          | inl e ↦ absurd (lawful.fits _ _ _ (omega arith) r.product e)
          | inr (t, e) ↦
              let small =
                change_small s.curr_ratio new_ratio t
                  (floor_step _ _ t h.small (lawful.tight _ _ _ e)) in
              ground arith
        ]
