-- ===== src/Contracts/FeeUtils.antt =====
-- contracts/libs/FeeUtils.sol: fees relative to an amount, in units of 0.01%. `mul_div_up` is
-- OpenZeppelin's `Math.mulDiv` with `Rounding.Ceil`.
use evm_smart_contracts.Prelude.{
  ℕ, ◌+◌, ◌-◌, ◌*◌, ◌≤◌, ◌<◌, ◌≡◌, Option, Result, ok, ◌>>◌, revert_if, or_revert, ltb, leb, arith,
  word_mod, Option-cases, inl, inr,
}
use native.Mathlib.Nat.{mul-le-mul_left}
use evm_smart_contracts.Contracts.Context.{IsCeilDiv}

pub data Error : Type 0 where
  amount_too_small_to_pay_relative_fee bad_commission panic : Error

abbrev pub max_commission : ℕ
max_commission = 10000

unfoldable pub calc_relative_fee : (ℕ → ℕ → ℕ → Option ℕ) → ℕ → ℕ → Result Error ℕ
calc_relative_fee mul_div_up amount relative_coms =
    or_revert (mul_div_up amount relative_coms max_commission) panic

unfoldable pub get_relative_fee : (ℕ → ℕ → ℕ → Option ℕ) → ℕ → ℕ → Result Error ℕ
unfolding calc_relative_fee
get_relative_fee mul_div_up amount relative_coms = do
  revert_if (ltb amount relative_coms) amount_too_small_to_pay_relative_fee
  calc_relative_fee mul_div_up amount relative_coms

unfoldable pub validate_commission : ℕ → Result Error (Unit {0})
validate_commission commission = revert_if (leb max_commission commission) bad_commission

module _ (mul_div_up : ℕ → ℕ → ℕ → Option ℕ) (lawful : IsCeilDiv mul_div_up) where
  -- A fee in hundredths of a percent, rounded up, is at most the amount.
  fee_le : (amount coms fee : ℕ) → coms ≤ 10000 → fee * 10000 < amount * coms + 10000 → fee ≤ amount
  fee_le amount coms fee h k = omega (arith, mul-le-mul_left amount h)

  product_fits :
      (amount coms : ℕ) → amount < word_mod → coms ≤ 10000 → amount * coms ≤ (word_mod - 1) * 10000
  product_fits amount coms h k = omega (arith, mul-le-mul_left amount k)

  -- With a `mulDiv` that rounds up, a commission that `validateCommission` accepts, and an amount
  -- that fits in a word and has at least as many units, the fee is computed. It is the exact share
  -- rounded up, and at most the amount.
  pub get_relative_fee_bounds :
      (amount coms : ℕ)
      → validate_commission coms ≡ ok tt
      → amount < word_mod
      → coms ≤ amount
      → (fee : ℕ) × (get_relative_fee mul_div_up amount coms ≡ ok fee)
        × (fee ≤ amount)
        × (amount * coms ≤ fee * 10000)
        × (fee * 10000 < amount * coms + 10000)
  unfolding get_relative_fee validate_commission
  get_relative_fee_bounds amount coms v h k =
      let c : coms ≤ 10000 = ground arith in
      elim (Option-cases (mul_div_up amount coms 10000)) [
        | inl e ↦
            absurd (lawful.fits amount coms 10000 (omega arith) (product_fits amount coms h c) e)
        | inr (fee, e) ↦
            let t = lawful.tight amount coms 10000 e in
            (fee, ground arith, fee_le amount coms fee c t, lawful.above amount coms 10000 e, t)
      ]
