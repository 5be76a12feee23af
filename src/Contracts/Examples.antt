-- ===== src/Contracts/Examples.antt =====
-- The contracts on concrete inputs: OpenZeppelin's divisions as functions, a storage of the oracle,
-- and the theorems applied to them.
mod Limits
mod Ratios
mod Deposits
mod Messages
mod Transfers
mod Gateways
mod Notaries
mod Outputs
use evm_smart_contracts.Prelude.{
  ℕ, ◌+◌, ◌-◌, ◌*◌, ◌/◌, ◌≤◌, ◌<◌, ◌≡◌, ◌≢◌, ◌↔◌, refl, Bool, Option, none, some, some_inj, ltb,
  ◌==◌, if◌then◌else◌, arith, word_mod, Bool-cases, inl, inr,
}
use native.Mathlib.Nat.{div-mul-le_self, lt-div-mul-add, div-lt_iff_lt-mul}
use evm_smart_contracts.Contracts.Context.{IsFloorDiv, IsCeilDiv}

-- A quotient, where it is defined and fits in a word.
unfoldable pub quotient : ℕ → ℕ → Option ℕ
quotient n d = if d == 0 then none else if ltb (n / d) word_mod then some (n / d) else none

abbrev pub floor_div : ℕ → ℕ → ℕ → Option ℕ
floor_div x y d = quotient (x * y) d

abbrev pub ceil_div : ℕ → ℕ → ℕ → Option ℕ
ceil_div x y d = quotient (x * y + (d - 1)) d

quotient-some : (n d : ℕ) {r : ℕ} → quotient n d ≡ some r → (r ≡ n / d) × (0 < d)
unfolding quotient
quotient-some n d h = ground arith

quotient_bounds : (n d : ℕ) {r : ℕ} → quotient n d ≡ some r → (r * d ≤ n) × (n < r * d + d)
quotient_bounds n d h =
    let (e, pos) = quotient-some n d h in rw e (div-mul-le_self n d, lt-div-mul-add pos)

quotient_fits : (n d : ℕ) → 0 < d → n < word_mod * d → quotient n d ≢ none
unfolding quotient
quotient_fits n d pos h = let q : n / d < word_mod = (div-lt_iff_lt-mul pos).1 h in ground arith

pub floor_div-IsFloorDiv : IsFloorDiv floor_div
floor_div-IsFloorDiv = record {
  below = λ x y d h. (quotient_bounds (x * y) d h).0;
  tight = λ x y d h. omega (arith, (quotient_bounds (x * y) d h).1);
  fits = λ x y d pos h. quotient_fits (x * y) d pos h;
}

pub ceil_div-IsCeilDiv : IsCeilDiv ceil_div
ceil_div-IsCeilDiv = record {
  above = λ x y d h. omega (arith, (quotient_bounds (x * y + (d - 1)) d h).1);
  tight = λ x y d h.
      omega
        (arith, (quotient_bounds (x * y + (d - 1)) d h).0, (quotient-some (x * y + (d - 1)) d h).1);
  fits = λ x y d pos h. quotient_fits (x * y + (d - 1)) d pos (omega arith);
}
