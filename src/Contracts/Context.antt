-- ===== src/Contracts/Context.antt =====
-- What the contracts call of OpenZeppelin's libraries: the 512-bit division of `Math.mulDiv` and
-- the guards of `AccessControl` and `Pausable`. They are parameters of the models.
use evm_smart_contracts.Prelude.{
  ℕ, ◌+◌, ◌*◌, ◌-◌, ◌≤◌, ◌<◌, ◌≡◌, ◌≢◌, Bool, false, Option, none, some, word_mod,
}

-- `Math.mulDiv(x, y, denominator)`: the floor of the exact quotient; it reverts (here `none`) where
-- the denominator is zero or the result does not fit.
pub record IsFloorDiv (mul_div : ℕ → ℕ → ℕ → Option ℕ) : Type 0 where
  pub below : (x y d : ℕ) {r : ℕ} → mul_div x y d ≡ some r → r * d ≤ x * y
  pub tight : (x y d : ℕ) {r : ℕ} → mul_div x y d ≡ some r → x * y < (r + 1) * d
  pub fits : (x y d : ℕ) → 0 < d → x * y < word_mod * d → mul_div x y d ≢ none

-- `Math.mulDiv(x, y, denominator, Math.Rounding.Ceil)`.
pub record IsCeilDiv (mul_div_up : ℕ → ℕ → ℕ → Option ℕ) : Type 0 where
  pub above : (x y d : ℕ) {r : ℕ} → mul_div_up x y d ≡ some r → x * y ≤ r * d
  pub tight : (x y d : ℕ) {r : ℕ} → mul_div_up x y d ≡ some r → r * d < x * y + d
  pub fits : (x y d : ℕ) → 0 < d → x * y ≤ (word_mod - 1) * d → mul_div_up x y d ≢ none

-- `AccessControl` and `Pausable`: what the modifiers `onlyRole`, `whenNotPaused` and the calls
-- `_grantRole`, `renounceRole`, `_pause`, `_unpause` read and change.
pub record Guards : Type 1 where
  pub Access : Type 0
  -- the constructor of `AccessControlDefaultAdminRules`, with the default admin
  pub initial : ℕ → Access
  -- `_grantRole(role, account)`
  pub grant_role : Access → ℕ → ℕ → Access
  pub has_role : Access → ℕ → ℕ → Bool
  -- `renounceRole(role, account)`, called by the account itself
  pub renounce_role : Access → ℕ → ℕ → Access
  pub is_paused : Access → Bool
  -- `none` is a revert
  pub pause : Access → Option Access
  pub unpause : Access → Option Access

-- The documented behaviour of `AccessControl` and `Pausable` that the theorems use.
pub record IsLawful (g : Guards) : Type 0 where
  pub has_role-renounce_self :
      (a : g.Access) (role account : ℕ)
      → g.has_role (g.renounce_role a role account) role account ≡ false
