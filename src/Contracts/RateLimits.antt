-- ===== src/Contracts/RateLimits.antt =====
-- contracts/libs/RateLimits.sol: the decaying window that bounds what the bridges let through.
-- `block.timestamp` is the argument `now`.
use evm_smart_contracts.Prelude.{
  ℕ, ◌+◌, ◌-◌, ◌*◌, ◌/◌, ◌≡◌, refl, Bool, List, [], ◌∷◌, Result, ok, err, ◌>>=◌, ◌>>◌, revert_if,
  ltb, leb, ◌==◌, if◌then◌else◌, checked_add, checked_mul, checked_sub,
}
pub mod Bounds
pub mod Flow

pub data Error : Type 0 where
  rate_limit_exceeded malformed_rate_limit panic : Error

pub record Data : Type 0 where
  pub amount_in_flight : ℕ
  pub last_updated : ℕ
  pub limit : ℕ
  pub window : ℕ

-- The chain of a configuration is the key under which the caller keeps its `Data`.
pub record Config : Type 0 where
  pub chain_id : ℕ
  pub limit : ℕ
  pub window : ℕ

-- What is left of the amount in flight after `elapsed` seconds of a window that is not over, and
-- what can be sent. `rl.window` is not zero here, since more than `elapsed` seconds long.
decayed : Data → ℕ → ℕ × ℕ
decayed rl scaled =
    let current =
      (if leb rl.amount_in_flight (scaled / rl.window)
        then 0
        else rl.amount_in_flight - scaled / rl.window) in
    (current, if leb rl.limit current then 0 else rl.limit - current)

-- The amount in flight now, and the amount that can be sent.
unfoldable pub available_amount_to_send : ℕ → Data → Result Error (ℕ × ℕ)
unfolding decayed
available_amount_to_send now rl = do
  elapsed ← checked_sub panic now rl.last_updated
  let in_window = do scaled ← checked_mul panic rl.limit elapsed; ok (decayed rl scaled)
  if leb rl.window elapsed then ok (0, rl.limit) else in_window

unfoldable pub update_limit : ℕ → Data → ℕ → Result Error Data
unfolding available_amount_to_send
update_limit now rl amount = do
  (current, can_be_sent) ← available_amount_to_send now rl
  revert_if (ltb can_be_sent amount) rate_limit_exceeded
  total ← checked_add panic current amount
  ok (record rl { amount_in_flight = total; last_updated = now })

unfoldable pub set_rate_limit : ℕ → Data → Config → Result Error Data
unfolding update_limit
set_rate_limit now rl config = do
  rl' ← update_limit now rl 0
  ok (record rl' { limit = config.limit; window = config.window })

unfoldable pub check_rate_limit_sanity : ℕ → Result Error (Unit {0})
check_rate_limit_sanity limit = revert_if (limit == 0) malformed_rate_limit
