-- ===== src/Contracts/Oracle.antt =====
-- contracts/LBTC/StakedLBTCOracle.sol: the exchange ratio of a staked token, which the ledger
-- publishes ahead of the time at which it takes effect.
-- `now` is `block.timestamp`. The owner check of `Ownable2Step`, `Math.mulDiv`, `sha256` and the
-- consortium's `checkProof` are not the contract's: they are arguments.
pub mod Validate
pub mod Publish
pub mod Invariant
use evm_smart_contracts.Prelude.{
  ℕ, ◌+◌, ◌-◌, ◌*◌, ◌≡◌, refl, Bool, ◌&&◌, ◌||◌, not, Option, Result, ok, err, ◌>>=◌, ◌>>◌, guard,
  revert_if, or_revert, ltb, leb, ◌==◌, if◌then◌else◌, checked_add, checked_mul, checked_sub, Bytes,
  drop,
}
use evm_smart_contracts.Contracts.Actions
use evm_smart_contracts.Contracts.Actions.{
  RatioUpdate, assert_nonzero_address, assert_selector, ratio_update, ratio_update_selector,
}

pub data Error : Type 0 where
  wrong_ratio_switch_time ratio_initialized_already too_big_ratio_change wrong_token : Error
  threshold_out_of_range not_owner proof_failed panic : Error
  action : Actions.Error → Error

-- 100% with 6 significant digits.
abbrev pub max_ratio_threshold : ℕ
max_ratio_threshold = 100000000

-- One day.
abbrev pub ratio_default_switch_interval : ℕ
ratio_default_switch_interval = 86400

abbrev pub ether : ℕ
ether = 1000000000000000000

pub record TokenDetails : Type 0 where
  pub denom_hash : ℕ
  pub token : ℕ

pub record Storage : Type 0 where
  pub consortium : ℕ
  pub token_details : TokenDetails
  pub prev_ratio : ℕ
  pub curr_ratio : ℕ
  pub switch_time : ℕ
  pub max_ahead_interval : ℕ
  pub ratio_threshold : ℕ

-- The storage of a proxy before `initialize`.
abbrev pub blank : Storage
blank = record {
  consortium = 0;
  token_details = record { denom_hash = 0; token = 0 };
  prev_ratio = 0;
  curr_ratio = 0;
  switch_time = 0;
  max_ahead_interval = 0;
  ratio_threshold = 0;
}

-- An error of `Assert` or `Actions` reverts the whole call.
abbrev pub lift : {A : Type 0} → Result Actions.Error A → Result Error A
lift (ok a) = ok a
lift (err e) = err (action e)

-- `_ratio`: the ratio in force.
unfoldable pub ratio : ℕ → Storage → ℕ
ratio now s = if leb s.switch_time now then s.curr_ratio else s.prev_ratio

-- `nextRatio`.
unfoldable pub next_ratio : Storage → ℕ × ℕ
next_ratio s = (s.curr_ratio, s.switch_time)

-- `getRate`, with `mul_div_up` for `Math.mulDiv` with `Rounding.Ceil`.
unfoldable pub get_rate : (ℕ → ℕ → ℕ → Option ℕ) → ℕ → Storage → Result Error ℕ
unfolding ratio
get_rate mul_div_up now s = or_revert (mul_div_up ether ether (ratio now s)) panic

-- `_changeConsortium`, which the owner calls through `changeConsortium`.
unfoldable pub set_consortium : ℕ → Storage → Result Error Storage
unfolding assert_nonzero_address
set_consortium new_val s = do
  lift (assert_nonzero_address new_val)
  ok (record s { consortium = new_val })

-- `_setTokenDetails`.
unfoldable pub set_token_details : ℕ → ℕ → Storage → Result Error Storage
unfolding assert_nonzero_address
set_token_details token denom_hash s = do
  lift (assert_nonzero_address token)
  ok (record s { token_details = record { token = token; denom_hash = denom_hash } })

-- `_changeMaxAheadInterval`.
unfoldable pub set_max_ahead_interval : ℕ → Storage → Storage
set_max_ahead_interval new_val s = record s { max_ahead_interval = new_val }

-- `_setNewRatio`.
unfoldable pub set_new_ratio : ℕ → ℕ → ℕ → Storage → Storage
set_new_ratio now new_ratio time s = record s {
  prev_ratio = if leb s.switch_time now then s.curr_ratio else s.prev_ratio;
  curr_ratio = new_ratio;
  switch_time = time;
}

-- `_initRatio`.
unfoldable pub init_ratio : ℕ → ℕ → ℕ → Storage → Result Error Storage
unfolding set_new_ratio
init_ratio now new_ratio time s = do
  revert_if (not (s.curr_ratio == 0) || not (s.prev_ratio == 0) || not (s.switch_time == 0))
      ratio_initialized_already
  ok (set_new_ratio now new_ratio time (record s { ratio_threshold = 100000; curr_ratio = ether }))

-- `__StakedLBTCOracle_init`.
unfoldable pub oracle_init : ℕ → ℕ → ℕ → ℕ → ℕ → ℕ → ℕ → Storage → Result Error Storage
unfolding set_consortium set_token_details init_ratio set_max_ahead_interval
oracle_init now consortium token denom_hash new_ratio time max_ahead s = do
  s1 ← set_consortium consortium s
  s2 ← set_token_details token denom_hash s1
  s3 ← init_ratio now new_ratio time s2
  ok (set_max_ahead_interval max_ahead s3)

-- The test of `_validateRatio`: the new ratio is off the current one by more than the threshold.
unfoldable pub is_too_big_change : ℕ → ℕ → ℕ → Bool
is_too_big_change curr new_ratio threshold =
    (ltb new_ratio curr && ltb threshold (curr - new_ratio))
    || (ltb curr new_ratio && ltb threshold (new_ratio - curr))

module _ (mul_div : ℕ → ℕ → ℕ → Option ℕ) where
  -- `_validateRatio`.
  unfoldable pub validate_ratio : ℕ → Storage → ℕ → ℕ → ℕ → Result Error (Unit {0})
  validate_ratio now s new_ratio time denom_hash = do
    revert_if (not (denom_hash == s.token_details.denom_hash)) wrong_token
    horizon ← (if leb time s.switch_time then ok 0 else checked_add panic now s.max_ahead_interval)
    revert_if (leb time s.switch_time || ltb horizon time) wrong_ratio_switch_time
    interval ← checked_sub panic time s.switch_time
    weight ← checked_mul panic interval s.ratio_threshold
    threshold ←
        or_revert
          (mul_div s.curr_ratio weight (ratio_default_switch_interval * max_ratio_threshold)) panic
    revert_if (is_too_big_change s.curr_ratio new_ratio threshold) too_big_ratio_change

  module _ (sha256 : Bytes → ℕ) (check_proof : ℕ → ℕ → Bytes → Bool) where
    -- `publishNewRatio`; `check_proof consortium hash proof` tells whether that call returns.
    unfoldable pub publish_new_ratio : ℕ → Bytes → Bytes → Storage → Result Error Storage
    publish_new_ratio now raw_payload proof s = do
      lift (assert_selector raw_payload ratio_update_selector)
      update ← lift (ratio_update (drop 4 raw_payload))
      validate_ratio now s update.ratio update.switch_time update.denom
      guard (check_proof s.consortium (sha256 raw_payload) proof) proof_failed
      ok (set_new_ratio now update.ratio update.switch_time s)

module _ (is_owner : ℕ → Bool) where
  unfoldable pub change_consortium : ℕ → ℕ → Storage → Result Error Storage
  unfolding set_consortium
  change_consortium sender new_val s = do
    guard (is_owner sender) not_owner
    set_consortium new_val s

  unfoldable pub change_max_ahead_interval : ℕ → ℕ → Storage → Result Error Storage
  unfolding set_max_ahead_interval
  change_max_ahead_interval sender new_val s = do
    guard (is_owner sender) not_owner
    ok (set_max_ahead_interval new_val s)

  unfoldable pub update_ratio_threshold : ℕ → ℕ → Storage → Result Error Storage
  update_ratio_threshold sender new_threshold s = do
    guard (is_owner sender) not_owner
    guard (ltb new_threshold max_ratio_threshold && ltb 0 new_threshold) threshold_out_of_range
    ok (record s { ratio_threshold = new_threshold })
