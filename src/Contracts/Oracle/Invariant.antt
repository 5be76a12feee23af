-- ===== src/Contracts/Oracle/Invariant.antt =====
-- contracts/LBTC/StakedLBTCOracle.sol: what holds of the storage after `initialize` and any sequence
-- of calls, at whatever times.
use evm_smart_contracts.Prelude.{
  ℕ, ◌+◌, ◌*◌, ◌≤◌, ◌<◌, ◌≡◌, ◌≢◌, Bool, Option, Option-cases, ok, inl, inr, arith, Bytes, drop,
}
use evm_smart_contracts.Contracts.Context.{IsCeilDiv}
use evm_smart_contracts.Contracts.Actions.{ratio_update_nonzero}
use evm_smart_contracts.Contracts.Oracle.{
  Storage, blank, ether, max_ratio_threshold, ratio, get_rate, set_new_ratio, oracle_init,
  publish_new_ratio, change_consortium, change_max_ahead_interval, update_ratio_threshold,
}
use evm_smart_contracts.Contracts.Oracle.Publish.{publish_inv}
use evm_smart_contracts.Contracts.Oracle.Validate.{validate_ratio-later}

-- No ratio is zero, the threshold is in its range and the consortium is set.
pub record IsSound (s : Storage) : Type 0 where
  pub prev_pos : 0 < s.prev_ratio
  pub curr_pos : 0 < s.curr_ratio
  pub threshold_pos : 0 < s.ratio_threshold
  pub threshold_lt : s.ratio_threshold < max_ratio_threshold
  pub consortium_set : s.consortium ≢ 0

-- An initialization of an empty storage with a ratio that is not zero, if it returns, establishes
-- the invariant.
pub oracle_init-IsSound :
    (now consortium token denom_hash new_ratio time max_ahead : ℕ) {s : Storage}
    → new_ratio ≢ 0
    → oracle_init now consortium token denom_hash new_ratio time max_ahead blank ≡ ok s
    → IsSound s
unfolding oracle_init
oracle_init-IsSound now consortium token denom_hash new_ratio time max_ahead nz h = ground arith

-- Where the invariant holds, another initialization is refused.
oracle_init_again :
    (now consortium token denom_hash new_ratio time max_ahead : ℕ) (s : Storage)
    → IsSound s
    → (s' : Storage)
    → oracle_init now consortium token denom_hash new_ratio time max_ahead s ≢ ok s'
unfolding oracle_init
oracle_init_again now consortium token denom_hash new_ratio time max_ahead s i s' h = ground arith

ratio_pos : (now : ℕ) (s : Storage) → IsSound s → 0 < ratio now s
unfolding ratio
ratio_pos now s i = ground arith

module _ (mul_div : ℕ → ℕ → ℕ → Option ℕ) (sha256 : Bytes → ℕ) (check_proof : ℕ → ℕ → Bytes → Bool)
    (is_owner : ℕ → Bool) where
  -- The calls that change the storage.
  pub data Step : Storage → Storage → Type 0 where
    publish :
        (now : ℕ) (raw proof : Bytes) {s s' : Storage}
        → publish_new_ratio mul_div sha256 check_proof now raw proof s ≡ ok s'
        → Step s s'
    consortium :
        (sender new_val : ℕ) {s s' : Storage}
        → change_consortium is_owner sender new_val s ≡ ok s'
        → Step s s'
    max_ahead :
        (sender new_val : ℕ) {s s' : Storage}
        → change_max_ahead_interval is_owner sender new_val s ≡ ok s'
        → Step s s'
    threshold :
        (sender new_val : ℕ) {s s' : Storage}
        → update_ratio_threshold is_owner sender new_val s ≡ ok s'
        → Step s s'

  pub data Reach (s : Storage) : Storage → Type 0 where
    here : Reach s s
    next : {t u : Storage} → Reach s t → Step t u → Reach s u

  Step-IsSound : {s s' : Storage} → Step s s' → IsSound s → IsSound s'
  unfolding change_consortium change_max_ahead_interval update_ratio_threshold set_new_ratio
  Step-IsSound (publish now raw proof {s} h) i =
      let (u, e, _, _, stored) = publish_inv mul_div sha256 check_proof now raw proof s h in
      rw stored (ground (arith, ratio_update_nonzero (drop 4 raw) e))
  Step-IsSound (consortium sender new_val h) i = ground arith
  Step-IsSound (max_ahead sender new_val h) i = ground arith
  Step-IsSound (threshold sender new_val h) i = ground arith

  -- Where the invariant holds, it holds after any calls: no ratio is zero, the threshold is in its
  -- range and the consortium is set.
  pub Reach-IsSound : {s t : Storage} → IsSound s → Reach s t → IsSound t
  Reach-IsSound i here = i
  Reach-IsSound i (next r st) = Step-IsSound st (Reach-IsSound i r)

  Step-switch_time : {s s' : Storage} → Step s s' → s.switch_time ≤ s'.switch_time
  unfolding change_consortium change_max_ahead_interval update_ratio_threshold set_new_ratio
  Step-switch_time (publish now raw proof {s} h) =
      let (u, _, v, _, stored) = publish_inv mul_div sha256 check_proof now raw proof s h in
      rw stored (omega (arith, validate_ratio-later mul_div now s u.ratio u.switch_time u.denom v))
  Step-switch_time (consortium sender new_val h) = ground arith
  Step-switch_time (max_ahead sender new_val h) = ground arith
  Step-switch_time (threshold sender new_val h) = ground arith

  -- Over any calls the switch time never goes back.
  pub Reach-switch_time : {s t : Storage} → Reach s t → s.switch_time ≤ t.switch_time
  Reach-switch_time here = omega arith
  Reach-switch_time (next r st) = omega (arith, Reach-switch_time r, Step-switch_time st)

  -- From a storage where the invariant holds, after any calls and at any time, `getRate` returns,
  -- with a `mulDiv` that rounds up: 10^36 divided by the ratio in force, rounded up.
  pub get_rate_total :
      (mul_div_up : ℕ → ℕ → ℕ → Option ℕ)
      → IsCeilDiv mul_div_up
      → (now : ℕ) {s t : Storage} → IsSound s
      → Reach s t
      → (rate : ℕ) × (get_rate mul_div_up now t ≡ ok rate)
        × (ether * ether ≤ rate * ratio now t)
        × (rate * ratio now t < ether * ether + ratio now t)
  unfolding get_rate
  get_rate_total mul_div_up lawful now {t = t} i r =
      let k = Reach-IsSound i r in
      let pos : 0 < ratio now t = ratio_pos now t k in
      elim (Option-cases (mul_div_up ether ether (ratio now t))) [
        | inl e ↦ absurd (lawful.fits ether ether (ratio now t) pos (omega arith) e)
        | inr (rate, e) ↦ (rate, rw e, lawful.above _ _ _ e, lawful.tight _ _ _ e)
      ]
