-- ===== src/Contracts/Examples/Limits.antt =====
-- contracts/libs/RateLimits.sol and FeeUtils.sol on concrete inputs.
use evm_smart_contracts.Prelude.{
  ℕ, ◌+◌, ◌-◌, ◌*◌, ◌≤◌, ◌<◌, ◌≡◌, refl, List, [], ◌∷◌, ok, err, arith,
}
use evm_smart_contracts.Contracts.RateLimits.{
  Config, set_rate_limit, Data, rate_limit_exceeded, available_amount_to_send, update_limit,
}
use evm_smart_contracts.Contracts.RateLimits.Bounds.{
  update_limit_idle, in_flight, set_rate_limit_total,
}
use evm_smart_contracts.Contracts.RateLimits.Flow.{run, run_throughput}
use evm_smart_contracts.Contracts.FeeUtils.{
  get_relative_fee, validate_commission, get_relative_fee_bounds,
}
use evm_smart_contracts.Contracts.Examples.{ceil_div, ceil_div-IsCeilDiv}

abbrev window : Data
window = record { amount_in_flight = 40; last_updated = 1000; limit = 100; window = 50 }

-- Half of the window gives back half of the limit.
available_halfway : available_amount_to_send 1010 window ≡ ok (20, 80)
unfolding available_amount_to_send
available_halfway = refl

update_over : update_limit 1010 window 81 ≡ err rate_limit_exceeded
unfolding update_limit
update_over = refl

update_limit_idle_example :
    update_limit 1050 window 100
    ≡ ok (record { amount_in_flight = 100; last_updated = 1050; limit = 100; window = 50 })
update_limit_idle_example =
    update_limit_idle 1050 window 100 (omega arith) (omega arith) (omega arith)

abbrev config : Config
config = record { chain_id = 1; limit = 10; window = 20 }

set_rate_limit_total_example :
    (rl' : Data) × (set_rate_limit 1010 window config ≡ ok rl')
    × (rl'.limit ≡ 10)
    × (rl'.window ≡ 20)
    × (rl'.last_updated ≡ 1010)
    × (rl'.amount_in_flight ≡ in_flight 1010 window)
set_rate_limit_total_example =
    set_rate_limit_total 1010 window config (omega arith) (omega arith) (omega arith)

abbrev calls : List (ℕ × ℕ)
calls = (1010, 80) ∷ (1010, 1) ∷ (1035, 50) ∷ []

run-calls : (run window calls).1 ≡ 130
unfolding run update_limit
run-calls = refl

run_throughput_example :
    let (last, total) = run window calls in
    (total * 50 ≤ 100 * (50 + (last.last_updated - 1000))) × (last.amount_in_flight ≤ last.limit)
run_throughput_example = run_throughput window calls (omega arith)

commission_ok : validate_commission 25 ≡ ok tt
unfolding validate_commission
commission_ok = refl

get_relative_fee_bounds_example :
    (fee : ℕ) × (get_relative_fee ceil_div 100001 25 ≡ ok fee)
    × (fee ≤ 100001)
    × (100001 * 25 ≤ fee * 10000)
    × (fee * 10000 < 100001 * 25 + 10000)
get_relative_fee_bounds_example =
    get_relative_fee_bounds ceil_div ceil_div-IsCeilDiv 100001 25 commission_ok (omega arith)
      (omega arith)
