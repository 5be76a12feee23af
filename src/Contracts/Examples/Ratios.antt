-- ===== src/Contracts/Examples/Ratios.antt =====
-- contracts/LBTC/StakedLBTCOracle.sol and the payload of a ratio update on concrete inputs.
use evm_smart_contracts.Prelude.{
  ℕ, ◌+◌, ◌*◌, ◌≤◌, ◌<◌, ◌≡◌, refl, Bool, true, [], ◌∷◌, ◌++◌, ok, arith, Bytes, length, drop,
  be_nat, to_be, ◌==◌,
}
use evm_smart_contracts.Contracts.Abi.{
  encode_words, decode_words, selector_of, decode_words-encode_words,
}
use evm_smart_contracts.Contracts.Actions.{
  RatioUpdate, encode_ratio_update, assert_selector, ratio_update,
}
use evm_smart_contracts.Contracts.Oracle.{
  Storage, blank, ether, ratio, get_rate, set_new_ratio, oracle_init, validate_ratio,
  is_too_big_change, publish_new_ratio,
}
use evm_smart_contracts.Contracts.Oracle.Validate.{IsAllowed, IsInRange}
use evm_smart_contracts.Contracts.Oracle.Publish.{
  ratio-set_new_ratio, publish_new_ratio-IsAllowed, publish_new_ratio-encode,
}
use evm_smart_contracts.Contracts.Oracle.Invariant.{
  IsSound, oracle_init-IsSound, Reach, here, next, publish, Reach-IsSound, Reach-switch_time,
  get_rate_total,
}
use evm_smart_contracts.Contracts.Examples.{
  quotient, floor_div, floor_div-IsFloorDiv, ceil_div, ceil_div-IsCeilDiv,
}

-- A hash and a proof check that only serve the examples.
abbrev sha256 : Bytes → ℕ
sha256 bs = length bs

abbrev check_proof : ℕ → ℕ → Bytes → Bool
check_proof consortium hash proof = length proof == 1

abbrev is_owner : ℕ → Bool
is_owner a = a == 3

abbrev storage : Storage
storage = record {
  consortium = 7;
  token_details = record { denom_hash = 9; token = 5 };
  prev_ratio = ether;
  curr_ratio = ether;
  switch_time = 1000;
  max_ahead_interval = 172800;
  ratio_threshold = 100000;
}

init_storage : oracle_init 900 7 5 9 ether 1000 172800 blank ≡ ok storage
unfolding oracle_init
init_storage = refl

-- A day later the ratio goes down by half of what is allowed.
abbrev update : RatioUpdate
update = record { denom = 9; ratio = 999500000000000000; switch_time = 87400 }

abbrev proof : Bytes
proof = 1 ∷ []

abbrev updated : Storage
updated = set_new_ratio 2000 999500000000000000 87400 storage

update-IsInRange : IsInRange 2000 storage 87400
update-IsInRange = record { horizon = omega arith; weight = omega arith; product = omega arith }

update-IsAllowed : IsAllowed 2000 storage 999500000000000000 87400 9
update-IsAllowed = record {
  token = refl;
  later = omega arith;
  near = omega arith;
  small = omega arith;
}

validate_update : validate_ratio floor_div 2000 storage 999500000000000000 87400 9 ≡ ok tt
unfolding validate_ratio quotient is_too_big_change
validate_update = refl

publish_new_ratio-encode_example :
    publish_new_ratio floor_div sha256 check_proof 2000 (encode_ratio_update update) proof storage
    ≡ ok updated
publish_new_ratio-encode_example =
    publish_new_ratio-encode floor_div sha256 check_proof floor_div-IsFloorDiv 2000 update proof
      storage (omega arith) (omega arith) (omega arith) (omega arith) (omega arith) update-IsInRange
      update-IsAllowed refl

publish_update :
    publish_new_ratio floor_div sha256 check_proof 2000 (encode_ratio_update update) proof storage
    ≡ ok updated
unfolding publish_new_ratio encode_ratio_update encode_words decode_words assert_selector
    selector_of be_nat to_be ratio_update validate_ratio quotient is_too_big_change
publish_update = refl

publish_new_ratio-IsAllowed_example :
    (u : RatioUpdate) × (ratio_update (drop 4 (encode_ratio_update update)) ≡ ok u)
    × IsAllowed 2000 storage u.ratio u.switch_time u.denom
    × (check_proof 7 (sha256 (encode_ratio_update update)) proof ≡ true)
    × (updated ≡ set_new_ratio 2000 u.ratio u.switch_time storage)
publish_new_ratio-IsAllowed_example =
    publish_new_ratio-IsAllowed floor_div sha256 check_proof floor_div-IsFloorDiv 2000
      (encode_ratio_update update) proof storage publish_update

ratio-set_new_ratio_example : ratio 50000 updated ≡ ether
unfolding ratio
ratio-set_new_ratio_example =
    ratio-set_new_ratio 2000 50000 999500000000000000 87400 storage (omega arith) (omega arith)

storage-IsSound : IsSound storage
storage-IsSound = oracle_init-IsSound 900 7 5 9 ether 1000 172800 (omega arith) init_storage

Reach-updated : Reach floor_div sha256 check_proof is_owner storage updated
Reach-updated = next here (publish 2000 (encode_ratio_update update) proof publish_update)

Reach-IsSound_example : IsSound updated
Reach-IsSound_example =
    Reach-IsSound floor_div sha256 check_proof is_owner storage-IsSound Reach-updated

Reach-switch_time_example : storage.switch_time ≤ updated.switch_time
Reach-switch_time_example = Reach-switch_time floor_div sha256 check_proof is_owner Reach-updated

get_rate_total_example :
    (rate : ℕ) × (get_rate ceil_div 90000 updated ≡ ok rate)
    × (ether * ether ≤ rate * ratio 90000 updated)
    × (rate * ratio 90000 updated < ether * ether + ratio 90000 updated)
get_rate_total_example =
    get_rate_total floor_div sha256 check_proof is_owner ceil_div ceil_div-IsCeilDiv 90000
      storage-IsSound Reach-updated

decode_words_pair : decode_words 2 (encode_words (3 ∷ 300 ∷ []) ++ 5 ∷ []) ≡ 3 ∷ 300 ∷ []
decode_words_pair =
    decode_words-encode_words (3 ∷ 300 ∷ []) (5 ∷ []) (omega arith, (omega arith, tt))
