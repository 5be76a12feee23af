-- ===== src/Contracts/Examples/Notaries.antt =====
-- contracts/consortium/Consortium.sol with one validator and two epochs.
use evm_smart_contracts.Prelude.{
  ℕ, ◌+◌, ◌≤◌, ◌≡◌, ◌≢◌, ◌↔◌, refl, some, List, [], ◌∷◌, ◌++◌, Bytes, length, replicate, be_nat,
  to_be, ok, ◌==◌, update, arith,
}
use evm_smart_contracts.Contracts.Abi.{selector_of}
use evm_smart_contracts.Contracts.Consortium.{
  Crypto, Storage, ValidatorSet, blank, new_valset, check_proof, is_accepted, weigh, sum_weights,
  pub_keys_to_address, validate_val_set, set_validator_set, set_initial_validator_set,
  set_next_validator_set,
}
use evm_smart_contracts.Contracts.Consortium.Weights.{accepted_weight, check_proof_exact}
use evm_smart_contracts.Contracts.Consortium.Epochs.{
  IsSound, Reach, here, next, initial, following, Reach-fits, Reach-kept,
  set_next_validator_set_inv,
}

-- One validator, whose address is the R of its signatures.
abbrev crypto : Crypto
crypto = record {
  is_owner = λ a. a == 3;
  sha256 = λ bs. length bs;
  try_recover = λ hash v r s. some r;
  address_of_key = λ key. 1;
  decode_val_set = λ bs. some (record {
    epoch = be_nat 0 bs;
    pub_keys = (4 ∷ replicate 64 7) ∷ [];
    weights = 60 ∷ [];
    weight_threshold = 50;
    height = 1;
  });
  encoded_length = λ p. 1;
  decode_signatures = λ proof. some (proof ∷ []);
}

abbrev set : ValidatorSet
set = record { validators = 1 ∷ []; weights = 60 ∷ []; weight_threshold = 50 }

abbrev first : Storage
first = record { epoch = 1; validator_set = update blank.validator_set 1 set }

abbrev second : Storage
second = record { epoch = 2; validator_set = update first.validator_set 2 set }

abbrev payload : ℕ → Bytes
payload epoch = to_be 4 new_valset ++ epoch ∷ []

abbrev signature : Bytes
signature = to_be 32 1 ++ to_be 32 1

set_first : set_initial_validator_set crypto 3 (payload 1) blank ≡ ok first
unfolding set_initial_validator_set set_validator_set validate_val_set selector_of be_nat to_be
    sum_weights pub_keys_to_address
set_first = refl

set_second : set_next_validator_set crypto (payload 2) signature first ≡ ok second
unfolding set_next_validator_set set_validator_set validate_val_set check_proof selector_of be_nat
    to_be sum_weights pub_keys_to_address weigh is_accepted
set_second = refl

Reach-first : Reach crypto blank first
Reach-first = next here (initial 3 (payload 1) set_first)

Reach-second : Reach crypto first second
Reach-second = next here (following (payload 2) signature set_second)

check_proof_exact_example : (check_proof crypto 9 signature first ≡ ok tt) ↔ (
    (first.epoch ≢ 0)
    × (sigs : List Bytes) × (some (signature ∷ []) ≡ some sigs)
    × (length sigs ≡ 1)
    × (50 ≤ accepted_weight crypto 9 sigs (1 ∷ []) (60 ∷ [])))
check_proof_exact_example = check_proof_exact crypto 9 signature first (omega arith)

Reach-fits_example : IsSound first
Reach-fits_example = Reach-fits crypto Reach-first

Reach-kept_example : second.validator_set 1 ≡ first.validator_set 1
Reach-kept_example = Reach-kept crypto 1 (λ e. cc) Reach-second

set_next_validator_set_inv_example :
    (second.epoch ≡ first.epoch + 1)
    × (first.epoch ≢ 0)
    × (check_proof crypto (length (payload 2)) signature first ≡ ok tt)
set_next_validator_set_inv_example =
    set_next_validator_set_inv crypto (payload 2) signature first set_second
