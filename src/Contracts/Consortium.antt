-- ===== src/Contracts/Consortium.antt =====
-- contracts/consortium/Consortium.sol and `validateValSet` of contracts/libs/Actions.sol: the
-- validator sets by epoch, and the weight of the validators that signed a payload.
-- Hashes, words and addresses are numbers. The ABI decoders, sha256, keccak256, `ECDSA.tryRecover`
-- and the owner check of Ownable2Step are fields of a record.
use evm_smart_contracts.Prelude.{
  ℕ, suc, ◌+◌, ◌%◌, ◌≡◌, ◌≢◌, refl, Bool, true, false, ◌&&◌, ◌||◌, not, Option, none, some, List,
  [], ◌∷◌, Bytes, length, take, drop, be_nat, get_elem?, word_mod, Result, ok, err, ◌>>=◌, ◌>>◌,
  guard, revert_if, or_revert, ltb, leb, ◌==◌, update, if◌then◌else◌, checked_add,
}
use evm_smart_contracts.Contracts.Abi.{selector_of}
pub mod Weights
pub mod Epochs

pub data Error : Type 0 where
  unexpected_action : ℕ → Error
  val_set_already_set invalid_epoch no_validator_set length_mismatch not_enough_signatures : Error
  invalid_payload_size : ℕ → ℕ → Error
  invalid_validator_set_size invalid_threshold zero_weight : Error
  invalid_public_key : Bytes → Error
  not_owner malformed panic : Error

-- `Actions.NEW_VALSET`.
abbrev pub new_valset : ℕ
new_valset = 0x4aab1d6f

-- The decoded payload.
pub record ValSetPayload : Type 0 where
  pub epoch : ℕ
  pub pub_keys : List Bytes
  pub weights : List ℕ
  pub weight_threshold : ℕ
  pub height : ℕ

pub record ValidatorSet : Type 0 where
  pub validators : List ℕ
  pub weights : List ℕ
  pub weight_threshold : ℕ

pub record ValSetAction : Type 0 where
  pub epoch : ℕ
  pub validators : List ℕ
  pub weights : List ℕ
  pub weight_threshold : ℕ
  pub height : ℕ

pub record Storage : Type 0 where
  pub epoch : ℕ
  pub validator_set : ℕ → ValidatorSet

abbrev pub empty_set : ValidatorSet
empty_set = record { validators = []; weights = []; weight_threshold = 0 }

-- The storage behind `initialize`.
abbrev pub blank : Storage
blank = record { epoch = 0; validator_set = λ epoch. empty_set }

pub record Crypto : Type 0 where
  pub is_owner : ℕ → Bool
  pub sha256 : Bytes → ℕ
  -- `tryRecover(hash, v, r, s)`; `none` is an error
  pub try_recover : ℕ → ℕ → ℕ → ℕ → Option ℕ
  -- `address(uint160(uint256(keccak256(…))))`
  pub address_of_key : Bytes → ℕ
  -- `abi.decode`, where `none` is a revert, and the length of `abi.encode`
  pub decode_val_set : Bytes → Option ValSetPayload
  pub encoded_length : ValSetPayload → ℕ
  pub decode_signatures : Bytes → Option (List Bytes)

-- The loop over the weights in `validateValSet`, from the sum so far.
unfoldable pub sum_weights : ℕ → List ℕ → Result Error ℕ
sum_weights sum [] = ok sum
sum_weights sum (w ∷ ws) = do
  revert_if (w == 0) zero_weight
  next ← checked_add panic sum w
  sum_weights next ws

abbrev pub is_byte : ℕ → Option ℕ → Bool
is_byte b none = false
is_byte b (some c) = c == b

module _ (crypto : Crypto) where
  -- `pubKeysToAddress`.
  unfoldable pub pub_keys_to_address : List Bytes → Result Error (List ℕ)
  pub_keys_to_address [] = ok []
  pub_keys_to_address (k ∷ ks) = do
    guard (length k == 65 && is_byte 4 (get_elem? k 0)) (invalid_public_key k)
    rest ← pub_keys_to_address ks
    ok (crypto.address_of_key (drop 1 k) ∷ rest)

  -- `validateValSet`.
  unfoldable pub validate_val_set : Bytes → Result Error ValSetAction
  validate_val_set payload = do
    p ← or_revert (crypto.decode_val_set payload) malformed
    revert_if (not (crypto.encoded_length p == length payload))
        (invalid_payload_size (length payload) (crypto.encoded_length p))
    revert_if (ltb (length p.pub_keys) 1 || ltb 102 (length p.pub_keys)) invalid_validator_set_size
    revert_if (not (length p.pub_keys == length p.weights)) length_mismatch
    revert_if (p.weight_threshold == 0) invalid_threshold
    sum ← sum_weights 0 p.weights
    revert_if (ltb sum p.weight_threshold) invalid_threshold
    validators ← pub_keys_to_address p.pub_keys
    ok (record {
      epoch = p.epoch;
      validators = validators;
      weights = p.weights;
      weight_threshold = p.weight_threshold;
      height = p.height;
    })

  -- `_setValidatorSet`.
  unfoldable pub set_validator_set : ValSetAction → Storage → Result Error Storage
  set_validator_set action s = do
    revert_if (not ((s.validator_set action.epoch).weight_threshold == 0)) invalid_epoch
    let set : ValidatorSet = record {
      validators = action.validators;
      weights = action.weights;
      weight_threshold = action.weight_threshold;
    }
    ok (record { epoch = action.epoch; validator_set = update s.validator_set action.epoch set })

  -- Whether the signature of one validator is accepted: V is tried as 27, and then as 28 unless
  -- the first try is an error.
  unfoldable pub is_accepted : ℕ → ℕ → Bytes → Bool
  is_accepted hash validator sig =
      let r = be_nat 0 (take 32 sig) in
      let s = be_nat 0 (take 32 (drop 32 sig)) in
      let second : Bool = elim (crypto.try_recover hash 28 r s) [
        | none ↦ false
        | some a ↦ a == validator
      ] in
      let first : Bool = elim (crypto.try_recover hash 27 r s) [
        | none ↦ false
        | some a ↦ if a == validator then true else second
      ] in
      length sig == 64 && (not (r == 0) && (not (s == 0) && first))

  -- The loop of `_checkProof`; the sum is unchecked. The lists have the same length.
  unfoldable pub weigh : ℕ → ℕ → List Bytes → List ℕ → List ℕ → ℕ
  weigh hash weight (sig ∷ sigs) (v ∷ vs) (w ∷ ws) =
      weigh hash (if is_accepted hash v sig then (weight + w) % word_mod else weight) sigs vs ws
  weigh hash weight _ _ _ = weight

  -- `_checkProof`.
  unfoldable pub check_proof : ℕ → Bytes → Storage → Result Error (Unit {0})
  check_proof hash proof s = do
    revert_if (s.epoch == 0) no_validator_set
    signatures ← or_revert (crypto.decode_signatures proof) malformed
    let set = s.validator_set s.epoch
    revert_if (not (length signatures == length set.validators)) length_mismatch
    revert_if (ltb (weigh hash 0 signatures set.validators set.weights) set.weight_threshold)
        not_enough_signatures

  unfoldable pub set_initial_validator_set : ℕ → Bytes → Storage → Result Error Storage
  set_initial_validator_set sender payload s = do
    guard (crypto.is_owner sender) not_owner
    revert_if (not (selector_of payload == new_valset)) (unexpected_action (selector_of payload))
    action ← validate_val_set (drop 4 payload)
    revert_if (not (s.epoch == 0)) val_set_already_set
    set_validator_set action s

  unfoldable pub set_next_validator_set : Bytes → Bytes → Storage → Result Error Storage
  set_next_validator_set payload proof s = do
    revert_if (not (selector_of payload == new_valset)) (unexpected_action (selector_of payload))
    action ← validate_val_set (drop 4 payload)
    check_proof (crypto.sha256 payload) proof s
    next ← checked_add panic s.epoch 1
    revert_if (not (action.epoch == next)) invalid_epoch
    set_validator_set action s
