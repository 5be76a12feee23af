-- ===== src/Contracts/Actions.antt =====
-- contracts/libs/Actions.sol and contracts/LBTC/libraries/Assert.sol: the ratio update that the
-- ledger sends, decoded from its payload, and the assertions on selectors and addresses.
use evm_smart_contracts.Prelude.{
  ℕ, ◌*◌, ◌≡◌, ◌≢◌, refl, List, [], ◌∷◌, ◌++◌, Bytes, length, Result, ok, err, ◌>>◌, revert_if,
  ◌==◌, not, arith, word_mod, ◌<◌, append-nil, drop, to_be, length-to_be, be_nat,
}
use evm_smart_contracts.Contracts.Abi.{
  decode_words, selector_of, encode_words, length-encode_words, decode_words-encode_words,
  drop_block,
}

pub data Error : Type 0 where
  invalid_payload_size : ℕ → ℕ → Error
  invalid_action : ℕ → ℕ → Error
  zero_denom : Error
  zero_ratio : Error
  zero_address : Error

abbrev pub abi_slot_size : ℕ
abi_slot_size = 32

-- bytes4(keccak256("payload(bytes32,uint256,uint256)"))
abbrev pub ratio_update_selector : ℕ
ratio_update_selector = 0x6c722c2c

pub record RatioUpdate : Type 0 where
  pub denom : ℕ
  pub ratio : ℕ
  pub switch_time : ℕ

-- `Assert.zeroAddress`.
unfoldable pub assert_nonzero_address : ℕ → Result Error (Unit {0})
assert_nonzero_address addr = revert_if (addr == 0) zero_address

-- `Assert.selector`.
unfoldable pub assert_selector : Bytes → ℕ → Result Error (Unit {0})
assert_selector payload expected =
    revert_if (not (selector_of payload == expected))
      (invalid_action expected (selector_of payload))

-- The checks that `ratioUpdate` makes of the decoded words; there are always three.
check_ratio_update : List ℕ → Result Error RatioUpdate
check_ratio_update (denom ∷ ratio ∷ timestamp ∷ _) = do
  revert_if (denom == 0) zero_denom
  revert_if (ratio == 0) zero_ratio
  ok (record { denom = denom; ratio = ratio; switch_time = timestamp })
check_ratio_update _ = err (invalid_payload_size 96 0)

unfoldable pub ratio_update : Bytes → Result Error RatioUpdate
unfolding check_ratio_update
ratio_update payload = do
  revert_if (not (length payload == abi_slot_size * 3))
      (invalid_payload_size (abi_slot_size * 3) (length payload))
  check_ratio_update (decode_words 3 payload)

-- A decoded update comes from 96 bytes, and neither its denomination nor its ratio is zero.
pub ratio_update_nonzero :
    (payload : Bytes) {u : RatioUpdate}
    → ratio_update payload ≡ ok u
    → (length payload ≡ 96) × (u.denom ≢ 0) × (u.ratio ≢ 0)
unfolding ratio_update decode_words
ratio_update_nonzero payload h = ground arith

-- The payload of a ratio update, as the ledger encodes it.
unfoldable pub encode_ratio_update : RatioUpdate → Bytes
encode_ratio_update u =
    to_be 4 ratio_update_selector ++ encode_words (u.denom ∷ u.ratio ∷ u.switch_time ∷ [])

-- Decoding gives back the three words that were encoded, if they fit in words and the denomination
-- and the ratio are not zero.
pub ratio_update-encode_words :
    (denom ratio time : ℕ)
    → denom < word_mod
    → ratio < word_mod
    → time < word_mod
    → denom ≢ 0
    → ratio ≢ 0
    → ratio_update (encode_words (denom ∷ ratio ∷ time ∷ []))
      ≡ ok (record { denom = denom; ratio = ratio; switch_time = time })
unfolding ratio_update
ratio_update-encode_words denom ratio time hd hr ht nd nr =
    let ws : List ℕ = denom ∷ ratio ∷ time ∷ [] in
    let e = rw append-nil at (decode_words-encode_words ws [] (omega arith)) in
    rw (length-encode_words ws, e) (ground arith)

-- The head of an encoded update is the selector, and its tail the encoded words.
pub selector_of-encode_ratio_update :
    (u : RatioUpdate) → selector_of (encode_ratio_update u) ≡ ratio_update_selector
unfolding encode_ratio_update selector_of to_be be_nat
selector_of-encode_ratio_update u = refl

pub drop-encode_ratio_update :
    (u : RatioUpdate)
    → drop 4 (encode_ratio_update u) ≡ encode_words (u.denom ∷ u.ratio ∷ u.switch_time ∷ [])
unfolding encode_ratio_update
drop-encode_ratio_update u = drop_block 4 _ _ (length-to_be 4 ratio_update_selector)
