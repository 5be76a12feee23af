-- ===== src/Contracts/Bridge/Body.antt =====
-- contracts/bridge/BridgeV2.sol: the body of a bridge message.
use evm_smart_contracts.Prelude.{
  ℕ, ◌/◌, ◌%◌, ◌<◌, ◌≡◌, ◌≢◌, refl, ap, sym, ◌∙◌, arith, true, false, not, List, [], ◌∷◌, Bytes,
  length, drop, append-nil, Result, ok, err, ◌>>=◌, ◌>>◌, revert_if, ◌==◌, word_mod,
}
use evm_smart_contracts.Contracts.Abi.{
  encode_words, decode_words, length-encode_words, decode_words-encode_words,
}
use evm_smart_contracts.Contracts.Gmp
use evm_smart_contracts.Contracts.Gmp.{bytes32_to_address, address_mod}
use evm_smart_contracts.Contracts.Bridge.{
  Error, zero_amount, zero_sender, zero_recipient, zero_token, invalid_msg_body_length,
  version_mismatch, gmp, msg_version, msg_length,
}

abbrev pub from_gmp : {A : Type 0} → Result Gmp.Error A → Result Error A
from_gmp (ok a) = ok a
from_gmp (err e) = err (gmp e)

-- `abi.encodePacked` of a byte and four words.
unfoldable pub encode_msg : ℕ → ℕ → ℕ → ℕ → Bytes
encode_msg token sender recipient amount =
    msg_version ∷ encode_words (token ∷ sender ∷ recipient ∷ amount ∷ [])

-- What a message says: the token to mint, who sent it, to whom and how much.
pub record Msg : Type 0 where
  pub token : ℕ
  pub sender : ℕ
  pub recipient : ℕ
  pub amount : ℕ

-- The words behind the version's byte; there are always four.
unfoldable pub check_msg : ℕ → List ℕ → Result Error Msg
check_msg version (token ∷ sender ∷ recipient ∷ amount ∷ _) = do
  revert_if (not (version == msg_version)) (version_mismatch msg_version version)
  revert_if (amount == 0) zero_amount
  revert_if (sender == 0) zero_sender
  revert_if (recipient == 0) zero_recipient
  revert_if (token == 0) zero_token
  token' ← from_gmp (bytes32_to_address token)
  sender' ← from_gmp (bytes32_to_address sender)
  recipient' ← from_gmp (bytes32_to_address recipient)
  ok (record { token = token'; sender = sender'; recipient = recipient'; amount = amount })
check_msg version _ = err (invalid_msg_body_length msg_length 0)

unfoldable pub version_of : Bytes → ℕ
version_of [] = 0
version_of (b ∷ bs) = b

unfoldable pub decode_msg_body : Bytes → Result Error Msg
decode_msg_body body = do
  revert_if (not (length body == msg_length)) (invalid_msg_body_length msg_length (length body))
  check_msg (version_of body) (decode_words 4 (drop 1 body))

bytes32_to_address-small : (a : ℕ) → a < address_mod → bytes32_to_address a ≡ ok a
unfolding bytes32_to_address
bytes32_to_address-small a h =
    let d : (a / address_mod == 0) ≡ true = ground arith in
    let m : a % address_mod ≡ a = omega arith in rw (d, m) refl

-- A body that `encode_msg` writes of three addresses and an amount of 256 bits, none of them zero,
-- is decoded to them.
pub decode_msg_body-encode_msg :
    (token sender recipient amount : ℕ)
    → token < address_mod
    → token ≢ 0
    → sender < address_mod
    → sender ≢ 0
    → recipient < address_mod
    → recipient ≢ 0
    → amount < word_mod
    → amount ≢ 0
    → decode_msg_body (encode_msg token sender recipient amount)
      ≡ ok (record { token = token; sender = sender; recipient = recipient; amount = amount })
unfolding decode_msg_body encode_msg version_of check_msg
decode_msg_body-encode_msg token sender recipient amount ht t0 hs s0 hr r0 ha a0 =
    let ws : List ℕ = token ∷ sender ∷ recipient ∷ amount ∷ [] in
    let l : length (encode_words ws) ≡ 128 = length-encode_words ws in
    let e : decode_words 4 (encode_words ws) ≡ ws =
      ap (λ bs. decode_words 4 bs) (sym (append-nil (encode_words ws)))
      ∙ decode_words-encode_words ws [] (omega arith, (omega arith, (omega arith, (ha, tt)))) in
    let a : (amount == 0) ≡ false = ground arith in
    let s : (sender == 0) ≡ false = ground arith in
    let r : (recipient == 0) ≡ false = ground arith in
    let t : (token == 0) ≡ false = ground arith in
    rw
      (
        l,
        e,
        a,
        s,
        r,
        t,
        bytes32_to_address-small token ht,
        bytes32_to_address-small sender hs,
        bytes32_to_address-small recipient hr,
      )
      refl
