-- ===== src/Contracts/Gmp.antt =====
-- contracts/gmp/libs/GMPUtils.sol, contracts/gmp/libs/MessagePath.sol and contracts/libs/LChainId.sol:
-- the messages of Lombard's message passing, their encoding, and the ids of the paths they take.
-- Words and addresses are numbers, a hash function is an argument.
use evm_smart_contracts.Prelude.{
  ℕ, ◌+◌, ◌*◌, ◌-◌, ◌/◌, ◌%◌, Bool, not, ◌&&◌, ◌||◌, Option, none, some, List, [], ◌∷◌, ◌++◌, Bytes,
  length, take, drop, replicate, be_nat, Result, ok, err, ◌>>=◌, ◌>>◌, revert_if, or_revert, ltb,
  leb, ◌==◌, if◌then◌else◌,
}
use evm_smart_contracts.Contracts.Abi.{encode_words, decode_words, selector_of}
pub mod RoundTrip
pub mod Ids

pub data Error : Type 0 where
  zero_sender zero_recipient wrong_payload_length invalid_address decode_failed : Error
  invalid_action : ℕ → ℕ → Error

abbrev pub gmp_v1_selector : ℕ
gmp_v1_selector = 0xe288fb4a

-- The selector's bytes, as `abi.encodeWithSelector` writes them.
abbrev pub gmp_v1_selector_bytes : Bytes
gmp_v1_selector_bytes = 0xe2 ∷ 0x88 ∷ 0xfb ∷ 0x4a ∷ []

abbrev pub min_gmp_length : ℕ
min_gmp_length = 32 * 6 + 4

-- 2 ^ 160, 2 ^ 248 and 2 ^ 64, written out.
abbrev pub address_mod : ℕ
address_mod = 0x1_0000_0000_0000_0000_0000_0000_0000_0000_0000_0000

abbrev pub chain_mod : ℕ
chain_mod = 0x100_0000_0000_0000_0000_0000_0000_0000_0000_0000_0000_0000_0000_0000_0000_0000

abbrev pub offset_mod : ℕ
offset_mod = 0x1_0000_0000_0000_0000

pub record Payload : Type 0 where
  pub id : ℕ
  pub msg_path : ℕ
  pub msg_nonce : ℕ
  pub msg_sender : ℕ
  pub msg_recipient : ℕ
  pub msg_destination_caller : ℕ
  pub msg_body : Bytes

-- The zeros that `abi.encode` writes behind `n` bytes, up to a whole word.
unfoldable pub padding : ℕ → ℕ
padding n = (32 - n % 32) % 32

-- The offset of the body is that of the seventh word, where its length stands.
unfoldable pub encode_payload : ℕ → ℕ → ℕ → ℕ → ℕ → Bytes → Bytes
encode_payload path nonce sender recipient caller body =
    let head : List ℕ = path ∷ nonce ∷ sender ∷ recipient ∷ caller ∷ 32 * 6 ∷ length body ∷ [] in
    let padded : Bytes = body ++ replicate (padding (length body)) 0 in
    gmp_v1_selector_bytes ++ (encode_words head ++ padded)

-- `abi.decode` of the `bytes` at an offset: the length and the bytes have to lie within the data.
unfoldable pub decode_bytes : ℕ → Bytes → Option Bytes
decode_bytes offset bs =
    let n = be_nat 0 (take 32 (drop offset bs)) in
    if ltb offset offset_mod
      && ltb (offset + 31) (length bs)
      && ltb n offset_mod
      && leb (offset + 32 + n) (length bs)
    then some (take n (drop (offset + 32) bs))
    else none

-- `abi.decode(data, (bytes32, uint256, bytes32, address, address, bytes))`, with the id to give.
-- A word with more than 160 bits is no address.
unfoldable pub read_words : ℕ → List ℕ → Bytes → Option Payload
read_words id (path ∷ nonce ∷ sender ∷ recipient ∷ caller ∷ offset ∷ _) bs =
    elim (decode_bytes offset bs) [
      | none ↦ none
      | some body ↦
          if ltb recipient address_mod && ltb caller address_mod
          then some (record {
            id = id;
            msg_path = path;
            msg_nonce = nonce;
            msg_sender = sender;
            msg_recipient = recipient;
            msg_destination_caller = caller;
            msg_body = body;
          })
          else none
    ]
read_words id _ bs = none

unfoldable pub abi_decode : ℕ → Bytes → Option Payload
abi_decode id bs = if ltb (length bs) (32 * 6) then none else read_words id (decode_words 6 bs) bs

unfoldable pub validate_payload : Bytes → Result Error (Unit {0})
validate_payload raw = do
  revert_if (not (selector_of raw == gmp_v1_selector))
      (invalid_action gmp_v1_selector (selector_of raw))
  revert_if (ltb (length raw) min_gmp_length) wrong_payload_length

unfoldable pub decode_and_validate_payload : (Bytes → ℕ) → Bytes → Result Error Payload
decode_and_validate_payload sha256 raw = do
  validate_payload raw
  payload ← or_revert (abi_decode (sha256 raw) (drop 4 raw)) decode_failed
  revert_if (payload.msg_sender == 0) zero_sender
  revert_if (payload.msg_recipient == 0) zero_recipient
  ok payload

abbrev pub address_to_bytes32 : ℕ → ℕ
address_to_bytes32 addr = addr % address_mod

-- `uint256(_buf) >> 160 != 0` is a division.
unfoldable pub bytes32_to_address : ℕ → Result Error ℕ
bytes32_to_address buf = do
  revert_if (not (buf / address_mod == 0)) invalid_address
  ok (buf % address_mod)

unfoldable pub validate_address_length : ℕ → ℕ → Bool
validate_address_length chain addr =
    let ecosystem = chain / chain_mod % 256 in
    ecosystem == 0 && addr / address_mod == 0
    || ecosystem == 3 && addr / address_mod == 0
    || (ecosystem == 1 || ecosystem == 2 || ecosystem == 4)

-- `LChainId.get()`: the chain's id without its highest byte.
abbrev pub lombard_chain_id : ℕ → ℕ
lombard_chain_id chain_id = chain_id % chain_mod

-- `MessagePath.id`.
unfoldable pub path_id : (Bytes → ℕ) → ℕ → ℕ → ℕ → ℕ
path_id keccak256 source_contract source_chain destination_chain =
    keccak256 (encode_words (source_contract ∷ source_chain ∷ destination_chain ∷ []))
