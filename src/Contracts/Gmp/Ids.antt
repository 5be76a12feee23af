-- ===== src/Contracts/Gmp/Ids.antt =====
-- contracts/gmp/libs/GMPUtils.sol: the id of a decoded message.
use evm_smart_contracts.Prelude.{
  ℕ, ◌≡◌, arith, inl, inr, none, some, Option, Option-cases, ok, List, [], ◌∷◌, Bytes, >>=-eq-ok,
  or_revert, revert_if, drop, ltb, ◌==◌, length, Bool-cases, ◌*◌,
}
use evm_smart_contracts.Contracts.Abi.{decode_words}
use evm_smart_contracts.Contracts.Gmp.{
  Payload, validate_payload, decode_failed, zero_sender, zero_recipient, decode_bytes, read_words,
  abi_decode, decode_and_validate_payload,
}

read_words-id :
    (id : ℕ) (ws : List ℕ) (bs : Bytes) {p : Payload} → read_words id ws bs ≡ some p → p.id ≡ id
unfolding read_words
read_words-id id [] bs h = ground arith
read_words-id id (a ∷ []) bs h = ground arith
read_words-id id (a ∷ b ∷ []) bs h = ground arith
read_words-id id (a ∷ b ∷ c ∷ []) bs h = ground arith
read_words-id id (a ∷ b ∷ c ∷ d ∷ []) bs h = ground arith
read_words-id id (a ∷ b ∷ c ∷ d ∷ e ∷ []) bs h = ground arith
read_words-id id (a ∷ b ∷ c ∷ d ∷ e ∷ offset ∷ rest) bs h =
    elim (Option-cases (decode_bytes offset bs)) [
      | inl k ↦ ground arith
      | inr (body, k) ↦ ground arith
    ]

abi_decode-id : (id : ℕ) (bs : Bytes) {p : Payload} → abi_decode id bs ≡ some p → p.id ≡ id
unfolding abi_decode
abi_decode-id id bs {p} h = elim (Bool-cases (ltb (length bs) (32 * 6))) [
  | inl k ↦ ground arith
  | inr k ↦ read_words-id id (decode_words 6 bs) bs {p = p} (ground arith)
]

or_revert_inv : {E A : Type 0} (o : Option A) (e : E) {a : A} → or_revert o e ≡ ok a → o ≡ some a
or_revert_inv none e h = ground arith
or_revert_inv (some b) e h = ground arith

-- The id of a message that is decoded is the hash of its bytes.
pub decode_and_validate_payload-id :
    (sha256 : Bytes → ℕ) (raw : Bytes) {p : Payload}
    → decode_and_validate_payload sha256 raw ≡ ok p
    → p.id ≡ sha256 raw
unfolding decode_and_validate_payload
decode_and_validate_payload-id sha256 raw {p} h =
    let (_, _, h1) = >>=-eq-ok (validate_payload raw) _ h in
    let (q, read, h2) =
      >>=-eq-ok (or_revert (abi_decode (sha256 raw) (drop 4 raw)) decode_failed) _ h1 in
    let (_, _, h3) = >>=-eq-ok (revert_if (q.msg_sender == 0) zero_sender) _ h2 in
    let (_, _, h4) = >>=-eq-ok (revert_if (q.msg_recipient == 0) zero_recipient) _ h3 in
    let same : q ≡ p = ground arith in
    rw (← same) (abi_decode-id (sha256 raw) (drop 4 raw) (or_revert_inv _ _ read))
