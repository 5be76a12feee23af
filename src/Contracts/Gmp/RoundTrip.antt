-- ===== src/Contracts/Gmp/RoundTrip.antt =====
-- contracts/gmp/libs/GMPUtils.sol: that a message is decoded as it was encoded.
use evm_smart_contracts.Prelude.{
  ℕ, ◌+◌, ◌*◌, ◌≤◌, ◌<◌, ◌≡◌, ◌≢◌, refl, sym, ap, ◌∙◌, true, false, some, List, [], ◌∷◌, ◌++◌,
  append_assoc, Bytes, length, take, drop, replicate, be_nat, to_be, ok, ltb, leb, arith, lt→ltb,
  append-nil, length-append, length-to_be, be_nat-to_be, length-replicate, drop-drop,
  take-append_length, word_mod,
}
use evm_smart_contracts.Contracts.Abi.{
  encode_words, decode_words, selector_of, AllWords, length-encode_words, take_block, drop_block,
  decode_words-encode_words,
}
use evm_smart_contracts.Contracts.Gmp.{
  padding, encode_payload, decode_bytes, read_words, abi_decode, validate_payload,
  decode_and_validate_payload, gmp_v1_selector, min_gmp_length, address_mod, offset_mod,
}

-- The length of a message: the selector, seven words and the body, padded.
pub length-encode_payload :
    (path nonce sender recipient caller : ℕ) (body : Bytes)
    → length (encode_payload path nonce sender recipient caller body)
      ≡ 4 + 32 * 7 + length body + padding (length body)
unfolding encode_payload
length-encode_payload path nonce sender recipient caller body =
    let ws : List ℕ = path ∷ nonce ∷ sender ∷ recipient ∷ caller ∷ 32 * 6 ∷ length body ∷ [] in
    let pad : Bytes = replicate (padding (length body)) 0 in
    omega (
      arith,
      length-append (encode_words ws) (body ++ pad),
      length-append body pad,
      length-encode_words ws,
      length-replicate {A = ℕ} (padding (length body)) 0,
    )

le→leb : (a b : ℕ) → a ≤ b → leb a b ≡ true
le→leb a b h = ground arith

-- Reading the bytes behind a block of `offset` bytes.
decode_bytes-block :
    (front body rest : Bytes) (offset : ℕ)
    → length front ≡ offset
    → offset < offset_mod
    → length body < offset_mod
    → decode_bytes offset (front ++ (to_be 32 (length body) ++ (body ++ rest))) ≡ some body
unfolding decode_bytes
decode_bytes-block front body rest offset e lo lb =
    let w : Bytes = to_be 32 (length body) in
    let d : drop offset (front ++ (w ++ (body ++ rest))) ≡ w ++ (body ++ rest) =
      drop_block offset front (w ++ (body ++ rest)) e in
    let d2 : drop (offset + 32) (front ++ (w ++ (body ++ rest))) ≡ body ++ rest =
      drop-drop offset 32 _
      ∙ rw d (drop_block 32 w (body ++ rest) (length-to_be 32 (length body))) in
    let t : take 32 (w ++ (body ++ rest)) ≡ w =
      take_block 32 w (body ++ rest) (length-to_be 32 (length body)) in
    let n : be_nat 0 w ≡ length body = be_nat-to_be 32 (length body) (omega arith) in
    let l : length (front ++ (w ++ (body ++ rest))) ≡ offset + 32 + length body + length rest =
      omega (
        arith,
        length-append front (w ++ (body ++ rest)),
        length-append w (body ++ rest),
        length-append body rest,
        length-to_be 32 (length body),
      ) in
    rw
      (
        d,
        d2,
        t,
        n,
        l,
        lt→ltb offset offset_mod lo,
        lt→ltb (offset + 31) (offset + 32 + length body + length rest) (omega arith),
        lt→ltb (length body) offset_mod lb,
        le→leb (offset + 32 + length body) (offset + 32 + length body + length rest) (omega arith),
      )
      (ap some (take-append_length body rest))

encode_words-append :
    (vs ws : List ℕ) → encode_words (vs ++ ws) ≡ encode_words vs ++ encode_words ws
unfolding encode_words
encode_words-append [] ws = refl
encode_words-append (v ∷ vs) ws =
    rw (encode_words-append vs ws)
      (sym (append_assoc (to_be 32 v) (encode_words vs) (encode_words ws)))

encode_words_one : (w : ℕ) → encode_words (w ∷ []) ≡ to_be 32 w
unfolding encode_words
encode_words_one w = append-nil (to_be 32 w)

-- The data behind the selector: the six words, the length of the body, and the body.
encode_payload-data :
    (path nonce sender recipient caller : ℕ) (body : Bytes)
    → drop 4 (encode_payload path nonce sender recipient caller body)
      ≡ encode_words (path ∷ nonce ∷ sender ∷ recipient ∷ caller ∷ 32 * 6 ∷ [])
        ++ (to_be 32 (length body) ++ (body ++ replicate (padding (length body)) 0))
unfolding encode_payload
encode_payload-data path nonce sender recipient caller body =
    let six : List ℕ = path ∷ nonce ∷ sender ∷ recipient ∷ caller ∷ 32 * 6 ∷ [] in
    let n : List ℕ = length body ∷ [] in
    let padded : Bytes = body ++ replicate (padding (length body)) 0 in
    let e : encode_words n ≡ to_be 32 (length body) = encode_words_one (length body) in
    ap (λ t. t ++ padded) (encode_words-append six n)
    ∙ (append_assoc (encode_words six) (encode_words n) padded
        ∙ ap (λ t. encode_words six ++ (t ++ padded)) e)

selector_of-encode_payload :
    (path nonce sender recipient caller : ℕ) (body : Bytes)
    → selector_of (encode_payload path nonce sender recipient caller body) ≡ gmp_v1_selector
unfolding selector_of encode_payload be_nat
selector_of-encode_payload path nonce sender recipient caller body = refl

validate_payload-encode_payload :
    (path nonce sender recipient caller : ℕ) (body : Bytes)
    → validate_payload (encode_payload path nonce sender recipient caller body) ≡ ok tt
unfolding validate_payload
validate_payload-encode_payload path nonce sender recipient caller body =
    let raw : Bytes = encode_payload path nonce sender recipient caller body in
    let e : selector_of raw ≡ gmp_v1_selector =
      selector_of-encode_payload path nonce sender recipient caller body in
    let l : ltb (length raw) min_gmp_length ≡ false =
      rw (length-encode_payload path nonce sender recipient caller body) (ground arith) in
    rw (e, l) refl

abi_decode-encode_payload :
    (id path nonce sender recipient caller : ℕ) (body : Bytes)
    → path < word_mod
    → nonce < word_mod
    → sender < word_mod
    → recipient < address_mod
    → caller < address_mod
    → length body < offset_mod
    → abi_decode id (drop 4 (encode_payload path nonce sender recipient caller body))
      ≡ some (record {
        id = id;
        msg_path = path;
        msg_nonce = nonce;
        msg_sender = sender;
        msg_recipient = recipient;
        msg_destination_caller = caller;
        msg_body = body;
      })
unfolding abi_decode read_words
abi_decode-encode_payload id path nonce sender recipient caller body hp hn hs hr hc hb =
    let six : List ℕ = path ∷ nonce ∷ sender ∷ recipient ∷ caller ∷ 32 * 6 ∷ [] in
    let pad : Bytes = replicate (padding (length body)) 0 in
    let rest : Bytes = to_be 32 (length body) ++ (body ++ pad) in
    let fit : AllWords six = (hp, (hn, (hs, (omega arith, (omega arith, (omega arith, tt)))))) in
    let l6 : length (encode_words six) ≡ 32 * 6 = length-encode_words six in
    let short : ltb (length (encode_words six ++ rest)) (32 * 6) ≡ false =
      rw (length-append (encode_words six) rest, l6) (ground arith) in
    let ws : decode_words 6 (encode_words six ++ rest) ≡ six =
      decode_words-encode_words six rest fit in
    let b : decode_bytes (32 * 6) (encode_words six ++ rest) ≡ some body =
      decode_bytes-block (encode_words six) body pad (32 * 6) l6 (omega arith) hb in
    rw
      (
        encode_payload-data path nonce sender recipient caller body,
        short,
        ws,
        read_words,
        b,
        lt→ltb recipient address_mod hr,
        lt→ltb caller address_mod hc,
      )
      refl

-- A message that `encode_payload` writes of words that fit, from a sender and to a recipient that
-- are not zero, with an address as the recipient and as the destination caller and with a body
-- shorter than 2 ^ 64 bytes, is valid, and `decode_and_validate_payload` gives the fields back,
-- with the hash of the message as the id.
pub decode_and_validate_payload-encode_payload :
    (sha256 : Bytes → ℕ) (path nonce sender recipient caller : ℕ) (body : Bytes)
    → path < word_mod
    → nonce < word_mod
    → sender < word_mod
    → sender ≢ 0
    → recipient < address_mod
    → recipient ≢ 0
    → caller < address_mod
    → length body < offset_mod
    → decode_and_validate_payload sha256 (encode_payload path nonce sender recipient caller body)
      ≡ ok (record {
        id = sha256 (encode_payload path nonce sender recipient caller body);
        msg_path = path;
        msg_nonce = nonce;
        msg_sender = sender;
        msg_recipient = recipient;
        msg_destination_caller = caller;
        msg_body = body;
      })
unfolding decode_and_validate_payload
decode_and_validate_payload-encode_payload sha256 path nonce sender recipient caller body hp hn hs
      s0 hr r0 hc hb =
    let raw : Bytes = encode_payload path nonce sender recipient caller body in
    rw
      (
        validate_payload-encode_payload path nonce sender recipient caller body,
        abi_decode-encode_payload (sha256 raw) path nonce sender recipient caller body hp hn hs hr
            hc hb,
      )
      (ground arith)

-- The second word of a message is its nonce.
pub encode_payload-nonce :
    (path nonce sender recipient caller : ℕ) (body : Bytes)
    → nonce < word_mod
    → be_nat 0 (take 32 (drop 36 (encode_payload path nonce sender recipient caller body))) ≡ nonce
unfolding encode_words
encode_payload-nonce path nonce sender recipient caller body h =
    let tail : Bytes = encode_words (sender ∷ recipient ∷ caller ∷ 32 * 6 ∷ []) in
    let rest : Bytes = to_be 32 (length body) ++ (body ++ replicate (padding (length body)) 0) in
    let raw : Bytes = encode_payload path nonce sender recipient caller body in
    let a : drop 36 raw ≡ to_be 32 nonce ++ tail ++ rest =
      drop-drop 4 32 raw
      ∙ (ap (λ t. drop 32 t) (encode_payload-data path nonce sender recipient caller body)
          ∙ ap (λ t. drop 32 t) (append_assoc (to_be 32 path) (to_be 32 nonce ++ tail) rest)
          ∙ drop_block 32 (to_be 32 path) (to_be 32 nonce ++ tail ++ rest)
              (length-to_be 32 path)) in
    let b : to_be 32 nonce ++ tail ++ rest ≡ to_be 32 nonce ++ (tail ++ rest) =
      append_assoc (to_be 32 nonce) tail rest in
    rw (a, b, take_block 32 (to_be 32 nonce) (tail ++ rest) (length-to_be 32 nonce))
      (be_nat-to_be 32 nonce h)
