-- ===== src/Contracts/Abi.antt =====
-- Solidity's `abi.encode` and `abi.decode` of words: each value takes 32 bytes, the most significant
-- first. A dynamic value stands behind the head, at the offset that its word gives.
use evm_smart_contracts.Prelude.{
  ℕ, ◌*◌, ◌<◌, ◌≡◌, refl, List, [], ◌∷◌, ◌++◌, zero, suc, Bytes, length, take, drop, be_nat, to_be,
  word_mod, be_nat-to_be, length-to_be, length-append, take-append_length, append_assoc,
  drop-append_length, arith,
}

-- `abi.encode` of static values.
unfoldable pub encode_words : List ℕ → Bytes
encode_words [] = []
encode_words (w ∷ ws) = to_be 32 w ++ encode_words ws

-- The first `n` words of some bytes.
unfoldable pub decode_words : ℕ → Bytes → List ℕ
decode_words zero bs = []
decode_words (suc n) bs = be_nat 0 (take 32 bs) ∷ decode_words n (drop 32 bs)

-- `bytes4(payload)`: the first four bytes, padded with zeros on the right.
unfoldable pub selector_of : Bytes → ℕ
selector_of bs = be_nat 0 (take 4 (bs ++ 0 ∷ 0 ∷ 0 ∷ 0 ∷ []))

abbrev pub AllWords : List ℕ → Type 0
AllWords [] = Unit
AllWords (w ∷ ws) = (w < word_mod) × AllWords ws

pub length-encode_words : (ws : List ℕ) → length (encode_words ws) ≡ 32 * length ws
unfolding encode_words
length-encode_words [] = refl
length-encode_words (w ∷ ws) =
    omega (
      arith,
      length-append (to_be 32 w) (encode_words ws),
      length-to_be 32 w,
      length-encode_words ws,
    )

-- A block of known length at the front is what `take` and `drop` cut off.
pub take_block : (n : ℕ) (xs ys : Bytes) → length xs ≡ n → take n (xs ++ ys) ≡ xs
take_block n xs ys e = rw (← e) (take-append_length xs ys)

pub drop_block : (n : ℕ) (xs ys : Bytes) → length xs ≡ n → drop n (xs ++ ys) ≡ ys
drop_block n xs ys e = rw (← e) (drop-append_length xs ys)

-- Words that fit are decoded as they were encoded, whatever bytes follow them.
pub decode_words-encode_words :
    (ws : List ℕ) (rest : Bytes)
    → AllWords ws
    → decode_words (length ws) (encode_words ws ++ rest) ≡ ws
unfolding encode_words decode_words
decode_words-encode_words [] rest h = refl
decode_words-encode_words (w ∷ ws) rest h = rw append_assoc (
    simp (
      take_block 32 (to_be 32 w) (encode_words ws ++ rest) (length-to_be 32 w),
      drop_block 32 (to_be 32 w) (encode_words ws ++ rest) (length-to_be 32 w),
      be_nat-to_be 32 w h.0,
      decode_words-encode_words ws rest h.1,
    ))
