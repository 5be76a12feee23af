-- ===== src/Tasks/Signatures.antt =====
-- scripts/update-ratio.ts and scripts/update-valset.ts: the notaries' signatures, from the ASN.1 form
-- in which the ledger gives them to the 64 bytes that the contracts read. Base64 and the ABI
-- encoding of the list are the libraries'. An index out of range reads `undefined`, here `none`.
use evm_smart_contracts.Prelude.{
  ℕ, zero, suc, ◌+◌, ◌-◌, ◌≡◌, refl, Bool, true, false, Option, none, some, List, [], ◌∷◌, ◌++◌,
  Bytes, length, take, drop, replicate, get_elem?, leb, ◌==◌, if◌then◌else◌,
}
pub mod RoundTrip

-- `bytes.slice(from, to)`.
unfoldable pub slice : ℕ → ℕ → Bytes → Bytes
slice from to bs = take (to - from) (drop from bs)

-- `proof.set(bytes, offset)`; a write past the end is a RangeError.
unfoldable pub set_bytes : Bytes → ℕ → Bytes → Option Bytes
set_bytes src offset proof =
    if leb (offset + length src) (length proof)
    then some (take offset proof ++ (src ++ drop (offset + length src) proof))
    else none

-- `proof.set(bytes, limit - size)`, where the difference may be negative.
abbrev pub set_right : Bytes → ℕ → ℕ → Bytes → Option Bytes
set_right src limit size proof = if leb size limit then set_bytes src (limit - size) proof else none

abbrev pub is_zero_byte : Option ℕ → Bool
is_zero_byte none = false
is_zero_byte (some b) = b == 0

-- S stands behind R at `r_end`, with its tag and its length.
unfoldable pub set_s : Bytes → ℕ → Option ℕ → Bytes → Option Bytes
set_s raw r_end none proof = some proof
set_s raw r_end (some s_length) proof =
    set_right (slice (r_end + 2) (r_end + 2 + s_length) raw) 64 s_length proof

abbrev pub then_set : Option Bytes → (Bytes → Option Bytes) → Option Bytes
then_set none f = none
then_set (some proof) f = f proof

abbrev pub set_r_and_s : Bytes → Option ℕ → Option Bytes
set_r_and_s raw none = some (replicate 64 0)
set_r_and_s raw (some r_length) =
    let r_start = (if is_zero_byte (get_elem? raw 4) then 5 else 4) in
    let r_end = 4 + r_length in
    then_set (set_right (slice r_start r_end raw) (32 + r_start) r_end (replicate 64 0))
      λ proof. set_s raw r_end (get_elem? raw (r_end + 1)) proof

-- One signature: R and S without the leading zero of R, each right-aligned in 32 bytes. `rLength`
-- of the source is `r_end - r_start` here.
unfoldable pub to_proof : Bytes → Option Bytes
to_proof raw = set_r_and_s raw (get_elem? raw 3)
