-- ===== src/Tasks/Signatures/RoundTrip.antt =====
-- scripts/update-ratio.ts and scripts/update-valset.ts: the 64 bytes hold R and S.
use evm_smart_contracts.Prelude.{
  ℕ, suc, ◌+◌, ◌-◌, ◌≤◌, ◌≡◌, ◌≢◌, refl, true, some, [], ◌∷◌, ◌++◌, Bytes, length, take, drop,
  replicate, get_elem?, leb, ◌==◌, if◌then◌else◌, arith, length-append, length-replicate,
  take-append_add, drop-append_add, take-length, take-append_length, take-replicate,
  get_elem?-append_length, append_assoc, append-nil, drop_all, ◌∙◌, sym, Bool-cases, inl, inr,
}
use mathlib.Core.Path.{subst}
use evm_smart_contracts.Tasks.Signatures.{
  slice, set_bytes, set_right, then_set, set_s, to_proof, set_r_and_s,
}

-- The ASN.1 form of a signature: two integers, each behind its tag and its length.
abbrev pub to_asn1 : ℕ → Bytes → Bytes → Bytes
to_asn1 total r s = 0x30 ∷ total ∷ 2 ∷ length r ∷ (r ++ 2 ∷ length s ∷ s)

-- A number without the zero byte that keeps it positive.
abbrev pub without_sign : Bytes → Bytes
without_sign [] = []
without_sign (b ∷ bs) = if b == 0 then bs else b ∷ bs

-- Bytes at the right end of 32.
abbrev pub align : Bytes → Bytes
align bs = replicate (32 - length bs) 0 ++ bs

-- A write that ends where the bytes end.
set_at_end :
    (a z src : Bytes)
    → length a ≡ 32
    → length z ≡ 32
    → length src ≤ 32
    → set_bytes src (64 - length src) (a ++ z) ≡ some (a ++ (take (32 - length src) z ++ src))
unfolding set_bytes
set_at_end a z src ea ez h =
    let total : 64 - length src + length src ≡ length a + 32 = omega arith in
    let fits : leb (length a + 32) (length (a ++ z)) ≡ true = ground (arith, length-append a z) in
    let start : 64 - length src ≡ length a + (32 - length src) = omega arith in
    rw (total, fits, start, take-append_add a z (32 - length src), drop-append_add a z 32)
      (rw (drop_all 32 z (omega arith), append-nil, append_assoc) refl)

-- A write into the first 32 bytes that ends there.
set_in_middle :
    (z src : Bytes)
    → length z ≡ 64
    → length src ≤ 32
    → set_bytes src (32 - length src) z ≡ some ((take (32 - length src) z ++ src) ++ drop 32 z)
unfolding set_bytes
set_in_middle z src ez h =
    let total : 32 - length src + length src ≡ 32 = omega arith in
    let fits : leb 32 (length z) ≡ true = ground arith in rw (total, fits) (rw append_assoc refl)

take_zeros : (n k : ℕ) → k ≤ n → take k (replicate {A = ℕ} n 0) ≡ replicate k 0
take_zeros n k h = take-replicate k n 0 h

-- R in the first half, the second half still blank.
set_r_lem :
    (x : Bytes)
    → length x ≤ 32
    → set_bytes x (32 - length x) (replicate 64 0) ≡ some (align x ++ replicate 32 0)
set_r_lem x h =
    set_in_middle (replicate 64 0) x refl h ∙ rw (take_zeros 64 (32 - length x) (omega arith)) refl

length-align : (x : Bytes) → length x ≤ 32 → length (align x) ≡ 32
length-align x h = omega (
  arith,
  length-append (replicate {A = ℕ} (32 - length x) 0) x,
  length-replicate {A = ℕ} (32 - length x) 0,
)

-- S in the second half.
set_s_lem :
    (a s : Bytes)
    → length a ≡ 32
    → length s ≤ 32
    → set_bytes s (64 - length s) (a ++ replicate 32 0) ≡ some (a ++ align s)
set_s_lem a s e h =
    set_at_end a (replicate 32 0) s e refl h ∙ rw (take_zeros 32 (32 - length s) (omega arith)) refl

-- What is read behind a block of the input: the length of S, and S.
nth_behind : (x : Bytes) (ls : ℕ) (s : Bytes) → get_elem? (x ++ 2 ∷ ls ∷ s) (length x + 1) ≡ some ls
nth_behind x ls s = get_elem?-append_length x (2 ∷ ls ∷ s) 1

drop_behind : (x : Bytes) (ls : ℕ) (s : Bytes) → drop (length x + 2) (x ++ 2 ∷ ls ∷ s) ≡ s
drop_behind x ls s = drop-append_add x (2 ∷ ls ∷ s) 2

-- Where R stands in the input: behind four or five bytes, of which the fifth is not read.
get_elem?-head :
    (h x : Bytes) (ls : ℕ) (s : Bytes) (n : ℕ)
    → length h + length x ≡ n
    → get_elem? (h ++ (x ++ 2 ∷ ls ∷ s)) (n + 1) ≡ some ls
get_elem?-head h x ls s n e =
    let k : n + 1 ≡ length h + (length x + 1) = omega arith in
    rw (k, get_elem?-append_length h (x ++ 2 ∷ ls ∷ s) (length x + 1)) (nth_behind x ls s)

slice-head :
    (h x : Bytes) (ls : ℕ) (s : Bytes) (n : ℕ)
    → length h + length x ≡ n
    → slice (n + 2) (n + 2 + length s) (h ++ (x ++ 2 ∷ ls ∷ s)) ≡ s
unfolding slice
slice-head h x ls s n e =
    let k : n + 2 ≡ length h + (length x + 2) = omega arith in
    let d : n + 2 + length s - (n + 2) ≡ length s = omega arith in
    rw (d, k, drop-append_add h (x ++ 2 ∷ ls ∷ s) (length x + 2), drop_behind x ls s)
      (take-length s)

slice-r : (h x y : Bytes) (n : ℕ) → length h + length x ≡ n → slice (length h) n (h ++ (x ++ y)) ≡ x
unfolding slice
slice-r h x y n e =
    let d : n - length h ≡ length x = omega arith in
    let k : length h ≡ length h + 0 = omega arith in
    rw d (
      subst (λ m. take (length x) (drop m (h ++ (x ++ y))) ≡ x) (sym k)
        (rw (drop-append_add h (x ++ y) 0) (take-append_length x y)))

-- The two writes, for R behind `h`.
set_both :
    (h x s : Bytes) (n : ℕ)
    → length h + length x ≡ n
    → length x ≤ 32
    → length s ≤ 32
    → let raw : Bytes = h ++ (x ++ 2 ∷ length s ∷ s) in
      then_set
        (set_right (slice (length h) n raw) (32 + length h) n (replicate 64 0))
        (λ proof. set_s raw n (get_elem? raw (n + 1)) proof)
      ≡ some (align x ++ align s)
unfolding set_s
set_both h x s n e hx hs =
    let raw : Bytes = h ++ (x ++ 2 ∷ length s ∷ s) in
    let fits : leb n (32 + length h) ≡ true = ground arith in
    let at : 32 + length h - n ≡ 32 - length x = omega arith in
    let fits' : leb (length s) 64 ≡ true = ground arith in
    rw (slice-r h x (2 ∷ length s ∷ s) n e, fits, at)
      (rw (set_r_lem x hx) (
        rw (get_elem?-head h x (length s) s n e) (
          rw (slice-head h x (length s) s n e, fits')
            (set_s_lem (align x) s (length-align x hx) hs))))

-- From the ASN.1 form of a signature the script makes 64 bytes: R without the zero byte that keeps
-- it positive in the first half, and S in the second, each right-aligned behind zeros. R has one
-- byte at least, and neither number, R without its zero byte, has more than 32.
pub to_proof-to_asn1 :
    (total : ℕ) (r s : Bytes)
    → r ≢ []
    → length (without_sign r) ≤ 32
    → length s ≤ 32
    → to_proof (to_asn1 total r s) ≡ some (align (without_sign r) ++ align s)
unfolding to_proof
to_proof-to_asn1 total [] s ne hr hs = absurd (ne refl)
to_proof-to_asn1 total (b ∷ r) s ne hr hs = elim (Bool-cases (b == 0)) [
  | inl zero_byte ↦
      rw (zero_byte, set_r_and_s)
        (set_both (0x30 ∷ total ∷ 2 ∷ suc (length r) ∷ b ∷ []) r s (4 + suc (length r))
          (omega arith) (ground arith) hs)
  | inr other ↦
      rw (other, set_r_and_s)
        (set_both (0x30 ∷ total ∷ 2 ∷ suc (length r) ∷ []) (b ∷ r) s (4 + suc (length r))
          (omega arith) (ground arith) hs)
]
