-- ===== src/Prelude/Words.antt =====
-- The 256-bit words of the EVM: Solidity's checked arithmetic, and big-endian bytes.
use Prim.Native.Nat.{ℕ, zero, suc, ◌+◌, ◌-◌, ◌*◌, ◌/◌, ◌%◌, ◌^◌, ◌<◌}
use mathlib.Core.Path.{◌≡◌, refl, ◌∙◌}
use mathlib.Core.List.{List, [], ◌∷◌, ◌++◌}
use native.Mathlib.Omega.{arith}
use native.Mathlib.Nat.{pow-suc}
use evm_smart_contracts.Prelude.Tests.{ltb, leb, if◌then◌else◌}
use evm_smart_contracts.Prelude.Lists.{length, length-append}
use evm_smart_contracts.Prelude.Results.{Result, ok, err}

-- 2 ^ 256, written out so that no proof has to compute the power.
abbrev pub word_mod : ℕ
word_mod = 0x1_0000_0000_0000_0000_0000_0000_0000_0000_0000_0000_0000_0000_0000_0000_0000_0000

-- Solidity 0.8 reverts with a panic (here `e`) where the exact value does not fit.
abbrev pub checked_add : {E : Type 0} → E → ℕ → ℕ → Result E ℕ
checked_add e a b = if ltb (a + b) word_mod then ok (a + b) else err e

abbrev pub checked_mul : {E : Type 0} → E → ℕ → ℕ → Result E ℕ
checked_mul e a b = if ltb (a * b) word_mod then ok (a * b) else err e

abbrev pub checked_sub : {E : Type 0} → E → ℕ → ℕ → Result E ℕ
checked_sub e a b = if leb b a then ok (a - b) else err e

abbrev pub Bytes : Type 0
Bytes = List ℕ

-- The number that bytes stand for, the most significant first.
unfoldable pub be_nat : ℕ → Bytes → ℕ
be_nat acc [] = acc
be_nat acc (b ∷ bs) = be_nat (acc * 256 + b) bs

-- `k` bytes of a number, the most significant first.
unfoldable pub to_be : ℕ → ℕ → Bytes
to_be zero n = []
to_be (suc k) n = to_be k (n / 256) ++ n % 256 ∷ []

pub length-to_be : (k n : ℕ) → length (to_be k n) ≡ k
unfolding to_be
length-to_be zero n = refl
length-to_be (suc k) n =
    omega (arith, length-append (to_be k (n / 256)) (n % 256 ∷ []), length-to_be k (n / 256))

be_nat-append : (acc : ℕ) (xs : Bytes) (b : ℕ) → be_nat acc (xs ++ b ∷ []) ≡ be_nat acc xs * 256 + b
unfolding be_nat
be_nat-append acc [] b = refl
be_nat-append acc (x ∷ xs) b = be_nat-append (acc * 256 + x) xs b

pub be_nat-to_be : (k n : ℕ) → n < 256 ^ k → be_nat 0 (to_be k n) ≡ n
unfolding to_be be_nat
be_nat-to_be zero n h = omega arith
be_nat-to_be (suc k) n h =
    be_nat-append 0 (to_be k (n / 256)) (n % 256)
    ∙ omega (arith, be_nat-to_be k (n / 256) (omega (arith, pow-suc 256 k)))
