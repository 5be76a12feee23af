-- ===== src/Tasks/Ratio.antt =====
-- tasks/ratio/check.ts: the ratio on the chain against the ledger's. The chain's values are of the
-- type BigInt; the ledger's are whatever its JSON holds.
use evm_smart_contracts.Prelude.{
  ℕ, ◌≡◌, ◌≢◌, ◌<◌, ◌≤◌, ◌↔◌, ◌⊎◌, Bool, true, false, ◌&&◌, not, arith, ltb, leb, ◌==◌,
  if◌then◌else◌, List, [], ◌∷◌, ◌++◌, Text, codes, text_eq, list_includes, Option, none, some,
}

-- A value of the ledger's answer, by how `==`, `<` and `>` compare it with a BigInt: a natural
-- number, or a text of one; a number between `n` and `n + 1`; a negative number, or a text of a
-- negative integer; a number too large for JavaScript, which is infinite; `null`; and what is not
-- read as a number, such as a missing value, which is `undefined`, or a text of no integer.
pub data Json : Type 0 where
  number between : ℕ → Json
  negative infinite null_value unreadable : Json

pub record LedgerRatio : Type 0 where
  pub value : Json
  pub timestamp : Json

-- `n == v`; `null` equals no number.
unfoldable pub loosely_equal : ℕ → Json → Bool
loosely_equal n (number m) = n == m
loosely_equal n _ = false

-- `n < v`; `null` stands for zero.
unfoldable pub is_less : ℕ → Json → Bool
is_less n (number m) = ltb n m
is_less n (between m) = leb n m
is_less n negative = false
is_less n infinite = true
is_less n null_value = ltb n 0
is_less n unreadable = false

-- `n > v`.
unfoldable pub is_greater : ℕ → Json → Bool
is_greater n (number m) = ltb m n
is_greater n (between m) = ltb m n
is_greater n negative = true
is_greater n infinite = false
is_greater n null_value = ltb 0 n
is_greater n unreadable = false

pub data Outcome : Type 0 where
  up_to_date not_updated wrong_ratio wrong_timestamp unexpected : Outcome

-- The `switch` of `getRatio`.
unfoldable pub judge : ℕ → ℕ → LedgerRatio → Outcome
judge ratio ts expected =
    if loosely_equal ts expected.timestamp && loosely_equal ratio expected.value
    then up_to_date
    else if is_less ts expected.timestamp
    then not_updated
    else if loosely_equal ts expected.timestamp && not (loosely_equal ratio expected.value)
    then wrong_ratio
    else if is_greater ts expected.timestamp
    then wrong_timestamp
    else unexpected

-- What the task reads from the chain, and `ethers.isAddress`.
pub record Chain : Type 0 where
  pub is_address : Text → Bool
  pub code : Text → Text
  -- `interface.hasFunction('nextRatio')`
  pub has_next_ratio : Text → Bool
  pub next_ratio : Text → ℕ × ℕ

-- One line of output.
pub data Report : Type 0 where
  expected_ratio : LedgerRatio → Report
  scope_ignored : Text → Report
  no_code : Text → Text → Report
  checking : Text → Text → Report
  ratio_is : ℕ → ℕ → Report
  outcome : Outcome → Report

module _ (c : Chain) (expected : LedgerRatio) where
  -- `getRatio`; a contract's artifact is named after it.
  unfoldable pub get_ratio : Text → Text → List Report
  get_ratio artifact addr =
      let (ratio, ts) = c.next_ratio addr in
      if c.has_next_ratio artifact
      then ratio_is ratio ts ∷ outcome (judge ratio ts expected) ∷ []
      else []

  -- One contract of a scope; only `StakedLBTCOracle` is looked at, whose name holds no underscore.
  unfoldable pub check_contract : Text × Text → List Report
  check_contract (name, addr) =
      if not (list_includes (codes "StakedLBTCOracle" ∷ []) name)
      then []
      else if not (c.is_address addr)
      then []
      else if text_eq (c.code addr) (codes "0x")
      then no_code name addr ∷ []
      else checking name addr ∷ get_ratio name addr

  unfoldable pub check_contracts : List (Text × Text) → List Report
  check_contracts [] = []
  check_contracts (e ∷ es) = check_contract e ++ check_contracts es

  abbrev pub check_section : Text → Option (List (Text × Text)) → List Report
  check_section scope none = scope_ignored scope ∷ []
  check_section scope (some es) = check_contracts es

  unfoldable pub check_scopes : List (Text × Option (List (Text × Text))) → List Report
  check_scopes [] = []
  check_scopes ((scope, contracts) ∷ scopes) =
      (if list_includes (codes "admin" ∷ []) scope then [] else check_section scope contracts)
      ++ check_scopes scopes

  -- `check`, behind the answer of the ledger.
  unfoldable pub check : List (Text × Option (List (Text × Text))) → List Report
  check scopes = expected_ratio expected ∷ check_scopes scopes

-- The time is before, or after, what the ledger's value stands for.
abbrev pub IsBefore : ℕ → Json → Type 0
IsBefore n (number m) = n < m
IsBefore n (between m) = n ≤ m
IsBefore n infinite = Unit
IsBefore n _ = ⊥

abbrev pub IsAfter : ℕ → Json → Type 0
IsAfter n (number m) = m < n
IsAfter n (between m) = m < n
IsAfter n negative = Unit
IsAfter n infinite = ⊥
IsAfter n null_value = 0 < n
IsAfter n unreadable = ⊥

-- No comparison of the time with the value holds.
abbrev pub IsIncomparable : ℕ → Json → Type 0
IsIncomparable n v = (v ≡ unreadable) ⊎ ((v ≡ null_value) × (n ≡ 0))

is_less_iff : (n : ℕ) (v : Json) → (is_less n v ≡ true) ↔ IsBefore n v
unfolding is_less
is_less_iff n (number m) = ground arith
is_less_iff n (between m) = ground arith
is_less_iff n negative = ground arith
is_less_iff n infinite = ground arith
is_less_iff n null_value = ground arith
is_less_iff n unreadable = ground arith

is_greater_iff : (n : ℕ) (v : Json) → (is_greater n v ≡ true) ↔ IsAfter n v
unfolding is_greater
is_greater_iff n (number m) = ground arith
is_greater_iff n (between m) = ground arith
is_greater_iff n negative = ground arith
is_greater_iff n infinite = ground arith
is_greater_iff n null_value = ground arith
is_greater_iff n unreadable = ground arith

loosely_equal_iff : (n : ℕ) (v : Json) → (loosely_equal n v ≡ true) ↔ (v ≡ number n)
unfolding loosely_equal
loosely_equal_iff n (number m) = ground arith
loosely_equal_iff n (between m) = ground arith
loosely_equal_iff n negative = ground arith
loosely_equal_iff n infinite = ground arith
loosely_equal_iff n null_value = ground arith
loosely_equal_iff n unreadable = ground arith

judge_cases :
    (ratio ts : ℕ) (v t : Json)
    → let e : LedgerRatio = record { value = v; timestamp = t } in
      ((judge ratio ts e ≡ up_to_date) ↔ ((t ≡ number ts) × (v ≡ number ratio)))
      × ((judge ratio ts e ≡ not_updated) ↔ IsBefore ts t)
      × ((judge ratio ts e ≡ wrong_ratio) ↔ ((t ≡ number ts) × (v ≢ number ratio)))
      × ((judge ratio ts e ≡ wrong_timestamp) ↔ IsAfter ts t)
      × ((judge ratio ts e ≡ unexpected) ↔ IsIncomparable ts t)
unfolding judge is_less is_greater loosely_equal
judge_cases ratio ts v (number m) = let h = loosely_equal_iff ratio v in ground arith
judge_cases ratio ts v (between m) = ground arith
judge_cases ratio ts v negative = ground arith
judge_cases ratio ts v infinite = ground arith
judge_cases ratio ts v null_value = ground arith
judge_cases ratio ts v unreadable = ground arith

-- The outcome tells exactly how the times and the ratios compare. "Unexpected outcome" happens
-- exactly if the ledger's time is not read as a number, or is `null` while the chain's is zero.
pub judge_exact :
    (ratio ts : ℕ) (expected : LedgerRatio)
    → ((judge ratio ts expected ≡ up_to_date)
        ↔ ((expected.timestamp ≡ number ts) × (expected.value ≡ number ratio)))
      × ((judge ratio ts expected ≡ not_updated) ↔ IsBefore ts expected.timestamp)
      × ((judge ratio ts expected ≡ wrong_ratio)
          ↔ ((expected.timestamp ≡ number ts) × (expected.value ≢ number ratio)))
      × ((judge ratio ts expected ≡ wrong_timestamp) ↔ IsAfter ts expected.timestamp)
      × ((judge ratio ts expected ≡ unexpected) ↔ IsIncomparable ts expected.timestamp)
judge_exact ratio ts expected = judge_cases ratio ts expected.value expected.timestamp
