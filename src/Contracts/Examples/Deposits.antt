-- ===== src/Contracts/Examples/Deposits.antt =====
-- contracts/bascule/BasculeV3.sol on a report and a withdrawal.
use evm_smart_contracts.Prelude.{
  ℕ, ◌+◌, ◌≤◌, ◌<◌, ◌≡◌, ◌≢◌, refl, Bool, false, Option, none, some, List, [], ◌∷◌, ◌++◌, Text,
  length, Bytes, ok, err, ◌==◌, ◌&&◌, ◌||◌, not, update, arith, All,
}
use evm_smart_contracts.Contracts.Context.{Guards, IsLawful}
use evm_smart_contracts.Contracts.Bascule.{
  unreported, reported, withdrawn, unauthorized_account, Event, withdrawal_validated, Storage,
  construct, update_validate_threshold, validate_withdrawal, report_deposits, report_loop,
  deposits_reported, validate_threshold_updated, check_proof,
}
use evm_smart_contracts.Contracts.Bascule.Reports.{
  IsReport, report_deposits-IsReport, update_validate_threshold_again,
}
use evm_smart_contracts.Contracts.Bascule.Withdrawals.{
  spent, withdrawals, report, withdraw, Steps, here, next, Steps-withdrawals,
}

-- The holders of the roles as a function, and no pause.
abbrev pub guards : Guards
guards = record {
  Access = ℕ → ℕ → Bool;
  initial = λ admin role account. role == 0 && account == admin;
  grant_role = λ a role account r b. (r == role && b == account) || a r b;
  has_role = λ a role account. a role account;
  renounce_role = λ a role account r b. not (r == role && b == account) && a r b;
  is_paused = λ a. false;
  pause = λ a. none;
  unpause = λ a. none;
}

guards-IsLawful : IsLawful guards
guards-IsLawful = record { has_role-renounce_self = λ a role account. ground arith }

-- The length of a name tells the roles apart.
abbrev keccak256 : Text → ℕ
keccak256 name = length name

abbrev try_recover : ℕ → Bytes → Option ℕ
try_recover id proof = some (length proof)

abbrev empty : Storage guards
empty = construct guards keccak256 1 2 3 4 10 2

-- Account 5 is a guardian too.
abbrev start : Storage guards
start = record empty { access = guards.grant_role empty.access 24 5 }

abbrev after_report : Storage guards
after_report = record start { deposit_history = update start.deposit_history 70 reported }

abbrev after_withdrawal : Storage guards
after_withdrawal = record after_report {
  deposit_history = update after_report.deposit_history 70 withdrawn;
}

report_one :
    report_deposits guards keccak256 try_recover 3 8 (70 ∷ []) ((1 ∷ 1 ∷ []) ∷ []) start
    ≡ ok (after_report, deposits_reported 8 1 ∷ [])
unfolding report_deposits report_loop check_proof construct
report_one = refl

withdraw_one :
    validate_withdrawal guards keccak256 4 70 500 after_report
    ≡ ok (after_withdrawal, withdrawal_validated 70 500 ∷ [])
unfolding validate_withdrawal construct
withdraw_one = refl

report_deposits-IsReport_example :
    All (λ id. after_report.deposit_history id ≢ unreported) (70 ∷ [])
    × IsReport guards keccak256 try_recover 70 start after_report
report_deposits-IsReport_example =
    report_deposits-IsReport guards keccak256 try_recover 3 8 (70 ∷ []) ((1 ∷ 1 ∷ []) ∷ []) start 70
      report_one

abbrev events : List Event
events = ([] ++ deposits_reported 8 1 ∷ []) ++ withdrawal_validated 70 500 ∷ []

steps : Steps guards keccak256 try_recover start events after_withdrawal
steps =
    next (next here (report 3 8 (70 ∷ []) ((1 ∷ 1 ∷ []) ∷ []) report_one))
      (withdraw 4 70 500 withdraw_one)

Steps-withdrawals_example :
    (spent (start.deposit_history 70) + withdrawals 70 events
      ≡ spent (after_withdrawal.deposit_history 70))
    × (withdrawals 70 events ≤ 1)
Steps-withdrawals_example = Steps-withdrawals guards keccak256 try_recover 70 steps

abbrev raised : Storage guards
raised = record start { access = guards.renounce_role start.access 24 5; validate_threshold = 600 }

start_below : start.validate_threshold < 600
unfolding construct
start_below = omega arith

raise_one :
    update_validate_threshold guards keccak256 5 600 start
    ≡ ok (raised, validate_threshold_updated 0 600 ∷ [])
unfolding update_validate_threshold construct
raise_one = refl

update_validate_threshold_again_example :
    (raised.validate_threshold ≡ 600)
    × (update_validate_threshold guards keccak256 5 601 raised ≡ err (unauthorized_account 5 24))
update_validate_threshold_again_example =
    update_validate_threshold_again guards keccak256 guards-IsLawful 5 600 601 start start_below
      raise_one refl (omega arith)
