-- ===== src/Contracts/Examples/Outputs.antt =====
-- contracts/consortium/DepositNotarizationBlacklist.sol on a few calls.
use evm_smart_contracts.Prelude.{
  ℕ, ◌≡◌, ◌↔◌, refl, Bool, false, some, List, [], ◌∷◌, Text, length, ok,
}
use evm_smart_contracts.Contracts.Blacklist.{
  blacklisted, cleared, Storage, initialize, is_blacklisted, add_to_blacklist,
  remove_from_blacklist, add_outputs, remove_outputs,
}
use evm_smart_contracts.Contracts.Blacklist.Events.{read_events}
use evm_smart_contracts.Contracts.Blacklist.Calls.{
  Call, access_changed, add, remove, execute, run, read_events-run,
}
use evm_smart_contracts.Contracts.Blacklist.Exact.{CanAdd, CanRemove, added, removed, change_exact}
use evm_smart_contracts.Contracts.Examples.Deposits.{guards}

-- The length of a name tells the roles apart.
abbrev keccak256 : Text → ℕ
keccak256 name = length name

abbrev no_roles : ℕ → ℕ → Bool
no_roles role account = false

abbrev start : Storage guards
start = initialize guards no_roles 1

-- Account 5 adds and removes. The second addition reverts, as output 2 is listed, and so does the
-- removal by account 6.
abbrev calls : List (Call guards)
calls =
    access_changed (guards.grant_role (guards.grant_role start.access 18 5) 21 5)
    ∷ add 5 77 (0 ∷ 2 ∷ [])
    ∷ add 5 77 (1 ∷ 2 ∷ [])
    ∷ remove 5 77 (2 ∷ [])
    ∷ remove 6 77 (0 ∷ [])
    ∷ []

calls_events :
    (run guards keccak256 calls start).1
    ≡ blacklisted 77 0 5 ∷ blacklisted 77 2 5 ∷ cleared 77 2 5 ∷ []
unfolding run execute add_to_blacklist remove_from_blacklist add_outputs remove_outputs initialize
calls_events = refl

read_events-run_example :
    read_events 77 2 (run guards keccak256 calls start).1 (is_blacklisted guards 77 2 start)
    ≡ some (is_blacklisted guards 77 2 (run guards keccak256 calls start).0)
read_events-run_example = read_events-run guards keccak256 calls start 77 2

abbrev granted : Storage guards
granted = record start { access = guards.grant_role start.access 18 5 }

change_exact_example :
    ((add_to_blacklist guards keccak256 5 77 (0 ∷ 2 ∷ []) granted
        ≡ ok (added guards 5 77 (0 ∷ 2 ∷ []) granted))
      ↔ (CanAdd guards keccak256 5 77 (0 ∷ 2 ∷ []) granted
          × (added guards 5 77 (0 ∷ 2 ∷ []) granted ≡ added guards 5 77 (0 ∷ 2 ∷ []) granted)))
    × ((remove_from_blacklist guards keccak256 5 77 (0 ∷ 2 ∷ []) granted
          ≡ ok (added guards 5 77 (0 ∷ 2 ∷ []) granted))
        ↔ (CanRemove guards keccak256 5 77 (0 ∷ 2 ∷ []) granted
            × (removed guards 5 77 (0 ∷ 2 ∷ []) granted ≡ added guards 5 77 (0 ∷ 2 ∷ []) granted)))
change_exact_example =
    change_exact guards keccak256 5 77 (0 ∷ 2 ∷ []) granted (added guards 5 77 (0 ∷ 2 ∷ []) granted)
