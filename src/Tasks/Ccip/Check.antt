-- ===== src/Tasks/Ccip/Check.antt =====
-- tasks/ccip/check.ts: the task `check`. The file is read already; `target` is the network's name.
use evm_smart_contracts.Prelude.{
  ℕ, Option, none, some, List, [], ◌++◌, Text, if◌then◌else◌, remove, list_includes,
}
use evm_smart_contracts.Tasks.Ccip.{ChainConfig, Registry, empty_registry, scan_chains}
use evm_smart_contracts.Tasks.Ccip.Node.{Node, Report}
use evm_smart_contracts.Tasks.Ccip.Rules.{check_mailbox, check_bridge}
use evm_smart_contracts.Tasks.Ccip.Pools.{check_token_pool}

-- The rules of `RULESET` in their order. They get the selectors of the other chains only.
unfoldable pub run_rules : Node → Text → Registry → List Report
run_rules node target r =
    let others = remove target r.chain_selectors in
    check_mailbox node target r
    ++ (check_bridge node target r others ++ check_token_pool r node target others)

-- `none` is the exception of a chain selector that `BigInt` does not read.
unfoldable pub check :
    (Text → Option ℕ) → Node → Text → List (Text × ChainConfig) → Option (List Report)
check big_int node target addresses = elim (scan_chains big_int addresses empty_registry) [
  | none ↦ none
  | some r ↦ some (if list_includes r.chains target then run_rules node target r else [])
]
