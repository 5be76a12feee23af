-- ===== src/Tasks/Setup.antt =====
-- scripts/setup: the tasks that configure deployed contracts. Each calls one contract, or prints
-- the transaction for another account to send.
-- A parameter is a string, a flag a Boolean; an optional parameter that is left out, or empty, is
-- missing. The ABI encodings, `isAddress`, LayerZero's option builder and the reads of deployed
-- contracts are fields of `Env`.
use evm_smart_contracts.Prelude.{
  ℕ, ◌≡◌, refl, Bool, true, false, ◌||◌, ◌&&◌, not, Option, none, some, List, [], ◌∷◌, ◌++◌, Text,
  codes, text_eq, includes, is_missing, to_lower_case, length, map, ◌==◌, if◌then◌else◌, Result, ok,
  err, ◌>>=◌, ◌>>◌, guard,
}
pub mod Calls
pub mod Chains
pub mod Oft
pub mod Pools
pub mod Tokens
pub mod Modes
