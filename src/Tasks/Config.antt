-- ===== src/Tasks/Config.antt =====
-- hardhat.config.ts: the networks that the tasks run on, and the explorers that verify contracts.
-- A variable of the environment is its name; the deployer's key is named, not held.
use evm_smart_contracts.Prelude.{ℕ, Option, none, some, List, [], ◌∷◌, Text, text_eq, if◌then◌else◌}
pub mod Testnets
pub mod Mainnets
pub mod Networks
pub mod Explorers
pub mod Ids

-- `vars.get` of the key of the deployer, or of the one for test networks.
pub data Account : Type 0 where
  testnet_deployer deployer : Account

-- `gas_multiplier` is in tenths.
pub record Network : Type 0 where
  pub name : Text
  pub rpc_variable : Text
  pub rpc_default : Text
  pub chain_id : ℕ
  pub account : Account
  pub gas : Option ℕ
  pub gas_multiplier : Option ℕ
  pub gas_price : Option ℕ
  pub timeout : ℕ

-- An entry of `customChains`.
pub record CustomChain : Type 0 where
  pub network : Text
  pub chain_id : ℕ
  pub api_url : Text
  pub browser_url : Text

-- `vars.get(name, '')`, or a text.
pub data ApiKey : Type 0 where
  variable literal : Text → ApiKey

-- `config.networks[name]`.
unfoldable pub find_network : Text → List Network → Option Network
find_network name [] = none
find_network name (network ∷ rest) =
    if text_eq network.name name then some network else find_network name rest
