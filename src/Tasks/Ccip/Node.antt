-- ===== src/Tasks/Ccip/Node.antt =====
-- What the rules of tasks/ccip/check.ts read from the chain, and what they print.
-- The reads are calls of deployed contracts over RPC, so they are fields of a record; a call that
-- fails ends the task with its exception, and is not modelled.
use evm_smart_contracts.Prelude.{ℕ, Bool, Option, List, Text}

-- `getSenderConfigWithDefault` of the mailbox.
pub record MailboxConfig : Type 0 where
  pub max_payload_size : ℕ
  pub fee_disabled : Bool

-- `getSenderConfig` of the bridge.
pub record PoolConfig : Type 0 where
  pub whitelisted : Bool
  pub fee_discount : ℕ

pub record RateState : Type 0 where
  pub is_enabled : Bool
  pub capacity : ℕ
  pub rate : ℕ

pub record Node : Type 0 where
  -- `contract.interface.hasFunction(name)`, by the artifact's name
  pub has_function : Text → Text → Bool
  pub mailbox_config : Text → Text → MailboxConfig
  pub pool_config : Text → Text → PoolConfig
  pub destination_bridge : Text → Text → Text
  -- `amountCanBeSent` of `getTokenRateLimit`
  pub can_be_sent : Text → Text → Text → ℕ
  pub pool_token : Text → Text
  pub pool_bridge : Text → Text
  pub pool_rmn : Text → Text
  pub pool_router : Text → Text
  pub supported_chains : Text → List ℕ
  pub remote_pools : Text → ℕ → List Text
  pub remote_token : Text → ℕ → Text
  pub inbound : Text → ℕ → RateState
  pub outbound : Text → ℕ → RateState

-- One call of `console.log`; the sign that begins the line is its `level`.
pub data Report : Type 0 where
  mailbox_absent bridge_absent pools_absent : Report
  payload_too_small : ℕ → Report
  fee_not_disabled : Report
  sender_config : Text → Text → MailboxConfig → Report
  checking_bridge : Text → Report
  not_whitelisted : Text → Report
  unexpected_discount : Text → Report
  wrong_destination : Text → Option Text → Text → Report
  rate_limit_unset : Text → Text → Report
  rate_limit : Text → Text → ℕ → Report
  checking_pool : Text → Report
  missing_function : Text → Report
  wrong_token : Text → Report
  wrong_bridge : Text → Report
  wrong_rmn : Text → Report
  wrong_router : Text → Report
  unexpected_selector : ℕ → Report
  unknown_selector : ℕ → Report
  not_configured : Text → Report
  no_remote_token : Text → Report
  unexpected_token : Text → Text → Text → Report
  unexpected_pool_count : ℕ → Text → Report
  unexpected_pool : Text → Text → Report
  rate_config : Text → Text → RateState → RateState → Report

pub data Level : Type 0 where
  info warning error : Level

unfoldable pub level : Report → Level
level mailbox_absent = warning
level bridge_absent = warning
level pools_absent = warning
level (payload_too_small _) = error
level fee_not_disabled = error
level (sender_config _ _ _) = info
level (checking_bridge _) = info
level (not_whitelisted _) = error
level (unexpected_discount _) = warning
level (wrong_destination _ _ _) = error
level (rate_limit_unset _ _) = error
level (rate_limit _ _ _) = info
level (checking_pool _) = info
level (missing_function _) = error
level (wrong_token _) = error
level (wrong_bridge _) = error
level (wrong_rmn _) = error
level (wrong_router _) = error
level (unexpected_selector _) = warning
level (unknown_selector _) = warning
level (not_configured _) = warning
level (no_remote_token _) = error
level (unexpected_token _ _ _) = error
level (unexpected_pool_count _ _) = error
level (unexpected_pool _ _) = error
level (rate_config _ _ _ _) = info
