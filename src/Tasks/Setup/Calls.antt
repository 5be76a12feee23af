-- ===== src/Tasks/Setup/Calls.antt =====
-- scripts/setup: the contract calls that the tasks make, and the way in which they make them.
use mathlib.Core.List.{reverse}
use evm_smart_contracts.Prelude.{
  ℕ, Bool, true, false, Option, List, [], ◌∷◌, Text, codes, includes, length, ◌==◌, if◌then◌else◌,
}

pub record UlnConfig : Type 0 where
  pub confirmations : Text
  pub required_dvn_count : Text
  pub optional_dvn_count : Text
  pub optional_dvn_threshold : Text
  pub required_dvns : List Text
  pub optional_dvns : List Text

pub record ExecutorConfig : Type 0 where
  pub max_message_size : Text
  pub executor_address : Text

-- What the tasks take from ethers, from LayerZero's utilities and from deployed contracts.
pub record Env : Type 0 where
  pub is_address : Text → Bool
  -- AbiCoder.defaultAbiCoder().encode([type], [value])
  pub encode_address : Text → Text
  pub encode_uint256 : Text → Text
  pub encode_uint32 : Text → Text
  pub encode_uln_config : UlnConfig → Text
  pub encode_executor_config : ExecutorConfig → Text
  -- Options.newOptions().addExecutorLzReceiveOption(gas, value).toHex()
  pub lz_receive_option : ℕ → ℕ → Text
  -- zeroPadValue(ZeroAddress, 32)
  pub zero_word : Text
  pub bridge_contract_of : Text → Text → Text
  pub allowed_destination_token : Text → Text → Text → Text
  pub destination_bridge : Text → Text → Text
  pub token_pool_of : Text → Text

-- A `SetConfigParam` of the LayerZero endpoint.
pub record ConfigParam : Type 0 where
  pub eid : Text
  pub config_type : ℕ
  pub config : Text

pub record RateLimit : Type 0 where
  pub chain_id : Text
  pub limit : Text
  pub window : Text

pub record RateLimiter : Type 0 where
  pub is_enabled : Bool
  pub capacity : Option Text
  pub rate : Option Text

pub record ChainUpdate : Type 0 where
  pub remote_chain_selector : Text
  pub remote_pool_addresses : List Text
  pub remote_token_address : Text
  pub inbound : RateLimiter
  pub outbound : RateLimiter

-- A call with its arguments, by the method's name.
pub data Call : Type 0 where
  add_destination : Text → Text → Text → Text → Text → Bool → Call
  remove_destination : Text → Call
  set_rate_limits : List RateLimit → List RateLimit → Call
  add_destination_token : Text → Text → Text → Call
  set_destination_bridge : Text → Text → Call
  set_token_rate_limits : Text → RateLimit → Call
  set_route : Text → Text → Text → Text → Text → Call
  change_token_config_ext : Text → Text → Text → Text → Text → Text → Call
  enable_message_path : Text → Text → ℕ → Call
  set_sender_config : Text → Text → Bool → Call
  change_asset_router : Text → Call
  add_minter : Text → Call
  set_config : Text → Text → List ConfigParam → Call
  set_enforced_options : Text → Text → Text → Call
  set_oft_rate_limits : List RateLimit → ℕ → Call
  set_delegate : Text → Call
  set_peer : Text → Text → Call
  transfer_ownership : Text → Call
  apply_chain_updates : List ChainUpdate → Call
  set_remote_chain_selector : Text → Text → Call
  set_path : Text → Text → Text → Text → Call
  set_chain_rate_limiter_config : Text → RateLimiter → RateLimiter → Call
  -- a setter that takes one value, by its name
  set_value : Text → Text → Call
  toggle_withdrawals : Call

pub data Error : Type 0 where
  -- `invalid overrides parameter`, from ethers
  invalid_overrides : Text → Error
  one_direction only_staked_lbtc : Error
  not_an_address : Text → Error
  unexpected_direction : Text → Error
  unexpected_token_type : Text → Error

-- `contract.method(…)`, or `contract.method.populateTransaction(…)` and a line of output.
pub data Effect : Type 0 where
  sent : Text → Call → Effect
  populated : Text → Call → Effect

-- `if (populate) … else …`: the two branches, as each is written.
unfoldable pub emit : Bool → Effect → Effect → Effect
emit populate with_flag without = if populate then with_flag else without

-- `s.split(',')`, with what stands before the next comma in `acc`, last character first.
unfoldable pub split_comma : Text → Text → List Text
split_comma acc [] = reverse acc ∷ []
split_comma acc (c ∷ s) = elim (c == b',') [
  | true ↦ reverse acc ∷ split_comma [] s
  | false ↦ split_comma (c ∷ acc) s
]

module _ (env : Env) where
  -- `chainId.includes('0x') ? chainId : encode(['uint256'], [chainId])`.
  unfoldable pub chain_word : Text → Text
  chain_word chain_id =
      if includes chain_id (codes "0x") then chain_id else env.encode_uint256 chain_id

  -- `a.length != 42 ? a : encode(['address'], [a])`.
  unfoldable pub address_word : Text → Text
  address_word a = if length a == 42 then env.encode_address a else a
