-- ===== src/Tasks/Setup/Pools.antt =====
-- scripts/setup/chainlink.ts: the token pools of CCIP.
use evm_smart_contracts.Prelude.{
  Bool, false, ◌&&◌, not, Option, none, some, List, [], ◌∷◌, ◌++◌, Text, codes, is_missing,
  if◌then◌else◌, Result, ok,
}
use evm_smart_contracts.Tasks.Setup.Calls.{
  Env, Effect, Error, RateLimiter, ChainUpdate, emit, populated, sent, chain_word, address_word,
  apply_chain_updates, set_remote_chain_selector, set_path, set_chain_rate_limiter_config,
}

-- The string that a parameter holds; only asked where it is not missing.
abbrev pub value_of : Option Text → Text
value_of none = []
value_of (some t) = t

-- All the parameters are given.
abbrev pub given : Option Text → Bool
given t = not (is_missing t)

abbrev pub disabled_limiter : RateLimiter
disabled_limiter = record {
  is_enabled = false;
  capacity = some (codes "0");
  rate = some (codes "0");
}

module _ (env : Env) (populate : Bool) where
  -- The update for one remote chain, with the rate limits switched off.
  unfoldable pub chain_update : Text → Text → Text → ChainUpdate
  chain_update selector pool token = record {
    remote_chain_selector = selector;
    remote_pool_addresses = address_word env pool ∷ [];
    remote_token_address = address_word env token;
    inbound = disabled_limiter;
    outbound = disabled_limiter;
  }

  -- The first half of both tasks.
  unfoldable pub update_pool : Text → Option Text → Option Text → Option Text → List Effect
  update_pool pool selector remote_pool remote_token =
      if given selector && (given remote_pool && given remote_token)
      then emit populate
          (populated pool (
            apply_chain_updates (
              chain_update (value_of selector) (value_of remote_pool) (value_of remote_token)
              ∷ [])))
          (sent pool (
            apply_chain_updates (
              chain_update (value_of selector) (value_of remote_pool) (value_of remote_token)
              ∷ [])))
        ∷ []
      else []

  -- setup-token-pool; the pool is the adapter's.
  unfoldable pub setup_token_pool :
      Text → Option Text → Option Text → Option Text → Option Text → Result Error (List Effect)
  setup_token_pool cl_adapter lbtc selector chain remote_pool = ok (
      update_pool (env.token_pool_of cl_adapter) selector remote_pool lbtc
      ++ (if given chain && given selector
          then emit populate
              (populated cl_adapter
                (set_remote_chain_selector (chain_word env (value_of chain)) (value_of selector)))
              (sent cl_adapter
                (set_remote_chain_selector (chain_word env (value_of chain)) (value_of selector)))
            ∷ []
          else []))

  -- setup-token-pool-v2.
  unfoldable pub setup_token_pool_v2 :
      Text
      → Text
      → Option Text
      → Option Text
      → Option Text
      → Option Text
      → Result Error (List Effect)
  setup_token_pool_v2 token_pool adapter remote_token selector remote_chain remote_pool = ok (
      update_pool token_pool selector remote_pool remote_token
      ++ (if given remote_chain && (given selector && given remote_pool)
          then emit populate
              (populated token_pool (
                set_path (value_of selector) (chain_word env (value_of remote_chain))
                  (address_word env (value_of remote_pool)) (address_word env adapter)))
              (sent token_pool (
                set_path (value_of selector) (chain_word env (value_of remote_chain))
                  (address_word env (value_of remote_pool)) (address_word env adapter)))
            ∷ []
          else []))

  abbrev pub limiter : Option Text → Option Text → RateLimiter
  limiter rate cap = record { is_enabled = given rate && given cap; capacity = cap; rate = rate }

  -- setup-ccip-apply-updates: the outbound limiter stands first.
  unfoldable pub setup_ccip_apply_updates :
      Text
      → Text
      → Option Text
      → Option Text
      → Option Text
      → Option Text
      → Result Error (List Effect)
  setup_ccip_apply_updates cl_adapter selector in_rate in_cap out_rate out_cap = ok (
      emit populate
        (populated (env.token_pool_of cl_adapter) (
          set_chain_rate_limiter_config selector (limiter out_rate out_cap)
            (limiter in_rate in_cap)))
        (sent (env.token_pool_of cl_adapter) (
          set_chain_rate_limiter_config selector (limiter out_rate out_cap)
            (limiter in_rate in_cap)))
      ∷ [])
