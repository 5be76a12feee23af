-- ===== src/Tasks/Setup/Modes.antt =====
-- scripts/setup: the tasks with a flag `populate`, with it and without it.
use evm_smart_contracts.Prelude.{
  ◌≡◌, refl, ap, Bool, true, false, Option, List, [], ◌∷◌, ◌++◌, map, Text, if◌then◌else◌, Result,
  ok, err, arith,
}
use evm_smart_contracts.Tasks.Setup.Calls.{Env, Call, Effect, Error, sent, populated, emit}
use evm_smart_contracts.Tasks.Setup.Chains.{
  setup_add_destination, setup_bridge_rate_limits, setup_destination_token,
  setup_destination_bridge, setup_token_rate_limits, asset_router_set_route,
  asset_router_set_token_config_ext, mailbox_enable_path, mailbox_set_config,
}
use evm_smart_contracts.Tasks.Setup.Oft.{
  EndpointArgs, setup_endpoint_config, setup_oft_enforced_options, setup_oft_rate_limits,
  setup_oft_set_peer,
}
use evm_smart_contracts.Tasks.Setup.Pools.{
  setup_token_pool, setup_token_pool_v2, setup_ccip_apply_updates, update_pool, chain_update,
}
use evm_smart_contracts.Tasks.Setup.Tokens.{
  Setter, token_set_asset_router, token_add_minter, setup_value, setup_toggle_withdrawals,
}

-- A task and its parameters, in the order of its function.
pub data Task : Type 0 where
  add_destination : Text → Text → Text → Text → Text → Text → Bool → Task
  bridge_rate_limits : Text → Text → Text → Text → Task
  destination_token : Text → Text → Text → Text → Task
  destination_bridge : Text → Text → Text → Task
  token_rate_limits : Text → Text → Text → Text → Text → Task
  set_route : Text → Text → Text → Text → Text → Text → Task
  set_token_config_ext : Text → Text → Text → Text → Text → Text → Text → Task
  enable_path : Text → Text → Text → Text → Task
  set_mailbox_config : Text → Text → Text → Bool → Task
  endpoint_config : EndpointArgs → Task
  enforced_options : Text → Text → Text → Text → Task
  oft_rate_limits : Text → Text → Text → Text → Bool → Bool → Task
  oft_set_peer : Text → Text → Text → Task
  token_pool : Text → Option Text → Option Text → Option Text → Option Text → Task
  token_pool_v2 : Text → Text → Option Text → Option Text → Option Text → Option Text → Task
  ccip_apply_updates : Text → Text → Option Text → Option Text → Option Text → Option Text → Task
  asset_router : Text → Text → Text → Task
  minter : Text → Text → Text → Task
  value : Setter → Text → Text → Task
  toggle : Text → Task

unfoldable pub run : Env → Bool → Task → Result Error (List Effect)
run env populate (add_destination a b c d e f g) = setup_add_destination env populate a b c d e f g
run env populate (bridge_rate_limits a b c d) = setup_bridge_rate_limits env populate a b c d
run env populate (destination_token a b c d) = setup_destination_token env populate a b c d
run env populate (destination_bridge a b c) = setup_destination_bridge env populate a b c
run env populate (token_rate_limits a b c d e) = setup_token_rate_limits env populate a b c d e
run env populate (set_route a b c d e f) = asset_router_set_route env populate a b c d e f
run env populate (set_token_config_ext a b c d e f g) =
    asset_router_set_token_config_ext env populate a b c d e f g
run env populate (enable_path a b c d) = mailbox_enable_path env populate a b c d
run env populate (set_mailbox_config a b c d) = mailbox_set_config env populate a b c d
run env populate (endpoint_config a) = setup_endpoint_config env populate a
run env populate (enforced_options a b c d) = setup_oft_enforced_options env populate a b c d
run env populate (oft_rate_limits a b c d e f) = setup_oft_rate_limits env populate a b c d e f
run env populate (oft_set_peer a b c) = setup_oft_set_peer env populate a b c
run env populate (token_pool a b c d e) = setup_token_pool env populate a b c d e
run env populate (token_pool_v2 a b c d e f) = setup_token_pool_v2 env populate a b c d e f
run env populate (ccip_apply_updates a b c d e f) =
    setup_ccip_apply_updates env populate a b c d e f
run env populate (asset_router a b c) = token_set_asset_router populate a b c
run env populate (minter a b c) = token_add_minter populate a b c
run env populate (value a b c) = setup_value populate a b c
run env populate (toggle a) = setup_toggle_withdrawals populate a

-- The same effect, printed and not sent.
abbrev pub as_populated : Effect → Effect
as_populated (sent target call) = populated target call
as_populated (populated target call) = populated target call

abbrev pub all_populated : Result Error (List Effect) → Result Error (List Effect)
all_populated (ok es) = ok (map as_populated es)
all_populated (err e) = err e

-- Two calls, each made under a condition.
two_populated :
    (b c : Bool) (p q : Text) (x y : Call)
    → (if b then populated p x ∷ [] else []) ++ (if c then populated q y ∷ [] else [])
      ≡ map as_populated ((if b then sent p x ∷ [] else []) ++ (if c then sent q y ∷ [] else []))
two_populated true true p q x y = refl
two_populated true false p q x y = refl
two_populated false true p q x y = refl
two_populated false false p q x y = refl

-- With `populate` every task prints and does not send, in the same order, exactly the calls that
-- it sends without it; it fails with the same error where it fails without it.
pub run-populate : (env : Env) (t : Task) → run env true t ≡ all_populated (run env false t)
unfolding run emit setup_add_destination setup_bridge_rate_limits setup_destination_token
    setup_destination_bridge setup_token_rate_limits asset_router_set_route
    asset_router_set_token_config_ext mailbox_enable_path mailbox_set_config setup_endpoint_config
    setup_oft_enforced_options setup_oft_rate_limits setup_oft_set_peer setup_token_pool
    setup_token_pool_v2 setup_ccip_apply_updates token_set_asset_router token_add_minter setup_value
    setup_toggle_withdrawals update_pool chain_update
run-populate env (add_destination a b c d e f g) = ground arith
run-populate env (bridge_rate_limits a b c d) = ground arith
run-populate env (destination_token a b c d) = ground arith
run-populate env (destination_bridge a b c) = ground arith
run-populate env (token_rate_limits a b c d e) = ground arith
run-populate env (set_route a b c d e f) = ground arith
run-populate env (set_token_config_ext a b c d e f g) = ground arith
run-populate env (enable_path a b c d) = ground arith
run-populate env (set_mailbox_config a b c d) = ground arith
run-populate env (endpoint_config a) = ground arith
run-populate env (enforced_options a b c d) = ground arith
run-populate env (oft_rate_limits a b c d e f) = ground arith
run-populate env (oft_set_peer a b c) = ground arith
run-populate env (token_pool a b c d e) = ap ok (two_populated _ _ _ _ _ _)
run-populate env (token_pool_v2 a b c d e f) = ap ok (two_populated _ _ _ _ _ _)
run-populate env (ccip_apply_updates a b c d e f) = ground arith
run-populate env (asset_router a b c) = ground arith
run-populate env (minter a b c) = ground arith
run-populate env (value a b c) = ground arith
run-populate env (toggle a) = ground arith
