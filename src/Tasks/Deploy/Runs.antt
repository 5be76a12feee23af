-- ===== src/Tasks/Deploy/Runs.antt =====
-- scripts/deployments: the tasks with their parameters, and what each of them does.
use evm_smart_contracts.Prelude.{ℕ, Bool, Option, none, some, List, [], Text, Result, ok}
use evm_smart_contracts.Tasks.Deploy.{DeployEnv, Action, Error}
use evm_smart_contracts.Tasks.Deploy.Proxies.{
  deploy_lbtc, deploy_native_lbtc, deploy_consortium, deploy_gmp_mailbox, deploy_asset_router,
  deploy_oracle, deploy_gmp_bridge, deploy_bridge, deploy_voucher, deploy_por, deploy_partner_vault,
  deploy_stake_and_bake, deploy_pmm, deploy_proxy_mock, deploy_blacklist,
  deploy_bridge_token_adapter,
}
use evm_smart_contracts.Tasks.Deploy.Plain.{
  deploy_btcb_mock, deploy_handler_mock, deploy_teller_mock, deploy_erc4626_depositor,
  deploy_teller_depositor, deploy_oft_adapter, deploy_bascule_v3, deploy_proxy_factory,
  deploy_timelock,
}
use evm_smart_contracts.Tasks.Deploy.Pools.{
  PoolEnv, deploy_ccip_token_pool, deploy_chainlink_adapter,
}

-- The tasks with their parameters.
pub data Task : Type 0 where
  lbtc : Text → Text → Text → Task
  native_lbtc : Text → Text → Text → Text → Text → Text → Task
  consortium por : Text → Task
  mailbox : Text → Text → Text → Text → Task
  asset_router : Text → Text → Text → Text → Text → Text → Task
  oracle stake_and_bake : Text → Text → Text → Text → Text → Text → Text → Task
  pmm : Text → Text → Text → Text → Text → Text → Text → Task
  gmp_bridge proxy_mock blacklist : Text → Text → Task
  bridge : Text → Text → Text → Task
  voucher partner_vault : Text → Text → Text → Text → Task
  bridge_token_adapter : Text → Text → Text → Text → Text → Task
  btcb_mock handler_mock : Task
  teller_mock : Text → Task
  erc4626_depositor teller_depositor : Text → Text → Text → Task
  oft_adapter : Text → Text → Text → Bool → Task
  bascule_v3 : Text → Text → Text → Text → Text → Text → Task
  proxy_factory : ℕ → Text → Text → Text → Task
  timelock : Text → Text → Text → Task
  ccip_token_pool : Text → Text → Text → Text → Option Text → Option Text → Text → Task
  chainlink_adapter : Text → Text → Text → Text → List Text → Text → Task

abbrev pub or_nothing : Option (List Action) → List Action
or_nothing (some actions) = actions
or_nothing none = []

module _ (env : DeployEnv) (chain : PoolEnv) where
  unfoldable pub run_task : Text → Text → Task → Result Error (List Action)
  run_task f n (lbtc a b c) = ok (deploy_lbtc env f n a b c)
  run_task f n (native_lbtc a b c d e i) = ok (deploy_native_lbtc env f n a b c d e i)
  run_task f n (consortium a) = ok (deploy_consortium env f n a)
  run_task f n (por a) = ok (deploy_por env f n a)
  run_task f n (mailbox a b c d) = deploy_gmp_mailbox env f n a b c d
  run_task f n (asset_router a b c d e i) = ok (deploy_asset_router env f n a b c d e i)
  run_task f n (oracle a b c d e i j) = ok (deploy_oracle env f n a b c d e i j)
  run_task f n (stake_and_bake a b c d e i j) = ok (deploy_stake_and_bake env f n a b c d e i j)
  run_task f n (pmm a b c d e i j) = deploy_pmm env f n a b c d e i j
  run_task f n (gmp_bridge a b) = ok (deploy_gmp_bridge env f n a b)
  run_task f n (proxy_mock a b) = ok (deploy_proxy_mock env f n a b)
  run_task f n (blacklist a b) = ok (deploy_blacklist env a b)
  run_task f n (bridge a b c) = ok (deploy_bridge env f n a b c)
  run_task f n (voucher a b c d) = ok (deploy_voucher env f n a b c d)
  run_task f n (partner_vault a b c d) = ok (deploy_partner_vault env f n a b c d)
  run_task f n (bridge_token_adapter a b c d e) = deploy_bridge_token_adapter env a b c d e
  run_task f n btcb_mock = ok (deploy_btcb_mock env)
  run_task f n handler_mock = ok (deploy_handler_mock env)
  run_task f n (teller_mock a) = ok (deploy_teller_mock env a)
  run_task f n (erc4626_depositor a b c) = ok (deploy_erc4626_depositor env a b c)
  run_task f n (teller_depositor a b c) = ok (deploy_teller_depositor env a b c)
  run_task f n (oft_adapter a b c d) = ok (deploy_oft_adapter env a b c d)
  run_task f n (bascule_v3 a b c d e i) = ok (deploy_bascule_v3 env a b c d e i)
  run_task f n (proxy_factory k a b c) = ok (or_nothing (deploy_proxy_factory env k a b c))
  run_task f n (timelock a b c) = deploy_timelock env a b c
  run_task f n (ccip_token_pool a b c d e i j) = ok (deploy_ccip_token_pool env a b c d e i j)
  run_task f n (chainlink_adapter a b c d e i) = ok (deploy_chainlink_adapter env chain a b c d e i)
