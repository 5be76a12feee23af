-- ===== src/Tasks/Deploy/Pools.antt =====
-- scripts/deployments/bridge-v2.ts (deploy-ccip-token-pool-v2) and chainlink-adapter.ts: the pools of
-- tokens for CCIP, and who owns them in the end.
use evm_smart_contracts.Prelude.{
  not, ◌&&◌, Option, none, some, List, [], ◌∷◌, ◌++◌, Text, codes, text_eq, to_lower_case,
  is_missing, if◌then◌else◌,
}
use evm_smart_contracts.Tasks.Upgrade.{or_default}
use evm_smart_contracts.Tasks.Deploy.{
  text, texts, DeployEnv, Action, deployed, verified, called, or_signer, deploy,
}

-- What the deployed contracts answer: the pool and the token of an adapter, and the owner of a
-- contract when the task asks for it.
pub record PoolEnv : Type 0 where
  pub token_pool : Text → Text
  pub lbtc : Text → Text
  pub owner : Text → Text

module _ (env : DeployEnv) where
  -- deploy-ccip-token-pool-v2.
  unfoldable pub deploy_ccip_token_pool :
      Text → Text → Text → Text → Option Text → Option Text → Text → List Action
  deploy_ccip_token_pool bridge token rmn router admin token_adapter fallback_decimals =
      let adapted = not (is_missing token_adapter) in
      let contract = if adapted then codes "BridgeTokenPool" else codes "LombardTokenPoolV2" in
      let args =
        if adapted
        then text bridge
          ∷ text token
          ∷ text (or_default token_adapter [])
          ∷ texts []
          ∷ text rmn
          ∷ text router
          ∷ []
        else text bridge
          ∷ text token
          ∷ texts []
          ∷ text rmn
          ∷ text router
          ∷ text fallback_decimals
          ∷ [] in
      let file = codes "contracts/bridge/providers/" ++ contract ++ codes ".sol:" ++ contract in
      let (pool, actions) = deploy env contract args file in
      let transfer =
        called pool (codes "transferOwnership") (text (or_default admin []) ∷ []) ∷ [] in
      if is_missing admin then actions else actions ++ transfer

  -- `if (admin && owner.toLowerCase() != admin.toLowerCase()) transferOwnership(admin)`.
  unfoldable pub hand_over : PoolEnv → Text → Text → List Action
  hand_over chain target admin =
      let theirs = text_eq (to_lower_case (chain.owner target)) (to_lower_case admin) in
      if not (is_missing (some admin)) && not theirs
      then called target (codes "transferOwnership") (text admin ∷ []) ∷ []
      else []

  -- deploy-chainlink-adapter and its other names.
  unfoldable pub deploy_chainlink_adapter :
      PoolEnv → Text → Text → Text → Text → List Text → Text → List Action
  deploy_chainlink_adapter chain admin_arg bridge router rmn allowlist gas_limit =
      let args = text bridge ∷ text gas_limit ∷ text router ∷ texts allowlist ∷ text rmn ∷ [] in
      let admin = or_signer env admin_arg in
      let contract = codes "CLAdapter" in
      let adapter = env.address_of contract args in
      let pool = chain.token_pool adapter in
      let pool_args =
        text (chain.lbtc adapter) ∷ text router ∷ texts allowlist ∷ text rmn ∷ text adapter ∷ [] in
      (deployed contract args
        ∷ verified adapter none args
        ∷ verified pool none pool_args
        ∷ called pool (codes "acceptOwnership") []
        ∷ [])
      ++ hand_over chain adapter admin
      ++ hand_over chain pool admin
