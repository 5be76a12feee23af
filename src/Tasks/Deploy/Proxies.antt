-- ===== src/Tasks/Deploy/Proxies.antt =====
-- scripts/deployments: the tasks that deploy a contract behind a proxy, at an address that the
-- network of the ledger and the name of the contract decide.
use evm_smart_contracts.Prelude.{
  Bool, true, false, List, [], ◌∷◌, ◌++◌, Text, codes, text_eq, if◌then◌else◌, Result, ok, err,
  ◌>>=◌, ◌>>◌, guard,
}
use evm_smart_contracts.Tasks.Deploy.{
  text, DeployEnv, Action, called, Error, not_an_address, unsupported_pmm, or_signer, create3,
  proxy_deployment, deploy,
}

module _ (env : DeployEnv) (factory network : Text) where
  -- deploy-lbtc. `reinitialize` is called on the new proxy.
  unfoldable pub deploy_lbtc : Text → Text → Text → List Action
  deploy_lbtc consortium treasury admin =
      let owner = or_signer env admin in
      let treasury_addr = or_signer env treasury in
      let (proxy, actions) =
        create3 env (codes "StakedLBTC") (text consortium ∷ text treasury_addr ∷ text owner ∷ [])
          factory network owner (codes "LBTC") in
      actions ++ called proxy (codes "reinitialize") [] ∷ []

  -- deploy-native-lbtc. The contract gets `admin` as it was given.
  unfoldable pub deploy_native_lbtc : Text → Text → Text → Text → Text → Text → List Action
  deploy_native_lbtc consortium treasury admin name symbol admin_change_delay =
      let owner = or_signer env admin in
      let contract = codes "NativeLBTC" in
      (create3 env contract
        (text consortium
          ∷ text treasury
          ∷ text name
          ∷ text symbol
          ∷ text admin
          ∷ text admin_change_delay
          ∷ [])
        factory network owner contract).1

  -- deploy-consortium.
  unfoldable pub deploy_consortium : Text → List Action
  deploy_consortium admin =
      let owner = or_signer env admin in
      let contract = codes "Consortium" in
      (create3 env contract (text owner ∷ []) factory network owner contract).1

  -- deploy-gmp-mailbox.
  unfoldable pub deploy_gmp_mailbox : Text → Text → Text → Text → Result Error (List Action)
  deploy_gmp_mailbox consortium fee admin_change_delay admin = do
    guard (env.is_address consortium) (not_an_address consortium)
    guard (env.is_address factory) (not_an_address factory)
    let owner = or_signer env admin
    let contract = codes "Mailbox"
    ok
        (create3 env contract
          (text owner ∷ text consortium ∷ text fee ∷ text admin_change_delay ∷ []) factory network
          owner contract).1

  -- deploy-asset-router.
  unfoldable pub deploy_asset_router : Text → Text → Text → Text → Text → Text → List Action
  deploy_asset_router admin ledger_chain_id bitcoin_chain_id mailbox bascule admin_change_delay =
      let owner = or_signer env admin in
      let contract = codes "AssetRouter" in
      (create3 env contract
        (text owner
          ∷ text admin_change_delay
          ∷ text ledger_chain_id
          ∷ text bitcoin_chain_id
          ∷ text mailbox
          ∷ text bascule
          ∷ [])
        factory network owner contract).1

  -- deploy-oracle.
  unfoldable pub deploy_oracle : Text → Text → Text → Text → Text → Text → Text → List Action
  deploy_oracle admin consortium token denom ratio switch_time max_interval =
      let owner = or_signer env admin in
      let contract = codes "StakedLBTCOracle" in
      (create3 env contract
        (text owner
          ∷ text consortium
          ∷ text token
          ∷ text denom
          ∷ text ratio
          ∷ text switch_time
          ∷ text max_interval
          ∷ [])
        factory network owner contract).1

  -- deploy-gmp-bridge.
  unfoldable pub deploy_gmp_bridge : Text → Text → List Action
  deploy_gmp_bridge admin_arg mailbox =
      let admin = or_signer env admin_arg in
      let contract = codes "BridgeV2" in
      (create3 env contract (text admin ∷ text mailbox ∷ []) factory network admin contract).1

  -- deploy-bridge.
  unfoldable pub deploy_bridge : Text → Text → Text → List Action
  deploy_bridge admin_arg lbtc treasury =
      let admin = or_signer env admin_arg in
      let contract = codes "Bridge" in
      (create3 env contract (text lbtc ∷ text treasury ∷ text admin ∷ []) factory network admin
        contract).1

  -- deploy-voucher.
  unfoldable pub deploy_voucher : Text → Text → Text → Text → List Action
  deploy_voucher lbtc admin treasury fee =
      let contract = codes "IBCVoucher" in
      (create3 env contract (text lbtc ∷ text admin ∷ text fee ∷ text treasury ∷ []) factory network
        admin contract).1

  -- deploy-por.
  unfoldable pub deploy_por : Text → List Action
  deploy_por admin =
      let contract = codes "PoR" in
      (create3 env contract (text admin ∷ []) factory network admin contract).1

  -- deploy-partner-vault.
  unfoldable pub deploy_partner_vault : Text → Text → Text → Text → List Action
  deploy_partner_vault admin lbtc fbtc stake_limit =
      let contract = codes "FBTCPartnerVault" in
      (create3 env contract (text admin ∷ text fbtc ∷ text lbtc ∷ text stake_limit ∷ []) factory
        network admin contract).1

  -- deploy-stake-and-bake.
  unfoldable pub deploy_stake_and_bake :
      Text → Text → Text → Text → Text → Text → Text → List Action
  deploy_stake_and_bake lbtc admin operator fee claimer pauser gas_limit =
      let contract = codes "StakeAndBake" in
      (create3 env contract
        (text lbtc
          ∷ text admin
          ∷ text operator
          ∷ text fee
          ∷ text claimer
          ∷ text pauser
          ∷ text gas_limit
          ∷ [])
        factory network admin contract).1

  -- The contract of deploy-pmm, by the name of the PMM.
  unfoldable pub pmm_contract : Text → Result Error Text
  pmm_contract pmm =
      if text_eq pmm (codes "BTCB")
      then ok (codes "BTCBPMM")
      else if text_eq pmm (codes "CBBTC")
      then ok (codes "CBBTCPMM")
      else err (unsupported_pmm pmm)

  -- deploy-pmm.
  unfoldable pub deploy_pmm :
      Text → Text → Text → Text → Text → Text → Text → Result Error (List Action)
  deploy_pmm lbtc btc_token admin stake_limit withdraw_address relative_fee pmm = do
    contract ← pmm_contract pmm
    ok
        (create3 env contract
          (text lbtc
            ∷ text btc_token
            ∷ text admin
            ∷ text stake_limit
            ∷ text withdraw_address
            ∷ text relative_fee
            ∷ [])
          factory network admin contract).1

  -- deploy-proxy-mock: the steps of `create3`, without arguments.
  unfoldable pub deploy_proxy_mock : Text → Text → List Action
  deploy_proxy_mock contract_name admin =
      (create3 env (codes "ProxyMock") [] factory network admin contract_name).1

-- deploy-blacklist.
unfoldable pub deploy_blacklist : DeployEnv → Text → Text → List Action
deploy_blacklist env admin proxy_owner =
    (proxy_deployment env (codes "DepositNotarizationBlacklist") (text admin ∷ []) proxy_owner).1

-- The bridge token of deploy-bridge-token-adapter: a mock where no address is given, and whether
-- it is one.
unfoldable pub bridge_token_or_mock : DeployEnv → Text → Text × Bool × List Action
bridge_token_or_mock env bridge_token =
    let (mock, actions) =
      deploy env (codes "BridgeTokenMock") []
        (codes "contracts/mock/BridgeTokenMock.sol:BridgeTokenMock") in
    if env.is_address bridge_token then (bridge_token, false, []) else (mock, true, actions)

-- deploy-bridge-token-adapter.
unfoldable pub deploy_bridge_token_adapter :
    DeployEnv → Text → Text → Text → Text → Text → Result Error (List Action)
deploy_bridge_token_adapter env consortium treasury_arg admin_arg bridge_token_arg delay = do
  let owner = or_signer env admin_arg
  let treasury = or_signer env treasury_arg
  guard (env.is_address consortium) (not_an_address consortium)
  let (bridge_token, mocked, first) = bridge_token_or_mock env bridge_token_arg
  let (adapter, second) =
      proxy_deployment env (codes "BridgeTokenAdapter")
        (text consortium ∷ text treasury ∷ text owner ∷ text delay ∷ text bridge_token ∷ []) owner
  let migrate =
      if mocked
      then called bridge_token (codes "migrateBridgeRole") (text adapter ∷ []) ∷ []
      else []
  ok (first ++ second ++ migrate)
