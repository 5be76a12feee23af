-- ===== src/Tasks/Deploy/Plain.antt =====
-- scripts/deployments: the tasks that deploy a contract without a proxy, and the factory of proxies.
use evm_smart_contracts.Prelude.{
  ℕ, Bool, true, not, ◌&&◌, Option, none, some, List, [], ◌∷◌, Text, codes, includes, ltb,
  if◌then◌else◌, Result, ok, ◌>>◌, guard,
}
use evm_smart_contracts.Tasks.Setup.Calls.{split_comma}
use evm_smart_contracts.Tasks.Deploy.{
  Value, text, texts, flag, DeployEnv, Action, deployed, verified, Error, not_an_address, or_signer,
  deploy,
}

module _ (env : DeployEnv) where
  -- `deployContract(contract, args)`, and `verify` without the name of the source, with the arguments
  -- that each call has.
  abbrev pub deploy_and_verify : Text → List Value → List Value → List Action
  deploy_and_verify contract args verified_args =
      deployed contract args ∷ verified (env.address_of contract args) none verified_args ∷ []

  -- deploy-btcb-mock.
  unfoldable pub deploy_btcb_mock : List Action
  deploy_btcb_mock = deploy_and_verify (codes "BTCBMock") [] []

  -- deploy-handler-mock.
  unfoldable pub deploy_handler_mock : List Action
  deploy_handler_mock =
      let args = flag true ∷ [] in deploy_and_verify (codes "GMPHandlerMock") args args

  -- deploy-teller-mock.
  unfoldable pub deploy_teller_mock : Text → List Action
  deploy_teller_mock lbtc =
      deploy_and_verify (codes "TellerWithMultiAssetSupportMock") (text lbtc ∷ []) (text lbtc ∷ [])

  -- deploy-erc4626-depositor.
  unfoldable pub deploy_erc4626_depositor : Text → Text → Text → List Action
  deploy_erc4626_depositor vault lbtc stake_and_bake =
      deploy_and_verify (codes "ERC4626Depositor")
        (text vault ∷ text lbtc ∷ text stake_and_bake ∷ [])
        (text vault ∷ text lbtc ∷ text stake_and_bake ∷ [])

  -- deploy-teller-depositor.
  unfoldable pub deploy_teller_depositor : Text → Text → Text → List Action
  deploy_teller_depositor teller lbtc stake_and_bake =
      deploy_and_verify (codes "TellerWithMultiAssetSupportDepositor")
        (text teller ∷ text lbtc ∷ text stake_and_bake ∷ [])
        (text teller ∷ text lbtc ∷ text stake_and_bake ∷ [])

  -- deploy-oft-adapter.
  unfoldable pub deploy_oft_adapter : Text → Text → Text → Bool → List Action
  deploy_oft_adapter lbtc lz_endpoint admin burn_mint =
      let contract = if burn_mint then codes "LBTCBurnMintOFTAdapter" else codes "LBTCOFTAdapter" in
      let args = text lbtc ∷ text lz_endpoint ∷ text (or_signer env admin) ∷ [] in
      deploy_and_verify contract args args

  -- deploy-basculeV3.
  unfoldable pub deploy_bascule_v3 : Text → Text → Text → Text → Text → Text → List Action
  deploy_bascule_v3 admin_arg pauser deposit_reporter withdrawal_validator max_deposits signer =
      (deploy env (codes "BasculeV3")
        (text (or_signer env admin_arg)
          ∷ text pauser
          ∷ text deposit_reporter
          ∷ text withdrawal_validator
          ∷ text max_deposits
          ∷ text signer
          ∷ [])
        (codes "contracts/bascule/BasculeV3.sol:BasculeV3")).1

  -- deploy-proxy-factory. Where the signer has sent transactions, the answer to a question decides;
  -- `none` is the end of the process.
  unfoldable pub deploy_proxy_factory : ℕ → Text → Text → Text → Option (List Action)
  deploy_proxy_factory nonce answer admin deployer =
      if ltb 0 nonce && not (includes answer (codes "Y"))
      then none
      else some (
          deploy_and_verify (codes "ProxyFactory") (text admin ∷ text deployer ∷ [])
            (text admin ∷ text deployer ∷ []))

  -- `list.split(',').filter((v: string) => v.length > 0)`.
  unfoldable pub nonempty : List Text → List Text
  nonempty [] = []
  nonempty ([] ∷ vs) = nonempty vs
  nonempty ((c ∷ v) ∷ vs) = (c ∷ v) ∷ nonempty vs

  -- `list.forEach`: the first that is no address is an error.
  unfoldable pub all_addresses : List Text → Result Error (Unit {0})
  all_addresses [] = ok tt
  all_addresses (v ∷ vs) = guard (env.is_address v) (not_an_address v) >> all_addresses vs

  -- deploy-timelock.
  unfoldable pub deploy_timelock : Text → Text → Text → Result Error (List Action)
  deploy_timelock executors_arg proposers_arg min_delay = do
    let executors = nonempty (split_comma [] executors_arg)
    all_addresses executors
    let proposers = nonempty (split_comma [] proposers_arg)
    all_addresses proposers
    let args = text min_delay ∷ texts proposers ∷ texts executors ∷ []
    let contract = codes "LombardTimeLock"
    let source = codes "contracts/consortium/LombardTimeLock.sol:LombardTimeLock"
    ok (deployed contract args ∷ verified (env.address_of contract args) (some source) args ∷ [])
