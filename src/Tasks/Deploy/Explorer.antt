-- ===== src/Tasks/Deploy/Explorer.antt =====
-- scripts/deployments: what the tasks tell the explorer of the contracts that they deploy.
use evm_smart_contracts.Prelude.{
  ◌≡◌, refl, some, to_lower_case, append-nil, inl, inr, Bool-cases, Option, List, [], ◌∷◌, ◌++◌,
  Text, codes, text_eq, if◌then◌else◌, Result, ok, >>=-eq-ok, guard, Any, arith, is_missing, not,
  ltb, ◌&&◌, includes,
}
use evm_smart_contracts.Tasks.Setup.Calls.{split_comma}
use evm_smart_contracts.Tasks.Deploy.{
  Value, text, or_signer, DeployEnv, Action, deployed, proxy_created, verified, called, Error,
  not_an_address, create3, proxy_deployment, deploy_implementation, deploy_transparent_proxy,
  deploy,
}
use evm_smart_contracts.Tasks.Deploy.Proxies.{
  deploy_lbtc, deploy_native_lbtc, deploy_consortium, deploy_gmp_mailbox, deploy_asset_router,
  deploy_oracle, deploy_gmp_bridge, deploy_bridge, deploy_voucher, deploy_por, deploy_partner_vault,
  deploy_stake_and_bake, pmm_contract, deploy_pmm, deploy_proxy_mock, deploy_blacklist,
  bridge_token_or_mock, deploy_bridge_token_adapter,
}
use evm_smart_contracts.Tasks.Deploy.Plain.{
  deploy_and_verify, deploy_btcb_mock, deploy_handler_mock, deploy_teller_mock,
  deploy_erc4626_depositor, deploy_teller_depositor, deploy_oft_adapter, deploy_bascule_v3,
  deploy_proxy_factory, deploy_timelock, nonempty, all_addresses,
}
use evm_smart_contracts.Tasks.Deploy.Pools.{
  PoolEnv, deploy_ccip_token_pool, deploy_chainlink_adapter, hand_over,
}
use evm_smart_contracts.Tasks.Deploy.Runs.{
  Task, lbtc, native_lbtc, consortium, por, mailbox, asset_router, oracle, stake_and_bake, pmm,
  gmp_bridge, proxy_mock, blacklist, bridge, voucher, partner_vault, bridge_token_adapter,
  btcb_mock, handler_mock, teller_mock, erc4626_depositor, teller_depositor, oft_adapter,
  bascule_v3, proxy_factory, timelock, ccip_token_pool, chainlink_adapter, run_task,
}

module _ (env : DeployEnv) (chain : PoolEnv) where
  -- The constructor of a proxy creates its `ProxyAdmin`.
  abbrev pub proxy_admin_of : Text → Text → List Value → List (Text × List Value)
  proxy_admin_of contract proxy (impl ∷ admin ∷ data_ ∷ []) =
      if text_eq contract (codes "TransparentUpgradeableProxy")
      then (env.admin_address proxy, admin ∷ []) ∷ []
      else []
  proxy_admin_of contract proxy _ = []

  -- The constructor of `CLAdapter` creates its token pool, for the token of its bridge.
  abbrev pub token_pool_of : Text → Text → List Value → List (Text × List Value)
  token_pool_of contract adapter (bridge_ ∷ gas_limit ∷ router ∷ allowlist ∷ rmn ∷ []) =
      if text_eq contract (codes "CLAdapter")
      then (
        chain.token_pool adapter,
        text (chain.lbtc adapter) ∷ router ∷ allowlist ∷ rmn ∷ text adapter ∷ [],
      )
        ∷ []
      else []
  token_pool_of contract adapter _ = []

  -- The contracts that an action creates: the address, and the arguments of the constructor.
  abbrev pub created : Action → List (Text × List Value)
  created (deployed contract args) =
      (env.address_of contract args, args)
      ∷ (proxy_admin_of contract (env.address_of contract args) args
          ++ token_pool_of contract (env.address_of contract args) args)
  created (proxy_created factory impl admin data_ salt) =
      (env.get_deployed factory salt, text impl ∷ text admin ∷ text data_ ∷ [])
      ∷ (env.admin_address (env.get_deployed factory salt), text admin ∷ [])
      ∷ []
  created _ = []

  -- Each contract that the explorer is told of was created before, with these arguments.
  abbrev pub IsBacked : List (Text × List Value) → List Action → Type 0
  IsBacked made [] = Unit
  IsBacked made (verified address source args ∷ rest) =
      Any (λ contract. contract ≡ (address, args)) made × IsBacked made rest
  IsBacked made (deployed contract args ∷ rest) =
      IsBacked (created (deployed contract args) ++ made) rest
  IsBacked made (proxy_created factory impl admin data_ salt ∷ rest) =
      IsBacked (created (proxy_created factory impl admin data_ salt) ++ made) rest
  IsBacked made (called target method args ∷ rest) = IsBacked made rest

  create3-IsBacked :
      (contract factory network admin name : Text) (args : List Value)
      → IsBacked [] (create3 env contract args factory network admin name).1
  unfolding create3
  create3-IsBacked contract factory network admin name args =
      (inr (inr (inl refl)), (inr (inl refl), (inl refl, tt)))

  plain-IsBacked :
      (contract : Text) (args : List Value) → IsBacked [] (deploy_and_verify env contract args args)
  plain-IsBacked contract args = (inl refl, tt)

  proxy_deployment-IsBacked :
      (contract admin : Text) (args : List Value) (made : List (Text × List Value))
      (rest : List Action)
      → ((made' : List (Text × List Value)) → IsBacked made' rest)
      → IsBacked made ((proxy_deployment env contract args admin).1 ++ rest)
  unfolding proxy_deployment deploy_implementation deploy_transparent_proxy text_eq
  proxy_deployment-IsBacked contract admin args made rest k =
      (inl refl, (inr (inl refl), (inl refl, k _)))

  deploy-IsBacked :
      (contract file : Text) (args : List Value) → IsBacked [] (deploy env contract args file).1
  unfolding deploy
  deploy-IsBacked contract file args = (inl refl, tt)

  backed :
      (xs : List Action) {actions : List Action}
      → ◌≡◌ {A = Result Error (List Action)} (ok xs) (ok actions)
      → IsBacked [] xs
      → IsBacked [] actions
  backed xs {actions} h k = let e : xs ≡ actions = ground arith in rw e at k

  pool-IsBacked :
      (a b c d : Text) (e i : Option Text) (j : Text)
      → IsBacked [] (deploy_ccip_token_pool env a b c d e i j)
  unfolding deploy_ccip_token_pool deploy
  pool-IsBacked a b c d e i j = elim (Bool-cases (is_missing e)) [
    | inl k ↦ rw k (inl refl, tt)
    | inr k ↦ rw k (inl refl, tt)
  ]

  adapter-IsBacked :
      (a b c d e : Text) {actions : List Action}
      → deploy_bridge_token_adapter env a b c d e ≡ ok actions
      → IsBacked [] actions
  unfolding deploy_bridge_token_adapter bridge_token_or_mock deploy
  adapter-IsBacked a b c d e h =
      let (_, _, h1) = >>=-eq-ok (guard (env.is_address a) (not_an_address a)) _ h in
      elim (Bool-cases (env.is_address d)) [
        | inl k ↦ backed _ (rw k at h1) (proxy_deployment-IsBacked _ _ _ _ _ (λ made. tt))
        | inr k ↦ backed _ (rw k at h1) (inl refl, proxy_deployment-IsBacked _ _ _ _ _ (λ made. tt))
      ]

  called-IsBacked :
      (made : List (Text × List Value)) (target admin : Text) (rest : List Action)
      → IsBacked made rest
      → IsBacked made (hand_over env chain target admin ++ rest)
  unfolding hand_over
  called-IsBacked made target admin rest h =
      elim (Bool-cases (
        not (is_missing (some admin))
        && not (text_eq (to_lower_case (chain.owner target)) (to_lower_case admin)))) [
          | inl k ↦ rw k h
          | inr k ↦ rw k h
        ]

  called_last :
      (made : List (Text × List Value)) (target admin : Text)
      → IsBacked made (hand_over env chain target admin)
  called_last made target admin =
      rw (append-nil (hand_over env chain target admin)) at
        (called-IsBacked made target admin [] tt)

  cl_adapter-IsBacked :
      (a b c d : Text) (e : List Text) (i : Text)
      → IsBacked [] (deploy_chainlink_adapter env chain a b c d e i)
  unfolding deploy_chainlink_adapter text_eq
  cl_adapter-IsBacked a b c d e i =
      let rest = called-IsBacked _ _ (or_signer env a) _ (called_last _ _ (or_signer env a)) in
      (inl refl, (inr (inl refl), rest))

  -- Whatever the task and its parameters, if it returns, each contract that the explorer is told of
  -- was created by the task before, at this address and with these arguments of the constructor:
  -- implementations, proxies, the admins that the proxies create, and the pool that an adapter creates.
  pub run_task-IsBacked :
      (factory network : Text) (t : Task) {actions : List Action}
      → run_task env chain factory network t ≡ ok actions
      → IsBacked [] actions
  unfolding run_task deploy_lbtc deploy_native_lbtc deploy_consortium deploy_gmp_mailbox
      deploy_asset_router deploy_oracle deploy_gmp_bridge deploy_bridge deploy_voucher deploy_por
      deploy_partner_vault deploy_stake_and_bake deploy_pmm deploy_proxy_mock deploy_blacklist
      deploy_btcb_mock deploy_handler_mock deploy_teller_mock deploy_erc4626_depositor
      deploy_teller_depositor deploy_oft_adapter deploy_bascule_v3 deploy_proxy_factory
      deploy_timelock create3 proxy_deployment deploy_implementation deploy_transparent_proxy
      text_eq
  run_task-IsBacked f n (lbtc a b c) h =
      backed _ h (inr (inr (inl refl)), (inr (inl refl), (inl refl, tt)))
  run_task-IsBacked f n (native_lbtc a b c d e i) h = backed _ h (create3-IsBacked _ _ _ _ _ _)
  run_task-IsBacked f n (consortium a) h = backed _ h (create3-IsBacked _ _ _ _ _ _)
  run_task-IsBacked f n (por a) h = backed _ h (create3-IsBacked _ _ _ _ _ _)
  run_task-IsBacked f n (mailbox a b c d) h =
      let (_, _, h1) = >>=-eq-ok (guard (env.is_address a) (not_an_address a)) _ h in
      let (_, _, h2) = >>=-eq-ok (guard (env.is_address f) (not_an_address f)) _ h1 in
      backed _ h2 (create3-IsBacked _ _ _ _ _ _)
  run_task-IsBacked f n (asset_router a b c d e i) h = backed _ h (create3-IsBacked _ _ _ _ _ _)
  run_task-IsBacked f n (oracle a b c d e i j) h = backed _ h (create3-IsBacked _ _ _ _ _ _)
  run_task-IsBacked f n (stake_and_bake a b c d e i j) h = backed _ h (create3-IsBacked _ _ _ _ _ _)
  run_task-IsBacked f n (pmm a b c d e i j) h =
      let (_, _, h1) = >>=-eq-ok (pmm_contract env f n j) _ h in
      backed _ h1 (create3-IsBacked _ _ _ _ _ _)
  run_task-IsBacked f n (gmp_bridge a b) h = backed _ h (create3-IsBacked _ _ _ _ _ _)
  run_task-IsBacked f n (proxy_mock a b) h = backed _ h (create3-IsBacked _ _ _ _ _ _)
  run_task-IsBacked f n (blacklist a b) h = backed _ h (inl refl, (inr (inl refl), (inl refl, tt)))
  run_task-IsBacked f n (bridge a b c) h = backed _ h (create3-IsBacked _ _ _ _ _ _)
  run_task-IsBacked f n (voucher a b c d) h = backed _ h (create3-IsBacked _ _ _ _ _ _)
  run_task-IsBacked f n (partner_vault a b c d) h = backed _ h (create3-IsBacked _ _ _ _ _ _)
  run_task-IsBacked f n (bridge_token_adapter a b c d e) h = adapter-IsBacked a b c d e h
  run_task-IsBacked f n btcb_mock h = backed _ h (plain-IsBacked _ _)
  run_task-IsBacked f n handler_mock h = backed _ h (plain-IsBacked _ _)
  run_task-IsBacked f n (teller_mock a) h = backed _ h (plain-IsBacked _ _)
  run_task-IsBacked f n (erc4626_depositor a b c) h = backed _ h (plain-IsBacked _ _)
  run_task-IsBacked f n (teller_depositor a b c) h = backed _ h (plain-IsBacked _ _)
  run_task-IsBacked f n (oft_adapter a b c d) h = backed _ h (plain-IsBacked _ _)
  run_task-IsBacked f n (bascule_v3 a b c d e i) h = backed _ h (deploy-IsBacked _ _ _)
  run_task-IsBacked f n (proxy_factory k a b c) h =
      elim (Bool-cases (ltb 0 k && not (includes a (codes "Y")))) [
        | inl stop ↦ backed _ (rw stop at h) tt
        | inr go ↦ backed _ (rw go at h) (plain-IsBacked _ _)
      ]
  run_task-IsBacked f n (timelock a b c) h =
      let (_, _, h1) = >>=-eq-ok (all_addresses env (nonempty env (split_comma [] a))) _ h in
      let (_, _, h2) = >>=-eq-ok (all_addresses env (nonempty env (split_comma [] b))) _ h1 in
      backed _ h2 (inl refl, tt)
  run_task-IsBacked f n (ccip_token_pool a b c d e i j) h = backed _ h (pool-IsBacked a b c d e i j)
  run_task-IsBacked f n (chainlink_adapter a b c d e i) h =
      backed _ h (cl_adapter-IsBacked a b c d e i)
