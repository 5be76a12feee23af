-- ===== src/Tasks/Deploy.antt =====
-- scripts/helpers/create3Deployment.ts, proxyDeployment.ts, simpleDeployment.ts, `getProxySalt` of
-- scripts/helpers/index.ts and scripts/cre/index.ts: how the tasks deploy a contract.
-- A deployment is the list of what it does on the chain and at the explorer, in order; what the
-- scripts print and how long they wait is left out. What ethers, the chain and the factory answer
-- is a record of functions.
use evm_smart_contracts.Prelude.{
  Bool, Option, none, some, List, [], ◌∷◌, ◌++◌, Text, codes, if◌then◌else◌, Result, ok, err,
}
pub mod Proxies
pub mod Plain
pub mod Pools
pub mod Runs
pub mod Explorer

-- An argument of a constructor or of a call.
pub data Value : Type 0 where
  text : Text → Value
  texts : List Text → Value
  flag : Bool → Value

pub record DeployEnv : Type 0 where
  pub is_address : Text → Bool
  -- `(await hre.ethers.getSigners())[0].getAddress()`
  pub signer : Text
  -- the address of what `deployContract(contract, args)` deploys
  pub address_of : Text → List Value → Text
  -- `interface.encodeFunctionData('initialize', args)` of a contract
  pub initialize_data : Text → List Value → Text
  -- `ethers.id`
  pub id : Text → Text
  -- `factory.getDeployed(salt)`
  pub get_deployed : Text → Text → Text
  -- `upgrades.erc1967.getAdminAddress(proxy)`
  pub admin_address : Text → Text
  pub zero_address : Text

pub data Action : Type 0 where
  -- `deployContract(contract, args)`
  deployed : Text → List Value → Action
  -- `factory.createTransparentProxy(implementation, admin, data, salt)`
  proxy_created : Text → Text → Text → Text → Text → Action
  -- `verify(run, address, { contract, constructorArguments })`
  verified : Text → Option Text → List Value → Action
  -- a transaction to a contract: the method, and its arguments
  called : Text → Text → List Value → Action

pub data Error : Type 0 where
  not_an_address : Text → Error
  unsupported_pmm : Text → Error

abbrev pub default_proxy_factory : Text
default_proxy_factory = codes "0xF3518F0582fA818Fb1a5F07dDE4C8707558C250a"

abbrev pub proxy_admin_source : Text
proxy_admin_source = codes "@openzeppelin/contracts/proxy/transparent/ProxyAdmin.sol:ProxyAdmin"

abbrev pub proxy_source : Text
proxy_source =
    codes
      "@openzeppelin/contracts/proxy/transparent/TransparentUpgradeableProxy.sol:TransparentUpgradeableProxy"

module _ (env : DeployEnv) where
  -- `isAddress(admin) ? admin : await signer.getAddress()`, in either of the forms of the tasks.
  unfoldable pub or_signer : Text → Text
  or_signer account = if env.is_address account then account else env.signer

  -- keccak256(finance.lombard.v1.{ledger-network}.{contractName})
  unfoldable pub get_proxy_salt : Text → Text → Text
  get_proxy_salt network contract_name =
      env.id (codes "finance.lombard.v1." ++ network ++ codes "." ++ contract_name)

  -- The proxy, and what was done. The task that passes no name takes the contract's.
  unfoldable pub create3 : Text → List Value → Text → Text → Text → Text → Text × List Action
  create3 contract args factory network admin contract_name =
      let salt = get_proxy_salt network contract_name in
      let impl = env.address_of contract [] in
      let data_ = env.initialize_data contract args in
      let proxy = env.get_deployed factory salt in
      (
        proxy,
        deployed contract []
            ∷ proxy_created factory impl admin data_ salt
            ∷ verified impl none []
            ∷ verified (env.admin_address proxy) (some proxy_admin_source) (text admin ∷ [])
            ∷ verified proxy (some proxy_source) (text impl ∷ text admin ∷ text data_ ∷ [])
            ∷ [],
      )

  -- `CustomRuntimeEnvironment.deployImplementation`.
  unfoldable pub deploy_implementation : Text → Text × List Action
  deploy_implementation contract =
      let impl = env.address_of contract [] in
      (impl, deployed contract [] ∷ verified impl none [] ∷ [])

  -- `CustomRuntimeEnvironment.deployTransparentProxy`.
  unfoldable pub deploy_transparent_proxy : Text → Text → Text → Text × List Action
  deploy_transparent_proxy admin impl data_ =
      let args = text impl ∷ text admin ∷ text data_ ∷ [] in
      let name = codes "TransparentUpgradeableProxy" in
      (env.address_of name args, deployed name args ∷ [])

  unfoldable pub proxy_deployment : Text → List Value → Text → Text × List Action
  proxy_deployment contract args admin =
      let (impl, first) = deploy_implementation contract in
      let data_ = env.initialize_data contract args in
      let (proxy, second) = deploy_transparent_proxy admin impl data_ in
      (
        proxy,
        first
            ++ second
            ++ verified (env.admin_address proxy) (some proxy_admin_source) (text admin ∷ [])
              ∷ verified proxy (some proxy_source) (text impl ∷ text admin ∷ text data_ ∷ [])
              ∷ [],
      )

  -- `deploy` of simpleDeployment.ts.
  unfoldable pub deploy : Text → List Value → Text → Text × List Action
  deploy contract args contract_file =
      let address = env.address_of contract args in
      (address, deployed contract args ∷ verified address (some contract_file) args ∷ [])
