-- ===== src/Tasks/Examples/Deployments.antt =====
-- scripts/deployments and tasks/gmp/send.ts on one deployment and two messages.
use evm_smart_contracts.Prelude.{
  ℕ, ◌≡◌, refl, ap, true, none, some, [], ◌∷◌, Text, codes, text_eq, ok,
}
use evm_smart_contracts.Tasks.Config.{find_network}
use evm_smart_contracts.Tasks.Deploy.{DeployEnv}
use evm_smart_contracts.Tasks.Deploy.Pools.{PoolEnv}
use evm_smart_contracts.Tasks.Deploy.Proxies.{deploy_lbtc}
use evm_smart_contracts.Tasks.Deploy.Runs.{lbtc, run_task}
use evm_smart_contracts.Tasks.Deploy.Explorer.{IsBacked, run_task-IsBacked}
use evm_smart_contracts.Tasks.Small.{TaskEnv, printed, sent, send_message, emit, send}
use evm_smart_contracts.Tasks.Small.Transfer.{send-network}

-- A contract stands at its name, a proxy at its salt.
abbrev deploy_env : DeployEnv
deploy_env = record {
  is_address = λ account. text_eq account (codes "owner");
  signer = codes "signer";
  address_of = λ contract args. contract;
  initialize_data = λ contract args. codes "initialize";
  id = λ name. name;
  get_deployed = λ factory salt. salt;
  admin_address = λ proxy. codes "admin";
  zero_address = [];
}

abbrev pools : PoolEnv
pools = record { token_pool = λ adapter. codes "pool"; lbtc = λ adapter. []; owner = λ target. [] }

lbtc_runs :
    run_task deploy_env pools
      (codes "factory")
      (codes "mainnet")
      (lbtc (codes "consortium") (codes "self") (codes "owner"))
    ≡ ok (
        deploy_lbtc deploy_env
          (codes "factory")
          (codes "mainnet")
          (codes "consortium")
          (codes "self")
          (codes "owner"))
unfolding run_task
lbtc_runs = refl

run_task-IsBacked_example : IsBacked deploy_env pools [] (
    deploy_lbtc deploy_env
      (codes "factory")
      (codes "mainnet")
      (codes "consortium")
      (codes "self")
      (codes "owner"))
run_task-IsBacked_example =
    run_task-IsBacked deploy_env pools (codes "factory") (codes "mainnet")
      (lbtc (codes "consortium") (codes "self") (codes "owner")) lbtc_runs

abbrev first_number : Text → ℕ
first_number [] = 0
first_number (n ∷ rest) = n

abbrev task_env : TaskEnv
task_env = record {
  is_address = λ account. true;
  signer = codes "signer";
  keccak256 = λ name. name;
  to_upper_case = λ name. name;
  encode_uint256 = λ n. n ∷ [];
  encode_address = λ account. account;
  big_int = λ name. none;
  zero_address = codes "0";
  zero_hash = codes "0";
  get_fee = λ mailbox sender body. 7;
  is_blacklisted = λ target hash vout. none;
}

message_sent :
    send task_env (codes "mailbox") (codes "bscTestnet") (codes "to") none (codes "body") none
    ≡ ok (sent (codes "mailbox") (send_message (97 ∷ []) (codes "to") (codes "0") (codes "body") 7))
unfolding send find_network text_eq emit
message_sent = refl

message_printed :
    send task_env
      (codes "mailbox")
      (codes "bscTestnet")
      (codes "it")
      none
      (codes "text")
      (some (codes "from"))
    ≡ ok (
        printed
          (codes "mailbox")
          (send_message (97 ∷ []) (codes "it") (codes "0") (codes "text") 7))
unfolding send find_network text_eq emit
message_printed = refl

send-network_example : codes "bscTestnet" ≡ codes "bscTestnet"
send-network_example =
    send-network task_env (λ m n e. ap first_number e) (codes "mailbox") (codes "mailbox")
      (codes "bscTestnet") (codes "bscTestnet") (codes "to") (codes "it") none none (codes "body")
      (codes "text") none (some (codes "from")) message_sent message_printed refl
