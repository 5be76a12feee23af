-- ===== src/Tasks/Examples/Ccip.antt =====
-- tasks/ccip/check.ts on a file with two chains.
use evm_smart_contracts.Prelude.{
  ℕ, ◌≡◌, ◌↔◌, refl, true, false, Option, none, some, List, [], ◌∷◌, Text, codes, All, Dict, get,
  list_includes, text_eq, starts_with, put, to_lower_case,
}
use evm_smart_contracts.Tasks.Ccip.{
  ChainConfig, LChainBasicData, Registry, chains_to_skip, empty_registry, scan_chains, scan_chain,
  scan_chainlink, scan_lombard, scan_ccip, scan_avalanche,
}
use evm_smart_contracts.Tasks.Ccip.Node.{Node}
use evm_smart_contracts.Tasks.Ccip.Rules.{check_bridge, pools_of}
use evm_smart_contracts.Tasks.Ccip.Clean.{IsClean, ChainIsSound, check_bridge-IsClean}
use evm_smart_contracts.Tasks.Ccip.Selectors.{IsOther}
use evm_smart_contracts.Tasks.Ccip.Check.{check}
use evm_smart_contracts.Tasks.Ccip.Warnings.{lines_of, check-IsOther}
use evm_smart_contracts.Tasks.Ccip.Scan.{scan_chains-kept}

-- `BigInt` of one digit.
abbrev big_int : Text → Option ℕ
big_int (c ∷ []) = some c
big_int _ = none

abbrev bridge : Text
bridge = codes "0xb1"

abbrev chain_config : Text → ChainConfig
chain_config selector = record {
  chain_id = some (codes "0x01");
  lombard = some ((codes "BridgeV2", codes "0xB1") ∷ (codes "StakedLBTC", codes "0xC1") ∷ []);
  avalanche = none;
  chainlink =
      some ((codes "LombardTokenPoolV2", codes "0xD1") ∷ (codes "ChainSelector", selector) ∷ []);
}

abbrev file : List (Text × ChainConfig)
file =
    (codes "base", chain_config (codes "1"))
    ∷ (codes "ink", chain_config (codes "2"))
    ∷ (codes "katana", chain_config (codes "3"))
    ∷ []

abbrev selectors : Dict LChainBasicData
selectors =
    (codes "base", record { chain_selector = b'1'; l_chain_id = codes "0x01" })
    ∷ (codes "katana", record { chain_selector = b'3'; l_chain_id = codes "0x01" })
    ∷ []

abbrev registry : Registry
registry = record {
  mailboxes = [];
  bridges = (codes "base", bridge) ∷ (codes "katana", bridge) ∷ [];
  token_pools = (codes "base", codes "0xd1" ∷ []) ∷ (codes "katana", codes "0xd1" ∷ []) ∷ [];
  native_tokens = [];
  staked_tokens = (codes "base", codes "0xc1") ∷ (codes "katana", codes "0xc1") ∷ [];
  chain_selectors = selectors;
  routers = [];
  rmns = [];
  chains = codes "base" ∷ codes "katana" ∷ [];
}

scan_file : scan_chains big_int file empty_registry ≡ some registry
unfolding scan_chains scan_chain list_includes text_eq scan_chainlink scan_lombard scan_ccip
    starts_with scan_avalanche put to_lower_case get
scan_file = refl

scan_chains-kept_example : All (λ chain. list_includes chains_to_skip chain ≡ false) registry.chains
scan_chains-kept_example = scan_chains-kept big_int file empty_registry tt scan_file

-- A node on which every call gives the same answer.
abbrev node : Node
node = record {
  has_function = λ artifact name. true;
  mailbox_config = λ mailbox sender. record { max_payload_size = 388; fee_disabled = true };
  pool_config = λ b pool. record { whitelisted = true; fee_discount = 10000 };
  destination_bridge = λ b chain. bridge;
  can_be_sent = λ b token chain. 0;
  pool_token = λ pool. codes "0xc1";
  pool_bridge = λ pool. bridge;
  pool_rmn = λ pool. bridge;
  pool_router = λ pool. bridge;
  supported_chains = λ pool. b'1' ∷ [];
  remote_pools = λ pool chain. [];
  remote_token = λ pool chain. codes "0x";
  inbound = λ pool chain. record { is_enabled = false; capacity = 0; rate = 0 };
  outbound = λ pool chain. record { is_enabled = false; capacity = 0; rate = 0 };
}

check_bridge-IsClean_example :
    IsClean (check_bridge node (codes "base") registry selectors)
    ↔ All
        (λ p. (node.pool_config bridge p).whitelisted ≡ true)
        (pools_of (get (codes "base") registry.token_pools))
      × All (ChainIsSound node bridge (codes "base") registry) selectors
unfolding get text_eq
check_bridge-IsClean_example =
    check_bridge-IsClean node (codes "base") bridge registry selectors refl (λ e. cc)

check-IsOther_example : All IsOther (lines_of node (check big_int node (codes "base") file))
check-IsOther_example = check-IsOther node big_int (codes "base") file
