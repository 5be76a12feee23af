-- ===== src/Tasks/Config/Mainnets.antt =====
-- hardhat.config.ts: the main networks, in the order of the file.
use evm_smart_contracts.Prelude.{none, some, List, [], ◌∷◌, codes}
use evm_smart_contracts.Tasks.Config.{Network, deployer}

abbrev pub mainnets : List Network
mainnets =
    record {
      name = codes "mainnet";
      rpc_variable = codes "MAINNET_RPC";
      rpc_default = codes "https://ethereum-rpc.publicnode.com";
      chain_id = 1;
      account = deployer;
      gas = some 8000000;
      gas_multiplier = some 10;
      gas_price = none;
      timeout = 90000;
    }
    ∷ record {
      name = codes "mantle";
      rpc_variable = codes "MANTLE_TESTNET_RPC";
      rpc_default = codes "https://mantle.drpc.org";
      chain_id = 5000;
      account = deployer;
      gas = some 8000000;
      gas_multiplier = none;
      gas_price = none;
      timeout = 90000;
    }
    ∷ record {
      name = codes "linea";
      rpc_variable = codes "LINEA_RPC";
      rpc_default = codes "https://linea.decubate.com";
      chain_id = 59144;
      account = deployer;
      gas = some 8000000;
      gas_multiplier = none;
      gas_price = none;
      timeout = 90000;
    }
    ∷ record {
      name = codes "bsc";
      rpc_variable = codes "BSC_RPC";
      rpc_default = codes "https://bsc-rpc.publicnode.com";
      chain_id = 56;
      account = deployer;
      gas = some 8000000;
      gas_multiplier = none;
      gas_price = none;
      timeout = 90000;
    }
    ∷ record {
      name = codes "base";
      rpc_variable = codes "BASE_RPC";
      rpc_default = codes "https://gateway.tenderly.co/public/base";
      chain_id = 8453;
      account = deployer;
      gas = some 8000000;
      gas_multiplier = none;
      gas_price = none;
      timeout = 90000;
    }
    ∷ record {
      name = codes "arbitrum";
      rpc_variable = codes "ARBITRUM_RPC";
      rpc_default = codes "https://rpc.ankr.com/base";
      chain_id = 42161;
      account = deployer;
      gas = some 8000000;
      gas_multiplier = none;
      gas_price = none;
      timeout = 90000;
    }
    ∷ record {
      name = codes "cornMaizenet";
      rpc_variable = codes "CORN_MAIZENET_RPC";
      rpc_default = codes "https://rpc.ankr.com/corn_maizenet";
      chain_id = 21000000;
      account = deployer;
      gas = some 8000000;
      gas_multiplier = none;
      gas_price = some 500000;
      timeout = 90000;
    }
    ∷ record {
      name = codes "swell";
      rpc_variable = codes "SWELL_RPC";
      rpc_default = codes "https://rpc.ankr.com/swell";
      chain_id = 1923;
      account = deployer;
      gas = some 8000000;
      gas_multiplier = none;
      gas_price = none;
      timeout = 90000;
    }
    ∷ record {
      name = codes "berachain";
      rpc_variable = codes "BERACHAIN_RPC";
      rpc_default = codes "https://rpc.berachain.com";
      chain_id = 80094;
      account = deployer;
      gas = some 8000000;
      gas_multiplier = none;
      gas_price = none;
      timeout = 90000;
    }
    ∷ record {
      name = codes "sonic";
      rpc_variable = codes "SONIC_RPC";
      rpc_default = codes "https://rpc.soniclabs.com";
      chain_id = 146;
      account = deployer;
      gas = some 8000000;
      gas_multiplier = none;
      gas_price = none;
      timeout = 90000;
    }
    ∷ record {
      name = codes "morph";
      rpc_variable = codes "MORPH_RPC";
      rpc_default = codes "https://rpc-quicknode.morphl2.io";
      chain_id = 2818;
      account = deployer;
      gas = some 8000000;
      gas_multiplier = none;
      gas_price = none;
      timeout = 90000;
    }
    ∷ record {
      name = codes "etherlink";
      rpc_variable = codes "ETHERLINK_RPC";
      rpc_default = codes "https://node.mainnet.etherlink.com";
      chain_id = 42793;
      account = deployer;
      gas = some 8000000;
      gas_multiplier = none;
      gas_price = none;
      timeout = 90000;
    }
    ∷ record {
      name = codes "ink";
      rpc_variable = codes "INK_RPC";
      rpc_default = codes "https://rpc-gel.inkonchain.com";
      chain_id = 57073;
      account = deployer;
      gas = some 8000000;
      gas_multiplier = none;
      gas_price = none;
      timeout = 90000;
    }
    ∷ record {
      name = codes "katana";
      rpc_variable = codes "KATANA_RPC";
      rpc_default = codes "https://rpc.katanarpc.com";
      chain_id = 747474;
      account = deployer;
      gas = some 8000000;
      gas_multiplier = none;
      gas_price = none;
      timeout = 90000;
    }
    ∷ record {
      name = codes "tac";
      rpc_variable = codes "TAC_RPC";
      rpc_default = codes "https://rpc.ankr.com/tac";
      chain_id = 239;
      account = deployer;
      gas = some 8000000;
      gas_multiplier = none;
      gas_price = none;
      timeout = 90000;
    }
    ∷ record {
      name = codes "scroll";
      rpc_variable = codes "SCROLL_RPC";
      rpc_default = codes "https://rpc.scroll.io/";
      chain_id = 534352;
      account = deployer;
      gas = some 8000000;
      gas_multiplier = none;
      gas_price = none;
      timeout = 90000;
    }
    ∷ record {
      name = codes "bob";
      rpc_variable = codes "BOB_RPC";
      rpc_default = codes "https://rpc.gobob.xyz/";
      chain_id = 60808;
      account = deployer;
      gas = some 8000000;
      gas_multiplier = none;
      gas_price = none;
      timeout = 90000;
    }
    ∷ record {
      name = codes "avalanche";
      rpc_variable = codes "AVALANCHE_RPC";
      rpc_default = codes "https://avalanche.public-rpc.com";
      chain_id = 43114;
      account = deployer;
      gas = some 8000000;
      gas_multiplier = none;
      gas_price = none;
      timeout = 90000;
    }
    ∷ []
