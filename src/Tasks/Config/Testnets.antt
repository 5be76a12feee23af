-- ===== src/Tasks/Config/Testnets.antt =====
-- hardhat.config.ts: the test networks, in the order of the file.
use evm_smart_contracts.Prelude.{none, some, List, [], ◌∷◌, codes}
use evm_smart_contracts.Tasks.Config.{Network, testnet_deployer}

abbrev pub testnets : List Network
testnets =
    record {
      name = codes "holesky";
      rpc_variable = codes "HOLESKY_RPC";
      rpc_default = codes "https://ethereum-holesky-rpc.publicnode.com";
      chain_id = 17000;
      account = testnet_deployer;
      gas = some 8000000;
      gas_multiplier = some 15;
      gas_price = none;
      timeout = 180000;
    }
    ∷ record {
      name = codes "sepolia";
      rpc_variable = codes "SEPOLIA_RPC";
      rpc_default = codes "https://ethereum-sepolia-rpc.publicnode.com";
      chain_id = 11155111;
      account = testnet_deployer;
      gas = some 8000000;
      gas_multiplier = some 11;
      gas_price = none;
      timeout = 180000;
    }
    ∷ record {
      name = codes "bscTestnet";
      rpc_variable = codes "BSC_TESTNET_RPC";
      rpc_default = codes "https://bsc-testnet-rpc.publicnode.com";
      chain_id = 97;
      account = testnet_deployer;
      gas = none;
      gas_multiplier = none;
      gas_price = none;
      timeout = 90000;
    }
    ∷ record {
      name = codes "mantle_testnet";
      rpc_variable = codes "MANTLE_TESTNET_RPC";
      rpc_default = codes "https://rpc.sepolia.mantle.xyz";
      chain_id = 5003;
      account = testnet_deployer;
      gas = some 8000000;
      gas_multiplier = none;
      gas_price = none;
      timeout = 90000;
    }
    ∷ record {
      name = codes "zircuit_testnet";
      rpc_variable = codes "ZIRCUIT_TESTNET_RPC";
      rpc_default = codes "https://zircuit1.p2pify.com/";
      chain_id = 48899;
      account = testnet_deployer;
      gas = some 8000000;
      gas_multiplier = none;
      gas_price = none;
      timeout = 90000;
    }
    ∷ record {
      name = codes "linea_testnet";
      rpc_variable = codes "LINEA_TESTNET_RPC";
      rpc_default = codes "https://rpc.sepolia.linea.build";
      chain_id = 59141;
      account = testnet_deployer;
      gas = some 8000000;
      gas_multiplier = none;
      gas_price = none;
      timeout = 90000;
    }
    ∷ record {
      name = codes "scroll_testnet";
      rpc_variable = codes "SCROLL_TESTNET_RPC";
      rpc_default = codes "https://rpc.ankr.com/scroll_sepolia_testnet";
      chain_id = 534351;
      account = testnet_deployer;
      gas = some 8000000;
      gas_multiplier = none;
      gas_price = none;
      timeout = 90000;
    }
    ∷ record {
      name = codes "okx_testnet";
      rpc_variable = codes "OKX_TESTNET_RPC";
      rpc_default = codes "https://testrpc.xlayer.tech";
      chain_id = 195;
      account = testnet_deployer;
      gas = some 8000000;
      gas_multiplier = none;
      gas_price = none;
      timeout = 90000;
    }
    ∷ record {
      name = codes "baseSepolia";
      rpc_variable = codes "BASE_SEPOLIA_RPC";
      rpc_default = codes "https://rpc.ankr.com/base_sepolia";
      chain_id = 84532;
      account = testnet_deployer;
      gas = some 8000000;
      gas_multiplier = none;
      gas_price = none;
      timeout = 90000;
    }
    ∷ record {
      name = codes "arbitrumSepolia";
      rpc_variable = codes "ARBITRUM_SEPOLIA_RPC";
      rpc_default = codes "https://rpc.ankr.com/arbitrum_sepolia";
      chain_id = 421614;
      account = testnet_deployer;
      gas = some 8000000;
      gas_multiplier = none;
      gas_price = none;
      timeout = 90000;
    }
    ∷ record {
      name = codes "beraBartio";
      rpc_variable = codes "BERA_BARTIO_RPC";
      rpc_default = codes "https://bartio.rpc.berachain.com";
      chain_id = 80084;
      account = testnet_deployer;
      gas = some 8000000;
      gas_multiplier = none;
      gas_price = none;
      timeout = 90000;
    }
    ∷ record {
      name = codes "beraCartio";
      rpc_variable = codes "BERA_CARTIO_RPC";
      rpc_default = codes "https://rockbeard-eth-cartio.berachain.com";
      chain_id = 80000;
      account = testnet_deployer;
      gas = some 8000000;
      gas_multiplier = none;
      gas_price = none;
      timeout = 90000;
    }
    ∷ record {
      name = codes "cronosTestnet";
      rpc_variable = codes "CRONOS_TESTNET_RPC";
      rpc_default = codes "https://evm-t3.cronos.org";
      chain_id = 338;
      account = testnet_deployer;
      gas = some 8000000;
      gas_multiplier = none;
      gas_price = none;
      timeout = 90000;
    }
    ∷ record {
      name = codes "swellSepolia";
      rpc_variable = codes "SWELL_SEPOLIA_RPC";
      rpc_default = codes "https://rpc.ankr.com/swell_sepolia";
      chain_id = 1924;
      account = testnet_deployer;
      gas = some 8000000;
      gas_multiplier = none;
      gas_price = none;
      timeout = 90000;
    }
    ∷ record {
      name = codes "sonicTestnet";
      rpc_variable = codes "SONIC_TESTNET_RPC";
      rpc_default = codes "https://rpc.ankr.com/sonic_blaze_testnet";
      chain_id = 57054;
      account = testnet_deployer;
      gas = some 8000000;
      gas_multiplier = none;
      gas_price = none;
      timeout = 90000;
    }
    ∷ record {
      name = codes "morphHolesky";
      rpc_variable = codes "MORPH_HOLESKY_RPC";
      rpc_default = codes "https://rpc-quicknode-holesky.morphl2.io";
      chain_id = 2810;
      account = testnet_deployer;
      gas = some 8000000;
      gas_multiplier = none;
      gas_price = none;
      timeout = 90000;
    }
    ∷ record {
      name = codes "etherlinkTestnet";
      rpc_variable = codes "ETHERLINK_TESTNET_RPC";
      rpc_default = codes "https://node.ghostnet.etherlink.com";
      chain_id = 128123;
      account = testnet_deployer;
      gas = some 8000000;
      gas_multiplier = none;
      gas_price = none;
      timeout = 90000;
    }
    ∷ record {
      name = codes "inkSepolia";
      rpc_variable = codes "INK_SEPOLIA_RPC";
      rpc_default = codes "https://rpc-gel-sepolia.inkonchain.com";
      chain_id = 763373;
      account = testnet_deployer;
      gas = some 8000000;
      gas_multiplier = none;
      gas_price = none;
      timeout = 90000;
    }
    ∷ record {
      name = codes "katanaTatara";
      rpc_variable = codes "KATANA_TATARA_RPC";
      rpc_default = codes "https://rpc.tatara.katanarpc.com";
      chain_id = 129399;
      account = testnet_deployer;
      gas = some 8000000;
      gas_multiplier = none;
      gas_price = none;
      timeout = 90000;
    }
    ∷ record {
      name = codes "tacSpb";
      rpc_variable = codes "TAC_SPB_RPC";
      rpc_default = codes "https://spb.rpc.tac.build";
      chain_id = 2391;
      account = testnet_deployer;
      gas = some 8000000;
      gas_multiplier = none;
      gas_price = none;
      timeout = 90000;
    }
    ∷ record {
      name = codes "avalancheFuji";
      rpc_variable = codes "AVALANCHE_FUJI_RPC";
      rpc_default = codes "https://avalanche-fuji-c-chain-rpc.publicnode.com";
      chain_id = 43113;
      account = testnet_deployer;
      gas = some 8000000;
      gas_multiplier = none;
      gas_price = none;
      timeout = 90000;
    }
    ∷ []
