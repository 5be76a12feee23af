-- ===== src/Tasks/Config/Explorers.antt =====
-- hardhat.config.ts: the explorers that Hardhat does not know, and the keys of the explorers, in the
-- order of the file.
use evm_smart_contracts.Prelude.{List, [], ◌∷◌, ◌++◌, Text, codes}
use evm_smart_contracts.Tasks.Config.{CustomChain, ApiKey, variable, literal}

abbrev pub test_chains : List CustomChain
test_chains =
    record {
      network = codes "scroll_testnet";
      chain_id = 534351;
      api_url = codes "https://api-sepolia.scrollscan.com/api";
      browser_url = codes "https://sepolia.scrollscan.com/address";
    }
    ∷ record {
      network = codes "linea_testnet";
      chain_id = 59141;
      api_url = codes "https://api-sepolia.lineascan.build/api";
      browser_url = codes "https://sepolia.lineascan.build/address";
    }
    ∷ record {
      network = codes "zircuit_testnet";
      chain_id = 48899;
      api_url = codes "https://explorer.zircuit.com/api/contractVerifyHardhat";
      browser_url = codes "https://explorer.zircuit.com";
    }
    ∷ record {
      network = codes "mantle_testnet";
      chain_id = 5003;
      api_url = codes "https://api-sepolia.mantlescan.xyz/api";
      browser_url = codes "https://sepolia.mantlescan.xyz/";
    }
    ∷ record {
      network = codes "okx_testnet";
      chain_id = 195;
      api_url =
          codes
            "https://www.oklink.com/api/v5/explorer/contract/verify-source-code-plugin/XLAYER_TESTNET', //or https://www.oklink.com/api/v5/explorer/contract/verify-source-code-plugin/XLAYER for mainnet";
      browser_url =
          codes
            "https://www.oklink.com/xlayer-test' //or https://www.oklink.com/xlayer for mainnet";
    }
    ∷ record {
      network = codes "beraBartio";
      chain_id = 80084;
      api_url = codes "https://api.routescan.io/v2/network/testnet/evm/80084/etherscan";
      browser_url = codes "https://bartio.beratrail.io/";
    }
    ∷ record {
      network = codes "beraCartio";
      chain_id = 80000;
      api_url = codes "https://api.routescan.io/v2/network/testnet/evm/80000/etherscan";
      browser_url = codes "https://80000.testnet.routescan.io/";
    }
    ∷ record {
      network = codes "swell_testnet";
      chain_id = 1924;
      api_url = codes "https://swell-testnet-explorer.alt.technology/api/";
      browser_url = codes "https://swell-testnet-explorer.alt.technology";
    }
    ∷ record {
      network = codes "sonicTestnet";
      chain_id = 57054;
      api_url = codes "https://api-testnet.sonicscan.org/api";
      browser_url = codes "https://testnet.sonicscan.org";
    }
    ∷ record {
      network = codes "morphHolesky";
      chain_id = 2810;
      api_url = codes "https://explorer-api-holesky.morphl2.io/api/v2/";
      browser_url = codes "https://explorer-holesky.morphl2.io/";
    }
    ∷ record {
      network = codes "etherlinkTestnet";
      chain_id = 128123;
      api_url = codes "https://testnet.explorer.etherlink.com/api";
      browser_url = codes "https://testnet.explorer.etherlink.com";
    }
    ∷ record {
      network = codes "inkSepolia";
      chain_id = 763373;
      api_url = codes "https://api.routescan.io/v2/network/testnet/evm/763373/etherscan";
      browser_url = codes "https://sepolia.inkonscan.xyz/";
    }
    ∷ record {
      network = codes "katanaTatara";
      chain_id = 129399;
      api_url = codes "https://explorer-tatara-s4atxtv7sq.t.conduit.xyz/api";
      browser_url = codes "https://explorer-tatara-s4atxtv7sq.t.conduit.xyz:443";
    }
    ∷ record {
      network = codes "tacSpb";
      chain_id = 2391;
      api_url = codes "https://spb.explorer.tac.build/api";
      browser_url = codes "https://spb.explorer.tac.build/";
    }
    ∷ []

abbrev pub main_chains : List CustomChain
main_chains =
    record {
      network = codes "mantle";
      chain_id = 5000;
      api_url = codes "https://api.mantlescan.xyz/api";
      browser_url = codes "https://mantlescan.xyz/";
    }
    ∷ record {
      network = codes "linea";
      chain_id = 59144;
      api_url = codes "https://api.lineascan.build/api";
      browser_url = codes "https://lineascan.build/";
    }
    ∷ record {
      network = codes "scroll";
      chain_id = 534352;
      api_url = codes "https://api.scrollscan.com/api";
      browser_url = codes "https://scrollscan.com/address";
    }
    ∷ record {
      network = codes "cornMaizenet";
      chain_id = 21000000;
      api_url = codes "https://api.routescan.io/v2/network/mainnet/evm/21000000/etherscan";
      browser_url = codes "https://cornscan.io/";
    }
    ∷ record {
      network = codes "swell";
      chain_id = 1923;
      api_url = codes "https://explorer.swellnetwork.io/api/";
      browser_url = codes "https://explorer.swellnetwork.io/";
    }
    ∷ record {
      network = codes "berachain";
      chain_id = 80094;
      api_url = codes "https://api.berascan.com/api";
      browser_url = codes "https://berascan.com";
    }
    ∷ record {
      network = codes "sonic";
      chain_id = 146;
      api_url = codes "https://api.sonicscan.org/api";
      browser_url = codes "https://sonicscan.org";
    }
    ∷ record {
      network = codes "morph";
      chain_id = 2818;
      api_url = codes "https://morphscan.org/api/v2/network/mainnet/evm/2818/etherscan";
      browser_url = codes "https://morphscan.org";
    }
    ∷ record {
      network = codes "etherlink";
      chain_id = 42793;
      api_url = codes "https://explorer.etherlink.com/api";
      browser_url = codes "https://explorer.etherlink.com";
    }
    ∷ record {
      network = codes "ink";
      chain_id = 57073;
      api_url = codes "https://api.routescan.io/v2/network/mainnet/evm/57073/etherscan";
      browser_url = codes "https://57073.routescan.io/";
    }
    ∷ record {
      network = codes "katana";
      chain_id = 747474;
      api_url = codes "https://explorer.katanarpc.com/api";
      browser_url = codes "https://explorer.katanarpc.com";
    }
    ∷ record {
      network = codes "tac";
      chain_id = 239;
      api_url = codes "https://explorer.tac.build/api";
      browser_url = codes "https://explorer.tac.build/";
    }
    ∷ record {
      network = codes "bob";
      chain_id = 60808;
      api_url = codes "https://explorer.gobob.xyz/api";
      browser_url = codes "https://explorer.gobob.xyz/";
    }
    ∷ []

abbrev pub custom_chains : List CustomChain
custom_chains = test_chains ++ main_chains

abbrev pub api_keys : List (Text × ApiKey)
api_keys =
    (codes "holesky", variable (codes "ETHERSCAN_API_KEY"))
    ∷ (codes "sepolia", variable (codes "ETHERSCAN_API_KEY"))
    ∷ (codes "bscTestnet", variable (codes "BSCSCAN_API_KEY"))
    ∷ (codes "scroll_testnet", variable (codes "SCROLLSCAN_API_KEY"))
    ∷ (codes "zircuit_testnet", variable (codes "ZIRCUIT_API_KEY"))
    ∷ (codes "mantle_testnet", variable (codes "MANTLE_API_KEY"))
    ∷ (codes "linea_testnet", variable (codes "LINEA_API_KEY"))
    ∷ (codes "okx_testnet", variable (codes "OKX_API_KEY"))
    ∷ (codes "baseSepolia", variable (codes "BASE_API_KEY"))
    ∷ (codes "arbitrumSepolia", variable (codes "ARBITRUM_API_KEY"))
    ∷ (codes "beraBartio", literal (codes "no"))
    ∷ (codes "beraCartio", literal (codes "no"))
    ∷ (codes "swell_testnet", literal (codes "no"))
    ∷ (codes "sonicTestnet", variable (codes "SONICSCAN_API_KEY"))
    ∷ (codes "etherlinkTestnet", literal (codes "no"))
    ∷ (codes "inkSepolia", literal (codes "no"))
    ∷ (codes "katanaTatara", literal (codes "no"))
    ∷ (codes "tacSpb", literal (codes "no"))
    ∷ (codes "avalancheFujiTestnet", variable (codes "ETHERSCAN_API_KEY"))
    ∷ (codes "mainnet", variable (codes "ETHERSCAN_API_KEY"))
    ∷ (codes "bsc", variable (codes "BSCSCAN_API_KEY"))
    ∷ (codes "scroll", variable (codes "SCROLLSCAN_API_KEY"))
    ∷ (codes "zircuit", variable (codes "ZIRCUIT_API_KEY"))
    ∷ (codes "linea", variable (codes "LINEA_API_KEY"))
    ∷ (codes "mantle", variable (codes "MANTLE_API_KEY"))
    ∷ (codes "base", variable (codes "BASE_API_KEY"))
    ∷ (codes "arbitrum", variable (codes "ARBITRUM_API_KEY"))
    ∷ (codes "cornMaizenet", literal (codes "no"))
    ∷ (codes "swell", literal (codes "no"))
    ∷ (codes "berachain", variable (codes "BERACHAIN_API_KEY"))
    ∷ (codes "sonic", variable (codes "SONIC_API_KEY"))
    ∷ (codes "morph", literal (codes "no"))
    ∷ (codes "etherlink", literal (codes "no"))
    ∷ (codes "ink", literal (codes "no"))
    ∷ (codes "katana", literal (codes "no"))
    ∷ (codes "tac", literal (codes "no"))
    ∷ (codes "bob", literal (codes "no"))
    ∷ (codes "avalanche", variable (codes "ETHERSCAN_API_KEY"))
    ∷ []
