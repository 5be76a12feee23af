-- ===== src/Tasks/Config/Networks.antt =====
-- hardhat.config.ts: all networks, in the order of the file.
use evm_smart_contracts.Prelude.{List, ◌++◌}
use evm_smart_contracts.Tasks.Config.{Network}
use evm_smart_contracts.Tasks.Config.Testnets.{testnets}
use evm_smart_contracts.Tasks.Config.Mainnets.{mainnets}

abbrev pub networks : List Network
networks = testnets ++ mainnets
