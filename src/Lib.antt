-- ===== src/Lib.antt =====
-- Lombard's EVM contracts and the Hardhat tasks that administrate them.
--
-- The contracts let the tokens LBTC and its relatives be minted, bridged and redeemed; a consortium
-- of notaries signs what happens on the ledger. The parts of that which decide what is let through
-- are modelled here: `contracts/consortium/Consortium.sol` weighs the notaries' signatures;
-- `contracts/bascule/BasculeV3.sol` keeps the history of the deposits against which a withdrawal is
-- validated, and `contracts/consortium/DepositNotarizationBlacklist.sol` lists the deposits that the
-- notaries ignore; `contracts/gmp/Mailbox.sol` sends messages to other chains and hands those that the
-- consortium signed to their recipients; `contracts/bridge/BridgeV2.sol` is such a recipient, and
-- mints what a message of another bridge says, within the window of `contracts/libs/RateLimits.sol`;
-- `contracts/LBTC/StakedLBTCOracle.sol` takes the exchange ratio from a
-- payload that the consortium signed (`contracts/libs/Actions.sol` decodes it) and says which ratio
-- is in force. The scripts deploy the contracts and set them up; the tasks check that the deployed
-- contracts agree with a file of addresses.
--
-- Files and code:
--   Prelude            words of 256 bits and their checked arithmetic, byte strings, results with
--                      errors, strings and dictionaries as JavaScript has them
--   Contracts/Context  OpenZeppelin's Math.mulDiv, AccessControl and Pausable, as parameters
--   Contracts/Abi      Solidity's abi.encode and abi.decode of words
--   Contracts/Actions  contracts/libs/Actions.sol (ratioUpdate), contracts/LBTC/libraries/Assert.sol
--   Contracts/FeeUtils     contracts/libs/FeeUtils.sol
--   Contracts/RateLimits   contracts/libs/RateLimits.sol
--   Contracts/Oracle       contracts/LBTC/StakedLBTCOracle.sol; `oracle_init`, `publish_new_ratio` and
--                          the other operations are the functions of the same names
--   Contracts/Bascule      contracts/bascule/BasculeV3.sol, each operation with its events
--   Contracts/Consortium   contracts/consortium/Consortium.sol, and validateValSet of
--                          contracts/libs/Actions.sol
--   Contracts/Gmp          contracts/gmp/libs/GMPUtils.sol, contracts/gmp/libs/MessagePath.sol and
--                          contracts/libs/LChainId.sol
--   Contracts/Mailbox      contracts/gmp/Mailbox.sol: Paths (enableMessagePath, disableMessagePath),
--                          Send (send), Deliver (deliverAndHandle), Calls (any transactions)
--   Contracts/Bridge       contracts/bridge/BridgeV2.sol: Body (_encodeMsg, decodeMsgBody), Deposit
--                          (deposit), Withdraw (handlePayload, _withdraw), Calls (any transactions)
--   Contracts/Blacklist    contracts/consortium/DepositNotarizationBlacklist.sol: Events (what the log
--                          tells), Calls (any transactions), Exact (when a call returns)
--   Contracts/Gateway      the two on one chain: the bridge as a handler of the mailbox
--   Tasks/Ccip             tasks/ccip/check.ts: `scan_chains` reads the file, `check_mailbox`,
--                          `check_bridge` and `check_token_pool` are the rules
--   Tasks/Ownership        tasks/ownership/check.ts and admin-bucket.ts
--   Tasks/Ratio            tasks/ratio/check.ts
--   Tasks/Signatures       scripts/update-ratio.ts and scripts/update-valset.ts
--   Tasks/Setup            scripts/setup: Chains (bridge.ts, bridge-v2.ts, asset-router.ts,
--                          mailbox.ts), Oft (layerzero.ts), Pools (chainlink.ts), Tokens (token.ts
--                          and the setters of one value)
--   Tasks/Upgrade          scripts/deployments/upgrade.ts and `schedule` of scripts/helpers/index.ts
--   Tasks/Deploy           scripts/deployments, with create3Deployment.ts, proxyDeployment.ts and
--                          simpleDeployment.ts of scripts/helpers, and scripts/cre/index.ts
--   Tasks/Config           hardhat.config.ts: the networks and the explorers
--   Tasks/Small            tasks/fbtc, tasks/gmp, tasks/lz, tasks/role, tasks/ownership/transfer.ts and
--                          transfer-access.ts, scripts/blacklist.ts, scripts/calc-ccip-rate-limits.ts,
--                          scripts/setup/consortium.ts
--   Contracts/Examples, Tasks/Examples   runs on concrete inputs
--
-- A revert is an error of a `Result`, and leaves the storage as it was. The caller, the time of the
-- block and the parameters of a function are arguments. Numbers are natural numbers; the arithmetic
-- of Solidity is checked at 2^256. Addresses, hashes and ids are numbers in the contracts, and
-- strings, lists of character codes, in the tasks. Loops are recursion on the list that they read,
-- so that there is no fuel. What a call of the mailbox or the bridge sees of the other contracts is
-- a record of answers, its own for each call; a transaction that reverts changes nothing, and none
-- runs within another, as `nonReentrant` has it. Where Contracts/Gateway joins the mailbox and the
-- bridge, the mailbox's handler at the bridge's address is the bridge, and the bridge reads the
-- mailbox's paths; what the bridge sends stays an answer.
--
-- Parameters: Math.mulDiv (rounding down, or up), sha256, keccak256, ECDSA.tryRecover, the ABI
-- decoders of dynamic values, the proof check that the oracle calls, the owner check of
-- Ownable2Step, AccessControl and Pausable; BigInt, the RPC calls, ethers' isAddress, id and ABI
-- coder, the factory of proxies. What a theorem needs of them is a hypothesis.
--
-- Not modelled: the asset router, the tokens, the earlier bridges and their adapters, the voucher, the
-- PMM, the partner vault, the proof of reserve and stake and bake; the getters that read one field,
-- allowances and the rescue of tokens; gas, proxies and storage slots; what the tasks print, and what
-- they do with files and the network. An RPC call that fails ends a task.
pub mod Prelude
pub mod Contracts
pub mod Tasks
