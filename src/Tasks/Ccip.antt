-- ===== src/Tasks/Ccip.antt =====
-- tasks/ccip/check.ts and tasks/ccip/types.ts: a check of the CCIP configuration of one chain
-- against a file of addresses. This module reads the file; the rules are in the children.
-- Strings are lists of character codes. The file is parsed JSON: a section is the list of its
-- entries. `BigInt` is the argument `big_int`, where `none` is its exception.
pub mod Node
pub mod Rules
pub mod Pools
pub mod Check
pub mod Scan
pub mod Clean
pub mod Selectors
pub mod Warnings
use evm_smart_contracts.Prelude.{
  ℕ, ◌+◌, ◌≡◌, refl, Bool, true, false, ◌||◌, ◌&&◌, not, Option, none, some, List, [], ◌∷◌, ◌++◌,
  Text, codes, text_eq, starts_with, to_lower_case, length, ltb, ◌==◌, if◌then◌else◌, Dict, get,
  put, remove, list_includes,
}

abbrev pub Entries : Type 0
Entries = List (Text × Text)

pub record ChainConfig : Type 0 where
  pub chain_id : Option Text
  pub lombard : Option Entries
  pub avalanche : Option Entries
  pub chainlink : Option Entries

pub record LChainBasicData : Type 0 where
  pub chain_selector : ℕ
  pub l_chain_id : Text

pub record NativeTokenData : Type 0 where
  pub token : Option Text
  pub adapter : Option Text

-- The maps that `check` fills from the file.
pub record Registry : Type 0 where
  pub mailboxes : Dict Text
  pub bridges : Dict Text
  pub token_pools : Dict (List Text)
  pub native_tokens : Dict NativeTokenData
  pub staked_tokens : Dict Text
  pub chain_selectors : Dict LChainBasicData
  pub routers : Dict Text
  pub rmns : Dict Text
  pub chains : List Text

abbrev pub empty_registry : Registry
empty_registry = record {
  mailboxes = [];
  bridges = [];
  token_pools = [];
  native_tokens = [];
  staked_tokens = [];
  chain_selectors = [];
  routers = [];
  rmns = [];
  chains = [];
}

abbrev pub chains_to_skip : List Text
chains_to_skip = codes "ink" ∷ codes "inkTestnet" ∷ codes "holesky" ∷ codes "sonicTestnet" ∷ []

-- `a ? a : b`, where an empty string counts as none.
abbrev pub or_else : Option Text → Option Text → Option Text
or_else none b = b
or_else (some []) b = b
or_else (some (c ∷ t)) b = some (c ∷ t)

-- `a ?? b`.
abbrev pub default_to : Option Text → Text → Text
default_to none b = b
default_to (some a) b = a

unfoldable pub update_native_token :
    Option Text → Option Text → Option NativeTokenData → NativeTokenData
update_native_token token adapter none = record { token = token; adapter = adapter }
update_native_token token adapter (some nt) = record {
  token = or_else token nt.token;
  adapter = or_else adapter nt.adapter;
}

-- `setOrUpdateNativeToken`.
unfoldable pub set_or_update_native_token :
    Text → Option Text → Option Text → Dict NativeTokenData → Dict NativeTokenData
unfolding update_native_token
set_or_update_native_token chain token adapter native_tokens =
    put chain (update_native_token token adapter (get chain native_tokens)) native_tokens

-- One entry of the `lombard` section, with the flag `bridgeFound`.
unfoldable pub scan_lombard_entry : Text → Text × Text → Registry × Bool → Registry × Bool
unfolding set_or_update_native_token
scan_lombard_entry chain (name, address) (r, bridge_found) =
    let address' : Text = to_lower_case address in
    let is_set : Bool = ltb 0 (length address) in
    if text_eq name (codes "BridgeV2")
    then (record r { bridges = put chain address' r.bridges }, ltb 2 (length address))
    else if text_eq name (codes "Mailbox")
    then (record r { mailboxes = put chain address' r.mailboxes }, bridge_found)
    else if text_eq name (codes "StakedLBTC") || text_eq name (codes "LBTC")
    then (
      (if is_set then record r { staked_tokens = put chain address' r.staked_tokens } else r),
      bridge_found,
    )
    else if text_eq name (codes "NativeLBTC")
    then (
      (if is_set
          then record r {
            native_tokens = set_or_update_native_token chain (some address') none r.native_tokens;
          }
          else r),
      bridge_found,
    )
    else if text_eq name (codes "BridgeTokenAdapter")
    then (
      (if is_set
          then record r {
            native_tokens = set_or_update_native_token chain none (some address') r.native_tokens;
          }
          else r),
      bridge_found,
    )
    else (r, bridge_found)

unfoldable pub scan_lombard : Text → Entries → Registry × Bool → Registry × Bool
unfolding scan_lombard_entry
scan_lombard chain [] acc = acc
scan_lombard chain (e ∷ es) acc = scan_lombard chain es (scan_lombard_entry chain e acc)

-- The bridge token of an Avalanche chain.
unfoldable pub scan_avalanche : Text → ChainConfig → Registry → Registry
unfolding set_or_update_native_token
scan_avalanche chain config r =
    if starts_with chain (codes "avalanche")
    then elim config.avalanche [
      | none ↦ r
      | some es ↦ elim (get (codes "BridgeToken") es) [
        | none ↦ r
        | some token ↦
            if ltb 0 (length token)
            then record r {
              native_tokens =
                  set_or_update_native_token chain (some (to_lower_case token)) none
                    r.native_tokens;
            }
            else r
      ]
    ]
    else r

-- The list of pools of a chain, or an empty one.
abbrev pub pools_or_empty : Option (List Text) → List Text
pools_or_empty none = []
pools_or_empty (some ps) = ps

abbrev pub scan_lombard_section : Text → Option Entries → Registry → Registry × Bool
scan_lombard_section chain none r = (r, false)
scan_lombard_section chain (some es) r = scan_lombard chain es (r, false)

module _ (big_int : Text → Option ℕ) where
  -- One entry of the `chainlink` section, with the flag `needToCheckChain`.
  unfoldable pub scan_ccip_entry :
      Text → Text → Text × Text → Registry × Bool → Option (Registry × Bool)
  scan_ccip_entry chain chain_id (name, value) (r, need) =
      if starts_with name (codes "LombardTokenPoolV2") || text_eq name (codes "BridgeTokenPool")
      then some (
          if ltb (length value) 1 then (r, need) else (
            record r {
              token_pools =
                  put chain (pools_or_empty (get chain r.token_pools) ++ to_lower_case value ∷ [])
                    r.token_pools;
            },
            true,
          ))
      else if text_eq name (codes "ChainSelector")
      then elim (big_int value) [
        | none ↦ none
        | some selector ↦ some (
          record r {
            chain_selectors =
                put chain (record { chain_selector = selector; l_chain_id = chain_id })
                  r.chain_selectors;
          },
          true,
        )
      ]
      else if text_eq name (codes "Router")
      then some (record r { routers = put chain (to_lower_case value) r.routers }, true)
      else if text_eq name (codes "RMN")
      then some (record r { rmns = put chain (to_lower_case value) r.rmns }, true)
      else some (r, need)

  unfoldable pub scan_ccip : Text → Text → Entries → Registry × Bool → Option (Registry × Bool)
  unfolding scan_ccip_entry
  scan_ccip chain chain_id [] acc = some acc
  scan_ccip chain chain_id (e ∷ es) acc = elim (scan_ccip_entry chain chain_id e acc) [
    | none ↦ none
    | some acc' ↦ scan_ccip chain chain_id es acc'
  ]

  -- The `chainlink` section is read only behind a bridge.
  unfoldable pub scan_chainlink : Text → ChainConfig → Bool → Registry → Option (Registry × Bool)
  scan_chainlink chain config false r = some (r, false)
  scan_chainlink chain config true r = elim config.chainlink [
    | none ↦ some (r, false)
    | some es ↦ scan_ccip chain (default_to config.chain_id []) es (r, false)
  ]

  -- One chain of the file.
  unfoldable pub scan_chain : Text × ChainConfig → Registry → Option Registry
  scan_chain (chain, config) r =
      if list_includes chains_to_skip chain
      then some r
      else (let (r1, bridge_found) = scan_lombard_section chain config.lombard r in
          elim (scan_chainlink chain config bridge_found (scan_avalanche chain config r1)) [
            | none ↦ none
            | some (r2, need) ↦
                some (if need then record r2 { chains = r2.chains ++ chain ∷ [] } else r2)
          ])

  unfoldable pub scan_chains : List (Text × ChainConfig) → Registry → Option Registry
  scan_chains [] r = some r
  scan_chains (c ∷ cs) r = elim (scan_chain c r) [ none ↦ none | some r' ↦ scan_chains cs r' ]
