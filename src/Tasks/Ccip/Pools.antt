-- ===== src/Tasks/Ccip/Pools.antt =====
-- tasks/ccip/check.ts: the rule `checkTokenPool`.
use evm_smart_contracts.Prelude.{
  ℕ, Bool, true, false, ◌||◌, ◌&&◌, not, Option, none, some, List, [], ◌∷◌, ◌++◌, Text, codes,
  text_eq, is_missing, to_lower_case, length, ◌==◌, if◌then◌else◌, Dict, get, list_includes,
}
use evm_smart_contracts.Tasks.Ccip.{Registry, LChainBasicData, NativeTokenData, default_to}
use evm_smart_contracts.Tasks.Ccip.Node.{
  Node, Report, pools_absent, checking_pool, missing_function, wrong_token, wrong_bridge, wrong_rmn,
  wrong_router, unexpected_selector, unknown_selector, not_configured, no_remote_token,
  unexpected_token, unexpected_pool_count, unexpected_pool, rate_config,
}
use evm_smart_contracts.Tasks.Ccip.Rules.{
  report_if, option_text_eq, address_of_word, address_or_empty,
}

-- `supportedChains.includes(selector)`.
unfoldable pub is_supported : ℕ → List ℕ → Bool
is_supported selector [] = false
is_supported selector (c ∷ cs) = c == selector || is_supported selector cs

-- The warnings for one supported chain, from the entries with its selector.
unfoldable pub report_matches : Text → ℕ → Dict LChainBasicData → List Report
report_matches chain chn [] = []
report_matches chain chn ((k, v) ∷ d) =
    report_if (v.chain_selector == chn && text_eq k chain) (unexpected_selector chn)
    ++ report_matches chain chn d

unfoldable pub is_known : ℕ → Dict LChainBasicData → Bool
is_known chn [] = false
is_known chn ((k, v) ∷ d) = v.chain_selector == chn || is_known chn d

-- `supportedChains.forEach`.
unfoldable pub report_supported : Text → List ℕ → Dict LChainBasicData → List Report
unfolding report_matches is_known
report_supported chain [] d = []
report_supported chain (chn ∷ chns) d =
    report_matches chain chn d
    ++ (report_if (not (is_known chn d)) (unknown_selector chn) ++ report_supported chain chns d)

abbrev pub is_some_token : Option NativeTokenData → Bool
is_some_token none = false
is_some_token (some nt) = true

abbrev pub has_token : Option NativeTokenData → Text → Bool
has_token none t = false
has_token (some nt) t = option_text_eq nt.token t

abbrev pub native_address : Option NativeTokenData → Text
native_address none = []
native_address (some nt) = default_to nt.token []

-- The remote pools of one chain.
unfoldable pub report_remote_pools : Text → List Text → Option (List Text) → List Report
report_remote_pools chn (p ∷ []) none = []
report_remote_pools chn (p ∷ []) (some expected) =
    report_if (not (list_includes expected (address_of_word p)))
      (unexpected_pool (address_of_word p) chn)
report_remote_pools chn ps expected = unexpected_pool_count (length ps) chn ∷ []

-- Each test of the interface ends the whole rule where a function is missing (`false` behind
-- the lines); otherwise what follows goes on.
-- The line that is printed names the second text.
unfoldable pub when_has : Node → Text → Text → List Report × Bool → List Report × Bool
when_has node name printed rest =
    if node.has_function (codes "LombardTokenPoolV2") name
    then rest
    else (missing_function printed ∷ [], false)

unfoldable pub then_report : List Report → List Report × Bool → List Report × Bool
then_report lines (rest, go_on) = (lines ++ rest, go_on)

module _ (r : Registry) where
  -- `chainSelectors.forEach`: the chains that the pool does not support are reported if they have
  -- the token, and are deleted from the local map.
  unfoldable pub report_missing : Bool → Bool → List ℕ → Dict LChainBasicData → List Report
  unfolding is_supported
  report_missing is_staked is_native supported [] = []
  report_missing is_staked is_native supported ((chn, item) ∷ d) =
      let present =
        (is_staked && not (is_missing (get chn r.staked_tokens)))
        || (is_native && is_some_token (get chn r.native_tokens)) in
      report_if (not (is_supported item.chain_selector supported) && present) (not_configured chn)
      ++ report_missing is_staked is_native supported d

  unfoldable pub keep_supported : List ℕ → Dict LChainBasicData → Dict LChainBasicData
  unfolding is_supported
  keep_supported supported [] = []
  keep_supported supported ((chn, item) ∷ d) =
      let rest = keep_supported supported d in
      if is_supported item.chain_selector supported then (chn, item) ∷ rest else rest

  module _ (node : Node) where
    -- One round of the loop over the supported chains.
    unfoldable pub report_remote : Text → Bool → Text × LChainBasicData → List Report
    report_remote pool is_native (chn, item) =
        let remote = node.remote_token pool item.chain_selector in
        let token = address_of_word remote in
        let expected =
          (if is_native
            then native_address (get chn r.native_tokens)
            else address_or_empty (get chn r.staked_tokens)) in
        if text_eq remote (codes "0x")
        then no_remote_token chn ∷ []
        else report_if (not (text_eq token expected)) (unexpected_token token chn expected)
          ++ (report_remote_pools chn (node.remote_pools pool item.chain_selector)
                (get chn r.token_pools)
              ++ rate_config chn token (node.inbound pool item.chain_selector)
                  (node.outbound pool item.chain_selector)
                ∷ [])

    unfoldable pub report_remotes : Text → Bool → Dict LChainBasicData → List Report
    unfolding report_remote
    report_remotes pool is_native [] = []
    report_remotes pool is_native (c ∷ cs) =
        report_remote pool is_native c ++ report_remotes pool is_native cs

    abbrev pub is_staked_token : Text → Text → Bool
    is_staked_token chain token = option_text_eq (get chain r.staked_tokens) token

    abbrev pub is_native_token : Text → Text → Bool
    is_native_token chain token = has_token (get chain r.native_tokens) token

    -- The part behind the supported chains: the remote tokens and pools.
    unfoldable pub report_pool_remotes :
        Text → Bool → List ℕ → Dict LChainBasicData → List Report × Bool
    unfolding report_remotes keep_supported
    report_pool_remotes pool is_native supported d =
        when_has node (codes "getRemotePools") (codes "getRemotePools") (
          when_has node (codes "getRemoteToken") (codes "getRemoteToken")
            (report_remotes pool is_native (keep_supported supported d), true))

    -- One round of the loop over the token pools of the chain.
    unfoldable pub report_pool : Text → Dict LChainBasicData → Text → List Report × Bool
    report_pool chain d pool =
        let token = to_lower_case (node.pool_token pool) in
        let is_staked = is_staked_token chain token in
        let is_native = is_native_token chain token in
        let supported = node.supported_chains pool in
        let bridge = to_lower_case (node.pool_bridge pool) in
        let rmn = to_lower_case (node.pool_rmn pool) in
        let router = to_lower_case (node.pool_router pool) in
        then_report (checking_pool pool ∷ []) (
          when_has node (codes "getToken") (codes "getToken") (
            then_report (report_if (not (is_staked || is_native)) (wrong_token token)) (
              when_has node (codes "bridge") (codes "bridge") (
                then_report
                  (report_if (not (option_text_eq (get chain r.bridges) bridge))
                    (wrong_bridge bridge))
                  (when_has node (codes "getRmnProxy") (codes "getRmnProxy") (
                    then_report
                      (report_if (not (option_text_eq (get chain r.rmns) rmn)) (wrong_rmn rmn))
                      (when_has node (codes "getRouter") (codes "getRmnProxy") (
                        then_report
                          (report_if (not (option_text_eq (get chain r.routers) router))
                            (wrong_router router))
                          (when_has node (codes "getSupportedChains") (codes "getSupportedChains") (
                            then_report
                              (report_supported chain supported d
                                ++ report_missing is_staked is_native supported d)
                              (report_pool_remotes pool is_native supported d)))))))))))

    unfoldable pub report_pools : Text → Dict LChainBasicData → List Text → List Report
    report_pools chain d [] = []
    report_pools chain d (p ∷ ps) =
        let rest = report_pools chain d ps in
        let (lines, go_on) = report_pool chain d p in if go_on then lines ++ rest else lines

    abbrev pub pools_or_none : Text → Dict LChainBasicData → Option (List Text) → List Report
    pools_or_none chain d none = pools_absent ∷ []
    pools_or_none chain d (some []) = pools_absent ∷ []
    pools_or_none chain d (some (p ∷ ps)) = report_pools chain d (p ∷ ps)

    -- `checkTokenPool`.
    unfoldable pub check_token_pool : Text → Dict LChainBasicData → List Report
    check_token_pool chain d = pools_or_none chain d (get chain r.token_pools)
