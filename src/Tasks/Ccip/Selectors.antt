-- ===== src/Tasks/Ccip/Selectors.antt =====
-- tasks/ccip/check.ts, `checkTokenPool`: the warning on the chain's own selector.
use evm_smart_contracts.Prelude.{
  ℕ, ◌≡◌, ◌≢◌, refl, Bool, true, false, Option, none, some, List, [], ◌∷◌, Text, All, All-append,
  text_eq, Dict, get, remove, get-remove_self, arith, codes, Bool-cases, inl, inr,
}
use evm_smart_contracts.Tasks.Ccip.{Registry, LChainBasicData}
use evm_smart_contracts.Tasks.Ccip.Node.{Node, Report, unexpected_selector}
use evm_smart_contracts.Tasks.Ccip.Rules.{report_if}
use evm_smart_contracts.Tasks.Ccip.Pools.{
  report_matches, report_supported, report_missing, report_remote, report_remotes,
  report_remote_pools, report_pool_remotes, when_has, then_report, report_pool, report_pools,
  pools_or_none, check_token_pool,
}

-- A line that is not the warning "unexpected destination chain selector".
abbrev pub IsOther : Report → Type 0
IsOther rep = (chn : ℕ) → rep ≢ unexpected_selector chn

abbrev AllOther : List Report → Type 0
AllOther rs = All IsOther rs

other_if : (b : Bool) (rep : Report) → IsOther rep → AllOther (report_if b rep)
other_if true rep h = (h, tt)
other_if false rep h = tt

-- Without an entry for the chain itself, no entry matches it.
report_matches-none :
    (chain : Text) (chn : ℕ) (d : Dict LChainBasicData)
    → get chain d ≡ none
    → report_matches chain chn d ≡ []
unfolding report_matches get
report_matches-none chain chn [] h = refl
report_matches-none chain chn ((k, v) ∷ d) h = ground (arith, report_matches-none chain chn d)

report_supported_other :
    (chain : Text) (chns : List ℕ) (d : Dict LChainBasicData)
    → get chain d ≡ none
    → AllOther (report_supported chain chns d)
unfolding report_supported
report_supported_other chain [] d h = tt
report_supported_other chain (chn ∷ chns) d h =
    rw (report_matches-none chain chn d h)
      (All-append IsOther _ _ (other_if _ _ (λ c. cc)) (report_supported_other chain chns d h))

remote_pools_other :
    (chn : Text) (ps : List Text) (expected : Option (List Text))
    → AllOther (report_remote_pools chn ps expected)
unfolding report_remote_pools
remote_pools_other chn [] expected = (λ c. cc, tt)
remote_pools_other chn (p ∷ []) none = tt
remote_pools_other chn (p ∷ []) (some e) = other_if _ _ (λ c. cc)
remote_pools_other chn (p ∷ q ∷ ps) expected = (λ c. cc, tt)

when_has_other :
    (node : Node) (name printed : Text) (rest : List Report × Bool)
    → AllOther rest.0
    → AllOther (when_has node name printed rest).0
unfolding when_has
when_has_other node name printed rest h =
    elim (Bool-cases (node.has_function (codes "LombardTokenPoolV2") name)) [
      | inl e ↦ rw e h
      | inr e ↦ rw e (λ c. cc, tt)
    ]

then_report_other :
    (lines : List Report) (rest : List Report × Bool)
    → AllOther lines
    → AllOther rest.0
    → AllOther (then_report lines rest).0
unfolding then_report
then_report_other lines (rest, go_on) h k = All-append IsOther lines rest h k

module _ (r : Registry) where
  report_missing_other :
      (is_staked is_native : Bool) (supported : List ℕ) (d : Dict LChainBasicData)
      → AllOther (report_missing r is_staked is_native supported d)
  unfolding report_missing
  report_missing_other is_staked is_native supported [] = tt
  report_missing_other is_staked is_native supported ((chn, item) ∷ d) =
      All-append IsOther _ _ (other_if _ _ (λ c. cc))
        (report_missing_other is_staked is_native supported d)

  module _ (node : Node) where
    report_remote_other :
        (pool : Text) (is_native : Bool) (c : Text × LChainBasicData)
        → AllOther (report_remote r node pool is_native c)
    unfolding report_remote
    report_remote_other pool is_native (chn, item) =
        elim (Bool-cases (text_eq (node.remote_token pool item.chain_selector) (codes "0x"))) [
          | inl e ↦ rw e (λ c. cc, tt)
          | inr e ↦ rw e (
              All-append IsOther _ _ (other_if _ _ (λ c. cc))
                (All-append IsOther _ _ (remote_pools_other chn _ _) (λ c. cc, tt)))
        ]

    report_remotes_other :
        (pool : Text) (is_native : Bool) (d : Dict LChainBasicData)
        → AllOther (report_remotes r node pool is_native d)
    unfolding report_remotes
    report_remotes_other pool is_native [] = tt
    report_remotes_other pool is_native (c ∷ cs) =
        All-append IsOther _ _ (report_remote_other pool is_native c)
          (report_remotes_other pool is_native cs)

    report_pool_other :
        (chain : Text) (d : Dict LChainBasicData) (pool : Text)
        → get chain d ≡ none
        → AllOther (report_pool r node chain d pool).0
    unfolding report_pool report_pool_remotes
    report_pool_other chain d pool h =
        then_report_other _ _ (λ c. cc, tt)
          (when_has_other node _ _ _ (
            then_report_other _ _ (other_if _ _ (λ c. cc)) (
              when_has_other node _ _ _ (
                then_report_other _ _ (other_if _ _ (λ c. cc)) (
                  when_has_other node _ _ _ (
                    then_report_other _ _ (other_if _ _ (λ c. cc)) (
                      when_has_other node _ _ _ (
                        then_report_other _ _ (other_if _ _ (λ c. cc)) (
                          when_has_other node _ _ _ (
                            then_report_other _ _
                              (All-append IsOther _ _ (report_supported_other chain _ d h)
                                (report_missing_other _ _ _ d))
                              (when_has_other node _ _ _ (
                                when_has_other node _ _ _
                                  (report_remotes_other pool _ _)))))))))))))

    report_pools_other :
        (chain : Text) (d : Dict LChainBasicData) (ps : List Text)
        → get chain d ≡ none
        → AllOther (report_pools r node chain d ps)
    unfolding report_pools
    report_pools_other chain d [] h = tt
    report_pools_other chain d (p ∷ ps) h = elim (Bool-cases (report_pool r node chain d p).1) [
      | inl e ↦
          rw e (
            All-append IsOther _ _ (report_pool_other chain d p h)
              (report_pools_other chain d ps h))
      | inr e ↦ rw e (report_pool_other chain d p h)
    ]

    pools_or_none_other :
        (chain : Text) (d : Dict LChainBasicData) (ps : Option (List Text))
        → get chain d ≡ none
        → AllOther (pools_or_none r node chain d ps)
    pools_or_none_other chain d none h = (λ c. cc, tt)
    pools_or_none_other chain d (some []) h = (λ c. cc, tt)
    pools_or_none_other chain d (some (p ∷ ps)) h = report_pools_other chain d (p ∷ ps) h

    -- The rule never prints "unexpected destination chain selector" in a run of the task, which
    -- takes the checked chain's own selector out of the map before it calls the rule.
    pub check_token_pool-IsOther :
        (target : Text) (selectors : Dict LChainBasicData)
        → All IsOther (check_token_pool r node target (remove target selectors))
    unfolding check_token_pool
    check_token_pool-IsOther target selectors =
        pools_or_none_other target (remove target selectors) (get target r.token_pools)
          (get-remove_self target selectors)
