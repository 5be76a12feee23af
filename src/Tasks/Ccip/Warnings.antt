-- ===== src/Tasks/Ccip/Warnings.antt =====
-- tasks/ccip/check.ts: that the task does not print the warning on an unexpected selector.
use evm_smart_contracts.Prelude.{
  ℕ, inl, inr, Bool-cases, Option, none, some, List, [], ◌∷◌, ◌++◌, Text, All, All-append, Dict,
  get, is_missing, if◌then◌else◌, Bool, true, false, not, ◌||◌, ltb, codes, remove, list_includes,
  ◌==◌, Option-cases,
}
use evm_smart_contracts.Tasks.Ccip.{
  ChainConfig, Registry, LChainBasicData, NativeTokenData, empty_registry, scan_chains,
}
use evm_smart_contracts.Tasks.Ccip.Node.{
  Node, Report, mailbox_absent, bridge_absent, payload_too_small, fee_not_disabled, sender_config,
  checking_bridge, not_whitelisted, unexpected_discount, wrong_destination,
}
use evm_smart_contracts.Tasks.Ccip.Rules.{
  report_if, address_or_empty, address_of_word, is_expected_bridge, report_staked, pools_of,
  report_mailbox, check_mailbox, report_senders, report_rate_limit, report_native, report_chain,
  report_chains, check_bridge,
}
use evm_smart_contracts.Tasks.Ccip.Pools.{check_token_pool}
use evm_smart_contracts.Tasks.Ccip.Check.{run_rules, check}
use evm_smart_contracts.Tasks.Ccip.Selectors.{IsOther, check_token_pool-IsOther}

if-IsOther :
    (b : Bool) (xs ys : List Report)
    → All IsOther xs
    → All IsOther ys
    → All IsOther (if b then xs else ys)
if-IsOther true xs ys h k = h
if-IsOther false xs ys h k = k

if_append :
    (b : Bool) (rep : Report) (rest : List Report)
    → IsOther rep
    → All IsOther rest
    → All IsOther (report_if b rep ++ rest)
if_append true rep rest h k = (h, k)
if_append false rep rest h k = k

module _ (node : Node) where
  mailbox_lines-IsOther : (mailbox bridge : Text) → All IsOther (report_mailbox node mailbox bridge)
  unfolding report_mailbox
  mailbox_lines-IsOther mailbox bridge =
      let config = node.mailbox_config mailbox bridge in
      let last : List Report = sender_config mailbox bridge config ∷ [] in
      let fee : List Report = report_if (not config.fee_disabled) fee_not_disabled ++ last in
      let small = ltb config.max_payload_size 388 in
      if-IsOther (node.has_function (codes "Mailbox") (codes "getSenderConfigWithDefault"))
        (report_if small (payload_too_small config.max_payload_size) ++ fee) []
        (if_append small (payload_too_small config.max_payload_size) fee (λ c. cc)
          (if_append (not config.fee_disabled) fee_not_disabled last (λ c. cc) (λ c. cc, tt)))
        tt

  mailbox-IsOther : (chain : Text) (r : Registry) → All IsOther (check_mailbox node chain r)
  unfolding check_mailbox
  mailbox-IsOther chain r =
      let mailbox = get chain r.mailboxes in
      let bridge = get chain r.bridges in
      let lines = report_mailbox node (address_or_empty mailbox) (address_or_empty bridge) in
      if-IsOther (is_missing mailbox) (mailbox_absent ∷ [])
        (if is_missing bridge then bridge_absent ∷ [] else lines) (λ c. cc, tt)
        (if-IsOther (is_missing bridge) (bridge_absent ∷ []) lines (λ c. cc, tt)
          (mailbox_lines-IsOther (address_or_empty mailbox) (address_or_empty bridge)))

  senders-IsOther : (bridge : Text) (ps : List Text) → All IsOther (report_senders node bridge ps)
  unfolding report_senders
  senders-IsOther bridge [] = tt
  senders-IsOther bridge (p ∷ ps) =
      let config = node.pool_config bridge p in
      let rest = report_senders node bridge ps in
      let odd = not (config.fee_discount == 10000) in
      if_append (not config.whitelisted) (not_whitelisted p)
        (report_if odd (unexpected_discount p) ++ rest) (λ c. cc)
        (if_append odd (unexpected_discount p) rest (λ c. cc) (senders-IsOther bridge ps))

  rate_limit-IsOther :
      (bridge token chain l_chain_id : Text)
      → All IsOther (report_rate_limit node bridge token chain l_chain_id)
  unfolding report_rate_limit
  rate_limit-IsOther bridge token chain l_chain_id =
      elim (Bool-cases (node.can_be_sent bridge token l_chain_id == 0)) [
        | inl e ↦ rw e (λ c. cc, tt)
        | inr e ↦ rw e (λ c. cc, tt)
      ]

  native-IsOther :
      (bridge chain l_chain_id : Text) (local remote : Option NativeTokenData)
      → All IsOther (report_native node bridge chain l_chain_id local remote)
  native-IsOther bridge chain l_chain_id (some local) (some remote) =
      rate_limit-IsOther bridge _ _ _
  native-IsOther bridge chain l_chain_id none remote = tt
  native-IsOther bridge chain l_chain_id (some local) none = tt

  staked-IsOther :
      (bridge chain l_chain_id : Text) (local remote : Option Text)
      → All IsOther (report_staked node bridge chain l_chain_id local remote)
  staked-IsOther bridge chain l_chain_id local remote =
      let token = address_or_empty local in
      if-IsOther (is_missing local || is_missing remote) []
        (report_rate_limit node bridge token chain l_chain_id) tt
        (rate_limit-IsOther bridge token chain l_chain_id)

  chain-IsOther :
      (bridge local : Text) (r : Registry) (c : Text × LChainBasicData)
      → All IsOther (report_chain node bridge local r c)
  unfolding report_chain
  chain-IsOther bridge local r (chain, item) =
      let dst = address_of_word (node.destination_bridge bridge item.l_chain_id) in
      let expected = get chain r.bridges in
      let native =
        report_native node bridge chain item.l_chain_id (get local r.native_tokens)
          (get chain r.native_tokens) in
      let staked =
        report_staked node bridge chain item.l_chain_id (get local r.staked_tokens)
          (get chain r.staked_tokens) in
      if_append (not (is_expected_bridge dst expected)) (wrong_destination dst expected chain)
        (native ++ staked) (λ c. cc)
        (All-append IsOther native staked (native-IsOther bridge chain item.l_chain_id _ _)
          (staked-IsOther bridge chain item.l_chain_id _ _))

  chains-IsOther :
      (bridge local : Text) (r : Registry) (selectors : Dict LChainBasicData)
      → All IsOther (report_chains node bridge local r selectors)
  unfolding report_chains
  chains-IsOther bridge local r [] = tt
  chains-IsOther bridge local r (c ∷ cs) =
      All-append IsOther (report_chain node bridge local r c) (report_chains node bridge local r cs)
        (chain-IsOther bridge local r c) (chains-IsOther bridge local r cs)

  bridge-IsOther :
      (chain : Text) (r : Registry) (selectors : Dict LChainBasicData)
      → All IsOther (check_bridge node chain r selectors)
  unfolding check_bridge
  bridge-IsOther chain r selectors =
      let bridge = address_or_empty (get chain r.bridges) in
      let pools = pools_of (get chain r.token_pools) in
      let whole : All IsOther (
          checking_bridge bridge
          ∷ (report_senders node bridge pools ++ report_chains node bridge chain r selectors)) =
        (
          λ c. cc,
          All-append IsOther (report_senders node bridge pools)
              (report_chains node bridge chain r selectors) (senders-IsOther bridge pools)
              (chains-IsOther bridge chain r selectors),
        ) in
      if-IsOther (is_missing (get chain r.bridges)) (bridge_absent ∷ []) _ (λ c. cc, tt) whole

  rules-IsOther : (target : Text) (r : Registry) → All IsOther (run_rules node target r)
  unfolding run_rules
  rules-IsOther target r =
      let others = remove target r.chain_selectors in
      let bridge = check_bridge node target r others in
      let pools = check_token_pool r node target others in
      All-append IsOther (check_mailbox node target r) (bridge ++ pools) (mailbox-IsOther target r)
        (All-append IsOther bridge pools (bridge-IsOther target r others)
          (check_token_pool-IsOther r node target r.chain_selectors))

  -- The lines that a run prints; the exception of a selector that is no number comes before the rules.
  abbrev pub lines_of : Option (List Report) → List Report
  lines_of none = []
  lines_of (some lines) = lines

  -- No line that the rules print in a run of the task is the warning "unexpected destination chain
  -- selector".
  pub check-IsOther :
      (big_int : Text → Option ℕ) (target : Text) (addresses : List (Text × ChainConfig))
      → All IsOther (lines_of (check big_int node target addresses))
  unfolding check
  check-IsOther big_int target addresses =
      elim (Option-cases (scan_chains big_int addresses empty_registry)) [
        | inl e ↦ rw (check, e) tt
        | inr (r, e) ↦
            rw (check, e)
              (if-IsOther (list_includes r.chains target) (run_rules node target r) []
                (rules-IsOther target r) tt)
      ]
