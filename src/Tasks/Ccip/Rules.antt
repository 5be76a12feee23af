-- ===== src/Tasks/Ccip/Rules.antt =====
-- tasks/ccip/check.ts: the rules `checkMailbox` and `checkBridge`.
use evm_smart_contracts.Prelude.{
  Bool, true, false, ◌||◌, ◌&&◌, not, Option, none, some, List, [], ◌∷◌, ◌++◌, Text, codes, text_eq,
  to_lower_case, last_chars, is_missing, ltb, ◌==◌, if◌then◌else◌, Dict, get,
}
use evm_smart_contracts.Tasks.Ccip.{Registry, LChainBasicData, NativeTokenData, default_to}
use evm_smart_contracts.Tasks.Ccip.Node.{
  Node, Report, mailbox_absent, bridge_absent, payload_too_small, fee_not_disabled, sender_config,
  checking_bridge, not_whitelisted, unexpected_discount, wrong_destination, rate_limit_unset,
  rate_limit,
}

-- A line that is printed on a condition.
abbrev pub report_if : Bool → Report → List Report
report_if true r = r ∷ []
report_if false r = []

abbrev pub zero_address : Text
zero_address = codes "0x0000000000000000000000000000000000000000"

-- '0x' + s.substring(s.length - 40).toLowerCase()
unfoldable pub address_of_word : Text → Text
address_of_word s = codes "0x" ++ to_lower_case (last_chars 40 s)

-- `m.get(k) == t`.
abbrev pub option_text_eq : Option Text → Text → Bool
option_text_eq none t = false
option_text_eq (some s) t = text_eq s t

abbrev pub address_or_empty : Option Text → Text
address_or_empty none = []
address_or_empty (some t) = t

-- The destination bridge is the expected one, or none is expected and none is set.
abbrev pub is_expected_bridge : Text → Option Text → Bool
is_expected_bridge dst expected =
    option_text_eq expected dst || (is_missing expected && text_eq dst zero_address)

abbrev pub pools_of : Option (List Text) → List Text
pools_of none = []
pools_of (some ps) = ps

module _ (node : Node) where
  unfoldable pub report_mailbox : Text → Text → List Report
  report_mailbox mailbox bridge =
      if node.has_function (codes "Mailbox") (codes "getSenderConfigWithDefault")
      then (let config = node.mailbox_config mailbox bridge in
          report_if (ltb config.max_payload_size 388) (payload_too_small config.max_payload_size)
          ++ (report_if (not config.fee_disabled) fee_not_disabled
              ++ sender_config mailbox bridge config ∷ []))
      else []

  -- `checkMailbox`.
  unfoldable pub check_mailbox : Text → Registry → List Report
  unfolding report_mailbox
  check_mailbox chain r =
      let bridge = get chain r.bridges in
      let mailbox = get chain r.mailboxes in
      if is_missing mailbox
      then mailbox_absent ∷ []
      else if is_missing bridge
      then bridge_absent ∷ []
      else report_mailbox (address_or_empty mailbox) (address_or_empty bridge)

  -- The loop over the token pools of the chain.
  unfoldable pub report_senders : Text → List Text → List Report
  report_senders bridge [] = []
  report_senders bridge (tp ∷ tps) =
      let config = node.pool_config bridge tp in
      report_if (not config.whitelisted) (not_whitelisted tp)
      ++ (report_if (not (config.fee_discount == 10000)) (unexpected_discount tp)
          ++ report_senders bridge tps)

  unfoldable pub report_rate_limit : Text → Text → Text → Text → List Report
  report_rate_limit bridge token chain l_chain_id =
      let amount = node.can_be_sent bridge token l_chain_id in
      (if amount == 0 then rate_limit_unset token chain else rate_limit token chain amount) ∷ []

  abbrev pub report_native :
      Text → Text → Text → Option NativeTokenData → Option NativeTokenData → List Report
  report_native bridge chain l_chain_id (some local) (some remote) =
      report_rate_limit bridge (default_to local.adapter (default_to local.token [])) chain
        l_chain_id
  report_native bridge chain l_chain_id none remote = []
  report_native bridge chain l_chain_id (some local) none = []

  abbrev pub report_staked : Text → Text → Text → Option Text → Option Text → List Report
  report_staked bridge chain l_chain_id local remote =
      if is_missing local || is_missing remote
      then []
      else report_rate_limit bridge (address_or_empty local) chain l_chain_id

  -- One round of the loop over the other chains.
  unfoldable pub report_chain : Text → Text → Registry → Text × LChainBasicData → List Report
  report_chain bridge local r (chain, item) =
      let dst = address_of_word (node.destination_bridge bridge item.l_chain_id) in
      let expected = get chain r.bridges in
      report_if (not (is_expected_bridge dst expected)) (wrong_destination dst expected chain)
      ++ (report_native bridge chain item.l_chain_id (get local r.native_tokens)
            (get chain r.native_tokens)
          ++ report_staked bridge chain item.l_chain_id (get local r.staked_tokens)
              (get chain r.staked_tokens))

  unfoldable pub report_chains : Text → Text → Registry → Dict LChainBasicData → List Report
  report_chains bridge local r [] = []
  report_chains bridge local r (c ∷ cs) =
      report_chain bridge local r c ++ report_chains bridge local r cs

  -- `checkBridge`.
  unfoldable pub check_bridge : Text → Registry → Dict LChainBasicData → List Report
  check_bridge chain r selectors =
      let bridge = address_or_empty (get chain r.bridges) in
      if is_missing (get chain r.bridges)
      then bridge_absent ∷ []
      else checking_bridge bridge
        ∷ (report_senders bridge (pools_of (get chain r.token_pools))
            ++ report_chains bridge chain r selectors)
