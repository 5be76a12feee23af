-- ===== src/Tasks/Ccip/Clean.antt =====
-- tasks/ccip/check.ts, `checkBridge`: what it means that the rule prints no error.
use evm_smart_contracts.Prelude.{
  ◌≡◌, ◌≢◌, ◌↔◌, ◌⊎◌, refl, sym, some_inj, Bool, true, false, not, Option, none, some, List, [],
  ◌∷◌, ◌++◌, Text, All, ◌==◌, Dict, get, arith, text_eq_refl, text_eq→eq,
}
use evm_smart_contracts.Tasks.Ccip.{Registry, LChainBasicData, NativeTokenData, default_to}
use evm_smart_contracts.Tasks.Ccip.Node.{
  Node, Report, error, level, not_whitelisted, unexpected_discount, wrong_destination,
}
use evm_smart_contracts.Tasks.Ccip.Rules.{
  report_if, zero_address, address_of_word, is_expected_bridge, report_senders, report_rate_limit,
  report_native, report_staked, report_chain, report_chains, check_bridge, pools_of,
}

-- Nothing that is printed is an error.
abbrev pub IsClean : List Report → Type 0
IsClean rs = All (λ r. level r ≢ error) rs

IsClean-append : (xs ys : List Report) → IsClean (xs ++ ys) ↔ IsClean xs × IsClean ys
IsClean-append [] ys = (λ h. (tt, h), λ h. h.1)
IsClean-append (x ∷ xs) ys =
    let ih = IsClean-append xs ys in
    (λ h. ((h.0, (ih.0 h.1).0), (ih.0 h.1).1), λ h. (h.0.0, ih.1 (h.0.1, h.1)))

-- The bridge that is set for a chain: the one that the file names, or none where it names none.
abbrev pub IsExpected : Text → Option Text → Type 0
IsExpected dst expected =
    (expected ≡ some dst) ⊎ (((expected ≡ none) ⊎ (expected ≡ some [])) × (dst ≡ zero_address))

-- What the rule demands of one other chain.
pub record ChainIsSound (node : Node) (bridge local : Text) (r : Registry)
    (c : Text × LChainBasicData) : Type 0 where
  pub destination :
      IsExpected
        (address_of_word (node.destination_bridge bridge c.1.l_chain_id))
        (get c.0 r.bridges)
  pub native_limit :
      (own other : NativeTokenData)
      → get local r.native_tokens ≡ some own
      → get c.0 r.native_tokens ≡ some other
      → node.can_be_sent bridge (default_to own.adapter (default_to own.token [])) c.1.l_chain_id
        ≢ 0
  pub staked_limit :
      (own other : Text)
      → get local r.staked_tokens ≡ some own
      → get c.0 r.staked_tokens ≡ some other
      → own ≢ []
      → other ≢ []
      → node.can_be_sent bridge own c.1.l_chain_id ≢ 0

IsExpected-iff :
    (dst : Text) (expected : Option Text)
    → (is_expected_bridge dst expected ≡ true) ↔ IsExpected dst expected
IsExpected-iff dst none = ground (arith, text_eq→eq dst zero_address, text_eq_refl zero_address)
IsExpected-iff dst (some []) = ground (
  arith,
  text_eq→eq dst zero_address,
  text_eq_refl zero_address,
  text_eq→eq [] dst,
  text_eq_refl [],
)
IsExpected-iff dst (some (c ∷ t)) = ground (arith, text_eq→eq (c ∷ t) dst, text_eq_refl (c ∷ t))

IsClean-if : (b : Bool) (r : Report) → level r ≡ error → IsClean (report_if b r) ↔ (b ≡ false)
IsClean-if true r e = (λ h. absurd (h.0 e), λ h. cc)
IsClean-if false r e = (λ h. refl, λ h. tt)

not_whitelisted-level : (a : Text) → level (not_whitelisted a) ≡ error
unfolding level
not_whitelisted-level a = refl

discount-IsClean : (b : Bool) (p : Text) → IsClean (report_if b (unexpected_discount p)) ↔ Unit {0}
unfolding level
discount-IsClean true p = (λ h. tt, λ h. (λ x. cc, tt))
discount-IsClean false p = (λ h. tt, λ h. tt)

wrong_destination-level :
    (a : Text) (b : Option Text) (c : Text) → level (wrong_destination a b c) ≡ error
unfolding level
wrong_destination-level a b c = refl

not-false : (b : Bool) → not b ≡ false → b ≡ true
not-false b h = ground arith

and_IsClean {ℓ κ} :
    {P : Type ℓ} {Q : Type κ} (xs ys : List Report)
    → IsClean xs ↔ P
    → IsClean ys ↔ Q
    → IsClean (xs ++ ys) ↔ P × Q
and_IsClean xs ys p q =
    let a = IsClean-append xs ys in
    (λ h. (p.0 (a.0 h).0, q.0 (a.0 h).1), λ h. a.1 (p.1 h.0, q.1 h.1))

destination-IsClean :
    (dst : Text) (expected : Option Text) (chain : Text)
    → IsClean
        (report_if (not (is_expected_bridge dst expected)) (wrong_destination dst expected chain))
      ↔ IsExpected dst expected
destination-IsClean dst expected chain =
    let c =
      IsClean-if (not (is_expected_bridge dst expected)) (wrong_destination dst expected chain)
        (wrong_destination-level _ _ _) in
    let e = IsExpected-iff dst expected in (λ h. e.0 (not-false _ (c.0 h)), λ h. c.1 (rw (e.1 h)))

module _ (node : Node) (bridge local : Text) (r : Registry) where
  report_rate_limit-IsClean :
      (token chain l_chain_id : Text)
      → IsClean (report_rate_limit node bridge token chain l_chain_id)
        ↔ (node.can_be_sent bridge token l_chain_id ≢ 0)
  unfolding report_rate_limit level
  report_rate_limit-IsClean token chain l_chain_id = ground arith

  native-IsClean :
      (chain l_chain_id : Text) (own other : Option NativeTokenData)
      → IsClean (report_native node bridge chain l_chain_id own other) ↔ (
          (o : NativeTokenData) (t : NativeTokenData)
          → own ≡ some o
          → other ≡ some t
          → node.can_be_sent bridge (default_to o.adapter (default_to o.token [])) l_chain_id ≢ 0)
  native-IsClean chain l_chain_id none other = (λ h o t e. cc, λ h. tt)
  native-IsClean chain l_chain_id (some o) none = (λ h o t e f. cc, λ h. tt)
  native-IsClean chain l_chain_id (some o) (some t) =
      let q =
        report_rate_limit-IsClean (default_to o.adapter (default_to o.token [])) chain l_chain_id in
      (λ h o' t' e f. rw (← some_inj e) (q.0 h), λ h. q.1 (h o t refl refl))

  staked-IsClean :
      (chain l_chain_id : Text) (own other : Option Text)
      → IsClean (report_staked node bridge chain l_chain_id own other) ↔ (
          (o t : Text)
          → own ≡ some o
          → other ≡ some t
          → o ≢ []
          → t ≢ []
          → node.can_be_sent bridge o l_chain_id ≢ 0)
  staked-IsClean chain l_chain_id none other = (λ h o t e. cc, λ h. tt)
  staked-IsClean chain l_chain_id (some []) other =
      (λ h o t e f n. absurd (n (sym (some_inj e))), λ h. tt)
  staked-IsClean chain l_chain_id (some (c ∷ o)) none = (λ h o t e f. cc, λ h. tt)
  staked-IsClean chain l_chain_id (some (c ∷ o)) (some []) =
      (λ h o t e f n m. absurd (m (sym (some_inj f))), λ h. tt)
  staked-IsClean chain l_chain_id (some (c ∷ o)) (some (d ∷ t)) =
      let q = report_rate_limit-IsClean (c ∷ o) chain l_chain_id in
      (
        λ h o' t' e f n m. rw (← some_inj e) (q.0 h),
        λ h. q.1 (h (c ∷ o) (d ∷ t) refl refl (λ x. cc) (λ x. cc)),
      )

  chain-IsClean :
      (c : Text × LChainBasicData)
      → IsClean (report_chain node bridge local r c) ↔ ChainIsSound node bridge local r c
  unfolding report_chain
  chain-IsClean (chain, item) =
      let own_native = get local r.native_tokens in
      let native = get chain r.native_tokens in
      let own_staked = get local r.staked_tokens in
      let staked = get chain r.staked_tokens in
      let dst : Text = address_of_word (node.destination_bridge bridge item.l_chain_id) in
      let parts = and_IsClean _ _ (destination-IsClean dst (get chain r.bridges) chain) (
        and_IsClean _ _ (native-IsClean chain item.l_chain_id own_native native)
          (staked-IsClean chain item.l_chain_id own_staked staked)) in
      (
        λ h.
            let (d, p) = parts.0 h in
            record { destination = d; native_limit = p.0; staked_limit = p.1 },
        λ h. parts.1 (h.destination, (h.native_limit, h.staked_limit)),
      )

  chains-IsClean :
      (cs : Dict LChainBasicData)
      → IsClean (report_chains node bridge local r cs) ↔ All (ChainIsSound node bridge local r) cs
  unfolding report_chains
  chains-IsClean [] = (λ h. tt, λ h. tt)
  chains-IsClean (c ∷ cs) = and_IsClean _ _ (chain-IsClean c) (chains-IsClean cs)

  senders-IsClean :
      (ps : List Text)
      → IsClean (report_senders node bridge ps)
        ↔ All (λ p. (node.pool_config bridge p).whitelisted ≡ true) ps
  unfolding report_senders
  senders-IsClean [] = (λ h. tt, λ h. tt)
  senders-IsClean (p ∷ ps) =
      let config = node.pool_config bridge p in
      let w = IsClean-if (not config.whitelisted) (not_whitelisted p) (not_whitelisted-level p) in
      let whole = and_IsClean _ _ w (
        and_IsClean _ _ (discount-IsClean (not (config.fee_discount == 10000)) p)
          (senders-IsClean ps)) in
      (λ h. (not-false _ (whole.0 h).0, (whole.0 h).1.1), λ h. whole.1 (rw h.0, (tt, h.1)))

-- Where the file names a bridge of the chain, the rule prints no error exactly if the bridge
-- whitelists every token pool of the chain and each other chain is set up as the file says: the
-- destination bridge is the expected one, and of each token that both chains have the amount that
-- can be sent now, within the rate limit, is not zero.
pub check_bridge-IsClean :
    (node : Node) (chain bridge : Text) (r : Registry) (selectors : Dict LChainBasicData)
    → get chain r.bridges ≡ some bridge
    → bridge ≢ []
    → IsClean (check_bridge node chain r selectors)
      ↔ All
          (λ p. (node.pool_config bridge p).whitelisted ≡ true)
          (pools_of (get chain r.token_pools))
        × All (ChainIsSound node bridge chain r) selectors
unfolding check_bridge level
check_bridge-IsClean node chain [] r selectors e n = absurd (n refl)
check_bridge-IsClean node chain (c ∷ b) r selectors e n =
    let whole =
      and_IsClean _ _ (senders-IsClean node (c ∷ b) chain r (pools_of (get chain r.token_pools)))
        (chains-IsClean node (c ∷ b) chain r selectors) in
    rw e (λ h. whole.0 h.1, λ h. (λ x. cc, whole.1 h))
