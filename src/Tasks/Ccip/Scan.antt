-- ===== src/Tasks/Ccip/Scan.antt =====
-- tasks/ccip/check.ts: which chains of the file are checked.
use evm_smart_contracts.Prelude.{
  ℕ, ◌≡◌, ◌⊎◌, inl, inr, refl, Bool, true, false, Option, none, some, some_inj, List, [], ◌∷◌, ◌++◌,
  Text, Option-cases, list_includes, arith, All, All-append,
}
use evm_smart_contracts.Tasks.Ccip.{
  Entries, ChainConfig, Registry, scan_lombard_entry, scan_lombard, scan_lombard_section,
  scan_avalanche, scan_ccip_entry, scan_ccip, scan_chainlink, scan_chain, scan_chains,
  chains_to_skip,
}

-- The chains that are to be checked when the scan of one chain is done.
abbrev IsKept : Text → Type 0
IsKept chain = list_includes chains_to_skip chain ≡ false

scan_lombard_entry-chains :
    (chain : Text) (e : Text × Text) (acc : Registry × Bool)
    → (scan_lombard_entry chain e acc).0.chains ≡ acc.0.chains
unfolding scan_lombard_entry
scan_lombard_entry-chains chain (name, address) (r, found) = ground arith

scan_lombard-chains :
    (chain : Text) (es : Entries) (acc : Registry × Bool)
    → (scan_lombard chain es acc).0.chains ≡ acc.0.chains
unfolding scan_lombard
scan_lombard-chains chain [] acc = refl
scan_lombard-chains chain (e ∷ es) acc = cc (
  scan_lombard-chains chain es (scan_lombard_entry chain e acc),
  scan_lombard_entry-chains chain e acc,
)

scan_lombard_section-chains :
    (chain : Text) (o : Option Entries) (r : Registry)
    → (scan_lombard_section chain o r).0.chains ≡ r.chains
scan_lombard_section-chains chain none r = refl
scan_lombard_section-chains chain (some es) r = scan_lombard-chains chain es (r, false)

scan_avalanche-chains :
    (chain : Text) (config : ChainConfig) (r : Registry)
    → (scan_avalanche chain config r).chains ≡ r.chains
unfolding scan_avalanche
scan_avalanche-chains chain config r = ground arith

module _ (big_int : Text → Option ℕ) where
  scan_ccip_entry-chains :
      (chain chain_id : Text) (e : Text × Text) (acc acc' : Registry × Bool)
      → scan_ccip_entry big_int chain chain_id e acc ≡ some acc'
      → acc'.0.chains ≡ acc.0.chains
  unfolding scan_ccip_entry
  scan_ccip_entry-chains chain chain_id (name, value) (r, need) (r', need') h = ground arith

  scan_ccip-chains :
      (chain chain_id : Text) (es : Entries) (acc acc' : Registry × Bool)
      → scan_ccip big_int chain chain_id es acc ≡ some acc'
      → acc'.0.chains ≡ acc.0.chains
  unfolding scan_ccip
  scan_ccip-chains chain chain_id [] acc acc' h = cc
  scan_ccip-chains chain chain_id (e ∷ es) acc acc' h =
      elim (Option-cases (scan_ccip_entry big_int chain chain_id e acc)) [
        | inl x ↦ absurd (ground arith)
        | inr (mid, x) ↦ ground (
          arith,
          scan_ccip-chains chain chain_id es mid acc',
          scan_ccip_entry-chains chain chain_id e acc mid x,
        )
      ]

  scan_chainlink-chains :
      (chain : Text) (config : ChainConfig) (found : Bool) (r : Registry) (acc : Registry × Bool)
      → scan_chainlink big_int chain config found r ≡ some acc
      → acc.0.chains ≡ r.chains
  unfolding scan_chainlink
  scan_chainlink-chains chain config false r acc h = ground arith
  scan_chainlink-chains chain config true r acc h = elim (Option-cases config.chainlink) [
    | inl x ↦ ground arith
    | inr (es, x) ↦ scan_ccip-chains chain _ es (r, false) acc (rw (x, scan_chainlink) at h)
  ]

  -- The scan of one chain adds at most that chain, and only if it is not skipped.
  scan_chain-chains :
      (chain : Text) (config : ChainConfig) (r r' : Registry)
      → scan_chain big_int (chain, config) r ≡ some r'
      → (r'.chains ≡ r.chains)
        ⊎ ((list_includes chains_to_skip chain ≡ false) × (r'.chains ≡ r.chains ++ chain ∷ []))
  unfolding scan_chain
  scan_chain-chains chain config r r' h =
      let found = scan_lombard_section chain config.lombard r in
      let before = scan_avalanche chain config found.0 in
      elim (Option-cases (scan_chainlink big_int chain config found.1 before)) [
        | inl x ↦ ground arith
        | inr (acc, x) ↦ ground (
          arith,
          scan_lombard_section-chains chain config.lombard r,
          scan_avalanche-chains chain config found.0,
          scan_chainlink-chains chain config found.1 before acc x,
        )
      ]

  scan_chain-IsKept :
      (c : Text × ChainConfig) (r r' : Registry)
      → scan_chain big_int c r ≡ some r'
      → All IsKept r.chains
      → All IsKept r'.chains
  scan_chain-IsKept (chain, config) r r' h k = elim (scan_chain-chains chain config r r' h) [
    | inl e ↦ rw e k
    | inr (kept, e) ↦ rw e (All-append IsKept r.chains (chain ∷ []) k (kept, tt))
  ]

  -- Where the scan returns and started without a chain that the task skips, no such chain is among
  -- those to be checked, whatever the file says.
  pub scan_chains-kept :
      (cs : List (Text × ChainConfig)) (r : Registry) {r' : Registry}
      → All (λ chain. list_includes chains_to_skip chain ≡ false) r.chains
      → scan_chains big_int cs r ≡ some r'
      → All (λ chain. list_includes chains_to_skip chain ≡ false) r'.chains
  unfolding scan_chains
  scan_chains-kept [] r k h = rw (← some_inj h) k
  scan_chains-kept (c ∷ cs) r k h = elim (Option-cases (scan_chain big_int c r)) [
    | inl x ↦ absurd (ground arith)
    | inr (mid, x) ↦
        scan_chains-kept cs mid (scan_chain-IsKept c r mid x k) (rw (x, scan_chains) at h)
  ]
