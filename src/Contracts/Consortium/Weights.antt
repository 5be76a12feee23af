-- ===== src/Contracts/Consortium/Weights.antt =====
-- contracts/consortium/Consortium.sol, `_checkProof`: the weight behind a proof.
use evm_smart_contracts.Prelude.{
  ℕ, ◌+◌, ◌%◌, ◌≤◌, ◌<◌, ◌≡◌, ◌≢◌, ◌↔◌, some, Option-cases, List, [], ◌∷◌, Bytes, length, word_mod,
  ok, if◌then◌else◌, arith, inl, inr, Bool-cases,
}
use native.Mathlib.Nat.{mod-eq_of_lt}
use evm_smart_contracts.Contracts.Consortium.{Crypto, Storage, is_accepted, weigh, check_proof}

abbrev pub total : List ℕ → ℕ
total [] = 0
total (w ∷ ws) = w + total ws

module _ (crypto : Crypto) where
  -- The weights of the validators whose signatures are accepted, in exact arithmetic.
  unfoldable pub accepted_weight : ℕ → List Bytes → List ℕ → List ℕ → ℕ
  accepted_weight hash (sig ∷ sigs) (v ∷ vs) (w ∷ ws) =
      (if is_accepted crypto hash v sig then w else 0) + accepted_weight hash sigs vs ws
  accepted_weight hash _ _ _ = 0

  weigh_exact :
      (hash weight : ℕ) (sigs : List Bytes) (vs ws : List ℕ)
      → weight + total ws < word_mod
      → weigh crypto hash weight sigs vs ws ≡ weight + accepted_weight hash sigs vs ws
  unfolding weigh accepted_weight
  weigh_exact hash weight [] vs ws h = omega arith
  weigh_exact hash weight (sig ∷ sigs) [] ws h = omega arith
  weigh_exact hash weight (sig ∷ sigs) (v ∷ vs) [] h = omega arith
  weigh_exact hash weight (sig ∷ sigs) (v ∷ vs) (w ∷ ws) h =
      elim (Bool-cases (is_accepted crypto hash v sig)) [
        | inl signed ↦
            let m : (weight + w) % word_mod ≡ weight + w = mod-eq_of_lt (omega arith) in
            rw (signed, m) (omega (arith, weigh_exact hash (weight + w) sigs vs ws (omega arith)))
        | inr unsigned ↦
            rw unsigned (omega (arith, weigh_exact hash weight sigs vs ws (omega arith)))
      ]

  -- Where the weights of the current set fit in a word, a proof is accepted exactly if there is a
  -- validator set, the proof decodes to one signature for each validator, and the validators whose
  -- signatures are accepted have at least the threshold's weight, in exact arithmetic.
  pub check_proof_exact :
      (hash : ℕ) (proof : Bytes) (s : Storage)
      → total (s.validator_set s.epoch).weights < word_mod
      → let set = s.validator_set s.epoch in
        (check_proof crypto hash proof s ≡ ok tt) ↔ (
          (s.epoch ≢ 0)
          × (sigs : List Bytes) × (crypto.decode_signatures proof ≡ some sigs)
          × (length sigs ≡ length set.validators)
          × (set.weight_threshold ≤ accepted_weight hash sigs set.validators set.weights))
  unfolding check_proof
  check_proof_exact hash proof s h = elim (Option-cases (crypto.decode_signatures proof)) [
    | inl e ↦ (λ k. absurd (ground arith), λ k. absurd (ground (arith, k.1)))
    | inr (sigs, e) ↦
        let w =
          weigh_exact hash 0 sigs (s.validator_set s.epoch).validators
            (s.validator_set s.epoch).weights (omega arith) in
        (
          λ k. (ground arith, sigs, e, ground arith, ground arith),
          λ k. let same : k.1 ≡ sigs = ground arith in ground arith,
        )
  ]
