-- ===== src/Contracts/Consortium/Epochs.antt =====
-- contracts/consortium/Consortium.sol: the validator sets over any sequence of calls.
use evm_smart_contracts.Prelude.{
  ℕ, ◌+◌, ◌<◌, ◌≡◌, ◌≢◌, refl, not, List, [], ◌∷◌, Bytes, length, drop, word_mod, ok, ◌==◌, arith,
  inl, inr, Bool-cases, >>=-eq-ok, ◌∙◌, or_revert, revert_if, guard, ltb, ◌||◌, checked_add,
}
use evm_smart_contracts.Contracts.Abi.{selector_of}
use evm_smart_contracts.Contracts.Consortium.{
  Crypto, Storage, ValSetAction, blank, sum_weights, pub_keys_to_address, validate_val_set,
  set_validator_set, check_proof, set_initial_validator_set, set_next_validator_set, malformed,
  not_owner, invalid_payload_size, invalid_validator_set_size, length_mismatch, invalid_threshold,
  unexpected_action, new_valset, val_set_already_set, invalid_epoch, panic,
}
use evm_smart_contracts.Contracts.Consortium.Weights.{total}

-- The weights of a set fit in a word.
abbrev pub IsSound : Storage → Type 0
IsSound s = (e : ℕ) → total (s.validator_set e).weights < word_mod

sum_weights_step :
    (sum w : ℕ) (ws : List ℕ) {r : ℕ}
    → sum_weights sum (w ∷ ws) ≡ ok r
    → (sum + w < word_mod) × (sum_weights (sum + w) ws ≡ ok r)
unfolding sum_weights
sum_weights_step sum w ws h = ground arith

sum_weights_exact :
    (sum : ℕ) (ws : List ℕ) {r : ℕ}
    → sum_weights sum ws ≡ ok r
    → sum < word_mod
    → sum + total ws < word_mod
unfolding sum_weights
sum_weights_exact sum [] h k = omega arith
sum_weights_exact sum (w ∷ ws) h k =
    let (fits, rest) = sum_weights_step sum w ws h in
    omega (arith, sum_weights_exact (sum + w) ws rest fits)

module _ (crypto : Crypto) where
  -- The weights of a decoded set, summed with checks, fit in a word.
  validate_val_set_fits :
      (payload : Bytes) {a : ValSetAction}
      → validate_val_set crypto payload ≡ ok a
      → total a.weights < word_mod
  unfolding validate_val_set
  validate_val_set_fits payload h =
      let (p, _, h1) = >>=-eq-ok (or_revert (crypto.decode_val_set payload) malformed) _ h in
      let (_, _, h2) =
        >>=-eq-ok
          (revert_if (not (crypto.encoded_length p == length payload))
            (invalid_payload_size (length payload) (crypto.encoded_length p)))
          _ h1 in
      let (_, _, h3) =
        >>=-eq-ok
          (revert_if (ltb (length p.pub_keys) 1 || ltb 102 (length p.pub_keys))
            invalid_validator_set_size)
          _ h2 in
      let (_, _, h4) =
        >>=-eq-ok (revert_if (not (length p.pub_keys == length p.weights)) length_mismatch) _ h3 in
      let (_, _, h5) = >>=-eq-ok (revert_if (p.weight_threshold == 0) invalid_threshold) _ h4 in
      let (sum, e, h6) = >>=-eq-ok (sum_weights 0 p.weights) _ h5 in
      let (_, _, h7) = >>=-eq-ok (revert_if (ltb sum p.weight_threshold) invalid_threshold) _ h6 in
      let (vs, _, h8) = >>=-eq-ok (pub_keys_to_address crypto p.pub_keys) _ h7 in
      let fits = sum_weights_exact 0 p.weights e (omega arith) in ground arith

  check_proof_epoch :
      (hash : ℕ) (proof : Bytes) (s : Storage)
      → check_proof crypto hash proof s ≡ ok tt
      → s.epoch ≢ 0
  unfolding check_proof
  check_proof_epoch hash proof s h = ground arith

  -- What a call that stores a set does.
  record IsStored (a : ValSetAction) (s t : Storage) : Type 0 where
    fresh : (s.validator_set a.epoch).weight_threshold ≡ 0
    epoch : t.epoch ≡ a.epoch
    stored : (t.validator_set a.epoch).weights ≡ a.weights
    others : (e : ℕ) → e ≢ a.epoch → t.validator_set e ≡ s.validator_set e

  set_validator_set-IsStored :
      (a : ValSetAction) (s : Storage) {t : Storage}
      → set_validator_set crypto a s ≡ ok t
      → IsStored a s t
  unfolding set_validator_set
  set_validator_set-IsStored a s h = record {
    fresh = ground arith;
    epoch = ground arith;
    stored = ground arith;
    others = λ e ne. ground arith;
  }

  -- The calls that change the storage.
  pub data Step : Storage → Storage → Type 0 where
    initial :
        (sender : ℕ) (payload : Bytes) {s t : Storage}
        → set_initial_validator_set crypto sender payload s ≡ ok t
        → Step s t
    following :
        (payload proof : Bytes) {s t : Storage}
        → set_next_validator_set crypto payload proof s ≡ ok t
        → Step s t

  pub data Reach (s : Storage) : Storage → Type 0 where
    here : Reach s s
    next : {t u : Storage} → Reach s t → Step t u → Reach s u

  initial_inv :
      (sender : ℕ) (payload : Bytes) (s : Storage) {t : Storage}
      → set_initial_validator_set crypto sender payload s ≡ ok t
      → (a : ValSetAction) × (validate_val_set crypto (drop 4 payload) ≡ ok a)
        × (s.epoch ≡ 0)
        × IsStored a s t
  unfolding set_initial_validator_set
  initial_inv sender payload s h =
      let (_, _, h1) = >>=-eq-ok (guard (crypto.is_owner sender) not_owner) _ h in
      let (_, _, h2) =
        >>=-eq-ok
          (revert_if (not (selector_of payload == new_valset))
            (unexpected_action (selector_of payload)))
          _ h1 in
      let (a, e, h3) = >>=-eq-ok (validate_val_set crypto (drop 4 payload)) _ h2 in
      let (_, z, h4) = >>=-eq-ok (revert_if (not (s.epoch == 0)) val_set_already_set) _ h3 in
      (a, e, ground arith, set_validator_set-IsStored a s h4)

  -- A following set was signed with enough weight of the current one, and has the next epoch.
  next_inv :
      (payload proof : Bytes) (s : Storage) {t : Storage}
      → set_next_validator_set crypto payload proof s ≡ ok t
      → (a : ValSetAction) × (validate_val_set crypto (drop 4 payload) ≡ ok a)
        × (check_proof crypto (crypto.sha256 payload) proof s ≡ ok tt)
        × (a.epoch ≡ s.epoch + 1)
        × IsStored a s t
  unfolding set_next_validator_set
  next_inv payload proof s h =
      let (_, _, h1) =
        >>=-eq-ok
          (revert_if (not (selector_of payload == new_valset))
            (unexpected_action (selector_of payload)))
          _ h in
      let (a, e, h2) = >>=-eq-ok (validate_val_set crypto (drop 4 payload)) _ h1 in
      let (_, p, h3) = >>=-eq-ok (check_proof crypto (crypto.sha256 payload) proof s) _ h2 in
      let (n, c, h4) = >>=-eq-ok (checked_add panic s.epoch 1) _ h3 in
      let (_, z, h5) = >>=-eq-ok (revert_if (not (a.epoch == n)) invalid_epoch) _ h4 in
      (a, e, p, ground arith, set_validator_set-IsStored a s h5)

  stored-IsSound :
      (a : ValSetAction) (s t : Storage)
      → total a.weights < word_mod
      → IsStored a s t
      → IsSound s
      → IsSound t
  stored-IsSound a s t fits st i e = elim (Bool-cases (e == a.epoch)) [
    | inl same ↦ let k : e ≡ a.epoch = ground arith in rw k (rw st.stored fits)
    | inr other ↦ let ne : e ≢ a.epoch = ground arith in rw (st.others e ne) (i e)
  ]

  -- After any calls on the storage of `initialize`, the weights of every epoch's set fit in a word.
  pub Reach-fits : {t : Storage} → Reach blank t → IsSound t
  Reach-fits here = λ e. omega arith
  Reach-fits (next {t} {u} r (initial sender payload h)) =
      let (a, v, _, st) = initial_inv sender payload t h in
      stored-IsSound a t u (validate_val_set_fits (drop 4 payload) v) st (Reach-fits r)
  Reach-fits (next {t} {u} r (following payload proof h)) =
      let (a, v, _, _, st) = next_inv payload proof t h in
      stored-IsSound a t u (validate_val_set_fits (drop 4 payload) v) st (Reach-fits r)

  stored_kept :
      (a : ValSetAction) (s t : Storage) (e : ℕ)
      → IsStored a s t
      → (s.validator_set e).weight_threshold ≢ 0
      → t.validator_set e ≡ s.validator_set e
  stored_kept a s t e st set = st.others e (λ k. set (rw k st.fresh))

  -- A validator set that is stored, with a threshold that is not zero, is not changed by any
  -- calls.
  pub Reach-kept :
      (e : ℕ) {s t : Storage}
      → (s.validator_set e).weight_threshold ≢ 0
      → Reach s t
      → t.validator_set e ≡ s.validator_set e
  Reach-kept e set here = refl
  Reach-kept e {s} set (next {t} {u} r (initial sender payload h)) =
      let k = Reach-kept e set r in
      let (a, _, _, st) = initial_inv sender payload t h in stored_kept a t u e st (rw k set) ∙ k
  Reach-kept e {s} set (next {t} {u} r (following payload proof h)) =
      let k = Reach-kept e set r in
      let (a, _, _, _, st) = next_inv payload proof t h in stored_kept a t u e st (rw k set) ∙ k

  -- A call of `setNextValidatorSet` that returns moves the epoch by one; the epoch was not zero,
  -- and the set of that epoch accepted the proof.
  pub set_next_validator_set_inv :
      (payload proof : Bytes) (s : Storage) {t : Storage}
      → set_next_validator_set crypto payload proof s ≡ ok t
      → (t.epoch ≡ s.epoch + 1)
        × (s.epoch ≢ 0)
        × (check_proof crypto (crypto.sha256 payload) proof s ≡ ok tt)
  set_next_validator_set_inv payload proof s h =
      let (a, _, p, n, st) = next_inv payload proof s h in
      (st.epoch ∙ n, check_proof_epoch (crypto.sha256 payload) proof s p, p)
