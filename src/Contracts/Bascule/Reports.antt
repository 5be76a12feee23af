-- ===== src/Contracts/Bascule/Reports.antt =====
-- contracts/bascule/BasculeV3.sol: what a report leaves in the history, and who may raise the
-- threshold.
use evm_smart_contracts.Prelude.{
  ℕ, suc, ◌<◌, ◌≡◌, ◌≢◌, ◌⊎◌, inl, inr, refl, true, false, not, Option, List, [], ◌∷◌, ◌++◌, Text,
  Bytes, Result, ok, err, ◌>>=◌, guard, guard-true, revert_if, length, ltb, ◌==◌, update, arith,
  >>=-eq-ok, Bool-cases, All,
}
use evm_smart_contracts.Contracts.Context.{Guards, IsLawful}
use evm_smart_contracts.Contracts.Bascule.{
  DepositState, unreported, reported, withdrawn, Error, bad_deposit_report, bad_deposit_proofs_size,
  unauthorized_account, bad_proof, Event, deposits_reported, deposit_already_reported, Storage,
  validation_guardian_role, update_validate_threshold, deposit_reporter_role, when_not_paused,
  only_role, check_proof, report_loop, report_deposits,
}

pub DepositState-cases : (d : DepositState) → (d ≡ unreported) ⊎ ((d ≡ reported) ⊎ (d ≡ withdrawn))
DepositState-cases unreported = inl refl
DepositState-cases reported = inr (inl refl)
DepositState-cases withdrawn = inr (inr refl)

module _ (g : Guards) (keccak256 : Text → ℕ) where
  -- What a raise leaves.
  raise_inv :
      (sender new_threshold : ℕ) (s : Storage g) {t : Storage g} {es : List Event}
      → s.validate_threshold < new_threshold
      → update_validate_threshold g keccak256 sender new_threshold s ≡ ok (t, es)
      → (t.access ≡ g.renounce_role s.access (validation_guardian_role g keccak256) sender)
        × (t.validate_threshold ≡ new_threshold)
  unfolding update_validate_threshold
  raise_inv sender new_threshold s lt h = ground arith

  -- Where an account that renounces a role no longer has it: after an account raised the
  -- threshold, the threshold is the new one, and a second raise by that account in the storage
  -- left, while the contract is not paused, is refused as unauthorized.
  pub update_validate_threshold_again :
      IsLawful g
      → (sender new_threshold again : ℕ) (s : Storage g) {t : Storage g} {es : List Event}
      → s.validate_threshold < new_threshold
      → update_validate_threshold g keccak256 sender new_threshold s ≡ ok (t, es)
      → g.is_paused t.access ≡ false
      → new_threshold < again
      → (t.validate_threshold ≡ new_threshold)
        × (update_validate_threshold g keccak256 sender again t
            ≡ err (unauthorized_account sender (validation_guardian_role g keccak256)))
  unfolding update_validate_threshold
  update_validate_threshold_again lawful sender new_threshold again s lt h up lt' =
      let (a, e) = raise_inv sender new_threshold s lt h in
      let gone =
        lawful.has_role-renounce_self s.access (validation_guardian_role g keccak256) sender in
      (e, ground (arith, gone, a))

  module _ (try_recover : ℕ → Bytes → Option ℕ) where
    -- The checks before the loop, and the loop.
    pub report_deposits_inv :
        (sender r : ℕ) (ids : List ℕ) (proofs : List Bytes) (s : Storage g) {t : Storage g}
        {es : List Event}
        → report_deposits g keccak256 try_recover sender r ids proofs s ≡ ok (t, es)
        → (length ids ≡ length proofs)
          × (fs : List Event) × (report_loop g keccak256 try_recover 0 ids proofs s ≡ ok (t, fs))
          × (es ≡ fs ++ deposits_reported r (length ids) ∷ [])
    unfolding report_deposits
    report_deposits_inv sender r ids proofs s h =
        let (_, _, h1) = >>=-eq-ok (when_not_paused g keccak256 s) _ h in
        let (_, _, h2) =
          >>=-eq-ok (only_role g keccak256 (deposit_reporter_role g keccak256) sender s) _ h1 in
        let (_, _, h3) =
          >>=-eq-ok (revert_if (ltb s.max_deposits (length ids)) bad_deposit_report) _ h2 in
        let (_, same, h4) =
          >>=-eq-ok (revert_if (not (length ids == length proofs)) bad_deposit_proofs_size) _ h3 in
        let (p, loop, h5) = >>=-eq-ok (report_loop g keccak256 try_recover 0 ids proofs s) _ h4 in
        (ground arith, p.1, ground arith, ground arith)

    -- What a report may do to an entry: nothing, or it reports one that was not reported, with a
    -- proof that was accepted for it.
    abbrev pub IsReport : ℕ → Storage g → Storage g → Type 0
    IsReport id s t =
        (t.deposit_history id ≡ s.deposit_history id)
        ⊎ ((s.deposit_history id ≡ unreported)
            × (t.deposit_history id ≡ reported)
            × (proof : Bytes) × (check_proof g keccak256 try_recover s.trusted_signer id proof
                ≡ true))

    -- A new entry, and the rest of the loop behind it.
    IsReport-first :
        (id d : ℕ) (p : Bytes) (s t : Storage g)
        → s.deposit_history d ≡ unreported
        → check_proof g keccak256 try_recover s.trusted_signer d p ≡ true
        → IsReport id (record s { deposit_history = update s.deposit_history d reported }) t
        → IsReport id s t
    IsReport-first id d p s t new good ih = elim (Bool-cases (id == d)) [
      | inl same ↦
          let k : id ≡ d = ground arith in
          let r : t.deposit_history id ≡ reported = ground arith in inr (rw k new, r, p, rw k good)
      | inr other ↦ rw other at ih
    ]

    -- An entry that was there already: the loop goes on with the same storage.
    skip_inv :
        (d : ℕ) (rest : Result Error (Storage g × List Event)) {t : Storage g} {es : List Event}
        → ◌>>=◌ {B = Storage g × List Event} rest (λ r. ok (r.0, deposit_already_reported d ∷ r.1))
          ≡ ok (t, es)
        → (fs : List Event) × (rest ≡ ok (t, fs))
    skip_inv d rest h = let (r, e, k) = >>=-eq-ok rest _ h in (r.1, ground arith)

    report_loop-IsReport :
        (id i : ℕ) (ids : List ℕ) (proofs : List Bytes) (s : Storage g) {t : Storage g}
        {es : List Event}
        → report_loop g keccak256 try_recover i ids proofs s ≡ ok (t, es)
        → IsReport id s t
    unfolding report_loop
    report_loop-IsReport id i [] proofs s h = inl (ground arith)
    report_loop-IsReport id i (d ∷ ids) [] s h = inl (ground arith)
    report_loop-IsReport id i (d ∷ ids) (p ∷ proofs) s {t} h =
        elim (DepositState-cases (s.deposit_history d)) [
          | inl new ↦
              let (_, good, k) =
                >>=-eq-ok
                  (guard (check_proof g keccak256 try_recover s.trusted_signer d p)
                    (bad_proof i d p))
                  _ (rw (new, report_loop) at h) in
              IsReport-first id d p s t new (guard-true _ (bad_proof i d p) good)
                (report_loop-IsReport id (suc i) ids proofs _ k)
          | inr (inl old) ↦
              report_loop-IsReport id (suc i) ids proofs s
                (skip_inv d _ (rw (old, report_loop) at h)).1
          | inr (inr old) ↦
              report_loop-IsReport id (suc i) ids proofs s
                (skip_inv d _ (rw (old, report_loop) at h)).1
        ]

    -- No entry goes back to unreported.
    stays_reported :
        (id : ℕ) (s t : Storage g)
        → IsReport id s t
        → s.deposit_history id ≢ unreported
        → t.deposit_history id ≢ unreported
    stays_reported id s t r n = ground arith

    report_loop-listed :
        (i : ℕ) (ids : List ℕ) (proofs : List Bytes) (s : Storage g) {t : Storage g}
        {es : List Event}
        → length ids ≡ length proofs
        → report_loop g keccak256 try_recover i ids proofs s ≡ ok (t, es)
        → All (λ id. t.deposit_history id ≢ unreported) ids
    unfolding report_loop
    report_loop-listed i [] proofs s same h = tt
    report_loop-listed i (d ∷ ids) [] s same h = absurd (omega arith)
    report_loop-listed i (d ∷ ids) (p ∷ proofs) s {t} same h =
        elim (DepositState-cases (s.deposit_history d)) [
          | inl new ↦
              let (_, _, k) =
                >>=-eq-ok
                  (guard (check_proof g keccak256 try_recover s.trusted_signer d p)
                    (bad_proof i d p))
                  _ (rw (new, report_loop) at h) in
              let s' : Storage g = record s {
                deposit_history = update s.deposit_history d reported;
              } in
              let now : s'.deposit_history d ≢ unreported = ground arith in
              (
                stays_reported d s' t (report_loop-IsReport d (suc i) ids proofs s' k) now,
                report_loop-listed (suc i) ids proofs s' (omega arith) k,
              )
          | inr (inl old) ↦
              let (_, k) = skip_inv d _ (rw (old, report_loop) at h) in
              (
                stays_reported d s t (report_loop-IsReport d (suc i) ids proofs s k) (ground arith),
                report_loop-listed (suc i) ids proofs s (omega arith) k,
              )
          | inr (inr old) ↦
              let (_, k) = skip_inv d _ (rw (old, report_loop) at h) in
              (
                stays_reported d s t (report_loop-IsReport d (suc i) ids proofs s k) (ground arith),
                report_loop-listed (suc i) ids proofs s (omega arith) k,
              )
        ]

    -- After a report that returns every listed deposit is in the history. An entry that changed was
    -- not reported before and is reported now, and a proof of that deposit was accepted; any other
    -- entry is as it was, a withdrawn one too.
    pub report_deposits-IsReport :
        (sender r : ℕ) (ids : List ℕ) (proofs : List Bytes) (s : Storage g) (id : ℕ) {t : Storage g}
        {es : List Event}
        → report_deposits g keccak256 try_recover sender r ids proofs s ≡ ok (t, es)
        → All (λ d. t.deposit_history d ≢ unreported) ids × IsReport id s t
    report_deposits-IsReport sender r ids proofs s id h =
        let (same, fs, k, _) = report_deposits_inv sender r ids proofs s h in
        (report_loop-listed 0 ids proofs s same k, report_loop-IsReport id 0 ids proofs s k)
