-- ===== src/Contracts/Bascule/Withdrawals.antt =====
-- contracts/bascule/BasculeV3.sol: withdrawals over any sequence of calls.
use evm_smart_contracts.Prelude.{
  ℕ, suc, ◌+◌, ◌≤◌, ◌<◌, ◌≡◌, ◌⊎◌, inl, inr, refl, Option, List, [], ◌∷◌, ◌++◌, Text, Bytes, Result,
  ok, ◌==◌, if◌then◌else◌, update, arith, >>=-eq-ok, Bool-cases, ◌>>=◌, guard, ◌∙◌, length,
}
use evm_smart_contracts.Contracts.Context.{Guards}
use evm_smart_contracts.Contracts.Bascule.{
  DepositState, unreported, reported, withdrawn, Error, Event, withdrawal_validated,
  withdrawal_not_validated, Storage, validate_withdrawal, pause, unpause, update_validate_threshold,
  set_max_deposits, set_trusted_signer, report_loop, report_deposits, check_proof, bad_proof,
  deposit_already_reported, deposits_reported,
}
use evm_smart_contracts.Contracts.Bascule.Reports.{DepositState-cases, report_deposits_inv}

-- One for a deposit that is withdrawn.
abbrev pub spent : DepositState → ℕ
spent unreported = 0
spent reported = 0
spent withdrawn = 1

abbrev pub is_withdrawal_of : ℕ → Event → ℕ
is_withdrawal_of id (withdrawal_validated d amount) = if d == id then 1 else 0
is_withdrawal_of id (withdrawal_not_validated d amount) = if d == id then 1 else 0
is_withdrawal_of id _ = 0

spent_le : (d : DepositState) → spent d ≤ 1
spent_le d = ground arith

-- How many of the events say that this deposit was withdrawn.
unfoldable pub withdrawals : ℕ → List Event → ℕ
withdrawals id [] = 0
withdrawals id (e ∷ es) = is_withdrawal_of id e + withdrawals id es

withdrawals-append :
    (id : ℕ) (xs ys : List Event)
    → withdrawals id (xs ++ ys) ≡ withdrawals id xs + withdrawals id ys
unfolding withdrawals
withdrawals-append id [] ys = omega arith
withdrawals-append id (x ∷ xs) ys = omega (arith, withdrawals-append id xs ys)

module _ (g : Guards) (keccak256 : Text → ℕ) where
  -- A call that returns found the deposit reported, or found it unreported and got an amount below
  -- the threshold. It marks the deposit withdrawn, changes nothing else, and emits one event of
  -- withdrawal of that deposit.
  pub validate_withdrawal_inv :
      (sender id amount : ℕ) (s : Storage g) {t : Storage g} {es : List Event}
      → validate_withdrawal g keccak256 sender id amount s ≡ ok (t, es)
      → ((s.deposit_history id ≡ reported)
          ⊎ ((s.deposit_history id ≡ unreported) × (amount < s.validate_threshold)))
        × (withdrawals id es ≡ 1)
        × (t ≡ record s { deposit_history = update s.deposit_history id withdrawn })
  unfolding validate_withdrawal withdrawals
  validate_withdrawal_inv sender id amount s h = ground arith

  -- A call with its events. What the access library changes of itself, such as a grant of a role by
  -- the admin, is any change of `access`.
  module _ (try_recover : ℕ → Bytes → Option ℕ) where
    pub data Step : Storage g → List Event → Storage g → Type 0 where
      access_changed : (s : Storage g) (a : g.Access) → Step s [] (record s { access = a })
      paused :
          (sender : ℕ) {s t : Storage g} {es : List Event}
          → pause g keccak256 sender s ≡ ok (t, es)
          → Step s es t
      unpaused :
          (sender : ℕ) {s t : Storage g} {es : List Event}
          → unpause g keccak256 sender s ≡ ok (t, es)
          → Step s es t
      threshold :
          (sender new_threshold : ℕ) {s t : Storage g} {es : List Event}
          → update_validate_threshold g keccak256 sender new_threshold s ≡ ok (t, es)
          → Step s es t
      max_deposits :
          (sender n : ℕ) {s t : Storage g} {es : List Event}
          → set_max_deposits g keccak256 sender n s ≡ ok (t, es)
          → Step s es t
      signer :
          (sender account : ℕ) {s t : Storage g} {es : List Event}
          → set_trusted_signer g keccak256 sender account s ≡ ok (t, es)
          → Step s es t
      report :
          (sender report_id : ℕ) (ids : List ℕ) (proofs : List Bytes) {s t : Storage g}
          {es : List Event}
          → report_deposits g keccak256 try_recover sender report_id ids proofs s ≡ ok (t, es)
          → Step s es t
      withdraw :
          (sender id amount : ℕ) {s t : Storage g} {es : List Event}
          → validate_withdrawal g keccak256 sender id amount s ≡ ok (t, es)
          → Step s es t

    pub data Steps (s : Storage g) : List Event → Storage g → Type 0 where
      here : Steps s [] s
      next :
          {es fs : List Event} {t u : Storage g} → Steps s es t → Step t fs u → Steps s (es ++ fs) u

    spent_reported :
        (history : ℕ → DepositState) (d id : ℕ)
        → history d ≡ unreported
        → spent (update history d reported id) ≡ spent (history id)
    spent_reported history d id e = elim (Bool-cases (id == d)) [
      | inl same ↦ let k : id ≡ d = ground arith in rw same (rw k (rw e refl))
      | inr other ↦ rw other refl
    ]

    -- An entry that is there already: its event is no withdrawal.
    skip-withdrawals :
        (id d : ℕ) (rest : Result Error (Storage g × List Event)) {t : Storage g} {es : List Event}
        → ◌>>=◌ {B = Storage g × List Event} rest (λ r. ok (r.0, deposit_already_reported d ∷ r.1))
          ≡ ok (t, es)
        → (fs : List Event) × (rest ≡ ok (t, fs)) × (withdrawals id es ≡ withdrawals id fs)
    unfolding withdrawals
    skip-withdrawals id d rest h =
        let (r, e, k) = >>=-eq-ok rest _ h in (r.1, ground arith, ground arith)

    -- The events of the loop are no withdrawals, and no deposit becomes or ceases to be withdrawn.
    report_loop-withdrawals :
        (id i : ℕ) (ids : List ℕ) (proofs : List Bytes) (s : Storage g) {t : Storage g}
        {es : List Event}
        → report_loop g keccak256 try_recover i ids proofs s ≡ ok (t, es)
        → (withdrawals id es ≡ 0) × (spent (t.deposit_history id) ≡ spent (s.deposit_history id))
    unfolding report_loop withdrawals
    report_loop-withdrawals id i [] proofs s h = ground arith
    report_loop-withdrawals id i (d ∷ ids) [] s h = ground arith
    report_loop-withdrawals id i (d ∷ ids) (p ∷ proofs) s h =
        elim (DepositState-cases (s.deposit_history d)) [
          | inl new ↦
              let (_, _, k) =
                >>=-eq-ok
                  (guard (check_proof g keccak256 try_recover s.trusted_signer d p)
                    (bad_proof i d p))
                  _ (rw (new, report_loop) at h) in
              let ih = report_loop-withdrawals id (suc i) ids proofs _ k in
              (ih.0, ih.1 ∙ spent_reported s.deposit_history d id new)
          | inr (inl old) ↦
              let (fs, k, e) = skip-withdrawals id d _ (rw (old, report_loop) at h) in
              let ih = report_loop-withdrawals id (suc i) ids proofs s k in (e ∙ ih.0, ih.1)
          | inr (inr old) ↦
              let (fs, k, e) = skip-withdrawals id d _ (rw (old, report_loop) at h) in
              let ih = report_loop-withdrawals id (suc i) ids proofs s k in (e ∙ ih.0, ih.1)
        ]

    report-withdrawals :
        (id sender r : ℕ) (ids : List ℕ) (proofs : List Bytes) (s : Storage g) {t : Storage g}
        {es : List Event}
        → report_deposits g keccak256 try_recover sender r ids proofs s ≡ ok (t, es)
        → (withdrawals id es ≡ 0) × (spent (t.deposit_history id) ≡ spent (s.deposit_history id))
    unfolding withdrawals
    report-withdrawals id sender r ids proofs s h =
        let (_, fs, k, e) = report_deposits_inv g keccak256 try_recover sender r ids proofs s h in
        let ih = report_loop-withdrawals id 0 ids proofs s k in
        (
          rw e (
              omega
                (arith, withdrawals-append id fs (deposits_reported r (length ids) ∷ []), ih.0)),
          ih.1,
        )

    withdraw-withdrawals :
        (id sender d amount : ℕ) (s : Storage g) {t : Storage g} {es : List Event}
        → validate_withdrawal g keccak256 sender d amount s ≡ ok (t, es)
        → spent (s.deposit_history id) + withdrawals id es ≡ spent (t.deposit_history id)
    unfolding validate_withdrawal withdrawals
    withdraw-withdrawals id sender d amount s h = ground arith

    Step-withdrawals :
        (id : ℕ) {s t : Storage g} {es : List Event}
        → Step s es t
        → spent (s.deposit_history id) + withdrawals id es ≡ spent (t.deposit_history id)
    unfolding pause unpause update_validate_threshold set_max_deposits set_trusted_signer
        withdrawals
    Step-withdrawals id (access_changed s a) = omega arith
    Step-withdrawals id (paused sender h) = ground arith
    Step-withdrawals id (unpaused sender h) = ground arith
    Step-withdrawals id (threshold sender n h) = ground arith
    Step-withdrawals id (max_deposits sender n h) = ground arith
    Step-withdrawals id (signer sender a h) = ground arith
    Step-withdrawals id (report sender r ids proofs {s} h) =
        omega (arith, report-withdrawals id sender r ids proofs s h)
    Step-withdrawals id (withdraw sender d amount {s} h) =
        withdraw-withdrawals id sender d amount s h

    Steps-balance :
        (id : ℕ) {s t : Storage g} {es : List Event}
        → Steps s es t
        → spent (s.deposit_history id) + withdrawals id es ≡ spent (t.deposit_history id)
    unfolding withdrawals
    Steps-balance id here = omega arith
    Steps-balance id (next {es} {fs} r st) =
        omega (arith, Steps-balance id r, Step-withdrawals id st, withdrawals-append id es fs)

    -- In any run each deposit is withdrawn at most once: the events hold one withdrawal of it if it
    -- is not withdrawn before and is withdrawn after the run, and none otherwise.
    pub Steps-withdrawals :
        (id : ℕ) {s t : Storage g} {es : List Event}
        → Steps s es t
        → (spent (s.deposit_history id) + withdrawals id es ≡ spent (t.deposit_history id))
          × (withdrawals id es ≤ 1)
    Steps-withdrawals id {t = t} r =
        let b = Steps-balance id r in (b, omega (arith, spent_le (t.deposit_history id)))
