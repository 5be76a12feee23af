-- ===== src/Contracts/Bascule.antt =====
-- contracts/bascule/BasculeV3.sol: the history of deposits against which withdrawals are validated.
-- Deposit ids, accounts and roles are numbers. `AccessControl` and `Pausable` are the argument `g`,
-- `ECDSA.tryRecover` is `try_recover`, where `none` is an error, and a role is the hash of its name.
-- An operation returns the storage with the events that it emits, the first one first.
use evm_smart_contracts.Prelude.{
  ℕ, suc, ◌+◌, ◌≡◌, refl, Bool, true, false, not, Option, none, some, List, [], ◌∷◌, ◌++◌, Text,
  codes, length, Bytes, Result, ok, err, ◌>>=◌, ◌>>◌, guard, revert_if, or_revert, ltb, leb, ◌==◌,
  update, if◌then◌else◌,
}
use evm_smart_contracts.Contracts.Context.{Guards}
pub mod Reports
pub mod Withdrawals

pub data DepositState : Type 0 where
  unreported reported withdrawn : DepositState

pub data Error : Type 0 where
  same_validation_threshold bad_deposit_report bad_deposit_proofs_size : Error
  bad_proof : ℕ → ℕ → Bytes → Error
  already_withdrawn withdrawal_failed_validation : ℕ → ℕ → Error
  unauthorized_account : ℕ → ℕ → Error
  -- the reverts of `whenNotPaused`, `_pause` and `_unpause`
  enforced_pause pause_refused : Error

pub data Event : Type 0 where
  validate_threshold_updated : ℕ → ℕ → Event
  max_deposits_updated trusted_signer_updated : ℕ → Event
  deposits_reported : ℕ → ℕ → Event
  deposit_already_reported : ℕ → Event
  withdrawal_validated withdrawal_not_validated : ℕ → ℕ → Event

abbrev pub default_admin_role : ℕ
default_admin_role = 0

module _ (g : Guards) where
  pub record Storage : Type 0 where
    pub access : g.Access
    pub validate_threshold : ℕ
    pub max_deposits : ℕ
    pub deposit_history : ℕ → DepositState
    pub trusted_signer : ℕ

  module _ (keccak256 : Text → ℕ) where
    abbrev pub pauser_role : ℕ
    pauser_role = keccak256 (codes "PAUSER_ROLE")

    abbrev pub deposit_reporter_role : ℕ
    deposit_reporter_role = keccak256 (codes "DEPOSIT_REPORTER_ROLE")

    abbrev pub withdrawal_validator_role : ℕ
    withdrawal_validator_role = keccak256 (codes "WITHDRAWAL_VALIDATOR_ROLE")

    abbrev pub validation_guardian_role : ℕ
    validation_guardian_role = keccak256 (codes "VALIDATION_GUARDIAN_ROLE")

    unfoldable pub construct : ℕ → ℕ → ℕ → ℕ → ℕ → ℕ → Storage
    construct admin pauser reporter validator max_deposits trusted_signer =
        let a0 = g.initial admin in
        let a1 = g.grant_role a0 pauser_role pauser in
        let a2 = g.grant_role a1 deposit_reporter_role reporter in
        record {
          access = g.grant_role a2 withdrawal_validator_role validator;
          validate_threshold = 0;
          max_deposits = max_deposits;
          deposit_history = λ id. unreported;
          trusted_signer = trusted_signer;
        }

    abbrev pub only_role : ℕ → ℕ → Storage → Result Error (Unit {0})
    only_role role sender s =
        guard (g.has_role s.access role sender) (unauthorized_account sender role)

    abbrev pub when_not_paused : Storage → Result Error (Unit {0})
    when_not_paused s = revert_if (g.is_paused s.access) enforced_pause

    unfoldable pub pause : ℕ → Storage → Result Error (Storage × List Event)
    pause sender s = do
      only_role pauser_role sender s
      access' ← or_revert (g.pause s.access) pause_refused
      ok (record s { access = access' }, [])

    unfoldable pub unpause : ℕ → Storage → Result Error (Storage × List Event)
    unpause sender s = do
      only_role pauser_role sender s
      access' ← or_revert (g.unpause s.access) pause_refused
      ok (record s { access = access' }, [])

    -- The role that a change of the threshold needs, and what it leaves of the roles.
    abbrev pub threshold_access : ℕ → ℕ → Storage → Result Error g.Access
    threshold_access sender new_threshold s =
        let lower = only_role default_admin_role sender s >> ok s.access in
        let raise =
          only_role validation_guardian_role sender s
          >> ok (g.renounce_role s.access validation_guardian_role sender) in
        if ltb new_threshold s.validate_threshold then lower else raise

    unfoldable pub update_validate_threshold : ℕ → ℕ → Storage → Result Error (Storage × List Event)
    update_validate_threshold sender new_threshold s = do
      when_not_paused s
      revert_if (new_threshold == s.validate_threshold) same_validation_threshold
      access' ← threshold_access sender new_threshold s
      ok (
        record s { access = access'; validate_threshold = new_threshold },
        validate_threshold_updated s.validate_threshold new_threshold ∷ [],
      )

    unfoldable pub set_max_deposits : ℕ → ℕ → Storage → Result Error (Storage × List Event)
    set_max_deposits sender n s = do
      when_not_paused s
      only_role default_admin_role sender s
      ok (record s { max_deposits = n }, max_deposits_updated n ∷ [])

    unfoldable pub set_trusted_signer : ℕ → ℕ → Storage → Result Error (Storage × List Event)
    set_trusted_signer sender signer s = do
      when_not_paused s
      only_role default_admin_role sender s
      ok (record s { trusted_signer = signer }, trusted_signer_updated signer ∷ [])

    unfoldable pub validate_withdrawal : ℕ → ℕ → ℕ → Storage → Result Error (Storage × List Event)
    validate_withdrawal sender id amount s = do
      when_not_paused s
      only_role withdrawal_validator_role sender s
      let spent : Storage = record s { deposit_history = update s.deposit_history id withdrawn }
      elim (s.deposit_history id) [
        | reported ↦ ok (spent, withdrawal_validated id amount ∷ [])
        | withdrawn ↦ err (already_withdrawn id amount)
        | unreported ↦
            if leb s.validate_threshold amount
            then err (withdrawal_failed_validation id amount)
            else ok (spent, withdrawal_not_validated id amount ∷ [])
      ]

    module _ (try_recover : ℕ → Bytes → Option ℕ) where
      -- `_checkProof`: without a trusted signer every proof is good.
      unfoldable pub check_proof : ℕ → ℕ → Bytes → Bool
      check_proof trusted_signer id proof =
          if trusted_signer == 0
          then true
          else elim (try_recover id proof) [ none ↦ false | some signer ↦ signer == trusted_signer ]

      -- The loop over the deposits, from index `i` on; the lists have the same length.
      unfoldable pub report_loop :
          ℕ → List ℕ → List Bytes → Storage → Result Error (Storage × List Event)
      report_loop i (id ∷ ids) (proof ∷ proofs) s = elim (s.deposit_history id) [
        | unreported ↦ do
          guard (check_proof s.trusted_signer id proof) (bad_proof i id proof)
          report_loop (suc i) ids proofs
              (record s { deposit_history = update s.deposit_history id reported })
        | reported ↦ do
          (s', es) ← report_loop (suc i) ids proofs s
          ok (s', deposit_already_reported id ∷ es)
        | withdrawn ↦ do
          (s', es) ← report_loop (suc i) ids proofs s
          ok (s', deposit_already_reported id ∷ es)
      ]
      report_loop i _ _ s = ok (s, [])

      unfoldable pub report_deposits :
          ℕ → ℕ → List ℕ → List Bytes → Storage → Result Error (Storage × List Event)
      report_deposits sender report_id ids proofs s = do
        when_not_paused s
        only_role deposit_reporter_role sender s
        revert_if (ltb s.max_deposits (length ids)) bad_deposit_report
        revert_if (not (length ids == length proofs)) bad_deposit_proofs_size
        (s', es) ← report_loop 0 ids proofs s
        ok (s', es ++ deposits_reported report_id (length ids) ∷ [])
