-- ===== src/Contracts/Oracle/Publish.antt =====
-- contracts/LBTC/StakedLBTCOracle.sol, `publishNewRatio`: what a published ratio changes, and when.
use evm_smart_contracts.Prelude.{
  ℕ, ◌≤◌, ◌<◌, ◌≡◌, ◌≢◌, Bool, true, Option, Result, ok, err, if◌then◌else◌, ltb, arith, word_mod,
  >>=-eq-ok, guard, guard-true, Bytes, drop,
}
use evm_smart_contracts.Contracts.Context.{IsFloorDiv}
use evm_smart_contracts.Contracts.Actions
use evm_smart_contracts.Contracts.Actions.{
  RatioUpdate, ratio_update, ratio_update_selector, assert_selector, encode_ratio_update,
  selector_of-encode_ratio_update, drop-encode_ratio_update, ratio_update-encode_words,
}
use evm_smart_contracts.Contracts.Oracle.{
  proof_failed, Storage, lift, ratio, set_new_ratio, validate_ratio, publish_new_ratio,
}
use evm_smart_contracts.Contracts.Oracle.Validate.{
  IsAllowed, IsInRange, validate_ratio-IsAllowed, IsAllowed-validate_ratio,
}

-- A ratio that is set before its switch time takes effect at that time, and the ratio that was in
-- force when it was set stays in force until then.
pub ratio-set_new_ratio :
    (now later : ℕ) (new_ratio time : ℕ) (s : Storage)
    → now < time
    → now ≤ later
    → ratio later (set_new_ratio now new_ratio time s)
      ≡ (if ltb later time then ratio now s else new_ratio)
unfolding ratio set_new_ratio
ratio-set_new_ratio now later new_ratio time s h k = ground arith

lift-ok : {A : Type 0} (r : Result Actions.Error A) {a : A} → lift r ≡ ok a → r ≡ ok a
lift-ok (ok x) h = ground arith
lift-ok (err e) h = cc

module _ (mul_div : ℕ → ℕ → ℕ → Option ℕ) (sha256 : Bytes → ℕ)
    (check_proof : ℕ → ℕ → Bytes → Bool) where
  -- The checks of a call that returns, and the storage that it leaves.
  pub publish_inv :
      (now : ℕ) (raw proof : Bytes) (s : Storage) {s' : Storage}
      → publish_new_ratio mul_div sha256 check_proof now raw proof s ≡ ok s'
      → (u : RatioUpdate) × (ratio_update (drop 4 raw) ≡ ok u)
        × (validate_ratio mul_div now s u.ratio u.switch_time u.denom ≡ ok tt)
        × (check_proof s.consortium (sha256 raw) proof ≡ true)
        × (s' ≡ set_new_ratio now u.ratio u.switch_time s)
  unfolding publish_new_ratio
  publish_inv now raw proof s h =
      let (_, _, h1) = >>=-eq-ok (lift (assert_selector raw ratio_update_selector)) _ h in
      let (u, decoded, h2) = >>=-eq-ok (lift (ratio_update (drop 4 raw))) _ h1 in
      let (_, valid, h3) =
        >>=-eq-ok (validate_ratio mul_div now s u.ratio u.switch_time u.denom) _ h2 in
      let (_, accepted, stored) =
        >>=-eq-ok (guard (check_proof s.consortium (sha256 raw) proof) proof_failed) _ h3 in
      (
        u,
        lift-ok (ratio_update (drop 4 raw)) decoded,
        valid,
        guard-true _ proof_failed accepted,
        ground arith,
      )

  -- With a `mulDiv` that rounds down, a publication that goes through carries, behind its
  -- selector, an update that is allowed and a proof that the consortium accepts, and the storage
  -- is then the one with the ratio and the switch time of the payload.
  pub publish_new_ratio-IsAllowed :
      IsFloorDiv mul_div
      → (now : ℕ) (raw proof : Bytes) (s : Storage) {s' : Storage}
      → publish_new_ratio mul_div sha256 check_proof now raw proof s ≡ ok s'
      → (u : RatioUpdate) × (ratio_update (drop 4 raw) ≡ ok u)
        × IsAllowed now s u.ratio u.switch_time u.denom
        × (check_proof s.consortium (sha256 raw) proof ≡ true)
        × (s' ≡ set_new_ratio now u.ratio u.switch_time s)
  publish_new_ratio-IsAllowed lawful now raw proof s h =
      let (u, a, v, p, e) = publish_inv now raw proof s h in
      (u, a, validate_ratio-IsAllowed mul_div lawful now s _ _ _ v, p, e)

  -- An update is published, with a `mulDiv` that rounds down, if it is allowed, its parts fit in
  -- words, its denomination and ratio are not zero, the calculation fits in 256 bits, it is
  -- encoded as the ledger does and the consortium accepts the proof.
  pub publish_new_ratio-encode :
      IsFloorDiv mul_div
      → (now : ℕ) (u : RatioUpdate) (proof : Bytes) (s : Storage) → u.denom < word_mod
      → u.ratio < word_mod
      → u.switch_time < word_mod
      → u.denom ≢ 0
      → u.ratio ≢ 0
      → IsInRange now s u.switch_time
      → IsAllowed now s u.ratio u.switch_time u.denom
      → check_proof s.consortium (sha256 (encode_ratio_update u)) proof ≡ true
      → publish_new_ratio mul_div sha256 check_proof now (encode_ratio_update u) proof s
        ≡ ok (set_new_ratio now u.ratio u.switch_time s)
  unfolding publish_new_ratio assert_selector
  publish_new_ratio-encode lawful now u proof s hd hr ht nd nr range allowed accepted =
      let sel = selector_of-encode_ratio_update u in
      let dec = ratio_update-encode_words u.denom u.ratio u.switch_time hd hr ht nd nr in
      let val = IsAllowed-validate_ratio mul_div lawful now s _ _ _ range allowed in
      rw (sel, drop-encode_ratio_update u, dec) (rw val (rw accepted))
