-- ===== src/Contracts/Mailbox/Calls/Stages.antt =====
-- contracts/gmp/Mailbox.sol: what a message goes through on this side: it is unknown, then
-- delivered, then handled. The mailbox keeps two mappings for it; a stage is their abstract view.
use evm_smart_contracts.Prelude.{
  ℕ, ◌≡◌, ◌⊎◌, inl, inr, refl, ap, Bool, true, false, Bool-cases, List, Text, Bytes, Option, none,
  some, ok, ◌==◌, update, arith,
}
use evm_smart_contracts.Contracts.Context.{Guards}
use evm_smart_contracts.Contracts.Gmp.{Payload, decode_and_validate_payload}
use evm_smart_contracts.Contracts.Mailbox.{
  Event, Context, Storage, Handling, returned, reverted, failed,
}
use evm_smart_contracts.Contracts.Mailbox.Deliver.{deliver, verify_payload, handle}
use evm_smart_contracts.Contracts.Mailbox.Calls.{Call, deliver_message}

pub data Stage : Type 0 where
  unknown delivered handled : Stage

-- The two flags of a message; a message is never handled without being delivered.
abbrev pub stage_of : Bool → Bool → Option Stage
stage_of false false = some unknown
stage_of true false = some delivered
stage_of true true = some handled
stage_of false true = none

pub Handling-cases :
    (r : Handling)
    → ((result : Bytes) × (r ≡ returned result))
      ⊎ (((reason : Text) × (r ≡ reverted reason)) ⊎ ((data_ : Bytes) × (r ≡ failed data_)))
Handling-cases (returned result) = inl (result, refl)
Handling-cases (reverted reason) = inr (inl (reason, refl))
Handling-cases (failed data_) = inr (inr (data_, refl))

-- The abstract life of a message, in a world where a proof of it was accepted and its handler ran.
pub data Life (Proved Ran : Type 0) : Stage → Stage → Type 0 where
  stays : {a : Stage} → Life Proved Ran a a
  delivers : {a : Stage} → Life Proved Ran a unknown → Proved → Life Proved Ran a delivered
  handles : {a : Stage} → Life Proved Ran a delivered → Ran → Life Proved Ran a handled

pub Life-trans : {P R : Type 0} {a b d : Stage} → Life P R a b → Life P R b d → Life P R a d
Life-trans l stays = l
Life-trans l (delivers k p) = delivers (Life-trans l k) p
Life-trans l (handles k r) = handles (Life-trans l k) r

pub Life-map :
    {P R P' R' : Type 0} {a b : Stage} → (P → P') → (R → R') → Life P R a b → Life P' R' a b
Life-map f k stays = stays
Life-map f k (delivers l p) = delivers (Life-map f k l) (f p)
Life-map f k (handles l r) = handles (Life-map f k l) (k r)

-- The delivered flag, and the handled flag, may be set.
deliver_stage :
    {P R : Type 0} (d h d' : Bool) {a : Stage}
    → stage_of d h ≡ some a
    → (d' ≡ d) ⊎ (P × (d' ≡ true))
    → (b : Stage) × (stage_of d' h ≡ some b) × Life P R a b
deliver_stage d h d' {a} e (inl same) = (a, rw same e, stays)
deliver_stage true h d' {a} e (inr (p, now)) = (a, rw now e, stays)
deliver_stage false false d' {a} e (inr (p, now)) =
    let k : unknown ≡ a = ground arith in (delivered, rw now refl, rw (← k) (delivers stays p))
deliver_stage false true d' e (inr (p, now)) = ground arith

handle_stage :
    {P R : Type 0} (d h h' : Bool) {a : Stage}
    → stage_of d h ≡ some a
    → (h' ≡ h) ⊎ (R × (d ≡ true) × (h' ≡ true))
    → (b : Stage) × (stage_of d h' ≡ some b) × Life P R a b
handle_stage d h h' {a} e (inl same) = (a, rw same e, stays)
handle_stage d true h' {a} e (inr (r, old, now)) = (a, rw now e, stays)
handle_stage true false h' {a} e (inr (r, old, now)) =
    let k : delivered ≡ a = ground arith in (handled, rw now refl, rw (← k) (handles stays r))
handle_stage false false h' e (inr (r, old, now)) = ground arith

module _ (g : Guards) (keccak256 sha256 : Bytes → ℕ) where
  -- The bytes are those of the message: they hash to its id, and are decoded.
  abbrev pub IsCarried : ℕ → Bytes → Type 0
  IsCarried id raw =
      (sha256 raw ≡ id)
      × ((payload : Payload) × (decode_and_validate_payload sha256 raw ≡ ok payload)
          × (payload.id ≡ id))

  -- The transaction carries the message, and a proof of it that the consortium accepts.
  abbrev pub IsProof : ℕ → ℕ → Context × Call g → Type 0
  IsProof consortium id (c, deliver_message raw proof) =
      IsCarried id raw × (c.check_proof consortium id proof ≡ true)
  IsProof consortium id (c, _) = ⊥

  -- The transaction carries the message, and its handler returns.
  abbrev pub IsHandling : ℕ → Context × Call g → Type 0
  IsHandling id (c, deliver_message raw proof) =
      (sha256 raw ≡ id)
      × (payload : Payload) × (decode_and_validate_payload sha256 raw ≡ ok payload)
      × (payload.id ≡ id)
      × ((result : Bytes) × (c.handle_payload payload ≡ returned result))
  IsHandling id (c, _) = ⊥

  abbrev pub stage : Storage g → ℕ → Option Stage
  stage s id = stage_of (s.delivered_payload id) (s.handled_payload id)

  -- How the stage of a message goes from one storage to another.
  abbrev pub Moves : Type 0 → Type 0 → ℕ → Storage g → Storage g → Type 0
  Moves P R id s t =
      (a : Stage) → stage s id ≡ some a → (b : Stage) × (stage t id ≡ some b) × Life P R a b

  pub deliver_inv :
      (c : Context) (payload : Payload) (raw proof : Bytes) (s : Storage g) {s1 : Storage g}
      {ds : List Event}
      → deliver g c payload raw proof s ≡ ok (s1, ds)
      → (s1.handled_payload ≡ s.handled_payload)
        × (s1.consortium ≡ s.consortium)
        × (((s1.delivered_payload ≡ s.delivered_payload) × (s.delivered_payload payload.id ≡ true))
            ⊎ ((c.check_proof s.consortium payload.id proof ≡ true)
                × (s1.delivered_payload ≡ update s.delivered_payload payload.id true)))
  unfolding deliver verify_payload
  deliver_inv c payload raw proof s h = ground arith

  pub handle_inv :
      (c : Context) (payload : Payload) (s : Storage g) {t : Storage g} {hs : List Event}
      {r : Bool × Bytes}
      → handle g c payload s ≡ ok (t, hs, r)
      → (t.delivered_payload ≡ s.delivered_payload)
        × (t.consortium ≡ s.consortium)
        × ((t.handled_payload ≡ s.handled_payload)
            ⊎ ((result : Bytes) × (c.handle_payload payload ≡ returned result)
                × (t.handled_payload ≡ update s.handled_payload payload.id true)))
  unfolding handle
  handle_inv c payload s h = elim (Handling-cases (c.handle_payload payload)) [
    | inl (result, k) ↦ ground arith
    | inr (inl (reason, k)) ↦ ground arith
    | inr (inr (data_, k)) ↦ ground arith
  ]

  flag_set :
      (m m' : ℕ → Bool) (id key : ℕ)
      → m' ≡ update m key true
      → (m' id ≡ m id) ⊎ ((key ≡ id) × (m' id ≡ true))
  flag_set m m' id key e = elim (Bool-cases (id == key)) [
    | inl same ↦ inr (ground arith, rw (e, same) refl)
    | inr other ↦ inl (rw (e, other) refl)
  ]

  pub delivered_now :
      {P : Type 0} (s s1 : Storage g) (key : ℕ)
      → ((s1.delivered_payload ≡ s.delivered_payload) × (s.delivered_payload key ≡ true))
        ⊎ (P × (s1.delivered_payload ≡ update s.delivered_payload key true))
      → s1.delivered_payload key ≡ true
  delivered_now s s1 key (inl (same, old)) = rw same old
  delivered_now s s1 key (inr (_, set)) = rw set (ground arith)

  pub deliver-Moves :
      {R : Type 0} (c : Context) (payload : Payload) (raw proof : Bytes) (s : Storage g)
      {s1 : Storage g} {ds : List Event} (id : ℕ)
      → deliver g c payload raw proof s ≡ ok (s1, ds)
      → Moves ((payload.id ≡ id) × (c.check_proof s.consortium id proof ≡ true)) R id s s1
  deliver-Moves c payload raw proof s {s1} id h a e =
      let (same_handled, _, first) = deliver_inv c payload raw proof s h in
      let f : (s1.delivered_payload id ≡ s.delivered_payload id)
          ⊎ (((payload.id ≡ id) × (c.check_proof s.consortium id proof ≡ true))
              × (s1.delivered_payload id ≡ true)) =
        elim first [
          | inl (same, _) ↦ inl (ap (λ m. m id) same)
          | inr (good, set) ↦
              elim (flag_set s.delivered_payload s1.delivered_payload id payload.id set) [
                | inl same ↦ inl same
                | inr (k, now) ↦ inr ((k, rw (← k) good), now)
              ]
        ] in
      rw same_handled (
        deliver_stage (s.delivered_payload id) (s.handled_payload id) (s1.delivered_payload id) e f)

  pub handle-Moves :
      {P : Type 0} (c : Context) (payload : Payload) (s : Storage g) {t : Storage g}
      {hs : List Event} {r : Bool × Bytes} (id : ℕ)
      → s.delivered_payload payload.id ≡ true
      → handle g c payload s ≡ ok (t, hs, r)
      → Moves P
          ((payload.id ≡ id) × (result : Bytes) × (c.handle_payload payload ≡ returned result))
          id
          s
          t
  handle-Moves c payload s {t} id delivered_ h a e =
      let (same_delivered, _, second) = handle_inv c payload s h in
      let f : (t.handled_payload id ≡ s.handled_payload id)
          ⊎ (((payload.id ≡ id) × (result : Bytes) × (c.handle_payload payload ≡ returned result))
              × (s.delivered_payload id ≡ true)
              × (t.handled_payload id ≡ true)) =
        elim second [
          | inl same ↦ inl (ap (λ m. m id) same)
          | inr (result, ran, set) ↦
              elim (flag_set s.handled_payload t.handled_payload id payload.id set) [
                | inl same ↦ inl same
                | inr (k, now) ↦ inr ((k, result, ran), rw (← k) delivered_, now)
              ]
        ] in
      rw same_delivered
        (handle_stage (s.delivered_payload id) (s.handled_payload id) (t.handled_payload id) e f)

  pub Moves-trans :
      {P R : Type 0} (id : ℕ) (s t u : Storage g)
      → Moves P R id s t
      → Moves P R id t u
      → Moves P R id s u
  Moves-trans id s t u m k a e =
      let (b, eb, l) = m a e in let (d, ed, l') = k b eb in (d, ed, Life-trans l l')

  pub Moves-map :
      {P R P' R' : Type 0} (id : ℕ) (s t : Storage g)
      → (P → P')
      → (R → R')
      → Moves P R id s t
      → Moves P' R' id s t
  Moves-map id s t f k m a e = let (b, eb, l) = m a e in (b, eb, Life-map f k l)
