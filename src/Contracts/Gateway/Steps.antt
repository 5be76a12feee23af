-- ===== src/Contracts/Gateway/Steps.antt =====
-- contracts/gmp/Mailbox.sol and contracts/bridge/BridgeV2.sol: what a transaction does to the
-- bridge.
use evm_smart_contracts.Prelude.{
  ℕ, ◌≡◌, ◌≢◌, refl, sym, ap, ◌∙◌, arith, ◌⊎◌, inl, inr, Bool, true, false, Bool-cases, some, List,
  [], ◌∷◌, Bytes, ok, Result-cases, ◌==◌, update,
}
use evm_smart_contracts.Contracts.Context.{Guards}
use evm_smart_contracts.Contracts.Gmp.{Payload, decode_and_validate_payload}
use evm_smart_contracts.Contracts.Mailbox
use evm_smart_contracts.Contracts.Mailbox.Deliver.{deliver_and_handle}
use evm_smart_contracts.Contracts.Mailbox.Retry.{deliver_and_handle_marks}
use evm_smart_contracts.Contracts.Mailbox.Calls as MailboxCalls
use evm_smart_contracts.Contracts.Mailbox.Calls.{
  Call, access_changed, enable_path, disable_path, default_size, byte_fee, sender_conf,
  send_message, deliver_message, take_fee, stop, start, state_of_inv,
}
use evm_smart_contracts.Contracts.Mailbox.Calls.Stages.{
  Stage, unknown, stage_of, IsCarried, Life, stays, delivers, handles,
}
use evm_smart_contracts.Contracts.Bridge
use evm_smart_contracts.Contracts.Bridge.{
  set_destination_bridge, set_sender_config, add_destination_token, remove_destination_token,
  set_token_rate_limits,
}
use evm_smart_contracts.Contracts.Bridge.Withdraw.{handle_payload, handle_payload_inv}
use evm_smart_contracts.Contracts.Bridge.Calls as BridgeCalls
use evm_smart_contracts.Contracts.Bridge.Calls.Once.{unchanged_inv}
use evm_smart_contracts.Contracts.Gateway.{
  System, Transaction, to_mailbox, step, seen_by_bridge, or_same, after_message, after_call,
}

-- A message that is not unknown any more had a proof.
pub Life-proved : {P R : Type 0} {a b : Stage} → Life P R a b → a ≡ unknown → b ≢ unknown → P
Life-proved stays e n = absurd (n e)
Life-proved (delivers l p) e n = p
Life-proved (handles l r) e n = Life-proved l e (λ k. ground arith)

pub not_handled : (h : Bool) {b : Stage} → stage_of false h ≡ some b → h ≡ false
not_handled true e = ground arith
not_handled false e = refl

pub delivered_known : (h : Bool) {b : Stage} → stage_of true h ≡ some b → b ≢ unknown
delivered_known true e = λ k. ground arith
delivered_known false e = λ k. ground arith

module _ (g : Guards) (keccak256 sha256 : Bytes → ℕ) (mailbox_address bridge_address : ℕ) where
  -- The transaction carries the message, and a proof of it that the consortium accepts.
  abbrev pub IsProved :
      ℕ → ℕ → Transaction g keccak256 sha256 mailbox_address bridge_address → Type 0
  IsProved consortium id (to_mailbox c cb (deliver_message raw proof)) =
      IsCarried g keccak256 sha256 id raw × (c.check_proof consortium id proof ≡ true)
  IsProved consortium id _ = ⊥

  -- One of the transactions delivers the message, which was not delivered before, and carries it with
  -- a proof that the consortium accepts.
  abbrev pub IsDelivered :
      ℕ
      → ℕ
      → List (Transaction g keccak256 sha256 mailbox_address bridge_address)
      → System g keccak256 sha256 mailbox_address bridge_address
      → Type 0
  IsDelivered consortium id [] s = ⊥
  IsDelivered consortium id (t ∷ ts) s =
      let s1 = step g keccak256 sha256 mailbox_address bridge_address t s in
      (IsProved consortium id t
        × (s.mailbox.delivered_payload id ≡ false)
        × (s1.mailbox.delivered_payload id ≡ true))
      ⊎ IsDelivered consortium id ts s1

  -- What a handler may do to the bridge.
  abbrev pub Spends : ℕ → Type 0 → Bridge.Storage → Bridge.Storage → Type 0
  Spends id Q b b' =
      (b'.mailbox ≡ b.mailbox) × (b'.payload_spent id ≡ true → (b.payload_spent id ≡ true) ⊎ Q)

  pub handle_payload-Spends :
      (id : ℕ) (cb : Bridge.Context) (p : Payload) (b : Bridge.Storage)
      → Spends id (p.id ≡ id) b (
          or_same g keccak256 sha256 mailbox_address bridge_address b
            (handle_payload keccak256 cb p b))
  handle_payload-Spends id cb p b = elim (Result-cases (handle_payload keccak256 cb p b)) [
    | inl (e, k) ↦ rw k (refl, λ h. inl h)
    | inr ((b', es), k) ↦
        let (_, _, _, _, (msg, _, _, (rl, _, et), _)) = handle_payload_inv keccak256 cb p b k in
        let spent : b'.payload_spent ≡ update b.payload_spent p.id true =
          ap (λ u. u.payload_spent) et in
        let same : b'.mailbox ≡ b.mailbox = ap (λ u. u.mailbox) et in
        rw k (
          same,
          λ h. elim (Bool-cases (id == p.id)) [
            | inl e ↦ inr (ground arith)
            | inr e ↦ inl (sym (ap (λ m. m id) spent ∙ rw e refl) ∙ h)
          ],
        )
  ]

  pub after_message-Spends :
      (id : ℕ) (cb : Bridge.Context)
      (sys : System g keccak256 sha256 mailbox_address bridge_address) (raw : Bytes) {p : Payload}
      → decode_and_validate_payload sha256 raw ≡ ok p
      → Spends id
          (p.id ≡ id)
          sys.bridge
          (after_message g keccak256 sha256 mailbox_address bridge_address cb sys raw)
  unfolding after_message
  after_message-Spends id cb sys raw {p} e = elim (Bool-cases (p.msg_recipient == bridge_address)) [
    | inl k ↦
        rw (after_message, e, k)
          (handle_payload-Spends id
            (seen_by_bridge g keccak256 sha256 mailbox_address bridge_address cb sys) p sys.bridge)
    | inr k ↦ rw (after_message, e, k) (refl, λ h. inl h)
  ]

  pub after_call-Spends :
      (id : ℕ) (c : Mailbox.Context) (cb : Bridge.Context)
      (sys : System g keccak256 sha256 mailbox_address bridge_address) (call : Call g)
      {m : Mailbox.Storage g} {es : List Mailbox.Event}
      → MailboxCalls.execute g keccak256 sha256 c call sys.mailbox ≡ ok (m, es)
      → Spends id
          (m.delivered_payload id ≡ true)
          sys.bridge
          (after_call g keccak256 sha256 mailbox_address bridge_address cb sys call)
  unfolding after_call MailboxCalls.execute
  after_call-Spends id c cb sys (deliver_message raw proof) h =
      let (r, k) = state_of_inv (deliver_and_handle g sha256 c raw proof sys.mailbox) h in
      let (p, decoded, marked) = deliver_and_handle_marks g sha256 c raw proof sys.mailbox k in
      let (same, spends) = after_message-Spends id cb sys raw decoded in
      (same, λ s. elim (spends s) [ inl old ↦ inl old | inr new ↦ inr (rw new at marked) ])
  after_call-Spends id c cb sys (access_changed a) h = (refl, λ s. inl s)
  after_call-Spends id c cb sys (enable_path a b d) h = (refl, λ s. inl s)
  after_call-Spends id c cb sys (disable_path a b d) h = (refl, λ s. inl s)
  after_call-Spends id c cb sys (default_size a) h = (refl, λ s. inl s)
  after_call-Spends id c cb sys (byte_fee a) h = (refl, λ s. inl s)
  after_call-Spends id c cb sys (sender_conf a b d) h = (refl, λ s. inl s)
  after_call-Spends id c cb sys (send_message a b d e) h = (refl, λ s. inl s)
  after_call-Spends id c cb sys take_fee h = (refl, λ s. inl s)
  after_call-Spends id c cb sys stop h = (refl, λ s. inl s)
  after_call-Spends id c cb sys start h = (refl, λ s. inl s)

  -- A call that is not from the mailbox spends nothing.
  pub direct_inv :
      (cb : Bridge.Context) (call : BridgeCalls.Call) (b : Bridge.Storage) {b' : Bridge.Storage}
      {es : List Bridge.Event}
      → cb.sender ≢ b.mailbox
      → BridgeCalls.execute keccak256 cb call b ≡ ok (b', es)
      → (b'.mailbox ≡ b.mailbox) × (b'.payload_spent ≡ b.payload_spent)
  unfolding BridgeCalls.execute set_destination_bridge set_sender_config add_destination_token
      remove_destination_token set_token_rate_limits
  direct_inv cb (BridgeCalls.owner_changed o) b n h = ground arith
  direct_inv cb (BridgeCalls.set_bridge x y) b n h = ground arith
  direct_inv cb (BridgeCalls.sender_conf x y z) b n h = ground arith
  direct_inv cb (BridgeCalls.add_token x y z) b n h = ground arith
  direct_inv cb (BridgeCalls.remove_token x y) b n h = ground arith
  direct_inv cb (BridgeCalls.token_limits x y) b n h = ground arith
  direct_inv cb (BridgeCalls.deposit_behalf x y z u v w) b n h =
      let e = unchanged_inv b _ h in (ap (λ s. s.mailbox) e, ap (λ s. s.payload_spent) e)
  direct_inv cb (BridgeCalls.deposit_own x y z u v) b n h =
      let e = unchanged_inv b _ h in (ap (λ s. s.mailbox) e, ap (λ s. s.payload_spent) e)
  direct_inv cb (BridgeCalls.handle p) b n h = absurd (n (handle_payload_inv keccak256 cb p b h).0)
