-- ===== src/Contracts/Gateway/Proofs.antt =====
-- contracts/gmp/Mailbox.sol and contracts/bridge/BridgeV2.sol: that what the bridge takes was signed.
use evm_smart_contracts.Prelude.{
  ℕ, ◌≡◌, ◌≢◌, refl, sym, ap, ◌∙◌, arith, inl, inr, true, false, Bool-cases, some, List, [], ◌∷◌,
  Bytes, Result-cases, ◌==◌,
}
use evm_smart_contracts.Contracts.Context.{Guards}
use evm_smart_contracts.Contracts.Mailbox
use evm_smart_contracts.Contracts.Mailbox.Calls as MailboxCalls
use evm_smart_contracts.Contracts.Mailbox.Calls.{
  Call, access_changed, enable_path, disable_path, default_size, byte_fee, sender_conf,
  send_message, deliver_message, take_fee, stop, start, state_of_inv,
}
use evm_smart_contracts.Contracts.Mailbox.Calls.Stages.{
  Stage, unknown, Life, stays, stage, IsProof, Moves-map,
}
use evm_smart_contracts.Contracts.Mailbox.Calls.Lives.{execute-Lives}
use evm_smart_contracts.Contracts.Bridge
use evm_smart_contracts.Contracts.Bridge.{
  set_destination_bridge, set_sender_config, add_destination_token, remove_destination_token,
  set_token_rate_limits,
}
use evm_smart_contracts.Contracts.Bridge.Calls as BridgeCalls
use evm_smart_contracts.Contracts.Gateway.{
  System, Transaction, to_mailbox, to_bridge, seen_by_mailbox, step, run,
}
use evm_smart_contracts.Contracts.Gateway.Steps.{
  Life-proved, delivered_known, IsProved, IsDelivered, not_handled, Spends, after_call-Spends,
  direct_inv,
}

module _ (g : Guards) (keccak256 sha256 : Bytes → ℕ) (mailbox_address bridge_address : ℕ) where
  -- What a transaction does: the mailbox's consortium and the bridge's mailbox stay, the message
  -- goes on along its life, and the bridge spends it only if it is delivered.
  abbrev IsLinked :
      ℕ
      → Type 0
      → System g keccak256 sha256 mailbox_address bridge_address
      → System g keccak256 sha256 mailbox_address bridge_address
      → Type 0
  IsLinked id P s t =
      (t.mailbox.consortium ≡ s.mailbox.consortium)
      × ((a : Stage)
          → stage g keccak256 sha256 s.mailbox id ≡ some a
          → (b : Stage) × (stage g keccak256 sha256 t.mailbox id ≡ some b) × Life P (Unit {0}) a b)
      × Spends g keccak256 sha256 mailbox_address bridge_address id
          (t.mailbox.delivered_payload id ≡ true) s.bridge t.bridge

  same-IsLinked :
      {P : Type 0} (id : ℕ) (s : System g keccak256 sha256 mailbox_address bridge_address)
      → IsLinked id P s s
  same-IsLinked id s = (refl, λ a e. (a, e, stays), (refl, λ h. inl h))

  proof_of :
      (id consortium : ℕ) (c : Mailbox.Context) (cb : Bridge.Context)
      (s : System g keccak256 sha256 mailbox_address bridge_address) (call : Call g)
      → IsProof g keccak256 sha256 consortium id
          (seen_by_mailbox g keccak256 sha256 mailbox_address bridge_address c cb s, call)
      → IsProved g keccak256 sha256 mailbox_address bridge_address consortium id
          (to_mailbox c cb call)
  proof_of id consortium c cb s (deliver_message raw proof) h = h
  proof_of id consortium c cb s (access_changed a) h = h
  proof_of id consortium c cb s (enable_path a b d) h = h
  proof_of id consortium c cb s (disable_path a b d) h = h
  proof_of id consortium c cb s (default_size a) h = h
  proof_of id consortium c cb s (byte_fee a) h = h
  proof_of id consortium c cb s (sender_conf a b d) h = h
  proof_of id consortium c cb s (send_message a b d e) h = h
  proof_of id consortium c cb s take_fee h = h
  proof_of id consortium c cb s stop h = h
  proof_of id consortium c cb s start h = h

  mailbox-IsLinked :
      (id : ℕ) (c : Mailbox.Context) (cb : Bridge.Context) (call : Call g)
      (s : System g keccak256 sha256 mailbox_address bridge_address)
      → IsLinked id
          (IsProved g keccak256 sha256 mailbox_address bridge_address s.mailbox.consortium id
            (to_mailbox c cb call))
          s
          (step g keccak256 sha256 mailbox_address bridge_address (to_mailbox c cb call) s)
  unfolding step
  mailbox-IsLinked id c cb call s =
      let c' : Mailbox.Context =
        seen_by_mailbox g keccak256 sha256 mailbox_address bridge_address c cb s in
      elim (Result-cases (MailboxCalls.execute g keccak256 sha256 c' call s.mailbox)) [
        | inl (e, k) ↦ rw (step, k) (same-IsLinked id s)
        | inr ((m, es), k) ↦
            let (same, moves) = execute-Lives g keccak256 sha256 id c' call s.mailbox k in
            rw (step, k)
              (
                same,
                Moves-map g keccak256 sha256 id s.mailbox m
                    (proof_of id s.mailbox.consortium c cb s call) (λ r. tt) moves,
                after_call-Spends g keccak256 sha256 mailbox_address bridge_address id c' cb s call
                    k,
              )
      ]

  bridge-IsLinked :
      {P : Type 0} (id : ℕ) (cb : Bridge.Context) (call : BridgeCalls.Call)
      (s : System g keccak256 sha256 mailbox_address bridge_address)
      → s.bridge.mailbox ≡ mailbox_address
      → IsLinked id P s
          (step g keccak256 sha256 mailbox_address bridge_address (to_bridge cb call) s)
  unfolding step
  bridge-IsLinked id cb call s at_ = elim (Bool-cases (cb.sender == mailbox_address)) [
    | inl k ↦ rw (step, k) (same-IsLinked id s)
    | inr k ↦ elim (Result-cases (BridgeCalls.execute keccak256 cb call s.bridge)) [
      | inl (e, q) ↦ rw (step, k, q) (same-IsLinked id s)
      | inr ((b, es), q) ↦
          let away : cb.sender ≢ s.bridge.mailbox = ground arith in
          let (same, kept) =
            direct_inv g keccak256 sha256 mailbox_address bridge_address cb call s.bridge away q in
          rw (step, k, q)
            (refl, λ a e. (a, e, stays), (same, λ h. inl (sym (ap (λ m. m id) kept) ∙ h)))
    ]
  ]

  step-IsLinked :
      (id : ℕ) (t : Transaction g keccak256 sha256 mailbox_address bridge_address)
      (s : System g keccak256 sha256 mailbox_address bridge_address)
      → s.bridge.mailbox ≡ mailbox_address
      → IsLinked id
          (IsProved g keccak256 sha256 mailbox_address bridge_address s.mailbox.consortium id t)
          s
          (step g keccak256 sha256 mailbox_address bridge_address t s)
  step-IsLinked id (to_mailbox c cb call) s e = mailbox-IsLinked id c cb call s
  step-IsLinked id (to_bridge cb call) s e = bridge-IsLinked id cb call s e

  same_consortium :
      {a b : ℕ} (id : ℕ) (ts : List (Transaction g keccak256 sha256 mailbox_address bridge_address))
      (s : System g keccak256 sha256 mailbox_address bridge_address)
      → a ≡ b
      → IsDelivered g keccak256 sha256 mailbox_address bridge_address a id ts s
      → IsDelivered g keccak256 sha256 mailbox_address bridge_address b id ts s
  same_consortium id ts s e h = rw e at h

  -- Over any sequence of transactions to the mailbox and to the bridge, from a state in which the
  -- bridge names this mailbox and a message is neither delivered, handled nor spent: if the bridge
  -- has spent the message in the end, one of the transactions delivered it, with its bytes, which
  -- hash to its id, and with a proof that the mailbox's consortium accepts.
  pub run-IsProved :
      (id : ℕ) (ts : List (Transaction g keccak256 sha256 mailbox_address bridge_address))
      (s : System g keccak256 sha256 mailbox_address bridge_address)
      → s.bridge.mailbox ≡ mailbox_address
      → s.mailbox.delivered_payload id ≡ false
      → s.mailbox.handled_payload id ≡ false
      → s.bridge.payload_spent id ≡ false
      → (run g keccak256 sha256 mailbox_address bridge_address ts s).bridge.payload_spent id ≡ true
      → IsDelivered g keccak256 sha256 mailbox_address bridge_address s.mailbox.consortium id ts s
  unfolding run
  run-IsProved id [] s at_ d h fresh spent =
      let no_ : true ≡ false = sym spent ∙ fresh in ground arith
  run-IsProved id (t ∷ ts) s at_ d h fresh spent =
      let s1 = step g keccak256 sha256 mailbox_address bridge_address t s in
      let (ec, moves, (em, spends)) = step-IsLinked id t s at_ in
      let (b, eb, l) = moves unknown (rw (d, h) refl) in
      elim (Bool-cases (s1.mailbox.delivered_payload id)) [
        | inl now ↦
            let known = delivered_known (s1.mailbox.handled_payload id) (rw now at eb) in
            inl (Life-proved l refl known, d, now)
        | inr still ↦
            let h1 = not_handled (s1.mailbox.handled_payload id) (rw still at eb) in
            let fresh1 : s1.bridge.payload_spent id ≡ false =
              elim (Bool-cases (s1.bridge.payload_spent id)) [
                | inl sp ↦ elim (spends sp) [
                  | inl old ↦ absurd (ground arith)
                  | inr del ↦ absurd (ground arith)
                ]
                | inr no_ ↦ no_
              ] in
            let rest = run-IsProved id ts s1 (em ∙ at_) still h1 fresh1 spent in
            inr (same_consortium id ts s1 ec rest)
      ]
