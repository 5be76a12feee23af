-- ===== src/Contracts/Gateway.antt =====
-- contracts/gmp/Mailbox.sol and contracts/bridge/BridgeV2.sol on one chain: the bridge is a handler
-- of the mailbox, which calls it with the messages that it delivers.
use evm_smart_contracts.Prelude.{
  ℕ, Bool, List, [], ◌∷◌, Bytes, Result, ok, err, ◌==◌, if◌then◌else◌,
}
use evm_smart_contracts.Contracts.Context.{Guards}
use evm_smart_contracts.Contracts.Gmp.{Payload, decode_and_validate_payload}
use evm_smart_contracts.Contracts.Mailbox
use evm_smart_contracts.Contracts.Mailbox.{Handling, returned, failed}
use evm_smart_contracts.Contracts.Mailbox.Calls as MailboxCalls
use evm_smart_contracts.Contracts.Mailbox.Calls.{deliver_message}
use evm_smart_contracts.Contracts.Bridge
use evm_smart_contracts.Contracts.Bridge.Withdraw.{handle_payload}
use evm_smart_contracts.Contracts.Bridge.Calls as BridgeCalls
pub mod Steps
pub mod Proofs

module _ (g : Guards) (keccak256 sha256 : Bytes → ℕ) (mailbox_address bridge_address : ℕ) where
  pub record System : Type 0 where
    pub mailbox : Mailbox.Storage g
    pub bridge : Bridge.Storage

  -- A transaction to the mailbox, with what the bridge would see in it, or one to the bridge.
  pub data Transaction : Type 0 where
    to_mailbox : Mailbox.Context → Bridge.Context → MailboxCalls.Call g → Transaction
    to_bridge : Bridge.Context → BridgeCalls.Call → Transaction

  -- The bridge is called by the mailbox, and asks it for the paths.
  abbrev pub seen_by_bridge : Bridge.Context → System → Bridge.Context
  seen_by_bridge cb sys = record cb {
    sender = mailbox_address;
    inbound_message_path = sys.mailbox.inbound_message_path;
  }

  abbrev answer : Result Bridge.Error (Bridge.Storage × List Bridge.Event) → Handling
  answer (ok r) = returned []
  answer (err e) = failed []

  -- What the mailbox sees: the handler at the bridge's address is the bridge.
  abbrev pub seen_by_mailbox : Mailbox.Context → Bridge.Context → System → Mailbox.Context
  seen_by_mailbox c cb sys = record c {
    this = mailbox_address;
    handle_payload = λ payload.
        if payload.msg_recipient == bridge_address
        then answer (handle_payload keccak256 (seen_by_bridge cb sys) payload sys.bridge)
        else c.handle_payload payload;
  }

  abbrev pub or_same :
      Bridge.Storage → Result Bridge.Error (Bridge.Storage × List Bridge.Event) → Bridge.Storage
  or_same b (ok (b', es)) = b'
  or_same b (err e) = b

  -- The bridge after a message that the mailbox handed on; a handler that reverts changes nothing.
  unfoldable pub after_message : Bridge.Context → System → Bytes → Bridge.Storage
  after_message cb sys raw = elim (decode_and_validate_payload sha256 raw) [
    | err e ↦ sys.bridge
    | ok payload ↦
        let handled =
          or_same sys.bridge
            (handle_payload keccak256 (seen_by_bridge cb sys) payload sys.bridge) in
        if payload.msg_recipient == bridge_address then handled else sys.bridge
  ]

  unfoldable pub after_call : Bridge.Context → System → MailboxCalls.Call g → Bridge.Storage
  after_call cb sys (deliver_message raw proof) = after_message cb sys raw
  after_call cb sys _ = sys.bridge

  abbrev pub after_mailbox :
      Bridge.Context
      → System
      → MailboxCalls.Call g
      → Result Mailbox.Error (Mailbox.Storage g × List Mailbox.Event)
      → System
  after_mailbox cb sys call (ok (m, es)) = record { mailbox = m; bridge = after_call cb sys call }
  after_mailbox cb sys call (err e) = sys

  -- The mailbox calls the bridge only with the messages that it delivers.
  unfoldable pub step : Transaction → System → System
  step (to_mailbox c cb call) sys =
      after_mailbox cb sys call
        (MailboxCalls.execute g keccak256 sha256 (seen_by_mailbox c cb sys) call sys.mailbox)
  step (to_bridge cb call) sys =
      let b = or_same sys.bridge (BridgeCalls.execute keccak256 cb call sys.bridge) in
      if cb.sender == mailbox_address then sys else record sys { bridge = b }

  unfoldable pub run : List Transaction → System → System
  run [] sys = sys
  run (t ∷ ts) sys = run ts (step t sys)
