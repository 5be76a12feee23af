-- ===== src/Contracts/Examples/Gateways.antt =====
-- contracts/gmp/Mailbox.sol and contracts/bridge/BridgeV2.sol on one transfer that the mailbox
-- delivers to the bridge.
use evm_smart_contracts.Prelude.{
  ◌≡◌, refl, true, arith, List, [], ◌∷◌, Bytes, length, ok, update, ◌==◌, ==_refl, to_be,
}
use evm_smart_contracts.Contracts.Abi.{encode_words}
use evm_smart_contracts.Contracts.Gmp.{Payload, encode_payload, decode_and_validate_payload}
use evm_smart_contracts.Contracts.Gmp.RoundTrip.{decode_and_validate_payload-encode_payload}
use evm_smart_contracts.Contracts.Mailbox.{Context}
use evm_smart_contracts.Contracts.Mailbox.Deliver.{
  deliver_and_handle, deliver, verify_payload, handle,
}
use evm_smart_contracts.Contracts.Mailbox.Calls as MailboxCalls
use evm_smart_contracts.Contracts.Mailbox.Calls.{deliver_message}
use evm_smart_contracts.Contracts.Bridge
use evm_smart_contracts.Contracts.Bridge.{
  withdraw_from_bridge, calc_allowed_token_id, calc_rate_limit_id,
}
use evm_smart_contracts.Contracts.Bridge.Body.{encode_msg}
use evm_smart_contracts.Contracts.Bridge.Withdraw.{withdraw, handle_payload}
use evm_smart_contracts.Contracts.Gateway.{
  System, Transaction, to_mailbox, seen_by_bridge, after_message, after_call, step, run,
}
use evm_smart_contracts.Contracts.Gateway.Steps.{IsDelivered}
use evm_smart_contracts.Contracts.Gateway.Proofs.{run-IsProved}
use evm_smart_contracts.Contracts.Examples.Deposits.{guards}
use evm_smart_contracts.Contracts.Examples.Messages.{hash_of, at_first}
use evm_smart_contracts.Contracts.Examples.Messages as Messages
use evm_smart_contracts.Contracts.Examples.Transfers as Transfers

-- The mailbox 77 and the bridge 70.
abbrev system : System guards hash_of hash_of 77 70
system = record { mailbox = Messages.start; bridge = Transfers.start }

abbrev raw : Bytes
raw = encode_payload 96 4 8 70 0 (encode_msg 20 30 31 40)

abbrev payload : Payload
payload = record {
  id = hash_of raw;
  msg_path = 96;
  msg_nonce = 4;
  msg_sender = 8;
  msg_recipient = 70;
  msg_destination_caller = 0;
  msg_body = encode_msg 20 30 31 40;
}

body_short : length (encode_msg 20 30 31 40) ≡ 129
unfolding encode_msg encode_words to_be
body_short = refl

decoded : decode_and_validate_payload hash_of raw ≡ ok payload
decoded =
    decode_and_validate_payload-encode_payload hash_of 96 4 8 70 0 (encode_msg 20 30 31 40)
      (omega arith) (omega arith) (omega arith) (omega arith) (omega arith) (omega arith)
      (omega arith) (omega (arith, body_short))

abbrev at_delivery : Context
at_delivery = record at_first { supports_handler = λ recipient. recipient == 70 }

abbrev transactions : List (Transaction guards hash_of hash_of 77 70)
transactions = to_mailbox at_delivery Transfers.call (deliver_message raw (1 ∷ [])) ∷ []

abbrev after : Bridge.Storage
after = record Transfers.start {
  payload_spent = update Transfers.start.payload_spent (hash_of raw) true;
  rate_limit = update Transfers.start.rate_limit 52 Transfers.updated;
}

accepted :
    handle_payload hash_of
      (seen_by_bridge guards hash_of hash_of 77 70 Transfers.call system)
      payload
      Transfers.start
    ≡ ok (after, withdraw_from_bridge 31 6 20 40 ∷ [])
unfolding handle_payload withdraw calc_allowed_token_id calc_rate_limit_id encode_words to_be
accepted = rw (Transfers.decoded, Transfers.limited) refl

spent :
    (run guards hash_of hash_of 77 70 transactions system).bridge.payload_spent (hash_of raw) ≡ true
unfolding run step MailboxCalls.execute deliver_and_handle deliver verify_payload handle after_call
    after_message
spent = rw (decoded, accepted, after_message, decoded, accepted) (rw (==_refl (hash_of raw)) refl)

run-IsProved_example : IsDelivered guards hash_of hash_of 77 70 3 (hash_of raw) transactions system
run-IsProved_example =
    run-IsProved guards hash_of hash_of 77 70 (hash_of raw) transactions system refl refl refl refl
      spent
