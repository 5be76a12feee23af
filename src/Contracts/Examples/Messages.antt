-- ===== src/Contracts/Examples/Messages.antt =====
-- contracts/gmp/Mailbox.sol and contracts/gmp/libs/GMPUtils.sol on two messages sent and one
-- delivered.
use evm_smart_contracts.Prelude.{
  ℕ, ◌≤◌, ◌+◌, ◌<◌, ◌≡◌, ◌↔◌, refl, Bool, true, false, some, List, [], ◌∷◌, length, Bytes, ok, ◌==◌,
  update, arith, All, Any, word_mod, inl,
}
use evm_smart_contracts.Contracts.Gmp.{Payload, encode_payload, decode_and_validate_payload}
use evm_smart_contracts.Contracts.Gmp.RoundTrip.{decode_and_validate_payload-encode_payload}
use evm_smart_contracts.Contracts.Mailbox.{
  both, Context, Storage, Event, message_handled, message_delivered, message_handle_error, returned,
  failed,
}
use evm_smart_contracts.Contracts.Mailbox.Send.{send}
use evm_smart_contracts.Contracts.Mailbox.Fees.{CanSend, send-CanSend}
use evm_smart_contracts.Contracts.Mailbox.Deliver.{
  deliver_and_handle, deliver, verify_payload, handle,
}
use evm_smart_contracts.Contracts.Mailbox.Calls.{
  Call, enable_path, default_size, send_message, deliver_message, run,
}
use evm_smart_contracts.Contracts.Mailbox.Calls.Nonces.{sent_payloads, Distinct, run-Distinct}
use evm_smart_contracts.Contracts.Mailbox.Calls.Keeps.{IsSmall, IsLimited, run-IsLimited}
use evm_smart_contracts.Contracts.Mailbox.Calls.Deliveries.{deliveries, flag}
use evm_smart_contracts.Contracts.Mailbox.Calls.Stages.{
  Stage, unknown, Life, IsProof, IsHandling, stage,
}
use evm_smart_contracts.Contracts.Mailbox.Calls.Lives.{run-Life}
use evm_smart_contracts.Contracts.Mailbox.Calls.Later.{deliver_and_handle_again}
use evm_smart_contracts.Contracts.Examples.Deposits.{guards}

-- The length of some bytes is their hash; the paths have the hash 96.
abbrev pub hash_of : Bytes → ℕ
hash_of bs = length bs

-- Account 1 is the admin, the consortium accepts every proof but the empty one, and the handler
-- fails.
abbrev pub at_first : Context
at_first = record {
  sender = 1;
  value = 500;
  chain_id = 5;
  this = 77;
  balance = 0;
  check_proof = λ consortium id proof. not_empty proof;
  supports_handler = λ recipient. recipient == 40;
  handle_payload = λ payload. failed [];
  accepts_fee = true;
}
  where
    not_empty : Bytes → Bool
    not_empty [] = false
    not_empty (b ∷ bs) = true

-- Later the consortium accepts nothing, and the handler returns.
abbrev later : Context
later = record at_first {
  check_proof = λ consortium id proof. false;
  handle_payload = λ payload. returned (9 ∷ []);
}

-- The path to chain 6 and the one from it are enabled.
abbrev pub start : Storage guards
start = record {
  access = guards.initial 1;
  global_nonce = 1;
  outbound_message_path = update (λ id. 0) 96 6;
  inbound_message_path = update (λ id. 0) 96 6;
  delivered_payload = λ id. false;
  handled_payload = λ id. false;
  consortium = 3;
  default_max_payload_size = 1000;
  sender_config = λ sender. record { max_payload_size = 0; fee_disabled = false };
  fee_per_byte = 1;
}

-- A message on the path 96, with the nonce 4, from account 8 to the contract 40.
abbrev raw : Bytes
raw = encode_payload 96 4 8 40 0 (1 ∷ 2 ∷ [])

abbrev payload : Payload
payload = record {
  id = hash_of raw;
  msg_path = 96;
  msg_nonce = 4;
  msg_sender = 8;
  msg_recipient = 40;
  msg_destination_caller = 0;
  msg_body = 1 ∷ 2 ∷ [];
}

abbrev calls : List (Context × Call guards)
calls =
    (at_first, enable_path 7 8 both)
    ∷ (at_first, default_size 10001)
    ∷ (at_first, send_message 6 50 0 (1 ∷ []))
    ∷ (at_first, send_message 6 50 0 (1 ∷ []))
    ∷ (at_first, deliver_message raw (1 ∷ []))
    ∷ (later, deliver_message raw [])
    ∷ []

decode_and_validate_payload-encode_payload_example :
    decode_and_validate_payload hash_of (encode_payload 96 4 8 40 0 (1 ∷ 2 ∷ [])) ≡ ok payload
decode_and_validate_payload-encode_payload_example =
    decode_and_validate_payload-encode_payload hash_of 96 4 8 40 0 (1 ∷ 2 ∷ []) (omega arith)
      (omega arith) (omega arith) (omega arith) (omega arith) (omega arith) (omega arith)
      (omega arith)

run-Distinct_example :
    Distinct (sent_payloads (run guards hash_of hash_of calls start).1)
    × ((run guards hash_of hash_of calls start).0.global_nonce
        ≡ 1 + length (sent_payloads (run guards hash_of hash_of calls start).1))
    × ((run guards hash_of hash_of calls start).0.global_nonce < word_mod)
run-Distinct_example = run-Distinct guards hash_of hash_of calls start (omega arith)

run-IsLimited_example :
    IsLimited guards hash_of hash_of (run guards hash_of hash_of calls start).0
    × All IsSmall (sent_payloads (run guards hash_of hash_of calls start).1)
run-IsLimited_example =
    run-IsLimited guards hash_of hash_of calls start (omega arith, λ sender. omega arith)

run-Life_example :
    ((run guards hash_of hash_of calls start).0.consortium ≡ 3)
    × ((b : Stage) × (stage guards hash_of hash_of (run guards hash_of hash_of calls start).0 292
          ≡ some b)
        × Life
            (Any (IsProof guards hash_of hash_of 3 292) calls)
            (Any (IsHandling guards hash_of hash_of 292) calls)
            unknown
            b)
    × (0 + deliveries 292 (run guards hash_of hash_of calls start).1
        ≡ flag ((run guards hash_of hash_of calls start).0.delivered_payload 292))
    × (deliveries 292 (run guards hash_of hash_of calls start).1 ≤ 1)
run-Life_example = run-Life guards hash_of hash_of 292 calls start unknown refl

send-CanSend_example :
    ((r : Storage guards × List Event × (ℕ × ℕ)) × (send guards hash_of hash_of at_first 6 50 0
          (1 ∷ [])
          start
        ≡ ok r))
    ↔ CanSend guards hash_of hash_of at_first 6 50 0 (1 ∷ []) start
send-CanSend_example = send-CanSend guards hash_of hash_of at_first 6 50 0 (1 ∷ []) start

pub decoded : decode_and_validate_payload hash_of raw ≡ ok payload
decoded =
    decode_and_validate_payload-encode_payload hash_of 96 4 8 40 0 (1 ∷ 2 ∷ []) (omega arith)
      (omega arith) (omega arith) (omega arith) (omega arith) (omega arith) (omega arith)
      (omega arith)

abbrev after : Storage guards
after = record start { delivered_payload = update start.delivered_payload payload.id true }

fails :
    deliver_and_handle guards hash_of at_first raw (1 ∷ []) start
    ≡ ok (
      after,
      message_delivered payload.id 1 4 8 raw ∷ message_handle_error payload.id 1 [] [] ∷ [],
      (payload.id, false, []),
    )
unfolding deliver_and_handle deliver verify_payload handle
fails = rw decoded refl

deliver_and_handle_again_example :
    deliver_and_handle guards hash_of later raw [] after
    ≡ ok (
      record after { handled_payload = update after.handled_payload payload.id true },
      message_handled payload.id 1 (9 ∷ []) ∷ [],
      (payload.id, true, 9 ∷ []),
    )
unfolding run
deliver_and_handle_again_example =
    deliver_and_handle_again guards hash_of hash_of at_first later raw (1 ∷ []) [] (9 ∷ []) start []
      fails decoded (refl, omega arith, inl refl, refl, refl)
