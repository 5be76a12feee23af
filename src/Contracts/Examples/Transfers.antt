-- ===== src/Contracts/Examples/Transfers.antt =====
-- contracts/bridge/BridgeV2.sol on one transfer that comes in twice.
use evm_smart_contracts.Prelude.{
  ℕ, ◌+◌, ◌-◌, ◌*◌, ◌≤◌, ◌≡◌, ◌≢◌, refl, true, false, none, some, List, [], ◌∷◌, length, Bytes,
  to_be, ok, update, arith,
}
use evm_smart_contracts.Contracts.Abi.{encode_words}
use evm_smart_contracts.Contracts.Gmp.{Payload, address_to_bytes32}
use evm_smart_contracts.Contracts.RateLimits.{Data, update_limit, available_amount_to_send}
use evm_smart_contracts.Contracts.Bridge.{
  Context, withdraw_from_bridge, Storage, calc_allowed_token_id, calc_rate_limit_id,
}
use evm_smart_contracts.Contracts.Bridge.Body.{
  Msg, encode_msg, decode_msg_body, decode_msg_body-encode_msg,
}
use evm_smart_contracts.Contracts.Bridge.Withdraw.{withdraw, handle_payload, handle_payload_inv}
use evm_smart_contracts.Contracts.Bridge.Calls.{Call, set_bridge, handle, run}
use evm_smart_contracts.Contracts.Bridge.Calls.Once.{count, flag, run-count}
use evm_smart_contracts.Contracts.Bridge.Calls.Limits.{minted, run-minted}

-- The length tells the ids apart: 64 for the tokens, 52 for the limits.
abbrev pub hash_of : Bytes → ℕ
hash_of bs = length bs

-- The mailbox 77 calls at time 1000; every path comes from chain 6, and every token mints.
abbrev pub call : Context
call = record {
  sender = 77;
  value = 0;
  now = 1000;
  inbound_message_path = λ path. 6;
  mailbox_fee = λ sender body. some 0;
  mailbox_send = λ chain recipient caller body. none;
  burns = λ token amount. false;
  mints = λ token recipient amount. true;
}

abbrev window : Data
window = record { amount_in_flight = 0; last_updated = 1000; limit = 100; window = 60 }

-- The bridge 8 of chain 6, and a token that is allowed.
abbrev pub start : Storage
start = record {
  owner = 1;
  bridge_contract = update (λ chain. 0) 6 8;
  allowed_destination_token = update (λ id. 0) 64 21;
  allowed_source_token = λ id. 0;
  mailbox = 77;
  payload_spent = λ id. false;
  sender_config = λ sender. record { whitelisted = false; fee_discount = 0 };
  rate_limit = λ id. window;
}

-- Token 20, 40 of it for account 31.
abbrev payload : Payload
payload = record {
  id = 500;
  msg_path = 96;
  msg_nonce = 4;
  msg_sender = 8;
  msg_recipient = 70;
  msg_destination_caller = 0;
  msg_body = encode_msg 20 30 31 40;
}

abbrev calls : List (Context × Call)
calls =
    (record call { sender = 1 }, set_bridge 9 10)
    ∷ (call, handle payload)
    ∷ (call, handle payload)
    ∷ []

pub decoded :
    decode_msg_body (encode_msg 20 30 31 40)
    ≡ ok (record { token = 20; sender = 30; recipient = 31; amount = 40 })
decoded =
    decode_msg_body-encode_msg 20 30 31 40 (omega arith) (omega arith) (omega arith) (omega arith)
      (omega arith) (omega arith) (omega arith) (omega arith)

decode_msg_body-encode_msg_example :
    decode_msg_body (encode_msg 20 30 31 41)
    ≡ ok (record { token = 20; sender = 30; recipient = 31; amount = 41 })
decode_msg_body-encode_msg_example =
    decode_msg_body-encode_msg 20 30 31 41 (omega arith) (omega arith) (omega arith) (omega arith)
      (omega arith) (omega arith) (omega arith) (omega arith)

run-count_example :
    (flag (start.payload_spent 500) + count 500 (run hash_of calls start).2
      ≡ flag ((run hash_of calls start).0.payload_spent 500))
    × (count 500 (run hash_of calls start).2 ≤ 1)
run-count_example = run-count hash_of 500 calls start

run-minted_example :
    (minted hash_of 52 (run hash_of calls start).1 * 60
      ≤ 100 * (60 + (((run hash_of calls start).0.rate_limit 52).last_updated - 1000)))
    × (((run hash_of calls start).0.rate_limit 52).amount_in_flight
        ≤ ((run hash_of calls start).0.rate_limit 52).limit)
run-minted_example = run-minted hash_of 52 calls start (tt, (tt, (tt, tt))) (omega arith)

abbrev pub updated : Data
updated = record window { amount_in_flight = 40 }

abbrev after : Storage
after = record start {
  payload_spent = update start.payload_spent 500 true;
  rate_limit = update start.rate_limit 52 updated;
}

pub limited : update_limit 1000 window 40 ≡ ok updated
unfolding update_limit available_amount_to_send
limited = refl

accepted :
    handle_payload hash_of call payload start ≡ ok (after, withdraw_from_bridge 31 6 20 40 ∷ [])
unfolding handle_payload withdraw calc_allowed_token_id calc_rate_limit_id encode_words to_be
accepted = rw (decoded, limited) refl

handle_payload_inv_example :
    (call.sender ≡ start.mailbox)
    × (start.payload_spent 500 ≡ false)
    × (start.bridge_contract 6 ≢ 0)
    × (payload.msg_sender ≡ start.bridge_contract 6)
    × ((msg : Msg) × (decode_msg_body (encode_msg 20 30 31 40) ≡ ok msg)
        × (start.allowed_destination_token
              (calc_allowed_token_id hash_of 6 (address_to_bytes32 msg.token))
            ≢ 0)
        × (let id : ℕ = calc_rate_limit_id hash_of 6 msg.token in
            (rl : Data) × (update_limit 1000 (start.rate_limit id) msg.amount ≡ ok rl)
            × (after ≡ record start {
              payload_spent = update start.payload_spent 500 true;
              rate_limit = update start.rate_limit id rl;
            }))
        × ((withdraw_from_bridge 31 6 20 40 ∷ [])
            ≡ withdraw_from_bridge msg.recipient 6 msg.token msg.amount ∷ []))
handle_payload_inv_example = handle_payload_inv hash_of call payload start accepted
