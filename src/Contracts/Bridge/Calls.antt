-- ===== src/Contracts/Bridge/Calls.antt =====
-- contracts/bridge/BridgeV2.sol: the transactions that reach the bridge, one after another. One that
-- reverts leaves the storage, emits nothing and accepts no payload.
use evm_smart_contracts.Prelude.{
  ℕ, Bool, List, [], ◌∷◌, ◌++◌, Bytes, Result, ok, err, ◌>>=◌, ◌≡◌, refl, arith, >>=-eq-ok,
}
use evm_smart_contracts.Contracts.Gmp.{Payload}
use evm_smart_contracts.Contracts.RateLimits.{Config}
use evm_smart_contracts.Contracts.Bridge.{
  Error, Event, Context, Storage, set_destination_bridge, set_sender_config, add_destination_token,
  remove_destination_token, set_token_rate_limits,
}
use evm_smart_contracts.Contracts.Bridge.Deposit.{deposit_on_behalf, deposit}
use evm_smart_contracts.Contracts.Bridge.Withdraw.{handle_payload}
pub mod Once
pub mod Limits

-- A transaction with its arguments. What `Ownable2Step` changes of itself is any change of `owner`.
pub data Call : Type 0 where
  owner_changed : ℕ → Call
  set_bridge : ℕ → ℕ → Call
  sender_conf : ℕ → ℕ → Bool → Call
  add_token : ℕ → ℕ → ℕ → Call
  remove_token : ℕ → ℕ → Call
  token_limits : ℕ → Config → Call
  deposit_behalf : ℕ → ℕ → ℕ → ℕ → ℕ → ℕ → Call
  deposit_own : ℕ → ℕ → ℕ → ℕ → ℕ → Call
  handle : Payload → Call

-- A deposit writes no storage.
abbrev pub unchanged :
    Storage → Result Error (List Event × (ℕ × ℕ)) → Result Error (Storage × List Event)
unchanged s (ok (es, r)) = ok (s, es)
unchanged s (err e) = err e

-- The payload that a call accepts if it returns.
abbrev pub payload_of : Call → List ℕ
payload_of (handle payload) = payload.id ∷ []
payload_of _ = []

abbrev pub settle :
    Storage → Call → Result Error (Storage × List Event) → Storage × List Event × List ℕ
settle s call (ok (t, es)) = (t, es, payload_of call)
settle s call (err e) = (s, [], [])

module _ (keccak256 : Bytes → ℕ) where
  unfoldable pub execute : Context → Call → Storage → Result Error (Storage × List Event)
  execute c (owner_changed owner) s = ok (record s { owner = owner }, [])
  execute c (set_bridge chain bridge) s = set_destination_bridge c chain bridge s
  execute c (sender_conf sender discount whitelisted) s =
      set_sender_config c sender discount whitelisted s
  execute c (add_token chain source destination) s =
      add_destination_token keccak256 c chain source destination s
  execute c (remove_token chain source) s = remove_destination_token keccak256 c chain source s
  execute c (token_limits token config) s = set_token_rate_limits keccak256 c token config s
  execute c (deposit_behalf chain token sender recipient amount caller) s =
      unchanged s (deposit_on_behalf keccak256 c chain token sender recipient amount caller s)
  execute c (deposit_own chain token recipient amount caller) s =
      unchanged s (deposit keccak256 c chain token recipient amount caller s)
  execute c (handle payload) s = handle_payload keccak256 c payload s

  -- The storage, the events and the ids of the payloads that were accepted, in order.
  unfoldable pub run : List (Context × Call) → Storage → Storage × List Event × List ℕ
  run [] s = (s, [], [])
  run ((c, call) ∷ calls) s =
      let first = settle s call (execute c call s) in
      let rest = run calls first.0 in (rest.0, first.1 ++ rest.1, first.2 ++ rest.2)
