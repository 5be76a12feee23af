-- ===== src/Tasks/Small/Transfer.antt =====
-- tasks/gmp/send.ts with hardhat.config.ts: where a message goes.
use evm_smart_contracts.Prelude.{
  ℕ, ◌≡◌, sym, ◌∙◌, arith, inl, inr, [], Bool-cases, Option, some, Option-cases, Text, ok,
  is_missing,
}
use evm_smart_contracts.Tasks.Config.{Network, find_network}
use evm_smart_contracts.Tasks.Config.Networks.{networks}
use evm_smart_contracts.Tasks.Config.Ids.{networks-ids}
use evm_smart_contracts.Tasks.Small.{TaskEnv, Effect, sent, printed, send_message, emit, send}

-- The chain that a transaction of the task names.
abbrev pub chain_of : Effect → Text
chain_of (sent target (send_message chain recipient caller body fee)) = chain
chain_of (printed target (send_message chain recipient caller body fee)) = chain
chain_of _ = []

module _ (env : TaskEnv) where
  send_inv :
      (mailbox to_network recipient : Text) (caller : Option Text) (body : Text)
      (from : Option Text) {e : Effect}
      → send env mailbox to_network recipient caller body from ≡ ok e
      → (network : Network) × (find_network to_network networks ≡ some network)
        × (chain_of e ≡ env.encode_uint256 network.chain_id)
  unfolding send emit
  send_inv mailbox to_network recipient caller body from h =
      elim (Option-cases (find_network to_network networks)) [
        | inl e ↦ let no_ : _ ≡ _ = rw e at h in ground arith
        | inr (network, e) ↦
            let k = rw e at h in
            (
              network,
              e,
              elim (Bool-cases (is_missing from)) [
                | inl m ↦ let j = rw m at k in ground arith
                | inr m ↦ let j = rw m at k in ground arith
              ],
            )
      ]

  -- Where the encoding of numbers tells them apart, two messages that the task sends, or prints,
  -- name the same chain only if they are for the same network of the configuration, whatever else
  -- they hold.
  pub send-network :
      ((m n : ℕ) → env.encode_uint256 m ≡ env.encode_uint256 n → m ≡ n)
      → (mailbox mailbox' a b recipient recipient' : Text) (caller caller' : Option Text)
        (body body' : Text) (from from' : Option Text) {e e' : Effect}
      → send env mailbox a recipient caller body from ≡ ok e
      → send env mailbox' b recipient' caller' body' from' ≡ ok e'
      → chain_of e ≡ chain_of e'
      → a ≡ b
  send-network inj mailbox mailbox' a b recipient recipient' caller caller' body body' from from' h
        k same =
      let (x, fx, ex) = send_inv mailbox a recipient caller body from h in
      let (y, fy, ey) = send_inv mailbox' b recipient' caller' body' from' k in
      networks-ids a b fx fy (inj x.chain_id y.chain_id (sym ex ∙ same ∙ ey))
