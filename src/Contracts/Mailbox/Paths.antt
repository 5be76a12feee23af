-- ===== src/Contracts/Mailbox/Paths.antt =====
-- contracts/gmp/Mailbox.sol: the paths that messages may take.
use evm_smart_contracts.Prelude.{
  ℕ, Bool, true, false, List, [], ◌∷◌, Bytes, Result, ok, err, ◌>>=◌, ◌>>◌, revert_if, ◌==◌, update,
  if◌then◌else◌,
}
use evm_smart_contracts.Contracts.Context.{Guards}
use evm_smart_contracts.Contracts.Gmp.{path_id, address_to_bytes32, lombard_chain_id}
use evm_smart_contracts.Contracts.Mailbox.{
  PathDirectionType, outbound, inbound, both, Error, zero_chain_id, zero_mailbox,
  message_path_enabled, Event, path_enabled, path_disabled, Context, default_admin_role, Storage,
  only_role,
}

abbrev pub goes_out : PathDirectionType → Bool
goes_out outbound = true
goes_out both = true
goes_out _ = false

abbrev pub comes_in : PathDirectionType → Bool
comes_in inbound = true
comes_in both = true
comes_in _ = false

module _ (g : Guards) (keccak256 : Bytes → ℕ) where
  unfoldable pub calc_inbound_message_path : Context → ℕ → ℕ → ℕ
  calc_inbound_message_path c chain mailbox =
      path_id keccak256 mailbox chain (lombard_chain_id c.chain_id)

  unfoldable pub calc_outbound_message_path : Context → ℕ → ℕ
  calc_outbound_message_path c chain =
      path_id keccak256 (address_to_bytes32 c.this) (lombard_chain_id c.chain_id) chain

  -- The outbound half of `enableMessagePath`: the storage, and the id that the event shows.
  unfoldable pub enable_outbound :
      Context → ℕ → PathDirectionType → Storage g → Result Error (Storage g × ℕ)
  enable_outbound c chain direction s =
      let id = calc_outbound_message_path c chain in
      let enabled =
        if s.outbound_message_path id == 0
        then ok (record s { outbound_message_path = update s.outbound_message_path id chain }, id)
        else err (message_path_enabled id) in
      if goes_out direction then enabled else ok (s, 0)

  unfoldable pub enable_inbound :
      Context → ℕ → ℕ → PathDirectionType → Storage g → Result Error (Storage g × ℕ)
  enable_inbound c chain mailbox direction s =
      let id = calc_inbound_message_path c chain mailbox in
      let enabled =
        if s.inbound_message_path id == 0
        then ok (record s { inbound_message_path = update s.inbound_message_path id chain }, id)
        else err (message_path_enabled id) in
      if comes_in direction then enabled else ok (s, 0)

  unfoldable pub enable_message_path :
      Context → ℕ → ℕ → PathDirectionType → Storage g → Result Error (Storage g × List Event)
  enable_message_path c chain mailbox direction s = do
    only_role g default_admin_role c.sender s
    revert_if (chain == 0) zero_chain_id
    revert_if (mailbox == 0) zero_mailbox
    (s1, outbound_id) ← enable_outbound c chain direction s
    (s2, inbound_id) ← enable_inbound c chain mailbox direction s1
    ok (s2, path_enabled chain inbound_id outbound_id mailbox ∷ [])

  unfoldable pub disable_message_path :
      Context → ℕ → ℕ → PathDirectionType → Storage g → Result Error (Storage g × List Event)
  disable_message_path c chain mailbox direction s = do
    only_role g default_admin_role c.sender s
    revert_if (chain == 0) zero_chain_id
    revert_if (mailbox == 0) zero_mailbox
    let outbound_id = if goes_out direction then calc_outbound_message_path c chain else 0
    let inbound_id = if comes_in direction then calc_inbound_message_path c chain mailbox else 0
    let out =
        if goes_out direction
        then update s.outbound_message_path outbound_id 0
        else s.outbound_message_path
    let in_ =
        if comes_in direction
        then update s.inbound_message_path inbound_id 0
        else s.inbound_message_path
    ok (
      record s { outbound_message_path = out; inbound_message_path = in_ },
      path_disabled chain inbound_id outbound_id mailbox ∷ [],
    )
