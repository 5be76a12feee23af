-- ===== src/Tasks/Setup/Chains.antt =====
-- scripts/setup/bridge.ts, bridge-v2.ts, asset-router.ts and mailbox.ts.
use evm_smart_contracts.Prelude.{
  ℕ, Bool, List, [], ◌∷◌, ◌++◌, Text, codes, text_eq, to_lower_case, if◌then◌else◌, Result, ok, err,
  ◌>>=◌, ◌>>◌, guard,
}
use evm_smart_contracts.Tasks.Setup.Calls.{
  Env, Effect, Error, RateLimit, emit, populated, sent, chain_word, address_word, add_destination,
  remove_destination, set_rate_limits, add_destination_token, set_destination_bridge,
  set_token_rate_limits, set_route, change_token_config_ext, enable_message_path, set_sender_config,
  not_an_address, invalid_overrides, unexpected_direction,
}

-- `resolvePathDirection`.
unfoldable pub resolve_path_direction : Text → Result Error ℕ
resolve_path_direction dir =
    let name = to_lower_case dir in
    if text_eq name (codes "outbound")
    then ok 1
    else if text_eq name (codes "inbound")
    then ok 2
    else if text_eq name (codes "both")
    then ok 3
    else err (unexpected_direction dir)

module _ (env : Env) (populate : Bool) where
  -- setup-add-destination: an existing destination is removed first.
  unfoldable pub setup_add_destination :
      Text → Text → Text → Text → Text → Text → Bool → Result Error (List Effect)
  setup_add_destination target chain_id contract rel_commission abs_commission adapter require =
      let to_chain_id = chain_word env chain_id in
      let to_contract = address_word env contract in
      let existing = env.bridge_contract_of target to_chain_id in
      ok (
        (if text_eq existing env.zero_word
          then []
          else emit populate (populated target (remove_destination to_chain_id))
              (sent target (remove_destination to_chain_id))
            ∷ [])
        ++ emit populate
            (populated target (
              add_destination to_chain_id to_contract rel_commission abs_commission adapter
                require))
            (sent target (
              add_destination to_chain_id to_contract rel_commission abs_commission adapter
                require))
          ∷ [])

  -- setup-bridge-rate-limits: the same limit for deposits and withdrawals.
  unfoldable pub setup_bridge_rate_limits : Text → Text → Text → Text → Result Error (List Effect)
  setup_bridge_rate_limits bridge chain_id window limit =
      let config : RateLimit = record {
        chain_id = chain_word env chain_id;
        limit = limit;
        window = window;
      } in
      ok (
        emit populate (populated bridge (set_rate_limits (config ∷ []) (config ∷ [])))
          (sent bridge (set_rate_limits (config ∷ []) (config ∷ [])))
        ∷ [])

  abbrev pub as_address_word : Text → Text
  as_address_word a = if env.is_address a then env.encode_address a else a

  -- The call of `removeDestinationToken` with three arguments, of which the contract takes two: in
  -- either branch ethers takes the third for its overrides, and throws as it is not an object.
  abbrev pub remove_destination_token : Text → Text → Text → Result Error (List Effect)
  remove_destination_token to_chain_id from_token to_token = err (invalid_overrides to_token)

  -- setup-destination-token: an existing token is to be removed first.
  unfoldable pub setup_destination_token : Text → Text → Text → Text → Result Error (List Effect)
  setup_destination_token target chain_id from_token destination_token = do
    guard (env.is_address from_token) (not_an_address from_token)
    let to_token = as_address_word destination_token
    let to_chain_id = chain_word env chain_id
    let existing = env.allowed_destination_token target to_chain_id from_token
    removal ←
        (if text_eq existing env.zero_word
          then ok []
          else remove_destination_token to_chain_id from_token to_token)
    ok (
        removal
        ++ emit populate (populated target (add_destination_token to_chain_id from_token to_token))
            (sent target (add_destination_token to_chain_id from_token to_token))
          ∷ [])

  -- setup-destination-bridge; that one was set before is only logged.
  unfoldable pub setup_destination_bridge : Text → Text → Text → Result Error (List Effect)
  setup_destination_bridge target chain_id dest_bridge = ok (
      emit populate
        (populated target
          (set_destination_bridge (chain_word env chain_id) (as_address_word dest_bridge)))
        (sent target
          (set_destination_bridge (chain_word env chain_id) (as_address_word dest_bridge)))
      ∷ [])

  -- setup-token-rate-limits.
  unfoldable pub setup_token_rate_limits :
      Text → Text → Text → Text → Text → Result Error (List Effect)
  setup_token_rate_limits bridge token chain_id window limit = do
    guard (env.is_address token) (not_an_address token)
    let config : RateLimit = record {
      chain_id = chain_word env chain_id;
      limit = limit;
      window = window;
    }
    ok (
        emit populate (populated bridge (set_token_rate_limits token config))
          (sent bridge (set_token_rate_limits token config))
        ∷ [])

  -- asset-router-set-route.
  unfoldable pub asset_router_set_route :
      Text → Text → Text → Text → Text → Text → Result Error (List Effect)
  asset_router_set_route target from_token from_chain to_token to_chain route_type = ok (
      emit populate
        (populated target (
          set_route (address_word env from_token) (chain_word env from_chain)
            (address_word env to_token) (chain_word env to_chain) route_type))
        (sent target (
          set_route (address_word env from_token) (chain_word env from_chain)
            (address_word env to_token) (chain_word env to_chain) route_type))
      ∷ [])

  -- asset-router-set-token-config-ext.
  unfoldable pub asset_router_set_token_config_ext :
      Text → Text → Text → Text → Text → Text → Text → Result Error (List Effect)
  asset_router_set_token_config_ext target token oracle redeem_fee min_redeem max_mint to_native =
      ok (
        emit populate
          (populated target
            (change_token_config_ext token redeem_fee min_redeem oracle max_mint to_native))
          (sent target
            (change_token_config_ext token redeem_fee min_redeem oracle max_mint to_native))
        ∷ [])

  -- mailbox-enable-path.
  unfoldable pub mailbox_enable_path : Text → Text → Text → Text → Result Error (List Effect)
  mailbox_enable_path target remote_chain_id remote_mailbox direction = do
    dir ← resolve_path_direction direction
    ok (
        emit populate
          (populated target (
            enable_message_path (chain_word env remote_chain_id) (address_word env remote_mailbox)
              dir))
          (sent target (
            enable_message_path (chain_word env remote_chain_id) (address_word env remote_mailbox)
              dir))
        ∷ [])

  -- mailbox-set-config.
  unfoldable pub mailbox_set_config : Text → Text → Text → Bool → Result Error (List Effect)
  mailbox_set_config target sender max_payload_size fee_disabled = ok (
      emit populate (populated target (set_sender_config sender max_payload_size fee_disabled))
        (sent target (set_sender_config sender max_payload_size fee_disabled))
      ∷ [])
