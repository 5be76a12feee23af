-- ===== src/Tasks/Setup/Oft.antt =====
-- scripts/setup/layerzero.ts: the LayerZero endpoint and the OFT adapters.
use evm_smart_contracts.Prelude.{
  ℕ, Bool, ◌&&◌, not, Option, none, some, List, [], ◌∷◌, map, Text, if◌then◌else◌, Result, ok, err,
  ◌>>=◌,
}
use evm_smart_contracts.Tasks.Setup.Calls.{
  Env, Effect, Error, RateLimit, UlnConfig, ExecutorConfig, ConfigParam, emit, populated,
  split_comma, set_config, set_enforced_options, set_oft_rate_limits, set_delegate, set_peer,
  transfer_ownership, one_direction, sent,
}

-- `s ? s.split(',') : []`.
abbrev pub split_optional : Option Text → List Text
split_optional none = []
split_optional (some []) = []
split_optional (some (c ∷ s)) = split_comma [] (c ∷ s)

-- The parameters of setup-endpoint-config.
pub record EndpointArgs : Type 0 where
  pub lz_endpoint : Text
  pub remote_eid : Text
  pub oapp_address : Text
  pub uln_lib_address : Text
  pub uln_confirmations : Text
  pub uln_required_dvn_count : Text
  pub uln_optional_dvn_count : Text
  pub uln_optional_dvn_threshold : Text
  pub uln_required_dvns : Text
  pub uln_optional_dvns : Option Text
  pub uln_receive : Bool
  pub executor_max_message_size : Text
  pub executor_address : Text

-- 0 is inbound and 1 is outbound; exactly one flag is to be given.
unfoldable pub resolve_direction : Bool → Bool → Result Error ℕ
resolve_direction inbound outbound =
    if inbound && not outbound
    then ok 0
    else if not inbound && outbound
    then ok 1
    else err one_direction

module _ (env : Env) where
  -- The two parameters of `setConfig`; the executor's is left out on the receiving side.
  unfoldable pub config_params : EndpointArgs → List ConfigParam
  config_params a =
      let uln : UlnConfig = record {
        confirmations = a.uln_confirmations;
        required_dvn_count = a.uln_required_dvn_count;
        optional_dvn_count = a.uln_optional_dvn_count;
        optional_dvn_threshold = a.uln_optional_dvn_threshold;
        required_dvns = split_comma [] a.uln_required_dvns;
        optional_dvns = split_optional a.uln_optional_dvns;
      } in
      let executor : ExecutorConfig = record {
        max_message_size = a.executor_max_message_size;
        executor_address = a.executor_address;
      } in
      let uln_param : ConfigParam = record {
        eid = a.remote_eid;
        config_type = 2;
        config = env.encode_uln_config uln;
      } in
      let executor_param : ConfigParam = record {
        eid = a.remote_eid;
        config_type = 1;
        config = env.encode_executor_config executor;
      } in
      if a.uln_receive then uln_param ∷ [] else uln_param ∷ executor_param ∷ []

  -- The limits of setup-oft-rate-limits, one for each endpoint id.
  unfoldable pub oft_limits : Text → Text → List Text → List RateLimit
  oft_limits limit window eids =
      map (λ eid. record { chain_id = env.encode_uint32 eid; limit = limit; window = window }) eids

  -- setup-oft-set-delegate and setup-oft-transfer-ownership have no flag `populate`.
  unfoldable pub setup_oft_set_delegate : Text → Text → Result Error (List Effect)
  setup_oft_set_delegate target delegate = ok (sent target (set_delegate delegate) ∷ [])

  unfoldable pub setup_oft_transfer_ownership : Text → Text → Result Error (List Effect)
  setup_oft_transfer_ownership target owner = ok (sent target (transfer_ownership owner) ∷ [])

  module _ (populate : Bool) where
    unfoldable pub setup_endpoint_config : EndpointArgs → Result Error (List Effect)
    setup_endpoint_config a = ok (
        emit populate
          (populated a.lz_endpoint (set_config a.oapp_address a.uln_lib_address (config_params a)))
          (sent a.lz_endpoint (set_config a.oapp_address a.uln_lib_address (config_params a)))
        ∷ [])

    -- The parameter `gas` is not used: the option holds 200000.
    unfoldable pub setup_oft_enforced_options :
        Text → Text → Text → Text → Result Error (List Effect)
    setup_oft_enforced_options eid msg_type gas oapp_address = ok (
        emit populate
          (populated oapp_address
            (set_enforced_options eid msg_type (env.lz_receive_option 200000 0)))
          (sent oapp_address (set_enforced_options eid msg_type (env.lz_receive_option 200000 0)))
        ∷ [])

    unfoldable pub setup_oft_rate_limits :
        Text → Text → Text → Text → Bool → Bool → Result Error (List Effect)
    setup_oft_rate_limits oapp_address eids limit window inbound outbound = do
      direction ← resolve_direction inbound outbound
      ok (
          emit populate
            (populated oapp_address
              (set_oft_rate_limits (oft_limits limit window (split_comma [] eids)) direction))
            (sent oapp_address
              (set_oft_rate_limits (oft_limits limit window (split_comma [] eids)) direction))
          ∷ [])

    unfoldable pub setup_oft_set_peer : Text → Text → Text → Result Error (List Effect)
    setup_oft_set_peer target eid peer = ok (
        emit populate (populated target (set_peer eid (env.encode_address peer)))
          (sent target (set_peer eid (env.encode_address peer)))
        ∷ [])
