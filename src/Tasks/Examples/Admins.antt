-- ===== src/Tasks/Examples/Admins.antt =====
-- tasks/ownership, tasks/ratio, scripts/setup, the upgrade and the signature scripts on concrete inputs.
use evm_smart_contracts.Prelude.{
  ◌≡◌, ◌≢◌, ◌↔◌, refl, true, false, none, some, List, [], ◌∷◌, ◌++◌, Text, codes, All, text_eq,
  to_lower_case, list_includes, arith, Bytes, replicate, length, ◌==◌, Result,
}
use evm_smart_contracts.Tasks.Ownership.{
  AdminBucket, Chain, classify, is_timelock, is_multisig, is_deployer, keys, report_roles, deployer,
  accounts,
}
use evm_smart_contracts.Tasks.Ownership.Admins.{report_roles-keys, IsFine, IsTrusted}
use evm_smart_contracts.Tasks.Ratio.{
  number, null_value, IsBefore, IsAfter, IsIncomparable, LedgerRatio, judge, up_to_date,
  not_updated, wrong_ratio, wrong_timestamp, unexpected, judge_exact,
}
use evm_smart_contracts.Tasks.Signatures.{to_proof}
use evm_smart_contracts.Tasks.Signatures.RoundTrip.{to_asn1, without_sign, align, to_proof-to_asn1}
use evm_smart_contracts.Tasks.Setup.Calls.{Env}
use evm_smart_contracts.Tasks.Setup.Modes.{run, all_populated, destination_token, run-populate}
use evm_smart_contracts.Tasks.Upgrade.{
  UpgradeEnv, UpgradeError, UpgradeEffect, upgrade_proxy, delay_of, predecessor_of,
  upgrade_proxy_delay,
}

abbrev admins : AdminBucket
admins = record { multisig = codes "0xA1"; timelock = codes "0xB2"; deployers = codes "0xc3" ∷ [] }

classify_deployer : classify admins (codes "0xC3") ≡ deployer
unfolding classify is_timelock text_eq to_lower_case is_multisig is_deployer list_includes
classify_deployer = refl

abbrev chain : Chain
chain = record {
  is_address = λ a. true;
  code = λ a. codes "0x60";
  has_function = λ artifact name. true;
  has_event = λ artifact name. true;
  owner = λ a. codes "0xa1";
  pending_owner = λ a. [];
  proxy_admin = λ a. codes "0xd4";
  has_admin_role = λ contract a. text_eq a (codes "0xb2");
  query_granted = λ contract. accounts [];
  query_granted_last = λ contract latest range. [];
  block_number = 5;
}

abbrev granted : List Text
granted = codes "0xb2" ∷ codes "0xc3" ∷ codes "0xb2" ∷ []

report_roles-keys_example :
    All IsFine (report_roles chain admins (codes "0xe5") (keys [] granted))
    ↔ All (λ a. chain.has_admin_role (codes "0xe5") a ≡ true → IsTrusted admins a) granted
report_roles-keys_example = report_roles-keys chain admins (codes "0xe5") granted

abbrev expected : LedgerRatio
expected = record { value = number 999; timestamp = null_value }

judge_exact_example :
    ((judge 998 0 expected ≡ up_to_date) ↔ ((null_value ≡ number 0) × (number 999 ≡ number 998)))
    × ((judge 998 0 expected ≡ not_updated) ↔ IsBefore 0 null_value)
    × ((judge 998 0 expected ≡ wrong_ratio) ↔ ((null_value ≡ number 0) × (number 999 ≢ number 998)))
    × ((judge 998 0 expected ≡ wrong_timestamp) ↔ IsAfter 0 null_value)
    × ((judge 998 0 expected ≡ unexpected) ↔ IsIncomparable 0 null_value)
judge_exact_example = judge_exact 998 0 expected

abbrev r_bytes : Bytes
r_bytes = 0 ∷ replicate 32 200

abbrev s_bytes : Bytes
s_bytes = replicate 31 7

to_proof-to_asn1_example :
    to_proof (to_asn1 68 r_bytes s_bytes) ≡ some (align (without_sign r_bytes) ++ align s_bytes)
to_proof-to_asn1_example = to_proof-to_asn1 68 r_bytes s_bytes (λ e. cc) (omega arith) (omega arith)

abbrev env : Env
env = record {
  is_address = λ a. true;
  encode_address = λ a. a;
  encode_uint256 = λ a. a;
  encode_uint32 = λ a. a;
  encode_uln_config = λ c. [];
  encode_executor_config = λ c. [];
  lz_receive_option = λ gas value. [];
  zero_word = codes "0x0";
  bridge_contract_of = λ bridge chain. codes "0x0";
  allowed_destination_token = λ bridge chain token. codes "0xf6";
  destination_bridge = λ bridge chain. codes "0x0";
  token_pool_of = λ adapter. codes "0xd1";
}

run-populate_example :
    run env true (destination_token (codes "0xb1") (codes "0x01") (codes "0xc1") (codes "0xc2"))
    ≡ all_populated (
        run env false
          (destination_token (codes "0xb1") (codes "0x01") (codes "0xc1") (codes "0xc2")))
run-populate_example =
    run-populate env (destination_token (codes "0xb1") (codes "0x01") (codes "0xc1") (codes "0xc2"))

-- Of the texts here only one as long as 32 bytes in hex is a `bytes32`.
abbrev upgrade_env : UpgradeEnv
upgrade_env = record {
  proxy_admin = λ proxy. codes "0xad";
  deploy_implementation = λ name. codes "0x1a";
  upgrade_transaction =
      λ admin proxy impl calldata. record { to = admin; value = none; data_field = calldata };
  min_delay = λ timelock. codes "3600";
  zero_hash = codes "0x" ++ replicate 64 b'0';
  is_bytes32 = λ t. length t == 66;
}

abbrev upgrade : Text → Result UpgradeError UpgradeEffect
upgrade delay =
    upgrade_proxy upgrade_env (codes "0xe5") (codes "Bridge") (codes "0x") false
      (some (codes "0xb2")) (some delay)

-- A delay in seconds: nothing is scheduled.
upgrade_proxy_delay_example :
    (delay_of upgrade_env (upgrade (codes "86400")) ≡ none)
    × (predecessor_of upgrade_env (upgrade (codes "86400")) ≡ none)
upgrade_proxy_delay_example =
    upgrade_proxy_delay upgrade_env (codes "0xe5") (codes "Bridge") (codes "0x") (codes "0xb2")
      false (some (codes "86400")) refl refl
