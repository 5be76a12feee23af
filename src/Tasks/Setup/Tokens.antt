-- ===== src/Tasks/Setup/Tokens.antt =====
-- scripts/setup/token.ts and the setters of one value: burn-commssion.ts, initial-valset.ts,
-- toggle-withdrawals.ts, claimer.ts, minter.ts, operator.ts, pauser.ts, por.ts, mint-fee.ts and
-- treasury.ts.
use evm_smart_contracts.Prelude.{
  Bool, List, [], ◌∷◌, Text, codes, text_eq, to_lower_case, if◌then◌else◌, Result, ok, err, ◌>>=◌,
  ◌>>◌, guard,
}
use evm_smart_contracts.Tasks.Setup.Calls.{
  Effect, Error, emit, populated, sent, change_asset_router, add_minter, set_value,
  toggle_withdrawals, only_staked_lbtc, unexpected_token_type,
}

-- `getTokenContractName`.
unfoldable pub get_token_contract_name : Text → Result Error Text
get_token_contract_name token_type =
    let name = to_lower_case token_type in
    if text_eq name (codes "stakedlbtc")
    then ok (codes "StakedLBTC")
    else if text_eq name (codes "nativelbtc")
    then ok (codes "NativeLBTC")
    else err (unexpected_token_type token_type)

-- The setters with a flag `populate`.
pub data Setter : Type 0 where
  burn_commission initial_valset claimer minter operator pauser root_pubkey : Setter

-- The method that a setter calls.
unfoldable pub method : Setter → Text
method burn_commission = codes "changeBurnCommission"
method initial_valset = codes "setInitialValidatorSet"
method claimer = codes "addClaimer"
method minter = codes "addMinter"
method operator = codes "transferOperatorRole"
method pauser = codes "changePauser"
method root_pubkey = codes "addRootPubkey"

-- setup-mint-fee and setup-change-treasury have no such flag.
unfoldable pub setup_mint_fee : Text → Text → Result Error (List Effect)
setup_mint_fee target fee = ok (sent target (set_value (codes "setMintFee") fee) ∷ [])

unfoldable pub setup_change_treasury : Text → Text → Result Error (List Effect)
setup_change_treasury target treasury =
    ok (sent target (set_value (codes "changeTreasuryAddress") treasury) ∷ [])

module _ (populate : Bool) where
  -- token-set-asset-router.
  unfoldable pub token_set_asset_router : Text → Text → Text → Result Error (List Effect)
  token_set_asset_router target token_type asset_router = do
    name ← get_token_contract_name token_type
    ok (
        emit populate (populated target (change_asset_router asset_router))
          (sent target (change_asset_router asset_router))
        ∷ [])

  -- token-add-minter.
  unfoldable pub token_add_minter : Text → Text → Text → Result Error (List Effect)
  token_add_minter target token_type account = do
    name ← get_token_contract_name token_type
    guard (text_eq name (codes "StakedLBTC")) only_staked_lbtc
    ok (
        emit populate (populated target (add_minter account)) (sent target (add_minter account))
        ∷ [])

  unfoldable pub setup_value : Setter → Text → Text → Result Error (List Effect)
  unfolding method
  setup_value setter target value = ok (
      emit populate (populated target (set_value (method setter) value))
        (sent target (set_value (method setter) value))
      ∷ [])

  -- setup-toggle-withdrawals.
  unfoldable pub setup_toggle_withdrawals : Text → Result Error (List Effect)
  setup_toggle_withdrawals target =
      ok (emit populate (populated target toggle_withdrawals) (sent target toggle_withdrawals) ∷ [])
