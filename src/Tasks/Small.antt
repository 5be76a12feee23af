-- ===== src/Tasks/Small.antt =====
-- tasks/fbtc/partner-vault.ts, tasks/gmp/send.ts, tasks/lz/rate-limits.ts, tasks/role/grant.ts,
-- tasks/ownership/transfer.ts and transfer-access.ts, scripts/blacklist.ts,
-- scripts/calc-ccip-rate-limits.ts and scripts/setup/consortium.ts: tasks of one or two calls.
use evm_smart_contracts.Prelude.{
  ℕ, ◌+◌, ◌-◌, ◌*◌, Bool, true, false, not, ◌&&◌, Option, none, some, List, [], ◌∷◌, Text, codes,
  text_eq, is_missing, map, ltb, leb, ◌==◌, if◌then◌else◌, Result, ok, err, ◌>>=◌, ◌>>◌, guard,
  or_revert,
}
use evm_smart_contracts.Tasks.Setup.Calls.{split_comma}
use evm_smart_contracts.Tasks.Upgrade.{or_default}
use evm_smart_contracts.Tasks.Config.{Network, find_network}
use evm_smart_contracts.Tasks.Config.Networks.{networks}
pub mod Transfer

pub record TaskEnv : Type 0 where
  pub is_address : Text → Bool
  pub signer : Text
  -- `keccak256(toUtf8Bytes(text))`
  pub keccak256 : Text → Text
  pub to_upper_case : Text → Text
  pub encode_uint256 : ℕ → Text
  pub encode_address : Text → Text
  -- `BigInt(text)`, where it does not throw
  pub big_int : Text → Option ℕ
  pub zero_address : Text
  pub zero_hash : Text
  -- `mailbox.getFee(sender, body)`
  pub get_fee : Text → Text → Text → ℕ
  -- `blacklist.isBlacklisted(hash, vout)`, where the call does not fail
  pub is_blacklisted : Text → Text → Text → Option Bool

pub record LimitConfig : Type 0 where
  pub eid : ℕ
  pub limit : Text
  pub window : Text

-- A call of a contract by its method.
pub data Call : Type 0 where
  method : Text → List Text → Call
  set_rate_limits : List LimitConfig → ℕ → Call
  -- the chain, the recipient, the caller, the body, and what is paid
  send_message : Text → Text → Text → Text → ℕ → Call

-- A transaction that is sent, or printed for an account to send.
pub data Effect : Type 0 where
  sent printed : Text → Call → Effect

pub data Error : Type 0 where
  not_an_address unknown_network not_an_integer : Text → Error
  one_direction : Error

unfoldable pub emit : Bool → Effect → Effect → Effect
emit populate with_flag without = if populate then with_flag else without

unfoldable pub stake_fbtc : Text → Text → Bool → Effect
stake_fbtc target amount populate =
    emit populate (printed target (method (codes "mint") (amount ∷ [])))
      (sent target (method (codes "mint") (amount ∷ [])))

unfoldable pub start_redeem_fbtc : Text → Text → Text → Text → Text → Bool → Effect
start_redeem_fbtc target recipient amount txid index populate =
    emit populate
      (printed target (method (codes "initializeBurn") (recipient ∷ amount ∷ txid ∷ index ∷ [])))
      (sent target (method (codes "initializeBurn") (recipient ∷ amount ∷ txid ∷ index ∷ [])))

unfoldable pub finalize_redeem_fbtc : Text → Text → Text → Text → Text → Bool → Effect
finalize_redeem_fbtc target recipient amount txid index populate =
    emit populate
      (printed target (method (codes "finalizeBurn") (recipient ∷ amount ∷ txid ∷ index ∷ [])))
      (sent target (method (codes "finalizeBurn") (recipient ∷ amount ∷ txid ∷ index ∷ [])))

-- `IConsortiumConsumer(target).changeConsortium(consortium)`.
unfoldable pub setup_change_consortium : Text → Text → Effect
setup_change_consortium target consortium =
    sent target (method (codes "changeConsortium") (consortium ∷ []))

unfoldable pub transfer_ownership : Text → Text → Effect
transfer_ownership target owner = sent target (method (codes "transferOwnership") (owner ∷ []))

-- The refill of a rate limiter, and whether it lets the tokens through; the time is that of
-- `Date.now()`. A time before the last update takes tokens away.
unfoldable pub calc_ccip_rate_limits : ℕ → ℕ → ℕ → Bool → ℕ → ℕ → ℕ → Bool
calc_ccip_rate_limits time tokens last_updated is_enabled capacity rate request =
    let refill = tokens + (time - last_updated) * rate in
    let refilled = if ltb capacity refill then capacity else refill in
    let taken = (last_updated - time) * rate in
    if not is_enabled
    then true
    else if time == last_updated
    then not (ltb tokens request)
    else if ltb capacity tokens
    then false
    else if ltb last_updated time
    then not (ltb refilled request)
    else not (ltb tokens (request + taken))

module _ (env : TaskEnv) where
  unfoldable pub grant_role : Text → Text → Text → Bool → Result Error Effect
  grant_role account target role populate = do
    guard (env.is_address account) (not_an_address account)
    let upper = env.to_upper_case role
    let role_hash =
        if text_eq upper (codes "DEFAULT_ADMIN_ROLE") then env.zero_hash else env.keccak256 upper
    ok (
        emit populate (printed target (method (codes "grantRole") (role_hash ∷ account ∷ [])))
          (sent target (method (codes "grantRole") (role_hash ∷ account ∷ []))))

  -- Access control is given to another account: the role is granted, then the signer's revoked.
  unfoldable pub transfer_access_control : Text → Text → List Effect
  transfer_access_control target owner =
      sent target (method (codes "grantRole") (env.zero_hash ∷ owner ∷ []))
      ∷ sent target (method (codes "revokeRole") (env.zero_hash ∷ env.signer ∷ []))
      ∷ []

  -- `send`: with an account `from` the transaction is printed.
  unfoldable pub send : Text → Text → Text → Option Text → Text → Option Text → Result Error Effect
  send mailbox to_network recipient destination_caller body from = do
    network ← or_revert (find_network to_network networks) (unknown_network to_network)
    let fee = env.get_fee mailbox (or_default from env.signer) body
    let call =
        send_message (env.encode_uint256 network.chain_id) (env.encode_address recipient)
          (env.encode_address (or_default destination_caller env.zero_address)) body fee
    ok (emit (not (is_missing from)) (printed mailbox call) (sent mailbox call))

  -- `BigInt` of each endpoint id.
  unfoldable pub limits_of : Text → Text → List Text → Result Error (List LimitConfig)
  limits_of limit window [] = ok []
  limits_of limit window (eid ∷ eids) = do
    e ← or_revert (env.big_int eid) (not_an_integer eid)
    rest ← limits_of limit window eids
    ok (record { eid = e; limit = limit; window = window } ∷ rest)

  -- Inbound is 0 and outbound is 1.
  unfoldable pub direction_of : Bool → Bool → Result Error ℕ
  direction_of true false = ok 0
  direction_of false true = ok 1
  direction_of _ _ = err one_direction

  unfoldable pub rate_limits_legacy :
      Text → Bool → Bool → Text → Text → Text → Bool → Result Error Effect
  rate_limits_legacy oapp inbound outbound eids limit window populate = do
    direction ← direction_of inbound outbound
    limits ← limits_of limit window (split_comma [] eids)
    ok (
        emit populate (printed oapp (set_rate_limits limits direction))
          (sent oapp (set_rate_limits limits direction)))

  -- blacklist: an output that is not blacklisted, or not known to be, is not removed.
  unfoldable pub blacklist : Text → Text → Text → Bool → List Effect
  blacklist target tx_hash vout false =
      sent target (method (codes "addToBlacklist") (tx_hash ∷ vout ∷ [])) ∷ []
  blacklist target tx_hash vout true = elim (env.is_blacklisted target tx_hash vout) [
    | none ↦ []
    | some false ↦ []
    | some true ↦ sent target (method (codes "removeFromBlacklist") (tx_hash ∷ vout ∷ [])) ∷ []
  ]
