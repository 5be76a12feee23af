-- ===== src/Tasks/Ownership.antt =====
-- tasks/ownership/check.ts and admin-bucket.ts: who owns and administrates the deployed contracts.
-- The file of addresses is read and parsed already. What the rules read from the chain, and
-- `ethers.isAddress`, are fields of a record; an RPC call that fails ends the task and is not
-- modelled, but for the event query that the task itself catches.
use evm_smart_contracts.Prelude.{
  ℕ, ◌≡◌, refl, Bool, true, false, ◌||◌, ◌&&◌, not, Option, none, some, List, [], ◌∷◌, ◌++◌, Text,
  codes, text_eq, to_lower_case, map, ◌==◌, if◌then◌else◌, list_includes,
}
pub mod Admins

-- `AdminBucket`; the constructor puts the deployers in lower case.
pub record AdminBucket : Type 0 where
  pub multisig : Text
  pub timelock : Text
  pub deployers : List Text

unfoldable pub new_admin_bucket : Text → Text → List Text → AdminBucket
new_admin_bucket owner timelock deployers = record {
  multisig = owner;
  timelock = timelock;
  deployers = map to_lower_case deployers;
}

unfoldable pub is_timelock : AdminBucket → Text → Bool
is_timelock admins addr = text_eq (to_lower_case admins.timelock) (to_lower_case addr)

unfoldable pub is_multisig : AdminBucket → Text → Bool
is_multisig admins addr = text_eq (to_lower_case admins.multisig) (to_lower_case addr)

unfoldable pub is_deployer : AdminBucket → Text → Bool
is_deployer admins addr = list_includes admins.deployers (to_lower_case addr)

-- The answer to a query of the granted roles: the accounts, or an error, with the block range that
-- its text names, if it names one.
pub data QueryAnswer : Type 0 where
  accounts : List Text → QueryAnswer
  failed : Option ℕ → QueryAnswer

pub record Chain : Type 0 where
  pub is_address : Text → Bool
  pub code : Text → Text
  pub has_function : Text → Text → Bool
  pub has_event : Text → Text → Bool
  pub owner : Text → Text
  pub pending_owner : Text → Text
  -- `upgrades.erc1967.getAdminAddress`
  pub proxy_admin : Text → Text
  pub has_admin_role : Text → Text → Bool
  pub query_granted : Text → QueryAnswer
  -- the accounts of the events from block `latest - range` to `latest`
  pub query_granted_last : Text → ℕ → ℕ → List Text
  pub block_number : ℕ

-- Who an address is, in the order in which each rule asks.
pub data Holder : Type 0 where
  timelock multisig deployer unknown : Holder

unfoldable pub classify : AdminBucket → Text → Holder
classify admins addr =
    if is_timelock admins addr
    then timelock
    else if is_multisig admins addr
    then multisig
    else if is_deployer admins addr
    then deployer
    else unknown

-- One line of output.
pub data Report : Type 0 where
  owner_is : Holder → Text → Report
  no_pending_owner : Report
  pending_owner_is : Holder → Text → Report
  proxy_owner_is : Holder → Text → Report
  no_events : Report
  admin_role : Holder → Text → Report
  scope_ignored : Text → Report
  no_code : Text → Text → Report
  checking : Text → Text → Report
  events_skipped : Report

abbrev pub zero_address : Text
zero_address = codes "0x0000000000000000000000000000000000000000"

-- The keys of an object that is filled from a list: each account once.
unfoldable pub keys : List Text → List Text → List Text
keys seen [] = []
keys seen (a ∷ ps) = elim (list_includes seen a) [
  | true ↦ keys seen ps
  | false ↦ a ∷ keys (a ∷ seen) ps
]

-- `contractName.split('_')[0]`.
unfoldable pub before_underscore : Text → Text
before_underscore [] = []
before_underscore (c ∷ t) = if c == b'_' then [] else c ∷ before_underscore t

abbrev pub ignored_scopes : List Text
ignored_scopes = codes "admin" ∷ []

abbrev pub ignored_contracts : List Text
ignored_contracts =
    codes "ThresholdKey"
    ∷ codes "BTCB"
    ∷ codes "Router"
    ∷ codes "RMN"
    ∷ codes "CBBTC"
    ∷ codes "FBTC"
    ∷ codes "LockedFBTC"
    ∷ codes "Bascule"
    ∷ codes "BasculeV2"
    ∷ []

module _ (c : Chain) (admins : AdminBucket) where
  unfoldable pub check_ownable : Text → Text → List Report
  check_ownable artifact addr =
      if c.has_function artifact (codes "owner")
      then owner_is (classify admins (c.owner addr)) (c.owner addr) ∷ []
      else []

  unfoldable pub check_ownable_2_step : Text → Text → List Report
  check_ownable_2_step artifact addr =
      let pending = c.pending_owner addr in
      if c.has_function artifact (codes "pendingOwner")
      then (if text_eq pending zero_address
          then no_pending_owner
          else pending_owner_is (classify admins pending) pending)
        ∷ []
      else []

  unfoldable pub check_proxy_admin_ownership : Text → List Report
  check_proxy_admin_ownership addr =
      let proxy_admin = c.proxy_admin addr in
      if text_eq proxy_admin zero_address
      then []
      else proxy_owner_is (classify admins (c.owner proxy_admin)) (c.owner proxy_admin) ∷ []

  -- The answer to the second query, or none where the error names no range.
  abbrev pub query_again : Text → Option ℕ → List Report × List Text
  query_again addr none = (events_skipped ∷ [], [])
  query_again addr (some range) = ([], c.query_granted_last addr c.block_number range)

  abbrev pub after_query : Text → QueryAnswer → List Report × List Text
  after_query addr (accounts ps) = ([], ps)
  after_query addr (failed range) = query_again addr range

  -- `queryEventsSafe`, with what it prints.
  unfoldable pub query_events_safe : Text → List Report × List Text
  query_events_safe addr = after_query addr (c.query_granted addr)

  unfoldable pub report_roles : Text → List Text → List Report
  report_roles addr [] = []
  report_roles addr (a ∷ ps) =
      (if c.has_admin_role addr a then admin_role (classify admins a) a ∷ [] else [])
      ++ report_roles addr ps

  abbrev pub report_granted : Text → List Text → List Report
  report_granted addr [] = no_events ∷ []
  report_granted addr (a ∷ ps) = report_roles addr (a ∷ ps)

  unfoldable pub check_access_control_admin : Text → Text → List Report
  check_access_control_admin artifact addr =
      let (lines, granted) = query_events_safe addr in
      if c.has_function artifact (codes "DEFAULT_ADMIN_ROLE")
        && c.has_event artifact (codes "RoleGranted")
      then lines ++ report_granted addr (keys [] granted)
      else []

  -- The rules of `RULESET` in their order.
  unfoldable pub run_rules : Text → Text → List Report
  run_rules artifact addr =
      check_ownable artifact addr
      ++ (check_ownable_2_step artifact addr
          ++ (check_proxy_admin_ownership addr ++ check_access_control_admin artifact addr))

  -- One contract of a scope.
  unfoldable pub check_contract : Text × Text → List Report
  check_contract (name, addr) =
      if list_includes ignored_contracts name
      then []
      else if not (c.is_address addr)
      then []
      else if text_eq (c.code addr) (codes "0x")
      then no_code name addr ∷ []
      else checking name addr ∷ run_rules (before_underscore name) addr

  unfoldable pub check_contracts : List (Text × Text) → List Report
  check_contracts [] = []
  check_contracts (e ∷ es) = check_contract e ++ check_contracts es

  -- A scope that is no object (`none`) is passed over with a warning.
  abbrev pub check_section : Text → Option (List (Text × Text)) → List Report
  check_section scope none = scope_ignored scope ∷ []
  check_section scope (some es) = check_contracts es

  -- `check`, on the scopes of the network.
  unfoldable pub check : List (Text × Option (List (Text × Text))) → List Report
  check [] = []
  check ((scope, contracts) ∷ scopes) =
      (if list_includes ignored_scopes scope then [] else check_section scope contracts)
      ++ check scopes
