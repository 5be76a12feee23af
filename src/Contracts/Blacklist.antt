-- ===== src/Contracts/Blacklist.antt =====
-- contracts/consortium/DepositNotarizationBlacklist.sol: the outputs of Bitcoin transactions that the
-- notaries ignore. `AccessControl` is the argument `g`, and a role is the hash of its name. A
-- transaction id, an index of an output and an account are numbers.
use evm_smart_contracts.Prelude.{
  ℕ, Bool, true, false, not, List, [], ◌∷◌, ◌++◌, Text, codes, Result, ok, err, ◌>>=◌, ◌>>◌, guard,
  revert_if, update,
}
use evm_smart_contracts.Contracts.Context.{Guards}
pub mod Events
pub mod Calls
pub mod Exact

pub data Error : Type 0 where
  already_blacklisted already_cleared : ℕ → ℕ → Error
  unauthorized_account : ℕ → ℕ → Error

pub data Event : Type 0 where
  -- the transaction, the output and the caller
  blacklisted cleared : ℕ → ℕ → ℕ → Event

abbrev pub default_admin_role : ℕ
default_admin_role = 0

-- `_blacklist`: by transaction and output.
abbrev pub Listed : Type 0
Listed = ℕ → ℕ → Bool

abbrev pub mark : ℕ → ℕ → Bool → Listed → Listed
mark tx_id vout flag b = update b tx_id (update (b tx_id) vout flag)

-- The loop of `addToBlacklist`.
unfoldable pub add_outputs : ℕ → ℕ → List ℕ → Listed → Result Error (Listed × List Event)
add_outputs sender tx_id [] b = ok (b, [])
add_outputs sender tx_id (vout ∷ vouts) b = do
  revert_if (b tx_id vout) (already_blacklisted tx_id vout)
  (b', events) ← add_outputs sender tx_id vouts (mark tx_id vout true b)
  ok (b', blacklisted tx_id vout sender ∷ events)

-- The loop of `removeFromBlacklist`.
unfoldable pub remove_outputs : ℕ → ℕ → List ℕ → Listed → Result Error (Listed × List Event)
remove_outputs sender tx_id [] b = ok (b, [])
remove_outputs sender tx_id (vout ∷ vouts) b = do
  revert_if (not (b tx_id vout)) (already_cleared tx_id vout)
  (b', events) ← remove_outputs sender tx_id vouts (mark tx_id vout false b)
  ok (b', cleared tx_id vout sender ∷ events)

module _ (g : Guards) where
  pub record Storage : Type 0 where
    pub access : g.Access
    pub listed : Listed

  -- The storage after `initialize`, which runs once, on a storage whose roles are `access`.
  unfoldable pub initialize : g.Access → ℕ → Storage
  initialize access admin = record {
    access = g.grant_role access default_admin_role admin;
    listed = λ tx_id vout. false;
  }

  unfoldable pub is_blacklisted : ℕ → ℕ → Storage → Bool
  is_blacklisted tx_id vout s = s.listed tx_id vout

  module _ (keccak256 : Text → ℕ) where
    abbrev pub add_blacklist_role : ℕ
    add_blacklist_role = keccak256 (codes "ADD_BLACKLIST_ROLE")

    abbrev pub remove_blacklist_role : ℕ
    remove_blacklist_role = keccak256 (codes "REMOVE_BLACKLIST_ROLE")

    abbrev pub only_role : ℕ → ℕ → Storage → Result Error (Unit {0})
    only_role role sender s =
        guard (g.has_role s.access role sender) (unauthorized_account sender role)

    unfoldable pub add_to_blacklist : ℕ → ℕ → List ℕ → Storage → Result Error (Storage × List Event)
    add_to_blacklist sender tx_id vouts s = do
      only_role add_blacklist_role sender s
      (listed', events) ← add_outputs sender tx_id vouts s.listed
      ok (record s { listed = listed' }, events)

    unfoldable pub remove_from_blacklist :
        ℕ → ℕ → List ℕ → Storage → Result Error (Storage × List Event)
    remove_from_blacklist sender tx_id vouts s = do
      only_role remove_blacklist_role sender s
      (listed', events) ← remove_outputs sender tx_id vouts s.listed
      ok (record s { listed = listed' }, events)
