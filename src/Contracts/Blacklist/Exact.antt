-- ===== src/Contracts/Blacklist/Exact.antt =====
-- contracts/consortium/DepositNotarizationBlacklist.sol: when `addToBlacklist` and
-- `removeFromBlacklist` return, and what they leave.
use evm_smart_contracts.Prelude.{
  ℕ, ◌≡◌, ◌↔◌, refl, ap, ◌∙◌, fun_ext, arith, Bool, true, false, not, ◌&&◌, ◌||◌, List, [], ◌∷◌,
  map, Text, ok, >>=-eq-ok, guard-true, ok_unique, ◌==◌, if◌then◌else◌, All,
}
use evm_smart_contracts.Contracts.Context.{Guards}
use evm_smart_contracts.Contracts.Blacklist.{
  Event, blacklisted, cleared, Listed, mark, add_outputs, remove_outputs, Storage, add_to_blacklist,
  remove_from_blacklist, only_role, add_blacklist_role, remove_blacklist_role, unauthorized_account,
}
use evm_smart_contracts.Contracts.Blacklist.Events.{add_outputs-cons_inv, remove_outputs-cons_inv}

abbrev pub member : ℕ → List ℕ → Bool
member v [] = false
member v (x ∷ xs) = (v == x) || member v xs

-- No index stands twice.
abbrev pub Distinct : List ℕ → Type 0
Distinct [] = Unit
Distinct (x ∷ xs) = (member x xs ≡ false) × Distinct xs

-- The outputs stand once each, and none is listed (or each is).
abbrev pub IsChange : Bool → ℕ → List ℕ → Listed → Type 0
IsChange old tx_id vouts b = All (λ v. b tx_id v ≡ old) vouts × Distinct vouts

-- The list with the outputs set to a flag.
unfoldable pub put : ℕ → List ℕ → Bool → Listed → Listed
put tx_id vouts flag b tx' vout' =
    if (tx' == tx_id) && member vout' vouts then flag else b tx' vout'

put-nil : (tx_id : ℕ) (flag : Bool) (b : Listed) → put tx_id [] flag b ≡ b
unfolding put
put-nil tx_id flag b = fun_ext λ x. fun_ext λ y. ground arith

put-mark :
    (tx_id vout : ℕ) (vouts : List ℕ) (flag : Bool) (b : Listed)
    → put tx_id vouts flag (mark tx_id vout flag b) ≡ put tx_id (vout ∷ vouts) flag b
unfolding put
put-mark tx_id vout vouts flag b = fun_ext λ x. fun_ext λ y. ground arith

-- What is to be changed after the first output was.
All-mark :
    (old : Bool) (tx_id vout : ℕ) (vouts : List ℕ) (b : Listed)
    → member vout vouts ≡ false
    → All (λ v. b tx_id v ≡ old) vouts
    → All (λ v. mark tx_id vout (not old) b tx_id v ≡ old) vouts
All-mark old tx_id vout [] b n h = tt
All-mark old tx_id vout (v ∷ vouts) b n h =
    (ground arith, All-mark old tx_id vout vouts b (ground arith) h.1)

mark-other :
    (old : Bool) (tx_id vout v : ℕ) (b : Listed)
    → mark tx_id vout (not old) b tx_id v ≡ old
    → ((vout == v) ≡ false) × (b tx_id v ≡ old)
mark-other true tx_id vout v b h = (ground arith, ground arith)
mark-other false tx_id vout v b h = (ground arith, ground arith)

All-unmark :
    (old : Bool) (tx_id vout : ℕ) (vouts : List ℕ) (b : Listed)
    → All (λ v. mark tx_id vout (not old) b tx_id v ≡ old) vouts
    → (member vout vouts ≡ false) × All (λ v. b tx_id v ≡ old) vouts
All-unmark old tx_id vout [] b h = (refl, tt)
All-unmark old tx_id vout (v ∷ vouts) b h =
    let (n, k) = All-unmark old tx_id vout vouts b h.1 in
    let (away, e) = mark-other old tx_id vout v b h.0 in (rw away n, (e, k))

add_outputs_total :
    (sender tx_id : ℕ) (vouts : List ℕ) (b : Listed)
    → IsChange false tx_id vouts b
    → add_outputs sender tx_id vouts b
      ≡ ok (put tx_id vouts true b, map (λ v. blacklisted tx_id v sender) vouts)
unfolding add_outputs
add_outputs_total sender tx_id [] b h = rw (put-nil tx_id true b) refl
add_outputs_total sender tx_id (vout ∷ vouts) b h =
    let fresh : b tx_id vout ≡ false = h.0.0 in
    let rest =
      add_outputs_total sender tx_id vouts (mark tx_id vout true b)
        (All-mark false tx_id vout vouts b h.1.0 h.0.1, h.1.1) in
    rw (fresh, rest, put-mark tx_id vout vouts true b) refl

remove_outputs_total :
    (sender tx_id : ℕ) (vouts : List ℕ) (b : Listed)
    → IsChange true tx_id vouts b
    → remove_outputs sender tx_id vouts b
      ≡ ok (put tx_id vouts false b, map (λ v. cleared tx_id v sender) vouts)
unfolding remove_outputs
remove_outputs_total sender tx_id [] b h = rw (put-nil tx_id false b) refl
remove_outputs_total sender tx_id (vout ∷ vouts) b h =
    let held : b tx_id vout ≡ true = h.0.0 in
    let rest =
      remove_outputs_total sender tx_id vouts (mark tx_id vout false b)
        (All-mark true tx_id vout vouts b h.1.0 h.0.1, h.1.1) in
    rw (held, rest, put-mark tx_id vout vouts false b) refl

add_outputs_inv :
    (sender tx_id : ℕ) (vouts : List ℕ) (b : Listed) {b' : Listed} {es : List Event}
    → add_outputs sender tx_id vouts b ≡ ok (b', es)
    → IsChange false tx_id vouts b
add_outputs_inv sender tx_id [] b h = (tt, tt)
add_outputs_inv sender tx_id (vout ∷ vouts) b h =
    let (fresh, (fs, rest, e)) = add_outputs-cons_inv sender tx_id vout vouts b h in
    let (later, distinct) = add_outputs_inv sender tx_id vouts (mark tx_id vout true b) rest in
    let (away, k) = All-unmark false tx_id vout vouts b later in ((fresh, k), (away, distinct))

remove_outputs_inv :
    (sender tx_id : ℕ) (vouts : List ℕ) (b : Listed) {b' : Listed} {es : List Event}
    → remove_outputs sender tx_id vouts b ≡ ok (b', es)
    → IsChange true tx_id vouts b
remove_outputs_inv sender tx_id [] b h = (tt, tt)
remove_outputs_inv sender tx_id (vout ∷ vouts) b h =
    let (held, (fs, rest, e)) = remove_outputs-cons_inv sender tx_id vout vouts b h in
    let (later, distinct) = remove_outputs_inv sender tx_id vouts (mark tx_id vout false b) rest in
    let (away, k) = All-unmark true tx_id vout vouts b later in ((held, k), (away, distinct))

module _ (g : Guards) where
  -- The storage and the events that the functions leave.
  abbrev pub added : ℕ → ℕ → List ℕ → Storage g → Storage g × List Event
  added sender tx_id vouts s = (
    record s { listed = put tx_id vouts true s.listed },
    map (λ v. blacklisted tx_id v sender) vouts,
  )

  abbrev pub removed : ℕ → ℕ → List ℕ → Storage g → Storage g × List Event
  removed sender tx_id vouts s = (
    record s { listed = put tx_id vouts false s.listed },
    map (λ v. cleared tx_id v sender) vouts,
  )

module _ (g : Guards) (keccak256 : Text → ℕ) where
  abbrev pub CanAdd : ℕ → ℕ → List ℕ → Storage g → Type 0
  CanAdd sender tx_id vouts s =
      (g.has_role s.access (add_blacklist_role g keccak256) sender ≡ true)
      × IsChange false tx_id vouts s.listed

  abbrev pub CanRemove : ℕ → ℕ → List ℕ → Storage g → Type 0
  CanRemove sender tx_id vouts s =
      (g.has_role s.access (remove_blacklist_role g keccak256) sender ≡ true)
      × IsChange true tx_id vouts s.listed

  pub add_to_blacklist_total :
      (sender tx_id : ℕ) (vouts : List ℕ) (s : Storage g)
      → CanAdd sender tx_id vouts s
      → add_to_blacklist g keccak256 sender tx_id vouts s ≡ ok (added g sender tx_id vouts s)
  unfolding add_to_blacklist
  add_to_blacklist_total sender tx_id vouts s h =
      rw (h.0, add_outputs_total sender tx_id vouts s.listed h.1) refl

  pub remove_from_blacklist_total :
      (sender tx_id : ℕ) (vouts : List ℕ) (s : Storage g)
      → CanRemove sender tx_id vouts s
      → remove_from_blacklist g keccak256 sender tx_id vouts s ≡ ok (removed g sender tx_id vouts s)
  unfolding remove_from_blacklist
  remove_from_blacklist_total sender tx_id vouts s h =
      rw (h.0, remove_outputs_total sender tx_id vouts s.listed h.1) refl

  add_to_blacklist_inv :
      (sender tx_id : ℕ) (vouts : List ℕ) (s : Storage g) {r : Storage g × List Event}
      → add_to_blacklist g keccak256 sender tx_id vouts s ≡ ok r
      → CanAdd sender tx_id vouts s
  unfolding add_to_blacklist
  add_to_blacklist_inv sender tx_id vouts s h =
      let role = add_blacklist_role g keccak256 in
      let (_, can, h1) = >>=-eq-ok (only_role g keccak256 role sender s) _ h in
      let (_, out, _) = >>=-eq-ok (add_outputs sender tx_id vouts s.listed) _ h1 in
      (
        guard-true _ (unauthorized_account sender role) can,
        add_outputs_inv sender tx_id vouts s.listed out,
      )

  remove_from_blacklist_inv :
      (sender tx_id : ℕ) (vouts : List ℕ) (s : Storage g) {r : Storage g × List Event}
      → remove_from_blacklist g keccak256 sender tx_id vouts s ≡ ok r
      → CanRemove sender tx_id vouts s
  unfolding remove_from_blacklist
  remove_from_blacklist_inv sender tx_id vouts s h =
      let role = remove_blacklist_role g keccak256 in
      let (_, can, h1) = >>=-eq-ok (only_role g keccak256 role sender s) _ h in
      let (_, out, _) = >>=-eq-ok (remove_outputs sender tx_id vouts s.listed) _ h1 in
      (
        guard-true _ (unauthorized_account sender role) can,
        remove_outputs_inv sender tx_id vouts s.listed out,
      )

  -- `addToBlacklist` returns exactly if the caller has the role, no output stands twice and none is
  -- listed, and `removeFromBlacklist` exactly if the caller has its role, no output stands twice and
  -- all are listed. They then set the list at these outputs and nowhere else, and emit an event for
  -- each output, in order.
  pub change_exact :
      (sender tx_id : ℕ) (vouts : List ℕ) (s : Storage g) (r : Storage g × List Event)
      → ((add_to_blacklist g keccak256 sender tx_id vouts s ≡ ok r)
          ↔ (CanAdd sender tx_id vouts s × (added g sender tx_id vouts s ≡ r)))
        × ((remove_from_blacklist g keccak256 sender tx_id vouts s ≡ ok r)
            ↔ (CanRemove sender tx_id vouts s × (removed g sender tx_id vouts s ≡ r)))
  change_exact sender tx_id vouts s r = (
    (
      λ h.
          let can = add_to_blacklist_inv sender tx_id vouts s h in
          (can, ok_unique _ (add_to_blacklist_total sender tx_id vouts s can) h),
      λ h. add_to_blacklist_total sender tx_id vouts s h.0 ∙ ap ok h.1,
    ),
    (
      λ h.
          let can = remove_from_blacklist_inv sender tx_id vouts s h in
          (can, ok_unique _ (remove_from_blacklist_total sender tx_id vouts s can) h),
      λ h. remove_from_blacklist_total sender tx_id vouts s h.0 ∙ ap ok h.1,
    ),
  )
