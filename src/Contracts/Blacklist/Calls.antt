-- ===== src/Contracts/Blacklist/Calls.antt =====
-- contracts/consortium/DepositNotarizationBlacklist.sol: transactions one after another. One that
-- reverts leaves the storage and emits nothing.
use evm_smart_contracts.Prelude.{
  ℕ, ◌≡◌, refl, arith, inl, inr, some, List, [], ◌∷◌, ◌++◌, Text, Result, ok, err, Result-cases,
  >>=-eq-ok,
}
use evm_smart_contracts.Contracts.Context.{Guards}
use evm_smart_contracts.Contracts.Blacklist.{
  Error, Event, add_outputs, remove_outputs, Storage, is_blacklisted, add_to_blacklist,
  remove_from_blacklist, only_role, add_blacklist_role, remove_blacklist_role,
}
use evm_smart_contracts.Contracts.Blacklist.Events.{
  read_events, Tells, nil-Tells, Tells-append, add_outputs-Tells, remove_outputs-Tells,
}

module _ (g : Guards) where
  -- A transaction with its caller and arguments; roles change in any way.
  pub data Call : Type 0 where
    access_changed : g.Access → Call
    add remove : ℕ → ℕ → List ℕ → Call

  abbrev settle : Storage g → Result Error (Storage g × List Event) → Storage g × List Event
  settle s (ok r) = r
  settle s (err e) = (s, [])

  module _ (keccak256 : Text → ℕ) where
    unfoldable pub execute : Call → Storage g → Result Error (Storage g × List Event)
    execute (access_changed access) s = ok (record s { access = access }, [])
    execute (add sender tx_id vouts) s = add_to_blacklist g keccak256 sender tx_id vouts s
    execute (remove sender tx_id vouts) s = remove_from_blacklist g keccak256 sender tx_id vouts s

    -- The storage after the calls, and their events in order.
    unfoldable pub run : List Call → Storage g → Storage g × List Event
    run [] s = (s, [])
    run (call ∷ calls) s =
        let first = settle s (execute call s) in
        let rest = run calls first.0 in (rest.0, first.1 ++ rest.1)

    same-Tells : (s : Storage g) → Tells s.listed [] s.listed
    unfolding read_events
    same-Tells s tx_id vout = refl

    execute-Tells :
        (call : Call) (s : Storage g) {t : Storage g} {es : List Event}
        → execute call s ≡ ok (t, es)
        → Tells s.listed es t.listed
    unfolding execute add_to_blacklist remove_from_blacklist
    execute-Tells (access_changed access) s h = nil-Tells s.listed (ground arith) (ground arith)
    execute-Tells (add sender tx_id vouts) s h =
        let (_, _, h1) =
          >>=-eq-ok (only_role g keccak256 (add_blacklist_role g keccak256) sender s) _ h in
        let ((b', fs), added, h2) = >>=-eq-ok (add_outputs sender tx_id vouts s.listed) _ h1 in
        add_outputs-Tells sender tx_id vouts s.listed (ground arith)
    execute-Tells (remove sender tx_id vouts) s h =
        let (_, _, h1) =
          >>=-eq-ok (only_role g keccak256 (remove_blacklist_role g keccak256) sender s) _ h in
        let ((b', fs), removed, h2) = >>=-eq-ok (remove_outputs sender tx_id vouts s.listed) _ h1 in
        remove_outputs-Tells sender tx_id vouts s.listed (ground arith)

    settle-Tells :
        (call : Call) (s : Storage g)
        → let r : Storage g × List Event = settle s (execute call s) in
          Tells s.listed r.1 r.0.listed
    settle-Tells call s = elim (Result-cases (execute call s)) [
      | inl (e, k) ↦ rw k (same-Tells s)
      | inr ((t, es), k) ↦ rw k (execute-Tells call s k)
    ]

    run-Tells :
        (calls : List Call) (s : Storage g)
        → let r : Storage g × List Event = run calls s in Tells s.listed r.1 r.0.listed
    unfolding run
    run-Tells [] s = same-Tells s
    run-Tells (call ∷ calls) s =
        let first = settle s (execute call s) in
        let rest = run calls first.0 in
        Tells-append s.listed first.1 first.0.listed rest.1 rest.0.listed (settle-Tells call s)
          (run-Tells calls first.0)

    -- Over any sequence of calls and changes of roles, the events of each output turn it from not
    -- listed to listed and back, never twice the same way, and `isBlacklisted` answers afterwards
    -- what they tell, read from its answer before.
    pub read_events-run :
        (calls : List Call) (s : Storage g) (tx_id vout : ℕ)
        → let r : Storage g × List Event = run calls s in
          read_events tx_id vout r.1 (is_blacklisted g tx_id vout s)
          ≡ some (is_blacklisted g tx_id vout r.0)
    unfolding is_blacklisted
    read_events-run calls s tx_id vout = run-Tells calls s tx_id vout
