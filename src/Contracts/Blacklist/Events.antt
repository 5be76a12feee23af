-- ===== src/Contracts/Blacklist/Events.antt =====
-- contracts/consortium/DepositNotarizationBlacklist.sol: what a reader of the events of the two loops
-- knows of an output.
use evm_smart_contracts.Prelude.{
  ℕ, ◌≡◌, refl, ap, ◌∙◌, fun_ext, arith, Bool, true, false, not, ◌&&◌, Option, none, some, List, [],
  ◌∷◌, ◌++◌, ok, >>=-eq-ok, revert_if, ◌==◌, if◌then◌else◌,
}
use evm_smart_contracts.Contracts.Blacklist.{
  Event, blacklisted, cleared, already_blacklisted, already_cleared, Listed, mark, add_outputs,
  remove_outputs,
}

-- What the events tell of one output, if it was listed or not before them: `none` where an output
-- is listed that was listed already, or cleared that was not.
unfoldable pub read_event : ℕ → ℕ → Event → Bool → Option Bool
read_event tx_id vout (blacklisted tx' vout' sender) flag =
    if (tx' == tx_id) && (vout' == vout) then (if flag then none else some true) else some flag
read_event tx_id vout (cleared tx' vout' sender) flag =
    if (tx' == tx_id) && (vout' == vout) then (if flag then some false else none) else some flag

abbrev pub or_stop : Option Bool → (Bool → Option Bool) → Option Bool
or_stop none next = none
or_stop (some flag) next = next flag

unfoldable pub read_events : ℕ → ℕ → List Event → Bool → Option Bool
read_events tx_id vout [] flag = some flag
read_events tx_id vout (event ∷ events) flag =
    or_stop (read_event tx_id vout event flag) (read_events tx_id vout events)

or_stop_assoc :
    (o : Option Bool) (f k : Bool → Option Bool)
    → or_stop o (λ flag. or_stop (f flag) k) ≡ or_stop (or_stop o f) k
or_stop_assoc none f k = refl
or_stop_assoc (some flag) f k = refl

read_events-append :
    (tx_id vout : ℕ) (es fs : List Event) (flag : Bool)
    → read_events tx_id vout (es ++ fs) flag
      ≡ or_stop (read_events tx_id vout es flag) (read_events tx_id vout fs)
unfolding read_events
read_events-append tx_id vout [] fs flag = refl
read_events-append tx_id vout (e ∷ es) fs flag =
    let more : (λ x. read_events tx_id vout (es ++ fs) x)
        ≡ (λ x. or_stop (read_events tx_id vout es x) (read_events tx_id vout fs)) =
      fun_ext λ x. read_events-append tx_id vout es fs x in
    let one = read_event tx_id vout e flag in
    ap (or_stop one) more
    ∙ or_stop_assoc one (read_events tx_id vout es) (read_events tx_id vout fs)

-- The events tell what became of every output.
abbrev pub Tells : Listed → List Event → Listed → Type 0
Tells b es b' = (tx_id vout : ℕ) → read_events tx_id vout es (b tx_id vout) ≡ some (b' tx_id vout)

pub Tells-append :
    (b : Listed) (es : List Event) (b' : Listed) (fs : List Event) (b'' : Listed)
    → Tells b es b'
    → Tells b' fs b''
    → Tells b (es ++ fs) b''
Tells-append b es b' fs b'' h k tx_id vout =
    rw (read_events-append tx_id vout es fs (b tx_id vout), h tx_id vout) (k tx_id vout)

mark-Tells :
    (sender tx' vout' : ℕ) (b : Listed)
    → b tx' vout' ≡ false
    → Tells b (blacklisted tx' vout' sender ∷ []) (mark tx' vout' true b)
unfolding read_events read_event
mark-Tells sender tx' vout' b h tx_id vout = ground arith

clear-Tells :
    (sender tx' vout' : ℕ) (b : Listed)
    → b tx' vout' ≡ true
    → Tells b (cleared tx' vout' sender ∷ []) (mark tx' vout' false b)
unfolding read_events read_event
clear-Tells sender tx' vout' b h tx_id vout = ground arith

-- The steps of a loop that returns.
pub add_outputs-cons_inv :
    (sender tx_id vout : ℕ) (vouts : List ℕ) (b : Listed) {b' : Listed} {es : List Event}
    → add_outputs sender tx_id (vout ∷ vouts) b ≡ ok (b', es)
    → (b tx_id vout ≡ false)
      × ((fs : List Event) × (add_outputs sender tx_id vouts (mark tx_id vout true b) ≡ ok (b', fs))
          × (es ≡ blacklisted tx_id vout sender ∷ fs))
unfolding add_outputs
add_outputs-cons_inv sender tx_id vout vouts b h =
    let (_, test, h1) = >>=-eq-ok (revert_if (b tx_id vout) (already_blacklisted tx_id vout)) _ h in
    let ((b'', fs), rest, h2) =
      >>=-eq-ok (add_outputs sender tx_id vouts (mark tx_id vout true b)) _ h1 in
    (ground arith, (fs, ground arith, ground arith))

pub remove_outputs-cons_inv :
    (sender tx_id vout : ℕ) (vouts : List ℕ) (b : Listed) {b' : Listed} {es : List Event}
    → remove_outputs sender tx_id (vout ∷ vouts) b ≡ ok (b', es)
    → (b tx_id vout ≡ true)
      × ((fs : List Event) × (remove_outputs sender tx_id vouts (mark tx_id vout false b)
            ≡ ok (b', fs))
          × (es ≡ cleared tx_id vout sender ∷ fs))
unfolding remove_outputs
remove_outputs-cons_inv sender tx_id vout vouts b h =
    let (_, test, h1) =
      >>=-eq-ok (revert_if (not (b tx_id vout)) (already_cleared tx_id vout)) _ h in
    let ((b'', fs), rest, h2) =
      >>=-eq-ok (remove_outputs sender tx_id vouts (mark tx_id vout false b)) _ h1 in
    (ground arith, (fs, ground arith, ground arith))

pub nil-Tells : (b : Listed) {b' : Listed} {es : List Event} → b ≡ b' → [] ≡ es → Tells b es b'
unfolding read_events
nil-Tells b e k tx_id vout = rw (← e, ← k) refl

pub add_outputs-Tells :
    (sender tx_id : ℕ) (vouts : List ℕ) (b : Listed) {b' : Listed} {es : List Event}
    → add_outputs sender tx_id vouts b ≡ ok (b', es)
    → Tells b es b'
unfolding add_outputs
add_outputs-Tells sender tx_id [] b h = nil-Tells b (ground arith) (ground arith)
add_outputs-Tells sender tx_id (vout ∷ vouts) b {b'} h =
    let (fresh, (fs, rest, e)) = add_outputs-cons_inv sender tx_id vout vouts b h in
    let b1 = mark tx_id vout true b in
    rw e (
      Tells-append b (blacklisted tx_id vout sender ∷ []) b1 fs b'
        (mark-Tells sender tx_id vout b fresh) (add_outputs-Tells sender tx_id vouts b1 rest))

pub remove_outputs-Tells :
    (sender tx_id : ℕ) (vouts : List ℕ) (b : Listed) {b' : Listed} {es : List Event}
    → remove_outputs sender tx_id vouts b ≡ ok (b', es)
    → Tells b es b'
unfolding remove_outputs
remove_outputs-Tells sender tx_id [] b h = nil-Tells b (ground arith) (ground arith)
remove_outputs-Tells sender tx_id (vout ∷ vouts) b {b'} h =
    let (held, (fs, rest, e)) = remove_outputs-cons_inv sender tx_id vout vouts b h in
    let b1 = mark tx_id vout false b in
    rw e (
      Tells-append b (cleared tx_id vout sender ∷ []) b1 fs b'
        (clear-Tells sender tx_id vout b held) (remove_outputs-Tells sender tx_id vouts b1 rest))
