-- ===== src/Contracts/Mailbox/Calls/Lives.antt =====
-- contracts/gmp/Mailbox.sol: the stages of a message over any sequence of transactions.
use evm_smart_contracts.Prelude.{
  ℕ, ◌≡◌, inl, inr, refl, sym, ◌∙◌, ◌+◌, ◌≤◌, Bool, true, List, [], ◌∷◌, Bytes, some, Any, ok,
  Result-cases, arith,
}
use evm_smart_contracts.Contracts.Context.{Guards}
use evm_smart_contracts.Contracts.Gmp.Ids.{decode_and_validate_payload-id}
use evm_smart_contracts.Contracts.Mailbox.{
  PathDirectionType, Event, Context, Storage, set_default_max_payload_size, set_sender_config,
  set_fee, withdraw_fee, pause, unpause,
}
use evm_smart_contracts.Contracts.Mailbox.Paths.{
  enable_message_path, disable_message_path, enable_outbound, enable_inbound,
}
use evm_smart_contracts.Contracts.Mailbox.Send.{send, send_inv}
use evm_smart_contracts.Contracts.Mailbox.Deliver.{deliver_and_handle, deliver_and_handle_inv}
use evm_smart_contracts.Contracts.Mailbox.Calls.{
  Call, access_changed, enable_path, disable_path, default_size, byte_fee, sender_conf,
  send_message, deliver_message, take_fee, stop, start, execute, settle, run, state_of_inv,
}
use evm_smart_contracts.Contracts.Mailbox.Calls.Deliveries.{deliveries, flag, run-deliveries}
use evm_smart_contracts.Contracts.Mailbox.Calls.Stages.{
  Stage, Life, Life-trans, Life-map, stays, IsProof, IsHandling, stage, Moves, Moves-trans,
  Moves-map, deliver-Moves, handle-Moves, deliver_inv, handle_inv, delivered_now,
}

module _ (g : Guards) (keccak256 sha256 : Bytes → ℕ) where
  -- What a call does to the consortium, and to the stage of a message.
  abbrev Lives : ℕ → Context × Call g → Storage g → Storage g → Type 0
  Lives id call s t =
      (t.consortium ≡ s.consortium)
      × Moves g keccak256 sha256 (IsProof g keccak256 sha256 s.consortium id call)
          (IsHandling g keccak256 sha256 id call) id s t

  deliver-Lives :
      (c : Context) (raw proof : Bytes) (s : Storage g) {t : Storage g} {es : List Event}
      {r : ℕ × Bool × Bytes} (id : ℕ)
      → deliver_and_handle g sha256 c raw proof s ≡ ok (t, es, r)
      → Lives id (c, deliver_message raw proof) s t
  deliver-Lives c raw proof s {t} id h =
      let (p, decoded, s1, ds, d, hs, (res, k), _, _) =
        deliver_and_handle_inv g sha256 c raw proof s h in
      let (_, c1, first) = deliver_inv g keccak256 sha256 c p raw proof s d in
      let (_, c2, _) = handle_inv g keccak256 sha256 c p s1 k in
      let hash : p.id ≡ sha256 raw = decode_and_validate_payload-id sha256 raw decoded in
      let now : s1.delivered_payload p.id ≡ true =
        delivered_now g keccak256 sha256 s s1 p.id first in
      (
        c2 ∙ c1,
        Moves-trans g keccak256 sha256 id s s1 t
            (Moves-map g keccak256 sha256 id s s1 (λ x. ((sym hash ∙ x.0, (p, decoded, x.0)), x.1))
              (λ r. r) (deliver-Moves g keccak256 sha256 c p raw proof s id d))
            (Moves-map g keccak256 sha256 id s1 t (λ x. x)
              (λ r. (sym hash ∙ r.0, p, decoded, r.0, (r.1, r.2)))
              (handle-Moves g keccak256 sha256 c p s1 id now k)),
      )

  same-Lives :
      {P R : Type 0} (id : ℕ) (s t : Storage g)
      → (t.consortium ≡ s.consortium)
        × (t.delivered_payload ≡ s.delivered_payload)
        × (t.handled_payload ≡ s.handled_payload)
      → (t.consortium ≡ s.consortium) × Moves g keccak256 sha256 P R id s t
  same-Lives id s t (ec, ed, eh) = (ec, λ a e. (a, rw (ed, eh) e, stays))

  enable_same :
      (c : Context) (chain mailbox : ℕ) (d : PathDirectionType) (s : Storage g) {t : Storage g}
      {es : List Event}
      → enable_message_path g keccak256 c chain mailbox d s ≡ ok (t, es)
      → (t.consortium ≡ s.consortium)
        × (t.delivered_payload ≡ s.delivered_payload)
        × (t.handled_payload ≡ s.handled_payload)
  unfolding enable_message_path enable_outbound enable_inbound
  enable_same c chain mailbox d s h = ground arith

  pub execute-Lives :
      (id : ℕ) (c : Context) (call : Call g) (s : Storage g) {t : Storage g} {es : List Event}
      → execute g keccak256 sha256 c call s ≡ ok (t, es)
      → Lives id (c, call) s t
  unfolding execute set_default_max_payload_size set_sender_config set_fee withdraw_fee pause
      unpause disable_message_path
  execute-Lives id c (access_changed a) s {t} h = same-Lives id s t (ground arith)
  execute-Lives id c (enable_path chain mailbox d) s {t} h =
      same-Lives id s t (enable_same c chain mailbox d s h)
  execute-Lives id c (disable_path chain mailbox d) s {t} h = same-Lives id s t (ground arith)
  execute-Lives id c (default_size n) s {t} h = same-Lives id s t (ground arith)
  execute-Lives id c (byte_fee n) s {t} h = same-Lives id s t (ground arith)
  execute-Lives id c (sender_conf a n b) s {t} h = same-Lives id s t (ground arith)
  execute-Lives id c (send_message chain recipient caller body) s {t} h =
      let (r, k) = state_of_inv (send g keccak256 sha256 c chain recipient caller body s) h in
      let (_, _, _, et, _, _, _, _, _) =
        send_inv g keccak256 sha256 c chain recipient caller body s k in
      same-Lives id s t (rw et (refl, refl, refl))
  execute-Lives id c (deliver_message raw proof) s {t} h =
      let (r, k) = state_of_inv (deliver_and_handle g sha256 c raw proof s) h in
      deliver-Lives c raw proof s id k
  execute-Lives id c take_fee s {t} h = same-Lives id s t (ground arith)
  execute-Lives id c stop s {t} h = same-Lives id s t (ground arith)
  execute-Lives id c start s {t} h = same-Lives id s t (ground arith)

  settle-Lives :
      (id : ℕ) (c : Context) (call : Call g) (s : Storage g)
      → let r : Storage g × List Event =
          settle g keccak256 sha256 s (execute g keccak256 sha256 c call s) in
        Lives id (c, call) s r.0
  settle-Lives id c call s = elim (Result-cases (execute g keccak256 sha256 c call s)) [
    | inl (e, k) ↦ rw k (same-Lives id s s (refl, refl, refl))
    | inr ((t, es), k) ↦ rw k (execute-Lives id c call s k)
  ]

  run-moves :
      (id : ℕ) (calls : List (Context × Call g)) (s : Storage g) (a : Stage)
      → stage g keccak256 sha256 s id ≡ some a
      → let t : Storage g = (run g keccak256 sha256 calls s).0 in
        (t.consortium ≡ s.consortium)
        × ((b : Stage) × (stage g keccak256 sha256 t id ≡ some b)
            × Life
                (Any (IsProof g keccak256 sha256 s.consortium id) calls)
                (Any (IsHandling g keccak256 sha256 id) calls)
                a
                b)
  unfolding run
  run-moves id [] s a e = (refl, (a, e, stays))
  run-moves id ((c, call) ∷ calls) s a e =
      let first = settle g keccak256 sha256 s (execute g keccak256 sha256 c call s) in
      let (ec, one) = settle-Lives id c call s in
      let (b, eb, l) =
        Moves-map g keccak256 sha256 id s first.0 (λ x. inl x) (λ x. inl x) one a e in
      let (ed, (d, eb', l')) = run-moves id calls first.0 b eb in
      (ed ∙ ec, (d, eb', Life-trans l (Life-map (λ x. inr (rw ec at x)) (λ x. inr x) l')))

  -- Any sequence of transactions takes each message along its abstract life: it is delivered at most
  -- once, by the events, and counts as delivered afterwards exactly if it did before or was. From the
  -- stage where it stood it stays, or goes on to delivered and then to handled, where it stays however
  -- often it is handled again. It is delivered only if one of the transactions carries its bytes, which
  -- hash to its id, with a proof that the consortium accepts, and counts as handled only if one of them
  -- carries its bytes to a handler that returns. The consortium is the one of the first storage.
  pub run-Life :
      (id : ℕ) (calls : List (Context × Call g)) (s : Storage g) (a : Stage)
      → stage g keccak256 sha256 s id ≡ some a
      → let r : Storage g × List Event = run g keccak256 sha256 calls s in
        (r.0.consortium ≡ s.consortium)
        × ((b : Stage) × (stage g keccak256 sha256 r.0 id ≡ some b)
            × Life
                (Any (IsProof g keccak256 sha256 s.consortium id) calls)
                (Any (IsHandling g keccak256 sha256 id) calls)
                a
                b)
        × (flag (s.delivered_payload id) + deliveries id r.1 ≡ flag (r.0.delivered_payload id))
        × (deliveries id r.1 ≤ 1)
  run-Life id calls s a e =
      let (ec, life) = run-moves id calls s a e in
      let (count, once) = run-deliveries g keccak256 sha256 id calls s in (ec, life, count, once)
