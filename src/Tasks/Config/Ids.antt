-- ===== src/Tasks/Config/Ids.antt =====
-- hardhat.config.ts: that the id of a chain tells the networks apart.
use evm_smart_contracts.Prelude.{
  ℕ, ◌≡◌, refl, sym, ◌∙◌, ap, Bool, true, false, Bool-cases, inl, inr, some, List, [], ◌∷◌, Text,
  text_eq, text_eq→eq, ◌==◌, if◌then◌else◌, arith, some_inj,
}
use evm_smart_contracts.Tasks.Config.{Network, find_network}
use evm_smart_contracts.Tasks.Config.Networks.{networks}

-- Some network in a list has an id.
unfoldable pub has_id : ℕ → List Network → Bool
has_id n [] = false
has_id n (network ∷ rest) = if network.chain_id == n then true else has_id n rest

unfoldable pub distinct_ids : List Network → Bool
distinct_ids [] = true
distinct_ids (network ∷ rest) = if has_id network.chain_id rest then false else distinct_ids rest

has_id-find_network :
    (name : Text) (xs : List Network) {x : Network}
    → find_network name xs ≡ some x
    → has_id x.chain_id xs ≡ true
unfolding has_id find_network
has_id-find_network name [] h = ground arith
has_id-find_network name (y ∷ xs) {x} h = elim (Bool-cases (text_eq y.name name)) [
  | inl e ↦ let k : y ≡ x = some_inj (rw e at h) in rw k (ground arith)
  | inr e ↦ let ih = has_id-find_network name xs (rw e at h) in ground arith
]

found_name :
    (name : Text) (xs : List Network) {x : Network} → find_network name xs ≡ some x → x.name ≡ name
unfolding find_network
found_name name [] h = ground arith
found_name name (y ∷ xs) {x} h = elim (Bool-cases (text_eq y.name name)) [
  | inl e ↦ let k : y ≡ x = some_inj (rw e at h) in rw (← k) (text_eq→eq y.name name e)
  | inr e ↦ found_name name xs (rw e at h)
]

find_network-ids :
    (a b : Text) (xs : List Network) {x y : Network}
    → distinct_ids xs ≡ true
    → find_network a xs ≡ some x
    → find_network b xs ≡ some y
    → x.chain_id ≡ y.chain_id
    → a ≡ b
unfolding find_network distinct_ids
find_network-ids a b [] d h k e = ground arith
find_network-ids a b (z ∷ xs) {x} {y} d h k e = elim (Bool-cases (has_id z.chain_id xs)) [
  | inl twice ↦ let no_ : false ≡ true = rw twice at d in ground arith
  | inr once ↦
      let rest : distinct_ids xs ≡ true = rw once at d in
      elim (Bool-cases (text_eq z.name a)) [
        | inl p ↦ elim (Bool-cases (text_eq z.name b)) [
          | inl q ↦ sym (text_eq→eq z.name a p) ∙ text_eq→eq z.name b q
          | inr q ↦
              let zx : z ≡ x = some_inj (rw p at h) in
              let there = has_id-find_network b xs (rw q at k) in
              let i : z.chain_id ≡ y.chain_id = ap (λ n. n.chain_id) zx ∙ e in
              let t : has_id z.chain_id xs ≡ true = rw i there in ground arith
        ]
        | inr p ↦ elim (Bool-cases (text_eq z.name b)) [
          | inl q ↦
              let zy : z ≡ y = some_inj (rw q at k) in
              let there = has_id-find_network a xs (rw p at h) in
              let i : z.chain_id ≡ x.chain_id = ap (λ n. n.chain_id) zy ∙ sym e in
              let t : has_id z.chain_id xs ≡ true = rw i there in ground arith
          | inr q ↦ find_network-ids a b xs rest (rw p at h) (rw q at k) e
        ]
      ]
]

networks-distinct : distinct_ids networks ≡ true
unfolding distinct_ids has_id
networks-distinct = refl

-- Two names that the configuration knows, of networks with the same id of the chain, are the same.
pub networks-ids :
    (a b : Text) {x y : Network}
    → find_network a networks ≡ some x
    → find_network b networks ≡ some y
    → x.chain_id ≡ y.chain_id
    → a ≡ b
networks-ids a b h k e = find_network-ids a b networks networks-distinct h k e
