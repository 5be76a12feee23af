-- ===== src/Tasks/Ownership/Admins.antt =====
-- tasks/ownership/check.ts: what the classification of holders and the scan of roles say.
use evm_smart_contracts.Prelude.{
  ℕ, ◌≡◌, ◌≢◌, ◌↔◌, ◌⊎◌, inl, inr, refl, true, List, [], ◌∷◌, Text, text_eq, text_eq→eq,
  text_eq_refl, to_lower_case, lower_char, map, list_includes, All, arith, Bool-cases,
}
use evm_smart_contracts.Tasks.Ownership.{
  AdminBucket, new_admin_bucket, is_timelock, is_multisig, is_deployer, timelock, multisig,
  deployer, unknown, classify, Chain, Report, admin_role, keys, report_roles,
}

lower_char_idem : (c : ℕ) → lower_char (lower_char c) ≡ lower_char c
unfolding lower_char
lower_char_idem c = ground arith

to_lower_case_idem : (s : Text) → to_lower_case (to_lower_case s) ≡ to_lower_case s
unfolding to_lower_case
to_lower_case_idem [] = refl
to_lower_case_idem (c ∷ s) = cc (lower_char_idem c, to_lower_case_idem s)

-- Addresses that differ only in the case of their letters have the same holder.
pub classify_case :
    (admins : AdminBucket) (a b : Text)
    → to_lower_case a ≡ to_lower_case b
    → classify admins a ≡ classify admins b
unfolding classify is_timelock is_multisig is_deployer
classify_case admins a b e = rw e

list_includes-map :
    (ds : List Text) (a : Text)
    → list_includes ds a ≡ true
    → list_includes (map to_lower_case ds) (to_lower_case a) ≡ true
unfolding list_includes
list_includes-map [] a h = cc
list_includes-map (d ∷ ds) a h = elim (Bool-cases (text_eq d a)) [
  | inl same ↦ rw (text_eq→eq d a same, text_eq_refl)
  | inr other ↦ ground (arith, list_includes-map ds a)
]

-- Every deployer that the file lists is found, in whatever case it and the file are written.
pub is_deployer-new_admin_bucket :
    (owner lock : Text) (deployers : List Text) (listed addr : Text)
    → list_includes deployers listed ≡ true
    → to_lower_case listed ≡ to_lower_case addr
    → is_deployer (new_admin_bucket owner lock deployers) addr ≡ true
unfolding is_deployer new_admin_bucket
is_deployer-new_admin_bucket owner lock deployers listed addr h e =
    rw (← e) (list_includes-map deployers listed h)

-- The account is the timelock or the multisig, in whatever case the addresses are written.
abbrev pub IsTrusted : AdminBucket → Text → Type 0
IsTrusted admins a =
    (to_lower_case admins.timelock ≡ to_lower_case a)
    ⊎ (to_lower_case admins.multisig ≡ to_lower_case a)

same_case : (a b : Text) → a ≡ b → text_eq a b ≡ true
same_case a b e = rw e (text_eq_refl b)

classify-fine :
    (admins : AdminBucket) (a : Text)
    → (classify admins a ≡ timelock) ⊎ (classify admins a ≡ multisig)
    → IsTrusted admins a
unfolding classify is_timelock is_multisig
classify-fine admins a h =
    elim (Bool-cases (text_eq (to_lower_case admins.timelock) (to_lower_case a))) [
      | inl e ↦ inl (text_eq→eq (to_lower_case admins.timelock) (to_lower_case a) e)
      | inr e ↦ inr (text_eq→eq (to_lower_case admins.multisig) (to_lower_case a) (ground arith))
    ]

fine-classify :
    (admins : AdminBucket) (a : Text)
    → IsTrusted admins a
    → (classify admins a ≡ timelock) ⊎ (classify admins a ≡ multisig)
unfolding classify is_timelock is_multisig
fine-classify admins a (inl e) = inl (rw (same_case _ _ e) refl)
fine-classify admins a (inr e) =
    elim (Bool-cases (text_eq (to_lower_case admins.timelock) (to_lower_case a))) [
      | inl k ↦ inl (rw k refl)
      | inr k ↦ inr (rw (k, same_case _ _ e) refl)
    ]

-- A line about a role that is no cause for concern.
abbrev pub IsFine : Report → Type 0
IsFine rep = (a : Text) → (rep ≢ admin_role deployer a) × (rep ≢ admin_role unknown a)

member_true :
    (P : Text → Type 0) (seen : List Text) (a : Text)
    → All P seen
    → list_includes seen a ≡ true
    → P a
unfolding list_includes
member_true P [] a h k = cc
member_true P (s ∷ seen) a h k = elim (Bool-cases (text_eq s a)) [
  | inl same ↦ rw (← text_eq→eq s a same) h.0
  | inr other ↦ member_true P seen a h.1 (ground arith)
]

-- What holds of each key holds of each account, and the other way round.
keys-All : (P : Text → Type 0) (seen ps : List Text) → All P seen → All P (keys seen ps) ↔ All P ps
unfolding keys
keys-All P seen [] h = (λ k. tt, λ k. tt)
keys-All P seen (a ∷ ps) h = elim (Bool-cases (list_includes seen a)) [
  | inl old ↦
      let ih = keys-All P seen ps h in
      rw (old, keys) (λ k. (member_true P seen a h old, ih.0 k), λ k. ih.1 k.1)
  | inr new ↦
      rw (new, keys)
        (
          λ k. (k.0, (keys-All P (a ∷ seen) ps (k.0, h)).0 k.1),
          λ k. (k.0, (keys-All P (a ∷ seen) ps (k.0, h)).1 k.1),
        )
]

fine→trusted :
    (admins : AdminBucket) (a : Text)
    → IsFine (admin_role (classify admins a) a)
    → IsTrusted admins a
fine→trusted admins a h = classify-fine admins a (ground (arith, h a))

trusted→fine :
    (admins : AdminBucket) (a : Text)
    → IsTrusted admins a
    → IsFine (admin_role (classify admins a) a)
trusted→fine admins a h b = let k = fine-classify admins a h in ground arith

module _ (c : Chain) (admins : AdminBucket) (addr : Text) where
  report_roles-IsFine :
      (ps : List Text)
      → All IsFine (report_roles c admins addr ps)
        ↔ All (λ a. c.has_admin_role addr a ≡ true → IsTrusted admins a) ps
  unfolding report_roles
  report_roles-IsFine [] = (λ h. tt, λ h. tt)
  report_roles-IsFine (a ∷ ps) = elim (Bool-cases (c.has_admin_role addr a)) [
    | inl has ↦ rw has (
      λ h. (λ e. fine→trusted admins a h.0, (report_roles-IsFine ps).0 h.1),
      λ h. (trusted→fine admins a (h.0 refl), (report_roles-IsFine ps).1 h.1),
    )
    | inr lacks ↦
        rw lacks (λ h. (λ e. cc, (report_roles-IsFine ps).0 h), λ h. (report_roles-IsFine ps).1 h.1)
  ]

  -- For a list of accounts to which a role was granted, the rule prints no line on a deployer or
  -- an unknown account exactly if each of them that has the admin role is the timelock or the
  -- multisig, compared without regard to case.
  pub report_roles-keys :
      (granted : List Text)
      → All IsFine (report_roles c admins addr (keys [] granted))
        ↔ All (λ a. c.has_admin_role addr a ≡ true → IsTrusted admins a) granted
  report_roles-keys granted =
      let k = keys-All (λ a. c.has_admin_role addr a ≡ true → IsTrusted admins a) [] granted tt in
      let r = report_roles-IsFine (keys [] granted) in (λ h. k.0 (r.0 h), λ h. r.1 (k.1 h))
