-- ===== src/Tasks/Upgrade.antt =====
-- scripts/deployments/upgrade.ts and `schedule` of scripts/helpers/index.ts: the upgrade of a proxy,
-- directly, through the timelock, or printed for another account to send.
-- What `CustomRuntimeEnvironment` and the deployed contracts answer is a record of functions. A
-- parameter that is left out, or empty, is missing. Of the arguments that ethers encodes, the predecessor
-- and the salt are checked here; the others come from ethers and from the contracts.
use evm_smart_contracts.Prelude.{
  ◌≡◌, refl, Bool, true, false, not, ◌&&◌, Option, none, some, [], ◌∷◌, Text, codes, is_missing,
  if◌then◌else◌, Result, ok, err, ◌>>◌, guard, Bool-cases, inl, inr,
}

-- `upgradeAndCall.populateTransaction(proxy, impl, calldata)`.
pub record Transaction : Type 0 where
  pub to : Text
  pub value : Option Text
  pub data_field : Text

-- The arguments of the timelock's `schedule`.
pub record Operation : Type 0 where
  pub target : Text
  pub value : Text
  pub data_field : Text
  pub predecessor : Text
  pub salt : Text
  pub delay : Text

pub record UpgradeEnv : Type 0 where
  pub proxy_admin : Text → Text
  -- the address of the implementation that is deployed
  pub deploy_implementation : Text → Text
  pub upgrade_transaction : Text → Text → Text → Text → Transaction
  pub min_delay : Text → Text
  pub zero_hash : Text
  -- whether ethers encodes the text as a `bytes32`
  pub is_bytes32 : Text → Bool

-- `INVALID_ARGUMENT`.
pub data UpgradeError : Type 0 where
  invalid_bytes32 : Text → UpgradeError

-- `a || b`.
abbrev pub or_default : Option Text → Text → Text
or_default none b = b
or_default (some []) b = b
or_default (some (c ∷ t)) b = c ∷ t

-- What a call does: `sent` to the proxy admin, or scheduled; with `populate` it is printed.
pub data UpgradeEffect : Type 0 where
  upgrade_sent upgrade_printed : Transaction → UpgradeEffect
  schedule_sent schedule_printed : Text → Operation → UpgradeEffect

module _ (env : UpgradeEnv) where
  -- The arguments that `schedule` and `populateSchedule` pass on.
  unfoldable pub operation_of :
      Text → Transaction → Option Text → Option Text → Option Text → Operation
  operation_of timelock transaction predecessor salt delay = record {
    target = transaction.to;
    value = or_default transaction.value (codes "0");
    data_field = transaction.data_field;
    predecessor = or_default predecessor env.zero_hash;
    salt = or_default salt env.zero_hash;
    delay = or_default delay (env.min_delay timelock);
  }

  -- `schedule` and `populateSchedule`: the call, with what it is to do.
  unfoldable pub schedule :
      Text
      → Transaction
      → Option Text
      → Option Text
      → Option Text
      → (Operation → UpgradeEffect)
      → Result UpgradeError UpgradeEffect
  unfolding operation_of
  schedule timelock transaction predecessor salt delay effect =
      let operation = operation_of timelock transaction predecessor salt delay in
      guard (env.is_bytes32 operation.predecessor) (invalid_bytes32 operation.predecessor)
      >> (guard (env.is_bytes32 operation.salt) (invalid_bytes32 operation.salt)
          >> ok (effect operation))

  -- upgrade-proxy. The call of `schedule` names no parameters: the delay stands for the predecessor.
  unfoldable pub upgrade_proxy :
      Text → Text → Text → Bool → Option Text → Option Text → Result UpgradeError UpgradeEffect
  upgrade_proxy proxy contract_name calldata populate timelock timelock_delay =
      let impl = env.deploy_implementation contract_name in
      let transaction = env.upgrade_transaction (env.proxy_admin proxy) proxy impl calldata in
      let address = or_default timelock [] in
      if not populate && is_missing timelock
      then ok (upgrade_sent transaction)
      else if populate && is_missing timelock
      then ok (upgrade_printed transaction)
      else if populate
      then schedule address transaction timelock_delay none none (schedule_printed address)
      else schedule address transaction timelock_delay none none (schedule_sent address)

  -- What is scheduled, if anything is.
  abbrev pub operation_in : Result UpgradeError UpgradeEffect → Option Operation
  operation_in (ok (schedule_sent timelock operation)) = some operation
  operation_in (ok (schedule_printed timelock operation)) = some operation
  operation_in _ = none

  abbrev pub delay_of : Result UpgradeError UpgradeEffect → Option Text
  delay_of r = elim (operation_in r) [ none ↦ none | some operation ↦ some operation.delay ]

  abbrev pub predecessor_of : Result UpgradeError UpgradeEffect → Option Text
  predecessor_of r = elim (operation_in r) [
    | none ↦ none
    | some operation ↦ some operation.predecessor
  ]

  -- The delay and the predecessor of what is scheduled, or nothing.
  abbrev pub Scheduled : Text → Text → Result UpgradeError UpgradeEffect → Type 0
  Scheduled timelock predecessor r =
      (delay_of r ≡ (if env.is_bytes32 predecessor then some (env.min_delay timelock) else none))
      × (predecessor_of r ≡ (if env.is_bytes32 predecessor then some predecessor else none))

  schedule_delay :
      (timelock : Text) (transaction : Transaction) (delay : Option Text)
      → env.is_bytes32 env.zero_hash ≡ true
      → Scheduled timelock
          (or_default delay env.zero_hash)
          (schedule timelock transaction delay none none (schedule_printed timelock))
        × Scheduled timelock
            (or_default delay env.zero_hash)
            (schedule timelock transaction delay none none (schedule_sent timelock))
  unfolding schedule operation_of
  schedule_delay timelock transaction delay z =
      elim (Bool-cases (env.is_bytes32 (or_default delay env.zero_hash))) [
        | inl k ↦ rw (k, z) ((refl, refl), (refl, refl))
        | inr k ↦ rw k ((refl, refl), (refl, refl))
      ]

  -- With a timelock, the delay that the task is given stands as the predecessor of the operation.
  -- Where ethers does not encode it as a `bytes32`, nothing is scheduled or printed; else what is
  -- scheduled, or printed, has the timelock's minimal delay and this predecessor. Without a given
  -- delay the predecessor is the zero hash, which ethers encodes.
  pub upgrade_proxy_delay :
      (proxy contract_name calldata timelock : Text) (populate : Bool)
      (timelock_delay : Option Text)
      → is_missing (some timelock) ≡ false
      → env.is_bytes32 env.zero_hash ≡ true
      → Scheduled timelock
          (or_default timelock_delay env.zero_hash)
          (upgrade_proxy proxy contract_name calldata populate (some timelock) timelock_delay)
  unfolding upgrade_proxy
  upgrade_proxy_delay proxy contract_name calldata [] populate timelock_delay h z = cc
  upgrade_proxy_delay proxy contract_name calldata (c ∷ t) true timelock_delay h z =
      (schedule_delay (c ∷ t) _ timelock_delay z).0
  upgrade_proxy_delay proxy contract_name calldata (c ∷ t) false timelock_delay h z =
      (schedule_delay (c ∷ t) _ timelock_delay z).1

  abbrev pub as_printed : UpgradeEffect → UpgradeEffect
  as_printed (upgrade_sent transaction) = upgrade_printed transaction
  as_printed (upgrade_printed transaction) = upgrade_printed transaction
  as_printed (schedule_sent timelock operation) = schedule_printed timelock operation
  as_printed (schedule_printed timelock operation) = schedule_printed timelock operation

  abbrev pub printed : Result UpgradeError UpgradeEffect → Result UpgradeError UpgradeEffect
  printed (ok effect) = ok (as_printed effect)
  printed (err e) = err e

  schedule-printed :
      (timelock : Text) (transaction : Transaction) (delay : Option Text)
      → schedule timelock transaction delay none none (schedule_printed timelock)
        ≡ printed (schedule timelock transaction delay none none (schedule_sent timelock))
  unfolding schedule operation_of
  schedule-printed timelock transaction delay =
      elim (Bool-cases (env.is_bytes32 (or_default delay env.zero_hash))) [
        | inl k ↦ elim (Bool-cases (env.is_bytes32 env.zero_hash)) [
          | inl z ↦ rw (k, z) refl
          | inr z ↦ rw (k, z) refl
        ]
        | inr k ↦ rw k refl
      ]

  -- With `populate` the task prints, and does not send, the transaction that it sends without it.
  pub upgrade_proxy-populate :
      (proxy contract_name calldata : Text) (timelock timelock_delay : Option Text)
      → upgrade_proxy proxy contract_name calldata true timelock timelock_delay
        ≡ printed (upgrade_proxy proxy contract_name calldata false timelock timelock_delay)
  unfolding upgrade_proxy
  upgrade_proxy-populate proxy contract_name calldata none timelock_delay = refl
  upgrade_proxy-populate proxy contract_name calldata (some []) timelock_delay = refl
  upgrade_proxy-populate proxy contract_name calldata (some (c ∷ t)) timelock_delay =
      schedule-printed (c ∷ t) _ timelock_delay
