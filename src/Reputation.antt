-- ===== src/Reputation.antt =====
-- The reputation manager, src/mempool/reputationManager.ts: its state and the methods that record
-- what became of user operations. A method is a function on the state in a small monad: it ends with
-- a value or with an exception, and keeps what it had changed before an exception.
pub mod Checks
pub mod Interface
pub mod Counting
pub mod Standing
pub mod Asking
pub mod Passing
pub mod Admission
use pimlico_alto_smart_accou.Common.{
  ℕ, ◌+◌, ◌-◌, ◌/◌, ◌≡◌, Bool, true, false, arith, Option, none, some, List, [], ◌∷◌, map, ◌==◌,
  leb, ltb, ◌&&◌, any, if◌then◌else◌, get_or_else, Dict, get?, put,
}
use pimlico_alto_smart_accou.UserOp.{GetAddress, UserOperation, sender, paymaster_of, factory_of}

pub data EntityType : Type 0 where
  account paymaster factory aggregator : EntityType

-- `0n`, `1n` and `2n`.
pub data ReputationStatus : Type 0 where
  ok throttled banned : ReputationStatus

pub record ReputationEntry : Type 0 where
  pub address : ℕ
  pub ops_seen : ℕ
  pub ops_included : ℕ
  pub status : Option ReputationStatus

pub record ReputationParams : Type 0 where
  pub min_inclusion_denominator : ℕ
  pub throttling_slack : ℕ
  pub ban_slack : ℕ

abbrev pub bundler_reputation_params : ReputationParams
bundler_reputation_params = record {
  min_inclusion_denominator = 10;
  throttling_slack = 10;
  ban_slack = 50;
}

-- `addr` may be missing.
pub record StakeInfo : Type 0 where
  pub addr : Option ℕ
  pub stake : ℕ
  pub unstake_delay_sec : ℕ

pub data Error : Type 0 where
  is_banned is_throttled : EntityType → Option ℕ → Error
  is_unstaked stake_too_low unstake_delay_too_low : EntityType → Option ℕ → Error
  type_error not_implemented : Error

pub record ReputationManager : Type 0 where
  pub min_entity_stake : ℕ
  pub min_entity_unstake_delay : ℕ
  pub entity_count : Dict ℕ
  pub throttled_entity_min_mempool_count : ℕ
  pub max_mempool_user_operations_per_sender : ℕ
  pub max_mempool_user_operations_per_new_unstaked_entity : ℕ
  pub inclusion_rate_factor : ℕ
  pub entries : Dict (Dict ReputationEntry)
  pub whitelist : List ℕ
  pub black_list : List ℕ
  pub params : ReputationParams

pub data Outcome (A : Type 0) : Type 0 where
  returned : A → Outcome A
  thrown : Error → Outcome A

abbrev pub M : Type 0 → Type 0
M A = ReputationManager → Outcome A × ReputationManager

infixl 5 ◌>>=◌ ◌>>◌
abbrev pub ◌>>=◌ : {A B : Type 0} → M A → (A → M B) → M B
◌>>=◌ m f r = let (o, r') = m r in elim o [ returned a ↦ f a r' | thrown e ↦ (thrown e, r') ]

abbrev pub ◌>>◌ : {B : Type 0} → M (Unit {0}) → M B → M B
m >> k = m >>= λ _. k

abbrev pub return : {A : Type 0} → A → M A
return a r = (returned a, r)

abbrev pub throw : {A : Type 0} → Error → M A
throw e r = (thrown e, r)

-- A step that returns hands its value and its state to the rest.
pub bind-returned :
    {A B : Type 0} (m : M A) (f : A → M B) (r : ReputationManager) (a : A)
    → (m r).0 ≡ returned a
    → (m >>= f) r ≡ f a (m r).1
bind-returned m f r a h = ground arith

-- `if (address) { … }`.
abbrev pub when_some : Option ℕ → (ℕ → M (Unit {0})) → M (Unit {0})
when_some none f = return tt
when_some (some a) f = f a

empty_entries : List ℕ → Dict (Dict ReputationEntry)
empty_entries [] = []
empty_entries (e ∷ es) = put (empty_entries es) e []

unfoldable pub new_reputation_manager : ℕ → ℕ → List ℕ → ReputationManager
unfolding empty_entries
new_reputation_manager min_stake min_delay entrypoints = record {
  min_entity_stake = min_stake;
  min_entity_unstake_delay = min_delay;
  entity_count = [];
  throttled_entity_min_mempool_count = 4;
  max_mempool_user_operations_per_sender = 4;
  max_mempool_user_operations_per_new_unstaked_entity = 10;
  inclusion_rate_factor = 10;
  entries = empty_entries entrypoints;
  whitelist = [];
  black_list = [];
  params = bundler_reputation_params;
}

abbrev pub fresh_entry : ℕ → ReputationEntry
fresh_entry address = record { address = address; ops_seen = 0; ops_included = 0; status = none }

-- `this.entries[entryPoint][address]`: reading a field of `undefined` throws.
unfoldable pub entry_at : ReputationManager → ℕ → ℕ → Option ReputationEntry
entry_at r entry_point address = elim (get? r.entries entry_point) [
  | none ↦ none
  | some es ↦ get? es address
]

-- What the three updates share: the entry, a fresh one if there is none, is changed in place.
update_entry : ℕ → ℕ → (ReputationEntry → ReputationEntry) → M (Unit {0})
update_entry entry_point address f r = elim (get? r.entries entry_point) [
  | none ↦ (thrown type_error, r)
  | some es ↦ (
    returned tt,
    record r {
      entries =
          put r.entries entry_point
            (put es address (f (get_or_else (get? es address) (fresh_entry address))));
    },
  )
]

unfoldable pub increase_seen : ℕ → ℕ → M (Unit {0})
unfolding update_entry
increase_seen entry_point address =
    update_entry entry_point address (λ e. record e { ops_seen = e.ops_seen + 1 })

unfoldable pub update_included_status : ℕ → ℕ → M (Unit {0})
unfolding update_entry
update_included_status entry_point address =
    update_entry entry_point address (λ e. record e { ops_included = e.ops_included + 1 })

unfoldable pub update_crashed_handle_ops : ℕ → ℕ → M (Unit {0})
unfolding update_entry
update_crashed_handle_ops entry_point address =
    update_entry entry_point address (λ e. record e { ops_seen = 1000; ops_included = 0 })

-- `setReputation`: the addresses are numbers already, so `getAddress` changes nothing.
unfoldable pub set_reputation : ℕ → List ReputationEntry → M (Unit {0})
unfolding update_entry
set_reputation entry_point [] = return tt
set_reputation entry_point (e ∷ es) = do
  update_entry entry_point e.address (λ _. record e { status = none })
  set_reputation entry_point es

unfoldable pub clear : ReputationManager → ReputationManager
clear r = record r { entries = map (λ e. (e.0, [])) r.entries; entity_count = [] }

unfoldable pub clear_entity_count : ReputationManager → ReputationManager
clear_entity_count r = record r { entity_count = [] }

abbrev pub has : List ℕ → ℕ → Bool
has set address = any (λ a. a == address) set

-- The status that an entry has by its numbers.
unfoldable pub status_by_numbers : ReputationParams → ReputationEntry → ReputationStatus
status_by_numbers p e =
    if leb (e.ops_seen / p.min_inclusion_denominator) (e.ops_included + p.throttling_slack)
    then ok
    else if leb (e.ops_seen / p.min_inclusion_denominator) (e.ops_included + p.ban_slack)
    then throttled
    else banned

-- `getStatus` of an address, which leaves the status in the entry.
unfoldable pub get_status_of : ℕ → ℕ → M ReputationStatus
unfolding status_by_numbers
get_status_of entry_point address r =
    if has r.whitelist address
    then (returned ok, r)
    else if has r.black_list address
    then (returned banned, r)
    else elim (get? r.entries entry_point) [
      | none ↦ (thrown type_error, r)
      | some es ↦ elim (get? es address) [
        | none ↦ (returned ok, r)
        | some e ↦ (
          returned (status_by_numbers r.params e),
          record r {
            entries =
                put r.entries entry_point
                  (put es address (record e { status = some (status_by_numbers r.params e) }));
          },
        )
      ]
    ]

unfoldable pub get_status : ℕ → Option ℕ → M ReputationStatus
get_status entry_point none = return ok
get_status entry_point (some address) = get_status_of entry_point address

module _ (get_address : GetAddress) where
  unfoldable pub update_user_operation_seen_status : UserOperation → ℕ → M (Unit {0})
  update_user_operation_seen_status op entry_point = do
    increase_seen entry_point (sender op)
    when_some (paymaster_of get_address op) (increase_seen entry_point)
    when_some (factory_of get_address op) (increase_seen entry_point)

  unfoldable pub update_user_operation_included_status : UserOperation → ℕ → Bool → M (Unit {0})
  update_user_operation_included_status op entry_point account_deployed = do
    update_included_status entry_point (sender op)
    when_some (paymaster_of get_address op) (update_included_status entry_point)
    if account_deployed
        then when_some (factory_of get_address op) (update_included_status entry_point)
        else return tt

-- `reason.startsWith(prefix)`, on character codes.
abbrev pub starts_with : List ℕ → List ℕ → Bool
starts_with [] text = true
starts_with (c ∷ cs) [] = false
starts_with (c ∷ cs) (d ∷ ds) = c == d && starts_with cs ds

abbrev pub aa_prefix : ℕ → List ℕ
aa_prefix digit = b'A' ∷ b'A' ∷ digit ∷ []

unfoldable pub crashed_handle_ops : GetAddress → UserOperation → ℕ → List ℕ → M (Unit {0})
crashed_handle_ops get_address op entry_point reason =
    if starts_with (aa_prefix b'3') reason
    then when_some (paymaster_of get_address op) (update_crashed_handle_ops entry_point)
    else if starts_with (aa_prefix b'2') reason
    then update_crashed_handle_ops entry_point (sender op)
    else if starts_with (aa_prefix b'1') reason
    then when_some (factory_of get_address op) (update_crashed_handle_ops entry_point)
    else return tt
