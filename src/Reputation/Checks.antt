-- ===== src/Reputation/Checks.antt =====
-- The checks of the reputation manager that admit or refuse an operation, and its counts of the
-- operations of an entity (src/mempool/reputationManager.ts).
use pimlico_alto_smart_accou.Common.{
  ℕ, ◌+◌, ◌-◌, ◌*◌, ◌/◌, Bool, false, Option, none, some, ◌==◌, ltb, if◌then◌else◌, get_or_else,
  Dict, get?, put,
}
use pimlico_alto_smart_accou.UserOp.{GetAddress, UserOperation, sender, paymaster_of, factory_of}
use pimlico_alto_smart_accou.Reputation.{
  ReputationStatus, EntityType, account, paymaster, factory, aggregator, ReputationEntry, throttled,
  banned, StakeInfo, is_banned, ok, is_throttled, is_unstaked, stake_too_low, unstake_delay_too_low,
  type_error, ReputationManager, returned, thrown, M, ◌>>=◌, ◌>>◌, return, throw, has, get_status,
}

unfoldable pub get_entity_count : ReputationManager → ℕ → ℕ
get_entity_count r address = get_or_else (get? r.entity_count address) 0

-- `this.entityCount[address] = (this.entityCount[address] ?? 0n) + 1n`.
unfoldable pub increase_count : ReputationManager → ℕ → ReputationManager
unfolding get_entity_count
increase_count r address = record r {
  entity_count = put r.entity_count address (get_entity_count r address + 1);
}

-- One less, and 0 where that is negative.
unfoldable pub decrease_count : ReputationManager → ℕ → ReputationManager
unfolding get_entity_count
decrease_count r address = record r {
  entity_count =
      put r.entity_count address
        (if ltb (get_entity_count r address) 1 then 0 else get_entity_count r address - 1);
}

abbrev pub for_some :
    Option ℕ → (ReputationManager → ℕ → ReputationManager) → ReputationManager → ReputationManager
for_some none f r = r
for_some (some a) f r = f r a

module _ (get_address : GetAddress) where
  unfoldable pub increase_user_operation_count :
      UserOperation → ReputationManager → ReputationManager
  increase_user_operation_count op r =
      for_some (factory_of get_address op) increase_count
        (for_some (paymaster_of get_address op) increase_count (increase_count r (sender op)))

  unfoldable pub decrease_user_operation_count :
      UserOperation → ReputationManager → ReputationManager
  decrease_user_operation_count op r =
      for_some (factory_of get_address op) decrease_count
        (for_some (paymaster_of get_address op) decrease_count (decrease_count r (sender op)))

-- `addr` may be `undefined`, which is no key of any object here.
abbrev pub count_of : ReputationManager → Option ℕ → ℕ
count_of r none = 0
count_of r (some address) = get_entity_count r address

abbrev pub is_white_listed : ReputationManager → Option ℕ → Bool
is_white_listed r none = false
is_white_listed r (some address) = has r.whitelist address

-- `opsIncluded > 10000n ? 10000n : opsIncluded`.
abbrev capped : ℕ → ℕ
capped n = if ltb 10000 n then 10000 else n

abbrev pub entry_of : Dict ReputationEntry → Option ℕ → Option ReputationEntry
entry_of es none = none
entry_of es (some address) = get? es address

unfoldable pub cal_culate_max_mempool_user_operations_per_entity : ℕ → Option ℕ → M ℕ
cal_culate_max_mempool_user_operations_per_entity entry_point address r =
    elim (get? r.entries entry_point) [
      | none ↦ (thrown type_error, r)
      | some es ↦ elim (entry_of es address) [
        | none ↦ (returned r.max_mempool_user_operations_per_new_unstaked_entity, r)
        | some e ↦ (
          returned (
              r.max_mempool_user_operations_per_new_unstaked_entity
              + (if e.ops_seen == 0 then 0 else e.ops_included / e.ops_seen)
                * r.inclusion_rate_factor
              + capped e.ops_included),
          r,
        )
      ]
    ]

abbrev pub unless_banned : EntityType → Option ℕ → ReputationStatus → M (Unit {0})
unless_banned kind address banned = throw (is_banned kind address)
unless_banned kind address throttled = return tt
unless_banned kind address ok = return tt

unfoldable pub check_banned : ℕ → EntityType → StakeInfo → M (Unit {0})
check_banned entry_point kind info =
    get_status entry_point info.addr >>= unless_banned kind info.addr

abbrev pub unless_throttled : EntityType → Option ℕ → ReputationStatus → M (Unit {0})
unless_throttled kind address throttled = throw (is_throttled kind address)
unless_throttled kind address banned = return tt
unless_throttled kind address ok = return tt

unfoldable pub check_throttled : ℕ → EntityType → StakeInfo → M (Unit {0})
check_throttled entry_point kind info =
    get_status entry_point info.addr >>= unless_throttled kind info.addr

-- The two tests after `checkBanned`.
unfoldable pub check_stake_amounts : EntityType → StakeInfo → M (Unit {0})
check_stake_amounts kind info r =
    if ltb info.stake r.min_entity_stake
    then (
      thrown (if info.stake == 0 then is_unstaked kind info.addr else stake_too_low kind info.addr),
      r,
    )
    else if ltb info.unstake_delay_sec r.min_entity_unstake_delay
    then (thrown (unstake_delay_too_low kind info.addr), r)
    else (returned tt, r)

unfoldable pub check_stake : ℕ → EntityType → StakeInfo → M (Unit {0})
check_stake entry_point kind info r =
    if is_white_listed r info.addr
    then (returned tt, r)
    else (check_banned entry_point kind info >> check_stake_amounts kind info) r

-- The allowed count, from the override or from the entry.
abbrev pub allowed : ℕ → StakeInfo → Option ℕ → M ℕ
allowed entry_point info none =
    cal_culate_max_mempool_user_operations_per_entity entry_point info.addr
allowed entry_point info (some n) = return n

unfoldable pub check_reputation_status : ℕ → EntityType → StakeInfo → Option ℕ → M (Unit {0})
check_reputation_status entry_point kind info override = do
  max_allowed ← allowed entry_point info override
  check_banned entry_point kind info
  (λ r.
      (if ltb r.throttled_entity_min_mempool_count (count_of r info.addr)
          then check_throttled entry_point kind info
          else return tt)
        r)
  λ r.
      (if ltb max_allowed (count_of r info.addr)
          then check_stake entry_point kind info
          else return tt)
        r

-- What validation says of the entities of an operation.
pub record ValidationInfo : Type 0 where
  pub sender_info : StakeInfo
  pub paymaster_info : Option StakeInfo
  pub factory_info : Option StakeInfo
  pub aggregator_info : Option StakeInfo

abbrev check_some : ℕ → EntityType → Option StakeInfo → M (Unit {0})
check_some entry_point kind none = return tt
check_some entry_point kind (some info) = check_reputation_status entry_point kind info none

-- The checks of `checkReputation`, which come after the counts are raised.
unfoldable pub check_entities : ℕ → ValidationInfo → M (Unit {0})
check_entities entry_point v = do
  (λ r.
      check_reputation_status entry_point account v.sender_info
        (some r.max_mempool_user_operations_per_sender) r)
  check_some entry_point paymaster v.paymaster_info
  check_some entry_point factory v.factory_info
  check_some entry_point aggregator v.aggregator_info

unfoldable pub check_reputation : GetAddress → UserOperation → ℕ → ValidationInfo → M (Unit {0})
unfolding check_entities
check_reputation get_address op entry_point v r =
    check_entities entry_point v (increase_user_operation_count get_address op r)
