-- ===== src/Reputation/Counting.antt =====
-- The counts of operations by entity (src/mempool/reputationManager.ts).
use pimlico_alto_smart_accou.Common.{
  ℕ, ◌+◌, ◌-◌, ◌≡◌, Option, none, some, arith, ◌==◌, ltb, if◌then◌else◌, get_or_else, get?,
  get?-put,
}
use pimlico_alto_smart_accou.UserOp.{GetAddress, UserOperation, sender, paymaster_of, factory_of}
use pimlico_alto_smart_accou.Reputation.{ReputationManager}
use pimlico_alto_smart_accou.Reputation.Checks.{
  get_entity_count, increase_count, decrease_count, for_some, increase_user_operation_count,
  decrease_user_operation_count,
}

-- In how many of its three roles an operation names an address.
abbrev is_role : Option ℕ → ℕ → ℕ
is_role none a = 0
is_role (some b) a = if b == a then 1 else 0

unfoldable pub roles : GetAddress → UserOperation → ℕ → ℕ
roles g op a =
    is_role (some (sender op)) a + is_role (paymaster_of g op) a + is_role (factory_of g op) a

count-increase_count :
    (r : ReputationManager) (a b : ℕ)
    → get_entity_count (increase_count r b) a ≡ get_entity_count r a + is_role (some b) a
unfolding get_entity_count increase_count
count-increase_count r a b =
    ground (arith, get?-put r.entity_count b a (get_or_else (get? r.entity_count b) 0 + 1))

count-decrease_count :
    (r : ReputationManager) (a b : ℕ)
    → get_entity_count (decrease_count r b) a ≡ get_entity_count r a - is_role (some b) a
unfolding get_entity_count decrease_count
count-decrease_count r a b = ground (
  arith,
  get?-put r.entity_count b a (
      if ltb (get_or_else (get? r.entity_count b) 0) 1
      then 0
      else get_or_else (get? r.entity_count b) 0 - 1),
)

count-for_some_increase :
    (r : ReputationManager) (o : Option ℕ) (a : ℕ)
    → get_entity_count (for_some o increase_count r) a ≡ get_entity_count r a + is_role o a
count-for_some_increase r none a = omega arith
count-for_some_increase r (some b) a = count-increase_count r a b

count-for_some_decrease :
    (r : ReputationManager) (o : Option ℕ) (a : ℕ)
    → get_entity_count (for_some o decrease_count r) a ≡ get_entity_count r a - is_role o a
count-for_some_decrease r none a = omega arith
count-for_some_decrease r (some b) a = count-decrease_count r a b

-- Raising the counts for an operation adds to the count of every address the number of roles in
-- which the operation names it.
pub count-increase_user_operation_count :
    (g : GetAddress) (op : UserOperation) (r : ReputationManager) (a : ℕ)
    → get_entity_count (increase_user_operation_count g op r) a
      ≡ get_entity_count r a + roles g op a
unfolding increase_user_operation_count roles
count-increase_user_operation_count g op r a = omega (
  arith,
  count-for_some_increase
      (for_some (paymaster_of g op) increase_count (increase_count r (sender op))) (factory_of g op)
      a,
  count-for_some_increase (increase_count r (sender op)) (paymaster_of g op) a,
  count-increase_count r a (sender op),
)

pub count-decrease_user_operation_count :
    (g : GetAddress) (op : UserOperation) (r : ReputationManager) (a : ℕ)
    → get_entity_count (decrease_user_operation_count g op r) a
      ≡ get_entity_count r a - roles g op a
unfolding decrease_user_operation_count roles
count-decrease_user_operation_count g op r a = omega (
  arith,
  count-for_some_decrease
      (for_some (paymaster_of g op) decrease_count (decrease_count r (sender op))) (factory_of g op)
      a,
  count-for_some_decrease (decrease_count r (sender op)) (paymaster_of g op) a,
  count-decrease_count r a (sender op),
)

-- Lowering the counts for an operation undoes raising them for it: every address has its old count,
-- also where the operation names one address in several roles. Lowering never goes below 0.
pub decrease-increase_user_operation_count :
    (g : GetAddress) (op : UserOperation) (r : ReputationManager) (a : ℕ)
    → (get_entity_count
          (decrease_user_operation_count g op (increase_user_operation_count g op r))
          a
        ≡ get_entity_count r a)
      × (get_entity_count (decrease_user_operation_count g op r) a
          ≡ get_entity_count r a - roles g op a)
decrease-increase_user_operation_count g op r a = (
  omega (
    arith,
    count-decrease_user_operation_count g op (increase_user_operation_count g op r) a,
    count-increase_user_operation_count g op r a,
  ),
  count-decrease_user_operation_count g op r a,
)
