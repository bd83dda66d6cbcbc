-- ===== src/GasPrice/Manager.antt =====
-- The state of GasPriceManager (src/handlers/gasPriceManager.ts) and the methods on it. A method
-- runs on the state at the time its answers have arrived.
use pimlico_alto_smart_accou.Common.{
  ℕ, ◌*◌, ◌/◌, ◌^◌, Bool, true, ◌||◌, Option, none, some, ltb, ◌==◌, if◌then◌else◌,
}
use pimlico_alto_smart_accou.TimedQueue.{
  TimedQueue, new_timed_queue, save_value, get_latest_value, get_min_value, get_max_value,
}
use pimlico_alto_smart_accou.GasPrice.{
  GasPriceParameters, Chains, GasConfig, Result, gives, throws, Node, inner_get_gas_price,
  node_failed, no_base_fee, legacy_base_fee, no_gas_price, fee_below, priority_fee_below,
}

pub record GasPriceManager : Type 0 where
  pub chains : Chains
  pub config : GasConfig
  pub base_fee_per_gas_queue : TimedQueue
  pub max_fee_per_gas_queue : TimedQueue
  pub max_priority_fee_per_gas_queue : TimedQueue

-- The expiry is in seconds.
abbrev pub new_gas_price_manager : Chains → GasConfig → ℕ → GasPriceManager
new_gas_price_manager v c gas_price_expiry = record {
  chains = v;
  config = c;
  base_fee_per_gas_queue = new_timed_queue (gas_price_expiry * 1000);
  max_fee_per_gas_queue = new_timed_queue (gas_price_expiry * 1000);
  max_priority_fee_per_gas_queue = new_timed_queue (gas_price_expiry * 1000);
}

abbrev pub Method : Type 0 → Type 0
Method A = Node → ℕ → GasPriceManager → Result A × GasPriceManager

-- `!value`, where 0 counts as no value.
abbrev pub missing : Option ℕ → Bool
missing none = true
missing (some n) = n == 0

abbrev pub present : Option ℕ → ℕ
present none = 0
present (some n) = n

unfoldable pub update_base_fee : Method ℕ
update_base_fee node now m = elim (node.block_base_fee) [
  | none ↦ (throws node_failed, m)
  | some none ↦ (throws no_base_fee, m)
  | some (some fee) ↦
      (gives fee, record m { base_fee_per_gas_queue = save_value m.base_fee_per_gas_queue now fee })
]

unfoldable pub get_base_fee : Method ℕ
get_base_fee node now m =
    if m.config.legacy_transactions
    then (throws legacy_base_fee, m)
    else if m.config.gas_price_refresh_interval == 0
    then update_base_fee node now m
    else if missing (get_latest_value m.base_fee_per_gas_queue)
    then update_base_fee node now m
    else (gives (present (get_latest_value m.base_fee_per_gas_queue)), m)

abbrev pub save_price : ℕ → GasPriceParameters → GasPriceManager → GasPriceManager
save_price now p m = record m {
  max_fee_per_gas_queue = save_value m.max_fee_per_gas_queue now p.max_fee_per_gas;
  max_priority_fee_per_gas_queue =
      save_value m.max_priority_fee_per_gas_queue now p.max_priority_fee_per_gas;
}

unfoldable pub try_update_gas_price : Method GasPriceParameters
try_update_gas_price node now m = elim (inner_get_gas_price m.chains m.config node) [
  | throws e ↦ (throws e, m)
  | gives p ↦ (gives p, save_price now p m)
]

unfoldable pub get_gas_price : Method GasPriceParameters
get_gas_price node now m =
    if m.config.gas_price_refresh_interval == 0
    then try_update_gas_price node now m
    else if missing (get_latest_value m.max_fee_per_gas_queue)
        || missing (get_latest_value m.max_priority_fee_per_gas_queue)
    then (throws no_gas_price, m)
    else (
      gives (record {
        max_fee_per_gas = present (get_latest_value m.max_fee_per_gas_queue);
        max_priority_fee_per_gas = present (get_latest_value m.max_priority_fee_per_gas_queue);
      }),
      m,
    )

unfoldable pub get_max_base_fee_per_gas : Method ℕ
get_max_base_fee_per_gas node now m =
    if missing (get_max_value m.base_fee_per_gas_queue)
    then get_base_fee node now m
    else (gives (present (get_max_value m.base_fee_per_gas_queue)), m)

-- The answer with a part of the price taken out.
abbrev pub part :
    (GasPriceParameters → ℕ)
    → Result GasPriceParameters × GasPriceManager
    → Result ℕ × GasPriceManager
part f (gives p, m) = (gives (f p), m)
part f (throws e, m) = (throws e, m)

unfoldable pub get_min_max_fee_per_gas : Method ℕ
get_min_max_fee_per_gas node now m =
    if missing (get_min_value m.max_fee_per_gas_queue)
    then part (λ p. p.max_fee_per_gas) (get_gas_price node now m)
    else (gives (present (get_min_value m.max_fee_per_gas_queue)), m)

unfoldable pub get_min_max_priority_fee_per_gas : Method ℕ
get_min_max_priority_fee_per_gas node now m =
    if missing (get_min_value m.max_priority_fee_per_gas_queue)
    then part (λ p. p.max_priority_fee_per_gas) (get_gas_price node now m)
    else (gives (present (get_min_value m.max_priority_fee_per_gas_queue)), m)

-- On hedera the lowest fees are counted in another unit.
abbrev pub in_unit : GasConfig → ℕ → ℕ
in_unit c n = if c.is_hedera then n / 10 ^ 9 else n

unfoldable pub compare_price : ℕ → ℕ → GasPriceParameters → Result (Unit {0})
compare_price fee priority p =
    if ltb p.max_fee_per_gas fee
    then throws (fee_below fee)
    else if ltb p.max_priority_fee_per_gas priority
    then throws (priority_fee_below priority)
    else gives tt

-- The node answers the two calls separately.
unfoldable pub validate_gas_price :
    Node → Node → ℕ → GasPriceParameters → GasPriceManager → Result (Unit {0}) × GasPriceManager
validate_gas_price node node' now p m =
    let (fee, m') = get_min_max_fee_per_gas node now m in
    elim fee [
      | throws e ↦ (throws e, m')
      | gives f ↦
          let (priority, m'') = get_min_max_priority_fee_per_gas node' now m' in
          elim priority [
            | throws e ↦ (throws e, m'')
            | gives q ↦ (compare_price (in_unit m.config f) (in_unit m.config q) p, m'')
          ]
    ]
