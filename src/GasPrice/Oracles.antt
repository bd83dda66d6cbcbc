-- ===== src/GasPrice/Oracles.antt =====
-- The values of the layers below, src/handlers/arbitrumGasPriceManager.ts and
-- src/handlers/mantleGasPriceManager.ts.
use pimlico_alto_smart_accou.Common.{ℕ, ◌-◌, ◌^◌, Option, none, some, ◌==◌, if◌then◌else◌}
use pimlico_alto_smart_accou.TimedQueue.{
  TimedQueue, new_timed_queue, save_value, get_min_value, get_max_value,
}

-- `value || d`
abbrev pub value_or : Option ℕ → ℕ → ℕ
value_or none d = d
value_or (some n) d = if n == 0 then d else n

-- viem's constant of this name.
abbrev pub max_uint128 : ℕ
max_uint128 = 2 ^ 128 - 1

pub record ArbitrumManager : Type 0 where
  pub l1_base_fee_queue : TimedQueue
  pub l2_base_fee_queue : TimedQueue

abbrev pub new_arbitrum_manager : ℕ → ArbitrumManager
new_arbitrum_manager validity = record {
  l1_base_fee_queue = new_timed_queue validity;
  l2_base_fee_queue = new_timed_queue validity;
}

unfoldable pub save_l1_base_fee : ArbitrumManager → ℕ → ℕ → ArbitrumManager
save_l1_base_fee m now fee = record m { l1_base_fee_queue = save_value m.l1_base_fee_queue now fee }

unfoldable pub save_l2_base_fee : ArbitrumManager → ℕ → ℕ → ArbitrumManager
save_l2_base_fee m now fee = record m { l2_base_fee_queue = save_value m.l2_base_fee_queue now fee }

unfoldable pub get_min_l1_base_fee : ArbitrumManager → ℕ
get_min_l1_base_fee m = value_or (get_min_value m.l1_base_fee_queue) 1

unfoldable pub get_max_l1_base_fee : ArbitrumManager → ℕ
get_max_l1_base_fee m = value_or (get_max_value m.l1_base_fee_queue) max_uint128

unfoldable pub get_max_l2_base_fee : ArbitrumManager → ℕ
get_max_l2_base_fee m = value_or (get_max_value m.l2_base_fee_queue) max_uint128

-- One value for each of what the oracle reports.
pub record Oracle (A : Type 0) : Type 0 where
  pub token_ratio : A
  pub scalar : A
  pub rollup_data_gas_and_overhead : A
  pub l1_gas_price : A

abbrev pub MantleManager : Type 0
MantleManager = Oracle TimedQueue

abbrev pub new_mantle_manager : ℕ → MantleManager
new_mantle_manager validity = record {
  token_ratio = new_timed_queue validity;
  scalar = new_timed_queue validity;
  rollup_data_gas_and_overhead = new_timed_queue validity;
  l1_gas_price = new_timed_queue validity;
}

unfoldable pub get_min_mantle_oracle_values : MantleManager → Oracle ℕ
get_min_mantle_oracle_values m = record {
  token_ratio = value_or (get_min_value m.token_ratio) 1;
  scalar = value_or (get_min_value m.scalar) 1;
  rollup_data_gas_and_overhead = value_or (get_min_value m.rollup_data_gas_and_overhead) 1;
  l1_gas_price = value_or (get_min_value m.l1_gas_price) 1;
}

unfoldable pub save_mantle_oracle_values : MantleManager → ℕ → Oracle ℕ → MantleManager
save_mantle_oracle_values m now o = record {
  token_ratio = save_value m.token_ratio now o.token_ratio;
  scalar = save_value m.scalar now o.scalar;
  rollup_data_gas_and_overhead =
      save_value m.rollup_data_gas_and_overhead now o.rollup_data_gas_and_overhead;
  l1_gas_price = save_value m.l1_gas_price now o.l1_gas_price;
}
