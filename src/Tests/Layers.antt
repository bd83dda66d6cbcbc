-- ===== src/Tests/Layers.antt =====
-- The theorems on the fees of the layer below at concrete inputs.
use pimlico_alto_smart_accou.Common.{ℕ, ◌≤◌, true, false, arith}
use pimlico_alto_smart_accou.TimedQueue.{
  save_value, save_after_last, last, push, get_max_value, max_from,
}
use pimlico_alto_smart_accou.GasPrice.Oracles.{
  Oracle, new_arbitrum_manager, new_mantle_manager, get_max_l2_base_fee, save_l1_base_fee,
  save_l2_base_fee,
}
use pimlico_alto_smart_accou.GasPrice.PreVerification.{
  L1Component, IsAnswered, AtMost, calc_arbitrum_pre_verification_gas,
  calc_mantle_pre_verification_gas, calc_arbitrum_pre_verification_gas-le,
  calc_mantle_pre_verification_gas-AtMost,
}

abbrev component : L1Component
component = record { gas_for_l1 = 700; l2_base_fee = 20; l1_base_fee_estimate = 30 }

calc_arbitrum_pre_verification_gas-le_example :
    (calc_arbitrum_pre_verification_gas (new_arbitrum_manager 1000) 5 component 50000 true).0
    ≤ (calc_arbitrum_pre_verification_gas (new_arbitrum_manager 1000) 5 component 50000 false).0
unfolding calc_arbitrum_pre_verification_gas get_max_l2_base_fee save_l1_base_fee save_l2_base_fee
    save_value get_max_value save_after_last last push max_from
calc_arbitrum_pre_verification_gas-le_example =
    calc_arbitrum_pre_verification_gas-le (new_arbitrum_manager 1000) 5 component 50000
      (omega arith) (omega arith)

abbrev oracle : Oracle ℕ
oracle = record {
  token_ratio = 4;
  scalar = 10000;
  rollup_data_gas_and_overhead = 900;
  l1_gas_price = 35;
}

oracle-IsAnswered : IsAnswered oracle
oracle-IsAnswered = record {
  token_ratio = omega arith;
  scalar = omega arith;
  rollup_data_gas_and_overhead = omega arith;
  l1_gas_price = omega arith;
}

calc_mantle_pre_verification_gas-AtMost_example :
    AtMost
      (calc_mantle_pre_verification_gas
        (calc_mantle_pre_verification_gas (new_mantle_manager 1000) 5 oracle 3 50000 false).1
        9
        oracle
        3
        50000
        true).0
      (calc_mantle_pre_verification_gas (new_mantle_manager 1000) 5 oracle 3 50000 false).0
calc_mantle_pre_verification_gas-AtMost_example =
    calc_mantle_pre_verification_gas-AtMost (new_mantle_manager 1000) 5 9 oracle oracle 3 50000
      oracle-IsAnswered
