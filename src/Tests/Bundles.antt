-- ===== src/Tests/Bundles.antt =====
-- The theorems on `process` at concrete inputs.
use pimlico_alto_smart_accou.Common.{◌^◌, ◌≤◌, ◌≡◌, refl, true, some, List, [], ◌∷◌, ◌⊎◌, length}
use pimlico_alto_smart_accou.UserOp.{
  sender, nonce, derive_user_operation, call_gas_limit, verification_gas_limit,
  pre_verification_gas, paymaster_of, factory_of, get_address_from_init_code_or_paymaster_and_data,
}
use pimlico_alto_smart_accou.Store.{UserOperationInfo}
use pimlico_alto_smart_accou.Reputation.{get_status}
use pimlico_alto_smart_accou.Reputation.Interface.{live, any_get_status, any_decrease_count}
use pimlico_alto_smart_accou.Mempool.{Mempool, get_known_entities}
use pimlico_alto_smart_accou.Mempool.Skipping.{
  Outside, Bundle, should_skip, entity_statuses, screen, validate_and_charge, revalidate,
  charge_paymaster,
}
use pimlico_alto_smart_accou.Mempool.Skipping.Config.{KeepsConfig}
use pimlico_alto_smart_accou.Mempool.Skipping.Pools.{KeepsStore}
use pimlico_alto_smart_accou.Mempool.Skipping.Taken.{Sound, should_skip-Sound}
use pimlico_alto_smart_accou.Mempool.Bundling.{Sort, process, process_loop, take_operation}
use pimlico_alto_smart_accou.Mempool.Bundling.Budget.{total_gas, process-within_gas}
use pimlico_alto_smart_accou.Mempool.Bundling.Senders.{NewSenders, process-NewSenders}
use pimlico_alto_smart_accou.Tests.Samples.{sample_viem, sample_info, sample_mempool}
use pimlico_alto_smart_accou.Tests.Entities.{start}

-- Every validation succeeds, and nothing else runs meanwhile.
abbrev pub calm : Outside
calm = record {
  viem = sample_viem;
  get_nonce = λ e a k m. (some 0, m);
  validate_user_operation =
      λ op ops e r m. (some (record { storage_addresses = []; prefund = 7 }), m);
  balance_of = λ e a m. (some 10, m);
}

calm-KeepsConfig : KeepsConfig calm
calm-KeepsConfig = record {
  in_get_nonce = λ e a k m. refl;
  in_validate = λ op ops e r m. refl;
  in_balance_of = λ e a m. refl;
}

abbrev pub as_it_is : Sort
as_it_is compare infos = infos

-- Two operations of sender 3 and one of sender 4, 450 of gas each.
abbrev three_ops : Mempool
three_ops =
    let m : Mempool =
      sample_mempool true
        (sample_info 41 3 0 100 ∷ sample_info 42 3 (2 ^ 64) 100 ∷ sample_info 43 4 0 100 ∷ []) 3 in
    record m { reputation = live start }

abbrev expected : List UserOperationInfo
expected = sample_info 41 3 0 100 ∷ sample_info 43 4 0 100 ∷ []

process_runs : (process calm as_it_is three_ops 2000 (some 1)).0 ≡ some expected
unfolding process process_loop should_skip entity_statuses any_get_status get_status screen
    validate_and_charge revalidate charge_paymaster paymaster_of factory_of take_operation
    get_address_from_init_code_or_paymaster_and_data sender nonce derive_user_operation
    call_gas_limit verification_gas_limit pre_verification_gas get_known_entities any_decrease_count
process_runs = refl

process-within_gas_example : (total_gas expected ≤ 2000) ⊎ (length expected ≤ 1)
process-within_gas_example =
    process-within_gas calm as_it_is three_ops 2000 (some 1) expected process_runs

process-NewSenders_example : NewSenders [] expected
process-NewSenders_example =
    process-NewSenders calm as_it_is three_ops 2000 (some 1) expected calm-KeepsConfig (refl, refl)
      process_runs

pub calm-KeepsStore : KeepsStore calm
calm-KeepsStore = record {
  in_get_nonce = λ e a k m. refl;
  in_validate = λ op ops e r m. refl;
  in_balance_of = λ e a m. refl;
}

abbrev first_bundle : Bundle
first_bundle = record {
  paymaster_deposit = [];
  staked_entity_count = [];
  known_entities = record { senders = 3 ∷ []; paymasters = []; factories = [] };
  senders = [];
}

should_skip-Sound_example :
    Sound calm
      (sample_info 41 3 0 100)
      first_bundle
      (should_skip calm (sample_info 41 3 0 100) first_bundle three_ops).1
      three_ops
unfolding should_skip entity_statuses any_get_status get_status screen validate_and_charge
    revalidate charge_paymaster paymaster_of factory_of
    get_address_from_init_code_or_paymaster_and_data sender nonce derive_user_operation
should_skip-Sound_example =
    should_skip-Sound calm (sample_info 41 3 0 100) first_bundle three_ops refl refl
