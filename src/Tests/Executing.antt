-- ===== src/Tests/Executing.antt =====
-- The theorems on the executor at concrete inputs.
use pimlico_alto_smart_accou.Common.{
  ◌+◌, leb, ltb, ◌&&◌, ℕ, zero, suc, ◌≡◌, refl, true, false, none, some, [], ◌∷◌, List,
}
use pimlico_alto_smart_accou.UserOp.{UserOperation, derive_user_operation}
use pimlico_alto_smart_accou.Store.{TransactionInfo, TransactionType}
use pimlico_alto_smart_accou.GasPrice.{gives}
use pimlico_alto_smart_accou.Reputation.Interface.{AnyReputationManager, null_manager}
use pimlico_alto_smart_accou.Senders.{get_wallet, hand_out}
use pimlico_alto_smart_accou.Executor.{UserOperationWithHash}
use pimlico_alto_smart_accou.Executor.Simulation
use pimlico_alto_smart_accou.Executor.Simulation.{
  EstimateRequest, Estimate, estimated, reverted, Task, Filtered, filter_ops_and_estimate_gas,
}
use pimlico_alto_smart_accou.Executor.Simulation.Ends.{Accounted, filter_ops_and_estimate_gas-ends}
use pimlico_alto_smart_accou.Executor.Flushing.{
  flush_stuck_transaction, flushes, flush_stuck_transaction-flushes,
}
use pimlico_alto_smart_accou.Executor.Sending.{Wire, accepted}
use pimlico_alto_smart_accou.Executor.Bundle.{bundle, with_hashes}
use pimlico_alto_smart_accou.Executor.Draft.{Network, Executor}
use pimlico_alto_smart_accou.Executor.Bundle.Answers.{Answers, bundle-Answers}
use pimlico_alto_smart_accou.Executor.Replacing.{replace_transaction}
use pimlico_alto_smart_accou.Executor.Replacing.Outbids.{Replaces, replace_transaction-Replaces}
use pimlico_alto_smart_accou.Tests.Samples.{
  sample_viem, sample_bytes, sample_op, sample_info, sample_mempool,
}
use pimlico_alto_smart_accou.Tests.Wallets.{counter, two_wallets}

-- The first simulation blames the second operation, and the next one succeeds.
abbrev answers : ℕ → EstimateRequest → Estimate
answers zero r =
    reverted (some (record { op_index = 1; reason = b'A' ∷ b'A' ∷ b'2' ∷ []; inner = none }))
answers (suc n) r = estimated 50000

abbrev sample_wire : Wire
sample_wire = record {
  prepare = λ r. some r;
  send = λ n r. accepted 900;
  pending_count = λ n. some 7;
}

abbrev pub sample_network : Network
sample_network = record {
  viem = sample_viem;
  sizes = record { number_to_hex = λ n k. []; byte_length = λ h. 0 };
  encode_handle_ops = λ v06 ops w. [];
  network_gas_price = gives (record { max_fee_per_gas = 30; max_priority_fee_per_gas = 2 });
  transaction_count = some 7;
  ask = answers;
  wire = sample_wire;
  send_transaction = λ r. accepted 901;
  now = 60;
}

abbrev pub sample_executor : Executor ℕ
sample_executor = record {
  config = record {
    chain_id = 1;
    legacy_transactions = false;
    block_tag_support = true;
    fixed_gas_limit_for_estimation = none;
    no_profit_bundling = false;
    local_gas_limit_calculation = false;
  };
  mempool = sample_mempool true [] 0;
  senders = two_wallets;
  compression = none;
}

abbrev task : Task
task = record {
  entry_point = 5;
  context = Simulation.default;
  wallet = 7;
  nonce = 7;
  max_fee_per_gas = 30;
  max_priority_fee_per_gas = 2;
  block_tag = none;
  only_pre1559 = false;
  fixed_gas_limit_for_estimation = none;
}

abbrev two_owhs : List UserOperationWithHash
two_owhs =
    record { mempool_user_operation = sample_op 3 0 100; user_operation_hash = 41 }
    ∷ record { mempool_user_operation = sample_op 4 0 100; user_operation_hash = 42 }
    ∷ []

filter_ops_and_estimate_gas-ends_example :
    (f : Filtered) × (rep : AnyReputationManager) × (filter_ops_and_estimate_gas sample_bytes
        answers task two_owhs null_manager
      ≡ some (f, rep))
    × Accounted sample_bytes answers true task two_owhs f
unfolding Simulation.first_version
filter_ops_and_estimate_gas-ends_example =
    filter_ops_and_estimate_gas-ends sample_bytes answers task two_owhs null_manager true refl

abbrev two_ops : List UserOperation
two_ops = derive_user_operation (sample_op 3 0 100) ∷ derive_user_operation (sample_op 4 0 100) ∷ []

bundle-Answers_example :
    Answers counter
      (with_hashes counter sample_network 5 1 two_ops)
      7
      (get_wallet counter two_wallets).1
      (bundle counter sample_network 5 two_ops sample_executor)
unfolding get_wallet hand_out
bundle-Answers_example = bundle-Answers counter sample_network 5 7 two_ops sample_executor refl

abbrev pub sample_transaction : TransactionInfo
sample_transaction = record {
  transaction_type = TransactionType.default;
  transaction_hash = 800;
  previous_transaction_hashes = [];
  entry_point = 5;
  is_version06 = true;
  transaction_request = record {
    to_address = 5;
    call_data = [];
    gas = 60000;
    max_fee_per_gas = 20;
    max_priority_fee_per_gas = 9;
    nonce = 7;
  };
  executor = 7;
  user_operation_infos = sample_info 1 3 0 100 ∷ [];
  last_replaced = 0;
  first_submitted = 0;
  times_potentially_included = 0;
}

replace_transaction-Replaces_example :
    Replaces counter sample_network sample_transaction two_wallets
      (replace_transaction counter sample_network sample_transaction sample_executor)
replace_transaction-Replaces_example =
    replace_transaction-Replaces counter sample_network sample_transaction sample_executor

flush_stuck_transaction-flushes_example :
    flushes 6 (flush_stuck_transaction 7 30 5 8) ≡ leb (5 + 2) 8 && leb 5 6 && ltb 6 8
flush_stuck_transaction-flushes_example = flush_stuck_transaction-flushes 7 30 5 8 6
