-- ===== src/Executor/Bundle.antt =====
-- `bundle` of src/executor/executor.ts, with the state of the executor. The network is a parameter;
-- the call of `getWallet` may wait, and then nothing else happens. Other handlers are taken to leave
-- the executor alone between the awaited calls.
pub mod Compressed
pub mod Answers
use pimlico_alto_smart_accou.Common.{
  ℕ, ◌+◌, ◌/◌, Bool, true, false, ◌&&◌, not, Option, none, some, List, [], ◌∷◌, map, filter, any,
  ltb, if◌then◌else◌,
}
use pimlico_alto_smart_accou.TimedQueue.{max_big_int}
use pimlico_alto_smart_accou.UserOp.{
  Hex, UserOperation, plain, derive_user_operation, is_version06, call_gas_limit,
  verification_gas_limit, get_required_prefund,
}
use pimlico_alto_smart_accou.UserOp.Hashing.{Encoding, get_user_operation_hash}
use pimlico_alto_smart_accou.Store.{TransactionInfo, TransactionType, UserOperationInfo}
use pimlico_alto_smart_accou.GasPrice.{GasPriceParameters, Result, gives, throws}
use pimlico_alto_smart_accou.EventManager.{EventManager, emit_submitted}
use pimlico_alto_smart_accou.Reputation.Interface.{AnyReputationManager}
use pimlico_alto_smart_accou.Mempool.{Mempool}
use pimlico_alto_smart_accou.Senders.{
  Semaphore, SenderManager, WalletResult, wallet, no_more_wallets, waits, get_wallet,
  mark_wallet_processed,
}
use pimlico_alto_smart_accou.Executor.{
  Sizes, UserOperationWithHash, SimulatedOp, SentOp, sent_op, Failure, Reason, said, absent,
  internal_failure, no_bundling_parameters, insufficient_funds_error, BundleResult, failure,
  resubmit, simulated_ops_to_results, Text,
}
use pimlico_alto_smart_accou.Executor.Simulation
use pimlico_alto_smart_accou.Executor.Simulation.{
  EstimateRequest, Estimate, CallContext, Task, Filtered, filtered, escapes, BlockTag, is_live,
  filter_ops_and_estimate_gas,
}
use pimlico_alto_smart_accou.Executor.Sending.{
  Wire, SendRequest, SendError, Cause, insufficient_funds, Sent, Sending, hash, thrown,
  send_handle_ops_transaction,
}
use pimlico_alto_smart_accou.Executor.Draft.{
  Bundled, CompressionHandler, Draft, Executor, ExecutorConfig, Network, all_failure,
  all_have_version, all_resubmit, common_version, derived, emit_submitted_all, failure_of,
  inner_handle_op_floor, is_insufficient, is_insufficient_cause, live_ops, out_of_fuel, padded_gas,
  reason_of, results, simulated_failures, throws_error, total_beneficiary_fees, waits_for_wallet,
  with_fees,
}

module _ {S : Type 0} (sem : Semaphore S) (net : Network) where
  abbrev pub release : ℕ → Executor S → Executor S
  release w x = record x { senders = mark_wallet_processed sem w x.senders }

  abbrev pub calldata_of : Bool → List UserOperationWithHash → ℕ → Hex
  calldata_of v06 ops w =
      net.encode_handle_ops v06
        (map (λ owh. sent_op net.viem.bytes v06 owh.mempool_user_operation) ops) w

  abbrev pub info_at : ℕ → UserOperationWithHash → UserOperationInfo
  info_at entry_point owh = record {
    mempool_user_operation = owh.mempool_user_operation;
    entry_point = entry_point;
    user_operation_hash = owh.user_operation_hash;
    last_replaced = net.now;
    first_submitted = net.now;
    referenced_contracts = none;
  }

  -- The transaction as it is recorded: with the nonce, the fees and the gas from before the sending.
  abbrev pub transaction_info :
      TransactionType
      → Bool
      → Draft
      → ℕ
      → Hex
      → ℕ
      → ℕ
      → List UserOperationWithHash
      → TransactionInfo
  transaction_info type v06 d to call_data gas tx live = record {
    transaction_type = type;
    transaction_hash = tx;
    previous_transaction_hashes = [];
    entry_point = d.entry_point;
    is_version06 = v06;
    transaction_request = record {
      to_address = to;
      call_data = call_data;
      gas = gas;
      max_fee_per_gas = d.price.max_fee_per_gas;
      max_priority_fee_per_gas = d.price.max_priority_fee_per_gas;
      nonce = d.nonce;
    };
    executor = d.wallet;
    user_operation_infos = map (info_at d.entry_point) live;
    last_replaced = net.now;
    first_submitted = net.now;
    times_potentially_included = 0;
  }

  -- The end of `bundle`, when the transaction is sent or is not.
  unfoldable pub after_sending :
      Bool → Draft → List SimulatedOp → ℕ → Executor S → Sending × Mempool → Bundled × Executor S
  after_sending v06 d ops gas x (hash tx, m) = (
    results (
        simulated_ops_to_results net.now
          (transaction_info TransactionType.default v06 d d.entry_point
            (calldata_of v06 (live_ops ops) d.wallet) gas tx (live_ops ops))
          ops),
    record x {
      mempool = record m { events = emit_submitted_all net.now tx (live_ops ops) m.events };
    },
  )
  after_sending v06 d ops gas x (thrown e, m) =
      let y = release d.wallet (record x { mempool = m }) in
      if is_insufficient e
      then (results (all_resubmit d.entry_point insufficient_funds_error (live_ops ops)), y)
      else (results (all_failure d.entry_point internal_failure d.ops), y)

  unfoldable pub submit_bundle :
      Bool → Draft → List SimulatedOp → ℕ → Executor S → Bundled × Executor S
  submit_bundle v06 d ops estimate x =
      let live = live_ops ops in
      let gas = padded_gas (inner_handle_op_floor (map derived live)) estimate in
      after_sending v06 d ops gas x (
        send_handle_ops_transaction net.viem net.now net.wire
          (with_fees x.config d.price (total_beneficiary_fees (map derived live)) gas (record {
            to_address = d.entry_point;
            call_data = calldata_of v06 live d.wallet;
            from_address = d.wallet;
            gas = gas;
            nonce = d.nonce;
            gas_price = none;
            max_fee_per_gas = none;
            max_priority_fee_per_gas = none;
          }))
          x.mempool)

  abbrev pub with_reputation : AnyReputationManager → Executor S → Executor S
  with_reputation r x = record x { mempool = record x.mempool { reputation = r } }

  -- What follows the simulation. An exception of the simulation leaves `bundle` with the wallet taken.
  unfoldable pub after_simulation :
      Bool → Draft → Executor S → Option (Filtered × AnyReputationManager) → Bundled × Executor S
  after_simulation v06 d x none = (out_of_fuel, x)
  after_simulation v06 d x (some (escapes, r)) = (throws_error, with_reputation r x)
  after_simulation v06 d x (some (filtered [] gas, r)) = (
    results (all_failure d.entry_point internal_failure d.ops),
    release d.wallet (with_reputation r x),
  )
  after_simulation v06 d x (some (filtered (op ∷ ops) gas, r)) =
      if any is_live (op ∷ ops) then submit_bundle v06 d (op ∷ ops) gas (with_reputation r x) else (
        results (simulated_failures d.entry_point (op ∷ ops)),
        release d.wallet (with_reputation r x),
      )

  abbrev pub task_of : ExecutorConfig → CallContext → Draft → Task
  task_of c context d = record {
    entry_point = d.entry_point;
    context = context;
    wallet = d.wallet;
    nonce = d.nonce;
    max_fee_per_gas = d.price.max_fee_per_gas;
    max_priority_fee_per_gas = d.price.max_priority_fee_per_gas;
    block_tag = if c.block_tag_support then some BlockTag.pending else none;
    only_pre1559 = c.legacy_transactions;
    fixed_gas_limit_for_estimation = c.fixed_gas_limit_for_estimation;
  }

  -- `tryGetNetworkGasPrice` and `getTransactionCount`, which can throw.
  abbrev pub parameters_of : Result GasPriceParameters → Option ℕ → Option (GasPriceParameters × ℕ)
  parameters_of (gives price) (some nonce) = some (price, nonce)
  parameters_of _ _ = none

  unfoldable pub bundle_with :
      ℕ → ℕ → Bool → List UserOperationWithHash → Executor S → Bundled × Executor S
  bundle_with entry_point w v06 ops x =
      elim (parameters_of net.network_gas_price net.transaction_count) [
        | none ↦ (results (all_resubmit entry_point no_bundling_parameters ops), release w x)
        | some (price, nonce) ↦
            let d : Draft = record {
              entry_point = entry_point;
              wallet = w;
              price = price;
              nonce = nonce;
              ops = ops;
            } in
            after_simulation v06 d x (
              filter_ops_and_estimate_gas net.viem.bytes net.ask
                (task_of x.config Simulation.default d) ops x.mempool.reputation)
      ]

  abbrev pub with_hashes : ℕ → ℕ → List UserOperation → List UserOperationWithHash
  with_hashes entry_point chain_id ops =
      map
        (λ op. record {
          mempool_user_operation = plain op;
          user_operation_hash = get_user_operation_hash net.viem op entry_point chain_id;
        })
        ops

  unfoldable pub bundle : ℕ → List UserOperation → Executor S → Bundled × Executor S
  bundle entry_point ops x =
      let (r, senders) = get_wallet sem x.senders in
      let y = record x { senders = senders } in
      elim r [
        | waits ↦ (waits_for_wallet, y)
        | no_more_wallets ↦ (throws_error, y)
        | wallet w ↦ elim (common_version ops) [
          | none ↦ (throws_error, y)
          | some v06 ↦
              bundle_with entry_point w v06 (with_hashes entry_point x.config.chain_id ops) y
        ]
      ]
