-- ===== src/Executor/Bundle/Compressed.antt =====
-- `bundleCompressed` of src/executor/executor.ts.
use pimlico_alto_smart_accou.Common.{
  ℕ, ◌+◌, true, Option, none, some, List, [], ◌∷◌, map, any, not, if◌then◌else◌,
}
use pimlico_alto_smart_accou.UserOp.{
  Hex, CompressedUserOperation, MempoolUserOperation, plain, compressed,
}
use pimlico_alto_smart_accou.UserOp.Hashing.{get_user_operation_hash}
use pimlico_alto_smart_accou.Store.{TransactionType}
use pimlico_alto_smart_accou.GasPrice.{GasPriceParameters}
use pimlico_alto_smart_accou.Reputation.Interface.{AnyReputationManager}
use pimlico_alto_smart_accou.Senders.{Semaphore, wallet, no_more_wallets, waits, get_wallet}
use pimlico_alto_smart_accou.Executor.{
  UserOperationWithHash, SimulatedOp, internal_failure, no_bundling_parameters,
  simulated_ops_to_results, create_compressed_calldata,
}
use pimlico_alto_smart_accou.Executor.Simulation.{
  bulk, Filtered, filtered, escapes, is_live, filter_ops_and_estimate_gas,
}
use pimlico_alto_smart_accou.Executor.Sending.{SendRequest, Sent, accepted, rejected}
use pimlico_alto_smart_accou.Executor.Bundle.{
  transaction_info, task_of, parameters_of, release, with_reputation,
}
use pimlico_alto_smart_accou.Executor.Draft.{
  ExecutorConfig, CompressionHandler, Network, Executor, Bundled, results, throws_error,
  waits_for_wallet, out_of_fuel, Draft, all_resubmit, all_failure, simulated_failures, live_ops,
  emit_submitted_all,
}

-- The compressed operations of a list.
abbrev pub compressed_of : List UserOperationWithHash → List CompressedUserOperation
compressed_of [] = []
compressed_of (owh ∷ ops) = add_compressed owh.mempool_user_operation (compressed_of ops)
  where
    add_compressed :
        MempoolUserOperation → List CompressedUserOperation → List CompressedUserOperation
    add_compressed (compressed op) rest = op ∷ rest
    add_compressed (plain _) rest = rest

-- The fees of `sendTransaction`.
abbrev pub plain_fees : ExecutorConfig → GasPriceParameters → SendRequest → SendRequest
plain_fees c price r =
    if c.legacy_transactions
    then record r { gas_price = some price.max_fee_per_gas }
    else record r {
      max_fee_per_gas = some price.max_fee_per_gas;
      max_priority_fee_per_gas = some price.max_priority_fee_per_gas;
    }

module _ {S : Type 0} (sem : Semaphore S) (net : Network) where
  abbrev pub bulk_data : CompressionHandler → List UserOperationWithHash → Hex
  bulk_data h ops =
      create_compressed_calldata net.viem.bytes net.sizes (compressed_of ops) h.per_op_inflator_id

  unfoldable pub after_sending_compressed :
      CompressionHandler → Draft → List SimulatedOp → ℕ → Executor S → Sent → Bundled × Executor S
  after_sending_compressed h d ops gas x (accepted tx) = (
    results (
        simulated_ops_to_results net.now
          (transaction_info sem net TransactionType.compressed true d h.bundle_bulker_address
            (bulk_data h d.ops) gas tx (live_ops ops))
          ops),
    record x {
      mempool = record x.mempool {
        events = emit_submitted_all net.now tx (live_ops ops) x.mempool.events;
      };
    },
  )
  after_sending_compressed h d ops gas x (rejected e) = (
    results (all_failure d.entry_point internal_failure (live_ops ops)),
    release sem net d.wallet x,
  )

  unfoldable pub submit_compressed :
      CompressionHandler → Draft → List SimulatedOp → ℕ → Executor S → Bundled × Executor S
  submit_compressed h d ops gas x = after_sending_compressed h d ops gas x (
      net.send_transaction (
        plain_fees x.config d.price (record {
          to_address = h.bundle_bulker_address;
          call_data = bulk_data h (live_ops ops);
          from_address = d.wallet;
          gas = gas;
          nonce = d.nonce;
          gas_price = none;
          max_fee_per_gas = none;
          max_priority_fee_per_gas = none;
        })))

  -- One operation that fails the simulation is enough for all to fail.
  unfoldable pub after_compressed_simulation :
      CompressionHandler
      → Draft
      → Executor S
      → Option (Filtered × AnyReputationManager)
      → Bundled × Executor S
  after_compressed_simulation h d x none = (out_of_fuel, x)
  after_compressed_simulation h d x (some (escapes, r)) =
      (throws_error, with_reputation sem net r x)
  after_compressed_simulation h d x (some (filtered [] gas, r)) = (
    results (all_failure d.entry_point internal_failure d.ops),
    release sem net d.wallet (with_reputation sem net r x),
  )
  after_compressed_simulation h d x (some (filtered (op ∷ ops) gas, r)) =
      if any (λ o. not (is_live o)) (op ∷ ops)
      then (
        results (simulated_failures d.entry_point (op ∷ ops)),
        release sem net d.wallet (with_reputation sem net r x),
      )
      else submit_compressed h d (op ∷ ops) (gas + 10000) (with_reputation sem net r x)

  unfoldable pub bundle_compressed_with :
      CompressionHandler → ℕ → ℕ → List UserOperationWithHash → Executor S → Bundled × Executor S
  bundle_compressed_with h entry_point w ops x =
      elim (parameters_of sem net net.network_gas_price net.transaction_count) [
        | none ↦
            (results (all_resubmit entry_point no_bundling_parameters ops), release sem net w x)
        | some (price, nonce) ↦
            let d : Draft = record {
              entry_point = entry_point;
              wallet = w;
              price = price;
              nonce = nonce;
              ops = ops;
            } in
            after_compressed_simulation h d x (
              filter_ops_and_estimate_gas net.viem.bytes net.ask
                (task_of sem net x.config (bulk h.bundle_bulker_address h.per_op_inflator_id) d) ops
                x.mempool.reputation)
      ]

  abbrev pub inflated_hashes : ℕ → ℕ → List CompressedUserOperation → List UserOperationWithHash
  inflated_hashes entry_point chain_id ops =
      map
        (λ op. record {
          mempool_user_operation = compressed op;
          user_operation_hash =
              get_user_operation_hash net.viem op.inflated_op entry_point chain_id;
        })
        ops

  unfoldable pub bundle_compressed :
      ℕ → List CompressedUserOperation → Executor S → Bundled × Executor S
  bundle_compressed entry_point ops x = elim x.compression [
    | none ↦ (throws_error, x)
    | some h ↦
        let (r, senders) = get_wallet sem x.senders in
        let y = record x { senders = senders } in
        elim r [
          | waits ↦ (waits_for_wallet, y)
          | no_more_wallets ↦ (throws_error, y)
          | wallet w ↦
              bundle_compressed_with h entry_point w
                (inflated_hashes entry_point x.config.chain_id ops) y
        ]
  ]
