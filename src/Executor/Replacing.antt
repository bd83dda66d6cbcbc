-- ===== src/Executor/Replacing.antt =====
-- `replaceTransaction` of src/executor/executor.ts: a submitted transaction is sent again at a higher
-- price, for those of its operations that still pass the simulation.
pub mod Outbids
pub mod Pools
use pimlico_alto_smart_accou.Common.{
  ℕ, ◌+◌, ◌*◌, ◌/◌, Bool, true, false, ◌&&◌, ◌||◌, not, Option, none, some, List, [], ◌∷◌, map,
  filter, any, find, ltb, ◌==◌, if◌then◌else◌,
}
use pimlico_alto_smart_accou.TimedQueue.{max_big_int}
use pimlico_alto_smart_accou.UserOp.{
  Hex, hex_eq, UserOperation, MempoolUserOperation, CompressedUserOperation, plain, compressed,
  derive_user_operation, call_gas_limit, verification_gas_limit, pre_verification_gas,
}
use pimlico_alto_smart_accou.UserOp.Hashing.{get_user_operation_hash}
use pimlico_alto_smart_accou.Store.{
  TransactionInfo, TransactionRequest, TransactionType, UserOperationInfo, has_hash,
}
use pimlico_alto_smart_accou.GasPrice.{GasPriceParameters, Result, gives, throws}
use pimlico_alto_smart_accou.EventManager.{EventManager, emit_submitted}
use pimlico_alto_smart_accou.Reputation.Interface.{AnyReputationManager}
use pimlico_alto_smart_accou.Senders.{Semaphore}
use pimlico_alto_smart_accou.Executor.{
  Text, UserOperationWithHash, SimulatedOp, sent_op, create_compressed_calldata,
}
use pimlico_alto_smart_accou.Executor.Simulation
use pimlico_alto_smart_accou.Executor.Simulation.{
  CallContext, bulk, BlockTag, Task, Filtered, filtered, escapes, is_live, reads_v06,
  filter_ops_and_estimate_gas,
}
use pimlico_alto_smart_accou.Executor.Sending.{
  SendRequest, SendError, Cause, nonce_too_low, Sent, accepted, rejected,
}
use pimlico_alto_smart_accou.Executor.Bundle.{release, with_reputation}
use pimlico_alto_smart_accou.Executor.Draft.{
  ExecutorConfig, Network, Executor, padded_gas, inner_handle_op_floor,
}
use pimlico_alto_smart_accou.Executor.Renewal.{
  Replaced, already_constructed, compressed_infos, failed, info_op, infos_of, invalid_nonce,
  is_nonce_reason, is_nonce_too_low, local_gas_limit, out_of_fuel, outbid,
  potentially_already_included, replaced, throws_error, uniform_version, with_info, with_new_fees,
}

module _ {S : Type 0} (sem : Semaphore S) (net : Network) where
  abbrev pub infos_with_hashes : ℕ → TransactionInfo → List UserOperationWithHash
  infos_with_hashes chain_id info =
      map
        (λ i. record {
          mempool_user_operation = i.mempool_user_operation;
          user_operation_hash =
              get_user_operation_hash net.viem (info_op i) info.entry_point chain_id;
        })
        info.user_operation_infos

  abbrev emit_all : ℕ → ℕ → List UserOperationInfo → EventManager → EventManager
  emit_all chain_id tx [] m = m
  emit_all chain_id tx (i ∷ infos) m = emit_all chain_id tx infos (
      emit_submitted m net.now (get_user_operation_hash net.viem (info_op i) i.entry_point chain_id)
        tx)

  abbrev pub refreshed : UserOperationInfo → UserOperationInfo
  refreshed i = record i { last_replaced = net.now; referenced_contracts = none }

  -- The request as it is sent.
  abbrev wire_request : ExecutorConfig → ℕ → TransactionRequest → SendRequest
  wire_request c w r =
      let base : SendRequest = record {
        to_address = r.to_address;
        call_data = r.call_data;
        from_address = w;
        gas = r.gas;
        nonce = r.nonce;
        gas_price = none;
        max_fee_per_gas = none;
        max_priority_fee_per_gas = none;
      } in
      if c.legacy_transactions
      then record base { gas_price = some r.max_fee_per_gas }
      else record base {
        max_fee_per_gas = some r.max_fee_per_gas;
        max_priority_fee_per_gas = some r.max_priority_fee_per_gas;
      }

  -- The answer to `sendTransaction`.
  unfoldable pub after_replacing :
      TransactionInfo
      → TransactionRequest
      → List UserOperationInfo
      → Executor S
      → Sent
      → Replaced × Executor S
  after_replacing info r infos x (accepted tx) = (
    replaced (record info {
      transaction_request = r;
      transaction_hash = tx;
      previous_transaction_hashes = info.transaction_hash ∷ info.previous_transaction_hashes;
      last_replaced = net.now;
      user_operation_infos = map refreshed infos;
    }),
    record x {
      mempool = record x.mempool { events = emit_all x.config.chain_id tx infos x.mempool.events };
    },
  )
  after_replacing info r infos x (rejected e) =
      if is_nonce_too_low e.cause
      then (potentially_already_included, x)
      else (failed, release sem net info.executor x)

  abbrev replacing_calldata : TransactionType → Bool → ℕ → ℕ → List UserOperationInfo → Hex
  replacing_calldata TransactionType.default v06 w inflator infos =
      net.encode_handle_ops v06
        (map (λ i. sent_op net.viem.bytes v06 i.mempool_user_operation) infos) w
  replacing_calldata TransactionType.compressed v06 w inflator infos =
      create_compressed_calldata net.viem.bytes net.sizes (compressed_infos infos) inflator

  -- The operations that pass are sent, with a gas limit that is no lower than before.
  unfoldable pub send_replacement :
      Bool
      → ℕ
      → TransactionInfo
      → TransactionRequest
      → ℕ
      → Executor S
      → Option (List UserOperationInfo)
      → Replaced × Executor S
  send_replacement v06 inflator info r estimate x none = (throws_error, x)
  send_replacement v06 inflator info r estimate x (some infos) =
      let gas =
        if x.config.local_gas_limit_calculation
        then local_gas_limit (map info_op infos)
        else estimate in
      let request = record r {
        gas = max_big_int r.gas (padded_gas (inner_handle_op_floor (map info_op infos)) gas);
        call_data = replacing_calldata info.transaction_type v06 info.executor inflator infos;
      } in
      after_replacing info request infos x
        (net.send_transaction (wire_request x.config info.executor request))

  -- What follows the simulation.
  unfoldable pub after_resimulation :
      Bool
      → ℕ
      → TransactionInfo
      → TransactionRequest
      → Executor S
      → Option (Filtered × AnyReputationManager)
      → Replaced × Executor S
  after_resimulation v06 inflator info r x none = (out_of_fuel, x)
  after_resimulation v06 inflator info r x (some (escapes, rep)) =
      (throws_error, with_reputation sem net rep x)
  after_resimulation v06 inflator info r x (some (filtered [] gas, rep)) =
      (failed, release sem net info.executor (with_reputation sem net rep x))
  after_resimulation v06 inflator info r x (some (filtered (op ∷ ops) gas, rep)) =
      let y = with_reputation sem net rep x in
      if not (any (λ o. not (is_nonce_reason o.reason)) (op ∷ ops))
      then (potentially_already_included, y)
      else if not (any is_live (op ∷ ops))
      then (failed, release sem net info.executor y)
      else send_replacement v06 inflator info r gas y
          (infos_of info.user_operation_infos (op ∷ ops))

  abbrev pub replacing_task :
      ExecutorConfig → CallContext → TransactionInfo → TransactionRequest → Task
  replacing_task c context info r = record {
    entry_point = info.entry_point;
    context = context;
    wallet = info.executor;
    nonce = r.nonce;
    max_fee_per_gas = r.max_fee_per_gas;
    max_priority_fee_per_gas = r.max_priority_fee_per_gas;
    block_tag = if c.block_tag_support then some BlockTag.latest else none;
    only_pre1559 = c.legacy_transactions;
    fixed_gas_limit_for_estimation = c.fixed_gas_limit_for_estimation;
  }

  unfoldable pub resimulate :
      Bool
      → ℕ
      → CallContext
      → TransactionInfo
      → TransactionRequest
      → Executor S
      → Replaced × Executor S
  resimulate v06 inflator context info r x = after_resimulation v06 inflator info r x (
      filter_ops_and_estimate_gas net.viem.bytes net.ask (replacing_task x.config context info r)
        (infos_with_hashes x.config.chain_id info) x.mempool.reputation)

  unfoldable pub replace_by_type :
      TransactionType → TransactionInfo → TransactionRequest → Executor S → Replaced × Executor S
  replace_by_type TransactionType.default info r x =
      elim (uniform_version info.user_operation_infos) [
        | none ↦ (throws_error, x)
        | some v06 ↦ resimulate v06 0 Simulation.default info r x
      ]
  replace_by_type TransactionType.compressed info r x = elim x.compression [
    | none ↦ (throws_error, x)
    | some h ↦
        resimulate true h.per_op_inflator_id (bulk h.bundle_bulker_address h.per_op_inflator_id)
          info r x
  ]

  unfoldable pub replace_transaction : TransactionInfo → Executor S → Replaced × Executor S
  replace_transaction info x = elim net.network_gas_price [
    | throws _ ↦ (failed, release sem net info.executor x)
    | gives price ↦
        replace_by_type info.transaction_type info (with_new_fees price info.transaction_request) x
  ]
