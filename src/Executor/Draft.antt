-- ===== src/Executor/Draft.antt =====
-- The state of the executor, what the network answers it, and the parts of a bundle
-- (src/executor/executor.ts).
use pimlico_alto_smart_accou.Common.{
  ℕ, ◌+◌, ◌/◌, Bool, true, false, not, Option, none, some, List, [], ◌∷◌, map, filter, any, ltb,
  if◌then◌else◌,
}
use pimlico_alto_smart_accou.TimedQueue.{max_big_int}
use pimlico_alto_smart_accou.UserOp.{
  Hex, UserOperation, derive_user_operation, is_version06, call_gas_limit, verification_gas_limit,
  get_required_prefund,
}
use pimlico_alto_smart_accou.UserOp.Hashing.{Encoding}
use pimlico_alto_smart_accou.GasPrice.{GasPriceParameters, Result}
use pimlico_alto_smart_accou.EventManager.{EventManager, emit_submitted}
use pimlico_alto_smart_accou.Mempool.{Mempool}
use pimlico_alto_smart_accou.Senders.{SenderManager}
use pimlico_alto_smart_accou.Executor.{
  Sizes, UserOperationWithHash, SimulatedOp, SentOp, Failure, Reason, said, absent, BundleResult,
  failure, resubmit, Text,
}
use pimlico_alto_smart_accou.Executor.Simulation.{EstimateRequest, Estimate, is_live}
use pimlico_alto_smart_accou.Executor.Sending.{
  Wire, SendRequest, SendError, Cause, insufficient_funds, Sent,
}

pub record ExecutorConfig : Type 0 where
  pub chain_id : ℕ
  pub legacy_transactions : Bool
  pub block_tag_support : Bool
  pub fixed_gas_limit_for_estimation : Option ℕ
  pub no_profit_bundling : Bool
  pub local_gas_limit_calculation : Bool

pub record CompressionHandler : Type 0 where
  pub bundle_bulker_address : ℕ
  pub per_op_inflator_id : ℕ

-- What the calls of one handler are answered, at the time `now`.
pub record Network : Type 0 where
  pub viem : Encoding
  pub sizes : Sizes
  pub encode_handle_ops : Bool → List SentOp → ℕ → Hex
  pub network_gas_price : Result GasPriceParameters
  pub transaction_count : Option ℕ
  pub ask : ℕ → EstimateRequest → Estimate
  pub wire : Wire
  pub send_transaction : SendRequest → Sent
  pub now : ℕ

pub record Executor (S : Type 0) : Type 0 where
  pub config : ExecutorConfig
  pub mempool : Mempool
  pub senders : SenderManager S
  pub compression : Option CompressionHandler

-- What a bundle comes to. `out_of_fuel` is never the case.
pub data Bundled : Type 0 where
  results : List BundleResult → Bundled
  throws_error waits_for_wallet out_of_fuel : Bundled

abbrev pub failure_of : ℕ → Reason → UserOperationWithHash → Failure
failure_of entry_point reason owh = record {
  reason = reason;
  user_op_hash = owh.user_operation_hash;
  entry_point = entry_point;
  user_operation = owh.mempool_user_operation;
}

abbrev pub all_resubmit : ℕ → Reason → List UserOperationWithHash → List BundleResult
all_resubmit entry_point reason ops = map (λ owh. resubmit (failure_of entry_point reason owh)) ops

abbrev pub all_failure : ℕ → Reason → List UserOperationWithHash → List BundleResult
all_failure entry_point reason ops = map (λ owh. failure (failure_of entry_point reason owh)) ops

-- `reason as string`
abbrev pub reason_of : Option Text → Reason
reason_of none = absent
reason_of (some reason) = said reason

abbrev pub simulated_failures : ℕ → List SimulatedOp → List BundleResult
simulated_failures entry_point ops =
    map (λ op. failure (failure_of entry_point (reason_of op.reason) op.owh)) ops

abbrev pub live_ops : List SimulatedOp → List UserOperationWithHash
live_ops ops = map (λ op. op.owh) (filter is_live ops)

abbrev pub all_have_version : Bool → List UserOperation → Bool
all_have_version true ops = not (any (λ op. not (is_version06 op)) ops)
all_have_version false ops = not (any is_version06 ops)

-- The version that all operations have; `none` where the code throws.
unfoldable pub common_version : List UserOperation → Option Bool
common_version [] = none
common_version (op ∷ ops) =
    if all_have_version (is_version06 op) (op ∷ ops) then some (is_version06 op) else none

-- `innerHandleOpFloor`
unfoldable pub inner_handle_op_floor : List UserOperation → ℕ
inner_handle_op_floor [] = 0
inner_handle_op_floor (op ∷ ops) =
    call_gas_limit op + verification_gas_limit op + 5000 + inner_handle_op_floor ops

unfoldable pub total_beneficiary_fees : List UserOperation → ℕ
total_beneficiary_fees [] = 0
total_beneficiary_fees (op ∷ ops) = get_required_prefund op + total_beneficiary_fees ops

-- The gas limit of the transaction for an estimate.
abbrev pub padded_gas : ℕ → ℕ → ℕ
padded_gas floor gas = (if ltb gas floor then gas + floor else gas) + 10000

abbrev pub derived : UserOperationWithHash → UserOperation
derived owh = derive_user_operation owh.mempool_user_operation

abbrev pub emit_submitted_all : ℕ → ℕ → List UserOperationWithHash → EventManager → EventManager
emit_submitted_all now tx [] m = m
emit_submitted_all now tx (owh ∷ ops) m =
    emit_submitted_all now tx ops (emit_submitted m now owh.user_operation_hash tx)

-- The fees of the transaction, of which one form is left out.
unfoldable pub with_fees : ExecutorConfig → GasPriceParameters → ℕ → ℕ → SendRequest → SendRequest
with_fees c price fees gas r =
    if c.legacy_transactions
    then record r {
      gas_price = some (if c.no_profit_bundling then fees / gas else price.max_fee_per_gas);
    }
    else record r {
      max_fee_per_gas = some (
          if c.no_profit_bundling
          then max_big_int (fees / gas) price.max_fee_per_gas
          else price.max_fee_per_gas);
      max_priority_fee_per_gas = some price.max_priority_fee_per_gas;
    }

abbrev pub is_insufficient_cause : Option Cause → Bool
is_insufficient_cause (some insufficient_funds) = true
is_insufficient_cause _ = false

-- `parseViemError(err) instanceof InsufficientFundsError`
abbrev pub is_insufficient : Option SendError → Bool
is_insufficient none = false
is_insufficient (some e) = is_insufficient_cause e.cause

-- The bundle that is being made: its wallet, its prices, its nonce and its operations.
pub record Draft : Type 0 where
  pub entry_point : ℕ
  pub wallet : ℕ
  pub price : GasPriceParameters
  pub nonce : ℕ
  pub ops : List UserOperationWithHash
