-- ===== src/Executor/Simulation.antt =====
-- `filterOpsAndEstimateGas` of src/executor/utils.ts. The node is a parameter: what it answers to
-- each call of `estimateGas`, with the errors already read by viem and zod. The exceptions that leave
-- the function are `escapes`.
pub mod Ends
use pimlico_alto_smart_accou.Common.{
  ℕ, zero, suc, ◌+◌, ◌-◌, Bool, true, false, ◌&&◌, ◌||◌, Option, none, some, List, [], ◌∷◌, ◌++◌,
  map, count, filter, length, get_or_else, is_some, ltb, ◌==◌, if◌then◌else◌, not,
}
use pimlico_alto_smart_accou.UserOp.{
  Hex, UserOperation, MempoolUserOperation, plain, compressed, derive_user_operation, is_version06,
}
use pimlico_alto_smart_accou.UserOp.Packing.{Bytes}
use pimlico_alto_smart_accou.TimedQueue.{scale_big_int_by_percent}
use pimlico_alto_smart_accou.Reputation.{starts_with, Outcome, returned, thrown}
use pimlico_alto_smart_accou.Reputation.Interface.{AnyReputationManager, any_crashed_handle_ops}
use pimlico_alto_smart_accou.Executor.{Text, UserOperationWithHash, SimulatedOp, SentOp, sent_op}

pub data CallContext : Type 0 where
  default : CallContext
  bulk : (bundle_bulker per_op_inflator_id : ℕ) → CallContext

pub data BlockTag : Type 0 where
  latest pending : BlockTag

pub data GasOptions : Type 0 where
  legacy : ℕ → GasOptions
  dynamic : ℕ → ℕ → GasOptions

pub record FailedOp : Type 0 where
  pub op_index : ℕ
  pub reason : Text
  pub inner : Option Text

-- What `decodeErrorResult` makes of the data of an execution error.
pub data Decoded : Type 0 where
  undecodable other_error : Decoded
  decoded : ℕ → Text → Decoded

-- The answer to a call of `estimateGas`. `reverted none` is a revert that neither schema reads. The
-- flags of `execution_failed` say whether the error is wrapped, so that `parseViemError` gives it, and
-- whether its cause is a fee cap below the base fee.
pub data Estimate : Type 0 where
  estimated : ℕ → Estimate
  reverted : Option FailedOp → Estimate
  execution_failed : (wrapped fee_cap : Bool) → Decoded → Estimate
  failed : Estimate

pub record EstimateRequest : Type 0 where
  pub context : CallContext
  pub ops : List SentOp
  pub account : ℕ
  pub nonce : ℕ
  pub block_tag : Option BlockTag
  pub gas : Option ℕ
  pub fees : GasOptions

-- The arguments that do not change.
pub record Task : Type 0 where
  pub entry_point : ℕ
  pub context : CallContext
  pub wallet : ℕ
  pub nonce : ℕ
  pub max_fee_per_gas : ℕ
  pub max_priority_fee_per_gas : ℕ
  pub block_tag : Option BlockTag
  pub only_pre1559 : Bool
  pub fixed_gas_limit_for_estimation : Option ℕ

-- What the loop changes; `calls` counts the calls of the node.
pub record Simulation : Type 0 where
  pub simulated_ops : List SimulatedOp
  pub gas_options : GasOptions
  pub fixed_estimation_gas_limit : Option ℕ
  pub retries_left : ℕ
  pub reputation : AnyReputationManager
  pub calls : ℕ

pub data Filtered : Type 0 where
  filtered : List SimulatedOp → ℕ → Filtered
  escapes : Filtered

pub data Turn : Type 0 where
  returns : Filtered → AnyReputationManager → Turn
  again : Simulation → Turn

abbrev pub is_live : SimulatedOp → Bool
is_live op = not (is_some op.reason)

-- `text.indexOf(part) !== -1`
abbrev pub contains : Text → Text → Bool
contains part [] = starts_with part []
contains part (c ∷ text) = starts_with part (c ∷ text) || contains part text

-- "AA95 out of gas"
abbrev pub out_of_gas : Text
out_of_gas =
    b'A' ∷ b'A' ∷ b'9' ∷ b'5' ∷ b' ' ∷ b'o' ∷ b'u' ∷ b't' ∷ b' ' ∷ b'o' ∷ b'f' ∷ b' ' ∷ b'g' ∷ b'a'
    ∷ b's' ∷ []

-- The reason with the inner error after " - ", where it is not empty.
abbrev pub full_reason : Text → Option Text → Text
full_reason reason none = reason
full_reason reason (some []) = reason
full_reason reason (some (c ∷ inner)) = reason ++ b' ' ∷ b'-' ∷ b' ' ∷ c ∷ inner

abbrev pub kept :
    SimulatedOp
    → Option (UserOperationWithHash × List SimulatedOp)
    → Option (UserOperationWithHash × List SimulatedOp)
kept op none = none
kept op (some (owh, ops)) = some (owh, op ∷ ops)

-- Gives the reason to the live operation at this index; `none` if there is none.
unfoldable pub set_reason :
    ℕ → Text → List SimulatedOp → Option (UserOperationWithHash × List SimulatedOp)
set_reason n reason [] = none
set_reason zero reason (op ∷ ops) =
    let rest = kept op (set_reason zero reason ops) in
    if is_live op then some (op.owh, record op { reason = some reason } ∷ ops) else rest
set_reason (suc n) reason (op ∷ ops) =
    let next = kept op (set_reason n reason ops) in
    let rest = kept op (set_reason (suc n) reason ops) in if is_live op then next else rest

-- `limit || n`
abbrev pub or_default : Option ℕ → ℕ → ℕ
or_default none n = n
or_default (some zero) n = n
or_default (some (suc k)) n = suc k

-- A quarter more, of the default if it is 0.
abbrev pub raised : ℕ → ℕ → ℕ
raised fee otherwise = scale_big_int_by_percent (or_default (some fee) otherwise) 125

abbrev pub raise_fees : Task → GasOptions → GasOptions
raise_fees t (legacy price) = legacy (raised price t.max_fee_per_gas)
raise_fees t (dynamic fee priority) =
    dynamic (raised fee t.max_fee_per_gas) (raised priority t.max_priority_fee_per_gas)

module _ (bytes : Bytes) (ask : ℕ → EstimateRequest → Estimate) (is_user_op_v06 : Bool) where
  abbrev pub request_of : Task → Simulation → EstimateRequest
  request_of t s = record {
    context = t.context;
    ops =
        map (λ op. sent_op bytes is_user_op_v06 op.owh.mempool_user_operation)
          (filter is_live s.simulated_ops);
    account = t.wallet;
    nonce = t.nonce;
    block_tag = t.block_tag;
    gas = s.fixed_estimation_gas_limit;
    fees = s.gas_options;
  }

  -- The operation that a revert names is marked and reported; the function throws where there is no
  -- such operation, or where the report throws.
  abbrev pub blamed :
      Task → Text → Simulation → Option (UserOperationWithHash × List SimulatedOp) → Turn
  blamed t reason s none = returns escapes s.reputation
  blamed t reason s (some (owh, ops)) =
      let (o, reputation) =
        any_crashed_handle_ops bytes.get_address (derive_user_operation owh.mempool_user_operation)
          t.entry_point reason s.reputation in
      elim o [
        | returned _ ↦ again (record s { simulated_ops = ops; reputation = reputation })
        | thrown _ ↦ returns escapes reputation
      ]

  unfoldable pub on_revert : Task → Simulation → Option FailedOp → Turn
  on_revert t s none = returns (filtered [] 0) s.reputation
  on_revert t s (some e) =
      if contains out_of_gas e.reason && ltb 0 s.retries_left
      then again (record s {
        retries_left = s.retries_left - 1;
        fixed_estimation_gas_limit =
            some (scale_big_int_by_percent (or_default s.fixed_estimation_gas_limit 30000000) 110);
      })
      else blamed t (full_reason e.reason e.inner) s
          (set_reason e.op_index (full_reason e.reason e.inner) s.simulated_ops)

  abbrev pub marked : Simulation → Option (UserOperationWithHash × List SimulatedOp) → Turn
  marked s none = returns (filtered [] 0) s.reputation
  marked s (some (owh, ops)) = again (record s { simulated_ops = ops })

  unfoldable pub on_decoded : Simulation → Decoded → Turn
  on_decoded s undecodable = returns (filtered [] 0) s.reputation
  on_decoded s other_error = returns (filtered [] 0) s.reputation
  on_decoded s (decoded op_index reason) = marked s (set_reason op_index reason s.simulated_ops)

  unfoldable pub on_execution_error : Task → Simulation → Bool → Decoded → Turn
  on_execution_error t s fee_cap d =
      if fee_cap && ltb 0 s.retries_left
      then again
          (record s { retries_left = s.retries_left - 1; gas_options = raise_fees t s.gas_options })
      else on_decoded s d

  -- What follows an answer.
  unfoldable pub answer : Task → Simulation → Estimate → Turn
  answer t s (estimated gas) = returns (filtered s.simulated_ops gas) s.reputation
  answer t s (reverted e) = on_revert t s e
  answer t s (execution_failed wrapped fee_cap d) = on_execution_error t s (wrapped && fee_cap) d
  answer t s failed = returns (filtered [] 0) s.reputation

  -- One pass of the loop.
  unfoldable pub attempt : Task → Simulation → Turn
  attempt t s = answer t (record s { calls = suc s.calls }) (ask s.calls (request_of t s))

  -- The loop, on fuel.
  unfoldable pub estimate_loop : ℕ → Task → Simulation → Option (Filtered × AnyReputationManager)
  estimate_loop zero t s = none
  estimate_loop (suc n) t s = elim (ltb 0 (count is_live s.simulated_ops)) [
    | true ↦ elim (attempt t s) [
      | returns f reputation ↦ some (f, reputation)
      | again next ↦ estimate_loop n t next
    ]
    | false ↦ some (filtered s.simulated_ops 0, s.reputation)
  ]

-- `isVersion06` of the cast of an operation; a compressed one has no field `initCode`.
abbrev pub reads_v06 : MempoolUserOperation → Bool
reads_v06 (plain op) = is_version06 op
reads_v06 (compressed _) = false

-- `isUserOpV06`; the first operation is read for it, so there must be one.
unfoldable pub first_version : CallContext → List UserOperationWithHash → Option Bool
first_version (bulk _ _) ops = some true
first_version default [] = none
first_version default (op ∷ ops) = some (reads_v06 op.mempool_user_operation)

abbrev pub start_of : Task → List UserOperationWithHash → AnyReputationManager → Simulation
start_of t ops reputation = record {
  simulated_ops = map (λ owh. record { owh = owh; reason = none }) ops;
  gas_options =
      if t.only_pre1559
      then legacy t.max_fee_per_gas
      else dynamic t.max_fee_per_gas t.max_priority_fee_per_gas;
  fixed_estimation_gas_limit = t.fixed_gas_limit_for_estimation;
  retries_left = 5;
  reputation = reputation;
  calls = 0;
}

-- Each pass uses up a retry or an operation, so there are at most five more passes than operations,
-- and one that sees no operation left.
unfoldable pub filter_ops_and_estimate_gas :
    Bytes
    → (ℕ → EstimateRequest → Estimate)
    → Task
    → List UserOperationWithHash
    → AnyReputationManager
    → Option (Filtered × AnyReputationManager)
filter_ops_and_estimate_gas bytes ask t ops reputation = elim (first_version t.context ops) [
  | none ↦ some (escapes, reputation)
  | some v06 ↦ estimate_loop bytes ask v06 (length ops + 6) t (start_of t ops reputation)
]
