-- ===== src/Executor.antt =====
-- What the executor shares, from src/executor/utils.ts and the types it uses: operations with their
-- hashes, the calls of `handleOps`, and the results of a bundle. Texts are lists of character codes.
pub mod Simulation
pub mod Sending
pub mod Bundle
pub mod Draft
pub mod Replacing
pub mod Renewal
pub mod Flushing
use pimlico_alto_smart_accou.Common.{
  ℕ, Bool, true, false, Option, none, some, List, [], ◌∷◌, ◌++◌, map, length, if◌then◌else◌,
}
use pimlico_alto_smart_accou.UserOp.{
  Hex, UserOperation, v06, v07, MempoolUserOperation, plain, compressed, CompressedUserOperation,
}
use pimlico_alto_smart_accou.UserOp.Packing.{Bytes, PackedUserOperation, to_packed_user_operation}
use pimlico_alto_smart_accou.Store.{UserOperationInfo, TransactionInfo}

abbrev pub Text : Type 0
Text = List ℕ

pub record UserOperationWithHash : Type 0 where
  pub mempool_user_operation : MempoolUserOperation
  pub user_operation_hash : ℕ

-- An operation with the reason why its simulation failed, if it did.
pub record SimulatedOp : Type 0 where
  pub owh : UserOperationWithHash
  pub reason : Option Text

-- The reason of a result: a text of the simulation, one of the three that the executor gives, or
-- `undefined`.
pub data Reason : Type 0 where
  said : Text → Reason
  absent : Reason
  internal_failure no_bundling_parameters insufficient_funds_error : Reason

-- The `error` of a failure and the `info` of a resubmission.
pub record Failure : Type 0 where
  pub reason : Reason
  pub user_op_hash : ℕ
  pub entry_point : ℕ
  pub user_operation : MempoolUserOperation

pub data BundleResult : Type 0 where
  success : UserOperationInfo → TransactionInfo → BundleResult
  failure resubmit : Failure → BundleResult

-- The operation and the transaction that a bundle submits, at the time `now`.
unfoldable pub simulated_ops_to_results : ℕ → TransactionInfo → List SimulatedOp → List BundleResult
simulated_ops_to_results now tx [] = []
simulated_ops_to_results now tx (op ∷ ops) =
    elim op.reason [
      | none ↦
          success
            (record {
              mempool_user_operation = op.owh.mempool_user_operation;
              entry_point = tx.entry_point;
              user_operation_hash = op.owh.user_operation_hash;
              last_replaced = now;
              first_submitted = now;
              referenced_contracts = none;
            })
            tx
      | some reason ↦ failure (record {
        reason = said reason;
        user_op_hash = op.owh.user_operation_hash;
        entry_point = tx.entry_point;
        user_operation = op.owh.mempool_user_operation;
      })
    ]
    ∷ simulated_ops_to_results now tx ops

-- An operation in the arguments of `handleOps`: of version 0.7 in its packed form. One of another
-- kind stands where the code casts; the callers check that the versions agree.
pub data SentOp : Type 0 where
  unchanged : MempoolUserOperation → SentOp
  packed : PackedUserOperation → SentOp

unfoldable pub sent_op : Bytes → Bool → MempoolUserOperation → SentOp
sent_op bytes true op = unchanged op
sent_op bytes false (plain (v07 op)) = packed (to_packed_user_operation bytes op)
sent_op bytes false (plain (v06 op)) = unchanged (plain (v06 op))
sent_op bytes false (compressed op) = unchanged (compressed op)

-- `numberToHex(n, { size })` and `hexToBytes(data).length` of viem.
pub record Sizes : Type 0 where
  pub number_to_hex : ℕ → ℕ → Hex
  pub byte_length : Hex → ℕ

module _ (bytes : Bytes) (sizes : Sizes) where
  -- The reduction from `current` on.
  append_compressed : Hex → List CompressedUserOperation → Hex
  append_compressed current [] = current
  append_compressed current (op ∷ ops) =
      append_compressed
        (bytes.concat (
          current
          ∷ bytes.concat (
              sizes.number_to_hex op.inflator_id 4
              ∷ sizes.number_to_hex (sizes.byte_length op.compressed_calldata) 2
              ∷ op.compressed_calldata
              ∷ [])
          ∷ []))
        ops

  unfoldable pub create_compressed_calldata : List CompressedUserOperation → ℕ → Hex
  unfolding append_compressed
  create_compressed_calldata ops per_op_inflator_id =
      append_compressed
        (bytes.concat
          (sizes.number_to_hex per_op_inflator_id 4 ∷ sizes.number_to_hex (length ops) 1 ∷ []))
        ops
