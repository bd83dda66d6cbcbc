-- ===== src/NonceQueuer.antt =====
-- The queue of operations whose nonce is not yet due, src/rpc/nonceQueuer.ts. Times are in
-- milliseconds. What the queue does while the chain is read is a parameter: other handlers may add
-- operations meanwhile.
pub mod Release
use pimlico_alto_smart_accou.Common.{
  ℕ, ◌+◌, ◌*◌, Bool, ◌&&◌, not, Option, none, some, List, [], ◌∷◌, ◌++◌, ltb, ◌==◌, any, filter,
  length, if◌then◌else◌,
}
use pimlico_alto_smart_accou.UserOp.{
  MempoolUserOperation, derive_user_operation, get_nonce_key_and_value, nonce,
}
use pimlico_alto_smart_accou.UserOp.Hashing.{Encoding, get_user_operation_hash}
use pimlico_alto_smart_accou.EventManager.{EventManager, emit_queued}
use pimlico_alto_smart_accou.Mempool.{Mempool}
use pimlico_alto_smart_accou.Mempool.Adding.{AddResult, add}

pub record QueuedUserOperation : Type 0 where
  pub entry_point : ℕ
  pub user_operation_hash : ℕ
  pub mempool_user_operation : MempoolUserOperation
  pub nonce_key : ℕ
  pub nonce_value : ℕ
  pub added_at : ℕ

pub record NonceQueuer : Type 0 where
  pub queued_user_operations : List QueuedUserOperation
  pub mempool : Mempool

-- The event manager of the queue is the one of the mempool.
unfoldable pub add_queued : Encoding → ℕ → MempoolUserOperation → ℕ → NonceQueuer → NonceQueuer
add_queued viem now operation entry_point q =
    let op = derive_user_operation operation in
    let hash = get_user_operation_hash viem op entry_point q.mempool.config.chain_id in
    record {
      queued_user_operations =
          q.queued_user_operations
          ++ record {
            entry_point = entry_point;
            user_operation_hash = hash;
            mempool_user_operation = operation;
            nonce_key = (get_nonce_key_and_value (nonce op)).0;
            nonce_value = (get_nonce_key_and_value (nonce op)).1;
            added_at = now;
          }
            ∷ [];
      mempool = record q.mempool { events = emit_queued q.mempool.events now hash };
    }

-- `addedAt > Date.now() - 1000 * 60 * 15`
abbrev pub is_recent : ℕ → QueuedUserOperation → Bool
is_recent now op = ltb now (op.added_at + 1000 * 60 * 15)

-- The loop of `getAvailableUserOperations`: the answer of the entry point for each operation, `none`
-- where the read failed, is compared with the nonce value of the operation.
unfoldable pub with_current_nonce :
    List QueuedUserOperation → List (Option ℕ) → List QueuedUserOperation
with_current_nonce [] results = []
with_current_nonce (op ∷ ops) [] = []
with_current_nonce (op ∷ ops) (none ∷ results) = with_current_nonce ops results
with_current_nonce (op ∷ ops) (some onchain ∷ results) =
    let rest = with_current_nonce ops results in
    if onchain == op.nonce_value then op ∷ rest else rest

unfoldable pub get_available_user_operations :
    List QueuedUserOperation → List (Option ℕ) → List QueuedUserOperation
get_available_user_operations ops results =
    if not (length results == length ops) then [] else with_current_nonce ops results

abbrev pub same_hash : QueuedUserOperation → QueuedUserOperation → Bool
same_hash op other = other.user_operation_hash == op.user_operation_hash

unfoldable pub resubmit_user_operation : Encoding → ℕ → QueuedUserOperation → Mempool → Mempool
resubmit_user_operation viem now op m =
    (add viem m now op.mempool_user_operation op.entry_point none).1

unfoldable pub resubmit_all : Encoding → ℕ → List QueuedUserOperation → Mempool → Mempool
resubmit_all viem now [] m = m
resubmit_all viem now (op ∷ ops) m =
    resubmit_all viem now ops (resubmit_user_operation viem now op m)

-- The reads of `process`: the nonces of the operations, and the queue afterwards.
abbrev pub ReadNonces : Type 0
ReadNonces = List QueuedUserOperation → NonceQueuer → List (Option ℕ) × NonceQueuer

-- The end of `process`, with the operations that are available.
unfoldable pub release : Encoding → ℕ → List QueuedUserOperation → NonceQueuer → NonceQueuer
release viem now [] q = q
release viem now (op ∷ ops) q = record {
  queued_user_operations =
      filter (λ other. not (any (same_hash other) (op ∷ ops))) q.queued_user_operations;
  mempool = resubmit_all viem now (op ∷ ops) q.mempool;
}

-- `process` once the old operations are taken out.
unfoldable pub process_recent :
    Encoding → ReadNonces → ℕ → List QueuedUserOperation → NonceQueuer → NonceQueuer
process_recent viem read now [] q = q
process_recent viem read now (op ∷ ops) q =
    let (results, q') = read (op ∷ ops) q in
    release viem now (get_available_user_operations (op ∷ ops) results) q'

unfoldable pub process_queue : Encoding → ReadNonces → ℕ → NonceQueuer → NonceQueuer
process_queue viem read now q =
    let recent = filter (is_recent now) q.queued_user_operations in
    process_recent viem read now recent (record q { queued_user_operations = recent })
