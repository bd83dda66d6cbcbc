-- ===== src/ExecutorManager.antt =====
-- The executor manager, src/executor/executorManager.ts: its state, and the handling of the results
-- of a bundle. Calls that the code makes side by side run here one after the other.
pub mod Settling
pub mod Dispatching
pub mod Status
pub mod Refreshing
pub mod Blocks
use pimlico_alto_smart_accou.Common.{
  ℕ, ◌+◌, ◌-◌, Bool, true, false, ◌&&◌, not, Option, none, some, List, [], ◌∷◌, ◌++◌, map, ltb, leb,
  Dict, get?, put, if◌then◌else◌,
}
use pimlico_alto_smart_accou.UserOp.{
  UserOperation, CompressedUserOperation, MempoolUserOperation, plain, compressed,
}
use pimlico_alto_smart_accou.UserOp.Hashing.{Encoding}
use pimlico_alto_smart_accou.Store.{UserOperationInfo, TransactionInfo}
use pimlico_alto_smart_accou.Monitor.{StatusName, set_user_operation_status}
use pimlico_alto_smart_accou.EventManager.{emit_dropped}
use pimlico_alto_smart_accou.Mempool.{Mempool, mark_submitted, remove_processing}
use pimlico_alto_smart_accou.Mempool.Adding.{add}
use pimlico_alto_smart_accou.Mempool.Skipping.{Outside}
use pimlico_alto_smart_accou.Mempool.Bundling.{Sort, process}
use pimlico_alto_smart_accou.Senders.{Semaphore}
use pimlico_alto_smart_accou.Executor.{
  Text, Reason, said, absent, internal_failure, no_bundling_parameters, insufficient_funds_error,
  Failure, BundleResult, success, failure, resubmit,
}
use pimlico_alto_smart_accou.Executor.Bundle.{bundle}
use pimlico_alto_smart_accou.Executor.Draft.{
  Network, Executor, Bundled, results, throws_error, waits_for_wallet, out_of_fuel,
}
use pimlico_alto_smart_accou.Executor.Bundle.Compressed.{bundle_compressed}

-- A watcher of `checkFrontrun`, until a block after the next one comes.
pub record FrontrunCheck : Type 0 where
  pub user_operation_hash : ℕ
  pub transaction_hash : ℕ
  pub block_number : ℕ

pub record ManagerConfig : Type 0 where
  pub entrypoints : List ℕ
  pub max_gas_per_bundle : ℕ
  pub aa95_gas_multiplier : ℕ

-- The monitor, the events and the reputation are those of the mempool.
pub record ExecutorManager (S : Type 0) : Type 0 where
  pub config : ManagerConfig
  pub executor : Executor S
  pub timer : Bool
  pub watching_blocks : Bool
  pub currently_handling_block : Bool
  pub frontrun_checks : List FrontrunCheck

pub data BundlingMode : Type 0 where
  auto manual : BundlingMode

module _ {S : Type 0} where
  abbrev pub mempool_of : ExecutorManager S → Mempool
  mempool_of x = x.executor.mempool

  abbrev pub with_mempool : Mempool → ExecutorManager S → ExecutorManager S
  with_mempool m x = record x { executor = record x.executor { mempool = m } }

  -- The timer runs `bundle` again and again.
  unfoldable pub set_bundling_mode : BundlingMode → ExecutorManager S → ExecutorManager S
  set_bundling_mode auto x = record x { timer = true }
  set_bundling_mode manual x = record x { timer = false }

-- `toUpperCase` on the letters from a to z.
abbrev upper : ℕ → ℕ
upper c = if leb b'a' c && leb c b'z' then c - 32 else c

abbrev is_digit : ℕ → Bool
is_digit c = leb b'0' c && leb c b'9'

abbrev is_a : ℕ → Bool
is_a c = leb b'A' (upper c) && leb (upper c) b'A'

-- "AA" and two digits, at the start of the text or further on.
unfoldable pub get_aa_error : Text → Option Text
get_aa_error (a ∷ b ∷ c ∷ d ∷ text) =
    let rest = get_aa_error (b ∷ c ∷ d ∷ text) in
    if is_a a && is_a b && is_digit c && is_digit d then some (b'A' ∷ b'A' ∷ c ∷ d ∷ []) else rest
get_aa_error (a ∷ b ∷ c ∷ []) = none
get_aa_error (a ∷ b ∷ []) = none
get_aa_error (a ∷ []) = none
get_aa_error [] = none

-- "INTERNAL FAILURE", "Failed to get parameters for bundling" and "InsufficientFundsError".
abbrev pub reason_text : Reason → Option Text
reason_text (said text) = some text
reason_text internal_failure = some (
    b'I' ∷ b'N' ∷ b'T' ∷ b'E' ∷ b'R' ∷ b'N' ∷ b'A' ∷ b'L' ∷ b' ' ∷ b'F' ∷ b'A' ∷ b'I' ∷ b'L' ∷ b'U'
    ∷ b'R' ∷ b'E' ∷ [])
reason_text no_bundling_parameters = some (
    b'F' ∷ b'a' ∷ b'i' ∷ b'l' ∷ b'e' ∷ b'd' ∷ b' ' ∷ b't' ∷ b'o' ∷ b' ' ∷ b'g' ∷ b'e' ∷ b't' ∷ b' '
    ∷ b'p' ∷ b'a' ∷ b'r' ∷ b'a' ∷ b'm' ∷ b'e' ∷ b't' ∷ b'e' ∷ b'r' ∷ b's' ∷ b' ' ∷ b'f' ∷ b'o'
    ∷ b'r' ∷ b' ' ∷ b'b' ∷ b'u' ∷ b'n' ∷ b'd' ∷ b'l' ∷ b'i' ∷ b'n' ∷ b'g' ∷ [])
reason_text insufficient_funds_error = some (
    b'I' ∷ b'n' ∷ b's' ∷ b'u' ∷ b'f' ∷ b'f' ∷ b'i' ∷ b'c' ∷ b'i' ∷ b'e' ∷ b'n' ∷ b't' ∷ b'F' ∷ b'u'
    ∷ b'n' ∷ b'd' ∷ b's' ∷ b'E' ∷ b'r' ∷ b'r' ∷ b'o' ∷ b'r' ∷ [])
reason_text absent = none

module _ (viem : Encoding) (now : ℕ) where
  -- The end of a failure; `getAAError` throws where there is no reason.
  unfoldable pub drop_failed : Failure → Option Text → Mempool → Bool × Mempool
  unfolding get_aa_error
  drop_failed f none m = (false, m)
  drop_failed f (some text) m = (
    true,
    record m {
      events = emit_dropped m.events now f.user_op_hash (some text) (get_aa_error text);
      monitor =
          set_user_operation_status m.monitor now f.user_op_hash
            (record { status = StatusName.rejected; transaction_hash = none });
    },
  )

  -- What `sendToExecutor` does with one result: whether it goes on, and the mempool.
  unfoldable pub handle_result : BundleResult → Mempool → Bool × Mempool
  handle_result (success info tx) m =
      let marked = mark_submitted m now info.user_operation_hash tx in
      (
        true,
        record marked {
          monitor = set_user_operation_status marked.monitor now info.user_operation_hash (record {
            status = StatusName.submitted;
            transaction_hash = some tx.transaction_hash;
          });
        },
      )
  handle_result (failure f) m =
      drop_failed f (reason_text f.reason) (remove_processing m f.user_op_hash)
  handle_result (resubmit f) m = (
    true,
    (add viem (remove_processing m f.user_op_hash) now f.user_operation f.entry_point none).1,
  )

  -- The results in their order, up to an exception.
  unfoldable pub handle_results : List BundleResult → Mempool → Bool × Mempool
  handle_results [] m = (true, m)
  handle_results (r ∷ rs) m =
      let (goes_on, next) = handle_result r m in
      elim goes_on [ true ↦ handle_results rs next | false ↦ (false, next) ]

abbrev hash_after : BundleResult → Option ℕ → Option ℕ
hash_after (success info tx) h = some tx.transaction_hash
hash_after (failure f) h = h
hash_after (resubmit f) h = h

-- The hash of the last success.
abbrev pub last_hash : List BundleResult → Option ℕ → Option ℕ
last_hash [] h = h
last_hash (r ∷ rs) h = last_hash rs (hash_after r h)

-- Whether a block watcher is needed: whether a result is a success. The watcher is started when the
-- success is handled; no list of results has a success after one whose handling throws.
abbrev pub any_success : List BundleResult → Bool
any_success [] = false
any_success (success info tx ∷ rs) = true
any_success (failure f ∷ rs) = any_success rs
any_success (resubmit f ∷ rs) = any_success rs

abbrev pub plain_ops : List MempoolUserOperation → List UserOperation
plain_ops [] = []
plain_ops (plain op ∷ ops) = op ∷ plain_ops ops
plain_ops (compressed op ∷ ops) = plain_ops ops

abbrev pub compressed_ops : List MempoolUserOperation → List CompressedUserOperation
compressed_ops [] = []
compressed_ops (plain op ∷ ops) = compressed_ops ops
compressed_ops (compressed op ∷ ops) = op ∷ compressed_ops ops

-- How `sendToExecutor` ends. `waiting` is the wait for a wallet, and `fuel_ended` is never the case.
pub data SendResult : Type 0 where
  sent : Option ℕ → SendResult
  thrown waiting fuel_ended : SendResult

module _ {S : Type 0} (sem : Semaphore S) (viem : Encoding) where
  -- Both bundles are done; `rs` are their results.
  unfoldable pub finish_sending :
      ℕ → List BundleResult → ExecutorManager S → SendResult × ExecutorManager S
  finish_sending now rs x =
      let (done, m) = handle_results viem now rs (mempool_of x) in
      (
        if done then sent (last_hash rs none) else thrown,
        record (with_mempool m x) {
          watching_blocks = if any_success rs then true else x.watching_blocks;
        },
      )

  unfoldable pub send_compressed :
      Network
      → ℕ
      → List BundleResult
      → List CompressedUserOperation
      → ExecutorManager S
      → SendResult × ExecutorManager S
  send_compressed net entry_point rs [] x = finish_sending net.now rs x
  send_compressed net entry_point rs (op ∷ ops) x =
      let (b, executor) = bundle_compressed sem net entry_point (op ∷ ops) x.executor in
      let y = record x { executor = executor } in
      elim b [
        | results more ↦ finish_sending net.now (rs ++ more) y
        | throws_error ↦ (thrown, y)
        | waits_for_wallet ↦ (waiting, y)
        | out_of_fuel ↦ (fuel_ended, y)
      ]

  unfoldable pub send_plain :
      Network
      → Network
      → ℕ
      → List UserOperation
      → List CompressedUserOperation
      → ExecutorManager S
      → SendResult × ExecutorManager S
  send_plain net later entry_point [] cs x = send_compressed later entry_point [] cs x
  send_plain net later entry_point (op ∷ ops) cs x =
      let (b, executor) = bundle sem net entry_point (op ∷ ops) x.executor in
      let y = record x { executor = executor } in
      elim b [
        | results rs ↦ send_compressed later entry_point rs cs y
        | throws_error ↦ (thrown, y)
        | waits_for_wallet ↦ (waiting, y)
        | out_of_fuel ↦ (fuel_ended, y)
      ]

  -- `net` answers the bundle of plain operations, `later` the one of compressed operations.
  unfoldable pub send_to_executor :
      Network
      → Network
      → ℕ
      → List MempoolUserOperation
      → ExecutorManager S
      → SendResult × ExecutorManager S
  send_to_executor net later entry_point ops x =
      send_plain net later entry_point (plain_ops ops) (compressed_ops ops) x

-- `opEntryPointMap`
unfoldable pub by_entry_point : List UserOperationInfo → Dict (List MempoolUserOperation)
by_entry_point ops = grow ops []
  where
    -- The entry of the operation's entry point, with the operation at its end.
    at_end : Option (List MempoolUserOperation) → MempoolUserOperation → List MempoolUserOperation
    at_end none op = op ∷ []
    at_end (some ops) op = ops ++ op ∷ []

    grow :
        List UserOperationInfo → Dict (List MempoolUserOperation) → Dict (List MempoolUserOperation)
    grow [] m = m
    grow (op ∷ ops) m =
        grow ops (put m op.entry_point (at_end (get? m op.entry_point) op.mempool_user_operation))
