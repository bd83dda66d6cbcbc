-- ===== src/ExecutorManager/Refreshing.antt =====
-- `refreshTransactionStatus`, `replaceTransaction` and `checkFrontrun` of
-- src/executor/executorManager.ts. The transactions of submitted entries are shared objects: those
-- with one hash are one object.
pub mod Untracked
pub mod Clearing
pub mod Finality
use pimlico_alto_smart_accou.Common.{
  ℕ, ◌+◌, ◌*◌, ◌/◌, Bool, true, false, ◌&&◌, ◌||◌, not, Option, none, some, List, [], ◌∷◌, ◌++◌,
  map, filter, any, find, ◌==◌, ltb, leb, Dict, get?, if◌then◌else◌, get_or_else,
}
use pimlico_alto_smart_accou.UserOp.{Hex, empty_hex, derive_user_operation}
use pimlico_alto_smart_accou.UserOp.Hashing.{Encoding}
use pimlico_alto_smart_accou.Store.{
  UserOperationInfo, SubmittedUserOperation, TransactionInfo, TransactionRequest, has_hash,
}
use pimlico_alto_smart_accou.Monitor.{StatusName, set_user_operation_status}
use pimlico_alto_smart_accou.EventManager.{
  EventManager, emit_included_on_chain, emit_execution_reverted_on_chain, emit_frontran_on_chain,
  emit_failed_on_chain,
}
use pimlico_alto_smart_accou.Reputation.{Outcome, returned, thrown}
use pimlico_alto_smart_accou.Reputation.Interface.{AnyReputationManager, any_update_included_status}
use pimlico_alto_smart_accou.Mempool.{Mempool, remove_submitted, replace_submitted}
use pimlico_alto_smart_accou.Senders.{Semaphore}
use pimlico_alto_smart_accou.Executor.Bundle.{release}
use pimlico_alto_smart_accou.Executor.Draft.{Network, Executor}
use pimlico_alto_smart_accou.Executor.Replacing.{replace_transaction}
use pimlico_alto_smart_accou.Executor.Renewal.{
  Replaced, replaced, potentially_already_included, failed, throws_error, out_of_fuel,
}
use pimlico_alto_smart_accou.ExecutorManager.{
  ExecutorManager, FrontrunCheck, mempool_of, with_mempool,
}
use pimlico_alto_smart_accou.ExecutorManager.Status.{
  OpOutcome, successful, calldata_phase_reverted, UserOperationDetails, BundlingStatus, included,
  reverted, not_found, Receipt, get_bundle_status,
}

abbrev pub remove_all_submitted : List UserOperationInfo → Mempool → Mempool
remove_all_submitted [] m = m
remove_all_submitted (i ∷ infos) m =
    remove_all_submitted infos (remove_submitted m i.user_operation_hash)

abbrev pub replace_all_submitted : ℕ → TransactionInfo → List UserOperationInfo → Mempool → Mempool
replace_all_submitted now tx [] m = m
replace_all_submitted now tx (i ∷ infos) m =
    replace_all_submitted now tx infos (replace_submitted m now i tx)

abbrev pub includes_op : List UserOperationInfo → UserOperationInfo → Bool
includes_op infos i = any (has_hash i.user_operation_hash) infos

-- `timesPotentiallyIncluded += 1`, in every entry of the transaction.
abbrev pub counted_once_more : TransactionInfo → TransactionInfo
counted_once_more tx = record tx { times_potentially_included = tx.times_potentially_included + 1 }

abbrev pub count_entries : ℕ → List SubmittedUserOperation → List SubmittedUserOperation
count_entries hash [] = []
count_entries hash (s ∷ ss) =
    record s {
      transaction_info =
          if s.transaction_info.transaction_hash == hash
          then counted_once_more s.transaction_info
          else s.transaction_info;
    }
    ∷ count_entries hash ss

abbrev pub count_potential : ℕ → Mempool → Mempool
count_potential hash m = record m {
  store = record m.store { submitted = count_entries hash m.store.submitted };
}

module _ {S : Type 0} (sem : Semaphore S) (net : Network) where
  abbrev pub mark_processed : ℕ → ExecutorManager S → ExecutorManager S
  mark_processed w x = record x { executor = release sem net w x.executor }

  -- What follows the replacement: whether nothing is thrown, and the state.
  unfoldable pub after_replacement :
      TransactionInfo → Replaced → ExecutorManager S → Bool × ExecutorManager S
  after_replacement tx failed x =
      (true, with_mempool (remove_all_submitted tx.user_operation_infos (mempool_of x)) x)
  after_replacement tx potentially_already_included x =
      let m = count_potential tx.transaction_hash (mempool_of x) in
      if leb 3 (tx.times_potentially_included + 1)
      then (
        true,
        mark_processed tx.executor
            (with_mempool (remove_all_submitted tx.user_operation_infos m) x),
      )
      else (true, with_mempool m x)
  after_replacement tx (replaced new) x =
      let matching = filter (includes_op new.user_operation_infos) tx.user_operation_infos in
      let missing =
        filter (λ i. not (includes_op new.user_operation_infos i)) tx.user_operation_infos in
      (
        true,
        with_mempool
            (remove_all_submitted missing
              (replace_all_submitted net.now new matching (mempool_of x)))
            x,
      )
  after_replacement tx throws_error x = (false, x)
  after_replacement tx out_of_fuel x = (false, x)

  unfoldable pub replace_in_mempool : TransactionInfo → ExecutorManager S → Bool × ExecutorManager S
  replace_in_mempool tx x =
      let (r, executor) = replace_transaction sem net tx x.executor in
      after_replacement tx r (record x { executor = executor })

-- The bundle status of each hash, with the hash, as `transactionDetails`.
pub record Finalized : Type 0 where
  pub status : BundlingStatus
  pub transaction_hash : ℕ
  pub block_number : Option ℕ

abbrev pub details_at : (ℕ → Receipt) → ℕ → List ℕ → List Finalized
details_at receipts entry_point [] = []
details_at receipts entry_point (h ∷ hs) =
    let r = get_bundle_status entry_point (receipts h) in
    record { status = r.0; transaction_hash = h; block_number = r.1 }
    ∷ details_at receipts entry_point hs

abbrev pub is_included : BundlingStatus → Bool
is_included (included _) = true
is_included (reverted _) = false
is_included not_found = false

abbrev pub is_reverted : BundlingStatus → Bool
is_reverted (included _) = false
is_reverted (reverted _) = true
is_reverted not_found = false

abbrev pub or_else : Option Finalized → Option Finalized → Option Finalized
or_else none o = o
or_else (some f) o = some f

-- `mined ?? reverted`
unfoldable pub finalized_transaction : (ℕ → Receipt) → ℕ → TransactionInfo → Option Finalized
finalized_transaction receipts entry_point tx =
    let details =
      details_at receipts entry_point (tx.transaction_hash ∷ tx.previous_transaction_hashes) in
    or_else (find (λ d. is_included d.status) details) (find (λ d. is_reverted d.status) details)

-- `revertReason || "0x"`
abbrev revert_text : Option Hex → Hex
revert_text none = empty_hex
revert_text (some []) = empty_hex
revert_text (some (c ∷ cs)) = c ∷ cs

module _ (viem : Encoding) (now hash block : ℕ) where
  emit_outcome : ℕ → UserOperationDetails → EventManager → EventManager
  emit_outcome op d m = elim d.status [
    | successful ↦ emit_included_on_chain m now op hash block
    | calldata_phase_reverted ↦
        emit_execution_reverted_on_chain m now op hash (revert_text d.revert_reason) block
  ]

  -- One operation of a transaction that is mined. It leaves the pool before its details are read,
  -- which throws where there are none.
  unfoldable pub include_op :
      UserOperationInfo → Option UserOperationDetails → Mempool → Bool × Mempool
  unfolding emit_outcome
  include_op i none m = (false, remove_submitted m i.user_operation_hash)
  include_op i (some d) m =
      let removed = remove_submitted m i.user_operation_hash in
      let (o, reputation) =
        any_update_included_status viem.bytes.get_address
          (derive_user_operation i.mempool_user_operation) i.entry_point d.account_deployed
          m.reputation in
      elim o [
        | thrown _ ↦ (false, record removed { reputation = reputation })
        | returned _ ↦ (
          true,
          record removed {
            reputation = reputation;
            events = emit_outcome i.user_operation_hash d m.events;
            monitor =
                set_user_operation_status m.monitor now i.user_operation_hash
                  (record { status = StatusName.included; transaction_hash = some hash });
          },
        )
      ]

  unfoldable pub include_ops :
      Dict UserOperationDetails → List UserOperationInfo → Mempool → Bool × Mempool
  include_ops details [] m = (true, m)
  include_ops details (i ∷ infos) m =
      let (goes_on, next) = include_op i (get? details i.user_operation_hash) m in
      elim goes_on [ true ↦ include_ops details infos next | false ↦ (false, next) ]

abbrev pub checks_of : ℕ → ℕ → List UserOperationInfo → List FrontrunCheck
checks_of hash block infos =
    map
      (λ i. record {
        user_operation_hash = i.user_operation_hash;
        transaction_hash = hash;
        block_number = block;
      })
      infos

-- The request for another attempt after "AA95 out of gas".
abbrev pub with_more_gas : ℕ → TransactionInfo → TransactionInfo
with_more_gas multiplier tx = record tx {
  transaction_request = record tx.transaction_request {
    gas = tx.transaction_request.gas * multiplier / 100;
    nonce = tx.transaction_request.nonce + 1;
  };
}

module _ {S : Type 0} (sem : Semaphore S) (net : Network) where
  -- A transaction that is final: mined, reverted with AA95, or reverted otherwise.
  unfoldable pub finalize :
      TransactionInfo → ℕ → ℕ → BundlingStatus → ExecutorManager S → Bool × ExecutorManager S
  finalize tx hash block (included details) x =
      let (done, m) =
        include_ops net.viem net.now hash block details tx.user_operation_infos (mempool_of x) in
      let y = with_mempool m x in (done, if done then mark_processed sem net tx.executor y else y)
  finalize tx hash block (reverted true) x =
      replace_in_mempool sem net (with_more_gas x.config.aa95_gas_multiplier tx)
        (with_mempool (remove_all_submitted tx.user_operation_infos (mempool_of x)) x)
  finalize tx hash block (reverted false) x = (
    true,
    mark_processed sem net tx.executor
        (record (with_mempool (remove_all_submitted tx.user_operation_infos (mempool_of x)) x) {
          frontrun_checks = x.frontrun_checks ++ checks_of hash block tx.user_operation_infos;
        }),
  )
  finalize tx hash block not_found x = (true, x)

  unfoldable pub refresh_transaction_status :
      (ℕ → Receipt) → ℕ → TransactionInfo → ExecutorManager S → Bool × ExecutorManager S
  refresh_transaction_status receipts entry_point tx x =
      elim (finalized_transaction receipts entry_point tx) [
        | none ↦ (true, x)
        | some f ↦ finalize tx f.transaction_hash (get_or_else f.block_number 0) f.status x
      ]

-- The watcher of `checkFrontrun` two blocks on: `receipt` is what `getUserOperationReceipt` finds,
-- the transaction and its block.
unfoldable pub check_frontrun : ℕ → Option (ℕ × ℕ) → FrontrunCheck → Mempool → Mempool
check_frontrun now (some (tx, block)) c m = record m {
  monitor =
      set_user_operation_status m.monitor now c.user_operation_hash
        (record { status = StatusName.included; transaction_hash = some tx });
  events = emit_frontran_on_chain m.events now c.user_operation_hash tx block;
}
check_frontrun now none c m = record m {
  monitor =
      set_user_operation_status m.monitor now c.user_operation_hash
        (record { status = StatusName.rejected; transaction_hash = some c.transaction_hash });
  events =
      emit_failed_on_chain m.events now c.user_operation_hash c.transaction_hash c.block_number;
}
