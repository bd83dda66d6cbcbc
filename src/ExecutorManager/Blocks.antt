-- ===== src/ExecutorManager/Blocks.antt =====
-- `handleBlock` and `refreshUserOperationStatuses` of src/executor/executorManager.ts. The promises
-- that the code awaits together run one after the other; each runs to its end where another throws.
pub mod Stuck
use pimlico_alto_smart_accou.Common.{
  ℕ, ◌+◌, ◌-◌, ◌*◌, Bool, true, false, ◌&&◌, not, List, [], ◌∷◌, filter, ◌==◌, ltb, leb,
  if◌then◌else◌,
}
use pimlico_alto_smart_accou.Store.{SubmittedUserOperation, TransactionInfo}
use pimlico_alto_smart_accou.GasPrice.{GasPriceParameters, Result, gives, throws}
use pimlico_alto_smart_accou.Senders.{Semaphore}
use pimlico_alto_smart_accou.Executor.Draft.{Network}
use pimlico_alto_smart_accou.ExecutorManager.{ExecutorManager, mempool_of}
use pimlico_alto_smart_accou.ExecutorManager.Status.{Receipt}
use pimlico_alto_smart_accou.ExecutorManager.Refreshing.{
  refresh_transaction_status, replace_in_mempool,
}

-- What the handling of one block is answered: the receipts, the network as each transaction sees it,
-- when its status is refreshed and in the two rounds of replacement, and the price.
pub record World : Type 0 where
  pub now : ℕ
  pub receipts : ℕ → Receipt
  pub at_refresh : TransactionInfo → Network
  pub at_gas_price : TransactionInfo → Network
  pub at_stuck : TransactionInfo → Network
  pub price : Result GasPriceParameters

-- `getTransactionsFromUserOperationEntries`: each transaction once.
unfoldable pub get_transactions_from_user_operation_entries :
    List SubmittedUserOperation → List TransactionInfo
get_transactions_from_user_operation_entries [] = []
get_transactions_from_user_operation_entries (s ∷ ss) =
    s.transaction_info
    ∷ filter (λ t. not (t.transaction_hash == s.transaction_info.transaction_hash))
        (get_transactions_from_user_operation_entries ss)

module _ {S : Type 0} where
  -- All calls, and whether none of them throws.
  abbrev pub run_all :
      (TransactionInfo → ExecutorManager S → Bool × ExecutorManager S)
      → List TransactionInfo
      → ExecutorManager S
      → Bool × ExecutorManager S
  run_all f [] x = (true, x)
  run_all f (t ∷ ts) x =
      let (done, y) = f t x in let (rest, z) = run_all f ts y in (done && rest, z)

-- The operations of the transaction are not at the price of the network any more.
abbrev pub is_below : GasPriceParameters → TransactionInfo → Bool
is_below price t = not (
    leb price.max_fee_per_gas t.transaction_request.max_fee_per_gas
    && leb price.max_priority_fee_per_gas t.transaction_request.max_priority_fee_per_gas)

-- `Date.now() - lastReplaced < 5 * 60 * 1000`; a time that lies ahead counts as recent.
abbrev pub is_stuck : ℕ → TransactionInfo → Bool
is_stuck now t = not (ltb (now - t.last_replaced) (5 * 60 * 1000))

module _ {S : Type 0} (sem : Semaphore S) (w : World) where
  abbrev pub refresh_entry_point :
      ℕ → List SubmittedUserOperation → ExecutorManager S → Bool × ExecutorManager S
  refresh_entry_point entry_point ops =
      run_all (λ t. refresh_transaction_status sem (w.at_refresh t) w.receipts entry_point t)
        (get_transactions_from_user_operation_entries
          (filter (λ s. s.user_operation.entry_point == entry_point) ops))

  -- The entry points in their order; `ops` are the operations submitted at the start.
  unfoldable pub refresh_entry_points :
      List ℕ → List SubmittedUserOperation → ExecutorManager S → Bool × ExecutorManager S
  refresh_entry_points [] ops x = (true, x)
  refresh_entry_points (e ∷ es) ops x =
      let (done, y) = refresh_entry_point e ops x in
      let (rest, z) = refresh_entry_points es ops y in (done && rest, z)

  unfoldable pub refresh_user_operation_statuses : ExecutorManager S → Bool × ExecutorManager S
  refresh_user_operation_statuses x =
      refresh_entry_points x.config.entrypoints (mempool_of x).store.submitted x

  abbrev pub submitted_transactions : ExecutorManager S → List TransactionInfo
  submitted_transactions x =
      get_transactions_from_user_operation_entries (mempool_of x).store.submitted

  -- The two rounds of replacement, by price and by age.
  unfoldable pub replace_underpriced :
      GasPriceParameters → ExecutorManager S → Bool × ExecutorManager S
  replace_underpriced price x =
      run_all (λ t. replace_in_mempool sem (w.at_gas_price t) t)
        (filter (is_below price) (submitted_transactions x)) x

  unfoldable pub replace_stuck : ExecutorManager S → Bool × ExecutorManager S
  replace_stuck x =
      run_all (λ t. replace_in_mempool sem (w.at_stuck t) t)
        (filter (is_stuck w.now) (submitted_transactions x)) x

  abbrev pub end_of_block : Bool × ExecutorManager S → Bool × ExecutorManager S
  end_of_block (true, x) = (true, record x { currently_handling_block = false })
  end_of_block (false, x) = (false, x)

  abbrev pub then_stuck : Bool × ExecutorManager S → Bool × ExecutorManager S
  then_stuck (true, x) = end_of_block (replace_stuck x)
  then_stuck (false, x) = (false, x)

  abbrev pub then_replace :
      Result GasPriceParameters → Bool × ExecutorManager S → Bool × ExecutorManager S
  then_replace (gives price) (true, x) = then_stuck (replace_underpriced price x)
  then_replace (throws e) (true, x) = (false, x)
  then_replace p (false, x) = (false, x)

  abbrev pub handle_submitted :
      List SubmittedUserOperation → ExecutorManager S → Bool × ExecutorManager S
  handle_submitted [] x =
      (true, record x { watching_blocks = false; currently_handling_block = false })
  handle_submitted (s ∷ ss) x = then_replace w.price (refresh_user_operation_statuses x)

  -- Whether nothing is thrown, and the state.
  unfoldable pub handle_block : ExecutorManager S → Bool × ExecutorManager S
  handle_block x = elim x.currently_handling_block [
    | true ↦ (true, x)
    | false ↦
        handle_submitted (mempool_of x).store.submitted
          (record x { currently_handling_block = true })
  ]
