-- ===== src/ExecutorManager/Blocks/Stuck.antt =====
-- The flag that keeps blocks from being handled side by side.
use pimlico_alto_smart_accou.Common.{
  ℕ, ◌≡◌, refl, Bool, true, false, not, List, [], ◌∷◌, Option-cases, Bool-cases, inl, inr, ◌+◌, leb,
  filter, ◌==◌,
}
use pimlico_alto_smart_accou.Store.{SubmittedUserOperation, TransactionInfo}
use pimlico_alto_smart_accou.GasPrice.{GasPriceParameters, Result, gives, throws}
use pimlico_alto_smart_accou.Senders.{Semaphore}
use pimlico_alto_smart_accou.Executor.Draft.{Network}
use pimlico_alto_smart_accou.Executor.Renewal.{
  Replaced, replaced, potentially_already_included, failed, throws_error, out_of_fuel,
}
use pimlico_alto_smart_accou.ExecutorManager.{ExecutorManager, mempool_of}
use pimlico_alto_smart_accou.ExecutorManager.Status.{
  BundlingStatus, included, reverted, not_found, Receipt,
}
use pimlico_alto_smart_accou.ExecutorManager.Refreshing.{
  after_replacement, replace_in_mempool, finalize, finalized_transaction,
  refresh_transaction_status, include_ops,
}
use pimlico_alto_smart_accou.ExecutorManager.Blocks.{
  World, run_all, refresh_entry_point, refresh_entry_points, refresh_user_operation_statuses,
  replace_underpriced, replace_stuck, end_of_block, then_stuck, then_replace, handle_submitted,
  handle_block, is_stuck, is_below, submitted_transactions,
  get_transactions_from_user_operation_entries,
}

module _ {S : Type 0} where
  -- The state is still busy with a block.
  abbrev Busy : Bool × ExecutorManager S → Type 0
  Busy r = r.1.currently_handling_block ≡ true

  run_all-Busy :
      (f : TransactionInfo → ExecutorManager S → Bool × ExecutorManager S)
      → ((t : TransactionInfo) (x : ExecutorManager S)
          → x.currently_handling_block ≡ true
          → Busy (f t x))
      → (ts : List TransactionInfo) (x : ExecutorManager S) → x.currently_handling_block ≡ true
      → Busy (run_all f ts x)
  run_all-Busy f h [] x b = b
  run_all-Busy f h (t ∷ ts) x b = run_all-Busy f h ts (f t x).1 (h t x b)

  module _ (sem : Semaphore S) (net : Network) where
    replacement-Busy :
        (tx : TransactionInfo) (r : Replaced) (x : ExecutorManager S)
        → x.currently_handling_block ≡ true
        → Busy (after_replacement sem net tx r x)
    unfolding after_replacement
    replacement-Busy tx failed x b = b
    replacement-Busy tx potentially_already_included x b =
        elim (Bool-cases (leb 3 (tx.times_potentially_included + 1))) [
          | inl c ↦ rw (c, after_replacement) b
          | inr c ↦ rw (c, after_replacement) b
        ]
    replacement-Busy tx (replaced new) x b = b
    replacement-Busy tx throws_error x b = b
    replacement-Busy tx out_of_fuel x b = b

    replace-Busy :
        (tx : TransactionInfo) (x : ExecutorManager S)
        → x.currently_handling_block ≡ true
        → Busy (replace_in_mempool sem net tx x)
    unfolding replace_in_mempool
    replace-Busy tx x b = replacement-Busy tx _ _ b

    finalize-Busy :
        (tx : TransactionInfo) (hash block : ℕ) (s : BundlingStatus) (x : ExecutorManager S)
        → x.currently_handling_block ≡ true
        → Busy (finalize sem net tx hash block s x)
    unfolding finalize
    finalize-Busy tx hash block (included details) x b =
        elim (Bool-cases
          (include_ops net.viem net.now hash block details tx.user_operation_infos
            (mempool_of x)).0) [ inl c ↦ rw (c, finalize) b | inr c ↦ rw (c, finalize) b ]
    finalize-Busy tx hash block (reverted true) x b = replace-Busy _ _ b
    finalize-Busy tx hash block (reverted false) x b = b
    finalize-Busy tx hash block not_found x b = b

    refresh-Busy :
        (receipts : ℕ → Receipt) (entry_point : ℕ) (tx : TransactionInfo) (x : ExecutorManager S)
        → x.currently_handling_block ≡ true
        → Busy (refresh_transaction_status sem net receipts entry_point tx x)
    unfolding refresh_transaction_status
    refresh-Busy receipts entry_point tx x b =
        elim (Option-cases (finalized_transaction receipts entry_point tx)) [
          | inl e ↦ rw (e, refresh_transaction_status) b
          | inr (f, e) ↦ rw (e, refresh_transaction_status) (finalize-Busy tx _ _ f.status x b)
        ]

  module _ (sem : Semaphore S) (w : World) where
    entry_points-Busy :
        (es : List ℕ) (ops : List SubmittedUserOperation) (x : ExecutorManager S)
        → x.currently_handling_block ≡ true
        → Busy (refresh_entry_points sem w es ops x)
    unfolding refresh_entry_points
    entry_points-Busy [] ops x b = b
    entry_points-Busy (e ∷ es) ops x b =
        entry_points-Busy es ops (refresh_entry_point sem w e ops x).1 (
          run_all-Busy (λ t. refresh_transaction_status sem (w.at_refresh t) w.receipts e t)
            (λ t y c. refresh-Busy sem (w.at_refresh t) w.receipts e t y c)
            (get_transactions_from_user_operation_entries
              (filter (λ s. s.user_operation.entry_point == e) ops))
            x b)

    -- The flag is down where nothing is thrown, and up where something is.
    abbrev Flagged : Bool × ExecutorManager S → Type 0
    Flagged r = r.1.currently_handling_block ≡ not r.0

    end-Flagged : (r : Bool × ExecutorManager S) → Busy r → Flagged (end_of_block sem w r)
    end-Flagged (true, x) b = refl
    end-Flagged (false, x) b = b

    stuck-Flagged : (r : Bool × ExecutorManager S) → Busy r → Flagged (then_stuck sem w r)
    unfolding replace_stuck
    stuck-Flagged (true, x) b = end-Flagged (replace_stuck sem w x) (
        run_all-Busy (λ t. replace_in_mempool sem (w.at_stuck t) t)
          (λ t y c. replace-Busy sem (w.at_stuck t) t y c)
          (filter (is_stuck w.now) (submitted_transactions sem w x)) x b)
    stuck-Flagged (false, x) b = b

    replace-Flagged :
        (p : Result GasPriceParameters) (r : Bool × ExecutorManager S)
        → Busy r
        → Flagged (then_replace sem w p r)
    unfolding replace_underpriced
    replace-Flagged (gives price) (true, x) b = stuck-Flagged (replace_underpriced sem w price x) (
        run_all-Busy (λ t. replace_in_mempool sem (w.at_gas_price t) t)
          (λ t y c. replace-Busy sem (w.at_gas_price t) t y c)
          (filter (is_below price) (submitted_transactions sem w x)) x b)
    replace-Flagged (throws e) (true, x) b = b
    replace-Flagged (gives price) (false, x) b = b
    replace-Flagged (throws e) (false, x) b = b

    submitted-Flagged :
        (ss : List SubmittedUserOperation) (x : ExecutorManager S)
        → x.currently_handling_block ≡ true
        → Flagged (handle_submitted sem w ss x)
    unfolding refresh_user_operation_statuses
    submitted-Flagged [] x b = refl
    submitted-Flagged (s ∷ ss) x b =
        replace-Flagged w.price (refresh_user_operation_statuses sem w x)
          (entry_points-Busy x.config.entrypoints (mempool_of x).store.submitted x b)

    -- After `handleBlock`, where no block was being handled before, one counts as being handled
    -- exactly where an exception left it.
    pub handle_block-Flagged :
        (x : ExecutorManager S)
        → x.currently_handling_block ≡ false
        → (handle_block sem w x).1.currently_handling_block ≡ not (handle_block sem w x).0
    unfolding handle_block
    handle_block-Flagged x b =
        rw (b, handle_block)
          (submitted-Flagged (mempool_of x).store.submitted
            (record x { currently_handling_block = true }) refl)
