-- ===== src/ExecutorManager/Refreshing/Finality.antt =====
-- The submitted pool when a transaction is final, refreshTransactionStatus of
-- src/executor/executorManager.ts.
use pimlico_alto_smart_accou.Common.{
  ℕ, ◌+◌, ◌≤◌, ◌≡◌, ◌≢◌, refl, sym, ap, ◌∙◌, Bool, true, false, not, Option, none, some, Bool-cases,
  List, ◌∷◌, find, find-passes, filter, any, count, leb, arith, inl, inr, get_or_else,
}
use pimlico_alto_smart_accou.Store.{TransactionInfo, has_hash, submitted_has_hash}
use pimlico_alto_smart_accou.Mempool.Skipping.{Outside}
use pimlico_alto_smart_accou.Mempool.Lifecycle.{Reachable}
use pimlico_alto_smart_accou.Mempool.Lifecycle.Steps.{Reachable-total}
use pimlico_alto_smart_accou.Senders.{Semaphore}
use pimlico_alto_smart_accou.Executor.Draft.{Network}
use pimlico_alto_smart_accou.Executor.Renewal.{
  Replaced, replaced, potentially_already_included, failed, throws_error, out_of_fuel,
}
use pimlico_alto_smart_accou.Executor.Replacing.Pools.{replace_transaction-HasStore}
use pimlico_alto_smart_accou.ExecutorManager.{ExecutorManager, mempool_of}
use pimlico_alto_smart_accou.ExecutorManager.Status.{
  BundlingStatus, included, reverted, not_found, Receipt,
}
use pimlico_alto_smart_accou.ExecutorManager.Refreshing.{
  replace_all_submitted, includes_op, after_replacement, replace_in_mempool, finalize,
  with_more_gas, include_ops, Finalized, is_included, is_reverted, finalized_transaction,
  refresh_transaction_status, details_at, or_else,
}
use pimlico_alto_smart_accou.ExecutorManager.Refreshing.Untracked.{
  tracked, count_entries-tracked, finalize-untracked,
}
use pimlico_alto_smart_accou.ExecutorManager.Refreshing.Clearing.{
  cleared, any-filter, remove_all-cleared, remove_all-other, include_ops-cleared, replace_all-other,
}

module _ {S : Type 0} (sem : Semaphore S) (net : Network) (h : ℕ) where
  after_replacement-other :
      (tx : TransactionInfo) (r : Replaced) (x : ExecutorManager S)
      → any (has_hash h) tx.user_operation_infos ≡ false
      → tracked h (mempool_of (after_replacement sem net tx r x).1) ≡ tracked h (mempool_of x)
  unfolding after_replacement
  after_replacement-other tx failed x e = remove_all-other h tx.user_operation_infos _ e
  after_replacement-other tx potentially_already_included x e =
      elim (Bool-cases (leb 3 (tx.times_potentially_included + 1))) [
        | inl c ↦
            rw (c, after_replacement)
              (remove_all-other h tx.user_operation_infos _ e
                ∙ count_entries-tracked tx.transaction_hash h (mempool_of x).store.submitted)
        | inr c ↦
            rw (c, after_replacement)
              (count_entries-tracked tx.transaction_hash h (mempool_of x).store.submitted)
      ]
  after_replacement-other tx (replaced new) x e =
      remove_all-other h
        (filter (λ i. not (includes_op new.user_operation_infos i)) tx.user_operation_infos)
        (replace_all_submitted net.now new
          (filter (includes_op new.user_operation_infos) tx.user_operation_infos) (mempool_of x))
        (any-filter (has_hash h) (λ i. not (includes_op new.user_operation_infos i))
          tx.user_operation_infos e)
      ∙ replace_all-other h net.now new
          (filter (includes_op new.user_operation_infos) tx.user_operation_infos) (mempool_of x)
          (any-filter (has_hash h) (includes_op new.user_operation_infos) tx.user_operation_infos e)
  after_replacement-other tx throws_error x e = refl
  after_replacement-other tx out_of_fuel x e = refl

  replace_in_mempool-other :
      (tx : TransactionInfo) (x : ExecutorManager S)
      → any (has_hash h) tx.user_operation_infos ≡ false
      → tracked h (mempool_of (replace_in_mempool sem net tx x).1) ≡ tracked h (mempool_of x)
  unfolding replace_in_mempool
  replace_in_mempool-other tx x e =
      after_replacement-other tx _ _ e
      ∙ ap (λ s. count (submitted_has_hash h) s.submitted)
          (replace_transaction-HasStore sem net _ tx x.executor refl)

  module _ (out : Outside) (tx : TransactionInfo) (x : ExecutorManager S)
      (r : Reachable out (mempool_of x)) where
    once : tracked h (mempool_of x) ≤ 1
    once = let whole : _ = Reachable-total out r h in omega (arith, whole)

    abbrev Clears : Bool × ExecutorManager S → Type 0
    Clears y =
        y.0 ≡ true
        → tracked h (mempool_of y.1) ≡ cleared h tx.user_operation_infos (tracked h (mempool_of x))

    finalize-Clears :
        (hash block : ℕ) (s : BundlingStatus)
        → s ≢ not_found
        → Clears (finalize sem net tx hash block s x)
    unfolding finalize
    finalize-Clears hash block (included details) n =
        elim (Bool-cases
          (include_ops net.viem net.now hash block details tx.user_operation_infos
            (mempool_of x)).0) [
              | inl c ↦
                  rw (c, finalize)
                    (λ done.
                      include_ops-cleared net.viem net.now hash block h details
                        tx.user_operation_infos (mempool_of x) once c)
              | inr c ↦ rw (c, finalize) (λ done. cc)
            ]
    finalize-Clears hash block (reverted true) n = λ done.
        elim (Bool-cases (any (has_hash h) tx.user_operation_infos)) [
          | inl c ↦ finalize-untracked sem net h out tx hash block x r c ∙ sym (rw c refl)
          | inr c ↦
              replace_in_mempool-other (with_more_gas x.config.aa95_gas_multiplier tx) _ c
              ∙ remove_all-cleared h tx.user_operation_infos (mempool_of x) once
        ]
    finalize-Clears hash block (reverted false) n =
        λ done. remove_all-cleared h tx.user_operation_infos (mempool_of x) once
    finalize-Clears hash block not_found n = λ done. absurd (n refl)

-- The first that is included or else the first that is reverted is one of the two.
finalized_transaction-known :
    (receipts : ℕ → Receipt) (entry_point : ℕ) (tx : TransactionInfo) (f : Finalized)
    → finalized_transaction receipts entry_point tx ≡ some f
    → f.status ≢ not_found
unfolding finalized_transaction
finalized_transaction-known receipts entry_point tx f h =
    by_first (find (λ d. is_included d.status) details) (find (λ d. is_reverted d.status) details)
      refl refl h
  where
    details : List Finalized
    details = details_at receipts entry_point (tx.transaction_hash ∷ tx.previous_transaction_hashes)

    by_first :
        (a b : Option Finalized)
        → find (λ d. is_included d.status) details ≡ a
        → find (λ d. is_reverted d.status) details ≡ b
        → or_else a b ≡ some f
        → f.status ≢ not_found
    by_first none none ea eb k = cc
    by_first none (some g) ea eb k =
        let same : g ≡ f = cc in
        let passed : is_reverted g.status ≡ true =
          find-passes (λ d. is_reverted d.status) details g eb in
        λ n.
          let bad : is_reverted not_found ≡ true =
            ap is_reverted (sym n) ∙ ap (λ d. is_reverted d.status) (sym same) ∙ passed in
          cc
    by_first (some g) b ea eb k =
        let same : g ≡ f = cc in
        let passed : is_included g.status ≡ true =
          find-passes (λ d. is_included d.status) details g ea in
        λ n.
          let bad : is_included not_found ≡ true =
            ap is_included (sym n) ∙ ap (λ d. is_included d.status) (sym same) ∙ passed in
          cc

-- When a transaction of a reachable mempool is final, whether it is mined or reverted, and nothing is
-- thrown, none of its operations is in the submitted pool any more, and every other operation is in
-- it as often as before.
pub refresh_transaction_status-clears :
    {S : Type 0} (sem : Semaphore S) (net : Network) (out : Outside) (receipts : ℕ → Receipt)
    (entry_point : ℕ) (tx : TransactionInfo) (x : ExecutorManager S) (f : Finalized) (h : ℕ)
    → Reachable out (mempool_of x)
    → finalized_transaction receipts entry_point tx ≡ some f
    → (refresh_transaction_status sem net receipts entry_point tx x).0 ≡ true
    → tracked h (mempool_of (refresh_transaction_status sem net receipts entry_point tx x).1)
      ≡ cleared h tx.user_operation_infos (tracked h (mempool_of x))
unfolding refresh_transaction_status
refresh_transaction_status-clears sem net out receipts entry_point tx x f h r e =
    rw (e, refresh_transaction_status)
      (finalize-Clears sem net h out tx x r f.transaction_hash (get_or_else f.block_number 0)
        f.status (finalized_transaction-known receipts entry_point tx f e))
