-- ===== src/ExecutorManager/Refreshing/Untracked.antt =====
-- What a bundle that reverts with AA95 leaves in the pool of submitted operations.
use mathlib.Core.Path.{subst}
use pimlico_alto_smart_accou.Common.{
  ℕ, ◌+◌, ◌≤◌, ◌≡◌, refl, ap, ◌∙◌, true, List, [], ◌∷◌, any, count, find, filter, ◌==◌, not, leb,
  Bool-cases, Option-cases, inl, inr, arith, count-find-some,
}
use pimlico_alto_smart_accou.Store
use pimlico_alto_smart_accou.Store.{
  SubmittedUserOperation, TransactionInfo, UserOperationInfo, MemoryStore, has_hash,
  submitted_has_hash,
}
use pimlico_alto_smart_accou.Store.Tally.{plus, minus, tally-add_submitted, tally-remove_submitted}
use pimlico_alto_smart_accou.Mempool.{Mempool, remove_submitted, replace_submitted}
use pimlico_alto_smart_accou.Mempool.Skipping.{Outside}
use pimlico_alto_smart_accou.Mempool.Lifecycle.{Reachable}
use pimlico_alto_smart_accou.Mempool.Lifecycle.Steps.{Reachable-total}
use pimlico_alto_smart_accou.Senders.{Semaphore}
use pimlico_alto_smart_accou.Executor.Draft.{Network}
use pimlico_alto_smart_accou.Executor.Renewal.{
  Replaced, replaced, potentially_already_included, failed, throws_error, out_of_fuel,
}
use pimlico_alto_smart_accou.Executor.Replacing.Pools.{replace_transaction-HasStore}
use pimlico_alto_smart_accou.ExecutorManager.{ExecutorManager, mempool_of}
use pimlico_alto_smart_accou.ExecutorManager.Status.{reverted}
use pimlico_alto_smart_accou.ExecutorManager.Refreshing.{
  remove_all_submitted, replace_all_submitted, includes_op, count_entries, after_replacement,
  replace_in_mempool, finalize, with_more_gas,
}

-- How often the hash is in the pool of submitted operations.
abbrev pub tracked : ℕ → Mempool → ℕ
tracked h m = count (submitted_has_hash h) m.store.submitted

pub tracked-remove :
    (m : Mempool) (k h : ℕ) → tracked h (remove_submitted m k) ≡ minus k h (tracked h m)
unfolding remove_submitted
tracked-remove m k h = ap (λ t. t.submitted) (tally-remove_submitted m.store k h)

-- Nothing is tracked of a hash that was not, whatever is removed or replaced.
remove_all_none :
    (h : ℕ) (infos : List UserOperationInfo) (m : Mempool)
    → tracked h m ≡ 0
    → tracked h (remove_all_submitted infos m) ≡ 0
remove_all_none h [] m e = e
remove_all_none h (i ∷ infos) m e =
    remove_all_none h infos (remove_submitted m i.user_operation_hash)
      (ground (arith, tracked-remove m i.user_operation_hash h))

remove_all_known :
    (h : ℕ) (infos : List UserOperationInfo) (m : Mempool)
    → tracked h m ≤ 1
    → any (has_hash h) infos ≡ true
    → tracked h (remove_all_submitted infos m) ≡ 0
remove_all_known h [] m l k = cc
remove_all_known h (i ∷ infos) m l k = elim (Bool-cases (i.user_operation_hash == h)) [
  | inl e ↦
      remove_all_none h infos (remove_submitted m i.user_operation_hash)
        (ground (arith, tracked-remove m i.user_operation_hash h))
  | inr e ↦
      remove_all_known h infos (remove_submitted m i.user_operation_hash)
        (ground (arith, tracked-remove m i.user_operation_hash h)) (ground arith)
]

replace_none :
    (h now : ℕ) (tx : TransactionInfo) (i : UserOperationInfo) (m : Mempool)
    → tracked h m ≡ 0
    → tracked h (replace_submitted m now i tx) ≡ 0
unfolding replace_submitted
replace_none h now tx i m e =
    elim (Option-cases (find (submitted_has_hash i.user_operation_hash) m.store.submitted)) [
      | inl f ↦ rw (f, replace_submitted) e
      | inr (s, f) ↦
          rw (f, replace_submitted)
            (ap (λ t. t.submitted)
                (tally-add_submitted (Store.remove_submitted m.store i.user_operation_hash)
                  (record { user_operation = i; transaction_info = tx }) h)
              ∙ ap (λ t. plus i.user_operation_hash h t.submitted)
                  (tally-remove_submitted m.store i.user_operation_hash h)
              ∙ still_none i.user_operation_hash h (tracked h m) e (λ c.
                subst (λ k. 1 ≤ tracked k m) c
                  (count-find-some (submitted_has_hash i.user_operation_hash) m.store.submitted s
                    f)))
    ]
  where
    still_none : (k j n : ℕ) → n ≡ 0 → (k ≡ j → 1 ≤ n) → plus k j (minus k j n) ≡ 0
    still_none k j n z f = ground arith

replace_all_none :
    (h now : ℕ) (tx : TransactionInfo) (infos : List UserOperationInfo) (m : Mempool)
    → tracked h m ≡ 0
    → tracked h (replace_all_submitted now tx infos m) ≡ 0
replace_all_none h now tx [] m e = e
replace_all_none h now tx (i ∷ infos) m e =
    replace_all_none h now tx infos (replace_submitted m now i tx) (replace_none h now tx i m e)

pub count_entries-tracked :
    (k h : ℕ) (ss : List SubmittedUserOperation)
    → count (submitted_has_hash h) (count_entries k ss) ≡ count (submitted_has_hash h) ss
count_entries-tracked k h [] = refl
count_entries-tracked k h (s ∷ ss) = ground (arith, count_entries-tracked k h ss)

module _ {S : Type 0} (sem : Semaphore S) (net : Network) (h : ℕ) where
  after_replacement-none :
      (tx : TransactionInfo) (r : Replaced) (x : ExecutorManager S)
      → tracked h (mempool_of x) ≡ 0
      → tracked h (mempool_of (after_replacement sem net tx r x).1) ≡ 0
  unfolding after_replacement
  after_replacement-none tx failed x e = remove_all_none h tx.user_operation_infos _ e
  after_replacement-none tx potentially_already_included x e =
      elim (Bool-cases (leb 3 (tx.times_potentially_included + 1))) [
        | inl c ↦
            rw (c, after_replacement)
              (remove_all_none h tx.user_operation_infos _
                (count_entries-tracked tx.transaction_hash h (mempool_of x).store.submitted ∙ e))
        | inr c ↦
            rw (c, after_replacement)
              (count_entries-tracked tx.transaction_hash h (mempool_of x).store.submitted ∙ e)
      ]
  after_replacement-none tx (replaced new) x e =
      remove_all_none h
        (filter (λ i. not (includes_op new.user_operation_infos i)) tx.user_operation_infos)
        (replace_all_submitted net.now new
          (filter (includes_op new.user_operation_infos) tx.user_operation_infos) (mempool_of x))
        (replace_all_none h net.now new
          (filter (includes_op new.user_operation_infos) tx.user_operation_infos) (mempool_of x) e)
  after_replacement-none tx throws_error x e = e
  after_replacement-none tx out_of_fuel x e = e

  replace_in_mempool-none :
      (tx : TransactionInfo) (x : ExecutorManager S)
      → tracked h (mempool_of x) ≡ 0
      → tracked h (mempool_of (replace_in_mempool sem net tx x).1) ≡ 0
  unfolding replace_in_mempool
  replace_in_mempool-none tx x e = after_replacement-none tx _ _ (
      ap (λ s. count (submitted_has_hash h) s.submitted)
        (replace_transaction-HasStore sem net _ tx x.executor refl)
      ∙ e)

  -- When a bundle of a reachable mempool reverts with AA95, the attempt with more gas, whether it
  -- replaces the transaction or not, leaves none of the operations of the bundle among those that
  -- are submitted.
  pub finalize-untracked :
      (out : Outside) (tx : TransactionInfo) (hash block : ℕ) (x : ExecutorManager S)
      → Reachable out (mempool_of x)
      → any (has_hash h) tx.user_operation_infos ≡ true
      → tracked h (mempool_of (finalize sem net tx hash block (reverted true) x).1) ≡ 0
  unfolding finalize
  finalize-untracked out tx hash block x r k =
      replace_in_mempool-none (with_more_gas x.config.aa95_gas_multiplier tx) _ (
        remove_all_known h tx.user_operation_infos (mempool_of x)
          (omega (arith, Reachable-total out r h)) k)
