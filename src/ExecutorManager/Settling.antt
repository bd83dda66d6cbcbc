-- ===== src/ExecutorManager/Settling.antt =====
-- The processing pool while sendToExecutor of src/executor/executorManager.ts handles the results of
-- a bundle.
pub mod Bundling
pub mod Sending
use mathlib.Core.Path.{subst}
use pimlico_alto_smart_accou.Common.{
  ℕ, ◌≤◌, ◌≡◌, refl, sym, ap, ◌∙◌, true, false, Option, none, some, Option-cases, Bool-cases, List,
  [], ◌∷◌, ◌==◌, any, find, count, count-find-none, ==_iff, arith, inl, inr,
}
use pimlico_alto_smart_accou.UserOp.Hashing.{Encoding}
use pimlico_alto_smart_accou.Store
use pimlico_alto_smart_accou.Store.{
  TransactionInfo, MemoryStore, has_hash, add_outstanding, remove_outstanding, add_submitted,
}
use pimlico_alto_smart_accou.Store.Tally.{
  tally, minus, tally-remove_outstanding, tally-add_outstanding, tally-remove_processing,
  tally-add_submitted,
}
use pimlico_alto_smart_accou.Mempool.{Mempool, mark_submitted, remove_processing}
use pimlico_alto_smart_accou.Mempool.Adding.{
  Request, add, add_request, new_info, without_outstanding,
}
use pimlico_alto_smart_accou.Mempool.Adding.Cases.{add_request_cases}
use pimlico_alto_smart_accou.Mempool.Skipping.{Outside}
use pimlico_alto_smart_accou.Mempool.Lifecycle.{Reachable, total}
use pimlico_alto_smart_accou.Mempool.Lifecycle.Steps.{enlist_store, Reachable-total}
use pimlico_alto_smart_accou.Executor.{Text, Failure, BundleResult, success, failure, resubmit}
use pimlico_alto_smart_accou.Executor.Bundle.Answers.{hash_of}
use pimlico_alto_smart_accou.ExecutorManager.{
  drop_failed, reason_text, handle_result, handle_results,
}

-- How often the hash is in the processing pool.
abbrev pub in_process : ℕ → Mempool → ℕ
in_process h m = count (has_hash h) m.store.processing

remove-process :
    (m : Mempool) (k h : ℕ) → in_process h (remove_processing m k) ≡ minus k h (in_process h m)
unfolding remove_processing
remove-process m k h = ap (λ t. t.processing) (tally-remove_processing m.store k h)

mark-process :
    (m : Mempool) (now k h : ℕ) (tx : TransactionInfo)
    → in_process h (mark_submitted m now k tx) ≡ minus k h (in_process h m)
unfolding mark_submitted
mark-process m now k h tx = elim (Option-cases (find (has_hash k) m.store.processing)) [
  | inl e ↦ rw (e, mark_submitted) (missing (count-find-none (has_hash k) m.store.processing e))
  | inr (i, e) ↦
      rw (e, mark_submitted)
        (ap (λ t. t.processing) (tally-add_submitted (Store.remove_processing m.store k) _ h)
          ∙ ap (λ t. t.processing) (tally-remove_processing m.store k h))
]
  where
    missing : in_process k m ≡ 0 → in_process h m ≡ minus k h (in_process h m)
    missing z = elim (Bool-cases (k == h)) [
      | inl c ↦
          let zero : in_process h m ≡ 0 = subst (λ x. in_process x m ≡ 0) ((==_iff k h).0 c) z in
          rw (zero) (elim (Bool-cases (k == h)) [ inl d ↦ rw (d) refl | inr d ↦ rw (d) refl ])
      | inr c ↦ rw (c) refl
    ]

pub add-process :
    (viem : Encoding) (m : Mempool) (q : Request) (h : ℕ)
    → in_process h (add_request viem m q).1 ≡ in_process h m
add-process viem m q h =
    add_request_cases (λ r. in_process h r.1 ≡ in_process h m) q viem m (λ reason. refl)
      (λ e r. refl) (λ reason r. refl)
      (λ r unknown c.
        enlist_store (record m { reputation = r }) q none
          (λ s. count (has_hash h) s.processing ≡ in_process h m) refl
          (ap (λ t. t.processing) (tally-add_outstanding m.store (new_info q none) h)))
      (λ r old unknown c free enough.
        enlist_store (without_outstanding (record m { reputation = r }) old.user_operation_hash) q
          (some old) (λ s. count (has_hash h) s.processing ≡ in_process h m)
          (ap (λ t. t.processing) (tally-remove_outstanding m.store old.user_operation_hash h))
          (ap (λ t. t.processing)
              (tally-add_outstanding (remove_outstanding m.store old.user_operation_hash)
                (new_info q (some old)) h)
            ∙ ap (λ t. t.processing) (tally-remove_outstanding m.store old.user_operation_hash h)))

module _ (viem : Encoding) (now : ℕ) where
  drop-process :
      (f : Failure) (text : Option Text) (m : Mempool) (h : ℕ)
      → in_process h (drop_failed viem now f text m).1 ≡ in_process h m
  unfolding drop_failed
  drop-process f none m h = refl
  drop-process f (some text) m h = refl

  -- A result takes away one entry of its hash.
  result-process :
      (b : BundleResult) (m : Mempool) (h : ℕ)
      → in_process h (handle_result viem now b m).1 ≡ minus (hash_of b) h (in_process h m)
  unfolding handle_result add
  result-process (success info tx) m h = mark-process m now info.user_operation_hash h tx
  result-process (failure f) m h =
      drop-process f (reason_text f.reason) (remove_processing m f.user_op_hash) h
      ∙ remove-process m f.user_op_hash h
  result-process (resubmit f) m h =
      add-process viem (remove_processing m f.user_op_hash) _ h ∙ remove-process m f.user_op_hash h

  minus-zero : (k h n : ℕ) → n ≡ 0 → minus k h n ≡ 0
  minus-zero k h n z = ground arith

  minus-one : (k h n : ℕ) → n ≤ 1 → (k == h) ≡ true → minus k h n ≡ 0
  minus-one k h n l e = ground arith

  results-none :
      (bs : List BundleResult) (m : Mempool) (h : ℕ)
      → in_process h m ≡ 0
      → in_process h (handle_results viem now bs m).1 ≡ 0
  unfolding handle_results
  results-none [] m h z = z
  results-none (b ∷ bs) m h z =
      let step : _ = result-process b m h ∙ minus-zero (hash_of b) h (in_process h m) z in
      elim (Bool-cases (handle_result viem now b m).0) [
        | inl e ↦ rw (e, handle_results) (results-none bs _ h step)
        | inr e ↦ rw (e, handle_results) step
      ]

  pub results-settle :
      (bs : List BundleResult) (m : Mempool) (h : ℕ)
      → in_process h m ≤ 1
      → any (λ b. hash_of b == h) bs ≡ true
      → (handle_results viem now bs m).0 ≡ true
      → in_process h (handle_results viem now bs m).1 ≡ 0
  unfolding handle_results
  results-settle [] m h l k done = cc
  results-settle (b ∷ bs) m h l k done = elim (Bool-cases (handle_result viem now b m).0) [
    | inl e ↦
        rw (e, handle_results)
          (elim (Bool-cases (hash_of b == h)) [
            | inl c ↦
                results-none bs _ h
                  (result-process b m h ∙ minus-one (hash_of b) h (in_process h m) l c)
            | inr c ↦ results-settle bs _ h (at_most c) (later c k) (through e done)
          ])
    | inr e ↦ absurd (stopped e done)
  ]
    where
      at_most : (hash_of b == h) ≡ false → in_process h (handle_result viem now b m).1 ≤ 1
      at_most c = subst (λ n. n ≤ 1) (sym (result-process b m h)) (rw (c) l)

      later :
          (hash_of b == h) ≡ false
          → any (λ r. hash_of r == h) (b ∷ bs) ≡ true
          → any (λ r. hash_of r == h) bs ≡ true
      later c k = ground arith

      through :
          (handle_result viem now b m).0 ≡ true
          → (handle_results viem now (b ∷ bs) m).0 ≡ true
          → (handle_results viem now bs (handle_result viem now b m).1).0 ≡ true
      through e d =
          let step : (handle_results viem now (b ∷ bs) m).0
              ≡ (handle_results viem now bs (handle_result viem now b m).1).0 =
            rw (e, handle_results) refl in
          sym step ∙ d

      stopped :
          (handle_result viem now b m).0 ≡ false → (handle_results viem now (b ∷ bs) m).0 ≡ true → ⊥
      stopped e d =
          let step : (handle_results viem now (b ∷ bs) m).0 ≡ false = rw (e, handle_results) refl in
          let bad : false ≡ true = sym step ∙ d in cc

  -- In a reachable mempool, where the handling of the results of a bundle gets through, a hash that
  -- one of the results names, whatever kind it is, is in the processing pool no more.
  pub handle_results-settles :
      (out : Outside) (bs : List BundleResult) (m : Mempool) (h : ℕ)
      → Reachable out m
      → any (λ b. hash_of b == h) bs ≡ true
      → (handle_results viem now bs m).0 ≡ true
      → in_process h (handle_results viem now bs m).1 ≡ 0
  handle_results-settles out bs m h r k done =
      let whole : total (tally m.store h) ≤ 1 = Reachable-total out r h in
      results-settle bs m h (omega arith) k done
