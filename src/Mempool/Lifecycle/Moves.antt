-- ===== src/Mempool/Lifecycle/Moves.antt =====
-- The methods of the store on the tally of one hash, as changes that its life allows.
use mathlib.Core.Path.{subst}
use pimlico_alto_smart_accou.Common.{
  ℕ, ◌≤◌, ◌≡◌, refl, ap, sym, ◌∙◌, Bool, true, false, any, count, List, [], ◌∷◌, ◌++◌, map, arith,
}
use pimlico_alto_smart_accou.Store
use pimlico_alto_smart_accou.Store.{
  UserOperationInfo, SubmittedUserOperation, TransactionInfo, MemoryStore, has_hash,
  submitted_has_hash, empty_store, outstanding_ops,
}
use pimlico_alto_smart_accou.Store.Tally.{
  Tally, tally, plus, minus, tally-add_outstanding, tally-remove_outstanding, tally-add_processing,
  tally-remove_processing, tally-add_submitted, tally-remove_submitted,
}
use pimlico_alto_smart_accou.Mempool.{Mempool, info_of}
use pimlico_alto_smart_accou.Mempool.Adding.{processed_or_submitted}
use pimlico_alto_smart_accou.Mempool.Lifecycle.{total, Fits}
use pimlico_alto_smart_accou.Mempool.Lifecycle.Phases.{
  stay_fits, enter_fits, over_fits, leave_outstanding_fits, leave_processing_fits,
  leave_submitted_fits, take_fits, mark_fits, replace_fits,
}

module _ {A : Type 0} (p : A → Bool) where
  pub any-count : (xs : List A) → any p xs ≡ false → count p xs ≡ 0
  any-count [] h = refl
  any-count (x ∷ xs) h = ground (arith, any-count xs)

  pub any_some : (xs : List A) → any p xs ≡ true → 1 ≤ count p xs
  any_some [] h = cc
  any_some (x ∷ xs) h = ground (arith, any_some xs)

  pub any_parts :
      (xs ys : List A) → any p (xs ++ ys) ≡ false → (any p xs ≡ false) × (any p ys ≡ false)
  any_parts [] ys h = (refl, h)
  any_parts (x ∷ xs) ys h = ground (arith, any_parts xs ys)

pub any-submitted :
    (h : ℕ) (xs : List SubmittedUserOperation)
    → any (has_hash h) (map info_of xs) ≡ false
    → count (submitted_has_hash h) xs ≡ 0
any-submitted h [] e = refl
any-submitted h (x ∷ xs) e = ground (arith, any-submitted h xs)

-- A hash that `add` does not know is in no pool.
pub unknown_total :
    (m : Mempool) (h : ℕ)
    → any (has_hash h) (m.store.outstanding ++ processed_or_submitted m) ≡ false
    → total (tally m.store h) ≡ 0
unknown_total m h e =
    let (out, rest) = any_parts (has_hash h) m.store.outstanding (processed_or_submitted m) e in
    let (pro, sub) =
      any_parts (has_hash h) m.store.processing (map info_of m.store.submitted) rest in
    omega (
      arith,
      any-count (has_hash h) m.store.outstanding out,
      any-count (has_hash h) m.store.processing pro,
      any-submitted h m.store.submitted sub,
    )

module _ (s : MemoryStore) (h : ℕ) (one : total (tally s h) ≤ 1) where
  abbrev pub o : ℕ
  o = (tally s h).outstanding

  abbrev pub p : ℕ
  p = (tally s h).processing

  abbrev pub u : ℕ
  u = (tally s h).submitted

  pub stay : Fits (tally s h) (tally s h)
  stay = stay_fits h h o p u one

  -- A step to the tally that the number lemmas speak of.
  pub land : {a b : Tally} → a ≡ b → Fits (tally s h) b → Fits (tally s h) a
  land e f = subst (λ t. Fits (tally s h) t) (sym e) f

  pub drop_outstanding : (k : ℕ) → Fits (tally s h) (tally (Store.remove_outstanding s k) h)
  drop_outstanding k = land (tally-remove_outstanding s k h) (leave_outstanding_fits k h o p u one)

  pub drop_processing : (k : ℕ) → Fits (tally s h) (tally (Store.remove_processing s k) h)
  drop_processing k = land (tally-remove_processing s k h) (leave_processing_fits k h o p u one)

  pub drop_submitted : (k : ℕ) → Fits (tally s h) (tally (Store.remove_submitted s k) h)
  drop_submitted k = land (tally-remove_submitted s k h) (leave_submitted_fits k h o p u one)

  pub enter :
      (i : UserOperationInfo)
      → (i.user_operation_hash ≡ h → total (tally s h) ≡ 0)
      → Fits (tally s h) (tally (Store.add_outstanding s i) h)
  enter i e = land (tally-add_outstanding s i h) (enter_fits i.user_operation_hash h o p u one e)

  pub over :
      (k : ℕ) (i : UserOperationInfo)
      → (i.user_operation_hash ≡ h → total (tally s h) ≡ 0)
      → Fits (tally s h) (tally (Store.add_outstanding (Store.remove_outstanding s k) i) h)
  over k i e =
      land
        (tally-add_outstanding (Store.remove_outstanding s k) i h
          ∙ ap {B = Tally}
              (λ t. record t { outstanding = plus i.user_operation_hash h t.outstanding })
              (tally-remove_outstanding s k h))
        (over_fits i.user_operation_hash h o p u one k e)

  pub take :
      (i : UserOperationInfo)
      → (i.user_operation_hash ≡ h → 1 ≤ o)
      → Fits
          (tally s h)
          (tally (Store.add_processing (Store.remove_outstanding s i.user_operation_hash) i) h)
  take i e =
      land
        (tally-add_processing (Store.remove_outstanding s i.user_operation_hash) i h
          ∙ ap {B = Tally}
              (λ t. record t { processing = plus i.user_operation_hash h t.processing })
              (tally-remove_outstanding s i.user_operation_hash h))
        (take_fits i.user_operation_hash h o p u one e)

  pub mark :
      (k : ℕ) (i : SubmittedUserOperation)
      → i.user_operation.user_operation_hash ≡ k
      → (k ≡ h → 1 ≤ p)
      → Fits (tally s h) (tally (Store.add_submitted (Store.remove_processing s k) i) h)
  mark k i c e =
      land
        (tally-add_submitted (Store.remove_processing s k) i h
          ∙ ap {B = Tally}
              (λ t. record t {
                submitted = plus i.user_operation.user_operation_hash h t.submitted;
              })
              (tally-remove_processing s k h)
          ∙ ap {B = Tally}
              (λ j. record (tally s h) { processing = minus k h p; submitted = plus j h u }) c)
        (mark_fits k h o p u one e)

  pub replace :
      (i : SubmittedUserOperation)
      → (i.user_operation.user_operation_hash ≡ h → 1 ≤ u)
      → Fits (tally s h) (
          tally
            (Store.add_submitted (Store.remove_submitted s i.user_operation.user_operation_hash) i)
            h)
  replace i e =
      land
        (tally-add_submitted (Store.remove_submitted s i.user_operation.user_operation_hash) i h
          ∙ ap {B = Tally}
              (λ t. record t {
                submitted = plus i.user_operation.user_operation_hash h t.submitted;
              })
              (tally-remove_submitted s i.user_operation.user_operation_hash h))
        (replace_fits i.user_operation.user_operation_hash h o p u one e)
