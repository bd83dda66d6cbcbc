-- ===== src/Mempool/Lifecycle/Steps.antt =====
-- The calls of the mempool on the tally of one hash, and everything they can reach.
use mathlib.Core.Path.{subst}
use pimlico_alto_smart_accou.Common.{
  ℕ, ◌≤◌, ◌≡◌, sym, Bool, true, false, ltb, ==_iff, any, find, count, Option, none, some,
  Option-cases, length, filter, ◌++◌, count-find-some, find-passes, if◌then◌else◌, arith, inl, inr,
}
use pimlico_alto_smart_accou.Store
use pimlico_alto_smart_accou.Store.{
  UserOperationInfo, SubmittedUserOperation, TransactionInfo, MemoryStore, has_hash,
  submitted_has_hash, empty_store, outstanding_ops,
}
use pimlico_alto_smart_accou.Store.Tally.{tally}
use pimlico_alto_smart_accou.UserOp.{sender, nonce, derive_user_operation, get_nonce_key_and_value}
use pimlico_alto_smart_accou.UserOp.Hashing.{Encoding}
use pimlico_alto_smart_accou.Mempool.{
  Mempool, new_mempool, mark_submitted, replace_submitted, clear, remove_submitted,
  remove_processing,
}
use pimlico_alto_smart_accou.Mempool.Adding.{
  AddResult, Request, from_sender, from_sender_and_key, new_info, enlist, add_request,
  without_outstanding, processed_or_submitted,
}
use pimlico_alto_smart_accou.Mempool.Adding.Cases.{add_request_cases}
use pimlico_alto_smart_accou.Mempool.Skipping.{Outside}
use pimlico_alto_smart_accou.Mempool.Bundling.{take_operation}
use pimlico_alto_smart_accou.Mempool.Lifecycle.{
  Operation, adds, takes, marks, replaces, drops_outstanding, drops_processing, drops_submitted,
  clears, apply, Allowed, Reachable, starts, steps, other, phase_of, may_move, total, Fits,
}
use pimlico_alto_smart_accou.Mempool.Lifecycle.Phases.{clear_fits}
use pimlico_alto_smart_accou.Mempool.Lifecycle.Moves.{
  any_some, drop_outstanding, drop_processing, drop_submitted, enter, mark, over, replace, stay,
  take, unknown_total,
}

if_store :
    (P : MemoryStore → Type 0) (a b : Bool) (x y z : AddResult × Mempool)
    → P x.1.store
    → P y.1.store
    → P z.1.store
    → P (if a then x else if b then y else z).1.store
if_store P true b x y z hx hy hz = hx
if_store P false true x y z hx hy hz = hy
if_store P false false x y z hx hy hz = hz

-- The pools after the end of `add`: as before, or with one more entry.
pub enlist_store :
    (m : Mempool) (q : Request) (old : Option UserOperationInfo) (P : MemoryStore → Type 0)
    → P m.store
    → P (Store.add_outstanding m.store (new_info q old))
    → P (enlist m q old).1.store
unfolding enlist
enlist_store m q old P refuse accept =
    if_store P
      (ltb m.config.mempool_max_parallel_ops (
        length
          (filter (from_sender (sender (derive_user_operation q.operation))) m.store.outstanding)))
      (ltb m.config.mempool_max_queued_ops (
        length (
          filter
            (from_sender_and_key (sender (derive_user_operation q.operation))
              (get_nonce_key_and_value (nonce (derive_user_operation q.operation))).0)
            m.store.outstanding)))
      _ _ _ refuse refuse accept

module _ (m : Mempool) (h : ℕ) (one : total (tally m.store h) ≤ 1) where
  add_step :
      (viem : Encoding) (q : Request)
      → Fits (tally m.store h) (tally (add_request viem m q).1.store h)
  add_step viem q =
      add_request_cases (λ r. Fits (tally m.store h) (tally r.1.store h)) q viem m
        (λ reason. stay m.store h one) (λ e r. stay m.store h one) (λ reason r. stay m.store h one)
        (λ r unknown c.
          enlist_store (record m { reputation = r }) q none
            (λ s. Fits (tally m.store h) (tally s h)) (stay m.store h one)
            (enter m.store h one (new_info q none) (λ e. fresh unknown e)))
        (λ r old unknown c free enough.
          enlist_store (without_outstanding (record m { reputation = r }) old.user_operation_hash) q
            (some old) (λ s. Fits (tally m.store h) (tally s h))
            (drop_outstanding m.store h one old.user_operation_hash)
            (over m.store h one old.user_operation_hash (new_info q (some old))
              (λ e. fresh unknown e)))
    where
      fresh :
          any (has_hash q.hash) (m.store.outstanding ++ processed_or_submitted m) ≡ false
          → q.hash ≡ h
          → total (tally m.store h) ≡ 0
      fresh unknown e = subst (λ k. total (tally m.store k) ≡ 0) e (unknown_total m q.hash unknown)

  clear_step : Fits (tally m.store h) (tally (clear m).store h)
  unfolding clear Store.clear
  clear_step =
      clear_fits h h (tally m.store h).outstanding (tally m.store h).processing
        (tally m.store h).submitted one

  mark_step :
      (now k : ℕ) (tx : TransactionInfo)
      → Fits (tally m.store h) (tally (mark_submitted m now k tx).store h)
  unfolding mark_submitted
  mark_step now k tx = elim (Option-cases (find (has_hash k) m.store.processing)) [
    | inl e ↦ rw (e, mark_submitted) (stay m.store h one)
    | inr (i, e) ↦
        rw (e, mark_submitted)
          (mark m.store h one k _
            ((==_iff i.user_operation_hash k).0 (find-passes (has_hash k) m.store.processing i e))
            (λ c.
              subst (λ j. 1 ≤ count (has_hash j) m.store.processing) c
                (count-find-some (has_hash k) m.store.processing i e)))
  ]

  replace_step :
      (now : ℕ) (info : UserOperationInfo) (tx : TransactionInfo)
      → Fits (tally m.store h) (tally (replace_submitted m now info tx).store h)
  unfolding replace_submitted
  replace_step now info tx =
      elim (Option-cases (find (submitted_has_hash info.user_operation_hash) m.store.submitted)) [
        | inl e ↦ rw (e, replace_submitted) (stay m.store h one)
        | inr (i, e) ↦
            rw (e, replace_submitted)
              (replace m.store h one _ (λ c.
                subst (λ j. 1 ≤ count (submitted_has_hash j) m.store.submitted) c
                  (count-find-some (submitted_has_hash info.user_operation_hash) m.store.submitted i
                    e)))
      ]

  apply-Fits :
      (out : Outside) (x : Operation)
      → Allowed x m
      → Fits (tally m.store h) (tally (apply out x m).store h)
  unfolding apply take_operation remove_submitted remove_processing
  apply-Fits out (adds q) a = add_step out.viem q
  apply-Fits out (takes info) a = take m.store h one info (λ c.
      subst (λ j. 1 ≤ count (has_hash j) m.store.outstanding) c
        (any_some (has_hash info.user_operation_hash) m.store.outstanding a))
  apply-Fits out (marks now k tx) a = mark_step now k tx
  apply-Fits out (replaces now info tx) a = replace_step now info tx
  apply-Fits out (drops_outstanding k) a = drop_outstanding m.store h one k
  apply-Fits out (drops_processing k) a = drop_processing m.store h one k
  apply-Fits out (drops_submitted k) a = drop_submitted m.store h one k
  apply-Fits out clears a = clear_step

pub Reachable-total :
    (out : Outside) {m : Mempool} → Reachable out m → (h : ℕ) → total (tally m.store h) ≤ 1
unfolding new_mempool empty_store
Reachable-total out (starts c mo r e) h = omega arith
Reachable-total out (steps {m} r x a) h = (apply-Fits m h (Reachable-total out r h) out x a).0
Reachable-total out (other {m} r n e) h =
    subst (λ t. total t ≤ 1) (sym (e h)) (Reachable-total out r h)

-- On the condition that every operation that `process` takes is still outstanding when it is taken,
-- in the steps that lead to the mempool and in this one (`process` does not test it, and tasks that
-- run while it awaits may break it), a hash is in at most one pool, at most once, and each call moves
-- it at most from absent to outstanding, from outstanding to processing, from processing to
-- submitted, or from any pool to absent.
pub apply-may_move :
    (out : Outside) (m : Mempool) (x : Operation) (h : ℕ)
    → Reachable out m
    → Allowed x m
    → (total (tally m.store h) ≤ 1)
      × (may_move (phase_of (tally m.store h)) (phase_of (tally (apply out x m).store h)) ≡ true)
apply-may_move out m x h r a =
    (Reachable-total out r h, (apply-Fits m h (Reachable-total out r h) out x a).1)
