-- ===== src/ExecutorManager/Refreshing/Clearing.antt =====
-- The submitted pool while operations leave it one by one or move to another transaction
-- (refreshTransactionStatus and replaceTransaction of src/executor/executorManager.ts).
use mathlib.Core.Path.{subst}
use pimlico_alto_smart_accou.Common.{
  ℕ, ◌≤◌, ◌≡◌, refl, sym, ap, ◌∙◌, Bool, true, false, Option, none, some, Option-cases, Bool-cases,
  List, [], ◌∷◌, find, filter, any, ◌==◌, arith, inl, inr, if◌then◌else◌, Dict, get?,
}
use pimlico_alto_smart_accou.UserOp.{derive_user_operation}
use pimlico_alto_smart_accou.UserOp.Hashing.{Encoding}
use pimlico_alto_smart_accou.Store
use pimlico_alto_smart_accou.Store.{
  UserOperationInfo, SubmittedUserOperation, TransactionInfo, has_hash, submitted_has_hash,
}
use pimlico_alto_smart_accou.Store.Tally.{plus, minus, tally-add_submitted, tally-remove_submitted}
use pimlico_alto_smart_accou.Reputation.{Outcome, returned, thrown}
use pimlico_alto_smart_accou.Reputation.Interface.{any_update_included_status}
use pimlico_alto_smart_accou.Mempool.{Mempool, remove_submitted, replace_submitted}
use pimlico_alto_smart_accou.ExecutorManager.Status.{UserOperationDetails}
use pimlico_alto_smart_accou.ExecutorManager.Refreshing.{
  remove_all_submitted, replace_all_submitted, include_op, include_ops,
}
use pimlico_alto_smart_accou.ExecutorManager.Refreshing.Untracked.{tracked, tracked-remove}

-- The number of entries of a hash after the operations of a transaction have left the pool.
abbrev pub cleared : ℕ → List UserOperationInfo → ℕ → ℕ
cleared h infos n = if any (has_hash h) infos then 0 else n

cleared_step :
    (h n : ℕ) (i : UserOperationInfo) (infos : List UserOperationInfo)
    → n ≤ 1
    → cleared h infos (minus i.user_operation_hash h n) ≡ cleared h (i ∷ infos) n
cleared_step h n i infos l = ground arith

minus_small : (k h n : ℕ) → n ≤ 1 → minus k h n ≤ 1
minus_small k h n l = ground arith

pub remove_all-cleared :
    (h : ℕ) (infos : List UserOperationInfo) (m : Mempool)
    → tracked h m ≤ 1
    → tracked h (remove_all_submitted infos m) ≡ cleared h infos (tracked h m)
remove_all-cleared h [] m l = refl
remove_all-cleared h (i ∷ infos) m l =
    let left : _ = tracked-remove m i.user_operation_hash h in
    remove_all-cleared h infos (remove_submitted m i.user_operation_hash)
      (subst (λ n. n ≤ 1) (sym left) (minus_small i.user_operation_hash h (tracked h m) l))
    ∙ ap (cleared h infos) left
    ∙ cleared_step h (tracked h m) i infos l

module _ (viem : Encoding) (now hash block h : ℕ) where
  include_op-tracked :
      (i : UserOperationInfo) (d : Option UserOperationDetails) (m : Mempool)
      → tracked h (include_op viem now hash block i d m).1
        ≡ minus i.user_operation_hash h (tracked h m)
  unfolding include_op
  include_op-tracked i none m = tracked-remove m i.user_operation_hash h
  include_op-tracked i (some d) m =
      by_outcome
        (any_update_included_status viem.bytes.get_address
          (derive_user_operation i.mempool_user_operation) i.entry_point d.account_deployed
          m.reputation).0
        refl
    where
      by_outcome :
          (o : Outcome (Unit {0}))
          → (any_update_included_status viem.bytes.get_address
              (derive_user_operation i.mempool_user_operation)
              i.entry_point
              d.account_deployed
              m.reputation).0
            ≡ o
          → tracked h (include_op viem now hash block i (some d) m).1
            ≡ minus i.user_operation_hash h (tracked h m)
      by_outcome (returned _) e = rw (e, include_op) (tracked-remove m i.user_operation_hash h)
      by_outcome (thrown _) e = rw (e, include_op) (tracked-remove m i.user_operation_hash h)

  pub include_ops-cleared :
      (details : Dict UserOperationDetails) (infos : List UserOperationInfo) (m : Mempool)
      → tracked h m ≤ 1
      → (include_ops viem now hash block details infos m).0 ≡ true
      → tracked h (include_ops viem now hash block details infos m).1
        ≡ cleared h infos (tracked h m)
  unfolding include_ops
  include_ops-cleared details [] m l = λ done. refl
  include_ops-cleared details (i ∷ infos) m l =
      elim (Bool-cases
        (include_op viem now hash block i (get? details i.user_operation_hash) m).0) [
          | inl e ↦
              rw (e, include_ops)
                (λ done.
                  let left : _ = include_op-tracked i (get? details i.user_operation_hash) m in
                  include_ops-cleared details infos _
                    (subst (λ n. n ≤ 1) (sym left)
                      (minus_small i.user_operation_hash h (tracked h m) l))
                    done
                  ∙ ap (cleared h infos) left
                  ∙ cleared_step h (tracked h m) i infos l)
          | inr e ↦ rw (e, include_ops) (λ done. cc)
        ]

pub any-filter :
    {A : Type 0} (p q : A → Bool) (xs : List A) → any p xs ≡ false → any p (filter q xs) ≡ false
any-filter p q [] e = refl
any-filter p q (x ∷ xs) e = ground (arith, any-filter p q xs)

same_number : (k h n : ℕ) → (k == h) ≡ false → plus k h (minus k h n) ≡ n
same_number k h n e = ground arith

module _ (h now : ℕ) (tx : TransactionInfo) where
  replace-other :
      (i : UserOperationInfo) (m : Mempool)
      → (i.user_operation_hash == h) ≡ false
      → tracked h (replace_submitted m now i tx) ≡ tracked h m
  unfolding replace_submitted
  replace-other i m e =
      elim (Option-cases (find (submitted_has_hash i.user_operation_hash) m.store.submitted)) [
        | inl f ↦ rw (f, replace_submitted) refl
        | inr (s, f) ↦
            rw (f, replace_submitted)
              (ap (λ t. t.submitted)
                  (tally-add_submitted (Store.remove_submitted m.store i.user_operation_hash)
                    (record { user_operation = i; transaction_info = tx }) h)
                ∙ ap (λ t. plus i.user_operation_hash h t.submitted)
                    (tally-remove_submitted m.store i.user_operation_hash h)
                ∙ same_number i.user_operation_hash h (tracked h m) e)
      ]

  pub replace_all-other :
      (infos : List UserOperationInfo) (m : Mempool)
      → any (has_hash h) infos ≡ false
      → tracked h (replace_all_submitted now tx infos m) ≡ tracked h m
  replace_all-other [] m e = refl
  replace_all-other (i ∷ infos) m e =
      replace_all-other infos (replace_submitted m now i tx) (ground arith)
      ∙ replace-other i m (ground arith)

pub remove_all-other :
    (h : ℕ) (infos : List UserOperationInfo) (m : Mempool)
    → any (has_hash h) infos ≡ false
    → tracked h (remove_all_submitted infos m) ≡ tracked h m
remove_all-other h [] m e = refl
remove_all-other h (i ∷ infos) m e =
    remove_all-other h infos (remove_submitted m i.user_operation_hash) (ground arith)
    ∙ tracked-remove m i.user_operation_hash h
    ∙ (let other : (i.user_operation_hash == h) ≡ false = ground arith in rw other refl)
