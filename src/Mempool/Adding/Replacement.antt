-- ===== src/Mempool/Adding/Replacement.antt =====
-- What a replacement needs and does, and what a refusal leaves (`add` of src/mempool/mempool.ts).
use pimlico_alto_smart_accou.Common.{
  ◌≤◌, ◌≡◌, refl, ap, false, Option, none, some, arith, any, ◌⊎◌, inl, inr,
}
use pimlico_alto_smart_accou.UserOp.{
  UserOperation, derive_user_operation, max_fee_per_gas, max_priority_fee_per_gas,
}
use pimlico_alto_smart_accou.UserOp.Hashing.{Encoding}
use pimlico_alto_smart_accou.Store.{
  UserOperationInfo, add_outstanding, remove_outstanding, has_hash,
}
use pimlico_alto_smart_accou.Mempool.{Mempool, op_of}
use pimlico_alto_smart_accou.Mempool.Adding.{
  added, refused, Refusal, too_many_parallel, too_many_queued, Request, new_info, enlist,
  without_outstanding, bumped, underpriced, add_request, find_conflict, processed_or_submitted,
}
use pimlico_alto_smart_accou.Mempool.Adding.Cases.{add_request_cases}

enlist-added :
    (m : Mempool) (q : Request) (old : Option UserOperationInfo)
    → (enlist m q old).0 ≡ added
    → (enlist m q old).1.store ≡ add_outstanding m.store (new_info q old)
unfolding enlist
enlist-added m q old h = ground arith

enlist-refused :
    (m : Mempool) (q : Request) (old : Option UserOperationInfo) (reason : Refusal)
    → (enlist m q old).0 ≡ refused reason
    → ((enlist m q old).1 ≡ m) × ((reason ≡ too_many_parallel) ⊎ (reason ≡ too_many_queued))
unfolding enlist
enlist-refused m q old reason h = ground arith

underpriced-false :
    (old op : UserOperation)
    → underpriced old op ≡ false
    → (bumped (max_priority_fee_per_gas old) ≤ max_priority_fee_per_gas op)
      × (bumped (max_fee_per_gas old) ≤ max_fee_per_gas op)
unfolding underpriced
underpriced-false old op h = ground arith

-- An operation that is added although another stands in its way (the same sender and nonce, or a
-- second deployment of one sender) replaces it: each of its two fees is at least the other's fee and a
-- tenth of that fee, rounded down (so a fee below 10 need not grow), the other
-- is neither processing nor submitted, it leaves the outstanding pool, and the new entry, at the end
-- of the pool, keeps the time of its first submission. The two other pools are as they were.
pub add_request-replaces :
    (viem : Encoding) (m : Mempool) (q : Request) (old : UserOperationInfo)
    → (add_request viem m q).0 ≡ added
    → find_conflict m (derive_user_operation q.operation) ≡ some old
    → let op = derive_user_operation q.operation in
      let m' = (add_request viem m q).1 in
      (bumped (max_priority_fee_per_gas (op_of old)) ≤ max_priority_fee_per_gas op)
      × (bumped (max_fee_per_gas (op_of old)) ≤ max_fee_per_gas op)
      × (any (has_hash old.user_operation_hash) (processed_or_submitted m) ≡ false)
      × (m'.store
          ≡ add_outstanding
              (remove_outstanding m.store old.user_operation_hash)
              (new_info q (some old)))
add_request-replaces viem m q old =
    add_request_cases
      (λ r.
        r.0 ≡ added
        → find_conflict m op ≡ some old
        → (bumped (max_priority_fee_per_gas (op_of old)) ≤ max_priority_fee_per_gas op)
          × (bumped (max_fee_per_gas (op_of old)) ≤ max_fee_per_gas op)
          × (any (has_hash old.user_operation_hash) (processed_or_submitted m) ≡ false)
          × (r.1.store
              ≡ add_outstanding (remove_outstanding m.store old.user_operation_hash)
                  (new_info q (some old))))
      q viem m (λ reason e. cc) (λ x r e. cc) (λ reason r e. cc) (λ r unknown c e d. cc)
      (λ r other unknown c free enough e d.
        let same : other ≡ old = cc in
        rw (← same) (
          (underpriced-false (op_of other) op enough).0,
          (underpriced-false (op_of other) op enough).1,
          free,
          enlist-added (without_outstanding (record m { reputation = r }) other.user_operation_hash)
              q (some other) e,
        ))
  where
    op : UserOperation
    op = derive_user_operation q.operation

-- A refused operation leaves the store as it was, but for one case: when a limit of the sender
-- refuses it after the operation in its way was taken out, that other operation stays out.
pub add_request-refused :
    (viem : Encoding) (m : Mempool) (q : Request) (reason : Refusal)
    → (add_request viem m q).0 ≡ refused reason
    → ((add_request viem m q).1.store ≡ m.store)
      ⊎ ((old : UserOperationInfo) × (find_conflict m (derive_user_operation q.operation)
            ≡ some old)
          × ((reason ≡ too_many_parallel) ⊎ (reason ≡ too_many_queued))
          × ((add_request viem m q).1.store ≡ remove_outstanding m.store old.user_operation_hash))
add_request-refused viem m q reason =
    add_request_cases
      (λ r.
        r.0 ≡ refused reason
        → (r.1.store ≡ m.store)
          ⊎ ((old : UserOperationInfo) × (find_conflict m (derive_user_operation q.operation)
                ≡ some old)
              × ((reason ≡ too_many_parallel) ⊎ (reason ≡ too_many_queued))
              × (r.1.store ≡ remove_outstanding m.store old.user_operation_hash)))
      q viem m (λ why e. inl refl) (λ x r e. inl refl) (λ why r e. inl refl)
      (λ r unknown c e. inl (
        ap (λ (n : Mempool). n.store)
          (enlist-refused (record m { reputation = r }) q none reason e).0))
      (λ r old unknown c free enough e.
        let (kept, why) =
          enlist-refused (without_outstanding (record m { reputation = r }) old.user_operation_hash)
            q (some old) reason e in
        inr (old, c, why, ap (λ (n : Mempool). n.store) kept))
