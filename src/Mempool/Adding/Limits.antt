-- ===== src/Mempool/Adding/Limits.antt =====
-- The limits on the outstanding operations of a sender (`add` of src/mempool/mempool.ts).
use pimlico_alto_smart_accou.Common.{
  ℕ, ◌+◌, ◌≤◌, Option, none, some, [], ◌∷◌, arith, count, count-append, length-filter,
}
use pimlico_alto_smart_accou.UserOp.{derive_user_operation, sender, nonce, get_nonce_key_and_value}
use pimlico_alto_smart_accou.UserOp.Hashing.{Encoding}
use pimlico_alto_smart_accou.Store.{UserOperationInfo, add_outstanding}
use pimlico_alto_smart_accou.Store.Removal.{count-remove_outstanding-le}
use pimlico_alto_smart_accou.Reputation.Interface.{AnyReputationManager}
use pimlico_alto_smart_accou.Mempool.{Mempool}
use pimlico_alto_smart_accou.Mempool.Adding.{
  Request, from_sender, from_sender_and_key, new_info, enlist, without_outstanding, add_request,
}
use pimlico_alto_smart_accou.Mempool.Adding.Cases.{add_request_cases}

-- No sender has more than one operation above the parallel limit, and none has, with one nonce key,
-- more than one above the queue limit.
pub record Within (m : Mempool) : Type 0 where
  pub parallel :
      (a : ℕ) → count (from_sender a) m.store.outstanding ≤ m.config.mempool_max_parallel_ops + 1
  pub queue :
      (a key : ℕ)
      → count (from_sender_and_key a key) m.store.outstanding ≤ m.config.mempool_max_queued_ops + 1

enlist-Within :
    (m : Mempool) (q : Request) (old : Option UserOperationInfo)
    → Within m
    → Within (enlist m q old).1
unfolding enlist add_outstanding
enlist-Within m q old w = record {
  parallel = λ a. ground (
    arith,
    w.parallel a,
    count-append (from_sender a) m.store.outstanding (new_info q old ∷ []),
    length-filter (from_sender (sender (derive_user_operation q.operation))) m.store.outstanding,
  );
  queue = λ a key. ground (
    arith,
    w.queue a key,
    count-append (from_sender_and_key a key) m.store.outstanding (new_info q old ∷ []),
    length-filter
        (from_sender_and_key (sender (derive_user_operation q.operation))
          (get_nonce_key_and_value (nonce (derive_user_operation q.operation))).0)
        m.store.outstanding,
  );
}

without-Within : (m : Mempool) (hash : ℕ) → Within m → Within (without_outstanding m hash)
without-Within m hash w = record {
  parallel =
      λ a. omega (arith, w.parallel a, count-remove_outstanding-le m.store hash (from_sender a));
  queue = λ a key.
      omega (
        arith,
        w.queue a key,
        count-remove_outstanding-le m.store hash (from_sender_and_key a key),
      );
}

reputation-Within :
    (m : Mempool) (r : AnyReputationManager) → Within m → Within (record m { reputation = r })
reputation-Within m r w = record { parallel = w.parallel; queue = w.queue }

-- Whatever `add` answers, it keeps every sender within one above the parallel limit, and within one
-- above the queue limit for every nonce key.
pub add_request-Within :
    (viem : Encoding) (m : Mempool) (q : Request) → Within m → Within (add_request viem m q).1
add_request-Within viem m q w =
    add_request_cases (λ r. Within r.1) q viem m (λ reason. w) (λ x r. reputation-Within m r w)
      (λ reason r. reputation-Within m r w)
      (λ r unknown c. enlist-Within (record m { reputation = r }) q none (reputation-Within m r w))
      (λ r old unknown c free enough.
        enlist-Within (without_outstanding (record m { reputation = r }) old.user_operation_hash) q
          (some old)
          (without-Within (record m { reputation = r }) old.user_operation_hash
            (reputation-Within m r w)))
