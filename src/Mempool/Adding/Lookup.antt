-- ===== src/Mempool/Adding/Lookup.antt =====
-- What is known of an operation after `add` of src/mempool/mempool.ts let it in.
use pimlico_alto_smart_accou.Common.{
  ℕ, ◌≡◌, refl, ap, ◌∙◌, Bool, true, false, Option, none, some, List, [], ◌∷◌, ◌++◌, ==_refl, find,
  any, erase_first, get?-put, arith,
}
use pimlico_alto_smart_accou.UserOp.{derive_user_operation}
use pimlico_alto_smart_accou.UserOp.Hashing.{Encoding}
use pimlico_alto_smart_accou.Store.{
  UserOperationInfo, MemoryStore, add_outstanding, remove_outstanding, has_hash,
}
use pimlico_alto_smart_accou.Monitor.{
  UserOperationStatus, StatusName, Monitor, set_user_operation_status, get_user_operation_status,
}
use pimlico_alto_smart_accou.EventManager.{emit_added_to_mempool}
use pimlico_alto_smart_accou.Mempool.{Mempool, get}
use pimlico_alto_smart_accou.Mempool.Adding.{
  AddResult, added, Request, new_info, enlist, without_outstanding, processed_or_submitted,
  add_request,
}
use pimlico_alto_smart_accou.Mempool.Adding.Cases.{add_request_cases}

module _ {A : Type 0} (p : A → Bool) where
  find-any : (xs : List A) → any p xs ≡ false → find p xs ≡ none
  find-any [] h = refl
  find-any (x ∷ xs) h = ground (arith, find-any xs)

  any_front : (xs ys : List A) → any p (xs ++ ys) ≡ false → any p xs ≡ false
  any_front [] ys h = refl
  any_front (x ∷ xs) ys h = ground (arith, any_front xs ys)

  any-erase_first :
      (r : A → Bool) (xs : List A) → any p xs ≡ false → any p (erase_first r xs) ≡ false
  any-erase_first r [] h = refl
  any-erase_first r (x ∷ xs) h = ground (arith, any-erase_first r xs)

  find_at_end :
      (xs : List A) (y : A) → any p xs ≡ false → p y ≡ true → find p (xs ++ y ∷ []) ≡ some y
  find_at_end [] y h k = ground arith
  find_at_end (x ∷ xs) y h k = ground (arith, find_at_end xs y)

any-remove_outstanding :
    (p : UserOperationInfo → Bool) (s : MemoryStore) (hash : ℕ)
    → any p s.outstanding ≡ false
    → any p (remove_outstanding s hash).outstanding ≡ false
unfolding remove_outstanding
any-remove_outstanding p s hash h = ground (arith, any-erase_first p (has_hash hash) s.outstanding)

abbrev not_submitted_yet : UserOperationStatus
not_submitted_yet = record { status = StatusName.not_submitted; transaction_hash = none }

status_now :
    (m : Monitor) (now key : ℕ) (status : UserOperationStatus)
    → get_user_operation_status (set_user_operation_status m now key status) key ≡ status
unfolding get_user_operation_status set_user_operation_status
status_now m now key status =
    rw (get?-put m.user_operation_to_status key key status, ==_refl key, get_user_operation_status)
      refl

-- The operation is found by its hash, its status is set, and the event has been sent.
abbrev pub Known : Mempool → Request → AddResult × Mempool → Type 0
Known m q r =
    (get r.1 q.hash ≡ some (derive_user_operation q.operation))
    × (get_user_operation_status r.1.monitor q.hash ≡ not_submitted_yet)
    × (r.1.events ≡ emit_added_to_mempool m.events q.now q.hash)

enlist_state :
    (m : Mempool) (q : Request) (old : Option UserOperationInfo)
    → (enlist m q old).0 ≡ added
    → (enlist m q old).1 ≡ record m {
      store = add_outstanding m.store (new_info q old);
      monitor = set_user_operation_status m.monitor q.now q.hash not_submitted_yet;
      events = emit_added_to_mempool m.events q.now q.hash;
    }
unfolding enlist
enlist_state m q old h = ground arith

module _ (m : Mempool) (q : Request) (old : Option UserOperationInfo)
    (unknown : any (has_hash q.hash) m.store.outstanding ≡ false)
    (h : (enlist m q old).0 ≡ added) where
  enlist-get : get (enlist m q old).1 q.hash ≡ some (derive_user_operation q.operation)
  unfolding get add_outstanding
  enlist-get =
      ap (λ (n : Mempool). get n q.hash) (enlist_state m q old h)
      ∙ rw
          (
            find_at_end (has_hash q.hash) m.store.outstanding (new_info q old) unknown
                (==_refl q.hash),
            get,
          )
          refl

  enlist-Known : Known m q (enlist m q old)
  enlist-Known = (
    enlist-get,
    ap (λ (n : Mempool). get_user_operation_status n.monitor q.hash) (enlist_state m q old h)
        ∙ status_now m.monitor q.now q.hash not_submitted_yet,
    ap (λ (n : Mempool). n.events) (enlist_state m q old h),
  )

-- An operation that is added is found by its hash, its status says that it is not submitted yet, and
-- the event manager has been told, after a replacement too.
pub add_request-Known :
    (viem : Encoding) (m : Mempool) (q : Request)
    → (add_request viem m q).0 ≡ added
    → Known m q (add_request viem m q)
add_request-Known viem m q =
    add_request_cases (λ r. r.0 ≡ added → Known m q r) q viem m (λ reason e. cc) (λ x r e. cc)
      (λ reason r e. cc)
      (λ r unknown c.
        enlist-Known (record m { reputation = r }) q none
          (any_front (has_hash q.hash) m.store.outstanding (processed_or_submitted m) unknown))
      (λ r old unknown c free enough.
        enlist-Known (without_outstanding (record m { reputation = r }) old.user_operation_hash) q
          (some old)
          (any-remove_outstanding (has_hash q.hash) m.store old.user_operation_hash
            (any_front (has_hash q.hash) m.store.outstanding (processed_or_submitted m) unknown)))
