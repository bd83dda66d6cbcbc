-- ===== src/Mempool/Adding/Cases.antt =====
-- The ways through `add` of src/mempool/mempool.ts.
use pimlico_alto_smart_accou.Common.{
  ◌≡◌, refl, false, Option, none, some, ◌++◌, any, Bool-cases, inl, inr,
}
use pimlico_alto_smart_accou.UserOp.{derive_user_operation}
use pimlico_alto_smart_accou.UserOp.Hashing.{Encoding}
use pimlico_alto_smart_accou.Store.{UserOperationInfo, has_hash}
use pimlico_alto_smart_accou.Reputation.{Error, Outcome, returned, thrown}
use pimlico_alto_smart_accou.Reputation.Interface.{AnyReputationManager, any_update_seen_status}
use pimlico_alto_smart_accou.Mempool.{Mempool, op_of}
use pimlico_alto_smart_accou.Mempool.Adding.{
  AddResult, refused, threw, Refusal, Request, enlist, without_outstanding, underpriced,
  replace_or_enlist, add_request, find_conflict, processed_or_submitted, same_sender_and_nonce,
}

module _ {ℓ} (P : AddResult × Mempool → Type ℓ) (q : Request) where
  replace_or_enlist_cases :
      (m : Mempool) (conflict : Option UserOperationInfo)
      → ((reason : Refusal) → P (refused reason, m))
      → (conflict ≡ none → P (enlist m q none))
      → ((old : UserOperationInfo)
          → conflict ≡ some old
          → any (has_hash old.user_operation_hash) (processed_or_submitted m) ≡ false
          → underpriced (op_of old) (derive_user_operation q.operation) ≡ false
          → P (enlist (without_outstanding m old.user_operation_hash) q (some old)))
      → P (replace_or_enlist m q conflict)
  unfolding replace_or_enlist
  replace_or_enlist_cases m none refuse plain over = plain refl
  replace_or_enlist_cases m (some old) refuse plain over =
      elim (Bool-cases (any (has_hash old.user_operation_hash) (processed_or_submitted m))) [
        | inl held ↦ rw (held, replace_or_enlist) (refuse _)
        | inr free ↦
            elim (Bool-cases (underpriced (op_of old) (derive_user_operation q.operation))) [
              | inl cheap ↦ rw (free, cheap, replace_or_enlist) (refuse _)
              | inr enough ↦ rw (free, enough, replace_or_enlist) (over old refl free enough)
            ]
      ]

  -- Every way through `add`: refused with nothing changed, an exception or a refusal after the
  -- reputation manager has seen the operation, enlisted, or enlisted in the place of another.
  pub add_request_cases :
      (viem : Encoding) (m : Mempool)
      → ((reason : Refusal) → P (refused reason, m))
      → ((e : Error) (r : AnyReputationManager) → P (threw e, record m { reputation = r }))
      → ((reason : Refusal) (r : AnyReputationManager)
          → P (refused reason, record m { reputation = r }))
      → ((r : AnyReputationManager)
          → any (has_hash q.hash) (m.store.outstanding ++ processed_or_submitted m) ≡ false
          → find_conflict m (derive_user_operation q.operation) ≡ none
          → P (enlist (record m { reputation = r }) q none))
      → ((r : AnyReputationManager) (old : UserOperationInfo)
          → any (has_hash q.hash) (m.store.outstanding ++ processed_or_submitted m) ≡ false
          → find_conflict m (derive_user_operation q.operation) ≡ some old
          → any (has_hash old.user_operation_hash) (processed_or_submitted m) ≡ false
          → underpriced (op_of old) (derive_user_operation q.operation) ≡ false
          → P (
              enlist
                (without_outstanding (record m { reputation = r }) old.user_operation_hash)
                q
                (some old)))
      → P (add_request viem m q)
  unfolding add_request
  add_request_cases viem m early thrown_case late plain over =
      elim (Bool-cases (any (has_hash q.hash) (m.store.outstanding ++ processed_or_submitted m))) [
        | inl known ↦ rw (known, add_request) (early _)
        | inr unknown ↦
            elim (Bool-cases (
              any (λ info. same_sender_and_nonce (derive_user_operation q.operation) (op_of info))
                (processed_or_submitted m))) [
                  | inl busy ↦ rw (unknown, busy, add_request) (early _)
                  | inr idle ↦
                      rw (unknown, idle, add_request)
                        (after unknown
                          (any_update_seen_status viem.bytes.get_address
                            (derive_user_operation q.operation) q.entry_point m.reputation).0)
                ]
      ]
    where
      r : AnyReputationManager
      r =
          (any_update_seen_status viem.bytes.get_address (derive_user_operation q.operation)
            q.entry_point m.reputation).1

      after :
          any (has_hash q.hash) (m.store.outstanding ++ processed_or_submitted m) ≡ false
          → (seen : Outcome (Unit {0}))
          → P (elim seen [
            | thrown e ↦ (threw e, record m { reputation = r })
            | returned _ ↦
                replace_or_enlist
                  (record m { reputation = r })
                  q
                  (find_conflict m (derive_user_operation q.operation))
          ])
      after unknown (thrown e) = thrown_case e r
      after unknown (returned _) =
          replace_or_enlist_cases (record m { reputation = r }) _ (λ reason. late reason r)
            (plain r unknown) (λ old. over r old unknown)
