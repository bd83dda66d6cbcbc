-- ===== src/Mempool/Skipping/Taken.antt =====
-- What it takes for an operation not to be skipped, and what `shouldSkip` of src/mempool/mempool.ts
-- notes of it in the bundle.
use pimlico_alto_smart_accou.Common.{
  ℕ, ◌-◌, ◌≤◌, ◌≡◌, refl, true, false, some, ◌∷◌, arith, get?, put, get?-put,
}
use pimlico_alto_smart_accou.UserOp.{UserOperation, sender, paymaster_of}
use pimlico_alto_smart_accou.UserOp.Hashing.{Encoding}
use pimlico_alto_smart_accou.Store.{UserOperationInfo}
use pimlico_alto_smart_accou.Reputation.{ReputationStatus, returned}
use pimlico_alto_smart_accou.Mempool.{Mempool, op_of}
use pimlico_alto_smart_accou.Mempool.Skipping.{
  ValidationResult, Outside, Bundle, skip, take, Step, charge, should_skip, revalidate,
  entity_statuses, touches_known_sender,
}
use pimlico_alto_smart_accou.Mempool.Skipping.Cases.{
  Passed, deposit_before, charge_paymaster_cases, should_skip_cases,
}

-- A step of the loop from bundle `b` notes the sender when it takes the operation, and not when it
-- skips it.
abbrev pub NotesSender : ℕ → Bundle → Step → Type 0
NotesSender a b s =
    (s.0 ≡ take → s.1.senders ≡ a ∷ b.senders) × (s.0 ≡ skip → s.1.senders ≡ b.senders)

charge-NotesSender :
    (viem : Encoding) (op : UserOperation) (p deposit prefund : ℕ) (b : Bundle) (m : Mempool)
    → NotesSender (sender op) b (charge viem op p deposit prefund b m)
unfolding charge
charge-NotesSender viem op p deposit prefund b m = ground arith

pub should_skip-NotesSender :
    (out : Outside) (info : UserOperationInfo) (b : Bundle) (m : Mempool)
    → m.config.safe_mode ≡ true
    → NotesSender (sender (op_of info)) b (should_skip out info b m)
should_skip-NotesSender out info b m safe =
    should_skip_cases (NotesSender (sender (op_of info)) b) out info b m (λ e. cc)
      (λ m'. (λ e. cc, λ e. cc)) (λ m'. (λ e. cc, λ e. refl))
      (λ p f v s passed w t.
        charge_paymaster_cases (NotesSender (sender (op_of info)) b) out info b
          (paymaster_of out.viem.bytes.get_address (op_of info)) v.prefund
          (revalidate out info (op_of info) (entity_statuses out.viem info m).1).1
          (λ e. (λ k. refl, λ k. cc)) (λ m'. (λ e. cc, λ e. cc))
          (λ a deposit m' e d. charge-NotesSender out.viem (op_of info) a deposit v.prefund b m'))

charge-take :
    (viem : Encoding) (op : UserOperation) (p deposit prefund : ℕ) (b : Bundle) (m : Mempool)
    → (charge viem op p deposit prefund b m).0 ≡ take
    → (prefund ≤ deposit)
      × (get? (charge viem op p deposit prefund b m).1.paymaster_deposit p
          ≡ some (deposit - prefund))
unfolding charge
charge-take viem op p deposit prefund b m h =
    ground (arith, get?-put (put b.paymaster_deposit p deposit) p p (deposit - prefund))

-- What a taken operation has passed: neither entity is banned, a throttled entity has not had its
-- share of the bundle, the sender is new where senders have to be unique, the second validation
-- succeeds and touches the storage of no other sender in the mempool, and the deposit of the
-- paymaster, if there is one, covers the prefund and is lowered by it for the rest of the bundle.
pub record Sound (out : Outside) (info : UserOperationInfo) (b b' : Bundle) (m : Mempool)
    : Type 0 where
  pub p_status : ReputationStatus
  pub f_status : ReputationStatus
  pub validation : ValidationResult
  pub statuses : (entity_statuses out.viem info m).0 ≡ returned (p_status, f_status)
  pub passed : Passed out info b (entity_statuses out.viem info m).1 p_status f_status
  pub validated :
      (revalidate out info (op_of info) (entity_statuses out.viem info m).1).0 ≡ some validation
  pub apart :
      touches_known_sender (op_of info) b.known_entities validation.storage_addresses ≡ false
  pub covered :
      (p : ℕ)
      → paymaster_of out.viem.bytes.get_address (op_of info) ≡ some p
      → (deposit : ℕ) × (deposit_before out info p b
            (revalidate out info (op_of info) (entity_statuses out.viem info m).1).1
          ≡ some deposit)
        × (validation.prefund ≤ deposit)
        × (get? b'.paymaster_deposit p ≡ some (deposit - validation.prefund))

-- In safe mode every operation that is not skipped is `Sound`: no entity is banned, a throttled one
-- has not had its share of the bundle, the sender is new where it has to be, the second validation
-- succeeds and touches the storage of no other sender, and the deposit of the paymaster, which is
-- what the bundle notes of it or else what the entry point answers, covers the prefund and is noted
-- lowered by it.
pub should_skip-Sound :
    (out : Outside) (info : UserOperationInfo) (b : Bundle) (m : Mempool)
    → m.config.safe_mode ≡ true
    → (should_skip out info b m).0 ≡ take
    → Sound out info b (should_skip out info b m).1 m
should_skip-Sound out info b m safe =
    should_skip_cases (λ s. s.0 ≡ take → Sound out info b s.1 m) out info b m (λ e k. cc)
      (λ m' k. cc) (λ m' k. cc)
      (λ p f v s passed w t.
        charge_paymaster_cases (λ s. s.0 ≡ take → Sound out info b s.1 m) out info b
          (paymaster_of out.viem.bytes.get_address (op_of info)) v.prefund
          (revalidate out info (op_of info) (entity_statuses out.viem info m).1).1
          (λ e k. record {
            p_status = p;
            f_status = f;
            validation = v;
            statuses = s;
            passed = passed;
            validated = w;
            apart = t;
            covered = λ a e'. cc;
          })
          (λ m' k. cc)
          (λ a deposit m' e d k. record {
            p_status = p;
            f_status = f;
            validation = v;
            statuses = s;
            passed = passed;
            validated = w;
            apart = t;
            covered = λ a' e'.
                let same : a ≡ a' = cc in
                let (enough, left) = charge-take out.viem (op_of info) a deposit v.prefund b m' k in
                rw (← same) (deposit, d, enough, left);
          }))
