-- ===== src/Mempool/Skipping/Pools.antt =====
-- The pools while `shouldSkip` of src/mempool/mempool.ts runs, where no other task changes them.
use mathlib.Core.Path.{subst}
use pimlico_alto_smart_accou.Common.{
  ℕ, ◌≡◌, refl, ◌∙◌, Option, none, some, List, arith, get?, Option-cases, Bool-cases, ◌⊎◌, inl, inr,
  not,
}
use pimlico_alto_smart_accou.UserOp.{
  UserOperation, v06, v07, sender, nonce, get_nonce_key_and_value,
}
use pimlico_alto_smart_accou.Store
use pimlico_alto_smart_accou.Store.{UserOperationInfo, ReferencedCodeHashes, MemoryStore}
use pimlico_alto_smart_accou.Reputation.{ReputationStatus, Outcome, returned, thrown}
use pimlico_alto_smart_accou.Mempool.{Mempool, op_of}
use pimlico_alto_smart_accou.Mempool.Skipping.{
  Outside, Bundle, skip, failed, Step, charge, charge_paymaster, validate_and_charge, screen,
  should_skip, revalidate, entity_statuses, get_queued_user_operations, touches_known_sender,
}

-- No task that runs while a call is awaited changes the pools.
pub record KeepsStore (out : Outside) : Type 0 where
  pub in_get_nonce :
      (entry_point a key : ℕ) (m : Mempool) → (out.get_nonce entry_point a key m).1.store ≡ m.store
  pub in_validate :
      (op : UserOperation) (ops : List UserOperation) (entry_point : ℕ)
      (referenced : Option ReferencedCodeHashes) (m : Mempool)
      → (out.validate_user_operation op ops entry_point referenced m).1.store ≡ m.store
  pub in_balance_of :
      (entry_point a : ℕ) (m : Mempool) → (out.balance_of entry_point a m).1.store ≡ m.store

-- The pools stay, or a skipped operation leaves the outstanding ones.
abbrev pub KeptBut : ℕ → MemoryStore → Step → Type 0
KeptBut hash s r = (r.2.store ≡ s) ⊎ ((r.0 ≡ skip) × (r.2.store ≡ Store.remove_outstanding s hash))

module _ (out : Outside) (keeps : KeepsStore out) where
  queued-store :
      (m : Mempool) (op : UserOperation) (entry_point : ℕ) (current : Option ℕ)
      → (get_queued_user_operations out m op entry_point current).1.store ≡ m.store
  unfolding get_queued_user_operations
  queued-store m op entry_point current =
      ground
        (arith, keeps.in_get_nonce entry_point (sender op) (get_nonce_key_and_value (nonce op)).0 m)

  revalidate-store :
      (info : UserOperationInfo) (op : UserOperation) (m : Mempool)
      → (revalidate out info op m).1.store ≡ m.store
  unfolding revalidate
  revalidate-store info (v06 op) m = keeps.in_validate (v06 op) _ _ _ m
  revalidate-store info (v07 op) m =
      elim (Option-cases (get_queued_user_operations out m (v07 op) info.entry_point none).0) [
        | inl e ↦ rw (e, revalidate) (queued-store m (v07 op) info.entry_point none)
        | inr (ops, e) ↦
            rw (e, revalidate)
              (keeps.in_validate (v07 op) ops _ _ _ ∙ queued-store m (v07 op) info.entry_point none)
      ]

  charge-store :
      (op : UserOperation) (p deposit prefund : ℕ) (b : Bundle) (m : Mempool)
      → (charge out.viem op p deposit prefund b m).2.store ≡ m.store
  unfolding charge
  charge-store op p deposit prefund b m = ground arith

  charge_paymaster-store :
      (info : UserOperationInfo) (p : Option ℕ) (prefund : ℕ) (b : Bundle) (m : Mempool)
      → (charge_paymaster out info p prefund b m).2.store ≡ m.store
  unfolding charge_paymaster
  charge_paymaster-store info none prefund b m = refl
  charge_paymaster-store info (some a) prefund b m =
      elim (Option-cases (get? b.paymaster_deposit a)) [
        | inr (d, e) ↦ rw (e, charge_paymaster) (charge-store (op_of info) a d prefund b m)
        | inl e ↦ elim (Option-cases (out.balance_of info.entry_point a m).0) [
          | inl f ↦ rw (e, f, charge_paymaster) (keeps.in_balance_of info.entry_point a m)
          | inr (d, f) ↦
              rw (e, f, charge_paymaster)
                (charge-store (op_of info) a d prefund b _
                  ∙ keeps.in_balance_of info.entry_point a m)
        ]
      ]

  validate_and_charge-KeptBut :
      (info : UserOperationInfo) (b : Bundle) (m : Mempool)
      → KeptBut info.user_operation_hash m.store (validate_and_charge out info b m)
  unfolding validate_and_charge
  validate_and_charge-KeptBut info b m =
      let same : _ = revalidate-store info (op_of info) m in
      elim (Option-cases (revalidate out info (op_of info) m).0) [
        | inl e ↦ rw (e, validate_and_charge) (inr (refl, rw same refl))
        | inr (v, e) ↦
            elim (Bool-cases
              (touches_known_sender (op_of info) b.known_entities v.storage_addresses)) [
                | inl t ↦ rw (e, validate_and_charge) (rw t (inl same))
                | inr t ↦
                    rw (e, validate_and_charge)
                      (rw t (inl (charge_paymaster-store info _ v.prefund b _ ∙ same)))
              ]
      ]

  screen-KeptBut :
      (info : UserOperationInfo) (p f : ReputationStatus) (b : Bundle) (m : Mempool)
      → KeptBut info.user_operation_hash m.store (screen out info p f b m)
  unfolding screen
  screen-KeptBut info p f b m = ground (arith, validate_and_charge-KeptBut info b m)

  statuses-store :
      (info : UserOperationInfo) (m : Mempool) → (entity_statuses out.viem info m).1.store ≡ m.store
  unfolding entity_statuses
  statuses-store info m = ground arith

  pub should_skip-KeptBut :
      (info : UserOperationInfo) (b : Bundle) (m : Mempool)
      → KeptBut info.user_operation_hash m.store (should_skip out info b m)
  unfolding should_skip
  should_skip-KeptBut info b m = elim (Bool-cases (not m.config.safe_mode)) [
    | inl e ↦ rw (e, should_skip) (inl refl)
    | inr e ↦ rw (e, should_skip) (go (entity_statuses out.viem info m).0)
  ]
    where
      m' : Mempool
      m' = (entity_statuses out.viem info m).1

      go :
          (o : Outcome (ReputationStatus × ReputationStatus))
          → KeptBut info.user_operation_hash m.store (elim o as (λ _. Step) [
            | thrown e ↦ (failed, b, m')
            | returned (p, f) ↦ screen out info p f b m'
          ])
      go (thrown e) = inl (statuses-store info m)
      go (returned (p, f)) =
          subst (λ s. KeptBut info.user_operation_hash s (screen out info p f b m'))
            (statuses-store info m) (screen-KeptBut info p f b m')
