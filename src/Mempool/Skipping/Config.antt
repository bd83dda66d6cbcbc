-- ===== src/Mempool/Skipping/Config.antt =====
-- The configuration of the mempool stays as it is while `shouldSkip` of src/mempool/mempool.ts runs.
use pimlico_alto_smart_accou.Common.{ℕ, ◌≡◌, refl, ◌∙◌, Option, none, some, List, arith, get?}
use pimlico_alto_smart_accou.UserOp.{
  UserOperation, v06, v07, sender, nonce, get_nonce_key_and_value,
}
use pimlico_alto_smart_accou.UserOp.Hashing.{Encoding}
use pimlico_alto_smart_accou.Store.{UserOperationInfo, ReferencedCodeHashes}
use pimlico_alto_smart_accou.Reputation.{ReputationStatus}
use pimlico_alto_smart_accou.Mempool.{Mempool, op_of}
use pimlico_alto_smart_accou.Mempool.Skipping.{
  ValidationResult, Outside, Bundle, Verdict, Step, charge, charge_paymaster, validate_and_charge,
  screen, should_skip, revalidate, entity_statuses, get_queued_user_operations,
}

-- No task that runs while a call is awaited changes the configuration, which the source never does.
pub record KeepsConfig (out : Outside) : Type 0 where
  pub in_get_nonce :
      (entry_point a key : ℕ) (m : Mempool)
      → (out.get_nonce entry_point a key m).1.config ≡ m.config
  pub in_validate :
      (op : UserOperation) (ops : List UserOperation) (entry_point : ℕ)
      (referenced : Option ReferencedCodeHashes) (m : Mempool)
      → (out.validate_user_operation op ops entry_point referenced m).1.config ≡ m.config
  pub in_balance_of :
      (entry_point a : ℕ) (m : Mempool) → (out.balance_of entry_point a m).1.config ≡ m.config

module _ (out : Outside) (keeps : KeepsConfig out) where
  queued-config :
      (m : Mempool) (op : UserOperation) (entry_point : ℕ) (current : Option ℕ)
      → (get_queued_user_operations out m op entry_point current).1.config ≡ m.config
  unfolding get_queued_user_operations
  queued-config m op entry_point current =
      ground
        (arith, keeps.in_get_nonce entry_point (sender op) (get_nonce_key_and_value (nonce op)).0 m)

  revalidate-config :
      (info : UserOperationInfo) (op : UserOperation) (m : Mempool)
      → (revalidate out info op m).1.config ≡ m.config
  unfolding revalidate
  revalidate-config info (v06 op) m = keeps.in_validate (v06 op) _ _ _ m
  revalidate-config info (v07 op) m =
      go (get_queued_user_operations out m (v07 op) info.entry_point none).0
    where
      m' : Mempool
      m' = (get_queued_user_operations out m (v07 op) info.entry_point none).1

      go :
          (o : Option (List UserOperation))
          → (elim o as (λ _. Option ValidationResult × Mempool) [
            | none ↦ (none, m')
            | some ops ↦
                out.validate_user_operation
                  (v07 op)
                  ops
                  info.entry_point
                  info.referenced_contracts
                  m'
          ]).1.config
            ≡ m.config
      go none = queued-config m (v07 op) info.entry_point none
      go (some ops) =
          keeps.in_validate (v07 op) ops _ _ m' ∙ queued-config m (v07 op) info.entry_point none

  charge-config :
      (viem : Encoding) (op : UserOperation) (p deposit prefund : ℕ) (b : Bundle) (m : Mempool)
      → (charge viem op p deposit prefund b m).2.config ≡ m.config
  unfolding charge
  charge-config viem op p deposit prefund b m = ground arith

  charge_paymaster-config :
      (info : UserOperationInfo) (p : Option ℕ) (prefund : ℕ) (b : Bundle) (m : Mempool)
      → (charge_paymaster out info p prefund b m).2.config ≡ m.config
  unfolding charge_paymaster
  charge_paymaster-config info none prefund b m = refl
  charge_paymaster-config info (some a) prefund b m = go (get? b.paymaster_deposit a)
    where
      m' : Mempool
      m' = (out.balance_of info.entry_point a m).1

      read :
          (o : Option ℕ)
          → (elim o as (λ _. Step) [
            | none ↦ (Verdict.failed, b, m')
            | some deposit ↦ charge out.viem (op_of info) a deposit prefund b m'
          ]).2.config
            ≡ m.config
      read none = keeps.in_balance_of info.entry_point a m
      read (some deposit) =
          charge-config out.viem (op_of info) a deposit prefund b m'
          ∙ keeps.in_balance_of info.entry_point a m

      go :
          (o : Option ℕ)
          → (elim o as (λ _. Step) [
            | some deposit ↦ charge out.viem (op_of info) a deposit prefund b m
            | none ↦ elim (out.balance_of info.entry_point a m).0 as (λ _. Step) [
              | none ↦ (Verdict.failed, b, m')
              | some deposit ↦ charge out.viem (op_of info) a deposit prefund b m'
            ]
          ]).2.config
            ≡ m.config
      go none = read (out.balance_of info.entry_point a m).0
      go (some deposit) = charge-config out.viem (op_of info) a deposit prefund b m

  validate_and_charge-config :
      (info : UserOperationInfo) (b : Bundle) (m : Mempool)
      → (validate_and_charge out info b m).2.config ≡ m.config
  unfolding validate_and_charge
  validate_and_charge-config info b m = grind (arith, charge_paymaster-config, revalidate-config)

  screen-config :
      (info : UserOperationInfo) (p f : ReputationStatus) (b : Bundle) (m : Mempool)
      → (screen out info p f b m).2.config ≡ m.config
  unfolding screen
  screen-config info p f b m = ground (arith, validate_and_charge-config info b m)

  pub statuses-config :
      (info : UserOperationInfo) (m : Mempool)
      → (entity_statuses out.viem info m).1.config ≡ m.config
  unfolding entity_statuses
  statuses-config info m = ground arith

  pub should_skip-config :
      (info : UserOperationInfo) (b : Bundle) (m : Mempool)
      → (should_skip out info b m).2.config ≡ m.config
  unfolding should_skip
  should_skip-config info b m = grind (arith, statuses-config, screen-config)
