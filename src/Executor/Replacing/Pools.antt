-- ===== src/Executor/Replacing/Pools.antt =====
-- A replacement on the wire leaves the pools of the mempool alone.
use pimlico_alto_smart_accou.Common.{
  ℕ, ◌≡◌, refl, Bool, true, false, Option, none, some, List, [], ◌∷◌, Option-cases, inl, inr, any,
  not, if◌then◌else◌,
}
use pimlico_alto_smart_accou.Store.{
  MemoryStore, TransactionInfo, TransactionRequest, TransactionType, UserOperationInfo,
}
use pimlico_alto_smart_accou.GasPrice.{GasPriceParameters, Result, gives, throws}
use pimlico_alto_smart_accou.Reputation.Interface.{AnyReputationManager}
use pimlico_alto_smart_accou.Senders.{Semaphore}
use pimlico_alto_smart_accou.Executor.Simulation.{Filtered, filtered, escapes, is_live}
use pimlico_alto_smart_accou.Executor.Sending.{Sent, accepted, rejected}
use pimlico_alto_smart_accou.Executor.Draft.{Network, Executor}
use pimlico_alto_smart_accou.Executor.Replacing.{
  after_replacing, send_replacement, after_resimulation, resimulate, replace_by_type,
  replace_transaction,
}
use pimlico_alto_smart_accou.Executor.Renewal.{
  Replaced, uniform_version, is_nonce_reason, is_nonce_too_low,
}

module _ {S : Type 0} (sem : Semaphore S) (net : Network) (s : MemoryStore) where
  abbrev HasStore : Replaced × Executor S → Type 0
  HasStore r = r.1.mempool.store ≡ s

  if-HasStore :
      (b : Bool) (x y : Replaced × Executor S)
      → HasStore x
      → HasStore y
      → HasStore (if b then x else y)
  if-HasStore true x y h k = h
  if-HasStore false x y h k = k

  module _ (info : TransactionInfo) (r : TransactionRequest) (x : Executor S) where
    after_replacing-HasStore :
        (infos : List UserOperationInfo) (a : Sent)
        → x.mempool.store ≡ s
        → HasStore (after_replacing sem net info r infos x a)
    unfolding after_replacing
    after_replacing-HasStore infos (accepted tx) h = h
    after_replacing-HasStore infos (rejected e) h = if-HasStore (is_nonce_too_low e.cause) _ _ h h

  send_replacement-HasStore :
      (v06 : Bool) (inflator : ℕ) (info : TransactionInfo) (r : TransactionRequest) (estimate : ℕ)
      (x : Executor S) (o : Option (List UserOperationInfo))
      → x.mempool.store ≡ s
      → HasStore (send_replacement sem net v06 inflator info r estimate x o)
  unfolding send_replacement
  send_replacement-HasStore v06 inflator info r estimate x none h = h
  send_replacement-HasStore v06 inflator info r estimate x (some infos) h =
      after_replacing-HasStore info _ x infos _ h

  module _ (v06 : Bool) (inflator : ℕ) (info : TransactionInfo) (r : TransactionRequest) where
    after_resimulation-HasStore :
        (x : Executor S) (o : Option (Filtered × AnyReputationManager))
        → x.mempool.store ≡ s
        → HasStore (after_resimulation sem net v06 inflator info r x o)
    unfolding after_resimulation
    after_resimulation-HasStore x none h = h
    after_resimulation-HasStore x (some (escapes, rep)) h = h
    after_resimulation-HasStore x (some (filtered [] gas, rep)) h = h
    after_resimulation-HasStore x (some (filtered (op ∷ ops) gas, rep)) h =
        if-HasStore (not (any (λ o. not (is_nonce_reason o.reason)) (op ∷ ops))) _ _ h (
          if-HasStore (not (any is_live (op ∷ ops))) _ _ h
            (send_replacement-HasStore v06 inflator info r gas _ _ h))

  by_type-HasStore :
      (type : TransactionType) (info : TransactionInfo) (r : TransactionRequest) (x : Executor S)
      → x.mempool.store ≡ s
      → HasStore (replace_by_type sem net type info r x)
  unfolding replace_by_type resimulate
  by_type-HasStore TransactionType.default info r x h =
      elim (Option-cases (uniform_version info.user_operation_infos)) [
        | inl e ↦ rw (e, replace_by_type) h
        | inr (v06, e) ↦ rw (e, replace_by_type) (after_resimulation-HasStore v06 0 info r x _ h)
      ]
  by_type-HasStore TransactionType.compressed info r x h = elim (Option-cases x.compression) [
    | inl e ↦ rw (e, replace_by_type) h
    | inr (k, e) ↦
        rw (e, replace_by_type) (after_resimulation-HasStore true k.per_op_inflator_id info r x _ h)
  ]

  pub replace_transaction-HasStore :
      (info : TransactionInfo) (x : Executor S)
      → x.mempool.store ≡ s
      → HasStore (replace_transaction sem net info x)
  unfolding replace_transaction
  replace_transaction-HasStore info x h = by_price net.network_gas_price refl
    where
      by_price :
          (p : Result GasPriceParameters)
          → net.network_gas_price ≡ p
          → HasStore (replace_transaction sem net info x)
      by_price (throws e) k = rw (k, replace_transaction) h
      by_price (gives price) k =
          rw (k, replace_transaction) (by_type-HasStore info.transaction_type info _ x h)
