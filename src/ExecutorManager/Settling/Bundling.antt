-- ===== src/ExecutorManager/Settling/Bundling.antt =====
-- The processing pool while bundle of src/executor/executor.ts runs.
use pimlico_alto_smart_accou.Common.{
  ℕ, ◌≡◌, refl, ap, ◌∙◌, Bool, true, false, Option, none, some, List, [], ◌∷◌, map, filter, any,
  Option-cases, Bool-cases, inl, inr, if◌then◌else◌,
}
use pimlico_alto_smart_accou.UserOp.{UserOperation}
use pimlico_alto_smart_accou.UserOp.Hashing.{Encoding}
use pimlico_alto_smart_accou.Store.{UserOperationInfo}
use pimlico_alto_smart_accou.Store.Tally.{tally-remove_submitted}
use pimlico_alto_smart_accou.Reputation.Interface.{AnyReputationManager}
use pimlico_alto_smart_accou.Mempool.{Mempool, info_of, remove_submitted}
use pimlico_alto_smart_accou.Mempool.Adding.{add}
use pimlico_alto_smart_accou.Senders.{Semaphore, wallet, get_wallet}
use pimlico_alto_smart_accou.Executor.{UserOperationWithHash, SimulatedOp}
use pimlico_alto_smart_accou.Executor.Simulation.{Filtered, filtered, escapes, is_live}
use pimlico_alto_smart_accou.Executor.Sending.{
  Wire, SendRequest, Sending, hash, Attempted, left_by, left_loop, is_conflicting,
  resubmit_conflicting, handle_transaction_under_priced, after_attempts,
  send_handle_ops_transaction,
}
use pimlico_alto_smart_accou.Executor.Bundle.{
  after_sending, submit_bundle, after_simulation, bundle_with, bundle, parameters_of,
}
use pimlico_alto_smart_accou.Executor.Draft.{
  Network, Executor, Draft, is_insufficient, common_version,
}
use pimlico_alto_smart_accou.ExecutorManager.Settling.{in_process, add-process}

-- The bundle itself leaves the processing pool alone: what it resubmits was submitted.
module _ (viem : Encoding) (now h : ℕ) where
  resubmit-process :
      (ops : List UserOperationInfo) (m : Mempool)
      → in_process h (resubmit_conflicting viem now ops m) ≡ in_process h m
  unfolding resubmit_conflicting add remove_submitted
  resubmit-process [] m = refl
  resubmit-process (op ∷ ops) m =
      resubmit-process ops _
      ∙ add-process viem (remove_submitted m op.user_operation_hash) _ h
      ∙ ap (λ t. t.processing) (tally-remove_submitted m.store op.user_operation_hash h)

  if-process :
      (b : Bool) (m n : Mempool)
      → in_process h m ≡ in_process h n
      → in_process h (if b then m else n) ≡ in_process h n
  if-process true m n e = e
  if-process false m n e = refl

  attempts-process :
      (a : Attempted) (m : Mempool) → in_process h (after_attempts viem now a m).1 ≡ in_process h m
  unfolding after_attempts handle_transaction_under_priced
  attempts-process (left_by e) m = refl
  attempts-process (left_loop k q u) m =
      if-process u (handle_transaction_under_priced viem now q.nonce q.from_address m) m (
        resubmit-process
          (map info_of (filter (is_conflicting viem now q.nonce q.from_address) m.store.submitted))
          m)

  send-process :
      (wire : Wire) (request : SendRequest) (m : Mempool)
      → in_process h (send_handle_ops_transaction viem now wire request m).1 ≡ in_process h m
  unfolding send_handle_ops_transaction
  send-process wire request m = elim (Option-cases (wire.prepare request)) [
    | inl e ↦ rw (e, send_handle_ops_transaction) refl
    | inr (p, e) ↦ rw (e, send_handle_ops_transaction) (attempts-process _ m)
  ]

module _ {S : Type 0} (sem : Semaphore S) (net : Network) (h : ℕ) where
  after_sending-process :
      (v06 : Bool) (d : Draft) (ops : List SimulatedOp) (gas : ℕ) (x : Executor S)
      (r : Sending × Mempool)
      → in_process h (after_sending sem net v06 d ops gas x r).1.mempool ≡ in_process h r.1
  unfolding after_sending
  after_sending-process v06 d ops gas x (hash tx, m) = refl
  after_sending-process v06 d ops gas x (Sending.thrown e, m) =
      elim (Bool-cases (is_insufficient e)) [
        | inl c ↦ rw (c, after_sending) refl
        | inr c ↦ rw (c, after_sending) refl
      ]

  after_simulation-process :
      (v06 : Bool) (d : Draft) (x : Executor S) (o : Option (Filtered × AnyReputationManager))
      → in_process h (after_simulation sem net v06 d x o).1.mempool ≡ in_process h x.mempool
  unfolding after_simulation submit_bundle
  after_simulation-process v06 d x none = refl
  after_simulation-process v06 d x (some (escapes, rep)) = refl
  after_simulation-process v06 d x (some (filtered [] gas, rep)) = refl
  after_simulation-process v06 d x (some (filtered (op ∷ ops) gas, rep)) =
      elim (Bool-cases (any is_live (op ∷ ops))) [
        | inl c ↦
            rw (c, after_simulation)
              (after_sending-process v06 d (op ∷ ops) _ _ _
                ∙ send-process net.viem net.now h net.wire _ _)
        | inr c ↦ rw (c, after_simulation) refl
      ]

  bundle_with-process :
      (entry_point w : ℕ) (v06 : Bool) (ops : List UserOperationWithHash) (x : Executor S)
      → in_process h (bundle_with sem net entry_point w v06 ops x).1.mempool
        ≡ in_process h x.mempool
  unfolding bundle_with
  bundle_with-process entry_point w v06 ops x =
      elim (Option-cases (parameters_of sem net net.network_gas_price net.transaction_count)) [
        | inl e ↦ rw (e, bundle_with) refl
        | inr ((price, nonce), e) ↦ rw (e, bundle_with) (after_simulation-process v06 _ x _)
      ]

  pub bundle-process :
      (entry_point w : ℕ) (ops : List UserOperation) (x : Executor S)
      → (get_wallet sem x.senders).0 ≡ wallet w
      → in_process h (bundle sem net entry_point ops x).1.mempool ≡ in_process h x.mempool
  unfolding bundle
  bundle-process entry_point w ops x k = elim (Option-cases (common_version ops)) [
    | inl e ↦ rw (k, bundle, e) refl
    | inr (v06, e) ↦ rw (k, bundle, e) (bundle_with-process entry_point w v06 _ _)
  ]
