-- ===== src/ExecutorManager/Settling/Sending.antt =====
-- The processing pool while sendToExecutor of src/executor/executorManager.ts sends a bundle of
-- operations that are not compressed.
use mathlib.Core.Path.{subst}
use pimlico_alto_smart_accou.Common.{
  ℕ, ◌≤◌, ◌≡◌, refl, sym, ap, ◌∙◌, true, false, Option, List, [], ◌∷◌, map, any, not, ◌==◌, ◌⊎◌,
  Bool-cases, inl, inr, arith,
}
use pimlico_alto_smart_accou.UserOp.{UserOperation, MempoolUserOperation}
use pimlico_alto_smart_accou.UserOp.Hashing.{Encoding}
use pimlico_alto_smart_accou.Mempool.Skipping.{Outside}
use pimlico_alto_smart_accou.Mempool.Lifecycle.{Reachable}
use pimlico_alto_smart_accou.Mempool.Lifecycle.Steps.{Reachable-total}
use pimlico_alto_smart_accou.Senders.{Semaphore, SenderManager, wallet, get_wallet}
use pimlico_alto_smart_accou.Executor.{UserOperationWithHash, BundleResult}
use pimlico_alto_smart_accou.Executor.Bundle.{bundle, with_hashes}
use pimlico_alto_smart_accou.Executor.Bundle.Answers.{
  hash_of, hashes, is_resubmit, Covers, Answers, bundle-Answers,
}
use pimlico_alto_smart_accou.Executor.Draft.{
  Network, Executor, Bundled, results, throws_error, waits_for_wallet, out_of_fuel,
}
use pimlico_alto_smart_accou.ExecutorManager.{
  ExecutorManager, SendResult, sent, mempool_of, plain_ops, compressed_ops, finish_sending,
  handle_results, last_hash, send_compressed, send_plain, send_to_executor,
}
use pimlico_alto_smart_accou.ExecutorManager
use pimlico_alto_smart_accou.ExecutorManager.Settling.{in_process, results-settle}
use pimlico_alto_smart_accou.ExecutorManager.Settling.Bundling.{bundle-process}

any-map :
    (h : ℕ) (rs : List BundleResult)
    → any (λ b. hash_of b == h) rs ≡ any (λ k. k == h) (map hash_of rs)
any-map h [] = refl
any-map h (b ∷ rs) = ground (arith, any-map h rs)

module _ {S : Type 0} (sem : Semaphore S) (viem : Encoding) (net later : Network) where
  -- The results of the bundle, if the whole of it is sent.
  covered :
      (ops : List UserOperationWithHash) (w : ℕ) (m : SenderManager S) (p : Bundled × Executor S)
      (rs : List BundleResult)
      → p.0 ≡ results rs
      → Answers sem ops w m p
      → Covers sem ops rs
  covered ops w m (results ss, y) rs e a =
      let same : ss ≡ rs = cc in subst (λ t. Covers sem ops t) same a.0
  covered ops w m (throws_error, y) rs e a = cc
  covered ops w m (waits_for_wallet, y) rs e a = cc
  covered ops w m (out_of_fuel, y) rs e a = cc

  -- How `sendToExecutor` leaves an operation of the bundle: out of the processing pool, or all the
  -- results of the bundle ask for a resubmission.
  abbrev pub Settled : ℕ → ℕ → List UserOperation → ExecutorManager S → ExecutorManager S → Type 0
  Settled h entry_point ops x y =
      (in_process h (mempool_of y) ≡ 0)
      ⊎ ((rs : List BundleResult) × ((bundle sem net entry_point ops x.executor).0 ≡ results rs)
          × (any (λ r. not (is_resubmit r)) rs ≡ false))

  finish-Settled :
      (rs : List BundleResult) (x : ExecutorManager S) (last : Option ℕ) (h : ℕ)
      → in_process h (mempool_of x) ≤ 1
      → any (λ b. hash_of b == h) rs ≡ true
      → (finish_sending sem viem later.now rs x).0 ≡ sent last
      → in_process h (mempool_of (finish_sending sem viem later.now rs x).1) ≡ 0
  unfolding finish_sending
  finish-Settled rs x last h l k e =
      elim (Bool-cases (handle_results viem later.now rs (mempool_of x)).0) [
        | inl done ↦ results-settle viem later.now rs (mempool_of x) h l k done
        | inr done ↦
            let step : (finish_sending sem viem later.now rs x).0 ≡ ExecutorManager.thrown =
              rw (done, finish_sending) refl in
            let bad : ExecutorManager.thrown ≡ sent last = sym step ∙ e in cc
      ]

  send_plain-Settled :
      (out : Outside) (entry_point w : ℕ) (op : UserOperation) (ops : List UserOperation)
      (x : ExecutorManager S) (last : Option ℕ) (h : ℕ)
      → Reachable out (mempool_of x)
      → (get_wallet sem x.executor.senders).0 ≡ wallet w
      → any
          (λ k. k == h)
          (hashes (with_hashes sem net entry_point x.executor.config.chain_id (op ∷ ops)))
        ≡ true
      → (send_plain sem viem net later entry_point (op ∷ ops) [] x).0 ≡ sent last
      → Settled h entry_point
          (op ∷ ops)
          x
          (send_plain sem viem net later entry_point (op ∷ ops) [] x).1
  unfolding send_plain send_compressed
  send_plain-Settled out entry_point w op ops x last h r k among =
      by_bundle (bundle sem net entry_point (op ∷ ops) x.executor).0 refl
    where
      y : ExecutorManager S
      y = record x { executor = (bundle sem net entry_point (op ∷ ops) x.executor).1 }

      once : in_process h (mempool_of y) ≤ 1
      once =
          let whole : _ = Reachable-total out r h in
          subst (λ n. n ≤ 1) (sym (bundle-process sem net h entry_point w (op ∷ ops) x.executor k))
            (omega (arith, whole))

      answers :
          Answers sem
            (with_hashes sem net entry_point x.executor.config.chain_id (op ∷ ops))
            w
            (get_wallet sem x.executor.senders).1
            (bundle sem net entry_point (op ∷ ops) x.executor)
      answers = bundle-Answers sem net entry_point w (op ∷ ops) x.executor k

      by_bundle :
          (b : Bundled)
          → (bundle sem net entry_point (op ∷ ops) x.executor).0 ≡ b
          → (send_plain sem viem net later entry_point (op ∷ ops) [] x).0 ≡ sent last
          → Settled h entry_point
              (op ∷ ops)
              x
              (send_plain sem viem net later entry_point (op ∷ ops) [] x).1
      by_bundle (results rs) e =
          rw (e, send_plain)
            (λ s.
              elim (covered (with_hashes sem net entry_point x.executor.config.chain_id (op ∷ ops))
                w (get_wallet sem x.executor.senders).1
                (bundle sem net entry_point (op ∷ ops) x.executor) rs e answers) [
                  | inl c ↦ inl (
                      finish-Settled rs y last h once
                        (any-map h rs ∙ ap (any (λ j. j == h)) c ∙ among) s)
                  | inr c ↦ inr (rs, refl, c)
                ])
      by_bundle throws_error e = rw (e, send_plain) (λ s. cc)
      by_bundle waits_for_wallet e = rw (e, send_plain) (λ s. cc)
      by_bundle out_of_fuel e = rw (e, send_plain) (λ s. cc)

  -- When `sendToExecutor`, in a reachable mempool and with a wallet in hand, gets through with a
  -- bundle of operations that are not compressed, each of them is in the processing pool no more,
  -- unless all the results of the bundle ask for a resubmission.
  pub send_to_executor-Settled :
      (out : Outside) (entry_point w : ℕ) (all : List MempoolUserOperation) (op : UserOperation)
      (ops : List UserOperation) (x : ExecutorManager S) (last : Option ℕ) (h : ℕ)
      → Reachable out (mempool_of x)
      → (get_wallet sem x.executor.senders).0 ≡ wallet w
      → plain_ops all ≡ op ∷ ops
      → compressed_ops all ≡ []
      → any
          (λ k. k == h)
          (hashes (with_hashes sem net entry_point x.executor.config.chain_id (op ∷ ops)))
        ≡ true
      → (send_to_executor sem viem net later entry_point all x).0 ≡ sent last
      → Settled h entry_point (op ∷ ops) x (send_to_executor sem viem net later entry_point all x).1
  unfolding send_to_executor
  send_to_executor-Settled out entry_point w all op ops x last h r k plain compressed among =
      rw (plain, compressed, send_to_executor)
        (send_plain-Settled out entry_point w op ops x last h r k among)
