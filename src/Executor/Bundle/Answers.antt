-- ===== src/Executor/Bundle/Answers.antt =====
-- What `bundle` answers: a result for each operation, and the wallet back unless it sends.
use pimlico_alto_smart_accou.Common.{
  ℕ, ◌≡◌, refl, ap, ◌∙◌, Bool, true, false, Option, none, some, List, [], ◌∷◌, map, any, not,
  is_some, ◌||◌, ◌≤◌, Bool-cases, Option-cases, ◌⊎◌, inl, inr, if◌then◌else◌,
}
use pimlico_alto_smart_accou.UserOp.{UserOperation, is_version06}
use pimlico_alto_smart_accou.Store.{TransactionInfo}
use pimlico_alto_smart_accou.Reputation.Interface.{AnyReputationManager}
use pimlico_alto_smart_accou.Mempool.{Mempool}
use pimlico_alto_smart_accou.Senders.{
  Semaphore, SenderManager, wallet, get_wallet, mark_wallet_processed,
}
use pimlico_alto_smart_accou.Executor.{
  Text, UserOperationWithHash, SimulatedOp, Reason, BundleResult, success, failure, resubmit,
  simulated_ops_to_results,
}
use pimlico_alto_smart_accou.Executor.Simulation.{
  Task, Filtered, filtered, escapes, is_live, filter_ops_and_estimate_gas, first_version,
}
use pimlico_alto_smart_accou.Executor.Simulation
use pimlico_alto_smart_accou.Executor.Simulation.Ends.{
  owhs, Accounted, filter_ops_and_estimate_gas-ends,
}
use pimlico_alto_smart_accou.Executor.Sending.{Sending, hash, thrown}
use pimlico_alto_smart_accou.Executor.Bundle.{
  after_sending, submit_bundle, after_simulation, bundle_with, bundle, with_hashes, task_of,
  parameters_of,
}
use pimlico_alto_smart_accou.Executor.Draft.{
  Network, Executor, Bundled, results, throws_error, waits_for_wallet, out_of_fuel, Draft,
  all_resubmit, all_failure, simulated_failures, live_ops, is_insufficient, common_version,
  all_have_version,
}

abbrev pub hash_of : BundleResult → ℕ
hash_of (success info tx) = info.user_operation_hash
hash_of (failure f) = f.user_op_hash
hash_of (resubmit f) = f.user_op_hash

abbrev pub hashes : List UserOperationWithHash → List ℕ
hashes ops = map (λ owh. owh.user_operation_hash) ops

results-hashes :
    (now : ℕ) (tx : TransactionInfo) (ops : List SimulatedOp)
    → map hash_of (simulated_ops_to_results now tx ops) ≡ hashes (owhs ops)
unfolding simulated_ops_to_results
results-hashes now tx [] = refl
results-hashes now tx (op ∷ ops) = elim (Option-cases op.reason) [
  | inl e ↦ rw e (ap (λ hs. op.owh.user_operation_hash ∷ hs) (results-hashes now tx ops))
  | inr (r, e) ↦ rw e (ap (λ hs. op.owh.user_operation_hash ∷ hs) (results-hashes now tx ops))
]

failures-hashes :
    (entry_point : ℕ) (ops : List SimulatedOp)
    → map hash_of (simulated_failures entry_point ops) ≡ hashes (owhs ops)
failures-hashes entry_point [] = refl
failures-hashes entry_point (op ∷ ops) =
    ap (λ hs. op.owh.user_operation_hash ∷ hs) (failures-hashes entry_point ops)

all_failure-hashes :
    (entry_point : ℕ) (reason : Reason) (ops : List UserOperationWithHash)
    → map hash_of (all_failure entry_point reason ops) ≡ hashes ops
all_failure-hashes entry_point reason [] = refl
all_failure-hashes entry_point reason (op ∷ ops) =
    ap (λ hs. op.user_operation_hash ∷ hs) (all_failure-hashes entry_point reason ops)

all_resubmit-hashes :
    (entry_point : ℕ) (reason : Reason) (ops : List UserOperationWithHash)
    → map hash_of (all_resubmit entry_point reason ops) ≡ hashes ops
all_resubmit-hashes entry_point reason [] = refl
all_resubmit-hashes entry_point reason (op ∷ ops) =
    ap (λ hs. op.user_operation_hash ∷ hs) (all_resubmit-hashes entry_point reason ops)

abbrev pub succeeds : BundleResult → Bool
succeeds (success info tx) = true
succeeds (failure f) = false
succeeds (resubmit f) = false

-- Whether all results ask for the operation again.
abbrev pub is_resubmit : BundleResult → Bool
is_resubmit (success info tx) = false
is_resubmit (failure f) = false
is_resubmit (resubmit f) = true

failure-succeeds :
    (entry_point : ℕ) (reason : Reason) (ops : List UserOperationWithHash)
    → any succeeds (all_failure entry_point reason ops) ≡ false
failure-succeeds entry_point reason [] = refl
failure-succeeds entry_point reason (op ∷ ops) = failure-succeeds entry_point reason ops

resubmit-succeeds :
    (entry_point : ℕ) (reason : Reason) (ops : List UserOperationWithHash)
    → any succeeds (all_resubmit entry_point reason ops) ≡ false
resubmit-succeeds entry_point reason [] = refl
resubmit-succeeds entry_point reason (op ∷ ops) = resubmit-succeeds entry_point reason ops

simulated-succeeds :
    (entry_point : ℕ) (ops : List SimulatedOp)
    → any succeeds (simulated_failures entry_point ops) ≡ false
simulated-succeeds entry_point [] = refl
simulated-succeeds entry_point (op ∷ ops) = simulated-succeeds entry_point ops

all_resubmit-is_resubmit :
    (entry_point : ℕ) (reason : Reason) (ops : List UserOperationWithHash)
    → any (λ r. not (is_resubmit r)) (all_resubmit entry_point reason ops) ≡ false
all_resubmit-is_resubmit entry_point reason [] = refl
all_resubmit-is_resubmit entry_point reason (op ∷ ops) =
    all_resubmit-is_resubmit entry_point reason ops

rest_live :
    (o : Option Text) (r : Text) (b : Bool) → o ≡ some r → not (is_some o) || b ≡ true → b ≡ true
rest_live none r b e h = cc
rest_live (some q) r b e h = h

live-succeeds :
    (now : ℕ) (tx : TransactionInfo) (ops : List SimulatedOp)
    → any is_live ops ≡ true
    → any succeeds (simulated_ops_to_results now tx ops) ≡ true
unfolding simulated_ops_to_results
live-succeeds now tx [] h = h
live-succeeds now tx (op ∷ ops) h = elim (Option-cases op.reason) [
  | inl e ↦ rw e refl
  | inr (r, e) ↦ rw e (live-succeeds now tx ops (rest_live op.reason r _ e h))
]

module _ {S : Type 0} (sem : Semaphore S) where
  -- The wallet is given back and no operation is sent, or it is kept and one is.
  abbrev pub Keeps : ℕ → SenderManager S → SenderManager S → List BundleResult → Type 0
  Keeps w m n rs =
      ((n ≡ mark_wallet_processed sem w m) × (any succeeds rs ≡ false))
      ⊎ ((n ≡ m) × (any succeeds rs ≡ true))

  -- One result for each operation in order, or all results ask for a resubmission.
  abbrev pub Covers : List UserOperationWithHash → List BundleResult → Type 0
  Covers ops rs = (map hash_of rs ≡ hashes ops) ⊎ (any (λ r. not (is_resubmit r)) rs ≡ false)

  abbrev pub Answers :
      List UserOperationWithHash → ℕ → SenderManager S → Bundled × Executor S → Type 0
  Answers ops w m (out_of_fuel, y) = 1 ≤ 0
  Answers ops w m (waits_for_wallet, y) = 1 ≤ 0
  Answers ops w m (throws_error, y) = y.senders ≡ m
  Answers ops w m (results rs, y) = Covers ops rs × Keeps w m y.senders rs

  module _ (net : Network) where
    after_sending-Answers :
        (v06 : Bool) (d : Draft) (ops : List SimulatedOp) (gas : ℕ) (x : Executor S)
        (r : Sending × Mempool)
        → owhs ops ≡ d.ops
        → any is_live ops ≡ true
        → Answers d.ops d.wallet x.senders (after_sending sem net v06 d ops gas x r)
    unfolding after_sending
    after_sending-Answers v06 d ops gas x (hash tx, m) same live = (
      inl (results-hashes net.now _ ops ∙ ap hashes same),
      inr (refl, live-succeeds net.now _ ops live),
    )
    after_sending-Answers v06 d ops gas x (thrown e, m) same live =
        elim (Bool-cases (is_insufficient e)) [
          | inl h ↦
              rw (h, after_sending)
                (
                  inr (all_resubmit-is_resubmit d.entry_point _ (live_ops ops)),
                  inl (refl, resubmit-succeeds d.entry_point _ (live_ops ops)),
                )
          | inr h ↦
              rw (h, after_sending)
                (
                  inl (all_failure-hashes d.entry_point _ d.ops),
                  inl (refl, failure-succeeds d.entry_point _ d.ops),
                )
        ]

    after_simulation-Answers :
        (v06 : Bool) (d : Draft) (x : Executor S) (f : Filtered) (r : AnyReputationManager)
        (context : _)
        → Accounted net.viem.bytes net.ask v06 context d.ops f
        → Answers d.ops d.wallet x.senders (after_simulation sem net v06 d x (some (f, r)))
    unfolding after_simulation submit_bundle
    after_simulation-Answers v06 d x escapes r t a = refl
    after_simulation-Answers v06 d x (filtered [] gas) r t a = (
      inl (all_failure-hashes d.entry_point _ d.ops),
      inl (refl, failure-succeeds d.entry_point _ d.ops),
    )
    after_simulation-Answers v06 d x (filtered (op ∷ ops) gas) r t (inl a) = cc
    after_simulation-Answers v06 d x (filtered (op ∷ ops) gas) r t (inr a) =
        elim (Bool-cases (any is_live (op ∷ ops))) [
          | inl e ↦ rw (e, after_simulation) (after_sending-Answers v06 d (op ∷ ops) _ _ _ a.0 e)
          | inr e ↦
              rw (e, after_simulation)
                (
                  inl (failures-hashes d.entry_point (op ∷ ops) ∙ ap hashes a.0),
                  inl (refl, simulated-succeeds d.entry_point (op ∷ ops)),
                )
        ]

    bundle_with-Answers :
        (entry_point w : ℕ) (v06 : Bool) (ops : List UserOperationWithHash) (x : Executor S)
        → first_version Simulation.default ops ≡ some v06
        → Answers ops w x.senders (bundle_with sem net entry_point w v06 ops x)
    unfolding bundle_with
    bundle_with-Answers entry_point w v06 ops x version =
        elim (Option-cases (parameters_of sem net net.network_gas_price net.transaction_count)) [
          | inl e ↦
              rw (e, bundle_with)
                (
                  inl (all_resubmit-hashes entry_point _ ops),
                  inl (refl, resubmit-succeeds entry_point _ ops),
                )
          | inr ((price, nonce), e) ↦
              let d : Draft = record {
                entry_point = entry_point;
                wallet = w;
                price = price;
                nonce = nonce;
                ops = ops;
              } in
              let t : Task = task_of sem net x.config Simulation.default d in
              let (f, r, same, a) =
                filter_ops_and_estimate_gas-ends net.viem.bytes net.ask t ops x.mempool.reputation
                  v06 version in
              rw (e, bundle_with) (rw same (after_simulation-Answers v06 d x f r t a))
        ]

    version_read :
        (entry_point chain_id : ℕ) (ops : List UserOperation) (v06 : Bool)
        → common_version ops ≡ some v06
        → first_version Simulation.default (with_hashes sem net entry_point chain_id ops) ≡ some v06
    unfolding common_version first_version
    version_read entry_point chain_id [] v06 h = cc
    version_read entry_point chain_id (op ∷ ops) v06 h =
        if_same (all_have_version (is_version06 op) (op ∷ ops)) (is_version06 op) h
      where
        if_same : (b v : Bool) → (if b then some v else none) ≡ some v06 → some v ≡ some v06
        if_same true v h = h
        if_same false v h = cc

    -- With a wallet in hand, `bundle` ends, whatever the network answers. Its results are one for
    -- each operation in their order, or all ask for a resubmission; the wallet is given back where
    -- no result is a success, and kept where one is, but it is kept too where `bundle` throws.
    pub bundle-Answers :
        (entry_point w : ℕ) (ops : List UserOperation) (x : Executor S)
        → (get_wallet sem x.senders).0 ≡ wallet w
        → Answers
            (with_hashes sem net entry_point x.config.chain_id ops)
            w
            (get_wallet sem x.senders).1
            (bundle sem net entry_point ops x)
    unfolding bundle
    bundle-Answers entry_point w ops x h = elim (Option-cases (common_version ops)) [
      | inl e ↦ rw (h, bundle, e) refl
      | inr (v06, e) ↦
          rw (h, bundle, e)
            (bundle_with-Answers entry_point w v06 _ (record x { senders = _ })
              (version_read entry_point x.config.chain_id ops v06 e))
    ]
