-- ===== src/Store/Gauges.antt =====
-- The gauge against the pools (src/mempool/store.ts).
use pimlico_alto_smart_accou.Common.{
  ℕ, ◌+◌, ◌≡◌, refl, inl, inr, List, [], ◌∷◌, arith, find, length, Option-cases, length-append,
  length-erase_first,
}
use pimlico_alto_smart_accou.Store.{
  UserOperationInfo, SubmittedUserOperation, MemoryStore, outstanding_ops, processing_ops,
  submitted_ops, has_hash, submitted_has_hash, empty_store, add_outstanding, add_processing,
  add_submitted, remove_outstanding, remove_processing, remove_submitted, clear,
}

-- Every gauge is the number of operations in its pool.
pub record Tracks (s : MemoryStore) : Type 0 where
  pub outstanding : s.gauges.in_outstanding ≡ length s.outstanding
  pub processing : s.gauges.in_processing ≡ length s.processing
  pub submitted : s.gauges.in_submitted ≡ length s.submitted

-- The calls that change a store, `clear` aside.
pub data Call : Type 0 where
  adds_outstanding adds_processing : UserOperationInfo → Call
  adds_submitted : SubmittedUserOperation → Call
  removes_outstanding removes_processing removes_submitted : ℕ → Call

unfoldable pub step : MemoryStore → Call → MemoryStore
step s (adds_outstanding op) = add_outstanding s op
step s (adds_processing op) = add_processing s op
step s (adds_submitted op) = add_submitted s op
step s (removes_outstanding hash) = remove_outstanding s hash
step s (removes_processing hash) = remove_processing s hash
step s (removes_submitted hash) = remove_submitted s hash

unfoldable pub run : MemoryStore → List Call → MemoryStore
unfolding step
run s [] = s
run s (c ∷ cs) = run (step s c) cs

-- Every gauge is ahead of its pool by this much.
pub record Ahead (a b c : ℕ) (s : MemoryStore) : Type 0 where
  pub outstanding : s.gauges.in_outstanding ≡ length s.outstanding + a
  pub processing : s.gauges.in_processing ≡ length s.processing + b
  pub submitted : s.gauges.in_submitted ≡ length s.submitted + c

module _ (a b c : ℕ) where
  step-Ahead : (s : MemoryStore) (d : Call) → Ahead a b c s → Ahead a b c (step s d)
  unfolding step add_outstanding add_processing add_submitted remove_outstanding remove_processing
      remove_submitted
  step-Ahead s (adds_outstanding op) t = ground (arith, length-append s.outstanding (op ∷ []))
  step-Ahead s (adds_processing op) t = ground (arith, length-append s.processing (op ∷ []))
  step-Ahead s (adds_submitted op) t = ground (arith, length-append s.submitted (op ∷ []))
  step-Ahead s (removes_outstanding hash) t =
      elim (Option-cases (find (has_hash hash) s.outstanding)) [
        | inl e ↦ rw (e, remove_outstanding) t
        | inr (op, e) ↦ ground (arith, length-erase_first (has_hash hash) s.outstanding op e)
      ]
  step-Ahead s (removes_processing hash) t =
      elim (Option-cases (find (has_hash hash) s.processing)) [
        | inl e ↦ rw (e, remove_processing) t
        | inr (op, e) ↦ ground (arith, length-erase_first (has_hash hash) s.processing op e)
      ]
  step-Ahead s (removes_submitted hash) t =
      elim (Option-cases (find (submitted_has_hash hash) s.submitted)) [
        | inl e ↦ rw (e, remove_submitted) t
        | inr (op, e) ↦
            ground (arith, length-erase_first (submitted_has_hash hash) s.submitted op e)
      ]

  run-Ahead : (s : MemoryStore) (cs : List Call) → Ahead a b c s → Ahead a b c (run s cs)
  unfolding run
  run-Ahead s [] t = t
  run-Ahead s (d ∷ cs) t = run-Ahead (step s d) cs (step-Ahead s d t)

-- After any additions and removals, made on an empty store in any order, the gauge of each status is
-- the number of operations in the pool of that status.
pub run-Tracks : (cs : List Call) → Tracks (run empty_store cs)
unfolding empty_store
run-Tracks cs =
    let t : Ahead 0 0 0 (run empty_store cs) =
      run-Ahead 0 0 0 empty_store cs
        (record { outstanding = refl; processing = refl; submitted = refl }) in
    record {
      outstanding = omega (arith, t.outstanding);
      processing = omega (arith, t.processing);
      submitted = omega (arith, t.submitted);
    }

-- From a store with exact gauges, `clear` empties the pool that it is called for, and after any
-- additions and removals that follow the gauge of that pool is still too high by exactly what the
-- pool held, for each of the three pools, while the gauges of the two other pools are exact.
pub clear_drift :
    (s : MemoryStore) (cs : List Call)
    → Tracks s
    → ((clear s outstanding_ops).outstanding ≡ [])
      × ((clear s processing_ops).processing ≡ [])
      × ((clear s submitted_ops).submitted ≡ [])
      × Ahead (length s.outstanding) 0 0 (run (clear s outstanding_ops) cs)
      × Ahead 0 (length s.processing) 0 (run (clear s processing_ops) cs)
      × Ahead 0 0 (length s.submitted) (run (clear s submitted_ops) cs)
unfolding clear
clear_drift s cs t = (
  refl,
  refl,
  refl,
  run-Ahead (length s.outstanding) 0 0 (clear s outstanding_ops) cs (ground arith),
  run-Ahead 0 (length s.processing) 0 (clear s processing_ops) cs (ground arith),
  run-Ahead 0 0 (length s.submitted) (clear s submitted_ops) cs (ground arith),
)
