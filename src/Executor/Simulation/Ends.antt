-- ===== src/Executor/Simulation/Ends.antt =====
-- The loop of `filterOpsAndEstimateGas` ends, and what its gas limit is an estimate of.
use mathlib.Core.Path.{subst}
use pimlico_alto_smart_accou.Common.{
  ℕ, zero, suc, ◌+◌, ◌≤◌, ◌<◌, ◌≡◌, refl, ap, Bool, true, false, ◌&&◌, Option, none, some, List, [],
  ◌∷◌, map, count, filter, length, ltb, Bool-cases, ◌⊎◌, inl, inr, arith, if◌then◌else◌,
}
use pimlico_alto_smart_accou.UserOp.{derive_user_operation}
use pimlico_alto_smart_accou.UserOp.Packing.{Bytes}
use pimlico_alto_smart_accou.Reputation.{Outcome, returned, thrown}
use pimlico_alto_smart_accou.Reputation.Interface.{AnyReputationManager, any_crashed_handle_ops}
use pimlico_alto_smart_accou.Executor.{Text, UserOperationWithHash, SimulatedOp, sent_op}
use pimlico_alto_smart_accou.Executor.Simulation.{
  EstimateRequest, Estimate, estimated, reverted, execution_failed, failed, FailedOp, Decoded,
  decoded, undecodable, other_error, Task, Simulation, Filtered, filtered, escapes, Turn, returns,
  again, is_live, contains, out_of_gas, kept, set_reason, request_of, blamed, marked, on_revert,
  on_decoded, on_execution_error, answer, attempt, estimate_loop, first_version, start_of,
  filter_ops_and_estimate_gas,
}

abbrev pub owhs : List SimulatedOp → List UserOperationWithHash
owhs ops = map (λ op. op.owh) ops

-- One operation fewer is live, and the operations are the same.
abbrev Marks : List SimulatedOp → Option (UserOperationWithHash × List SimulatedOp) → Type 0
Marks ops none = Unit {0}
Marks ops (some r) = (count is_live ops ≡ suc (count is_live r.1)) × (owhs r.1 ≡ owhs ops)

kept-Marks :
    (op : SimulatedOp) (ops : List SimulatedOp)
    (r : Option (UserOperationWithHash × List SimulatedOp))
    → Marks ops r
    → Marks (op ∷ ops) (kept op r)
kept-Marks op ops none h = tt
kept-Marks op ops (some (owh, rest)) h = (ground (arith, h.0), ap (λ os. op.owh ∷ os) h.1)

if-Marks :
    (ops : List SimulatedOp) (b : Bool) (r s : Option (UserOperationWithHash × List SimulatedOp))
    → (b ≡ true → Marks ops r)
    → Marks ops s
    → Marks ops (if b then r else s)
if-Marks ops true r s h k = h refl
if-Marks ops false r s h k = k

set_reason-Marks :
    (n : ℕ) (reason : Text) (ops : List SimulatedOp) → Marks ops (set_reason n reason ops)
unfolding set_reason
set_reason-Marks zero reason [] = tt
set_reason-Marks (suc n) reason [] = tt
set_reason-Marks zero reason (op ∷ ops) =
    if-Marks (op ∷ ops) (is_live op) (some (op.owh, record op { reason = some reason } ∷ ops))
      (kept op (set_reason zero reason ops)) (λ e. (ground arith, refl))
      (kept-Marks op ops (set_reason zero reason ops) (set_reason-Marks zero reason ops))
set_reason-Marks (suc n) reason (op ∷ ops) =
    if-Marks (op ∷ ops) (is_live op) (kept op (set_reason n reason ops))
      (kept op (set_reason (suc n) reason ops))
      (λ e. kept-Marks op ops (set_reason n reason ops) (set_reason-Marks n reason ops))
      (kept-Marks op ops (set_reason (suc n) reason ops) (set_reason-Marks (suc n) reason ops))

-- What a pass has left to use up.
abbrev measure : Simulation → ℕ
measure s = s.retries_left + count is_live s.simulated_ops

module _ (bytes : Bytes) (ask : ℕ → EstimateRequest → Estimate) (v06 : Bool) (t : Task) where
  -- The gas is 0 where no operation is live, and otherwise the answer of the node to a request for
  -- exactly the operations that are live.
  pub data Estimated (ops : List SimulatedOp) (gas : ℕ) : Type 0 where
    none_live : count is_live ops ≡ 0 → gas ≡ 0 → Estimated ops gas
    answered :
        (n : ℕ) (r : EstimateRequest)
        → r.ops ≡ map (λ op. sent_op bytes v06 op.owh.mempool_user_operation) (filter is_live ops)
        → ask n r ≡ estimated gas
        → Estimated ops gas

  -- The result is empty after an error that cannot be read; otherwise it has all operations.
  abbrev pub Accounted : List UserOperationWithHash → Filtered → Type 0
  Accounted ops escapes = Unit {0}
  Accounted ops (filtered result gas) =
      ((result ≡ []) × (gas ≡ 0)) ⊎ ((owhs result ≡ ops) × Estimated result gas)

  abbrev Advances : Simulation → Turn → Type 0
  Advances s (returns f reputation) = Accounted (owhs s.simulated_ops) f
  Advances s (again next) =
      (measure next < measure s) × (owhs next.simulated_ops ≡ owhs s.simulated_ops)

  if-Advances :
      (s : Simulation) (b : Bool) (x y : Turn)
      → (b ≡ true → Advances s x)
      → Advances s y
      → Advances s (if b then x else y)
  if-Advances s true x y h k = h refl
  if-Advances s false x y h k = k

  blamed-Advances :
      (s : Simulation) (reason : Text) (r : Option (UserOperationWithHash × List SimulatedOp))
      → Marks s.simulated_ops r
      → Advances s (blamed bytes ask v06 t reason s r)
  blamed-Advances s reason none h = tt
  blamed-Advances s reason (some (owh, ops)) h =
      reported _
        (any_crashed_handle_ops bytes.get_address (derive_user_operation owh.mempool_user_operation)
          t.entry_point reason s.reputation).0
    where
      reported :
          (reputation : AnyReputationManager) (o : Outcome (Unit {0}))
          → Advances s (elim o [
            | returned _ ↦ again (record s { simulated_ops = ops; reputation = reputation })
            | thrown _ ↦ returns escapes reputation
          ])
      reported reputation (returned _) = (omega (arith, h.0), h.1)
      reported reputation (thrown _) = tt

  marked-Advances :
      (s : Simulation) (r : Option (UserOperationWithHash × List SimulatedOp))
      → Marks s.simulated_ops r
      → Advances s (marked bytes ask v06 s r)
  marked-Advances s none h = inl (refl, refl)
  marked-Advances s (some (owh, ops)) h = (omega (arith, h.0), h.1)

  on_revert-Advances :
      (s : Simulation) (e : Option FailedOp) → Advances s (on_revert bytes ask v06 t s e)
  unfolding on_revert
  on_revert-Advances s none = inl (refl, refl)
  on_revert-Advances s (some e) =
      if-Advances s (contains out_of_gas e.reason && ltb 0 s.retries_left) _ _
        (λ b. (ground arith, refl))
        (blamed-Advances s _ _ (set_reason-Marks e.op_index _ s.simulated_ops))

  on_decoded-Advances : (s : Simulation) (d : Decoded) → Advances s (on_decoded bytes ask v06 s d)
  unfolding on_decoded
  on_decoded-Advances s undecodable = inl (refl, refl)
  on_decoded-Advances s other_error = inl (refl, refl)
  on_decoded-Advances s (decoded n reason) =
      marked-Advances s _ (set_reason-Marks n reason s.simulated_ops)

  on_execution_error-Advances :
      (s : Simulation) (fee_cap : Bool) (d : Decoded)
      → Advances s (on_execution_error bytes ask v06 t s fee_cap d)
  unfolding on_execution_error
  on_execution_error-Advances s fee_cap d =
      if-Advances s (fee_cap && ltb 0 s.retries_left) _ _ (λ b. (ground arith, refl))
        (on_decoded-Advances s d)

  answer-Advances :
      (s : Simulation) (a : Estimate)
      → (n : ℕ) → ask n (request_of bytes ask v06 t s) ≡ a
      → Advances s (answer bytes ask v06 t s a)
  unfolding answer
  answer-Advances s (estimated gas) n h = inr (refl, answered n _ refl h)
  answer-Advances s (reverted e) n h = on_revert-Advances s e
  answer-Advances s (execution_failed w f d) n h = on_execution_error-Advances s (w && f) d
  answer-Advances s failed n h = inl (refl, refl)

  abbrev Finishes : List UserOperationWithHash → Option (Filtered × AnyReputationManager) → Type 0
  Finishes ops none = 1 ≤ 0
  Finishes ops (some r) = Accounted ops r.0

  turn-Finishes :
      (n : ℕ) (s : Simulation)
      → measure s ≤ n
      → ((next : Simulation)
          → measure next < n
          → Finishes (owhs next.simulated_ops) (estimate_loop bytes ask v06 n t next))
      → (turn : Turn) → Advances s turn
      → Finishes (owhs s.simulated_ops) (elim turn [
        | returns f reputation ↦ some (f, reputation)
        | again next ↦ estimate_loop bytes ask v06 n t next
      ])
  turn-Finishes n s h ih (returns f reputation) a = a
  turn-Finishes n s h ih (again next) a =
      subst (λ os. Finishes os (estimate_loop bytes ask v06 n t next)) a.1
        (ih next (omega (arith, h, a.0)))

  -- Fuel above the measure is enough.
  loop-Finishes :
      (n : ℕ) (s : Simulation)
      → measure s < n
      → Finishes (owhs s.simulated_ops) (estimate_loop bytes ask v06 n t s)
  unfolding estimate_loop attempt
  loop-Finishes zero s h = absurd (omega (arith, h))
  loop-Finishes (suc n) s h = elim (Bool-cases (ltb 0 (count is_live s.simulated_ops))) [
    | inl e ↦
        rw (e, estimate_loop)
          (turn-Finishes n s (omega (arith, h)) (λ next k. loop-Finishes n next k) _
            (answer-Advances (record s { calls = suc s.calls }) _ s.calls refl))
    | inr e ↦ rw (e, estimate_loop) (inr (refl, none_live (ground arith) refl))
  ]

abbrev start : List UserOperationWithHash → List SimulatedOp
start ops = map (λ owh. record { owh = owh; reason = none }) ops

live_start : (ops : List UserOperationWithHash) → count is_live (start ops) ≡ length ops
live_start [] = refl
live_start (op ∷ ops) = omega (arith, live_start ops)

owhs-start : (ops : List UserOperationWithHash) → owhs (start ops) ≡ ops
owhs-start [] = refl
owhs-start (op ∷ ops) = ap (λ os. op ∷ os) (owhs-start ops)

module _ (bytes : Bytes) (ask : ℕ → EstimateRequest → Estimate) (t : Task)
    (ops : List UserOperationWithHash) (reputation : AnyReputationManager) where
  loop_from_start :
      (v06 : Bool)
      → Finishes bytes ask v06 t ops
          (estimate_loop bytes ask v06 (length ops + 6) t (start_of t ops reputation))
  loop_from_start v06 =
      subst
        (λ os.
          Finishes bytes ask v06 t os
            (estimate_loop bytes ask v06 (length ops + 6) t (start_of t ops reputation)))
        (owhs-start ops)
        (loop-Finishes bytes ask v06 t (length ops + 6) (start_of t ops reputation)
          (omega (arith, live_start ops)))

  Finishes-some :
      (v06 : Bool) (r : Option (Filtered × AnyReputationManager))
      → Finishes bytes ask v06 t ops r
      → (f : Filtered) × (rep : AnyReputationManager) × (r ≡ some (f, rep))
        × Accounted bytes ask v06 t ops f
  Finishes-some v06 none h = absurd (omega (arith, h))
  Finishes-some v06 (some r) h = (r.0, r.1, refl, h)

  -- Where the version of the operations can be read, and whatever the node answers,
  -- `filterOpsAndEstimateGas` ends: it throws, or it returns no operation and the gas 0, or it returns
  -- all operations, and its gas is the answer of the node to a request for exactly those that have
  -- no reason, or 0 where each has one.
  pub filter_ops_and_estimate_gas-ends :
      (v06 : Bool)
      → first_version t.context ops ≡ some v06
      → (f : Filtered) × (rep : AnyReputationManager) × (filter_ops_and_estimate_gas bytes ask t ops
            reputation
          ≡ some (f, rep))
        × Accounted bytes ask v06 t ops f
  unfolding filter_ops_and_estimate_gas
  filter_ops_and_estimate_gas-ends v06 e =
      let (f, rep, same, a) = Finishes-some v06 _ (loop_from_start v06) in
      (f, rep, rw (e, filter_ops_and_estimate_gas) same, a)
