-- ===== src/Mempool/Lifecycle.antt =====
-- The life of an operation in the mempool (src/mempool/mempool.ts): the operations on the pools as
-- steps, and the phases of a hash that they may lead through.
pub mod Phases
pub mod Steps
pub mod Moves
use pimlico_alto_smart_accou.Common.{ℕ, ◌+◌, ◌≤◌, ◌≡◌, Bool, true, false, ltb, any, if◌then◌else◌}
use pimlico_alto_smart_accou.Store
use pimlico_alto_smart_accou.Store.{UserOperationInfo, TransactionInfo, has_hash}
use pimlico_alto_smart_accou.Store.Tally.{Tally, tally}
use pimlico_alto_smart_accou.Monitor.{Monitor}
use pimlico_alto_smart_accou.Reputation.Interface.{AnyReputationManager}
use pimlico_alto_smart_accou.EventManager.{EventManager}
use pimlico_alto_smart_accou.Mempool
use pimlico_alto_smart_accou.Mempool.{
  Mempool, MempoolConfig, new_mempool, mark_submitted, replace_submitted, remove_submitted,
  remove_processing, clear,
}
use pimlico_alto_smart_accou.Mempool.Adding.{Request, add_request}
use pimlico_alto_smart_accou.Mempool.Skipping.{Outside}
use pimlico_alto_smart_accou.Mempool.Bundling.{take_operation}

-- The calls that move operations between the pools. `takes` is the end of the loop of `process`, and
-- `drops_outstanding` the removal of a banned or invalid operation in `shouldSkip`.
pub data Operation : Type 0 where
  adds : Request → Operation
  takes : UserOperationInfo → Operation
  marks : ℕ → ℕ → TransactionInfo → Operation
  replaces : ℕ → UserOperationInfo → TransactionInfo → Operation
  drops_outstanding drops_processing drops_submitted : ℕ → Operation
  clears : Operation

unfoldable pub apply : Outside → Operation → Mempool → Mempool
apply out (adds q) m = (add_request out.viem m q).1
apply out (takes info) m = take_operation out info m
apply out (marks now hash tx) m = mark_submitted m now hash tx
apply out (replaces now info tx) m = replace_submitted m now info tx
apply out (drops_outstanding hash) m = record m { store = Store.remove_outstanding m.store hash }
apply out (drops_processing hash) m = remove_processing m hash
apply out (drops_submitted hash) m = remove_submitted m hash
apply out clears m = clear m

-- The condition on a step: an operation that `process` takes is still outstanding when it is taken.
-- The source does not test it; process-Takes of Mempool/Bundling/Moves has it where no other task
-- changes the pools while `process` awaits.
abbrev pub Allowed : Operation → Mempool → Type 0
Allowed (takes info) m = any (has_hash info.user_operation_hash) m.store.outstanding ≡ true
Allowed _ m = Unit {0}

-- The mempools that any sequence of such calls leads to, each operation taken being still outstanding
-- when it is taken, with anything else that leaves the pools alone in between.
pub data Reachable (out : Outside) : Mempool → Type 0 where
  starts :
      (config : MempoolConfig) (monitor : Monitor) (reputation : AnyReputationManager)
      (events : EventManager)
      → Reachable out (new_mempool config monitor reputation events)
  steps :
      {m : Mempool}
      → Reachable out m
      → (o : Operation) → Allowed o m
      → Reachable out (apply out o m)
  other :
      {m : Mempool}
      → Reachable out m
      → (n : Mempool) → ((h : ℕ) → tally n.store h ≡ tally m.store h)
      → Reachable out n

-- Where a hash is.
pub data Phase : Type 0 where
  is_absent is_outstanding is_processing is_submitted : Phase

abbrev pub phase_of : Tally → Phase
phase_of t =
    if ltb 0 t.outstanding
    then is_outstanding
    else if ltb 0 t.processing
    then is_processing
    else if ltb 0 t.submitted
    then is_submitted
    else is_absent

-- The moves that the life of an operation allows.
abbrev pub may_move : Phase → Phase → Bool
may_move is_absent is_absent = true
may_move is_absent is_outstanding = true
may_move is_outstanding is_outstanding = true
may_move is_outstanding is_processing = true
may_move is_outstanding is_absent = true
may_move is_processing is_processing = true
may_move is_processing is_submitted = true
may_move is_processing is_absent = true
may_move is_submitted is_submitted = true
may_move is_submitted is_absent = true
may_move _ _ = false

abbrev pub total : Tally → ℕ
total t = t.outstanding + t.processing + t.submitted

-- A change of the tally that keeps a hash in one place and moves it as its life allows.
abbrev pub Fits : Tally → Tally → Type 0
Fits t u = (total u ≤ 1) × (may_move (phase_of t) (phase_of u) ≡ true)
