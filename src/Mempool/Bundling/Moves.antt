-- ===== src/Mempool/Bundling/Moves.antt =====
-- The pools before and after `process` of src/mempool/mempool.ts.
use pimlico_alto_smart_accou.Common.{ℕ, ◌+◌, ◌≤◌, ◌≡◌, Option, none, some, List, count}
use pimlico_alto_smart_accou.Store
use pimlico_alto_smart_accou.Store.{UserOperationInfo, MemoryStore, has_hash}
use pimlico_alto_smart_accou.Store.Tally.{Tally, tally}
use pimlico_alto_smart_accou.Mempool.{Mempool}
use pimlico_alto_smart_accou.Mempool.Skipping.{Outside}
use pimlico_alto_smart_accou.Mempool.Bundling.{Sort, compare_operations}
use pimlico_alto_smart_accou.Mempool.Lifecycle.{Reachable}

-- `sort` loses nothing and adds nothing.
abbrev pub Rearranges : Sort → Type 0
Rearranges sort =
    (xs : List UserOperationInfo) (h : ℕ)
    → count (has_hash h) (sort compare_operations xs) ≡ count (has_hash h) xs

-- The tallies of a hash before and after `n` operations of it were taken.
abbrev pub Moved : ℕ → Tally → Tally → Type 0
Moved n t u =
    (u.processing ≡ t.processing + n)
    × (u.submitted ≡ t.submitted)
    × (u.outstanding + n ≤ t.outstanding)

module _ (out : Outside) where
  -- What `process` has done: the operations that it returns went from outstanding to processing.
  abbrev pub Takes : Mempool → Option (List UserOperationInfo) × Mempool → Type 0
  Takes m (none, m') = Reachable out m'
  Takes m (some infos, m') =
      Reachable out m'
      × ((h : ℕ) → Moved (count (has_hash h) infos) (tally m.store h) (tally m'.store h))

  -- The operations that are still to come are outstanding.
  abbrev Pending : List UserOperationInfo → Mempool → Type 0
  Pending infos m = (h : ℕ) → count (has_hash h) infos ≤ (tally m.store h).outstanding
