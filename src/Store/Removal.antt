-- ===== src/Store/Removal.antt =====
-- What the removals of the store take away (src/mempool/store.ts).
use pimlico_alto_smart_accou.Common.{
  ℕ, ◌+◌, ◌≤◌, ◌≡◌, inl, inr, Bool, none, some, arith, find, count, Option-cases, if◌then◌else◌,
  count-erase_first, count-erase_first-le, find-passes,
}
use pimlico_alto_smart_accou.Store.{
  UserOperationInfo, SubmittedUserOperation, MemoryStore, has_hash, submitted_has_hash,
  remove_outstanding, remove_processing, remove_submitted,
}

-- Removing a hash that the pool holds takes one operation with that hash out of the pool, whatever
-- is counted, and leaves the two other pools.
pub remove_outstanding_one :
    (s : MemoryStore) (hash : ℕ) (op : UserOperationInfo) (q : UserOperationInfo → Bool)
    → find (has_hash hash) s.outstanding ≡ some op
    → (op.user_operation_hash ≡ hash)
      × (count q s.outstanding
          ≡ count q (remove_outstanding s hash).outstanding + (if q op then 1 else 0))
      × ((remove_outstanding s hash).processing ≡ s.processing)
      × ((remove_outstanding s hash).submitted ≡ s.submitted)
unfolding remove_outstanding
remove_outstanding_one s hash op q h = (
  ground (arith, find-passes (has_hash hash) s.outstanding op),
  rw (h, remove_outstanding) (count-erase_first (has_hash hash) q s.outstanding op h),
  rw (h, remove_outstanding),
  rw (h, remove_outstanding),
)

-- A hash that the pool does not hold changes nothing.
pub remove_outstanding_missing :
    (s : MemoryStore) (hash : ℕ)
    → find (has_hash hash) s.outstanding ≡ none
    → remove_outstanding s hash ≡ s
unfolding remove_outstanding
remove_outstanding_missing s hash h = rw (h, remove_outstanding)

-- The pool after a removal, whether the hash is held or not.
pub count-remove_outstanding-le :
    (s : MemoryStore) (hash : ℕ) (q : UserOperationInfo → Bool)
    → count q (remove_outstanding s hash).outstanding ≤ count q s.outstanding
unfolding remove_outstanding
count-remove_outstanding-le s hash q = elim (Option-cases (find (has_hash hash) s.outstanding)) [
  | inl e ↦ rw (e, remove_outstanding) (omega arith)
  | inr (op, e) ↦ rw (e, remove_outstanding) (count-erase_first-le (has_hash hash) q s.outstanding)
]

pub count-remove_processing-le :
    (s : MemoryStore) (hash : ℕ) (q : UserOperationInfo → Bool)
    → count q (remove_processing s hash).processing ≤ count q s.processing
unfolding remove_processing
count-remove_processing-le s hash q = elim (Option-cases (find (has_hash hash) s.processing)) [
  | inl e ↦ rw (e, remove_processing) (omega arith)
  | inr (op, e) ↦ rw (e, remove_processing) (count-erase_first-le (has_hash hash) q s.processing)
]

pub count-remove_submitted-le :
    (s : MemoryStore) (hash : ℕ) (q : SubmittedUserOperation → Bool)
    → count q (remove_submitted s hash).submitted ≤ count q s.submitted
unfolding remove_submitted
count-remove_submitted-le s hash q =
    elim (Option-cases (find (submitted_has_hash hash) s.submitted)) [
      | inl e ↦ rw (e, remove_submitted) (omega arith)
      | inr (op, e) ↦
          rw (e, remove_submitted) (count-erase_first-le (submitted_has_hash hash) q s.submitted)
    ]
