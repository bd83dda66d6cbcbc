-- ===== src/Store/Tally.antt =====
-- How often each hash is in each pool, and what the methods of src/mempool/store.ts do to that.
use pimlico_alto_smart_accou.Common.{
  ℕ, ◌+◌, ◌-◌, ◌≡◌, ap, none, some, Option-cases, List, [], ◌∷◌, ◌++◌, ◌==◌, find, count,
  erase_first, count-erase_first, find-passes, ==_iff, count-append, count-find-none, if◌then◌else◌,
  arith, inl, inr,
}
use pimlico_alto_smart_accou.Store.{
  UserOperationInfo, SubmittedUserOperation, MemoryStore, has_hash, submitted_has_hash,
  add_outstanding, add_processing, add_submitted, remove_outstanding, remove_processing,
  remove_submitted,
}

-- The number of entries with this hash in the three pools.
pub record Tally : Type 0 where
  pub outstanding : ℕ
  pub processing : ℕ
  pub submitted : ℕ

abbrev pub tally : MemoryStore → ℕ → Tally
tally s h = record {
  outstanding = count (has_hash h) s.outstanding;
  processing = count (has_hash h) s.processing;
  submitted = count (submitted_has_hash h) s.submitted;
}

-- One more where the hashes agree.
abbrev pub plus : ℕ → ℕ → ℕ → ℕ
plus k h n = if k == h then n + 1 else n

-- One less where the hashes agree, and nothing below 0.
abbrev pub minus : ℕ → ℕ → ℕ → ℕ
minus k h n = if k == h then n - 1 else n

module _ {A : Type 0} (f : A → ℕ) where
  count-erase_first_key :
      (h k : ℕ) (xs : List A) (a : A)
      → find (λ x. f x == k) xs ≡ some a
      → count (λ x. f x == h) (erase_first (λ x. f x == k) xs)
        ≡ minus k h (count (λ x. f x == h) xs)
  count-erase_first_key h k xs a e =
      let whole : _ = count-erase_first (λ x. f x == k) (λ x. f x == h) xs a e in
      let key : f a ≡ k = (==_iff (f a) k).0 (find-passes (λ x. f x == k) xs a e) in
      rw (whole, key) (ground arith)

  count-missing :
      (h k : ℕ) (xs : List A)
      → find (λ x. f x == k) xs ≡ none
      → count (λ x. f x == h) xs ≡ minus k h (count (λ x. f x == h) xs)
  count-missing h k xs e = ground (arith, count-find-none (λ x. f x == k) xs e)

  count-append_key :
      (h : ℕ) (xs : List A) (x : A)
      → count (λ y. f y == h) (xs ++ x ∷ []) ≡ plus (f x) h (count (λ y. f y == h) xs)
  count-append_key h xs x = ground (arith, count-append (λ y. f y == h) xs (x ∷ []))

pub tally-add_outstanding :
    (s : MemoryStore) (i : UserOperationInfo) (h : ℕ)
    → tally (add_outstanding s i) h
      ≡ record (tally s h) { outstanding = plus i.user_operation_hash h (tally s h).outstanding }
unfolding add_outstanding
tally-add_outstanding s i h =
    ap (λ n. record (tally s h) { outstanding = n })
      (count-append_key (λ x. x.user_operation_hash) h s.outstanding i)

pub tally-remove_outstanding :
    (s : MemoryStore) (k h : ℕ)
    → tally (remove_outstanding s k) h
      ≡ record (tally s h) { outstanding = minus k h (tally s h).outstanding }
unfolding remove_outstanding
tally-remove_outstanding s k h = elim (Option-cases (find (has_hash k) s.outstanding)) [
  | inl e ↦
      rw (e, remove_outstanding)
        (ap (λ n. record (tally s h) { outstanding = n })
          (count-missing (λ x. x.user_operation_hash) h k s.outstanding e))
  | inr (i, e) ↦
      rw (e, remove_outstanding)
        (ap (λ n. record (tally s h) { outstanding = n })
          (count-erase_first_key (λ x. x.user_operation_hash) h k s.outstanding i e))
]

pub tally-add_processing :
    (s : MemoryStore) (i : UserOperationInfo) (h : ℕ)
    → tally (add_processing s i) h
      ≡ record (tally s h) { processing = plus i.user_operation_hash h (tally s h).processing }
unfolding add_processing
tally-add_processing s i h =
    ap (λ n. record (tally s h) { processing = n })
      (count-append_key (λ x. x.user_operation_hash) h s.processing i)

pub tally-remove_processing :
    (s : MemoryStore) (k h : ℕ)
    → tally (remove_processing s k) h
      ≡ record (tally s h) { processing = minus k h (tally s h).processing }
unfolding remove_processing
tally-remove_processing s k h = elim (Option-cases (find (has_hash k) s.processing)) [
  | inl e ↦
      rw (e, remove_processing)
        (ap (λ n. record (tally s h) { processing = n })
          (count-missing (λ x. x.user_operation_hash) h k s.processing e))
  | inr (i, e) ↦
      rw (e, remove_processing)
        (ap (λ n. record (tally s h) { processing = n })
          (count-erase_first_key (λ x. x.user_operation_hash) h k s.processing i e))
]

pub tally-add_submitted :
    (s : MemoryStore) (i : SubmittedUserOperation) (h : ℕ)
    → tally (add_submitted s i) h ≡ record (tally s h) {
      submitted = plus i.user_operation.user_operation_hash h (tally s h).submitted;
    }
unfolding add_submitted
tally-add_submitted s i h =
    ap (λ n. record (tally s h) { submitted = n })
      (count-append_key (λ x. x.user_operation.user_operation_hash) h s.submitted i)

pub tally-remove_submitted :
    (s : MemoryStore) (k h : ℕ)
    → tally (remove_submitted s k) h
      ≡ record (tally s h) { submitted = minus k h (tally s h).submitted }
unfolding remove_submitted
tally-remove_submitted s k h = elim (Option-cases (find (submitted_has_hash k) s.submitted)) [
  | inl e ↦
      rw (e, remove_submitted)
        (ap (λ n. record (tally s h) { submitted = n })
          (count-missing (λ x. x.user_operation.user_operation_hash) h k s.submitted e))
  | inr (i, e) ↦
      rw (e, remove_submitted)
        (ap (λ n. record (tally s h) { submitted = n })
          (count-erase_first_key (λ x. x.user_operation.user_operation_hash) h k s.submitted i e))
]
