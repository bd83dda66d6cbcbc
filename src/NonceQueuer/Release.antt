-- ===== src/NonceQueuer/Release.antt =====
-- Which operations leave the nonce queue.
use pimlico_alto_smart_accou.Common.{
  ℕ, ◌*◌, ◌^◌, ◌≤◌, ◌≡◌, refl, Option, none, some, List, [], ◌∷◌, ◌++◌, ◌==◌, length, arith, ==_iff,
  ap, inl, inr, Bool-cases,
}
use pimlico_alto_smart_accou.UserOp.Hashing.{Encoding}
use pimlico_alto_smart_accou.UserOp.{
  MempoolUserOperation, get_nonce_key_and_value, nonce, derive_user_operation,
}
use pimlico_alto_smart_accou.UserOp.Nonce.{get_nonce_key_and_value_roundtrip}
use pimlico_alto_smart_accou.NonceQueuer.{
  add_queued, QueuedUserOperation, NonceQueuer, with_current_nonce, get_available_user_operations,
}

-- An operation of the queue carries the two parts of its nonce.
abbrev pub IsSplit : QueuedUserOperation → Type 0
IsSplit op =
    get_nonce_key_and_value (nonce (derive_user_operation op.mempool_user_operation))
    ≡ (op.nonce_key, op.nonce_value)

-- Each answer is a nonce under the key of its operation, as `getNonce` of the entry point returns:
-- the key above the 64 bits of the sequence.
abbrev pub AnswersKeys : List QueuedUserOperation → List (Option ℕ) → Type 0
AnswersKeys [] results = Unit {0}
AnswersKeys (op ∷ ops) [] = Unit {0}
AnswersKeys (op ∷ ops) (none ∷ results) = AnswersKeys ops results
AnswersKeys (op ∷ ops) (some n ∷ results) = (op.nonce_key * 2 ^ 64 ≤ n) × AnswersKeys ops results

-- What holds of every operation of a list.
abbrev pub All : (QueuedUserOperation → Type 0) → List QueuedUserOperation → Type 0
All P [] = Unit {0}
All P (op ∷ ops) = P op × All P ops

no_key :
    (op : QueuedUserOperation) (n : ℕ)
    → IsSplit op
    → op.nonce_key * 2 ^ 64 ≤ n
    → n ≡ op.nonce_value
    → op.nonce_key ≡ 0
no_key op n s l e =
    let v : ℕ = nonce (derive_user_operation op.mempool_user_operation) in
    let below : _ = (get_nonce_key_and_value_roundtrip 0 0 v (omega arith)).2 in
    let is_value : (get_nonce_key_and_value v).1 ≡ op.nonce_value = ap (λ p. p.1) s in ground arith

available-keys :
    (ops : List QueuedUserOperation) (results : List (Option ℕ))
    → All IsSplit ops
    → AnswersKeys ops results
    → All (λ op. op.nonce_key ≡ 0) (with_current_nonce ops results)
unfolding with_current_nonce
available-keys [] results v a = tt
available-keys (op ∷ ops) [] v a = tt
available-keys (op ∷ ops) (none ∷ results) v a = available-keys ops results (v.1) a
available-keys (op ∷ ops) (some n ∷ results) v a = elim (Bool-cases (n == op.nonce_value)) [
  | inl e ↦ rw e (
    no_key op n (v.0) (a.0) ((==_iff n op.nonce_value).0 e),
    available-keys ops results (v.1) (a.1),
  )
  | inr e ↦ rw e (available-keys ops results (v.1) (a.1))
]

All-append :
    (P : QueuedUserOperation → Type 0) (ops others : List QueuedUserOperation)
    → All P ops
    → All P others
    → All P (ops ++ others)
All-append P [] others h k = k
All-append P (op ∷ ops) others h k = (h.0, All-append P ops others (h.1) k)

abbrev pub queue_with :
    Encoding → ℕ → MempoolUserOperation → ℕ → NonceQueuer → List QueuedUserOperation
queue_with viem now operation entry_point q =
    (add_queued viem now operation entry_point q).queued_user_operations

-- Queueing an operation keeps the two parts of every nonce split as they are in the operation, and
-- no operation whose nonce has a key other than 0 is then found available: the nonces on chain,
-- which have the keys in their upper bits, are compared with the sequences alone.
pub get_available_user_operations-keys :
    (viem : Encoding) (now : ℕ) (operation : MempoolUserOperation) (entry_point : ℕ)
    (q : NonceQueuer) (results : List (Option ℕ))
    → All IsSplit q.queued_user_operations
    → AnswersKeys (queue_with viem now operation entry_point q) results
    → All IsSplit (queue_with viem now operation entry_point q)
      × All
          (λ op. op.nonce_key ≡ 0)
          (get_available_user_operations (queue_with viem now operation entry_point q) results)
unfolding get_available_user_operations add_queued
get_available_user_operations-keys viem now operation entry_point q results h a =
    let ops : List QueuedUserOperation = queue_with viem now operation entry_point q in
    let split : All IsSplit ops = All-append IsSplit q.queued_user_operations _ h (refl, tt) in
    (
      split,
      elim (Bool-cases (length results == length ops)) [
        | inl e ↦ rw e (available-keys ops results split a)
        | inr e ↦ rw e tt
      ],
    )
