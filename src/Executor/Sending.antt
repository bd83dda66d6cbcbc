-- ===== src/Executor/Sending.antt =====
-- Sending a transaction, src/executor/executor.ts: `sendHandleOpsTransaction` with its retries, and
-- `handleTransactionUnderPriced`. The wallet client is a parameter: `prepare` is
-- `prepareTransactionRequest`, `none` where it throws, and `send` the answer to each attempt.
use pimlico_alto_smart_accou.Common.{
  ℕ, zero, suc, ◌+◌, Bool, true, false, ◌&&◌, ◌||◌, Option, none, some, List, [], ◌∷◌, map, filter,
  is_some, ◌==◌, if◌then◌else◌,
}
use pimlico_alto_smart_accou.UserOp.{Hex}
use pimlico_alto_smart_accou.UserOp.Hashing.{Encoding}
use pimlico_alto_smart_accou.TimedQueue.{scale_big_int_by_percent}
use pimlico_alto_smart_accou.Store.{UserOperationInfo, SubmittedUserOperation}
use pimlico_alto_smart_accou.Mempool.{Mempool, info_of, remove_submitted}
use pimlico_alto_smart_accou.Mempool.Adding.{add}

pub record SendRequest : Type 0 where
  pub to_address : ℕ
  pub call_data : Hex
  pub from_address : ℕ
  pub gas : ℕ
  pub nonce : ℕ
  pub gas_price : Option ℕ
  pub max_fee_per_gas : Option ℕ
  pub max_priority_fee_per_gas : Option ℕ

pub data Cause : Type 0 where
  nonce_too_low nonce_too_high intrinsic_gas_too_low insufficient_funds fee_cap_too_low : Cause
  other_cause : Cause

-- An error of `sendTransaction`: whether its details name an underpriced replacement, the cause of a
-- `TransactionExecutionError`, and whether the details of the cause name missing backends.
pub record SendError : Type 0 where
  pub underpriced : Bool
  pub cause : Option Cause
  pub no_backends : Bool

pub data Sent : Type 0 where
  accepted : ℕ → Sent
  rejected : SendError → Sent

-- `thrown none` is any other exception.
pub data Sending : Type 0 where
  hash : ℕ → Sending
  thrown : Option SendError → Sending

pub data Recovery : Type 0 where
  retry : SendRequest → Recovery
  rethrow throws_other : Recovery

infixl 5 ◌>>=◌
abbrev ◌>>=◌ : {A B : Type 0} → Option A → (A → Option B) → Option B
none >>= f = none
some a >>= f = f a

-- A legacy request has no fees to scale, and the arithmetic throws.
unfoldable pub scale_fees : Bool → SendRequest → Option SendRequest
scale_fees false r = some r
scale_fees true r = do
  fee ← r.max_fee_per_gas
  priority ← r.max_priority_fee_per_gas
  some (record r {
    max_fee_per_gas = some (scale_big_int_by_percent fee 150);
    max_priority_fee_per_gas = some (scale_big_int_by_percent priority 150);
  })

-- The pending nonce is read again, or the gas scaled. `count` is `getTransactionCount`.
unfoldable pub mend_cause : Option ℕ → Option Cause → SendRequest → Option SendRequest
mend_cause count none r = some r
mend_cause count (some nonce_too_low) r = do nonce ← count; some (record r { nonce = nonce })
mend_cause count (some nonce_too_high) r = do nonce ← count; some (record r { nonce = nonce })
mend_cause count (some intrinsic_gas_too_low) r =
    some (record r { gas = scale_big_int_by_percent r.gas 150 })
mend_cause count (some insufficient_funds) r = some r
mend_cause count (some fee_cap_too_low) r = some r
mend_cause count (some other_cause) r = some r

abbrev pub is_mendable : Option Cause → Bool
is_mendable none = false
is_mendable (some nonce_too_low) = true
is_mendable (some nonce_too_high) = true
is_mendable (some intrinsic_gas_too_low) = true
is_mendable (some insufficient_funds) = false
is_mendable (some fee_cap_too_low) = false
is_mendable (some other_cause) = false

abbrev pub is_error_handled : SendError → Bool
is_error_handled e = e.underpriced || is_mendable e.cause || (is_some e.cause && e.no_backends)

unfoldable pub recover : Option ℕ → SendError → SendRequest → Recovery
recover count e r = elim (scale_fees e.underpriced r) [
  | none ↦ throws_other
  | some scaled ↦ elim (mend_cause count e.cause scaled) [
    | none ↦ throws_other
    | some mended ↦ if is_error_handled e then retry mended else rethrow
  ]
]

-- How the loop of attempts ends: with a hash or without, the request as it is then, and
-- `isTransactionUnderPriced`; or with an exception.
pub data Attempted : Type 0 where
  left_loop : Option ℕ → SendRequest → Bool → Attempted
  left_by : Option SendError → Attempted

pub record Wire : Type 0 where
  pub prepare : SendRequest → Option SendRequest
  pub send : ℕ → SendRequest → Sent
  pub pending_count : ℕ → Option ℕ

module _ (wire : Wire) where
  -- The attempt with this number, and the following ones while there are any left. The test
  -- `attempts === maxAttempts` never holds inside the loop.
  unfoldable pub send_loop : (left attempts : ℕ) → SendRequest → Bool → Attempted
  send_loop zero attempts r u = left_loop none r u
  send_loop (suc left) attempts r u = elim (wire.send attempts r) [
    | accepted h ↦ left_loop (some h) r u
    | rejected e ↦ elim (recover (wire.pending_count attempts) e r) [
      | retry next ↦ send_loop left (attempts + 1) next e.underpriced
      | rethrow ↦ left_by (some e)
      | throws_other ↦ left_by none
    ]
  ]

module _ (viem : Encoding) (now : ℕ) where
  abbrev pub is_conflicting : ℕ → ℕ → SubmittedUserOperation → Bool
  is_conflicting nonce executor s =
      s.transaction_info.executor == executor
      && s.transaction_info.transaction_request.nonce == nonce

  unfoldable pub resubmit_conflicting : List UserOperationInfo → Mempool → Mempool
  resubmit_conflicting [] m = m
  resubmit_conflicting (op ∷ ops) m = resubmit_conflicting ops (
      (add viem (remove_submitted m op.user_operation_hash) now op.mempool_user_operation
        op.entry_point none).1)

  unfoldable pub handle_transaction_under_priced : ℕ → ℕ → Mempool → Mempool
  handle_transaction_under_priced nonce executor m =
      resubmit_conflicting (map info_of (filter (is_conflicting nonce executor) m.store.submitted))
        m

  -- The end of the sending: the conflicting operations go back, and a missing hash is an error.
  unfoldable pub after_attempts : Attempted → Mempool → Sending × Mempool
  after_attempts (left_by e) m = (thrown e, m)
  after_attempts (left_loop h r u) m = (
    elim h [ some tx ↦ hash tx | none ↦ thrown none ],
    if u then handle_transaction_under_priced r.nonce r.from_address m else m,
  )

  unfoldable pub send_handle_ops_transaction : Wire → SendRequest → Mempool → Sending × Mempool
  send_handle_ops_transaction wire request m = elim (wire.prepare request) [
    | none ↦ (thrown none, m)
    | some prepared ↦ after_attempts (send_loop wire 3 0 prepared false) m
  ]
