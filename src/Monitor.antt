-- ===== src/Monitor.antt =====
-- The status of user operations, src/mempool/monitoring.ts. Time is an argument, in milliseconds.
-- `setTimeout` adds a pending timer under a fresh identity, `clearTimeout` takes one out, and
-- `run_timers` is what the event loop does at a moment: every timer that is due fires.
pub mod Expiry
use pimlico_alto_smart_accou.Common.{
  ℕ, ◌+◌, Bool, not, Option, none, some, List, [], ◌∷◌, ◌++◌, ◌==◌, leb, filter, if◌then◌else◌,
  Dict, get?, put, delete,
}

pub data StatusName : Type 0 where
  not_found not_submitted submitted rejected reverted included failed : StatusName

pub record UserOperationStatus : Type 0 where
  pub status : StatusName
  pub transaction_hash : Option ℕ

pub record Timer : Type 0 where
  pub id : ℕ
  pub key : ℕ
  pub due : ℕ

pub record Monitor : Type 0 where
  pub user_operation_to_status : Dict UserOperationStatus
  pub user_operation_timeouts : Dict ℕ
  pub timeout : ℕ
  pub pending : List Timer
  pub next_id : ℕ

unfoldable pub new_monitor : ℕ → Monitor
new_monitor timeout = record {
  user_operation_to_status = [];
  user_operation_timeouts = [];
  timeout = timeout;
  pending = [];
  next_id = 0;
}

-- `clearTimeout`.
abbrev pub cancel : Option ℕ → List Timer → List Timer
cancel none ts = ts
cancel (some id) ts = filter (λ t. not (t.id == id)) ts

unfoldable pub set_user_operation_status : Monitor → ℕ → ℕ → UserOperationStatus → Monitor
set_user_operation_status m now key status = record m {
  user_operation_to_status = put m.user_operation_to_status key status;
  user_operation_timeouts = put m.user_operation_timeouts key m.next_id;
  pending =
      cancel (get? m.user_operation_timeouts key) m.pending
      ++ record { id = m.next_id; key = key; due = now + m.timeout } ∷ [];
  next_id = m.next_id + 1;
}

-- The callback of the timer.
unfoldable pub fire : Monitor → Timer → Monitor
fire m t = record m {
  user_operation_to_status = delete m.user_operation_to_status t.key;
  user_operation_timeouts = delete m.user_operation_timeouts t.key;
  pending = cancel (some t.id) m.pending;
}

unfoldable pub fire_due : ℕ → List Timer → Monitor → Monitor
unfolding fire
fire_due now [] m = m
fire_due now (t ∷ ts) m = fire_due now ts (if leb t.due now then fire m t else m)

unfoldable pub run_timers : Monitor → ℕ → Monitor
unfolding fire_due
run_timers m now = fire_due now m.pending m

unfoldable pub get_user_operation_status : Monitor → ℕ → UserOperationStatus
get_user_operation_status m key = elim (get? m.user_operation_to_status key) [
  | none ↦ record { status = not_found; transaction_hash = none }
  | some status ↦ status
]
