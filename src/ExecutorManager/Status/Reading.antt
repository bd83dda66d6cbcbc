-- ===== src/ExecutorManager/Status/Reading.antt =====
-- A direct reading of the logs of a receipt: the details that the events about one operation give.
use pimlico_alto_smart_accou.Common.{
  ℕ, Bool, false, Option, none, some, List, [], ◌∷◌, ◌==◌, any, if◌then◌else◌,
}
use pimlico_alto_smart_accou.UserOp.{Hex}
use pimlico_alto_smart_accou.ExecutorManager.Status.{
  OpOutcome, successful, calldata_phase_reverted, UserOperationDetails, LogEvent, account_deployed,
  user_operation_revert_reason, user_operation_event, other_event, undecodable, Log,
}

-- Whether an event is about the operation with this hash.
abbrev pub is_about : ℕ → LogEvent → Bool
is_about h (account_deployed k) = k == h
is_about h (user_operation_revert_reason k reason) = k == h
is_about h (user_operation_event k success) = k == h
is_about h other_event = false
is_about h undecodable = false

abbrev pub deploys : ℕ → LogEvent → Bool
deploys h (account_deployed k) = k == h
deploys h (user_operation_revert_reason k reason) = false
deploys h (user_operation_event k success) = false
deploys h other_event = false
deploys h undecodable = false

-- The outcome and the reason after an event.
abbrev pub outcome_by : ℕ → OpOutcome → LogEvent → OpOutcome
outcome_by h o (user_operation_event k success) =
    if k == h then (if success then successful else calldata_phase_reverted) else o
outcome_by h o (account_deployed k) = o
outcome_by h o (user_operation_revert_reason k reason) = o
outcome_by h o other_event = o
outcome_by h o undecodable = o

abbrev pub reason_by : ℕ → Option Hex → LogEvent → Option Hex
reason_by h o (user_operation_revert_reason k reason) = if k == h then some reason else o
reason_by h o (user_operation_event k success) = o
reason_by h o (account_deployed k) = o
reason_by h o other_event = o
reason_by h o undecodable = o

-- The events of the entry point, in their order.
abbrev pub events_of : ℕ → List Log → List LogEvent
events_of entry_point [] = []
events_of entry_point (log ∷ logs) =
    if log.address == entry_point
    then log.event ∷ events_of entry_point logs
    else events_of entry_point logs

-- The last outcome and the last reason that the events give, or those from before.
abbrev pub last_outcome : ℕ → OpOutcome → List LogEvent → OpOutcome
last_outcome h o [] = o
last_outcome h o (e ∷ es) = last_outcome h (outcome_by h o e) es

abbrev pub last_reason : ℕ → Option Hex → List LogEvent → Option Hex
last_reason h o [] = o
last_reason h o (e ∷ es) = last_reason h (reason_by h o e) es

-- The details of an operation by its events alone.
abbrev pub details_of : ℕ → List LogEvent → Option UserOperationDetails
details_of h es =
    if any (is_about h) es
    then some (record {
      account_deployed = any (deploys h) es;
      status = last_outcome h successful es;
      revert_reason = last_reason h none es;
    })
    else none
