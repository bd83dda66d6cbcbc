-- ===== src/ExecutorManager/Status.antt =====
-- `getBundleStatus` of src/utils/userop.ts. The receipts are given, with the logs decoded by viem.
pub mod Details
pub mod Reading
use pimlico_alto_smart_accou.Common.{
  ℕ, Bool, true, false, Option, none, some, List, [], ◌∷◌, ◌==◌, Dict, get?, put, get_or_else,
  if◌then◌else◌,
}
use pimlico_alto_smart_accou.UserOp.{Hex, hex_eq}
use pimlico_alto_smart_accou.Executor.{Text}
use pimlico_alto_smart_accou.Executor.Simulation.{out_of_gas}

pub data OpOutcome : Type 0 where
  successful calldata_phase_reverted : OpOutcome

pub record UserOperationDetails : Type 0 where
  pub account_deployed : Bool
  pub status : OpOutcome
  pub revert_reason : Option Hex

pub data BundlingStatus : Type 0 where
  included : Dict UserOperationDetails → BundlingStatus
  reverted : (is_aa95 : Bool) → BundlingStatus
  not_found : BundlingStatus

-- A decoded log, by the hash of its operation.
pub data LogEvent : Type 0 where
  account_deployed : ℕ → LogEvent
  user_operation_revert_reason : ℕ → Hex → LogEvent
  user_operation_event : ℕ → (success : Bool) → LogEvent
  other_event undecodable : LogEvent

pub record Log : Type 0 where
  pub address : ℕ
  pub event : LogEvent

-- What `getTransactionReceipt` answers. The text of `reverted_at` is the reason of the `FailedOp` that
-- the error of the receipt decodes to, where it does.
pub data Receipt : Type 0 where
  missing : Receipt
  reverted_at : (block : ℕ) → Option Text → Receipt
  mined_at : (block : ℕ) → List Log → Receipt

abbrev fresh_details : UserOperationDetails
fresh_details = record { account_deployed = false; status = successful; revert_reason = none }

-- `result[hash] ??= …` and a change of the entry.
abbrev pub update_details :
    Dict UserOperationDetails
    → ℕ
    → (UserOperationDetails → UserOperationDetails)
    → Dict UserOperationDetails
update_details result hash f = put result hash (f (get_or_else (get? result hash) fresh_details))

unfoldable pub read_event : Dict UserOperationDetails → LogEvent → Dict UserOperationDetails
read_event result (account_deployed hash) =
    update_details result hash (λ d. record d { account_deployed = true })
read_event result (user_operation_revert_reason hash reason) =
    update_details result hash (λ d. record d { revert_reason = some reason })
read_event result (user_operation_event hash success) =
    update_details result hash
      (λ d. record d { status = if success then successful else calldata_phase_reverted })
read_event result other_event = result
read_event result undecodable = result

unfoldable pub read_logs : ℕ → Dict UserOperationDetails → List Log → Dict UserOperationDetails
read_logs entry_point result [] = result
read_logs entry_point result (log ∷ logs) =
    read_logs entry_point
      (if log.address == entry_point then read_event result log.event else result) logs

abbrev is_out_of_gas : Option Text → Bool
is_out_of_gas none = false
is_out_of_gas (some reason) = hex_eq reason out_of_gas

-- The status, with the number of the block.
unfoldable pub get_bundle_status : ℕ → Receipt → BundlingStatus × Option ℕ
get_bundle_status entry_point missing = (not_found, none)
get_bundle_status entry_point (reverted_at block reason) =
    (reverted (is_out_of_gas reason), some block)
get_bundle_status entry_point (mined_at block logs) =
    (included (read_logs entry_point [] logs), some block)
