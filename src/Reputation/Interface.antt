-- ===== src/Reputation/Interface.antt =====
-- The two classes behind `InterfaceReputationManager` (src/mempool/reputationManager.ts): the one
-- that records nothing, and the one of the module above. `getReputationManager` of
-- src/cli/setupServer.ts chooses.
use pimlico_alto_smart_accou.Common.{ℕ, Bool, Option, List, if◌then◌else◌}
use pimlico_alto_smart_accou.UserOp.{GetAddress, UserOperation}
use pimlico_alto_smart_accou.Reputation.{
  ReputationStatus, ReputationManager, Outcome, returned, thrown, not_implemented, M,
  new_reputation_manager, update_user_operation_seen_status, update_user_operation_included_status,
  crashed_handle_ops, get_status, clear, clear_entity_count,
}
use pimlico_alto_smart_accou.Reputation.Checks.{
  ValidationInfo, check_reputation, increase_user_operation_count, decrease_user_operation_count,
}

pub data AnyReputationManager : Type 0 where
  null_manager : AnyReputationManager
  live : ReputationManager → AnyReputationManager

unfoldable pub get_reputation_manager : Bool → ℕ → ℕ → List ℕ → AnyReputationManager
get_reputation_manager safe_mode min_stake min_delay entrypoints =
    if safe_mode
    then live (new_reputation_manager min_stake min_delay entrypoints)
    else null_manager

-- A method of the recording class, and what the other class answers in its place.
abbrev pub dispatch :
    {A : Type 0} → Outcome A → M A → AnyReputationManager → Outcome A × AnyReputationManager
dispatch answer m null_manager = (answer, null_manager)
dispatch answer m (live r) = let (o, r') = m r in (o, live r')

module _ (get_address : GetAddress) where
  unfoldable pub any_check_reputation :
      UserOperation
      → ℕ
      → ValidationInfo
      → AnyReputationManager
      → Outcome (Unit {0}) × AnyReputationManager
  any_check_reputation op entry_point v =
      dispatch (returned tt) (check_reputation get_address op entry_point v)

  unfoldable pub any_update_seen_status :
      UserOperation → ℕ → AnyReputationManager → Outcome (Unit {0}) × AnyReputationManager
  any_update_seen_status op entry_point =
      dispatch (returned tt) (update_user_operation_seen_status get_address op entry_point)

  unfoldable pub any_update_included_status :
      UserOperation → ℕ → Bool → AnyReputationManager → Outcome (Unit {0}) × AnyReputationManager
  any_update_included_status op entry_point deployed =
      dispatch (returned tt)
        (update_user_operation_included_status get_address op entry_point deployed)

  unfoldable pub any_crashed_handle_ops :
      UserOperation → ℕ → List ℕ → AnyReputationManager → Outcome (Unit {0}) × AnyReputationManager
  any_crashed_handle_ops op entry_point reason =
      dispatch (returned tt) (crashed_handle_ops get_address op entry_point reason)

  unfoldable pub any_increase_count : UserOperation → AnyReputationManager → AnyReputationManager
  any_increase_count op null_manager = null_manager
  any_increase_count op (live r) = live (increase_user_operation_count get_address op r)

  unfoldable pub any_decrease_count : UserOperation → AnyReputationManager → AnyReputationManager
  any_decrease_count op null_manager = null_manager
  any_decrease_count op (live r) = live (decrease_user_operation_count get_address op r)

unfoldable pub any_get_status :
    ℕ → Option ℕ → AnyReputationManager → Outcome ReputationStatus × AnyReputationManager
any_get_status entry_point address =
    dispatch (thrown not_implemented) (get_status entry_point address)

unfoldable pub any_clear : AnyReputationManager → AnyReputationManager
any_clear null_manager = null_manager
any_clear (live r) = live (clear r)

unfoldable pub any_clear_entity_count : AnyReputationManager → AnyReputationManager
any_clear_entity_count null_manager = null_manager
any_clear_entity_count (live r) = live (clear_entity_count r)
