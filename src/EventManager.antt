-- ===== src/EventManager.antt =====
-- The event manager, src/handlers/eventManager.ts: what it hands to the message queue. A failure of
-- the queue is logged there and reaches no caller, so an entry counts as sent when it is handed over.
use pimlico_alto_smart_accou.Common.{
  ℕ, Bool, Option, none, List, [], ◌∷◌, ◌++◌, if◌then◌else◌, get_or_else,
}

-- A text, as character codes.
abbrev pub Reason : Type 0
Reason = List ℕ

pub data OpEvent : Type 0 where
  execution_reverted_onchain : ℕ → Reason → ℕ → OpEvent
  failed_onchain frontran_onchain included_onchain : ℕ → ℕ → OpEvent
  queued received added_to_mempool : OpEvent
  failed_validation dropped : Option Reason → Option Reason → OpEvent
  submitted : ℕ → OpEvent

pub record QueueMessage : Type 0 where
  pub user_operation_hash : ℕ
  pub event_timestamp : ℕ
  pub chain_id : ℕ
  pub event : OpEvent

pub record EventManager : Type 0 where
  pub chain_id : ℕ
  pub has_queue : Bool
  pub sent : List QueueMessage

unfoldable pub emit_event : EventManager → ℕ → ℕ → OpEvent → Option ℕ → EventManager
emit_event m now hash event timestamp =
    if m.has_queue
    then record m {
      sent =
          m.sent
          ++ record {
            user_operation_hash = hash;
            event_timestamp = get_or_else timestamp now;
            chain_id = m.chain_id;
            event = event;
          }
            ∷ [];
    }
    else m

module _ (m : EventManager) (now hash : ℕ) where
  unfoldable pub emit_execution_reverted_on_chain : ℕ → Reason → ℕ → EventManager
  emit_execution_reverted_on_chain tx reason block =
      emit_event m now hash (execution_reverted_onchain tx reason block) none

  unfoldable pub emit_failed_on_chain : ℕ → ℕ → EventManager
  emit_failed_on_chain tx block = emit_event m now hash (failed_onchain tx block) none

  unfoldable pub emit_frontran_on_chain : ℕ → ℕ → EventManager
  emit_frontran_on_chain tx block = emit_event m now hash (frontran_onchain tx block) none

  unfoldable pub emit_included_on_chain : ℕ → ℕ → EventManager
  emit_included_on_chain tx block = emit_event m now hash (included_onchain tx block) none

  unfoldable pub emit_queued : EventManager
  emit_queued = emit_event m now hash queued none

  unfoldable pub emit_received : Option ℕ → EventManager
  emit_received timestamp = emit_event m now hash received timestamp

  unfoldable pub emit_failed_validation : Option Reason → Option Reason → EventManager
  emit_failed_validation reason aa_error =
      emit_event m now hash (failed_validation reason aa_error) none

  unfoldable pub emit_submitted : ℕ → EventManager
  emit_submitted tx = emit_event m now hash (submitted tx) none

  unfoldable pub emit_dropped : Option Reason → Option Reason → EventManager
  emit_dropped reason aa_error = emit_event m now hash (dropped reason aa_error) none

  unfoldable pub emit_added_to_mempool : EventManager
  emit_added_to_mempool = emit_event m now hash added_to_mempool none
