-- ===== src/Tests/Life.antt =====
-- The theorems on the life of an operation at a concrete mempool.
use pimlico_alto_smart_accou.Common.{◌≤◌, ◌≡◌, refl, true, none, []}
use pimlico_alto_smart_accou.Store.{empty_store, add_outstanding}
use pimlico_alto_smart_accou.Store.Tally.{tally}
use pimlico_alto_smart_accou.UserOp.{derive_user_operation}
use pimlico_alto_smart_accou.Reputation.Interface.{null_manager, any_update_seen_status}
use pimlico_alto_smart_accou.Mempool.{Mempool, new_mempool}
use pimlico_alto_smart_accou.Mempool.Adding.{
  Request, new_info, enlist, add_request, replace_or_enlist,
}
use pimlico_alto_smart_accou.Mempool.Lifecycle.{
  adds, takes, apply, Reachable, starts, steps, phase_of, may_move, total,
}
use pimlico_alto_smart_accou.Mempool.Lifecycle.Steps.{apply-may_move}
use pimlico_alto_smart_accou.Tests.Samples.{sample_op, sample_mempool, sample_monitor}
use pimlico_alto_smart_accou.Tests.Bundles.{calm}

abbrev pub request : Request
request = record {
  operation = sample_op 3 0 110;
  entry_point = 5;
  hash = 22;
  now = 50;
  referenced_contracts = none;
}

abbrev fresh : Mempool
fresh =
    new_mempool (sample_mempool true [] 0).config sample_monitor null_manager
      (sample_mempool true [] 0).events

-- One operation is added, and the bundle takes it.
abbrev pub added_op : Mempool
added_op = apply calm (adds request) fresh

pub added_op-Reachable : Reachable calm added_op
added_op-Reachable = steps (starts _ _ _ _) (adds request) tt

apply-may_move_example :
    (total (tally added_op.store 22) ≤ 1)
    × (may_move
          (phase_of (tally added_op.store 22))
          (phase_of (tally (apply calm (takes (new_info request none)) added_op).store 22))
        ≡ true)
unfolding apply add_request any_update_seen_status replace_or_enlist enlist new_mempool empty_store
    add_outstanding derive_user_operation
apply-may_move_example =
    apply-may_move calm added_op (takes (new_info request none)) 22 added_op-Reachable refl
