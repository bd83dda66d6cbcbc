-- ===== src/Tests/Pools.antt =====
-- The theorems on nonces, the store and the monitor at concrete inputs.
use pimlico_alto_smart_accou.Common.{
  length, ◌+◌, ◌*◌, ◌^◌, ◌<◌, ◌≤◌, ◌≡◌, refl, true, none, some, [], ◌∷◌, arith, count,
}
use pimlico_alto_smart_accou.UserOp.{get_nonce_key_and_value}
use pimlico_alto_smart_accou.UserOp.Nonce.{get_nonce_key_and_value_roundtrip}
use pimlico_alto_smart_accou.Store.{
  MemoryStore, empty_store, remove_outstanding, clear, outstanding_ops, processing_ops,
  submitted_ops,
}
use pimlico_alto_smart_accou.Store.Removal.{remove_outstanding_one}
use pimlico_alto_smart_accou.Store.Gauges.{
  Tracks, Ahead, adds_outstanding, adds_processing, removes_outstanding, run, run-Tracks,
  clear_drift,
}
use pimlico_alto_smart_accou.Monitor.{
  UserOperationStatus, StatusName, not_found, new_monitor, set_user_operation_status, run_timers,
  get_user_operation_status,
}
use pimlico_alto_smart_accou.Monitor.Expiry.{IsValid, get_user_operation_status-set, IsValid-kept}
use pimlico_alto_smart_accou.Tests.Samples.{sample_info, sample_store, sample_monitor}

get_nonce_key_and_value_roundtrip_example :
    (get_nonce_key_and_value (7 * 2 ^ 64 + 3) ≡ (7, 3))
    × ((get_nonce_key_and_value 9).0 * 2 ^ 64 + (get_nonce_key_and_value 9).1 ≡ 9)
    × ((get_nonce_key_and_value 9).1 < 2 ^ 64)
get_nonce_key_and_value_roundtrip_example = get_nonce_key_and_value_roundtrip 7 3 9 (omega arith)

abbrev two_ops : MemoryStore
two_ops = sample_store (sample_info 21 1 0 100 ∷ sample_info 22 2 0 100 ∷ []) 2

remove_outstanding_one_example :
    (22 ≡ (sample_info 22 2 0 100).user_operation_hash)
    × (count (λ x. true) two_ops.outstanding
        ≡ count (λ x. true) (remove_outstanding two_ops 22).outstanding + 1)
    × ((remove_outstanding two_ops 22).processing ≡ [])
    × ((remove_outstanding two_ops 22).submitted ≡ [])
remove_outstanding_one_example =
    remove_outstanding_one two_ops 22 (sample_info 22 2 0 100) (λ x. true) refl

run-Tracks_example : Tracks (
    run empty_store (
      adds_outstanding (sample_info 21 1 0 100)
      ∷ removes_outstanding 21
      ∷ removes_outstanding 21
      ∷ adds_processing (sample_info 21 1 0 100)
      ∷ []))
run-Tracks_example = run-Tracks _

clear_drift_example :
    let cs = removes_outstanding 41 ∷ adds_processing (sample_info 43 5 0 100) ∷ [] in
    ((clear two_ops outstanding_ops).outstanding ≡ [])
    × ((clear two_ops processing_ops).processing ≡ [])
    × ((clear two_ops submitted_ops).submitted ≡ [])
    × Ahead (length two_ops.outstanding) 0 0 (run (clear two_ops outstanding_ops) cs)
    × Ahead 0 (length two_ops.processing) 0 (run (clear two_ops processing_ops) cs)
    × Ahead 0 0 (length two_ops.submitted) (run (clear two_ops submitted_ops) cs)
clear_drift_example =
    clear_drift two_ops (removes_outstanding 41 ∷ adds_processing (sample_info 43 5 0 100) ∷ [])
      (record { outstanding = refl; processing = refl; submitted = refl })

abbrev done : UserOperationStatus
done = record { status = StatusName.included; transaction_hash = some 77 }

get_user_operation_status-set_example :
    (40 < 10 + 1000
      → get_user_operation_status
          (run_timers (set_user_operation_status sample_monitor 10 21 done) 40)
          21
        ≡ done)
    × (10 + 1000 ≤ 40
        → get_user_operation_status
            (run_timers (set_user_operation_status sample_monitor 10 21 done) 40)
            21
          ≡ record { status = not_found; transaction_hash = none })
get_user_operation_status-set_example =
    get_user_operation_status-set sample_monitor 10 40 21 done tt

IsValid-kept_example :
    IsValid (new_monitor 60)
    × IsValid (set_user_operation_status sample_monitor 10 21 done)
    × IsValid (run_timers sample_monitor 10)
IsValid-kept_example = IsValid-kept sample_monitor 10 21 60 done tt
