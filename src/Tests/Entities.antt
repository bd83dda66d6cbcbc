-- ===== src/Tests/Entities.antt =====
-- The theorems on the reputation manager at concrete inputs.
use pimlico_alto_smart_accou.Common.{
  ◌+◌, ◌/◌, ℕ, ◌-◌, ◌≤◌, ◌<◌, ◌≡◌, refl, none, some, List, [], ◌∷◌, get?, put,
}
use pimlico_alto_smart_accou.UserOp.{derive_user_operation}
use pimlico_alto_smart_accou.Reputation.{
  paymaster, StakeInfo, get_status, ReputationManager, ok, throttled, banned, returned,
  new_reputation_manager, increase_seen, update_crashed_handle_ops, get_status_of,
  bundler_reputation_params,
}
use pimlico_alto_smart_accou.Reputation.Checks.{
  check_reputation_status, check_banned, check_throttled, check_stake, check_stake_amounts,
  cal_culate_max_mempool_user_operations_per_entity, get_entity_count,
  increase_user_operation_count, decrease_user_operation_count,
}
use pimlico_alto_smart_accou.Reputation.Counting.{roles, decrease-increase_user_operation_count}
use pimlico_alto_smart_accou.Reputation.Standing.{
  Holds, Count, sighting, inclusion, counts, sightings, inclusions, times, get_status-seen,
  get_status-crashed,
}
use pimlico_alto_smart_accou.Reputation.Admission.{Admitted, check_reputation_status-Admitted}
use pimlico_alto_smart_accou.Tests.Samples.{sample_op}

abbrev pub start : ReputationManager
start = record {
  min_entity_stake = 100;
  min_entity_unstake_delay = 10;
  entity_count = [];
  throttled_entity_min_mempool_count = 4;
  max_mempool_user_operations_per_sender = 4;
  max_mempool_user_operations_per_new_unstaked_entity = 10;
  inclusion_rate_factor = 10;
  entries = (5, []) ∷ [];
  whitelist = [];
  black_list = [];
  params = bundler_reputation_params;
}

start_runs : new_reputation_manager 100 10 (5 ∷ []) ≡ start
unfolding new_reputation_manager put
start_runs = refl

start-Holds : Holds start 5 8 none
unfolding get?
start-Holds = record {
  es = [];
  found = refl;
  entry = refl;
  not_white = refl;
  not_black = refl;
  params = refl;
}

get_status-seen_example :
    let answer = (get_status_of 5 8 (times 200 (increase_seen 5 8) start).1).0 in
    (200 < 110 → answer ≡ returned ok)
    × (110 ≤ 200 → 200 < 510 → answer ≡ returned throttled)
    × (510 ≤ 200 → answer ≡ returned banned)
get_status-seen_example = get_status-seen start 5 8 200 start-Holds

abbrev after_crash : List Count
after_crash = sighting ∷ inclusion ∷ inclusion ∷ []

get_status-crashed_example :
    let crashed = (update_crashed_handle_ops 5 8 start).1 in
    let answer = (get_status_of 5 8 (counts 5 8 after_crash crashed).1).0 in
    let expected = (1000 + sightings after_crash) / 10 in
    (inclusions after_crash + 50 < expected → answer ≡ returned banned)
    × (inclusions after_crash + 10 < expected
        → expected ≤ inclusions after_crash + 50
        → answer ≡ returned throttled)
    × (expected ≤ inclusions after_crash + 10 → answer ≡ returned ok)
get_status-crashed_example = get_status-crashed start 5 8 after_crash none start-Holds

abbrev same_address : List ℕ → ℕ
same_address h = 1

decrease-increase_user_operation_count_example :
    let op = derive_user_operation (sample_op 8 0 100) in
    (get_entity_count
        (decrease_user_operation_count same_address op
          (increase_user_operation_count same_address op start))
        8
      ≡ get_entity_count start 8)
    × (get_entity_count (decrease_user_operation_count same_address op start) 8
        ≡ get_entity_count start 8 - roles same_address op 8)
decrease-increase_user_operation_count_example =
    decrease-increase_user_operation_count same_address (derive_user_operation (sample_op 8 0 100))
      start 8

-- An entity with twenty operations in the mempool, and enough stake.
abbrev busy : ReputationManager
busy = record start { entity_count = (8, 20) ∷ [] }

abbrev staked_info : StakeInfo
staked_info = record { addr = some 8; stake = 150; unstake_delay_sec = 20 }

busy_runs : (check_reputation_status 5 paymaster staked_info none busy).0 ≡ returned tt
unfolding check_reputation_status check_banned check_throttled check_stake check_stake_amounts
    get_status get_status_of get_entity_count get? cal_culate_max_mempool_user_operations_per_entity
busy_runs = refl

check_reputation_status-Admitted_example : Admitted 5 staked_info none busy
check_reputation_status-Admitted_example =
    check_reputation_status-Admitted 5 paymaster staked_info none busy busy_runs
