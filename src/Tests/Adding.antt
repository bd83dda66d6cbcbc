-- ===== src/Tests/Adding.antt =====
-- The theorems on `add` at concrete inputs.
use pimlico_alto_smart_accou.Common.{
  ◌+◌, ◌^◌, ◌≤◌, ◌≡◌, refl, true, false, none, some, [], ◌∷◌, arith, any, ◌⊎◌,
}
use pimlico_alto_smart_accou.UserOp.{
  Hex, sender, nonce, derive_user_operation, max_fee_per_gas, max_priority_fee_per_gas,
  get_nonce_key_and_value,
}
use pimlico_alto_smart_accou.Store.{
  UserOperationInfo, add_outstanding, remove_outstanding, has_hash,
}
use pimlico_alto_smart_accou.Reputation.Interface.{any_update_seen_status}
use pimlico_alto_smart_accou.Mempool.{Mempool}
use pimlico_alto_smart_accou.Mempool.Adding.{
  Request, refused, too_many_parallel, too_many_queued, bumped, conflicts, underpriced, enlist,
  replace_or_enlist, add_request, new_info, find_conflict, processed_or_submitted,
}
use pimlico_alto_smart_accou.Mempool.Adding.Lookup.{Known, add_request-Known}
use pimlico_alto_smart_accou.Mempool.Adding.Limits.{Within, add_request-Within}
use pimlico_alto_smart_accou.Mempool.Adding.Replacement.{add_request-replaces, add_request-refused}
use pimlico_alto_smart_accou.Tests.Samples.{
  sample_viem, sample_op, deploying_op, info_with, sample_info, sample_mempool,
}

abbrev old_info : UserOperationInfo
old_info = sample_info 21 3 0 100

abbrev one_op : Mempool
one_op = sample_mempool true (old_info ∷ []) 1

-- The same sender and nonce, at 110 in place of 100.
abbrev better : Request
better = record {
  operation = sample_op 3 0 110;
  entry_point = 5;
  hash = 22;
  now = 50;
  referenced_contracts = none;
}

add_request-replaces_example :
    (bumped 100 ≤ 110)
    × (bumped 100 ≤ 110)
    × (any (has_hash 21) (processed_or_submitted one_op) ≡ false)
    × ((add_request sample_viem one_op better).1.store
        ≡ add_outstanding (remove_outstanding one_op.store 21) (new_info better (some old_info)))
unfolding add_request any_update_seen_status replace_or_enlist conflicts underpriced enlist
    remove_outstanding sender nonce derive_user_operation max_fee_per_gas max_priority_fee_per_gas
    get_nonce_key_and_value
add_request-replaces_example = add_request-replaces sample_viem one_op better old_info refl refl

add_request-Known_example : Known one_op better (add_request sample_viem one_op better)
unfolding add_request any_update_seen_status replace_or_enlist conflicts underpriced enlist
    remove_outstanding sender nonce derive_user_operation max_fee_per_gas max_priority_fee_per_gas
    get_nonce_key_and_value
add_request-Known_example = add_request-Known sample_viem one_op better refl

abbrev code : Hex
code = b'0' ∷ b'x' ∷ b'1' ∷ []

-- A deployment of sender 3, and another of its operations, with nonce key 1.
abbrev deployment : UserOperationInfo
deployment = info_with (deploying_op code 3 0 100) 31

abbrev two_ops : Mempool
two_ops = sample_mempool true (deployment ∷ sample_info 32 3 (2 ^ 64) 100 ∷ []) 2

-- A second deployment, with nonce key 1, which has an operation in the queue already.
abbrev second_deployment : Request
second_deployment = record {
  operation = deploying_op code 3 (2 ^ 64 + 1) 110;
  entry_point = 5;
  hash = 33;
  now = 50;
  referenced_contracts = none;
}

-- The second deployment is refused, and the first is gone all the same.
deployment_lost :
    ((add_request sample_viem two_ops second_deployment).0 ≡ refused too_many_queued)
    × ((add_request sample_viem two_ops second_deployment).1.store.outstanding
        ≡ sample_info 32 3 (2 ^ 64) 100 ∷ [])
unfolding add_request any_update_seen_status replace_or_enlist conflicts underpriced enlist
    remove_outstanding sender nonce derive_user_operation max_fee_per_gas max_priority_fee_per_gas
    get_nonce_key_and_value
deployment_lost = (refl, refl)

add_request-refused_example :
    ((add_request sample_viem two_ops second_deployment).1.store ≡ two_ops.store)
    ⊎ ((old : UserOperationInfo) × (find_conflict two_ops
            (derive_user_operation second_deployment.operation)
          ≡ some old)
        × ((too_many_queued ≡ too_many_parallel) ⊎ (too_many_queued ≡ too_many_queued))
        × ((add_request sample_viem two_ops second_deployment).1.store
            ≡ remove_outstanding two_ops.store old.user_operation_hash))
add_request-refused_example =
    add_request-refused sample_viem two_ops second_deployment too_many_queued deployment_lost.0

empty_mempool-Within : Within (sample_mempool true [] 0)
empty_mempool-Within = record { parallel = λ a. omega arith; queue = λ a key. omega arith }

add_request-Within_example : Within (add_request sample_viem (sample_mempool true [] 0) better).1
add_request-Within_example =
    add_request-Within sample_viem (sample_mempool true [] 0) better empty_mempool-Within
