-- ===== src/Tests/Managing.antt =====
-- The theorems on the executor manager at concrete inputs.
use pimlico_alto_smart_accou.Executor.Bundle.{after_sending, submit_bundle}
use pimlico_alto_smart_accou.Executor.Sending.{
  after_attempts, send_handle_ops_transaction, send_loop,
}
use pimlico_alto_smart_accou.Executor.{simulated_ops_to_results}
use pimlico_alto_smart_accou.Senders.{get_wallet, hand_out}
use pimlico_alto_smart_accou.Executor.Draft.{Network, common_version}
use pimlico_alto_smart_accou.Executor.Bundle.{bundle, bundle_with, after_simulation}
use pimlico_alto_smart_accou.Executor.Simulation.{
  estimated, filter_ops_and_estimate_gas, first_version, estimate_loop, attempt, answer,
}
use pimlico_alto_smart_accou.Common.{
  List, get?, ℕ, ◌≡◌, refl, true, false, none, some, [], ◌∷◌, not,
}
use pimlico_alto_smart_accou.UserOp.{UserOperation, plain, derive_user_operation}
use pimlico_alto_smart_accou.Store.{TransactionInfo, empty_store, add_outstanding}
use pimlico_alto_smart_accou.GasPrice.{gives}
use pimlico_alto_smart_accou.Reputation.Interface.{any_update_seen_status}
use pimlico_alto_smart_accou.Mempool.{Mempool, new_mempool}
use pimlico_alto_smart_accou.Mempool.Adding.{new_info, enlist, add_request, replace_or_enlist}
use pimlico_alto_smart_accou.Mempool.Lifecycle.{takes, marks, apply, Reachable, steps}
use pimlico_alto_smart_accou.Executor.{success}
use pimlico_alto_smart_accou.ExecutorManager.{
  send_to_executor, send_plain, sent, finish_sending, send_compressed, ExecutorManager, mempool_of,
  handle_result, handle_results,
}
use pimlico_alto_smart_accou.ExecutorManager.Settling.Sending.{Settled, send_to_executor-Settled}
use pimlico_alto_smart_accou.UserOp.Hashing.{get_user_operation_hash}
use pimlico_alto_smart_accou.ExecutorManager.Settling.{in_process, handle_results-settles}
use pimlico_alto_smart_accou.ExecutorManager.Status.Details.{read_logs-details_of}
use pimlico_alto_smart_accou.ExecutorManager.Status.Reading.{details_of, events_of}
use pimlico_alto_smart_accou.ExecutorManager.Status.{
  Log, read_logs, account_deployed, user_operation_event, missing, reverted, Receipt, reverted_at,
  get_bundle_status,
}
use pimlico_alto_smart_accou.ExecutorManager.Refreshing.{
  finalize, finalized_transaction, refresh_transaction_status,
}
use pimlico_alto_smart_accou.ExecutorManager.Refreshing.Untracked.{tracked, finalize-untracked}
use pimlico_alto_smart_accou.ExecutorManager.Blocks.{World, handle_block}
use pimlico_alto_smart_accou.ExecutorManager.Blocks.Stuck.{handle_block-Flagged}
use pimlico_alto_smart_accou.ExecutorManager.Refreshing.Finality.{refresh_transaction_status-clears}
use pimlico_alto_smart_accou.ExecutorManager.Refreshing.Clearing.{cleared}
use pimlico_alto_smart_accou.Tests.Samples.{sample_viem}
use pimlico_alto_smart_accou.Tests.Bundles.{calm}
use pimlico_alto_smart_accou.Tests.Wallets.{counter}
use pimlico_alto_smart_accou.Tests.Life.{request, added_op, added_op-Reachable}
use pimlico_alto_smart_accou.Tests.Executing.{sample_network, sample_executor, sample_transaction}

abbrev taken : Mempool
taken = apply calm (takes (new_info request none)) added_op

taken-Reachable : Reachable calm taken
unfolding apply add_request any_update_seen_status replace_or_enlist enlist new_mempool empty_store
    add_outstanding derive_user_operation
taken-Reachable = steps added_op-Reachable (takes (new_info request none)) refl

abbrev transaction : TransactionInfo
transaction = record sample_transaction { user_operation_infos = new_info request none ∷ [] }

abbrev submitted_op : Mempool
submitted_op = apply calm (marks 55 22 transaction) taken

submitted_op-Reachable : Reachable calm submitted_op
submitted_op-Reachable = steps taken-Reachable (marks 55 22 transaction) tt

abbrev manager : Mempool → ExecutorManager ℕ
manager m = record {
  config = record { entrypoints = 5 ∷ []; max_gas_per_bundle = 1000000; aa95_gas_multiplier = 200 };
  executor = record sample_executor { mempool = m };
  timer = false;
  watching_blocks = true;
  currently_handling_block = false;
  frontrun_checks = [];
}

handle_results-settles_example :
    in_process 22
      (handle_results sample_viem 60 (success (new_info request none) transaction ∷ []) taken).1
    ≡ 0
unfolding handle_results handle_result apply add_request any_update_seen_status replace_or_enlist
    enlist new_mempool empty_store add_outstanding derive_user_operation
handle_results-settles_example =
    handle_results-settles sample_viem 60 calm (success (new_info request none) transaction ∷ [])
      taken 22 taken-Reachable refl refl

abbrev world : World
world = record {
  now = 60;
  receipts = λ h. missing;
  at_refresh = λ t. sample_network;
  at_gas_price = λ t. sample_network;
  at_stuck = λ t. sample_network;
  price = gives (record { max_fee_per_gas = 30; max_priority_fee_per_gas = 2 });
}

-- The operation of the bundle that is sent, and its hash.
abbrev sent_op : UserOperation
sent_op = derive_user_operation request.operation

abbrev sent_hash : ℕ
sent_hash = get_user_operation_hash sample_viem sent_op 5 1

-- A node that estimates at once.
abbrev willing_network : Network
willing_network = record sample_network { ask = λ n r. estimated 50000 }

sending_runs :
    (send_to_executor counter sample_viem willing_network sample_network 5
      (plain sent_op ∷ [])
      (manager taken)).0
    ≡ sent (some 900)
unfolding after_attempts after_sending after_simulation answer attempt bundle bundle_with
    common_version derive_user_operation estimate_loop filter_ops_and_estimate_gas finish_sending
    first_version get_wallet hand_out handle_result handle_results send_compressed
    send_handle_ops_transaction send_loop send_plain send_to_executor simulated_ops_to_results
    submit_bundle
sending_runs = refl

send_to_executor-Settled_example :
    Settled counter sample_viem willing_network sample_network sent_hash 5
      (sent_op ∷ [])
      (manager taken)
      (send_to_executor counter sample_viem willing_network sample_network 5
        (plain sent_op ∷ [])
        (manager taken)).1
unfolding get_wallet hand_out get_user_operation_hash derive_user_operation
send_to_executor-Settled_example =
    send_to_executor-Settled counter sample_viem willing_network sample_network calm 5 7
      (plain sent_op ∷ []) sent_op [] (manager taken) (some 900) sent_hash taken-Reachable refl refl
      refl refl sending_runs

-- Every transaction has reverted.
abbrev all_reverted : ℕ → Receipt
all_reverted h = reverted_at 3 none

refresh_transaction_status-clears_example :
    tracked 22 (
      mempool_of
        (refresh_transaction_status counter sample_network all_reverted 5 transaction
          (manager submitted_op)).1)
    ≡ cleared 22 transaction.user_operation_infos (tracked 22 (mempool_of (manager submitted_op)))
unfolding finalized_transaction refresh_transaction_status finalize get_bundle_status
refresh_transaction_status-clears_example =
    refresh_transaction_status-clears counter sample_network calm all_reverted 5 transaction
      (manager submitted_op)
      (record {
        status = reverted false;
        transaction_hash = transaction.transaction_hash;
        block_number = some 3;
      })
      22 submitted_op-Reachable refl refl

handle_block-Flagged_example :
    (handle_block counter world (manager submitted_op)).1.currently_handling_block
    ≡ not (handle_block counter world (manager submitted_op)).0
handle_block-Flagged_example = handle_block-Flagged counter world (manager submitted_op) refl

finalize-untracked_example :
    tracked 22 (
      mempool_of
        (finalize counter sample_network transaction 800 3
          (reverted true)
          (manager submitted_op)).1)
    ≡ 0
finalize-untracked_example =
    finalize-untracked counter sample_network 22 calm transaction 800 3 (manager submitted_op)
      submitted_op-Reachable refl

abbrev logs : List Log
logs =
    record { address = 5; event = account_deployed 22 }
    ∷ record { address = 6; event = user_operation_event 22 true }
    ∷ record { address = 5; event = user_operation_event 22 false }
    ∷ []

read_logs-details_of_example : get? (read_logs 5 [] logs) 22 ≡ details_of 22 (events_of 5 logs)
read_logs-details_of_example = read_logs-details_of 5 22 logs
