-- ===== src/ExecutorManager/Dispatching.antt =====
-- `bundleNow` and the sending part of `bundle` of src/executor/executorManager.ts: the operations of
-- a bundle go to the executor by entry point. The entry points run one after the other.
use pimlico_alto_smart_accou.Common.{ℕ, Option, none, some, List, [], ◌∷◌, ◌++◌, Dict, get?}
use pimlico_alto_smart_accou.UserOp.{MempoolUserOperation}
use pimlico_alto_smart_accou.UserOp.Hashing.{Encoding}
use pimlico_alto_smart_accou.Store.{UserOperationInfo}
use pimlico_alto_smart_accou.Mempool.Skipping.{Outside}
use pimlico_alto_smart_accou.Mempool.Bundling.{Sort, process}
use pimlico_alto_smart_accou.Senders.{Semaphore}
use pimlico_alto_smart_accou.Executor.Draft.{Network}
use pimlico_alto_smart_accou.ExecutorManager.{
  ExecutorManager, SendResult, sent, thrown, waiting, fuel_ended, mempool_of, with_mempool,
  send_to_executor, by_entry_point,
}

-- The network as the two bundles of each entry point see it.
pub record Networks : Type 0 where
  pub plain : ℕ → Network
  pub compressed : ℕ → Network

-- How `bundleNow` ends: with the hashes, or with an exception, or in a wait.
pub data BundleNow : Type 0 where
  hashes : List ℕ → BundleNow
  no_ops no_hash process_failed unfinished : BundleNow

abbrev add_result : SendResult → BundleNow → BundleNow
add_result (sent (some h)) (hashes hs) = hashes (h ∷ hs)
add_result (sent (some h)) b = b
add_result (sent none) b = no_hash
add_result thrown b = no_hash
add_result waiting b = unfinished
add_result fuel_ended b = unfinished

abbrev all_results : List SendResult → BundleNow
all_results [] = hashes []
all_results (r ∷ rs) = add_result r (all_results rs)

module _ {S : Type 0} (sem : Semaphore S) (viem : Encoding) (nets : Networks) where
  -- The entry points of the configuration that have operations.
  unfoldable pub send_entry_points :
      List ℕ
      → Dict (List MempoolUserOperation)
      → ExecutorManager S
      → List SendResult × ExecutorManager S
  send_entry_points [] ops x = ([], x)
  send_entry_points (e ∷ es) ops x = elim (get? ops e) [
    | none ↦ send_entry_points es ops x
    | some mine ↦
        let (r, y) = send_to_executor sem viem (nets.plain e) (nets.compressed e) e mine x in
        let (rs, z) = send_entry_points es ops y in (r ∷ rs, z)
  ]

  unfoldable pub send_bundle :
      List UserOperationInfo → ExecutorManager S → List SendResult × ExecutorManager S
  send_bundle ops x = send_entry_points x.config.entrypoints (by_entry_point ops) x

  -- The bundles that `bundle` has collected.
  unfoldable pub send_bundles :
      List (List UserOperationInfo) → ExecutorManager S → List SendResult × ExecutorManager S
  send_bundles [] x = ([], x)
  send_bundles (ops ∷ rest) x =
      let (r, y) = send_bundle ops x in let (rs, z) = send_bundles rest y in (r ++ rs, z)

  unfoldable pub send_processed :
      Option (List UserOperationInfo) → ExecutorManager S → BundleNow × ExecutorManager S
  send_processed none x = (process_failed, x)
  send_processed (some []) x = (no_ops, x)
  send_processed (some (op ∷ ops)) x = let (rs, y) = send_bundle (op ∷ ops) x in (all_results rs, y)

  unfoldable pub bundle_now : Outside → Sort → ExecutorManager S → BundleNow × ExecutorManager S
  bundle_now out sort x =
      let (ops, m) = process out sort (mempool_of x) x.config.max_gas_per_bundle (some 1) in
      send_processed ops (with_mempool m x)
