-- ===== src/Lib.antt =====
-- A verification library of the core of the bundler: the mempool of user operations and what it
-- stands on. A user operation that an RPC call brings in is checked, counted by the reputation
-- manager, and put into the outstanding pool of the mempool; the executor asks the mempool for a
-- bundle, which moves operations to the processing pool, and reports their submission, which moves
-- them to the submitted pool.
--
-- The parts, and the code they model:
-- - UserOp: the two versions of a user operation and the compressed form (src/types/schemas.ts,
--   src/types/mempool.ts), and the functions on them in src/utils/userop.ts. UserOp/Packing has the
--   packed form of version 0.7, UserOp/Hashing the hashes. A hexadecimal text is the list of
--   its characters, an address a number.
-- - Store: MemoryStore of src/mempool/store.ts, the three pools with their gauges, which are the
--   values of metrics.userOperationsInMempool under the three labels.
-- - Monitor: src/mempool/monitoring.ts. A timer of the runtime is an entry of `pending`, with the
--   time at which it is due; run_timers runs those that are due.
-- - Reputation: src/mempool/reputationManager.ts. A method is a function in the monad M, which keeps
--   the changes made before an exception, as the code does. Reputation/Checks has the admission
--   checks, Reputation/Interface the choice of src/cli/setupServer.ts between the two classes.
-- - EventManager: src/handlers/eventManager.ts, the messages handed to the queue in their order.
-- - Mempool: src/mempool/mempool.ts, with add in Mempool/Adding, shouldSkip and
--   getQueuedUserOperations in Mempool/Skipping, process in Mempool/Bundling.
-- - TimedQueue: src/utils/timedQueue.ts with the helpers of src/utils/bigInt.ts, and GasPrice:
--   src/handlers/gasPriceManager.ts, with the state and its methods in GasPrice/Manager, and the
--   values that src/handlers/arbitrumGasPriceManager.ts and mantleGasPriceManager.ts keep in
--   GasPrice/Oracles. GasPrice/PreVerification has the fees of the layer below that
--   src/utils/validation.ts adds on Arbitrum and Mantle. Times are in milliseconds and given as
--   arguments.
-- - NonceQueuer: src/rpc/nonceQueuer.ts, the operations that wait for their nonce and then go to the
--   mempool.
-- - Senders: src/executor/senderManager.ts, the wallets with their semaphore; Senders/Refill has the
--   transfers that bring the wallets to their minimum balance.
-- - Executor: src/executor/utils.ts and src/executor/executor.ts. Executor/Simulation has the loop of
--   filterOpsAndEstimateGas, Executor/Sending the attempts of sendHandleOpsTransaction,
--   Executor/Bundle and Executor/Bundle/Compressed the two forms of bundle on the state and the parts
--   in Executor/Draft, Executor/Replacing replaceTransaction with its parts in Executor/Renewal, and
--   Executor/Flushing the flushing of stuck transactions.
-- - ExecutorManager: src/executor/executorManager.ts, with the handling of results and
--   sendToExecutor in the file itself, bundleNow in ExecutorManager/Dispatching, getBundleStatus of
--   src/utils/userop.ts in ExecutorManager/Status, the refresh and the replacement of submitted
--   transactions in ExecutorManager/Refreshing, and handleBlock in ExecutorManager/Blocks.
-- - Mempool/Lifecycle relates these parts: it has the moves of an operation between the pools as a
--   step relation, and the states that any sequence of them reaches in which an operation that is
--   taken is still outstanding; Mempool/Bundling/Moves relates process to it.
-- - Common has the Boolean tests, lists, dictionaries and lemmas that all of these share, Tests the
--   concrete inputs.
--
-- Numbers of type bigint are natural numbers, which is what the schemas admit; a subtraction that
-- could leave them is guarded where it stands. A record of JavaScript is a list of keys and values
-- in which the first entry of a key counts. The functions of viem (concat, pad, slice, keccak256,
-- encodeAbiParameters, getAddress, parseGwei) are parameters, in the records Bytes, Encoding and
-- Chains. The second validation, the answers of the node, the nonces and deposits read from the
-- chain, and the sort of the runtime are parameters as well. In shouldSkip and process each awaited
-- call may change the mempool in any way, since other handlers run meanwhile; a theorem that needs
-- something of them says so. The executor and its manager are modelled as one handler that runs
-- alone, with the answers of the node, of the wallet client and of the semaphore as parameters: the
-- answer to a call may depend on its number, so a node may change its mind. Of the errors of viem
-- the model keeps what the code tests. The transactions that submitted operations share are one
-- object where their hash is the same. All loops go through a list but that of
-- filterOpsAndEstimateGas, which has as fuel the number of operations and six: each pass uses up
-- one of five retries or one operation, and the last sees that none is left.
--
-- Not modelled: the RPC layer, validators, tracers, gas estimation and the command line; the loop of
-- bundle in the executor manager that collects bundles until there is none, and the reading of a
-- receipt from the logs of the chain; and logging throughout. The storage map that shouldSkip
-- accumulates is left out, since process drops it.
pub mod Common
pub mod UserOp
pub mod Store
pub mod Monitor
pub mod Reputation
pub mod EventManager
pub mod Mempool
pub mod TimedQueue
pub mod GasPrice
pub mod NonceQueuer
pub mod Senders
pub mod Executor
pub mod ExecutorManager
mod Tests
