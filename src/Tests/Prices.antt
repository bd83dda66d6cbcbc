-- ===== src/Tests/Prices.antt =====
-- The theorems on prices and on the nonce queue at concrete inputs.
use pimlico_alto_smart_accou.Common.{
  ℕ, ◌+◌, ◌*◌, ◌^◌, inl, ◌≤◌, ◌<◌, ◌≡◌, refl, false, none, some, List, [], ◌∷◌, arith,
}
use pimlico_alto_smart_accou.TimedQueue.{
  Entry, TimedQueue, last, save_value, get_latest_value, get_min_value, get_max_value, min_big_int,
}
use pimlico_alto_smart_accou.TimedQueue.Window.{IsValid, save_value-IsValid}
use pimlico_alto_smart_accou.TimedQueue.Prices.{save_value-encloses}
use pimlico_alto_smart_accou.GasPrice.{
  GasPriceParameters, Chains, GasConfig, gives, Node, inner_get_gas_price, bump_the_gas_price,
  get_default_gas_fee, estimate_gas_price,
}
use pimlico_alto_smart_accou.GasPrice.Bumping.{inner_get_gas_price-IsOrdered}
use pimlico_alto_smart_accou.GasPrice.Manager.{GasPriceManager, get_gas_price, validate_gas_price}
use pimlico_alto_smart_accou.GasPrice.Accepted.{validate-get_gas_price}
use pimlico_alto_smart_accou.UserOp.{derive_user_operation, get_nonce_key_and_value, nonce}
use pimlico_alto_smart_accou.NonceQueuer.{
  NonceQueuer, QueuedUserOperation, add_queued, get_available_user_operations,
}
use pimlico_alto_smart_accou.NonceQueuer.Release.{
  All, IsSplit, queue_with, get_available_user_operations-keys,
}
use pimlico_alto_smart_accou.Tests.Samples.{sample_viem, sample_op, sample_mempool}

-- Two prices, ten seconds apart, with a validity of ten seconds.
abbrev prices : ℕ → ℕ → TimedQueue
prices a b = record {
  queue = record { timestamp = 0; value = a } ∷ record { timestamp = 10000; value = b } ∷ [];
  queue_validity = 10000;
}

abbrev one_price : ℕ → TimedQueue
one_price a = record { queue = record { timestamp = 50; value = a } ∷ []; queue_validity = 10000 }

save_value-IsValid_example : IsValid (save_value (one_price 7) 60 5)
unfolding last
save_value-IsValid_example =
    save_value-IsValid (one_price 7) 60 5
      (record { spaced = (tt, (omega arith), tt); short = inl (omega arith) }) (λ l h. ground arith)

save_value-encloses_example :
    (latest low high : ℕ) × (get_latest_value (save_value (prices 9 7) 10500 8) ≡ some latest)
    × (get_min_value (save_value (prices 9 7) 10500 8) ≡ some low)
    × (get_max_value (save_value (prices 9 7) 10500 8) ≡ some high)
    × (low ≤ latest)
    × (latest ≤ high)
    × (latest ≤ 8)
    × (last (prices 9 7).queue ≡ none → latest ≡ 8)
    × ((l : Entry)
        → last (prices 9 7).queue ≡ some l
        → (l.timestamp + 10000 ≤ 10500 → latest ≡ 8)
          × (10500 < l.timestamp + 10000 → latest ≡ min_big_int 8 (l.value)))
save_value-encloses_example = save_value-encloses (prices 9 7) 10500 8 (omega arith)

-- Seven chains with other numbers than the test chain, and texts that are all one gwei.
abbrev sample_chains : Chains
sample_chains = record {
  polygon = 137;
  polygon_mumbai = 80001;
  celo = 42220;
  celo_alfajores = 44787;
  dfk = 53935;
  avalanche = 43114;
  parse_gwei = λ t. 10 ^ 9;
}

abbrev sample_config : GasConfig
sample_config = record {
  chain_id = 43114;
  gas_price_bump = 110;
  legacy_transactions = false;
  gas_price_refresh_interval = 1;
  is_hedera = false;
}

-- A node whose priority fee is above its fee.
abbrev sample_node : Node
sample_node = record {
  gas_station = none;
  legacy_fees = none;
  fees = some (some (2 * 10 ^ 9), some (3 * 10 ^ 9));
  gas_price = none;
  fee_history = none;
  block_base_fee = none;
}

abbrev bumped_price : GasPriceParameters
bumped_price = record { max_fee_per_gas = 3300000000; max_priority_fee_per_gas = 3300000000 }

price_runs : inner_get_gas_price sample_chains sample_config sample_node ≡ gives bumped_price
unfolding inner_get_gas_price bump_the_gas_price get_default_gas_fee estimate_gas_price
price_runs = refl

inner_get_gas_price-IsOrdered_example :
    bumped_price.max_priority_fee_per_gas ≤ bumped_price.max_fee_per_gas
inner_get_gas_price-IsOrdered_example =
    inner_get_gas_price-IsOrdered sample_chains sample_config sample_node bumped_price (omega arith)
      price_runs

abbrev sample_manager : GasPriceManager
sample_manager = record {
  chains = sample_chains;
  config = sample_config;
  base_fee_per_gas_queue = prices 1 2;
  max_fee_per_gas_queue = prices 30 20;
  max_priority_fee_per_gas_queue = prices 3 5;
}

abbrev latest_price : GasPriceParameters
latest_price = record { max_fee_per_gas = 20; max_priority_fee_per_gas = 5 }

latest_runs : (get_gas_price sample_node 70 sample_manager).0 ≡ gives latest_price
unfolding get_gas_price get_latest_value last
latest_runs = refl

validate-get_gas_price_example :
    validate_gas_price sample_node sample_node 80 latest_price sample_manager
    ≡ (gives tt, sample_manager)
validate-get_gas_price_example =
    validate-get_gas_price sample_node sample_node sample_node 70 80 sample_manager latest_price
      (omega arith) latest_runs

abbrev empty_queue : NonceQueuer
empty_queue = record { queued_user_operations = []; mempool = sample_mempool false [] 0 }

abbrev keyed_queue : List QueuedUserOperation
keyed_queue = queue_with sample_viem 5 (sample_op 3 (2 ^ 64 + 1) 100) 5 empty_queue

get_available_user_operations-keys_example :
    All IsSplit keyed_queue
    × All
        (λ op. op.nonce_key ≡ 0)
        (get_available_user_operations keyed_queue (some (2 ^ 64 + 1) ∷ []))
unfolding add_queued get_nonce_key_and_value nonce derive_user_operation
get_available_user_operations-keys_example =
    get_available_user_operations-keys sample_viem 5 (sample_op 3 (2 ^ 64 + 1) 100) 5 empty_queue
      (some (2 ^ 64 + 1) ∷ []) tt (omega arith, tt)
