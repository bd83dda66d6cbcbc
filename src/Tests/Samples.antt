-- ===== src/Tests/Samples.antt =====
-- Concrete operations, stores and answers from outside.
use pimlico_alto_smart_accou.Common.{ℕ, Bool, true, none, some, List, []}
use pimlico_alto_smart_accou.UserOp.{Hex, v06, MempoolUserOperation, plain}
use pimlico_alto_smart_accou.UserOp.Packing.{Bytes}
use pimlico_alto_smart_accou.UserOp.Hashing.{Encoding}
use pimlico_alto_smart_accou.Store.{UserOperationInfo, MemoryStore}
use pimlico_alto_smart_accou.Monitor.{Monitor}
use pimlico_alto_smart_accou.Reputation.Interface.{null_manager}
use pimlico_alto_smart_accou.Mempool.{Mempool}

-- Stand-ins for the functions of viem: every address and every hash is 1.
abbrev pub sample_bytes : Bytes
sample_bytes = record {
  get_address = λ h. 1;
  address_text = λ a. [];
  concat = λ hs. [];
  pad = λ h n. h;
  to_hex = λ n. [];
  slice = λ h a b. some h;
  big_int = λ h. 0;
}

abbrev pub sample_viem : Encoding
sample_viem = record { bytes = sample_bytes; keccak256 = λ h. 1; encode_abi_parameters = λ vs. [] }

-- An operation with this init code, sender, nonce and fee.
abbrev pub deploying_op : Hex → ℕ → ℕ → ℕ → MempoolUserOperation
deploying_op code a n fee = plain (
    v06 (record {
      sender = a;
      nonce = n;
      init_code = code;
      call_data = [];
      call_gas_limit = 100;
      verification_gas_limit = 100;
      pre_verification_gas = 50;
      max_priority_fee_per_gas = fee;
      max_fee_per_gas = fee;
      paymaster_and_data = [];
      signature = [];
    }))

-- The same without init code.
abbrev pub sample_op : ℕ → ℕ → ℕ → MempoolUserOperation
sample_op = deploying_op []

-- The entry of an operation with this hash.
abbrev pub info_with : MempoolUserOperation → ℕ → UserOperationInfo
info_with op hash = record {
  mempool_user_operation = op;
  entry_point = 5;
  user_operation_hash = hash;
  last_replaced = 0;
  first_submitted = 0;
  referenced_contracts = none;
}

abbrev pub sample_info : ℕ → ℕ → ℕ → ℕ → UserOperationInfo
sample_info hash a n fee = info_with (sample_op a n fee) hash

-- A store with these operations outstanding.
abbrev pub sample_store : List UserOperationInfo → ℕ → MemoryStore
sample_store infos n = record {
  outstanding = infos;
  processing = [];
  submitted = [];
  gauges = record { in_outstanding = n; in_processing = 0; in_submitted = 0 };
}

abbrev pub sample_monitor : Monitor
sample_monitor = record {
  user_operation_to_status = [];
  user_operation_timeouts = [];
  timeout = 1000;
  pending = [];
  next_id = 0;
}

abbrev pub sample_mempool : Bool → List UserOperationInfo → ℕ → Mempool
sample_mempool safe infos n = record {
  config = record {
    safe_mode = safe;
    mempool_max_parallel_ops = 10;
    mempool_max_queued_ops = 0;
    enforce_unique_senders_per_bundle = true;
    chain_id = 1;
  };
  monitor = sample_monitor;
  reputation = null_manager;
  store = sample_store infos n;
  throttled_entity_bundle_count = 4;
  events = record { chain_id = 1; has_queue = true; sent = [] };
}
