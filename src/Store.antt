-- ===== src/Store.antt =====
-- The in-memory store of user operations, src/mempool/store.ts, with the record types of
-- src/types/mempool.ts. A method returns the new store. The gauge `userOperationsInMempool` that the
-- methods keep, one number for each status, is part of the state; log lines are left out.
pub mod Removal
pub mod Gauges
pub mod Tally
use pimlico_alto_smart_accou.Common.{
  ℕ, ◌+◌, ◌-◌, Bool, Option, none, some, List, [], ◌∷◌, ◌++◌, ◌==◌, find, erase_first,
}
use pimlico_alto_smart_accou.UserOp.{Hex, MempoolUserOperation}

pub record ReferencedCodeHashes : Type 0 where
  pub addresses : List Hex
  pub hash : Hex

pub record UserOperationInfo : Type 0 where
  pub mempool_user_operation : MempoolUserOperation
  pub entry_point : ℕ
  pub user_operation_hash : ℕ
  pub last_replaced : ℕ
  pub first_submitted : ℕ
  pub referenced_contracts : Option ReferencedCodeHashes

pub data TransactionType : Type 0 where
  default compressed : TransactionType

pub record TransactionRequest : Type 0 where
  pub to_address : ℕ
  pub call_data : Hex
  pub gas : ℕ
  pub max_fee_per_gas : ℕ
  pub max_priority_fee_per_gas : ℕ
  pub nonce : ℕ

pub record TransactionInfo : Type 0 where
  pub transaction_type : TransactionType
  pub transaction_hash : ℕ
  pub previous_transaction_hashes : List ℕ
  pub entry_point : ℕ
  pub is_version06 : Bool
  pub transaction_request : TransactionRequest
  pub executor : ℕ
  pub user_operation_infos : List UserOperationInfo
  pub last_replaced : ℕ
  pub first_submitted : ℕ
  pub times_potentially_included : ℕ

pub record SubmittedUserOperation : Type 0 where
  pub user_operation : UserOperationInfo
  pub transaction_info : TransactionInfo

-- The gauge by label. `dec` is `- 1`: it runs only where an operation is found, and the gauge is at
-- least the number of operations (`Tracks` below), so it never stops at 0.
pub record GaugeValues : Type 0 where
  pub in_outstanding : ℕ
  pub in_processing : ℕ
  pub in_submitted : ℕ

pub record MemoryStore : Type 0 where
  pub outstanding : List UserOperationInfo
  pub processing : List UserOperationInfo
  pub submitted : List SubmittedUserOperation
  pub gauges : GaugeValues

pub data Status : Type 0 where
  outstanding_ops processing_ops submitted_ops : Status

abbrev pub has_hash : ℕ → UserOperationInfo → Bool
has_hash hash op = op.user_operation_hash == hash

abbrev pub submitted_has_hash : ℕ → SubmittedUserOperation → Bool
submitted_has_hash hash op = op.user_operation.user_operation_hash == hash

unfoldable pub empty_store : MemoryStore
empty_store = record {
  outstanding = [];
  processing = [];
  submitted = [];
  gauges = record { in_outstanding = 0; in_processing = 0; in_submitted = 0 };
}

unfoldable pub add_outstanding : MemoryStore → UserOperationInfo → MemoryStore
add_outstanding s op = record s {
  outstanding = s.outstanding ++ op ∷ [];
  gauges = record g { in_outstanding = g.in_outstanding + 1 };
}
  where
    g : GaugeValues
    g = s.gauges

unfoldable pub add_processing : MemoryStore → UserOperationInfo → MemoryStore
add_processing s op = record s {
  processing = s.processing ++ op ∷ [];
  gauges = record g { in_processing = g.in_processing + 1 };
}
  where
    g : GaugeValues
    g = s.gauges

unfoldable pub add_submitted : MemoryStore → SubmittedUserOperation → MemoryStore
add_submitted s op = record s {
  submitted = s.submitted ++ op ∷ [];
  gauges = record g { in_submitted = g.in_submitted + 1 };
}
  where
    g : GaugeValues
    g = s.gauges

-- `findIndex`, an early return where nothing is found, and `splice`.
unfoldable pub remove_outstanding : MemoryStore → ℕ → MemoryStore
remove_outstanding s hash = elim (find (has_hash hash) s.outstanding) [
  | none ↦ s
  | some _ ↦ record s {
    outstanding = erase_first (has_hash hash) s.outstanding;
    gauges = record g { in_outstanding = g.in_outstanding - 1 };
  }
]
  where
    g : GaugeValues
    g = s.gauges

unfoldable pub remove_processing : MemoryStore → ℕ → MemoryStore
remove_processing s hash = elim (find (has_hash hash) s.processing) [
  | none ↦ s
  | some _ ↦ record s {
    processing = erase_first (has_hash hash) s.processing;
    gauges = record g { in_processing = g.in_processing - 1 };
  }
]
  where
    g : GaugeValues
    g = s.gauges

unfoldable pub remove_submitted : MemoryStore → ℕ → MemoryStore
remove_submitted s hash = elim (find (submitted_has_hash hash) s.submitted) [
  | none ↦ s
  | some _ ↦ record s {
    submitted = erase_first (submitted_has_hash hash) s.submitted;
    gauges = record g { in_submitted = g.in_submitted - 1 };
  }
]
  where
    g : GaugeValues
    g = s.gauges

-- The list goes; the gauge stays as it was.
unfoldable pub clear : MemoryStore → Status → MemoryStore
clear s outstanding_ops = record s { outstanding = [] }
clear s processing_ops = record s { processing = [] }
clear s submitted_ops = record s { submitted = [] }
