-- ===== src/Mempool.antt =====
-- The mempool, src/mempool/mempool.ts: its state, the moves of operations between the pools, the
-- lookups, and the check on entities with several roles. Time is an argument.
pub mod Adding
pub mod Skipping
pub mod Bundling
pub mod Lifecycle
use pimlico_alto_smart_accou.Common.{
  ℕ, Bool, true, false, Option, none, some, List, [], ◌∷◌, ◌++◌, map, ◌==◌, ◌||◌, find, any,
  if◌then◌else◌,
}
use pimlico_alto_smart_accou.UserOp.{
  GetAddress, UserOperation, derive_user_operation, sender, paymaster_of, factory_of,
}
use pimlico_alto_smart_accou.UserOp.Hashing.{Encoding}
use pimlico_alto_smart_accou.Store
use pimlico_alto_smart_accou.Store.{
  MemoryStore, UserOperationInfo, TransactionInfo, SubmittedUserOperation, has_hash,
  submitted_has_hash, outstanding_ops, empty_store,
}
use pimlico_alto_smart_accou.Monitor.{Monitor, StatusName, set_user_operation_status}
use pimlico_alto_smart_accou.Reputation.Interface.{AnyReputationManager}
use pimlico_alto_smart_accou.EventManager.{EventManager}

pub record MempoolConfig : Type 0 where
  pub safe_mode : Bool
  pub mempool_max_parallel_ops : ℕ
  pub mempool_max_queued_ops : ℕ
  pub enforce_unique_senders_per_bundle : Bool
  pub chain_id : ℕ

pub record Mempool : Type 0 where
  pub config : MempoolConfig
  pub monitor : Monitor
  pub reputation : AnyReputationManager
  pub store : MemoryStore
  pub throttled_entity_bundle_count : ℕ
  pub events : EventManager

unfoldable pub new_mempool : MempoolConfig → Monitor → AnyReputationManager → EventManager → Mempool
new_mempool config monitor reputation events = record {
  config = config;
  monitor = monitor;
  reputation = reputation;
  store = empty_store;
  throttled_entity_bundle_count = 4;
  events = events;
}

abbrev pub op_of : UserOperationInfo → UserOperation
op_of info = derive_user_operation info.mempool_user_operation

abbrev pub info_of : SubmittedUserOperation → UserOperationInfo
info_of s = s.user_operation

unfoldable pub replace_submitted : Mempool → ℕ → UserOperationInfo → TransactionInfo → Mempool
replace_submitted m now info transaction =
    elim (find (submitted_has_hash info.user_operation_hash) m.store.submitted) [
      | none ↦ m
      | some _ ↦ record m {
        store =
            Store.add_submitted (Store.remove_submitted m.store info.user_operation_hash)
              (record { user_operation = info; transaction_info = transaction });
        monitor = set_user_operation_status m.monitor now info.user_operation_hash (record {
          status = StatusName.submitted;
          transaction_hash = some transaction.transaction_hash;
        });
      }
    ]

unfoldable pub mark_submitted : Mempool → ℕ → ℕ → TransactionInfo → Mempool
mark_submitted m now hash transaction = elim (find (has_hash hash) m.store.processing) [
  | none ↦ m
  | some op ↦ record m {
    store =
        Store.add_submitted (Store.remove_processing m.store hash)
          (record { user_operation = op; transaction_info = transaction });
    monitor = set_user_operation_status m.monitor now hash (record {
      status = StatusName.submitted;
      transaction_hash = some transaction.transaction_hash;
    });
  }
]

unfoldable pub remove_submitted : Mempool → ℕ → Mempool
remove_submitted m hash = record m { store = Store.remove_submitted m.store hash }

unfoldable pub remove_processing : Mempool → ℕ → Mempool
remove_processing m hash = record m { store = Store.remove_processing m.store hash }

unfoldable pub clear : Mempool → Mempool
clear m = record m { store = Store.clear m.store outstanding_ops }

unfoldable pub get : Mempool → ℕ → Option UserOperation
get m hash = elim (find (has_hash hash) m.store.outstanding) [
  | some outstanding ↦ some (op_of outstanding)
  | none ↦ elim (find (submitted_has_hash hash) m.store.submitted) [
    | some submitted ↦ some (op_of submitted.user_operation)
    | none ↦ none
  ]
]

-- Sets of addresses, as lists.
pub record KnownEntities : Type 0 where
  pub senders : List ℕ
  pub paymasters : List ℕ
  pub factories : List ℕ

abbrev pub member : ℕ → List ℕ → Bool
member a set = any (λ b. b == a) set

abbrev add_some : Option ℕ → List ℕ → List ℕ
add_some none set = set
add_some (some a) set = a ∷ set

unfoldable pub entities_of : GetAddress → List UserOperationInfo → KnownEntities
entities_of g [] = record { senders = []; paymasters = []; factories = [] }
entities_of g (info ∷ rest) =
    let known = entities_of g rest in
    record {
      senders = sender (op_of info) ∷ known.senders;
      paymasters = add_some (paymaster_of g (op_of info)) known.paymasters;
      factories = add_some (factory_of g (op_of info)) known.factories;
    }

unfoldable pub get_known_entities : GetAddress → Mempool → KnownEntities
unfolding entities_of
get_known_entities g m = entities_of g m.store.outstanding

abbrev pub member_some : Option ℕ → List ℕ → Bool
member_some none set = false
member_some (some a) set = member a set

pub data RoleViolation : Type 0 where
  sender_is_other_entity paymaster_is_sender factory_is_sender : RoleViolation

-- The violation that is thrown, if any.
unfoldable pub check_entity_multiple_role_violation :
    GetAddress → Mempool → UserOperation → Option RoleViolation
check_entity_multiple_role_violation g m op =
    let known = get_known_entities g m in
    if m.config.safe_mode
    then (if member (sender op) known.paymasters || member (sender op) known.factories
        then some sender_is_other_entity
        else if member_some (paymaster_of g op) known.senders
        then some paymaster_is_sender
        else if member_some (factory_of g op) known.senders
        then some factory_is_sender
        else none)
    else none
