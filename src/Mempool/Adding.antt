-- ===== src/Mempool/Adding.antt =====
-- `add` of src/mempool/mempool.ts.
pub mod Cases
pub mod Limits
pub mod Replacement
pub mod Lookup
use pimlico_alto_smart_accou.Common.{
  ℕ, ◌+◌, ◌*◌, ◌/◌, Bool, true, false, ◌&&◌, ◌||◌, not, Option, none, some, List, [], ◌∷◌, ◌++◌,
  map, ◌==◌, ltb, find, any, filter, length, if◌then◌else◌, is_some,
}
use pimlico_alto_smart_accou.UserOp.{
  Hex, empty_hex, hex_eq, UserOperation, v06, v07, MempoolUserOperation, derive_user_operation,
  sender, nonce, max_fee_per_gas, max_priority_fee_per_gas, get_nonce_key_and_value,
}
use pimlico_alto_smart_accou.UserOp.Hashing.{Encoding, get_user_operation_hash}
use pimlico_alto_smart_accou.Store
use pimlico_alto_smart_accou.Store.{UserOperationInfo, ReferencedCodeHashes, has_hash}
use pimlico_alto_smart_accou.Monitor.{StatusName, set_user_operation_status}
use pimlico_alto_smart_accou.Reputation.{Error, returned, thrown}
use pimlico_alto_smart_accou.Reputation.Interface.{any_update_seen_status}
use pimlico_alto_smart_accou.EventManager.{emit_added_to_mempool}
use pimlico_alto_smart_accou.Mempool.{Mempool, op_of, info_of}

pub data Refusal : Type 0 where
  already_known already_processing already_present already_constructed : Refusal
  too_many_parallel too_many_queued : Refusal

-- `[true, ""]`, `[false, reason]`, or an exception of the reputation manager.
pub data AddResult : Type 0 where
  added : AddResult
  refused : Refusal → AddResult
  threw : Error → AddResult

-- `data && data !== "0x"`.
abbrev pub has_code : Hex → Bool
has_code [] = false
has_code (c ∷ h) = not (hex_eq (c ∷ h) empty_hex)

abbrev pub same_sender_and_nonce : UserOperation → UserOperation → Bool
same_sender_and_nonce op other = sender other == sender op && nonce other == nonce op

-- Whether `other`, which the mempool holds, stands in the way of `op`.
unfoldable pub conflicts : UserOperation → UserOperation → Bool
conflicts (v06 op) (v06 other) =
    if same_sender_and_nonce (v06 op) (v06 other)
    then true
    else if has_code op.init_code
    then sender (v06 other) == sender (v06 op) && has_code other.init_code
    else false
conflicts (v07 op) (v07 other) =
    if same_sender_and_nonce (v07 op) (v07 other)
    then true
    else if is_some op.factory
    then sender (v07 other) == sender (v07 op) && is_some other.factory
    else false
conflicts (v06 op) (v07 other) = same_sender_and_nonce (v06 op) (v07 other)
conflicts (v07 op) (v06 other) = same_sender_and_nonce (v07 op) (v06 other)

abbrev pub processed_or_submitted : Mempool → List UserOperationInfo
processed_or_submitted m = m.store.processing ++ map info_of m.store.submitted

-- The fee that a replacement has to reach: ten per cent more, rounded down.
abbrev pub bumped : ℕ → ℕ
bumped fee = fee + fee * 10 / 100

unfoldable pub underpriced : UserOperation → UserOperation → Bool
underpriced old op =
    ltb (max_priority_fee_per_gas op) (bumped (max_priority_fee_per_gas old))
    || ltb (max_fee_per_gas op) (bumped (max_fee_per_gas old))

abbrev pub from_sender : ℕ → UserOperationInfo → Bool
from_sender a info = sender (op_of info) == a

abbrev pub from_sender_and_key : ℕ → ℕ → UserOperationInfo → Bool
from_sender_and_key a key info =
    from_sender a info && (get_nonce_key_and_value (nonce (op_of info))).0 == key

-- What the caller asks for, with its hash and the time.
pub record Request : Type 0 where
  pub operation : MempoolUserOperation
  pub entry_point : ℕ
  pub hash : ℕ
  pub now : ℕ
  pub referenced_contracts : Option ReferencedCodeHashes

-- `oldUserOp ? oldUserOp.firstSubmitted : Date.now()`.
abbrev pub first_submitted_of : Option UserOperationInfo → ℕ → ℕ
first_submitted_of none now = now
first_submitted_of (some old) now = old.first_submitted

abbrev pub new_info : Request → Option UserOperationInfo → UserOperationInfo
new_info q old = record {
  mempool_user_operation = q.operation;
  entry_point = q.entry_point;
  user_operation_hash = q.hash;
  last_replaced = q.now;
  first_submitted = first_submitted_of old q.now;
  referenced_contracts = q.referenced_contracts;
}

-- The end of `add`, from the limits of the sender on.
unfoldable pub enlist : Mempool → Request → Option UserOperationInfo → AddResult × Mempool
enlist m q old =
    let op = derive_user_operation q.operation in
    let key = (get_nonce_key_and_value (nonce op)).0 in
    if ltb m.config.mempool_max_parallel_ops
      (length (filter (from_sender (sender op)) m.store.outstanding))
    then (refused too_many_parallel, m)
    else if ltb m.config.mempool_max_queued_ops
        (length (filter (from_sender_and_key (sender op) key) m.store.outstanding))
    then (refused too_many_queued, m)
    else (
      added,
      record m {
        store = Store.add_outstanding m.store (new_info q old);
        monitor =
            set_user_operation_status m.monitor q.now q.hash
              (record { status = StatusName.not_submitted; transaction_hash = none });
        events = emit_added_to_mempool m.events q.now q.hash;
      },
    )

abbrev pub without_outstanding : Mempool → ℕ → Mempool
without_outstanding m hash = record m { store = Store.remove_outstanding m.store hash }

-- The part of `add` after the operation is counted as seen: the operation in its way is looked for,
-- and replaced if it is outstanding and the fees are high enough.
unfoldable pub replace_or_enlist :
    Mempool → Request → Option UserOperationInfo → AddResult × Mempool
replace_or_enlist m q none = enlist m q none
replace_or_enlist m q (some old) =
    let op = derive_user_operation q.operation in
    let reason = if nonce (op_of old) == nonce op then already_present else already_constructed in
    if any (has_hash old.user_operation_hash) (processed_or_submitted m)
    then (refused reason, m)
    else if underpriced (op_of old) op
    then (refused reason, m)
    else enlist (without_outstanding m old.user_operation_hash) q (some old)

abbrev pub find_conflict : Mempool → UserOperation → Option UserOperationInfo
find_conflict m op =
    find (λ info. conflicts op (op_of info)) (m.store.outstanding ++ processed_or_submitted m)

-- `add` with the hash computed.
unfoldable pub add_request : Encoding → Mempool → Request → AddResult × Mempool
add_request viem m q =
    let op = derive_user_operation q.operation in
    if any (has_hash q.hash) (m.store.outstanding ++ processed_or_submitted m)
    then (refused already_known, m)
    else if any (λ info. same_sender_and_nonce op (op_of info)) (processed_or_submitted m)
    then (refused already_processing, m)
    else (let (seen, reputation) =
          any_update_seen_status viem.bytes.get_address op q.entry_point m.reputation in
        let m' = record m { reputation = reputation } in
        elim seen [
          | thrown e ↦ (threw e, m')
          | returned _ ↦ replace_or_enlist m' q (find_conflict m' op)
        ])

unfoldable pub add :
    Encoding
    → Mempool
    → ℕ
    → MempoolUserOperation
    → ℕ
    → Option ReferencedCodeHashes
    → AddResult × Mempool
add viem m now operation entry_point referenced = add_request viem m (record {
  operation = operation;
  entry_point = entry_point;
  hash =
      get_user_operation_hash viem (derive_user_operation operation) entry_point m.config.chain_id;
  now = now;
  referenced_contracts = referenced;
})
