-- ===== src/Mempool/Bundling.antt =====
-- `process` of src/mempool/mempool.ts: the choice of the operations of a bundle.
pub mod Rule
pub mod Budget
pub mod Senders
pub mod Moves
use pimlico_alto_smart_accou.Common.{
  ℕ, ◌+◌, ◌*◌, ◌&&◌, Bool, Option, none, some, List, [], ◌∷◌, ◌==◌, ltb, leb, if◌then◌else◌,
  get_or_else,
}
use Prim.Native.Nat.{compare, Ordering}
use pimlico_alto_smart_accou.UserOp.{
  UserOperation, sender, nonce, call_gas_limit, verification_gas_limit, pre_verification_gas,
  get_nonce_key_and_value,
}
use pimlico_alto_smart_accou.Store
use pimlico_alto_smart_accou.Store.{UserOperationInfo}
use pimlico_alto_smart_accou.Reputation.Interface.{any_decrease_count}
use pimlico_alto_smart_accou.Mempool.{Mempool, op_of, get_known_entities}
use pimlico_alto_smart_accou.Mempool.Skipping.{
  Outside, Bundle, Verdict, skip, take, failed, should_skip,
}

-- The comparison that is given to `sort`: the sign of its number.
unfoldable pub compare_operations : UserOperationInfo → UserOperationInfo → Ordering
compare_operations a b =
    let (a_key, a_value) = get_nonce_key_and_value (nonce (op_of a)) in
    let (b_key, b_value) = get_nonce_key_and_value (nonce (op_of b)) in
    if sender (op_of a) == sender (op_of b)
    then (if a_key == b_key then compare a_value b_value else compare a_key b_key)
    else Ordering.eq

-- `Array.prototype.sort`. The comparison above is no order (operations of two senders are equal to
-- it, operations of one sender need not be), so the result is the engine's: it is a parameter.
abbrev pub Sort : Type 0
Sort =
    (UserOperationInfo → UserOperationInfo → Ordering)
    → List UserOperationInfo
    → List UserOperationInfo

abbrev pub gas_of : UserOperation → ℕ
gas_of op = call_gas_limit op + verification_gas_limit op * 3 + pre_verification_gas op

-- An operation goes from outstanding to processing.
unfoldable pub take_operation : Outside → UserOperationInfo → Mempool → Mempool
take_operation out info m = record m {
  reputation = any_decrease_count out.viem.bytes.get_address (op_of info) m.reputation;
  store = Store.add_processing (Store.remove_outstanding m.store info.user_operation_hash) info;
}

-- `none` is an exception, which loses the list of the operations taken so far.
abbrev pub cons_some :
    UserOperationInfo
    → Option (List UserOperationInfo) × Mempool
    → Option (List UserOperationInfo) × Mempool
cons_some info (none, m) = (none, m)
cons_some info (some infos, m) = (some (info ∷ infos), m)

-- The loop: the gas so far counts the skipped operations too, and `taken` counts the taken ones.
unfoldable pub process_loop :
    Outside
    → ℕ
    → ℕ
    → List UserOperationInfo
    → ℕ
    → ℕ
    → Bundle
    → Mempool
    → Option (List UserOperationInfo) × Mempool
process_loop out max_gas min_ops [] taken gas b m = (some [], m)
process_loop out max_gas min_ops (info ∷ rest) taken gas b m =
    elim (ltb max_gas (gas + gas_of (op_of info)) && leb min_ops taken) [
      | Bool.true ↦ (some [], m)
      | Bool.false ↦
          let (verdict, b', m') = should_skip out info b m in
          elim verdict [
            | failed ↦ (none, m')
            | skip ↦ process_loop out max_gas min_ops rest taken (gas + gas_of (op_of info)) b' m'
            | take ↦ cons_some info (
                process_loop out max_gas min_ops rest (taken + 1) (gas + gas_of (op_of info)) b'
                  (take_operation out info m'))
          ]
    ]

unfoldable pub process :
    Outside → Sort → Mempool → ℕ → Option ℕ → Option (List UserOperationInfo) × Mempool
process out sort m max_gas min_ops =
    process_loop out max_gas (get_or_else min_ops 0) (sort compare_operations m.store.outstanding) 0
      0
      (record {
        paymaster_deposit = [];
        staked_entity_count = [];
        known_entities = get_known_entities out.viem.bytes.get_address m;
        senders = [];
      })
      m
