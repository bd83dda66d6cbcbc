-- ===== src/Executor/Renewal.antt =====
-- The parts of `replaceTransaction` of src/executor/executor.ts that touch no state.
use pimlico_alto_smart_accou.Common.{
  ℕ, ◌+◌, ◌*◌, ◌/◌, Bool, true, false, ◌||◌, not, Option, none, some, List, [], ◌∷◌, any, find,
  ◌==◌, if◌then◌else◌,
}
use pimlico_alto_smart_accou.TimedQueue.{max_big_int}
use pimlico_alto_smart_accou.UserOp.{
  hex_eq, UserOperation, MempoolUserOperation, CompressedUserOperation, plain, compressed,
  derive_user_operation, call_gas_limit, verification_gas_limit, pre_verification_gas,
}
use pimlico_alto_smart_accou.Store.{
  TransactionInfo, TransactionRequest, UserOperationInfo, has_hash,
}
use pimlico_alto_smart_accou.GasPrice.{GasPriceParameters}
use pimlico_alto_smart_accou.Executor.{Text, SimulatedOp}
use pimlico_alto_smart_accou.Executor.Simulation.{is_live, reads_v06}
use pimlico_alto_smart_accou.Executor.Sending.{Cause, nonce_too_low}

-- The results of the method, and an exception. `out_of_fuel` is never the case.
pub data Replaced : Type 0 where
  replaced : TransactionInfo → Replaced
  potentially_already_included failed throws_error out_of_fuel : Replaced

-- "AA25 invalid account nonce"
abbrev pub invalid_nonce : Text
invalid_nonce =
    b'A' ∷ b'A' ∷ b'2' ∷ b'5' ∷ b' ' ∷ b'i' ∷ b'n' ∷ b'v' ∷ b'a' ∷ b'l' ∷ b'i' ∷ b'd' ∷ b' ' ∷ b'a'
    ∷ b'c' ∷ b'c' ∷ b'o' ∷ b'u' ∷ b'n' ∷ b't' ∷ b' ' ∷ b'n' ∷ b'o' ∷ b'n' ∷ b'c' ∷ b'e' ∷ []

-- "AA10 sender already constructed"
abbrev pub already_constructed : Text
already_constructed =
    b'A' ∷ b'A' ∷ b'1' ∷ b'0' ∷ b' ' ∷ b's' ∷ b'e' ∷ b'n' ∷ b'd' ∷ b'e' ∷ b'r' ∷ b' ' ∷ b'a' ∷ b'l'
    ∷ b'r' ∷ b'e' ∷ b'a' ∷ b'd' ∷ b'y' ∷ b' ' ∷ b'c' ∷ b'o' ∷ b'n' ∷ b's' ∷ b't' ∷ b'r' ∷ b'u'
    ∷ b'c' ∷ b't' ∷ b'e' ∷ b'd' ∷ []

abbrev pub is_nonce_reason : Option Text → Bool
is_nonce_reason none = false
is_nonce_reason (some reason) = hex_eq reason invalid_nonce || hex_eq reason already_constructed

-- A tenth more, rounded up.
abbrev pub outbid : ℕ → ℕ
outbid fee = (fee * 11 + 9) / 10

-- The request with the new fees.
abbrev pub with_new_fees : GasPriceParameters → TransactionRequest → TransactionRequest
with_new_fees price r = record r {
  max_fee_per_gas = max_big_int price.max_fee_per_gas (outbid r.max_fee_per_gas);
  max_priority_fee_per_gas =
      max_big_int price.max_priority_fee_per_gas (outbid r.max_priority_fee_per_gas);
}

-- The version of the operations, where it and the entry point are the same for all.
unfoldable pub uniform_version : List UserOperationInfo → Option Bool
uniform_version [] = none
uniform_version (info ∷ infos) =
    if any
      (λ i.
        not (same_bool (reads_v06 info.mempool_user_operation) (reads_v06 i.mempool_user_operation))
        || not (info.entry_point == i.entry_point))
      infos
    then none
    else some (reads_v06 info.mempool_user_operation)
  where
    same_bool : Bool → Bool → Bool
    same_bool true b = b
    same_bool false b = not b

abbrev pub with_info :
    Option UserOperationInfo → Option (List UserOperationInfo) → Option (List UserOperationInfo)
with_info (some info) (some rest) = some (info ∷ rest)
with_info _ _ = none

-- The entries of the operations that passed, which must all be there.
unfoldable pub infos_of :
    List UserOperationInfo → List SimulatedOp → Option (List UserOperationInfo)
infos_of infos [] = some []
infos_of infos (op ∷ ops) =
    let rest = infos_of infos ops in
    if is_live op then with_info (find (has_hash op.owh.user_operation_hash) infos) rest else rest

abbrev pub info_op : UserOperationInfo → UserOperation
info_op info = derive_user_operation info.mempool_user_operation

-- The gas limit by the operations alone.
unfoldable pub local_gas_limit : List UserOperation → ℕ
local_gas_limit [] = 0
local_gas_limit (op ∷ ops) =
    pre_verification_gas op
    + 3 * verification_gas_limit op
    + call_gas_limit op
    + local_gas_limit ops

abbrev pub compressed_infos : List UserOperationInfo → List CompressedUserOperation
compressed_infos [] = []
compressed_infos (info ∷ infos) =
    add_compressed info.mempool_user_operation (compressed_infos infos)
  where
    add_compressed :
        MempoolUserOperation → List CompressedUserOperation → List CompressedUserOperation
    add_compressed (compressed op) rest = op ∷ rest
    add_compressed (plain _) rest = rest

abbrev pub is_nonce_too_low : Option Cause → Bool
is_nonce_too_low (some nonce_too_low) = true
is_nonce_too_low _ = false
