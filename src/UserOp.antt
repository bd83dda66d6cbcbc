-- ===== src/UserOp.antt =====
-- User operations: src/types/schemas.ts (the record types), src/types/mempool.ts and the parts of
-- src/utils/userop.ts that other components call.
--
-- An address is the number of its 20 bytes: the schema turns every address into its checksummed
-- text, so `===` on the texts is equality of the numbers. A hash is the number of its 32 bytes. A
-- `bigint` that the schema takes is a `uint256`, so it is a natural number. `Hex` data is the text
-- itself, as a list of character codes with the leading "0x".
pub mod Packing
pub mod Hashing
pub mod Nonce
use pimlico_alto_smart_accou.Common.{
  ℕ, zero, suc, ◌+◌, ◌*◌, ◌/◌, ◌%◌, ◌^◌, Bool, true, false, ◌&&◌, Option, none, some, List, [], ◌∷◌,
  ◌==◌, leb, ltb, if◌then◌else◌, length,
}

abbrev pub Hex : Type 0
Hex = List ℕ

-- The text "0x".
abbrev pub empty_hex : Hex
empty_hex = b'0' ∷ b'x' ∷ []

abbrev pub hex_eq : Hex → Hex → Bool
hex_eq [] [] = true
hex_eq [] (_ ∷ _) = false
hex_eq (_ ∷ _) [] = false
hex_eq (a ∷ g) (b ∷ h) = a == b && hex_eq g h

-- `data.slice(0, n)`.
abbrev pub take : ℕ → Hex → Hex
take zero h = []
take (suc n) [] = []
take (suc n) (c ∷ h) = c ∷ take n h

pub record UserOperationV06 : Type 0 where
  pub sender : ℕ
  pub nonce : ℕ
  pub init_code : Hex
  pub call_data : Hex
  pub call_gas_limit : ℕ
  pub verification_gas_limit : ℕ
  pub pre_verification_gas : ℕ
  pub max_priority_fee_per_gas : ℕ
  pub max_fee_per_gas : ℕ
  pub paymaster_and_data : Hex
  pub signature : Hex

pub record UserOperationV07 : Type 0 where
  pub sender : ℕ
  pub nonce : ℕ
  pub factory : Option ℕ
  pub factory_data : Option Hex
  pub call_data : Hex
  pub call_gas_limit : ℕ
  pub verification_gas_limit : ℕ
  pub pre_verification_gas : ℕ
  pub max_fee_per_gas : ℕ
  pub max_priority_fee_per_gas : ℕ
  pub paymaster : Option ℕ
  pub paymaster_verification_gas_limit : Option ℕ
  pub paymaster_post_op_gas_limit : Option ℕ
  pub paymaster_data : Option Hex
  pub signature : Hex

pub data UserOperation : Type 0 where
  v06 : UserOperationV06 → UserOperation
  v07 : UserOperationV07 → UserOperation

pub record CompressedUserOperation : Type 0 where
  pub compressed_calldata : Hex
  pub inflated_op : UserOperation
  pub inflator_address : ℕ
  pub inflator_id : ℕ

pub data MempoolUserOperation : Type 0 where
  plain : UserOperation → MempoolUserOperation
  compressed : CompressedUserOperation → MempoolUserOperation

-- `"compressedCalldata" in op`.
unfoldable pub is_compressed_type : MempoolUserOperation → Bool
is_compressed_type (plain _) = false
is_compressed_type (compressed _) = true

unfoldable pub derive_user_operation : MempoolUserOperation → UserOperation
derive_user_operation (plain op) = op
derive_user_operation (compressed c) = c.inflated_op

abbrev pub is_version06 : UserOperation → Bool
is_version06 (v06 _) = true
is_version06 (v07 _) = false

abbrev pub is_version07 : UserOperation → Bool
is_version07 (v06 _) = false
is_version07 (v07 _) = true

-- The fields that both versions have, under one name.
unfoldable pub sender : UserOperation → ℕ
sender (v06 op) = op.sender
sender (v07 op) = op.sender

unfoldable pub nonce : UserOperation → ℕ
nonce (v06 op) = op.nonce
nonce (v07 op) = op.nonce

unfoldable pub max_fee_per_gas : UserOperation → ℕ
max_fee_per_gas (v06 op) = op.max_fee_per_gas
max_fee_per_gas (v07 op) = op.max_fee_per_gas

unfoldable pub max_priority_fee_per_gas : UserOperation → ℕ
max_priority_fee_per_gas (v06 op) = op.max_priority_fee_per_gas
max_priority_fee_per_gas (v07 op) = op.max_priority_fee_per_gas

unfoldable pub call_gas_limit : UserOperation → ℕ
call_gas_limit (v06 op) = op.call_gas_limit
call_gas_limit (v07 op) = op.call_gas_limit

unfoldable pub verification_gas_limit : UserOperation → ℕ
verification_gas_limit (v06 op) = op.verification_gas_limit
verification_gas_limit (v07 op) = op.verification_gas_limit

unfoldable pub pre_verification_gas : UserOperation → ℕ
pre_verification_gas (v06 op) = op.pre_verification_gas
pre_verification_gas (v07 op) = op.pre_verification_gas

-- `getAddress` of the package viem, given as an argument: the number of a 42-character address.
abbrev pub GetAddress : Type 0
GetAddress = Hex → ℕ

-- `!data` holds of the empty text, which is shorter than 42 characters too.
unfoldable pub get_address_from_init_code_or_paymaster_and_data : GetAddress → Hex → Option ℕ
get_address_from_init_code_or_paymaster_and_data get_address [] = none
get_address_from_init_code_or_paymaster_and_data get_address (c ∷ rest) =
    if leb 42 (length (c ∷ rest)) then some (get_address (take 42 (c ∷ rest))) else none

-- The paymaster and the factory of an operation, as most callers compute them.
unfoldable pub paymaster_of : GetAddress → UserOperation → Option ℕ
paymaster_of get_address (v06 op) =
    get_address_from_init_code_or_paymaster_and_data get_address op.paymaster_and_data
paymaster_of get_address (v07 op) = op.paymaster

unfoldable pub factory_of : GetAddress → UserOperation → Option ℕ
factory_of get_address (v06 op) =
    get_address_from_init_code_or_paymaster_and_data get_address op.init_code
factory_of get_address (v07 op) = op.factory

-- `nonce >> 64n` and `nonce & 0xffffffffffffffffn`.
unfoldable pub get_nonce_key_and_value : ℕ → ℕ × ℕ
get_nonce_key_and_value nonce = (nonce / 2 ^ 64, nonce % 2 ^ 64)

-- `limit || 0n`.
abbrev pub or_zero : Option ℕ → ℕ
or_zero none = 0
or_zero (some n) = n

unfoldable pub get_required_prefund : UserOperation → ℕ
get_required_prefund (v06 op) =
    (op.call_gas_limit
      + op.verification_gas_limit * (if ltb 2 (length op.paymaster_and_data) then 3 else 1)
      + op.pre_verification_gas)
    * op.max_fee_per_gas
get_required_prefund (v07 op) =
    (op.verification_gas_limit
      + op.call_gas_limit
      + or_zero op.paymaster_verification_gas_limit
      + or_zero op.paymaster_post_op_gas_limit
      + op.pre_verification_gas)
    * op.max_fee_per_gas
