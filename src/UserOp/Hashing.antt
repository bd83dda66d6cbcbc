-- ===== src/UserOp/Hashing.antt =====
-- The hash of an operation (src/utils/userop.ts). `keccak256` and `encodeAbiParameters` of the
-- package viem are arguments.
use pimlico_alto_smart_accou.Common.{ℕ, List, [], ◌∷◌}
use pimlico_alto_smart_accou.UserOp.{Hex, UserOperation, v06, v07, UserOperationV06}
use pimlico_alto_smart_accou.UserOp.Packing.{Bytes, PackedUserOperation, to_packed_user_operation}

-- A value with its ABI type; a `bytes32` is a hash, or text of 32 bytes.
pub data AbiValue : Type 0 where
  address uint256 hash32 : ℕ → AbiValue
  bytes32 : Hex → AbiValue

pub record Encoding : Type 0 where
  pub bytes : Bytes
  pub keccak256 : Hex → ℕ
  pub encode_abi_parameters : List AbiValue → Hex

module _ (viem : Encoding) where
  open viem use {keccak256, encode_abi_parameters}

  -- The hash of the fields, with the entry point and the chain.
  bind_chain : ℕ → ℕ → ℕ → ℕ
  bind_chain hash entry_point chain_id =
      keccak256 (encode_abi_parameters (hash32 hash ∷ address entry_point ∷ uint256 chain_id ∷ []))

  get_user_operation_hash_v06 : UserOperationV06 → ℕ → ℕ → ℕ
  unfolding bind_chain
  get_user_operation_hash_v06 op entry_point chain_id =
      bind_chain
        (keccak256 (
          encode_abi_parameters (
            address op.sender
            ∷ uint256 op.nonce
            ∷ hash32 (keccak256 op.init_code)
            ∷ hash32 (keccak256 op.call_data)
            ∷ uint256 op.call_gas_limit
            ∷ uint256 op.verification_gas_limit
            ∷ uint256 op.pre_verification_gas
            ∷ uint256 op.max_fee_per_gas
            ∷ uint256 op.max_priority_fee_per_gas
            ∷ hash32 (keccak256 op.paymaster_and_data)
            ∷ [])))
        entry_point chain_id

  get_user_operation_hash_v07 : PackedUserOperation → ℕ → ℕ → ℕ
  unfolding bind_chain
  get_user_operation_hash_v07 op entry_point chain_id =
      bind_chain
        (keccak256 (
          encode_abi_parameters (
            address op.sender
            ∷ uint256 op.nonce
            ∷ hash32 (keccak256 op.init_code)
            ∷ hash32 (keccak256 op.call_data)
            ∷ bytes32 op.account_gas_limits
            ∷ uint256 op.pre_verification_gas
            ∷ bytes32 op.gas_fees
            ∷ hash32 (keccak256 op.paymaster_and_data)
            ∷ [])))
        entry_point chain_id

  unfoldable pub get_user_operation_hash : UserOperation → ℕ → ℕ → ℕ
  unfolding get_user_operation_hash_v06 get_user_operation_hash_v07
  get_user_operation_hash (v06 op) = get_user_operation_hash_v06 op
  get_user_operation_hash (v07 op) =
      get_user_operation_hash_v07 (to_packed_user_operation viem.bytes op)
