-- ===== src/UserOp/Packing.antt =====
-- The packed form of a v0.7 operation (src/utils/userop.ts). The byte functions of the package viem
-- are the fields of a record that the definitions take.
use pimlico_alto_smart_accou.Common.{ℕ, Option, none, some, List, [], ◌∷◌, if◌then◌else◌}
use pimlico_alto_smart_accou.UserOp.{Hex, empty_hex, hex_eq, or_zero, UserOperationV07}

-- `slice` throws on an offset out of bounds, here `none`.
pub record Bytes : Type 0 where
  pub get_address : Hex → ℕ
  pub address_text : ℕ → Hex
  pub concat : List Hex → Hex
  pub pad : Hex → ℕ → Hex
  pub to_hex : ℕ → Hex
  pub slice : Hex → ℕ → Option ℕ → Option Hex
  pub big_int : Hex → ℕ

pub record PackedUserOperation : Type 0 where
  pub sender : ℕ
  pub nonce : ℕ
  pub init_code : Hex
  pub call_data : Hex
  pub account_gas_limits : Hex
  pub pre_verification_gas : ℕ
  pub gas_fees : Hex
  pub paymaster_and_data : Hex
  pub signature : Hex

-- `data || "0x"`: the empty text counts as absent.
abbrev or_empty : Option Hex → Hex
or_empty none = empty_hex
or_empty (some []) = empty_hex
or_empty (some (c ∷ h)) = c ∷ h

infixl 5 ◌>>=◌
abbrev ◌>>=◌ : {A B : Type 0} → Option A → (A → Option B) → Option B
none >>= f = none
some a >>= f = f a

module _ (viem : Bytes) where
  get_init_code : UserOperationV07 → Hex
  get_init_code op = elim op.factory [
    | none ↦ empty_hex
    | some factory ↦ viem.concat (viem.address_text factory ∷ or_empty op.factory_data ∷ [])
  ]

  un_pack_init_code : Hex → Option (Option ℕ × Option Hex)
  un_pack_init_code init_code = if hex_eq init_code empty_hex then some (none, none) else (do
    factory ← viem.slice init_code 0 (some 20)
    factory_data ← viem.slice init_code 20 none
    some (some (viem.get_address factory), some factory_data))

  get_account_gas_limits : UserOperationV07 → Hex
  get_account_gas_limits op = viem.concat (
      viem.pad (viem.to_hex op.verification_gas_limit) 16
      ∷ viem.pad (viem.to_hex op.call_gas_limit) 16
      ∷ [])

  -- The verification gas limit, then the call gas limit.
  unpack_account_gas_limits : Hex → Option (ℕ × ℕ)
  unpack_account_gas_limits limits = do
    verification ← viem.slice limits 0 (some 16)
    call ← viem.slice limits 16 none
    some (viem.big_int verification, viem.big_int call)

  get_gas_limits : UserOperationV07 → Hex
  get_gas_limits op = viem.concat (
      viem.pad (viem.to_hex op.max_priority_fee_per_gas) 16
      ∷ viem.pad (viem.to_hex op.max_fee_per_gas) 16
      ∷ [])

  -- The priority fee, then the maximum fee.
  unpack_gas_limits : Hex → Option (ℕ × ℕ)
  unpack_gas_limits limits = do
    priority ← viem.slice limits 0 (some 16)
    fee ← viem.slice limits 16 none
    some (viem.big_int priority, viem.big_int fee)

  get_paymaster_and_data : UserOperationV07 → Hex
  get_paymaster_and_data op = elim op.paymaster [
    | none ↦ empty_hex
    | some paymaster ↦ viem.concat (
        viem.address_text paymaster
        ∷ viem.pad (viem.to_hex (or_zero op.paymaster_verification_gas_limit)) 16
        ∷ viem.pad (viem.to_hex (or_zero op.paymaster_post_op_gas_limit)) 16
        ∷ or_empty op.paymaster_data
        ∷ [])
  ]

  un_pack_paymaster_and_data : Hex → Option (Option ℕ × Option ℕ × Option ℕ × Option Hex)
  un_pack_paymaster_and_data text =
      if hex_eq text empty_hex then some (none, none, none, none) else (do
        paymaster ← viem.slice text 0 (some 20)
        verification ← viem.slice text 20 (some 36)
        post_op ← viem.slice text 36 (some 52)
        rest ← viem.slice text 52 none
        some (
          some (viem.get_address paymaster),
          some (viem.big_int verification),
          some (viem.big_int post_op),
          some rest,
        ))

  unfoldable pub to_packed_user_operation : UserOperationV07 → PackedUserOperation
  unfolding get_init_code get_account_gas_limits get_gas_limits get_paymaster_and_data
  to_packed_user_operation op = record {
    sender = op.sender;
    nonce = op.nonce;
    init_code = get_init_code op;
    call_data = op.call_data;
    account_gas_limits = get_account_gas_limits op;
    pre_verification_gas = op.pre_verification_gas;
    gas_fees = get_gas_limits op;
    paymaster_and_data = get_paymaster_and_data op;
    signature = op.signature;
  }

  unfoldable pub to_unpacked_user_operation : PackedUserOperation → Option UserOperationV07
  unfolding un_pack_init_code unpack_account_gas_limits unpack_gas_limits un_pack_paymaster_and_data
  to_unpacked_user_operation p = do
    creation ← un_pack_init_code p.init_code
    limits ← unpack_account_gas_limits p.account_gas_limits
    fees ← unpack_gas_limits p.gas_fees
    sponsor ← un_pack_paymaster_and_data p.paymaster_and_data
    some (record {
      sender = p.sender;
      nonce = p.nonce;
      factory = creation.0;
      factory_data = creation.1;
      call_data = p.call_data;
      call_gas_limit = limits.1;
      verification_gas_limit = limits.0;
      pre_verification_gas = p.pre_verification_gas;
      max_fee_per_gas = fees.1;
      max_priority_fee_per_gas = fees.0;
      paymaster = sponsor.0;
      paymaster_verification_gas_limit = sponsor.1;
      paymaster_post_op_gas_limit = sponsor.2;
      paymaster_data = sponsor.3;
      signature = p.signature;
    })
