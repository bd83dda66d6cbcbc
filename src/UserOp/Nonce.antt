-- ===== src/UserOp/Nonce.antt =====
-- The two parts of a nonce and the required prefund (src/utils/userop.ts).
use pimlico_alto_smart_accou.Common.{ℕ, ◌+◌, ◌*◌, ◌^◌, ◌<◌, ◌≡◌, arith}
use pimlico_alto_smart_accou.UserOp.{get_nonce_key_and_value}

-- Splitting the nonce made of a key and a 64-bit sequence value gives back both, and putting the
-- two parts of any nonce together gives back the nonce.
pub get_nonce_key_and_value_roundtrip :
    (key value nonce : ℕ)
    → value < 2 ^ 64
    → (get_nonce_key_and_value (key * 2 ^ 64 + value) ≡ (key, value))
      × ((get_nonce_key_and_value nonce).0 * 2 ^ 64 + (get_nonce_key_and_value nonce).1 ≡ nonce)
      × ((get_nonce_key_and_value nonce).1 < 2 ^ 64)
unfolding get_nonce_key_and_value
get_nonce_key_and_value_roundtrip key value nonce h = (ground arith, omega arith, omega arith)
