-- ===== src/GasPrice/PreVerification.antt =====
-- The fees of the layer below in `preVerificationGas`: calcArbitrumPreVerificationGas and
-- calcMantlePreVerificationGas of src/utils/validation.ts. What the contracts answer for the
-- serialized transaction is given.
use mathlib.Core.Path.{subst}
use native.Mathlib.Nat.{
  div-le_of_le-mul, div-mul-le_self, mul-le-mul_left, mul-le-mul, mul_comm, le_trans,
  le-div_iff_mul-le,
}
use pimlico_alto_smart_accou.Common.{
  ℕ, ◌+◌, ◌*◌, ◌/◌, ◌≤◌, ◌≡◌, ◌≢◌, refl, Bool, true, false, Option, none, some, ◌==◌, if◌then◌else◌,
  arith,
}
use pimlico_alto_smart_accou.TimedQueue.{TimedQueue, save_value, get_min_value}
use pimlico_alto_smart_accou.TimedQueue.Prices.{save_value-encloses}
use pimlico_alto_smart_accou.GasPrice.Oracles.{
  ArbitrumManager, MantleManager, Oracle, value_or, save_l1_base_fee, save_l2_base_fee,
  get_min_l1_base_fee, get_max_l1_base_fee, get_max_l2_base_fee, get_min_mantle_oracle_values,
  save_mantle_oracle_values,
}

-- The answer of `gasEstimateL1Component`.
pub record L1Component : Type 0 where
  pub gas_for_l1 : ℕ
  pub l2_base_fee : ℕ
  pub l1_base_fee_estimate : ℕ

-- The gas that is asked for at a validation.
unfoldable pub validated_gas : ArbitrumManager → L1Component → ℕ
validated_gas m c =
    let estimate =
      if c.l1_base_fee_estimate == 0 then get_max_l1_base_fee m else c.l1_base_fee_estimate in
    (c.gas_for_l1 * c.l2_base_fee / estimate) * get_min_l1_base_fee m / get_max_l2_base_fee m

unfoldable pub calc_arbitrum_pre_verification_gas :
    ArbitrumManager → ℕ → L1Component → ℕ → Bool → ℕ × ArbitrumManager
calc_arbitrum_pre_verification_gas m now c static_fee validate =
    let saved =
      save_l2_base_fee (save_l1_base_fee m now c.l1_base_fee_estimate) now c.l2_base_fee in
    (static_fee + (if validate then validated_gas saved c else c.gas_for_l1), saved)

unfoldable pub l1_rollup_fee : Oracle ℕ → ℕ
l1_rollup_fee o =
    o.rollup_data_gas_and_overhead * o.l1_gas_price * o.token_ratio * o.scalar / 1000000

-- `answer` is what the oracle answers, which is asked where the gas is estimated only. A fee of 0
-- makes the last division throw, which is `none`.
unfoldable pub calc_mantle_pre_verification_gas :
    MantleManager → ℕ → Oracle ℕ → ℕ → ℕ → Bool → Option ℕ × MantleManager
calc_mantle_pre_verification_gas m now answer max_fee static_fee verify =
    let values = if verify then get_min_mantle_oracle_values m else answer in
    (
      if max_fee == 0 then none else some (static_fee + l1_rollup_fee values / max_fee),
      if verify then m else save_mantle_oracle_values m now answer,
    )

value_or-le : (o : Option ℕ) (low n : ℕ) → o ≡ some low → low ≤ n → n ≢ 0 → value_or o 1 ≤ n
value_or-le none low n e l z = cc
value_or-le (some k) low n e l z = let same : k ≡ low = cc in ground (arith, same)

-- The smallest value is not above one that was just saved.
min-saved :
    (q : TimedQueue) (now n : ℕ) → n ≢ 0 → value_or (get_min_value (save_value q now n)) 1 ≤ n
min-saved q now n z =
    let (latest, low, high, a, b, c, d, e, f, g, i) = save_value-encloses q now n z in
    value_or-le (get_min_value (save_value q now n)) low n b (omega (arith, d, f)) z

div-le : (a b k : ℕ) → a ≤ b → 1 ≤ k → a / k ≤ b / k
div-le a b k l p = (le-div_iff_mul-le p).1 (le_trans (div-mul-le_self a k) l)

rollup-le :
    (o p : Oracle ℕ)
    → o.rollup_data_gas_and_overhead ≤ p.rollup_data_gas_and_overhead
    → o.l1_gas_price ≤ p.l1_gas_price
    → o.token_ratio ≤ p.token_ratio
    → o.scalar ≤ p.scalar
    → l1_rollup_fee o ≤ l1_rollup_fee p
unfolding l1_rollup_fee
rollup-le o p a b c d =
    div-le _ _ 1000000 (mul-le-mul (mul-le-mul (mul-le-mul a b) c) d) (omega arith)

-- All four values are there.
pub record IsAnswered (o : Oracle ℕ) : Type 0 where
  pub token_ratio : o.token_ratio ≢ 0
  pub scalar : o.scalar ≢ 0
  pub rollup_data_gas_and_overhead : o.rollup_data_gas_and_overhead ≢ 0
  pub l1_gas_price : o.l1_gas_price ≢ 0

-- The gas that is required is not more than the gas that was estimated; both are `none`, or neither.
abbrev pub AtMost : Option ℕ → Option ℕ → Type 0
AtMost none none = Unit {0}
AtMost none (some b) = 1 ≤ 0
AtMost (some a) none = 1 ≤ 0
AtMost (some a) (some b) = a ≤ b

if-AtMost :
    (z : Bool) (a b : ℕ)
    → (z ≡ false → a ≤ b)
    → AtMost (if z then none else some a) (if z then none else some b)
if-AtMost true a b h = tt
if-AtMost false a b h = h refl

-- On Mantle, an estimate from an answer of the oracle without zeros is enough for the validation that
-- follows it with the same fees, whatever the oracle answered before.
pub calc_mantle_pre_verification_gas-AtMost :
    (m : MantleManager) (now after : ℕ) (answer later : Oracle ℕ) (max_fee static_fee : ℕ)
    → IsAnswered answer
    → AtMost
        (calc_mantle_pre_verification_gas
          (calc_mantle_pre_verification_gas m now answer max_fee static_fee false).1
          after
          later
          max_fee
          static_fee
          true).0
        (calc_mantle_pre_verification_gas m now answer max_fee static_fee false).0
unfolding calc_mantle_pre_verification_gas get_min_mantle_oracle_values save_mantle_oracle_values
calc_mantle_pre_verification_gas-AtMost m now after answer later max_fee static_fee h =
    if-AtMost (max_fee == 0) _ _ (λ z.
      let fees : _ =
        rollup-le (get_min_mantle_oracle_values (save_mantle_oracle_values m now answer)) answer
          (min-saved m.rollup_data_gas_and_overhead now answer.rollup_data_gas_and_overhead
            h.rollup_data_gas_and_overhead)
          (min-saved m.l1_gas_price now answer.l1_gas_price h.l1_gas_price)
          (min-saved m.token_ratio now answer.token_ratio h.token_ratio)
          (min-saved m.scalar now answer.scalar h.scalar) in
      omega (arith, div-le _ _ max_fee fees (ground arith)))

scaled-le : (g l2 l1 low high : ℕ) → low ≤ l1 → l2 ≤ high → (g * l2 / l1) * low / high ≤ g
scaled-le g l2 l1 low high a b = div-le_of_le-mul high (
    le_trans (mul-le-mul_left (g * l2 / l1) a) (
      le_trans (div-mul-le_self (g * l2) l1)
        (subst (λ n. g * l2 ≤ n) (mul_comm g high) (mul-le-mul_left g b))))

not_zero : (n : ℕ) → n ≢ 0 → (n == 0) ≡ false
not_zero n z = ground arith

validated_gas-le :
    (m : ArbitrumManager) (c : L1Component)
    → c.l1_base_fee_estimate ≢ 0
    → get_min_l1_base_fee m ≤ c.l1_base_fee_estimate
    → c.l2_base_fee ≤ get_max_l2_base_fee m
    → validated_gas m c ≤ c.gas_for_l1
unfolding validated_gas
validated_gas-le m c z a b =
    rw (not_zero c.l1_base_fee_estimate z)
      (scaled-le c.gas_for_l1 c.l2_base_fee c.l1_base_fee_estimate _ _ a b)

-- On Arbitrum, the gas that a validation requires is not more than the one that an estimation at the
-- same moment gives, where the base fee of the first layer is known and that of the second is not
-- above the largest one kept.
pub calc_arbitrum_pre_verification_gas-le :
    (m : ArbitrumManager) (now : ℕ) (c : L1Component) (static_fee : ℕ)
    → c.l1_base_fee_estimate ≢ 0
    → c.l2_base_fee
      ≤ get_max_l2_base_fee (calc_arbitrum_pre_verification_gas m now c static_fee true).1
    → (calc_arbitrum_pre_verification_gas m now c static_fee true).0
      ≤ (calc_arbitrum_pre_verification_gas m now c static_fee false).0
unfolding calc_arbitrum_pre_verification_gas get_min_l1_base_fee save_l1_base_fee save_l2_base_fee
calc_arbitrum_pre_verification_gas-le m now c static_fee z l = add_same static_fee _ _ (
    validated_gas-le (calc_arbitrum_pre_verification_gas m now c static_fee true).1 c z
      (min-saved m.l1_base_fee_queue now c.l1_base_fee_estimate z) l)
  where
    add_same : (s a b : ℕ) → a ≤ b → s + a ≤ s + b
    add_same s a b h = omega (arith, h)
