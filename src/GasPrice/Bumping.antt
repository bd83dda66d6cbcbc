-- ===== src/GasPrice/Bumping.antt =====
-- How the prices given relate to each other.
use mathlib.Core.Path.{subst}
use native.Mathlib.Nat.{mul-le-mul_left}
use pimlico_alto_smart_accou.Common.{
  ℕ, ◌*◌, ◌/◌, ◌≤◌, ◌≡◌, ◌==◌, ◌||◌, Bool, true, false, inl, inr, Bool-cases, Option-cases, arith,
  if◌then◌else◌,
}
use pimlico_alto_smart_accou.TimedQueue.{max_big_int}
use pimlico_alto_smart_accou.GasPrice.{
  GasPriceParameters, Chains, GasConfig, ◌>>=◌, Result, gives, throws, Node, scaled, at_least,
  same_price, bump_the_gas_price, get_default_gas_fee, larger, inner_get_gas_price, station_price,
}

-- A price whose priority fee fits into its fee.
abbrev IsOrdered : GasPriceParameters → Type 0
IsOrdered p = p.max_priority_fee_per_gas ≤ p.max_fee_per_gas

max_big_int_mono : (n a b : ℕ) → a ≤ b → max_big_int n a ≤ max_big_int n b
max_big_int_mono n a b h = ground arith

percent_mono : (k a b : ℕ) → a ≤ b → a * k / 100 ≤ b * k / 100
percent_mono k a b h = omega (arith, mul-le-mul_left k h)

percent_grows : (k a : ℕ) → 100 ≤ k → a ≤ a * k / 100
percent_grows k a h = omega (arith, mul-le-mul_left a h)

max_big_int-left : (a b : ℕ) → a ≤ max_big_int a b
max_big_int-left a b = ground arith

max_big_int-right : (a b : ℕ) → b ≤ max_big_int a b
max_big_int-right a b = ground arith

le_trans : {a b c : ℕ} → a ≤ b → b ≤ c → a ≤ c
le_trans h k = omega arith

scaled-IsOrdered : (v : Chains) (c : GasConfig) (p : GasPriceParameters) → IsOrdered (scaled v c p)
scaled-IsOrdered v c p = percent_mono c.gas_price_bump _ _ (
    max_big_int-right p.max_fee_per_gas
      (max_big_int p.max_priority_fee_per_gas (get_default_gas_fee v c)))

at_least-IsOrdered : (n : ℕ) (p : GasPriceParameters) → IsOrdered p → IsOrdered (at_least n p)
at_least-IsOrdered n p h = max_big_int_mono n _ _ h

-- Case by case over the chains: any property of the price that the scaled price has, and that
-- equal fees of its size and a higher minimum keep.
bump_cases :
    (P : GasPriceParameters → Type 0) (v : Chains) (c : GasConfig) (p : GasPriceParameters)
    → P (scaled v c p)
    → P (
        same_price
          (max_big_int (scaled v c p).max_fee_per_gas (scaled v c p).max_priority_fee_per_gas))
    → ((n : ℕ) → P (at_least n (scaled v c p)))
    → P (bump_the_gas_price v c p)
unfolding bump_the_gas_price
bump_cases P v c p plain same min =
    elim (Bool-cases ((c.chain_id == v.celo) || (c.chain_id == v.celo_alfajores))) [
      | inl celo ↦ rw celo same
      | inr other ↦ rw other (elim (Bool-cases (c.chain_id == v.dfk)) [
        | inl dfk ↦ rw dfk (min 5000000000)
        | inr rest ↦ rw rest (elim (Bool-cases (c.chain_id == v.avalanche)) [
          | inl a ↦ rw a (min _)
          | inr n ↦ rw n plain
        ])
      ])
    ]

bump_the_gas_price-IsOrdered :
    (v : Chains) (c : GasConfig) (p : GasPriceParameters) → IsOrdered (bump_the_gas_price v c p)
bump_the_gas_price-IsOrdered v c p =
    bump_cases IsOrdered v c p (scaled-IsOrdered v c p) (omega arith)
      (λ n. at_least-IsOrdered n (scaled v c p) (scaled-IsOrdered v c p))

-- The fee given is at least both fees that came in.
abbrev Covers : GasPriceParameters → GasPriceParameters → Type 0
Covers p q =
    (p.max_fee_per_gas ≤ q.max_fee_per_gas) × (p.max_priority_fee_per_gas ≤ q.max_fee_per_gas)

Covers-grows :
    (p q r : GasPriceParameters) → Covers p q → q.max_fee_per_gas ≤ r.max_fee_per_gas → Covers p r
Covers-grows p q r h k = (omega (arith, h.0), omega (arith, h.1))

scaled-Covers :
    (v : Chains) (c : GasConfig) (p : GasPriceParameters)
    → 100 ≤ c.gas_price_bump
    → Covers p (scaled v c p)
scaled-Covers v c p h =
    let d : ℕ = get_default_gas_fee v c in
    let priority : ℕ = max_big_int p.max_priority_fee_per_gas d in
    let fee : ℕ = max_big_int p.max_fee_per_gas priority in
    let grown : fee ≤ fee * c.gas_price_bump / 100 = percent_grows c.gas_price_bump fee h in
    let l : p.max_fee_per_gas ≤ fee = max_big_int-left p.max_fee_per_gas priority in
    let r : priority ≤ fee = max_big_int-right p.max_fee_per_gas priority in
    let s : p.max_priority_fee_per_gas ≤ priority = max_big_int-left p.max_priority_fee_per_gas d in
    (le_trans l grown, le_trans s (le_trans r grown))

bump_the_gas_price-Covers :
    (v : Chains) (c : GasConfig) (p : GasPriceParameters)
    → 100 ≤ c.gas_price_bump
    → Covers p (bump_the_gas_price v c p)
bump_the_gas_price-Covers v c p h =
    bump_cases (Covers p) v c p base
      (Covers-grows p (scaled v c p)
        (same_price
          (max_big_int (scaled v c p).max_fee_per_gas (scaled v c p).max_priority_fee_per_gas))
        base (max_big_int-left _ _))
      (λ n. Covers-grows p (scaled v c p) (at_least n (scaled v c p)) base (max_big_int-right _ _))
  where
    base : Covers p (scaled v c p)
    base = scaled-Covers v c p h

larger-IsOrdered :
    (g e : GasPriceParameters)
    → IsOrdered g
    → e.max_priority_fee_per_gas ≤ g.max_fee_per_gas
    → IsOrdered (larger g e)
larger-IsOrdered g e h k = ground arith

-- What holds of a result, if there is one.
abbrev Given : (GasPriceParameters → Type 0) → Result GasPriceParameters → Type 0
Given P (gives p) = P p
Given P (throws e) = Unit {0}

Given-bind :
    (P : GasPriceParameters → Type 0) (r : Result GasPriceParameters)
    (f : GasPriceParameters → GasPriceParameters)
    → ((p : GasPriceParameters) → P (f p))
    → Given P (r >>= λ p. gives (f p))
Given-bind P (gives p) f h = h p
Given-bind P (throws e) f h = tt

Given-if :
    (P : GasPriceParameters → Type 0) (b : Bool) (r s : Result GasPriceParameters)
    → Given P r
    → Given P s
    → Given P (if b then r else s)
Given-if P true r s h k = h
Given-if P false r s h k = k

inner-Given :
    (v : Chains) (c : GasConfig) (node : Node)
    → 100 ≤ c.gas_price_bump
    → Given IsOrdered (inner_get_gas_price v c node)
unfolding inner_get_gas_price
inner-Given v c node h = elim (Option-cases (station_price v c node)) [
  | inr (p, e) ↦ rw (e, Given) (over_zero p)
  | inl e ↦
      rw (e, Given)
        (Given-if IsOrdered c.legacy_transactions _ _ (Given-bind IsOrdered _ _ over_zero) (
          Given-bind IsOrdered _ _ (λ p.
            larger-IsOrdered (bump_the_gas_price v c p) p (bump_the_gas_price-IsOrdered v c p)
              ((bump_the_gas_price-Covers v c p h).1))))
]
  where
    over_zero :
        (p : GasPriceParameters)
        → IsOrdered (
            larger
              (bump_the_gas_price v c p)
              (record { max_fee_per_gas = 0; max_priority_fee_per_gas = 0 }))
    over_zero p =
        larger-IsOrdered (bump_the_gas_price v c p) _ (bump_the_gas_price-IsOrdered v c p)
          (omega arith)

-- Where the bump is at least 100 per cent, the priority fee of every price that the node's answers
-- lead to is at most its fee, on each chain, from the gas station, the legacy price or the estimate.
pub inner_get_gas_price-IsOrdered :
    (v : Chains) (c : GasConfig) (node : Node) (p : GasPriceParameters)
    → 100 ≤ c.gas_price_bump
    → inner_get_gas_price v c node ≡ gives p
    → p.max_priority_fee_per_gas ≤ p.max_fee_per_gas
inner_get_gas_price-IsOrdered v c node p h e = subst (Given IsOrdered) e (inner-Given v c node h)
