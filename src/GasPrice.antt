-- ===== src/GasPrice.antt =====
-- The prices of gas, src/handlers/gasPriceManager.ts: the bump by chain and the prices that the
-- node's answers lead to. Manager has the state, Oracles the values of the layers below.
pub mod PreVerification
pub mod Manager
pub mod Oracles
pub mod Bumping
pub mod Accepted
use pimlico_alto_smart_accou.Common.{
  ℕ, ◌+◌, ◌*◌, ◌/◌, ◌^◌, Bool, ◌||◌, Option, none, some, List, [], ◌∷◌, ◌==◌, if◌then◌else◌,
  get_or_else,
}
use pimlico_alto_smart_accou.TimedQueue.{min_big_int, max_big_int}

pub record GasPriceParameters : Type 0 where
  pub max_fee_per_gas : ℕ
  pub max_priority_fee_per_gas : ℕ

-- The identifiers that viem/chains gives these chains, and its `parseGwei` on a text.
pub record Chains : Type 0 where
  pub polygon : ℕ
  pub polygon_mumbai : ℕ
  pub celo : ℕ
  pub celo_alfajores : ℕ
  pub dfk : ℕ
  pub avalanche : ℕ
  pub parse_gwei : List ℕ → ℕ

pub record GasConfig : Type 0 where
  pub chain_id : ℕ
  pub gas_price_bump : ℕ
  pub legacy_transactions : Bool
  pub gas_price_refresh_interval : ℕ
  pub is_hedera : Bool

pub data GasError : Type 0 where
  node_failed no_base_fee legacy_base_fee no_gas_price : GasError
  fee_below priority_fee_below : ℕ → GasError

pub data Result (A : Type 0) : Type 0 where
  gives : A → Result A
  throws : GasError → Result A

infixl 10 ◌>>=◌
abbrev pub ◌>>=◌ : {A B : Type 0} → Result A → (A → Result B) → Result B
gives a >>= f = f a
throws e >>= f = throws e

-- What the node answers to each call: `none` for an exception, and an inner `none` for an
-- `undefined` or null part. Of the fee history it is the first reward of each block.
pub record Node : Type 0 where
  pub gas_station : Option GasPriceParameters
  pub legacy_fees : Option (Option ℕ)
  pub fees : Option (Option ℕ × Option ℕ)
  pub gas_price : Option ℕ
  pub fee_history : Option (Option (List ℕ))
  pub block_base_fee : Option (Option ℕ)

-- An awaited call whose exception goes on to the caller.
abbrev pub awaited : {A : Type 0} → Option A → Result A
awaited none = throws node_failed
awaited (some a) = gives a

-- Both fees are at least this one.
abbrev pub at_least : ℕ → GasPriceParameters → GasPriceParameters
at_least n p = record {
  max_fee_per_gas = max_big_int n p.max_fee_per_gas;
  max_priority_fee_per_gas = max_big_int n p.max_priority_fee_per_gas;
}

abbrev pub same_price : ℕ → GasPriceParameters
same_price n = record { max_fee_per_gas = n; max_priority_fee_per_gas = n }

module _ (v : Chains) (c : GasConfig) where
  -- `ChainId.Polygon` and `ChainId.Mumbai`; the texts are "31" and "1".
  unfoldable pub get_default_gas_fee : ℕ
  get_default_gas_fee =
      if c.chain_id == 137
      then v.parse_gwei (51 ∷ 49 ∷ [])
      else if c.chain_id == 80001
      then v.parse_gwei (49 ∷ [])
      else 0

  abbrev pub scaled : GasPriceParameters → GasPriceParameters
  scaled p =
      let priority = max_big_int p.max_priority_fee_per_gas get_default_gas_fee in
      let fee = max_big_int p.max_fee_per_gas priority in
      record {
        max_fee_per_gas = fee * c.gas_price_bump / 100;
        max_priority_fee_per_gas = priority * c.gas_price_bump / 100;
      }

  -- The text is "1.5".
  unfoldable pub bump_the_gas_price : GasPriceParameters → GasPriceParameters
  bump_the_gas_price p =
      let result = scaled p in
      if (c.chain_id == v.celo) || (c.chain_id == v.celo_alfajores)
      then same_price (max_big_int result.max_fee_per_gas result.max_priority_fee_per_gas)
      else if c.chain_id == v.dfk
      then at_least 5000000000 result
      else if c.chain_id == v.avalanche
      then at_least (v.parse_gwei (49 ∷ 46 ∷ 53 ∷ [])) result
      else result

abbrev sum : List ℕ → ℕ
sum [] = 0
sum (n ∷ ns) = n + sum ns

module _ (node : Node) where
  unfoldable pub get_fall_back_max_priority_fee_per_gas : ℕ → Result ℕ
  get_fall_back_max_priority_fee_per_gas gas_price = awaited node.fee_history >>= λ reward.
      elim reward [ none ↦ gives gas_price | some rs ↦ gives (min_big_int (sum rs / 10) gas_price) ]

  unfoldable pub get_legacy_transaction_gas_price : Result GasPriceParameters
  get_legacy_transaction_gas_price = elim (node.legacy_fees) [
    | some (some price) ↦ gives (same_price price)
    | _ ↦ awaited node.gas_price >>= λ price. gives (same_price price)
  ]

  abbrev pub or_fall_back : Option ℕ → Result ℕ → Result ℕ
  or_fall_back none r = r
  or_fall_back (some n) r = gives n

  unfoldable pub estimate_gas_price : Result GasPriceParameters
  estimate_gas_price =
      let (fee, priority) = get_or_else node.fees (none, none) in
      or_fall_back priority (get_fall_back_max_priority_fee_per_gas (get_or_else fee 0)) >>= λ p.
      or_fall_back fee (awaited node.gas_price >>= λ price. gives (price + p)) >>= λ f.
      gives
        (record { max_fee_per_gas = f; max_priority_fee_per_gas = if p == 0 then f / 200 else p })

-- The larger of the two in each part.
abbrev pub larger : GasPriceParameters → GasPriceParameters → GasPriceParameters
larger p q = record {
  max_fee_per_gas = max_big_int p.max_fee_per_gas q.max_fee_per_gas;
  max_priority_fee_per_gas = max_big_int p.max_priority_fee_per_gas q.max_priority_fee_per_gas;
}

-- `getPolygonGasPriceParameters`, on the two chains that have a gas station.
abbrev pub station_price : Chains → GasConfig → Node → Option GasPriceParameters
station_price v c node =
    if (c.chain_id == v.polygon) || (c.chain_id == v.polygon_mumbai) then node.gas_station else none

unfoldable pub inner_get_gas_price : Chains → GasConfig → Node → Result GasPriceParameters
inner_get_gas_price v c node =
    let zero_price : GasPriceParameters = record {
      max_fee_per_gas = 0;
      max_priority_fee_per_gas = 0;
    } in
    elim (station_price v c node) [
      | some p ↦ gives (larger (bump_the_gas_price v c p) zero_price)
      | none ↦
          if c.legacy_transactions
          then (get_legacy_transaction_gas_price node >>= λ p.
              gives (larger (bump_the_gas_price v c p) zero_price))
          else (estimate_gas_price node >>= λ p. gives (larger (bump_the_gas_price v c p) p))
    ]
