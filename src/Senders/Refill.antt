-- ===== src/Senders/Refill.antt =====
-- `validateAndRefillWallets` of src/executor/senderManager.ts: which transfers it asks for. The
-- balances and the price are given; sending the transactions, in this order, is left to the wallet.
-- The entries of `balancesMissing` stand in the order of the wallets.
use mathlib.Core.Path.{subst}
use pimlico_alto_smart_accou.Common.{
  ℕ, ◌+◌, ◌-◌, ◌*◌, ◌/◌, ◌≤◌, ◌≡◌, refl, Bool, true, false, Option, none, some, List, [], ◌∷◌, ltb,
  ◌==◌, Dict, if◌then◌else◌, arith, Bool-cases, Option-cases, inl, inr, ◌||◌, ◌&&◌, ◌<◌, ◌⊎◌, any,
  get?, ap, sym, ◌∙◌, ==_iff,
}
use pimlico_alto_smart_accou.GasPrice.{GasPriceParameters, Result, gives, throws}

-- A transfer from the utility account, with the fees of its transaction.
pub record RefillConfig : Type 0 where
  pub min_executor_balance : ℕ
  pub utility_account : Option ℕ
  pub refill_helper_contract : Option ℕ
  pub legacy_transactions : Bool

pub data Fees : Type 0 where
  dynamic : ℕ → ℕ → Fees
  legacy : ℕ → Fees

pub data Refill : Type 0 where
  nothing insufficient : Refill
  through_contract : ℕ → Dict ℕ → ℕ → Fees → Refill
  one_by_one : Dict ℕ → Fees → Refill

unfoldable pub balances_missing : ℕ → (ℕ → ℕ) → List ℕ → Dict ℕ
balances_missing min_balance balance [] = []
balances_missing min_balance balance (w ∷ ws) =
    if ltb (balance w) min_balance
    then (w, min_balance * 6 / 5 - balance w) ∷ balances_missing min_balance balance ws
    else balances_missing min_balance balance ws

unfoldable pub total_missing : Dict ℕ → ℕ
total_missing [] = 0
total_missing ((w, n) ∷ rest) = n + total_missing rest

unfoldable pub refill_with : RefillConfig → Dict ℕ → GasPriceParameters → Refill
refill_with c missing p = elim c.refill_helper_contract [
  | some contract ↦
      through_contract contract missing (total_missing missing)
        (dynamic (p.max_fee_per_gas * 2) (p.max_priority_fee_per_gas * 2))
  | none ↦ one_by_one missing (
      if c.legacy_transactions
      then legacy p.max_fee_per_gas
      else dynamic p.max_fee_per_gas p.max_priority_fee_per_gas)
]

abbrev has_utility : Option ℕ → Bool
has_utility none = false
has_utility (some _) = true

-- The utility account can pay: the price is asked for only where a wallet misses something.
unfoldable pub refill_funded : RefillConfig → Result GasPriceParameters → Dict ℕ → Result Refill
refill_funded c price [] = gives nothing
refill_funded c (gives p) (m ∷ ms) = gives (refill_with c (m ∷ ms) p)
refill_funded c (throws e) (m ∷ ms) = throws e

unfoldable pub refill_missing :
    RefillConfig → ℕ → Result GasPriceParameters → Dict ℕ → Result Refill
refill_missing c utility_balance price missing =
    if ltb utility_balance (total_missing missing * 11 / 10)
    then gives insufficient
    else refill_funded c price missing

-- `balance` is what the node answers for a wallet, `price` what `tryGetNetworkGasPrice` gives.
unfoldable pub validate_and_refill_wallets :
    RefillConfig → List ℕ → (ℕ → ℕ) → ℕ → Result GasPriceParameters → Result Refill
validate_and_refill_wallets c available balance utility_balance price =
    if (c.min_executor_balance == 0) || (if has_utility c.utility_account then false else true)
    then gives nothing
    else refill_missing c utility_balance price
        (balances_missing c.min_executor_balance balance available)

abbrev pub transfers : Refill → Dict ℕ
transfers nothing = []
transfers insufficient = []
transfers (through_contract _ missing _ _) = missing
transfers (one_by_one missing _) = missing

-- Every wallet of the list ends at a fifth above the minimum balance.
abbrev pub Reaches : ℕ → (ℕ → ℕ) → Dict ℕ → Type 0
Reaches min_balance balance [] = Unit {0}
Reaches min_balance balance ((w, n) ∷ rest) =
    (balance w + n ≡ min_balance * 6 / 5) × Reaches min_balance balance rest

missing-Reaches :
    (min_balance : ℕ) (balance : ℕ → ℕ) (ws : List ℕ)
    → Reaches min_balance balance (balances_missing min_balance balance ws)
unfolding balances_missing
missing-Reaches n balance [] = tt
missing-Reaches n balance (w ∷ ws) = elim (Bool-cases (ltb (balance w) n)) [
  | inl e ↦ rw e (ground arith, missing-Reaches n balance ws)
  | inr e ↦ rw e (missing-Reaches n balance ws)
]

-- What a wallet should get: a wallet of the list below the minimum, as much as takes it to a fifth
-- above it, any other address nothing.
abbrev pub due : ℕ → (ℕ → ℕ) → List ℕ → ℕ → Option ℕ
due min_balance balance available w =
    if any (λ v. v == w) available && ltb (balance w) min_balance
    then some (min_balance * 6 / 5 - balance w)
    else none

missing-due :
    (min_balance : ℕ) (balance : ℕ → ℕ) (ws : List ℕ) (w : ℕ)
    → get? (balances_missing min_balance balance ws) w ≡ due min_balance balance ws w
unfolding balances_missing get?
missing-due n balance [] w = refl
missing-due n balance (v ∷ ws) w = elim (Bool-cases (v == w)) [
  | inl e ↦
      let same : v ≡ w = (==_iff v w).0 e in rw same (ground (arith, missing-due n balance ws w))
  | inr e ↦ ground (arith, missing-due n balance ws w)
]

-- What the refill of these wallets has to be.
abbrev pub Refills :
    RefillConfig → List ℕ → (ℕ → ℕ) → ℕ → Result GasPriceParameters → Result Refill → Type 0
Refills c available balance utility_balance price (throws e) = price ≡ throws e
Refills c available balance utility_balance price (gives r) =
    (total_missing (transfers r) ≤ utility_balance)
    × Reaches c.min_executor_balance balance (transfers r)
    × (((r ≡ insufficient)
          × (utility_balance
              < total_missing (balances_missing c.min_executor_balance balance available)
                * 11
                / 10))
        ⊎ ((w : ℕ) → get? (transfers r) w ≡ due c.min_executor_balance balance available w))

transfers-refill_with :
    (c : RefillConfig) (missing : Dict ℕ) (p : GasPriceParameters)
    → transfers (refill_with c missing p) ≡ missing
unfolding refill_with
transfers-refill_with c missing p = elim (Option-cases c.refill_helper_contract) [
  | inl e ↦ rw (e, refill_with) refl
  | inr (k, e) ↦ rw (e, refill_with) refl
]

module _ (c : RefillConfig) (available : List ℕ) (balance : ℕ → ℕ) (u : ℕ)
    (price : Result GasPriceParameters) where
  abbrev missing : Dict ℕ
  missing = balances_missing c.min_executor_balance balance available

  refill_funded-Refills :
      (p : Result GasPriceParameters) (ms : Dict ℕ)
      → p ≡ price
      → ms ≡ missing
      → total_missing ms ≤ u
      → Refills c available balance u price (refill_funded c p ms)
  unfolding refill_funded total_missing
  refill_funded-Refills p [] same e l = (
    omega (arith, l),
    tt,
    inr (λ w. ap (λ d. get? d w) e ∙ missing-due c.min_executor_balance balance available w),
  )
  refill_funded-Refills (gives p) (m ∷ ms) same e l = rw (transfers-refill_with c (m ∷ ms) p) (
    l,
    subst (λ d. Reaches c.min_executor_balance balance d) (sym e)
        (missing-Reaches c.min_executor_balance balance available),
    inr (λ w. ap (λ d. get? d w) e ∙ missing-due c.min_executor_balance balance available w),
  )
  refill_funded-Refills (throws x) (m ∷ ms) same e l = sym same

  payable : (t : ℕ) → ltb u (t * 11 / 10) ≡ false → t ≤ u
  payable t h = ground arith

  short : (t : ℕ) → ltb u (t * 11 / 10) ≡ true → u < t * 11 / 10
  short t h = ground arith

  refill_missing-Refills : Refills c available balance u price (refill_missing c u price missing)
  unfolding refill_missing total_missing
  refill_missing-Refills = elim (Bool-cases (ltb u (total_missing missing * 11 / 10))) [
    | inl e ↦ rw (e, refill_missing) (omega arith, tt, inl (refl, short (total_missing missing) e))
    | inr e ↦
        rw (e, refill_missing)
          (refill_funded-Refills price missing refl refl (payable (total_missing missing) e))
  ]

-- With a minimum balance and a utility account, the transfers together are at most the balance of the
-- utility account; a wallet of the list below the minimum gets one, which takes it to a fifth above
-- the minimum, and nobody else gets one. The only exceptions are a utility balance below 1.1 times
-- what is missing, for which there are no transfers, and an exception of the gas price.
pub validate_and_refill_wallets-Refills :
    (c : RefillConfig) (available : List ℕ) (balance : ℕ → ℕ) (utility_balance account : ℕ)
    (price : Result GasPriceParameters)
    → (c.min_executor_balance == 0) ≡ false
    → c.utility_account ≡ some account
    → Refills c available balance utility_balance price
        (validate_and_refill_wallets c available balance utility_balance price)
unfolding validate_and_refill_wallets refill_missing refill_funded refill_with
validate_and_refill_wallets-Refills c available balance u account price n k =
    rw (n, k, validate_and_refill_wallets) (refill_missing-Refills c available balance u price)
