-- ===== src/Tests/Wallets.antt =====
-- The theorems on the wallets at concrete inputs.
use pimlico_alto_smart_accou.Common.{
  ℕ, zero, suc, ◌+◌, ◌≡◌, refl, Option, none, some, [], ◌∷◌, true, false, arith,
}
use pimlico_alto_smart_accou.GasPrice.{GasPriceParameters, Result, gives}
use pimlico_alto_smart_accou.Senders.{
  Semaphore, SenderManager, new_sender_manager, hand_out, get_wallet, mark_wallet_processed,
}
use pimlico_alto_smart_accou.Senders.Balance.{
  SemaphoreLaws, IsBalanced, Answered, get_wallet-Answered, get_wallet-shared,
}
use pimlico_alto_smart_accou.Senders.Refill.{
  RefillConfig, Refills, validate_and_refill_wallets, validate_and_refill_wallets-Refills,
}

abbrev acquire_one : ℕ → Option ℕ
acquire_one zero = none
acquire_one (suc n) = some n

-- A semaphore that is its number of permits.
abbrev pub counter : Semaphore ℕ
counter = record { create = λ n. n; acquire = acquire_one; release = λ n. n + 1; level = λ n. n }

counter-locked : (n : ℕ) → acquire_one n ≡ none → n ≡ 0
counter-locked zero h = refl
counter-locked (suc n) h = cc

counter-acquired : (n k : ℕ) → acquire_one n ≡ some k → n ≡ k + 1
counter-acquired zero k h = cc
counter-acquired (suc n) k h = let same : n ≡ k = cc in omega (arith, same)

pub counter_laws : SemaphoreLaws counter
counter_laws = record {
  level-create = λ n. refl;
  locked = counter-locked;
  acquired = counter-acquired;
  level-release = λ n. refl;
}

abbrev pub two_wallets : SenderManager ℕ
two_wallets = record {
  wallets = 7 ∷ 8 ∷ [];
  available_wallets = 7 ∷ 8 ∷ [];
  shared = true;
  utility_account = none;
  semaphore = 2;
}

two_wallets-IsBalanced : IsBalanced counter two_wallets
two_wallets-IsBalanced = record { level = refl; distinct = λ w. ground arith }

get_wallet-Answered_example :
    Answered counter counter_laws two_wallets (get_wallet counter two_wallets)
    × IsBalanced counter (mark_wallet_processed counter 7 two_wallets)
get_wallet-Answered_example =
    get_wallet-Answered counter counter_laws two_wallets 7 two_wallets-IsBalanced

get_wallet-shared_example :
    let taken = get_wallet counter (new_sender_manager counter (7 ∷ 8 ∷ []) (some 3) none) in
    let key : ℕ = 7 in
    (key ≡ key)
    × (taken.1.wallets ≡ 8 ∷ [])
    × ((mark_wallet_processed counter 7 taken.1).wallets ≡ 8 ∷ 7 ∷ [])
unfolding get_wallet new_sender_manager hand_out
get_wallet-shared_example =
    get_wallet-shared counter counter_laws 7 (8 ∷ []) (some 3) none 7 (omega arith) refl refl

abbrev refill_config : RefillConfig
refill_config = record {
  min_executor_balance = 100;
  utility_account = some 9;
  refill_helper_contract = none;
  legacy_transactions = false;
}

abbrev fees : Result GasPriceParameters
fees = gives (record { max_fee_per_gas = 3; max_priority_fee_per_gas = 2 })

validate_and_refill_wallets-Refills_example :
    Refills refill_config
      (7 ∷ 200 ∷ [])
      (λ w. w)
      1000
      fees
      (validate_and_refill_wallets refill_config (7 ∷ 200 ∷ []) (λ w. w) 1000 fees)
validate_and_refill_wallets-Refills_example =
    validate_and_refill_wallets-Refills refill_config (7 ∷ 200 ∷ []) (λ w. w) 1000 9 fees refl refl
