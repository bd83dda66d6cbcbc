-- ===== src/Senders.antt =====
-- The wallets that send bundles, src/executor/senderManager.ts. The semaphore of async-mutex is a
-- parameter. `getWallet` is its part after the wait, and answers `waits` where the semaphore is
-- locked; the two arrays of wallets may be one object, which `shared` records.
pub mod Balance
pub mod Refill
use pimlico_alto_smart_accou.Common.{
  ℕ, zero, suc, ◌+◌, ◌≡◌, ◌<◌, Bool, true, false, Option, none, some, List, [], ◌∷◌, ◌++◌, ◌==◌,
  ltb, length, any, if◌then◌else◌,
}

-- `new Semaphore(n)`, `acquire`, which is `none` where it would wait, and `release`.
pub record Semaphore (S : Type 0) : Type 0 where
  pub create : ℕ → S
  pub acquire : S → Option S
  pub release : S → S
  pub level : S → ℕ

pub record SenderManager (S : Type 0) : Type 0 where
  pub wallets : List ℕ
  pub available_wallets : List ℕ
  pub shared : Bool
  pub utility_account : Option ℕ
  pub semaphore : S

pub data WalletResult : Type 0 where
  wallet : ℕ → WalletResult
  no_more_wallets waits : WalletResult

-- `slice(0, n)`
abbrev pub first : ℕ → List ℕ → List ℕ
first zero xs = []
first (suc n) [] = []
first (suc n) (x ∷ xs) = x ∷ first n xs

module _ {S : Type 0} (sem : Semaphore S) where
  -- With fewer signers than keys both arrays are copies; otherwise both are the configured array.
  unfoldable pub new_sender_manager : List ℕ → Option ℕ → Option ℕ → SenderManager S
  new_sender_manager keys none utility = record {
    wallets = keys;
    available_wallets = keys;
    shared = true;
    utility_account = utility;
    semaphore = sem.create (length keys);
  }
  new_sender_manager keys (some max_signers) utility =
      if ltb max_signers (length keys)
      then record {
        wallets = first max_signers keys;
        available_wallets = first max_signers keys;
        shared = false;
        utility_account = utility;
        semaphore = sem.create (length (first max_signers keys));
      }
      else record {
        wallets = keys;
        available_wallets = keys;
        shared = true;
        utility_account = utility;
        semaphore = sem.create (length keys);
      }

  -- A change of the array of available wallets, seen through the other name where there is one array.
  abbrev pub set_available : List ℕ → SenderManager S → SenderManager S
  set_available ws m = record m {
    available_wallets = ws;
    wallets = if m.shared then ws else m.wallets;
  }

  -- `shift` and what follows, with a permit taken.
  unfoldable pub hand_out : S → List ℕ → SenderManager S → WalletResult × SenderManager S
  hand_out s [] m = (no_more_wallets, record m { semaphore = sem.release s })
  hand_out s (w ∷ ws) m = (wallet w, set_available ws (record m { semaphore = s }))

  unfoldable pub get_wallet : SenderManager S → WalletResult × SenderManager S
  get_wallet m = elim (sem.acquire m.semaphore) [
    | none ↦ (waits, m)
    | some s ↦ hand_out s m.available_wallets m
  ]

  unfoldable pub push_wallet : ℕ → SenderManager S → SenderManager S
  push_wallet w m =
      set_available (m.available_wallets ++ w ∷ [])
        (record m { semaphore = sem.release m.semaphore })

  -- `markWalletProcessed` of src/executor/executor.ts.
  unfoldable pub mark_wallet_processed : ℕ → SenderManager S → SenderManager S
  mark_wallet_processed w m = if any (λ v. v == w) m.available_wallets then m else push_wallet w m
