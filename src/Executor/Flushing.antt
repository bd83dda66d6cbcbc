-- ===== src/Executor/Flushing.antt =====
-- `flushStuckTransactions` of src/executor/executor.ts and `flushStuckTransaction` of
-- src/executor/utils.ts: the transactions to itself that each wallet sends. Whether one is accepted
-- changes nothing, since an error is logged and the loop goes on.
use pimlico_alto_smart_accou.Common.{
  ℕ, zero, suc, ◌+◌, ◌-◌, ◌*◌, ◌≡◌, Bool, ◌||◌, ◌&&◌, Option, none, some, List, [], ◌∷◌, ◌++◌, any,
  ◌==◌, leb, ltb, if◌then◌else◌, arith,
}
use pimlico_alto_smart_accou.GasPrice.{GasPriceParameters, Result, gives, throws}

pub record Flush : Type 0 where
  pub wallet : ℕ
  pub nonce : ℕ
  pub gas_price : ℕ

-- The loop from this nonce on, for so many nonces.
abbrev flushes_from : ℕ → ℕ → ℕ → ℕ → List Flush
flushes_from wallet price nonce zero = []
flushes_from wallet price nonce (suc n) =
    record { wallet = wallet; nonce = nonce; gas_price = price }
    ∷ flushes_from wallet price (nonce + 1) n

unfoldable pub flush_stuck_transaction : ℕ → ℕ → (latest pending : ℕ) → List Flush
flush_stuck_transaction wallet price latest pending =
    if latest == pending || latest + 1 == pending
    then []
    else flushes_from wallet price latest (pending - latest)

-- `new Set(wallets)` with the utility account added.
unfoldable pub all_wallets : List ℕ → Option ℕ → List ℕ
all_wallets wallets utility = distinct wallets (from_utility utility)
  where
    from_utility : Option ℕ → List ℕ
    from_utility none = []
    from_utility (some a) = a ∷ []

    add_new : ℕ → List ℕ → List ℕ
    add_new a set = if any (λ b. b == a) set then set else set ++ a ∷ []

    grow : List ℕ → List ℕ → List ℕ
    grow set [] = set
    grow set (a ∷ rest) = grow (add_new a set) rest

    distinct : List ℕ → List ℕ → List ℕ
    distinct ws more = grow (grow [] ws) more

-- The counts of a wallet are those at the latest and the pending block; `none` where the node fails,
-- which leaves the other wallets alone.
unfoldable pub flush_all : ℕ → (ℕ → Option (ℕ × ℕ)) → List ℕ → List Flush
flush_all price counts [] = []
flush_all price counts (w ∷ ws) = of_wallet (counts w) ++ flush_all price counts ws
  where
    of_wallet : Option (ℕ × ℕ) → List Flush
    of_wallet none = []
    of_wallet (some (latest, pending)) = flush_stuck_transaction w price latest pending

unfoldable pub flush_stuck_transactions :
    List ℕ → Option ℕ → Result GasPriceParameters → (ℕ → Option (ℕ × ℕ)) → Result (List Flush)
flush_stuck_transactions wallets utility (throws e) counts = throws e
flush_stuck_transactions wallets utility (gives price) counts =
    gives (flush_all (price.max_fee_per_gas * 5) counts (all_wallets wallets utility))

-- Whether a transaction with this nonce is among them.
abbrev pub flushes : ℕ → List Flush → Bool
flushes n fs = any (λ f. f.nonce == n) fs

from-flushes :
    (wallet price start k n : ℕ)
    → flushes n (flushes_from wallet price start k) ≡ leb start n && ltb n (start + k)
from-flushes wallet price start zero n = ground arith
from-flushes wallet price start (suc k) n =
    ground (arith, from-flushes wallet price (start + 1) k n)

-- A wallet flushes exactly the nonces from the latest count up to the pending one, where these are
-- at least two, and none where there is at most one.
pub flush_stuck_transaction-flushes :
    (wallet price latest pending n : ℕ)
    → flushes n (flush_stuck_transaction wallet price latest pending)
      ≡ leb (latest + 2) pending && leb latest n && ltb n pending
unfolding flush_stuck_transaction
flush_stuck_transaction-flushes wallet price latest pending n =
    ground (arith, from-flushes wallet price latest (pending - latest) n)
