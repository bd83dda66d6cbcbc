-- ===== src/Senders/Balance.antt =====
-- The wallets and the semaphore of src/executor/senderManager.ts stay in step.
use pimlico_alto_smart_accou.Common.{
  ℕ, ◌+◌, ◌≤◌, ◌≡◌, ◌≢◌, refl, sym, ◌∙◌, false, Bool-cases, Option-cases, Option, none, some, List,
  [], ◌∷◌, ◌++◌, ◌==◌, length, length-append, any, count, count-append, arith, inl, inr,
}
use pimlico_alto_smart_accou.Senders.{
  Semaphore, SenderManager, WalletResult, wallet, no_more_wallets, waits, get_wallet, hand_out,
  push_wallet, mark_wallet_processed, new_sender_manager,
}

-- What async-mutex documents of its semaphore: a positive level is taken one at a time, and a
-- release gives one back.
pub record SemaphoreLaws {S : Type 0} (sem : Semaphore S) : Type 0 where
  pub level-create : (n : ℕ) → sem.level (sem.create n) ≡ n
  pub locked : (s : S) → sem.acquire s ≡ none → sem.level s ≡ 0
  pub acquired : (s s' : S) → sem.acquire s ≡ some s' → sem.level s ≡ sem.level s' + 1
  pub level-release : (s : S) → sem.level (sem.release s) ≡ sem.level s + 1

-- How often a wallet is in the list.
abbrev pub occurs : ℕ → List ℕ → ℕ
occurs w ws = count (λ v. v == w) ws

module _ {S : Type 0} (sem : Semaphore S) where
  -- The level is the number of available wallets, and no wallet is available twice.
  pub record IsBalanced (m : SenderManager S) : Type 0 where
    pub level : sem.level m.semaphore ≡ length m.available_wallets
    pub distinct : (w : ℕ) → occurs w m.available_wallets ≤ 1

any-occurs : (w : ℕ) (ws : List ℕ) → any (λ v. v == w) ws ≡ false → occurs w ws ≡ 0
any-occurs w [] h = refl
any-occurs w (v ∷ ws) h = ground (arith, any-occurs w ws)

module _ {S : Type 0} (sem : Semaphore S) (laws : SemaphoreLaws sem) where
  mark-IsBalanced :
      (w : ℕ) (m : SenderManager S)
      → IsBalanced sem m
      → IsBalanced sem (mark_wallet_processed sem w m)
  unfolding mark_wallet_processed push_wallet
  mark-IsBalanced w m b = elim (Bool-cases (any (λ v. v == w) m.available_wallets)) [
    | inl e ↦ rw e b
    | inr e ↦ rw e (record {
      level = omega (
        arith,
        laws.level-release m.semaphore,
        b.level,
        length-append m.available_wallets (w ∷ []),
      );
      distinct = λ x. ground (
        arith,
        b.distinct x,
        any-occurs w m.available_wallets e,
        count-append (λ v. v == x) m.available_wallets (w ∷ []),
      );
    })
  ]

  -- The answer has given away no wallet that is still available.
  abbrev pub Answered : SenderManager S → WalletResult × SenderManager S → Type 0
  Answered m r =
      IsBalanced sem r.1
      × (r.0 ≢ no_more_wallets)
      × ((w : ℕ) → r.0 ≡ wallet w → occurs w r.1.available_wallets ≡ 0)
      × (r.0 ≡ waits → m.available_wallets ≡ [])

  hand_out_lem :
      (s : S) (ws : List ℕ) (m : SenderManager S)
      → sem.level s + 1 ≡ length ws
      → ((w : ℕ) → occurs w ws ≤ 1)
      → Answered m (hand_out sem s ws m)
  unfolding hand_out
  hand_out_lem s [] m l d = absurd (omega (arith, l))
  hand_out_lem s (w ∷ ws) m l d = (
    record { level = omega (arith, l); distinct = λ x. ground (arith, d x) },
    λ h. cc,
    λ x h. let same : w ≡ x = cc in rw (← same) (ground (arith, d w)),
    λ h. cc,
  )

  length-empty : (ws : List ℕ) → length ws ≡ 0 → ws ≡ []
  length-empty [] h = refl
  length-empty (w ∷ ws) h = absurd (omega (arith, h))

  -- Of a balanced manager, `getWallet` never finds the array empty behind the semaphore, it waits
  -- only where no wallet is available, a wallet that it hands out is not available any more, and the
  -- manager stays balanced, as it does when the wallet is marked processed.
  pub get_wallet-Answered :
      (m : SenderManager S) (w : ℕ)
      → IsBalanced sem m
      → Answered m (get_wallet sem m) × IsBalanced sem (mark_wallet_processed sem w m)
  unfolding get_wallet
  get_wallet-Answered m w b = (
    elim (Option-cases (sem.acquire m.semaphore)) [
      | inl e ↦
          rw (e, get_wallet)
            (
              b,
              λ h. cc,
              λ w h. cc,
              λ h. length-empty m.available_wallets (sym b.level ∙ laws.locked m.semaphore e),
            )
      | inr (s, e) ↦
          rw (e, get_wallet)
            (hand_out_lem s m.available_wallets m (sym (laws.acquired m.semaphore s e) ∙ b.level)
              b.distinct)
    ],
    mark-IsBalanced w m b,
  )

  -- No maximum, or one that is not below the number of keys.
  abbrev pub IsUncapped : Option ℕ → List ℕ → Type 0
  IsUncapped none keys = Unit {0}
  IsUncapped (some n) keys = length keys ≤ n

  new_sender_manager-shared :
      (max_signers utility : Option ℕ) (keys : List ℕ)
      → IsUncapped max_signers keys
      → new_sender_manager sem keys max_signers utility ≡ new_sender_manager sem keys none utility
  unfolding new_sender_manager
  new_sender_manager-shared none utility keys u = refl
  new_sender_manager-shared (some n) utility keys u = ground arith

  take_and_give_back :
      (key : ℕ) (keys : List ℕ) (utility : Option ℕ) (w : ℕ)
      → any (λ v. v == key) keys ≡ false
      → let taken = get_wallet sem (new_sender_manager sem (key ∷ keys) none utility) in
        taken.0 ≡ wallet w
        → (w ≡ key)
          × (taken.1.wallets ≡ keys)
          × ((mark_wallet_processed sem w taken.1).wallets ≡ keys ++ key ∷ [])
  unfolding get_wallet new_sender_manager hand_out mark_wallet_processed push_wallet
  take_and_give_back key keys utility w n =
      elim (Option-cases (sem.acquire (sem.create (length (key ∷ keys))))) [
        | inl e ↦ rw (e, get_wallet) (λ h. cc)
        | inr (s, e) ↦
            rw (e, get_wallet) (λ h. let same : w ≡ key = cc in rw (same, n) (refl, refl, refl))
      ]

  -- With no maximum, or with one that is not below the number of keys, and with a first key that is
  -- not among the others, the wallet that a new manager hands out is the first one; it is missing from `wallets` too while it
  -- is taken, and stands at the end of `wallets` once it is marked processed.
  pub get_wallet-shared :
      (key : ℕ) (keys : List ℕ) (max_signers utility : Option ℕ) (w : ℕ)
      → IsUncapped max_signers (key ∷ keys)
      → any (λ v. v == key) keys ≡ false
      → (get_wallet sem (new_sender_manager sem (key ∷ keys) max_signers utility)).0 ≡ wallet w
      → let taken = get_wallet sem (new_sender_manager sem (key ∷ keys) max_signers utility) in
        (w ≡ key)
        × (taken.1.wallets ≡ keys)
        × ((mark_wallet_processed sem w taken.1).wallets ≡ keys ++ key ∷ [])
  get_wallet-shared key keys max_signers utility w u n =
      rw (new_sender_manager-shared max_signers utility (key ∷ keys) u)
        (take_and_give_back key keys utility w n)
