-- ===== src/Mempool/Skipping/Cases.antt =====
-- The ways through `shouldSkip` of src/mempool/mempool.ts.
use pimlico_alto_smart_accou.Common.{
  ℕ, ◌≡◌, refl, false, not, ◌&&◌, ◌||◌, Option, none, some, get?, Bool-cases, Option-cases, inl,
  inr, arith,
}
use pimlico_alto_smart_accou.UserOp.{sender, paymaster_of, factory_of}
use pimlico_alto_smart_accou.Store.{UserOperationInfo}
use pimlico_alto_smart_accou.Reputation.{ReputationStatus, Outcome, returned, thrown}
use pimlico_alto_smart_accou.Mempool.{Mempool, op_of, member}
use pimlico_alto_smart_accou.Mempool.Skipping.{
  ValidationResult, Outside, Bundle, skip, take, failed, Step, accept, charge, charge_paymaster,
  validate_and_charge, screen, should_skip, revalidate, entity_statuses, is_banned_status,
  has_its_share, touches_known_sender,
}

-- The deposit of a paymaster before the charge: what the bundle notes of it, or else what the entry
-- point answers.
abbrev or_answer : Option ℕ → Option ℕ → Option ℕ
or_answer none answer = answer
or_answer (some deposit) answer = some deposit

abbrev pub deposit_before : Outside → UserOperationInfo → ℕ → Bundle → Mempool → Option ℕ
deposit_before out info a b m =
    or_answer (get? b.paymaster_deposit a) (out.balance_of info.entry_point a m).0

module _ {ℓ} (P : Step → Type ℓ) (out : Outside) (info : UserOperationInfo) (b : Bundle) where
  pub charge_paymaster_cases :
      (p : Option ℕ) (prefund : ℕ) (m : Mempool)
      → (p ≡ none → P (accept out.viem (op_of info) b m))
      → ((m' : Mempool) → P (failed, b, m'))
      → ((a deposit : ℕ) (m' : Mempool)
          → p ≡ some a
          → deposit_before out info a b m ≡ some deposit
          → P (charge out.viem (op_of info) a deposit prefund b m'))
      → P (charge_paymaster out info p prefund b m)
  unfolding charge_paymaster
  charge_paymaster_cases none prefund m free fails pays = free refl
  charge_paymaster_cases (some a) prefund m free fails pays =
      elim (Option-cases (get? b.paymaster_deposit a)) [
        | inr (deposit, e) ↦ rw (e, charge_paymaster) (pays a deposit m refl (rw e refl))
        | inl e ↦ rw (e, charge_paymaster) (read e (out.balance_of info.entry_point a m).0 refl)
      ]
    where
      m' : Mempool
      m' = (out.balance_of info.entry_point a m).1

      read :
          get? b.paymaster_deposit a ≡ none
          → (answer : Option ℕ) → (out.balance_of info.entry_point a m).0 ≡ answer
          → P (elim answer as (λ _. Step) [
            | none ↦ (failed, b, m')
            | some deposit ↦ charge out.viem (op_of info) a deposit prefund b m'
          ])
      read e none f = fails m'
      read e (some deposit) f = pays a deposit m' refl (rw (e) f)

  validate_and_charge_cases :
      (m : Mempool)
      → ((m' : Mempool) → P (skip, b, m'))
      → ((v : ValidationResult)
          → (revalidate out info (op_of info) m).0 ≡ some v
          → touches_known_sender (op_of info) b.known_entities v.storage_addresses ≡ false
          → P (
              charge_paymaster out info
                (paymaster_of out.viem.bytes.get_address (op_of info))
                v.prefund
                b
                (revalidate out info (op_of info) m).1))
      → P (validate_and_charge out info b m)
  unfolding validate_and_charge
  validate_and_charge_cases m skips charges =
      elim (Option-cases (revalidate out info (op_of info) m).0) [
        | inl e ↦ rw (e, validate_and_charge) (skips _)
        | inr (v, e) ↦
            elim (Bool-cases
              (touches_known_sender (op_of info) b.known_entities v.storage_addresses)) [
                | inl t ↦ rw (e, validate_and_charge) (rw t (skips _))
                | inr t ↦ rw (e, validate_and_charge) (rw t (charges v e t))
              ]
      ]

-- What the tests before the second validation have let pass.
pub record Passed (out : Outside) (info : UserOperationInfo) (b : Bundle) (m : Mempool)
    (p_status f_status : ReputationStatus) : Type 0 where
  pub not_banned : (is_banned_status p_status || is_banned_status f_status) ≡ false
  pub paymaster_share :
      has_its_share p_status (paymaster_of out.viem.bytes.get_address (op_of info)) b m ≡ false
  pub factory_share :
      has_its_share f_status (factory_of out.viem.bytes.get_address (op_of info)) b m ≡ false
  pub new_sender :
      (member (sender (op_of info)) b.senders && m.config.enforce_unique_senders_per_bundle) ≡ false

module _ {ℓ} (P : Step → Type ℓ) (out : Outside) (info : UserOperationInfo) (b : Bundle) where
  screen_cases :
      (p_status f_status : ReputationStatus) (m : Mempool)
      → ((m' : Mempool) → P (skip, b, m'))
      → (Passed out info b m p_status f_status → P (validate_and_charge out info b m))
      → P (screen out info p_status f_status b m)
  unfolding screen
  screen_cases p f m skips passes = elim (Bool-cases (is_banned_status p || is_banned_status f)) [
    | inl t ↦ rw (t, screen) (skips _)
    | inr t₁ ↦
        elim (Bool-cases
          (has_its_share p (paymaster_of out.viem.bytes.get_address (op_of info)) b m)) [
            | inl t ↦ rw (t₁, t, screen) (skips _)
            | inr t₂ ↦
                elim (Bool-cases
                  (has_its_share f (factory_of out.viem.bytes.get_address (op_of info)) b m)) [
                    | inl t ↦ rw (t₁, t₂, t, screen) (skips _)
                    | inr t₃ ↦
                        elim (Bool-cases (
                          member (sender (op_of info)) b.senders
                          && m.config.enforce_unique_senders_per_bundle)) [
                            | inl t ↦ rw (t₁, t₂, t₃, t, screen) (skips _)
                            | inr t₄ ↦
                                rw (t₁, t₂, t₃, t₄, screen)
                                  (passes (record {
                                    not_banned = t₁;
                                    paymaster_share = t₂;
                                    factory_share = t₃;
                                    new_sender = t₄;
                                  }))
                          ]
                  ]
          ]
  ]

-- Every way through `shouldSkip`: no checks outside safe mode, an exception, a skip that leaves the
-- bundle, and the charge of the paymaster after all the tests.
pub should_skip_cases {ℓ} :
    (P : Step → Type ℓ) (out : Outside) (info : UserOperationInfo) (b : Bundle) (m : Mempool)
    → (m.config.safe_mode ≡ false → P (take, b, m))
    → ((m' : Mempool) → P (failed, b, m'))
    → ((m' : Mempool) → P (skip, b, m'))
    → ((p f : ReputationStatus) (v : ValidationResult)
        → (entity_statuses out.viem info m).0 ≡ returned (p, f)
        → Passed out info b (entity_statuses out.viem info m).1 p f
        → (revalidate out info (op_of info) (entity_statuses out.viem info m).1).0 ≡ some v
        → touches_known_sender (op_of info) b.known_entities v.storage_addresses ≡ false
        → P (
            charge_paymaster out info
              (paymaster_of out.viem.bytes.get_address (op_of info))
              v.prefund
              b
              (revalidate out info (op_of info) (entity_statuses out.viem info m).1).1))
    → P (should_skip out info b m)
unfolding should_skip
should_skip_cases P out info b m unsafe fails skips charges =
    elim (Bool-cases (not m.config.safe_mode)) [
      | inl e ↦ rw (e, should_skip) (unsafe (ground arith))
      | inr e ↦ rw (e, should_skip) (go (entity_statuses out.viem info m).0 refl)
    ]
  where
    m' : Mempool
    m' = (entity_statuses out.viem info m).1

    go :
        (o : Outcome (ReputationStatus × ReputationStatus))
        → (entity_statuses out.viem info m).0 ≡ o
        → P (elim o as (λ _. Step) [
          | thrown e ↦ (failed, b, m')
          | returned (p_status, f_status) ↦ screen out info p_status f_status b m'
        ])
    go (thrown x) e = fails m'
    go (returned (p, f)) e =
        screen_cases P out info b p f m' skips
          (λ passed. validate_and_charge_cases P out info b m' skips (λ v. charges p f v e passed))
