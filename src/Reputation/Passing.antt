-- ===== src/Reputation/Passing.antt =====
-- What each single check of src/mempool/reputationManager.ts lets through.
use mathlib.Core.Path.{subst}
use pimlico_alto_smart_accou.Common.{
  ℕ, ◌<◌, ◌≤◌, ◌≡◌, ◌≢◌, ◌⊎◌, inl, inr, refl, sym, ap, ◌∙◌, true, false, Bool-cases, Option,
  Option-cases, none, some, ltb, get?, if◌then◌else◌, arith,
}
use pimlico_alto_smart_accou.Reputation.{
  EntityType, ReputationStatus, banned, throttled, ok, StakeInfo, ReputationManager, bind-returned,
  return, returned, M, ◌>>◌, get_status,
}
use pimlico_alto_smart_accou.Reputation.Checks.{
  cal_culate_max_mempool_user_operations_per_entity, unless_banned, unless_throttled, count_of,
  is_white_listed, check_banned, check_throttled, check_stake_amounts, check_stake, entry_of,
  allowed,
}
use pimlico_alto_smart_accou.Reputation.Asking.{Asked, get_status-Asked, bind-inverse}

pub unless_banned_lem :
    (kind : EntityType) (address : Option ℕ) (status : ReputationStatus) (r : ReputationManager)
    → ((unless_banned kind address status r).1 ≡ r)
      × ((unless_banned kind address status r).0 ≡ returned tt → status ≢ banned)
unless_banned_lem kind address banned r = (refl, λ h. cc)
unless_banned_lem kind address throttled r = (refl, λ h. λ k. cc)
unless_banned_lem kind address ok r = (refl, λ h. λ k. cc)

pub unless_throttled_lem :
    (kind : EntityType) (address : Option ℕ) (status : ReputationStatus) (r : ReputationManager)
    → ((unless_throttled kind address status r).1 ≡ r)
      × ((unless_throttled kind address status r).0 ≡ returned tt → status ≢ throttled)
unless_throttled_lem kind address throttled r = (refl, λ h. cc)
unless_throttled_lem kind address banned r = (refl, λ h. λ k. cc)
unless_throttled_lem kind address ok r = (refl, λ h. λ k. cc)

pub check_banned-passes :
    (ep : ℕ) (kind : EntityType) (info : StakeInfo) (r : ReputationManager)
    → (check_banned ep kind info r).0 ≡ returned tt
    → ((status : ReputationStatus) × ((get_status ep info.addr r).0 ≡ returned status)
        × (status ≢ banned))
      × Asked ep info.addr r ((check_banned ep kind info r).1)
unfolding check_banned
check_banned-passes ep kind info r h =
    let (s, is_s, rest) =
      bind-inverse (get_status ep info.addr) (unless_banned kind info.addr) r tt h in
    let lem : _ = unless_banned_lem kind info.addr s ((get_status ep info.addr r).1) in
    (
      (s, is_s, lem.1 rest),
      rw (bind-returned (get_status ep info.addr) (unless_banned kind info.addr) r s is_s, lem.0)
          (get_status-Asked ep info.addr r),
    )

pub check_throttled-passes :
    (ep : ℕ) (kind : EntityType) (info : StakeInfo) (r : ReputationManager)
    → (check_throttled ep kind info r).0 ≡ returned tt
    → ((status : ReputationStatus) × ((get_status ep info.addr r).0 ≡ returned status)
        × (status ≢ throttled))
      × Asked ep info.addr r ((check_throttled ep kind info r).1)
unfolding check_throttled
check_throttled-passes ep kind info r h =
    let (s, is_s, rest) =
      bind-inverse (get_status ep info.addr) (unless_throttled kind info.addr) r tt h in
    let lem : _ = unless_throttled_lem kind info.addr s ((get_status ep info.addr r).1) in
    (
      (s, is_s, lem.1 rest),
      rw (bind-returned (get_status ep info.addr) (unless_throttled kind info.addr) r s is_s, lem.0)
          (get_status-Asked ep info.addr r),
    )

-- The entity is on the whitelist or has the stake and the unstake delay asked for.
abbrev pub IsStaked : StakeInfo → ReputationManager → Type 0
IsStaked info r =
    (is_white_listed r info.addr ≡ true)
    ⊎ ((r.min_entity_stake ≤ info.stake) × (r.min_entity_unstake_delay ≤ info.unstake_delay_sec))

pub IsStaked-Asked :
    (ep : ℕ) (a : Option ℕ) (info : StakeInfo) (r r' : ReputationManager)
    → Asked ep a r r'
    → IsStaked info r'
    → IsStaked info r
IsStaked-Asked ep a info r r' k s = subst (IsStaked info) k.kept s

pub check_stake_amounts-passes :
    (kind : EntityType) (info : StakeInfo) (r : ReputationManager)
    → (check_stake_amounts kind info r).0 ≡ returned tt
    → IsStaked info r
unfolding check_stake_amounts
check_stake_amounts-passes kind info r h = inr (ground arith, ground arith)

pub not_white :
    (ep : ℕ) (kind : EntityType) (info : StakeInfo) (r : ReputationManager)
    → is_white_listed r info.addr ≡ false
    → check_stake ep kind info r ≡ (check_banned ep kind info >> check_stake_amounts kind info) r
unfolding check_stake
not_white ep kind info r w = rw w refl

pub check_stake-passes :
    (ep : ℕ) (kind : EntityType) (info : StakeInfo) (r : ReputationManager)
    → (check_stake ep kind info r).0 ≡ returned tt
    → IsStaked info r
check_stake-passes ep kind info r h = elim (Bool-cases (is_white_listed r info.addr)) [
  | inl w ↦ inl w
  | inr w ↦
      let (_, fine, rest) =
        bind-inverse (check_banned ep kind info) (λ _. check_stake_amounts kind info) r tt
          (sym (ap (λ p. p.0) (not_white ep kind info r w)) ∙ h) in
      IsStaked-Asked ep info.addr info r ((check_banned ep kind info r).1)
        ((check_banned-passes ep kind info r fine).1)
        (check_stake_amounts-passes kind info ((check_banned ep kind info r).1) rest)
]

pub not_less : (a b : ℕ) → ltb a b ≡ false → ¬ (a < b)
not_less a b e l = ground arith

-- The conditional steps of `checkReputationStatus`.
abbrev pub throttle_step : ℕ → EntityType → StakeInfo → M (Unit {0})
throttle_step ep kind info r =
    (if ltb r.throttled_entity_min_mempool_count (count_of r info.addr)
        then check_throttled ep kind info
        else return tt)
      r

pub throttle_step-passes :
    (ep : ℕ) (kind : EntityType) (info : StakeInfo) (r : ReputationManager)
    → (throttle_step ep kind info r).0 ≡ returned tt
    → (r.throttled_entity_min_mempool_count < count_of r info.addr
        → (status : ReputationStatus) × ((get_status ep info.addr r).0 ≡ returned status)
          × (status ≢ throttled))
      × Asked ep info.addr r ((throttle_step ep kind info r).1)
throttle_step-passes ep kind info r =
    elim (Bool-cases (ltb r.throttled_entity_min_mempool_count (count_of r info.addr))) [
      | inl e ↦ rw e (λ h.
          let (passed, asked) = check_throttled-passes ep kind info r h in (λ l. passed, asked))
      | inr e ↦ rw e (λ h. (
        λ l. elim (not_less r.throttled_entity_min_mempool_count (count_of r info.addr) e l) [ ],
        record { kept = refl; again = refl },
      ))
    ]

pub allowed-state :
    (ep : ℕ) (info : StakeInfo) (override : Option ℕ) (r : ReputationManager)
    → (allowed ep info override r).1 ≡ r
unfolding cal_culate_max_mempool_user_operations_per_entity
allowed-state ep info (some n) r = refl
allowed-state ep info none r = elim (Option-cases (get? r.entries ep)) [
  | inl e ↦ rw (e, cal_culate_max_mempool_user_operations_per_entity) refl
  | inr (es, e) ↦ elim (Option-cases (entry_of es info.addr)) [
    | inl k ↦ rw (e, k, cal_culate_max_mempool_user_operations_per_entity) refl
    | inr (x, k) ↦ rw (e, k, cal_culate_max_mempool_user_operations_per_entity) refl
  ]
]

unfoldable pub stake_step : ℕ → EntityType → StakeInfo → ℕ → M (Unit {0})
stake_step ep kind info max r =
    (if ltb max (count_of r info.addr) then check_stake ep kind info else return tt) r

pub stake_step-passes :
    (ep : ℕ) (kind : EntityType) (info : StakeInfo) (max : ℕ) (r : ReputationManager)
    → (stake_step ep kind info max r).0 ≡ returned tt
    → max < count_of r info.addr
    → IsStaked info r
unfolding stake_step
stake_step-passes ep kind info max r = elim (Bool-cases (ltb max (count_of r info.addr))) [
  | inl e ↦ rw e (λ h l. check_stake-passes ep kind info r h)
  | inr e ↦ λ h l. elim (not_less max (count_of r info.addr) e l) [ ]
]
