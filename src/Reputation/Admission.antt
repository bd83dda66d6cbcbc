-- ===== src/Reputation/Admission.antt =====
-- What the admission checks of src/mempool/reputationManager.ts let through together.
use mathlib.Core.Path.{subst}
use pimlico_alto_smart_accou.Common.{ℕ, ◌<◌, ◌≡◌, ◌≢◌, refl, sym, ap, ◌∙◌, Option, none, some, Dict}
use pimlico_alto_smart_accou.Reputation.{
  EntityType, ReputationStatus, banned, throttled, StakeInfo, ReputationManager, ReputationEntry,
  returned, M, ◌>>=◌, get_status,
}
use pimlico_alto_smart_accou.Reputation.Checks.{
  count_of, check_banned, allowed, check_reputation_status, get_entity_count,
}
use pimlico_alto_smart_accou.Reputation.Asking.{
  Asked, Asked-trans, bind-inverse, returned-injective,
}
use pimlico_alto_smart_accou.Reputation.Passing.{
  IsStaked, IsStaked-Asked, check_banned-passes, throttle_step, throttle_step-passes, allowed-state,
  stake_step, stake_step-passes,
}

-- What an entity has passed: it is not banned; above the throttling count it is not throttled; and
-- above the count allowed to it, it is staked or on the whitelist.
pub record Admitted (ep : ℕ) (info : StakeInfo) (override : Option ℕ) (r : ReputationManager)
    : Type 0 where
  pub status : ReputationStatus
  pub max_allowed : ℕ
  pub is_status : (get_status ep info.addr r).0 ≡ returned status
  pub is_max : (allowed ep info override r).0 ≡ returned max_allowed
  pub not_banned : status ≢ banned
  pub not_throttled :
      r.throttled_entity_min_mempool_count < count_of r info.addr → status ≢ throttled
  pub staked : max_allowed < count_of r info.addr → IsStaked info r

count_of-Asked :
    (ep : ℕ) (a : Option ℕ) (r r' : ReputationManager) (x : Option ℕ)
    → Asked ep a r r'
    → count_of r' x ≡ count_of r x
unfolding get_entity_count
count_of-Asked ep a r r' x k = ap (λ y. count_of y x) k.kept ∙ entries_apart r'.entries x
  where
    entries_apart :
        (es : Dict (Dict ReputationEntry)) (x : Option ℕ)
        → count_of (record r { entries = es }) x ≡ count_of r x
    entries_apart es none = refl
    entries_apart es (some b) = refl

-- The checks once the allowed count is known.
after_throttle : ℕ → EntityType → StakeInfo → ℕ → M (Unit {0})
after_throttle ep kind info max = throttle_step ep kind info >>= λ _. stake_step ep kind info max

after_count : ℕ → EntityType → StakeInfo → ℕ → M (Unit {0})
after_count ep kind info max = check_banned ep kind info >>= λ _. after_throttle ep kind info max

status_steps :
    (ep : ℕ) (kind : EntityType) (info : StakeInfo) (override : Option ℕ) (r : ReputationManager)
    → check_reputation_status ep kind info override r
      ≡ (allowed ep info override >>= after_count ep kind info) r
unfolding check_reputation_status after_count after_throttle stake_step
status_steps ep kind info override r = refl

module _ (ep : ℕ) (kind : EntityType) (info : StakeInfo) (max : ℕ) (r : ReputationManager)
    (h : (after_count ep kind info max r).0 ≡ returned tt) where
  -- The steps taken apart, with what each of them has let through.
  after_count-passes :
      ((status : ReputationStatus) × ((get_status ep info.addr r).0 ≡ returned status)
        × (status ≢ banned)
        × (r.throttled_entity_min_mempool_count < count_of r info.addr → status ≢ throttled))
      × (max < count_of r info.addr → IsStaked info r)
  unfolding after_count after_throttle
  after_count-passes =
      let (_, fine, rest) =
        bind-inverse (check_banned ep kind info) (λ _. after_throttle ep kind info max) r tt h in
      let r1 : ReputationManager = (check_banned ep kind info r).1 in
      let ((s, is_s, free), asked) = check_banned-passes ep kind info r fine in
      let (_, calm, last) =
        bind-inverse (throttle_step ep kind info) (λ _. stake_step ep kind info max) r1 tt rest in
      let r2 : ReputationManager = (throttle_step ep kind info r1).1 in
      let (throttle, asked2) = throttle_step-passes ep kind info r1 calm in
      let least : r1.throttled_entity_min_mempool_count ≡ r.throttled_entity_min_mempool_count =
        ap (λ x. x.throttled_entity_min_mempool_count) asked.kept in
      let both : Asked ep info.addr r r2 = Asked-trans ep info.addr r r1 r2 asked asked2 in
      (
        (
          s,
          is_s,
          free,
          λ l t.
              let (s', is_s', other) =
                throttle (rw (count_of-Asked ep info.addr r r1 info.addr asked, least) l) in
              let same : returned s' ≡ returned s = sym is_s' ∙ asked.again ∙ is_s in
              other (returned-injective s' s same ∙ t),
        ),
        λ l. IsStaked-Asked ep info.addr info r r2 both (
            stake_step-passes ep kind info max r2 last
              (rw (count_of-Asked ep info.addr r r2 info.addr both) l)),
      )

-- Every entity that `checkReputationStatus` lets through is `Admitted`: it is not banned, it is not
-- throttled above the throttling count, and above the count allowed to it, it is on the whitelist or
-- has the stake and the unstake delay asked for.
pub check_reputation_status-Admitted :
    (ep : ℕ) (kind : EntityType) (info : StakeInfo) (override : Option ℕ) (r : ReputationManager)
    → (check_reputation_status ep kind info override r).0 ≡ returned tt
    → Admitted ep info override r
check_reputation_status-Admitted ep kind info override r h =
    let (max, is_max, rest) =
      bind-inverse (allowed ep info override) (after_count ep kind info) r tt
        (sym (ap (λ p. p.0) (status_steps ep kind info override r)) ∙ h) in
    let ((s, is_s, free, calm), stake) = after_count-passes ep kind info max r (
      subst (λ x. (after_count ep kind info max x).0 ≡ returned tt)
        (allowed-state ep info override r) rest) in
    record {
      status = s;
      max_allowed = max;
      is_status = is_s;
      is_max = is_max;
      not_banned = free;
      not_throttled = calm;
      staked = stake;
    }
