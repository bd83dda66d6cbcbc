-- ===== src/ExecutorManager/Status/Details.antt =====
-- What the logs of a receipt say of one operation, read directly.
use pimlico_alto_smart_accou.Common.{
  ℕ, ◌≡◌, refl, sym, ap, ◌∙◌, Bool, true, false, ◌||◌, Option, none, some, List, [], ◌∷◌, ◌==◌, any,
  get?, get?-put, ==_iff, get_or_else, Dict, if◌then◌else◌, Bool-cases, inl, inr,
}
use pimlico_alto_smart_accou.UserOp.{Hex}
use pimlico_alto_smart_accou.ExecutorManager.Status.{
  OpOutcome, successful, calldata_phase_reverted, UserOperationDetails, LogEvent, account_deployed,
  user_operation_revert_reason, user_operation_event, other_event, undecodable, Log, update_details,
  read_event, read_logs,
}
use pimlico_alto_smart_accou.ExecutorManager.Status.Reading.{
  deploys, details_of, events_of, is_about, last_outcome, last_reason, outcome_by, reason_by,
}

abbrev fresh : UserOperationDetails
fresh = record { account_deployed = false; status = successful; revert_reason = none }

abbrev seen_by : ℕ → UserOperationDetails → LogEvent → UserOperationDetails
seen_by h d e = record {
  account_deployed = d.account_deployed || deploys h e;
  status = outcome_by h d.status e;
  revert_reason = reason_by h d.revert_reason e;
}

-- One event, seen from one operation.
abbrev see : ℕ → Option UserOperationDetails → LogEvent → Option UserOperationDetails
see h o e = if is_about h e then some (seen_by h (get_or_else o fresh) e) else o

get-update :
    (h k : ℕ) (r : Dict UserOperationDetails) (f : UserOperationDetails → UserOperationDetails)
    → get? (update_details r k f) h
      ≡ (if k == h then some (f (get_or_else (get? r h) fresh)) else get? r h)
get-update h k r f =
    get?-put r k h (f (get_or_else (get? r k) fresh)) ∙ at_key (k == h) (λ e. (==_iff k h).0 e)
  where
    at_key :
        (b : Bool)
        → (b ≡ true → k ≡ h)
        → (if b then some (f (get_or_else (get? r k) fresh)) else get? r h)
          ≡ (if b then some (f (get_or_else (get? r h) fresh)) else get? r h)
    at_key true same = ap (λ j. some (f (get_or_else (get? r j) fresh))) (same refl)
    at_key false same = refl

if-agree :
    (b : Bool) (x y : UserOperationDetails) (o : Option UserOperationDetails)
    → (b ≡ true → x ≡ y)
    → (if b then some x else o) ≡ (if b then some y else o)
if-agree true x y o h = ap (λ d. some d) (h refl)
if-agree false x y o h = refl

if-true {ℓ} : {A : Type ℓ} (b : Bool) (x y : A) → b ≡ true → (if b then x else y) ≡ x
if-true true x y h = refl
if-true false x y h = cc

or-true : (b c : Bool) → c ≡ true → true ≡ b || c
or-true true c h = refl
or-true false c h = sym h

or-false : (b : Bool) → b ≡ b || false
or-false true = refl
or-false false = refl

same_details :
    (b c : Bool) (s t : OpOutcome) (r q : Option Hex)
    → b ≡ c
    → s ≡ t
    → r ≡ q
    → Path UserOperationDetails
        (record { account_deployed = b; status = s; revert_reason = r })
        (record { account_deployed = c; status = t; revert_reason = q })
same_details b c s t r q h k l = cc

read_event-see :
    (h : ℕ) (r : Dict UserOperationDetails) (e : LogEvent)
    → get? (read_event r e) h ≡ see h (get? r h) e
unfolding read_event
read_event-see h r (account_deployed k) =
    get-update h k r (λ d. record d { account_deployed = true })
    ∙ if-agree (k == h) _ _ (get? r h) (λ e.
      same_details _ _ _ _ _ _ (or-true (get_or_else (get? r h) fresh).account_deployed (k == h) e)
        refl refl)
read_event-see h r (user_operation_revert_reason k reason) =
    get-update h k r (λ d. record d { revert_reason = some reason })
    ∙ if-agree (k == h) _ _ (get? r h) (λ e.
      same_details _ _ _ _ _ _ (or-false (get_or_else (get? r h) fresh).account_deployed) refl
        (sym (if-true (k == h) (some reason) _ e)))
read_event-see h r (user_operation_event k success) =
    get-update h k r
      (λ d. record d { status = if success then successful else calldata_phase_reverted })
    ∙ if-agree (k == h) _ _ (get? r h) (λ e.
      same_details _ _ _ _ _ _ (or-false (get_or_else (get? r h) fresh).account_deployed)
        (sym (if-true (k == h) (if success then successful else calldata_phase_reverted) _ e)) refl)
read_event-see h r other_event = refl
read_event-see h r undecodable = refl

-- Events seen one after the other.
abbrev see_all : ℕ → Option UserOperationDetails → List LogEvent → Option UserOperationDetails
see_all h o [] = o
see_all h o (e ∷ es) = see_all h (see h o e) es

read_logs-see :
    (entry_point h : ℕ) (r : Dict UserOperationDetails) (logs : List Log)
    → get? (read_logs entry_point r logs) h ≡ see_all h (get? r h) (events_of entry_point logs)
unfolding read_logs
read_logs-see entry_point h r [] = refl
read_logs-see entry_point h r (log ∷ logs) =
    by_address (log.address == entry_point)
      (read_logs-see entry_point h (read_event r log.event) logs)
      (read_logs-see entry_point h r logs)
  where
    by_address :
        (b : Bool)
        → get? (read_logs entry_point (read_event r log.event) logs) h
          ≡ see_all h (get? (read_event r log.event) h) (events_of entry_point logs)
        → get? (read_logs entry_point r logs) h ≡ see_all h (get? r h) (events_of entry_point logs)
        → get? (read_logs entry_point (if b then read_event r log.event else r) logs) h
          ≡ see_all h
              (get? r h)
              (if b then log.event ∷ events_of entry_point logs else events_of entry_point logs)
    by_address true k l =
        k ∙ ap (λ o. see_all h o (events_of entry_point logs)) (read_event-see h r log.event)
    by_address false k l = l

abbrev with_reason : Bool → UserOperationDetails → Hex → UserOperationDetails
with_reason b d reason = record d {
  account_deployed = d.account_deployed || false;
  revert_reason = if b then some reason else d.revert_reason;
}

abbrev with_outcome : Bool → UserOperationDetails → Bool → UserOperationDetails
with_outcome b d success = record d {
  account_deployed = d.account_deployed || false;
  status = if b then (if success then successful else calldata_phase_reverted) else d.status;
}

-- An event that is not about the operation changes nothing.
see-some :
    (h : ℕ) (d : UserOperationDetails) (e : LogEvent) → see h (some d) e ≡ some (seen_by h d e)
see-some h d (account_deployed k) = by_key (k == h)
  where
    by_key :
        (b : Bool)
        → (if b then some (record d { account_deployed = d.account_deployed || b }) else some d)
          ≡ some (record d { account_deployed = d.account_deployed || b })
    by_key true = refl
    by_key false = ap (λ c. some (record d { account_deployed = c })) (or-false d.account_deployed)
see-some h d (user_operation_revert_reason k reason) = by_key (k == h)
  where
    by_key :
        (b : Bool)
        → (if b then some (with_reason b d reason) else some d) ≡ some (with_reason b d reason)
    by_key true = refl
    by_key false = ap (λ c. some (record d { account_deployed = c })) (or-false d.account_deployed)
see-some h d (user_operation_event k success) = by_key (k == h)
  where
    by_key :
        (b : Bool)
        → (if b then some (with_outcome b d success) else some d) ≡ some (with_outcome b d success)
    by_key true = refl
    by_key false = ap (λ c. some (record d { account_deployed = c })) (or-false d.account_deployed)
see-some h d other_event =
    ap (λ c. some (record d { account_deployed = c })) (or-false d.account_deployed)
see-some h d undecodable =
    ap (λ c. some (record d { account_deployed = c })) (or-false d.account_deployed)

or_assoc : (a b c : Bool) → (a || b) || c ≡ a || (b || c)
or_assoc true b c = refl
or_assoc false b c = refl

-- From details that are there, the events add to them.
see_all-some :
    (h : ℕ) (d : UserOperationDetails) (es : List LogEvent)
    → see_all h (some d) es
      ≡ some (record {
        account_deployed = d.account_deployed || any (deploys h) es;
        status = last_outcome h d.status es;
        revert_reason = last_reason h d.revert_reason es;
      })
see_all-some h d [] =
    ap (λ c. some (record d { account_deployed = c })) (or-false d.account_deployed)
see_all-some h d (e ∷ es) =
    ap (λ o. see_all h o es) (see-some h d e)
    ∙ see_all-some h (seen_by h d e) es
    ∙ ap
        (λ c. some (record {
          account_deployed = c;
          status = last_outcome h (outcome_by h d.status e) es;
          revert_reason = last_reason h (reason_by h d.revert_reason e) es;
        }))
        (or_assoc d.account_deployed (deploys h e) (any (deploys h) es))

if-false {ℓ} : {A : Type ℓ} (b : Bool) (x y : A) → b ≡ false → (if b then x else y) ≡ y
if-false true x y h = cc
if-false false x y h = refl

deploys_quiet : (h : ℕ) (e : LogEvent) → is_about h e ≡ false → deploys h e ≡ false
deploys_quiet h (account_deployed k) q = q
deploys_quiet h (user_operation_revert_reason k reason) q = refl
deploys_quiet h (user_operation_event k success) q = refl
deploys_quiet h other_event q = refl
deploys_quiet h undecodable q = refl

outcome_quiet : (h : ℕ) (o : OpOutcome) (e : LogEvent) → is_about h e ≡ false → outcome_by h o e ≡ o
outcome_quiet h o (account_deployed k) q = refl
outcome_quiet h o (user_operation_revert_reason k reason) q = refl
outcome_quiet h o (user_operation_event k success) q = if-false (k == h) _ o q
outcome_quiet h o other_event q = refl
outcome_quiet h o undecodable q = refl

reason_quiet : (h : ℕ) (o : Option Hex) (e : LogEvent) → is_about h e ≡ false → reason_by h o e ≡ o
reason_quiet h o (account_deployed k) q = refl
reason_quiet h o (user_operation_revert_reason k reason) q = if-false (k == h) _ o q
reason_quiet h o (user_operation_event k success) q = refl
reason_quiet h o other_event q = refl
reason_quiet h o undecodable q = refl

see_all-none : (h : ℕ) (es : List LogEvent) → see_all h none es ≡ details_of h es
see_all-none h [] = refl
see_all-none h (e ∷ es) = elim (Bool-cases (is_about h e)) [
  | inl q ↦ rw q (see_all-some h (seen_by h fresh e) es)
  | inr q ↦
      rw (q, deploys_quiet h e q, outcome_quiet h successful e q, reason_quiet h none e q)
        (see_all-none h es)
]

-- The details that `getBundleStatus` gives for an operation are the ones that the events of the
-- entry point about this operation give, whatever else the receipt has: none without such an event,
-- and otherwise whether one deploys the account, the last outcome, and the last reason.
pub read_logs-details_of :
    (entry_point h : ℕ) (logs : List Log)
    → get? (read_logs entry_point [] logs) h ≡ details_of h (events_of entry_point logs)
unfolding get?
read_logs-details_of entry_point h logs =
    read_logs-see entry_point h [] logs ∙ see_all-none h (events_of entry_point logs)
