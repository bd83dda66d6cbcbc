-- ===== src/Reputation/Standing.antt =====
-- How the record of an entity moves its status (src/mempool/reputationManager.ts).
use mathlib.Core.Path.{subst}
use pimlico_alto_smart_accou.Common.{
  List, [], ◌∷◌, ℕ, zero, suc, ◌+◌, ◌≤◌, ◌<◌, ◌/◌, ◌≡◌, refl, ◌∙◌, ap, false, Option, none, some,
  arith, get_or_else, Dict, get?, put, get?-put,
}
use pimlico_alto_smart_accou.Reputation.{
  ReputationManager, ReputationEntry, ReputationStatus, ok, throttled, banned, returned, M, ◌>>◌,
  bind-returned, return, fresh_entry, update_entry, increase_seen, update_included_status,
  update_crashed_handle_ops, has, status_by_numbers, get_status_of, bundler_reputation_params,
}

-- The manager has this entry, or none, for the entity, which is on neither list.
pub record Holds (r : ReputationManager) (entry_point a : ℕ) (e : Option ReputationEntry)
    : Type 0 where
  pub es : Dict ReputationEntry
  pub found : get? r.entries entry_point ≡ some es
  pub entry : get? es a ≡ e
  pub not_white : has r.whitelist a ≡ false
  pub not_black : has r.black_list a ≡ false
  pub params : r.params ≡ bundler_reputation_params

-- A method, repeated.
abbrev pub times : ℕ → M (Unit {0}) → M (Unit {0})
times zero m = return tt
times (suc n) m = m >> times n m

-- A function, repeated.
abbrev iterate {ℓ} : {A : Type ℓ} → ℕ → (A → A) → A → A
iterate zero f a = a
iterate (suc n) f a = iterate n f (f a)

update_entry-Holds :
    (r : ReputationManager) (ep a : ℕ) (e : Option ReputationEntry)
    (f : ReputationEntry → ReputationEntry)
    → Holds r ep a e
    → ((update_entry ep a f r).0 ≡ returned tt)
      × Holds (update_entry ep a f r).1 ep a (some (f (get_or_else e (fresh_entry a))))
unfolding update_entry
update_entry-Holds r ep a e f h =
    rw (h.found, update_entry)
      (
        refl,
        record {
          es = put h.es a (f (get_or_else (get? h.es a) (fresh_entry a)));
          found = ground (
            arith,
            get?-put r.entries ep ep (put h.es a (f (get_or_else (get? h.es a) (fresh_entry a)))),
          );
          entry =
              ground
                (arith, h.entry, get?-put h.es a a (f (get_or_else (get? h.es a) (fresh_entry a))));
          not_white = h.not_white;
          not_black = h.not_black;
          params = h.params;
        },
      )

status_of : Option ReputationEntry → ReputationStatus
status_of none = ok
status_of (some e) = status_by_numbers bundler_reputation_params e

-- The answer of `getStatus` for an entity with this record.
get_status_of-Holds :
    (r : ReputationManager) (ep a : ℕ) (e : Option ReputationEntry)
    → Holds r ep a e
    → (get_status_of ep a r).0 ≡ returned (status_of e)
unfolding get_status_of status_of
get_status_of-Holds r ep a none h = rw (h.not_white, h.not_black, h.found, h.entry, get_status_of)
get_status_of-Holds r ep a (some e) h =
    rw (h.not_white, h.not_black, h.found, h.entry, h.params, get_status_of)

-- Repeating a method that takes the record from one value to the next.
times-Holds :
    (ep a : ℕ) (m : M (Unit {0})) (next : Option ReputationEntry → Option ReputationEntry)
    → ((r : ReputationManager) (e : Option ReputationEntry)
        → Holds r ep a e
        → ((m r).0 ≡ returned tt) × Holds (m r).1 ep a (next e))
    → (n : ℕ) (r : ReputationManager) (e : Option ReputationEntry) → Holds r ep a e
    → ((times n m r).0 ≡ returned tt) × Holds (times n m r).1 ep a (iterate n next e)
times-Holds ep a m next step zero r e h = (refl, h)
times-Holds ep a m next step (suc n) r e h =
    let (done, h') = step r e h in
    rw (bind-returned m (λ _. times n m) r tt done)
      (times-Holds ep a m next step n (m r).1 (next e) h')

seen_once : Option ReputationEntry → ℕ → Option ReputationEntry
seen_once e a =
    let f = get_or_else e (fresh_entry a) in some (record f { ops_seen = f.ops_seen + 1 })

included_once : Option ReputationEntry → ℕ → Option ReputationEntry
included_once e a =
    let f = get_or_else e (fresh_entry a) in some (record f { ops_included = f.ops_included + 1 })

increase_seen-Holds :
    (r : ReputationManager) (ep a : ℕ) (e : Option ReputationEntry)
    → Holds r ep a e
    → ((increase_seen ep a r).0 ≡ returned tt) × Holds (increase_seen ep a r).1 ep a (seen_once e a)
unfolding increase_seen seen_once
increase_seen-Holds r ep a e h =
    update_entry-Holds r ep a e (λ f. record f { ops_seen = f.ops_seen + 1 }) h

update_included_status-Holds :
    (r : ReputationManager) (ep a : ℕ) (e : Option ReputationEntry)
    → Holds r ep a e
    → ((update_included_status ep a r).0 ≡ returned tt)
      × Holds (update_included_status ep a r).1 ep a (included_once e a)
unfolding update_included_status included_once
update_included_status-Holds r ep a e h =
    update_entry-Holds r ep a e (λ f. record f { ops_included = f.ops_included + 1 }) h

update_crashed_handle_ops-Holds :
    (r : ReputationManager) (ep a : ℕ) (e : Option ReputationEntry)
    → Holds r ep a e
    → ((update_crashed_handle_ops ep a r).0 ≡ returned tt)
      × Holds
          (update_crashed_handle_ops ep a r).1
          ep
          a
          (some (record (get_or_else e (fresh_entry a)) { ops_seen = 1000; ops_included = 0 }))
unfolding update_crashed_handle_ops
update_crashed_handle_ops-Holds r ep a e h =
    update_entry-Holds r ep a e (λ f. record f { ops_seen = 1000; ops_included = 0 }) h

iterate-seen :
    (n a : ℕ) (e : ReputationEntry)
    → iterate n (λ x. seen_once x a) (some e) ≡ some (record e { ops_seen = e.ops_seen + n })
unfolding seen_once
iterate-seen zero a e = ground arith
iterate-seen (suc n) a e = iterate-seen n a (record e { ops_seen = e.ops_seen + 1 }) ∙ ground arith

iterate-seen_fresh :
    (n a : ℕ)
    → iterate (suc n) (λ x. seen_once x a) none ≡ some (record (fresh_entry a) { ops_seen = suc n })
unfolding seen_once
iterate-seen_fresh n a = iterate-seen n a (record (fresh_entry a) { ops_seen = 1 }) ∙ ground arith

-- The thresholds by the two numbers.
status-numbers :
    (e : ReputationEntry)
    → (e.ops_seen / 10 ≤ e.ops_included + 10 → status_of (some e) ≡ ok)
      × (e.ops_included + 10 < e.ops_seen / 10
          → e.ops_seen / 10 ≤ e.ops_included + 50
          → status_of (some e) ≡ throttled)
      × (e.ops_included + 50 < e.ops_seen / 10 → status_of (some e) ≡ banned)
unfolding status_of status_by_numbers
status-numbers e = (λ h. ground arith, λ h k. ground arith, λ h. ground arith)

status-seen :
    (n a : ℕ)
    → (n < 110 → status_of (iterate n (λ x. seen_once x a) none) ≡ ok)
      × (110 ≤ n → n < 510 → status_of (iterate n (λ x. seen_once x a) none) ≡ throttled)
      × (510 ≤ n → status_of (iterate n (λ x. seen_once x a) none) ≡ banned)
unfolding status_of
status-seen zero a = (λ l. refl, λ l m. absurd (omega arith), λ l. absurd (omega arith))
status-seen (suc n) a =
    let e : ReputationEntry = record (fresh_entry a) { ops_seen = suc n } in
    let numbers = status-numbers e in
    let same : status_of (iterate (suc n) (λ x. seen_once x a) none) ≡ status_of (some e) =
      ap status_of (iterate-seen_fresh n a) in
    (
      λ l. same ∙ numbers.0 (omega arith),
      λ l m. same ∙ numbers.1 (omega arith) (omega arith),
      λ l. same ∙ numbers.2 (omega arith),
    )

-- An entity with no record and on neither list, seen `n` times with no inclusion, is in good standing
-- below 110, throttled from 110 to 509, and banned from 510 on.
pub get_status-seen :
    (r : ReputationManager) (ep a n : ℕ)
    → Holds r ep a none
    → let answer = (get_status_of ep a (times n (increase_seen ep a) r).1).0 in
      (n < 110 → answer ≡ returned ok)
      × (110 ≤ n → n < 510 → answer ≡ returned throttled)
      × (510 ≤ n → answer ≡ returned banned)
get_status-seen r ep a n h = (
  λ l. answer ∙ ap returned ((status-seen n a).0 l),
  λ l m. answer ∙ ap returned ((status-seen n a).1 l m),
  λ l. answer ∙ ap returned ((status-seen n a).2 l),
)
  where
    answer :
        (get_status_of ep a (times n (increase_seen ep a) r).1).0
        ≡ returned (status_of (iterate n (λ x. seen_once x a) none))
    answer =
        get_status_of-Holds _ ep a _
          (times-Holds ep a (increase_seen ep a) (λ x. seen_once x a)
            (λ q e k. increase_seen-Holds q ep a e k) n r none h).1

-- What is counted of an entity, and the record after it.
pub data Count : Type 0 where
  sighting inclusion : Count

abbrev pub counts : ℕ → ℕ → List Count → M (Unit {0})
counts ep a [] = return tt
counts ep a (sighting ∷ cs) = increase_seen ep a >> counts ep a cs
counts ep a (inclusion ∷ cs) = update_included_status ep a >> counts ep a cs

abbrev pub sightings : List Count → ℕ
sightings [] = 0
sightings (sighting ∷ cs) = suc (sightings cs)
sightings (inclusion ∷ cs) = sightings cs

abbrev pub inclusions : List Count → ℕ
inclusions [] = 0
inclusions (sighting ∷ cs) = inclusions cs
inclusions (inclusion ∷ cs) = suc (inclusions cs)

counted : ReputationEntry → List Count → ReputationEntry
counted e cs = record e {
  ops_seen = e.ops_seen + sightings cs;
  ops_included = e.ops_included + inclusions cs;
}

counts-Holds :
    (ep a : ℕ) (cs : List Count) (r : ReputationManager) (e : ReputationEntry)
    → Holds r ep a (some e)
    → Holds (counts ep a cs r).1 ep a (some (counted e cs))
unfolding counted seen_once included_once
counts-Holds ep a [] r e h = subst (λ x. Holds r ep a (some x)) (ground arith) h
counts-Holds ep a (sighting ∷ cs) r e h =
    let (done, h') = increase_seen-Holds r ep a (some e) h in
    rw (bind-returned (increase_seen ep a) (λ _. counts ep a cs) r tt done) (
      subst (λ x. Holds (counts ep a cs (increase_seen ep a r).1).1 ep a (some x)) (ground arith)
        (counts-Holds ep a cs _ (record e { ops_seen = e.ops_seen + 1 }) h'))
counts-Holds ep a (inclusion ∷ cs) r e h =
    let (done, h') = update_included_status-Holds r ep a (some e) h in
    rw (bind-returned (update_included_status ep a) (λ _. counts ep a cs) r tt done) (
      subst (λ x. Holds (counts ep a cs (update_included_status ep a r).1).1 ep a (some x))
        (ground arith) (counts-Holds ep a cs _ (record e { ops_included = e.ops_included + 1 }) h'))

-- With the parameters of a bundler, after a crash that is blamed on an entity on neither list,
-- whatever its record was, and after any sightings and inclusions of its operations that follow in
-- any order with no hourly update in between: it is banned where a tenth of
-- 1000 and the sightings, rounded down, is more than 50 above the inclusions, throttled where it is
-- more than 10 and at most 50 above them, and in good standing otherwise.
pub get_status-crashed :
    (r : ReputationManager) (ep a : ℕ) (cs : List Count) (e : Option ReputationEntry)
    → Holds r ep a e
    → let crashed = (update_crashed_handle_ops ep a r).1 in
      let answer = (get_status_of ep a (counts ep a cs crashed).1).0 in
      let expected = (1000 + sightings cs) / 10 in
      (inclusions cs + 50 < expected → answer ≡ returned banned)
      × (inclusions cs + 10 < expected
          → expected ≤ inclusions cs + 50
          → answer ≡ returned throttled)
      × (expected ≤ inclusions cs + 10 → answer ≡ returned ok)
unfolding counted
get_status-crashed r ep a cs e h = (
  λ l. answer ∙ ap returned ((status-numbers (counted start cs)).2 (omega arith)),
  λ l m. answer ∙ ap returned ((status-numbers (counted start cs)).1 (omega arith) (omega arith)),
  λ l. answer ∙ ap returned ((status-numbers (counted start cs)).0 (omega arith)),
)
  where
    start : ReputationEntry
    start = record (get_or_else e (fresh_entry a)) { ops_seen = 1000; ops_included = 0 }

    answer :
        (get_status_of ep a (counts ep a cs (update_crashed_handle_ops ep a r).1).1).0
        ≡ returned (status_of (some (counted start cs)))
    answer =
        get_status_of-Holds _ ep a _
          (counts-Holds ep a cs _ start (update_crashed_handle_ops-Holds r ep a e h).1)
