-- ===== src/Monitor/Expiry.antt =====
-- How long a status is kept (src/mempool/monitoring.ts).
use pimlico_alto_smart_accou.Common.{
  ℕ, ◌+◌, ◌≤◌, ◌<◌, ◌≡◌, ◌≢◌, refl, ap, ◌∙◌, ◌⊎◌, inl, Bool, true, false, Option, none, some, List,
  [], ◌∷◌, ◌++◌, leb, arith, if◌then◌else◌, get?, get?-put, get?-delete,
}
use pimlico_alto_smart_accou.Monitor.{
  Monitor, Timer, UserOperationStatus, not_found, cancel, fire, fire_due, run_timers,
  set_user_operation_status, get_user_operation_status, new_monitor,
}

-- Each pending timer is the one that is recorded for its key, so a key has one timer at most.
abbrev pub Owned : Monitor → List Timer → Type 0
Owned m [] = Unit {0}
Owned m (t ∷ ts) =
    (get? m.user_operation_timeouts t.key ≡ some t.id) × (t.id < m.next_id) × Owned m ts

abbrev pub IsValid : Monitor → Type 0
IsValid m = Owned m m.pending

-- No timer of the list that is due is a timer of the key.
abbrev Spares : ℕ → ℕ → List Timer → Type 0
Spares key now [] = Unit {0}
Spares key now (t ∷ ts) = (leb t.due now ≡ true → t.key ≢ key) × Spares key now ts

-- Once the timer recorded for the key is cancelled, no pending timer is one of the key.
Spares-cancel :
    (m : Monitor) (key later : ℕ) (old : Option ℕ) (ts : List Timer)
    → get? m.user_operation_timeouts key ≡ old
    → Owned m ts
    → Spares key later (cancel old ts)
Spares-cancel m key later none [] e o = tt
Spares-cancel m key later (some id) [] e o = tt
Spares-cancel m key later none (t ∷ ts) e o = (
  λ d same. cc (ap (get? m.user_operation_timeouts) same),
  Spares-cancel m key later none ts e o.2,
)
Spares-cancel m key later (some id) (t ∷ ts) e o = ground (
  arith,
  ap (get? m.user_operation_timeouts) {x = t.key} {y = key},
  Spares-cancel m key later (some id) ts e o.2,
)

-- Firing timers of other keys leaves the status of the key.
fire_due_frame :
    (key now : ℕ) (ts : List Timer) (m : Monitor)
    → Spares key now ts
    → get? (fire_due now ts m).user_operation_to_status key ≡ get? m.user_operation_to_status key
unfolding fire_due fire
fire_due_frame key now [] m h = refl
fire_due_frame key now (t ∷ ts) m h =
    fire_due_frame key now ts (if leb t.due now then fire m t else m) h.1
    ∙ ground (arith, h.0, get?-delete m.user_operation_to_status t.key key)

fire_due-absent :
    (key now : ℕ) (ts : List Timer) (m : Monitor)
    → get? m.user_operation_to_status key ≡ none
    → get? (fire_due now ts m).user_operation_to_status key ≡ none
unfolding fire_due fire
fire_due-absent key now [] m h = h
fire_due-absent key now (t ∷ ts) m h =
    fire_due-absent key now ts (if leb t.due now then fire m t else m)
      (ground (arith, get?-delete m.user_operation_to_status t.key key))

-- A due timer of the key, anywhere in the list, takes the status away.
fire_due-last :
    (now : ℕ) (ts : List Timer) (t : Timer) (m : Monitor)
    → t.due ≤ now
    → get? (fire_due now (ts ++ t ∷ []) m).user_operation_to_status t.key ≡ none
unfolding fire_due fire
fire_due-last now [] t m h = ground (arith, get?-delete m.user_operation_to_status t.key t.key)
fire_due-last now (u ∷ ts) t m h = fire_due-last now ts t (if leb u.due now then fire m u else m) h

Spares-append :
    (key now : ℕ) (ts : List Timer) (t : Timer)
    → Spares key now ts
    → now < t.due
    → Spares key now (ts ++ t ∷ [])
Spares-append key now [] t h late = (λ d. absurd (ground arith), tt)
Spares-append key now (u ∷ ts) t h late = (h.0, Spares-append key now ts t h.1 late)

set-kept :
    (m : Monitor) (now later key : ℕ) (status : UserOperationStatus)
    → IsValid m
    → later < now + m.timeout
    → get?
        (run_timers (set_user_operation_status m now key status) later).user_operation_to_status
        key
      ≡ some status
unfolding run_timers set_user_operation_status
set-kept m now later key status v early =
    fire_due_frame key later _ _ (
      Spares-append key later _ _
        (Spares-cancel m key later (get? m.user_operation_timeouts key) m.pending refl v) early)
    ∙ ground (arith, get?-put m.user_operation_to_status key key status)

set-dropped :
    (m : Monitor) (now later key : ℕ) (status : UserOperationStatus)
    → now + m.timeout ≤ later
    → get?
        (run_timers (set_user_operation_status m now key status) later).user_operation_to_status
        key
      ≡ none
unfolding run_timers set_user_operation_status
set-dropped m now later key status late =
    fire_due-last later (cancel (get? m.user_operation_timeouts key) m.pending)
      (record { id = m.next_id; key = key; due = now + m.timeout })
      (set_user_operation_status m now key status) late

-- A status that is set at `now` is the answer when the timers have run at any moment before `now`
-- plus the timeout, and when they have run at any moment from then on the answer is "not found".
pub get_user_operation_status-set :
    (m : Monitor) (now later key : ℕ) (status : UserOperationStatus)
    → IsValid m
    → (later < now + m.timeout
        → get_user_operation_status
            (run_timers (set_user_operation_status m now key status) later)
            key
          ≡ status)
      × (now + m.timeout ≤ later
          → get_user_operation_status
              (run_timers (set_user_operation_status m now key status) later)
              key
            ≡ record { status = not_found; transaction_hash = none })
unfolding get_user_operation_status
get_user_operation_status-set m now later key status v = (
  λ early. rw (set-kept m now later key status v early, get_user_operation_status),
  λ late. rw (set-dropped m now later key status late, get_user_operation_status),
)

Owned-set :
    (m : Monitor) (now key : ℕ) (status : UserOperationStatus) (old : Option ℕ) (ts : List Timer)
    → get? m.user_operation_timeouts key ≡ old
    → Owned m ts
    → Owned
        (set_user_operation_status m now key status)
        (cancel old ts ++ record { id = m.next_id; key = key; due = now + m.timeout } ∷ [])
unfolding set_user_operation_status
Owned-set m now key status none [] e o =
    (ground (arith, get?-put m.user_operation_timeouts key key m.next_id), omega arith, tt)
Owned-set m now key status (some id) [] e o =
    (ground (arith, get?-put m.user_operation_timeouts key key m.next_id), omega arith, tt)
Owned-set m now key status none (t ∷ ts) e o = (
  ground (
    arith,
    get?-put m.user_operation_timeouts key t.key m.next_id,
    ap (get? m.user_operation_timeouts) {x = t.key} {y = key},
  ),
  omega arith,
  Owned-set m now key status none ts e o.2,
)
Owned-set m now key status (some id) (t ∷ ts) e o = ground (
  arith,
  get?-put m.user_operation_timeouts key t.key m.next_id,
  ap (get? m.user_operation_timeouts) {x = t.key} {y = key},
  Owned-set m now key status (some id) ts e o.2,
)

-- Each timer of a snapshot is still recorded for its key, or its key has no timer any more.
abbrev Fresh : Monitor → List Timer → Type 0
Fresh m [] = Unit {0}
Fresh m (t ∷ ts) =
    ((get? m.user_operation_timeouts t.key ≡ some t.id)
      ⊎ (get? m.user_operation_timeouts t.key ≡ none))
    × Fresh m ts

Owned-Fresh : (m : Monitor) (ts : List Timer) → Owned m ts → Fresh m ts
Owned-Fresh m [] o = tt
Owned-Fresh m (t ∷ ts) o = (inl o.0, Owned-Fresh m ts o.2)

Fresh-fire : (m : Monitor) (u : Timer) (ts : List Timer) → Fresh m ts → Fresh (fire m u) ts
unfolding fire
Fresh-fire m u [] f = tt
Fresh-fire m u (t ∷ ts) f =
    (ground (arith, get?-delete m.user_operation_timeouts u.key t.key), Fresh-fire m u ts f.1)

Owned-fire :
    (m : Monitor) (u : Timer) (ts : List Timer)
    → ((get? m.user_operation_timeouts u.key ≡ some u.id)
        ⊎ (get? m.user_operation_timeouts u.key ≡ none))
    → Owned m ts
    → Owned (fire m u) (cancel (some u.id) ts)
unfolding fire
Owned-fire m u [] f o = tt
Owned-fire m u (t ∷ ts) f o = ground (
  arith,
  get?-delete m.user_operation_timeouts u.key t.key,
  ap (get? m.user_operation_timeouts) {x = t.key} {y = u.key},
  Owned-fire m u ts f o.2,
)

maybe_fire-kept :
    (due : Bool) (m : Monitor) (t : Timer) (ts : List Timer)
    → Fresh m (t ∷ ts)
    → IsValid m
    → Fresh (if due then fire m t else m) ts × IsValid (if due then fire m t else m)
maybe_fire-kept true m t ts f v =
    (Fresh-fire m t ts f.1, unfold fire in Owned-fire m t m.pending f.0 v)
maybe_fire-kept false m t ts f v = (f.1, v)

fire_due-IsValid :
    (now : ℕ) (ts : List Timer) (m : Monitor) → Fresh m ts → IsValid m → IsValid (fire_due now ts m)
unfolding fire_due
fire_due-IsValid now [] m f v = v
fire_due-IsValid now (t ∷ ts) m f v =
    let (fresh, valid) = maybe_fire-kept (leb t.due now) m t ts f v in
    fire_due-IsValid now ts (if leb t.due now then fire m t else m) fresh valid

-- A new monitor has at most one pending timer for each key, the one recorded for the key, and both
-- setting a status and running the timers at any moment keep this.
pub IsValid-kept :
    (m : Monitor) (now key timeout : ℕ) (status : UserOperationStatus)
    → IsValid m
    → IsValid (new_monitor timeout)
      × IsValid (set_user_operation_status m now key status)
      × IsValid (run_timers m now)
unfolding new_monitor run_timers set_user_operation_status
IsValid-kept m now key timeout status v = (
  tt,
  Owned-set m now key status (get? m.user_operation_timeouts key) m.pending refl v,
  fire_due-IsValid now m.pending m (Owned-Fresh m m.pending v) v,
)
