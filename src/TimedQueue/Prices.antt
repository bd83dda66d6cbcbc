-- ===== src/TimedQueue/Prices.antt =====
-- What the readers of the queue answer.
use pimlico_alto_smart_accou.Common.{
  ℕ, ◌+◌, ◌*◌, ◌<◌, ◌≤◌, ◌≡◌, ◌≢◌, inl, inr, refl, false, Option, none, some, List, [], ◌∷◌, ◌++◌,
  ltb, leb, ◌==◌, length, arith, if◌then◌else◌, Bool-cases,
}
use pimlico_alto_smart_accou.TimedQueue.{
  Entry, TimedQueue, last, set_last, shift, push, save_after_last, save_value, get_latest_value,
  min_from, max_from, get_min_value, get_max_value, min_big_int, max_big_int,
}

last-append : (es : List Entry) (e : Entry) → last (es ++ e ∷ []) ≡ some e
unfolding last
last-append [] e = refl
last-append (f ∷ []) e = refl
last-append (f ∷ g ∷ es) e = last-append (g ∷ es) e

last-set_last : (e f : Entry) (es : List Entry) → last (set_last e (f ∷ es)) ≡ some e
unfolding last set_last
last-set_last e f [] = refl
last-set_last e f (g ∷ []) = refl
last-set_last e f (g ∷ h ∷ es) = last-set_last e g (h ∷ es)

last-push : (q : TimedQueue) (e : Entry) → last ((push q e).queue) ≡ some e
unfolding push
last-push q e = elim (Bool-cases (leb q.queue_validity (length q.queue * 1000))) [
  | inl full ↦ rw full (last-append (shift q.queue) e)
  | inr room ↦ rw room (last-append q.queue e)
]

-- The two folds enclose where they start and every value of the list.
folds_enclose :
    (low high : ℕ) (es : List Entry) → (min_from low es ≤ low) × (high ≤ max_from high es)
unfolding min_from max_from
folds_enclose low high [] = (omega arith, omega arith)
folds_enclose low high (e ∷ es) =
    let h : _ = folds_enclose (min_big_int (e.value) low) (max_big_int (e.value) high) es in
    (ground (arith, h.0), ground (arith, h.1))

last_enclosed :
    (low high : ℕ) (es : List Entry) (l : Entry)
    → last es ≡ some l
    → (min_from low es ≤ l.value) × (l.value ≤ max_from high es)
unfolding last min_from max_from
last_enclosed low high [] l h = cc
last_enclosed low high (e ∷ []) l h = (ground arith, ground arith)
last_enclosed low high (e ∷ f ∷ es) l h =
    last_enclosed (min_big_int (e.value) low) (max_big_int (e.value) high) (f ∷ es) l h

pub readers_enclose :
    (q : TimedQueue) (l : Entry)
    → last q.queue ≡ some l
    → (lo : ℕ) × (hi : ℕ) × (get_min_value q ≡ some lo)
      × (get_max_value q ≡ some hi)
      × (lo ≤ l.value)
      × (l.value ≤ hi)
unfolding get_min_value get_max_value last
readers_enclose q l =
    elim (q.queue)
      as (λ es.
        last es ≡ some l
        → (lo : ℕ) × (hi : ℕ) × (elim es [
          | [] ↦ none
          | e ∷ rest ↦ some (min_from (e.value) (e ∷ rest))
        ]
            ≡ some lo)
          × (elim es [ [] ↦ none | e ∷ rest ↦ some (max_from (e.value) (e ∷ rest)) ] ≡ some hi)
          × (lo ≤ l.value)
          × (l.value ≤ hi)) [
            | [] ↦ λ h. cc
            | e ∷ es ↦ λ h.
                let r : _ = last_enclosed (e.value) (e.value) (e ∷ es) l h in
                (min_from (e.value) (e ∷ es), max_from (e.value) (e ∷ es), refl, refl, r.0, r.1)
          ]

-- The last entry that saving a nonzero value leaves.
abbrev entry_after : ℕ → Option Entry → Entry → Entry
entry_after validity none e = e
entry_after validity (some l) e =
    if leb (l.timestamp + validity) e.timestamp then e else if ltb e.value l.value then e else l

last-set_last-some :
    (e l : Entry) (es : List Entry) → last es ≡ some l → last (set_last e es) ≡ some e
unfolding last
last-set_last-some e l [] h = cc
last-set_last-some e l (f ∷ es) h = last-set_last e f es

last-save_after_last :
    (q : TimedQueue) (o : Option Entry) (e : Entry)
    → last q.queue ≡ o
    → last ((save_after_last q o e).queue) ≡ some (entry_after q.queue_validity o e)
unfolding save_after_last
last-save_after_last q none e h = last-push q e
last-save_after_last q (some l) e h =
    elim (Bool-cases (leb (l.timestamp + q.queue_validity) e.timestamp)) [
      | inl old ↦ rw old (last-push q e)
      | inr new ↦ rw new (elim (Bool-cases (ltb e.value l.value)) [
        | inl less ↦ rw less (last-set_last-some e l q.queue h)
        | inr more ↦ rw more h
      ])
    ]

last-save_value :
    (q : TimedQueue) (now value : ℕ)
    → value ≢ 0
    → last ((save_value q now value).queue)
      ≡ some
          (entry_after q.queue_validity (last q.queue) (record { timestamp = now; value = value }))
unfolding save_value
last-save_value q now value n =
    rw nonzero
      (last-save_after_last q (last q.queue) (record { timestamp = now; value = value }) refl)
  where
    nonzero : (value == 0) ≡ false
    nonzero = ground arith

entry_after-le : (gap : ℕ) (o : Option Entry) (e : Entry) → (entry_after gap o e).value ≤ e.value
entry_after-le gap none e = omega arith
entry_after-le gap (some l) e = ground arith

entry_after-none :
    (gap : ℕ) (o : Option Entry) (e : Entry) → o ≡ none → (entry_after gap o e).value ≡ e.value
entry_after-none gap none e h = refl
entry_after-none gap (some l) e h = cc

entry_after-some :
    (gap : ℕ) (o : Option Entry) (e l : Entry)
    → o ≡ some l
    → (l.timestamp + gap ≤ e.timestamp → (entry_after gap o e).value ≡ e.value)
      × (e.timestamp < l.timestamp + gap
          → (entry_after gap o e).value ≡ min_big_int (e.value) (l.value))
entry_after-some gap o e l h = rw h (λ old. ground arith, λ new. ground arith)

-- After a nonzero value is saved, the latest value is not above it, and the minimum and the maximum
-- enclose the latest value. It is the saved value if the queue was empty or its last entry had
-- expired, and otherwise the smaller of the two.
pub save_value-encloses :
    (q : TimedQueue) (now value : ℕ)
    → value ≢ 0
    → let q' = save_value q now value in
      (latest low high : ℕ) × (get_latest_value q' ≡ some latest)
      × (get_min_value q' ≡ some low)
      × (get_max_value q' ≡ some high)
      × (low ≤ latest)
      × (latest ≤ high)
      × (latest ≤ value)
      × (last q.queue ≡ none → latest ≡ value)
      × ((l : Entry)
          → last q.queue ≡ some l
          → (l.timestamp + q.queue_validity ≤ now → latest ≡ value)
            × (now < l.timestamp + q.queue_validity → latest ≡ min_big_int value (l.value)))
unfolding get_latest_value
save_value-encloses q now value n =
    let last_is : _ = last-save_value q now value n in
    let (low, high, is_low, is_high, below, above) =
      readers_enclose (save_value q now value) (entry_after q.queue_validity (last q.queue) e)
        last_is in
    (
      (entry_after q.queue_validity (last q.queue) e).value,
      low,
      high,
      rw (last_is, get_latest_value) refl,
      is_low,
      is_high,
      below,
      above,
      entry_after-le q.queue_validity (last q.queue) e,
      entry_after-none q.queue_validity (last q.queue) e,
      entry_after-some q.queue_validity (last q.queue) e,
    )
  where
    e : Entry
    e = record { timestamp = now; value = value }
