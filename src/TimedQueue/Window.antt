-- ===== src/TimedQueue/Window.antt =====
-- What the queue of src/utils/timedQueue.ts keeps.
use pimlico_alto_smart_accou.Common.{
  ℕ, ◌+◌, ◌*◌, ◌<◌, ◌≤◌, ◌≡◌, ◌≢◌, sym, ◌∙◌, leb→le, ◌⊎◌, inl, inr, refl, false, Option, none, some,
  List, [], ◌∷◌, ◌++◌, ltb, leb, ◌==◌, length, length-append, arith, Bool-cases, Option-cases,
}
use pimlico_alto_smart_accou.TimedQueue.{
  Entry, TimedQueue, last, set_last, shift, push, save_after_last, save_value,
}

-- An entry that is `gap` after the entry before it.
abbrev After : ℕ → Option Entry → Entry → Type 0
After gap none e = Unit {0}
After gap (some l) e = l.timestamp + gap ≤ e.timestamp

-- Values are not zero, and every entry is at least `gap` later than the one before it.
abbrev Spaced : ℕ → Option Entry → List Entry → Type 0
Spaced gap before [] = Unit {0}
Spaced gap before (e ∷ es) = After gap before e × (e.value ≢ 0) × Spaced gap (some e) es

-- The entries are spaced by the validity, none has the value 0, and the queue is not longer than
-- the validity in seconds, rounded up, or one entry where that is 0.
pub record IsValid (q : TimedQueue) : Type 0 where
  pub spaced : Spaced q.queue_validity none q.queue
  pub short : (length q.queue * 1000 < q.queue_validity + 1000) ⊎ (length q.queue ≤ 1)

Spaced-any :
    (gap : ℕ) (before : Option Entry) (es : List Entry) → Spaced gap before es → Spaced gap none es
Spaced-any gap before [] s = tt
Spaced-any gap before (e ∷ es) s = (tt, s.1, s.2)

Spaced-shift : (gap : ℕ) (es : List Entry) → Spaced gap none es → Spaced gap none (shift es)
Spaced-shift gap [] s = tt
Spaced-shift gap (e ∷ es) s = Spaced-any gap (some e) es (s.2)

-- The last entry of a list behind another entry.
abbrev last_behind : Option Entry → List Entry → Option Entry
last_behind before [] = before
last_behind before (e ∷ es) = last_behind (some e) es

last-behind : (e : Entry) (es : List Entry) → last (e ∷ es) ≡ last_behind (some e) es
unfolding last
last-behind e [] = refl
last-behind e (f ∷ es) = last-behind f es

Spaced-append :
    (gap : ℕ) (before : Option Entry) (es : List Entry) (e : Entry)
    → Spaced gap before es
    → e.value ≢ 0
    → After gap (last_behind before es) e
    → Spaced gap before (es ++ e ∷ [])
Spaced-append gap before [] e s n a = (a, n, tt)
Spaced-append gap before (f ∷ es) e s n a = (s.0, s.1, Spaced-append gap (some f) es e (s.2) n a)

last-none : (es : List Entry) → last es ≡ last_behind none es
unfolding last
last-none [] = refl
last-none (e ∷ es) = last-behind e es

-- An entry that is not earlier than this one.
abbrev NotBefore : Option Entry → Entry → Type 0
NotBefore none e = Unit {0}
NotBefore (some l) e = l.timestamp ≤ e.timestamp

After-later :
    (gap : ℕ) (b : Option Entry) (l e : Entry)
    → l.timestamp ≤ e.timestamp
    → After gap b l
    → After gap b e
After-later gap none l e h a = tt
After-later gap (some b) l e h a = omega arith

set_last-Spaced :
    (gap : ℕ) (before : Option Entry) (es : List Entry) (e : Entry)
    → Spaced gap before es
    → e.value ≢ 0
    → NotBefore (last_behind none es) e
    → Spaced gap before (set_last e es)
unfolding set_last
set_last-Spaced gap before [] e s n h = tt
set_last-Spaced gap before (f ∷ []) e s n h = (After-later gap before f e h (s.0), n, tt)
set_last-Spaced gap before (f ∷ g ∷ es) e s n h =
    (s.0, s.1, set_last-Spaced gap (some f) (g ∷ es) e (s.2) n h)

After-shift :
    (gap : ℕ) (es : List Entry) (e : Entry)
    → After gap (last_behind none es) e
    → After gap (last_behind none (shift es)) e
After-shift gap [] e a = tt
After-shift gap (f ∷ []) e a = tt
After-shift gap (f ∷ g ∷ es) e a = a

length-set_last : (e : Entry) (es : List Entry) → length (set_last e es) ≡ length es
unfolding set_last
length-set_last e [] = refl
length-set_last e (f ∷ []) = refl
length-set_last e (f ∷ g ∷ es) = omega (arith, length-set_last e (g ∷ es))

length-shift : (es : List Entry) → (length (shift es) ≡ 0) ⊎ (length (shift es) + 1 ≡ length es)
length-shift [] = inl refl
length-shift (e ∷ es) = inr (omega arith)

push-IsValid :
    (q : TimedQueue) (e : Entry)
    → IsValid q
    → e.value ≢ 0
    → After q.queue_validity (last_behind none q.queue) e
    → IsValid (push q e)
unfolding push
push-IsValid q e v n a = elim (Bool-cases (leb q.queue_validity (length q.queue * 1000))) [
  | inl full ↦ rw full (record {
    spaced =
        Spaced-append q.queue_validity none (shift q.queue) e
          (Spaced-shift q.queue_validity q.queue v.spaced) n
          (After-shift q.queue_validity q.queue e a);
    short = elim (length-shift q.queue) [
      | inl z ↦ inr (omega (arith, length-append (shift q.queue) (e ∷ [])))
      | inr k ↦ elim v.short [
        | inl s ↦ inl (omega (arith, length-append (shift q.queue) (e ∷ [])))
        | inr s ↦ inr (omega (arith, length-append (shift q.queue) (e ∷ [])))
      ]
    ];
  })
  | inr room ↦ rw room (record {
    spaced = Spaced-append q.queue_validity none q.queue e v.spaced n a;
    short = inl (ground (arith, length-append q.queue (e ∷ [])));
  })
]

-- Saving a value keeps the queue valid, if the clock has not gone back since the last entry.
pub save_value-IsValid :
    (q : TimedQueue) (now value : ℕ)
    → IsValid q
    → ((l : Entry) → last q.queue ≡ some l → l.timestamp ≤ now)
    → IsValid (save_value q now value)
unfolding save_value save_after_last
save_value-IsValid q now value v clock = elim (Bool-cases (value == 0)) [
  | inl z ↦ rw z v
  | inr nz ↦ rw nz (elim (Option-cases (last q.queue)) [
    | inl l ↦ rw l (push-IsValid q e v (nonzero nz) (rw (sym (last-none q.queue) ∙ l) tt))
    | inr (l, h) ↦ rw h (elim (Bool-cases (leb (l.timestamp + q.queue_validity) now)) [
      | inl old ↦
          rw old
            (push-IsValid q e v (nonzero nz) (rw (sym (last-none q.queue) ∙ h) (leb→le _ _ old)))
      | inr new ↦ rw new (elim (Bool-cases (ltb value (l.value))) [
        | inl less ↦ rw less (record {
          spaced =
              set_last-Spaced q.queue_validity none q.queue e v.spaced (nonzero nz)
                (rw (sym (last-none q.queue) ∙ h) (clock l h));
          short = rw (length-set_last e q.queue) v.short;
        })
        | inr more ↦ rw more v
      ])
    ])
  ])
]
  where
    e : Entry
    e = record { timestamp = now; value = value }

    nonzero : (value == 0) ≡ false → value ≢ 0
    nonzero h = ground arith
