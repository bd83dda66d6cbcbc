-- ===== src/Reputation/Asking.antt =====
-- Asking for a status twice, and runs of several steps (src/mempool/reputationManager.ts).
use pimlico_alto_smart_accou.Common.{
  ℕ, ◌≡◌, ◌≢◌, inl, inr, refl, ap, ◌∙◌, false, Bool-cases, Option, Option-cases, none, some, get?,
  put, get?-put, ==_refl, Dict,
}
use pimlico_alto_smart_accou.Reputation.{
  ReputationManager, ReputationEntry, Outcome, Error, returned, thrown, M, ◌>>=◌, has,
  status_by_numbers, get_status_of, get_status,
}

-- Asking for a status changes the entries at most, and asking again gives the same answer.
pub record Asked (entry_point : ℕ) (address : Option ℕ) (r r' : ReputationManager) : Type 0 where
  pub kept : r' ≡ record r { entries = r'.entries }
  pub again : (get_status entry_point address r').0 ≡ (get_status entry_point address r).0

pub asked_again :
    (ep a : ℕ) (r : ReputationManager) (es : Dict ReputationEntry) (e : ReputationEntry)
    → has r.whitelist a ≡ false
    → has r.black_list a ≡ false
    → get? r.entries ep ≡ some es
    → get? es a ≡ some e
    → let s = some (status_by_numbers r.params e) in
      (get_status_of ep a
        (record r { entries = put r.entries ep (put es a (record e { status = s })) })).0
      ≡ (get_status_of ep a r).0
unfolding get_status_of status_by_numbers
asked_again ep a r es e w b h k =
    rw (w, b, h, k, get?-put r.entries ep ep, ==_refl ep, get?-put es a a, ==_refl a) refl

pub get_status_of-Asked :
    (ep a : ℕ) (r : ReputationManager) → Asked ep (some a) r ((get_status_of ep a r).1)
unfolding get_status_of get_status status_by_numbers
get_status_of-Asked ep a r = elim (Bool-cases (has r.whitelist a)) [
  | inl w ↦ rw w (record { kept = refl; again = refl })
  | inr w ↦ rw w (elim (Bool-cases (has r.black_list a)) [
    | inl b ↦ rw b (record { kept = refl; again = refl })
    | inr b ↦ rw b (elim (Option-cases (get? r.entries ep)) [
      | inl n ↦ rw n (record { kept = refl; again = refl })
      | inr (es, h) ↦ rw h (elim (Option-cases (get? es a)) [
        | inl n ↦ rw n (record { kept = refl; again = refl })
        | inr (e, k) ↦ rw k (record { kept = refl; again = asked_again ep a r es e w b h k })
      ])
    ])
  ])
]

pub get_status-Asked :
    (ep : ℕ) (address : Option ℕ) (r : ReputationManager)
    → Asked ep address r ((get_status ep address r).1)
unfolding get_status
get_status-Asked ep none r = record { kept = refl; again = refl }
get_status-Asked ep (some a) r = get_status_of-Asked ep a r

pub Asked-trans :
    (ep : ℕ) (address : Option ℕ) (r s t : ReputationManager)
    → Asked ep address r s
    → Asked ep address s t
    → Asked ep address r t
Asked-trans ep address r s t h k = record {
  kept = k.kept ∙ ap {A = ReputationManager} (λ x. record x { entries = t.entries }) h.kept;
  again = k.again ∙ h.again;
}

pub thrown-returned : {A : Type 0} (e : Error) (a : A) → thrown e ≢ returned a
thrown-returned e a h = cc

pub returned-injective : {A : Type 0} (a b : A) → returned a ≡ returned b → a ≡ b
returned-injective a b h = cc

pub step_inverse :
    {A B : Type 0} (o : Outcome A) (r : ReputationManager) (f : A → M B) (b : B)
    → (((λ _. (o, r)) >>= f) r).0 ≡ returned b
    → (a : A) × (o ≡ returned a) × ((f a r).0 ≡ returned b)
step_inverse (returned a) r f b h = (a, refl, h)
step_inverse (thrown e) r f b h = elim (thrown-returned e b h) [ ]

-- A composition that returns is made of two steps that return.
pub bind-inverse :
    {A B : Type 0} (m : M A) (f : A → M B) (r : ReputationManager) (b : B)
    → ((m >>= f) r).0 ≡ returned b
    → (a : A) × ((m r).0 ≡ returned a) × ((f a (m r).1).0 ≡ returned b)
bind-inverse m f r b h = step_inverse ((m r).0) ((m r).1) f b h
