-- ===== src/GasPrice/Accepted.antt =====
-- The prices that `getGasPrice` gives and those that `validateGasPrice` accepts.
use pimlico_alto_smart_accou.Common.{
  ℕ, ◌≤◌, ◌≡◌, ◌≢◌, ◌||◌, ◌==◌, refl, ap, false, inl, inr, Bool-cases, Option-cases, none, List, [],
  ◌∷◌, arith, if◌then◌else◌, ltb,
}
use pimlico_alto_smart_accou.TimedQueue.{Entry, TimedQueue, last, get_latest_value, get_min_value}
use pimlico_alto_smart_accou.TimedQueue.Prices.{readers_enclose}
use pimlico_alto_smart_accou.GasPrice.{GasPriceParameters, GasConfig, Result, gives, Node}
use pimlico_alto_smart_accou.GasPrice.Manager.{
  GasPriceManager, missing, present, part, get_gas_price, get_min_max_fee_per_gas,
  get_min_max_priority_fee_per_gas, in_unit, compare_price, validate_gas_price,
}

empty : (es : List Entry) → last es ≡ none → es ≡ []
unfolding last
empty [] h = refl
empty (e ∷ []) h = cc
empty (e ∷ f ∷ es) h = let z : (f ∷ es) ≡ [] = empty (f ∷ es) h in cc

min_le_latest : (q : TimedQueue) → present (get_min_value q) ≤ present (get_latest_value q)
unfolding get_latest_value get_min_value
min_le_latest q = elim (Option-cases (last q.queue)) [
  | inl e ↦ rw (empty q.queue e) (omega arith)
  | inr (l, e) ↦
      let (low, high, is_low, is_high, below, above) = readers_enclose q l e in
      rw (is_low, e, get_latest_value) below
]

-- Reading a minimum, where a missing one is replaced by the latest value.
read_min :
    (q : TimedQueue) (r : Result ℕ × GasPriceManager) (m : GasPriceManager)
    → r ≡ (gives (present (get_latest_value q)), m)
    → (f : ℕ) × ((if missing (get_min_value q) then r else (gives (present (get_min_value q)), m))
        ≡ (gives f, m))
      × (f ≤ present (get_latest_value q))
read_min q r m h = elim (Bool-cases (missing (get_min_value q))) [
  | inl e ↦ rw e (present (get_latest_value q), h, omega arith)
  | inr e ↦ rw e (present (get_min_value q), refl, min_le_latest q)
]

-- With a refresh interval, a price once given is given to every caller until the state changes.
held_price :
    (node node' : Node) (now now' : ℕ) (m : GasPriceManager) (p : GasPriceParameters)
    → m.config.gas_price_refresh_interval ≢ 0
    → (get_gas_price node now m).0 ≡ gives p
    → (get_gas_price node' now' m ≡ (gives p, m))
      × (p.max_fee_per_gas ≡ present (get_latest_value m.max_fee_per_gas_queue))
      × (p.max_priority_fee_per_gas ≡ present (get_latest_value m.max_priority_fee_per_gas_queue))
unfolding get_gas_price
held_price node node' now now' m p i =
    rw refreshes
      (elim (Bool-cases (
        missing (get_latest_value m.max_fee_per_gas_queue)
        || missing (get_latest_value m.max_priority_fee_per_gas_queue))) [
          | inl e ↦ rw e (λ h. (cc, cc, cc))
          | inr e ↦ rw e (λ h. (cc, cc, cc))
        ])
  where
    refreshes : (m.config.gas_price_refresh_interval == 0) ≡ false
    refreshes = ground arith

compare_price-lower :
    (c : GasConfig) (f q : ℕ) (p : GasPriceParameters)
    → f ≤ p.max_fee_per_gas
    → q ≤ p.max_priority_fee_per_gas
    → compare_price (in_unit c f) (in_unit c q) p ≡ gives tt
unfolding compare_price
compare_price-lower c f q p h k =
    rw
      (
        not_below p.max_fee_per_gas (in_unit c f) (lowered c f h),
        not_below p.max_priority_fee_per_gas (in_unit c q) (lowered c q k),
      )
      refl
  where
    not_below : (a b : ℕ) → b ≤ a → ltb a b ≡ false
    not_below a b l = ground arith

    lowered : (c : GasConfig) {a : ℕ} (n : ℕ) → n ≤ a → in_unit c n ≤ a
    lowered c n l = ground arith

module _ (node node' : Node) (now now' : ℕ) (m : GasPriceManager) (p : GasPriceParameters)
    (i : m.config.gas_price_refresh_interval ≢ 0) (h : (get_gas_price node now m).0 ≡ gives p) where
  lowest_fee :
      (f : ℕ) × (get_min_max_fee_per_gas node' now' m ≡ (gives f, m)) × (f ≤ p.max_fee_per_gas)
  unfolding get_min_max_fee_per_gas
  lowest_fee =
      let (same, fee, _) = held_price node node' now now' m p i h in
      let (f, is_f, f_le) =
        read_min m.max_fee_per_gas_queue
          (part (λ p. p.max_fee_per_gas) (get_gas_price node' now' m)) m
          (rw same (ap (λ n. (gives n, m)) fee)) in
      (f, is_f, rw fee f_le)

  lowest_priority :
      (f : ℕ) × (get_min_max_priority_fee_per_gas node' now' m ≡ (gives f, m))
      × (f ≤ p.max_priority_fee_per_gas)
  unfolding get_min_max_priority_fee_per_gas
  lowest_priority =
      let (same, _, fee) = held_price node node' now now' m p i h in
      let (f, is_f, f_le) =
        read_min m.max_priority_fee_per_gas_queue
          (part (λ p. p.max_priority_fee_per_gas) (get_gas_price node' now' m)) m
          (rw same (ap (λ n. (gives n, m)) fee)) in
      (f, is_f, rw fee f_le)

-- With a refresh interval, a price that `getGasPrice` gives passes `validateGasPrice` as long as the
-- queues are as they were, whatever the node answers meanwhile.
pub validate-get_gas_price :
    (node node' node'' : Node) (now now' : ℕ) (m : GasPriceManager) (p : GasPriceParameters)
    → m.config.gas_price_refresh_interval ≢ 0
    → (get_gas_price node now m).0 ≡ gives p
    → validate_gas_price node' node'' now' p m ≡ (gives tt, m)
unfolding validate_gas_price
validate-get_gas_price node node' node'' now now' m p i h =
    let (f, is_f, f_le) = lowest_fee node node' now now' m p i h in
    let (q, is_q, q_le) = lowest_priority node node'' now now' m p i h in
    rw (is_f, ap (λ r. r.1) is_f, is_q, ap (λ r. r.1) is_f, ap (λ r. r.1) is_q, validate_gas_price)
      (ap (λ r. (r, m)) (compare_price-lower m.config f q p f_le q_le))
