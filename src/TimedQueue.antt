-- ===== src/TimedQueue.antt =====
-- The queue of gas prices and oracle values, src/utils/timedQueue.ts, and the helpers of
-- src/utils/bigInt.ts. The oldest entry comes first, and times are in milliseconds.
pub mod Window
pub mod Prices
use pimlico_alto_smart_accou.Common.{
  ℕ, suc, ◌+◌, ◌*◌, ◌/◌, Option, none, some, List, [], ◌∷◌, ◌++◌, ltb, leb, ◌==◌, length,
  if◌then◌else◌,
}

abbrev pub min_big_int : ℕ → ℕ → ℕ
min_big_int a b = if ltb a b then a else b

abbrev pub max_big_int : ℕ → ℕ → ℕ
max_big_int a b = if ltb b a then a else b

unfoldable pub scale_big_int_by_percent : ℕ → ℕ → ℕ
scale_big_int_by_percent value percent = value * percent / 100

pub record Entry : Type 0 where
  pub timestamp : ℕ
  pub value : ℕ

-- `maxQueueSize` is `queueValidity / 1_000`, which need not be whole, so comparisons with it are
-- written in thousandths.
pub record TimedQueue : Type 0 where
  pub queue : List Entry
  pub queue_validity : ℕ

abbrev pub new_timed_queue : ℕ → TimedQueue
new_timed_queue validity = record { queue = []; queue_validity = validity }

-- `queue[queue.length - 1]`
unfoldable pub last : List Entry → Option Entry
last [] = none
last (e ∷ []) = some e
last (e ∷ f ∷ es) = last (f ∷ es)

-- The assignments to the fields of the last entry.
unfoldable pub set_last : Entry → List Entry → List Entry
set_last e [] = []
set_last e (f ∷ []) = e ∷ []
set_last e (f ∷ g ∷ es) = f ∷ set_last e (g ∷ es)

abbrev pub shift : List Entry → List Entry
shift [] = []
shift (e ∷ es) = es

-- The new entry goes to the end, and the oldest one leaves a full queue.
unfoldable pub push : TimedQueue → Entry → TimedQueue
push q e =
    if leb q.queue_validity (length q.queue * 1000)
    then record q { queue = shift q.queue ++ e ∷ [] }
    else record q { queue = q.queue ++ e ∷ [] }

unfoldable pub save_after_last : TimedQueue → Option Entry → Entry → TimedQueue
save_after_last q none e = push q e
save_after_last q (some l) e =
    if leb (l.timestamp + q.queue_validity) e.timestamp
    then push q e
    else if ltb e.value l.value
    then record q { queue = set_last e q.queue }
    else q

unfoldable pub save_value : TimedQueue → ℕ → ℕ → TimedQueue
save_value q now value =
    if value == 0
    then q
    else save_after_last q (last q.queue) (record { timestamp = now; value = value })

unfoldable pub get_latest_value : TimedQueue → Option ℕ
get_latest_value q = elim (last q.queue) [ none ↦ none | some e ↦ some (e.value) ]

unfoldable pub min_from : ℕ → List Entry → ℕ
min_from acc [] = acc
min_from acc (e ∷ es) = min_from (min_big_int (e.value) acc) es

unfoldable pub max_from : ℕ → List Entry → ℕ
max_from acc [] = acc
max_from acc (e ∷ es) = max_from (max_big_int (e.value) acc) es

unfoldable pub get_min_value : TimedQueue → Option ℕ
get_min_value q = elim (q.queue) [ [] ↦ none | e ∷ es ↦ some (min_from (e.value) (e ∷ es)) ]

unfoldable pub get_max_value : TimedQueue → Option ℕ
get_max_value q = elim (q.queue) [ [] ↦ none | e ∷ es ↦ some (max_from (e.value) (e ∷ es)) ]
