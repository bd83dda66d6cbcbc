-- ===== src/Mempool/Lifecycle/Phases.antt =====
-- Each call keeps a hash in at most one pool, and moves it as its life allows.
use pimlico_alto_smart_accou.Common.{ℕ, ◌+◌, ◌≤◌, ◌≡◌, arith}
use pimlico_alto_smart_accou.Store.Tally.{Tally, plus, minus}
use pimlico_alto_smart_accou.Mempool.Lifecycle.{Fits}

-- The changes of a tally, on numbers.
module _ (k h o p s : ℕ) (one : o + p + s ≤ 1) where
  abbrev before : Tally
  before = record { outstanding = o; processing = p; submitted = s }

  pub stay_fits : Fits before before
  stay_fits = ground arith

  pub enter_fits :
      (k ≡ h → o + p + s ≡ 0) → Fits before (record before { outstanding = plus k h o })
  enter_fits e = ground arith

  pub over_fits :
      (j : ℕ)
      → (k ≡ h → o + p + s ≡ 0)
      → Fits before (record before { outstanding = plus k h (minus j h o) })
  over_fits j e = ground arith

  pub leave_outstanding_fits : Fits before (record before { outstanding = minus k h o })
  leave_outstanding_fits = ground arith

  pub leave_processing_fits : Fits before (record before { processing = minus k h p })
  leave_processing_fits = ground arith

  pub leave_submitted_fits : Fits before (record before { submitted = minus k h s })
  leave_submitted_fits = ground arith

  pub take_fits :
      (k ≡ h → 1 ≤ o)
      → Fits before (record before { outstanding = minus k h o; processing = plus k h p })
  take_fits e = ground arith

  pub mark_fits :
      (k ≡ h → 1 ≤ p)
      → Fits before (record before { processing = minus k h p; submitted = plus k h s })
  mark_fits e = ground arith

  pub replace_fits :
      (k ≡ h → 1 ≤ s) → Fits before (record before { submitted = plus k h (minus k h s) })
  replace_fits e = ground arith

  pub clear_fits : Fits before (record before { outstanding = 0 })
  clear_fits = ground arith
