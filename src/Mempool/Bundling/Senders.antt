-- ===== src/Mempool/Bundling/Senders.antt =====
-- The senders of a bundle (`process` of src/mempool/mempool.ts).
use pimlico_alto_smart_accou.Common.{
  ℕ, ◌≡◌, ◌∙◌, refl, ap, sym, Bool, true, false, ◌&&◌, Option, some, List, [], ◌∷◌, get_or_else,
}
use mathlib.Core.Path.{subst}
use pimlico_alto_smart_accou.UserOp.{sender}
use pimlico_alto_smart_accou.Store.{UserOperationInfo}
use pimlico_alto_smart_accou.Mempool.{Mempool, MempoolConfig, op_of, member}
use pimlico_alto_smart_accou.Mempool.Skipping.{Outside, Bundle}
use pimlico_alto_smart_accou.Mempool.Skipping.Config.{
  KeepsConfig, statuses-config, should_skip-config,
}
use pimlico_alto_smart_accou.Mempool.Skipping.Taken.{should_skip-NotesSender, should_skip-Sound}
use pimlico_alto_smart_accou.Mempool.Bundling.{Sort, take_operation, process_loop, process}
use pimlico_alto_smart_accou.Mempool.Bundling.Rule.{Ensures, Ensures-some, process_loop-rule}

-- No operation has a sender of the list, or the sender of an operation before it.
abbrev pub NewSenders : List ℕ → List UserOperationInfo → Type 0
NewSenders seen [] = Unit {0}
NewSenders seen (info ∷ rest) =
    (member (sender (op_of info)) seen ≡ false) × NewSenders (sender (op_of info) ∷ seen) rest

-- Safe mode with unique senders.
abbrev pub IsStrict : MempoolConfig → Type 0
IsStrict c = (c.safe_mode ≡ true) × (c.enforce_unique_senders_per_bundle ≡ true)

left_false : (x y : Bool) → y ≡ true → (x && y) ≡ false → x ≡ false
left_false true y e h = cc
left_false false y e h = refl

module _ (out : Outside) (keeps : KeepsConfig out) (max_gas min_ops : ℕ) where
  loop-NewSenders :
      (todo : List UserOperationInfo) (taken gas : ℕ) (b : Bundle) (m : Mempool)
      → Ensures
          (λ infos. IsStrict m.config → NewSenders b.senders infos)
          (process_loop out max_gas min_ops todo taken gas b m).0
  unfolding take_operation
  loop-NewSenders =
      process_loop-rule out max_gas min_ops
        (λ taken gas b m infos. IsStrict m.config → NewSenders b.senders infos)
        (λ taken gas b m s. tt)
        (λ taken gas b m info infos e h s.
          let same = (should_skip-NotesSender out info b m s.0).1 e in
          subst (λ l. NewSenders l infos) same
            (h (subst IsStrict (sym (should_skip-config out keeps info b m)) s)))
        (λ taken gas b m info infos within e h s.
          let noted = (should_skip-NotesSender out info b m s.0).0 e in
          let sound = should_skip-Sound out info b m s.0 e in
          (
            left_false _ _
                (ap (λ (c : MempoolConfig). c.enforce_unique_senders_per_bundle)
                    (statuses-config out keeps info m)
                  ∙ s.1)
                sound.passed.new_sender,
            subst (λ l. NewSenders l infos) noted
                (h (subst IsStrict (sym (should_skip-config out keeps info b m)) s)),
          ))

-- In safe mode with unique senders, the operations that `process` returns have different senders,
-- however the operations are sorted and whatever other tasks do meanwhile to anything but the
-- configuration.
pub process-NewSenders :
    (out : Outside) (sort : Sort) (m : Mempool) (max_gas : ℕ) (min_ops : Option ℕ)
    (infos : List UserOperationInfo)
    → KeepsConfig out
    → IsStrict m.config
    → (process out sort m max_gas min_ops).0 ≡ some infos
    → NewSenders [] infos
unfolding process
process-NewSenders out sort m max_gas min_ops infos keeps strict h =
    Ensures-some _ _ infos h (loop-NewSenders out keeps max_gas (get_or_else min_ops 0) _ 0 0 _ m)
      strict
