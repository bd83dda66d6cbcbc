-- ===== src/Mempool/Bundling/Budget.antt =====
-- The gas budget of a bundle (`process` of src/mempool/mempool.ts).
use pimlico_alto_smart_accou.Common.{
  ℕ, ◌+◌, ◌≤◌, ◌≡◌, ◌⊎◌, inl, false, Option, some, List, [], ◌∷◌, arith, ltb, leb, ◌&&◌, length,
  get_or_else,
}
use pimlico_alto_smart_accou.Store.{UserOperationInfo}
use pimlico_alto_smart_accou.Mempool.{Mempool, op_of}
use pimlico_alto_smart_accou.Mempool.Skipping.{Outside, Bundle}
use pimlico_alto_smart_accou.Mempool.Bundling.{Sort, gas_of, process_loop, process}
use pimlico_alto_smart_accou.Mempool.Bundling.Rule.{Ensures, Ensures-some, process_loop-rule}

abbrev pub total_gas : List UserOperationInfo → ℕ
total_gas [] = 0
total_gas (info ∷ rest) = gas_of (op_of info) + total_gas rest

-- What the loop promises of the operations that it takes from here on.
abbrev Fits : ℕ → ℕ → ℕ → ℕ → List UserOperationInfo → Type 0
Fits max_gas min_ops taken gas [] = Unit {0}
Fits max_gas min_ops taken gas (info ∷ rest) =
    (gas + total_gas (info ∷ rest) ≤ max_gas) ⊎ (taken + length (info ∷ rest) ≤ min_ops)

Fits-skip :
    (max_gas min_ops taken gas more : ℕ) (infos : List UserOperationInfo)
    → Fits max_gas min_ops taken (gas + more) infos
    → Fits max_gas min_ops taken gas infos
Fits-skip max_gas min_ops taken gas more [] h = tt
Fits-skip max_gas min_ops taken gas more (x ∷ xs) h = omega arith

Fits-take :
    (max_gas min_ops taken gas : ℕ) (info : UserOperationInfo) (infos : List UserOperationInfo)
    → (ltb max_gas (gas + gas_of (op_of info)) && leb min_ops taken) ≡ false
    → Fits max_gas min_ops (taken + 1) (gas + gas_of (op_of info)) infos
    → Fits max_gas min_ops taken gas (info ∷ infos)
Fits-take max_gas min_ops taken gas info [] t h = ground arith
Fits-take max_gas min_ops taken gas info (x ∷ xs) t h = omega arith

process_loop-Fits :
    (out : Outside) (max_gas min_ops : ℕ) (todo : List UserOperationInfo) (taken gas : ℕ)
    (b : Bundle) (m : Mempool)
    → Ensures
        (Fits max_gas min_ops taken gas)
        (process_loop out max_gas min_ops todo taken gas b m).0
process_loop-Fits out max_gas min_ops =
    process_loop-rule out max_gas min_ops
      (λ taken gas b m infos. Fits max_gas min_ops taken gas infos) (λ taken gas b m. tt)
      (λ taken gas b m info infos e h.
        Fits-skip max_gas min_ops taken gas (gas_of (op_of info)) infos h)
      (λ taken gas b m info infos within e h.
        Fits-take max_gas min_ops taken gas info infos within h)

Fits-start :
    (max_gas min_ops : ℕ) (infos : List UserOperationInfo)
    → Fits max_gas min_ops 0 0 infos
    → (total_gas infos ≤ max_gas) ⊎ (length infos ≤ min_ops)
Fits-start max_gas min_ops [] h = inl (omega arith)
Fits-start max_gas min_ops (x ∷ xs) h = omega arith

-- The operations that `process` returns fit the gas limit together, or are no more than the minimum
-- number asked for, however the operations are sorted and whatever other tasks do meanwhile.
pub process-within_gas :
    (out : Outside) (sort : Sort) (m : Mempool) (max_gas : ℕ) (min_ops : Option ℕ)
    (infos : List UserOperationInfo)
    → (process out sort m max_gas min_ops).0 ≡ some infos
    → (total_gas infos ≤ max_gas) ⊎ (length infos ≤ get_or_else min_ops 0)
unfolding process
process-within_gas out sort m max_gas min_ops infos h =
    Fits-start max_gas (get_or_else min_ops 0) infos
      (Ensures-some _ _ infos h (process_loop-Fits out max_gas (get_or_else min_ops 0) _ 0 0 _ m))
