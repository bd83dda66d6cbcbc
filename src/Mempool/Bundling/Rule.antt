-- ===== src/Mempool/Bundling/Rule.antt =====
-- The rule by which statements about the loop of `process` (src/mempool/mempool.ts) are proved.
use pimlico_alto_smart_accou.Common.{
  ℕ, ◌+◌, ◌≡◌, refl, false, Option, none, some, List, [], ◌∷◌, ltb, leb, ◌&&◌, Bool-cases, inl, inr,
}
use pimlico_alto_smart_accou.Store.{UserOperationInfo}
use pimlico_alto_smart_accou.Mempool.{Mempool, op_of}
use pimlico_alto_smart_accou.Mempool.Skipping.{
  Outside, Bundle, Verdict, skip, take, failed, should_skip,
}
use pimlico_alto_smart_accou.Mempool.Bundling.{gas_of, cons_some, take_operation, process_loop}

-- What is said of the list, if there is one.
abbrev pub Ensures {ℓ} :
    (List UserOperationInfo → Type ℓ) → Option (List UserOperationInfo) → Type ℓ
Ensures P none = Unit
Ensures P (some infos) = P infos

pub Ensures-some {ℓ} :
    (P : List UserOperationInfo → Type ℓ) (o : Option (List UserOperationInfo))
    (infos : List UserOperationInfo)
    → o ≡ some infos
    → Ensures P o
    → P infos
Ensures-some P o infos e h = rw e at h

Ensures-cons {ℓ} :
    (P Q : List UserOperationInfo → Type ℓ) (info : UserOperationInfo)
    (r : Option (List UserOperationInfo) × Mempool)
    → ((infos : List UserOperationInfo) → P infos → Q (info ∷ infos))
    → Ensures P r.0
    → Ensures Q (cons_some info r).0
Ensures-cons P Q info (none, m) f h = tt
Ensures-cons P Q info (some infos, m) f h = f infos h

Ensures-map {ℓ} :
    (P Q : List UserOperationInfo → Type ℓ) (o : Option (List UserOperationInfo))
    → ((infos : List UserOperationInfo) → P infos → Q infos)
    → Ensures P o
    → Ensures Q o
Ensures-map P Q none f h = tt
Ensures-map P Q (some infos) f h = f infos h

module _ {ℓ} (out : Outside) (max_gas min_ops : ℕ)
    (P : ℕ → ℕ → Bundle → Mempool → List UserOperationInfo → Type ℓ)
    (stop : (taken gas : ℕ) (b : Bundle) (m : Mempool) → P taken gas b m [])
    (skipped : (taken gas : ℕ) (b : Bundle) (m : Mempool) (info : UserOperationInfo)
        (infos : List UserOperationInfo)
      → (should_skip out info b m).0 ≡ skip
      → P taken
          (gas + gas_of (op_of info))
          (should_skip out info b m).1
          (should_skip out info b m).2
          infos
      → P taken gas b m infos)
    (took : (taken gas : ℕ) (b : Bundle) (m : Mempool) (info : UserOperationInfo)
        (infos : List UserOperationInfo)
      → (ltb max_gas (gas + gas_of (op_of info)) && leb min_ops taken) ≡ false
      → (should_skip out info b m).0 ≡ take
      → P
          (taken + 1)
          (gas + gas_of (op_of info))
          (should_skip out info b m).1
          (take_operation out info (should_skip out info b m).2)
          infos
      → P taken gas b m (info ∷ infos)) where
  pub process_loop-rule :
      (todo : List UserOperationInfo) (taken gas : ℕ) (b : Bundle) (m : Mempool)
      → Ensures (P taken gas b m) (process_loop out max_gas min_ops todo taken gas b m).0
  unfolding process_loop
  process_loop-rule [] taken gas b m = stop taken gas b m
  process_loop-rule (info ∷ rest) taken gas b m =
      elim (Bool-cases (ltb max_gas (gas + gas_of (op_of info)) && leb min_ops taken)) [
        | inl over ↦ rw (over, process_loop) (stop taken gas b m)
        | inr within ↦
            rw (within, process_loop)
              (go within (process_loop-rule rest taken gas' b' m')
                (process_loop-rule rest (taken + 1) gas' b' (take_operation out info m'))
                (should_skip out info b m).0 refl)
      ]
    where
      b' : Bundle
      b' = (should_skip out info b m).1

      m' : Mempool
      m' = (should_skip out info b m).2

      gas' : ℕ
      gas' = gas + gas_of (op_of info)

      go :
          (ltb max_gas (gas + gas_of (op_of info)) && leb min_ops taken) ≡ false
          → Ensures (P taken gas' b' m') (process_loop out max_gas min_ops rest taken gas' b' m').0
          → Ensures
              (P (taken + 1) gas' b' (take_operation out info m'))
              (process_loop out max_gas min_ops rest
                (taken + 1)
                gas'
                b'
                (take_operation out info m')).0
          → (v : Verdict) → (should_skip out info b m).0 ≡ v
          → Ensures
              (P taken gas b m)
              (elim v as (λ _. Option (List UserOperationInfo) × Mempool) [
                | failed ↦ (none, m')
                | skip ↦ process_loop out max_gas min_ops rest taken gas' b' m'
                | take ↦ cons_some info (
                    process_loop out max_gas min_ops rest
                      (taken + 1)
                      gas'
                      b'
                      (take_operation out info m'))
              ]).0
      go within s t failed e = tt
      go within s t skip e =
          Ensures-map (P taken gas' b' m') (P taken gas b m) _
            (λ infos h. skipped taken gas b m info infos e h) s
      go within s t take e =
          Ensures-cons (P (taken + 1) gas' b' (take_operation out info m')) (P taken gas b m) info _
            (λ infos h. took taken gas b m info infos within e h) t
