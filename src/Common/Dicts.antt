-- ===== src/Common/Dicts.antt =====
-- An object or a `Record` keyed by numbers, in insertion order: `d[k]`, `d[k] = v`, `delete d[k]`.
use Prim.Native.Nat.{ℕ}
use mathlib.Core.Path.{◌≡◌, refl}
use mathlib.Core.Option.{Option, none, some}
use mathlib.Core.List.{List, [], ◌∷◌}
use native.Mathlib.Omega.{arith}
use pimlico_alto_smart_accou.Common.Tests.{◌==◌, if◌then◌else◌}

abbrev pub Dict {ℓ} : Type ℓ → Type ℓ
Dict V = List (ℕ × V)

module _ {ℓ} {V : Type ℓ} where
  unfoldable pub get? : Dict V → ℕ → Option V
  get? [] k = none
  get? (e ∷ rest) k = if e.0 == k then some e.1 else get? rest k

  unfoldable pub put : Dict V → ℕ → V → Dict V
  put [] k v = (k, v) ∷ []
  put (e ∷ rest) k v = if e.0 == k then (k, v) ∷ rest else e ∷ put rest k v

  -- Every entry of the key goes; `put` keeps keys distinct, so there is one at most.
  unfoldable pub delete : Dict V → ℕ → Dict V
  delete [] k = []
  delete (e ∷ rest) k = if e.0 == k then delete rest k else e ∷ delete rest k

  pub get?-put :
      (m : Dict V) (k j : ℕ) (v : V) → get? (put m k v) j ≡ (if k == j then some v else get? m j)
  unfolding get? put
  get?-put [] k j v = refl
  get?-put (e ∷ rest) k j v = ground (arith, get?-put rest k j v)

  pub get?-delete :
      (m : Dict V) (k j : ℕ) → get? (delete m k) j ≡ (if k == j then none else get? m j)
  unfolding get? delete
  get?-delete [] k j = ground arith
  get?-delete (e ∷ rest) k j = ground (arith, get?-delete rest k j)
