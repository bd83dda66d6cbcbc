-- ===== src/Common/Lists.antt =====
-- The array methods that the source calls: `find`, `some`, `filter`, `length`, and a removal of the
-- first match (`findIndex` and `splice`).
use Prim.Native.Nat.{ℕ, suc, ◌+◌, ◌≤◌}
use mathlib.Core.Path.{◌≡◌, refl}
use mathlib.Core.Bool.{Bool, true, false, ◌||◌}
use mathlib.Core.Option.{Option, none, some}
use mathlib.Core.List.{List, [], ◌∷◌, ◌++◌}
use native.Mathlib.Omega.{arith}
use pimlico_alto_smart_accou.Common.Tests.{if◌then◌else◌}

module _ {ℓ} {A : Type ℓ} where
  abbrev pub length : List A → ℕ
  length [] = 0
  length (x ∷ xs) = suc (length xs)

  abbrev pub find : (A → Bool) → List A → Option A
  find p [] = none
  find p (x ∷ xs) = if p x then some x else find p xs

  abbrev pub any : (A → Bool) → List A → Bool
  any p [] = false
  any p (x ∷ xs) = p x || any p xs

  abbrev pub filter : (A → Bool) → List A → List A
  filter p [] = []
  filter p (x ∷ xs) = if p x then x ∷ filter p xs else filter p xs

  -- How many elements pass.
  abbrev pub count : (A → Bool) → List A → ℕ
  count p [] = 0
  count p (x ∷ xs) = if p x then suc (count p xs) else count p xs

  -- Without the first element that passes.
  abbrev pub erase_first : (A → Bool) → List A → List A
  erase_first p [] = []
  erase_first p (x ∷ xs) = if p x then xs else x ∷ erase_first p xs

  pub length-append : (xs ys : List A) → length (xs ++ ys) ≡ length xs + length ys
  length-append [] ys = omega arith
  length-append (x ∷ xs) ys = omega (arith, length-append xs ys)

  pub count-append : (p : A → Bool) (xs ys : List A) → count p (xs ++ ys) ≡ count p xs + count p ys
  count-append p [] ys = omega arith
  count-append p (x ∷ xs) ys = ground (arith, count-append p xs ys)

  pub length-filter : (p : A → Bool) (xs : List A) → length (filter p xs) ≡ count p xs
  length-filter p [] = refl
  length-filter p (x ∷ xs) = ground (arith, length-filter p xs)

  pub length-erase_first :
      (p : A → Bool) (xs : List A) (a : A)
      → find p xs ≡ some a
      → length (erase_first p xs) + 1 ≡ length xs
  length-erase_first p [] a h = cc
  length-erase_first p (x ∷ xs) a h = ground (arith, length-erase_first p xs a)

  pub erase_first_missing : (p : A → Bool) (xs : List A) → find p xs ≡ none → erase_first p xs ≡ xs
  erase_first_missing p [] h = refl
  erase_first_missing p (x ∷ xs) h = ground (arith, erase_first_missing p xs)

  pub count-erase_first-le :
      (p q : A → Bool) (xs : List A) → count q (erase_first p xs) ≤ count q xs
  count-erase_first-le p q [] = omega arith
  count-erase_first-le p q (x ∷ xs) = ground (arith, count-erase_first-le p q xs)

  -- Erasing takes away what `find` finds, and counts fall by that element alone.
  pub count-erase_first :
      (p q : A → Bool) (xs : List A) (a : A)
      → find p xs ≡ some a
      → count q xs ≡ count q (erase_first p xs) + (if q a then 1 else 0)
  count-erase_first p q [] a h = cc
  count-erase_first p q (x ∷ xs) a h = ground (arith, count-erase_first p q xs a)

  pub find-passes : (p : A → Bool) (xs : List A) (a : A) → find p xs ≡ some a → p a ≡ true
  find-passes p [] a h = cc
  find-passes p (x ∷ xs) a h = ground (arith, find-passes p xs a)

  pub count-find-none : (p : A → Bool) (xs : List A) → find p xs ≡ none → count p xs ≡ 0
  count-find-none p [] h = refl
  count-find-none p (x ∷ xs) h = ground (arith, count-find-none p xs)

  pub count-find-some : (p : A → Bool) (xs : List A) (a : A) → find p xs ≡ some a → 1 ≤ count p xs
  count-find-some p [] a h = cc
  count-find-some p (x ∷ xs) a h = ground (arith, count-find-some p xs a)
