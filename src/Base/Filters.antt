-- ===== src/Base/Filters.antt =====
-- Lemmas on filters and on tests for some element.
use mathlib.Core.Path.{◌≡◌, refl}
use mathlib.Core.Logic.{inl, inr}
use mathlib.Core.Bool.{Bool, true, false, not}
use mathlib.Core.List.{List, [], ◌∷◌, ◌++◌}
use native.Mathlib.Omega.{arith}
use ephi.Base.Tests.{Bool-cases}
use ephi.Base.Lists.{All}
use ephi.Base.Sort.{filter, any}

module _ {A : Type 0} where
  pub All-filter : (Q : A → Type 0) (p : A → Bool) (xs : List A) → All Q xs → All Q (filter p xs)
  unfolding filter
  All-filter Q p [] a = tt
  All-filter Q p (x ∷ xs) a = elim (Bool-cases (p x)) [
    | inl hit ↦ rw hit (a.0, All-filter Q p xs a.1)
    | inr miss ↦ rw miss (All-filter Q p xs a.1)
  ]

  -- What passes a filter passes its test.
  pub filter-All : (p : A → Bool) (xs : List A) → All (λ (x : A). p x ≡ true) (filter p xs)
  unfolding filter
  filter-All p [] = tt
  filter-All p (x ∷ xs) = elim (Bool-cases (p x)) [
    | inl hit ↦ rw hit (hit, filter-All p xs)
    | inr miss ↦ rw miss (filter-All p xs)
  ]

  -- Nothing passes an empty filter.
  pub filter-none :
      (p : A → Bool) (xs : List A) → filter p xs ≡ [] → All (λ (x : A). p x ≡ false) xs
  unfolding filter
  filter-none p [] h = tt
  filter-none p (x ∷ xs) h = elim (Bool-cases (p x)) [
    | inl hit ↦ cc (rw hit at h)
    | inr miss ↦ (miss, filter-none p xs (rw miss at h))
  ]

  pub any-none : (p : A → Bool) (xs : List A) → All (λ (x : A). p x ≡ false) xs → any p xs ≡ false
  unfolding any
  any-none p [] a = refl
  any-none p (x ∷ xs) a = rw (a.0, any-none p xs a.1) refl

  pub append-empty : (xs ys : List A) → xs ++ ys ≡ [] → (xs ≡ []) × (ys ≡ [])
  append-empty [] ys h = (refl, h)
  append-empty (x ∷ xs) ys h = cc

pub not-true : (b : Bool) → not b ≡ true → b ≡ false
not-true b h = ground arith
