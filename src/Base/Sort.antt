-- ===== src/Base/Sort.antt =====
-- Python's `sorted`, and sets of strings as lists without repetition.
use mathlib.Core.Bool.{Bool, true, false, ◌&&◌, ◌||◌, not}
use mathlib.Core.List.{List, [], ◌∷◌, ◌++◌}
use ephi.Base.Tests.{ltb, if◌then◌else◌}
use ephi.Base.Equality.{Eq, contains, list_Eq, ℕ_eq}
use ephi.Base.Text.{Text}

module _ {ℓ} {A : Type ℓ} where
  -- `[x for x in xs if p(x)]`
  unfoldable pub filter : (A → Bool) → List A → List A
  filter p [] = []
  filter p (x ∷ xs) = if p x then x ∷ filter p xs else filter p xs

  -- `any(p(x) for x in xs)`
  unfoldable pub any : (A → Bool) → List A → Bool
  any p [] = false
  any p (x ∷ xs) = p x || any p xs

  -- Before the first element that it stands before: later equals stay later.
  unfoldable pub insert_sorted : (A → A → Bool) → A → List A → List A
  insert_sorted before x [] = x ∷ []
  insert_sorted before x (y ∷ ys) =
      if before y x then y ∷ insert_sorted before x ys else x ∷ (y ∷ ys)

  -- `sorted(xs)`, which keeps the order of equals.
  unfoldable pub sort_by : (A → A → Bool) → List A → List A
  unfolding insert_sorted
  sort_by before [] = []
  sort_by before (x ∷ xs) = insert_sorted before x (sort_by before xs)

module _ {ℓ} {A : Type ℓ} ⦃e : Eq A⦄ where
  -- `s.add(x)`
  unfoldable pub with_element : A → List A → List A
  with_element x xs = if contains x xs then xs else xs ++ (x ∷ [])

  -- `set(xs)`
  unfoldable pub as_set : List A → List A
  as_set [] = []
  as_set (x ∷ xs) = let rest = as_set xs in if contains x rest then rest else x ∷ rest

  -- `a - b` and `a & b`
  unfoldable pub difference : List A → List A → List A
  unfolding filter
  difference a b = filter (λ x. not (contains x b)) a

  unfoldable pub intersection : List A → List A → List A
  unfolding filter
  intersection a b = filter (λ x. contains x b) a

  -- `a.issubset(b)`
  unfoldable pub is_subset : List A → List A → Bool
  is_subset [] b = true
  is_subset (x ∷ a) b = contains x b && is_subset a b

-- `a < b` of strings: by code points.
unfoldable pub text_before : Text → Text → Bool
text_before s [] = false
text_before [] (d ∷ t) = true
text_before (c ∷ s) (d ∷ t) = if ltb c d then true else if ltb d c then false else text_before s t

-- `tuple(sorted(set(xs)))`
unfoldable pub sorted_set : List Text → List Text
unfolding as_set sort_by text_before
sorted_set xs = sort_by text_before (as_set xs)
