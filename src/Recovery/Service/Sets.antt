-- ===== src/Recovery/Service/Sets.antt =====
-- Sets of identities as lists without repetition, under `set.add`.
use ephi.Base.{
  suc, true, false, ◌||◌, List, [], ◌∷◌, ◌++◌, map, length, length-append, ◌≡◌, refl, Eq, ==-refl,
  contains, IsDistinct, All, arith, ℕ_eq, list_Eq,
}
use ephi.Base.Text.{Text}
use ephi.Recovery.Service.{set_add}

module _ {ℓ} {A : Type ℓ} ⦃e : Eq A⦄ where
  pub contains-append :
      (a : A) (xs ys : List A) → contains a (xs ++ ys) ≡ (contains a xs || contains a ys)
  unfolding contains
  contains-append a [] ys = refl
  contains-append a (x ∷ xs) ys = ground (arith, contains-append a xs ys)

  pub contains_snoc : (a : A) (xs : List A) → contains a (xs ++ (a ∷ [])) ≡ true
  unfolding contains
  contains_snoc a [] = ground (arith, ==-refl a)
  contains_snoc a (x ∷ xs) = ground (arith, contains_snoc a xs)

  -- An element of a list that lies in `known` lies in `known`.
  pub contains_of_All :
      (a : A) (known xs : List A)
      → All (λ i. contains i known ≡ true) xs
      → contains a xs ≡ true
      → contains a known ≡ true
  unfolding contains
  contains_of_All a known [] h c = cc
  contains_of_All a known (x ∷ xs) h c =
      ground (arith, e.beq_iff x a, contains_of_All a known xs h.1)

  -- So one outside `known` is not in the list.
  pub not_contains_of_All :
      (a : A) (known xs : List A)
      → All (λ i. contains i known ≡ true) xs
      → contains a known ≡ false
      → contains a xs ≡ false
  not_contains_of_All a known xs h c = ground (arith, contains_of_All a known xs h)

  pub IsDistinct-snoc :
      (a : A) (xs : List A) → IsDistinct xs → contains a xs ≡ false → IsDistinct (xs ++ (a ∷ []))
  unfolding contains
  IsDistinct-snoc a [] d h = (refl, tt)
  IsDistinct-snoc a (x ∷ xs) d h = (
    ground (arith, contains-append x xs (a ∷ []), e.beq_iff x a, e.beq_iff a x),
    IsDistinct-snoc a xs d.1 (ground arith),
  )

  pub known_append :
      (known more xs : List A)
      → All (λ i. contains i known ≡ true) xs
      → All (λ i. contains i (known ++ more) ≡ true) xs
  known_append known more [] h = tt
  known_append known more (x ∷ xs) h =
      (ground (arith, contains-append x known more), known_append known more xs h.1)

pub set_add_new :
    (a : Text) (xs : List Text) → contains a xs ≡ false → set_add a xs ≡ xs ++ (a ∷ [])
unfolding set_add
set_add_new a xs h = rw h

pub length-snoc {ℓ} : {A : Type ℓ} (xs : List A) (a : A) → length (xs ++ (a ∷ [])) ≡ suc (length xs)
length-snoc xs a = omega (arith, length-append xs (a ∷ []))

pub map-snoc {ℓ κ} :
    {A : Type ℓ} {B : Type κ} (f : A → B) (xs : List A) (a : A)
    → map f (xs ++ (a ∷ [])) ≡ map f xs ++ (f a ∷ [])
map-snoc f [] a = refl
map-snoc f (x ∷ xs) a = rw (map-snoc f xs a)
