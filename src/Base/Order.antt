-- ===== src/Base/Order.antt =====
-- Orders given by tests, sorting keys that are compared field by field, and membership.
use mathlib.Core.Path.{◌≡◌, refl, sym, subst}
use mathlib.Core.Logic.{◌≢◌, ◌⊎◌, inl, inr}
use mathlib.Core.Bool.{Bool, true, false}
use mathlib.Core.List.{List, [], ◌∷◌, map}
use native.Mathlib.Omega.{arith}
use ephi.Base.Tests.{if◌then◌else◌}
use ephi.Base.Lists.{All}

-- A test that orders: no two elements are each before the other, and an element between two that
-- are in order is after the one or before the other.
pub record IsOrder {A : Type 0} (before : A → A → Bool) : Type 0 where
  pub asymmetric : (a b : A) → before a b ≡ true → before b a ≡ false
  pub between : (a b d : A) → before a b ≡ false → before b d ≡ false → before a d ≡ false

pub true≢false : true ≢ false
true≢false h = cc

-- Compare by the first test, and where it does not decide by the second.
abbrev pub lexically : {A : Type 0} → (A → A → Bool) → (A → A → Bool) → A → A → Bool
lexically p q a b = if p a b then true else if p b a then false else q a b

pub lexically-IsOrder :
    {A : Type 0} {p q : A → A → Bool} → IsOrder p → IsOrder q → IsOrder (lexically p q)
lexically-IsOrder {A} {p} {q} o w = record { asymmetric = swap; between = middle }
  where
    swap : (a b : A) → lexically p q a b ≡ true → lexically p q b a ≡ false
    swap a b h = ground (arith, o.asymmetric a b, w.asymmetric a b)

    middle :
        (a b d : A)
        → lexically p q a b ≡ false
        → lexically p q b d ≡ false
        → lexically p q a d ≡ false
    middle a b d h k =
        ground (arith, o.between a b d, o.between b d a, o.between d a b, w.between a b d)

abbrev pub IsIn : {A : Type 0} → A → List A → Type 0
IsIn x [] = ⊥
IsIn x (y ∷ ys) = (x ≡ y) ⊎ IsIn x ys

pub All-map :
    {A : Type 0} {Q R : A → Type 0} (xs : List A) → ((x : A) → Q x → R x) → All Q xs → All R xs
All-map [] f a = tt
All-map (x ∷ xs) f a = (f x a.0, All-map xs f a.1)

pub All-IsIn : {A : Type 0} (xs : List A) → All (λ (x : A). IsIn x xs) xs
All-IsIn [] = tt
All-IsIn (x ∷ xs) = (inl refl, All-map xs (λ y h. inr h) (All-IsIn xs))

pub All-mapped :
    {A B : Type 0} (Q : B → Type 0) (f : A → B) (xs : List A)
    → All (λ (x : A). Q (f x)) xs
    → All Q (map f xs)
All-mapped Q f [] a = tt
All-mapped Q f (x ∷ xs) a = (a.0, All-mapped Q f xs a.1)

pub All-at : {A : Type 0} (Q : A → Type 0) {x : A} (xs : List A) → All Q xs → IsIn x xs → Q x
All-at Q [] a there = elim there [ ]
All-at Q (y ∷ ys) a (inl e) = subst Q (sym e) a.0
All-at Q (y ∷ ys) a (inr there) = All-at Q ys a.1 there
