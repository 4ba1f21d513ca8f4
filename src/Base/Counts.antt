-- ===== src/Base/Counts.antt =====
-- How many elements of a list meet a test.
use Prim.Native.Nat.{ℕ, ◌+◌, ◌≤◌}
use mathlib.Core.Path.{◌≡◌, refl, sym, subst}
use mathlib.Core.Logic.{inl, inr}
use mathlib.Core.Bool.{Bool, true, false, not}
use mathlib.Core.List.{List, [], ◌∷◌, ◌++◌, map}
use native.Mathlib.Omega.{arith}
use ephi.Base.Tests.{if◌then◌else◌, Bool-cases}
use ephi.Base.Lists.{All}
use ephi.Base.Equality.{Eq, ◌==◌}
use ephi.Base.Dict.{Dict, insert}
use ephi.Base.Order.{IsIn}
use ephi.Base.Sort.{filter, insert_sorted, sort_by}

abbrev pub bit : Bool → ℕ
bit true = 1
bit false = 0

module _ {A : Type 0} where
  unfoldable pub count : (A → Bool) → List A → ℕ
  count p [] = 0
  count p (x ∷ xs) = bit (p x) + count p xs

  pub count-append : (p : A → Bool) (xs ys : List A) → count p (xs ++ ys) ≡ count p xs + count p ys
  unfolding count
  count-append p [] ys = omega arith
  count-append p (x ∷ xs) ys = omega (arith, count-append p xs ys)

  -- A filter and its complement share the elements out.
  pub count-filter :
      (p q : A → Bool) (xs : List A)
      → count p (filter q xs) + count p (filter (λ x. not (q x)) xs) ≡ count p xs
  unfolding count filter
  count-filter p q [] = refl
  count-filter p q (x ∷ xs) = ground (arith, count-filter p q xs)

  pub count-insert_sorted :
      (p : A → Bool) (before : A → A → Bool) (x : A) (ys : List A)
      → count p (insert_sorted before x ys) ≡ bit (p x) + count p ys
  unfolding count insert_sorted
  count-insert_sorted p before x [] = refl
  count-insert_sorted p before x (y ∷ ys) = elim (Bool-cases (before y x)) [
    | inl h ↦ rw h (omega (arith, count-insert_sorted p before x ys))
    | inr h ↦ rw h refl
  ]

  pub count-sort_by :
      (p : A → Bool) (before : A → A → Bool) (xs : List A)
      → count p (sort_by before xs) ≡ count p xs
  unfolding count sort_by
  count-sort_by p before [] = refl
  count-sort_by p before (x ∷ xs) =
      rw (count-insert_sorted p before x (sort_by before xs), count-sort_by p before xs) refl

  -- Tests that agree on every element count alike.
  pub count-same :
      (p q : A → Bool) (xs : List A) → All (λ (x : A). p x ≡ q x) xs → count p xs ≡ count q xs
  unfolding count
  count-same p q [] same = refl
  count-same p q (x ∷ xs) same = rw (same.0, count-same p q xs same.1) refl

  pub count-IsIn : (p : A → Bool) (x : A) (xs : List A) → p x ≡ true → IsIn x xs → 1 ≤ count p xs
  unfolding count
  count-IsIn p x [] h there = elim there [ ]
  count-IsIn p x (y ∷ ys) h (inl e) = rw (sym e, h) (omega arith)
  count-IsIn p x (y ∷ ys) h (inr there) = omega (arith, count-IsIn p x ys h there)

module _ {K : Type 0} ⦃e : Eq K⦄ where
  same_key : (a b c : K) → (a == b) ≡ true → (a == c) ≡ (b == c)
  same_key a b c h = subst (λ z. (a == c) ≡ (z == c)) ((e.beq_iff a b).0 h) refl

module _ {K V : Type 0} ⦃e : Eq K⦄ where
  -- The entries of a key.
  abbrev pub entries : K → Dict K V → ℕ
  entries k d = count (λ entry. entry.0 == k) d

  -- A key that is not there is added once, and the other keys keep their entries.
  pub entries-insert :
      (k : K) (v : V) (d : Dict K V) (j : K)
      → bit (k == j) + entries j d ≤ 1
      → entries j (insert k v d) ≡ bit (k == j) + entries j d
  unfolding count insert
  entries-insert k v [] j few = refl
  entries-insert k v ((i, w) ∷ d) j few = elim (Bool-cases (i == k)) [
    | inl here ↦ let same = same_key i k j here in rw here (ground (arith, same, few))
    | inr other ↦
        let rest : bit (k == j) + entries j d ≤ 1 = omega (arith, few) in
        rw other (omega (arith, entries-insert k v d j rest))
  ]

module _ {A K : Type 0} ⦃e : Eq K⦄ (f : A → K) where
  -- Without the elements of a key, the others are as many as before.
  pub count-without :
      (k j : K) (xs : List A)
      → count (λ x. f x == j) (filter (λ x. not (f x == k)) xs)
        ≡ (if k == j then 0 else count (λ x. f x == j) xs)
  unfolding count filter
  count-without k j [] = elim (Bool-cases (k == j)) [ inl h ↦ rw h refl | inr h ↦ rw h refl ]
  count-without k j (x ∷ xs) = elim (Bool-cases (f x == k)) [
    | inl here ↦ rw here (ground (arith, same_key (f x) k j here, count-without k j xs))
    | inr other ↦ elim (Bool-cases (k == j)) [
      | inl same ↦
          let miss : (f x == j) ≡ false =
            subst (λ z. (f x == z) ≡ false) ((e.beq_iff k j).0 same) other in
          rw (other, same, miss, count-without k j xs) (rw same refl)
      | inr differ ↦ rw (other, differ, count-without k j xs) (rw differ refl)
    ]
  ]

module _ {A B : Type 0} where
  pub count-map :
      (p : B → Bool) (f : A → B) (xs : List A) → count p (map f xs) ≡ count (λ x. p (f x)) xs
  unfolding count
  count-map p f [] = refl
  count-map p f (x ∷ xs) = rw (count-map p f xs) refl
