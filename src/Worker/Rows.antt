-- ===== src/Worker/Rows.antt =====
-- Facts about the rows that a query finds, updates or orders.
use mathlib.Core.Path.{subst}
use ephi.Base.{
  Bool, true, some, List, [], ◌∷◌, ◌≡◌, All, Bool-cases, Option-cases, ℕ, inl, inr, some_inj, find,
}
use ephi.Worker.Model.{JobRecord, update}
use ephi.Worker.Claims.{comes_before, first_of_order}

module _ {A : Type 0} where
  -- A found row meets the condition, and whatever holds of all rows.
  pub find_sound : (p : A → Bool) (xs : List A) {x : A} → find p xs ≡ some x → p x ≡ true
  unfolding find
  find_sound p [] h = cc
  find_sound p (y ∷ ys) {x} h = elim (Bool-cases (p y)) [
    | inl hit ↦ let e : y ≡ x = some_inj (rw hit at h) in subst (λ z. p z ≡ true) e hit
    | inr miss ↦ find_sound p ys (rw miss at h)
  ]

  pub find-All :
      (Q : A → Type 0) (p : A → Bool) (xs : List A) {x : A} → All Q xs → find p xs ≡ some x → Q x
  unfolding find
  find-All Q p [] a h = cc
  find-All Q p (y ∷ ys) {x} a h = elim (Bool-cases (p y)) [
    | inl hit ↦ let e : y ≡ x = some_inj (rw hit at h) in subst Q e a.0
    | inr miss ↦ find-All Q p ys a.1 (rw miss at h)
  ]

  -- An update keeps what every row has if it keeps it for the rows that it matches.
  pub update-All :
      (Q : A → Type 0) (p : A → Bool) (f : A → A) (xs : List A)
      → ((x : A) → p x ≡ true → Q x → Q (f x))
      → All Q xs
      → All Q (update p f xs)
  unfolding update
  update-All Q p f [] keep a = tt
  update-All Q p f (x ∷ xs) keep a = elim (Bool-cases (p x)) [
    | inl hit ↦ rw hit (keep x hit a.0, update-All Q p f xs keep a.1)
    | inr miss ↦ rw miss (a.0, update-All Q p f xs keep a.1)
  ]

module _ {P : Type 0} where
  -- The first row in the order meets the condition and whatever holds of all rows.
  pub first_of_order-All :
      (Q : JobRecord P → Type 0) (before : List ℕ → List ℕ → Bool) (p : JobRecord P → Bool)
      (js : List (JobRecord P)) {i : JobRecord P}
      → All Q js
      → first_of_order before p js ≡ some i
      → Q i × (p i ≡ true)
  unfolding first_of_order
  first_of_order-All Q before p [] a h = cc
  first_of_order-All Q before p (j ∷ js) {i} a h =
      elim (Option-cases (first_of_order before p js)) [
        | inl last ↦ elim (Bool-cases (p j)) [
          | inl hit ↦ here hit (some_inj (rw (last, hit) at h))
          | inr miss ↦ cc (rw (last, miss) at h)
        ]
        | inr (k, more) ↦
            let rest = first_of_order-All Q before p js a.1 more in
            elim (Bool-cases (p j)) [
              | inl hit ↦ elim (Bool-cases (comes_before before k j)) [
                | inl earlier ↦ there (some_inj (rw (more, hit, earlier) at h)) rest
                | inr later ↦ here hit (some_inj (rw (more, hit, later) at h))
              ]
              | inr miss ↦ there (some_inj (rw (more, miss) at h)) rest
            ]
      ]
    where
      here : p j ≡ true → j ≡ i → Q i × (p i ≡ true)
      here hit e = subst (λ z. Q z × (p z ≡ true)) e (a.0, hit)

      there : {k : JobRecord P} → k ≡ i → Q k × (p k ≡ true) → Q i × (p i ≡ true)
      there e q = subst (λ z. Q z × (p z ≡ true)) e q
