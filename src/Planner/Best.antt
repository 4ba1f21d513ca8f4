-- ===== src/Planner/Best.antt =====
-- The chosen check ranks first (`_rank_key` of src/ephi/application/planner.py, and the sort in `plan`).
use ephi.Base.{
  ◌≡◌, refl, Bool, true, false, ◌&&◌, not, some, List, [], ◌∷◌, arith, ltb, All, Bool-cases, inl,
  inr, contains, list_Eq, ℕ_eq, if◌then◌else◌, some_inj,
}
use mathlib.Core.Path.{subst}
use ephi.Base.Text.{Text}
use ephi.Base.Order.{IsOrder, lexically-IsOrder, IsIn}
use ephi.Base.Sort.{text_before}
use ephi.Planner.Templates.{Decimals}
use ephi.Planner.Score.{disruption_cost}
use ephi.Planner.Ranking.{Scored, seconds_or_last, ranks_before, pareto_front, first_of, choose}

-- Texts are ordered by their code points.
text_before-IsOrder : IsOrder text_before
unfolding text_before
text_before-IsOrder = record { asymmetric = swap; between = middle }
  where
    swap : (a b : Text) → text_before a b ≡ true → text_before b a ≡ false
    swap [] [] h = cc
    swap [] (y ∷ b) h = refl
    swap (x ∷ a) [] h = cc
    swap (x ∷ a) (y ∷ b) h = ground (arith, swap a b)

    middle :
        (a b c : Text) → text_before a b ≡ false → text_before b c ≡ false → text_before a c ≡ false
    middle a b [] h k = refl
    middle [] [] (z ∷ c) h k = cc
    middle [] (y ∷ b) (z ∷ c) h k = cc
    middle (x ∷ a) [] (z ∷ c) h k = cc
    middle (x ∷ a) (y ∷ b) (z ∷ c) h k = ground (arith, middle a b c)

module _ (d : Decimals) (o : IsOrder d.less) where
  ascending : (key : Scored d → d.Decimal) → IsOrder (λ a b. d.less (key a) (key b))
  ascending key = record {
    asymmetric = λ a b. o.asymmetric (key a) (key b);
    between = λ a b c. o.between (key a) (key b) (key c);
  }

  descending : (key : Scored d → d.Decimal) → IsOrder (λ a b. d.less (key b) (key a))
  descending key = record {
    asymmetric = λ a b. o.asymmetric (key b) (key a);
    between = λ a b c h k. o.between (key c) (key b) (key a) k h;
  }

  by_front : (flag : Scored d → Bool) → IsOrder (λ a b. flag a && not (flag b))
  by_front flag = record { asymmetric = λ a b h. ground arith; between = λ a b c h k. ground arith }

  by_seconds :
      IsOrder (λ (a b : Scored d). ltb (seconds_or_last a.seconds) (seconds_or_last b.seconds))
  by_seconds = record { asymmetric = λ a b h. ground arith; between = λ a b c h k. ground arith }

  by_name : IsOrder (λ (a b : Scored d). text_before a.template.template_id b.template.template_id)
  by_name = record {
    asymmetric =
        λ a b. text_before-IsOrder.asymmetric a.template.template_id b.template.template_id;
    between = λ a b c.
        text_before-IsOrder.between a.template.template_id b.template.template_id
          c.template.template_id;
  }

  ranks_before-IsOrder : (front : List Text) → IsOrder (ranks_before d front)
  unfolding ranks_before
  ranks_before-IsOrder front = lexically-IsOrder (descending (λ x. x.terms.utility)) (
      lexically-IsOrder (descending (λ x. x.terms.discrimination)) (
        lexically-IsOrder (by_front (λ x. contains x.template.template_id front)) (
          lexically-IsOrder (ascending (λ x. disruption_cost d x.template.disruption))
            (lexically-IsOrder by_seconds by_name))))

  module _ (before : Scored d → Scored d → Bool) (w : IsOrder before) where
    irreflexive : (x : Scored d) → before x x ≡ false
    irreflexive x = elim (Bool-cases (before x x)) [ inl h ↦ w.asymmetric x x h | inr h ↦ h ]

    abbrev IsLeast : Scored d → List (Scored d) → Type 0
    IsLeast z xs = IsIn z xs × All (λ (x : Scored d). before x z ≡ false) xs

    -- The least of a list is that of a longer one, whose first two are compared.
    IsLeast-longer :
        (x y z : Scored d) (ys : List (Scored d)) (sooner : Bool)
        → before y x ≡ sooner
        → IsLeast z ((if sooner then y else x) ∷ ys)
        → IsLeast z (x ∷ (y ∷ ys))
    IsLeast-longer x y z ys true h (there, least) =
        (inr there, (w.between x y z (w.asymmetric y x h) least.0, least))
    IsLeast-longer x y z ys false h (inl e, least) =
        (inl e, (least.0, (w.between y x z h least.0, least.1)))
    IsLeast-longer x y z ys false h (inr there, least) =
        (inr (inr there), (least.0, (w.between y x z h least.0, least.1)))

    first_of-IsLeast :
        (x : Scored d) (xs : List (Scored d)) → IsLeast (first_of d before x xs) (x ∷ xs)
    unfolding first_of
    first_of-IsLeast x [] = (inl refl, (irreflexive x, tt))
    first_of-IsLeast x (y ∷ ys) =
        IsLeast-longer x y _ ys (before y x) refl
          (first_of-IsLeast (if before y x then y else x) ys)

  -- Where the comparison of decimals is an order, the check that the loop takes is one of the scored
  -- checks, and none of them has a smaller rank key.
  pub choose-IsFirst :
      (xs : List (Scored d)) {chosen : Scored d}
      → choose d xs ≡ some chosen
      → IsIn chosen xs
        × All (λ (z : Scored d). ranks_before d (pareto_front d xs) z chosen ≡ false) xs
  unfolding choose
  choose-IsFirst [] h = cc
  choose-IsFirst (x ∷ xs) {chosen} h =
      let front = pareto_front d (x ∷ xs) in
      subst
        (λ y. IsIn y (x ∷ xs) × All (λ (z : Scored d). ranks_before d front z y ≡ false) (x ∷ xs))
        (some_inj h) (first_of-IsLeast (ranks_before d front) (ranks_before-IsOrder front) x xs)
