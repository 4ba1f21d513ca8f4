-- ===== src/Planner/Ranking.antt =====
-- The order of candidates: `_pareto_front` and `_rank_key` of src/ephi/application/planner.py.
use ephi.Base.{
  ℕ, Bool, ◌&&◌, ◌||◌, not, Option, none, some, List, [], ◌∷◌, map, ltb, ◌==◌, list_Eq, ℕ_eq,
  contains, if◌then◌else◌,
}
use ephi.Base.Text.{Text}
use ephi.Base.Order.{lexically}
use ephi.Base.Sort.{filter, any, text_before}
use ephi.Planner.Templates.{Decimals, CheckTemplate}
use ephi.Planner.Score.{Alternative, ScoreTerms, disruption_cost}

-- A time that is not known is 2 ** 63 - 1.
unfoldable pub seconds_or_last : Option ℕ → ℕ
seconds_or_last none = 9223372036854775807
seconds_or_last (some seconds) = seconds

module _ (d : Decimals) where
  pub record Scored : Type 0 where
    pub template : CheckTemplate d
    pub terms : ScoreTerms d
    pub alternatives : List (Alternative d)
    pub facts_text : List Text
    pub seconds : Option ℕ

  -- `a <= b` and `a != b` of decimals.
  abbrev pub at_most : d.Decimal → d.Decimal → Bool
  at_most a b = not (d.less b a)

  abbrev pub differs : d.Decimal → d.Decimal → Bool
  differs a b = d.less a b || d.less b a

  -- `other` is no worse in effort, time and disruption at the same discrimination, and better in one.
  unfoldable pub dominates : Scored → Scored → Bool
  dominates other this =
      let other_time = seconds_or_last other.seconds in
      let this_time = seconds_or_last this.seconds in
      let other_cost = disruption_cost d other.template.disruption in
      let this_cost = disruption_cost d this.template.disruption in
      not (this.template.template_id == other.template.template_id)
      && not (differs this.terms.discrimination other.terms.discrimination)
      && (at_most other.terms.effort_disruption this.terms.effort_disruption
          && not (ltb this_time other_time)
          && at_most other_cost this_cost)
      && (d.less other.terms.effort_disruption this.terms.effort_disruption
          || ltb other_time this_time
          || d.less other_cost this_cost)

  -- `_pareto_front`, the set of the templates that no other dominates.
  unfoldable pub pareto_front : List Scored → List Text
  unfolding filter any
  pareto_front scored =
      map (λ item. item.template.template_id)
        (filter (λ item. not (any (λ other. dominates other item) scored)) scored)

  -- `_rank_key(a) < _rank_key(b)`: tuples are compared from the left.
  unfoldable pub ranks_before : List Text → Scored → Scored → Bool
  ranks_before front =
      lexically (λ a b. d.less b.terms.utility a.terms.utility)
        (lexically (λ a b. d.less b.terms.discrimination a.terms.discrimination)
          (lexically
            (λ a b.
              contains a.template.template_id front && not (contains b.template.template_id front))
            (lexically
              (λ a b.
                d.less (disruption_cost d a.template.disruption)
                  (disruption_cost d b.template.disruption))
              (lexically (λ a b. ltb (seconds_or_last a.seconds) (seconds_or_last b.seconds))
                (λ a b. text_before a.template.template_id b.template.template_id)))))

  -- The first of the sorted list.
  unfoldable pub first_of : (Scored → Scored → Bool) → Scored → List Scored → Scored
  first_of before x [] = x
  first_of before x (y ∷ ys) = first_of before (if before y x then y else x) ys

  -- `scored.sort(key=…)`, then `scored[0]`.
  unfoldable pub choose : List Scored → Option Scored
  choose [] = none
  choose (x ∷ xs) = some (first_of (ranks_before (pareto_front (x ∷ xs))) x xs)
