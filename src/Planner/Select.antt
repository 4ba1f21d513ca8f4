-- ===== src/Planner/Select.antt =====
-- The selection loop of `NextCheckPlannerService.plan` in src/ephi/application/planner.py.
use ephi.Base.{
  ℕ, zero, suc, ◌+◌, Bool, ◌&&◌, ◌||◌, not, none, some, List, [], ◌∷◌, ◌++◌, map, ◌==◌, list_Eq,
  ℕ_eq, contains, length, if◌then◌else◌,
}
use ephi.Base.Decimal.{decimal}
use ephi.Base.Text.{Text, codes}
use ephi.Base.Dict.{Dict, insert}
use ephi.Base.Sort.{
  filter, with_element, difference, intersection, sort_by, sorted_set, text_before,
}
use ephi.Planner.Facts.{ExclusionReason, PlannerReadFacts}
use ephi.Planner.Templates.{Decimals, CheckTemplate, PairDiscrimination}
use ephi.Planner.Score.{Alternative, score, turnaround_seconds, template_independent_groups}
use ephi.Planner.Ranking.{Scored, choose}
use ephi.Planner.Recommendation.{Recommendation, recommendation}

pub record ExcludedCheck : Type 0 where
  pub template_id : Text
  pub template_version : Text
  pub reasons : List ExclusionReason
  pub facts : List Text

-- Update a set with new elements.
unfoldable pub add_all : List Text → List Text → List Text
unfolding with_element
add_all [] xs = xs
add_all (y ∷ ys) xs = add_all ys (with_element y xs)

module _ (d : Decimals) where
  pub record Candidate : Type 0 where
    pub template : CheckTemplate d
    pub alternatives : List (Alternative d)
    pub facts_text : List Text

  -- The variables of the loop.
  pub record Selection : Type 0 where
    pub candidates : List Candidate
    pub recommendations : List (Recommendation d)
    pub excluded : Dict Text ExcludedCheck
    pub covered_pairs : List Text
    pub covered_groups : List Text

  -- What the loop reads: the identities are those of the policy and the catalog.
  pub record Inputs : Type 0 where
    pub facts : PlannerReadFacts
    pub weights : Dict Text d.Decimal
    pub identities : Text × Text

  unfoldable pub id_of : Candidate → Text
  id_of candidate = candidate.template.template_id

  unfoldable pub scored : Inputs → Selection → Candidate → Scored d
  scored i s candidate = record {
    template = candidate.template;
    terms = score d candidate.template i.facts i.weights s.covered_pairs s.covered_groups;
    alternatives = candidate.alternatives;
    facts_text = candidate.facts_text;
    seconds = turnaround_seconds d candidate.template i.facts;
  }

  -- The pairs that a chosen template covers.
  unfoldable pub pairs_covered : CheckTemplate d → PlannerReadFacts → List Text
  pairs_covered template facts =
      map (λ item. item.pair_id)
        (filter
          (λ (item : PairDiscrimination d).
            d.less (d.whole 0) item.value
            && contains item.pair_id (map (λ p. p.pair_id) facts.unresolved_pairs))
          template.candidate_discrimination)

  unfoldable pub common_redundancy : CheckTemplate d → CheckTemplate d → List Text
  common_redundancy other template =
      intersection other.redundancy_group_ids template.redundancy_group_ids

  unfoldable pub common_dependence :
      PlannerReadFacts → CheckTemplate d → CheckTemplate d → List Text
  common_dependence facts other template =
      intersection (template_independent_groups d other facts)
        (template_independent_groups d template facts)

  abbrev pub is_nonempty : List Text → Bool
  is_nonempty xs = not (xs == [])

  -- `other` is redundant with the selected template.
  unfoldable pub is_redundant : PlannerReadFacts → CheckTemplate d → CheckTemplate d → Bool
  is_redundant facts template other =
      contains template.template_id other.redundant_with
      || contains other.template_id template.redundant_with
      || is_nonempty (common_redundancy other template)
      || is_nonempty (common_dependence facts other template)

  unfoldable pub redundant_check :
      PlannerReadFacts → CheckTemplate d → CheckTemplate d → ExcludedCheck
  redundant_check facts template other = record {
    template_id = other.template_id;
    template_version = other.version;
    reasons = ExclusionReason.redundant_with_selected ∷ [];
    facts =
        (codes "selected_template:" ++ template.template_id)
        ∷ (map (λ g. codes "shared_redundancy_group:" ++ g)
              (sorted_set (common_redundancy other template))
            ++ map (λ g. codes "shared_dependence_group:" ++ g)
                (sorted_set (common_dependence facts other template)));
  }

  -- The entries that the redundant candidates get.
  unfoldable pub exclude_redundant :
      PlannerReadFacts
      → CheckTemplate d
      → List Candidate
      → Dict Text ExcludedCheck
      → Dict Text ExcludedCheck
  exclude_redundant facts template [] excluded = excluded
  exclude_redundant facts template (c ∷ cs) excluded = exclude_redundant facts template cs (
      if is_redundant facts template c.template
      then insert (id_of c) (redundant_check facts template c.template) excluded
      else excluded)

  -- `newly_covered_groups`
  unfoldable pub newly_covered_groups : Inputs → Scored d → Selection → List Text
  newly_covered_groups i chosen s =
      sort_by text_before
        (difference (template_independent_groups d chosen.template i.facts) s.covered_groups)

  unfoldable pub next_recommendation : Inputs → Scored d → Selection → Recommendation d
  next_recommendation i chosen s =
      recommendation d (length s.recommendations + 1) chosen.template chosen.terms
        chosen.alternatives (newly_covered_groups i chosen s) i.facts i.identities chosen.seconds

  -- The chosen candidate leaves the candidates, and becomes the next recommendation.
  unfoldable pub take_chosen : Inputs → Scored d → Selection → Selection
  take_chosen i chosen s = record s {
    candidates =
        filter (λ (c : Candidate). not (id_of c == chosen.template.template_id)) s.candidates;
    recommendations = s.recommendations ++ (next_recommendation i chosen s ∷ []);
    covered_pairs = add_all (pairs_covered chosen.template i.facts) s.covered_pairs;
    covered_groups = add_all (newly_covered_groups i chosen s) s.covered_groups;
  }

  -- The candidates that are redundant with the chosen template move to the excluded.
  unfoldable pub drop_redundant : PlannerReadFacts → CheckTemplate d → Selection → Selection
  drop_redundant facts template s = record s {
    candidates =
        filter (λ (c : Candidate). not (is_redundant facts template c.template)) s.candidates;
    excluded = exclude_redundant facts template s.candidates s.excluded;
  }

  -- The `while` loop: the number is `policy.max_recommendations - len(recommendations)`.
  unfoldable pub select : Inputs → ℕ → Selection → Selection
  select i zero s = s
  select i (suc room) s = elim (choose d (map (scored i s) s.candidates)) [
    | none ↦ s
    | some chosen ↦
        let next = take_chosen i chosen s in
        elim room [
          | zero ↦ next
          | suc more ↦ select i room (drop_redundant i.facts chosen.template next)
        ]
  ]

  -- The entry of a candidate that is left.
  unfoldable pub limit_check : ℕ → Candidate → ExcludedCheck
  limit_check maximum c = record {
    template_id = id_of c;
    template_version = c.template.version;
    reasons = ExclusionReason.not_selected_limit ∷ [];
    facts = (codes "maximum_recommendations:" ++ decimal maximum) ∷ [];
  }

  unfoldable pub exclude_rest :
      ℕ → List Candidate → Dict Text ExcludedCheck → Dict Text ExcludedCheck
  exclude_rest maximum [] excluded = excluded
  exclude_rest maximum (c ∷ cs) excluded =
      exclude_rest maximum cs (insert (id_of c) (limit_check maximum c) excluded)
