-- ===== src/Planner/Score.antt =====
-- The ordinal score of a template: `_template_independent_groups`, `_alternatives` and `_score` of
-- src/ephi/application/planner.py.
use mathlib.Core.List.{flat_map}
use ephi.Base.{
  ℕ, ◌-◌, Bool, ◌&&◌, not, Option, none, some, List, [], ◌∷◌, ◌++◌, map, ltb, length, contains,
  if◌then◌else◌, list_Eq, ℕ_eq,
}
use ephi.Base.Text.{Text}
use ephi.Base.Dict.{Dict, lookup, index_onto}
use ephi.Base.Sort.{filter, as_set, difference, intersection}
use ephi.Planner.Facts.{
  TurnaroundState, EffortBand, DisruptionClass, UnresolvedHypothesisPair, EvidenceDependenceGroup,
  PlannerReadFacts, TurnaroundFact,
}
use ephi.Planner.Templates.{
  Decimals, CapabilityRequirement, PrerequisiteRequirement, CheckTemplate, PairDiscrimination,
}
use ephi.Planner.Eligibility.Requirements.{capabilities, prereqs}
use ephi.Planner.Eligibility.Turnaround.{turnaround_of, is_deadline_supported}

-- The evidence groups of the facts: `group_map`.
unfoldable pub group_map : PlannerReadFacts → Dict Text EvidenceDependenceGroup
unfolding index_onto
group_map facts = index_onto [] (λ g. g.evidence_group_id) facts.dependence_groups

unfoldable pub dependence_of : PlannerReadFacts → Text → List Text
dependence_of facts group_id = elim (lookup group_id (group_map facts)) [
  | none ↦ []
  | some g ↦ g.dependence_group_id ∷ []
]

-- `set(group_map.values())`
unfoldable pub independent_groups : PlannerReadFacts → List Text
independent_groups facts = as_set (map (λ entry. entry.1.dependence_group_id) (group_map facts))

-- The keys of `unresolved`.
unfoldable pub unresolved_ids : PlannerReadFacts → List Text
unresolved_ids facts =
    map (λ entry. entry.0) (index_onto [] (λ p. p.pair_id) facts.unresolved_pairs)

-- A turnaround time that the score counts; a supported fact has one.
unfoldable pub supported_seconds : TurnaroundFact → Option ℕ
supported_seconds fact = elim fact.state [ TurnaroundState.supported ↦ fact.seconds | _ ↦ none ]

module _ (d : Decimals) where
  -- `_EFFORT_COST`
  unfoldable pub effort_cost : EffortBand → d.Decimal
  effort_cost EffortBand.low = d.hundredths 25
  effort_cost EffortBand.moderate = d.hundredths 50
  effort_cost EffortBand.high = d.hundredths 75
  effort_cost EffortBand.unknown = d.whole 1

  -- `_DISRUPTION_COST`
  unfoldable pub disruption_cost : DisruptionClass → d.Decimal
  disruption_cost DisruptionClass.none_class = d.whole 0
  disruption_cost DisruptionClass.low = d.hundredths 25
  disruption_cost DisruptionClass.moderate = d.hundredths 50
  disruption_cost DisruptionClass.high = d.hundredths 75
  disruption_cost DisruptionClass.unknown = d.whole 1

  unfoldable pub sum_onto : d.Decimal → List d.Decimal → d.Decimal
  sum_onto acc [] = acc
  sum_onto acc (x ∷ xs) = sum_onto (d.plus acc x) xs

  -- `sum(xs, Decimal("0"))`
  abbrev pub sum : List d.Decimal → d.Decimal
  sum xs = sum_onto (d.whole 0) xs

  -- `max(Decimal("0"), min(Decimal("1"), x))`
  unfoldable pub clamp : d.Decimal → d.Decimal
  clamp x =
      let least = if d.less x (d.whole 1) then x else d.whole 1 in
      if d.less (d.whole 0) least then least else d.whole 0

  abbrev pub is_zero : d.Decimal → Bool
  is_zero x = not (d.less x (d.whole 0)) && not (d.less (d.whole 0) x)

  -- `a / b if b else Decimal("0")`
  unfoldable pub ratio : d.Decimal → d.Decimal → d.Decimal
  ratio a b = if is_zero b then d.whole 0 else d.divide a b

  -- A ratio of the sizes of two sets.
  abbrev pub share : List Text → List Text → d.Decimal
  share part [] = d.whole 0
  share part (x ∷ xs) = d.divide (d.whole (length part)) (d.whole (length (x ∷ xs)))

  abbrev pub value_of : Dict Text d.Decimal → Text → d.Decimal
  value_of values id = elim (lookup id values) [ none ↦ d.whole 0 | some v ↦ v ]

  -- `rubric`
  unfoldable pub rubric : CheckTemplate d → Dict Text d.Decimal
  rubric template =
      map (λ entry. (entry.0, entry.1.value))
        (index_onto [] (λ (item : PairDiscrimination d). item.pair_id)
          template.candidate_discrimination)

  -- `_template_independent_groups`
  unfoldable pub template_independent_groups : CheckTemplate d → PlannerReadFacts → List Text
  template_independent_groups template facts =
      as_set (flat_map (dependence_of facts) template.evidence_group_ids)

  pub record Alternative : Type 0 where
    pub pair : UnresolvedHypothesisPair
    pub ordinal_discrimination : d.Decimal

  -- `_alternatives`
  unfoldable pub alternatives : CheckTemplate d → PlannerReadFacts → List Alternative
  alternatives template facts =
      map (λ p. record { pair = p; ordinal_discrimination = value_of (rubric template) p.pair_id })
        (filter
          (λ (p : UnresolvedHypothesisPair).
            d.less (d.whole 0) (value_of (rubric template) p.pair_id))
          facts.unresolved_pairs)

  pub record ScoreTerms : Type 0 where
    pub discrimination : d.Decimal
    pub independent_coverage : d.Decimal
    pub feasibility : d.Decimal
    pub effort_disruption : d.Decimal
    pub redundancy : d.Decimal
    pub utility : d.Decimal

  -- `Decimal("1") - age / Decimal(max_age_seconds)`, within 0 and 1; an instant of the future has age 0.
  unfoldable pub freshness : ℕ → ℕ → ℕ → d.Decimal
  freshness as_of observed_at max_age_seconds =
      clamp
        (d.minus (d.whole 1) (d.divide (d.seconds (as_of - observed_at)) (d.whole max_age_seconds)))

  unfoldable pub capability_readiness : PlannerReadFacts → CapabilityRequirement → List d.Decimal
  capability_readiness facts requirement =
      elim (lookup requirement.capability_id (capabilities facts)) [
        | none ↦ []
        | some fact ↦ elim fact.observed_at [
          | none ↦ []
          | some observed_at ↦ freshness facts.as_of observed_at requirement.max_age_seconds ∷ []
        ]
      ]

  unfoldable pub prerequisite_readiness : PlannerReadFacts → PrerequisiteRequirement → d.Decimal
  prerequisite_readiness facts requirement = elim requirement.max_age_seconds [
    | none ↦ d.whole 1
    | some max_age_seconds ↦ elim (lookup requirement.prerequisite_id (prereqs facts)) [
      | none ↦ d.whole 1
      | some fact ↦ elim fact.observed_at [
        | none ↦ d.whole 1
        | some observed_at ↦ freshness facts.as_of observed_at max_age_seconds
      ]
    ]
  ]

  unfoldable pub readiness : CheckTemplate d → PlannerReadFacts → d.Decimal
  readiness template facts =
      let parts : List d.Decimal =
        flat_map (capability_readiness facts) template.required_capabilities
        ++ map (prerequisite_readiness facts) template.prerequisites in
      elim parts [ [] ↦ d.whole 1 | x ∷ xs ↦ d.divide (sum (x ∷ xs)) (d.whole (length (x ∷ xs))) ]

  -- The slack of a turnaround in the window up to a supported deadline.
  unfoldable pub timeliness : PlannerReadFacts → ℕ → d.Decimal
  timeliness facts seconds =
      if not (is_deadline_supported facts.decision_deadline.state)
      then d.whole 1
      else elim facts.decision_deadline.deadline [
        | none ↦ d.whole 0
        | some deadline ↦
            let window = d.seconds (deadline - facts.as_of) in
            let left = d.minus window (d.whole seconds) in
            let slack = if d.less (d.whole 0) left then left else d.whole 0 in
            if ltb facts.as_of deadline then clamp (d.divide slack window) else d.whole 0
      ]

  -- `turnaround_seconds`
  unfoldable pub turnaround_seconds : CheckTemplate d → PlannerReadFacts → Option ℕ
  turnaround_seconds template facts = elim (turnaround_of facts template.turnaround_source_id) [
    | none ↦ none
    | some fact ↦ supported_seconds fact
  ]

  unfoldable pub turnaround_feasibility : CheckTemplate d → PlannerReadFacts → d.Decimal
  turnaround_feasibility template facts = elim (turnaround_seconds template facts) [
    | none ↦ d.hundredths 25
    | some seconds ↦ timeliness facts seconds
  ]

  -- `_score`. The weights cover the unresolved pairs, which `plan` has checked; the sets of covered
  -- pairs and groups are lists.
  unfoldable pub score :
      CheckTemplate d → PlannerReadFacts → Dict Text d.Decimal → List Text → List Text → ScoreTerms
  score template facts weights covered_pairs covered_groups =
      let unresolved = unresolved_ids facts in
      let marks = rubric template in
      let weigh : (Text → d.Decimal) = λ id. d.times (value_of weights id) (value_of marks id) in
      let discrimination =
        ratio (sum (map weigh unresolved)) (sum (map (value_of weights) unresolved)) in
      let candidate_groups = template_independent_groups template facts in
      let coverage =
        share (difference candidate_groups covered_groups) (independent_groups facts) in
      let overlap = sum (map weigh (filter (λ id. contains id unresolved) covered_pairs)) in
      let candidate_weight =
        sum (map weigh (filter (λ id. contains id unresolved) (map (λ entry. entry.0) marks))) in
      let group_redundancy =
        share (intersection candidate_groups covered_groups) candidate_groups in
      let redundancy =
        d.divide (d.plus (ratio overlap candidate_weight) group_redundancy) (d.whole 2) in
      let feasibility =
        d.divide (d.plus (readiness template facts) (turnaround_feasibility template facts))
          (d.whole 2) in
      let effort_disruption =
        d.divide (d.plus (effort_cost template.effort_band) (disruption_cost template.disruption))
          (d.whole 2) in
      let gain =
        d.plus
          (d.plus (d.times (d.hundredths 45) discrimination) (d.times (d.hundredths 20) coverage))
          (d.times (d.hundredths 20) feasibility) in
      let loss = d.minus gain (d.times (d.hundredths 10) effort_disruption) in
      record {
        discrimination = discrimination;
        independent_coverage = coverage;
        feasibility = feasibility;
        effort_disruption = effort_disruption;
        redundancy = redundancy;
        utility = d.minus loss (d.times (d.hundredths 15) redundancy);
      }
