-- ===== src/Planner/Recommendation.antt =====
-- `Recommendation` and `_recommendation` of src/ephi/application/planner.py.
use ephi.Base.{
  ℕ, Bool, not, Option, none, some, List, [], ◌∷◌, ◌++◌, map, ◌||◌, ◌==◌, list_Eq, option_Eq, ℕ_eq,
  contains, is_some, if◌then◌else◌,
}
use ephi.Base.Text.{Text, codes}
use ephi.Base.Sort.{filter, any, difference, sort_by, text_before}
use ephi.Planner.Facts.{
  TurnaroundState, EffortBand, DisruptionClass, CapabilityFact, QualificationFact, PrerequisiteFact,
  DecisionDeadlineFact, UnresolvedHypothesisPair, PlannerReadFacts,
}
use ephi.Planner.Templates.{Decimals, CheckTemplate, CheckExecutionMode}
use ephi.Planner.Score.{
  Alternative, ScoreTerms, rubric, value_of, independent_groups, template_independent_groups,
  effort_cost, disruption_cost,
}
use ephi.Planner.Eligibility.{is_discrimination}
use ephi.Planner.Eligibility.Turnaround.{turnaround_of, is_deadline_supported}

unfoldable pub turnaround_value : TurnaroundState → Text
turnaround_value TurnaroundState.supported = codes "SUPPORTED"
turnaround_value TurnaroundState.unknown = codes "UNKNOWN"
turnaround_value TurnaroundState.unsupported = codes "UNSUPPORTED"
turnaround_value TurnaroundState.stale = codes "STALE"

pub record TurnaroundPayload : Type 0 where
  pub state : Text
  pub seconds : Option ℕ
  pub source_identity : Text
  pub unknown_reason : Option Text
  pub ranking_treatment : Text

-- `turnaround_payload`
unfoldable pub turnaround_payload : PlannerReadFacts → Text → Option ℕ → TurnaroundPayload
turnaround_payload facts source none =
    let time_fact = turnaround_of facts source in
    record {
      state = elim time_fact [ none ↦ codes "UNKNOWN" | some fact ↦ turnaround_value fact.state ];
      seconds = none;
      source_identity = source;
      unknown_reason = elim time_fact [
        | none ↦ some (codes "fact_not_supplied")
        | some fact ↦ fact.unknown_reason
      ];
      ranking_treatment = codes "conservative_feasibility_penalty; never treated as zero time";
    }
turnaround_payload facts source (some seconds) = record {
  state = codes "SUPPORTED";
  seconds = some seconds;
  source_identity = source;
  unknown_reason = none;
  ranking_treatment = codes "supported duration";
}

-- Why a context or a unit is supported: `independent` says so of the template, and `here` is current.
unfoldable pub support_reason : Text → Bool → Option Text → Text
support_reason name independent here =
    if independent
    then codes "template is curated as " ++ (name ++ codes " independent")
    else if is_some here
    then codes "current " ++ (name ++ codes " is in the curated support set")
    else codes "template explicitly permits unknown " ++ name

module _ (d : Decimals) where
  pub record Effort : Type 0 where
    pub effort_band : EffortBand
    pub effort_source_id : Text
    pub effort_cost_band : d.Decimal
    pub turnaround : TurnaroundPayload
    pub disruption_class : DisruptionClass
    pub disruption_cost_band : d.Decimal
    pub evidence_quality_requirements : List Text
    pub qualification_identity : Text
    pub decision_deadline : DecisionDeadlineFact

  pub record Recommendation : Type 0 where
    pub rank : ℕ
    pub template_id : Text
    pub template_version : Text
    pub title : Text
    pub execution_mode : CheckExecutionMode
    pub score : ScoreTerms d
    pub alternatives_discriminated : List (Alternative d)
    pub why_eligible_now : List Text
    pub capability_trace : List CapabilityFact
    pub prerequisite_trace : List PrerequisiteFact
    pub qualification_trace : List QualificationFact
    pub effort_turnaround_disruption : Effort
    pub independent_evidence_added : List Text
    pub will_not_resolve : List Text
    pub policy_identity : Text
    pub template_catalog_identity : Text

  -- `not_resolved`, sorted
  unfoldable pub not_resolved : CheckTemplate d → PlannerReadFacts → List Text
  not_resolved template facts =
      let marks = rubric d template in
      let pairs : List UnresolvedHypothesisPair =
        filter (λ p. not (d.less (d.whole 0) (value_of d marks p.pair_id)))
          facts.unresolved_pairs in
      let left : List Text =
        difference (independent_groups facts) (template_independent_groups d template facts) in
      sort_by text_before (
        map (λ p. codes "hypothesis_pair:" ++ p.pair_id) pairs
        ++ map (λ g. codes "independent_evidence_group:" ++ g) left)

  unfoldable pub required_facts : CheckTemplate d → PlannerReadFacts → List CapabilityFact
  required_facts template facts =
      filter
        (λ f. contains f.capability_id (map (λ r. r.capability_id) template.required_capabilities))
        facts.capability_facts

  unfoldable pub prerequisite_facts : CheckTemplate d → PlannerReadFacts → List PrerequisiteFact
  prerequisite_facts template facts =
      filter (λ f. contains f.prerequisite_id (map (λ r. r.prerequisite_id) template.prerequisites))
        facts.prerequisite_facts

  -- The qualifications of the template and of its capabilities.
  unfoldable pub qualification_facts : CheckTemplate d → PlannerReadFacts → List QualificationFact
  qualification_facts template facts =
      filter
        (λ f.
          (f.qualification_identity == template.qualification_identity)
          || any (λ (c : CapabilityFact). c.qualification_identity == some f.qualification_identity)
              (required_facts template facts))
        facts.qualification_facts

  -- `why`
  unfoldable pub why_eligible : CheckTemplate d → PlannerReadFacts → List Text
  why_eligible template facts =
      codes "current family and target kind match the curated template"
      ∷ support_reason (codes "context") template.context_independent
          facts.target_context.context_identity
      ∷ support_reason (codes "unit") template.unit_independent facts.target_context.unit_identity
      ∷ (elim template.required_capabilities [
        | [] ↦ []
        | _ ∷ _ ↦ codes "required capabilities are currently available, fresh and qualified" ∷ []
      ]
          ++ (elim template.prerequisites [
            | [] ↦ []
            | _ ∷ _ ↦ codes "required inputs and prerequisites are currently satisfied" ∷ []
          ]
              ++ ((if is_deadline_supported facts.decision_deadline.state
                    then codes "supported turnaround completes within the supported decision window"
                    else codes "decision deadline is explicitly unknown")
                  ∷ (if is_discrimination template.path
                      then []
                      else codes
                          "no unresolved hypothesis pair exists; this is a curated prerequisite or validation path"
                        ∷ []))))

  -- `_recommendation`; its facts are the three traces one after the other.
  unfoldable pub recommendation :
      ℕ
      → CheckTemplate d
      → ScoreTerms d
      → List (Alternative d)
      → List Text
      → PlannerReadFacts
      → Text × Text
      → Option ℕ
      → Recommendation
  recommendation rank template score alternatives added facts (policy_identity, catalog_identity)
        seconds =
      record {
        rank = rank;
        template_id = template.template_id;
        template_version = template.version;
        title = template.title;
        execution_mode = template.execution_mode;
        score = score;
        alternatives_discriminated = alternatives;
        why_eligible_now = why_eligible template facts;
        capability_trace = required_facts template facts;
        prerequisite_trace = prerequisite_facts template facts;
        qualification_trace = qualification_facts template facts;
        effort_turnaround_disruption = record {
          effort_band = template.effort_band;
          effort_source_id = template.effort_source_id;
          effort_cost_band = effort_cost d template.effort_band;
          turnaround = turnaround_payload facts template.turnaround_source_id seconds;
          disruption_class = template.disruption;
          disruption_cost_band = disruption_cost d template.disruption;
          evidence_quality_requirements = template.evidence_quality_requirements;
          qualification_identity = template.qualification_identity;
          decision_deadline = facts.decision_deadline;
        };
        independent_evidence_added = added;
        will_not_resolve = not_resolved template facts;
        policy_identity = policy_identity;
        template_catalog_identity = catalog_identity;
      }
