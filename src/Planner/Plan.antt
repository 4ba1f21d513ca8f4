-- ===== src/Planner/Plan.antt =====
-- `NextCheckPlannerService.plan` of src/ephi/application/planner.py.
use ephi.Base.{
  ℕ, false, ◌||◌, not, none, some, List, [], ◌∷◌, ◌++◌, map, leb, nat_eq, ◌==◌, list_Eq, option_Eq,
  ℕ_eq, length, Result, ok, ◌>>=◌, ◌>>◌, raise_if,
}
use ephi.Base.Text.{Text, is_canonical}
use ephi.Base.Dict.{Dict, insert, index_onto}
use ephi.Base.Sort.{sort_by, is_subset, text_before}
use ephi.Commands.Context.{Raised, Principal, AccessScope, RevisionVector, same_vector}
use ephi.Planner.Facts.{ExclusionReason, PlannerReadFacts}
use ephi.Planner.Templates.{
  Decimals, LoopSnapshot, CheckTemplate, CheckTemplateCatalog, PairWeight, PlannerPolicy,
}
use ephi.Planner.Eligibility.{ApprovalAnswers, eligibility_of}
use ephi.Planner.Eligibility.Prior.{workflow_checks}
use ephi.Planner.Score.{alternatives}
use ephi.Planner.Recommendation.{Recommendation}
use ephi.Planner.Select.{ExcludedCheck, Selection, Inputs, select, exclude_rest}

-- `_require_exact_view`
unfoldable pub require_exact_view :
    LoopSnapshot → ℕ → RevisionVector → PlannerReadFacts → Result Raised (Unit {0})
require_exact_view snapshot expected revisions facts = do
  raise_if (not (nat_eq snapshot.aggregate_version expected)) Raised.coherent_read_conflict
  raise_if
      (not (elim snapshot.revision_vector [ none ↦ false | some v ↦ same_vector v revisions ])
        || not (nat_eq revisions.workflow_version expected))
      Raised.coherent_read_conflict
  raise_if (not (snapshot.active_cycle_id == some facts.cycle_id)) Raised.coherent_read_conflict

module _ (d : Decimals) where
  -- The canonical JSON and the hashes of the planner.
  pub record Hashes : Type 0 where
    pub canonical_key : AccessScope → Text
    pub policy_identity : PlannerPolicy d → Text
    pub catalog_identity : CheckTemplateCatalog d → Text
    pub input_identity :
        Principal
        → AccessScope
        → LoopSnapshot
        → PlannerReadFacts
        → PlannerPolicy d
        → CheckTemplateCatalog d
        → Text
    pub plan_identity : Text → List (Recommendation d) → List ExcludedCheck → Text

  -- What `get_decision_loop` answers at the start and at the end, and the resolver for each template.
  pub record Reads : Type 0 where
    pub at_start : Result Raised LoopSnapshot
    pub approvals : Text → ApprovalAnswers
    pub at_end : Result Raised LoopSnapshot

  -- The arguments of `plan`.
  pub record PlanRequest : Type 0 where
    pub principal : Principal
    pub scope : AccessScope
    pub episode_id : Text
    pub expected_workflow_version : ℕ
    pub viewed_revisions : RevisionVector
    pub facts : PlannerReadFacts
    pub policy : PlannerPolicy d
    pub catalog : CheckTemplateCatalog d

  pub record PlannerPlan : Type 0 where
    pub plan_identity : Text
    pub input_identity : Text
    pub episode_id : Text
    pub cycle_id : Text
    pub workflow_version : ℕ
    pub viewed_revisions : RevisionVector
    pub policy_identity : Text
    pub template_catalog_identity : Text
    pub recommendations : List (Recommendation d)
    pub excluded_checks : List ExcludedCheck

  -- `weights`
  unfoldable pub weights : PlannerPolicy d → Dict Text d.Decimal
  weights policy =
      map (λ entry. (entry.0, entry.1.value))
        (index_onto [] (λ (w : PairWeight d). w.pair_id) policy.pair_weights)

  -- The checks of the arguments, before anything is read.
  unfoldable pub check_view : PlanRequest → Result Raised (Unit {0})
  check_view r = do
    raise_if (not (is_canonical r.episode_id) || not (leb (length r.episode_id) 240))
        Raised.validation_failure
    raise_if
        (not (r.facts.episode_id == r.episode_id)
          || not (nat_eq r.facts.workflow_version r.expected_workflow_version)
          || not (same_vector r.facts.viewed_revisions r.viewed_revisions))
        Raised.coherent_read_conflict

  -- The policy weighs every unresolved pair.
  unfoldable pub check_weights : PlanRequest → Result Raised (Unit {0})
  check_weights r =
      raise_if
        (not (
          is_subset (map (λ p. p.pair_id) r.facts.unresolved_pairs)
            (map (λ entry. entry.0) (weights r.policy))))
        Raised.validation_failure

  -- What a template's eligibility adds to the candidates or to the excluded.
  unfoldable pub sort_out :
      PlanRequest → CheckTemplate d → List ExclusionReason × List Text → Selection d → Selection d
  sort_out r template ([], trace) s = record s {
    candidates =
        s.candidates
        ++ (record {
          template = template;
          alternatives = alternatives d template r.facts;
          facts_text = trace;
        }
            ∷ []);
  }
  sort_out r template (reason ∷ reasons, trace) s = record s {
    excluded =
        insert template.template_id
          (record {
            template_id = template.template_id;
            template_version = template.version;
            reasons = reason ∷ reasons;
            facts = trace;
          })
          s.excluded;
  }

  -- The eligibility of a template at this request.
  unfoldable pub judge :
      Hashes
      → Reads
      → PlanRequest
      → LoopSnapshot
      → CheckTemplate d
      → Result Raised (List ExclusionReason × List Text)
  judge h reads r snapshot template =
      eligibility_of d h.canonical_key (reads.approvals template.template_id) r.principal r.scope
        r.facts snapshot (workflow_checks snapshot) template

  -- The loop over the catalog.
  unfoldable pub classify :
      Hashes
      → Reads
      → PlanRequest
      → LoopSnapshot
      → List (CheckTemplate d)
      → Selection d
      → Result Raised (Selection d)
  classify h reads r snapshot [] s = ok s
  classify h reads r snapshot (template ∷ templates) s = do
    found ← judge h reads r snapshot template
    classify h reads r snapshot templates (sort_out r template found s)

  abbrev pub nothing_selected : Selection d
  nothing_selected = record {
    candidates = [];
    recommendations = [];
    excluded = [];
    covered_pairs = [];
    covered_groups = [];
  }

  unfoldable pub inputs : Hashes → PlanRequest → Inputs d
  inputs h r = record {
    facts = r.facts;
    weights = weights r.policy;
    identities = (h.policy_identity r.policy, h.catalog_identity r.catalog);
  }

  -- The plan of a selection whose loop has ended.
  unfoldable pub plan_of : Hashes → PlanRequest → LoopSnapshot → Selection d → PlannerPlan
  plan_of h r snapshot s =
      let input = h.input_identity r.principal r.scope snapshot r.facts r.policy r.catalog in
      let excluded = exclude_rest d r.policy.max_recommendations s.candidates s.excluded in
      let ordered = map (λ entry. entry.1) (sort_by (λ a b. text_before a.0 b.0) excluded) in
      record {
        plan_identity = h.plan_identity input s.recommendations ordered;
        input_identity = input;
        episode_id = r.episode_id;
        cycle_id = r.facts.cycle_id;
        workflow_version = r.expected_workflow_version;
        viewed_revisions = r.viewed_revisions;
        policy_identity = h.policy_identity r.policy;
        template_catalog_identity = h.catalog_identity r.catalog;
        recommendations = s.recommendations;
        excluded_checks = ordered;
      }

  -- `plan`
  unfoldable pub plan : Hashes → Reads → PlanRequest → Result Raised PlannerPlan
  plan h reads r = do
    check_view r
    snapshot ← reads.at_start
    require_exact_view snapshot r.expected_workflow_version r.viewed_revisions r.facts
    check_weights r
    s ← classify h reads r snapshot r.catalog.templates nothing_selected
    last ← reads.at_end
    require_exact_view last r.expected_workflow_version r.viewed_revisions r.facts
    ok (plan_of h r snapshot (select d (inputs h r) r.policy.max_recommendations s))
