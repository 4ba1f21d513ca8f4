-- ===== src/Planner/Example.antt =====
-- An example for the planner: three templates, of which the second is redundant with the first and the
-- third lacks its capability.
use Prim.Native.Nat.{◌/◌}
use ephi.Base.{ℕ, ◌+◌, ◌-◌, ◌*◌, true, false, none, some, [], ◌∷◌, ltb, ok, list_Eq, ℕ_eq}
use ephi.Base.Text.{codes}
use ephi.Commands.Context.{RevisionIdentity, RevisionVector, AccessScope}
use ephi.Planner.Facts.{
  CapabilityState, QualificationState, PrerequisiteState, DeadlineState, TurnaroundState,
  EffortBand, DisruptionClass, CapabilityRole, TemplatePath, TargetContext, PlannerReadFacts,
}
use ephi.Planner.Templates.{Decimals, CheckTemplate, LoopSnapshot, CheckExecutionMode}
use ephi.Planner.Plan.{Hashes, Reads, PlanRequest}

-- Millionths, rounded down and never below zero.
abbrev pub millionths : Decimals
millionths = record {
  Decimal = ℕ;
  hundredths = λ n. n * 10000;
  whole = λ n. n * 1000000;
  seconds = λ n. n;
  plus = λ a b. a + b;
  minus = λ a b. a - b;
  times = λ a b. (a * b) / 1000000;
  divide = λ a b. (a * 1000000) / b;
  less = ltb;
}

abbrev pub revisions_x : RevisionVector
revisions_x = record {
  analysis_revision = codes "a1";
  exposure_revision = none;
  priority_revision = none;
  workflow_version = 4;
  plan_version = none;
  qualification_manifest_id = codes "m1";
}

abbrev pub target_x : TargetContext
target_x = record {
  target_identity = codes "tool";
  context_identity = some (codes "line");
  unit_identity = some (codes "mm");
  characteristic_identity = none;
}

abbrev pub facts_x : PlannerReadFacts
facts_x = record {
  episode_id = codes "e1";
  cycle_id = codes "cy1";
  workflow_version = 4;
  viewed_revisions = revisions_x;
  as_of = 5000000;
  family_id = codes "f";
  target_kind = codes "k";
  target_context = target_x;
  unresolved_pairs =
      record {
        pair_id = codes "p1";
        hypothesis_a_id = codes "h1";
        hypothesis_b_id = codes "h2";
        contradiction_ids = [];
        dependence_group_ids = [];
      }
      ∷ [];
  contradictions = [];
  dependence_groups =
      record {
        evidence_group_id = codes "g1";
        dependence_group_id = codes "d1";
        pair_ids = codes "p1" ∷ [];
      }
      ∷ [];
  capability_facts =
      record {
        capability_id = codes "gauge";
        state = CapabilityState.available;
        source_identity = codes "s";
        observed_at = some 2000000;
        qualification_identity = some (codes "q");
        context_identity = none;
        valid_until = none;
      }
      ∷ [];
  qualification_facts =
      record {
        qualification_identity = codes "q";
        state = QualificationState.qualified;
        source_identity = codes "s";
        valid_until = some 9000000;
      }
      ∷ [];
  prerequisite_facts =
      record {
        prerequisite_id = codes "sample";
        state = PrerequisiteState.satisfied;
        source_identity = codes "s";
        observed_at = some 4000000;
        target_identity = some (codes "tool");
        context_identity = some (codes "line");
        valid_until = none;
      }
      ∷ [];
  evidence_validity_facts = [];
  decision_deadline = record {
    state = DeadlineState.supported;
    source_identity = codes "s";
    deadline = some 8000000;
    unknown_reason = none;
  };
  turnaround_facts =
      record {
        source_identity = codes "t";
        state = TurnaroundState.supported;
        seconds = some 2;
        valid_until = none;
        unknown_reason = none;
      }
      ∷ [];
  explicit_unknowns = [];
}

abbrev pub template_a : CheckTemplate millionths
template_a = record {
  template_id = codes "a";
  version = codes "1";
  title = codes "A";
  family_ids = codes "f" ∷ [];
  target_kinds = codes "k" ∷ [];
  supported_contexts = codes "line" ∷ [];
  supported_units = codes "mm" ∷ [];
  context_independent = false;
  unit_independent = false;
  required_capabilities =
      record { capability_id = codes "gauge"; max_age_seconds = 60; role = CapabilityRole.general }
      ∷ [];
  candidate_discrimination = record { pair_id = codes "p1"; value = 1000000 } ∷ [];
  prerequisites =
      record { prerequisite_id = codes "sample"; max_age_seconds = some 60; context_bound = true }
      ∷ [];
  redundant_with = [];
  redundancy_group_ids = codes "r" ∷ [];
  evidence_group_ids = codes "g1" ∷ [];
  effort_band = EffortBand.low;
  effort_source_id = codes "s";
  turnaround_source_id = codes "t";
  disruption = DisruptionClass.low;
  approval_capability = none;
  execution_mode = CheckExecutionMode.read_existing;
  result_schema_identity = codes "rs";
  interpretation_schema_identity = codes "is";
  evidence_quality_requirements = [];
  qualification_identity = codes "q";
  path = TemplatePath.discrimination;
  reuse_window_seconds = 60;
}

-- In the redundancy group of the first, and more effort.
abbrev pub template_b : CheckTemplate millionths
template_b = record template_a { template_id = codes "b"; effort_band = EffortBand.high }

abbrev pub template_c : CheckTemplate millionths
template_c = record template_a {
  template_id = codes "c";
  required_capabilities =
      record { capability_id = codes "scope"; max_age_seconds = 60; role = CapabilityRole.general }
      ∷ [];
}

abbrev pub scope_x : AccessScope
scope_x = record {
  scope_id = codes "s";
  site_id = none;
  area_id = none;
  family_id = none;
  project_ids = [];
}

abbrev pub request_x : PlanRequest millionths
request_x = record {
  principal = record {
    subject = codes "u";
    capabilities = [];
    scope_grants = [];
    auth_session_revision = RevisionIdentity.number 1;
    security_revision = RevisionIdentity.number 1;
  };
  scope = scope_x;
  episode_id = codes "e1";
  expected_workflow_version = 4;
  viewed_revisions = revisions_x;
  facts = facts_x;
  policy = record {
    policy_id = codes "pol";
    version = codes "1";
    pair_weights = record { pair_id = codes "p1"; value = 500000 } ∷ [];
    max_recommendations = 2;
  };
  catalog = record {
    catalog_id = codes "cat";
    version = codes "1";
    templates = template_a ∷ template_b ∷ template_c ∷ [];
  };
}

abbrev pub snapshot_x : LoopSnapshot
snapshot_x = record {
  aggregate_version = 4;
  revision_vector = some revisions_x;
  active_cycle_id = some (codes "cy1");
  work_state = some (codes "OPEN");
  cycles = record { cycle_id = some (codes "cy1"); status = some (codes "OPEN"); checks = [] } ∷ [];
}

abbrev pub reads_x : Reads millionths
reads_x = record {
  at_start = ok snapshot_x;
  approvals = λ _. record { at_approval = none; at_read = none };
  at_end = ok snapshot_x;
}

abbrev pub hashes_x : Hashes millionths
hashes_x = record {
  canonical_key = λ s. s.scope_id;
  policy_identity = λ p. p.policy_id;
  catalog_identity = λ c. c.catalog_id;
  input_identity = λ _ _ _ _ _ _. codes "in";
  plan_identity = λ input _ _. input;
}
