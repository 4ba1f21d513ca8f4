-- ===== src/Planner/Templates.antt =====
-- Check templates, the policy and the durable workflow records that
-- src/ephi/application/planner.py reads.
use ephi.Base.{ℕ, Bool, Option, List}
use ephi.Base.Text.{Text}
use ephi.Base.Dict.{Dict}
use ephi.Commands.Context.{RevisionVector}
use ephi.Planner.Facts.{CapabilityRole, EffortBand, DisruptionClass, TemplatePath}

-- What the planner uses of `decimal.Decimal` in its current context, whose division and long sums
-- round: the operations, the exact literals, and the order of values.
pub record Decimals : Type 1 where
  pub Decimal : Type 0
  -- `Decimal("0.25")` is 25.
  pub hundredths : ℕ → Decimal
  -- `Decimal(n)`
  pub whole : ℕ → Decimal
  -- `Decimal(str(t.total_seconds()))` of microseconds
  pub seconds : ℕ → Decimal
  pub plus : Decimal → Decimal → Decimal
  pub minus : Decimal → Decimal → Decimal
  pub times : Decimal → Decimal → Decimal
  pub divide : Decimal → Decimal → Decimal
  pub less : Decimal → Decimal → Bool

pub record CapabilityRequirement : Type 0 where
  pub capability_id : Text
  pub max_age_seconds : ℕ
  pub role : CapabilityRole

pub record PrerequisiteRequirement : Type 0 where
  pub prerequisite_id : Text
  pub max_age_seconds : Option ℕ
  pub context_bound : Bool

pub data CheckExecutionMode : Type 0 where
  read_existing async_compute : CheckExecutionMode
  request_human_measurement request_approved_external_work : CheckExecutionMode

-- A `check` record of the workflow state, as far as it is read; a missing key is `none`, and
-- `completed_at` is what `_timestamp` makes of the entry.
pub record CheckRecord : Type 0 where
  pub check_id : Option Text
  pub cycle_id : Option Text
  pub template_id : Option Text
  pub template_version : Option Text
  pub status : Option Text
  pub outcome : Option Text
  pub completed_at : Option ℕ
  pub target_context : Option (Dict Text Text)

pub record CycleRecord : Type 0 where
  pub cycle_id : Option Text
  pub status : Option Text
  pub checks : Dict Text CheckRecord

-- The decision-loop snapshot that `get_decision_loop` answers with.
pub record LoopSnapshot : Type 0 where
  pub aggregate_version : ℕ
  pub revision_vector : Option RevisionVector
  pub active_cycle_id : Option Text
  pub work_state : Option Text
  pub cycles : List CycleRecord

module _ (d : Decimals) where
  pub record PairDiscrimination : Type 0 where
    pub pair_id : Text
    pub value : d.Decimal

  pub record CheckTemplate : Type 0 where
    pub template_id : Text
    pub version : Text
    pub title : Text
    pub family_ids : List Text
    pub target_kinds : List Text
    pub supported_contexts : List Text
    pub supported_units : List Text
    pub context_independent : Bool
    pub unit_independent : Bool
    pub required_capabilities : List CapabilityRequirement
    pub candidate_discrimination : List PairDiscrimination
    pub prerequisites : List PrerequisiteRequirement
    pub redundant_with : List Text
    pub redundancy_group_ids : List Text
    pub evidence_group_ids : List Text
    pub effort_band : EffortBand
    pub effort_source_id : Text
    pub turnaround_source_id : Text
    pub disruption : DisruptionClass
    pub approval_capability : Option Text
    pub execution_mode : CheckExecutionMode
    pub result_schema_identity : Text
    pub interpretation_schema_identity : Text
    pub evidence_quality_requirements : List Text
    pub qualification_identity : Text
    pub path : TemplatePath
    pub reuse_window_seconds : ℕ

  pub record CheckTemplateCatalog : Type 0 where
    pub catalog_id : Text
    pub version : Text
    pub templates : List CheckTemplate

  pub record PairWeight : Type 0 where
    pub pair_id : Text
    pub value : d.Decimal

  pub record PlannerPolicy : Type 0 where
    pub policy_id : Text
    pub version : Text
    pub pair_weights : List PairWeight
    pub max_recommendations : ℕ
