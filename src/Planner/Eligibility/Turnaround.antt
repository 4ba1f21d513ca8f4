-- ===== src/Planner/Eligibility/Turnaround.antt =====
-- The turnaround and the deadline in `_eligibility` of src/ephi/application/planner.py.
use ephi.Base.{
  ℕ, ◌+◌, ◌*◌, Bool, true, false, ◌&&◌, ◌||◌, not, Option, none, some, List, [], ◌∷◌, ◌++◌, ltb,
  leb, ◌==◌, list_Eq, option_Eq, ℕ_eq, find, if◌then◌else◌,
}
use ephi.Base.Text.{Text, codes}
use ephi.Base.Sort.{any}
use ephi.Planner.Facts.{
  DeadlineState, TurnaroundState, ExclusionReason, PlannerReadFacts, TurnaroundFact,
}
use ephi.Planner.Eligibility.Requirements.{Note, note_if, shown, has_ended}

unfoldable pub is_deadline_supported : DeadlineState → Bool
is_deadline_supported DeadlineState.supported = true
is_deadline_supported DeadlineState.unknown = false

unfoldable pub is_unknown : TurnaroundState → Bool
is_unknown TurnaroundState.unknown = true
is_unknown _ = false

-- `facts.as_of >= deadline or facts.as_of + timedelta(seconds=seconds or 0) > deadline`; a supported
-- deadline has a time.
unfoldable pub misses_deadline : ℕ → Option ℕ → Option ℕ → Bool
misses_deadline as_of none seconds = true
misses_deadline as_of (some deadline) none = leb deadline as_of || ltb deadline as_of
misses_deadline as_of (some deadline) (some seconds) =
    leb deadline as_of || ltb deadline (as_of + seconds * 1000000)

-- The chain of conditions on a turnaround fact that was found.
unfoldable pub turnaround_chain : PlannerReadFacts → Text → TurnaroundFact → List Note
unfolding has_ended is_deadline_supported misses_deadline shown
turnaround_chain facts source fact = elim fact.state [
  | TurnaroundState.unsupported ↦
      (
        ExclusionReason.unsupported_turnaround,
        codes "turnaround_unsupported:" ++ shown fact.unknown_reason,
      )
      ∷ []
  | TurnaroundState.stale ↦
      (ExclusionReason.stale_evidence, codes "turnaround_stale:" ++ fact.source_identity) ∷ []
  | TurnaroundState.supported ↦
      if has_ended facts.as_of fact.valid_until
      then (ExclusionReason.stale_evidence, codes "turnaround_stale:" ++ fact.source_identity) ∷ []
      else note_if
          (is_deadline_supported facts.decision_deadline.state
            && misses_deadline facts.as_of facts.decision_deadline.deadline fact.seconds)
          ExclusionReason.missed_decision_window (codes "not_proven_timely:" ++ source)
  | TurnaroundState.unknown ↦
      if has_ended facts.as_of fact.valid_until
      then (ExclusionReason.stale_evidence, codes "turnaround_stale:" ++ fact.source_identity) ∷ []
      else note_if (is_deadline_supported facts.decision_deadline.state)
          ExclusionReason.missed_decision_window (codes "not_proven_timely:" ++ source)
]

unfoldable pub turnaround_of : PlannerReadFacts → Text → Option TurnaroundFact
unfolding find
turnaround_of facts source = find (λ t. t.source_identity == source) facts.turnaround_facts

-- `turnaround` and what is noted of it.
unfoldable pub turnaround_notes : PlannerReadFacts → Text → List Note
turnaround_notes facts source = elim (turnaround_of facts source) [
  | none ↦
      if not (any (λ u. u.fact_identity == (codes "turnaround:" ++ source)) facts.explicit_unknowns)
      then (
        ExclusionReason.unsupported_turnaround,
        codes "turnaround_unknown_without_explicit_fact:" ++ source,
      )
        ∷ []
      else note_if (is_deadline_supported facts.decision_deadline.state)
          ExclusionReason.missed_decision_window (codes "unknown_turnaround_cannot_prove_deadline")
  | some fact ↦
      turnaround_chain facts source fact
      ++ note_if (is_unknown fact.state && is_deadline_supported facts.decision_deadline.state)
          ExclusionReason.missed_decision_window
          (codes "unknown_turnaround_cannot_prove_deadline:" ++ shown fact.unknown_reason)
]
