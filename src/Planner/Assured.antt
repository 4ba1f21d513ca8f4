-- ===== src/Planner/Assured.antt =====
-- A template without a reason against it: no check of `_eligibility` in
-- src/ephi/application/planner.py noted anything.
use mathlib.Core.Path.{subst}
use mathlib.Core.List.{flat_map}
use ephi.Base.{
  ℕ, ◌+◌, ◌*◌, ◌≤◌, ◌<◌, ◌≡◌, refl, sym, ap, ◌∙◌, Bool, true, false, not, Option, none, some, List,
  [], ◌∷◌, ◌++◌, arith, All, Bool-cases, Option-cases, inl, inr, nat_eq, ok, err, Result, ok_inj,
  >>=-returns, some_inj, if◌then◌else◌, ◌==◌, list_Eq, option_Eq, ℕ_eq,
}
use ephi.Base.Text.{Text, codes}
use ephi.Base.Order.{All-map, true≢false}
use ephi.Base.Sort.{filter, any}
use ephi.Base.Filters.{filter-none, append-empty}
use ephi.Commands.Context.{Principal, AccessScope}
use ephi.Planner.Facts.{
  ExclusionReason, TurnaroundState, position, PlannerReadFacts, TurnaroundFact,
}
use ephi.Planner.Templates.{Decimals, CheckTemplate, CheckRecord, LoopSnapshot}
use ephi.Planner.Eligibility.{
  ApprovalAnswers, approval_notes, exclusion_reasons, has_reason, template_notes, eligibility_of,
  is_open, applicability, path_notes,
}
use ephi.Planner.Eligibility.Requirements.{
  Note, noted, note_if, check_capability, check_qualification, check_prerequisite,
}
use ephi.Planner.Eligibility.Turnaround.{
  is_deadline_supported, misses_deadline, turnaround_chain, turnaround_of, turnaround_notes,
}
use ephi.Planner.Eligibility.Prior.{prior_check, context_matches, workflow_checks}
use ephi.Planner.Eligible.{
  IsSatisfied, check_prerequisite-IsSatisfied, IsReady, IsQualified, check_capability-IsReady,
  check_qualification-IsQualified,
}

-- Every reason is in the enumeration.
is_listed :
    (r : ExclusionReason) → any (λ x. nat_eq (position r) (position x)) exclusion_reasons ≡ true
unfolding any position
is_listed ExclusionReason.unsupported_context = refl
is_listed ExclusionReason.unsupported_unit = refl
is_listed ExclusionReason.missing_capability = refl
is_listed ExclusionReason.capability_unavailable = refl
is_listed ExclusionReason.unqualified_capability = refl
is_listed ExclusionReason.unqualified_peer_reference = refl
is_listed ExclusionReason.stale_evidence = refl
is_listed ExclusionReason.stale_peer_reference = refl
is_listed ExclusionReason.missing_approval_authorization = refl
is_listed ExclusionReason.missing_qualification = refl
is_listed ExclusionReason.missing_prerequisite = refl
is_listed ExclusionReason.unknown_prerequisite = refl
is_listed ExclusionReason.stale_prerequisite = refl
is_listed ExclusionReason.valid_prior_completion = refl
is_listed ExclusionReason.check_already_requested = refl
is_listed ExclusionReason.check_in_progress = refl
is_listed ExclusionReason.missed_decision_window = refl
is_listed ExclusionReason.unsupported_turnaround = refl
is_listed ExclusionReason.lifecycle_closed = refl
is_listed ExclusionReason.no_validation_path = refl
is_listed ExclusionReason.redundant_with_selected = refl
is_listed ExclusionReason.not_selected_limit = refl

none_meets :
    {A : Type 0} (p q : A → Bool) (xs : List A)
    → ((x : A) → p x ≡ true → q x ≡ true)
    → All (λ (x : A). q x ≡ false) xs
    → any p xs ≡ false
unfolding any
none_meets p q [] f a = refl
none_meets p q (x ∷ xs) f a = elim (Bool-cases (p x)) [
  | inl h ↦ absurd (true≢false (sym (f x h) ∙ a.0))
  | inr h ↦ rw (h, none_meets p q xs f a.1) refl
]

-- Notes without a reason are none.
no_notes :
    (notes : List Note) → filter (λ r. has_reason r notes) exclusion_reasons ≡ [] → notes ≡ []
unfolding has_reason any
no_notes [] h = refl
no_notes (n ∷ ns) h = absurd (
    true≢false (
      sym (is_listed n.0)
      ∙ none_meets (λ x. nat_eq (position n.0) (position x)) (λ r. has_reason r (n ∷ ns))
          exclusion_reasons (λ x same. rw same refl)
          (filter-none (λ r. has_reason r (n ∷ ns)) exclusion_reasons h)))

noted_nothing : (r : Result Note (Unit {0})) → noted r ≡ [] → r ≡ ok tt
noted_nothing (ok tt) h = refl
noted_nothing (err n) h = cc

-- Checks that noted nothing passed.
noted-All :
    {A : Type 0} (check : A → Result Note (Unit {0})) (xs : List A)
    → flat_map (λ x. noted (check x)) xs ≡ []
    → All (λ (x : A). check x ≡ ok tt) xs
unfolding flat_map
noted-All check [] h = tt
noted-All check (x ∷ xs) h =
    let (first, rest) = append-empty (noted (check x)) (flat_map (λ y. noted (check y)) xs) h in
    (noted_nothing (check x) first, noted-All check xs rest)

note_if-empty :
    (b : Bool) (reason : ExclusionReason) (text : Text) → note_if b reason text ≡ [] → b ≡ false
note_if-empty true reason text h = cc
note_if-empty false reason text h = refl

-- Where the deadline is supported, the turnaround of a source is too, and it ends by the deadline.
pub record IsTimely (facts : PlannerReadFacts) (source : Text) (deadline : ℕ) : Type 0 where
  pub fact : TurnaroundFact
  pub on_file : turnaround_of facts source ≡ some fact
  pub supported : fact.state ≡ TurnaroundState.supported
  pub before : facts.as_of < deadline
  pub in_time :
      (seconds : ℕ) → fact.seconds ≡ some seconds → facts.as_of + seconds * 1000000 ≤ deadline

meets :
    (as_of deadline : ℕ) (seconds : Option ℕ)
    → misses_deadline as_of (some deadline) seconds ≡ false
    → (as_of < deadline) × ((s : ℕ) → seconds ≡ some s → as_of + s * 1000000 ≤ deadline)
unfolding misses_deadline
meets as_of deadline none h = (ground arith, λ s e. cc)
meets as_of deadline (some t) h = (
  ground arith,
  λ s e.
      let same : t ≡ s = some_inj e in
      subst (λ z. as_of + z * 1000000 ≤ deadline) same (ground arith),
)

turnaround_chain-IsTimely :
    (facts : PlannerReadFacts) (source : Text) (fact : TurnaroundFact) (deadline : ℕ)
    → is_deadline_supported facts.decision_deadline.state ≡ true
    → facts.decision_deadline.deadline ≡ some deadline
    → turnaround_chain facts source fact ≡ []
    → (fact.state ≡ TurnaroundState.supported)
      × (misses_deadline facts.as_of (some deadline) fact.seconds ≡ false)
unfolding turnaround_chain
turnaround_chain-IsTimely facts source fact deadline counts at h = ground arith

unproved :
    (unlisted supported : Bool) (note : Note) (text : Text)
    → (if unlisted
        then note ∷ []
        else note_if supported ExclusionReason.missed_decision_window text)
      ≡ []
    → supported ≡ false
unproved true supported note text h = cc
unproved false supported note text h = note_if-empty supported _ text h

turnaround_notes-IsTimely :
    (facts : PlannerReadFacts) (source : Text) (deadline : ℕ)
    → is_deadline_supported facts.decision_deadline.state ≡ true
    → facts.decision_deadline.deadline ≡ some deadline
    → turnaround_notes facts source ≡ []
    → IsTimely facts source deadline
unfolding turnaround_notes
turnaround_notes-IsTimely facts source deadline counts at h =
    elim (Option-cases (turnaround_of facts source)) [
      | inl absent ↦ absurd (
          true≢false (
            sym counts
            ∙ unproved _ (is_deadline_supported facts.decision_deadline.state) _
                (codes "unknown_turnaround_cannot_prove_deadline")
                (rw (absent, turnaround_notes) at h)))
      | inr (fact, on_file) ↦
          let (chain, _) =
            append-empty (turnaround_chain facts source fact) _
              (rw (on_file, turnaround_notes) at h) in
          let (supported, meeting) =
            turnaround_chain-IsTimely facts source fact deadline counts at chain in
          let (before, in_time) = meets facts.as_of deadline fact.seconds meeting in
          record {
            fact = fact;
            on_file = on_file;
            supported = supported;
            before = before;
            in_time = in_time;
          }
    ]

-- What holds of a template that nothing is noted of.
pub record IsAssured (d : Decimals) (facts : PlannerReadFacts) (snapshot : LoopSnapshot)
    (template : CheckTemplate d) : Type 0 where
  pub ready : All (IsReady facts) template.required_capabilities
  pub qualified : IsQualified facts template.qualification_identity
  pub in_cycle : is_open snapshot facts.cycle_id ≡ true
  pub timely :
      (deadline : ℕ)
      → is_deadline_supported facts.decision_deadline.state ≡ true
      → facts.decision_deadline.deadline ≡ some deadline
      → IsTimely facts template.turnaround_source_id deadline
  pub prerequisites : All (IsSatisfied facts) template.prerequisites
  pub unasked :
      All
        (λ (check : CheckRecord).
          (check.template_id == some template.template_id) ≡ true
          → context_matches check facts.target_context ≡ true
          → ((check.status == some (codes "REQUESTED")) ≡ false)
            × ((check.status == some (codes "STARTED")) ≡ false))
        (workflow_checks snapshot)

module _ (d : Decimals) (facts : PlannerReadFacts) (template : CheckTemplate d) where
  prior_check-none :
      (check : CheckRecord)
      → prior_check d facts template check ≡ []
      → (check.template_id == some template.template_id) ≡ true
      → context_matches check facts.target_context ≡ true
      → ((check.status == some (codes "REQUESTED")) ≡ false)
        × ((check.status == some (codes "STARTED")) ≡ false)
  unfolding prior_check
  prior_check-none check h own here = elim (Bool-cases (check.status == some (codes "REQUESTED"))) [
    | inl asked ↦ cc (rw (own, here, asked, prior_check) at h)
    | inr unasked ↦ elim (Bool-cases (check.status == some (codes "STARTED"))) [
      | inl started ↦ cc (rw (own, here, unasked, started, prior_check) at h)
      | inr idle ↦ (unasked, idle)
    ]
  ]

  prior_checks-none :
      (checks : List CheckRecord)
      → flat_map (prior_check d facts template) checks ≡ []
      → All
          (λ (check : CheckRecord).
            (check.template_id == some template.template_id) ≡ true
            → context_matches check facts.target_context ≡ true
            → ((check.status == some (codes "REQUESTED")) ≡ false)
              × ((check.status == some (codes "STARTED")) ≡ false))
          checks
  unfolding flat_map
  prior_checks-none [] h = tt
  prior_checks-none (check ∷ checks) h =
      let (first, rest) =
        append-empty (prior_check d facts template check)
          (flat_map (prior_check d facts template) checks) h in
      (prior_check-none check first, prior_checks-none checks rest)

  template_notes-IsAssured :
      (snapshot : LoopSnapshot)
      → (template_notes d facts snapshot (workflow_checks snapshot) template).0 ≡ []
      → (template_notes d facts snapshot (workflow_checks snapshot) template).1 ≡ []
      → IsAssured d facts snapshot template
  unfolding template_notes
  template_notes-IsAssured snapshot h k =
      let shut =
        note_if (not (is_open snapshot facts.cycle_id)) ExclusionReason.lifecycle_closed
          (codes "episode_or_cycle_not_open") in
      let (_, h1) = append-empty (applicability d facts template) _ h in
      let (opened, h2) = append-empty shut _ h1 in
      let (able, h3) =
        append-empty
          (flat_map (λ r. noted (check_capability facts r)) template.required_capabilities) _ h2 in
      let (sound, h4) =
        append-empty (noted (check_qualification facts template.qualification_identity)) _ h3 in
      let (_, k1) = append-empty (path_notes d facts template) _ k in
      let (timely, prior) =
        append-empty (turnaround_notes facts template.turnaround_source_id) _ k1 in
      record {
        ready =
            All-map template.required_capabilities (check_capability-IsReady facts)
              (noted-All (check_capability facts) template.required_capabilities able);
        qualified =
            check_qualification-IsQualified facts template.qualification_identity
              (noted_nothing (check_qualification facts template.qualification_identity) sound);
        in_cycle = ground (arith, note_if-empty (not (is_open snapshot facts.cycle_id)) _ _ opened);
        timely = λ deadline counts at.
            turnaround_notes-IsTimely facts template.turnaround_source_id deadline counts at timely;
        prerequisites =
            All-map template.prerequisites (check_prerequisite-IsSatisfied facts)
              (noted-All (check_prerequisite facts) template.prerequisites h4);
        unasked = prior_checks-none (workflow_checks snapshot) prior;
      }

  -- A template that `_eligibility` finds no reason against has each required capability available and
  -- fresh under a valid qualification, each prerequisite satisfied, a valid qualification of its own, an
  -- open cycle, no check of its own requested or started for the target, and, where the deadline is
  -- supported, a supported turnaround that ends by the deadline.
  pub eligibility_of-IsAssured :
      (canonical_key : AccessScope → Text) (answers : ApprovalAnswers) (principal : Principal)
      (scope : AccessScope) (snapshot : LoopSnapshot) {trace : List Text}
      → eligibility_of d canonical_key answers principal scope facts snapshot
          (workflow_checks snapshot)
          template
        ≡ ok ([], trace)
      → IsAssured d facts snapshot template
  unfolding eligibility_of
  eligibility_of-IsAssured canonical_key answers principal scope snapshot q =
      let (approval, _, q1) =
        >>=-returns
          (approval_notes canonical_key answers principal scope template.approval_capability) _ q in
      let parts = template_notes d facts snapshot (workflow_checks snapshot) template in
      let (before, rest) =
        append-empty parts.0 (approval ++ parts.1)
          (no_notes (parts.0 ++ (approval ++ parts.1)) (ap (λ z. z.0) (ok_inj q1))) in
      let (_, after) = append-empty approval parts.1 rest in
      template_notes-IsAssured snapshot before after
