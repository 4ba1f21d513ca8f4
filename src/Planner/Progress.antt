-- ===== src/Planner/Progress.antt =====
-- When a plan recommends something, and when it is refused (`plan` of src/ephi/application/planner.py).
use mathlib.Core.Path.{subst}
use ephi.Base.{
  ℕ, ◌≤◌, ◌≡◌, refl, sym, ◌∙◌, false, none, List, [], ◌∷◌, map, arith, inl, inr, ◌⊎◌, length,
  length-append, ok, ok_inj, err, >>=-returns, bind-raises, nat_eq,
}
use ephi.Base.Text.{Text}
use ephi.Base.Order.{IsIn}
use ephi.Commands.Context.{Raised}
use ephi.Planner.Facts.{ExclusionReason}
use ephi.Planner.Templates.{Decimals, CheckTemplate, LoopSnapshot}
use ephi.Planner.Ranking.{choose}
use ephi.Planner.Select.{
  Candidate, Selection, Inputs, scored, take_chosen, drop_redundant, next_recommendation, select,
}
use ephi.Planner.Loop.{select-Ensures, IsOver}
use ephi.Planner.Plan.{
  Hashes, Reads, PlanRequest, PlannerPlan, judge, sort_out, classify, nothing_selected, inputs,
  plan_of, plan, check_view, check_weights, require_exact_view,
}
use ephi.Planner.Returns.{plan-IsPlanned}

module _ (d : Decimals) where
  -- Something is recommended, or there are room and candidates.
  abbrev CanRecommend : ℕ → Selection d → Type 0
  CanRecommend room s = (1 ≤ length s.recommendations) ⊎ ((1 ≤ room) × (1 ≤ length s.candidates))

  take_chosen-length :
      (i : Inputs d) (s : Selection d) (c : Candidate d)
      → 1 ≤ length (take_chosen d i (scored d i s c) s).recommendations
  unfolding take_chosen
  take_chosen-length i s c =
      omega
        (arith, length-append s.recommendations (next_recommendation d i (scored d i s c) s ∷ []))

  choose_some :
      (i : Inputs d) (s : Selection d) (cs : List (Candidate d))
      → 1 ≤ length cs
      → choose d (map (scored d i s) cs) ≡ none
      → ⊥
  unfolding choose
  choose_some i s [] h e = omega (arith, h)
  choose_some i s (c ∷ cs) h e = cc

  stopped :
      (i : Inputs d) (room : ℕ) (s : Selection d)
      → CanRecommend room s
      → IsOver d i room s
      → 1 ≤ length s.recommendations
  stopped i room s (inl done) over = done
  stopped i room s (inr (space, left)) (inl full) = omega (arith, space, full)
  stopped i room s (inr (space, left)) (inr empty) =
      absurd (choose_some i s s.candidates left empty)

  select-Recommends :
      (i : Inputs d) (room : ℕ) (s : Selection d)
      → 1 ≤ room
      → 1 ≤ length s.candidates
      → 1 ≤ length (select d i room s).recommendations
  unfolding drop_redundant
  select-Recommends i room s space left =
      select-Ensures d i CanRecommend (λ t. 1 ≤ length t.recommendations) (stopped i)
        (λ t c _ _. take_chosen-length i t c) (λ _ t c _ _. inl (take_chosen-length i t c)) room s
        (inr (space, left))

  module _ (h : Hashes d) (reads : Reads d) (r : PlanRequest d) where
    sort_out-length :
        (t : CheckTemplate d) (found : List ExclusionReason × List Text) (s : Selection d)
        → length s.candidates ≤ length (sort_out d r t found s).candidates
    unfolding sort_out
    sort_out-length t ([], trace) s = omega (arith, length-append s.candidates (_ ∷ []))
    sort_out-length t (_ ∷ _, trace) s = omega arith

    sort_out-eligible :
        (t : CheckTemplate d) (trace : List Text) (s : Selection d)
        → 1 ≤ length (sort_out d r t ([], trace) s).candidates
    unfolding sort_out
    sort_out-eligible t trace s = omega (arith, length-append s.candidates (_ ∷ []))

    classify-length :
        (snapshot : LoopSnapshot) (ts : List (CheckTemplate d)) (s : Selection d)
        {out : Selection d}
        → classify d h reads r snapshot ts s ≡ ok out
        → length s.candidates ≤ length out.candidates
    unfolding classify
    classify-length snapshot [] s {out} q =
        subst (λ (z : Selection d). length s.candidates ≤ length z.candidates) (ok_inj q)
          (omega arith)
    classify-length snapshot (t ∷ ts) s q =
        let (found, judged, rest) = >>=-returns (judge d h reads r snapshot t) _ q in
        omega (
          arith,
          sort_out-length t found s,
          classify-length snapshot ts (sort_out d r t found s) rest,
        )

    classify-eligible :
        (snapshot : LoopSnapshot) (ts : List (CheckTemplate d)) (s : Selection d)
        {out : Selection d} {trace : List Text} (t : CheckTemplate d)
        → IsIn t ts
        → judge d h reads r snapshot t ≡ ok ([], trace)
        → classify d h reads r snapshot ts s ≡ ok out
        → 1 ≤ length out.candidates
    unfolding classify
    classify-eligible snapshot [] s t there eligible q = elim there [ ]
    classify-eligible snapshot (u ∷ ts) s {out} {trace} t (inl e) eligible q =
        let (found, judged, rest) = >>=-returns (judge d h reads r snapshot u) _ q in
        let same : found ≡ ([], trace) =
          ok_inj
            (sym judged ∙ subst (λ z. judge d h reads r snapshot z ≡ ok ([], trace)) e eligible) in
        let one =
          subst (λ z. 1 ≤ length (sort_out d r u z s).candidates) (sym same)
            (sort_out-eligible u trace s) in
        omega (arith, one, classify-length snapshot ts (sort_out d r u found s) rest)
    classify-eligible snapshot (u ∷ ts) s t (inr there) eligible q =
        let (found, judged, rest) = >>=-returns (judge d h reads r snapshot u) _ q in
        classify-eligible snapshot ts (sort_out d r u found s) t there eligible rest

    -- A returned plan whose policy allows a recommendation has one, where a template of the catalog was
    -- eligible in the snapshot read at the start.
    pub plan-Recommends :
        {out : PlannerPlan d} {trace : List Text} (snapshot : LoopSnapshot) (t : CheckTemplate d)
        → plan d h reads r ≡ ok out
        → reads.at_start ≡ ok snapshot
        → 1 ≤ r.policy.max_recommendations
        → IsIn t r.catalog.templates
        → judge d h reads r snapshot t ≡ ok ([], trace)
        → 1 ≤ length out.recommendations
    unfolding plan_of
    plan-Recommends {out} {trace} snapshot t q started room there eligible =
        let done = plan-IsPlanned d h reads r q in
        let same : done.snapshot ≡ snapshot = ok_inj (sym done.started ∙ started) in
        let fit = subst (λ z. judge d h reads r z t ≡ ok ([], trace)) (sym same) eligible in
        let left =
          classify-eligible done.snapshot r.catalog.templates (nothing_selected d) t there fit
            done.classified in
        subst (λ (z : PlannerPlan d). 1 ≤ length z.recommendations) done.planned
          (select-Recommends (inputs d h r) r.policy.max_recommendations done.sorted room left)

    -- Whatever the templates are, a plan is refused where the workflow read at the end has another
    -- version than the one that was asked for.
    pub plan-Refuses :
        (last : LoopSnapshot)
        → reads.at_end ≡ ok last
        → nat_eq last.aggregate_version r.expected_workflow_version ≡ false
        → (e : Raised) × (plan d h reads r ≡ err e)
    unfolding plan require_exact_view
    plan-Refuses last ended stale = bind-raises (check_view d r) _ λ _.
        bind-raises reads.at_start _ λ snapshot.
          bind-raises
            (require_exact_view snapshot r.expected_workflow_version r.viewed_revisions r.facts) _
            λ _. bind-raises (check_weights d r) _ λ _.
              bind-raises (classify d h reads r snapshot r.catalog.templates (nothing_selected d)) _
                λ s. rw ended (rw stale (Raised.coherent_read_conflict, refl))
