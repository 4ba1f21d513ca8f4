-- ===== src/Planner/Returns.antt =====
-- What holds of a plan that was returned (`plan` of src/ephi/application/planner.py).
use ephi.Base.{◌≡◌, ok, >>=-returns}
use ephi.Planner.Templates.{Decimals, LoopSnapshot}
use ephi.Planner.Select.{Selection, select}
use ephi.Planner.Plan.{
  Hashes, Reads, PlanRequest, PlannerPlan, require_exact_view, check_view, check_weights, classify,
  nothing_selected, inputs, plan_of, plan,
}

module _ (d : Decimals) (h : Hashes d) (reads : Reads d) (r : PlanRequest d) where
  -- The view of the request is that of the snapshot.
  abbrev pub IsExact : LoopSnapshot → Type 0
  IsExact snapshot =
      require_exact_view snapshot r.expected_workflow_version r.viewed_revisions r.facts ≡ ok tt

  -- The selection at the end of the loop.
  abbrev pub selected : Selection d → Selection d
  selected s = select d (inputs d h r) r.policy.max_recommendations s

  -- The stages of a plan that was returned.
  pub record IsPlanned (out : PlannerPlan d) : Type 0 where
    pub snapshot : LoopSnapshot
    pub last : LoopSnapshot
    pub sorted : Selection d
    pub started : reads.at_start ≡ ok snapshot
    pub ended : reads.at_end ≡ ok last
    pub proper : check_view d r ≡ ok tt
    pub weighed : check_weights d r ≡ ok tt
    pub exact_at_start : IsExact snapshot
    pub exact_at_end : IsExact last
    pub classified :
        classify d h reads r snapshot r.catalog.templates (nothing_selected d) ≡ ok sorted
    pub planned : plan_of d h r snapshot (selected sorted) ≡ out

  pub plan-IsPlanned : {out : PlannerPlan d} → plan d h reads r ≡ ok out → IsPlanned out
  unfolding plan
  plan-IsPlanned {out} q0 =
      let (_, proper, q1) = >>=-returns (check_view d r) _ q0 in
      let (snapshot, started, q2) = >>=-returns reads.at_start _ q1 in
      let (_, exact, q3) =
        >>=-returns
          (require_exact_view snapshot r.expected_workflow_version r.viewed_revisions r.facts) _
          q2 in
      let (_, weighed, q4) = >>=-returns (check_weights d r) _ q3 in
      let (s, classified, q5) =
        >>=-returns (classify d h reads r snapshot r.catalog.templates (nothing_selected d)) _ q4 in
      let (last, ended, q6) = >>=-returns reads.at_end _ q5 in
      let (_, again, q7) =
        >>=-returns (require_exact_view last r.expected_workflow_version r.viewed_revisions r.facts)
          _ q6 in
      record {
        snapshot = snapshot;
        last = last;
        sorted = s;
        started = started;
        ended = ended;
        proper = proper;
        weighed = weighed;
        exact_at_start = exact;
        exact_at_end = again;
        classified = classified;
        planned = cc;
      }
