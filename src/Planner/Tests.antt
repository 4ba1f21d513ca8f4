-- ===== src/Planner/Tests.antt =====
-- Examples of the planner.
use mathlib.Core.List.{flat_map}
use ephi.Base.{
  length, inl, err, ◌+◌, ◌≤◌, ◌≡◌, refl, false, some, List, [], ◌∷◌, map, ltb, arith, ok, All, find,
  list_eq, option_eq, contains, ◌==◌, list_Eq, ℕ_eq,
}
use ephi.Base.Text.{codes, is_canonical, strip, lstrip, is_space}
use ephi.Base.Dict.{lookup, insert, index_onto}
use ephi.Base.Sort.{
  filter, any, intersection, as_set, sort_by, insert_sorted, sorted_set, difference, text_before,
  is_subset,
}
use ephi.Commands.Context.{same_vector, Raised}
use ephi.Planner.Facts.{ExclusionReason, position}
use ephi.Planner.Eligibility.{
  eligibility_of, approval_notes, template_notes, applicability, is_open, path_notes,
  is_discrimination, has_reason,
}
use ephi.Planner.Eligibility.Requirements.{
  check_capability, check_fact, check_age, check_held, check_qualification, check_prerequisite,
  check_state, is_from_future, exceeds_age, is_older_than, has_ended, is_qualified, is_unavailable,
  is_unqualified, is_stale, role_is_peer, capabilities, qualifications, prereqs, shown,
}
use ephi.Planner.Eligibility.Turnaround.{
  turnaround_notes, turnaround_chain, turnaround_of, is_deadline_supported, misses_deadline,
  is_unknown,
}
use ephi.Planner.Eligibility.Prior.{workflow_checks, check_before, prior_check}
use ephi.Planner.Score.{
  alternatives, score, effort_cost, disruption_cost, sum_onto, clamp, ratio, rubric,
  template_independent_groups, readiness, capability_readiness, prerequisite_readiness, freshness,
  timeliness, turnaround_seconds, turnaround_feasibility, supported_seconds, group_map,
  dependence_of, independent_groups, unresolved_ids,
}
use ephi.Planner.Ranking.{
  Scored, choose, first_of, ranks_before, pareto_front, dominates, seconds_or_last,
}
use ephi.Planner.Complete.{templates_of, plan-Accounts}
use ephi.Planner.Bounds.{IsWithin, plan-IsWithin}
use ephi.Planner.Redundancy.{IsSpread, IsOffered, plan-IsSpread}
use ephi.Planner.Best.{choose-IsFirst}
use ephi.Planner.Assured.{IsAssured, eligibility_of-IsAssured}
use ephi.Base.Order.{IsOrder, IsIn}
use ephi.Base.Counts.{count}
use ephi.Planner.Select.{Selection, scored, select}
use ephi.Planner.Plan.{
  Reads, PlannerPlan, plan, plan_of, inputs, nothing_selected, classify, judge, sort_out,
  check_view, check_weights, weights, require_exact_view,
}
use ephi.Planner.Progress.{plan-Recommends, plan-Refuses}
use ephi.Planner.Example.{
  millionths, facts_x, template_a, template_b, template_c, scope_x, request_x, snapshot_x, reads_x,
  hashes_x,
}

-- After the catalog has been gone through.
abbrev sorted_x : Selection millionths
sorted_x = record {
  candidates =
      record {
        template = template_a;
        alternatives = alternatives millionths template_a facts_x;
        facts_text = [];
      }
      ∷ record {
        template = template_b;
        alternatives = alternatives millionths template_b facts_x;
        facts_text = [];
      }
      ∷ [];
  recommendations = [];
  excluded =
      (
        codes "c",
        record {
          template_id = codes "c";
          template_version = codes "1";
          reasons = ExclusionReason.missing_capability ∷ [];
          facts = codes "missing_capability:scope" ∷ [];
        },
      )
      ∷ [];
  covered_pairs = [];
  covered_groups = [];
}

abbrev plan_x : PlannerPlan millionths
plan_x =
    plan_of millionths hashes_x request_x snapshot_x
      (select millionths (inputs millionths hashes_x request_x) 2 sorted_x)

sorted_out_x :
    classify millionths hashes_x reads_x request_x snapshot_x
      (template_a ∷ template_b ∷ template_c ∷ [])
      (nothing_selected millionths)
    ≡ ok sorted_x
unfolding classify judge sort_out eligibility_of approval_notes template_notes applicability is_open
    path_notes is_discrimination check_capability check_fact check_age check_held
    check_qualification check_prerequisite check_state is_from_future exceeds_age is_older_than
    has_ended is_qualified is_unavailable is_unqualified is_stale role_is_peer capabilities
    qualifications prereqs turnaround_notes turnaround_chain turnaround_of is_deadline_supported
    misses_deadline is_unknown shown workflow_checks check_before prior_check has_reason position
    sorted_set as_set sort_by insert_sorted text_before filter any intersection find lookup insert
    index_onto list_eq option_eq contains flat_map
sorted_out_x = refl

planned_x : plan millionths hashes_x reads_x request_x ≡ ok plan_x
unfolding plan check_view check_weights weights require_exact_view same_vector is_canonical strip
    lstrip is_space is_subset contains list_eq option_eq index_onto insert
planned_x = rw sorted_out_x refl

once_a : templates_of millionths (codes "a") request_x.catalog.templates ≤ 1
unfolding count list_eq
once_a = omega arith

plan-Accounts_example :
    count (λ y. y.template_id == codes "a") plan_x.recommendations
      + count (λ x. x.template_id == codes "a") plan_x.excluded_checks
    ≡ templates_of millionths (codes "a") request_x.catalog.templates
plan-Accounts_example =
    plan-Accounts millionths hashes_x reads_x request_x (codes "a") planned_x once_a

plan-IsWithin_example : IsWithin millionths 2 plan_x.recommendations
plan-IsWithin_example = plan-IsWithin millionths hashes_x reads_x request_x planned_x

plan-IsSpread_example :
    IsSpread millionths facts_x
      (IsOffered millionths hashes_x reads_x request_x snapshot_x)
      plan_x.recommendations
plan-IsSpread_example =
    plan-IsSpread millionths hashes_x reads_x request_x snapshot_x planned_x refl

-- Only the cheaper of the two redundant templates is recommended.
abbrev scored_x : List (Scored millionths)
scored_x =
    map (scored millionths (inputs millionths hashes_x request_x) sorted_x) sorted_x.candidates

chosen_x :
    choose millionths scored_x
    ≡ some (
        scored millionths (inputs millionths hashes_x request_x) sorted_x (record {
          template = template_a;
          alternatives = alternatives millionths template_a facts_x;
          facts_text = [];
        }))
unfolding choose first_of ranks_before pareto_front dominates filter any scored score effort_cost
    disruption_cost sum_onto clamp ratio rubric template_independent_groups readiness
    capability_readiness prerequisite_readiness freshness timeliness turnaround_seconds
    turnaround_feasibility supported_seconds turnaround_of find is_deadline_supported capabilities
    prereqs group_map dependence_of independent_groups unresolved_ids as_set difference intersection
    lookup insert index_onto list_eq contains flat_map text_before seconds_or_last inputs weights
chosen_x = refl

less-IsOrder : IsOrder ltb
less-IsOrder = record { asymmetric = λ a b h. ground arith; between = λ a b c h k. ground arith }

choose-IsFirst_example :
    IsIn
      (scored millionths (inputs millionths hashes_x request_x) sorted_x (record {
        template = template_a;
        alternatives = alternatives millionths template_a facts_x;
        facts_text = [];
      }))
      scored_x
    × All
        (λ (z : Scored millionths).
          ranks_before millionths (pareto_front millionths scored_x) z (
            scored millionths (inputs millionths hashes_x request_x) sorted_x (record {
              template = template_a;
              alternatives = alternatives millionths template_a facts_x;
              facts_text = [];
            }))
          ≡ false)
        scored_x
choose-IsFirst_example = choose-IsFirst millionths less-IsOrder scored_x chosen_x

eligible_a :
    eligibility_of millionths
      (λ s. s.scope_id)
      (reads_x.approvals (codes "a"))
      request_x.principal
      scope_x
      facts_x
      snapshot_x
      (workflow_checks snapshot_x)
      template_a
    ≡ ok ([], [])
unfolding eligibility_of approval_notes template_notes applicability is_open path_notes
    is_discrimination check_capability check_fact check_age check_held check_qualification
    check_prerequisite check_state is_from_future exceeds_age is_older_than has_ended is_qualified
    is_unavailable is_unqualified is_stale role_is_peer capabilities qualifications prereqs
    turnaround_notes turnaround_chain turnaround_of is_deadline_supported misses_deadline is_unknown
    workflow_checks has_reason sorted_set as_set sort_by filter any intersection find lookup insert
    index_onto list_eq option_eq contains flat_map
eligible_a = refl

eligibility_of-IsAssured_example : IsAssured millionths facts_x snapshot_x template_a
eligibility_of-IsAssured_example =
    eligibility_of-IsAssured millionths facts_x template_a (λ s. s.scope_id)
      (reads_x.approvals (codes "a")) request_x.principal scope_x snapshot_x eligible_a

judged_a : judge millionths hashes_x reads_x request_x snapshot_x template_a ≡ ok ([], [])
unfolding judge
judged_a = eligible_a

plan-Recommends_example : 1 ≤ length plan_x.recommendations
plan-Recommends_example =
    plan-Recommends millionths hashes_x reads_x request_x snapshot_x template_a planned_x refl
      (omega arith) (inl refl) judged_a

-- The workflow moved on while the plan was made.
abbrev moved_on : Reads millionths
moved_on = record reads_x { at_end = ok (record snapshot_x { aggregate_version = 5 }) }

plan-Refuses_example : (e : Raised) × (plan millionths hashes_x moved_on request_x ≡ err e)
plan-Refuses_example =
    plan-Refuses millionths hashes_x moved_on request_x
      (record snapshot_x { aggregate_version = 5 }) refl refl
