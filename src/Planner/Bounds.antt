-- ===== src/Planner/Bounds.antt =====
-- How many checks a plan recommends (`plan` of src/ephi/application/planner.py).
use mathlib.Core.Path.{subst}
use ephi.Base.{
  ℕ, suc, ◌+◌, ◌≤◌, ◌≡◌, refl, sym, ◌∙◌, ok, List, [], ◌∷◌, ◌++◌, arith, length, length-append,
  >>=-returns,
}
use ephi.Base.Text.{Text}
use ephi.Planner.Facts.{ExclusionReason}
use ephi.Planner.Templates.{Decimals, LoopSnapshot, CheckTemplate}
use ephi.Planner.Loop.{select-Ensures}
use ephi.Planner.Select.{
  Candidate, Selection, Inputs, scored, take_chosen, drop_redundant, next_recommendation, select,
}
use ephi.Planner.Recommendation.{Recommendation, recommendation}
use ephi.Planner.Plan.{
  Hashes, Reads, PlanRequest, PlannerPlan, judge, sort_out, classify, nothing_selected, inputs,
  plan_of, plan,
}
use ephi.Planner.Returns.{plan-IsPlanned}

module _ (d : Decimals) where
  -- The ranks count up from a number.
  abbrev pub IsRanked : ℕ → List (Recommendation d) → Type 0
  IsRanked n [] = Unit
  IsRanked n (x ∷ xs) = (x.rank ≡ n) × IsRanked (suc n) xs

  IsRanked-append :
      (n : ℕ) (xs : List (Recommendation d)) (x : Recommendation d)
      → IsRanked n xs
      → x.rank ≡ n + length xs
      → IsRanked n (xs ++ (x ∷ []))
  IsRanked-append n [] x ranked e = (omega (arith, e), tt)
  IsRanked-append n (y ∷ ys) x ranked e =
      (ranked.0, IsRanked-append (suc n) ys x ranked.1 (omega (arith, e)))

  -- The recommendations fit in the room that is left, and are ranked in their order.
  abbrev IsBounded : ℕ → ℕ → Selection d → Type 0
  IsBounded maximum room s =
      (length s.recommendations + room ≤ maximum) × IsRanked 1 s.recommendations

  abbrev pub IsWithin : ℕ → List (Recommendation d) → Type 0
  IsWithin maximum xs = (length xs ≤ maximum) × IsRanked 1 xs

  take_chosen-IsBounded :
      (i : Inputs d) (maximum room : ℕ) (s : Selection d) (c : Candidate d)
      → IsBounded maximum (suc room) s
      → IsBounded maximum room (take_chosen d i (scored d i s c) s)
  unfolding take_chosen next_recommendation recommendation
  take_chosen-IsBounded i maximum room s c (fits, ranked) =
      let new = next_recommendation d i (scored d i s c) s in
      let longer = length-append s.recommendations (new ∷ []) in
      (omega (arith, fits, longer), IsRanked-append 1 s.recommendations new ranked (omega arith))

  select-IsWithin :
      (i : Inputs d) (maximum : ℕ) (s : Selection d)
      → IsBounded maximum maximum s
      → IsWithin maximum (select d i maximum s).recommendations
  unfolding drop_redundant
  select-IsWithin i maximum s bounded =
      select-Ensures d i (IsBounded maximum) (λ t. IsWithin maximum t.recommendations)
        (λ room t b _. (omega (arith, b.0), b.1))
        (λ t c b _. let b' = take_chosen-IsBounded i maximum 0 t c b in (omega (arith, b'.0), b'.1))
        (λ room t c b _. take_chosen-IsBounded i maximum (suc room) t c b) maximum s bounded

  module _ (h : Hashes d) (reads : Reads d) (r : PlanRequest d) where
    sort_out-recommendations :
        (t : CheckTemplate d) (found : List ExclusionReason × List Text) (s : Selection d)
        → (sort_out d r t found s).recommendations ≡ s.recommendations
    unfolding sort_out
    sort_out-recommendations t ([], trace) s = refl
    sort_out-recommendations t (_ ∷ _, trace) s = refl

    pub classify-recommendations :
        (snapshot : LoopSnapshot) (ts : List (CheckTemplate d)) (s : Selection d)
        {out : Selection d}
        → classify d h reads r snapshot ts s ≡ ok out
        → out.recommendations ≡ s.recommendations
    unfolding classify
    classify-recommendations snapshot [] s q = cc
    classify-recommendations snapshot (t ∷ ts) s q =
        let (found, judged, rest) = >>=-returns (judge d h reads r snapshot t) _ q in
        classify-recommendations snapshot ts (sort_out d r t found s) rest
        ∙ sort_out-recommendations t found s

    -- A plan that is returned recommends no more checks than its policy allows, and their ranks are 1,
    -- 2 and so on in the order of the list.
    pub plan-IsWithin :
        {out : PlannerPlan d}
        → plan d h reads r ≡ ok out
        → IsWithin r.policy.max_recommendations out.recommendations
    unfolding plan_of
    plan-IsWithin {out} q =
        let done = plan-IsPlanned d h reads r q in
        let none_yet =
          classify-recommendations done.snapshot r.catalog.templates (nothing_selected d)
            done.classified in
        let maximum = r.policy.max_recommendations in
        subst (λ (z : PlannerPlan d). IsWithin maximum z.recommendations) done.planned
          (select-IsWithin (inputs d h r) maximum done.sorted (
            subst (λ xs. (length xs + maximum ≤ maximum) × IsRanked 1 xs) (sym none_yet)
              (omega arith, tt)))
