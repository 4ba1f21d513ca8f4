-- ===== src/Planner/Complete.antt =====
-- A plan accounts for every template of the catalog (`plan` of src/ephi/application/planner.py).
use mathlib.Core.Path.{subst}
use ephi.Base.{
  ℕ, ◌+◌, ◌≤◌, ◌≡◌, refl, sym, ap, List, [], ◌∷◌, arith, All, Bool, Bool-cases, inl, inr, ◌==◌,
  list_Eq, list_eq_iff, ℕ_eq, ok, >>=-returns,
}
use ephi.Base.Text.{Text}
use ephi.Base.Dict.{Dict, insert}
use ephi.Base.Sort.{sort_by, text_before}
use ephi.Base.Counts.{
  bit, count, count-append, count-same, count-map, count-sort_by, entries, entries-insert,
}
use ephi.Planner.Facts.{ExclusionReason, PlannerReadFacts}
use ephi.Planner.Templates.{Decimals, CheckTemplate, LoopSnapshot}
use ephi.Planner.Score.{alternatives}
use ephi.Planner.Loop.{select-Ensures}
use ephi.Planner.Partition.{tally, select-tally, exclude_rest-entries}
use ephi.Planner.Select.{
  ExcludedCheck, Candidate, Selection, Inputs, id_of, is_redundant, redundant_check, limit_check,
  exclude_redundant, take_chosen, drop_redundant, select, exclude_rest,
}
use ephi.Planner.Returns.{plan-IsPlanned, selected}
use ephi.Planner.Plan.{
  Hashes, Reads, PlanRequest, PlannerPlan, judge, sort_out, classify, nothing_selected, inputs,
  plan_of, plan,
}

-- The entries stand under the identity of their template.
abbrev IsKeyed : Dict Text ExcludedCheck → Type 0
IsKeyed d = All (λ (e : Text × ExcludedCheck). e.1.template_id ≡ e.0) d

insert-IsKeyed :
    (x : ExcludedCheck) (d : Dict Text ExcludedCheck)
    → IsKeyed d
    → IsKeyed (insert x.template_id x d)
unfolding insert
insert-IsKeyed x [] keyed = (refl, tt)
insert-IsKeyed x ((j, y) ∷ d) keyed = elim (Bool-cases (j == x.template_id)) [
  | inl here ↦ rw here (sym ((list_eq_iff j x.template_id).0 here), keyed.1)
  | inr other ↦ rw other (keyed.0, insert-IsKeyed x d keyed.1)
]

entries-IsKeyed :
    (d : Dict Text ExcludedCheck) (id : Text)
    → IsKeyed d
    → count (λ e. e.1.template_id == id) d ≡ entries id d
entries-IsKeyed d id keyed =
    count-same (λ e. e.1.template_id == id) (λ e. e.0 == id) d (agree d keyed)
  where
    agree :
        (xs : Dict Text ExcludedCheck)
        → IsKeyed xs
        → All (λ (e : Text × ExcludedCheck). (e.1.template_id == id) ≡ (e.0 == id)) xs
    agree [] _ = tt
    agree (x ∷ xs) k = (ap (λ z. z == id) k.0, agree xs k.1)

module _ (d : Decimals) where
  exclude_redundant-IsKeyed :
      (facts : PlannerReadFacts) (template : CheckTemplate d) (cs : List (Candidate d))
      (excluded : Dict Text ExcludedCheck)
      → IsKeyed excluded
      → IsKeyed (exclude_redundant d facts template cs excluded)
  unfolding exclude_redundant redundant_check id_of
  exclude_redundant-IsKeyed facts template [] excluded keyed = keyed
  exclude_redundant-IsKeyed facts template (c ∷ cs) excluded keyed =
      elim (Bool-cases (is_redundant d facts template c.template)) [
        | inl h ↦ rw h (
            exclude_redundant-IsKeyed facts template cs _
              (insert-IsKeyed (redundant_check d facts template c.template) excluded keyed))
        | inr h ↦ rw h (exclude_redundant-IsKeyed facts template cs excluded keyed)
      ]

  exclude_rest-IsKeyed :
      (maximum : ℕ) (cs : List (Candidate d)) (excluded : Dict Text ExcludedCheck)
      → IsKeyed excluded
      → IsKeyed (exclude_rest d maximum cs excluded)
  unfolding exclude_rest limit_check id_of
  exclude_rest-IsKeyed maximum [] excluded keyed = keyed
  exclude_rest-IsKeyed maximum (c ∷ cs) excluded keyed =
      exclude_rest-IsKeyed maximum cs _ (insert-IsKeyed (limit_check d maximum c) excluded keyed)

  select-IsKeyed :
      (i : Inputs d) (room : ℕ) (s : Selection d)
      → IsKeyed s.excluded
      → IsKeyed (select d i room s).excluded
  unfolding take_chosen drop_redundant
  select-IsKeyed i room s keyed =
      select-Ensures d i (λ _ t. IsKeyed t.excluded) (λ t. IsKeyed t.excluded) (λ _ t k _. k)
        (λ t c k _. k) (λ _ t c k _. exclude_redundant-IsKeyed i.facts c.template _ t.excluded k)
        room s keyed

  -- The templates of an identity.
  abbrev pub templates_of : Text → List (CheckTemplate d) → ℕ
  templates_of id ts = count (λ (t : CheckTemplate d). t.template_id == id) ts

  module _ (h : Hashes d) (reads : Reads d) (r : PlanRequest d) where
    sort_out-tally :
        (template : CheckTemplate d) (found : List ExclusionReason × List Text) (s : Selection d)
        (id : Text)
        → bit (template.template_id == id) + tally d id s ≤ 1
        → tally d id (sort_out d r template found s)
          ≡ bit (template.template_id == id) + tally d id s
    unfolding sort_out count id_of
    sort_out-tally template ([], trace) s id few =
        let added =
          count-append (λ (c : Candidate d). id_of d c == id) s.candidates
            (record {
              template = template;
              alternatives = alternatives d template r.facts;
              facts_text = trace;
            }
              ∷ []) in
        omega (arith, added)
    sort_out-tally template (reason ∷ reasons, trace) s id few =
        let added =
          entries-insert template.template_id
            (record {
              template_id = template.template_id;
              template_version = template.version;
              reasons = reason ∷ reasons;
              facts = trace;
            })
            s.excluded id (omega (arith, few)) in
        omega (arith, added)

    sort_out-IsKeyed :
        (template : CheckTemplate d) (found : List ExclusionReason × List Text) (s : Selection d)
        → IsKeyed s.excluded
        → IsKeyed (sort_out d r template found s).excluded
    unfolding sort_out
    sort_out-IsKeyed template ([], trace) s keyed = keyed
    sort_out-IsKeyed template (reason ∷ reasons, trace) s keyed = insert-IsKeyed _ s.excluded keyed

    classify-tally :
        (snapshot : LoopSnapshot) (ts : List (CheckTemplate d)) (s : Selection d) (id : Text)
        {out : Selection d}
        → classify d h reads r snapshot ts s ≡ ok out
        → IsKeyed s.excluded
        → templates_of id ts + tally d id s ≤ 1
        → (tally d id out ≡ templates_of id ts + tally d id s) × IsKeyed out.excluded
    unfolding classify count
    classify-tally snapshot [] s id {out} q keyed few =
        let same : s ≡ out = cc in
        subst (λ (z : Selection d). (tally d id z ≡ 0 + tally d id s) × IsKeyed z.excluded) same
          (omega arith, keyed)
    classify-tally snapshot (t ∷ ts) s id q keyed few =
        let (found, judged, rest) = >>=-returns (judge d h reads r snapshot t) _ q in
        let step = sort_out-tally t found s id (omega (arith, few)) in
        let (later, k) =
          classify-tally snapshot ts (sort_out d r t found s) id rest
            (sort_out-IsKeyed t found s keyed) (omega (arith, few, step)) in
        (omega (arith, later, step), k)

    plan_of-Accounts :
        (snapshot : LoopSnapshot) (s : Selection d) (id : Text)
        → tally d id s ≤ 1
        → IsKeyed s.excluded
        → count (λ y. y.template_id == id) (plan_of d h r snapshot s).recommendations
            + count (λ x. x.template_id == id) (plan_of d h r snapshot s).excluded_checks
          ≡ tally d id s
    unfolding plan_of
    plan_of-Accounts snapshot s id few keyed =
        let maximum = r.policy.max_recommendations in
        let excluded = exclude_rest d maximum s.candidates s.excluded in
        let before : Text × ExcludedCheck → Text × ExcludedCheck → Bool =
          λ a b. text_before a.0 b.0 in
        let listed =
          count-map (λ (x : ExcludedCheck). x.template_id == id) (λ (e : Text × ExcludedCheck). e.1)
            (sort_by before excluded) in
        let sorted =
          count-sort_by (λ (e : Text × ExcludedCheck). e.1.template_id == id) before excluded in
        let under =
          entries-IsKeyed excluded id
            (exclude_rest-IsKeyed maximum s.candidates s.excluded keyed) in
        let rest = exclude_rest-entries d maximum s.candidates s.excluded id (omega (arith, few)) in
        omega (arith, listed, sorted, under, rest)

    -- In a plan that is returned, a template whose identity stands once in the catalog is recommended
    -- or excluded, once in all; an identity that is not in the catalog is in neither list.
    pub plan-Accounts :
        {out : PlannerPlan d} (id : Text)
        → plan d h reads r ≡ ok out
        → templates_of id r.catalog.templates ≤ 1
        → count (λ y. y.template_id == id) out.recommendations
            + count (λ x. x.template_id == id) out.excluded_checks
          ≡ templates_of id r.catalog.templates
    unfolding count
    plan-Accounts {out} id q few =
        let done = plan-IsPlanned d h reads r q in
        let (sorted, keyed) =
          classify-tally done.snapshot r.catalog.templates (nothing_selected d) id done.classified
            tt (omega (arith, few)) in
        let kept =
          select-tally d (inputs d h r) r.policy.max_recommendations done.sorted id
            (omega (arith, few, sorted)) in
        let accounted =
          plan_of-Accounts done.snapshot (selected d h reads r done.sorted) id
            (omega (arith, few, sorted, kept))
            (select-IsKeyed (inputs d h r) r.policy.max_recommendations done.sorted keyed) in
        subst
          (λ (z : PlannerPlan d).
            count (λ y. y.template_id == id) z.recommendations
              + count (λ x. x.template_id == id) z.excluded_checks
            ≡ templates_of id r.catalog.templates)
          done.planned (omega (arith, accounted, kept, sorted))
