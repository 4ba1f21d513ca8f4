-- ===== src/Planner/Redundancy.antt =====
-- No recommendation repeats another (`plan` of src/ephi/application/planner.py).
use mathlib.Core.Path.{subst}
use ephi.Base.{
  ℕ, ◌≡◌, refl, sym, ap, ◌∙◌, Bool, false, not, List, [], ◌∷◌, ◌++◌, map, All, All-append, ok,
  ok_inj, >>=-returns, ◌==◌, list_Eq, ℕ_eq,
}
use ephi.Base.Text.{Text}
use ephi.Base.Sort.{filter}
use ephi.Planner.Bounds.{classify-recommendations}
use ephi.Base.Order.{All-IsIn, IsIn, All-map, All-at}
use ephi.Base.Filters.{All-filter, filter-All, not-true}
use ephi.Planner.Facts.{ExclusionReason, PlannerReadFacts}
use ephi.Planner.Templates.{Decimals, LoopSnapshot, CheckTemplate}
use ephi.Planner.Recommendation.{Recommendation, recommendation}
use ephi.Planner.Select.{
  Candidate, Selection, Inputs, id_of, scored, is_redundant, take_chosen, drop_redundant,
  next_recommendation, select,
}
use ephi.Planner.Loop.{select-Ensures, turn}
use ephi.Planner.Plan.{
  Hashes, Reads, PlanRequest, PlannerPlan, judge, sort_out, classify, nothing_selected, inputs,
  plan_of, plan,
}
use ephi.Planner.Returns.{plan-IsPlanned}

module _ (d : Decimals) where
  -- No template is redundant with an earlier one of the list.
  abbrev pub IsApart : PlannerReadFacts → List (CheckTemplate d) → Type 0
  IsApart facts [] = Unit
  IsApart facts (t ∷ ts) =
      All (λ (u : CheckTemplate d). is_redundant d facts t u ≡ false) ts × IsApart facts ts

  IsApart-append :
      (facts : PlannerReadFacts) (ts : List (CheckTemplate d)) (u : CheckTemplate d)
      → IsApart facts ts
      → All (λ (t : CheckTemplate d). is_redundant d facts t u ≡ false) ts
      → IsApart facts (ts ++ (u ∷ []))
  IsApart-append facts [] u apart clear = (tt, tt)
  IsApart-append facts (t ∷ ts) u apart clear = (
    All-append (λ v. is_redundant d facts t v ≡ false) ts (u ∷ []) apart.0 (clear.0, tt),
    IsApart-append facts ts u apart.1 clear.1,
  )

  abbrev pub template_ids : List (CheckTemplate d) → List Text
  template_ids = map (λ t. t.template_id)

  abbrev pub recommended_ids : List (Recommendation d) → List Text
  recommended_ids = map (λ y. y.template_id)

  -- The recommendations stand for these templates, which meet a condition, each apart from the others.
  abbrev pub StandsFor :
      PlannerReadFacts
      → (CheckTemplate d → Type 0)
      → List (CheckTemplate d)
      → List (Recommendation d)
      → Type 0
  StandsFor facts Q chosen rs =
      (template_ids chosen ≡ recommended_ids rs) × All Q chosen × IsApart facts chosen

  abbrev pub IsSpread :
      PlannerReadFacts → (CheckTemplate d → Type 0) → List (Recommendation d) → Type 0
  IsSpread facts Q rs = (chosen : List (CheckTemplate d)) × (StandsFor facts Q chosen rs)

  -- The candidates meet the condition, and are apart from the templates chosen before.
  abbrev IsClear : PlannerReadFacts → (CheckTemplate d → Type 0) → Selection d → Type 0
  IsClear facts Q s =
      (chosen : List (CheckTemplate d)) × (StandsFor facts Q chosen s.recommendations)
      × All (λ (c : Candidate d). Q c.template) s.candidates
      × All
          (λ (t : CheckTemplate d).
            All (λ (c : Candidate d). is_redundant d facts t c.template ≡ false) s.candidates)
          chosen

  map-append : {A B : Type 0} (f : A → B) (xs ys : List A) → map f (xs ++ ys) ≡ map f xs ++ map f ys
  map-append f [] ys = refl
  map-append f (x ∷ xs) ys = ap (λ z. f x ∷ z) (map-append f xs ys)

  module _ (i : Inputs d) (Q : CheckTemplate d → Type 0) where
    take_chosen-StandsFor :
        (s : Selection d) (c : Candidate d) (clear : IsClear i.facts Q s)
        → IsIn c s.candidates
        → StandsFor i.facts Q
            (clear.0 ++ (c.template ∷ []))
            (take_chosen d i (scored d i s c) s).recommendations
    unfolding take_chosen next_recommendation recommendation scored
    take_chosen-StandsFor s c (chosen, (named, sound, apart), left, clear) there = (
      map-append (λ t. t.template_id) chosen (c.template ∷ [])
          ∙ (ap (λ z. z ++ (c.template.template_id ∷ [])) named
              ∙ sym (
                  map-append (λ y. y.template_id) s.recommendations
                    (next_recommendation d i (scored d i s c) s ∷ []))),
      All-append Q chosen (c.template ∷ []) sound
          (All-at (λ (x : Candidate d). Q x.template) s.candidates left there, tt),
      IsApart-append i.facts chosen c.template apart (
          All-map chosen
            (λ t a.
              All-at (λ (x : Candidate d). is_redundant d i.facts t x.template ≡ false) s.candidates
                a there)
            clear),
    )

    turn-IsClear :
        (s : Selection d) (c : Candidate d)
        → IsClear i.facts Q s
        → IsIn c s.candidates
        → IsClear i.facts Q (turn d i c s)
    unfolding drop_redundant take_chosen scored
    turn-IsClear s c (chosen, spread, left, clear) there = (
      chosen ++ (c.template ∷ []),
      take_chosen-StandsFor s c (chosen, spread, left, clear) there,
      All-filter (λ (x : Candidate d). Q x.template) fresh others
          (All-filter (λ (x : Candidate d). Q x.template) other s.candidates left),
      All-append
          (λ t.
            All (λ (x : Candidate d). is_redundant d i.facts t x.template ≡ false)
              (filter fresh others))
          chosen (c.template ∷ [])
          (All-map chosen
            (λ t a.
              All-filter (λ (x : Candidate d). is_redundant d i.facts t x.template ≡ false) fresh
                others
                (All-filter (λ (x : Candidate d). is_redundant d i.facts t x.template ≡ false) other
                  s.candidates a))
            clear)
          (All-map (filter fresh others) (λ x h. not-true _ h) (filter-All fresh others), tt),
    )
      where
        other : Candidate d → Bool
        other x = not (id_of d x == c.template.template_id)

        fresh : Candidate d → Bool
        fresh x = not (is_redundant d i.facts c.template x.template)

        others : List (Candidate d)
        others = filter other s.candidates

    select-IsSpread :
        (room : ℕ) (s : Selection d)
        → IsClear i.facts Q s
        → IsSpread i.facts Q (select d i room s).recommendations
    select-IsSpread room s clear =
        select-Ensures d i (λ _ t. IsClear i.facts Q t) (λ t. IsSpread i.facts Q t.recommendations)
          (λ _ t p _. (p.0, p.1)) (λ t c p there. (_, take_chosen-StandsFor t c p there.0))
          (λ _ t c p chosen. turn-IsClear t c p chosen.0) room s clear

  module _ (h : Hashes d) (reads : Reads d) (r : PlanRequest d) where
    -- A template of the catalog that is eligible in a snapshot.
    abbrev pub IsOffered : LoopSnapshot → CheckTemplate d → Type 0
    IsOffered snapshot t =
        IsIn t r.catalog.templates
        × ((trace : List Text) × (judge d h reads r snapshot t ≡ ok ([], trace)))

    classify-IsOffered :
        (snapshot : LoopSnapshot) (ts : List (CheckTemplate d)) (s : Selection d)
        {out : Selection d}
        → All (λ (t : CheckTemplate d). IsIn t r.catalog.templates) ts
        → classify d h reads r snapshot ts s ≡ ok out
        → All (λ (c : Candidate d). IsOffered snapshot c.template) s.candidates
        → All (λ (c : Candidate d). IsOffered snapshot c.template) out.candidates
    unfolding classify sort_out
    classify-IsOffered snapshot [] s {out} _ q a =
        let same : s ≡ out = cc in
        subst
          (λ (z : Selection d).
            All (λ (c : Candidate d). IsOffered snapshot c.template) z.candidates)
          same a
    classify-IsOffered snapshot (t ∷ ts) s inside q a =
        let (found, judged, rest) = >>=-returns (judge d h reads r snapshot t) _ q in
        classify-IsOffered snapshot ts (sort_out d r t found s) inside.1 rest (offer found judged)
      where
        offer :
            (found : List ExclusionReason × List Text)
            → judge d h reads r snapshot t ≡ ok found
            → All
                (λ (c : Candidate d). IsOffered snapshot c.template)
                (sort_out d r t found s).candidates
        offer ([], trace) judged =
            All-append (λ (c : Candidate d). IsOffered snapshot c.template) s.candidates _ a
              ((inside.0, (trace, judged)), tt)
        offer (_ ∷ _, trace) judged = a

    -- The recommendations of a returned plan are templates of its catalog, each eligible in the
    -- snapshot that was read at the start, and none redundant with an earlier one.
    pub plan-IsSpread :
        {out : PlannerPlan d} (snapshot : LoopSnapshot)
        → plan d h reads r ≡ ok out
        → reads.at_start ≡ ok snapshot
        → IsSpread r.facts (IsOffered snapshot) out.recommendations
    unfolding plan_of inputs
    plan-IsSpread {out} snapshot q started =
        let done = plan-IsPlanned d h reads r q in
        let same : done.snapshot ≡ snapshot = ok_inj (sym done.started ∙ started) in
        let none_yet =
          classify-recommendations d h reads r done.snapshot r.catalog.templates
            (nothing_selected d) done.classified in
        let offered =
          classify-IsOffered done.snapshot r.catalog.templates (nothing_selected d)
            (All-IsIn r.catalog.templates) done.classified tt in
        let cleared =
          subst
            (λ rs.
              (chosen : List (CheckTemplate d)) × (StandsFor r.facts (IsOffered done.snapshot)
                chosen rs)
              × All (λ (c : Candidate d). IsOffered done.snapshot c.template) done.sorted.candidates
              × All
                  (λ (t : CheckTemplate d).
                    All (λ (c : Candidate d). is_redundant d r.facts t c.template ≡ false)
                      done.sorted.candidates)
                  chosen)
            (sym none_yet) ([], (refl, tt, tt), offered, tt) in
        let spread =
          select-IsSpread (inputs d h r) (IsOffered done.snapshot) r.policy.max_recommendations
            done.sorted cleared in
        subst (λ z. IsSpread r.facts (IsOffered z) out.recommendations) same
          (subst
            (λ (z : PlannerPlan d). IsSpread r.facts (IsOffered done.snapshot) z.recommendations)
            done.planned spread)
