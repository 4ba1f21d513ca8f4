-- ===== src/Planner/Partition.antt =====
-- Every template of the catalog is recommended or excluded, once (`plan` of
-- src/ephi/application/planner.py).
use ephi.Base.{
  ℕ, ◌+◌, ◌≤◌, ◌≡◌, refl, ◌∙◌, List, [], ◌∷◌, arith, Bool-cases, inl, inr, ◌==◌, list_Eq, ℕ_eq,
}
use ephi.Base.Text.{Text}
use ephi.Base.Dict.{Dict, insert}
use ephi.Base.Order.{IsIn}
use ephi.Base.Sort.{filter}
use ephi.Base.Counts.{
  count, count-append, count-filter, count-IsIn, count-without, entries, entries-insert,
}
use ephi.Planner.Facts.{PlannerReadFacts}
use ephi.Planner.Templates.{Decimals, CheckTemplate}
use ephi.Planner.Loop.{select-Ensures}
use ephi.Planner.Recommendation.{Recommendation, recommendation}
use ephi.Planner.Select.{
  ExcludedCheck, Candidate, Selection, Inputs, id_of, scored, is_redundant, redundant_check,
  next_recommendation, exclude_redundant, take_chosen, drop_redundant, select, exclude_rest,
  limit_check,
}

module _ (d : Decimals) where
  -- The candidates, the recommendations and the entries of an identity.
  abbrev pub candidates_of : Text → List (Candidate d) → ℕ
  candidates_of id cs = count (λ c. id_of d c == id) cs

  abbrev pub recommended : Text → List (Recommendation d) → ℕ
  recommended id rs = count (λ r. r.template_id == id) rs

  abbrev pub tally : Text → Selection d → ℕ
  tally id s =
      candidates_of id s.candidates + (recommended id s.recommendations + entries id s.excluded)

  -- Taking a candidate keeps the tally of every identity.
  take_chosen-tally :
      (i : Inputs d) (s : Selection d) (c : Candidate d) (id : Text)
      → IsIn c s.candidates
      → tally id s ≤ 1
      → tally id (take_chosen d i (scored d i s c) s) ≡ tally id s
  unfolding take_chosen count next_recommendation recommendation id_of scored
  take_chosen-tally i s c id there few =
      let taken = count-without (id_of d) (id_of d c) id s.candidates in
      let added =
        count-append (λ (r : Recommendation d). r.template_id == id) s.recommendations
          (next_recommendation d i (scored d i s c) s ∷ []) in
      elim (Bool-cases (id_of d c == id)) [
        | inl same ↦
            let present = count-IsIn (λ c. id_of d c == id) c s.candidates same there in
            omega (arith, rw same at taken, rw same at added, present, few)
        | inr other ↦ omega (arith, rw other at taken, rw other at added)
      ]

  exclude_redundant-entries :
      (facts : PlannerReadFacts) (template : CheckTemplate d) (cs : List (Candidate d))
      (excluded : Dict Text ExcludedCheck) (id : Text)
      → candidates_of id cs + entries id excluded ≤ 1
      → entries id (exclude_redundant d facts template cs excluded)
        ≡ candidates_of id (filter (λ c. is_redundant d facts template c.template) cs)
          + entries id excluded
  unfolding exclude_redundant filter count
  exclude_redundant-entries facts template [] excluded id few = omega arith
  exclude_redundant-entries facts template (c ∷ cs) excluded id few =
      elim (Bool-cases (is_redundant d facts template c.template)) [
        | inl h ↦
            let added =
              entries-insert (id_of d c) (redundant_check d facts template c.template) excluded id
                (omega (arith, few)) in
            rw h (
              omega (
                arith,
                added,
                exclude_redundant-entries facts template cs
                    (insert (id_of d c) (redundant_check d facts template c.template) excluded) id
                    (omega (arith, few, added)),
              ))
        | inr h ↦
            rw h (exclude_redundant-entries facts template cs excluded id (omega (arith, few)))
      ]

  drop_redundant-tally :
      (facts : PlannerReadFacts) (template : CheckTemplate d) (s : Selection d) (id : Text)
      → tally id s ≤ 1
      → tally id (drop_redundant d facts template s) ≡ tally id s
  unfolding drop_redundant
  drop_redundant-tally facts template s id few =
      let parts =
        count-filter (λ c. id_of d c == id)
          (λ (c : Candidate d). is_redundant d facts template c.template) s.candidates in
      omega (
        arith,
        parts,
        exclude_redundant-entries facts template s.candidates s.excluded id (omega (arith, few)),
      )

  -- The loop keeps the tally of every identity.
  pub select-tally :
      (i : Inputs d) (room : ℕ) (s : Selection d) (id : Text)
      → tally id s ≤ 1
      → tally id (select d i room s) ≡ tally id s
  select-tally i room s id few =
      select-Ensures d i (λ _ t. tally id t ≡ tally id s) (λ t. tally id t ≡ tally id s)
        (λ _ t same _. same)
        (λ t c same chosen. take_chosen-tally i t c id chosen.0 (omega (arith, same, few)) ∙ same)
        (λ _ t c same chosen.
          let taken = take_chosen-tally i t c id chosen.0 (omega (arith, same, few)) in
          drop_redundant-tally i.facts c.template (take_chosen d i (scored d i t c) t) id
            (omega (arith, taken, same, few))
          ∙ (taken ∙ same))
        room s refl

  pub exclude_rest-entries :
      (maximum : ℕ) (cs : List (Candidate d)) (excluded : Dict Text ExcludedCheck) (id : Text)
      → candidates_of id cs + entries id excluded ≤ 1
      → entries id (exclude_rest d maximum cs excluded) ≡ candidates_of id cs + entries id excluded
  unfolding exclude_rest count
  exclude_rest-entries maximum [] excluded id few = omega arith
  exclude_rest-entries maximum (c ∷ cs) excluded id few =
      let added =
        entries-insert (id_of d c) (limit_check d maximum c) excluded id (omega (arith, few)) in
      omega (
        arith,
        added,
        exclude_rest-entries maximum cs (insert (id_of d c) (limit_check d maximum c) excluded) id
            (omega (arith, few, added)),
      )
