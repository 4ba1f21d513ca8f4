-- ===== src/Planner/Loop.antt =====
-- Reasoning about the selection loop of `plan` in src/ephi/application/planner.py.
use mathlib.Core.Path.{subst}
use ephi.Base.{
  ℕ, zero, suc, ◌≡◌, refl, ap, ◌∙◌, Bool, none, some, List, [], ◌∷◌, map, All, Bool-cases,
  Option-cases, inl, inr, ◌⊎◌, some_inj,
}
use ephi.Base.Order.{IsIn, All-map, All-IsIn, All-mapped}
use ephi.Planner.Templates.{Decimals}
use ephi.Planner.Ranking.{Scored, choose, first_of}
use ephi.Planner.Select.{Candidate, Selection, Inputs, scored, take_chosen, drop_redundant, select}

module _ (d : Decimals) where
  first_of-All :
      (Q : Scored d → Type 0) (before : Scored d → Scored d → Bool) (x : Scored d)
      (xs : List (Scored d))
      → Q x
      → All Q xs
      → Q (first_of d before x xs)
  unfolding first_of
  first_of-All Q before x [] q qs = q
  first_of-All Q before x (y ∷ ys) q qs = elim (Bool-cases (before y x)) [
    | inl h ↦ rw h (first_of-All Q before y ys qs.0 qs.1)
    | inr h ↦ rw h (first_of-All Q before x ys q qs.1)
  ]

  -- What is chosen is one of the candidates, scored.
  pub chosen-IsCandidate :
      (i : Inputs d) (s : Selection d) {chosen : Scored d}
      → choose d (map (scored d i s) s.candidates) ≡ some chosen
      → (c : Candidate d) × IsIn c s.candidates × (chosen ≡ scored d i s c)
  unfolding choose
  chosen-IsCandidate i s {chosen} h = go s.candidates (All-IsIn s.candidates) h
    where
      IsScored : Scored d → Type 0
      IsScored sc = (c : Candidate d) × IsIn c s.candidates × (sc ≡ scored d i s c)

      go :
          (cs : List (Candidate d))
          → All (λ (c : Candidate d). IsIn c s.candidates) cs
          → choose d (map (scored d i s) cs) ≡ some chosen
          → (c : Candidate d) × IsIn c s.candidates × (chosen ≡ scored d i s c)
      go [] inside h = cc
      go (c ∷ cs) inside h = subst IsScored (some_inj h) (
          first_of-All IsScored _ (scored d i s c) (map (scored d i s) cs) (c, inside.0, refl)
            (All-mapped IsScored (scored d i s) cs
              (All-map cs (λ c there. (c, there, refl)) inside.1)))

  -- The state after a turn that is not the last.
  abbrev pub turn : Inputs d → Candidate d → Selection d → Selection d
  turn i c s = drop_redundant d i.facts c.template (take_chosen d i (scored d i s c) s)

  -- The loop ends for want of room or of candidates.
  abbrev pub IsOver : Inputs d → ℕ → Selection d → Type 0
  IsOver i room s = (room ≡ 0) ⊎ (choose d (map (scored d i s) s.candidates) ≡ none)

  -- The loop chooses this candidate.
  abbrev pub IsChosen : Inputs d → Selection d → Candidate d → Type 0
  IsChosen i s c =
      IsIn c s.candidates × (choose d (map (scored d i s) s.candidates) ≡ some (scored d i s c))

  choice :
      (i : Inputs d) (s : Selection d)
      → (choose d (map (scored d i s) s.candidates) ≡ none)
        ⊎ ((c : Candidate d) × IsIn c s.candidates
            × (choose d (map (scored d i s) s.candidates) ≡ some (scored d i s c)))
  choice i s = elim (Option-cases (choose d (map (scored d i s) s.candidates))) [
    | inl empty ↦ inl empty
    | inr (chosen, h) ↦
        let (c, there, same) = chosen-IsCandidate i s h in inr (c, there, h ∙ ap some same)
  ]

  -- What every turn keeps, and what holds where the loop ends.
  pub select-Ensures :
      (i : Inputs d) (P : ℕ → Selection d → Type 0) (Q : Selection d → Type 0)
      → ((room : ℕ) (s : Selection d) → P room s → IsOver i room s → Q s)
      → ((s : Selection d) (c : Candidate d)
          → P 1 s
          → IsChosen i s c
          → Q (take_chosen d i (scored d i s c) s))
      → ((room : ℕ) (s : Selection d) (c : Candidate d)
          → P (suc (suc room)) s
          → IsChosen i s c
          → P (suc room) (turn i c s))
      → (room : ℕ) (s : Selection d) → P room s
      → Q (select d i room s)
  unfolding select scored
  select-Ensures i P Q stop last more zero s p = stop 0 s p (inl refl)
  select-Ensures i P Q stop last more (suc zero) s p = elim (choice i s) [
    | inl empty ↦ rw (select, empty) (stop 1 s p (inr empty))
    | inr (c, there, h) ↦ rw (select, h) (last s c p (there, h))
  ]
  select-Ensures i P Q stop last more (suc (suc room)) s p = elim (choice i s) [
    | inl empty ↦ rw (select, empty) (stop (suc (suc room)) s p (inr empty))
    | inr (c, there, h) ↦
        rw (select, h)
          (select-Ensures i P Q stop last more (suc room) (turn i c s) (more room s c p (there, h)))
  ]
