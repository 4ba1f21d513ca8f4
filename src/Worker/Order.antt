-- ===== src/Worker/Order.antt =====
-- Which job a claim takes: the order of `claim` (src/ephi/infrastructure/postgresql_worker.py).
use mathlib.Core.Path.{subst}
use ephi.Base.{
  ℕ, Bool, true, false, ◌&&◌, none, some, List, [], ◌∷◌, ◌≡◌, ◌≢◌, refl, sym, arith, ◌∙◌, ltb, All,
  Bool-cases, Option-cases, inl, inr, ok, some_inj,
}
use ephi.Base.Text.{Text}
use ephi.Base.Order.{IsOrder, IsIn, true≢false, lexically-IsOrder, All-map, All-IsIn}
use ephi.Base.Int.{lt_int, lt_int_asym, lt_int_trans}
use ephi.Worker.Model.{JobRecord, Db, validated_identity}
use ephi.Worker.Rows.{first_of_order-All}
use ephi.Worker.Claims.{
  Claim, claim, claim_statement, check_job_type, claimed, comes_before, first_of_order, is_in_reach,
  is_candidate,
}

module _ {P : Type 0} where
  by_priority : IsOrder (λ (i j : JobRecord P). lt_int j.priority i.priority)
  by_priority = record {
    asymmetric = λ i j h. lt_int_asym j.priority i.priority h;
    between = λ i j k h l. lt_int_trans k.priority j.priority i.priority l h;
  }

  earlier : (key : JobRecord P → ℕ) → IsOrder (λ (i j : JobRecord P). ltb (key i) (key j))
  earlier key = record { asymmetric = λ i j h. ground arith; between = λ i j k h l. ground arith }

  comes_before-IsOrder :
      (before : Text → Text → Bool) → IsOrder before → IsOrder (comes_before {P = P} before)
  unfolding comes_before
  comes_before-IsOrder before o = lexically-IsOrder by_priority (
      lexically-IsOrder (earlier (λ j. j.available_at)) (
        lexically-IsOrder (earlier (λ j. j.created_at)) (record {
          asymmetric = λ i j. o.asymmetric i.job_id j.job_id;
          between = λ i j k. o.between i.job_id j.job_id k.job_id;
        })))

  -- No row that meets the condition comes before the chosen one.
  abbrev pub IsFirst :
      (Text → Text → Bool) → (JobRecord P → Bool) → List (JobRecord P) → JobRecord P → Type 0
  IsFirst before p js i = All (λ (k : JobRecord P). p k ≡ true → comes_before before k i ≡ false) js

  -- Nothing is chosen only where no row meets the condition.
  first_of_order-none :
      (before : Text → Text → Bool) (p : JobRecord P → Bool) (js : List (JobRecord P))
      → first_of_order before p js ≡ none
      → All (λ (k : JobRecord P). p k ≡ false) js
  unfolding first_of_order
  first_of_order-none before p [] h = tt
  first_of_order-none before p (j ∷ js) h = elim (Bool-cases (p j)) [
    | inr miss ↦ (miss, first_of_order-none before p js (rw miss at h))
    | inl hit ↦ elim (Option-cases (first_of_order before p js)) [
      | inl last ↦ cc (rw (hit, last) at h)
      | inr (k, more) ↦ elim (Bool-cases (comes_before before k j)) [
        | inl sooner ↦ cc (rw (hit, more, sooner) at h)
        | inr not_sooner ↦ cc (rw (hit, more, not_sooner) at h)
      ]
    ]
  ]

  module _ (before : Text → Text → Bool) (o : IsOrder before) (p : JobRecord P → Bool) where
    order : IsOrder (comes_before {P = P} before)
    order = comes_before-IsOrder before o

    irreflexive : (i : JobRecord P) → comes_before before i i ≡ false
    irreflexive i = elim (Bool-cases (comes_before before i i)) [
      | inl sooner ↦ order.asymmetric i i sooner
      | inr not_sooner ↦ not_sooner
    ]

    first_of_order-IsFirst :
        (js : List (JobRecord P)) {i : JobRecord P}
        → first_of_order before p js ≡ some i
        → IsFirst before p js i
    unfolding first_of_order
    first_of_order-IsFirst [] h = tt
    first_of_order-IsFirst (j ∷ js) {i} h = elim (Bool-cases (p j)) [
      | inr miss ↦
          (λ hit. absurd (true≢false (sym hit ∙ miss)), first_of_order-IsFirst js (rw miss at h))
      | inl hit ↦ elim (Option-cases (first_of_order before p js)) [
        | inl last ↦
            let same : j ≡ i = some_inj (rw (hit, last) at h) in
            subst (IsFirst before p (j ∷ js)) same (
              λ _. irreflexive j,
              All-map js (λ k none_here hit. absurd (true≢false (sym hit ∙ none_here)))
                  (first_of_order-none before p js last),
            )
        | inr (k, more) ↦
            let rest = first_of_order-IsFirst js more in
            elim (Bool-cases (comes_before before k j)) [
              | inl sooner ↦
                  let same : k ≡ i = some_inj (rw (hit, more, sooner) at h) in
                  subst (IsFirst before p (j ∷ js)) same (λ _. order.asymmetric k j sooner, rest)
              | inr not_sooner ↦
                  let same : j ≡ i = some_inj (rw (hit, more, not_sooner) at h) in
                  subst (IsFirst before p (j ∷ js)) same (
                    λ _. irreflexive j,
                    All-map js (λ l least hit. order.between l k j (least hit) not_sooner) rest,
                  )
            ]
      ]
    ]

-- The rows of a claim's reach that it may take.
abbrev pub can_take : {P : Type 0} → Claim → JobRecord P → Bool
can_take q j = is_in_reach q.scope_key q.job_type q.locked j && is_candidate q.now j

-- The checks of a claim's arguments pass.
abbrev pub IsProper : Claim → Type 0
IsProper q = (validated_identity q.owner ≡ ok tt) × (check_job_type q.job_type ≡ ok tt)

module _ {P : Type 0} (before : Text → Text → Bool) where
  -- A claim with proper arguments that finds a candidate in its reach answers with the claimed form of
  -- one of the table's rows, a candidate that no other candidate in reach comes before in the order of
  -- priority, availability, creation and name (whose comparison of names is an order).
  pub claim-TakesFirst :
      IsOrder before
      → (q : Claim) (db : Db P) (k : JobRecord P) → IsProper q
      → IsIn k db.jobs
      → can_take q k ≡ true
      → (i : JobRecord P) × ((claim before q db).0 ≡ ok (some (claimed q.owner q.duration q.now i)))
        × (IsIn i db.jobs × ((can_take q i ≡ true) × IsFirst before (can_take q) db.jobs i))
  unfolding claim claim_statement
  claim-TakesFirst o q db k (v, w) there may =
      elim (Option-cases (first_of_order before (can_take q) db.jobs)) [
        | inl empty ↦
            absurd
              (refute db.jobs (first_of_order-none before (can_take q) db.jobs empty) there may)
        | inr (i, first) ↦
            let (inside, hit) =
              first_of_order-All (λ x. IsIn x db.jobs) before (can_take q) db.jobs
                (All-IsIn db.jobs) first in
            (
              i,
              rw (claim, v, w, claim_statement, first) refl,
              (inside, (hit, first_of_order-IsFirst before o (can_take q) db.jobs first)),
            )
      ]
    where
      refute :
          (js : List (JobRecord P))
          → All (λ (j : JobRecord P). can_take q j ≡ false) js
          → IsIn k js
          → can_take q k ≢ true
      refute [] a h hit = h
      refute (j ∷ js) a (inl e) hit =
          true≢false (sym hit ∙ subst (λ z. can_take q z ≡ false) (sym e) a.0)
      refute (j ∷ js) a (inr h) hit = refute js a.1 h hit
