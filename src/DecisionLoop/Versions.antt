-- ===== src/DecisionLoop/Versions.antt =====
-- The search for a free cycle name in `reopen_episode` (src/ephi/application/decision_loop.py) ends.
use Prim.Native.Nat.{◌/◌, ◌%◌}
use ephi.Base.{
  ℕ, zero, suc, ◌+◌, ◌-◌, ◌*◌, ◌≤◌, ◌<◌, ◌≡◌, refl, sym, ap, ◌∙◌, Bool, true, false, not, List, [],
  ◌∷◌, ◌++◌, arith, length, Bool-cases, inl, inr, ltb, list_Eq, list_eq_iff, ℕ_eq,
}
use ephi.Base.Text.{Text, codes}
use ephi.Base.Order.{true≢false}
use ephi.Base.Sort.{any, filter}
use ephi.DecisionLoop.Model.{Cycle}
use ephi.DecisionLoop.State.{has_cycle_id}
use ephi.Base.Decimal.{digits_onto, decimal}
use ephi.DecisionLoop.Reopening.{cycle_name, free_version}

-- The number that digits spell, after a number before them.
parse : ℕ → Text → ℕ
parse n [] = n
parse n (c ∷ cs) = parse (n * 10 + (c - 48)) cs

last_digit : (n : ℕ) → ltb n 10 ≡ true → 0 * 10 + ((48 + n % 10) - 48) ≡ n
last_digit n h = ground arith

fewer : (n fuel : ℕ) → ltb n 10 ≡ false → n < suc fuel → n / 10 < fuel
fewer n fuel h k = ground arith

digits_of : (n : ℕ) → (n / 10) * 10 + ((48 + n % 10) - 48) ≡ n
digits_of n = omega arith

parse-digits_onto :
    (fuel n : ℕ) (rest : Text) → n < fuel → parse 0 (digits_onto fuel n rest) ≡ parse n rest
unfolding digits_onto parse
parse-digits_onto zero n rest h = absurd (omega (arith, h))
parse-digits_onto (suc fuel) n rest h = elim (Bool-cases (ltb n 10)) [
  | inl small ↦ rw (small, digits_onto) (ap (λ z. parse z rest) (last_digit n small))
  | inr large ↦
      rw (large, digits_onto)
        (parse-digits_onto fuel (n / 10) ((48 + n % 10) ∷ rest) (fewer n fuel large h)
          ∙ ap (λ z. parse z rest) (digits_of n))
]

decimal_inj : (m n : ℕ) → decimal m ≡ decimal n → m ≡ n
unfolding parse
decimal_inj m n h =
    sym (parse-digits_onto (suc m) m [] (omega arith))
    ∙ (ap (parse 0) h ∙ parse-digits_onto (suc n) n [] (omega arith))

append_inj : {A : Type 0} (xs : List A) {ys zs : List A} → xs ++ ys ≡ xs ++ zs → ys ≡ zs
append_inj [] h = h
append_inj (x ∷ xs) h = append_inj xs (cc)

-- Versions have names of their own.
cycle_name_inj : (e : Text) (m n : ℕ) → cycle_name e m ≡ cycle_name e n → m ≡ n
cycle_name_inj e m n h = decimal_inj m n (append_inj (codes ":cycle-") (append_inj e h))

module _ {A : Type 0} where
  filter_most : (p : A → Bool) (xs : List A) → length (filter (λ x. not (p x)) xs) ≤ length xs
  unfolding filter
  filter_most p [] = omega arith
  filter_most p (x ∷ xs) = ground (arith, filter_most p xs)

  -- A filter that drops something makes a list shorter.
  filter_shorter :
      (p : A → Bool) (xs : List A)
      → any p xs ≡ true
      → length (filter (λ x. not (p x)) xs) < length xs
  unfolding any filter
  filter_shorter p [] h = cc
  filter_shorter p (x ∷ xs) h = elim (Bool-cases (p x)) [
    | inl hit ↦ rw hit (omega (arith, filter_most p xs))
    | inr miss ↦ rw miss (omega (arith, filter_shorter p xs (rw miss at h)))
  ]

  -- What a filter drops does not matter to a test that it excludes.
  any-filter :
      (p q : A → Bool) (xs : List A)
      → ((x : A) → q x ≡ true → p x ≡ false)
      → any q (filter (λ x. not (p x)) xs) ≡ any q xs
  unfolding any filter
  any-filter p q [] apart = refl
  any-filter p q (x ∷ xs) apart = elim (Bool-cases (p x)) [
    | inr miss ↦ rw (miss, any-filter p q xs apart) refl
    | inl hit ↦ elim (Bool-cases (q x)) [
      | inl both ↦ absurd (true≢false (sym hit ∙ apart x both))
      | inr other ↦ rw (hit, any-filter p q xs apart) (rw other refl)
    ]
  ]

module _ (e : Text) (cycles : List Cycle) where
  -- The search, while the names from a version on are taken in no more cycles than there is fuel for.
  search :
      (fuel version : ℕ) (left : List Cycle)
      → length left < fuel
      → ((w : ℕ)
          → version ≤ w
          → any (has_cycle_id (cycle_name e w)) cycles ≡ any (has_cycle_id (cycle_name e w)) left)
      → any (has_cycle_id (cycle_name e (free_version fuel e cycles version))) cycles ≡ false
  unfolding free_version
  search zero version left few agree = absurd (omega (arith, few))
  search (suc fuel) version left few agree =
      elim (Bool-cases (any (has_cycle_id (cycle_name e version)) cycles)) [
        | inr free ↦ rw (free, free_version) free
        | inl used ↦
            let p = has_cycle_id (cycle_name e version) in
            rw (used, free_version)
              (search fuel (suc version) (filter (λ c. not (p c)) left)
                (omega
                  (arith, few, filter_shorter p left (sym (agree version (omega arith)) ∙ used)))
                (λ w later.
                  agree w (omega (arith, later))
                  ∙ sym
                      (any-filter p (has_cycle_id (cycle_name e w)) left (apart version w later))))
      ]
    where
      apart :
          (v w : ℕ)
          → suc v ≤ w
          → (c : Cycle) → has_cycle_id (cycle_name e w) c ≡ true
          → has_cycle_id (cycle_name e v) c ≡ false
      apart v w later c named = elim (Bool-cases (has_cycle_id (cycle_name e v) c)) [
        | inr other ↦ other
        | inl same ↦
            let one = cycle_name_inj e v w (
              sym ((list_eq_iff c.cycle_id (cycle_name e v)).0 same)
              ∙ (list_eq_iff c.cycle_id (cycle_name e w)).0 named) in
            absurd (omega (arith, one, later))
      ]

  -- The search for a new cycle's version ends on one whose name no cycle has, whichever it starts from,
  -- after at most one turn more than there are cycles.
  pub free_version-IsFree :
      (version : ℕ)
      → any
          (has_cycle_id (cycle_name e (free_version (suc (length cycles)) e cycles version)))
          cycles
        ≡ false
  free_version-IsFree version =
      search (suc (length cycles)) version cycles (omega arith) (λ w later. refl)
