-- ===== src/Base/Text/Strip.antt =====
-- `str.strip` is idempotent, so an identity that was stripped once is kept as it is.
use mathlib.Core.List.{reverse, reverse-append, reverse-reverse}
use ephi.Base.{Bool, true, not, [], ◌∷◌, ◌++◌, ◌≡◌, refl, sym, ap, ◌∙◌, arith, inl, inr, Bool-cases}
use ephi.Base.Text.{Text, is_space, lstrip, strip}

abbrev is_trimmed : Text → Bool
is_trimmed [] = true
is_trimmed (c ∷ s) = not (is_space c)

lstrip-is_trimmed : (s : Text) → is_trimmed (lstrip s) ≡ true
unfolding lstrip
lstrip-is_trimmed [] = refl
lstrip-is_trimmed (c ∷ s) = ground (arith, lstrip-is_trimmed s)

lstrip_of_is_trimmed : (s : Text) → is_trimmed s ≡ true → lstrip s ≡ s
unfolding lstrip
lstrip_of_is_trimmed [] h = refl
lstrip_of_is_trimmed (c ∷ s) h = ground arith

-- What `lstrip` removes stands in front of what it keeps.
lstrip_suffix : (s : Text) → (w : Text) × (s ≡ w ++ lstrip s)
unfolding lstrip
lstrip_suffix [] = ([], refl)
lstrip_suffix (c ∷ s) = elim (Bool-cases (is_space c)) [
  | inl e ↦ let (w, q) = lstrip_suffix s in (c ∷ w, rw e (ap (◌∷◌ c) q))
  | inr e ↦ ([], rw e)
]

is_trimmed_prefix : (a b : Text) → is_trimmed (a ++ b) ≡ true → is_trimmed a ≡ true
is_trimmed_prefix [] b h = refl
is_trimmed_prefix (c ∷ a) b h = h

reverse_suffix : (t u w : Text) → reverse t ≡ w ++ u → t ≡ reverse u ++ reverse w
reverse_suffix t u w e = sym (reverse-reverse t) ∙ ap reverse e ∙ reverse-append w u

-- The inner text of a strip, whose reverse is trimmed already.
stripped_is_trimmed :
    (t : Text) → is_trimmed t ≡ true → is_trimmed (reverse (lstrip (reverse t))) ≡ true
stripped_is_trimmed t h =
    let (w, e) = lstrip_suffix (reverse t) in
    is_trimmed_prefix (reverse (lstrip (reverse t))) (reverse w) (rw (reverse_suffix t _ w e) at h)

pub strip-strip : (s : Text) → strip (strip s) ≡ strip s
unfolding strip
strip-strip s =
    let inner = lstrip (reverse (lstrip s)) in
    let trimmed = stripped_is_trimmed (lstrip s) (lstrip-is_trimmed s) in
    rw (lstrip_of_is_trimmed (reverse inner) trimmed) (
      rw (reverse-reverse inner)
        (ap reverse (lstrip_of_is_trimmed inner (lstrip-is_trimmed (reverse (lstrip s))))))
