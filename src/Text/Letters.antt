-- ===== src/Text/Letters.antt =====
-- `EqualsIgnoreCase` against the comparison of the lower-case strings.
use sm_rest.Prelude.{
  ◌≡◌, refl, ap, true, [], ◌∷◌, arith, Bytes, bytes_eq, bytes_eq_sound, bytes_eq_refl,
}
use sm_rest.Text.{lower_char, to_lower, equals_ignore_case}

-- Two strings are equal but for case exactly when their lower-case forms are the same string.
pub equals_ignore_case-to_lower :
    (left right : Bytes) → equals_ignore_case left right ≡ bytes_eq (to_lower left) (to_lower right)
unfolding equals_ignore_case to_lower
equals_ignore_case-to_lower [] [] = refl
equals_ignore_case-to_lower [] (y ∷ ys) = ground arith
equals_ignore_case-to_lower (x ∷ xs) [] = ground arith
equals_ignore_case-to_lower (x ∷ xs) (y ∷ ys) = ground (arith, equals_ignore_case-to_lower xs ys)

-- Folding the case twice is folding it once.
pub to_lower_idem : (value : Bytes) → to_lower (to_lower value) ≡ to_lower value
unfolding to_lower lower_char
to_lower_idem [] = refl
to_lower_idem (c ∷ cs) = ground (arith, to_lower_idem cs)

pub equals_ignore_case_refl : (name : Bytes) → equals_ignore_case name name ≡ true
equals_ignore_case_refl name =
    rw (equals_ignore_case-to_lower name name) (bytes_eq_refl (to_lower name))

-- A name and one equal to it but for case fit the same names.
pub equals_ignore_case_congr :
    (a b c : Bytes)
    → equals_ignore_case a b ≡ true
    → equals_ignore_case a c ≡ equals_ignore_case b c
equals_ignore_case_congr a b c h =
    rw (equals_ignore_case-to_lower a c, equals_ignore_case-to_lower b c)
      (ap (λ (s : Bytes). bytes_eq s (to_lower c))
        (bytes_eq_sound (to_lower a) (to_lower b) (rw (equals_ignore_case-to_lower a b) at h)))

pub equals_ignore_case_congr_right :
    (a b c : Bytes)
    → equals_ignore_case b c ≡ true
    → equals_ignore_case a b ≡ equals_ignore_case a c
equals_ignore_case_congr_right a b c h =
    rw (equals_ignore_case-to_lower a b, equals_ignore_case-to_lower a c)
      (ap (bytes_eq (to_lower a))
        (bytes_eq_sound (to_lower b) (to_lower c) (rw (equals_ignore_case-to_lower b c) at h)))
