-- ===== src/Text/Headers.antt =====
-- The header list as a map from names, compared without case, to values.
use sm_rest.Prelude.{◌≡◌, refl, none, some, [], ◌∷◌, arith, Bytes, if◌then◌else◌}
use sm_rest.Text.{HeaderList, equals_ignore_case, set_header, remove_header, find_header}
use sm_rest.Text.Letters.{equals_ignore_case_congr, equals_ignore_case_congr_right}

-- After `SetHeader` the name it was given, in any case, finds the value, and every other name what
-- it found before.
pub find_header-set_header :
    (headers : HeaderList) (name value other : Bytes)
    → find_header (set_header headers name value) other
      ≡ (if equals_ignore_case name other then some value else find_header headers other)
unfolding find_header set_header
find_header-set_header [] name value other = refl
find_header-set_header ((field, old) ∷ headers) name value other = ground (
  arith,
  find_header-set_header headers name value other,
  equals_ignore_case_congr field name other,
  equals_ignore_case_congr_right field name other,
)

-- After `RemoveHeader` the name finds nothing in any case, however often it was listed, and every
-- other name what it found before.
pub find_header-remove_header :
    (headers : HeaderList) (name other : Bytes)
    → find_header (remove_header headers name) other
      ≡ (if equals_ignore_case name other then none else find_header headers other)
unfolding find_header remove_header
find_header-remove_header [] name other = ground arith
find_header-remove_header ((field, value) ∷ headers) name other = ground (
  arith,
  find_header-remove_header headers name other,
  equals_ignore_case_congr field name other,
  equals_ignore_case_congr_right field name other,
)
