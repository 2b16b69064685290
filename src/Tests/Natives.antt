-- ===== src/Tests/Natives.antt =====
-- The calls of plugins at concrete inputs.
use sm_rest.Prelude.{
  ◌≡◌, refl, List, [], ◌∷◌, ◌++◌, none, arith, Bytes, bytes, is_empty, length, if◌then◌else◌,
}
use sm_rest.Prelude.Int.{pos, negsuc}
use sm_rest.Request.{FormField, default_spec}
use sm_rest.Native.{c_str, given_body, set_query, build_form_body, read_body}
use sm_rest.Native.Forms.{decode_form, decode_form-set_query, pairs_of, decode_form-build_form_body}
use sm_rest.Native.Setters.{
  Setter, body, form_field, form_file, apply_all, IsConsistent, apply_all-IsConsistent,
}
use sm_rest.Native.Reading.{read_on, read_on_whole}

-- A value with a separator in it.
abbrev tricky : Bytes
tricky = 38 ∷ 61 ∷ []

abbrev field : FormField
field = record { name = 97 ∷ []; value = tricky; file_path = []; file_name = []; content_type = [] }

decode_form-set_query_example :
    decode_form (set_query default_spec (97 ∷ []) tricky).query
    ≡ (if is_empty default_spec.query then [] else decode_form default_spec.query)
      ++ (97 ∷ [], tricky) ∷ []
decode_form-set_query_example =
    decode_form-set_query default_spec (97 ∷ []) tricky (omega arith, tt)
      (omega arith, (omega arith, tt))

decode_form-build_form_body_example :
    decode_form (build_form_body (field ∷ field ∷ [])) ≡ pairs_of (field ∷ field ∷ [])
decode_form-build_form_body_example = decode_form-build_form_body field (field ∷ []) (
  (omega arith, tt),
  (omega arith, (omega arith, tt)),
  ((omega arith, tt), (omega arith, (omega arith, tt)), tt),
)

default-IsConsistent : IsConsistent default_spec
default-IsConsistent = record { text = refl; file = refl; fields = refl; form = refl }

-- A text, then a form, to which a file is added.
abbrev setters : List Setter
setters =
    body (bytes "{}") (negsuc 0) (bytes "application/json")
    ∷ form_field (bytes "a") (bytes "1")
    ∷ form_file (bytes "f") (bytes "x.txt") [] []
    ∷ form_field (bytes "b") (bytes "2")
    ∷ []

apply_all-IsConsistent_example : IsConsistent (apply_all default_spec setters)
apply_all-IsConsistent_example = apply_all-IsConsistent default_spec setters default-IsConsistent

read_on_whole_example : read_on (length (bytes "abcde")) (bytes "abcde") 2 0 ≡ bytes "abcde"
read_on_whole_example = read_on_whole (bytes "abcde") 2 (omega arith)

refused : read_body (bytes "abc") (negsuc 0) (pos 2) ≡ none
unfolding read_body
refused = refl

-- Without a length the body ends at the first zero, and with one it does not.
binary :
    (given_body (97 ∷ 0 ∷ 98 ∷ []) (negsuc 0) ≡ 97 ∷ [])
    × (given_body (97 ∷ 0 ∷ 98 ∷ []) (pos 3) ≡ 97 ∷ 0 ∷ 98 ∷ [])
unfolding given_body c_str
binary = (refl, refl)
