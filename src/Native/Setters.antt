-- ===== src/Native/Setters.antt =====
-- A request has one body, whatever the order in which a plugin sets it up.
use sm_rest.Prelude.{
  ◌≡◌, refl, Bool, true, false, not, ◌||◌, List, [], ◌∷◌, arith, Bytes, all, all-append, is_empty,
}
use sm_rest.Prelude.Int.{ℤ}
use sm_rest.Request.{BodyKind, FormField, RequestSpec}
use sm_rest.Native.{
  set_query, given_body, set_body, set_body_file, set_form_kind, add_form_field, add_form_file,
  set_output_file, is_form, is_multipart,
}

-- The setters of a request that have to do with what it sends.
pub data Setter : Type 0 where
  query : Bytes → Bytes → Setter
  body : Bytes → ℤ → Bytes → Setter
  body_file : Bytes → Bytes → Setter
  form_field : Bytes → Bytes → Setter
  form_file : Bytes → Bytes → Bytes → Bytes → Setter
  output_file : Bytes → Bool → Setter

unfoldable pub apply : RequestSpec → Setter → RequestSpec
apply spec (query name value) = set_query spec name value
apply spec (body memory size content_type) = set_body spec (given_body memory size) content_type
apply spec (body_file path content_type) = set_body_file spec path content_type
apply spec (form_field name value) = add_form_field spec name value
apply spec (form_file name path content_type file_name) =
    add_form_file spec name path content_type file_name
apply spec (output_file path resume) = set_output_file spec path resume

unfoldable pub apply_all : RequestSpec → List Setter → RequestSpec
unfolding apply
apply_all spec [] = spec
apply_all spec (setter ∷ setters) = apply_all (apply spec setter) setters

abbrev is_file : BodyKind → Bool
is_file BodyKind.file = true
is_file _ = false

abbrev is_memory : BodyKind → Bool
is_memory BodyKind.memory = true
is_memory _ = false

abbrev has_no_file : FormField → Bool
has_no_file field = is_empty field.file_path

-- A text, a file and fields exclude each other, and a form that is sent as text has no field that
-- is a file.
pub record IsConsistent (spec : RequestSpec) : Type 0 where
  pub text : (is_memory spec.body_kind || is_empty spec.body) ≡ true
  pub file : (is_file spec.body_kind || is_empty spec.body_file_path) ≡ true
  pub fields :
      ((is_form spec.body_kind || is_multipart spec.body_kind) || is_empty spec.form_fields) ≡ true
  pub form : (not (is_form spec.body_kind) || all has_no_file spec.form_fields) ≡ true

nil_has_no_file : (fields : List FormField) → is_empty fields ≡ true → all has_no_file fields ≡ true
nil_has_no_file [] h = refl
nil_has_no_file (field ∷ fields) h = absurd cc

apply-IsConsistent :
    (spec : RequestSpec) (setter : Setter) → IsConsistent spec → IsConsistent (apply spec setter)
unfolding apply set_query set_body set_body_file add_form_field add_form_file set_output_file
    set_form_kind
apply-IsConsistent spec (query name value) h = record {
  text = h.text;
  file = h.file;
  fields = h.fields;
  form = h.form;
}
apply-IsConsistent spec (body memory size content_type) h = record {
  text = refl;
  file = refl;
  fields = refl;
  form = refl;
}
apply-IsConsistent spec (body_file path content_type) h = record {
  text = refl;
  file = refl;
  fields = refl;
  form = refl;
}
apply-IsConsistent spec (form_field name value) h = ground (
  arith,
  all-append has_no_file spec.form_fields (
      record { name = name; value = value; file_path = []; file_name = []; content_type = [] }
      ∷ []),
  nil_has_no_file spec.form_fields,
)
apply-IsConsistent spec (form_file name path content_type file_name) h = ground arith
apply-IsConsistent spec (output_file path resume) h = record {
  text = h.text;
  file = h.file;
  fields = h.fields;
  form = h.form;
}

-- Whatever setters a plugin calls on a request that is consistent, as a new one is, and in whatever
-- order: the request has one kind of body and nothing of another kind, and a form with a file in it
-- is sent as a multipart form, so that the file is not left out.
pub apply_all-IsConsistent :
    (spec : RequestSpec) (setters : List Setter)
    → IsConsistent spec
    → IsConsistent (apply_all spec setters)
unfolding apply_all
apply_all-IsConsistent spec [] h = h
apply_all-IsConsistent spec (setter ∷ setters) h =
    apply_all-IsConsistent (apply spec setter) setters (apply-IsConsistent spec setter h)
