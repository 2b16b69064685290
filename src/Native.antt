-- ===== src/Native.antt =====
-- src/natives.cpp: what the natives make of a client's settings, a request and a response once the
-- handle is resolved. Where the code throws an error at the plugin the result is `none`, and nothing
-- has changed. Native/Calls has the natives themselves.
pub mod Forms
pub mod Setters
pub mod Reading
pub mod Config
pub mod Calls
pub mod Sending
pub mod Settings
pub mod Responses
pub mod Listing
pub mod Table
use sm_rest.Prelude.{
  ℕ, ◌-◌, min, Bool, true, false, not, ◌||◌, ◌&&◌, List, [], ◌∷◌, ◌++◌, Option, none, some, Bytes,
  bytes, is_empty, length, take, drop, if◌then◌else◌, leb, ◌==◌,
}
use sm_rest.Prelude.Int.{ℤ, pos, negsuc, pos_part, ltb_ℤ}
use sm_rest.Text.{HeaderList, trim, set_header, remove_header}
use sm_rest.Uri.{uri_encode, is_absolute_url, join_url, append_query}
use sm_rest.Request.{BodyKind, FormField, ClientConfig, RequestSpec}

unfoldable pub native_set_header : ClientConfig → Bytes → Bytes → Option ClientConfig
native_set_header config name value =
    if is_empty (trim name)
    then none
    else some (record config { headers = set_header config.headers (trim name) value })

unfoldable pub native_remove_header : ClientConfig → Bytes → ClientConfig
native_remove_header config name = record config { headers = remove_header config.headers name }

unfoldable pub set_basic_auth : ClientConfig → Bytes → Bytes → ClientConfig
set_basic_auth config user password = record config {
  basic_user = user;
  basic_password = password;
  bearer_token = [];
}

unfoldable pub set_bearer_token : ClientConfig → Bytes → ClientConfig
set_bearer_token config token = record config {
  bearer_token = token;
  basic_user = [];
  basic_password = [];
}

unfoldable pub set_query : RequestSpec → Bytes → Bytes → RequestSpec
set_query spec name value =
    let before = if is_empty spec.query then spec.query else spec.query ++ b'&' ∷ [] in
    record spec { query = before ++ (uri_encode name ++ b'=' ∷ uri_encode value) }

-- A C string as a reader sees it, up to the first zero.
unfoldable pub c_str : Bytes → Bytes
c_str [] = []
c_str (c ∷ cs) = let rest = c_str cs in if c == 0 then [] else c ∷ rest

-- The body that `SetBody` takes of the plugin's memory, from the parameter's address on: the string
-- there, or as many bytes as are given.
unfoldable pub given_body : Bytes → ℤ → Bytes
unfolding c_str
given_body memory size = if ltb_ℤ size (pos 0) then c_str memory else take (pos_part size) memory

unfoldable pub set_body : RequestSpec → Bytes → Bytes → RequestSpec
set_body spec body content_type = record spec {
  body = body;
  body_kind = BodyKind.memory;
  body_content_type = content_type;
  body_file_path = [];
  form_fields = [];
}

-- `resolved` is what `ResolveGamePath` makes of the path.
unfoldable pub set_body_file : RequestSpec → Bytes → Bytes → RequestSpec
set_body_file spec resolved content_type = record spec {
  body_kind = BodyKind.file;
  body_file_path = resolved;
  body_content_type = content_type;
  body = [];
  form_fields = [];
}

abbrev pub is_multipart : BodyKind → Bool
is_multipart BodyKind.multipart = true
is_multipart _ = false

unfoldable pub set_form_kind : RequestSpec → Bool → RequestSpec
set_form_kind spec multipart = record spec {
  body_kind =
      if multipart || is_multipart spec.body_kind then BodyKind.multipart else BodyKind.form;
  body = [];
  body_file_path = [];
}

unfoldable pub add_form_field : RequestSpec → Bytes → Bytes → RequestSpec
unfolding set_form_kind
add_form_field spec name value =
    set_form_kind
      (record spec {
        form_fields =
            spec.form_fields
            ++ record {
              name = name;
              value = value;
              file_path = [];
              file_name = [];
              content_type = [];
            }
              ∷ [];
      })
      false

unfoldable pub add_form_file : RequestSpec → Bytes → Bytes → Bytes → Bytes → RequestSpec
unfolding set_form_kind
add_form_file spec name resolved content_type file_name =
    set_form_kind
      (record spec {
        form_fields =
            spec.form_fields
            ++ record {
              name = name;
              value = [];
              file_path = resolved;
              file_name = file_name;
              content_type = content_type;
            }
              ∷ [];
      })
      true

unfoldable pub set_output_file : RequestSpec → Bytes → Bool → RequestSpec
set_output_file spec resolved resume = record spec { output_path = resolved; resume = resume }

-- The loop of `BuildFormBody`, with the body built so far.
unfoldable pub build_form_from : Bytes → List FormField → Bytes
build_form_from body [] = body
build_form_from body (field ∷ fields) =
    build_form_from
      ((if is_empty body then body else body ++ b'&' ∷ [])
        ++ (uri_encode field.name ++ b'=' ∷ uri_encode field.value))
      fields

unfoldable pub build_form_body : List FormField → Bytes
unfolding build_form_from
build_form_body fields = build_form_from [] fields

abbrev pub is_form : BodyKind → Bool
is_form BodyKind.form = true
is_form _ = false

-- The request as `Send` hands it on, its URL complete.
unfoldable pub ready_spec : RequestSpec → Bytes → RequestSpec
unfolding build_form_body
ready_spec spec url =
    let addressed = record spec { url = append_query url spec.query } in
    if is_form spec.body_kind
    then record addressed {
      body = build_form_body spec.form_fields;
      body_content_type = bytes "application/x-www-form-urlencoded";
    }
    else addressed

-- `ReadBody`: the bytes that are copied into the plugin's array.
unfoldable pub read_body : Bytes → ℤ → ℤ → Option Bytes
read_body body offset maxlength =
    if ltb_ℤ offset (pos 0) || ltb_ℤ maxlength (pos 0)
    then none
    else let start = min (pos_part offset) (length body) in
      some (take (min (pos_part maxlength) (length body - start)) (drop start body))
