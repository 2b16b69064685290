-- ===== src/Job/Options.antt =====
-- The request as options of a curl handle (src/job.cpp): headers, limits, login, method and body.
use sm_rest.Prelude.{
  ℕ, Bool, true, false, not, ◌&&◌, Option, none, some, List, [], ◌∷◌, ◌++◌, Bytes, bytes, is_empty,
  length, if◌then◌else◌, ltb,
}
use sm_rest.Prelude.Int.{ℤ, pos, leb_ℤ}
use sm_rest.Text.{HeaderList}
use sm_rest.Numbers.{to_string}
use sm_rest.Request.{RestMethod, BodyKind, FormField, ClientConfig}
use sm_rest.Job.State.{RestJob, EasyOption, MimePart, set_options}

-- `CURL_MAX_READ_SIZE` of libcurl, and the version that the build sets.
pub record Platform : Type 0 where
  pub max_read_size : ℤ
  pub version : Bytes

unfoldable pub method_name : RestMethod → Bytes
method_name RestMethod.get = bytes "GET"
method_name RestMethod.head = bytes "HEAD"
method_name RestMethod.post = bytes "POST"
method_name RestMethod.put = bytes "PUT"
method_name RestMethod.patch = bytes "PATCH"
method_name RestMethod.delete = bytes "DELETE"
method_name RestMethod.options = bytes "OPTIONS"

-- An entry with no value is sent as an empty header, which curl writes "name;".
header_lines : HeaderList → List Bytes
header_lines [] = []
header_lines ((name, value) ∷ headers) =
    (if is_empty value then name ++ bytes ";" else name ++ bytes ": " ++ value)
    ∷ header_lines headers

abbrev has_content_type : BodyKind → Bool
has_content_type BodyKind.none = false
has_content_type BodyKind.multipart = false
has_content_type _ = true

content_type_line : RestJob → List Bytes
content_type_line job =
    if has_content_type job.spec.body_kind && not (is_empty job.spec.body_content_type)
    then (bytes "Content-Type: " ++ job.spec.body_content_type) ∷ []
    else []

unfoldable pub range_line : ℕ → List Bytes
range_line offset =
    if ltb 0 offset then (bytes "Range: bytes=" ++ to_string offset ++ bytes "-") ∷ [] else []

unfoldable pub build_headers : RestJob → RestJob
unfolding header_lines content_type_line range_line
build_headers job = record job {
  header_list =
      header_lines job.spec.config.headers
      ++ content_type_line job
      ++ range_line job.resume_offset
      ++ bytes "Expect:" ∷ [];
}

max_ℤ : ℤ → ℤ → ℤ
max_ℤ a b = if leb_ℤ a b then b else a

min_ℤ : ℤ → ℤ → ℤ
min_ℤ a b = if leb_ℤ a b then a else b

unfoldable pub chunk_size_option : Platform → ClientConfig → ℤ
unfolding max_ℤ min_ℤ
chunk_size_option platform config =
    max_ℤ (pos 1024) (min_ℤ platform.max_read_size config.chunk_size)

common_options : Platform → RestJob → List EasyOption
common_options platform job =
    EasyOption.url job.spec.url
      ∷ EasyOption.private_job
      ∷ EasyOption.error_text job.error_buffer
      ∷ EasyOption.no_signal
      ∷ EasyOption.http_1_1
      ∷ EasyOption.follow_location job.spec.config.follow_redirects
      ∷ EasyOption.max_redirs job.spec.config.max_redirects
      ∷ EasyOption.ssl_verify_peer job.spec.config.verify_certificate
      ∷ EasyOption.ssl_verify_host (if job.spec.config.verify_certificate then 2 else 0)
      ∷ EasyOption.connect_timeout job.spec.config.connect_timeout
      ∷ EasyOption.timeout job.spec.config.absolute_timeout
      ∷ EasyOption.low_speed_limit (pos 1)
      ∷ EasyOption.low_speed_time job.spec.config.timeout
      ∷ EasyOption.max_send_speed job.spec.config.max_send_speed
      ∷ EasyOption.max_recv_speed job.spec.config.max_recv_speed
      ∷ EasyOption.accept_any_encoding
      ∷ EasyOption.buffer_size (chunk_size_option platform job.spec.config)
      ∷ EasyOption.header_callback
      ∷ EasyOption.write_callback
      ∷ EasyOption.progress_callback
      ∷ EasyOption.no_progress_off
      ∷ EasyOption.user_agent (
          if is_empty job.spec.config.user_agent
          then bytes "sm-rest/" ++ platform.version
          else job.spec.config.user_agent)
      ∷ (if is_empty job.spec.ca_bundle then [] else EasyOption.ca_info job.spec.ca_bundle ∷ [])
    ++ (if job.spec.verbose then EasyOption.verbose_on ∷ [] else [])

unfoldable pub apply_common_options : Platform → RestJob → RestJob
unfolding common_options chunk_size_option
apply_common_options platform job = set_options job (common_options platform job)

unfoldable pub auth_options : ClientConfig → List EasyOption
auth_options config =
    if not (is_empty config.bearer_token)
    then EasyOption.auth_bearer ∷ EasyOption.bearer config.bearer_token ∷ []
    else if is_empty config.basic_user
    then []
    else EasyOption.auth_basic
      ∷ EasyOption.username config.basic_user
      ∷ EasyOption.password config.basic_password
      ∷ []

unfoldable pub apply_auth : RestJob → RestJob
unfolding auth_options
apply_auth job = set_options job (auth_options job.spec.config)

-- The pairs of a method and a body for which curl's own choice of method is the one wanted.
abbrev native_method : RestMethod → BodyKind → Bool
native_method RestMethod.put BodyKind.file = true
native_method RestMethod.post BodyKind.file = false
native_method RestMethod.post _ = true
native_method _ _ = false

abbrev is_head : RestMethod → Bool
is_head RestMethod.head = true
is_head _ = false

named_method : RestMethod → BodyKind → List EasyOption
named_method method kind =
    (if not (native_method method kind)
      then EasyOption.custom_request (method_name method) ∷ []
      else [])
    ++ (if is_head method then EasyOption.no_body ∷ [] else [])

unfoldable pub method_options : RestMethod → BodyKind → List EasyOption
unfolding named_method method_name
method_options RestMethod.get BodyKind.none = EasyOption.http_get ∷ []
method_options RestMethod.head BodyKind.none = EasyOption.no_body ∷ []
method_options RestMethod.post BodyKind.none =
    EasyOption.http_post ∷ EasyOption.post_field_size 0 ∷ []
method_options method kind = named_method method kind

unfoldable pub apply_method : RestJob → RestJob
unfolding method_options
apply_method job = set_options job (method_options job.spec.method job.spec.body_kind)

unless_empty : Bytes → Option Bytes
unless_empty [] = none
unless_empty (c ∷ cs) = some (c ∷ cs)

-- A field with a path is sent from its file.
unfoldable pub mime_part : FormField → MimePart
unfolding unless_empty
mime_part field =
    if is_empty field.file_path
    then record {
      name = field.name;
      content = some field.value;
      file = none;
      file_name = none;
      content_type = none;
    }
    else record {
      name = field.name;
      content = none;
      file = some field.file_path;
      file_name = unless_empty field.file_name;
      content_type = unless_empty field.content_type;
    }

mime_parts : List FormField → List MimePart
mime_parts [] = []
mime_parts (field ∷ fields) = mime_part field ∷ mime_parts fields

unfoldable pub apply_multipart : RestJob → RestJob
unfolding mime_parts
apply_multipart job =
    set_options (record job { mime = some (mime_parts job.spec.form_fields) })
      (EasyOption.mime_post (mime_parts job.spec.form_fields) ∷ [])

body_options : RestJob → BodyKind → RestJob
body_options job BodyKind.none = job
body_options job BodyKind.memory =
    set_options job (
      EasyOption.post_fields job.spec.body ∷ EasyOption.post_field_size (length job.spec.body) ∷ [])
body_options job BodyKind.form =
    set_options job (
      EasyOption.post_fields job.spec.body ∷ EasyOption.post_field_size (length job.spec.body) ∷ [])
body_options job BodyKind.file = set_options job (
    EasyOption.upload
    ∷ EasyOption.read_callback
    ∷ EasyOption.seek_callback
    ∷ EasyOption.in_file_size job.upload_size
    ∷ [])
body_options job BodyKind.multipart = apply_multipart job

unfoldable pub apply_body : RestJob → RestJob
unfolding body_options apply_multipart
apply_body job = body_options job job.spec.body_kind
