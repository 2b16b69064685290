-- ===== src/Extension/Loading.antt =====
-- How the extension is loaded (`SDK_OnLoad`, src/extension.cpp). What is registered with SourceMod
-- at the end, natives, library, listener and frame hook, is not state of the extension.
use sm_rest.Prelude.{
  ℕ, ◌≡◌, ◌≢◌, Bool, true, false, not, ◌&&◌, [], ◌∷◌, Option, none, some, Bytes, bytes, arith,
  if◌then◌else◌, ◌==◌,
}
use sm_rest.Thread.{TransferThread, start}
use sm_rest.Extension.{RestExtension, loaded}

-- What is put into the buffer for the error.
pub data LoadError : Type 0 where
  curl_failed no_client_type no_request_type no_response_type no_thread : LoadError

-- What libcurl and SourceMod answer: whether curl starts, the numbers of the three types, zero where
-- one cannot be made, the path that `BuildPath` gives for the bundle, which paths exist, the
-- environment variable, and whether there is a multi handle.
pub record LoadAnswers : Type 0 where
  pub curl_init : Bool
  pub client_type : ℕ
  pub request_type : ℕ
  pub response_type : ℕ
  pub bundle_path : Bytes
  pub exists : Bytes → Bool
  pub verbose : Option Bytes
  pub multi_init : Bool

unfoldable pub create_handle_types : LoadAnswers → Option LoadError
create_handle_types answers =
    if answers.client_type == 0
    then some LoadError.no_client_type
    else if answers.request_type == 0
    then some LoadError.no_request_type
    else if answers.response_type == 0
    then some LoadError.no_response_type
    else none

abbrev pub system_ca_bundle : Bytes
system_ca_bundle = bytes "/etc/ssl/certs/ca-certificates.crt"

-- The new path, and whether the lack of one is logged.
unfoldable pub detect_ca_bundle : LoadAnswers → Bytes → Bytes × Bool
detect_ca_bundle answers before =
    if answers.exists answers.bundle_path
    then (answers.bundle_path, false)
    else if answers.exists system_ca_bundle
    then (system_ca_bundle, false)
    else (before, true)

-- `verbose != nullptr && verbose[0] == '1'`.
unfoldable pub is_verbose : Option Bytes → Bool
is_verbose none = false
is_verbose (some []) = false
is_verbose (some (c ∷ cs)) = c == b'1'

detected : LoadAnswers → RestExtension → RestExtension × Option LoadError
detected answers extension =
    let ready = record extension {
      ca_bundle_path = (detect_ca_bundle answers extension.ca_bundle_path).0;
      verbose = is_verbose answers.verbose;
    } in
    let (thread, started) = start answers.multi_init ready.thread in
    (record ready { thread = thread }, if not started then some LoadError.no_thread else none)

unfoldable pub sdk_on_load : LoadAnswers → RestExtension → RestExtension × Option LoadError
unfolding create_handle_types detect_ca_bundle is_verbose detected
sdk_on_load answers extension =
    if not answers.curl_init
    then (extension, some LoadError.curl_failed)
    else elim (create_handle_types answers) [
      | some error ↦ (extension, some error)
      | none ↦ detected answers extension
    ]

-- No step of the load fails.
abbrev pub succeeds : LoadAnswers → Bool
succeeds answers =
    answers.curl_init
    && (not (answers.client_type == 0)
        && (not (answers.request_type == 0)
            && (not (answers.response_type == 0) && answers.multi_init)))

-- Where no step fails, the histories of the extension start: its thread runs, and its bundle is the
-- configured one if there is one, or else that of the system.
pub sdk_on_load-loaded :
    (answers : LoadAnswers) (thread : TransferThread)
    → succeeds answers ≡ true
    → sdk_on_load answers (loaded thread [] false) ≡ (
      loaded
          (record thread { has_multi = true; running = true })
          (detect_ca_bundle answers []).0
          (is_verbose answers.verbose),
      none,
    )
unfolding sdk_on_load loaded create_handle_types detected start
sdk_on_load-loaded answers thread h = ground (arith, h)

-- Where a step fails there is an error, and no thread is started.
pub sdk_on_load_fails :
    (answers : LoadAnswers) (extension : RestExtension)
    → succeeds answers ≡ false
    → let after = sdk_on_load answers extension in
      (after.1 ≢ none) × (after.0.thread.running ≡ extension.thread.running)
unfolding sdk_on_load create_handle_types detected start
sdk_on_load_fails answers extension h = ground (arith, h)
