-- ===== src/Native/Calls.antt =====
-- src/natives.cpp: the natives of clients and of requests, from the handle to the answer.
use sm_rest.Prelude.{ℕ, ◌∷◌, Option, none, some, Bytes, if◌then◌else◌, ◌||◌, ◌==◌}
use sm_rest.Prelude.Int.{ℤ, pos, pos_part, ltb_ℤ}
use sm_rest.Request.{RestMethod, ClientConfig, default_spec, default_config}
use sm_rest.Native.{native_set_header, native_remove_header, set_basic_auth, set_bearer_token}
use sm_rest.Native.Config.{ConfigField, config_get, config_set}
use sm_rest.Extension.{
  ClientObject, RequestObject, RestExtension, assign, cancel_job, cancel_jobs_for_client,
}
use sm_rest.Extension.Handles.{CallContext, read_object}

-- What `ThrowNativeError` reports.
pub data NativeError : Type 0 where
  invalid_handle : ℕ → NativeError
  empty_name no_handle invalid_callback negative_range : NativeError
  out_of_bounds : ℤ → ℕ → NativeError
  invalid_method : ℤ → NativeError
  not_absolute : Bytes → NativeError

pub data Answer : Type 0 where
  returns : ℤ → Answer
  throws : NativeError → Answer

abbrev pub Outcome : Type 0
Outcome = RestExtension × Answer

-- `ReadClient` and `ReadRequest`, and what follows where they find an object.
unfoldable pub with_client : CallContext → RestExtension → ℕ → (ClientObject → Outcome) → Outcome
unfolding read_object
with_client context extension handle body = elim (read_object context extension.clients handle) [
  | none ↦ (extension, throws (invalid_handle handle))
  | some client ↦ body client
]

unfoldable pub with_request : CallContext → RestExtension → ℕ → (RequestObject → Outcome) → Outcome
unfolding read_object
with_request context extension handle body = elim (read_object context extension.requests handle) [
  | none ↦ (extension, throws (invalid_handle handle))
  | some request ↦ body request
]

-- The type of handle that a native of the settings is instantiated with.
pub data Owner : Type 0 where
  client request : Owner

-- `ReadConfig`.
unfoldable pub read_config : CallContext → RestExtension → Owner → ℕ → Option ClientConfig
unfolding read_object
read_config context extension Owner.client handle =
    elim (read_object context extension.clients handle) [
      | none ↦ none
      | some object ↦ some object.config
    ]
read_config context extension Owner.request handle =
    elim (read_object context extension.requests handle) [
      | none ↦ none
      | some object ↦ some object.spec.config
    ]

unfoldable pub config_get_call : CallContext → RestExtension → Owner → ℕ → ConfigField → Answer
unfolding read_config config_get
config_get_call context extension owner handle field =
    elim (read_config context extension owner handle) [
      | none ↦ throws (invalid_handle handle)
      | some config ↦ returns (config_get config field)
    ]

abbrev pub changed_client : RestExtension → ℕ → ClientObject → Option ClientConfig → Outcome
changed_client extension handle object none = (extension, throws empty_name)
changed_client extension handle object (some config) = (
  record extension {
    clients = assign extension.clients handle (record object { config = config });
  },
  returns (pos 1),
)

-- A request whose settings are others.
abbrev pub reconfigured : RequestObject → ClientConfig → RequestObject
reconfigured object config = record object { spec = record object.spec { config = config } }

abbrev pub changed_request : RestExtension → ℕ → RequestObject → Option ClientConfig → Outcome
changed_request extension handle object none = (extension, throws empty_name)
changed_request extension handle object (some config) = (
  record extension { requests = assign extension.requests handle (reconfigured object config) },
  returns (pos 1),
)

-- What the natives do that `ReadConfig` begins.
pub data ConfigCall : Type 0 where
  set_field : ConfigField → ℤ → ConfigCall
  header basic_auth : Bytes → Bytes → ConfigCall
  no_header bearer_token user_agent : Bytes → ConfigCall

unfoldable pub change_config : ClientConfig → ConfigCall → Option ClientConfig
unfolding config_set native_set_header native_remove_header
change_config config (ConfigCall.set_field field value) = some (config_set config field value)
change_config config (ConfigCall.header name value) = native_set_header config name value
change_config config (ConfigCall.basic_auth user password) =
    some (set_basic_auth config user password)
change_config config (ConfigCall.no_header name) = some (native_remove_header config name)
change_config config (ConfigCall.bearer_token token) = some (set_bearer_token config token)
change_config config (ConfigCall.user_agent agent) = some (record config { user_agent = agent })

unfoldable pub configure_call : CallContext → RestExtension → Owner → ℕ → ConfigCall → Outcome
unfolding with_client with_request
configure_call context extension Owner.client handle call =
    with_client context extension handle
      (λ object. changed_client extension handle object (change_config object.config call))
configure_call context extension Owner.request handle call =
    with_request context extension handle
      (λ object. changed_request extension handle object (change_config object.spec.config call))

unfoldable pub create_client : CallContext → RestExtension → Bytes → Outcome
create_client context extension base_url = elim context.handle [
  | none ↦ (extension, throws no_handle)
  | some handle ↦ (
    record extension {
      clients =
          (
            handle,
            record { config = record default_config { base_url = base_url }; handle = handle },
          )
          ∷ extension.clients;
    },
    returns (pos handle),
  )
]

unfoldable pub set_base_url : CallContext → RestExtension → ℕ → Bytes → Outcome
unfolding with_client
set_base_url context extension handle base_url = with_client context extension handle (λ object. (
  record extension {
    clients =
        assign extension.clients handle
          (record object { config = record object.config { base_url = base_url } });
  },
  returns (pos 1),
))

-- `static_cast<RestMethod>` of a number in range.
abbrev method_of : ℕ → RestMethod
method_of n =
    if n == 0
    then RestMethod.get
    else if n == 1
    then RestMethod.head
    else if n == 2
    then RestMethod.post
    else if n == 3
    then RestMethod.put
    else if n == 4
    then RestMethod.patch
    else if n == 5
    then RestMethod.delete
    else RestMethod.options

-- The request that a client makes: it has a copy of the client's settings.
unfoldable pub new_request : ClientObject → ℤ → Bytes → RequestObject
new_request object method path = record {
  spec = record default_spec {
    method = method_of (pos_part method);
    path = path;
    config = object.config;
  };
  client_handle = object.handle;
  headers = none;
  data_forward = none;
  progress = none;
}

abbrev pub add_request : CallContext → RestExtension → RequestObject → Outcome
add_request context extension object = elim context.handle [
  | none ↦ (extension, throws no_handle)
  | some handle ↦
      (record extension { requests = (handle, object) ∷ extension.requests }, returns (pos handle))
]

unfoldable pub create_request : CallContext → RestExtension → ℕ → ℤ → Bytes → Outcome
unfolding with_client new_request
create_request context extension handle method path =
    with_client context extension handle (λ object.
      if ltb_ℤ method (pos 0) || ltb_ℤ (pos 6) method
      then (extension, throws (invalid_method method))
      else add_request context extension (new_request object method path))

unfoldable pub client_cancel : CallContext → RestExtension → ℕ → ℕ → Outcome
unfolding with_client cancel_job
client_cancel context extension handle job_id = with_client context extension handle (λ object.
    let (after, found) = cancel_job extension job_id context.identity in
    (after, returns (if found then pos 1 else pos 0)))

unfoldable pub client_cancel_all : CallContext → RestExtension → ℕ → Outcome
unfolding with_client cancel_jobs_for_client
client_cancel_all context extension handle = with_client context extension handle (λ object.
    let (after, cancelled) = cancel_jobs_for_client extension object.handle context.identity in
    (after, returns (pos cancelled)))
