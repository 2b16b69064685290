-- ===== src/Native/Sending.antt =====
-- src/natives.cpp: the natives that set a request up and send it.
use sm_rest.Prelude.{ℕ, true, false, not, [], ◌∷◌, ◌++◌, Option, none, some, Bytes, if◌then◌else◌}
use sm_rest.Prelude.Int.{ℤ, pos}
use sm_rest.Uri.{is_absolute_url, join_url}
use sm_rest.Request.{RequestSpec}
use sm_rest.Native.{ready_spec}
use sm_rest.Native.Setters.{Setter, apply}
use sm_rest.Extension.{RequestObject, JobRecord, RestExtension, assign, release_forward, submit_job}
use sm_rest.Extension.Handles.{CallContext, destroy_request}
use sm_rest.Native.Calls.{invalid_callback, not_absolute, returns, throws, Outcome, with_request}

-- The setters of a request's query, body and output file.
unfoldable pub request_set : CallContext → RestExtension → ℕ → Setter → Outcome
unfolding with_request apply
request_set context extension handle setter = with_request context extension handle (λ object. (
  record extension {
    requests = assign extension.requests handle (record object { spec = apply object.spec setter });
  },
  returns (pos 1),
))

-- `CreateCallbackForward`.
unfoldable pub create_callback_forward : CallContext → Option ℕ
create_callback_forward context = if context.has_function then context.forward else none

pub data Listener : Type 0 where
  headers chunk progress : Listener

-- The forward that a listener had, and the request with another in its place.
abbrev pub old_forward : RequestObject → Listener → Option ℕ
old_forward object Listener.headers = object.headers
old_forward object Listener.chunk = object.data_forward
old_forward object Listener.progress = object.progress

unfoldable pub set_forward : RequestObject → Listener → ℕ → RequestObject
set_forward object Listener.headers forward = record object {
  headers = some forward;
  spec = record object.spec { want_headers = true };
}
set_forward object Listener.chunk forward = record object {
  data_forward = some forward;
  spec = record object.spec { stream_data = true };
}
set_forward object Listener.progress forward = record object { progress = some forward }

abbrev pub listened : RestExtension → ℕ → RequestObject → Listener → Option ℕ → Outcome
listened extension handle object listener none = (extension, throws invalid_callback)
listened extension handle object listener (some forward) = (
  record extension {
    created = extension.created ++ forward ∷ [];
    released = release_forward extension.released (old_forward object listener);
    requests = assign extension.requests handle (set_forward object listener forward);
  },
  returns (pos 1),
)

unfoldable pub request_listen : CallContext → RestExtension → ℕ → Listener → Outcome
unfolding with_request create_callback_forward set_forward
request_listen context extension handle listener =
    with_request context extension handle
      (λ object. listened extension handle object listener (create_callback_forward context))

-- The request once its forwards and what it asks for have gone to the job.
abbrev pub emptied : RequestObject → RequestSpec → RequestObject
emptied object spec = record object {
  spec = spec;
  headers = none;
  data_forward = none;
  progress = none;
}

abbrev pub record_of : CallContext → RequestObject → ℕ → ℤ → JobRecord
record_of context object completed payload = record {
  id = 0;
  client_handle = object.client_handle;
  owner = context.identity;
  completed = some completed;
  headers = object.headers;
  data_forward = object.data_forward;
  progress = object.progress;
  context = payload;
  dispatching = false;
  dropped = false;
}

abbrev pub handed_over : CallContext → RestExtension → ℕ → RequestObject → ℕ → RestExtension
handed_over context extension handle object completed = record extension {
  created = extension.created ++ completed ∷ [];
  requests = assign extension.requests handle (emptied object context.moved_from);
}

abbrev pub sent : CallContext → RestExtension → ℕ → RequestObject → Bytes → ℤ → Option ℕ → Outcome
sent context extension handle object url payload none = (extension, throws invalid_callback)
sent context extension handle object url payload (some completed) =
    let (after, job_id) =
      submit_job (handed_over context extension handle object completed)
        (ready_spec object.spec url) (record_of context object completed payload) in
    (if context.frees then destroy_request after handle else after, returns (pos job_id))

unfoldable pub request_send : CallContext → RestExtension → ℕ → ℤ → Outcome
unfolding with_request create_callback_forward submit_job ready_spec destroy_request
request_send context extension handle payload = with_request context extension handle (λ object.
    let url = join_url object.spec.config.base_url object.spec.path in
    if not (is_absolute_url url)
    then (extension, throws (not_absolute url))
    else sent context extension handle object url payload (create_callback_forward context))
