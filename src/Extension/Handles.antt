-- ===== src/Extension/Handles.antt =====
-- The objects behind handles: src/extension.h and `OnHandleDestroy` of src/extension.cpp. The handle
-- system is SourceMod's; what it answers to a call is given with the call.
use sm_rest.Prelude.{ℕ, List, Option, none, some, Bool, if◌then◌else◌}
use sm_rest.Request.{RequestSpec}
use sm_rest.Queue.{TransferEvent}
use sm_rest.Extension.{
  ResponseObject, RestExtension, find, erase, release_request, drop_jobs_for_client,
}

-- What SourceMod answers to one call of a native: the identity of the plugin that calls, whether the
-- handle system lets it read the handle, the handle that `CreateHandle` makes, whether the function
-- id names a function, the forward that `CreateForwardEx` makes, whether `FreeHandle` destroys the
-- object, and what stands in a structure that was moved from.
pub record CallContext : Type 0 where
  pub identity : ℕ
  pub reads : Bool
  pub handle : Option ℕ
  pub has_function : Bool
  pub forward : Option ℕ
  pub frees : Bool
  pub moved_from : RequestSpec

-- `ReadObject`.
unfoldable pub read_object {ℓ} : {A : Type ℓ} → CallContext → List (ℕ × A) → ℕ → Option A
unfolding find
read_object context objects handle = if context.reads then find objects handle else none

-- `OnHandleDestroy` for a client and for a request; a response has nothing that must be released.
unfoldable pub destroy_client : RestExtension → ℕ → RestExtension
unfolding find erase
destroy_client extension handle = elim (find extension.clients handle) [
  | none ↦ extension
  | some client ↦
      let dropped = drop_jobs_for_client client.handle extension in
      record dropped { clients = erase dropped.clients handle }
]

unfoldable pub destroy_request : RestExtension → ℕ → RestExtension
unfolding find erase
destroy_request extension handle = elim (find extension.requests handle) [
  | none ↦ extension
  | some request ↦ record extension {
    released = release_request extension.released request;
    requests = erase extension.requests handle;
  }
]

-- The object that `CreateResponseHandle` makes.
unfoldable pub response_of : TransferEvent → ResponseObject
response_of event = record {
  status = event.status;
  http_status = event.http_status;
  content_length = event.content_length;
  body_length = event.body_length;
  elapsed_ms = event.elapsed_ms;
  error = event.error;
  url = event.url;
  headers = event.headers;
  body = event.body;
}
