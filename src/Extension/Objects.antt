-- ===== src/Extension/Objects.antt =====
-- The natives that work on the objects behind handles leave the jobs alone and lose no forward.
use sm_rest.Prelude.{
  ℕ, ◌+◌, ◌≡◌, refl, ap, List, [], ◌∷◌, Option, none, some, Bytes, arith, if_cases, option_cases,
  ◌||◌,
}
use sm_rest.Prelude.Int.{ℤ, pos, ltb_ℤ}
use sm_rest.Request.{ClientConfig}
use sm_rest.Native.Setters.{Setter, apply}
use sm_rest.Native.Calls.{
  Outcome, Owner, ConfigCall, configure_call, create_client, set_base_url, new_request,
  create_request, reconfigured, change_config, changed_client, changed_request, add_request,
}
use sm_rest.Native.Sending.{
  request_set, create_callback_forward, Listener, old_forward, set_forward, request_listen,
  listened,
}
use sm_rest.Extension.{ClientObject, RequestObject, RestExtension, find, assign}
use sm_rest.Extension.Handles.{CallContext, destroy_request}
use sm_rest.Extension.Counting.{
  count, holds, kept, held_by_request, weight_of, total-assign, total-erase, count-append,
  count_one, count-release_forward, count-release_request,
}
use sm_rest.Extension.Natives.{by_client, by_request}

-- The jobs are as they were, and each forward that was made meanwhile, or that a request no longer
-- has, is with a request or released.
pub record IsSettled (before after : RestExtension) : Type 0 where
  pub jobs : after.jobs ≡ before.jobs
  pub ids : after.next_job_id ≡ before.next_job_id
  pub thread : after.thread ≡ before.thread
  pub accounts :
      (forward : ℕ)
      → count forward after.created + count forward before.released + kept forward before.requests
        ≡ count forward before.created + count forward after.released + kept forward after.requests

unchanged-IsSettled : (extension : RestExtension) → IsSettled extension extension
unchanged-IsSettled extension = record {
  jobs = refl;
  ids = refl;
  thread = refl;
  accounts = λ forward. refl;
}

pub clients-IsSettled :
    (extension : RestExtension) (clients : List (ℕ × ClientObject))
    → IsSettled extension (record extension { clients = clients })
clients-IsSettled extension clients = record {
  jobs = refl;
  ids = refl;
  thread = refl;
  accounts = λ forward. refl;
}

-- A request is replaced by one with the same forwards.
edited-IsSettled :
    (extension : RestExtension) (handle : ℕ) (object new : RequestObject)
    → find extension.requests handle ≡ some object
    → ((forward : ℕ) → held_by_request forward new ≡ held_by_request forward object)
    → IsSettled extension (record extension { requests = assign extension.requests handle new })
edited-IsSettled extension handle object new found same = record {
  jobs = refl;
  ids = refl;
  thread = refl;
  accounts = λ forward. omega (
    arith,
    same forward,
    total-assign (held_by_request forward) extension.requests handle new,
    ap (weight_of (held_by_request forward)) found,
  );
}

changed_client-IsSettled :
    (extension : RestExtension) (handle : ℕ) (object : ClientObject) (config : Option ClientConfig)
    → IsSettled extension (changed_client extension handle object config).0
changed_client-IsSettled extension handle object none = unchanged-IsSettled extension
changed_client-IsSettled extension handle object (some config) = clients-IsSettled extension _

changed_request-IsSettled :
    (extension : RestExtension) (handle : ℕ) (object : RequestObject) (config : Option ClientConfig)
    → find extension.requests handle ≡ some object
    → IsSettled extension (changed_request extension handle object config).0
changed_request-IsSettled extension handle object none found = unchanged-IsSettled extension
changed_request-IsSettled extension handle object (some config) found =
    edited-IsSettled extension handle object (reconfigured object config) found (λ forward. refl)

add_request-IsSettled :
    (context : CallContext) (extension : RestExtension) (object : ClientObject) (method : ℤ)
    (path : Bytes)
    → IsSettled extension (add_request context extension (new_request object method path)).0
unfolding new_request
add_request-IsSettled context extension object method path =
    option_cases (λ (outcome : Outcome). IsSettled extension outcome.0) context.handle _ _
      (λ failed. unchanged-IsSettled extension)
      (λ handle made. record {
        jobs = refl;
        ids = refl;
        thread = refl;
        accounts = λ forward. omega arith;
      })

set_forward-held :
    (forward : ℕ) (object : RequestObject) (listener : Listener) (new : ℕ)
    → held_by_request forward (set_forward object listener new)
        + holds forward (old_forward object listener)
      ≡ held_by_request forward object + holds forward (some new)
unfolding set_forward
set_forward-held forward object Listener.headers new = omega arith
set_forward-held forward object Listener.chunk new = omega arith
set_forward-held forward object Listener.progress new = omega arith

listened-IsSettled :
    (extension : RestExtension) (handle : ℕ) (object : RequestObject) (listener : Listener)
    (made : Option ℕ)
    → find extension.requests handle ≡ some object
    → IsSettled extension (listened extension handle object listener made).0
listened-IsSettled extension handle object listener none found = unchanged-IsSettled extension
listened-IsSettled extension handle object listener (some new) found = record {
  jobs = refl;
  ids = refl;
  thread = refl;
  accounts = λ forward. omega (
    arith,
    count-append forward extension.created (new ∷ []),
    count_one forward new,
    count-release_forward forward extension.released (old_forward object listener),
    set_forward-held forward object listener new,
    total-assign (held_by_request forward) extension.requests handle
        (set_forward object listener new),
    ap (weight_of (held_by_request forward)) found,
  );
}

pub configure_call-IsSettled :
    (context : CallContext) (extension : RestExtension) (owner : Owner) (handle : ℕ)
    (call : ConfigCall)
    → IsSettled extension (configure_call context extension owner handle call).0
unfolding configure_call
configure_call-IsSettled context extension Owner.client handle call =
    by_client (IsSettled extension) context extension handle (unchanged-IsSettled extension) _
      (λ object.
        changed_client-IsSettled extension handle object (change_config object.config call))
configure_call-IsSettled context extension Owner.request handle call =
    by_request (IsSettled extension) context extension handle (unchanged-IsSettled extension) _
      (λ object found.
        changed_request-IsSettled extension handle object (change_config object.spec.config call)
          found)

pub create_client-IsSettled :
    (context : CallContext) (extension : RestExtension) (base_url : Bytes)
    → IsSettled extension (create_client context extension base_url).0
unfolding create_client
create_client-IsSettled context extension base_url =
    option_cases (λ (outcome : Outcome). IsSettled extension outcome.0) context.handle _ _
      (λ failed. unchanged-IsSettled extension) (λ handle made. clients-IsSettled extension _)

pub set_base_url-IsSettled :
    (context : CallContext) (extension : RestExtension) (handle : ℕ) (base_url : Bytes)
    → IsSettled extension (set_base_url context extension handle base_url).0
unfolding set_base_url
set_base_url-IsSettled context extension handle base_url =
    by_client (IsSettled extension) context extension handle (unchanged-IsSettled extension) _
      (λ object. clients-IsSettled extension _)

pub request_set-IsSettled :
    (context : CallContext) (extension : RestExtension) (handle : ℕ) (setter : Setter)
    → IsSettled extension (request_set context extension handle setter).0
unfolding request_set
request_set-IsSettled context extension handle setter =
    by_request (IsSettled extension) context extension handle (unchanged-IsSettled extension) _
      (λ object found.
        edited-IsSettled extension handle object (record object { spec = apply object.spec setter })
          found (λ forward. refl))

pub create_request-IsSettled :
    (context : CallContext) (extension : RestExtension) (handle : ℕ) (method : ℤ) (path : Bytes)
    → IsSettled extension (create_request context extension handle method path).0
unfolding create_request
create_request-IsSettled context extension handle method path =
    by_client (IsSettled extension) context extension handle (unchanged-IsSettled extension) _
      (λ object.
        if_cases (λ (outcome : Outcome). IsSettled extension outcome.0)
          (ltb_ℤ method (pos 0) || ltb_ℤ (pos 6) method) _ _
          (λ invalid. unchanged-IsSettled extension)
          (λ valid. add_request-IsSettled context extension object method path))

pub request_listen-IsSettled :
    (context : CallContext) (extension : RestExtension) (handle : ℕ) (listener : Listener)
    → IsSettled extension (request_listen context extension handle listener).0
unfolding request_listen
request_listen-IsSettled context extension handle listener =
    by_request (IsSettled extension) context extension handle (unchanged-IsSettled extension) _
      (λ object found.
        listened-IsSettled extension handle object listener (create_callback_forward context) found)

pub destroy_request-IsSettled :
    (extension : RestExtension) (handle : ℕ)
    → IsSettled extension (destroy_request extension handle)
unfolding destroy_request
destroy_request-IsSettled extension handle =
    option_cases (IsSettled extension) (find extension.requests handle) _ _
      (λ missing. unchanged-IsSettled extension)
      (λ object found. record {
        jobs = refl;
        ids = refl;
        thread = refl;
        accounts = λ forward. omega (
          arith,
          count-release_request forward extension.released object,
          total-erase (held_by_request forward) extension.requests handle,
          ap (weight_of (held_by_request forward)) found,
        );
      })
