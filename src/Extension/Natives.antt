-- ===== src/Extension/Natives.antt =====
-- Rules for the natives that begin by reading a handle.
use sm_rest.Prelude.{ℕ, ◌≡◌, not, List, Option, none, some, Bytes, arith, if_cases, option_cases}
use sm_rest.Prelude.Int.{ℤ}
use sm_rest.Uri.{is_absolute_url, join_url}
use sm_rest.Native.{ready_spec}
use sm_rest.Native.Calls.{Outcome, with_client, with_request}
use sm_rest.Native.Sending.{create_callback_forward, handed_over, record_of, sent, request_send}
use sm_rest.Extension.{ClientObject, RequestObject, RestExtension, find, submit_job}
use sm_rest.Extension.Handles.{CallContext, read_object, destroy_request}

read_object-some {ℓ} :
    {A : Type ℓ} (context : CallContext) (objects : List (ℕ × A)) (handle : ℕ) (object : A)
    → read_object context objects handle ≡ some object
    → find objects handle ≡ some object
unfolding read_object
read_object-some context objects handle object h = ground (arith, h)

-- What holds where the handle is refused, and of what is done with the object that it names, holds
-- of the native.
module _ {κ} (P : RestExtension → Type κ) (context : CallContext) (extension : RestExtension)
    (handle : ℕ) (refused : P extension) where
  pub by_client :
      (body : ClientObject → Outcome)
      → ((object : ClientObject) → P (body object).0)
      → P (with_client context extension handle body).0
  unfolding with_client
  by_client body made =
      option_cases (λ outcome. P outcome.0) (read_object context extension.clients handle) _ body
        (λ missing. refused) (λ object found. made object)

  pub by_request :
      (body : RequestObject → Outcome)
      → ((object : RequestObject)
          → find extension.requests handle ≡ some object
          → P (body object).0)
      → P (with_request context extension handle body).0
  unfolding with_request
  by_request body made =
      option_cases (λ outcome. P outcome.0) (read_object context extension.requests handle) _ body
        (λ missing. refused)
        (λ object found.
          made object (read_object-some context extension.requests handle object found))

-- What holds where nothing is sent, and of what is left once a request is submitted and its handle
-- is freed, holds of `Send`.
pub by_send {κ} :
    (P : RestExtension → Type κ) (context : CallContext) (extension : RestExtension) (handle : ℕ)
    (payload : ℤ)
    → P extension
    → ((object : RequestObject) (url : Bytes) (completed : ℕ)
        → find extension.requests handle ≡ some object
        → P
            (submit_job
              (handed_over context extension handle object completed)
              (ready_spec object.spec url)
              (record_of context object completed payload)).0)
    → ((before : RestExtension) → P before → P (destroy_request before handle))
    → P (request_send context extension handle payload).0
unfolding request_send
by_send P context extension handle payload refused submitted destroyed =
    by_request P context extension handle refused _ (λ object found.
      let url = join_url object.spec.config.base_url object.spec.path in
      if_cases (λ (outcome : Outcome). P outcome.0) (not (is_absolute_url url)) _ _
        (λ relative. refused)
        (λ absolute. sent_cases object url found (create_callback_forward context)))
  where
    sent_cases :
        (object : RequestObject) (url : Bytes)
        → find extension.requests handle ≡ some object
        → (made : Option ℕ) → P (sent context extension handle object url payload made).0
    sent_cases object url found none = refused
    sent_cases object url found (some completed) =
        let after =
          (submit_job (handed_over context extension handle object completed)
            (ready_spec object.spec url) (record_of context object completed payload)).0 in
        let done = submitted object url completed found in
        if_cases P context.frees _ _ (λ frees. destroyed after done) (λ stays. done)
