-- ===== src/Extension/CallRules.antt =====
-- What the few ways in which a plugin's calls change the extension keep, every call keeps.
use sm_rest.Prelude.{
  ℕ, ◌≡◌, refl, ◌∙◌, Bool, not, ◌&&◌, [], ◌∷◌, some, Bytes, if_cases, option_cases, ◌==◌,
}
use sm_rest.Prelude.Int.{ℤ}
use sm_rest.Thread.{TransferThread, request_cancel}
use sm_rest.Native.{ready_spec}
use sm_rest.Native.Calls.{client_cancel, client_cancel_all}
use sm_rest.Native.Sending.{handed_over, record_of}
use sm_rest.Extension.{
  JobRecord, JobMap, RequestObject, RestExtension, find, drop_where, submit_job, cancel_job,
  cancel_matching, cancel_jobs_for_client,
}
use sm_rest.Extension.Handles.{CallContext, destroy_client}
use sm_rest.Extension.Plugins.{
  PluginCall, configures, creates_client, sets_base_url, creates_request, sets, listens_for, sends,
  cancels, cancels_all, closes_client, closes_request, unloads, plugin_call,
}
use sm_rest.Extension.Natives.{by_client, by_send}
use sm_rest.Extension.Objects.{
  IsSettled, clients-IsSettled, configure_call-IsSettled, create_client-IsSettled,
  set_base_url-IsSettled, create_request-IsSettled, request_set-IsSettled, request_listen-IsSettled,
  destroy_request-IsSettled,
}
use sm_rest.Extension.Rules.{IsRequested, request_cancel-IsRequested}

pub IsRequested-trans :
    (a b c : TransferThread) → IsRequested a b → IsRequested b c → IsRequested a c
IsRequested-trans a b c p q = record {
  shared = q.shared ∙ p.shared;
  active = q.active ∙ p.active;
  incoming = q.incoming ∙ p.incoming;
}

pub same-IsRequested : (thread : TransferThread) → IsRequested thread thread
same-IsRequested thread = record { shared = refl; active = refl; incoming = refl }

cancel_matching-IsRequested :
    (jobs : JobMap) (client_handle requester : ℕ) (thread : TransferThread)
    → IsRequested thread (cancel_matching jobs client_handle requester thread).0
unfolding cancel_matching
cancel_matching-IsRequested [] client_handle requester thread = same-IsRequested thread
cancel_matching-IsRequested ((key, entry) ∷ jobs) client_handle requester thread =
    if_cases (λ asked. IsRequested thread (cancel_matching jobs client_handle requester asked).0)
      (entry.client_handle == client_handle && entry.owner == requester) (request_cancel thread key)
      thread
      (λ matches.
        IsRequested-trans thread (request_cancel thread key) _
          (request_cancel-IsRequested thread key)
          (cancel_matching-IsRequested jobs client_handle requester (request_cancel thread key)))
      (λ other. cancel_matching-IsRequested jobs client_handle requester thread)

module _ {κ} (P : RestExtension → Type κ)
    (by_settled : (before after : RestExtension) → IsSettled before after → P before → P after)
    (by_thread : (extension : RestExtension) (thread : TransferThread)
      → IsRequested extension.thread thread
      → P extension
      → P (record extension { thread = thread }))
    (by_drop : (test : JobRecord → Bool) (extension : RestExtension)
      → P extension
      → P (drop_where test extension))
    (by_submission : (context : CallContext) (extension : RestExtension) (handle : ℕ)
        (object : RequestObject) (completed : ℕ) (payload : ℤ) (url : Bytes)
      → find extension.requests handle ≡ some object
      → P extension
      → P
          (submit_job
            (handed_over context extension handle object completed)
            (ready_spec object.spec url)
            (record_of context object completed payload)).0) where
  by_cancel_job :
      (extension : RestExtension) (job_id requester : ℕ)
      → P extension
      → P (cancel_job extension job_id requester).0
  unfolding cancel_job
  by_cancel_job extension job_id requester p =
      option_cases (λ (r : RestExtension × Bool). P r.0) (find extension.jobs job_id) _ _
        (λ missing. p)
        (λ entry found.
          if_cases (λ (r : RestExtension × Bool). P r.0) (not (entry.owner == requester)) _ _
            (λ foreign. p)
            (λ own. by_thread extension _ (request_cancel-IsRequested extension.thread job_id) p))

  by_destroy_client :
      (extension : RestExtension) (handle : ℕ) → P extension → P (destroy_client extension handle)
  unfolding destroy_client
  by_destroy_client extension handle p =
      option_cases P (find extension.clients handle) _ _ (λ missing. p)
        (λ object found.
          by_settled _ _ (clients-IsSettled (drop_where _ extension) _) (by_drop _ extension p))

  pub by_plugin_call :
      (extension : RestExtension) (call : PluginCall) → P extension → P (plugin_call extension call)
  unfolding plugin_call client_cancel client_cancel_all cancel_jobs_for_client
  by_plugin_call extension (sends context handle payload) p =
      by_send P context extension handle payload p
        (λ object url completed found.
          by_submission context extension handle object completed payload url found p)
        (λ before q. by_settled before _ (destroy_request-IsSettled before handle) q)
  by_plugin_call extension (cancels context handle target) p =
      by_client P context extension handle p _
        (λ object. by_cancel_job extension target context.identity p)
  by_plugin_call extension (cancels_all context handle) p =
      by_client P context extension handle p _ (λ object.
        by_thread extension _
          (cancel_matching-IsRequested extension.jobs object.handle context.identity
            extension.thread)
          p)
  by_plugin_call extension (closes_client handle) p = by_destroy_client extension handle p
  by_plugin_call extension (unloads identity) p = by_drop _ extension p
  by_plugin_call extension (configures context owner handle call) p =
      by_settled extension _ (configure_call-IsSettled context extension owner handle call) p
  by_plugin_call extension (creates_client context base_url) p =
      by_settled extension _ (create_client-IsSettled context extension base_url) p
  by_plugin_call extension (sets_base_url context handle base_url) p =
      by_settled extension _ (set_base_url-IsSettled context extension handle base_url) p
  by_plugin_call extension (creates_request context handle method path) p =
      by_settled extension _ (create_request-IsSettled context extension handle method path) p
  by_plugin_call extension (sets context handle setter) p =
      by_settled extension _ (request_set-IsSettled context extension handle setter) p
  by_plugin_call extension (listens_for context handle listener) p =
      by_settled extension _ (request_listen-IsSettled context extension handle listener) p
  by_plugin_call extension (closes_request handle) p =
      by_settled extension _ (destroy_request-IsSettled extension handle) p
