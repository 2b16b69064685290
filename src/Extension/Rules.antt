-- ===== src/Extension/Rules.antt =====
-- What every call of a plugin keeps, the dispatch of an event keeps.
use sm_rest.Prelude.{ℕ, ◌≡◌, refl, length, if◌then◌else◌, List, [], ◌∷◌, ◌++◌, if_cases, not}
use sm_rest.Queue.{TransferEvent, EventKind}
use sm_rest.Thread.{TransferThread, request_cancel, request_consume}
use sm_rest.Extension.{JobRecord, RestExtension, Callback, on_headers, on_data}
use sm_rest.Extension.Handles.{response_of}
use sm_rest.Extension.Dispatch.{
  Reply, is_heard, execute, dispatch_intermediate, dispatch_progress, dispatch_headers,
  dispatch_data, dispatch_complete, to_cell,
}
use sm_rest.Extension.Plugins.{PluginCall, plugin_call, plugin_calls}

-- The thread was at most left a request.
pub record IsRequested (before after : TransferThread) : Type 0 where
  pub shared : after.shared ≡ before.shared
  pub active : after.active ≡ before.active
  pub incoming : after.incoming ≡ before.incoming

pub request_cancel-IsRequested :
    (thread : TransferThread) (job_id : ℕ) → IsRequested thread (request_cancel thread job_id)
unfolding request_cancel
request_cancel-IsRequested thread job_id = record { shared = refl; active = refl; incoming = refl }

request_consume-IsRequested :
    (thread : TransferThread) (job_id count : ℕ)
    → IsRequested thread (request_consume thread job_id count)
unfolding request_consume
request_consume-IsRequested thread job_id count = record {
  shared = refl;
  active = refl;
  incoming = refl;
}

module _ {κ} (P : RestExtension → Type κ)
    (by_thread : (extension : RestExtension) (thread : TransferThread)
      → IsRequested extension.thread thread
      → P extension
      → P (record extension { thread = thread }))
    (by_showing : (extension : RestExtension) (shown : List Callback)
      → P extension
      → P (record extension { shown = shown }))
    (by_call : (extension : RestExtension) (call : PluginCall)
      → P extension
      → P (plugin_call extension call)) where
  by_calls :
      (calls : List PluginCall) (extension : RestExtension)
      → P extension
      → P (plugin_calls extension calls)
  unfolding plugin_calls
  by_calls [] extension p = p
  by_calls (call ∷ calls) extension p =
      by_calls calls (plugin_call extension call) (by_call extension call p)

  by_execute :
      (reply : Reply) (callback : Callback) (extension : RestExtension)
      → P extension
      → P (execute reply callback extension)
  unfolding execute
  by_execute reply callback extension p =
      by_calls reply.calls _ (by_showing extension (extension.shown ++ callback ∷ []) p)

  module _ (reply : Reply) (entry : JobRecord) (event : TransferEvent) (extension : RestExtension)
      (p : P extension) where
    by_progress : P (dispatch_progress reply entry event extension)
    unfolding dispatch_progress
    by_progress =
        if_cases P (not (is_heard entry.progress reply)) _ _ (λ deaf. p)
          (λ heard. by_execute reply _ extension p)

    by_headers : P (dispatch_headers reply entry event extension)
    unfolding dispatch_headers
    by_headers =
        if_cases P (not (is_heard entry.headers reply)) _ _ (λ deaf. p)
          (λ heard.
            if_cases P (not reply.makes_handle) _ _ (λ without. p)
              (λ with_handle.
                let after =
                  execute reply (on_headers entry.client_handle (response_of event) entry.context)
                    extension in
                let done = by_execute reply _ extension p in
                if_cases P reply.handled _ _
                  (λ handled.
                    by_thread after _ (request_cancel-IsRequested after.thread entry.id) done)
                  (λ continue. done)))

    by_data : P (dispatch_data reply entry event extension)
    unfolding dispatch_data
    by_data =
        let after =
          if is_heard entry.data_forward reply
          then execute reply
              (on_data entry.client_handle event.body (to_cell (length event.body)) entry.context)
              extension
          else extension in
        by_thread after _ (request_consume-IsRequested after.thread entry.id (length event.body)) (
          if_cases P (is_heard entry.data_forward reply) _ _
            (λ heard. by_execute reply _ extension p) (λ deaf. p))

    pub by_complete : P (dispatch_complete reply entry event extension)
    unfolding dispatch_complete
    by_complete =
        if_cases P (not (is_heard entry.completed reply)) _ _ (λ deaf. p)
          (λ heard.
            if_cases P (not reply.makes_handle) _ _ (λ without. p)
              (λ with_handle. by_execute reply _ extension p))

  pub by_dispatch :
      (reply : Reply) (entry : JobRecord) (event : TransferEvent) (kind : EventKind)
      (extension : RestExtension)
      → P extension
      → P (dispatch_intermediate reply entry event kind extension)
  unfolding dispatch_intermediate
  by_dispatch reply entry event EventKind.progress extension p =
      by_progress reply entry event extension p
  by_dispatch reply entry event EventKind.headers extension p =
      by_headers reply entry event extension p
  by_dispatch reply entry event EventKind.chunk extension p = by_data reply entry event extension p
  by_dispatch reply entry event EventKind.complete extension p = p
