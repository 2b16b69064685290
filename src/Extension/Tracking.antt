-- ===== src/Extension/Tracking.antt =====
-- What is on its way from the submission of a job to its completion, and that no call of a plugin and
-- no event changes the sum.
use sm_rest.Prelude.{
  ℕ, zero, suc, ◌+◌, ◌≡◌, refl, Bool, true, not, List, [], ◌∷◌, ◌++◌, arith, if_cases, option_cases,
}
use sm_rest.Request.{RequestSpec}
use sm_rest.Queue.{TransferEvent}
use sm_rest.Job.State.{new_job}
use sm_rest.Job.Completion.{weigh}
use sm_rest.Thread.{TransferThread, enqueue, request_cancel}
use sm_rest.Thread.Accounting.{owed_by, owed_one}
use sm_rest.Extension.{
  JobRecord, JobMap, RestExtension, Callback, find, drop_jobs, drop_where, release_record,
  submit_job,
}
use sm_rest.Extension.Dispatch.{
  Reply, release_dropped, end_dispatch, handle_intermediate, handle_complete, is_completion,
  handle_event,
}
use sm_rest.Extension.Plugins.{PluginCall, plugin_call}
use sm_rest.Extension.Objects.{IsSettled}
use sm_rest.Extension.CallRules.{by_plugin_call, IsRequested-trans, same-IsRequested}
use sm_rest.Extension.Rules.{by_dispatch, by_complete, IsRequested, request_cancel-IsRequested}
use sm_rest.Extension.Table.{drop_jobs_cases}
use sm_rest.Native.Sending.{handed_over}

-- The completions that are on their way, each with the weight of its job's id: those that wait in the
-- queue, and those of the jobs that are not finished.
abbrev pub on_their_way : (ℕ → ℕ) → TransferThread → ℕ
on_their_way weight thread =
    weigh weight thread.shared.queue.events + owed_by weight (thread.active ++ thread.incoming)

-- The ids below `n`, each with its weight.
abbrev pub total : (ℕ → ℕ) → ℕ → ℕ
total weight zero = 0
total weight (suc n) = total weight n + weight n

drop_jobs-IsRequested :
    (test : JobRecord → Bool) (jobs : JobMap) (thread : TransferThread) (released : List ℕ)
    → IsRequested thread (drop_jobs test jobs (thread, released)).1.0
unfolding drop_jobs
drop_jobs-IsRequested test [] thread released = same-IsRequested thread
drop_jobs-IsRequested test ((key, entry) ∷ jobs) thread released =
    let asked = request_cancel thread key in
    let cancelled = λ (released' : List ℕ).
      IsRequested-trans thread asked _ (request_cancel-IsRequested thread key)
        (drop_jobs-IsRequested test jobs asked released') in
    drop_jobs_cases (λ r. IsRequested thread r.1.0) test key entry jobs thread released
      (drop_jobs-IsRequested test jobs thread released) (λ busy. cancelled released)
      (λ idle. cancelled (release_record released entry))

-- With `taken` the weight of the completions out of the queue: each id that was given out is
-- accounted for, and the queue takes events.
pub record IsTracked (weight : ℕ → ℕ) (taken : ℕ) (extension : RestExtension) : Type 0 where
  pub enabled : extension.thread.shared.queue.enabled ≡ true
  pub tracks : taken + on_their_way weight extension.thread ≡ total weight extension.next_job_id

module _ (weight : ℕ → ℕ) (taken : ℕ) where
  requested-IsTracked :
      (extension after : RestExtension)
      → IsRequested extension.thread after.thread
      → after.next_job_id ≡ extension.next_job_id
      → IsTracked weight taken extension
      → IsTracked weight taken after
  requested-IsTracked extension after requested ids h = record {
    enabled = rw (requested.shared) h.enabled;
    tracks = rw (requested.shared, requested.active, requested.incoming, ids) h.tracks;
  }

  settled-IsTracked :
      (extension after : RestExtension)
      → IsSettled extension after
      → IsTracked weight taken extension
      → IsTracked weight taken after
  settled-IsTracked extension after settled h = record {
    enabled = rw (settled.thread) h.enabled;
    tracks = rw (settled.thread, settled.ids) h.tracks;
  }

  submit_job-IsTracked :
      (extension : RestExtension) (spec : RequestSpec) (entry : JobRecord)
      → IsTracked weight taken extension
      → IsTracked weight taken (submit_job extension spec entry).0
  unfolding submit_job enqueue new_job
  submit_job-IsTracked extension spec entry h = record {
    enabled = h.enabled;
    tracks =
        omega (
          arith,
          h.tracks,
          owed_one weight extension.thread.active extension.thread.incoming _ refl,
        );
  }

  drop_where-IsTracked :
      (test : JobRecord → Bool) (extension : RestExtension)
      → IsTracked weight taken extension
      → IsTracked weight taken (drop_where test extension)
  unfolding drop_where
  drop_where-IsTracked test extension h =
      requested-IsTracked extension _
        (drop_jobs-IsRequested test extension.jobs extension.thread extension.released) refl h

  by_thread-IsTracked :
      (extension : RestExtension) (thread : TransferThread)
      → IsRequested extension.thread thread
      → IsTracked weight taken extension
      → IsTracked weight taken (record extension { thread = thread })
  by_thread-IsTracked extension thread requested h =
      requested-IsTracked extension (record extension { thread = thread }) requested refl h

  pub plugin_call-IsTracked :
      (extension : RestExtension) (call : PluginCall)
      → IsTracked weight taken extension
      → IsTracked weight taken (plugin_call extension call)
  plugin_call-IsTracked =
      by_plugin_call (IsTracked weight taken) settled-IsTracked by_thread-IsTracked
        drop_where-IsTracked
        (λ context middle handle object completed payload url found h.
          submit_job-IsTracked (handed_over context middle handle object completed) _ _
            (record { enabled = h.enabled; tracks = h.tracks }))

  by_showing-IsTracked :
      (extension : RestExtension) (shown : List Callback)
      → IsTracked weight taken extension
      → IsTracked weight taken (record extension { shown = shown })
  by_showing-IsTracked extension shown h = record { enabled = h.enabled; tracks = h.tracks }

  end_dispatch-IsTracked :
      (extension : RestExtension) (key : ℕ)
      → IsTracked weight taken extension
      → IsTracked weight taken (end_dispatch extension key)
  unfolding end_dispatch
  end_dispatch-IsTracked extension key h =
      option_cases (IsTracked weight taken) (find extension.jobs key) extension
        (release_dropped extension key) (λ missing. h)
        (λ entry found.
          if_cases (IsTracked weight taken) (not entry.dropped) _ _
            (λ kept. record { enabled = h.enabled; tracks = h.tracks })
            (λ dropped. record { enabled = h.enabled; tracks = h.tracks }))

  pub handle_event-IsTracked :
      (reply : Reply) (extension : RestExtension) (event : TransferEvent)
      → IsTracked weight taken extension
      → IsTracked weight taken (handle_event reply extension event)
  unfolding handle_event handle_intermediate handle_complete
  handle_event-IsTracked reply extension event h =
      option_cases (IsTracked weight taken) (find extension.jobs event.job_id) extension _
        (λ missing. h)
        (λ entry found.
          if_cases (IsTracked weight taken) (not (is_completion event.kind)) _ _
            (λ early. end_dispatch-IsTracked _ event.job_id (
              by_dispatch (IsTracked weight taken) by_thread-IsTracked by_showing-IsTracked
                plugin_call-IsTracked reply (record entry { dispatching = true }) event event.kind _
                (record { enabled = h.enabled; tracks = h.tracks })))
            (λ last.
              let after =
                by_complete (IsTracked weight taken) by_thread-IsTracked by_showing-IsTracked
                  plugin_call-IsTracked reply entry event _
                  (record { enabled = h.enabled; tracks = h.tracks }) in
              record { enabled = after.enabled; tracks = after.tracks }))
