-- ===== src/Extension/Survival.antt =====
-- The record whose event is being handed over stays in the map: a reference to it stays good.
use sm_rest.Prelude.{
  ℕ, ◌<◌, ◌≡◌, ap, Bool, true, List, [], ◌∷◌, Option, none, some, arith, if_cases, if_map, if_out,
  ◌==◌,
}
use sm_rest.Thread.{TransferThread}
use sm_rest.Queue.{TransferEvent, EventKind}
use sm_rest.Request.{RequestSpec}
use sm_rest.Extension.{
  JobRecord, JobMap, RestExtension, find, drop_jobs, drop_where, submit_job, cancel_job,
}
use sm_rest.Extension.Dispatch.{Reply, dispatch_intermediate}
use sm_rest.Extension.Plugins.{PluginCall, plugin_call}
use sm_rest.Extension.Objects.{IsSettled}
use sm_rest.Native.Sending.{handed_over}
use sm_rest.Extension.CallRules.{by_plugin_call}
use sm_rest.Extension.Rules.{by_dispatch}
use sm_rest.Extension.Table.{find-assign, drop_jobs_cases}

-- What a map finds is the record, at most marked as dropped.
abbrev pub IsKept : JobRecord → Option JobRecord → Type 0
IsKept entry none = ⊥
IsKept entry (some found) = found ≡ record entry { dropped = found.dropped }

drop_jobs-IsKept :
    (test : JobRecord → Bool) (jobs : JobMap) (thread : TransferThread) (released : List ℕ)
    (job_id : ℕ) (entry : JobRecord)
    → entry.dispatching ≡ true
    → IsKept entry (find jobs job_id)
    → IsKept entry (find (drop_jobs test jobs (thread, released)).0 job_id)
unfolding find drop_jobs
drop_jobs-IsKept test [] thread released job_id entry busy kept = kept
drop_jobs-IsKept test ((key, first) ∷ jobs) thread released job_id entry busy kept =
    let rest = λ (thread' : TransferThread) (released' : List ℕ).
      drop_jobs-IsKept test jobs thread' released' job_id entry busy in
    drop_jobs_cases (λ r. IsKept entry (find r.0 job_id)) test key first jobs thread released
      (if_map (IsKept entry) (key == job_id) kept (λ here. here) (rest thread released))
      (λ marked.
        if_map (IsKept entry) (key == job_id) kept
          (λ here. ap {A = JobRecord} (λ e. record e { dropped = true }) here) (rest _ released))
      (λ freed.
        if_out (IsKept entry) (key == job_id) kept
          (λ here.
            absurd (ground (arith, ap {A = JobRecord} (λ e. e.dispatching) here, freed, busy)))
          (rest _ _))

pub cancel_job-jobs :
    (extension : RestExtension) (job_id requester : ℕ)
    → let after = (cancel_job extension job_id requester).0 in
      (after.jobs ≡ extension.jobs) × (after.next_job_id ≡ extension.next_job_id)
unfolding cancel_job
cancel_job-jobs extension job_id requester = ground arith

-- The extension still has the record under the id, and the id stays below those to come.
abbrev pub Keeps : ℕ → JobRecord → RestExtension → Type 0
Keeps job_id entry extension =
    (job_id < extension.next_job_id) × IsKept entry (find extension.jobs job_id)

settled-Keeps :
    (job_id : ℕ) (entry : JobRecord) (before after : RestExtension)
    → IsSettled before after
    → Keeps job_id entry before
    → Keeps job_id entry after
settled-Keeps job_id entry before after settled kept =
    (rw (settled.ids) kept.0, rw (settled.jobs) kept.1)

submit_job-Keeps :
    (job_id : ℕ) (entry : JobRecord) (extension : RestExtension) (spec : RequestSpec)
    (new : JobRecord)
    → Keeps job_id entry extension
    → Keeps job_id entry (submit_job extension spec new).0
unfolding submit_job
submit_job-Keeps job_id entry extension spec new kept = (
  omega (arith, kept.0),
  rw
      (find-assign extension.jobs extension.next_job_id job_id
        (record new { id = extension.next_job_id }))
      (if_cases (IsKept entry) (extension.next_job_id == job_id) _ _
        (λ same. absurd (ground (arith, same, kept.0))) (λ other. kept.1)),
)

drop_where-Keeps :
    (job_id : ℕ) (entry : JobRecord) (test : JobRecord → Bool) (extension : RestExtension)
    → entry.dispatching ≡ true
    → Keeps job_id entry extension
    → Keeps job_id entry (drop_where test extension)
unfolding drop_where
drop_where-Keeps job_id entry test extension busy kept = (
  kept.0,
  drop_jobs-IsKept test extension.jobs extension.thread extension.released job_id entry busy kept.1,
)

plugin_call-Keeps :
    (job_id : ℕ) (entry : JobRecord) (extension : RestExtension) (call : PluginCall)
    → entry.dispatching ≡ true
    → Keeps job_id entry extension
    → Keeps job_id entry (plugin_call extension call)
plugin_call-Keeps job_id entry extension call busy kept =
    by_plugin_call (Keeps job_id entry) (settled-Keeps job_id entry) (λ _ thread requested k. k)
      (λ test before k. drop_where-Keeps job_id entry test before busy k)
      (λ context before handle object completed payload url found k.
        submit_job-Keeps job_id entry (handed_over context before handle object completed) _ _ k)
      extension call kept

-- While a plugin handles an event it may call the extension as it likes, and even close the client
-- or be unloaded: when it returns, the record that the code goes on to read is still in the map, and
-- is as it was but for the mark that it was dropped.
pub dispatch-Keeps :
    (job_id : ℕ) (entry : JobRecord) (reply : Reply) (event : TransferEvent) (kind : EventKind)
    (extension : RestExtension)
    → entry.dispatching ≡ true
    → job_id < extension.next_job_id
    → IsKept entry (find extension.jobs job_id)
    → IsKept entry (find (dispatch_intermediate reply entry event kind extension).jobs job_id)
dispatch-Keeps job_id entry reply event kind extension busy fresh kept =
    (by_dispatch (Keeps job_id entry) (λ _ thread requested k. k) (λ _ shown k. k)
      (λ before call k. plugin_call-Keeps job_id entry before call busy k) reply entry event kind
      extension (fresh, kept)).1
