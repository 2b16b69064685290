-- ===== src/Extension/Orderly.antt =====
-- Between events no record is being handed one, whatever plugins do from within callbacks.
use sm_rest.Prelude.{
  ℕ, ◌≡◌, refl, Bool, true, false, not, List, Option, none, some, Bytes, arith, if_cases,
  option_cases,
}
use sm_rest.Request.{RequestSpec}
use sm_rest.Queue.{TransferEvent, EventKind}
use sm_rest.Thread.{TransferThread}
use sm_rest.Extension.{JobRecord, RestExtension, find, erase, loaded, drop_where, submit_job}
use sm_rest.Extension.Dispatch.{
  Reply, dispatch_intermediate, dispatch_complete, release_dropped, end_dispatch,
  handle_intermediate, handle_complete, is_completion, handle_event,
}
use sm_rest.Extension.Plugins.{PluginCall, plugin_call}
use sm_rest.Extension.Acts.{by_acts, Act, act_all}
use sm_rest.Extension.CallRules.{by_plugin_call}
use sm_rest.Extension.Rules.{by_dispatch, by_complete}
use sm_rest.Extension.Idle.{
  Distinct, IdleBut, assign-Distinct, erase-Distinct, drop_jobs-Distinct, assign-IdleBut,
  erase-IdleBut, drop_jobs-IdleBut, enter-IdleBut, leave-IdleBut, leave_assigned, leave_erased,
}
use sm_rest.Native.Sending.{handed_over}

-- Each key has one record, and no record but the busy one is being handed an event.
pub record IsOrderly (busy : Option ℕ) (extension : RestExtension) : Type 0 where
  pub distinct : Distinct extension.jobs
  pub idle : IdleBut busy extension.jobs

module _ (busy : Option ℕ) where
  pub same_jobs :
      (before after : RestExtension)
      → after.jobs ≡ before.jobs
      → IsOrderly busy before
      → IsOrderly busy after
  same_jobs before after same h = record {
    distinct = rw (same) h.distinct;
    idle = rw (same) h.idle;
  }

  submit_job-IsOrderly :
      (extension : RestExtension) (spec : RequestSpec) (entry : JobRecord)
      → entry.dispatching ≡ false
      → IsOrderly busy extension
      → IsOrderly busy (submit_job extension spec entry).0
  unfolding submit_job
  submit_job-IsOrderly extension spec entry still h =
      let new = record entry { id = extension.next_job_id } in
      record {
        distinct = assign-Distinct extension.jobs extension.next_job_id new h.distinct;
        idle =
            assign-IdleBut busy extension.jobs extension.next_job_id new (ground (arith, still))
              h.idle;
      }

  drop_where-IsOrderly :
      (test : JobRecord → Bool) (extension : RestExtension)
      → IsOrderly busy extension
      → IsOrderly busy (drop_where test extension)
  unfolding drop_where
  drop_where-IsOrderly test extension h = record {
    distinct =
        drop_jobs-Distinct test extension.jobs extension.thread extension.released h.distinct;
    idle = drop_jobs-IdleBut busy test extension.jobs extension.thread extension.released h.idle;
  }

  pub plugin_call-IsOrderly :
      (extension : RestExtension) (call : PluginCall)
      → IsOrderly busy extension
      → IsOrderly busy (plugin_call extension call)
  plugin_call-IsOrderly =
      by_plugin_call (IsOrderly busy)
        (λ before after settled h. same_jobs before after settled.jobs h)
        (λ before thread requested h. same_jobs before _ refl h) drop_where-IsOrderly
        (λ context before handle object completed payload url found h.
          submit_job-IsOrderly (handed_over context before handle object completed) _ _ refl
            (same_jobs before _ refl h))

  dispatched-IsOrderly :
      (reply : Reply) (entry : JobRecord) (event : TransferEvent) (kind : EventKind)
      (extension : RestExtension)
      → IsOrderly busy extension
      → IsOrderly busy (dispatch_intermediate reply entry event kind extension)
  dispatched-IsOrderly =
      by_dispatch (IsOrderly busy) (λ before thread requested h. same_jobs before _ refl h)
        (λ before shown h. same_jobs before _ refl h) plugin_call-IsOrderly

  completed-IsOrderly :
      (reply : Reply) (entry : JobRecord) (event : TransferEvent) (extension : RestExtension)
      → IsOrderly busy extension
      → IsOrderly busy (dispatch_complete reply entry event extension)
  completed-IsOrderly =
      by_complete (IsOrderly busy) (λ before thread requested h. same_jobs before _ refl h)
        (λ before shown h. same_jobs before _ refl h) plugin_call-IsOrderly

end_dispatch-IsOrderly :
    (extension : RestExtension) (job_id : ℕ)
    → IsOrderly (some job_id) extension
    → IsOrderly none (end_dispatch extension job_id)
unfolding end_dispatch
end_dispatch-IsOrderly extension job_id h =
    option_cases (IsOrderly none) (find extension.jobs job_id) extension
      (release_dropped extension job_id)
      (λ missing. record {
        distinct = h.distinct;
        idle = leave-IdleBut job_id extension.jobs missing h.idle;
      })
      (λ entry found.
        if_cases (IsOrderly none) (not entry.dropped) _ _
          (λ kept. record {
            distinct = assign-Distinct extension.jobs job_id _ h.distinct;
            idle = leave_assigned job_id extension.jobs _ refl h.distinct h.idle;
          })
          (λ dropped. record {
            distinct = erase-Distinct extension.jobs job_id h.distinct;
            idle = leave_erased job_id extension.jobs h.distinct h.idle;
          }))

handle_intermediate-IsOrderly :
    (reply : Reply) (job_id : ℕ) (entry : JobRecord) (event : TransferEvent)
    (extension : RestExtension)
    → IsOrderly none extension
    → IsOrderly none (handle_intermediate reply job_id entry event extension)
unfolding handle_intermediate
handle_intermediate-IsOrderly reply job_id entry event extension h =
    let entered = record entry { dispatching = true } in
    end_dispatch-IsOrderly _ job_id (
      dispatched-IsOrderly (some job_id) reply entered event event.kind _ (record {
        distinct = assign-Distinct extension.jobs job_id entered h.distinct;
        idle =
            assign-IdleBut (some job_id) extension.jobs job_id entered (ground arith)
              (enter-IdleBut (some job_id) extension.jobs h.idle);
      }))

handle_complete-IsOrderly :
    (reply : Reply) (job_id : ℕ) (entry : JobRecord) (event : TransferEvent)
    (extension : RestExtension)
    → IsOrderly none extension
    → IsOrderly none (handle_complete reply job_id entry event extension)
unfolding handle_complete
handle_complete-IsOrderly reply job_id entry event extension h =
    let erased = record extension { jobs = erase extension.jobs job_id } in
    same_jobs none (dispatch_complete reply entry event erased) _ refl (
      completed-IsOrderly none reply entry event erased (record {
        distinct = erase-Distinct extension.jobs job_id h.distinct;
        idle = erase-IdleBut none extension.jobs job_id h.idle;
      }))

pub handle_event-IsOrderly :
    (reply : Reply) (extension : RestExtension) (event : TransferEvent)
    → IsOrderly none extension
    → IsOrderly none (handle_event reply extension event)
unfolding handle_event
handle_event-IsOrderly reply extension event h =
    option_cases (IsOrderly none) (find extension.jobs event.job_id) extension _ (λ missing. h)
      (λ entry found.
        if_cases (IsOrderly none) (not (is_completion event.kind)) _ _
          (λ before. handle_intermediate-IsOrderly reply event.job_id entry event extension h)
          (λ last. handle_complete-IsOrderly reply event.job_id entry event extension h))

pub loaded-IsOrderly :
    (thread : TransferThread) (ca_bundle_path : Bytes) (verbose : Bool)
    → IsOrderly none (loaded thread ca_bundle_path verbose)
unfolding loaded
loaded-IsOrderly thread ca_bundle_path verbose = record { distinct = tt; idle = tt }

act_all-IsOrderly :
    (thread : TransferThread) (ca_bundle_path : Bytes) (verbose : Bool) (acts : List Act)
    → IsOrderly none (act_all (loaded thread ca_bundle_path verbose) acts)
act_all-IsOrderly thread ca_bundle_path verbose acts =
    by_acts (IsOrderly none) (λ before _ h. same_jobs none before _ refl h)
      (plugin_call-IsOrderly none) handle_event-IsOrderly acts _
      (loaded-IsOrderly thread ca_bundle_path verbose)

-- Between events no record is being handed one, and each id has one record.
pub act_all-IdleBut :
    (thread : TransferThread) (ca_bundle_path : Bytes) (verbose : Bool) (acts : List Act)
    → IdleBut none (act_all (loaded thread ca_bundle_path verbose) acts).jobs
act_all-IdleBut thread ca_bundle_path verbose acts =
    (act_all-IsOrderly thread ca_bundle_path verbose acts).idle

pub act_all-Distinct :
    (thread : TransferThread) (ca_bundle_path : Bytes) (verbose : Bool) (acts : List Act)
    → Distinct (act_all (loaded thread ca_bundle_path verbose) acts).jobs
act_all-Distinct thread ca_bundle_path verbose acts =
    (act_all-IsOrderly thread ca_bundle_path verbose acts).distinct
