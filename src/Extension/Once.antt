-- ===== src/Extension/Once.antt =====
-- A job whose record is gone stays gone: its plugin hears of it no more.
use sm_rest.Prelude.{
  ℕ, ◌<◌, ◌≡◌, refl, ap, ◌∙◌, Bool, true, false, not, List, [], ◌∷◌, none, some, Bytes, arith,
  if_cases, option_cases, ◌==◌, Bool-cases, Option-cases, inl, inr,
}
use sm_rest.Request.{RequestSpec}
use sm_rest.Queue.{TransferEvent, EventKind}
use sm_rest.Thread.{TransferThread}
use sm_rest.Extension.{
  JobRecord, JobMap, RestExtension, find, erase, assign, loaded, drop_where, submit_job,
}
use sm_rest.Extension.Dispatch.{
  Reply, dispatch_intermediate, dispatch_complete, release_dropped, end_dispatch,
  handle_intermediate, handle_complete, is_completion, handle_event,
}
use sm_rest.Extension.Plugins.{PluginCall, plugin_call}
use sm_rest.Extension.Acts.{Act, act_all, by_acts}
use sm_rest.Extension.Releases.{act_all-Below}
use sm_rest.Extension.Orderly.{act_all-Distinct}
use sm_rest.Extension.Objects.{IsSettled}
use sm_rest.Extension.CallRules.{by_plugin_call}
use sm_rest.Extension.Rules.{by_dispatch, by_complete}
use sm_rest.Extension.Table.{find-assign, find-bounded}
use sm_rest.Extension.Idle.{Distinct, find-erase, find-drop_jobs}
use sm_rest.Native.Sending.{handed_over}

module _ (job_id : ℕ) where
  -- The id was given out, and has no record.
  abbrev pub IsGone : RestExtension → Type 0
  IsGone extension = (job_id < extension.next_job_id) × (find extension.jobs job_id ≡ none)

  settled-IsGone :
      (before after : RestExtension) → IsSettled before after → IsGone before → IsGone after
  settled-IsGone before after settled gone = (rw (settled.ids) gone.0, rw (settled.jobs) gone.1)

  find-assign_other :
      (jobs : JobMap) (key : ℕ) (new : JobRecord)
      → (key == job_id) ≡ false
      → find jobs job_id ≡ none
      → find (assign jobs key new) job_id ≡ none
  find-assign_other jobs key new differs gone = rw (find-assign jobs key job_id new, differs) gone

  submit_job-IsGone :
      (extension : RestExtension) (spec : RequestSpec) (entry : JobRecord)
      → IsGone extension
      → IsGone (submit_job extension spec entry).0
  unfolding submit_job
  submit_job-IsGone extension spec entry gone = (
    omega (arith, gone.0),
    find-assign_other extension.jobs extension.next_job_id _ (ground (arith, gone.0)) gone.1,
  )

  drop_where-IsGone :
      (test : JobRecord → Bool) (extension : RestExtension)
      → IsGone extension
      → IsGone (drop_where test extension)
  unfolding drop_where
  drop_where-IsGone test extension gone =
      (gone.0, find-drop_jobs test extension.jobs extension.thread extension.released job_id gone.1)

  pub plugin_call-IsGone :
      (extension : RestExtension) (call : PluginCall)
      → IsGone extension
      → IsGone (plugin_call extension call)
  plugin_call-IsGone =
      by_plugin_call IsGone settled-IsGone (λ _ thread requested g. g) drop_where-IsGone
        (λ context before handle object completed payload url found g.
          submit_job-IsGone (handed_over context before handle object completed) _ _ g)

  dispatched-IsGone :
      (reply : Reply) (entry : JobRecord) (event : TransferEvent) (kind : EventKind)
      (extension : RestExtension)
      → IsGone extension
      → IsGone (dispatch_intermediate reply entry event kind extension)
  dispatched-IsGone =
      by_dispatch IsGone (λ _ thread requested g. g) (λ _ shown g. g) plugin_call-IsGone

  completed-IsGone :
      (reply : Reply) (entry : JobRecord) (event : TransferEvent) (extension : RestExtension)
      → IsGone extension
      → IsGone (dispatch_complete reply entry event extension)
  completed-IsGone =
      by_complete IsGone (λ _ thread requested g. g) (λ _ shown g. g) plugin_call-IsGone

  -- A key that has a record is another one.
  found_other :
      (jobs : JobMap) (key : ℕ) (entry : JobRecord)
      → find jobs key ≡ some entry
      → find jobs job_id ≡ none
      → (key == job_id) ≡ false
  found_other jobs key entry found gone = elim (Bool-cases (key == job_id)) [
    | inl same ↦
        let equal : key ≡ job_id = ground (arith, same) in
        absurd (ground (arith, ap (find jobs) equal, found, gone))
    | inr differs ↦ differs
  ]

  end_dispatch-IsGone :
      (extension : RestExtension) (key : ℕ) → IsGone extension → IsGone (end_dispatch extension key)
  unfolding end_dispatch
  end_dispatch-IsGone extension key gone =
      option_cases IsGone (find extension.jobs key) extension (release_dropped extension key)
        (λ missing. gone)
        (λ entry found.
          if_cases IsGone (not entry.dropped) _ _
            (λ kept. (
              gone.0,
              find-assign_other extension.jobs key _
                  (found_other extension.jobs key entry found gone.1) gone.1,
            ))
            (λ dropped. (gone.0, find-erase extension.jobs key job_id gone.1)))

  pub handle_event-IsGone :
      (reply : Reply) (extension : RestExtension) (event : TransferEvent)
      → IsGone extension
      → IsGone (handle_event reply extension event)
  unfolding handle_event handle_intermediate handle_complete
  handle_event-IsGone reply extension event gone =
      option_cases IsGone (find extension.jobs event.job_id) extension _ (λ missing. gone)
        (λ entry found.
          if_cases IsGone (not (is_completion event.kind)) _ _
            (λ before. end_dispatch-IsGone _ event.job_id (
              dispatched-IsGone reply (record entry { dispatching = true }) event event.kind _
                (
                  gone.0,
                  find-assign_other extension.jobs event.job_id _
                      (found_other extension.jobs event.job_id entry found gone.1) gone.1,
                )))
            (λ last.
              completed-IsGone reply entry event _
                (gone.0, find-erase extension.jobs event.job_id job_id gone.1)))

  act_all-IsGone :
      (acts : List Act) (extension : RestExtension)
      → IsGone extension
      → IsGone (act_all extension acts)
  act_all-IsGone = by_acts IsGone (λ _ thread g. g) plugin_call-IsGone handle_event-IsGone

find-erase_same : (jobs : JobMap) (key : ℕ) → Distinct jobs → find (erase jobs key) key ≡ none
unfolding find erase
find-erase_same [] key d = refl
find-erase_same ((other, entry) ∷ jobs) key d = elim (Bool-cases (other == key)) [
  | inl same ↦
      let equal : key ≡ other = ground (arith, same) in rw (same) (ap (find jobs) equal ∙ d.0)
  | inr differs ↦ rw (differs, differs) (find-erase_same jobs key d.1)
]

gone_ignored :
    (reply : Reply) (extension : RestExtension) (event : TransferEvent)
    → find extension.jobs event.job_id ≡ none
    → handle_event reply extension event ≡ extension
unfolding handle_event
gone_ignored reply extension event gone = rw (handle_event, gone) refl

handle_complete-IsGone :
    (reply : Reply) (extension : RestExtension) (entry : JobRecord) (event : TransferEvent)
    → find extension.jobs event.job_id ≡ some entry
    → is_completion event.kind ≡ true
    → Distinct extension.jobs
    → event.job_id < extension.next_job_id
    → IsGone event.job_id (handle_event reply extension event)
unfolding handle_event handle_complete
handle_complete-IsGone reply extension entry event found complete distinct below =
    option_cases (IsGone event.job_id) (find extension.jobs event.job_id) extension _
      (λ missing. absurd (ground (arith, missing, found)))
      (λ record_of_job here.
        if_cases (IsGone event.job_id) (not (is_completion event.kind)) _ _
          (λ before. absurd (ground (arith, before, complete)))
          (λ last.
            completed-IsGone event.job_id reply record_of_job event _
              (below, find-erase_same extension.jobs event.job_id distinct)))

-- After its completion a job has no record, whether it had one before or not.
pub completed-leaves :
    (reply : Reply) (extension : RestExtension) (event : TransferEvent)
    → is_completion event.kind ≡ true
    → Distinct extension.jobs
    → event.job_id < extension.next_job_id
    → IsGone event.job_id (handle_event reply extension event)
completed-leaves reply extension event complete distinct below =
    elim (Option-cases (find extension.jobs event.job_id)) [
      | inl missing ↦ rw (gone_ignored reply extension event missing) (below, missing)
      | inr (entry, found) ↦
          handle_complete-IsGone reply extension entry event found complete distinct below
    ]

-- When the completion of a job that the extension has is handed over, then whatever the plugin does
-- in that callback and whatever happens after it while the extension is loaded, no further event of
-- the job has any effect: no function is called, and nothing is consumed or released.
pub completed_once :
    (thread : TransferThread) (ca_bundle_path : Bytes) (verbose : Bool) (acts later : List Act)
    (reply again : Reply) (entry : JobRecord) (event stale : TransferEvent)
    → find (act_all (loaded thread ca_bundle_path verbose) acts).jobs event.job_id ≡ some entry
    → is_completion event.kind ≡ true
    → stale.job_id ≡ event.job_id
    → let before = act_all (loaded thread ca_bundle_path verbose) acts in
      let after = act_all (handle_event reply before event) later in
      handle_event again after stale ≡ after
completed_once thread ca_bundle_path verbose acts later reply again entry event stale found complete
      same =
    let before = act_all (loaded thread ca_bundle_path verbose) acts in
    let below =
      find-bounded before.next_job_id before.jobs event.job_id entry
        (act_all-Below thread ca_bundle_path verbose acts) found in
    let gone = act_all-IsGone event.job_id later (handle_event reply before event) (
      handle_complete-IsGone reply before entry event found complete
        (act_all-Distinct thread ca_bundle_path verbose acts) below) in
    let after = act_all (handle_event reply before event) later in
    gone_ignored again after stale (ap (find after.jobs) same ∙ gone.1)
