-- ===== src/Extension/Releases.antt =====
-- Every forward that is made is released, and none twice.
use sm_rest.Prelude.{
  ℕ, ◌+◌, ◌≤◌, ◌≡◌, ap, Bool, true, false, not, List, [], ◌∷◌, some, Bytes, arith, if_cases,
  option_cases,
}
use sm_rest.Thread.{TransferThread}
use sm_rest.Queue.{TransferEvent}
use sm_rest.Extension.{
  JobRecord, JobMap, RestExtension, find, erase, release_record, release_request, loaded,
  RequestObject,
}
use sm_rest.Extension.Dispatch.{
  Reply, dispatch_complete, release_dropped, end_dispatch, handle_intermediate, handle_complete,
  is_completion, handle_event, release_all, release_requests, sdk_on_unload,
}
use sm_rest.Extension.Acts.{by_acts, Act, act_all}
use sm_rest.Extension.Table.{Below, assign-Below, erase-Below, find-bounded}
use sm_rest.Extension.Counting.{
  count, held, held_by, kept, count-release_request, weight_of, count-release_record, total-assign,
  total-erase,
}
use sm_rest.Extension.Forwards.{
  IsAccounted, by_thread-IsAccounted, plugin_call-IsAccounted, dispatched-IsAccounted,
  completed-IsAccounted,
}

abbrev none_owed : ℕ → ℕ
none_owed forward = 0

release_dropped-IsAccounted :
    (extension : RestExtension) (job_id : ℕ) (entry : JobRecord)
    → find extension.jobs job_id ≡ some entry
    → IsAccounted none_owed extension
    → IsAccounted none_owed (release_dropped extension job_id entry)
release_dropped-IsAccounted extension job_id entry found h =
    if_cases (IsAccounted none_owed) (not entry.dropped) _ _
      (λ kept. record {
        below =
            assign-Below extension.next_job_id extension.jobs job_id _
              (find-bounded extension.next_job_id extension.jobs job_id entry h.below found)
              h.below;
        accounts = λ forward. omega (
          arith,
          h.accounts forward,
          total-assign (held_by forward) extension.jobs job_id
              (record entry { dispatching = false }),
          ap (weight_of (held_by forward)) found,
        );
      })
      (λ dropped. record {
        below = erase-Below extension.next_job_id extension.jobs job_id h.below;
        accounts = λ forward. omega (
          arith,
          h.accounts forward,
          total-erase (held_by forward) extension.jobs job_id,
          ap (weight_of (held_by forward)) found,
          count-release_record forward extension.released entry,
        );
      })

end_dispatch-IsAccounted :
    (extension : RestExtension) (job_id : ℕ)
    → IsAccounted none_owed extension
    → IsAccounted none_owed (end_dispatch extension job_id)
unfolding end_dispatch
end_dispatch-IsAccounted extension job_id h =
    option_cases (IsAccounted none_owed) (find extension.jobs job_id) extension
      (release_dropped extension job_id) (λ missing. h)
      (λ entry found. release_dropped-IsAccounted extension job_id entry found h)

handle_intermediate-IsAccounted :
    (reply : Reply) (job_id : ℕ) (entry : JobRecord) (event : TransferEvent)
    (extension : RestExtension)
    → find extension.jobs job_id ≡ some entry
    → IsAccounted none_owed extension
    → IsAccounted none_owed (handle_intermediate reply job_id entry event extension)
unfolding handle_intermediate
handle_intermediate-IsAccounted reply job_id entry event extension found h =
    let entered = record entry { dispatching = true } in
    end_dispatch-IsAccounted _ job_id (
      dispatched-IsAccounted none_owed reply entered event event.kind _ (record {
        below =
            assign-Below extension.next_job_id extension.jobs job_id entered
              (find-bounded extension.next_job_id extension.jobs job_id entry h.below found)
              h.below;
        accounts = λ forward. omega (
          arith,
          h.accounts forward,
          total-assign (held_by forward) extension.jobs job_id entered,
          ap (weight_of (held_by forward)) found,
        );
      }))

handle_complete-IsAccounted :
    (reply : Reply) (job_id : ℕ) (entry : JobRecord) (event : TransferEvent)
    (extension : RestExtension)
    → find extension.jobs job_id ≡ some entry
    → IsAccounted none_owed extension
    → IsAccounted none_owed (handle_complete reply job_id entry event extension)
unfolding handle_complete
handle_complete-IsAccounted reply job_id entry event extension found h =
    let erased = record extension { jobs = erase extension.jobs job_id } in
    let after =
      completed-IsAccounted (λ forward. held_by forward entry) reply entry event erased
        (record {
          below = erase-Below extension.next_job_id extension.jobs job_id h.below;
          accounts = λ forward. omega (
            arith,
            h.accounts forward,
            total-erase (held_by forward) extension.jobs job_id,
            ap (weight_of (held_by forward)) found,
          );
        }) in
    record {
      below = after.below;
      accounts = λ forward. omega (
        arith,
        after.accounts forward,
        count-release_record forward (dispatch_complete reply entry event erased).released entry,
      );
    }

handle_event-IsAccounted :
    (reply : Reply) (extension : RestExtension) (event : TransferEvent)
    → IsAccounted none_owed extension
    → IsAccounted none_owed (handle_event reply extension event)
unfolding handle_event
handle_event-IsAccounted reply extension event h =
    option_cases (IsAccounted none_owed) (find extension.jobs event.job_id) extension _
      (λ missing. h)
      (λ entry found.
        if_cases (IsAccounted none_owed) (not (is_completion event.kind)) _ _
          (λ before.
            handle_intermediate-IsAccounted reply event.job_id entry event extension found h)
          (λ last. handle_complete-IsAccounted reply event.job_id entry event extension found h))

count-release_all :
    (forward : ℕ) (jobs : JobMap) (released : List ℕ)
    → count forward (release_all jobs released) ≡ count forward released + held forward jobs
unfolding release_all
count-release_all forward [] released = omega arith
count-release_all forward ((key, entry) ∷ jobs) released = omega (
  arith,
  count-release_all forward jobs (release_record released entry),
  count-release_record forward released entry,
)

count-release_requests :
    (forward : ℕ) (objects : List (ℕ × RequestObject)) (released : List ℕ)
    → count forward (release_requests objects released)
      ≡ count forward released + kept forward objects
unfolding release_requests
count-release_requests forward [] released = omega arith
count-release_requests forward ((handle, object) ∷ objects) released = omega (
  arith,
  count-release_requests forward objects (release_request released object),
  count-release_request forward released object,
)

loaded-IsAccounted :
    (thread : TransferThread) (ca_bundle_path : Bytes) (verbose : Bool)
    → IsAccounted none_owed (loaded thread ca_bundle_path verbose)
unfolding loaded count
loaded-IsAccounted thread ca_bundle_path verbose = record {
  below = tt;
  accounts = λ forward. omega arith;
}

act_all-IsAccounted :
    (thread : TransferThread) (ca_bundle_path : Bytes) (verbose : Bool) (acts : List Act)
    → IsAccounted none_owed (act_all (loaded thread ca_bundle_path verbose) acts)
act_all-IsAccounted thread ca_bundle_path verbose acts =
    by_acts (IsAccounted none_owed) (by_thread-IsAccounted none_owed)
      (plugin_call-IsAccounted none_owed) handle_event-IsAccounted acts _
      (loaded-IsAccounted thread ca_bundle_path verbose)

-- Every id in the map was given out.
pub act_all-Below :
    (thread : TransferThread) (ca_bundle_path : Bytes) (verbose : Bool) (acts : List Act)
    → let extension = act_all (loaded thread ca_bundle_path verbose) acts in
      Below extension.next_job_id extension.jobs
act_all-Below thread ca_bundle_path verbose acts =
    (act_all-IsAccounted thread ca_bundle_path verbose acts).below

-- From the load of the extension on, whatever natives plugins call and however those answer, whatever
-- handles are freed and plugins unloaded, from within whichever callback, and whatever the transfer
-- thread does meanwhile: a forward is not released more often than it was made; and once the
-- extension is unloaded it has been released exactly as often.
pub forwards_released :
    (thread : TransferThread) (ca_bundle_path : Bytes) (verbose : Bool) (acts : List Act)
    (forward : ℕ)
    → let extension = act_all (loaded thread ca_bundle_path verbose) acts in
      (count forward extension.released ≤ count forward extension.created)
      × (count forward (sdk_on_unload extension).released
          ≡ count forward (sdk_on_unload extension).created)
unfolding sdk_on_unload
forwards_released thread ca_bundle_path verbose acts forward =
    let extension = act_all (loaded thread ca_bundle_path verbose) acts in
    let h = act_all-IsAccounted thread ca_bundle_path verbose acts in
    let jobs_released = release_all extension.jobs extension.released in
    (
      omega (arith, h.accounts forward),
      omega (
        arith,
        h.accounts forward,
        count-release_all forward extension.jobs extension.released,
        count-release_requests forward extension.requests jobs_released,
      ),
    )
