-- ===== src/Tests/Plugins.antt =====
-- The extension and its plugins at concrete inputs.
use sm_rest.Prelude.{
  if◌then◌else◌, ltb, ◌&&◌, ◌⊎◌, ◌+◌, ◌==◌, ◌++◌, ℕ, bytes, ◌≤◌, ◌≡◌, refl, true, false, List, [],
  ◌∷◌, none, some, arith,
}
use sm_rest.Prelude.Int.{pos}
use sm_rest.Request.{default_spec}
use sm_rest.Queue.{EventKind, TransferEvent, default_event}
use sm_rest.Thread.{enqueue}
use sm_rest.Extension.{
  JobRecord, RestExtension, loaded, find, drop_where, assign, submit_job, clamp_to_cell,
}
use sm_rest.Extension.Handles.{CallContext}
use sm_rest.Uri.{is_absolute_url, join_url}
use sm_rest.Native.Calls.{create_client, create_request}
use sm_rest.Native.Sending.{request_send, Listener}
use sm_rest.Extension.Dispatch.{
  handle_event, release_all, Reply, dispatch_intermediate, sdk_on_unload,
}
use sm_rest.Extension.Plugins.{
  plugin_call, creates_client, creates_request, listens_for, sends, closes_client,
}
use sm_rest.Extension.Tracking.{on_their_way}
use sm_rest.Job.Completion.{weigh}
use sm_rest.Extension.Handover.{only}
use sm_rest.Extension.Pipeline.{handed, every_job_accounted}
use sm_rest.Extension.Dropping.{chosen, fails, keys_of, drop_where_exact}
use sm_rest.Extension.Counting.{count}
use sm_rest.Extension.Survival.{IsKept, dispatch-Keeps}
use sm_rest.Extension.Once.{completed_once}
use sm_rest.Extension.Acts.{act, Act, frames, called, rounds, act_all}
use sm_rest.Extension.Releases.{forwards_released}
use sm_rest.Tests.Threads.{idle, answers}

-- What SourceMod answers to the calls of plugin 3: the next handle and the next forward.
abbrev pub answers_with : ℕ → ℕ → CallContext
answers_with handle forward = record {
  identity = 3;
  reads = true;
  handle = some handle;
  has_function = true;
  forward = some forward;
  frees = true;
  moved_from = default_spec;
}

-- The plugin closes its client while it is told about a job.
abbrev closing : Reply
closing = record {
  listens = true;
  makes_handle = true;
  calls = closes_client 5 ∷ [];
  handled = false;
}

-- A request of client 5 asks for progress and is sent, and another is made and never sent.
abbrev acts : List Act
acts =
    called (creates_client (answers_with 5 0) (bytes "http://a"))
    ∷ called (creates_request (answers_with 6 0) 5 (pos 0) (bytes "b"))
    ∷ called (listens_for (answers_with 0 12) 6 Listener.progress)
    ∷ called (sends (answers_with 0 11) 6 (pos 0))
    ∷ called (creates_request (answers_with 7 0) 5 (pos 2) (bytes "c"))
    ∷ called (listens_for (answers_with 0 13) 7 Listener.chunk)
    ∷ rounds answers
    ∷ frames (closing ∷ [])
    ∷ []

-- A record of a request of client 5, with a forward for the completion and one for the progress.
abbrev new_record : JobRecord
new_record = record {
  id = 0;
  client_handle = 5;
  owner = 3;
  completed = some 11;
  headers = none;
  data_forward = none;
  progress = some 12;
  context = pos 0;
  dispatching = false;
  dropped = false;
}

forwards_released_example :
    let extension = act_all (loaded idle [] false) acts in
    (count 12 extension.released ≤ count 12 extension.created)
    × (count 12 (sdk_on_unload extension).released ≡ count 12 (sdk_on_unload extension).created)
forwards_released_example = forwards_released idle [] false acts 12

every_job_accounted_example :
    let start = loaded idle [] false in
    let after = act_all start acts in
    (handed (only 1) start acts + on_their_way (only 1) after.thread
      ≡ (if ltb 0 1 && ltb 1 after.next_job_id then 1 else 0))
    × ((handed (only 1) start acts ≡ 0) ⊎ (find after.jobs 1 ≡ none))
unfolding weigh
every_job_accounted_example = every_job_accounted idle [] false acts 1 refl refl

drop_where_exact_example :
    let before = act_all (loaded idle [] false) acts in
    let of_plugin = λ (entry : JobRecord). entry.owner == 3 in
    let after = drop_where of_plugin before in
    (after.jobs ≡ chosen (fails of_plugin) before.jobs)
    × (after.released ≡ release_all (chosen of_plugin before.jobs) before.released)
    × (after.thread.cancel_requests
        ≡ before.thread.cancel_requests ++ keys_of (chosen of_plugin before.jobs))
drop_where_exact_example = drop_where_exact idle [] false acts (λ entry. entry.owner == 3)

abbrev with_job : RestExtension
with_job = (submit_job (loaded idle [] false) default_spec new_record).0

abbrev entered : JobRecord
entered = record new_record { id = 1; dispatching = true }

abbrev marked : RestExtension
marked = record with_job { jobs = assign with_job.jobs 1 entered }

dispatch-Keeps_example :
    IsKept entered
      (find (dispatch_intermediate closing entered default_event EventKind.progress marked).jobs 1)
unfolding submit_job loaded find assign enqueue
dispatch-Keeps_example =
    dispatch-Keeps 1 entered closing default_event EventKind.progress marked refl (omega arith) refl

clamped : clamp_to_cell (pos 3000000000) ≡ pos 2147483647
unfolding clamp_to_cell
clamped = refl

-- A request without listeners, sent to "http://a/".
abbrev sending : List Act
sending =
    called (creates_client (answers_with 5 0) (bytes "http://a"))
    ∷ called (creates_request (answers_with 6 0) 5 (pos 0) [])
    ∷ called (sends (answers_with 0 11) 6 (pos 0))
    ∷ []

abbrev sent_record : JobRecord
sent_record = record new_record { id = 1; progress = none }

sent_found : find (act_all (loaded idle [] false) sending).jobs 1 ≡ some sent_record
unfolding act_all act plugin_call loaded find assign request_send create_request create_client
    is_absolute_url join_url sm_rest.Uri.contains sm_rest.Uri.pop_slashes
sent_found = refl

abbrev last_event : TransferEvent
last_event = record default_event { job_id = 1 }

-- The plugin sends the request again from its callback, and then is told once more.
completed_once_example :
    let before = act_all (loaded idle [] false) sending in
    let after = act_all (handle_event closing before last_event) sending in
    handle_event closing after last_event ≡ after
completed_once_example =
    completed_once idle [] false sending sending closing closing sent_record last_event last_event
      sent_found refl refl
