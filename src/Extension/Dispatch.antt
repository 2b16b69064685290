-- ===== src/Extension/Dispatch.antt =====
-- How the game thread hands an event to the plugin (src/extension.cpp). The plugin's function may
-- call the extension again while it runs.
use sm_rest.Extension.{
  JobRecord, JobMap, RequestObject, find, erase, assign, clamp_to_cell, Callback, on_progress,
  on_headers, on_data, on_complete, RestExtension, release_record, release_request,
}
use sm_rest.Extension.Handles.{response_of}
use sm_rest.Prelude.{
  ℕ, Bool, true, false, not, List, [], ◌∷◌, ◌++◌, Option, none, some, length, if◌then◌else◌,
}
use sm_rest.Prelude.Int.{ℤ, pos}
use sm_rest.Queue.{TransferEvent, EventKind, drain, set_enabled}
use sm_rest.Thread.{request_cancel, request_consume, stop}
use sm_rest.Extension.Plugins.{PluginCall, plugin_calls}

-- What SourceMod and the plugin answer to one event: whether the forward still has functions,
-- whether a response handle can be made, what the functions do, and whether their result is
-- `Pl_Handled` or more.
pub record Reply : Type 0 where
  pub listens : Bool
  pub makes_handle : Bool
  pub calls : List PluginCall
  pub handled : Bool

-- The forward is not `nullptr`, and has functions.
abbrev pub is_heard : Option ℕ → Reply → Bool
is_heard none reply = false
is_heard (some forward) reply = reply.listens

-- `Execute`.
unfoldable pub execute : Reply → Callback → RestExtension → RestExtension
unfolding plugin_calls
execute reply callback extension =
    plugin_calls (record extension { shown = extension.shown ++ callback ∷ [] }) reply.calls

abbrev pub to_cell : ℕ → ℤ
to_cell n = clamp_to_cell (pos n)

unfoldable pub dispatch_progress : Reply → JobRecord → TransferEvent → RestExtension → RestExtension
unfolding execute
dispatch_progress reply entry event extension =
    if not (is_heard entry.progress reply)
    then extension
    else execute reply
        (on_progress entry.client_handle (to_cell event.downloaded) (to_cell event.download_total)
          (to_cell event.uploaded) (to_cell event.upload_total) entry.context)
        extension

-- The response handle is freed after the call, and shows the event while it lasts.
unfoldable pub dispatch_headers : Reply → JobRecord → TransferEvent → RestExtension → RestExtension
unfolding execute response_of
dispatch_headers reply entry event extension =
    if not (is_heard entry.headers reply)
    then extension
    else if not reply.makes_handle
    then extension
    else let after =
        execute reply (on_headers entry.client_handle (response_of event) entry.context)
          extension in
      if reply.handled
      then record after { thread = request_cancel after.thread entry.id }
      else after

-- The bytes count as consumed whether or not a function takes them.
unfoldable pub dispatch_data : Reply → JobRecord → TransferEvent → RestExtension → RestExtension
unfolding execute
dispatch_data reply entry event extension =
    let after =
      if is_heard entry.data_forward reply
      then execute reply
          (on_data entry.client_handle event.body (to_cell (length event.body)) entry.context)
          extension
      else extension in
    record after { thread = request_consume after.thread entry.id (length event.body) }

unfoldable pub dispatch_complete : Reply → JobRecord → TransferEvent → RestExtension → RestExtension
unfolding execute response_of
dispatch_complete reply entry event extension =
    if not (is_heard entry.completed reply)
    then extension
    else if not reply.makes_handle
    then extension
    else execute reply (on_complete entry.client_handle (response_of event) entry.context) extension

unfoldable pub dispatch_intermediate :
    Reply → JobRecord → TransferEvent → EventKind → RestExtension → RestExtension
unfolding dispatch_progress dispatch_headers dispatch_data
dispatch_intermediate reply entry event EventKind.progress = dispatch_progress reply entry event
dispatch_intermediate reply entry event EventKind.headers = dispatch_headers reply entry event
dispatch_intermediate reply entry event EventKind.chunk = dispatch_data reply entry event
dispatch_intermediate reply entry event EventKind.complete = λ extension. extension

abbrev pub release_dropped : RestExtension → ℕ → JobRecord → RestExtension
release_dropped extension job_id entry =
    if not entry.dropped
    then record extension {
      jobs = assign extension.jobs job_id (record entry { dispatching = false });
    }
    else record extension {
      released = release_record extension.released entry;
      jobs = erase extension.jobs job_id;
    }

-- `HandleIntermediate`, after the dispatch: the record is the one in the map, which the reference
-- still names.
unfoldable pub end_dispatch : RestExtension → ℕ → RestExtension
end_dispatch extension job_id = elim (find extension.jobs job_id) [
  | none ↦ extension
  | some entry ↦ release_dropped extension job_id entry
]

unfoldable pub handle_intermediate :
    Reply → ℕ → JobRecord → TransferEvent → RestExtension → RestExtension
unfolding dispatch_intermediate end_dispatch
handle_intermediate reply job_id entry event extension =
    let entered = record entry { dispatching = true } in
    let marked = record extension { jobs = assign extension.jobs job_id entered } in
    end_dispatch (dispatch_intermediate reply entered event event.kind marked) job_id

unfoldable pub handle_complete :
    Reply → ℕ → JobRecord → TransferEvent → RestExtension → RestExtension
unfolding dispatch_complete
handle_complete reply job_id entry event extension =
    let erased = record extension { jobs = erase extension.jobs job_id } in
    let after = dispatch_complete reply entry event erased in
    record after { released = release_record after.released entry }

abbrev pub is_completion : EventKind → Bool
is_completion EventKind.complete = true
is_completion _ = false

unfoldable pub handle_event : Reply → RestExtension → TransferEvent → RestExtension
unfolding handle_intermediate handle_complete
handle_event reply extension event = elim (find extension.jobs event.job_id) [
  | none ↦ extension
  | some entry ↦
      if not (is_completion event.kind)
      then handle_intermediate reply event.job_id entry event extension
      else handle_complete reply event.job_id entry event extension
]

abbrev pub silent : Reply
silent = record { listens = false; makes_handle = false; calls = []; handled = false }

-- Each event with the plugin's reply to it; where no reply is given, no function listens.
unfoldable pub handle_events : List Reply → RestExtension → List TransferEvent → RestExtension
unfolding handle_event
handle_events replies extension [] = extension
handle_events [] extension (event ∷ events) =
    handle_events [] (handle_event silent extension event) events
handle_events (reply ∷ replies) extension (event ∷ events) =
    handle_events replies (handle_event reply extension event) events

unfoldable pub on_game_frame : List Reply → RestExtension → RestExtension
unfolding handle_events
on_game_frame replies extension =
    let shared = extension.thread.shared in
    if not shared.queue.has_events
    then extension
    else let (queue, events) = drain shared.queue in
      let thread = record extension.thread { shared = record shared { queue = queue } } in
      handle_events replies (record extension { thread = thread }) events

unfoldable pub release_all : JobMap → List ℕ → List ℕ
release_all [] released = released
release_all ((job_id, entry) ∷ jobs) released = release_all jobs (release_record released entry)

unfoldable pub release_requests : List (ℕ × RequestObject) → List ℕ → List ℕ
release_requests [] released = released
release_requests ((handle, object) ∷ objects) released =
    release_requests objects (release_request released object)

-- The queue is disabled before the thread is stopped, and drained after. To remove the types is to
-- destroy what is left behind their handles; no job is left that a client's end could drop.
unfoldable pub sdk_on_unload : RestExtension → RestExtension
unfolding release_all release_requests
sdk_on_unload extension =
    let shared = extension.thread.shared in
    let quiet = record shared { queue = set_enabled shared.queue false } in
    let stopped = stop (record extension.thread { shared = quiet }) in
    let drained = record stopped.shared { queue = (drain stopped.shared.queue).0 } in
    record extension {
      thread = record stopped { shared = drained };
      released =
          release_requests extension.requests (release_all extension.jobs extension.released);
      jobs = [];
      requests = [];
      clients = [];
    }
