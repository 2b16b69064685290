-- ===== src/Extension/Pipeline.antt =====
-- From the submission of a job to the hand-over of its completion, over the extension, the transfer
-- thread and the queue.
use sm_rest.Prelude.{
  ℕ, ◌+◌, ◌≡◌, refl, ◌⊎◌, inl, inr, Bool, true, false, not, ◌&&◌, List, [], ◌∷◌, none, Bytes, arith,
  if◌then◌else◌, Bool-cases, ltb, leb,
}
use std.Path.{subst}
use sm_rest.Queue.{TransferEvent, drain}
use sm_rest.Job.Completion.{weigh}
use sm_rest.Thread.{TransferThread, RoundAnswers, round}
use sm_rest.Thread.Accounting.{round_weighs}
use sm_rest.Extension.{RestExtension, find, loaded}
use sm_rest.Extension.Dispatch.{Reply, handle_event, handle_events, on_game_frame}
use sm_rest.Extension.Plugins.{PluginCall, plugin_call}
use sm_rest.Extension.Acts.{Act, frames, called, rounds, hears, act, act_all, by_events}
use sm_rest.Extension.Orderly.{
  IsOrderly, same_jobs, plugin_call-IsOrderly, handle_event-IsOrderly, loaded-IsOrderly,
}
use sm_rest.Extension.Once.{IsGone, plugin_call-IsGone, handle_event-IsGone}
use sm_rest.Extension.Handover.{only, total-only, events-IsGone}
use sm_rest.Extension.Tracking.{
  on_their_way, IsTracked, plugin_call-IsTracked, handle_event-IsTracked,
}

-- The completions that an act takes out of the queue, each with the weight of its job's id.
abbrev taken_by : (ℕ → ℕ) → RestExtension → Act → ℕ
taken_by weight extension (frames replies) =
    if not extension.thread.shared.queue.has_events
    then 0
    else weigh weight extension.thread.shared.queue.events
taken_by weight extension _ = 0

-- The completions that frames take out of the queue, over a history.
unfoldable pub handed : (ℕ → ℕ) → RestExtension → List Act → ℕ
unfolding act
handed weight extension [] = 0
handed weight extension (first ∷ acts) =
    taken_by weight extension first + handed weight (act extension first) acts

module _ (job_id : ℕ) where
  -- The job is accounted for, and if its completion was taken it has no record any more.
  record IsAccounted (taken : ℕ) (extension : RestExtension) : Type 0 where
    tracked : IsTracked (only job_id) (only job_id 0 + taken) extension
    orderly : IsOrderly none extension
    gone : (taken ≡ 0) ⊎ IsGone job_id extension

  stays-IsGone :
      (taken : ℕ) (before after : RestExtension)
      → (IsGone job_id before → IsGone job_id after)
      → (taken ≡ 0) ⊎ IsGone job_id before
      → (taken ≡ 0) ⊎ IsGone job_id after
  stays-IsGone taken before after keeps (inl nothing) = inl nothing
  stays-IsGone taken before after keeps (inr gone) = inr (keeps gone)

  more :
      (taken : ℕ) (extension : RestExtension)
      → IsAccounted taken extension
      → IsAccounted (taken + 0) extension
  more taken extension h = subst (λ (n : ℕ). IsAccounted n extension) (omega arith) h

  handle_event-IsAccounted :
      (taken : ℕ) (reply : Reply) (extension : RestExtension) (event : TransferEvent)
      → IsAccounted taken extension
      → IsAccounted taken (handle_event reply extension event)
  handle_event-IsAccounted taken reply extension event h = record {
    tracked =
        handle_event-IsTracked (only job_id) (only job_id 0 + taken) reply extension event
          h.tracked;
    orderly = handle_event-IsOrderly reply extension event h.orderly;
    gone =
        stays-IsGone taken extension (handle_event reply extension event)
          (handle_event-IsGone job_id reply extension event) h.gone;
  }

  plugin_call-IsAccounted :
      (taken : ℕ) (extension : RestExtension) (call : PluginCall)
      → IsAccounted taken extension
      → IsAccounted taken (plugin_call extension call)
  plugin_call-IsAccounted taken extension call h = record {
    tracked = plugin_call-IsTracked (only job_id) (only job_id 0 + taken) extension call h.tracked;
    orderly = plugin_call-IsOrderly none extension call h.orderly;
    gone =
        stays-IsGone taken extension (plugin_call extension call)
          (plugin_call-IsGone job_id extension call) h.gone;
  }

  round-IsAccounted :
      (taken : ℕ) (extension : RestExtension) (answers : RoundAnswers)
      → IsAccounted taken extension
      → IsAccounted taken (record extension { thread = (round answers extension.thread).0 })
  round-IsAccounted taken extension answers h =
      let kept = round_weighs (only job_id) answers extension.thread h.tracked.enabled in
      record {
        tracked = record { enabled = kept.0; tracks = omega (arith, h.tracked.tracks, kept.1) };
        orderly = same_jobs none extension _ refl h.orderly;
        gone = h.gone;
      }

  abbrev drained : RestExtension → RestExtension
  drained extension =
      let shared = extension.thread.shared in
      record extension {
        thread = record extension.thread {
          shared = record shared { queue = (drain shared.queue).0 };
        };
      }

  events-IsAccounted :
      (taken : ℕ) (replies : List Reply) (extension : RestExtension)
      → IsAccounted taken extension
      → IsAccounted
          (taken + weigh (only job_id) extension.thread.shared.queue.events)
          (handle_events replies (drained extension) extension.thread.shared.queue.events)
  unfolding drain weigh
  events-IsAccounted taken replies extension h =
      let events = extension.thread.shared.queue.events in
      let now = only job_id 0 + (taken + weigh (only job_id) events) in
      let tracked : IsTracked (only job_id) now (drained extension) = record {
        enabled = h.tracked.enabled;
        tracks = omega (arith, h.tracked.tracks);
      } in
      let orderly = same_jobs none extension (drained extension) refl h.orderly in
      record {
        tracked =
            by_events (IsTracked (only job_id) now) (handle_event-IsTracked (only job_id) now)
              replies (drained extension) events tracked;
        orderly =
            by_events (IsOrderly none) handle_event-IsOrderly replies (drained extension) events
              orderly;
        gone = elim (Bool-cases (leb 1 (weigh (only job_id) events))) [
          | inl some_taken ↦ inr (
              events-IsGone job_id now replies (drained extension) events (ground arith) tracked
                orderly (ground arith))
          | inr nothing ↦ elim h.gone [
            | inl before ↦ inl (ground arith)
            | inr gone ↦ inr (
                by_events (IsGone job_id) (handle_event-IsGone job_id) replies (drained extension)
                  events gone)
          ]
        ];
      }

  frame-IsAccounted :
      (taken : ℕ) (replies : List Reply) (extension : RestExtension)
      → IsAccounted taken extension
      → IsAccounted
          (taken + taken_by (only job_id) extension (frames replies))
          (on_game_frame replies extension)
  unfolding on_game_frame drain
  frame-IsAccounted taken replies extension h =
      let events = extension.thread.shared.queue.events in
      elim (not extension.thread.shared.queue.has_events)
        as (λ quiet.
          IsAccounted (taken + (if quiet then 0 else weigh (only job_id) events))
            (if quiet then extension else handle_events replies (drained extension) events)) [
              | true ↦ more taken extension h
              | false ↦ events-IsAccounted taken replies extension h
            ]

  act-IsAccounted :
      (taken : ℕ) (extension : RestExtension) (first : Act)
      → IsAccounted taken extension
      → IsAccounted (taken + taken_by (only job_id) extension first) (act extension first)
  unfolding act
  act-IsAccounted taken extension (frames replies) h = frame-IsAccounted taken replies extension h
  act-IsAccounted taken extension (called call) h =
      more taken _ (plugin_call-IsAccounted taken extension call h)
  act-IsAccounted taken extension (hears reply event) h =
      more taken _ (handle_event-IsAccounted taken reply extension event h)
  act-IsAccounted taken extension (rounds answers) h =
      more taken _ (round-IsAccounted taken extension answers h)

  acts-IsAccounted :
      (taken : ℕ) (extension : RestExtension) (acts : List Act)
      → IsAccounted taken extension
      → IsAccounted (taken + handed (only job_id) extension acts) (act_all extension acts)
  unfolding act_all handed
  acts-IsAccounted taken extension [] h = more taken extension h
  acts-IsAccounted taken extension (first ∷ acts) h =
      let now = taken_by (only job_id) extension first in
      subst (λ (n : ℕ). IsAccounted n (act_all (act extension first) acts)) (omega arith)
        (acts-IsAccounted (taken + now) (act extension first) acts
          (act-IsAccounted taken extension first h))

-- Let the queue take events when the extension is loaded, and the thread have nothing of an id. From
-- there on, whatever plugins, curl and the system do: if a job was submitted under the id, exactly one
-- of these holds, and once: a frame has taken its completion, or its completion waits in the queue, or
-- the thread has it unfinished; and under an id that was not given out there is nothing of that. And a
-- job whose completion a frame has taken has no record in the extension any more.
pub every_job_accounted :
    (thread : TransferThread) (ca_bundle_path : Bytes) (verbose : Bool) (acts : List Act)
    (job_id : ℕ)
    → thread.shared.queue.enabled ≡ true
    → on_their_way (only job_id) thread ≡ 0
    → let start = loaded thread ca_bundle_path verbose in
      let after = act_all start acts in
      (handed (only job_id) start acts + on_their_way (only job_id) after.thread
        ≡ (if ltb 0 job_id && ltb job_id after.next_job_id then 1 else 0))
      × ((handed (only job_id) start acts ≡ 0) ⊎ (find after.jobs job_id ≡ none))
unfolding loaded
every_job_accounted thread ca_bundle_path verbose acts job_id on nothing =
    let start = loaded thread ca_bundle_path verbose in
    let after = act_all start acts in
    let h = acts-IsAccounted job_id 0 start acts (record {
      tracked = record { enabled = on; tracks = omega (arith, nothing) };
      orderly = loaded-IsOrderly thread ca_bundle_path verbose;
      gone = inl refl;
    }) in
    (
      ground (arith, h.tracked.tracks, total-only job_id after.next_job_id),
      elim h.gone [ inl none_taken ↦ inl (omega (arith, none_taken)) | inr gone ↦ inr gone.1 ],
    )
