-- ===== src/Extension/Handover.antt =====
-- What a frame leaves of a job whose completion it takes out of the queue.
use sm_rest.Prelude.{
  ℕ, zero, suc, ◌<◌, ◌≤◌, ◌≡◌, inl, inr, true, List, [], ◌∷◌, none, arith, if◌then◌else◌,
  Bool-cases, ◌==◌, ltb, leb,
}
use std.Path.{subst}
use sm_rest.Queue.{TransferEvent, EventKind}
use sm_rest.Job.Completion.{weigh, weight_of}
use sm_rest.Extension.{RestExtension}
use sm_rest.Extension.Dispatch.{Reply, silent, is_completion, handle_event, handle_events}
use sm_rest.Extension.Acts.{by_events}
use sm_rest.Extension.Orderly.{IsOrderly, handle_event-IsOrderly}
use sm_rest.Extension.Once.{IsGone, handle_event-IsGone, completed-leaves}
use sm_rest.Extension.Tracking.{total, IsTracked, handle_event-IsTracked}

-- The weight that counts one id alone.
abbrev pub only : ℕ → ℕ → ℕ
only job_id other = if other == job_id then 1 else 0

pub total-only : (job_id n : ℕ) → total (only job_id) n ≡ (if ltb job_id n then 1 else 0)
total-only job_id zero = ground arith
total-only job_id (suc n) = ground (arith, total-only job_id n)

module _ (job_id : ℕ) where
  below_next :
      (taken : ℕ) (extension : RestExtension)
      → 1 ≤ taken
      → IsTracked (only job_id) taken extension
      → job_id < extension.next_job_id
  below_next taken extension some_taken h =
      ground (arith, h.tracks, total-only job_id extension.next_job_id)

  -- An event of that weight is the completion of the job.
  weighs_completion :
      (kind : EventKind) (other : ℕ)
      → 1 ≤ (elim kind [ EventKind.complete ↦ only job_id other | _ ↦ 0 ])
      → (is_completion kind ≡ true) × (other ≡ job_id)
  weighs_completion EventKind.complete other h = ground arith
  weighs_completion EventKind.progress other h = absurd (omega arith)
  weighs_completion EventKind.headers other h = absurd (omega arith)
  weighs_completion EventKind.chunk other h = absurd (omega arith)

  completion-IsGone :
      (reply : Reply) (extension : RestExtension) (event : TransferEvent)
      → 1 ≤ weight_of (only job_id) event
      → IsOrderly none extension
      → job_id < extension.next_job_id
      → IsGone job_id (handle_event reply extension event)
  completion-IsGone reply extension event h orderly below =
      let (complete, same) = weighs_completion event.kind event.job_id h in
      subst (λ (id : ℕ). IsGone id (handle_event reply extension event)) same
        (completed-leaves reply extension event complete orderly.distinct (omega arith))

  -- Where the completion of the job is among the events of a frame, the job has no record at its end.
  pub events-IsGone :
      (taken : ℕ) (replies : List Reply) (extension : RestExtension) (events : List TransferEvent)
      → 1 ≤ taken
      → IsTracked (only job_id) taken extension
      → IsOrderly none extension
      → 1 ≤ weigh (only job_id) events
      → IsGone job_id (handle_events replies extension events)
  unfolding handle_events weigh
  events-IsGone taken replies extension [] t h o w = absurd (omega arith)
  events-IsGone taken [] extension (event ∷ events) t h o w =
      elim (Bool-cases (leb 1 (weight_of (only job_id) event))) [
        | inl this ↦ by_events (IsGone job_id) (handle_event-IsGone job_id) [] _ events (
            completion-IsGone silent extension event (ground arith) o
              (below_next taken extension t h))
        | inr other ↦
            events-IsGone taken [] (handle_event silent extension event) events t
              (handle_event-IsTracked (only job_id) taken silent extension event h)
              (handle_event-IsOrderly silent extension event o) (ground arith)
      ]
  events-IsGone taken (reply ∷ replies) extension (event ∷ events) t h o w =
      elim (Bool-cases (leb 1 (weight_of (only job_id) event))) [
        | inl this ↦ by_events (IsGone job_id) (handle_event-IsGone job_id) replies _ events (
            completion-IsGone reply extension event (ground arith) o
              (below_next taken extension t h))
        | inr other ↦
            events-IsGone taken replies (handle_event reply extension event) events t
              (handle_event-IsTracked (only job_id) taken reply extension event h)
              (handle_event-IsOrderly reply extension event o) (ground arith)
      ]
