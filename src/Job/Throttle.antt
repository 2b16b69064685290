-- ===== src/Job/Throttle.antt =====
-- How often progress is reported.
use sm_rest.Prelude.{
  ℕ, ◌+◌, ◌*◌, ◌≡◌, ◌≤◌, Bool, true, false, ◌&&◌, List, [], ◌∷◌, if◌then◌else◌, ltb, ◌==◌, length,
}
use sm_rest.Prelude.Int.{pos_part}
use sm_rest.Request.{RequestSpec}
use sm_rest.Queue.{TransferEvent, EventKind, default_event}
use sm_rest.Job.State.{RestJob}
use sm_rest.Job.Progress.{Counts, download_complete, upload_complete, post_progress}

-- Callbacks of curl, each with its time.
unfoldable pub post_each : RestJob → List (ℕ × Counts) → RestJob
unfolding post_progress
post_each job [] = job
post_each job ((now, counts) ∷ calls) = post_each (post_progress now job counts) calls

abbrev is_idle : Counts → Bool
is_idle counts = counts.dlnow == 0 && counts.ulnow == 0

-- Callbacks one after the other, the first not before `since`, while neither direction is complete.
abbrev pub Throttled : ℕ → List (ℕ × Counts) → Type 0
Throttled since [] = Unit {0}
Throttled since ((now, counts) ∷ calls) =
    (since ≤ now)
    × (download_complete counts ≡ false)
    × (upload_complete counts ≡ false)
    × Throttled now calls

-- The time of the last callback, and of the last by which bytes had moved.
abbrev pub until : ℕ → List (ℕ × Counts) → ℕ
until since [] = since
until since ((now, counts) ∷ calls) = until now calls

abbrev pub moved_at : ℕ → List (ℕ × Counts) → ℕ
moved_at moved [] = moved
moved_at moved ((now, counts) ∷ calls) = moved_at (if is_idle counts then moved else now) calls

abbrev interval_of_spec : RequestSpec → ℕ
interval_of_spec spec = pos_part spec.config.progress_interval

abbrev pub interval_of : RestJob → ℕ
interval_of job = pos_part job.spec.config.progress_interval

-- Against an earlier state: each report since has taken an interval, and the last is not later than
-- `since`, and not older than the interval once bytes have moved.
record IsSpaced (start : RestJob) (since moved : ℕ) (job : RestJob) : Type 0 where
  spec : job.spec ≡ start.spec
  spaced :
      length job.outbox * interval_of start + start.last_progress_post
      ≤ length start.outbox * interval_of start + job.last_progress_post
  past : job.last_progress_post ≤ since
  fresh : moved ≤ job.last_progress_post + interval_of start

-- What the plugin hears of a callback.
abbrev pub report_of : ℕ → ℕ → Counts → TransferEvent
report_of job_id offset counts = record default_event {
  kind = EventKind.progress;
  job_id = job_id;
  downloaded = counts.dlnow + offset;
  download_total = if ltb 0 counts.dltotal then counts.dltotal + offset else 0;
  uploaded = counts.ulnow;
  upload_total = counts.ultotal;
}

abbrev pub reports_of : ℕ → ℕ → List (ℕ × Counts) → List TransferEvent
reports_of job_id offset [] = []
reports_of job_id offset ((now, counts) ∷ calls) =
    report_of job_id offset counts ∷ reports_of job_id offset calls

-- Every callback is made once the upload is complete.
abbrev pub Uploaded : List (ℕ × Counts) → Type 0
Uploaded [] = Unit {0}
Uploaded ((now, counts) ∷ calls) = (upload_complete counts ≡ true) × Uploaded calls
