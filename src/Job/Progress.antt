-- ===== src/Job/Progress.antt =====
-- `ProgressCallback` and `PostProgress` (src/job.cpp). The byte counts that curl reports are not
-- negative; times are milliseconds of the steady clock.
use sm_rest.Prelude.{ℕ, ◌+◌, ◌-◌, Bool, true, false, not, ◌&&◌, if◌then◌else◌, ltb, leb, ◌==◌}
use sm_rest.Prelude.Int.{pos, ltb_ℤ}
use sm_rest.Queue.{EventKind, TransferEvent, default_event}
use sm_rest.Job.State.{RestJob}
use sm_rest.Job.Finish.{post_event}

pub record Counts : Type 0 where
  pub dltotal : ℕ
  pub dlnow : ℕ
  pub ultotal : ℕ
  pub ulnow : ℕ

abbrev pub download_complete : Counts → Bool
download_complete counts = ltb 0 counts.dltotal && leb counts.dltotal counts.dlnow

abbrev pub upload_complete : Counts → Bool
upload_complete counts = ltb 0 counts.ultotal && leb counts.ultotal counts.ulnow

-- Bytes that an earlier run left in the file count as downloaded.
unfoldable pub progress_event : RestJob → Counts → TransferEvent
progress_event job counts = record default_event {
  kind = EventKind.progress;
  job_id = job.spec.id;
  downloaded = counts.dlnow + job.resume_offset;
  download_total = if ltb 0 counts.dltotal then counts.dltotal + job.resume_offset else 0;
  uploaded = counts.ulnow;
  upload_total = counts.ultotal;
}

unfoldable pub post_progress : ℕ → RestJob → Counts → RestJob
post_progress now job counts =
    if counts.dlnow == 0 && counts.ulnow == 0
    then job
    else if not (download_complete counts)
        && not (upload_complete counts)
        && ltb_ℤ (pos (now - job.last_progress_post)) job.spec.config.progress_interval
    then job
    else post_event (record job { last_progress_post = now }) (progress_event job counts)

-- The second part is what curl is told: whether to abort.
unfoldable pub progress_callback : ℕ → RestJob → Counts → RestJob × Bool
progress_callback now job counts =
    if job.cancel_requested then (job, true) else (post_progress now job counts, false)
