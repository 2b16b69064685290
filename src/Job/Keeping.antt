-- ===== src/Job/Keeping.antt =====
-- What curl calls back with while it has a job, and the consumption of its stream, leave its phase
-- alone.
use sm_rest.Prelude.{ℕ, ◌≡◌, Bool, arith, Bytes}
use sm_rest.Prelude.Int.{ℤ}
use sm_rest.Job.State.{RestJob}
use sm_rest.Job.Files.{WriteAnswers, write_output}
use sm_rest.Job.Receive.{
  on_header_line, on_headers_complete, write_callback, write_memory, write_stream, flush_stream,
  on_stream_consumed,
}
use sm_rest.Job.Upload.{Origin, read_callback, seek_callback}
use sm_rest.Job.Progress.{Counts, progress_callback, post_progress}

-- The fields that soundness is about are as they were.
abbrev pub Keeps : RestJob → RestJob → Type 0
Keeps before after =
    (after.finished ≡ before.finished)
    × (after.attached ≡ before.attached)
    × (after.waiting_for_retry ≡ before.waiting_for_retry)
    × (after.easy ≡ before.easy)
    × (after.attempt ≡ before.attempt)
    × (after.spec ≡ before.spec)

pub header_line-Keeps :
    (status : ℕ) (job : RestJob) (line : Bytes) → Keeps job (on_header_line status job line)
unfolding on_header_line on_headers_complete
header_line-Keeps status job line = ground arith

write_stream-Keeps : (job : RestJob) (chunk : Bytes) → Keeps job (write_stream job chunk).0
unfolding write_stream
write_stream-Keeps job chunk = ground arith

write_output-Keeps :
    (answers : WriteAnswers) (status : ℕ) (job : RestJob) (chunk : Bytes)
    → Keeps job (write_output answers status job chunk).0
unfolding write_output
write_output-Keeps answers status job chunk = ground arith

write_memory-Keeps : (job : RestJob) (chunk : Bytes) → Keeps job (write_memory job chunk).0
unfolding write_memory
write_memory-Keeps job chunk = ground arith

pub write_callback-Keeps :
    (answers : WriteAnswers) (status : ℕ) (job : RestJob) (chunk : Bytes)
    → Keeps job (write_callback answers status job chunk).0
unfolding write_callback
write_callback-Keeps answers status job chunk = ground (
  arith,
  write_stream-Keeps job chunk,
  write_output-Keeps answers status job chunk,
  write_memory-Keeps job chunk,
)

pub progress_callback-Keeps :
    (now : ℕ) (job : RestJob) (counts : Counts) → Keeps job (progress_callback now job counts).0
unfolding progress_callback post_progress
progress_callback-Keeps now job counts = ground arith

pub read_callback-Keeps :
    (available : ℕ) (job : RestJob) (size : ℕ) → Keeps job (read_callback available job size).0
unfolding read_callback
read_callback-Keeps available job size = ground arith

pub seek_callback-Keeps :
    (seekable : Bool) (job : RestJob) (offset : ℤ) (origin : Origin)
    → Keeps job (seek_callback seekable job offset origin).0
unfolding seek_callback
seek_callback-Keeps seekable job offset origin = ground arith

pub consumed-Keeps : (job : RestJob) (count : ℕ) → Keeps job (on_stream_consumed job count).0
unfolding on_stream_consumed
consumed-Keeps job count = ground arith

pub flush_stream-Keeps : (job : RestJob) → Keeps job (flush_stream job)
unfolding flush_stream
flush_stream-Keeps job = ground arith
