-- ===== src/Job/History.antt =====
-- Whole lives of a job: the calls that the transfer thread and curl make on it, in any order.
use sm_rest.Prelude.{ℕ, List, [], ◌∷◌, Bool, Bytes}
use sm_rest.Job.State.{RestJob}
use sm_rest.Prelude.Int.{ℤ}
use sm_rest.Job.Files.{WriteAnswers}
use sm_rest.Job.Upload.{Origin, read_callback, seek_callback}
use sm_rest.Job.Receive.{header_callback, write_callback, on_stream_consumed}
use sm_rest.Job.Progress.{Counts, progress_callback}
use sm_rest.Job.Attempt.{
  BeginAnswers, TransferResult, DoneAnswers, begin_attempt, on_attempt_done, cancel,
}

pub data Call : Type 0 where
  begins : BeginAnswers → Call
  header_line : ℕ → Bytes → Call
  body_chunk : WriteAnswers → ℕ → Bytes → Call
  progresses : ℕ → Counts → Call
  reports : Bytes → Call
  reads : ℕ → ℕ → Call
  seeks : Bool → ℤ → Origin → Call
  consumes : ℕ → Call
  ends : DoneAnswers → TransferResult → Call
  cancels : Call

-- `reports` is curl writing into the error buffer.
unfoldable pub step : RestJob → Call → RestJob
step job (begins answers) = (begin_attempt answers job).0
step job (header_line status line) = (header_callback status job line).0
step job (body_chunk answers status chunk) = (write_callback answers status job chunk).0
step job (progresses now counts) = (progress_callback now job counts).0
step job (reports text) = record job { error_buffer = text }
step job (reads available size) = (read_callback available job size).0
step job (seeks seekable offset origin) = (seek_callback seekable job offset origin).0
step job (consumes count) = (on_stream_consumed job count).0
step job (ends answers result) = on_attempt_done answers result job
step job cancels = cancel job

unfoldable pub run : RestJob → List Call → RestJob
run job [] = job
run job (call ∷ calls) = run (step job call) calls
