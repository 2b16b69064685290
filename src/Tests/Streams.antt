-- ===== src/Tests/Streams.antt =====
-- Streaming jobs at concrete inputs.
use sm_rest.Prelude.{
  ◌≡◌, refl, inl, true, false, ◌&&◌, [], ◌++◌, arith, Bytes, bytes, length, ◌+◌, ◌<◌, is_empty,
}
use sm_rest.Request.{RequestSpec, default_spec}
use sm_rest.Job.State.{RestJob, new_job, set_options}
use sm_rest.Job.Options.{apply_body, apply_method, apply_auth, apply_common_options, build_headers}
use sm_rest.Job.Files.{open_files, open_upload_file, open_output_file}
use sm_rest.Job.Receive.{write_callback, sink_for, write_stream, on_stream_consumed, is_success}
use sm_rest.Job.Attempt.{
  begin_attempt, reset_attempt_state, add_handle, configure, CurlCode, on_attempt_done,
}
use sm_rest.Job.History.{Call, begins, body_chunk, consumes, step}
use sm_rest.Job.Streaming.{streamed, taken}
use sm_rest.Job.Delivery.{Trace}
use sm_rest.Job.Delivery.Bounded.{Life, stream_bounded}
use sm_rest.Job.Delivery.Backed.{stream_limit}
use sm_rest.Job.Delivery.Whole.{stream_exact, stream_complete}
use sm_rest.Tests.Jobs.{no_files, begin_answers, done_answers, result_of}

abbrev streaming : RequestSpec
streaming = record default_spec { stream_data = true }

abbrev ready : RestJob
ready = new_job no_files streaming

abbrev begun : RestJob
begun = step ready (begins begin_answers)

abbrev first_piece : Call
first_piece = body_chunk (record { reopens = true; accepted = 3 }) 200 (bytes "abc")

abbrev received : RestJob
received = step begun first_piece

abbrev got : Bytes
got = taken begun first_piece []

begun-attached : begun.attached ≡ true
unfolding step new_job begin_attempt reset_attempt_state open_files open_upload_file
    open_output_file add_handle
begun-attached = refl

received-facts :
    (received.attached ≡ true)
    × (received.cancel_requested ≡ false)
    × (is_empty received.spec.output_path ≡ true)
    × (received.finished ≡ false)
unfolding step new_job begin_attempt reset_attempt_state open_files open_upload_file
    open_output_file add_handle write_callback sink_for write_stream is_success configure
    set_options apply_body apply_method apply_auth apply_common_options build_headers
received-facts = (refl, refl, refl, refl)

begun-Trace : Trace ready begun []
unfolding new_job
begun-Trace = Trace.next Trace.here (begins begin_answers) (refl, refl, inl refl)

received-Trace : Trace ready received got
received-Trace = Trace.next begun-Trace first_piece begun-attached

stream_exact_example : streamed received.outbox ++ received.stream_buffer ≡ got
unfolding new_job
stream_exact_example = stream_exact no_files streaming refl received-Trace

stream_complete_example :
    streamed (on_attempt_done done_answers (result_of CurlCode.ok 200) received).outbox ≡ got
unfolding new_job is_success
stream_complete_example =
    stream_complete no_files streaming done_answers (result_of CurlCode.ok 200) refl received-Trace
      received-facts.0 received-facts.1 received-facts.2 refl refl

-- The two calls, and the plugin's consumption of two bytes.
consumed-Life : Life 16384 ready (step received (consumes 2)) got 2
unfolding new_job
consumed-Life =
    let begun-Life = Life.next Life.here (begins begin_answers) (refl, refl, inl refl) tt in
    let received-Life = Life.next begun-Life first_piece begun-attached (omega arith) in
    Life.next received-Life (consumes 2) received-facts.3 tt

stream_bounded_example :
    let job = step received (consumes 2) in
    (length (streamed job.outbox) + length job.stream_buffer < 2 + stream_limit 16384 streaming)
    × ((on_stream_consumed job job.pending_stream_bytes).1 ≡ (job.paused && job.attached))
stream_bounded_example = stream_bounded 16384 no_files streaming refl consumed-Life
