-- ===== src/Tests/Lives.antt =====
-- Whole lives of jobs at concrete inputs.
use sm_rest.Prelude.{false, ◌≡◌, ◌<◌, ◌*◌, ◌⊎◌, refl, inl, List, [], ◌∷◌, if◌then◌else◌}
use sm_rest.Request.{default_spec}
use sm_rest.Job.State.{new_job, set_options}
use sm_rest.Job.Files.{open_files, open_upload_file, open_output_file}
use sm_rest.Job.Options.{build_headers, apply_common_options, apply_auth, apply_method, apply_body}
use sm_rest.Job.Attempt.{CurlCode, begin_attempt, reset_attempt_state, add_handle, configure}
use sm_rest.Job.Finish.{completion, finish}
use sm_rest.Job.History.{Call, begins, ends, cancels, step, run}
use sm_rest.Job.Completion.{weigh, completions, completes_once}
use sm_rest.Job.Phases.{IsSound, Reach, Reach-IsSound, attempt_limit}
use sm_rest.Job.Turns.{turns, MayBegin, MayEnd, unfinished_goes_on}
use sm_rest.Tests.Jobs.{no_files, begin_answers, done_answers, result_of}

-- A first attempt that is answered by 503, and a second that ends well; then the job is cancelled.
abbrev retried : List Call
retried =
    begins begin_answers
    ∷ ends done_answers (result_of CurlCode.ok 503)
    ∷ begins begin_answers
    ∷ ends done_answers (result_of CurlCode.ok 200)
    ∷ cancels
    ∷ []

completes_once_example :
    completions (run (new_job no_files default_spec) retried).outbox
    ≡ (if (run (new_job no_files default_spec) retried).finished then 1 else 0)
completes_once_example = completes_once no_files default_spec retried

-- No handle can be made: the job ends at once.
abbrev without_handle : List Call
without_handle = begins (record begin_answers { easy_init = false }) ∷ []

without_handle_once : completions (run (new_job no_files default_spec) without_handle).outbox ≡ 1
unfolding run step weigh new_job begin_attempt reset_attempt_state finish completion
without_handle_once = refl

begun_once :
    Reach
      (new_job no_files default_spec)
      (step (new_job no_files default_spec) (begins begin_answers))
unfolding new_job
begun_once = Reach.next Reach.here (begins begin_answers) (refl, refl, inl refl)

Reach-IsSound_example : IsSound (step (new_job no_files default_spec) (begins begin_answers))
Reach-IsSound_example = Reach-IsSound no_files default_spec begun_once

begun_unfinished : (step (new_job no_files default_spec) (begins begin_answers)).finished ≡ false
unfolding step new_job begin_attempt reset_attempt_state open_files open_upload_file
    open_output_file add_handle configure set_options apply_body apply_method apply_auth
    apply_common_options build_headers
begun_unfinished = refl

unfinished_goes_on_example :
    let job = step (new_job no_files default_spec) (begins begin_answers) in
    (turns begun_once < 2 * attempt_limit (new_job no_files default_spec))
    × (MayBegin job ⊎ MayEnd job)
unfinished_goes_on_example = unfinished_goes_on no_files default_spec begun_once begun_unfinished
