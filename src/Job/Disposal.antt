-- ===== src/Job/Disposal.antt =====
-- The end of a job's object (`~RestJob` in src/job.cpp).
use sm_rest.Prelude.{◌≡◌, refl, ◌&&◌, ◌||◌, true, false, none, [], arith}
use sm_rest.Request.{RequestSpec}
use sm_rest.Job.State.{RestJob, Disk, new_job}
use sm_rest.Job.Files.{close_files}
use sm_rest.Job.Phases.{Reach, Reach-IsSound}

-- The files are closed, and the header list, the mime parts and the handle freed where there are any.
unfoldable pub destroy : RestJob → RestJob
unfolding close_files
destroy job = record (close_files job) { header_list = []; mime = none; easy = none }

-- A job that the transfer thread removes, because it is finished, is destroyed with a handle that
-- curl no longer has, and leaves neither a handle nor an open file.
pub destroy_detached :
    (disk : Disk) (spec : RequestSpec) {job : RestJob}
    → Reach (new_job disk spec) job
    → job.finished ≡ true
    → (job.attached ≡ false)
      × ((destroy job).easy ≡ none)
      × ((destroy job).upload_file ≡ none)
      × ((destroy job).output_file ≡ none)
unfolding destroy close_files
destroy_detached disk spec {job} r finished =
    let sound = Reach-IsSound disk spec r in (detached sound.done, refl, refl, refl)
  where
    detached :
        (job.finished && (job.attached || job.waiting_for_retry)) ≡ false → job.attached ≡ false
    detached done = ground arith
