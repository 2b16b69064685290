-- ===== src/Job/Files.antt =====
-- The files of a job (src/job.cpp): the upload, and the ".part" file of a download.
use sm_rest.Prelude.{
  ℕ, ◌+◌, Bool, true, false, not, ◌&&◌, none, some, [], ◌++◌, Bytes, bytes, is_empty, length, take,
  if◌then◌else◌, ltb, ◌==◌,
}
use sm_rest.Prelude.Int.{ℤ, pos, negsuc, pos_part, ltb_ℤ}
use sm_rest.Request.{BodyKind}
use sm_rest.Job.State.{RestJob, Disk, write_file, file_size_of}

-- What the operating system answers in `OpenFiles`: whether each `fopen` succeeds.
pub record FileAnswers : Type 0 where
  pub upload_opens : Bool
  pub output_opens : Bool

abbrev pub is_file_body : BodyKind → Bool
is_file_body BodyKind.file = true
is_file_body _ = false

-- `fopen(path, "ab")` keeps what the file holds.
unfoldable pub open_append : Disk → Bytes → Disk
open_append disk path = elim (disk path) [
  | none ↦ write_file disk path (some [])
  | some content ↦ disk
]

unfoldable pub open_upload_file : FileAnswers → RestJob → RestJob × Bool
unfolding file_size_of
open_upload_file answers job =
    if not (is_file_body job.spec.body_kind)
    then (job, true)
    else if not answers.upload_opens
    then (record job { upload_file = none }, false)
    else (
      record job {
        upload_file = some (record { path = job.spec.body_file_path; position = 0 });
        upload_size =
            let size = file_size_of job.disk job.spec.body_file_path in
            if ltb_ℤ size (pos 0) then 0 else pos_part size;
      },
      true,
    )

-- The file is opened as asked, and its handle kept if that succeeds.
open_part : RestJob → Bool → ℤ → RestJob × Bool
open_part job opens existing =
    let handle = if opens then some (record { path = job.part_path }) else none in
    if ltb_ℤ (pos 0) existing
    then (
      record job {
        output_file = handle;
        disk = if opens then open_append job.disk job.part_path else job.disk;
        resume_offset = pos_part existing;
      },
      opens,
    )
    else (
      record job {
        output_file = handle;
        disk = if opens then write_file job.disk job.part_path (some []) else job.disk;
        resume_offset = 0;
      },
      opens,
    )

unfoldable pub open_output_file : FileAnswers → RestJob → RestJob × Bool
unfolding open_part open_append file_size_of
open_output_file answers job =
    if is_empty job.spec.output_path
    then (job, true)
    else let named = record job { part_path = job.spec.output_path ++ bytes ".part" } in
      open_part named answers.output_opens
        (if job.spec.resume then file_size_of job.disk named.part_path else negsuc 0)

unfoldable pub open_files : FileAnswers → RestJob → RestJob × Bool
open_files answers job =
    let (uploading, opened) = open_upload_file answers job in
    if not opened then (uploading, false) else open_output_file answers uploading

unfoldable pub close_files : RestJob → RestJob
close_files job = record job { upload_file = none; output_file = none }

-- `fwrite` of `total` bytes, of which the system takes `accepted`, at the end of the open file.
append_output : RestJob → Bytes → Disk
append_output job chunk = elim job.output_file [
  | none ↦ job.disk
  | some file ↦ elim (job.disk file.path) [
    | none ↦ job.disk
    | some content ↦ write_file job.disk file.path (some (content ++ chunk))
  ]
]

-- What the system answers in one `WriteFile`: whether `freopen` succeeds, and how many bytes
-- `fwrite` takes.
pub record WriteAnswers : Type 0 where
  pub reopens : Bool
  pub accepted : ℕ

write_open : RestJob → Bytes → RestJob × ℕ
write_open job chunk = (
  record job { disk = append_output job chunk; body_length = job.body_length + length chunk },
  length chunk,
)

-- The body follows the old part of the file, unless the server sends it all again: then the file
-- is emptied first.
unfoldable pub write_output : WriteAnswers → ℕ → RestJob → Bytes → RestJob × ℕ
unfolding write_open append_output
write_output answers status job chunk =
    let written = take answers.accepted chunk in
    let restarted = record job { restarted_full_body = true; resume_offset = 0 } in
    if status == 200 && ltb 0 job.resume_offset && not job.restarted_full_body
    then if answers.reopens
      then write_open
          (record restarted {
            disk = write_file job.disk job.part_path (some []);
            output_file = some (record { path = job.part_path });
          })
          written
      else (record restarted { output_file = none }, 0)
    else write_open job written
