-- ===== src/Job/Upload.antt =====
-- How curl reads the file that a request sends (`ReadCallback`, `SeekCallback` of src/job.cpp).
use sm_rest.Prelude.{
  ℕ, ◌+◌, min, Bool, not, ◌||◌, none, some, [], Bytes, length, take, drop, if◌then◌else◌,
}
use sm_rest.Prelude.Int.{ℤ, pos, pos_part, ◌+ℤ◌, ltb_ℤ}
use sm_rest.Job.State.{RestJob, UploadFile}

-- `CURL_READFUNC_ABORT`, or the bytes that are put into the buffer.
pub data ReadResult : Type 0 where
  aborts : ReadResult
  gives : Bytes → ReadResult

abbrev pub content_of : RestJob → UploadFile → Bytes
content_of job file = elim (job.disk file.path) [ none ↦ [] | some content ↦ content ]

read_open : ℕ → RestJob → ℕ → UploadFile → RestJob × ReadResult
read_open available job size file =
    let part = take (min size available) (drop file.position (content_of job file)) in
    (
      record job { upload_file = some (record file { position = file.position + length part }) },
      gives part,
    )

-- `size` is the room in the buffer, and `available` what `fread` gets of the file at once, at most.
unfoldable pub read_callback : ℕ → RestJob → ℕ → RestJob × ReadResult
unfolding read_open
read_callback available job size = elim job.upload_file [
  | none ↦ (job, aborts)
  | some file ↦ read_open available job size file
]

-- `SEEK_SET`, `SEEK_CUR` and `SEEK_END`.
pub data Origin : Type 0 where
  set current end : Origin

abbrev origin_of : RestJob → UploadFile → Origin → ℕ
origin_of job file Origin.set = 0
origin_of job file Origin.current = file.position
origin_of job file Origin.end = length (content_of job file)

pub data SeekResult : Type 0 where
  seek_ok cant_seek : SeekResult

-- `fseeko`, which fails where the system says so, and for a place in front of the file.
seek_open : Bool → RestJob → ℤ → Origin → UploadFile → RestJob × SeekResult
unfolding ◌+ℤ◌
seek_open seekable job offset origin file =
    let target = pos (origin_of job file origin) +ℤ offset in
    if not seekable || ltb_ℤ target (pos 0)
    then (job, cant_seek)
    else (record job { upload_file = some (record file { position = pos_part target }) }, seek_ok)

unfoldable pub seek_callback : Bool → RestJob → ℤ → Origin → RestJob × SeekResult
unfolding seek_open
seek_callback seekable job offset origin = elim job.upload_file [
  | none ↦ (job, cant_seek)
  | some file ↦ seek_open seekable job offset origin file
]
