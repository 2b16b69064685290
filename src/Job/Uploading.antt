-- ===== src/Job/Uploading.antt =====
-- What curl reads of an upload is the file.
use sm_rest.Prelude.{
  ℕ, ◌+◌, ◌≡◌, refl, sym, ap, ◌∙◌, true, List, [], ◌∷◌, ◌++◌, append_assoc, append-nil, some, arith,
  Bytes, length, length-append, take, drop, take-append-drop-length, drop-drop, min,
}
use sm_rest.Prelude.Int.{pos, ◌+ℤ◌}
use sm_rest.Job.State.{RestJob, file_size_of}
use sm_rest.Job.Files.{FileAnswers, is_file_body, open_upload_file}
use sm_rest.Job.Upload.{ReadResult, aborts, gives, read_callback, Origin, seek_ok, seek_callback}

abbrev given : ReadResult → Bytes
given aborts = []
given (gives part) = part

-- Reads one after the other, each with what the file gives at once and the room there is, and all
-- that they give.
unfoldable pub read_all : RestJob → List (ℕ × ℕ) → RestJob × Bytes
unfolding read_callback
read_all job [] = (job, [])
read_all job ((available, size) ∷ reads) =
    let here = read_callback available job size in
    let later = read_all here.0 reads in (later.0, given here.1 ++ later.1)

-- The upload is a file of that content, read up to a place.
abbrev IsAt : Bytes → Bytes → ℕ → RestJob → Type 0
IsAt path content position job =
    (job.upload_file ≡ some (record { path = path; position = position }))
    × (job.disk path ≡ some content)

abbrev part_at : Bytes → ℕ → ℕ → ℕ → Bytes
part_at content position available size = take (min size available) (drop position content)

read_callback-IsAt :
    (path content : Bytes) (position available size : ℕ) (job : RestJob)
    → IsAt path content position job
    → let part = part_at content position available size in
      let after = read_callback available job size in
      IsAt path content (position + length part) after.0 × (after.1 ≡ gives part)
unfolding read_callback
read_callback-IsAt path content position available size job h = rw (h.0, h.1) ((refl, refl), refl)

-- What reads give goes before what is still to be read.
read_all-IsAt :
    (path content : Bytes) (position : ℕ) (job : RestJob) (reads : List (ℕ × ℕ))
    → IsAt path content position job
    → let after = read_all job reads in
      IsAt path content (position + length after.1) after.0
      × (after.1 ++ drop (position + length after.1) content ≡ drop position content)
unfolding read_all
read_all-IsAt path content position job [] h =
    let same : position + 0 ≡ position = omega arith in
    ((rw (same) h.0, h.1), ap (λ k. drop k content) same)
read_all-IsAt path content position job ((available, size) ∷ reads) h =
    let part = part_at content position available size in
    let here = read_callback-IsAt path content position available size job h in
    let next = (read_callback available job size).0 in
    let rest = (read_all next reads).1 in
    let later = read_all-IsAt path content (position + length part) next reads here.0 in
    let far : position + length (part ++ rest) ≡ position + length part + length rest =
      omega (arith, length-append part rest) in
    rw (here.1) (
      (rw (far) later.0.0, later.0.1),
      append_assoc part rest (drop (position + length (part ++ rest)) content)
          ∙ ap (λ k. part ++ (rest ++ drop k content)) far
          ∙ ap (λ ys. part ++ ys) later.1
          ∙ ap (λ ys. part ++ ys) (sym (drop-drop (length part) position content))
          ∙ take-append-drop-length (min size available) (drop position content),
    )

open_upload_file-IsAt :
    (answers : FileAnswers) (job : RestJob) (content : Bytes)
    → is_file_body job.spec.body_kind ≡ true
    → answers.upload_opens ≡ true
    → job.disk job.spec.body_file_path ≡ some content
    → let opened = (open_upload_file answers job).0 in
      IsAt job.spec.body_file_path content 0 opened × (opened.upload_size ≡ length content)
unfolding open_upload_file file_size_of
open_upload_file-IsAt answers job content kind opens stored =
    let sized : file_size_of job.disk job.spec.body_file_path ≡ pos (length content) =
      rw (file_size_of, stored) refl in
    ground (arith, sized, kind, opens, stored)

-- `rewind`, as curl asks for it before it sends a body again.
rewind-IsAt :
    (path content : Bytes) (position : ℕ) (job : RestJob)
    → IsAt path content position job
    → let after = seek_callback true job (pos 0) Origin.set in
      IsAt path content 0 after.0 × (after.1 ≡ seek_ok)
unfolding seek_callback ◌+ℤ◌
rewind-IsAt path content position job h = rw (h.0, h.1) ((refl, refl), refl)

empty_part : (rest : Bytes) → gives (take (min 1 1) rest) ≡ gives [] → rest ≡ []
empty_part [] h = refl
empty_part (x ∷ xs) h = absurd cc

-- A request that sends a file opens it. However much of it curl has read, after a rewind it can read
-- it all again: once a read at the file's end gives nothing, the reads since the rewind have given
-- the content of the file, byte for byte, and as many bytes as were announced.
pub upload_whole :
    (answers : FileAnswers) (job : RestJob) (content : Bytes) (reads again : List (ℕ × ℕ))
    → is_file_body job.spec.body_kind ≡ true
    → answers.upload_opens ≡ true
    → job.disk job.spec.body_file_path ≡ some content
    → (let before = (read_all (open_upload_file answers job).0 reads).0 in
        let after = (read_all (seek_callback true before (pos 0) Origin.set).0 again).0 in
        (read_callback 1 after 1).1 ≡ gives [])
    → let opened = (open_upload_file answers job).0 in
      let rewound = seek_callback true (read_all opened reads).0 (pos 0) Origin.set in
      (rewound.1 ≡ seek_ok)
      × ((read_all rewound.0 again).1 ≡ content)
      × (opened.upload_size ≡ length content)
upload_whole answers job content reads again kind opens stored at_end =
    let path = job.spec.body_file_path in
    let opened = open_upload_file-IsAt answers job content kind opens stored in
    let before = read_all-IsAt path content 0 (open_upload_file answers job).0 reads opened.0 in
    let rewound = rewind-IsAt path content _ _ before.0 in
    let after = read_all-IsAt path content 0 _ again rewound.0 in
    let last = read_callback-IsAt path content _ 1 1 _ after.0 in
    let bytes_again =
      (read_all
        (seek_callback true (read_all (open_upload_file answers job).0 reads).0 (pos 0)
          Origin.set).0
        again).1 in
    let nothing = empty_part _ (sym last.1 ∙ at_end) in
    (
      rewound.1,
      sym (append-nil bytes_again) ∙ sym (ap (λ ys. bytes_again ++ ys) nothing) ∙ after.1,
      opened.1,
    )
