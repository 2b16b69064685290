-- ===== src/Job/Writing.antt =====
-- What the ".part" file holds when it is opened and pieces of a body are written to it.
use sm_rest.Prelude.{
  ℕ, ◌≡◌, ◌≢◌, refl, ◌∙◌, Bool, true, false, not, ◌&&◌, Option, some, List, [], ◌∷◌, ◌++◌, arith,
  Bytes, bytes, length, join, take_whole, bytes_eq_refl, append_assoc, append-nil, is_empty, ltb,
  ◌==◌,
}
use sm_rest.Job.State.{RestJob, Disk, write_file}
use sm_rest.Job.Files.{FileAnswers, WriteAnswers, open_output_file, write_output}

-- The system takes every byte that it is handed, and reopens the file when asked.
abbrev accepts : ℕ → WriteAnswers
accepts n = record { reopens = true; accepted = n }

-- The pieces of a body, written one after the other.
unfoldable pub write_pieces : ℕ → RestJob → List Bytes → RestJob
unfolding write_output
write_pieces status job [] = job
write_pieces status job (chunk ∷ chunks) =
    write_pieces status (write_output (accepts (length chunk)) status job chunk).0 chunks

-- The part file is open, and holds `content`.
pub record Holds (job : RestJob) (content : Bytes) : Type 0 where
  pub open_part : job.output_file ≡ some (record { path = job.part_path })
  pub content_lem : job.disk job.part_path ≡ some content

pub write_file_self :
    (disk : Disk) (path : Bytes) (content : Option Bytes)
    → write_file disk path content path ≡ content
unfolding write_file
write_file_self disk path content = rw (bytes_eq_refl path)

-- No restart is due: the server resumes, or nothing was there, or it has been restarted.
abbrev settled : ℕ → RestJob → Bool
settled status job = not (status == 200 && ltb 0 job.resume_offset && not job.restarted_full_body)

write_output-Holds :
    (status : ℕ) (job : RestJob) (chunk old : Bytes)
    → Holds job old
    → settled status job ≡ true
    → let job' = (write_output (accepts (length chunk)) status job chunk).0 in
      Holds job' (old ++ chunk) × (settled status job' ≡ true) × (job'.part_path ≡ job.part_path)
unfolding write_output
write_output-Holds status job chunk old h s = ground (
  arith,
  take_whole (length chunk) chunk,
  write_file_self job.disk job.part_path (some (old ++ chunk)),
)

write_output-restarts :
    (status : ℕ) (job : RestJob) (chunk old : Bytes)
    → Holds job old
    → settled status job ≡ false
    → let job' = (write_output (accepts (length chunk)) status job chunk).0 in
      Holds job' chunk × (settled status job' ≡ true) × (job'.part_path ≡ job.part_path)
unfolding write_output
write_output-restarts status job chunk old h s = ground (
  arith,
  take_whole (length chunk) chunk,
  write_file_self job.disk job.part_path (some []),
  write_file_self (write_file job.disk job.part_path (some [])) job.part_path (some chunk),
)

pub write_pieces-Holds :
    (status : ℕ) (job : RestJob) (chunks : List Bytes) (old : Bytes)
    → Holds job old
    → settled status job ≡ true
    → Holds (write_pieces status job chunks) (old ++ join chunks)
      × ((write_pieces status job chunks).part_path ≡ job.part_path)
unfolding write_pieces
write_pieces-Holds status job [] old h s = (rw (append-nil old) h, refl)
write_pieces-Holds status job (chunk ∷ chunks) old h s =
    let one = write_output-Holds status job chunk old h s in
    let rest =
      write_pieces-Holds status (write_output (accepts (length chunk)) status job chunk).0 chunks
        (old ++ chunk) one.0 one.1 in
    (rw (← append_assoc old chunk (join chunks)) rest.0, rest.1 ∙ one.2)

pub write_pieces-restarts :
    (status : ℕ) (job : RestJob) (chunk : Bytes) (chunks : List Bytes) (old : Bytes)
    → Holds job old
    → settled status job ≡ false
    → Holds (write_pieces status job (chunk ∷ chunks)) (chunk ++ join chunks)
unfolding write_pieces
write_pieces-restarts status job chunk chunks old h s =
    let one = write_output-restarts status job chunk old h s in
    (write_pieces-Holds status (write_output (accepts (length chunk)) status job chunk).0 chunks
      chunk one.0 one.1).0

pub settled_ignored :
    (status : ℕ) (job : RestJob)
    → (status == 200) ≡ true
    → ltb 0 job.resume_offset ≡ true
    → job.restarted_full_body ≡ false
    → settled status job ≡ false
settled_ignored status job e r f = ground arith

pub settled_honoured :
    (status : ℕ) (job : RestJob) → (status == 200) ≡ false → settled status job ≡ true
settled_honoured status job e = rw e

-- The answers of a system on which every file opens.
abbrev pub all_open : FileAnswers
all_open = record { upload_opens = true; output_opens = true }

abbrev pub part_of : RestJob → Bytes
part_of job = job.spec.output_path ++ bytes ".part"

-- A download resumes where the part file ends.
pub open_output_file-resumes :
    (job : RestJob) (old : Bytes)
    → is_empty job.spec.output_path ≡ false
    → job.spec.resume ≡ true
    → job.disk (part_of job) ≡ some old
    → old ≢ []
    → let job' = (open_output_file all_open job).0 in
      Holds job' old
      × (job'.part_path ≡ part_of job)
      × (ltb 0 job'.resume_offset ≡ true)
      × (job'.restarted_full_body ≡ job.restarted_full_body)
      × (job'.spec ≡ job.spec)
unfolding open_output_file
open_output_file-resumes job [] e r d n = absurd (n refl)
open_output_file-resumes job (c ∷ old) e r d n = ground arith

pub write_pieces-spec :
    (status : ℕ) (job : RestJob) (chunks : List Bytes)
    → (write_pieces status job chunks).spec ≡ job.spec
unfolding write_pieces write_output
write_pieces-spec status job [] = refl
write_pieces-spec status job (chunk ∷ chunks) =
    write_pieces-spec status (write_output (accepts (length chunk)) status job chunk).0 chunks
    ∙ ground arith
