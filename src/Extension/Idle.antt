-- ===== src/Extension/Idle.antt =====
-- Which records an event is being handed over for: at most the one of that event.
use sm_rest.Prelude.{
  ℕ, ◌≡◌, refl, ap, ◌∙◌, if_map, if_out, Bool, true, false, not, ◌&&◌, List, [], ◌∷◌, Option, none,
  some, arith, ◌==◌, Bool-cases, inl, inr,
}
use sm_rest.Thread.{TransferThread, request_cancel}
use sm_rest.Extension.{JobRecord, JobMap, find, erase, assign, drop_jobs, release_record}
use sm_rest.Extension.Table.{find-assign, drop_jobs_cases}

-- A key has one record.
abbrev pub Distinct : JobMap → Type 0
Distinct [] = Unit {0}
Distinct ((key, entry) ∷ jobs) = (find jobs key ≡ none) × Distinct jobs

abbrev pub is_busy : Option ℕ → ℕ → Bool
is_busy none key = false
is_busy (some job_id) key = key == job_id

-- No record but the busy one is marked as being handed an event.
abbrev pub IdleBut : Option ℕ → JobMap → Type 0
IdleBut busy [] = Unit {0}
IdleBut busy ((key, entry) ∷ jobs) =
    ((entry.dispatching && not (is_busy busy key)) ≡ false) × IdleBut busy jobs

pub assign-Distinct :
    (jobs : JobMap) (key : ℕ) (new : JobRecord) → Distinct jobs → Distinct (assign jobs key new)
unfolding assign find
assign-Distinct [] key new d = (refl, tt)
assign-Distinct ((other, entry) ∷ jobs) key new d =
    ground (arith, find-assign jobs key other new, assign-Distinct jobs key new d.1)

pub find-erase :
    (jobs : JobMap) (key other : ℕ) → find jobs other ≡ none → find (erase jobs key) other ≡ none
unfolding find erase
find-erase [] key other h = refl
find-erase ((first, entry) ∷ jobs) key other h = ground (arith, find-erase jobs key other)

pub erase-Distinct : (jobs : JobMap) (key : ℕ) → Distinct jobs → Distinct (erase jobs key)
unfolding erase
erase-Distinct [] key d = tt
erase-Distinct ((other, entry) ∷ jobs) key d =
    ground (arith, find-erase jobs key other d.0, erase-Distinct jobs key d.1)

pub find-drop_jobs :
    (test : JobRecord → Bool) (jobs : JobMap) (thread : TransferThread) (released : List ℕ)
    (key : ℕ)
    → find jobs key ≡ none
    → find (drop_jobs test jobs (thread, released)).0 key ≡ none
unfolding find drop_jobs
find-drop_jobs test [] thread released key h = refl
find-drop_jobs test ((other, entry) ∷ jobs) thread released key h =
    let rest = λ (thread' : TransferThread) (released' : List ℕ).
      find-drop_jobs test jobs thread' released' key in
    drop_jobs_cases (λ r. find r.0 key ≡ none) test other entry jobs thread released
      (if_map (λ found. found ≡ none) (other == key) h (λ here. here) (rest thread released))
      (λ busy.
        if_map (λ found. found ≡ none) (other == key) h (λ here. absurd cc)
          (rest (request_cancel thread other) released))
      (λ idle.
        if_out (λ found. found ≡ none) (other == key) h (λ here. absurd cc)
          (rest (request_cancel thread other) (release_record released entry)))

pub drop_jobs-Distinct :
    (test : JobRecord → Bool) (jobs : JobMap) (thread : TransferThread) (released : List ℕ)
    → Distinct jobs
    → Distinct (drop_jobs test jobs (thread, released)).0
unfolding drop_jobs
drop_jobs-Distinct test [] thread released d = tt
drop_jobs-Distinct test ((key, entry) ∷ jobs) thread released d =
    drop_jobs_cases (λ r. Distinct r.0) test key entry jobs thread released
      (find-drop_jobs test jobs _ _ key d.0, drop_jobs-Distinct test jobs _ _ d.1)
      (λ busy. (find-drop_jobs test jobs _ _ key d.0, drop_jobs-Distinct test jobs _ _ d.1))
      (λ idle. drop_jobs-Distinct test jobs _ _ d.1)

pub assign-IdleBut :
    (busy : Option ℕ) (jobs : JobMap) (key : ℕ) (new : JobRecord)
    → (new.dispatching && not (is_busy busy key)) ≡ false
    → IdleBut busy jobs
    → IdleBut busy (assign jobs key new)
unfolding assign
assign-IdleBut busy [] key new h idle = (h, tt)
assign-IdleBut none ((other, entry) ∷ jobs) key new h idle =
    ground (arith, h, assign-IdleBut none jobs key new h idle.1)
assign-IdleBut (some job_id) ((other, entry) ∷ jobs) key new h idle =
    ground (arith, h, assign-IdleBut (some job_id) jobs key new h idle.1)

pub erase-IdleBut :
    (busy : Option ℕ) (jobs : JobMap) (key : ℕ) → IdleBut busy jobs → IdleBut busy (erase jobs key)
unfolding erase
erase-IdleBut busy [] key idle = tt
erase-IdleBut busy ((other, entry) ∷ jobs) key idle =
    ground (arith, erase-IdleBut busy jobs key idle.1)

pub drop_jobs-IdleBut :
    (busy : Option ℕ) (test : JobRecord → Bool) (jobs : JobMap) (thread : TransferThread)
    (released : List ℕ)
    → IdleBut busy jobs
    → IdleBut busy (drop_jobs test jobs (thread, released)).0
unfolding drop_jobs
drop_jobs-IdleBut busy test [] thread released idle = tt
drop_jobs-IdleBut busy test ((key, entry) ∷ jobs) thread released idle =
    drop_jobs_cases (λ r. IdleBut busy r.0) test key entry jobs thread released
      (idle.0, drop_jobs-IdleBut busy test jobs _ _ idle.1)
      (λ marked. (idle.0, drop_jobs-IdleBut busy test jobs _ _ idle.1))
      (λ freed. drop_jobs-IdleBut busy test jobs _ _ idle.1)

-- An event begins to be handed over.
pub enter-IdleBut : (busy : Option ℕ) (jobs : JobMap) → IdleBut none jobs → IdleBut busy jobs
enter-IdleBut busy [] idle = tt
enter-IdleBut busy ((key, entry) ∷ jobs) idle =
    (ground (arith, idle.0), enter-IdleBut busy jobs idle.1)

-- The hand-over ends: the record is gone, put back or erased.
pub leave-IdleBut :
    (job_id : ℕ) (jobs : JobMap)
    → find jobs job_id ≡ none
    → IdleBut (some job_id) jobs
    → IdleBut none jobs
unfolding find
leave-IdleBut job_id [] gone idle = tt
leave-IdleBut job_id ((key, entry) ∷ jobs) gone idle =
    ground (arith, gone, leave-IdleBut job_id jobs)

there :
    (key job_id : ℕ) (jobs : JobMap)
    → (key == job_id) ≡ true
    → find jobs key ≡ none
    → find jobs job_id ≡ none
there key job_id jobs same gone =
    let equal : job_id ≡ key = ground (arith, same) in ap (find jobs) equal ∙ gone

pub leave_assigned :
    (job_id : ℕ) (jobs : JobMap) (new : JobRecord)
    → new.dispatching ≡ false
    → Distinct jobs
    → IdleBut (some job_id) jobs
    → IdleBut none (assign jobs job_id new)
unfolding assign
leave_assigned job_id [] new h d idle = (ground (arith, h), tt)
leave_assigned job_id ((key, entry) ∷ jobs) new h d idle = elim (Bool-cases (key == job_id)) [
  | inl same ↦
      rw (same)
        (ground (arith, h), leave-IdleBut job_id jobs (there key job_id jobs same d.0) idle.1)
  | inr differs ↦
      rw (differs) (ground (arith, differs, idle.0), leave_assigned job_id jobs new h d.1 idle.1)
]

pub leave_erased :
    (job_id : ℕ) (jobs : JobMap)
    → Distinct jobs
    → IdleBut (some job_id) jobs
    → IdleBut none (erase jobs job_id)
unfolding erase
leave_erased job_id [] d idle = tt
leave_erased job_id ((key, entry) ∷ jobs) d idle = elim (Bool-cases (key == job_id)) [
  | inl same ↦ rw (same) (leave-IdleBut job_id jobs (there key job_id jobs same d.0) idle.1)
  | inr differs ↦
      rw (differs) (ground (arith, differs, idle.0), leave_erased job_id jobs d.1 idle.1)
]
