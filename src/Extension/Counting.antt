-- ===== src/Extension/Counting.antt =====
-- How often a forward is held by the records of the map, and how the operations change that.
use sm_rest.Prelude.{
  ℕ, ◌+◌, ◌≡◌, refl, Bool, List, [], ◌∷◌, ◌++◌, Option, none, some, arith, if◌then◌else◌, ◌==◌,
  Bool-cases, inl, inr,
}
use sm_rest.Thread.{TransferThread, request_cancel}
use sm_rest.Extension.{
  RequestObject, release_request, JobRecord, JobMap, find, erase, assign, release_forward,
  release_record, drop_jobs,
}
use sm_rest.Extension.Table.{drop_jobs_cases}

module _ {ℓ} {A : Type ℓ} (weight : A → ℕ) where
  -- What the objects of a map weigh together, and what a map finds.
  abbrev pub total : List (ℕ × A) → ℕ
  total [] = 0
  total ((key, object) ∷ objects) = weight object + total objects

  abbrev pub weight_of : Option A → ℕ
  weight_of none = 0
  weight_of (some object) = weight object

  pub total-assign :
      (objects : List (ℕ × A)) (key : ℕ) (new : A)
      → total (assign objects key new) + weight_of (find objects key) ≡ total objects + weight new
  unfolding assign find
  total-assign [] key new = omega arith
  total-assign ((other, object) ∷ objects) key new = elim (Bool-cases (other == key)) [
    | inl same ↦ rw (same) (omega arith)
    | inr differs ↦ rw (differs) (omega (arith, total-assign objects key new))
  ]

  pub total-erase :
      (objects : List (ℕ × A)) (key : ℕ)
      → total (erase objects key) + weight_of (find objects key) ≡ total objects
  unfolding erase find
  total-erase [] key = omega arith
  total-erase ((other, object) ∷ objects) key = elim (Bool-cases (other == key)) [
    | inl same ↦ rw (same) (omega arith)
    | inr differs ↦ rw (differs) (omega (arith, total-erase objects key))
  ]

-- How often a forward stands in a list.
unfoldable pub count : ℕ → List ℕ → ℕ
count forward [] = 0
count forward (other ∷ others) = (if other == forward then 1 else 0) + count forward others

abbrev pub holds : ℕ → Option ℕ → ℕ
holds forward none = 0
holds forward (some other) = if other == forward then 1 else 0

abbrev pub held_by : ℕ → JobRecord → ℕ
held_by forward entry =
    holds forward entry.completed
    + holds forward entry.headers
    + holds forward entry.data_forward
    + holds forward entry.progress

abbrev pub held_by_request : ℕ → RequestObject → ℕ
held_by_request forward object =
    holds forward object.headers + holds forward object.data_forward + holds forward object.progress

-- How often the records of the map hold a forward, and how often the requests do.
abbrev pub held : ℕ → JobMap → ℕ
held forward = total (held_by forward)

abbrev pub kept : ℕ → List (ℕ × RequestObject) → ℕ
kept forward = total (held_by_request forward)

pub count-append :
    (forward : ℕ) (xs ys : List ℕ) → count forward (xs ++ ys) ≡ count forward xs + count forward ys
unfolding count
count-append forward [] ys = omega arith
count-append forward (x ∷ xs) ys = omega (arith, count-append forward xs ys)

pub count_one : (forward other : ℕ) → count forward (other ∷ []) ≡ holds forward (some other)
unfolding count
count_one forward other = omega arith

pub count-release_forward :
    (forward : ℕ) (released : List ℕ) (other : Option ℕ)
    → count forward (release_forward released other) ≡ count forward released + holds forward other
unfolding release_forward count
count-release_forward forward released none = omega arith
count-release_forward forward released (some other) =
    ground (arith, count-append forward released (other ∷ []))

pub count-release_record :
    (forward : ℕ) (released : List ℕ) (entry : JobRecord)
    → count forward (release_record released entry) ≡ count forward released + held_by forward entry
unfolding release_record
count-release_record forward released entry =
    let first = release_forward released entry.completed in
    let second = release_forward first entry.headers in
    let third = release_forward second entry.data_forward in
    omega (
      arith,
      count-release_forward forward released entry.completed,
      count-release_forward forward first entry.headers,
      count-release_forward forward second entry.data_forward,
      count-release_forward forward third entry.progress,
    )

pub count-release_request :
    (forward : ℕ) (released : List ℕ) (object : RequestObject)
    → count forward (release_request released object)
      ≡ count forward released + held_by_request forward object
unfolding release_request
count-release_request forward released object =
    let first = release_forward released object.headers in
    let second = release_forward first object.data_forward in
    omega (
      arith,
      count-release_forward forward released object.headers,
      count-release_forward forward first object.data_forward,
      count-release_forward forward second object.progress,
    )

pub drop_jobs-held :
    (forward : ℕ) (test : JobRecord → Bool) (jobs : JobMap) (thread : TransferThread)
    (released : List ℕ)
    → let after = drop_jobs test jobs (thread, released) in
      count forward after.1.1 + held forward after.0 ≡ count forward released + held forward jobs
unfolding drop_jobs
drop_jobs-held forward test [] thread released = refl
drop_jobs-held forward test ((key, entry) ∷ jobs) thread released =
    drop_jobs_cases
      (λ after.
        count forward after.1.1 + held forward after.0
        ≡ count forward released + (held_by forward entry + held forward jobs))
      test key entry jobs thread released
      (omega (arith, drop_jobs-held forward test jobs thread released))
      (λ marked.
        omega (arith, drop_jobs-held forward test jobs (request_cancel thread key) released))
      (λ freed. omega (
        arith,
        drop_jobs-held forward test jobs (request_cancel thread key)
            (release_record released entry),
        count-release_record forward released entry,
      ))
