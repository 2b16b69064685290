-- ===== src/Extension.antt =====
-- src/extension.h and src/extension.cpp: the table of the jobs that plugins wait for, and the events
-- that the game thread hands to them. A forward is a number that stands for its pointer, and so are
-- handles and the identities of plugins.
pub mod Handles
pub mod Loading
pub mod Plugins
pub mod Dispatch
pub mod Table
pub mod Rules
pub mod Natives
pub mod Objects
pub mod CallRules
pub mod Idle
pub mod Survival
pub mod Counting
pub mod Forwards
pub mod Acts
pub mod Releases
pub mod Orderly
pub mod Dropping
pub mod Once
pub mod Tracking
pub mod Handover
pub mod Pipeline
use sm_rest.Prelude.{
  ℕ, suc, ◌+◌, Bool, true, false, not, ◌&&◌, ◌||◌, List, [], ◌∷◌, ◌++◌, Option, none, some, Bytes,
  length, if◌then◌else◌, ◌==◌,
}
use sm_rest.Prelude.Int.{ℤ, pos, negsuc, ltb_ℤ}
use sm_rest.Text.{HeaderList}
use sm_rest.Request.{RequestSpec, ClientConfig}
use sm_rest.Queue.{RestStatus, TransferEvent, EventKind, MainThreadQueue, drain, set_enabled}
use sm_rest.Job.State.{RestJob, new_job}
use sm_rest.Thread.{TransferThread, Shared, enqueue, request_cancel, request_consume, stop}

pub record JobRecord : Type 0 where
  pub id : ℕ
  pub client_handle : ℕ
  pub owner : ℕ
  pub completed : Option ℕ
  pub headers : Option ℕ
  pub data_forward : Option ℕ
  pub progress : Option ℕ
  pub context : ℤ
  pub dispatching : Bool
  pub dropped : Bool

pub record ClientObject : Type 0 where
  pub config : ClientConfig
  pub handle : ℕ

pub record RequestObject : Type 0 where
  pub spec : RequestSpec
  pub client_handle : ℕ
  pub headers : Option ℕ
  pub data_forward : Option ℕ
  pub progress : Option ℕ

-- What an event shows to a plugin behind a response handle.
pub record ResponseObject : Type 0 where
  pub status : RestStatus
  pub http_status : ℕ
  pub content_length : ℤ
  pub body_length : ℕ
  pub elapsed_ms : ℕ
  pub error : Bytes
  pub url : Bytes
  pub headers : HeaderList
  pub body : Bytes

-- `std::unordered_map<int, JobRecord>`, in the order in which it is traversed; and the objects
-- behind handles, by handle.
abbrev pub JobMap : Type 0
JobMap = List (ℕ × JobRecord)

module _ {ℓ} {A : Type ℓ} where
  unfoldable pub find : List (ℕ × A) → ℕ → Option A
  find [] key = none
  find ((other, entry) ∷ rest) key = if other == key then some entry else find rest key

  unfoldable pub erase : List (ℕ × A) → ℕ → List (ℕ × A)
  erase [] key = []
  erase ((other, entry) ∷ entries) key =
      let rest = erase entries key in if other == key then entries else (other, entry) ∷ rest

  -- `m_jobs[id] = record`, also by a reference into the map.
  unfoldable pub assign : List (ℕ × A) → ℕ → A → List (ℕ × A)
  assign [] key new = (key, new) ∷ []
  assign ((other, entry) ∷ entries) key new =
      let rest = assign entries key new in
      if other == key then (other, new) ∷ entries else (other, entry) ∷ rest

-- `ClampToCell`: a cell has 32 bits.
unfoldable pub clamp_to_cell : ℤ → ℤ
clamp_to_cell value =
    if ltb_ℤ (pos 2147483647) value
    then pos 2147483647
    else if ltb_ℤ value (negsuc 2147483647)
    then negsuc 2147483647
    else value

-- What a plugin's function is called with, the response handle by the object behind it.
pub data Callback : Type 0 where
  on_progress : ℕ → ℤ → ℤ → ℤ → ℤ → ℤ → Callback
  on_headers : ℕ → ResponseObject → ℤ → Callback
  on_data : ℕ → Bytes → ℤ → ℤ → Callback
  on_complete : ℕ → ResponseObject → ℤ → Callback

-- `clients` and `requests` are the objects that handles stand for. `created` holds the forwards that
-- were made, `released` those passed to `forwards->ReleaseForward`, and `shown` the calls of plugin
-- functions, all since the start.
pub record RestExtension : Type 0 where
  pub jobs : JobMap
  pub next_job_id : ℕ
  pub ca_bundle_path : Bytes
  pub verbose : Bool
  pub thread : TransferThread
  pub clients : List (ℕ × ClientObject)
  pub requests : List (ℕ × RequestObject)
  pub created : List ℕ
  pub released : List ℕ
  pub shown : List Callback

-- The members' initial values, and what `SDK_OnLoad` finds.
unfoldable pub loaded : TransferThread → Bytes → Bool → RestExtension
loaded thread ca_bundle_path verbose = record {
  jobs = [];
  next_job_id = 1;
  ca_bundle_path = ca_bundle_path;
  verbose = verbose;
  thread = thread;
  clients = [];
  requests = [];
  created = [];
  released = [];
  shown = [];
}

unfoldable pub release_forward : List ℕ → Option ℕ → List ℕ
release_forward released none = released
release_forward released (some forward) = released ++ forward ∷ []

unfoldable pub release_record : List ℕ → JobRecord → List ℕ
unfolding release_forward
release_record released entry =
    release_forward
      (release_forward (release_forward (release_forward released entry.completed) entry.headers)
        entry.data_forward)
      entry.progress

unfoldable pub release_request : List ℕ → RequestObject → List ℕ
unfolding release_forward
release_request released request =
    release_forward
      (release_forward (release_forward released request.headers) request.data_forward)
      request.progress

-- `DropJob` on one entry of the map: what is left of it, the thread and the releases.
unfoldable pub drop_job :
    ℕ × JobRecord → TransferThread × List ℕ → JobMap × (TransferThread × List ℕ)
drop_job (job_id, entry) (thread, released) =
    if entry.dispatching
    then ((job_id, record entry { dropped = true }) ∷ [], (request_cancel thread job_id, released))
    else ([], (request_cancel thread job_id, release_record released entry))

-- The loop over the map that `OnPluginUnloaded` and `DropJobsForClient` share.
unfoldable pub drop_jobs :
    (JobRecord → Bool) → JobMap → TransferThread × List ℕ → JobMap × (TransferThread × List ℕ)
unfolding drop_job
drop_jobs test [] state = ([], state)
drop_jobs test (entry ∷ jobs) state =
    let here = if test entry.1 then drop_job entry state else (entry ∷ [], state) in
    let later = drop_jobs test jobs here.1 in (here.0 ++ later.0, later.1)

unfoldable pub drop_where : (JobRecord → Bool) → RestExtension → RestExtension
unfolding drop_jobs
drop_where test extension =
    let (jobs, (thread, released)) =
      drop_jobs test extension.jobs (extension.thread, extension.released) in
    record extension { jobs = jobs; thread = thread; released = released }

abbrev pub on_plugin_unloaded : ℕ → RestExtension → RestExtension
on_plugin_unloaded identity = drop_where (λ entry. entry.owner == identity)

abbrev pub drop_jobs_for_client : ℕ → RestExtension → RestExtension
drop_jobs_for_client client_handle = drop_where (λ entry. entry.client_handle == client_handle)

unfoldable pub submit_job : RestExtension → RequestSpec → JobRecord → RestExtension × ℕ
submit_job extension spec entry =
    let job_id = extension.next_job_id in
    let spec' = record spec {
      id = job_id;
      ca_bundle = extension.ca_bundle_path;
      verbose = extension.verbose;
    } in
    (
      record extension {
        next_job_id = suc job_id;
        jobs = assign extension.jobs job_id (record entry { id = job_id });
        thread = enqueue extension.thread (new_job extension.thread.shared.disk spec');
      },
      job_id,
    )

cancel_owned : RestExtension → ℕ → ℕ → JobRecord → RestExtension × Bool
cancel_owned extension job_id requester entry =
    if not (entry.owner == requester)
    then (extension, false)
    else (record extension { thread = request_cancel extension.thread job_id }, true)

unfoldable pub cancel_job : RestExtension → ℕ → ℕ → RestExtension × Bool
unfolding cancel_owned
cancel_job extension job_id requester = elim (find extension.jobs job_id) [
  | none ↦ (extension, false)
  | some entry ↦ cancel_owned extension job_id requester entry
]

cancel_matching : JobMap → ℕ → ℕ → TransferThread → TransferThread × ℕ
cancel_matching [] client_handle requester thread = (thread, 0)
cancel_matching ((job_id, entry) ∷ jobs) client_handle requester thread =
    let matches = entry.client_handle == client_handle && entry.owner == requester in
    let (thread', cancelled) =
      cancel_matching jobs client_handle requester
        (if matches then request_cancel thread job_id else thread) in
    (thread', if matches then suc cancelled else cancelled)

unfoldable pub cancel_jobs_for_client : RestExtension → ℕ → ℕ → RestExtension × ℕ
unfolding cancel_matching
cancel_jobs_for_client extension client_handle requester =
    let (thread, cancelled) =
      cancel_matching extension.jobs client_handle requester extension.thread in
    (record extension { thread = thread }, cancelled)
