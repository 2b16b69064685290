-- ===== src/Queue.antt =====
-- src/main_thread_queue.h and src/main_thread_queue.cpp: the events that the transfer thread hands
-- to the game thread. The mutex makes each operation one step.
pub mod Order
use sm_rest.Prelude.{ℕ, Bool, true, false, List, [], ◌∷◌, ◌++◌, Bytes, if◌then◌else◌}
use sm_rest.Prelude.Int.{ℤ, negsuc}
use sm_rest.Text.{HeaderList}

pub data RestStatus : Type 0 where
  ok http_error network_error timeout io_error too_large cancelled : RestStatus

pub data EventKind : Type 0 where
  progress headers chunk complete : EventKind

pub record TransferEvent : Type 0 where
  pub kind : EventKind
  pub job_id : ℕ
  pub downloaded : ℕ
  pub download_total : ℕ
  pub uploaded : ℕ
  pub upload_total : ℕ
  pub status : RestStatus
  pub http_status : ℕ
  pub content_length : ℤ
  pub body_length : ℕ
  pub elapsed_ms : ℕ
  pub error : Bytes
  pub url : Bytes
  pub headers : HeaderList
  pub body : Bytes

-- The defaults of the members.
abbrev pub default_event : TransferEvent
default_event = record {
  kind = EventKind.complete;
  job_id = 0;
  downloaded = 0;
  download_total = 0;
  uploaded = 0;
  upload_total = 0;
  status = RestStatus.ok;
  http_status = 0;
  content_length = negsuc 0;
  body_length = 0;
  elapsed_ms = 0;
  error = [];
  url = [];
  headers = [];
  body = [];
}

pub record MainThreadQueue : Type 0 where
  pub events : List TransferEvent
  pub has_events : Bool
  pub enabled : Bool

abbrev pub empty_queue : MainThreadQueue
empty_queue = record { events = []; has_events = false; enabled = true }

unfoldable pub post : MainThreadQueue → TransferEvent → MainThreadQueue
post queue event =
    if queue.enabled
    then record queue { events = queue.events ++ event ∷ []; has_events = true }
    else queue

unfoldable pub drain : MainThreadQueue → MainThreadQueue × List TransferEvent
drain queue = (record queue { events = []; has_events = false }, queue.events)

unfoldable pub set_enabled : MainThreadQueue → Bool → MainThreadQueue
set_enabled queue enabled = record queue { enabled = enabled }

-- Several events posted one after the other.
unfoldable pub post_all : MainThreadQueue → List TransferEvent → MainThreadQueue
unfolding post
post_all queue [] = queue
post_all queue (event ∷ events) = post_all (post queue event) events
