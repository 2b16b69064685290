-- ===== src/Job/State.antt =====
-- The members of `RestJob` (src/job.h), the options of a curl handle, and the files on disk.
use sm_rest.Prelude.{
  ℕ, Bool, false, Option, none, some, List, [], ◌++◌, Bytes, length, bytes_eq, if◌then◌else◌,
}
use sm_rest.Prelude.Int.{ℤ, pos, negsuc}
use sm_rest.Text.{HeaderList}
use sm_rest.Request.{RequestSpec}
use sm_rest.Queue.{TransferEvent}

-- The content of each file, by path.
abbrev pub Disk : Type 0
Disk = Bytes → Option Bytes

unfoldable pub write_file : Disk → Bytes → Option Bytes → Disk
write_file disk path content other = if bytes_eq path other then content else disk other

-- A `FILE *` at the end of its file; the path is the one it was opened by.
pub record OpenFile : Type 0 where
  pub path : Bytes

-- A `FILE *` that is read, and how far.
pub record UploadFile : Type 0 where
  pub path : Bytes
  pub position : ℕ

-- `curl_mime_data`, or `curl_mime_filedata` with its optional name and type.
pub record MimePart : Type 0 where
  pub name : Bytes
  pub content : Option Bytes
  pub file : Option Bytes
  pub file_name : Option Bytes
  pub content_type : Option Bytes

pub data EasyOption : Type 0 where
  url error_text : Bytes → EasyOption
  private_job no_signal http_1_1 no_progress_off accept_any_encoding : EasyOption
  header_callback write_callback progress_callback : EasyOption
  follow_location ssl_verify_peer : Bool → EasyOption
  ssl_verify_host : ℕ → EasyOption
  max_redirs connect_timeout timeout low_speed_limit low_speed_time : ℤ → EasyOption
  max_send_speed max_recv_speed : ℤ → EasyOption
  buffer_size : ℤ → EasyOption
  user_agent ca_info : Bytes → EasyOption
  verbose_on : EasyOption
  auth_bearer auth_basic : EasyOption
  bearer username password : Bytes → EasyOption
  http_get no_body http_post upload : EasyOption
  post_field_size : ℕ → EasyOption
  custom_request : Bytes → EasyOption
  post_fields : Bytes → EasyOption
  read_callback seek_callback : EasyOption
  in_file_size : ℕ → EasyOption
  mime_post : List MimePart → EasyOption
  http_header : List Bytes → EasyOption

-- `outbox` holds the events that the job has passed to `m_queue->Post` since the transfer thread
-- last put them into the queue, and `disk` the files as the thread hands them in. `easy` is the
-- curl handle: the options set on it, in order, or none for `nullptr`.
pub record RestJob : Type 0 where
  pub outbox : List TransferEvent
  pub disk : Disk
  pub easy : Option (List EasyOption)
  pub header_list : List Bytes
  pub mime : Option (List MimePart)
  pub upload_file : Option UploadFile
  pub output_file : Option OpenFile
  pub resume_offset : ℕ
  pub upload_size : ℕ
  pub body_length : ℕ
  pub pending_stream_bytes : ℕ
  pub http_status : ℕ
  pub elapsed_ms : ℕ
  pub retry_at : ℤ
  pub last_progress_post : ℕ
  pub response_headers : HeaderList
  pub part_path : Bytes
  pub response_body : Bytes
  pub stream_buffer : Bytes
  pub effective_url : Bytes
  pub spec : RequestSpec
  pub attempt : ℕ
  pub attached : Bool
  pub restarted_full_body : Bool
  pub headers_posted : Bool
  pub paused : Bool
  pub too_large : Bool
  pub waiting_for_retry : Bool
  pub finished : Bool
  pub cancel_requested : Bool
  pub error_buffer : Bytes

-- The constructor and the initial values of the members.
unfoldable pub new_job : Disk → RequestSpec → RestJob
new_job disk spec = record {
  outbox = [];
  disk = disk;
  easy = none;
  header_list = [];
  mime = none;
  upload_file = none;
  output_file = none;
  resume_offset = 0;
  upload_size = 0;
  body_length = 0;
  pending_stream_bytes = 0;
  http_status = 0;
  elapsed_ms = 0;
  retry_at = pos 0;
  last_progress_post = 0;
  response_headers = [];
  part_path = [];
  response_body = [];
  stream_buffer = [];
  effective_url = [];
  spec = spec;
  attempt = 0;
  attached = false;
  restarted_full_body = false;
  headers_posted = false;
  paused = false;
  too_large = false;
  waiting_for_retry = false;
  finished = false;
  cancel_requested = false;
  error_buffer = [];
}

-- `FileSizeOf`: -1 where there is no such file.
unfoldable pub file_size_of : Disk → Bytes → ℤ
file_size_of disk path = elim (disk path) [ none ↦ negsuc 0 | some content ↦ pos (length content) ]

-- A new handle has no options; an option set on no handle is lost.
unfoldable pub set_options : RestJob → List EasyOption → RestJob
set_options job options = elim job.easy [
  | none ↦ job
  | some before ↦ record job { easy = some (before ++ options) }
]
