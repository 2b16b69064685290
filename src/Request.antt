-- ===== src/Request.antt =====
-- src/request.h: what a request is made of. Integers of the plugin are signed; they are stored as
-- the setters leave them, unchecked.
use sm_rest.Prelude.{ℕ, Bool, true, false, List, [], Bytes}
use sm_rest.Prelude.Int.{ℤ, pos}
use sm_rest.Text.{HeaderList}

pub data RestMethod : Type 0 where
  get head post put patch delete options : RestMethod

pub data BodyKind : Type 0 where
  none memory file form multipart : BodyKind

pub record FormField : Type 0 where
  pub name : Bytes
  pub value : Bytes
  pub file_path : Bytes
  pub file_name : Bytes
  pub content_type : Bytes

pub record ClientConfig : Type 0 where
  pub base_url : Bytes
  pub headers : HeaderList
  pub user_agent : Bytes
  pub basic_user : Bytes
  pub basic_password : Bytes
  pub bearer_token : Bytes
  pub connect_timeout : ℤ
  pub timeout : ℤ
  pub absolute_timeout : ℤ
  pub max_retries : ℤ
  pub max_redirects : ℤ
  pub max_send_speed : ℤ
  pub max_recv_speed : ℤ
  pub max_body_size : ℤ
  pub chunk_size : ℤ
  pub progress_interval : ℤ
  pub follow_redirects : Bool
  pub verify_certificate : Bool

-- The defaults of the members.
abbrev pub default_config : ClientConfig
default_config = record {
  base_url = [];
  headers = [];
  user_agent = [];
  basic_user = [];
  basic_password = [];
  bearer_token = [];
  connect_timeout = pos 10;
  timeout = pos 60;
  absolute_timeout = pos 0;
  max_retries = pos 3;
  max_redirects = pos 10;
  max_send_speed = pos 0;
  max_recv_speed = pos 0;
  max_body_size = pos 4194304;
  chunk_size = pos 16384;
  progress_interval = pos 100;
  follow_redirects = true;
  verify_certificate = true;
}

pub record RequestSpec : Type 0 where
  pub id : ℕ
  pub method : RestMethod
  pub path : Bytes
  pub query : Bytes
  pub config : ClientConfig
  pub body_kind : BodyKind
  pub body : Bytes
  pub body_content_type : Bytes
  pub body_file_path : Bytes
  pub form_fields : List FormField
  pub output_path : Bytes
  pub resume : Bool
  pub stream_data : Bool
  pub want_headers : Bool
  pub url : Bytes
  pub ca_bundle : Bytes
  pub verbose : Bool

abbrev pub default_spec : RequestSpec
default_spec = record {
  id = 0;
  method = RestMethod.get;
  path = [];
  query = [];
  config = default_config;
  body_kind = BodyKind.none;
  body = [];
  body_content_type = [];
  body_file_path = [];
  form_fields = [];
  output_path = [];
  resume = false;
  stream_data = false;
  want_headers = false;
  url = [];
  ca_bundle = [];
  verbose = false;
}
