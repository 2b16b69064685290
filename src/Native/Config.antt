-- ===== src/Native/Config.antt =====
-- src/natives.cpp: the natives that read and write one field of a client's settings or of a request's
-- copy of them.
use sm_rest.Prelude.{ℕ, ◌≡◌, Bool, true, false, ◌||◌, arith, if◌then◌else◌, ◌==◌}
use sm_rest.Prelude.Int.{ℤ, pos, negsuc, ◌≤ℤ◌, ltb_ℤ}
use sm_rest.Request.{ClientConfig}
use sm_rest.Extension.{clamp_to_cell}

-- The fields that the table of natives instantiates the two templates with.
pub data ConfigField : Type 0 where
  connect_timeout timeout absolute_timeout max_retries max_redirects : ConfigField
  max_send_speed max_recv_speed max_body_size chunk_size progress_interval : ConfigField
  follow_redirects verify_certificate : ConfigField

-- `static_cast<bool>` of a cell, and a bool as a number.
abbrev is_nonzero : ℤ → Bool
is_nonzero value = ltb_ℤ value (pos 0) || ltb_ℤ (pos 0) value

abbrev of_bool : Bool → ℤ
of_bool b = if b then pos 1 else pos 0

-- `config->*Field` as a number.
unfoldable pub field_value : ClientConfig → ConfigField → ℤ
field_value config connect_timeout = config.connect_timeout
field_value config timeout = config.timeout
field_value config absolute_timeout = config.absolute_timeout
field_value config max_retries = config.max_retries
field_value config max_redirects = config.max_redirects
field_value config max_send_speed = config.max_send_speed
field_value config max_recv_speed = config.max_recv_speed
field_value config max_body_size = config.max_body_size
field_value config chunk_size = config.chunk_size
field_value config progress_interval = config.progress_interval
field_value config follow_redirects = of_bool config.follow_redirects
field_value config verify_certificate = of_bool config.verify_certificate

unfoldable pub config_get : ClientConfig → ConfigField → ℤ
unfolding field_value clamp_to_cell
config_get config field = clamp_to_cell (field_value config field)

unfoldable pub config_set : ClientConfig → ConfigField → ℤ → ClientConfig
config_set config connect_timeout value = record config { connect_timeout = value }
config_set config timeout value = record config { timeout = value }
config_set config absolute_timeout value = record config { absolute_timeout = value }
config_set config max_retries value = record config { max_retries = value }
config_set config max_redirects value = record config { max_redirects = value }
config_set config max_send_speed value = record config { max_send_speed = value }
config_set config max_recv_speed value = record config { max_recv_speed = value }
config_set config max_body_size value = record config { max_body_size = value }
config_set config chunk_size value = record config { chunk_size = value }
config_set config progress_interval value = record config { progress_interval = value }
config_set config follow_redirects value = record config { follow_redirects = is_nonzero value }
config_set config verify_certificate value = record config { verify_certificate = is_nonzero value }

-- A number that fits in a cell.
abbrev pub IsCell : ℤ → Type 0
IsCell value = (negsuc 2147483647 ≤ℤ value) × (value ≤ℤ pos 2147483647)

-- The two fields that are switches.
abbrev pub is_switch : ConfigField → Bool
is_switch follow_redirects = true
is_switch verify_certificate = true
is_switch _ = false

-- What a plugin reads back after it set a field to a value.
abbrev pub read_back : ConfigField → ℤ → ℤ
read_back field value = if is_switch field then of_bool (is_nonzero value) else value

-- Whether two fields are the same.
abbrev number : ConfigField → ℕ
number connect_timeout = 0
number timeout = 1
number absolute_timeout = 2
number max_retries = 3
number max_redirects = 4
number max_send_speed = 5
number max_recv_speed = 6
number max_body_size = 7
number chunk_size = 8
number progress_interval = 9
number follow_redirects = 10
number verify_certificate = 11

abbrev pub is_same : ConfigField → ConfigField → Bool
is_same field other = number field == number other

clamp_to_cell_cell : (value : ℤ) → IsCell value → clamp_to_cell value ≡ value
unfolding clamp_to_cell
clamp_to_cell_cell value h = ground (arith, h.0, h.1)

IsCell-read_back : (field : ConfigField) (value : ℤ) → IsCell value → IsCell (read_back field value)
IsCell-read_back field value h = ground (arith, h.0, h.1)

-- Fields do not overlap.
field_value-config_set :
    (config : ClientConfig) (field other : ConfigField) (value : ℤ)
    → field_value (config_set config field value) other
      ≡ (if is_same field other then read_back field value else field_value config other)
unfolding config_set field_value
field_value-config_set config connect_timeout other value = ground arith
field_value-config_set config _ other value = ground arith

-- A plugin that sets a field to a cell reads that cell back, or one or zero where the field is a
-- switch; and every other field reads as before.
pub config_get-config_set :
    (config : ClientConfig) (field other : ConfigField) (value : ℤ)
    → IsCell value
    → config_get (config_set config field value) other
      ≡ (if is_same field other then read_back field value else config_get config other)
unfolding config_get
config_get-config_set config field other value h =
    let cell = IsCell-read_back field value h in
    ground (
      arith,
      field_value-config_set config field other value,
      clamp_to_cell_cell (read_back field value) cell,
    )
