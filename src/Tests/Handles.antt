-- ===== src/Tests/Handles.antt =====
-- The natives at concrete inputs.
use sm_rest.Prelude.{◌≡◌, refl, false, [], ◌∷◌, Bytes, bytes, map, arith}
use sm_rest.Prelude.Int.{ℤ, pos, negsuc}
use sm_rest.Request.{default_config}
use sm_rest.Queue.{default_event}
use sm_rest.Extension.{ResponseObject, RestExtension, loaded}
use sm_rest.Extension.Handles.{response_of}
use sm_rest.Native.Config.{ConfigField}
use sm_rest.Native.Calls.{
  NativeError, returns, throws, Owner, read_config, config_get_call, ConfigCall, configure_call,
}
use sm_rest.Native.Settings.{config_get_call-configure_call}
use sm_rest.Native.Responses.{get_header_at}
use sm_rest.Native.Listing.{read_headers, entry_reading, header_listing}
use sm_rest.Tests.Plugins.{answers_with}
use sm_rest.Tests.Threads.{idle}

-- Strings are taken as they are.
abbrev to_local : ℤ → Bytes → Bytes
to_local size text = text

abbrev response : ResponseObject
response = record (response_of default_event) {
  headers = (bytes "Server", bytes "a") ∷ (bytes "Date", bytes "b") ∷ [];
}

header_listing_example :
    (read_headers to_local response (pos 64) (pos 64) 2 0
      ≡ map (entry_reading to_local response (pos 64) (pos 64)) response.headers)
    × (get_header_at to_local response (pos 2) (pos 64) (pos 64)
        ≡ (throws (NativeError.out_of_bounds (pos 2) 2), []))
    × (get_header_at to_local response (negsuc 0) (pos 64) (pos 64)
        ≡ (throws (NativeError.out_of_bounds (negsuc 0) 2), []))
header_listing_example = header_listing to_local response (pos 64) (pos 64) 0

-- A client behind handle 5, and a request of it behind handle 6.
abbrev with_client : RestExtension
with_client = record (loaded idle [] false) {
  clients = (5, record { config = default_config; handle = 5 }) ∷ [];
}

config_get_call-configure_call_example :
    config_get_call
      (answers_with 0 0)
      (configure_call
        (answers_with 0 0)
        with_client
        Owner.client
        5
        (ConfigCall.set_field ConfigField.timeout (pos 7))).0
      Owner.client
      5
      ConfigField.timeout
    ≡ returns (pos 7)
unfolding read_config
config_get_call-configure_call_example =
    config_get_call-configure_call (answers_with 0 0) with_client Owner.client Owner.client 5 5
      ConfigField.timeout ConfigField.timeout (pos 7) default_config refl (omega arith, omega arith)
