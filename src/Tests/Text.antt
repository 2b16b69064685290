-- ===== src/Tests/Text.antt =====
-- Headers, URIs and the queue at concrete inputs.
use sm_rest.Prelude.{
  ◌≡◌, refl, true, false, List, [], ◌∷◌, ◌++◌, none, some, arith, Bytes, bytes, bytes_eq,
  if◌then◌else◌,
}
use sm_rest.Text.{
  HeaderList, to_lower, trim, equals_ignore_case, set_header, remove_header, find_header,
}
use sm_rest.Text.Letters.{equals_ignore_case-to_lower}
use sm_rest.Text.Trimming.{IsTrim, trim-IsTrim}
use sm_rest.Text.Headers.{find_header-set_header, find_header-remove_header}
use sm_rest.Uri.{is_unreserved, hex, contains, uri_encode, is_absolute_url, pop_slashes, join_url}
use sm_rest.Uri.Encoding.{uri_decode, uri_decode-uri_encode}
use sm_rest.Uri.Joining.{slash_run, join_url_slashes}
use sm_rest.Queue.{empty_queue, default_event}
use sm_rest.Queue.Order.{
  Call, posts, drains, enables, run, accepted, run_fifo, IsFlagged, run-IsFlagged,
}

abbrev two_headers : HeaderList
two_headers = (bytes "Accept", bytes "text/plain") ∷ (bytes "X-Key", bytes "1") ∷ []

abbrev base : Bytes
base = bytes "https://api.example/v1/"

-- A header set in one case and read in another.
set_found :
    find_header (set_header two_headers (bytes "ACCEPT") (bytes "*/*")) (bytes "accept")
    ≡ some (bytes "*/*")
unfolding find_header set_header equals_ignore_case
set_found = refl

trimmed : trim (bytes " \ta b\r") ≡ bytes "a b"
unfolding trim
trimmed = refl

encoded : uri_encode (bytes "a b/c") ≡ bytes "a%20b%2Fc"
unfolding uri_encode is_unreserved hex
encoded = refl

joined : join_url base (bytes "/users") ≡ bytes "https://api.example/v1/users"
unfolding join_url is_absolute_url contains pop_slashes
joined = refl

find_header-set_header_example :
    find_header (set_header two_headers (bytes "ACCEPT") (bytes "*/*")) (bytes "accept") ≡ (
      if equals_ignore_case (bytes "ACCEPT") (bytes "accept")
      then some (bytes "*/*")
      else find_header two_headers (bytes "accept"))
find_header-set_header_example =
    find_header-set_header two_headers (bytes "ACCEPT") (bytes "*/*") (bytes "accept")

find_header-remove_header_example :
    find_header (remove_header two_headers (bytes "x-key")) (bytes "Accept") ≡ (
      if equals_ignore_case (bytes "x-key") (bytes "Accept")
      then none
      else find_header two_headers (bytes "Accept"))
find_header-remove_header_example =
    find_header-remove_header two_headers (bytes "x-key") (bytes "Accept")

trim-IsTrim_example : IsTrim (bytes " \ta b\r") (trim (bytes " \ta b\r"))
trim-IsTrim_example = trim-IsTrim (bytes " \ta b\r")

equals_ignore_case-to_lower_example :
    equals_ignore_case (bytes "Content-TYPE") (bytes "content-type")
    ≡ bytes_eq (to_lower (bytes "Content-TYPE")) (to_lower (bytes "content-type"))
equals_ignore_case-to_lower_example =
    equals_ignore_case-to_lower (bytes "Content-TYPE") (bytes "content-type")

uri_decode-uri_encode_example : uri_decode (uri_encode (32 ∷ 255 ∷ [])) ≡ 32 ∷ 255 ∷ []
uri_decode-uri_encode_example =
    uri_decode-uri_encode (32 ∷ 255 ∷ []) (omega arith, (omega arith, tt))

join_url_slashes_example :
    let base_url = (bytes "http://" ++ b'a' ∷ []) ++ slash_run 2 in
    (join_url base_url (bytes "users") ≡ (bytes "http://" ++ b'a' ∷ []) ++ bytes "/users")
    × (join_url base_url (bytes "/users") ≡ (bytes "http://" ++ b'a' ∷ []) ++ bytes "/users")
unfolding is_absolute_url contains
join_url_slashes_example =
    join_url_slashes (bytes "http://") b'a' 2 b'u' (bytes "sers") refl refl refl

-- One event is drained, one is posted after the queue is disabled, and one after it is enabled again.
abbrev calls : List Call
calls =
    posts default_event
    ∷ drains
    ∷ enables false
    ∷ posts default_event
    ∷ enables true
    ∷ posts default_event
    ∷ []

run_fifo_example :
    (run empty_queue calls).1 ++ (run empty_queue calls).0.events ≡ [] ++ accepted true calls
run_fifo_example = run_fifo empty_queue calls

run-IsFlagged_example : IsFlagged (run empty_queue calls).0
run-IsFlagged_example = run-IsFlagged empty_queue calls refl
