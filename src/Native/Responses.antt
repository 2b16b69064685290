-- ===== src/Native/Responses.antt =====
-- src/natives.cpp: the natives of a response.
use sm_rest.Prelude.{
  ℕ, zero, suc, ◌||◌, List, [], ◌∷◌, Option, none, some, Bytes, length, if◌then◌else◌, leb,
}
use sm_rest.Prelude.Int.{ℤ, pos, pos_part, ltb_ℤ}
use sm_rest.Text.{HeaderList, find_header}
use sm_rest.Queue.{RestStatus}
use sm_rest.Extension.{ResponseObject, clamp_to_cell}
use sm_rest.Extension.Handles.{CallContext, read_object}
use sm_rest.Native.{read_body, c_str}
use sm_rest.Native.Calls.{NativeError, Answer, returns, throws}

-- What a native answers, and what it leaves in the plugin's buffers, in the order of its parameters.
abbrev pub Reading : Type 0
Reading = Answer × List Bytes

-- `static_cast<cell_t>` of a status.
abbrev status_number : RestStatus → ℕ
status_number RestStatus.ok = 0
status_number RestStatus.http_error = 1
status_number RestStatus.network_error = 2
status_number RestStatus.timeout = 3
status_number RestStatus.io_error = 4
status_number RestStatus.too_large = 5
status_number RestStatus.cancelled = 6

unfoldable pub get_status : ResponseObject → Reading
get_status response = (returns (pos (status_number response.status)), [])

unfoldable pub get_http_status : ResponseObject → Reading
get_http_status response = (returns (pos response.http_status), [])

unfoldable pub get_content_length : ResponseObject → Reading
get_content_length response = (returns (clamp_to_cell response.content_length), [])

unfoldable pub get_body_length : ResponseObject → Reading
get_body_length response = (returns (clamp_to_cell (pos response.body_length)), [])

unfoldable pub get_elapsed_ms : ResponseObject → Reading
get_elapsed_ms response = (returns (clamp_to_cell (pos response.elapsed_ms)), [])

unfoldable pub get_header_count : ResponseObject → Reading
get_header_count response = (returns (pos (length response.headers)), [])

-- `headers[index]`.
abbrev pub entry_at : HeaderList → ℕ → Option (Bytes × Bytes)
entry_at [] index = none
entry_at (entry ∷ headers) zero = some entry
entry_at (entry ∷ headers) (suc index) = entry_at headers index

-- `StringToLocalUTF8` is SourceMod's: what it puts into a buffer of a size for a string.
module _ (to_local : ℤ → Bytes → Bytes) where
  unfoldable pub get_error : ResponseObject → ℤ → Reading
  unfolding c_str
  get_error response size = (returns (pos 1), to_local size (c_str response.error) ∷ [])

  unfoldable pub get_url : ResponseObject → ℤ → Reading
  unfolding c_str
  get_url response size = (returns (pos 1), to_local size (c_str response.url) ∷ [])

  unfoldable pub get_body : ResponseObject → ℤ → Reading
  unfolding c_str
  get_body response size = (returns (pos 1), to_local size (c_str response.body) ∷ [])

  unfoldable pub get_header : ResponseObject → Bytes → ℤ → Reading
  unfolding c_str
  get_header response name size = elim (find_header response.headers name) [
    | none ↦ (returns (pos 0), [])
    | some value ↦ (returns (pos 1), to_local size (c_str value) ∷ [])
  ]

  -- The name and the value of an entry, as a plugin reads them.
  abbrev pub local_entry : ℤ → ℤ → Bytes × Bytes → List Bytes
  local_entry name_size value_size entry =
      to_local name_size (c_str entry.0) ∷ to_local value_size (c_str entry.1) ∷ []

  abbrev out_of_bounds_at : ResponseObject → ℤ → Reading
  out_of_bounds_at response index =
      (throws (NativeError.out_of_bounds index (length response.headers)), [])

  unfoldable pub get_header_at : ResponseObject → ℤ → ℤ → ℤ → Reading
  unfolding c_str
  get_header_at response index name_size value_size =
      if ltb_ℤ index (pos 0) || leb (length response.headers) (pos_part index)
      then out_of_bounds_at response index
      else elim (entry_at response.headers (pos_part index)) [
        | none ↦ out_of_bounds_at response index
        | some entry ↦ (returns (pos 1), local_entry name_size value_size entry)
      ]

unfoldable pub response_read_body : ResponseObject → ℤ → ℤ → Reading
unfolding read_body
response_read_body response offset maxlength = elim (read_body response.body offset maxlength) [
  | none ↦ (throws NativeError.negative_range, [])
  | some part ↦ (returns (pos (length part)), part ∷ [])
]

-- `ReadResponse`, and what follows where it finds a response.
unfoldable pub with_response :
    CallContext → List (ℕ × ResponseObject) → ℕ → (ResponseObject → Reading) → Reading
unfolding read_object
with_response context responses handle body = elim (read_object context responses handle) [
  | none ↦ (throws (NativeError.invalid_handle handle), [])
  | some response ↦ body response
]
