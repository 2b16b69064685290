-- ===== src/Native/Listing.antt =====
-- A plugin reads the headers of a response by their indices.
use sm_rest.Prelude.{
  ℕ, zero, suc, ◌+◌, ◌<◌, ◌≡◌, refl, true, ◌||◌, List, [], ◌∷◌, some, arith, Bytes, length, drop,
  drop_all, map, leb,
}
use sm_rest.Prelude.Int.{ℤ, pos, negsuc, pos_part, ltb_ℤ}
use sm_rest.Text.{HeaderList}
use sm_rest.Extension.{ResponseObject}
use sm_rest.Native.Calls.{NativeError, returns, throws}
use sm_rest.Native.Responses.{Reading, entry_at, local_entry, get_header_at}

drop_entry :
    (headers : HeaderList) (index : ℕ)
    → index < length headers
    → (entry : Bytes × Bytes) × (entry_at headers index ≡ some entry)
      × (drop index headers ≡ entry ∷ drop (suc index) headers)
drop_entry [] index h = absurd (omega arith)
drop_entry (entry ∷ headers) zero h = (entry, refl, refl)
drop_entry (entry ∷ headers) (suc index) h = drop_entry headers index (omega arith)

module _ (to_local : ℤ → Bytes → Bytes) (response : ResponseObject) (name_size value_size : ℤ) where
  -- The readings at as many indices, from one on.
  unfoldable pub read_headers : ℕ → ℕ → List Reading
  unfolding get_header_at
  read_headers zero index = []
  read_headers (suc count) index =
      get_header_at to_local response (pos index) name_size value_size
      ∷ read_headers count (suc index)

  -- What a plugin is to read of an entry.
  abbrev pub entry_reading : Bytes × Bytes → Reading
  entry_reading entry = (returns (pos 1), local_entry to_local name_size value_size entry)

  get_header_at_entry :
      (index : ℕ) (entry : Bytes × Bytes)
      → index < length response.headers
      → entry_at response.headers index ≡ some entry
      → get_header_at to_local response (pos index) name_size value_size ≡ entry_reading entry
  unfolding get_header_at
  get_header_at_entry index entry h found = ground (arith, found)

  read_headers_from :
      (count index : ℕ)
      → index + count ≡ length response.headers
      → read_headers count index ≡ map entry_reading (drop index response.headers)
  unfolding read_headers
  read_headers_from zero index h = rw (drop_all index response.headers (omega (arith, h))) refl
  read_headers_from (suc count) index h =
      let next = drop_entry response.headers index (omega (arith, h)) in
      rw
        (
          next.2,
          get_header_at_entry index next.0 (omega (arith, h)) next.1,
          read_headers_from count (suc index) (omega (arith, h)),
        )
        refl

  get_header_at_outside :
      (index : ℤ)
      → (ltb_ℤ index (pos 0) || leb (length response.headers) (pos_part index)) ≡ true
      → get_header_at to_local response index name_size value_size
        ≡ (throws (NativeError.out_of_bounds index (length response.headers)), [])
  unfolding get_header_at
  get_header_at_outside index h = rw (h) refl

-- A plugin that asks for the number of headers and reads as many, from index zero on, reads every
-- header in order, name and value. Behind the last and before the first it gets an error.
pub header_listing :
    (to_local : ℤ → Bytes → Bytes) (response : ResponseObject) (name_size value_size : ℤ) (n : ℕ)
    → let at = λ (index : ℤ). get_header_at to_local response index name_size value_size in
      let count = length response.headers in
      (read_headers to_local response name_size value_size count 0
        ≡ map (entry_reading to_local response name_size value_size) response.headers)
      × (at (pos (count + n)) ≡ (throws (NativeError.out_of_bounds (pos (count + n)) count), []))
      × (at (negsuc n) ≡ (throws (NativeError.out_of_bounds (negsuc n) count), []))
header_listing to_local response name_size value_size n = (
  read_headers_from to_local response name_size value_size (length response.headers) 0
      (omega arith),
  get_header_at_outside to_local response name_size value_size (pos (length response.headers + n))
      (ground arith),
  get_header_at_outside to_local response name_size value_size (negsuc n) (ground arith),
)
