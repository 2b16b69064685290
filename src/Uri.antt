-- ===== src/Uri.antt =====
-- src/uri.h and src/uri.cpp: percent encoding, and how a URL is put together.
pub mod Encoding
pub mod Joining
use sm_rest.Prelude.{
  ℕ, ◌/◌, ◌%◌, ◌+◌, Bool, true, false, not, ◌&&◌, ◌||◌, List, [], ◌∷◌, ◌++◌, Bytes, bytes, is_empty,
  leb, ltb, ◌==◌, if◌then◌else◌,
}

unfoldable pub is_unreserved : ℕ → Bool
is_unreserved c =
    if leb b'A' c && leb c b'Z'
    then true
    else if leb b'a' c && leb c b'z'
    then true
    else if leb b'0' c && leb c b'9'
    then true
    else c == b'-' || c == b'_' || c == b'.' || c == b'~'

-- `"0123456789ABCDEF"[digit]`, for a digit below 16.
unfoldable pub hex : ℕ → ℕ
hex digit = if ltb digit 10 then b'0' + digit else b'7' + digit

unfoldable pub uri_encode : Bytes → Bytes
uri_encode [] = []
uri_encode (c ∷ input) =
    let rest = uri_encode input in
    if is_unreserved c then c ∷ rest else b'%' ∷ hex (c / 16) ∷ hex (c % 16) ∷ rest

-- `value.find(text) == 0`: the text stands at the front.
abbrev pub starts_with : Bytes → Bytes → Bool
starts_with value [] = true
starts_with [] (x ∷ xs) = false
starts_with (y ∷ ys) (x ∷ xs) = y == x && starts_with ys xs

-- `value.find(text) != npos`.
unfoldable pub contains : Bytes → Bytes → Bool
contains text [] = starts_with [] text
contains text (c ∷ cs) = starts_with (c ∷ cs) text || contains text cs

unfoldable pub is_absolute_url : Bytes → Bool
is_absolute_url value = contains (b':' ∷ b'/' ∷ b'/' ∷ []) value

-- The loop that pops a '/' off the back while there is one.
unfoldable pub pop_slashes : Bytes → Bytes
pop_slashes [] = []
pop_slashes (c ∷ cs) =
    let base = pop_slashes cs in if is_empty base && c == b'/' then [] else c ∷ base

join_path : Bytes → Bytes → Bytes
join_path base [] = base
join_path base (c ∷ path) = if c == b'/' then base ++ c ∷ path else base ++ b'/' ∷ c ∷ path

unfoldable pub join_url : Bytes → Bytes → Bytes
unfolding join_path
join_url base_url path =
    if is_absolute_url path || is_empty base_url
    then path
    else join_path (pop_slashes base_url) path

unfoldable pub append_query : Bytes → Bytes → Bytes
append_query url query =
    if is_empty query
    then url
    else let separator = if contains (b'?' ∷ []) url then b'&' else b'?' in url ++ separator ∷ query
