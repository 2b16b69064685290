-- ===== src/Text.antt =====
-- src/text.h and src/text.cpp: case folding, trimming and the header list.
pub mod Letters
pub mod Trimming
pub mod Headers
use sm_rest.Prelude.{
  ℕ, suc, ◌+◌, ◌-◌, Bool, true, false, not, ◌&&◌, ◌||◌, Option, none, some, List, [], ◌∷◌, ◌++◌,
  map, Bytes, length, take, drop, leb, ◌==◌, if◌then◌else◌,
}

-- `std::tolower` in the "C" locale.
unfoldable pub lower_char : ℕ → ℕ
lower_char c = if leb b'A' c && leb c b'Z' then c + 32 else c

unfoldable pub to_lower : Bytes → Bytes
to_lower value = map lower_char value

-- The set " \t\r\n" of both searches.
unfoldable pub is_blank : ℕ → Bool
is_blank c = c == 32 || c == 9 || c == 13 || c == 10

-- `find_first_not_of(" \t\r\n")`; `none` is `npos`.
find_first_not_of : Bytes → Option ℕ
find_first_not_of [] = none
find_first_not_of (c ∷ cs) =
    if is_blank c
    then elim (find_first_not_of cs) [ none ↦ none | some k ↦ some (suc k) ]
    else some 0

-- `find_last_not_of(" \t\r\n")`.
find_last_not_of : Bytes → Option ℕ
find_last_not_of [] = none
find_last_not_of (c ∷ cs) = elim (find_last_not_of cs) [
  | none ↦ if is_blank c then none else some 0
  | some k ↦ some (suc k)
]

-- `substr(start, end - start + 1)`; an `end` of `npos` reads to the end of the string.
unfoldable pub trim : Bytes → Bytes
unfolding find_first_not_of find_last_not_of is_blank
trim value = elim (find_first_not_of value) [
  | none ↦ []
  | some start ↦ elim (find_last_not_of value) [
    | none ↦ drop start value
    | some end ↦ take (end - start + 1) (drop start value)
  ]
]

-- The loop over the indices of two strings of one length.
same_letters : Bytes → Bytes → Bool
same_letters (x ∷ xs) (y ∷ ys) = if lower_char x == lower_char y then same_letters xs ys else false
same_letters _ _ = true

unfoldable pub equals_ignore_case : Bytes → Bytes → Bool
unfolding same_letters lower_char
equals_ignore_case left right =
    if not (length left == length right) then false else same_letters left right

abbrev pub HeaderList : Type 0
HeaderList = List (Bytes × Bytes)

unfoldable pub set_header : HeaderList → Bytes → Bytes → HeaderList
set_header [] name value = (name, value) ∷ []
set_header ((field, old) ∷ headers) name value =
    if equals_ignore_case field name
    then (field, value) ∷ headers
    else (field, old) ∷ set_header headers name value

-- `erase(remove_if(...))` keeps the other entries in their order.
unfoldable pub remove_header : HeaderList → Bytes → HeaderList
remove_header [] name = []
remove_header ((field, value) ∷ headers) name =
    let rest = remove_header headers name in
    if equals_ignore_case field name then rest else (field, value) ∷ rest

-- A pointer to the value of the first entry that fits, or `nullptr`.
unfoldable pub find_header : HeaderList → Bytes → Option Bytes
find_header [] name = none
find_header ((field, value) ∷ headers) name =
    if equals_ignore_case field name then some value else find_header headers name
