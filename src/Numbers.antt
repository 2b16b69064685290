-- ===== src/Numbers.antt =====
-- The conversions of the C++ library that the extension calls: `strtol`, `atoll`, `std::to_string`,
-- on the i386 target, where `long` has 32 bits and `long long` has 64.
pub mod Decimal
use sm_rest.Prelude.{
  ℕ, zero, suc, ◌+◌, ◌-◌, ◌*◌, ◌/◌, ◌%◌, ◌^◌, min, Bool, true, false, ◌&&◌, ◌||◌, Option, none,
  some, [], ◌∷◌, ◌++◌, Bytes, leb, ltb, ◌==◌, if◌then◌else◌,
}
use sm_rest.Prelude.Int.{ℤ, pos, negsuc}

unfoldable pub is_digit : ℕ → Bool
is_digit c = leb b'0' c && leb c b'9'

-- `isspace` in the "C" locale.
unfoldable pub is_space : ℕ → Bool
is_space c = c == 32 || leb 9 c && leb c 13

skip_spaces : Bytes → Bytes
skip_spaces [] = []
skip_spaces (c ∷ cs) = let rest = skip_spaces cs in if is_space c then rest else c ∷ cs

-- The number that the digits at the front spell, after the digits that `acc` stands for.
unfoldable pub read_digits : ℕ → Bytes → ℕ
read_digits acc [] = acc
read_digits acc (c ∷ cs) =
    let more = read_digits (acc * 10 + (c - b'0')) cs in if is_digit c then more else acc

-- `none` if no digit stands at the front: nothing is converted.
unsigned_part : Bytes → Option ℕ
unsigned_part [] = none
unsigned_part (c ∷ cs) = if is_digit c then some (read_digits 0 (c ∷ cs)) else none

-- -n, for an n below the limit of the type, and its least value -limit from there on.
negated : ℕ → ℕ → ℤ
negated limit zero = pos 0
negated limit (suc n) = negsuc (min n (limit - 1))

-- Base 10, clamped to a signed type of which `limit` - 1 is the greatest value.
unfoldable pub signed_part : ℕ → Bytes → Option ℤ
unfolding unsigned_part negated
signed_part limit [] = none
signed_part limit (c ∷ cs) =
    if c == b'-'
    then elim (unsigned_part cs) [ none ↦ none | some n ↦ some (negated limit n) ]
    else if c == b'+'
    then elim (unsigned_part cs) [ none ↦ none | some n ↦ some (pos (min n (limit - 1))) ]
    else elim (unsigned_part (c ∷ cs)) [ none ↦ none | some n ↦ some (pos (min n (limit - 1))) ]

-- `strtol(value, &end, 10)`; `none` is `end == value`.
unfoldable pub strtol : Bytes → Option ℤ
unfolding skip_spaces is_space is_digit signed_part
strtol value = signed_part (2 ^ 31) (skip_spaces value)

-- `atoll` is 0 where nothing is converted.
unfoldable pub atoll : Bytes → ℤ
unfolding skip_spaces is_space is_digit signed_part
atoll value = elim (signed_part (2 ^ 63) (skip_spaces value)) [ none ↦ pos 0 | some n ↦ n ]

-- The digits of a number in front of `rest`; the fuel `suc n` is enough.
digits : ℕ → ℕ → Bytes → Bytes
digits zero n rest = rest
digits (suc fuel) n rest = elim (ltb n 10) [
  | true ↦ (b'0' + n) ∷ rest
  | false ↦ digits fuel (n / 10) ((b'0' + n % 10) ∷ rest)
]

-- `std::to_string` of a number that is not negative.
unfoldable pub to_string : ℕ → Bytes
unfolding digits
to_string n = digits (suc n) n []

-- `std::to_string` of a signed number.
unfoldable pub to_string_ℤ : ℤ → Bytes
to_string_ℤ (pos n) = to_string n
to_string_ℤ (negsuc n) = b'-' ∷ to_string (suc n)
