-- ===== src/Numbers/Decimal.antt =====
-- What `std::to_string` prints, `strtol` reads back.
use sm_rest.Prelude.{
  ℕ, zero, suc, ◌+◌, ◌-◌, ◌*◌, ◌/◌, ◌%◌, ◌^◌, ◌≤◌, ◌<◌, ◌≡◌, refl, ◌∙◌, min, true, some, [], ◌∷◌,
  arith, Bytes, ap,
}
use native.Mathlib.Decide.{dec_lt}
use sm_rest.Prelude.Int.{pos}
use sm_rest.Numbers.{
  is_digit, is_space, skip_spaces, read_digits, signed_part, strtol, digits, to_string,
}

-- A text that begins with a digit.
unfoldable pub IsNumeral : Bytes → Type 0
IsNumeral s = (c : ℕ) × (cs : Bytes) × (s ≡ c ∷ cs) × (is_digit c ≡ true)

digits-small : (fuel n : ℕ) (rest : Bytes) → n < 10 → digits (suc fuel) n rest ≡ (b'0' + n) ∷ rest
unfolding digits
digits-small fuel n rest h = ground arith

digits-large :
    (fuel n : ℕ) (rest : Bytes)
    → 10 ≤ n
    → digits (suc fuel) n rest ≡ digits fuel (n / 10) ((b'0' + n % 10) ∷ rest)
unfolding digits
digits-large fuel n rest h = ground arith

read_digits-digit :
    (acc d : ℕ) (rest : Bytes)
    → d < 10
    → read_digits acc ((b'0' + d) ∷ rest) ≡ read_digits (acc * 10 + d) rest
unfolding read_digits is_digit
read_digits-digit acc d rest h = let e : b'0' + d - b'0' ≡ d = omega arith in rw e (ground arith)

digits-read :
    (fuel n : ℕ) (rest : Bytes) → n < fuel → read_digits 0 (digits fuel n rest) ≡ read_digits n rest
digits-read zero n rest h = absurd (omega arith)
digits-read (suc fuel) n rest h = elim (dec_lt n 10) [
  | yes small ↦
      rw (digits-small fuel n rest small, read_digits-digit 0 n rest small)
        (ap (λ (k : ℕ). read_digits k rest) (omega arith))
  | no large ↦
      rw
        (
          digits-large fuel n rest (omega arith),
          digits-read fuel (n / 10) ((b'0' + n % 10) ∷ rest) (omega arith),
          read_digits-digit (n / 10) (n % 10) rest (omega arith),
        )
        (ap (λ (k : ℕ). read_digits k rest) (omega arith))
]

digits-IsNumeral : (fuel n : ℕ) (rest : Bytes) → n < fuel → IsNumeral (digits fuel n rest)
unfolding IsNumeral is_digit
digits-IsNumeral zero n rest h = absurd (omega arith)
digits-IsNumeral (suc fuel) n rest h = elim (dec_lt n 10) [
  | yes small ↦ rw (digits-small fuel n rest small) (b'0' + n, rest, refl, ground arith)
  | no large ↦
      rw (digits-large fuel n rest (omega arith)) (digits-IsNumeral fuel (n / 10) _ (omega arith))
]

signed_part-digit :
    (limit c : ℕ) (cs : Bytes)
    → is_digit c ≡ true
    → signed_part limit (c ∷ cs) ≡ some (pos (min (read_digits 0 (c ∷ cs)) (limit - 1)))
unfolding signed_part is_digit
signed_part-digit limit c cs d = ground arith

skip_spaces-digit : (c : ℕ) (cs : Bytes) → is_digit c ≡ true → skip_spaces (c ∷ cs) ≡ c ∷ cs
unfolding skip_spaces is_digit is_space
skip_spaces-digit c cs d = ground arith

pub strtol-IsNumeral :
    (s : Bytes) → IsNumeral s → strtol s ≡ some (pos (min (read_digits 0 s) (2 ^ 31 - 1)))
unfolding IsNumeral strtol
strtol-IsNumeral s (c, cs, e, d) =
    rw (e, skip_spaces-digit c cs d) (signed_part-digit (2 ^ 31) c cs d)

pub to_string-IsNumeral : (n : ℕ) → IsNumeral (to_string n)
unfolding to_string
to_string-IsNumeral n = digits-IsNumeral (suc n) n [] (omega arith)

pub read_digits-to_string : (n : ℕ) → read_digits 0 (to_string n) ≡ n
unfolding to_string read_digits
read_digits-to_string n = digits-read (suc n) n [] (omega arith)

-- A number below 2^31, printed by `std::to_string`, is read back by `strtol`.
pub strtol-to_string : (n : ℕ) → n < 2 ^ 31 → strtol (to_string n) ≡ some (pos n)
strtol-to_string n h =
    strtol-IsNumeral (to_string n) (to_string-IsNumeral n)
    ∙ rw (read_digits-to_string n) (ap (λ (k : ℕ). some (pos k)) (omega arith))
