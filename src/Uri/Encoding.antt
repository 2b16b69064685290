-- ===== src/Uri/Encoding.antt =====
-- `UriEncode` is undone by percent decoding, and its result is safe in a URL.
use sm_rest.Prelude.{
  ℕ, ◌+◌, ◌-◌, ◌*◌, ◌/◌, ◌%◌, ◌<◌, ◌≡◌, refl, ap, Bool, true, false, ◌||◌, [], ◌∷◌, arith, Bytes,
  all, leb, ◌==◌, if◌then◌else◌, Bool-cases, inl, inr,
}
use sm_rest.Uri.{is_unreserved, hex, uri_encode}

-- The value of an upper-case hexadecimal digit.
unfoldable pub unhex : ℕ → ℕ
unhex c = if leb c b'9' then c - b'0' else c - b'7'

-- Percent decoding, as a receiver of the URL does it.
unfoldable pub uri_decode : Bytes → Bytes
uri_decode [] = []
uri_decode (c ∷ []) = c ∷ []
uri_decode (c ∷ h ∷ []) = c ∷ h ∷ []
uri_decode (c ∷ h ∷ l ∷ cs) =
    let coded = uri_decode cs in
    let plain = uri_decode (h ∷ l ∷ cs) in
    if c == b'%' then (unhex h * 16 + unhex l) ∷ coded else c ∷ plain

-- Every byte of the string is one.
abbrev pub AreBytes : Bytes → Type 0
AreBytes [] = Unit {0}
AreBytes (c ∷ cs) = (c < 256) × AreBytes cs

unhex-hex : (d : ℕ) → d < 16 → unhex (hex d) ≡ d
unfolding unhex hex
unhex-hex d h = ground arith

unreserved-ne-percent : (c : ℕ) → is_unreserved c ≡ true → (c == b'%') ≡ false
unfolding is_unreserved
unreserved-ne-percent c h = ground arith

decode-plain : (c : ℕ) (cs : Bytes) → (c == b'%') ≡ false → uri_decode (c ∷ cs) ≡ c ∷ uri_decode cs
unfolding uri_decode
decode-plain c [] h = refl
decode-plain c (d ∷ []) h = refl
decode-plain c (d ∷ e ∷ cs) h = rw h

decode-coded :
    (c : ℕ) (cs : Bytes)
    → c < 256
    → uri_decode (b'%' ∷ hex (c / 16) ∷ hex (c % 16) ∷ cs) ≡ c ∷ uri_decode cs
unfolding uri_decode
decode-coded c cs h =
    rw (unhex-hex (c / 16) (omega arith), unhex-hex (c % 16) (omega arith))
      (ap (λ d. d ∷ uri_decode cs) (omega arith))

-- Decoding an encoded string of bytes gives the string back: no two strings are encoded alike.
pub uri_decode-uri_encode : (input : Bytes) → AreBytes input → uri_decode (uri_encode input) ≡ input
unfolding uri_encode uri_decode
uri_decode-uri_encode [] h = refl
uri_decode-uri_encode (c ∷ input) h = elim (Bool-cases (is_unreserved c)) [
  | inl p ↦
      rw (p, decode-plain c (uri_encode input) (unreserved-ne-percent c p))
        (ap (◌∷◌ c) (uri_decode-uri_encode input h.1))
  | inr p ↦
      rw (p, decode-coded c (uri_encode input) h.0) (ap (◌∷◌ c) (uri_decode-uri_encode input h.1))
]

-- What may stand in a query as it is: an unreserved byte, or the '%' of a code.
abbrev pub is_query_byte : ℕ → Bool
is_query_byte c = is_unreserved c || c == b'%'

hex-is_unreserved : (d : ℕ) → d < 16 → is_unreserved (hex d) ≡ true
unfolding hex is_unreserved
hex-is_unreserved d h = ground arith

-- An encoded string of bytes has unreserved bytes and '%' only: no separator, and no blank.
pub uri_encode_safe : (input : Bytes) → AreBytes input → all is_query_byte (uri_encode input) ≡ true
unfolding uri_encode
uri_encode_safe [] h = refl
uri_encode_safe (c ∷ input) h =
    ground
      (arith, uri_encode_safe input h.1, hex-is_unreserved (c / 16), hex-is_unreserved (c % 16))
