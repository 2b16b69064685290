-- ===== src/Native/Forms.antt =====
-- The query and the form body of a request can be decoded to what was put in.
use sm_rest.Prelude.{
  ℕ, ◌≡◌, refl, sym, ap, ◌∙◌, Bool, true, false, not, List, [], ◌∷◌, ◌++◌, append_assoc, append-nil,
  arith, Bytes, all, is_empty, if◌then◌else◌, ◌==◌, all-append, map,
}
use sm_rest.Request.{FormField, RequestSpec}
use sm_rest.Uri.{uri_encode, is_unreserved}
use sm_rest.Uri.Encoding.{
  uri_decode, AreBytes, uri_decode-uri_encode, is_query_byte, uri_encode_safe,
}
use sm_rest.Native.{set_query, build_form_from, build_form_body}

abbrev onto_first : ℕ → List Bytes → List Bytes
onto_first c [] = (c ∷ []) ∷ []
onto_first c (piece ∷ pieces) = (c ∷ piece) ∷ pieces

-- The pieces between the separators.
unfoldable pub split : ℕ → Bytes → List Bytes
split separator [] = [] ∷ []
split separator (c ∷ cs) =
    let rest = split separator cs in if c == separator then [] ∷ rest else onto_first c rest

-- What stands before the first separator, and what after it.
unfoldable pub cut : ℕ → Bytes → Bytes × Bytes
cut separator [] = ([], [])
cut separator (c ∷ cs) =
    let rest = cut separator cs in if c == separator then ([], cs) else (c ∷ rest.0, rest.1)

abbrev pub decode_pair : Bytes → Bytes × Bytes
decode_pair piece = (uri_decode (cut b'=' piece).0, uri_decode (cut b'=' piece).1)

-- `application/x-www-form-urlencoded`, as a server reads it.
unfoldable pub decode_form : Bytes → List (Bytes × Bytes)
decode_form body = map decode_pair (split b'&' body)

abbrev is_other : ℕ → ℕ → Bool
is_other separator c = not (c == separator)

split_free :
    (separator : ℕ) (xs : Bytes) → all (is_other separator) xs ≡ true → split separator xs ≡ xs ∷ []
unfolding split
split_free separator [] free = refl
split_free separator (x ∷ xs) free = ground (arith, split_free separator xs)

onto_first-is_empty : (c : ℕ) (pieces : List Bytes) → is_empty (onto_first c pieces) ≡ false
onto_first-is_empty c [] = refl
onto_first-is_empty c (piece ∷ pieces) = refl

split-is_empty : (separator : ℕ) (xs : Bytes) → is_empty (split separator xs) ≡ false
unfolding split
split-is_empty separator [] = refl
split-is_empty separator (x ∷ xs) = ground (arith, onto_first-is_empty x (split separator xs))

onto_first-append :
    (c : ℕ) (pieces last : List Bytes)
    → is_empty pieces ≡ false
    → onto_first c (pieces ++ last) ≡ onto_first c pieces ++ last
onto_first-append c [] last h = absurd cc
onto_first-append c (piece ∷ pieces) last h = refl

split_seam :
    (separator : ℕ) (xs ys : Bytes)
    → all (is_other separator) ys ≡ true
    → split separator (xs ++ separator ∷ ys) ≡ split separator xs ++ ys ∷ []
unfolding split
split_seam separator [] ys free = ground (arith, split_free separator ys free)
split_seam separator (x ∷ xs) ys free = rw (split_seam separator xs ys free) (
    ground
      (arith, onto_first-append x (split separator xs) (ys ∷ []) (split-is_empty separator xs)))

cut_seam :
    (separator : ℕ) (xs ys : Bytes)
    → all (is_other separator) xs ≡ true
    → cut separator (xs ++ separator ∷ ys) ≡ (xs, ys)
unfolding cut
cut_seam separator [] ys free = ground arith
cut_seam separator (x ∷ xs) ys free = ground (arith, cut_seam separator xs ys)

-- One name and its value, as they stand in a query or a form.
abbrev pair_text : Bytes → Bytes → Bytes
pair_text name value = uri_encode name ++ b'=' ∷ uri_encode value

query_byte-is_other :
    (c : ℕ) → is_query_byte c ≡ true → (is_other b'&' c ≡ true) × (is_other b'=' c ≡ true)
unfolding is_unreserved
query_byte-is_other c h = ground arith

query_bytes-are_other :
    (xs : Bytes)
    → all is_query_byte xs ≡ true
    → (all (is_other b'&') xs ≡ true) × (all (is_other b'=') xs ≡ true)
query_bytes-are_other [] h = (refl, refl)
query_bytes-are_other (x ∷ xs) h = ground (arith, query_byte-is_other x, query_bytes-are_other xs)

pair_text_free :
    (name value : Bytes)
    → AreBytes name
    → AreBytes value
    → all (is_other b'&') (pair_text name value) ≡ true
pair_text_free name value n v = ground (
  arith,
  all-append (is_other b'&') (uri_encode name) (b'=' ∷ uri_encode value),
  query_bytes-are_other (uri_encode name) (uri_encode_safe name n),
  query_bytes-are_other (uri_encode value) (uri_encode_safe value v),
)

decode_pair_text :
    (name value : Bytes)
    → AreBytes name
    → AreBytes value
    → decode_pair (pair_text name value) ≡ (name, value)
decode_pair_text name value n v = rw (
  cut_seam b'=' (uri_encode name) (uri_encode value)
      (query_bytes-are_other (uri_encode name) (uri_encode_safe name n)).1,
  uri_decode-uri_encode name n,
  uri_decode-uri_encode value v,
)

decode_form_one :
    (name value : Bytes)
    → AreBytes name
    → AreBytes value
    → decode_form (pair_text name value) ≡ (name, value) ∷ []
unfolding decode_form
decode_form_one name value n v =
    rw (split_free b'&' (pair_text name value) (pair_text_free name value n v))
      (ap (λ pair. pair ∷ []) (decode_pair_text name value n v))

map-append_one :
    (pieces : List Bytes) (last : Bytes)
    → map decode_pair (pieces ++ last ∷ []) ≡ map decode_pair pieces ++ decode_pair last ∷ []
map-append_one [] last = refl
map-append_one (piece ∷ pieces) last =
    ap (λ pairs. decode_pair piece ∷ pairs) (map-append_one pieces last)

decode_form_seam :
    (body name value : Bytes)
    → AreBytes name
    → AreBytes value
    → decode_form (body ++ b'&' ∷ pair_text name value) ≡ decode_form body ++ (name, value) ∷ []
unfolding decode_form
decode_form_seam body name value n v = rw (
  split_seam b'&' body (pair_text name value) (pair_text_free name value n v),
  map-append_one (split b'&' body) (pair_text name value),
  decode_pair_text name value n v,
)

-- A text with one more pair at its end.
abbrev added : Bytes → Bytes → Bytes → Bytes
added body name value = (if is_empty body then body else body ++ b'&' ∷ []) ++ pair_text name value

decode_form-added :
    (body name value : Bytes)
    → AreBytes name
    → AreBytes value
    → decode_form (added body name value)
      ≡ (if is_empty body then [] else decode_form body) ++ (name, value) ∷ []
decode_form-added [] name value n v = decode_form_one name value n v
decode_form-added (c ∷ body) name value n v =
    rw (append_assoc body (b'&' ∷ []) (pair_text name value))
      (decode_form_seam (c ∷ body) name value n v)

-- `SetQuery` adds one parameter at the end, and a server decodes it, and those before it, as they
-- were given, whatever bytes they have.
pub decode_form-set_query :
    (spec : RequestSpec) (name value : Bytes)
    → AreBytes name
    → AreBytes value
    → decode_form (set_query spec name value).query
      ≡ (if is_empty spec.query then [] else decode_form spec.query) ++ (name, value) ∷ []
unfolding set_query
decode_form-set_query spec name value n v = decode_form-added spec.query name value n v

-- Every name and value of a form are bytes.
abbrev pub AreFormBytes : List FormField → Type 0
AreFormBytes [] = Unit {0}
AreFormBytes (field ∷ fields) = AreBytes field.name × AreBytes field.value × AreFormBytes fields

abbrev pub pairs_of : List FormField → List (Bytes × Bytes)
pairs_of [] = []
pairs_of (field ∷ fields) = (field.name, field.value) ∷ pairs_of fields

seam-is_empty : (xs : Bytes) (c : ℕ) (ys : Bytes) → is_empty (xs ++ c ∷ ys) ≡ false
seam-is_empty [] c ys = refl
seam-is_empty (x ∷ xs) c ys = refl

added-is_empty : (body name value : Bytes) → is_empty (added body name value) ≡ false
added-is_empty [] name value = seam-is_empty (uri_encode name) b'=' (uri_encode value)
added-is_empty (c ∷ body) name value = refl

decode_form-build_form_from :
    (body : Bytes) (fields : List FormField)
    → is_empty body ≡ false
    → AreFormBytes fields
    → decode_form (build_form_from body fields) ≡ decode_form body ++ pairs_of fields
unfolding build_form_from
decode_form-build_form_from body [] full h = sym (append-nil (decode_form body))
decode_form-build_form_from body (field ∷ fields) full h =
    decode_form-build_form_from (added body field.name field.value) fields
      (added-is_empty body field.name field.value) h.2
    ∙ rw (decode_form-added body field.name field.value h.0 h.1, full)
        (append_assoc (decode_form body) ((field.name, field.value) ∷ []) (pairs_of fields))

-- A server decodes the body of a form to the names and values of its fields, in their order.
pub decode_form-build_form_body :
    (field : FormField) (fields : List FormField)
    → AreFormBytes (field ∷ fields)
    → decode_form (build_form_body (field ∷ fields)) ≡ pairs_of (field ∷ fields)
unfolding build_form_body build_form_from
decode_form-build_form_body field fields h =
    decode_form-build_form_from (added [] field.name field.value) fields
      (added-is_empty [] field.name field.value) h.2
    ∙ rw (decode_form_one field.name field.value h.0 h.1) refl
