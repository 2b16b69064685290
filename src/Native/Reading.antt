-- ===== src/Native/Reading.antt =====
-- A response body is read whole, a part at a time.
use sm_rest.Prelude.{
  ℕ, zero, suc, ◌+◌, ◌-◌, ◌≤◌, ◌<◌, ◌≡◌, refl, sym, ap, ◌∙◌, min, true, false, [], ◌∷◌, ◌++◌, none,
  some, arith, Bytes, length, take, drop, is_empty, length-take, take-append-drop, length-drop,
  drop-drop, drop_all, if◌then◌else◌, if_cases,
}
use sm_rest.Prelude.Int.{pos}
use sm_rest.Native.{read_body}

empty_length : (xs : Bytes) → is_empty xs ≡ true → length xs ≡ 0
empty_length [] h = refl
empty_length (x ∷ xs) h = absurd cc

full_length : (xs : Bytes) → is_empty xs ≡ false → 1 ≤ length xs
full_length [] h = absurd cc
full_length (x ∷ xs) h = omega arith

-- A plugin that reads on, by at most `size` bytes, from where its last read ended, until a read
-- gives nothing or it has read as often as it wants to.
unfoldable pub read_on : ℕ → Bytes → ℕ → ℕ → Bytes
read_on zero body size offset = []
read_on (suc reads) body size offset = elim (read_body body (pos offset) (pos size)) [
  | none ↦ []
  | some part ↦
      let rest = read_on reads body size (offset + length part) in
      if is_empty part then [] else part ++ rest
]

-- The bytes that a read gives.
abbrev part_at : Bytes → ℕ → ℕ → Bytes
part_at body size offset = take (min size (length body - offset)) (drop offset body)

read_body_part :
    (body : Bytes) (size offset : ℕ)
    → offset ≤ length body
    → read_body body (pos offset) (pos size) ≡ some (part_at body size offset)
unfolding read_body
read_body_part body size offset h = ground arith

length-part_at :
    (body : Bytes) (size offset : ℕ)
    → length (part_at body size offset) ≡ min size (length body - offset)
length-part_at body size offset = omega (
  arith,
  length-take (min size (length body - offset)) (drop offset body),
  length-drop offset body,
)

read_on_rest :
    (reads : ℕ) (body : Bytes) (size offset : ℕ)
    → 0 < size
    → offset ≤ length body
    → length body ≤ offset + reads
    → read_on reads body size offset ≡ drop offset body
unfolding read_on
read_on_rest zero body size offset s h r = sym (drop_all offset body (omega arith))
read_on_rest (suc reads) body size offset s h r =
    let part = part_at body size offset in
    let taken = length-part_at body size offset in
    rw (read_on, read_body_part body size offset h)
      (if_cases (λ read. read ≡ drop offset body) (is_empty part) _ _
        (λ empty. sym (drop_all offset body (omega (arith, empty_length part empty, taken))))
        (λ full.
          let more = full_length part full in
          ap (λ rest. part ++ rest)
            (read_on_rest reads body size (offset + length part) s (omega (arith, taken))
                (omega (arith, taken, more))
              ∙ sym (drop-drop (length part) offset body)
              ∙ ap (λ k. drop k (drop offset body)) taken)
          ∙ take-append-drop (min size (length body - offset)) (drop offset body)))

-- Reading on in parts of one size, whatever it is, gives the whole body, byte for byte, after at most
-- as many reads as the body has bytes.
pub read_on_whole : (body : Bytes) (size : ℕ) → 0 < size → read_on (length body) body size 0 ≡ body
read_on_whole body size s = read_on_rest (length body) body size 0 s (omega arith) (omega arith)
