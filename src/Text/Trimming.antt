-- ===== src/Text/Trimming.antt =====
-- What `Trim` cuts off, and what it keeps.
use sm_rest.Prelude.{
  ℕ, suc, ◌≡◌, refl, ap, sym, ◌∙◌, Bool, true, false, not, inl, inr, none, some, [], ◌∷◌, ◌++◌,
  arith, Bytes, take, all, Bool-cases, Option-cases,
}
use sm_rest.Text.{is_blank, find_last_not_of, trim}

abbrev pub starts_clear : Bytes → Bool
starts_clear [] = true
starts_clear (c ∷ cs) = not (is_blank c)

abbrev pub ends_clear : Bytes → Bool
ends_clear [] = true
ends_clear (c ∷ []) = not (is_blank c)
ends_clear (c ∷ d ∷ ds) = ends_clear (d ∷ ds)

-- `text` is `value` without the blanks at both ends.
pub record IsTrim (value text : Bytes) : Type 0 where
  pub front : Bytes
  pub back : Bytes
  pub split : value ≡ front ++ text ++ back
  pub front_blank : all is_blank front ≡ true
  pub back_blank : all is_blank back ≡ true
  pub starts : starts_clear text ≡ true
  pub ends : ends_clear text ≡ true

-- The string up to its last byte that is no blank.
trim_right : Bytes → Bytes
trim_right cs = elim (find_last_not_of cs) [ none ↦ [] | some k ↦ take (suc k) cs ]

trim_right-clear :
    (c : ℕ) (cs : Bytes) → is_blank c ≡ false → trim_right (c ∷ cs) ≡ c ∷ trim_right cs
unfolding trim_right find_last_not_of
trim_right-clear c cs h = ground arith

record Cut (cs text : Bytes) : Type 0 where
  back : Bytes
  split : cs ≡ text ++ back
  back_blank : all is_blank back ≡ true
  ends : ends_clear text ≡ true

last_none : (cs : Bytes) → find_last_not_of cs ≡ none → all is_blank cs ≡ true
unfolding find_last_not_of
last_none [] h = refl
last_none (c ∷ cs) h = ground (arith, last_none cs)

ends_clear-cons :
    (c : ℕ) (k : ℕ) (cs : Bytes)
    → find_last_not_of cs ≡ some k
    → ends_clear (take (suc k) cs) ≡ true
    → ends_clear (c ∷ take (suc k) cs) ≡ true
unfolding find_last_not_of
ends_clear-cons c k [] h e = cc
ends_clear-cons c k (d ∷ ds) h e = e

last_some : (cs : Bytes) (k : ℕ) → find_last_not_of cs ≡ some k → Cut cs (take (suc k) cs)
unfolding find_last_not_of
last_some [] k h = cc
last_some (c ∷ cs) k h = elim (Option-cases (find_last_not_of cs)) [
  | inl p ↦ record {
    back = cs;
    split = ground arith;
    back_blank = last_none cs p;
    ends = ground arith;
  }
  | inr (j, p) ↦
      let rest = last_some cs j p in
      let e : k ≡ suc j = ground arith in
      rw e (record {
        back = rest.back;
        split = ap (◌∷◌ c) rest.split;
        back_blank = rest.back_blank;
        ends = ends_clear-cons c j cs p rest.ends;
      })
]

cut : (cs : Bytes) → Cut cs (trim_right cs)
unfolding trim_right
cut cs = elim (Option-cases (find_last_not_of cs)) [
  | inl p ↦
      rw (p, trim_right)
        (record { back = cs; split = refl; back_blank = last_none cs p; ends = refl })
  | inr (k, p) ↦ rw (p, trim_right) (last_some cs k p)
]

trim-blank : (c : ℕ) (cs : Bytes) → is_blank c ≡ true → trim (c ∷ cs) ≡ trim cs
unfolding trim
trim-blank c cs h = ground arith

trim-clear : (c : ℕ) (cs : Bytes) → is_blank c ≡ false → trim (c ∷ cs) ≡ c ∷ trim_right cs
unfolding trim trim_right
trim-clear c cs h = ground arith

ends_clear-trim_right :
    (c : ℕ) (text : Bytes)
    → is_blank c ≡ false
    → ends_clear text ≡ true
    → ends_clear (c ∷ text) ≡ true
ends_clear-trim_right c [] h e = rw h
ends_clear-trim_right c (d ∷ ds) h e = e

-- `Trim` cuts off blanks only, at the ends only, and all of them there.
pub trim-IsTrim : (value : Bytes) → IsTrim value (trim value)
unfolding trim
trim-IsTrim [] = record {
  front = [];
  back = [];
  split = refl;
  front_blank = refl;
  back_blank = refl;
  starts = refl;
  ends = refl;
}
trim-IsTrim (c ∷ cs) = elim (Bool-cases (is_blank c)) [
  | inl h ↦
      let rest = trim-IsTrim cs in
      rw (trim-blank c cs h) (record {
        front = c ∷ rest.front;
        back = rest.back;
        split = ap (◌∷◌ c) rest.split;
        front_blank = ground arith;
        back_blank = rest.back_blank;
        starts = rest.starts;
        ends = rest.ends;
      })
  | inr h ↦
      let rest = cut cs in
      rw (trim-clear c cs h) (record {
        front = [];
        back = rest.back;
        split = ap (◌∷◌ c) rest.split;
        front_blank = refl;
        back_blank = rest.back_blank;
        starts = rw h;
        ends = ends_clear-trim_right c (trim_right cs) h rest.ends;
      })
]

trim_right-cons :
    (c d : ℕ) (cs ds : Bytes) → trim_right cs ≡ d ∷ ds → trim_right (c ∷ cs) ≡ c ∷ d ∷ ds
unfolding trim_right find_last_not_of
trim_right-cons c d cs ds h = ground arith

trim_right_of_clear : (text : Bytes) → ends_clear text ≡ true → trim_right text ≡ text
unfolding trim_right find_last_not_of
trim_right_of_clear [] h = refl
trim_right_of_clear (c ∷ []) h = ground arith
trim_right_of_clear (c ∷ d ∷ ds) h =
    trim_right-cons c d (d ∷ ds) ds (trim_right_of_clear (d ∷ ds) h)

trim_of_clear :
    (text : Bytes) → starts_clear text ≡ true → ends_clear text ≡ true → trim text ≡ text
unfolding trim
trim_of_clear [] s e = refl
trim_of_clear (c ∷ cs) s e =
    let clear : is_blank c ≡ false = ground arith in
    trim-clear c cs clear ∙ sym (trim_right-clear c cs clear) ∙ trim_right_of_clear (c ∷ cs) e

-- Trimming twice is trimming once.
pub trim_idem : (value : Bytes) → trim (trim value) ≡ trim value
trim_idem value =
    let cut_off = trim-IsTrim value in trim_of_clear (trim value) cut_off.starts cut_off.ends
