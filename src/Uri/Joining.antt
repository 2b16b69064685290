-- ===== src/Uri/Joining.antt =====
-- Base URL, path and query: one slash at the seam, and one '?' for the query.
use sm_rest.Prelude.{
  ℕ, ◌≡◌, refl, true, false, [], ◌∷◌, ◌++◌, arith, Bytes, append_assoc, ◌==◌, Bool-cases, inl, inr,
  zero, suc, sym, ap, ◌∙◌, is_empty, append-nil, if◌then◌else◌, ◌&&◌,
}
use sm_rest.Uri.{starts_with, contains, is_absolute_url, pop_slashes, join_path, join_url}

pop_slashes-append_slash : (base : Bytes) → pop_slashes (base ++ b'/' ∷ []) ≡ pop_slashes base
unfolding pop_slashes
pop_slashes-append_slash [] = refl
pop_slashes-append_slash (c ∷ cs) = ground (arith, pop_slashes-append_slash cs)

starts_with-append :
    (value text rest : Bytes)
    → starts_with value text ≡ true
    → starts_with (value ++ rest) text ≡ true
starts_with-append value [] rest h = refl
starts_with-append [] (x ∷ xs) rest h = cc
starts_with-append (y ∷ ys) (x ∷ xs) rest h = ground (arith, starts_with-append ys xs rest)

-- What a string holds, a longer one holds too.
contains-append :
    (text value rest : Bytes) → contains text value ≡ true → contains text (value ++ rest) ≡ true
unfolding contains
contains-append [] [] [] h = refl
contains-append [] [] (d ∷ rest) h = refl
contains-append (x ∷ xs) [] rest h = cc
contains-append text (c ∷ cs) rest h =
    ground (arith, starts_with-append (c ∷ cs) text rest, contains-append text cs rest)

is_absolute_url-slash : (path : Bytes) → is_absolute_url (b'/' ∷ path) ≡ is_absolute_url path
unfolding is_absolute_url contains
is_absolute_url-slash path = refl

pop_slashes_end :
    (base : Bytes) (x : ℕ) → (x == b'/') ≡ false → pop_slashes (base ++ x ∷ []) ≡ base ++ x ∷ []
unfolding pop_slashes
pop_slashes_end [] x h = rw h refl
pop_slashes_end (c ∷ cs) x h = rw (pop_slashes_end cs x h) (kept cs)
  where
    kept :
        (cs : Bytes)
        → (if is_empty (cs ++ x ∷ []) && c == b'/' then [] else c ∷ (cs ++ x ∷ []))
          ≡ c ∷ (cs ++ x ∷ [])
    kept [] = refl
    kept (d ∷ ds) = refl

-- That many slashes.
abbrev pub slash_run : ℕ → Bytes
slash_run zero = []
slash_run (suc n) = b'/' ∷ slash_run n

pop_slashes-slash_run :
    (base : Bytes) (n : ℕ) → pop_slashes (base ++ slash_run n) ≡ pop_slashes base
pop_slashes-slash_run base zero = rw (append-nil base) refl
pop_slashes-slash_run base (suc n) =
    ap pop_slashes (sym (append_assoc base (b'/' ∷ []) (slash_run n)))
    ∙ pop_slashes-slash_run (base ++ b'/' ∷ []) n
    ∙ pop_slashes-append_slash base

join_path-one_slash :
    (base path : Bytes) (c : ℕ)
    → (c == b'/') ≡ false
    → (join_path base (c ∷ path) ≡ base ++ b'/' ∷ c ∷ path)
      × (join_path base (b'/' ∷ c ∷ path) ≡ base ++ b'/' ∷ c ∷ path)
unfolding join_path
join_path-one_slash base path c h = (rw h refl, refl)

-- Let the base URL be a text that ends in another byte than a slash, with any number of slashes behind
-- it, and the path be relative and begin with another byte than a slash, or with one slash before
-- that. The URL is then the text, one slash, and the path without its slash.
pub join_url_slashes :
    (base : Bytes) (x n c : ℕ) (path : Bytes)
    → (x == b'/') ≡ false
    → (c == b'/') ≡ false
    → is_absolute_url (c ∷ path) ≡ false
    → let base_url = (base ++ x ∷ []) ++ slash_run n in
      (join_url base_url (c ∷ path) ≡ (base ++ x ∷ []) ++ b'/' ∷ c ∷ path)
      × (join_url base_url (b'/' ∷ c ∷ path) ≡ (base ++ x ∷ []) ++ b'/' ∷ c ∷ path)
unfolding join_url
join_url_slashes base x n c path p q r =
    let popped = pop_slashes-slash_run (base ++ x ∷ []) n ∙ pop_slashes_end base x p in
    let one = join_path-one_slash (base ++ x ∷ []) path c q in
    (
      rw (r, nonempty base x (slash_run n), popped) one.0,
      rw (is_absolute_url-slash (c ∷ path), r, nonempty base x (slash_run n), popped) one.1,
    )
  where
    nonempty : (b : Bytes) (y : ℕ) (rest : Bytes) → is_empty ((b ++ y ∷ []) ++ rest) ≡ false
    nonempty [] y rest = refl
    nonempty (d ∷ ds) y rest = refl

is_absolute_url-append :
    (base rest : Bytes) → is_absolute_url base ≡ true → is_absolute_url (base ++ rest) ≡ true
unfolding is_absolute_url
is_absolute_url-append base rest h = contains-append (b':' ∷ b'/' ∷ b'/' ∷ []) base rest h

is_absolute_url-join_path :
    (base path : Bytes) → is_absolute_url base ≡ true → is_absolute_url (join_path base path) ≡ true
unfolding join_path
is_absolute_url-join_path base [] h = h
is_absolute_url-join_path base (c ∷ path) h = ground (
  arith,
  is_absolute_url-append base (c ∷ path) h,
  is_absolute_url-append base (b'/' ∷ c ∷ path) h,
)

-- A relative path under a base URL that is absolute without its slashes gives an absolute URL, so
-- such a client passes the check of `Send`; an absolute path is taken as it is.
pub is_absolute_url-join_url :
    (base_url path : Bytes)
    → is_absolute_url (pop_slashes base_url) ≡ true
    → is_absolute_url (join_url base_url path) ≡ true
unfolding join_url is_absolute_url contains pop_slashes
is_absolute_url-join_url [] path h = cc h
is_absolute_url-join_url (b ∷ base) path h = elim (Bool-cases (is_absolute_url path)) [
  | inl a ↦ rw (a, a)
  | inr r ↦ rw r (is_absolute_url-join_path (pop_slashes (b ∷ base)) path h)
]
