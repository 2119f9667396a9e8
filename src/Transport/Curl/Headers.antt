-- ===== src/Transport/Curl/Headers.antt =====
-- No header of a request can carry a second one.
use himmelcloak.Prelude.{
  ℕ, Text, any, all, length, List, [], ◌∷◌, ◌++◌, Option, some, none, Bool, true, not, ◌==◌, ok,
  ok-injective, ensure, ok_or, Error, and_then-eq_ok, ◌≡◌, refl, sym, ◌∙◌, ap, arith,
}
use mathlib.Core.List.{append-nil, append_assoc}
use himmelcloak.Transport.Curl.{
  ends_header, SecretHeaderList, no_headers, append, append_all, zeroize, scrub_nodes, scrub,
}

-- No byte of it ends a header line or a C string.
unfoldable pub is_one_line : Text → Bool
is_one_line header = not (any ends_header header)

ok_or-eq_ok : {A : Type 0} (o : Option A) (e : Error) {a : A} → ok_or o e ≡ ok a → o ≡ some a
ok_or-eq_ok (some a) e h = ground arith
ok_or-eq_ok none e h = ground arith

lengths_of : List Text → List ℕ
lengths_of [] = []
lengths_of (h ∷ hs) = length h ∷ lengths_of hs

lengths_of-append :
    (hs : List Text) (h : Text) → lengths_of (hs ++ h ∷ []) ≡ lengths_of hs ++ length h ∷ []
unfolding lengths_of
lengths_of-append [] h = refl
lengths_of-append (g ∷ hs) h = ap (λ ns. length g ∷ ns) (lengths_of-append hs h)

-- The list that holds copies of these headers, with their lengths.
pub copies : List Text → SecretHeaderList
copies headers = record { head = headers; lengths = lengths_of headers }

-- Every byte of it is zero.
unfoldable pub is_zero : Text → Bool
is_zero bytes = all (λ c. c == 0) bytes

zeroize-is_zero : (bytes : Text) → is_zero (zeroize (length bytes) bytes) ≡ true
unfolding zeroize is_zero all
zeroize-is_zero [] = refl
zeroize-is_zero (c ∷ bytes) = zeroize-is_zero bytes

scrub_nodes-is_zero : (hs : List Text) → all is_zero (scrub_nodes (lengths_of hs) hs) ≡ true
unfolding scrub_nodes all lengths_of
scrub_nodes-is_zero [] = refl
scrub_nodes-is_zero (h ∷ hs) = ground (arith, zeroize-is_zero h, scrub_nodes-is_zero hs)

copies_same :
    {hs hs' : List Text} {ns ns' : List ℕ}
    → hs ≡ hs'
    → ns ≡ ns'
    → ◌≡◌ {A = SecretHeaderList}
        (record { head = hs; lengths = ns })
        (record { head = hs'; lengths = ns' })
copies_same p q = cc

module _ (slist_append : List Text → Text → Option (List Text))
    (appends : (list : List Text) (header : Text) (list' : List Text)
      → slist_append list header ≡ some list'
      → list' ≡ list ++ header ∷ []) where
  append-copies :
      (before : List Text) (h : Text) {list : SecretHeaderList}
      → append slist_append (copies before) h ≡ ok list
      → (is_one_line h ≡ true) × (list ≡ copies (before ++ h ∷ []))
  unfolding append is_one_line copies
  append-copies before h e =
      let (_, clean, e') = and_then-eq_ok (ensure (not (any ends_header h)) _) _ e in
      let (next, added, same) = and_then-eq_ok (ok_or (slist_append before h) _) _ e' in
      (
        ground arith,
        sym (ok-injective same)
            ∙ copies_same (appends before h next (ok_or-eq_ok (slist_append before h) _ added))
                (sym (lengths_of-append before h)),
      )

  append_all-copies :
      (before headers : List Text) {list : SecretHeaderList}
      → append_all slist_append (copies before) headers ≡ ok list
      → (list ≡ copies (before ++ headers)) × (all is_one_line headers ≡ true)
  unfolding append_all all
  append_all-copies before [] e = (sym (ok-injective e) ∙ ap copies (sym (append-nil before)), refl)
  append_all-copies before (h ∷ hs) e =
      let (mid, first, rest) = and_then-eq_ok (append slist_append (copies before) h) _ e in
      let (clean, same) = append-copies before h first in
      let (same', clean') =
        append_all-copies (before ++ h ∷ []) hs
          (ap (λ l. append_all slist_append l hs) (sym same) ∙ rest) in
      (same' ∙ ap copies (append_assoc before (h ∷ []) hs), ground arith)

  -- The list that libcurl gets holds the headers of the request, each whole and in order; none of them has a
  -- byte that would end its line early, since a request with such a header is refused; and scrubbing
  -- the list leaves no byte of them.
  pub append_all-Scrubbed :
      (headers : List Text) {list : SecretHeaderList}
      → append_all slist_append no_headers headers ≡ ok list
      → (list.head ≡ headers)
        × (all is_one_line headers ≡ true)
        × (all is_zero (scrub list).head ≡ true)
  unfolding scrub copies append_all lengths_of
  append_all-Scrubbed headers e =
      let (same, clean) = append_all-copies [] headers e in
      (
        ap (λ (l : SecretHeaderList). l.head) same,
        clean,
        ap (λ (l : SecretHeaderList). all is_zero (scrub_nodes l.lengths l.head)) same
            ∙ scrub_nodes-is_zero headers,
      )
