-- ===== src/Flow/Form/Action.antt =====
-- Where an extracted form posts, and what it carries.
use mathlib.Core.List.{reverse, reverse-append, reverse-reverse}
use mathlib.Core.Path.{subst}
use himmelcloak.Prelude.{
  Text, text, text_eq, text_eq_sound, contains_sound, contains_complete, strip_prefix,
  strip_prefix_lem, decode, is_some, null, any_elim, all, all_elim, filter, mem-filter, mem-map,
  List, [], ◌∷◌, ◌++◌, Option, none, some, true, not, ◌&&◌, ok, ◌≡◌, ◌≢◌, inl, inr, refl, sym, ap,
  ◌∙◌, arith, Memᴰ, and_elim, Bool-cases, Option-cases, Result-cases, All, mem-append_left,
  mem-append_last,
}
use himmelcloak.Platform.{UrlLib, OriginLaws}
use himmelcloak.Flow.Types.{PageKind}
use himmelcloak.Flow.Fetch.{Page}
use himmelcloak.Flow.Classify.Scan.{Scan, Control, Token, run}
use himmelcloak.Flow.Classify.Kind.{kind}
use himmelcloak.Flow.Form.{
  Form, ends_with, action_path_suffix, action_query, no_repeats, has_value, on_site, check_action,
  action_url, extract, extract_scan, build_form, posted_fields, submitted, field_of, uses_post,
}

-- No name of the query stands twice.
abbrev pub NoRepeats : List (Text × Text) → Type 0
NoRepeats [] = Unit
NoRepeats (p ∷ ps) = All (λ (q : Text × Text). p.0 ≢ q.0) ps × NoRepeats ps

-- A form's address, checked against its page: HTTPS on the page's own origin, the path of
-- `login-actions/authenticate`, and each session value present, not empty and given once.
pub record IsLoginAction (L : UrlLib) (page action : L.Url) : Type 0 where
  pub https : L.scheme action ≡ text "https"
  pub same_site : L.origin action ≡ L.origin page
  pub path : (base : Text) × (L.path action ≡ base ++ action_path_suffix)
  pub once : NoRepeats (L.query_pairs action)
  pub session :
      (name : Text)
      → Memᴰ name action_query
      → (p : Text × Text) × Memᴰ p (L.query_pairs action) × (p.0 ≡ name) × (p.1 ≢ [])

ends_with_sound :
    (s suffix : Text) → ends_with s suffix ≡ true → (base : Text) × (s ≡ base ++ suffix)
unfolding ends_with
ends_with_sound s suffix h = elim (Option-cases (strip_prefix (reverse suffix) (reverse s))) [
  | inl e ↦ absurd (ground arith)
  | inr (r, e) ↦ (
    reverse r,
    sym (reverse-reverse s)
        ∙ ap reverse (strip_prefix_lem (reverse suffix) (reverse s) {r = r} e)
        ∙ reverse-append (reverse suffix) r
        ∙ ap (λ t. reverse r ++ t) (reverse-reverse suffix),
  )
]

no_repeats-before :
    (name : Text) (before : List Text) (ps : List (Text × Text))
    → Memᴰ name before
    → no_repeats before ps ≡ true
    → All (λ (q : Text × Text). name ≢ q.0) ps
unfolding no_repeats
no_repeats-before name before [] m h = tt
no_repeats-before name before ((n, v) ∷ ps) m h = (
  λ q. (let known = contains_complete (rw q at m) in ground arith),
  no_repeats-before name (before ++ n ∷ []) ps (mem-append_left (n ∷ []) m) (and_elim _ _ h).1,
)

no_repeats-NoRepeats :
    (before : List Text) (ps : List (Text × Text)) → no_repeats before ps ≡ true → NoRepeats ps
unfolding no_repeats
no_repeats-NoRepeats before [] h = tt
no_repeats-NoRepeats before ((n, v) ∷ ps) h =
    let rest = (and_elim _ _ h).1 in
    (
      no_repeats-before n (before ++ n ∷ []) ps (mem-append_last before n) rest,
      no_repeats-NoRepeats (before ++ n ∷ []) ps rest,
    )

not-null_sound : (t : Text) → not (null t) ≡ true → t ≢ []
not-null_sound [] h q = cc
not-null_sound (c ∷ cs) h q = cc

has_value_sound :
    (pairs : List (Text × Text)) (name : Text)
    → has_value pairs name ≡ true
    → (p : Text × Text) × Memᴰ p pairs × (p.0 ≡ name) × (p.1 ≢ [])
unfolding has_value
has_value_sound pairs name h =
    let (p, m, e) = any_elim (λ (p : Text × Text). text_eq p.0 name && not (null p.1)) pairs h in
    (p, m, text_eq_sound p.0 name (and_elim _ _ e).0, not-null_sound p.1 (and_elim _ _ e).1)

module _ {L : UrlLib} (laws : OriginLaws L) where
  check_action-tests :
      (page action : L.Url)
      → check_action L page action ≡ ok tt
      → (on_site L page action ≡ true)
        × (ends_with (L.path action) action_path_suffix ≡ true)
        × (no_repeats [] (L.query_pairs action) ≡ true)
        × (all (has_value (L.query_pairs action)) action_query ≡ true)
  unfolding check_action
  check_action-tests page action h = ground arith

  check_action-IsLoginAction :
      (page action : L.Url) → check_action L page action ≡ ok tt → IsLoginAction L page action
  unfolding on_site
  check_action-IsLoginAction page action h =
      let (site, path, once, session) = check_action-tests page action h in
      record {
        https = text_eq_sound _ _ (and_elim _ _ site).0;
        same_site = (laws.same_origin_iff _ _).0 (and_elim _ _ site).1;
        path = ends_with_sound _ _ path;
        once = no_repeats-NoRepeats [] _ once;
        session = λ name m.
            has_value_sound _ name (all_elim (has_value (L.query_pairs action)) m session);
      }

  action_url-IsLoginAction :
      (page : L.Url) (raw : Option Text) {action : L.Url}
      → action_url L page raw ≡ ok action
      → IsLoginAction L page action
  unfolding action_url
  action_url-IsLoginAction page none h = absurd (ground arith)
  action_url-IsLoginAction page (some []) h = absurd (ground arith)
  action_url-IsLoginAction page (some (c ∷ cs)) {action} h =
      elim (Option-cases (L.join page (c ∷ cs))) [
        | inl e ↦ absurd (ground arith)
        | inr (joined, e) ↦ elim (Result-cases (check_action L page joined)) [
          | inl (u, ok') ↦
              (let same : joined ≡ action = ground arith in
                subst (IsLoginAction L page) same (check_action-IsLoginAction page joined (ok')))
          | inr (x, bad) ↦ absurd (ground arith)
        ]
      ]

-- A field is posted only if the page's kind allows it.
abbrev pub PostsOnly : {L : UrlLib} → PageKind → Form L → Type 0
PostsOnly k form = (f : Text × Text) → Memᴰ f form.fields → Memᴰ f.0 (posted_fields k)

module _ (L : UrlLib) where
  action-build_form :
      (action : L.Url) (k : PageKind) (controls : List Control)
      → (build_form {L = L} action k controls).action ≡ action
  unfolding build_form
  action-build_form action k controls = refl

  build_form-PostsOnly :
      (action : L.Url) (k : PageKind) (controls : List Control)
      → PostsOnly {L = L} k (build_form action k controls)
  unfolding build_form field_of submitted
  build_form-PostsOnly action k controls f m =
      let (c, m', e) = mem-map field_of (filter (submitted (posted_fields k)) controls) m in
      let (_, kept) = mem-filter (submitted (posted_fields k)) controls m' in
      subst (λ (g : Text × Text). Memᴰ g.0 (posted_fields k)) e
        (contains_sound (posted_fields k) c.name (and_elim _ _ kept).0)

  -- What an extraction went through.
  extract_scan-steps :
      (url : L.Url) (scan : Scan) {k : PageKind} {form : Form L}
      → extract_scan url scan ≡ ok (k, form)
      → (kind scan ≡ some k)
        × (uses_post scan.method ≡ true)
        × (action_url L url scan.action ≡ ok form.action)
        × (form ≡ build_form form.action k scan.controls)
  unfolding extract_scan
  extract_scan-steps url scan {k} {form} h = elim (Option-cases (kind scan)) [
    | inl e ↦ absurd (ground arith)
    | inr (k', e) ↦ elim (Bool-cases (uses_post scan.method)) [
      | inr e' ↦ absurd (ground arith)
      | inl e' ↦ elim (Result-cases (action_url L url scan.action)) [
        | inr (x, e'') ↦ absurd (ground arith)
        | inl (action, e'') ↦
            (let same : k' ≡ k = ground arith in
              let built : build_form action k scan.controls ≡ form = ground arith in
              let there : action ≡ form.action =
                sym (action-build_form action k scan.controls)
                ∙ ap (λ (f : Form L). f.action) built in
              (ground arith, e', ground arith, ground arith))
      ]
    ]
  ]

extract-scanned :
    (L : UrlLib) (tokenize : Text → List Token) (page : Page L) {k : PageKind} {form : Form L}
    → extract tokenize page ≡ ok (k, form)
    → extract_scan page.url (run (tokenize page.body)) ≡ ok (k, form)
unfolding extract
extract-scanned L tokenize page h = elim (Bool-cases (is_some (decode page.body))) [
  | inl e ↦ rw (e, extract) at h
  | inr e ↦ absurd (ground (arith, rw (e, extract) at h))
]

module _ {L : UrlLib} (laws : OriginLaws L) (tokenize : Text → List Token) where
  -- An extracted form comes from a page that was recognised, goes to the login action of Keycloak on
  -- the page's own origin with every session value given once, and carries only fields that are listed
  -- for that kind of page.
  pub extract-lem :
      (page : Page L) {k : PageKind} {form : Form L}
      → extract tokenize page ≡ ok (k, form)
      → (kind (run (tokenize page.body)) ≡ some k)
        × IsLoginAction L page.url form.action
        × PostsOnly k form
  extract-lem page {k} {form} h =
      let scan = run (tokenize page.body) in
      let (known, _, address, built) =
        extract_scan-steps L page.url scan (extract-scanned L tokenize page h) in
      (
        known,
        action_url-IsLoginAction laws page.url scan.action address,
        rw built (build_form-PostsOnly L form.action k scan.controls),
      )
