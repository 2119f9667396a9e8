-- ===== src/Token/Claims/Checked.antt =====
-- What accepted claims say.
use himmelcloak.Prelude.{
  Memᴰ, length, all, any, any_elim, and_elim, text_eq_sound, ◌==◌, ℕ, ◌+◌, ◌≤◌, ◌<◌, Text, text,
  is_text, is_text_sound, [], Option, none, some, Bool, true, false, not, ltb, leb, ◌&&◌, Error,
  token_validation, ok, and_then-eq_ok, ok-injective, ok_or, ensure, Bool-cases, Option-cases, ◌≡◌,
  ◌≢◌, ◌⊎◌, inl, inr, refl, ap, ◌∙◌, arith,
}
use himmelcloak.Token.Value.{
  Value, Values, string, array, boolean, number, object, as_str, items, field, as_u64, text_field,
  number_field,
}
use himmelcloak.Token.Claims.{
  audience_matches, audience_of, party_matches, is_string, check_not_before, nonce_matches,
  has_text, saturating_add, validate_claims,
}

pub ensure-ok : (b : Bool) (e : Error) → ensure b e ≡ ok tt → b ≡ true
ensure-ok true e h = refl
ensure-ok false e h = absurd (ground arith)

pub ok_or-ok : {A : Type 0} (o : Option A) (e : Error) {a : A} → ok_or o e ≡ ok a → o ≡ some a
ok_or-ok none e h = absurd (ground arith)
ok_or-ok (some x) e h = ap some (ok-injective h)

saturating_add-bounded : (a b : ℕ) → saturating_add a b ≤ a + b
unfolding saturating_add
saturating_add-bounded a b = ground arith

-- The claims are for this client: no other party is authorized, and the client is the audience, or one
-- of several with itself as the authorized party.
abbrev pub IsFor : Value → Text → Type 0
IsFor claims client_id =
    ((field claims (text "azp") ≡ none) ⊎ (text_field claims (text "azp") ≡ some client_id))
    × ((text_field claims (text "aud") ≡ some client_id)
        ⊎ ((vs : Values) × (field claims (text "aud") ≡ some (array vs))
            × ((v : Value) × Memᴰ v (items vs) × (as_str v ≡ some client_id))
            × ((length (items vs) ≡ 1) ⊎ (text_field claims (text "azp") ≡ some client_id))))

party-same :
    (claims : Value) (client_id : Text)
    → party_matches claims client_id ≡ true
    → (field claims (text "azp") ≡ none) ⊎ (text_field claims (text "azp") ≡ some client_id)
unfolding party_matches text_field
party-same claims client_id h = elim (Option-cases (field claims (text "azp"))) [
  | inl e ↦ inl e
  | inr (v, e) ↦
      inr (rw (e, text_field) (is_text_sound (as_str v) client_id (rw (e, party_matches) at h)))
]

Audience : Value → Text → Option Value → Type 0
Audience claims client_id o =
    ((v : Value) × (o ≡ some v) × (as_str v ≡ some client_id))
    ⊎ ((vs : Values) × (o ≡ some (array vs))
        × ((v : Value) × Memᴰ v (items vs) × (as_str v ≡ some client_id))
        × ((length (items vs) ≡ 1) ⊎ (text_field claims (text "azp") ≡ some client_id)))

Audience-named :
    (claims : Value) (client_id : Text) (o : Option Value)
    → audience_of claims client_id o ≡ true
    → Audience claims client_id o
unfolding audience_of Audience as_str
Audience-named claims client_id (some (string aud)) h =
    inl (string aud, refl, ap some (text_eq_sound aud client_id h))
Audience-named claims client_id (some (array vs)) h =
    let (front, back) =
      and_elim (all is_string (items vs) && any (λ v. is_text (as_str v) client_id) (items vs)) _
        h in
    let (_, one) = and_elim (all is_string (items vs)) _ front in
    let (v, m, e) = any_elim (λ v. is_text (as_str v) client_id) (items vs) one in
    inr (
      vs,
      refl,
      (v, m, is_text_sound (as_str v) client_id e),
      elim (Bool-cases (length (items vs) == 1)) [
        | inl q ↦ inl (ground arith)
        | inr q ↦ inr (is_text_sound (text_field claims (text "azp")) client_id (ground arith))
      ],
    )
Audience-named claims client_id none h = absurd (ground arith)
Audience-named claims client_id (some Value.null) h = absurd (ground arith)
Audience-named claims client_id (some (boolean b)) h = absurd (ground arith)
Audience-named claims client_id (some (number n)) h = absurd (ground arith)
Audience-named claims client_id (some (object m)) h = absurd (ground arith)

audience_matches-IsFor :
    (claims : Value) (client_id : Text)
    → audience_matches claims client_id ≡ true
    → IsFor claims client_id
unfolding audience_matches text_field Audience
audience_matches-IsFor claims client_id h =
    let (a, b) = and_elim (party_matches claims client_id) _ h in
    (
      party-same claims client_id a,
      elim (Audience-named claims client_id (field claims (text "aud")) b) [
        | inl (v, e, q) ↦ inl (rw (e, text_field) q)
        | inr r ↦ inr r
      ],
    )

-- Claims for this issuer, client and time.
pub record IsAccepted (clock : Option ℕ) (claims : Value) (issuer client_id : Text)
    (nonce : Option Text) : Type 0 where
  pub from_issuer : text_field claims (text "iss") ≡ some issuer
  pub for_client : IsFor claims client_id
  pub now : ℕ
  pub at_clock : clock ≡ some now
  pub expiry : ℕ
  pub has_expiry : number_field claims (text "exp") ≡ some expiry
  pub not_expired : now < expiry
  pub issued : ℕ
  pub has_issued : number_field claims (text "iat") ≡ some issued
  pub not_future : issued ≤ now + 60
  pub begun :
      (v : Value)
      → field claims (text "nbf") ≡ some v
      → (n : ℕ) × (as_u64 v ≡ some n) × (n ≤ now + 60)
  pub same_nonce : (n : Text) → nonce ≡ some n → text_field claims (text "nonce") ≡ some n
  pub subject : Text
  pub has_subject : text_field claims (text "sub") ≡ some subject
  pub named : subject ≢ []

nonce-same :
    (nonce given : Option Text) (n : Text)
    → nonce_matches nonce given ≡ true
    → nonce ≡ some n
    → given ≡ some n
unfolding nonce_matches
nonce-same none given n h e = absurd (ground arith)
nonce-same (some m) given n h e = is_text_sound given m h ∙ e

subject-named : (o : Option Text) → has_text o ≡ true → (s : Text) × (o ≡ some s) × (s ≢ [])
unfolding has_text
subject-named none h = absurd (ground arith)
subject-named (some s) h = (s, refl, λ e. ground arith)

not_before-begun :
    (o : Option Value) (now : ℕ)
    → check_not_before o now ≡ ok tt
    → (v : Value) → o ≡ some v
    → (n : ℕ) × (as_u64 v ≡ some n) × (n ≤ now + 60)
unfolding check_not_before
not_before-begun none now h v e = absurd (ground arith)
not_before-begun (some x) now h v e =
    let (n, a, b) =
      and_then-eq_ok (ok_or (as_u64 x) (token_validation "invalid not-before time")) _ h in
    let in_time = ensure-ok (not (ltb (saturating_add now 60) n)) _ b in
    let bound = saturating_add-bounded now 60 in
    (n, ap as_u64 (ground arith) ∙ ok_or-ok (as_u64 x) _ a, ground arith)

-- Claims are accepted only if they name this issuer and this client, have not expired, were not issued
-- more than a minute in the future nor hold from later than that, carry the login's nonce if one was
-- sent, and name a subject.
pub validate_claims-IsAccepted :
    (clock : Option ℕ) (claims : Value) (issuer client_id : Text) (nonce : Option Text)
    → validate_claims clock claims issuer client_id nonce ≡ ok tt
    → IsAccepted clock claims issuer client_id nonce
unfolding validate_claims
validate_claims-IsAccepted clock claims issuer client_id nonce h =
    let (_, a, h1) =
      and_then-eq_ok (ensure (is_text (text_field claims (text "iss")) issuer) _) _ h in
    let (_, b, h2) = and_then-eq_ok (ensure (audience_matches claims client_id) _) _ h1 in
    let (now, c, h3) = and_then-eq_ok (ok_or clock _) _ h2 in
    let (expiry, d, h4) = and_then-eq_ok (ok_or (number_field claims (text "exp")) _) _ h3 in
    let (_, e, h5) = and_then-eq_ok (ensure (not (leb expiry now)) _) _ h4 in
    let (_, f, h6) = and_then-eq_ok (check_not_before (field claims (text "nbf")) now) _ h5 in
    let (issued, g, h7) = and_then-eq_ok (ok_or (number_field claims (text "iat")) _) _ h6 in
    let (_, i, h8) = and_then-eq_ok (ensure (not (ltb (saturating_add now 60) issued)) _) _ h7 in
    let (_, j, h9) =
      and_then-eq_ok (ensure (nonce_matches nonce (text_field claims (text "nonce"))) _) _ h8 in
    let (subject, k, n) = subject-named (text_field claims (text "sub")) (ensure-ok _ _ h9) in
    let in_time = ensure-ok _ _ e in
    let present = ensure-ok _ _ i in
    let bound = saturating_add-bounded now 60 in
    record {
      from_issuer = is_text_sound _ issuer (ensure-ok _ _ a);
      for_client = audience_matches-IsFor claims client_id (ensure-ok _ _ b);
      now = now;
      at_clock = ok_or-ok clock _ c;
      expiry = expiry;
      has_expiry = ok_or-ok _ _ d;
      not_expired = ground arith;
      issued = issued;
      has_issued = ok_or-ok _ _ g;
      not_future = ground arith;
      begun = not_before-begun (field claims (text "nbf")) now f;
      same_nonce = λ m q. nonce-same nonce _ m (ensure-ok _ _ j) q;
      subject = subject;
      has_subject = k;
      named = n;
    }
