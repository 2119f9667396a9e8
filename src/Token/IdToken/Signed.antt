-- ===== src/Token/IdToken/Signed.antt =====
-- An accepted ID token is signed by a key of the key set, and its claims are accepted.
use himmelcloak.Prelude.{
  ℕ, Text, text, filter, mem-filter, List, [], ◌∷◌, ◌++◌, Option, some, true, Result, ok,
  and_then-eq_ok, ok-injective, ok_or, ensure, Result-cases, ◌≡◌, inl, inr, refl, ap, ◌∙◌, arith,
  Memᴰ,
}
use mathlib.Core.Path.{subst}
use himmelcloak.Token.Value.{Value, text_field, array_field}
use himmelcloak.Token.Claims.{validate_claims}
use himmelcloak.Token.Claims.Checked.{IsAccepted, validate_claims-IsAccepted, ok_or-ok}
use himmelcloak.Token.IdToken.{
  split_token, key_eligible, decode_json, try_keys, verify_signature, verify_id_token, is_supported,
}

module _ (verify : Text → Value → Text → Text → Result (Unit {0})) where
  try_keys-found :
      (algorithm message signature : Text) (keys : List Value)
      → try_keys verify algorithm message signature keys ≡ some (ok tt)
      → (key : Value) × Memᴰ key keys × (verify algorithm key message signature ≡ ok tt)
  unfolding try_keys
  try_keys-found algorithm message signature [] h = absurd (ground arith)
  try_keys-found algorithm message signature (key ∷ more) h =
      elim (Result-cases (verify algorithm key message signature)) [
        | inl (u, e) ↦ (key, Memᴰ.head refl, e)
        | inr (x, e) ↦
            (let (k, m, q) = try_keys-found algorithm message signature more (ground arith) in
              (k, Memᴰ.tail m, q))
      ]

  verify_signature-found :
      (algorithm kid : Text) (keys : List Value) (message signature : Text)
      → verify_signature verify algorithm kid keys message signature ≡ ok tt
      → (key : Value) × Memᴰ key keys
        × (key_eligible key kid algorithm ≡ true)
        × (verify algorithm key message signature ≡ ok tt)
  unfolding verify_signature
  verify_signature-found algorithm kid keys message signature h =
      let eligible = filter (λ key. key_eligible key kid algorithm) keys in
      let (key, m, e) = try_keys-found algorithm message signature eligible (ground arith) in
      let (m', q) = mem-filter (λ key. key_eligible key kid algorithm) keys m in (key, m', q, e)

module _ (decode : Text → Option Text) (parse : Text → Option Value)
    (verify : Text → Value → Text → Text → Result (Unit {0})) where
  -- What stands behind an accepted token.
  pub record IsSigned (clock : Option ℕ) (token : Text) (jwks : Value) (issuer client_id : Text)
      (nonce : Option Text) (claims : Value) : Type 0 where
    pub header_part : Text
    pub claims_part : Text
    pub signature_part : Text
    pub three_parts : split_token token ≡ ok (header_part, claims_part, signature_part)
    pub header : Value
    pub header_read : decode_json decode parse header_part ≡ ok header
    pub claims_read : decode_json decode parse claims_part ≡ ok claims
    pub algorithm : Text
    pub header_algorithm : text_field header (text "alg") ≡ some algorithm
    pub kid : Text
    pub header_kid : text_field header (text "kid") ≡ some kid
    pub keys : List Value
    pub key_set : array_field jwks (text "keys") ≡ some keys
    pub key : Value
    pub in_set : Memᴰ key keys
    pub eligible : key_eligible key kid algorithm ≡ true
    pub signature : Text
    pub signature_read : decode signature_part ≡ some signature
    pub verified : verify algorithm key (header_part ++ b'.' ∷ claims_part) signature ≡ ok tt
    pub accepted : IsAccepted clock claims issuer client_id nonce

  -- The claims that an ID token yields are the ones it carries: the token has three parts; a key of the
  -- key set that is eligible for the header's key ID and algorithm verified the signature over exactly
  -- the first two; and the claims are accepted for the issuer, the client, the time and the nonce.
  pub verify_id_token-IsSigned :
      (clock : Option ℕ) (token : Text) (jwks : Value) (issuer client_id : Text)
      (nonce : Option Text) {claims : Value}
      → verify_id_token decode parse verify clock token jwks issuer client_id nonce ≡ ok claims
      → IsSigned clock token jwks issuer client_id nonce claims
  unfolding verify_id_token
  verify_id_token-IsSigned clock token jwks issuer client_id nonce {claims} h =
      let (parts, a, h1) = and_then-eq_ok (split_token token) _ h in
      let (header, b, h2) = and_then-eq_ok (decode_json decode parse parts.0) _ h1 in
      let (body, c, h3) = and_then-eq_ok (decode_json decode parse parts.1) _ h2 in
      let (algorithm, d, h4) = and_then-eq_ok (ok_or (text_field header (text "alg")) _) _ h3 in
      let (_, _, h5) = and_then-eq_ok (ensure (is_supported algorithm) _) _ h4 in
      let (kid, e, h6) = and_then-eq_ok (ok_or (text_field header (text "kid")) _) _ h5 in
      let (keys, f, h7) = and_then-eq_ok (ok_or (array_field jwks (text "keys")) _) _ h6 in
      let (signature, g, h8) = and_then-eq_ok (ok_or (decode parts.2) _) _ h7 in
      let (_, i, h9) =
        and_then-eq_ok
          (verify_signature verify algorithm kid keys (parts.0 ++ b'.' ∷ parts.1) signature) _ h8 in
      let (_, j, h10) = and_then-eq_ok (validate_claims clock body issuer client_id nonce) _ h9 in
      let same : body ≡ claims = ok-injective h10 in
      let (key, m, eligible, verified) =
        verify_signature-found verify algorithm kid keys (parts.0 ++ b'.' ∷ parts.1) signature i in
      record {
        header_part = parts.0;
        claims_part = parts.1;
        signature_part = parts.2;
        three_parts = a;
        header = header;
        header_read = b;
        claims_read = c ∙ ap ok same;
        algorithm = algorithm;
        header_algorithm = ok_or-ok _ _ d;
        kid = kid;
        header_kid = ok_or-ok _ _ e;
        keys = keys;
        key_set = ok_or-ok _ _ f;
        key = key;
        in_set = m;
        eligible = eligible;
        signature = signature;
        signature_read = ok_or-ok _ _ g;
        verified = verified;
        accepted =
            subst (λ x. IsAccepted clock x issuer client_id nonce) same
              (validate_claims-IsAccepted clock body issuer client_id nonce j);
      }
