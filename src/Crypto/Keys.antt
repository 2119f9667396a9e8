-- ===== src/Crypto/Keys.antt =====
-- Which keys can verify a signature.
use himmelcloak.Prelude.{
  Text, text, text_eq, text_eq_sound, is_text, is_text_sound, length, length-append, ◌∷◌, ◌++◌,
  some, true, ◌==◌, ◌&&◌, ◌||◌, if◌then◌else◌, Error, token_validation, ok, err, and_then-eq_ok,
  ok_or, ensure, and_elim, Bool-cases, inl, inr, ◌≡◌, ◌⊎◌, arith,
}
use himmelcloak.Token.Value.{Value, text_field}
use himmelcloak.Token.Claims.Checked.{ensure-ok, ok_or-ok}
use himmelcloak.Crypto.{
  PublicKey, Wolfcrypt, key_field, check_with, verify_rsa_size, verify_rsa, verify_ec, verify,
}

module _ (W : Wolfcrypt) where
  -- A key of the set holds this field.
  abbrev pub Holds : Value → Text → Text → Type 0
  Holds jwk name bytes =
      (encoded : Text) × (text_field jwk name ≡ some encoded) × (W.decode encoded ≡ some bytes)

  key_field-Holds :
      (jwk : Value) (name : Text) {bytes : Text}
      → key_field W jwk name ≡ ok bytes
      → Holds jwk name bytes
  unfolding key_field
  key_field-Holds jwk name h =
      let (encoded, a, b) = and_then-eq_ok (ok_or (text_field jwk name) _) _ h in
      (encoded, ok_or-ok _ _ a, ok_or-ok _ _ b)

  -- A public key that accepts the signature of the message.
  abbrev pub Accepts : PublicKey → Text → Text → Type 0
  Accepts key message signature =
      (key.signature_fits signature ≡ true) × (key.verify message signature ≡ true)

  check_with-Accepts :
      (e : Error) (key : PublicKey) (message signature : Text)
      → check_with W e key message signature ≡ ok tt
      → Accepts key message signature
  unfolding check_with
  check_with-Accepts e key message signature h =
      let (_, a, b) = and_then-eq_ok (ensure (key.signature_fits signature) e) _ h in
      (ensure-ok _ _ a, ensure-ok _ _ b)

  -- An RSA key of 2048, 3072 or 4096 bits, built of the key's own fields, accepted the signature.
  abbrev pub ByRsa : Value → Text → Text → Type 0
  ByRsa jwk message signature =
      (modulus : Text) × (exponent : Text) × (key : PublicKey) × (text_field jwk (text "kty")
        ≡ some (text "RSA"))
      × Holds jwk (text "n") modulus
      × Holds jwk (text "e") exponent
      × ((length modulus ≡ 256) ⊎ ((length modulus ≡ 384) ⊎ (length modulus ≡ 512)))
      × (W.rsa_key (length modulus) modulus exponent ≡ some key)
      × Accepts key message signature

  -- A P-256 key, the uncompressed point of the key's own coordinates in 65 bytes, accepted the signature.
  abbrev pub ByEc : Value → Text → Text → Type 0
  ByEc jwk message signature =
      (x : Text) × (y : Text) × (text_field jwk (text "kty") ≡ some (text "EC"))
      × (text_field jwk (text "crv") ≡ some (text "P-256"))
      × Holds jwk (text "x") x
      × Holds jwk (text "y") y
      × (length (4 ∷ x ++ y) ≡ 65)
      × Accepts (W.p256_key (4 ∷ x ++ y)) message signature

  verify_rsa-ByRsa :
      (jwk : Value) (message signature : Text)
      → verify_rsa W jwk message signature ≡ ok tt
      → ByRsa jwk message signature
  unfolding verify_rsa verify_rsa_size
  verify_rsa-ByRsa jwk message signature h =
      let (_, a, h1) =
        and_then-eq_ok (ensure (is_text (text_field jwk (text "kty")) (text "RSA")) _) _ h in
      let (modulus, b, h2) = and_then-eq_ok (key_field W jwk (text "n")) _ h1 in
      let (exponent, c, h3) = and_then-eq_ok (key_field W jwk (text "e")) _ h2 in
      sized modulus exponent h3 (is_text_sound _ _ (ensure-ok _ _ a))
        (key_field-Holds jwk (text "n") b) (key_field-Holds jwk (text "e") c)
    where
      built :
          (modulus exponent : Text)
          → verify_rsa_size W (length modulus) modulus exponent message signature ≡ ok tt
          → (key : PublicKey) × (W.rsa_key (length modulus) modulus exponent ≡ some key)
            × Accepts key message signature
      built modulus exponent h =
          let (key, a, b) =
            and_then-eq_ok (ok_or (W.rsa_key (length modulus) modulus exponent) _) _ h in
          (key, ok_or-ok _ _ a, check_with-Accepts _ key message signature b)

      sized :
          (modulus exponent : Text)
          → (if (length modulus == 256) || (length modulus == 384) || (length modulus == 512)
              then verify_rsa_size W (length modulus) modulus exponent message signature
              else err (token_validation "unsupported RSA key size"))
            ≡ ok tt
          → text_field jwk (text "kty") ≡ some (text "RSA")
          → Holds jwk (text "n") modulus
          → Holds jwk (text "e") exponent
          → ByRsa jwk message signature
      sized modulus exponent h k n e =
          elim (Bool-cases
            ((length modulus == 256) || (length modulus == 384) || (length modulus == 512))) [
              | inr q ↦ absurd (ground arith)
              | inl q ↦
                  (let (key, a, b) = built modulus exponent (rw q at h) in
                    (modulus, exponent, key, k, n, e, ground arith, a, b))
            ]

  verify_ec-ByEc :
      (jwk : Value) (message signature : Text)
      → verify_ec W jwk message signature ≡ ok tt
      → ByEc jwk message signature
  unfolding verify_ec
  verify_ec-ByEc jwk message signature h =
      let (_, a, h1) =
        and_then-eq_ok
          (ensure
            (is_text (text_field jwk (text "kty")) (text "EC")
              && is_text (text_field jwk (text "crv")) (text "P-256"))
            _)
          _ h in
      let (x, b, h2) = and_then-eq_ok (key_field W jwk (text "x")) _ h1 in
      let (y, c, h3) = and_then-eq_ok (key_field W jwk (text "y")) _ h2 in
      let (_, d, h4) = and_then-eq_ok (ensure ((length x == 32) && (length y == 32)) _) _ h3 in
      let sizes = ensure-ok _ _ d in
      let both : (length x ≡ 32) × (length y ≡ 32) = ground arith in
      let (k, l) = and_elim _ _ (ensure-ok _ _ a) in
      (
        x,
        y,
        is_text_sound _ _ k,
        is_text_sound _ _ l,
        key_field-Holds jwk (text "x") b,
        key_field-Holds jwk (text "y") c,
        omega (arith, both, length-append x y),
        check_with-Accepts (token_validation "invalid ECDSA signature length")
            (W.p256_key (4 ∷ x ++ y)) message signature h4,
      )

  -- A signature is accepted only with one of the two algorithms: RS256 with an RSA key of 2048, 3072 or 4096 bits, or ES256 with a
  -- P-256 key, built of the key's own fields, whose check accepted it.
  pub verify-Accepts :
      (algorithm : Text) (jwk : Value) (message signature : Text)
      → verify W algorithm jwk message signature ≡ ok tt
      → ((algorithm ≡ text "RS256") × ByRsa jwk message signature)
        ⊎ ((algorithm ≡ text "ES256") × ByEc jwk message signature)
  unfolding verify
  verify-Accepts algorithm jwk message signature h =
      let (_, _, h1) = and_then-eq_ok (ensure W.initialized Error.crypto) _ h in chosen h1
    where
      chosen :
          (if text_eq algorithm (text "RS256")
              then verify_rsa W jwk message signature
              else (if text_eq algorithm (text "ES256")
                  then verify_ec W jwk message signature
                  else err (token_validation "unsupported signing algorithm")))
            ≡ ok tt
          → ((algorithm ≡ text "RS256") × ByRsa jwk message signature)
            ⊎ ((algorithm ≡ text "ES256") × ByEc jwk message signature)
      chosen h = elim (Bool-cases (text_eq algorithm (text "RS256"))) [
        | inl e ↦ inl (text_eq_sound _ _ e, verify_rsa-ByRsa jwk message signature (rw e at h))
        | inr e ↦ elim (Bool-cases (text_eq algorithm (text "ES256"))) [
          | inl f ↦ inr (text_eq_sound _ _ f, verify_ec-ByEc jwk message signature (rw (e, f) at h))
          | inr f ↦ absurd (ground arith)
        ]
      ]
