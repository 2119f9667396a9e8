-- ===== src/Crypto.antt =====
-- The check of a signature (src/crypto.rs): the key's fields and the algorithm. The key types of wolfCrypt
-- and the base64 decoder are parameters.
pub mod Keys
use himmelcloak.Prelude.{
  ℕ, Text, text, text_eq, is_text, length, List, [], ◌∷◌, ◌++◌, Option, none, some, Bool, true,
  false, not, ◌==◌, ◌&&◌, ◌||◌, if◌then◌else◌, Error, token_validation, Result, ok, err, and_then,
  ok_or, ensure,
}
use himmelcloak.Token.Value.{Value, text_field}

-- A public key of wolfCrypt, and its checks: of the signature's length and of the signature.
pub record PublicKey : Type 0 where
  pub signature_fits : Text → Bool
  pub verify : Text → Text → Bool

pub record Wolfcrypt : Type 0 where
  -- `wolfcrypt_init` succeeded
  pub initialized : Bool
  -- `URL_SAFE_NO_PAD.decode`
  pub decode : Text → Option Text
  -- `from_components` of an RSA key of that many bytes
  pub rsa_key : ℕ → Text → Text → Option PublicKey
  -- `from_bytes` of a P-256 point of 65 bytes
  pub p256_key : Text → PublicKey

module _ (W : Wolfcrypt) where
  -- `field`
  unfoldable pub key_field : Value → Text → Result Text
  key_field jwk name =
      and_then (ok_or (text_field jwk name) (token_validation "missing JWK field"))
        λ encoded. ok_or (W.decode encoded) (token_validation "invalid JWK encoding")

  -- The key's checks, with the error of a wrong length.
  unfoldable pub check_with : Error → PublicKey → Text → Text → Result (Unit {0})
  check_with wrong_length key message signature =
      and_then (ensure (key.signature_fits signature) wrong_length)
        λ _. ensure (key.verify message signature) (token_validation "invalid signature")

  -- `verify_rsa_size`
  unfoldable pub verify_rsa_size : ℕ → Text → Text → Text → Text → Result (Unit {0})
  unfolding check_with
  verify_rsa_size size modulus exponent message signature =
      and_then (ok_or (W.rsa_key size modulus exponent) (token_validation "invalid RSA key"))
        λ key. check_with (token_validation "invalid RSA signature length") key message signature

  -- `verify_rsa`
  unfoldable pub verify_rsa : Value → Text → Text → Result (Unit {0})
  unfolding verify_rsa_size key_field
  verify_rsa jwk message signature =
      and_then
        (ensure (is_text (text_field jwk (text "kty")) (text "RSA"))
          (token_validation "JWK type does not match algorithm"))
        λ _. and_then (key_field jwk (text "n")) λ modulus.
          and_then (key_field jwk (text "e")) λ exponent.
            if (length modulus == 256) || (length modulus == 384) || (length modulus == 512)
            then verify_rsa_size (length modulus) modulus exponent message signature
            else err (token_validation "unsupported RSA key size")

  -- `verify_ec`
  unfoldable pub verify_ec : Value → Text → Text → Result (Unit {0})
  unfolding key_field check_with
  verify_ec jwk message signature =
      and_then
        (ensure
          (is_text (text_field jwk (text "kty")) (text "EC")
            && is_text (text_field jwk (text "crv")) (text "P-256"))
          (token_validation "JWK curve does not match algorithm"))
        λ _. and_then (key_field jwk (text "x")) λ x. and_then (key_field jwk (text "y")) λ y.
          and_then
            (ensure ((length x == 32) && (length y == 32)) (token_validation "invalid P-256 point"))
            λ _.
              check_with (token_validation "invalid ECDSA signature length")
                (W.p256_key (4 ∷ x ++ y)) message signature

  -- `verify`
  unfoldable pub verify : Text → Value → Text → Text → Result (Unit {0})
  unfolding verify_rsa verify_ec
  verify algorithm jwk message signature = and_then (ensure W.initialized Error.crypto) λ _.
      if text_eq algorithm (text "RS256")
      then verify_rsa jwk message signature
      else (if text_eq algorithm (text "ES256")
          then verify_ec jwk message signature
          else err (token_validation "unsupported signing algorithm"))
