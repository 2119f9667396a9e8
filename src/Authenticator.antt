-- ===== src/Authenticator.antt =====
-- The virtual authenticator (src/authenticator/software.rs). The signing key, SHA-256 and the DER
-- encoder are wolfCrypt's.
pub mod Requests
pub mod Counter
use himmelcloak.Prelude.{
  ℕ, ◌+◌, Text, text_eq, length, null, any, take, drop, to_be_bytes, List, [], ◌∷◌, ◌++◌, Option,
  none, some, Bool, true, false, not, ltb, ◌&&◌, ◌||◌, if◌then◌else◌, Error, crypto,
  authentication_rejected, unsupported_factor, invalid_configuration, Result, ok, err, and_then,
  ensure, Run, resume, ◌>>=◌, lift, pure,
}
use himmelcloak.Flow.Types.{UserVerification, WebAuthnAssertion, required, preferred, discouraged}

pub record Signing : Type 1 where
  pub Key : Type 0
  -- `try_sign`: the raw signature; signing may change the key's own state
  pub try_sign : Key → Text → Result Text × Key
  -- `rs_bin_to_sig`, of the two halves
  pub to_der : Text → Text → Result Text
  pub sha256 : Text → Result Text

-- `WebAuthnGetRequest`; a descriptor is its identifier.
pub record GetRequest : Type 0 where
  pub rp_id : Text
  pub client_data_hash : Text
  pub allow_credentials : List Text
  pub user_verification : UserVerification

pub record Credential (S : Signing) : Type 0 where
  pub signing_key : S.Key
  pub rp_id : Text
  pub credential_id : Text
  pub sign_count : ℕ

-- `SoftwareAuthenticator`: the credential in its `RefCell`.
pub record Authenticator (S : Signing) : Type 0 where
  pub borrowed : Bool
  pub credential : Credential S

abbrev pub max_allow_credentials : ℕ
max_allow_credentials = 64

abbrev pub max_credential_id : ℕ
max_credential_id = 1023

-- `u32` holds less than this.
abbrev pub u32_limit : ℕ
u32_limit = 4294967296

unfoldable pub is_malformed : GetRequest → Bool
is_malformed request =
    null request.rp_id
    || ltb max_allow_credentials (length request.allow_credentials)
    || any (λ id. null id || ltb max_credential_id (length id)) request.allow_credentials

requires_verification : UserVerification → Bool
requires_verification required = true
requires_verification preferred = false
requires_verification discouraged = false

-- `build_assertion_authenticator_data`
unfoldable pub build_data : Text → ℕ → ℕ → Text
build_data rp_id_hash flags sign_count = rp_id_hash ++ flags ∷ to_be_bytes 4 sign_count

module _ {S : Signing} where
  -- `validate_request`
  unfoldable pub validate_request : Credential S → GetRequest → Result (Unit {0})
  unfolding is_malformed requires_verification
  validate_request credential request =
      and_then (ensure (not (is_malformed request)) authentication_rejected) λ _.
        and_then (ensure (text_eq request.rp_id credential.rp_id) authentication_rejected) λ _.
          and_then
            (ensure (any (λ id. text_eq id credential.credential_id) request.allow_credentials)
              authentication_rejected)
            λ _. ensure (not (requires_verification request.user_verification)) unsupported_factor

  -- `sign_count.checked_add(1)`
  unfoldable pub next_count : Credential S → Result ℕ
  next_count credential =
      if ltb (credential.sign_count + 1) u32_limit
      then ok (credential.sign_count + 1)
      else err authentication_rejected

-- `map_err(|_| Error::Crypto)`
unfoldable pub as_crypto : {A : Type 0} → Result A → Result A
as_crypto (ok a) = ok a
as_crypto (err e) = err crypto

module _ (S : Signing) where
  -- `assertion_authenticator_data`; the flags are user presence, and user verification if it took place.
  unfoldable pub assertion_data : Text → Bool → ℕ → Result Text
  unfolding build_data
  assertion_data rp_id user_verified sign_count =
      and_then (S.sha256 rp_id)
        λ hash. ok (build_data hash (if user_verified then 5 else 1) sign_count)

  -- Signing a message with the credential's key.
  unfoldable pub sign_with : Text → Run (Credential S) Text
  unfolding as_crypto
  sign_with message credential =
      let (raw, key) = S.try_sign credential.signing_key message in
      (as_crypto raw, record credential { signing_key = key })

  -- The counter is written last.
  unfoldable pub commit : ℕ → WebAuthnAssertion → Run (Credential S) WebAuthnAssertion
  commit count assertion credential = (ok assertion, record credential { sign_count = count })

  -- The assertion of the borrowed credential.
  unfoldable pub make_assertion : GetRequest → Run (Credential S) WebAuthnAssertion
  unfolding validate_request next_count assertion_data sign_with commit as_crypto
  make_assertion request credential =
      (lift (validate_request credential request) >>= λ _. lift (next_count credential) >>= λ count.
      lift (assertion_data credential.rp_id false count) >>= λ data'.
      sign_with (data' ++ request.client_data_hash) >>= λ raw.
      lift (as_crypto (S.to_der (take 32 raw) (drop 32 raw))) >>= λ der. commit count (record {
        authenticator_data = data';
        signature = der;
        credential_id = credential.credential_id;
        user_handle = none;
      }))
        credential

  -- `get_assertion`
  unfoldable pub get_assertion : GetRequest → Run (Authenticator S) WebAuthnAssertion
  unfolding make_assertion
  get_assertion request a =
      if a.borrowed
      then (err crypto, a)
      else (let (r, credential) = make_assertion request a.credential in
          (r, record a { credential = credential }))

  -- `new`, of the drawn identifier and the generated key
  unfoldable pub new_credential : Text → Result Text → Result S.Key → Result (Credential S)
  unfolding as_crypto
  new_credential rp_id drawn generated =
      and_then (ensure (not (null rp_id)) (invalid_configuration "empty authenticator RP ID")) λ _.
        and_then drawn λ id. and_then (as_crypto generated) λ key.
          ok (record { signing_key = key; rp_id = rp_id; credential_id = id; sign_count = 0 })
