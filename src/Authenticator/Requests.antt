-- ===== src/Authenticator/Requests.antt =====
-- Which requests the authenticator signs, and what it signs.
use himmelcloak.Prelude.{
  ℕ, ◌<◌, Text, text_eq, text_eq_sound, text_eq_self, length, length-append, any, any_elim,
  any_intro, drop, drop-append, suc, to_be_bytes, length-to_be_bytes, from_be_bytes,
  from-to_be_bytes, ◌∷◌, ◌++◌, Bool, false, not, ok, and_then-eq_ok, ensure, Memᴰ, ◌≡◌, ◌≢◌, ◌↔◌,
  refl, ap, ◌∙◌, arith,
}
use mathlib.Core.Path.{subst}
use himmelcloak.Token.Claims.Checked.{ensure-ok}
use himmelcloak.Flow.Types.{UserVerification, required, preferred, discouraged}
use himmelcloak.Authenticator.{
  Signing, GetRequest, Credential, u32_limit, is_malformed, requires_verification, validate_request,
  build_data,
}

-- A request that the credential may sign.
pub record IsSignable {S : Signing} (c : Credential S) (r : GetRequest) : Type 0 where
  pub well_formed : is_malformed r ≡ false
  pub own_party : r.rp_id ≡ c.rp_id
  pub allowed : Memᴰ c.credential_id r.allow_credentials
  pub unverified : r.user_verification ≢ required

not-required : (v : UserVerification) → requires_verification v ≡ false → v ≢ required
unfolding requires_verification
not-required required h = absurd (ground arith)
not-required preferred h = λ e. cc
not-required discouraged h = λ e. cc

required-not : (v : UserVerification) → v ≢ required → requires_verification v ≡ false
unfolding requires_verification
required-not required n = absurd (n refl)
required-not preferred n = refl
required-not discouraged n = refl

-- A request is signed exactly when it is well formed, names the credential's own relying party, allows this
-- credential, and does not require user verification.
pub validate_request_iff :
    {S : Signing} (c : Credential S) (r : GetRequest)
    → (validate_request c r ≡ ok tt) ↔ IsSignable c r
unfolding validate_request
validate_request_iff c r = (sound, complete)
  where
    allows : Text → Bool
    allows id = text_eq id c.credential_id

    sound : validate_request c r ≡ ok tt → IsSignable c r
    sound h =
        let (_, a, h1) = and_then-eq_ok (ensure (not (is_malformed r)) _) _ h in
        let (_, b, h2) = and_then-eq_ok (ensure (text_eq r.rp_id c.rp_id) _) _ h1 in
        let (_, d, h3) =
          and_then-eq_ok (ensure (any (λ id. text_eq id c.credential_id) r.allow_credentials) _) _
            h2 in
        let (id, m, e) =
          any_elim (λ id. text_eq id c.credential_id) r.allow_credentials (ensure-ok _ _ d) in
        record {
          well_formed = (let q = ensure-ok _ _ a in ground arith);
          own_party = text_eq_sound _ _ (ensure-ok _ _ b);
          allowed = rw (← text_eq_sound _ _ e) m;
          unverified = not-required r.user_verification (let q = ensure-ok _ _ h3 in ground arith);
        }

    complete : IsSignable c r → validate_request c r ≡ ok tt
    complete s =
        rw
          (
            s.well_formed,
            s.own_party,
            text_eq_self c.rp_id,
            any_intro (λ id. text_eq id c.credential_id) s.allowed (text_eq_self c.credential_id),
            required-not r.user_verification s.unverified,
          )
          refl

-- The signed data are 37 bytes, and the counter is read back from the last four, for a hash of 32 bytes
-- and a counter of 32 bits.
pub build_data-layout :
    (hash : Text) (flags count : ℕ)
    → length hash ≡ 32
    → count < u32_limit
    → (length (build_data hash flags count) ≡ 37)
      × (from_be_bytes 0 (drop 33 (build_data hash flags count)) ≡ count)
unfolding build_data
build_data-layout hash flags count h p = (
  omega (arith, length-append hash (flags ∷ to_be_bytes 4 count), length-to_be_bytes 4 count),
  ap (from_be_bytes 0) (
        subst (λ n. drop (suc n) (hash ++ flags ∷ to_be_bytes 4 count) ≡ to_be_bytes 4 count) h
          (drop-append hash (to_be_bytes 4 count) flags))
      ∙ from-to_be_bytes 4 count (omega arith),
)
