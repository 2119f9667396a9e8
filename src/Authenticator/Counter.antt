-- ===== src/Authenticator/Counter.antt =====
-- The signature counter over the life of an authenticator.
use himmelcloak.Prelude.{
  ℕ, ◌+◌, ◌-◌, ◌<◌, Text, length, length-append, from_be_bytes, from-to_be_bytes,
  length-to_be_bytes, to_be_bytes, ok-injective, and_then-eq_ok, sym, ap, ◌∙◌, List, [], ◌∷◌, ◌++◌,
  take, drop, false, ltb, Result, ok, err, resume_elim, Bool-cases, inl, inr, ◌≡◌, refl, arith,
}
use mathlib.Core.Path.{subst}
use mathlib.Core.List.{append_assoc}
use himmelcloak.Flow.Types.{WebAuthnAssertion}
use himmelcloak.Authenticator.{
  Signing, GetRequest, Credential, Authenticator, u32_limit, build_data, validate_request,
  next_count, assertion_data, sign_with, as_crypto, commit, make_assertion, get_assertion,
}

-- The count that authenticator data carry: their last four bytes.
unfoldable pub signed_count : Text → ℕ
signed_count bytes = from_be_bytes 0 (drop (length bytes - 4) bytes)

drop-append : (s t : Text) → drop (length s) (s ++ t) ≡ t
drop-append [] t = refl
drop-append (c ∷ s) t = drop-append s t

build_data-count :
    (hash : Text) (flags n : ℕ) → n < u32_limit → signed_count (build_data hash flags n) ≡ n
unfolding signed_count build_data
build_data-count hash flags n h =
    let before = hash ++ flags ∷ [] in
    let count = to_be_bytes 4 n in
    let start : length (hash ++ flags ∷ count) - 4 ≡ length before = omega (
      arith,
      length-append hash (flags ∷ count),
      length-append hash (flags ∷ []),
      length-to_be_bytes 4 n,
    ) in
    ap (λ k. from_be_bytes 0 (drop k (hash ++ flags ∷ count))) start
    ∙ ap (λ s. from_be_bytes 0 (drop (length before) s))
        (sym (append_assoc hash (flags ∷ []) count))
    ∙ ap (from_be_bytes 0) (drop-append before count)
    ∙ from-to_be_bytes 4 n h

module _ (S : Signing) where
  assertion_data-count :
      (rp_id : Text) (n : ℕ) {bytes : Text}
      → n < u32_limit
      → assertion_data S rp_id false n ≡ ok bytes
      → signed_count bytes ≡ n
  unfolding assertion_data
  assertion_data-count rp_id n h e =
      let (hash, _, same) = and_then-eq_ok (S.sha256 rp_id) _ e in
      ap signed_count (sym (ok-injective same)) ∙ build_data-count hash 1 n h

  -- What an attempt does: it signs, for the next count, which is stored and fits; or it fails and leaves
  -- the count. The credential keeps its party and identifier.
  abbrev pub Attempted : Credential S → Result WebAuthnAssertion × Credential S → Type 0
  Attempted c (ok a, c') =
      (c'.sign_count ≡ c.sign_count + 1)
      × (c'.sign_count < u32_limit)
      × (c'.rp_id ≡ c.rp_id)
      × (c'.credential_id ≡ c.credential_id)
      × (a.credential_id ≡ c.credential_id)
      × (assertion_data S c.rp_id false (c.sign_count + 1) ≡ ok a.authenticator_data)
  Attempted c (err e, c') =
      (c'.sign_count ≡ c.sign_count) × (c'.rp_id ≡ c.rp_id) × (c'.credential_id ≡ c.credential_id)

  next_count-fits :
      (c : Credential S) {n : ℕ} → next_count c ≡ ok n → (n ≡ c.sign_count + 1) × (n < u32_limit)
  unfolding next_count
  next_count-fits c {n} h = elim (Bool-cases (ltb (c.sign_count + 1) u32_limit)) [
    | inl e ↦ (ground arith, ground arith)
    | inr e ↦ absurd (ground arith)
  ]

  make_assertion-Attempted :
      (r : GetRequest) (c : Credential S) → Attempted c (make_assertion S r c)
  unfolding make_assertion sign_with commit
  make_assertion-Attempted r c =
      let P : Result WebAuthnAssertion × Credential S → Type 0 = Attempted c in
      resume_elim P (validate_request c r) _ c (λ _ _. (refl, refl, refl))
        λ _ _.
          resume_elim P (next_count c) _ c (λ _ _. (refl, refl, refl))
            λ n a.
              resume_elim P (assertion_data S c.rp_id false n) _ c (λ _ _. (refl, refl, refl))
                λ bytes b.
                  (let (raw, key) = S.try_sign c.signing_key (bytes ++ r.client_data_hash) in
                    let c' : Credential S = record c { signing_key = key } in
                    resume_elim P (as_crypto raw) _ c' (λ _ _. (refl, refl, refl))
                      λ sig _.
                        resume_elim P (as_crypto (S.to_der (take 32 sig) (drop 32 sig))) _ c'
                          (λ _ _. (refl, refl, refl))
                          λ der _.
                            (let (same, fits) = next_count-fits c a in
                              (same, fits, refl, refl, refl, rw (← same) b)))

  -- An assertion moves the signature counter by one, within 32 bits, carries the new count in its signed
  -- data and names the credential; a request that fails, for whatever reason, leaves the counter. The credential keeps
  -- its relying party and identifier.
  pub get_assertion-Attempted :
      (r : GetRequest) (a : Authenticator S)
      → Attempted a.credential ((get_assertion S r a).0, (get_assertion S r a).1.credential)
  unfolding get_assertion
  get_assertion-Attempted r a = elim (Bool-cases a.borrowed) [
    | inl e ↦ rw e (refl, refl, refl)
    | inr e ↦ rw e (make_assertion-Attempted r a.credential)
  ]

  -- The counts in the signed data of the assertions that a series of requests yields.
  counted : Result WebAuthnAssertion → List ℕ → List ℕ
  unfolding signed_count
  counted (ok a) rest = signed_count a.authenticator_data ∷ rest
  counted (err e) rest = rest

  unfoldable pub counts : List GetRequest → Authenticator S → List ℕ
  unfolding counted
  counts [] a = []
  counts (r ∷ rs) a = let (result, a') = get_assertion S r a in counted result (counts rs a')

  -- Each number is above the bound, and above those before it.
  abbrev pub Rising : ℕ → List ℕ → Type 0
  Rising bound [] = Unit
  Rising bound (n ∷ ns) = (bound < n) × Rising n ns

  -- The counts in the last four bytes of the authenticator data of the assertions that an authenticator makes only
  -- ever rise, over any series of requests, refused ones among them, and from above the count that it starts with:
  -- no two assertions carry the same count.
  pub counts-Rising :
      (rs : List GetRequest) (a : Authenticator S) → Rising a.credential.sign_count (counts rs a)
  unfolding counts counted
  counts-Rising [] a = tt
  counts-Rising (r ∷ rs) a =
      let (result, a') = get_assertion S r a in
      one result a'.credential (counts rs a') (get_assertion-Attempted r a) (counts-Rising rs a')
    where
      one :
          (result : Result WebAuthnAssertion) (c : Credential S) (rest : List ℕ)
          → Attempted a.credential (result, c)
          → Rising c.sign_count rest
          → Rising a.credential.sign_count (counted result rest)
      one (ok x) c rest h k =
          let signed =
            assertion_data-count a.credential.rp_id (a.credential.sign_count + 1)
              (omega (arith, h.0, h.1)) h.5 in
          (omega (arith, signed), subst (λ n. Rising n rest) (h.0 ∙ sym signed) k)
      one (err e) c rest h k = subst (λ n. Rising n rest) h.0 k
