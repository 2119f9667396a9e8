-- ===== src/Totp/Codes.antt =====
-- What a code is, and when one is accepted.
use Prim.Native.Nat.{bit_or, bit_xor}
use himmelcloak.Prelude.{
  ℕ, zero, suc, ◌+◌, ◌-◌, ◌/◌, ◌%◌, ◌^◌, ◌≤◌, ◌<◌, Text, length, length-append, all, is_digit,
  decimal, length-decimal, decimal-digits, to_be_bytes, u64_limit, bit_xor-zero_iff, bit_or-zero,
  bit_or-none, [], ◌∷◌, ◌++◌, Bool, true, ◌==◌, ==_iff, ltb, Error, false, Result, ok, err,
  ok-injective, Result-cases, Bool-cases, inl, inr, ◌≡◌, ◌≢◌, ◌↔◌, ◌⊎◌, refl, ap, ◌∙◌, arith,
}
use himmelcloak.Totp.{
  OtpAlgorithm, offset, truncate, zeros, padded, hotp, totp, difference, constant_time_eq,
  verify_hotp, verify_totp, advance, verify_and_advance_hotp,
}

-- The four bytes that a code is made of stand within a digest of 20 bytes or more, the least that an
-- algorithm has, so that reading them never stops the program.
pub offset-within : (digest : Text) → 20 ≤ length digest → offset digest + 3 < length digest
unfolding offset
offset-within digest h = omega arith

difference-zero :
    (acc : ℕ) (s t : Text) → length s ≡ length t → difference acc s t ≡ 0 → (acc ≡ 0) × (s ≡ t)
unfolding difference
difference-zero acc [] [] e h = (h, refl)
difference-zero acc (a ∷ s) (b ∷ t) e h =
    let (x, rest) = difference-zero (bit_or acc (bit_xor a b)) s t (omega arith) h in
    let (y, z) = bit_or-zero acc (bit_xor a b) x in let same = (bit_xor-zero_iff a b).0 z in (y, cc)
difference-zero acc [] (b ∷ t) e h = absurd (omega arith)
difference-zero acc (a ∷ s) [] e h = absurd (omega arith)

difference_self : (s : Text) → difference 0 s s ≡ 0
unfolding difference
difference_self [] = refl
difference_self (a ∷ s) = rw ((bit_xor-zero_iff a a).1 refl, bit_or-none) (difference_self s)

-- The comparison in constant time is equality.
pub constant_time_eq_iff : (s t : Text) → (constant_time_eq s t ≡ true) ↔ (s ≡ t)
unfolding constant_time_eq
constant_time_eq_iff s t = (sound, complete)
  where
    sound : constant_time_eq s t ≡ true → s ≡ t
    sound h = elim (Bool-cases (length s == length t)) [
      | inl e ↦ (difference-zero 0 s t ((==_iff _ _).0 e) ((==_iff _ _).0 (rw e at h))).1
      | inr e ↦ absurd (ground arith)
    ]

    complete : s ≡ t → constant_time_eq s t ≡ true
    complete h = rw (← h, difference_self s, (==_iff (length s) (length s)).1 refl) refl

length-zeros : (n : ℕ) → length (zeros n) ≡ n
unfolding zeros
length-zeros zero = refl
length-zeros (suc n) = ap suc (length-zeros n)

all-append : (p : ℕ → Bool) (s t : Text) → all p s ≡ true → all p t ≡ true → all p (s ++ t) ≡ true
unfolding all
all-append p [] t h k = k
all-append p (c ∷ s) t h k = ground (arith, all-append p s t)

zeros-digits : (n : ℕ) → all is_digit (zeros n) ≡ true
unfolding all zeros
zeros-digits zero = refl
zeros-digits (suc n) = ground (arith, zeros-digits n)

padded-digits :
    (width n : ℕ)
    → n < 10 ^ width
    → 0 < width
    → (length (padded width n) ≡ width) × (all is_digit (padded width n) ≡ true)
unfolding padded
padded-digits width n h p = (
  omega (
    arith,
    length-append (zeros (width - length (decimal n))) (decimal n),
    length-zeros (width - length (decimal n)),
    length-decimal width n h p,
  ),
  all-append is_digit _ _ (zeros-digits (width - length (decimal n))) (decimal-digits n),
)

module _ (hmac : OtpAlgorithm → Text → Text → Result Text) where
  -- A code has exactly the digits asked for, of which there are six to eight, and is made only for a secret of 16 bytes or more.
  pub hotp-digits :
      (secret : Text) (counter : ℕ) (algorithm : OtpAlgorithm) (digits : ℕ) {code : Text}
      → hotp hmac secret counter algorithm digits ≡ ok code
      → (length code ≡ digits)
        × (all is_digit code ≡ true)
        × (6 ≤ digits)
        × (digits ≤ 8)
        × (16 ≤ length secret)
  unfolding hotp
  hotp-digits secret counter algorithm digits {code} h =
      elim (Result-cases (hmac algorithm secret (to_be_bytes 8 counter))) [
        | inr (e, q) ↦ absurd (ground arith)
        | inl (digest, q) ↦
            (let bounds : (6 ≤ digits) × (digits ≤ 8) × (16 ≤ length secret) = ground arith in
              let same : padded digits (truncate digest % 10 ^ digits) ≡ code = ground arith in
              let (a, b) =
                padded-digits digits (truncate digest % 10 ^ digits)
                  (mod_pow (truncate digest) digits) (omega (arith, bounds)) in
              (rw (← same) a, rw (← same) b, bounds.0, bounds.1, bounds.2))
      ]
    where
      pow_positive : (k : ℕ) → 0 < 10 ^ k
      pow_positive zero = omega arith
      pow_positive (suc k) = omega (arith, pow_positive k)

      mod_pow : (n k : ℕ) → n % 10 ^ k < 10 ^ k
      mod_pow n k = omega (arith, pow_positive k)

  -- A time-based code is accepted exactly when it is the code of the counter that the time's period has.
  pub verify_totp_iff :
      (secret : Text) (unix_time period : ℕ) (algorithm : OtpAlgorithm) (digits : ℕ) (code : Text)
      → period ≢ 0
      → (verify_totp hmac secret unix_time period algorithm digits code ≡ ok true)
        ↔ (hotp hmac secret (unix_time / period) algorithm digits ≡ ok code)
  unfolding verify_totp totp
  verify_totp_iff secret unix_time period algorithm digits code p =
      elim (Result-cases (hotp hmac secret (unix_time / period) algorithm digits)) [
        | inr (e, q) ↦ ((λ h. absurd (ground arith)), λ h. absurd cc)
        | inl (expected, q) ↦ (
          (λ h.
              (let same : constant_time_eq expected code ≡ true = ground arith in
                q ∙ ap ok ((constant_time_eq_iff expected code).0 same))),
          λ h.
              (let same : expected ≡ code = cc in
                let c = (constant_time_eq_iff expected code).1 same in ground arith),
        )
      ]

  -- A code is accepted, and the counter moves, exactly when the code is the one of the counter and the counter can still move
  -- within 64 bits: then the counter is one more. Otherwise nothing is accepted and the counter stays.
  pub verify_and_advance_hotp_lem :
      (secret : Text) (algorithm : OtpAlgorithm) (digits : ℕ) (code : Text) (counter : ℕ)
      → ((verify_and_advance_hotp hmac secret algorithm digits code counter
            ≡ (ok true, counter + 1))
          ↔ ((hotp hmac secret counter algorithm digits ≡ ok code) × (counter + 1 < u64_limit)))
        × ((verify_and_advance_hotp hmac secret algorithm digits code counter
              ≡ (ok true, counter + 1))
            ⊎ (((verify_and_advance_hotp hmac secret algorithm digits code counter).1 ≡ counter)
                × ((verify_and_advance_hotp hmac secret algorithm digits code counter).0
                    ≢ ok true)))
  unfolding verify_and_advance_hotp verify_hotp advance
  verify_and_advance_hotp_lem secret algorithm digits code counter =
      elim (Result-cases (hotp hmac secret counter algorithm digits)) [
        | inr (e, q) ↦ rw q ((λ h. absurd (refused h), λ h. absurd cc), inr (refl, λ h. cc))
        | inl (expected, q) ↦ elim (Bool-cases (constant_time_eq expected code)) [
          | inr d ↦
              rw (q, d)
                (
                  (
                    λ h. absurd (rejected h),
                    λ h.
                        absurd
                          (let c = (constant_time_eq_iff expected code).1 (ok-injective h.0) in cc),
                  ),
                  inr (refl, λ h. cc),
                )
          | inl d ↦ elim (Bool-cases (ltb (counter + 1) u64_limit)) [
            | inl b ↦
                rw (q, d, b)
                  (
                    (
                      λ h. (ap ok ((constant_time_eq_iff expected code).0 d), ground arith),
                      λ h. refl,
                    ),
                    inl refl,
                  )
            | inr b ↦
                rw (q, d, b)
                  ((λ h. absurd (refused h), λ h. absurd (ground arith)), inr (refl, λ h. cc))
          ]
        ]
      ]
    where
      refused : {e : Error} {n m : ℕ} → ◌≡◌ {A = Result Bool × ℕ} (err e, n) (ok true, m) → ⊥
      refused h = let e = ap (λ (p : Result Bool × ℕ). p.0) h in cc

      rejected : {n m : ℕ} → ◌≡◌ {A = Result Bool × ℕ} (ok false, n) (ok true, m) → ⊥
      rejected h = let e = ok-injective (ap (λ (p : Result Bool × ℕ). p.0) h) in cc
