-- ===== src/Totp.antt =====
-- One-time codes (src/authn/totp.rs). `hmac` is wolfCrypt's, of the algorithm, the key and the message.
pub mod Codes
use Prim.Native.Nat.{bit_or, bit_xor}
use himmelcloak.Prelude.{
  ℕ, zero, suc, ◌+◌, ◌-◌, ◌*◌, ◌/◌, ◌%◌, ◌^◌, Text, length, get_elem?, take, drop, decimal,
  to_be_bytes, from_be_bytes, u64_limit, List, [], ◌∷◌, ◌++◌, Option, none, some, Bool, true, false,
  ◌==◌, ltb, leb, ◌&&◌, if◌then◌else◌, Error, invalid_configuration, Result, ok, err, and_then,
  ensure, Run, resume, ◌>>=◌, lift, pure, raise,
}

pub data OtpAlgorithm : Type 0 where
  sha1 sha256 sha512 : OtpAlgorithm

-- The byte at an index; the source would stop past the end, which no digest of 20 bytes or more reaches.
unfoldable pub byte_at : Text → ℕ → ℕ
byte_at s i = elim (get_elem? s i) [ none ↦ 0 | some b ↦ b ]

-- `digest[digest.len() - 1] & 0x0f`
unfoldable pub offset : Text → ℕ
unfolding byte_at
offset digest = byte_at digest (length digest - 1) % 16

-- The 31 bits at the offset.
unfoldable pub truncate : Text → ℕ
unfolding offset
truncate digest =
    let o = offset digest in
    from_be_bytes 0 (
      byte_at digest o
      ∷ byte_at digest (o + 1)
      ∷ byte_at digest (o + 2)
      ∷ byte_at digest (o + 3)
      ∷ [])
    % 2 ^ 31

zeros : ℕ → Text
zeros zero = []
zeros (suc n) = b'0' ∷ zeros n

-- `{value:0width$}`
unfoldable pub padded : ℕ → ℕ → Text
unfolding zeros
padded width n = zeros (width - length (decimal n)) ++ decimal n

module _ (hmac : OtpAlgorithm → Text → Text → Result Text) where
  -- `hotp`
  unfoldable pub hotp : Text → ℕ → OtpAlgorithm → ℕ → Result Text
  unfolding padded truncate
  hotp secret counter algorithm digits =
      if ltb (length secret) 16
      then err (invalid_configuration "OTP secret must be at least 16 bytes")
      else (if leb 6 digits && leb digits 8
          then and_then (hmac algorithm secret (to_be_bytes 8 counter))
              (λ digest. ok (padded digits (truncate digest % 10 ^ digits)))
          else err (invalid_configuration "OTP digit count must be between 6 and 8"))

  -- `totp`
  unfoldable pub totp : Text → ℕ → ℕ → OtpAlgorithm → ℕ → Result Text
  unfolding hotp
  totp secret unix_time period algorithm digits =
      if period == 0
      then err (invalid_configuration "OTP period must not be zero")
      else hotp secret (unix_time / period) algorithm digits

-- The loop of `constant_time_eq`.
unfoldable pub difference : ℕ → Text → Text → ℕ
difference acc (a ∷ s) (b ∷ t) = difference (bit_or acc (bit_xor a b)) s t
difference acc _ _ = acc

-- `constant_time_eq`
unfoldable pub constant_time_eq : Text → Text → Bool
unfolding difference
constant_time_eq left right =
    if length left == length right then (difference 0 left right == 0) else false

module _ (hmac : OtpAlgorithm → Text → Text → Result Text) where
  -- `verify_hotp`
  unfoldable pub verify_hotp : Text → ℕ → OtpAlgorithm → ℕ → Text → Result Bool
  unfolding hotp constant_time_eq
  verify_hotp secret counter algorithm digits code =
      and_then (hotp hmac secret counter algorithm digits)
        λ expected. ok (constant_time_eq expected code)

  -- `verify_totp`
  unfoldable pub verify_totp : Text → ℕ → ℕ → OtpAlgorithm → ℕ → Text → Result Bool
  unfolding totp constant_time_eq
  verify_totp secret unix_time period algorithm digits code =
      and_then (totp hmac secret unix_time period algorithm digits)
        λ expected. ok (constant_time_eq expected code)

  -- The counter after a match.
  unfoldable pub advance : Bool → Run ℕ Bool
  advance false counter = (ok false, counter)
  advance true counter =
      if ltb (counter + 1) u64_limit
      then (ok true, counter + 1)
      else (err (invalid_configuration "HOTP counter exhausted"), counter)

  -- `verify_and_advance_hotp`, on the counter
  unfoldable pub verify_and_advance_hotp : Text → OtpAlgorithm → ℕ → Text → Run ℕ Bool
  unfolding verify_hotp advance
  verify_and_advance_hotp secret algorithm digits code counter =
      resume (verify_hotp secret counter algorithm digits code) advance counter
