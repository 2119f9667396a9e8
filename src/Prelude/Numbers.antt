-- ===== src/Prelude/Numbers.antt =====
-- `str::parse` into an unsigned integer, and `Vec::swap_remove`.
use Prim.Native.Nat.{ℕ, zero, suc, ◌+◌, ◌-◌, ◌*◌, ◌/◌, ◌%◌, ◌^◌, ◌≤◌, ◌<◌}
use mathlib.Core.Path.{◌≡◌, refl}
use mathlib.Core.Logic.{inl, inr}
use mathlib.Core.Bool.{Bool, true, ◌&&◌}
use mathlib.Core.List.{[], ◌∷◌}
use mathlib.Core.Option.{Option, none, some}
use native.Mathlib.Omega.{arith}
use himmelcloak.Prelude.Tests.{if◌then◌else◌, ◌==◌, leb, ltb, Bool-cases}
use himmelcloak.Prelude.Lists.{length, all}
use himmelcloak.Prelude.Strings.{Text}

abbrev pub is_digit : ℕ → Bool
is_digit c = leb 48 c && leb c 57

unfoldable pub parse_digits : ℕ → ℕ → Text → Option ℕ
parse_digits limit n [] = some n
parse_digits limit n (c ∷ s) =
    if is_digit c && ltb (n * 10 + (c - 48)) limit
    then parse_digits limit (n * 10 + (c - 48)) s
    else none

-- A `+` may stand in front; an empty number, another byte or a value of `limit` or more fails.
unfoldable pub parse_unsigned : ℕ → Text → Option ℕ
unfolding parse_digits
parse_unsigned limit [] = none
parse_unsigned limit (c ∷ []) = if is_digit c then parse_digits limit 0 (c ∷ []) else none
parse_unsigned limit (c ∷ d ∷ s) =
    if c == 43 then parse_digits limit 0 (d ∷ s) else parse_digits limit 0 (c ∷ d ∷ s)

abbrev pub u64_limit : ℕ
u64_limit = 18446744073709551616

pub parse_digits-lt :
    (limit n : ℕ) (s : Text) {m : ℕ} → n < limit → parse_digits limit n s ≡ some m → m < limit
unfolding parse_digits
parse_digits-lt limit n [] h e = ground arith
parse_digits-lt limit n (c ∷ s) {m} h e =
    ground (arith, parse_digits-lt limit (n * 10 + (c - 48)) s {m = m})

-- `to_string` of an unsigned integer. A number has at most as many digits as its value, plus one, which
-- bounds the digits that are asked for.
digits_from : ℕ → ℕ → Text → Text
digits_from zero n acc = acc
digits_from (suc fuel) n acc =
    let acc' = (48 + n % 10) ∷ acc in
    let rest = digits_from fuel (n / 10) acc' in if ltb n 10 then acc' else rest

unfoldable pub decimal : ℕ → Text
unfolding digits_from
decimal n = digits_from (suc n) n []

length-digits_from :
    (fuel n k : ℕ) (acc : Text)
    → n < 10 ^ k
    → 0 < k
    → length (digits_from fuel n acc) ≤ k + length acc
unfolding digits_from
length-digits_from zero n k acc h p = omega arith
length-digits_from (suc fuel) n zero acc h p = absurd (omega arith)
length-digits_from (suc fuel) n (suc k) acc h p = elim (Bool-cases (ltb n 10)) [
  | inl e ↦ rw e (omega arith)
  | inr e ↦
      (let big : 10 ≤ n = ground arith in
        rw e (
          omega (
            arith,
            length-digits_from fuel (n / 10) k ((48 + n % 10) ∷ acc) (omega arith)
                (positive k n big h),
          )))
]
  where
    positive : (k n : ℕ) → 10 ≤ n → n < 10 ^ suc k → 0 < k
    positive zero n p h = absurd (omega arith)
    positive (suc k) n p h = omega arith

-- A number below a power of ten has at most that many digits.
pub length-decimal : (k n : ℕ) → n < 10 ^ k → 0 < k → length (decimal n) ≤ k
unfolding decimal
length-decimal k n h p = omega (arith, length-digits_from (suc n) n k [] h p)

digits_from-digits :
    (fuel n : ℕ) (acc : Text)
    → all is_digit acc ≡ true
    → all is_digit (digits_from fuel n acc) ≡ true
unfolding digits_from all
digits_from-digits zero n acc h = h
digits_from-digits (suc fuel) n acc h =
    ground (arith, digits_from-digits fuel (n / 10) ((48 + n % 10) ∷ acc))

pub decimal-digits : (n : ℕ) → all is_digit (decimal n) ≡ true
unfolding decimal all
decimal-digits n = digits_from-digits (suc n) n [] refl
