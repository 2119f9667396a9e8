-- ===== src/Prelude/Bytes.antt =====
-- Bytes: big-endian integers, and the bitwise operations of a comparison in constant time.
use Prim.Native.Nat.{
  ℕ, zero, suc, ◌+◌, ◌*◌, ◌/◌, ◌%◌, ◌^◌, ◌≤◌, ◌<◌, max, differ, digits, bit_or, bit_xor,
  bit_or-bitwise, bit_xor-bitwise,
}
use mathlib.Core.Path.{◌≡◌, refl, sym, ap, ◌∙◌}
use mathlib.Core.Logic.{◌↔◌}
use mathlib.Core.List.{[], ◌∷◌, ◌++◌}
use native.Mathlib.Omega.{arith}
use himmelcloak.Prelude.Lists.{length, length-append}
use himmelcloak.Prelude.Strings.{Text}

-- `to_be_bytes` of an integer of that many bytes
unfoldable pub to_be_bytes : ℕ → ℕ → Text
to_be_bytes zero n = []
to_be_bytes (suc w) n = to_be_bytes w (n / 256) ++ (n % 256) ∷ []

-- `from_be_bytes`
unfoldable pub from_be_bytes : ℕ → Text → ℕ
from_be_bytes acc [] = acc
from_be_bytes acc (b ∷ s) = from_be_bytes (acc * 256 + b) s

pub length-to_be_bytes : (w n : ℕ) → length (to_be_bytes w n) ≡ w
unfolding to_be_bytes
length-to_be_bytes zero n = refl
length-to_be_bytes (suc w) n = omega (
  arith,
  length-append (to_be_bytes w (n / 256)) ((n % 256) ∷ []),
  length-to_be_bytes w (n / 256),
)

from_be_bytes-append :
    (acc : ℕ) (s : Text) (b : ℕ) → from_be_bytes acc (s ++ b ∷ []) ≡ from_be_bytes acc s * 256 + b
unfolding from_be_bytes
from_be_bytes-append acc [] b = refl
from_be_bytes-append acc (c ∷ s) b = from_be_bytes-append (acc * 256 + c) s b

-- The bytes of a number give it back.
pub from-to_be_bytes : (w n : ℕ) → n < 256 ^ w → from_be_bytes 0 (to_be_bytes w n) ≡ n
unfolding to_be_bytes from_be_bytes
from-to_be_bytes zero n h = omega arith
from-to_be_bytes (suc w) n h = omega (
  arith,
  from_be_bytes-append 0 (to_be_bytes w (n / 256)) (n % 256),
  from-to_be_bytes w (n / 256) (omega arith),
)

xor_digits : (n a b : ℕ) → a ≤ n → digits (λ b. b) differ n a b ≡ 0 → a ≡ b
xor_digits zero a b p h = omega arith
xor_digits (suc n) zero b p h = omega arith
xor_digits (suc n) (suc a) b p h =
    let low = bit_differ (suc a % 2) (b % 2) (omega arith) in
    omega (arith, xor_digits n (suc a / 2) (b / 2) (omega arith) (omega arith))
  where
    bit_differ : (x y : ℕ) → differ x y ≡ 0 → x ≡ y
    bit_differ zero y h = sym h
    bit_differ (suc x) zero h = h
    bit_differ (suc x) (suc y) h = ap suc (bit_differ x y h)

xor_self : (n a : ℕ) → a ≤ n → digits (λ b. b) differ n a a ≡ 0
xor_self zero a p = omega arith
xor_self (suc n) zero p = refl
xor_self (suc n) (suc a) p = omega (arith, xor_self n (suc a / 2) (omega arith), same (suc a % 2))
  where
    same : (x : ℕ) → differ x x ≡ 0
    same zero = refl
    same (suc x) = same x

or_digits : (n a b : ℕ) → a ≤ n → digits (λ b. b) max n a b ≡ 0 → (a ≡ 0) × (b ≡ 0)
or_digits zero a b p h = (omega arith, h)
or_digits (suc n) zero b p h = (refl, h)
or_digits (suc n) (suc a) b p h =
    let (x, y) = or_digits n (suc a / 2) (b / 2) (omega arith) (omega arith) in absurd (omega arith)

xor_lem : (a b : ℕ) → bit_xor a b ≡ digits (λ b. b) differ a a b
xor_lem a b = λ i. bit_xor-bitwise a b i

or_lem : (a b : ℕ) → bit_or a b ≡ digits (λ b. b) max a a b
or_lem a b = λ i. bit_or-bitwise a b i

-- Two numbers differ in no bit exactly when they are equal.
pub bit_xor-zero_iff : (a b : ℕ) → (bit_xor a b ≡ 0) ↔ (a ≡ b)
bit_xor-zero_iff a b = (
  λ h. xor_digits a a b (omega arith) (sym (xor_lem a b) ∙ h),
  λ h. rw (← h) (xor_lem a a ∙ xor_self a a (omega arith)),
)

pub bit_or-zero : (a b : ℕ) → bit_or a b ≡ 0 → (a ≡ 0) × (b ≡ 0)
bit_or-zero a b h = or_digits a a b (omega arith) (sym (or_lem a b) ∙ h)

pub bit_or-none : bit_or 0 0 ≡ 0
bit_or-none = or_lem 0 0
