-- ===== src/Prelude/Strings.antt =====
-- `String` and `&str` values, as their UTF-8 bytes. `text` turns a literal of the source (ASCII) into
-- such a value; it stays shut in proofs, and tests unfold it.
use Prim.Native.Nat.{ℕ, ◌+◌}
use Prim.Native.Char.{code}
use Prim.Native.String.{String}
use mathlib.Core.Path.{◌≡◌, refl, ap}
use mathlib.Core.Logic.{◌↔◌}
use mathlib.Core.Bool.{Bool, true, false, ◌&&◌}
use mathlib.Core.List.{List, [], ◌∷◌, ◌++◌, map, Memᴰ}
use mathlib.Core.Option.{Option, none, some}
use native.Mathlib.Omega.{arith}
use himmelcloak.Prelude.Tests.{if◌then◌else◌, ◌==◌, leb}
use himmelcloak.Prelude.Lists.{any, any_elim, any_intro, length, length-map}

abbrev pub Text : Type 0
Text = List ℕ

abbrev codes : String → Text
codes String.[] = []
codes (String.◌∷◌ c s) = code c ∷ codes s

unfoldable pub text : String → Text
text s = codes s

-- `==` on strings and byte vectors
unfoldable pub text_eq : Text → Text → Bool
text_eq [] [] = true
text_eq (a ∷ s) (b ∷ t) = (a == b) && text_eq s t
text_eq _ _ = false

pub text_eq_sound : (s t : Text) → text_eq s t ≡ true → s ≡ t
unfolding text_eq
text_eq_sound [] [] h = refl
text_eq_sound (a ∷ s) (b ∷ t) h = ground (arith, text_eq_sound s t)
text_eq_sound [] (_ ∷ _) h = absurd (ground arith)
text_eq_sound (_ ∷ _) [] h = absurd (ground arith)

pub text_eq_self : (s : Text) → text_eq s s ≡ true
unfolding text_eq
text_eq_self [] = refl
text_eq_self (a ∷ s) = ground (arith, text_eq_self s)

pub text_eq_complete : (s t : Text) → s ≡ t → text_eq s t ≡ true
text_eq_complete s t h = rw h (text_eq_self t)

pub text_eq_iff : (s t : Text) → (text_eq s t ≡ true) ↔ (s ≡ t)
text_eq_iff s t = (text_eq_sound s t, text_eq_complete s t)

-- `a == Some(b)` on optional strings
unfoldable pub is_text : Option Text → Text → Bool
is_text none t = false
is_text (some s) t = text_eq s t

pub is_text_sound : (o : Option Text) (t : Text) → is_text o t ≡ true → o ≡ some t
unfolding is_text
is_text_sound none t h = absurd (ground arith)
is_text_sound (some s) t h = ap some (text_eq_sound s t h)

pub is_text_self : (t : Text) → is_text (some t) t ≡ true
unfolding is_text
is_text_self t = text_eq_self t

-- `[&str]::contains`
unfoldable pub contains : List Text → Text → Bool
contains xs t = any (λ x. text_eq x t) xs

pub contains_sound : (xs : List Text) (t : Text) → contains xs t ≡ true → Memᴰ t xs
unfolding contains
contains_sound xs t h =
    let (x, m, e) = any_elim (λ x. text_eq x t) xs h in rw (text_eq_sound x t e) at m

pub contains_complete : {t : Text} {xs : List Text} → Memᴰ t xs → contains xs t ≡ true
unfolding contains
contains_complete {t} m = any_intro (λ x. text_eq x t) m (text_eq_self t)

-- `strip_prefix`
unfoldable pub strip_prefix : Text → Text → Option Text
strip_prefix [] s = some s
strip_prefix (p ∷ ps) [] = none
strip_prefix (p ∷ ps) (c ∷ s) = if p == c then strip_prefix ps s else none

pub strip_prefix_lem : (p s : Text) {r : Text} → strip_prefix p s ≡ some r → s ≡ p ++ r
unfolding strip_prefix
strip_prefix_lem [] s h = ground arith
strip_prefix_lem (p ∷ ps) [] h = absurd (ground arith)
strip_prefix_lem (p ∷ ps) (c ∷ s) {r} h = ground (arith, strip_prefix_lem ps s {r = r})

-- `str::split(sep)` on one byte: never empty, and the pieces hold no separator
unfoldable pub split : ℕ → Text → List Text
split sep [] = [] ∷ []
split sep (c ∷ s) = let rest = split sep s in if c == sep then [] ∷ rest else push c rest
  where
    push : ℕ → List Text → List Text
    push c [] = (c ∷ []) ∷ []
    push c (p ∷ ps) = (c ∷ p) ∷ ps

-- `u8::to_ascii_lowercase`
abbrev pub lower : ℕ → ℕ
lower c = if leb 65 c && leb c 90 then c + 32 else c

-- `eq_ignore_ascii_case`
unfoldable pub eq_ignore_ascii_case : Text → Text → Bool
eq_ignore_ascii_case s t = text_eq (map lower s) (map lower t)

pub length-text_eq : (s t : Text) → text_eq s t ≡ true → length s ≡ length t
length-text_eq s t h = ap length (text_eq_sound s t h)

pub length-eq_ignore_ascii_case :
    (s t : Text) → eq_ignore_ascii_case s t ≡ true → length s ≡ length t
unfolding eq_ignore_ascii_case
length-eq_ignore_ascii_case s t h =
    omega
      (arith, length-map lower s, length-map lower t, length-text_eq (map lower s) (map lower t) h)
