-- ===== src/Prelude/Utf8.antt =====
-- UTF-8: what `str::from_utf8`, `chars` and `char::encode_utf8` do.
use Prim.Native.Nat.{ℕ, zero, suc, ◌+◌, ◌-◌, ◌*◌, ◌/◌, ◌%◌}
use mathlib.Core.Path.{◌≡◌, refl}
use mathlib.Core.Bool.{Bool, true, false, ◌&&◌, ◌||◌, not}
use mathlib.Core.List.{List, [], ◌∷◌, ◌++◌}
use mathlib.Core.Option.{Option, none, some}
use himmelcloak.Prelude.Tests.{if◌then◌else◌, ◌==◌, leb, ltb}
use himmelcloak.Prelude.Strings.{Text}

abbrev pub within : ℕ → ℕ → ℕ → Bool
within lo hi c = leb lo c && leb c hi

-- `char::from_u32` succeeds on these.
abbrev pub is_scalar : ℕ → Bool
is_scalar c = leb c 0x10ffff && not (within 0xd800 0xdfff c)

-- `char::encode_utf8`
unfoldable pub encode_char : ℕ → Text
encode_char c =
    if ltb c 0x80
    then c ∷ []
    else (if ltb c 0x800
        then (0xc0 + c / 64) ∷ (0x80 + c % 64) ∷ []
        else (if ltb c 0x10000
            then (0xe0 + c / 4096) ∷ (0x80 + c / 64 % 64) ∷ (0x80 + c % 64) ∷ []
            else (0xf0 + c / 262144)
              ∷ (0x80 + c / 4096 % 64)
              ∷ (0x80 + c / 64 % 64)
              ∷ (0x80 + c % 64)
              ∷ []))

unfoldable pub encode : List ℕ → Text
unfolding encode_char
encode [] = []
encode (c ∷ cs) = encode_char c ++ encode cs

-- How many continuation bytes are missing, the value so far, and the least value of that length.
record Partial : Type 0 where
  missing : ℕ
  value : ℕ
  least : ℕ

abbrev start : Partial
start = record { missing = 0; value = 0; least = 0 }

lead : ℕ → Option (Partial × List ℕ)
lead c =
    if ltb c 0x80
    then some (start, c ∷ [])
    else (if within 0xc2 0xdf c
        then some (record { missing = 1; value = c - 0xc0; least = 0x80 }, [])
        else (if within 0xe0 0xef c
            then some (record { missing = 2; value = c - 0xe0; least = 0x800 }, [])
            else (if within 0xf0 0xf4 c
                then some (record { missing = 3; value = c - 0xf0; least = 0x10000 }, [])
                else none)))

continue : ℕ → ℕ → ℕ → ℕ → Option (Partial × List ℕ)
continue missing value least c =
    let value' = value * 64 + (c - 0x80) in
    if within 0x80 0xbf c
    then (if missing == 0
        then (if leb least value' && is_scalar value' then some (start, value' ∷ []) else none)
        else some (record { missing = missing; value = value'; least = least }, []))
    else none

feed : Partial → ℕ → Option (Partial × List ℕ)
feed p c = elim p.missing [ zero ↦ lead c | suc m ↦ continue m p.value p.least c ]

decode_from : Partial → Text → Option (List ℕ)
unfolding lead continue feed
decode_from p [] = if p.missing == 0 then some [] else none
decode_from p (c ∷ s) = elim (feed p c) [
  | none ↦ none
  | some (p', out) ↦ elim (decode_from p' s) [ none ↦ none | some cs ↦ some (out ++ cs) ]
]

-- `str::from_utf8`: the code points of a valid text.
unfoldable pub decode : Text → Option (List ℕ)
unfolding decode_from
decode s = decode_from start s

-- `chars`, on a text that is a `str` and so is valid.
unfoldable pub chars : Text → List ℕ
unfolding decode
chars s = elim (decode s) [ none ↦ [] | some cs ↦ cs ]

-- `char::is_control`: the category Cc
unfoldable pub is_control : ℕ → Bool
is_control c = leb c 0x1f || within 0x7f 0x9f c

-- `char::is_whitespace`
unfoldable pub is_whitespace : ℕ → Bool
is_whitespace c =
    (c == 0x20)
    || within 0x09 0x0d c
    || (c == 0x85)
    || (c == 0xa0)
    || (c == 0x1680)
    || within 0x2000 0x200a c
    || (c == 0x2028)
    || (c == 0x2029)
    || (c == 0x202f)
    || (c == 0x205f)
    || (c == 0x3000)

-- `trim_start` on code points
unfoldable pub trim_start : List ℕ → List ℕ
trim_start [] = []
trim_start (c ∷ s) = elim (is_whitespace c) [ true ↦ trim_start s | false ↦ c ∷ s ]

-- `trim_end_matches`
unfoldable pub trim_end_matches : (ℕ → Bool) → List ℕ → List ℕ
trim_end_matches p [] = []
trim_end_matches p (c ∷ s) = elim (trim_end_matches p s) [
  | [] ↦ if p c then [] else c ∷ []
  | d ∷ ds ↦ c ∷ d ∷ ds
]

-- `trim`
unfoldable pub trim : List ℕ → List ℕ
unfolding trim_start trim_end_matches
trim s = trim_end_matches is_whitespace (trim_start s)

pub is_whitespace_space : is_whitespace 0x20 ≡ true
unfolding is_whitespace
is_whitespace_space = refl
