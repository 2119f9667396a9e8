-- ===== src/SensitiveJson/Escapes.antt =====
-- What decoding a string yields: no more bytes than its source, as the capacity of the buffer assumes.
use himmelcloak.Prelude.{
  ℕ, zero, suc, ◌+◌, ◌≤◌, ◌<◌, Text, length, length-append, [], ◌∷◌, some, Bool, true, false, ◌==◌,
  within, encode_char, Option-cases, Bool-cases, inl, inr, ◌≡◌, refl, arith, decode, is_some,
  bind-eq_some,
}
use himmelcloak.SensitiveJson.Strings.{
  hex_digit, hex4, low_half, codepoint, unicode_escape, escape, decode_next, unescape, scan,
  decode_string, parse_string, consume,
}

hex_digit_bound : (d n : ℕ) → hex_digit d ≡ some n → n < 16
unfolding hex_digit
hex_digit_bound d n h = ground arith

-- Four digits give a code unit of 16 bits.
pub hex4-lt :
    (s : Text) (n : ℕ) (rest : Text)
    → hex4 s ≡ some (n, rest)
    → (n < 65536) × (length s ≡ 4 + length rest)
unfolding hex4
hex4-lt (a ∷ b ∷ c ∷ d ∷ s) n rest h = bind-eq_some (hex_digit a) _ h λ i p h1.
    bind-eq_some (hex_digit b) _ h1 λ j q h2. bind-eq_some (hex_digit c) _ h2 λ k r h3.
      bind-eq_some (hex_digit d) _ h3 λ l t h4. ground (
        arith,
        hex_digit_bound a i p,
        hex_digit_bound b j q,
        hex_digit_bound c k r,
        hex_digit_bound d l t,
      )
hex4-lt [] n rest h = absurd (ground arith)
hex4-lt (a ∷ []) n rest h = absurd (ground arith)
hex4-lt (a ∷ b ∷ []) n rest h = absurd (ground arith)
hex4-lt (a ∷ b ∷ c ∷ []) n rest h = absurd (ground arith)

length-encode_char : (c : ℕ) → length (encode_char c) ≤ 4
unfolding encode_char
length-encode_char c = ground arith

length-encode_char-low : (c : ℕ) → c < 65536 → length (encode_char c) ≤ 3
unfolding encode_char
length-encode_char-low c h = ground arith

length-low_half :
    (high : ℕ) (s : Text) (c : ℕ) (rest : Text)
    → low_half high s ≡ some (c, rest)
    → length s ≡ 6 + length rest
unfolding low_half
length-low_half high [] c rest h = absurd (ground arith)
length-low_half high (a ∷ []) c rest h = absurd (ground arith)
length-low_half high (a ∷ b ∷ s) c rest h = elim (Option-cases (hex4 s)) [
  | inl e ↦ absurd (ground arith)
  | inr ((low, r), e) ↦ ground (arith, hex4-lt s low r e)
]

-- An escape of six bytes gives at most three, and one of twelve at most four.
length-unicode_escape :
    (s out rest : Text) → unicode_escape s ≡ some (out, rest) → length out + length rest ≤ length s
unfolding unicode_escape codepoint
length-unicode_escape s out rest h = elim (Option-cases (hex4 s)) [
  | inl e ↦ absurd (ground arith)
  | inr ((c, r), e) ↦ elim (Bool-cases (within 0xd800 0xdbff c)) [
    | inl q ↦ elim (Option-cases (low_half c r)) [
      | inl e' ↦ absurd (ground arith)
      | inr ((c', r'), e') ↦
          ground (arith, hex4-lt s c r e, length-low_half c r c' r' e', length-encode_char c')
    ]
    | inr q ↦ ground (arith, hex4-lt s c r e, length-encode_char-low c)
  ]
]

length-escape :
    (s out rest : Text) → escape s ≡ some (out, rest) → length out + length rest ≤ length s
unfolding escape
length-escape [] out rest h = absurd (ground arith)
length-escape (c ∷ s) out rest h = ground (arith, length-unicode_escape s out rest)

pub length-decode_next :
    (c : ℕ) (s out rest : Text)
    → decode_next c s ≡ some (out, rest)
    → length out + length rest ≤ suc (length s)
unfolding decode_next
length-decode_next c s out rest h = ground (arith, length-escape s out rest)

-- Decoding never lengthens a string.
pub length-unescape : (fuel : ℕ) (s t : Text) → unescape fuel s ≡ some t → length t ≤ length s
unfolding unescape
length-unescape fuel [] t h = ground arith
length-unescape zero (c ∷ s) t h = absurd (ground arith)
length-unescape (suc fuel) (c ∷ s) t h = bind-eq_some (decode_next c s) _ h λ (out, rest) p h1.
    bind-eq_some (unescape fuel rest) _ h1 λ more q h2. ground (
      arith,
      length-decode_next c s out rest p,
      length-unescape fuel rest more q,
      length-append out more,
    )

rest-unicode_escape :
    (s out rest : Text) → unicode_escape s ≡ some (out, rest) → length rest ≤ length s
rest-unicode_escape s out rest h = omega (arith, length-unicode_escape s out rest h)

rest-escape : (s out rest : Text) → escape s ≡ some (out, rest) → length rest ≤ length s
unfolding escape
rest-escape [] out rest h = absurd (ground arith)
rest-escape (c ∷ s) out rest h = ground (arith, rest-unicode_escape s out rest)

-- A round of the loop takes at least one byte.
pub rest-decode_next :
    (c : ℕ) (s out rest : Text) → decode_next c s ≡ some (out, rest) → length rest ≤ length s
unfolding decode_next
rest-decode_next c s out rest h = ground (arith, rest-escape s out rest)

-- One round for each byte is enough.
pub unescape-fuel : (f g : ℕ) (s : Text) → length s ≤ f → length s ≤ g → unescape f s ≡ unescape g s
unfolding unescape
unescape-fuel f g [] p q = refl
unescape-fuel zero g (c ∷ s) p q = absurd (omega arith)
unescape-fuel (suc f) zero (c ∷ s) p q = absurd (omega arith)
unescape-fuel (suc f) (suc g) (c ∷ s) p q = elim (Option-cases (decode_next c s)) [
  | inl e ↦ rw e refl
  | inr ((out, rest), e) ↦
      (let r = rest-decode_next c s out rest e in
        rw (e, unescape-fuel f g rest (omega arith) (omega arith)) refl)
]

length-scan :
    (b : Bool) (s raw rest : Text)
    → scan b s ≡ some (raw, rest)
    → length raw + length rest < length s
unfolding scan
length-scan b [] raw rest h = absurd (ground arith)
length-scan true (c ∷ s) raw rest h = elim (Option-cases (scan false s)) [
  | inl e ↦ absurd (ground arith)
  | inr ((raw', rest'), e) ↦ ground (arith, length-scan false s raw' rest' e)
]
length-scan false (c ∷ s) raw rest h = elim (Option-cases (scan (c == 92) s)) [
  | inl e ↦ ground arith
  | inr ((raw', rest'), e) ↦ ground (arith, length-scan (c == 92) s raw' rest' e)
]

length-decode_string : (raw t : Text) → decode_string raw ≡ some t → length t ≤ length raw
unfolding decode_string
length-decode_string raw t h =
    bind-eq_some (unescape (length raw) raw) _ h
      λ bytes p h1. ground (arith, length-unescape (length raw) raw bytes p)

pub consume-length :
    (c : ℕ) (s rest : Text) → consume c s ≡ some rest → length s ≡ suc (length rest)
unfolding consume
consume-length c [] rest h = absurd (ground arith)
consume-length c (d ∷ s) rest h = ground arith

-- A string that is read, and what follows it, leave room for the two quotes: no string is longer than
-- its source, so that the buffer that `string` reserves never grows.
pub parse_string-length :
    (s t rest : Text) → parse_string s ≡ some (t, rest) → 2 + length t + length rest ≤ length s
unfolding parse_string
parse_string-length s t rest h = bind-eq_some (consume 34 s) _ h λ s1 p h1.
    bind-eq_some (scan false s1) _ h1 λ (raw, rest') q h2.
      bind-eq_some (decode_string raw) _ h2 λ t' r h3. ground (
        arith,
        consume-length 34 s s1 p,
        length-scan false s1 raw rest' q,
        length-decode_string raw t' r,
      )

valid_utf8 : (raw t : Text) → decode_string raw ≡ some t → is_some (decode t) ≡ true
unfolding decode_string
valid_utf8 raw t h = bind-eq_some (unescape (length raw) raw) _ h λ bytes p h1. ground arith

-- A string that is read is valid UTF-8.
pub parse_string-valid :
    (s t rest : Text) → parse_string s ≡ some (t, rest) → is_some (decode t) ≡ true
unfolding parse_string
parse_string-valid s t rest h = bind-eq_some (consume 34 s) _ h λ s1 p h1.
    bind-eq_some (scan false s1) _ h1 λ (raw, rest') q h2.
      bind-eq_some (decode_string raw) _ h2 λ t' r h3. ground (arith, valid_utf8 raw t' r)
