-- ===== src/Transport/Limits.antt =====
-- The limits hold: what a form request may carry, and what a response may buffer.
use himmelcloak.Prelude.{
  ℕ, ◌+◌, ◌*◌, ◌≤◌, ◌<◌, Text, length, List, [], ◌∷◌, ◌++◌, some, true, false, ◌≡◌, ◌↔◌, inl, inr,
  refl, sym, ◌∙◌, arith, is_ok, Option-cases, length-append,
}
use mathlib.Core.List.{append-nil, append_assoc}
use himmelcloak.Platform.{UrlLib}
use himmelcloak.Transport.{
  add_field, capacity_from, form_capacity_ok, form_request, max_form, Received, receive,
  receive_all, max_response, usize_limit,
}

-- Every byte may become three, and a separator and an equals sign come with each pair.
pub worst_case : List (Text × Text) → ℕ
worst_case [] = 0
worst_case ((name, value) ∷ fs) = (length name + length value) * 3 + 2 + worst_case fs

abbrev cost : ℕ → ℕ → ℕ
cost n v = (n + v) * 3 + 2

add_field_fits :
    (size : ℕ) (name value : Text)
    → size + cost (length name) (length value) < usize_limit
    → add_field size (name, value) ≡ some (size + cost (length name) (length value))
unfolding add_field
add_field_fits size name value h = ground arith

add_field_exact :
    (size : ℕ) (name value : Text) {c : ℕ}
    → add_field size (name, value) ≡ some c
    → c ≡ size + cost (length name) (length value)
unfolding add_field
add_field_exact size name value h = ground arith

capacity_from_fits :
    (size : ℕ) (fields : List (Text × Text))
    → size + worst_case fields < usize_limit
    → capacity_from size fields ≡ some (size + worst_case fields)
unfolding capacity_from worst_case
capacity_from_fits size [] h = ground arith
capacity_from_fits size ((name, value) ∷ fs) h = ground (
  arith,
  add_field_fits size name value,
  capacity_from_fits (size + cost (length name) (length value)) fs,
)

capacity_from_exact :
    (size : ℕ) (fields : List (Text × Text)) {c : ℕ}
    → capacity_from size fields ≡ some c
    → c ≡ size + worst_case fields
unfolding capacity_from worst_case
capacity_from_exact size [] h = ground arith
capacity_from_exact size ((name, value) ∷ fs) {c} h =
    elim (Option-cases (add_field size (name, value))) [
      | inl e ↦ absurd (ground arith)
      | inr (size', e) ↦ ground (
        arith,
        add_field_exact size name value {c = size'} e,
        capacity_from_exact size' fs {c = c},
      )
    ]

form_capacity_iff :
    (fields : List (Text × Text))
    → (form_capacity_ok fields ≡ true) ↔ (worst_case fields ≤ max_form)
unfolding form_capacity_ok
form_capacity_iff fields = (
  λ h. elim (Option-cases (capacity_from 0 fields)) [
    | inl e ↦ absurd (ground arith)
    | inr (c, e) ↦ ground (arith, capacity_from_exact 0 fields {c = c} e)
  ],
  λ h. ground (arith, capacity_from_fits 0 fields (omega arith)),
)

-- A form request is built exactly when its fields, at three bytes for each byte and two for each pair,
-- stay within the limit; the checked arithmetic refuses nothing else.
pub form_request-ok_iff :
    (L : UrlLib) (url : L.Url) (fields : List (Text × Text))
    → (is_ok (form_request {L = L} url fields) ≡ true) ↔ (worst_case fields ≤ max_form)
unfolding form_request
form_request-ok_iff L url fields =
    (λ h. (form_capacity_iff fields).0 (ground arith), λ h. rw ((form_capacity_iff fields).1 h))

receive_bounded :
    (r : Received) (c : Text)
    → length r.body ≤ max_response
    → length (receive r c).body ≤ max_response
unfolding receive
receive_bounded r c h = ground (arith, length-append r.body c)

-- Whatever chunks the peer sends, a buffered body that is within the limit stays within it.
pub receive_all_bounded :
    (r : Received) (cs : List Text)
    → length r.body ≤ max_response
    → length (receive_all r cs).body ≤ max_response
unfolding receive_all
receive_all_bounded r [] h = h
receive_all_bounded r (c ∷ cs) h =
    ground (arith, receive_bounded r c h, receive_all_bounded (receive r c) cs)

unfoldable pub flatten {ℓ} : {A : Type ℓ} → List (List A) → List A
flatten [] = []
flatten (c ∷ cs) = c ++ flatten cs

receive_fits :
    (r : Received) (c : Text)
    → r.oversized ≡ false
    → length r.body + length c ≤ max_response
    → receive r c ≡ record { body = r.body ++ c; oversized = false }
unfolding receive
receive_fits r c o h = ground arith

-- A transfer that was not refused so far, and whose chunks fit together into the limit, is buffered
-- whole and in order, and is not marked oversized.
pub receive_all_exact :
    (r : Received) (cs : List Text)
    → r.oversized ≡ false
    → length r.body + length (flatten cs) ≤ max_response
    → receive_all r cs ≡ record { body = r.body ++ flatten cs; oversized = false }
unfolding receive_all flatten
receive_all_exact r [] o h = ground (arith, append-nil r.body)
receive_all_exact r (c ∷ cs) o h =
    let room : length c + length (flatten cs) ≡ length (c ++ flatten cs) =
      sym (length-append c (flatten cs)) in
    let stored : receive r c ≡ record { body = r.body ++ c; oversized = false } =
      receive_fits r c o (omega arith) in
    rw (o, receive_all)
      (rw stored (
        receive_all_exact (record { body = r.body ++ c; oversized = false }) cs refl
          (omega (arith, length-append r.body c))
        ∙ ground (arith, append_assoc r.body c (flatten cs))))
