-- ===== src/Transport/Curl/Buffered.antt =====
-- What a transfer leaves behind is what came over the wire, within the limits.
use himmelcloak.Prelude.{
  ℕ, ◌+◌, ◌≤◌, ◌<◌, Text, length, List, [], ◌∷◌, ◌++◌, Bool, true, false, Result, ok, err, leb,
  ◌&&◌, and_then, not, protocol, ◌≡◌, refl, sym, ◌∙◌, ap, arith, Bool-cases, if◌then◌else◌, ◌⊎◌,
  inl, inr, length-append,
}
use mathlib.Core.List.{append-nil, append_assoc}
use himmelcloak.Transport.{Response, Received, receive, max_response, max_headers}
use himmelcloak.Transport.Curl.{
  Download, no_download, Event, header_line, chunk, header_of, saturating_add, on_line, on_event,
  perform, read_cookies, finish,
}

-- The body, the headers and the header bytes of a list of callbacks.
pub wire_body : List Event → Text
wire_body [] = []
wire_body (header_line line ∷ es) = wire_body es
wire_body (chunk bytes ∷ es) = bytes ++ wire_body es

pub wire_headers : List Event → List (Text × Text)
wire_headers [] = []
wire_headers (header_line line ∷ es) = header_of line ++ wire_headers es
wire_headers (chunk bytes ∷ es) = wire_headers es

pub wire_size : List Event → ℕ
wire_size [] = 0
wire_size (header_line line ∷ es) = length line + wire_size es
wire_size (chunk bytes ∷ es) = wire_size es

-- A download that nothing was refused of.
abbrev kept : Text → List (Text × Text) → ℕ → Download
kept body headers bytes = record {
  received = record { body = body; oversized = false };
  headers = headers;
  header_bytes = bytes;
}

-- Both limits.
pub fits : Text → ℕ → Bool
fits body bytes = leb (length body) max_response && leb bytes max_headers

kept_same :
    {b b' : Text} {hs hs' : List (Text × Text)} {n n' : ℕ}
    → b ≡ b'
    → hs ≡ hs'
    → n ≡ n'
    → kept b hs n ≡ kept b' hs' n'
kept_same p q r = cc

within-or-beyond : (a b : ℕ) → (a ≤ b) ⊎ (b < a)
within-or-beyond a b = elim (Bool-cases (leb a b)) [
  | inl e ↦ inl (ground arith)
  | inr e ↦ inr (ground arith)
]

over :
    (body : Text) (bytes : ℕ)
    → fits body bytes ≡ false
    → (max_response < 0 + length body) ⊎ (max_headers < 0 + bytes)
unfolding fits
over body bytes e = elim (within-or-beyond (length body) max_response) [
  | inl p ↦ inr (ground arith)
  | inr p ↦ inl (omega arith)
]

on_line_fits :
    (b : Text) (hs : List (Text × Text)) (n : ℕ) (line : Text)
    → n + length line ≤ max_headers
    → on_line (kept b hs n) line ≡ kept b (hs ++ header_of line) (n + length line)
unfolding on_line saturating_add
on_line_fits b hs n line h = ground arith

on_line_exceeds :
    (b : Text) (hs : List (Text × Text)) (n : ℕ) (line : Text)
    → max_headers < n + length line
    → (on_line (kept b hs n) line).received.oversized ≡ true
unfolding on_line saturating_add
on_line_exceeds b hs n line h = ground arith

receive_fits :
    (b c : Text)
    → length b + length c ≤ max_response
    → receive (record { body = b; oversized = false }) c
      ≡ record { body = b ++ c; oversized = false }
unfolding receive
receive_fits b c h = ground arith

receive_exceeds :
    (b c : Text)
    → max_response < length b + length c
    → (receive (record { body = b; oversized = false }) c).oversized ≡ true
unfolding receive
receive_exceeds b c h = ground arith

perform_stopped : (d : Download) (es : List Event) → d.received.oversized ≡ true → perform d es ≡ d
unfolding perform
perform_stopped d [] h = refl
perform_stopped d (e ∷ es) h = rw h

perform_fits :
    (b : Text) (hs : List (Text × Text)) (n : ℕ) (es : List Event)
    → length b + length (wire_body es) ≤ max_response
    → n + wire_size es ≤ max_headers
    → perform (kept b hs n) es ≡ kept (b ++ wire_body es) (hs ++ wire_headers es) (n + wire_size es)
unfolding perform on_event wire_body wire_headers wire_size
perform_fits b hs n [] p q = kept_same (sym (append-nil b)) (sym (append-nil hs)) (omega arith)
perform_fits b hs n (header_line line ∷ es) p q =
    ap (λ d. perform d es) (on_line_fits b hs n line (omega arith))
    ∙ perform_fits b (hs ++ header_of line) (n + length line) es p (omega arith)
    ∙ kept_same refl (append_assoc hs (header_of line) (wire_headers es)) (omega arith)
perform_fits b hs n (chunk c ∷ es) p q =
    let total : length (c ++ wire_body es) ≡ length c + length (wire_body es) =
      length-append c (wire_body es) in
    ap (λ (r : Received). perform (record { received = r; headers = hs; header_bytes = n }) es)
      (receive_fits b c (omega arith))
    ∙ perform_fits (b ++ c) hs n es (omega (arith, length-append b c)) q
    ∙ kept_same (append_assoc b c (wire_body es)) refl refl

perform_exceeds :
    (b : Text) (hs : List (Text × Text)) (n : ℕ) (es : List Event)
    → length b ≤ max_response
    → n ≤ max_headers
    → (max_response < length b + length (wire_body es)) ⊎ (max_headers < n + wire_size es)
    → (perform (kept b hs n) es).received.oversized ≡ true
unfolding perform on_event wire_body wire_size
perform_exceeds b hs n [] p q (inl h) = absurd (omega arith)
perform_exceeds b hs n [] p q (inr h) = absurd (omega arith)
perform_exceeds b hs n (header_line line ∷ es) p q h =
    elim (within-or-beyond (n + length line) max_headers) [
      | inl fit ↦
          ap (λ d. (perform d es).received.oversized) (on_line_fits b hs n line fit)
          ∙ perform_exceeds b (hs ++ header_of line) (n + length line) es p fit
              (elim h [ inl h ↦ inl h | inr h ↦ inr (omega arith) ])
      | inr over ↦
          let stop = on_line_exceeds b hs n line over in
          ap (λ (d : Download). d.received.oversized)
            (perform_stopped (on_line (kept b hs n) line) es stop)
          ∙ stop
    ]
perform_exceeds b hs n (chunk c ∷ es) p q h =
    let total : length (c ++ wire_body es) ≡ length c + length (wire_body es) =
      length-append c (wire_body es) in
    elim (within-or-beyond (length b + length c) max_response) [
      | inl fit ↦
          ap
            (λ (r : Received).
              (perform (record { received = r; headers = hs; header_bytes = n })
                es).received.oversized)
            (receive_fits b c fit)
          ∙ perform_exceeds (b ++ c) hs n es (omega (arith, length-append b c)) q
              (elim h [ inl h ↦ inl (omega (arith, length-append b c)) | inr h ↦ inr h ])
      | inr over ↦
          let stop = receive_exceeds b c over in
          ap (λ (d : Download). d.received.oversized)
            (perform_stopped
              (record {
                received = receive (record { body = b; oversized = false }) c;
                headers = hs;
                header_bytes = n;
              })
              es stop)
          ∙ stop
    ]

-- `send_blocking` as it is meant: a response over a limit is refused whatever else happened; otherwise it carries
-- the body and the headers of the wire.
pub reference : List Event → Result (Unit {0}) → Result ℕ → Result (List Text) → Result Response
reference es transfer_result response_code cookies =
    if not (fits (wire_body es) (wire_size es))
    then err (protocol "HTTP response too large")
    else (and_then transfer_result λ _. and_then response_code λ status.
        and_then (and_then cookies read_cookies) λ read. ok (record {
          status = status;
          headers = wire_headers es;
          body = wire_body es;
          cookies = read;
        }))

-- What a transfer returns, for every order of its callbacks: the error of an oversized response when the chunks together
-- or the header lines together are over their limit, even if libcurl reports another failure; else the failure
-- libcurl reports, or a response with the whole body and every header in the order of the wire.
pub finish-reference :
    (es : List Event) (t : Result (Unit {0})) (c : Result ℕ) (k : Result (List Text))
    → finish (perform no_download es) t c k ≡ reference es t c k
unfolding finish reference fits
finish-reference es t c k = elim (Bool-cases (fits (wire_body es) (wire_size es))) [
  | inl e ↦ rw (perform_fits [] [] 0 es (ground arith) (ground arith), e) refl
  | inr e ↦
      rw
        (
          perform_exceeds [] [] 0 es (omega arith) (omega arith)
              (over (wire_body es) (wire_size es) e),
          e,
        )
        refl
]
