-- ===== src/Flow/Classify/Scan/Inert.antt =====
-- The contents of `<template>` elements are inert.
use himmelcloak.Prelude.{
  ℕ, ◌+◌, ◌-◌, ◌<◌, Text, text, text_eq, List, [], ◌∷◌, true, not, ◌==◌, ltb, ◌&&◌, if◌then◌else◌,
  ◌≡◌, refl, arith, Bool-cases, inl, inr,
}
use himmelcloak.Flow.Classify.Scan.{
  Scan, StartTag, Token, start_tag, end_tag, string, other, start, end, add_text, step, run_from,
}

-- How many templates enclose the position after a token, from how many enclosed the one before.
unfoldable pub depth_after : ℕ → Token → ℕ
depth_after d (start_tag tag) =
    if text_eq tag.name (text "template") && not tag.self_closing then d + 1 else d
depth_after d (end_tag name) = if text_eq name (text "template") then d - 1 else d
depth_after d _ = d

-- All of the tokens stand inside the template that is open.
abbrev pub StaysInside : ℕ → List Token → Type 0
StaysInside d [] = Unit
StaysInside d (t ∷ ts) = (0 < d) × StaysInside (depth_after d t) ts

pub depth_at_end : ℕ → List Token → ℕ
depth_at_end d [] = d
depth_at_end d (t ∷ ts) = depth_at_end (depth_after d t) ts

-- A scan inside a template skips the rest of the handler.
skip_live : (s : Scan) (live : Scan) → 0 < s.templates → (if ltb 0 s.templates then s else live) ≡ s
skip_live s live h = ground arith

start_inside :
    (tag : StartTag) (s : Scan)
    → 0 < s.templates
    → start tag s ≡ record s { templates = depth_after s.templates (start_tag tag) }
unfolding start depth_after
start_inside tag s h =
    elim (Bool-cases (text_eq tag.name (text "template") && not tag.self_closing)) [
      | inl e ↦ rw (e, start) (skip_live (record s { templates = s.templates + 1 }) _ (omega arith))
      | inr e ↦ rw (e, start) (skip_live s _ h)
    ]

end_inside :
    (name : Text) (s : Scan)
    → 0 < s.templates
    → end name s ≡ record s { templates = depth_after s.templates (end_tag name) }
unfolding end depth_after
end_inside name s h =
    let inside : ltb 0 s.templates ≡ true = ground arith in
    elim (Bool-cases (text_eq name (text "template"))) [
      | inl e ↦ rw (inside, e, end) refl
      | inr e ↦ rw (inside, e, end) refl
    ]

text_inside :
    (t : Text) (s : Scan)
    → 0 < s.templates
    → (if s.templates == 0 then add_text t s.capture s else s) ≡ s
text_inside t s h = ground arith

step_inside :
    (t : Token) (s : Scan)
    → 0 < s.templates
    → step t s ≡ record s { templates = depth_after s.templates t }
step_inside (start_tag tag) s h = unfold step in start_inside tag s h
step_inside (end_tag name) s h = unfold step in end_inside name s h
step_inside (string t) s h = unfold step depth_after in text_inside t s h
step_inside other s h = unfold step depth_after in refl

-- Nothing between a template's tags changes what the scan has collected: forms, controls, labels,
-- tiles, messages and the text being captured are as they were, and only the count of open templates
-- moves.
pub run_from_inside :
    (ts : List Token) (s : Scan)
    → StaysInside s.templates ts
    → run_from s ts ≡ record s { templates = depth_at_end s.templates ts }
unfolding run_from depth_at_end
run_from_inside [] s h = refl
run_from_inside (t ∷ ts) s h =
    rw (step_inside t s h.0)
      (run_from_inside ts (record s { templates = depth_after s.templates t }) h.1)
