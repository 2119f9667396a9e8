-- ===== src/Pam/Plans.antt =====
-- What a plan shows and how it collects the answer.
use himmelcloak.Prelude.{
  Option, none, some, if◌then◌else◌, true, sym, Text, text, length, null, any, List, [], ◌∷◌, ◌++◌,
  false, ltb, Bool-cases, inl, inr, ◌≡◌, ◌≢◌, ◌⊎◌, refl, ap, ◌∙◌, arith,
}
use mathlib.Core.Path.{subst}
use himmelcloak.Flow.Types.{
  Challenge, OtpDevice, Field, Input, input, hidden, visible, no_input, form,
}
use himmelcloak.Pam.{
  MessageStyle, hidden_input, visible_input, information, Message, NextAction, collect_input,
  acknowledge, ConversationPlan, planned, message, has_nul, checked, device_selection,
  field_message, field_messages, action_message, plan, failure_plan,
}

abbrev pub styles : List Message → List MessageStyle
styles [] = []
styles (m ∷ ms) = m.style ∷ styles ms

-- How a plan collects what the login asks for, by the input that the challenge declares, of one that is
-- no form.
abbrev pub Collects : Input → List MessageStyle → NextAction → Type 0
Collects hidden s next =
    ((s ≡ hidden_input ∷ []) ⊎ (s ≡ visible_input ∷ hidden_input ∷ [])) × (next ≡ collect_input)
Collects visible s next = (s ≡ visible_input ∷ []) × (next ≡ collect_input)
Collects no_input s next = (s ≡ information ∷ []) × (next ≢ collect_input)
Collects form s next = ⊥

-- A prompt for a field: hidden for a secret one, visible for another, with the field's own label.
abbrev pub Prompts : Field → Message → Type 0
Prompts f m =
    (((f.secret ≡ true) × (m.style ≡ hidden_input))
      ⊎ ((f.secret ≡ false) × (m.style ≡ visible_input)))
    × (m.text ≡ f.label ++ text ": ")

-- One prompt for each field, in order.
abbrev pub PromptsAll : List Field → List Message → Type 0
PromptsAll [] [] = Unit
PromptsAll (f ∷ fs) (m ∷ ms) = Prompts f m × PromptsAll fs ms
PromptsAll _ _ = ⊥

-- The message of a required action, if it has one, then its prompts.
abbrev pub Introduced : Option Text → List Field → List Message → Type 0
Introduced none fields ms = PromptsAll fields ms
Introduced (some t) fields [] = ⊥
Introduced (some t) fields (m ∷ ms) = (m.style ≡ information) × (m.text ≡ t) × PromptsAll fields ms

-- A form collects its fields, and one without fields is only acknowledged.
abbrev pub AfterFields : List Field → NextAction → Type 0
AfterFields [] next = next ≡ acknowledge
AfterFields (f ∷ fs) next = next ≡ collect_input

abbrev pub CollectsFor : Challenge → List Message → NextAction → Type 0
CollectsFor (Challenge.required_action action) ms next =
    Introduced action.message action.fields ms × AfterFields action.fields next
CollectsFor c ms next = Collects (input c) (styles ms) next

field_messages-PromptsAll : (fs : List Field) → PromptsAll fs (field_messages fs)
unfolding field_messages field_message message
field_messages-PromptsAll [] = tt
field_messages-PromptsAll (f ∷ fs) = elim (Bool-cases f.secret) [
  | inl e ↦ ((inl (e, rw e refl), refl), field_messages-PromptsAll fs)
  | inr e ↦ ((inr (e, rw e refl), refl), field_messages-PromptsAll fs)
]

action-Introduced :
    (o : Option Text) (fs : List Field) → Introduced o fs (action_message o ++ field_messages fs)
unfolding action_message message
action-Introduced none fs = field_messages-PromptsAll fs
action-Introduced (some t) fs = (refl, refl, field_messages-PromptsAll fs)

next-AfterFields :
    (fs : List Field) → AfterFields fs (if null fs then acknowledge else collect_input)
next-AfterFields [] = refl
next-AfterFields (f ∷ fs) = refl

checked-planned :
    (ms : List Message) (next : NextAction) {p : ConversationPlan}
    → checked ms next ≡ planned p
    → (p.messages ≡ ms) × (p.next_action ≡ next) × (any has_nul ms ≡ false)
unfolding checked
checked-planned ms next {p} h = elim (Bool-cases (any has_nul ms)) [
  | inl e ↦ absurd (ground arith)
  | inr e ↦
      (let same : planned (record { messages = ms; next_action = next }) ≡ planned p =
          ground arith in
        (cc, cc, e))
]

clean :
    (ms : List Message) (next : NextAction) {p : ConversationPlan}
    → checked ms next ≡ planned p
    → any has_nul p.messages ≡ false
clean ms next h = let (a, _, c) = checked-planned ms next h in ap (any has_nul) a ∙ c

challenge_plan :
    (c : Challenge) {p : ConversationPlan} → plan c ≡ planned p → any has_nul p.messages ≡ false
unfolding plan
challenge_plan Challenge.username h = clean _ _ h
challenge_plan Challenge.password h = clean _ _ h
challenge_plan (Challenge.one_time_code devices) h = clean _ _ h
challenge_plan (Challenge.recovery_code index_hint) h = clean _ _ h
challenge_plan (Challenge.choose_method []) h = absurd (ground arith)
challenge_plan (Challenge.choose_method (m ∷ ms)) h = clean _ _ h
challenge_plan (Challenge.required_action action) h = clean _ _ h
challenge_plan (Challenge.info t) h = clean _ _ h
challenge_plan (Challenge.web_authn w) h = clean _ _ h

device_styles :
    (devices : List OtpDevice)
    → (styles (device_selection devices ++ message hidden_input (text "One-time code: ") ∷ [])
        ≡ hidden_input ∷ [])
      ⊎ (styles (device_selection devices ++ message hidden_input (text "One-time code: ") ∷ [])
          ≡ visible_input ∷ hidden_input ∷ [])
unfolding device_selection message
device_styles devices = elim (Bool-cases (ltb 1 (length devices))) [
  | inl e ↦ rw e (inr refl)
  | inr e ↦ rw e (inl refl)
]

-- A plan collects an answer the way the challenge declares: a password, a one-time code or a recovery code is typed
-- hidden, after at most a visible choice of the device; a user name or a choice of method is typed visibly; what needs no
-- typing shows information only and collects nothing; and a required action shows its message, then prompts for each of
-- its fields in order, hidden for the secret ones, and for the others visibly.
pub plan-Collects :
    (c : Challenge) {p : ConversationPlan}
    → plan c ≡ planned p
    → CollectsFor c p.messages p.next_action
unfolding plan input
plan-Collects Challenge.username h = let (a, b, _) = checked-planned _ _ h in (ap styles a, b)
plan-Collects Challenge.password h = let (a, b, _) = checked-planned _ _ h in (inl (ap styles a), b)
plan-Collects (Challenge.one_time_code devices) h =
    let (a, b, _) = checked-planned _ _ h in
    elim (device_styles devices) [
      | inl e ↦ (inl (ap styles a ∙ e), b)
      | inr e ↦ (inr (ap styles a ∙ e), b)
    ]
plan-Collects (Challenge.recovery_code index_hint) h =
    let (a, b, _) = checked-planned _ _ h in (inl (ap styles a), b)
plan-Collects (Challenge.choose_method []) h = absurd (ground arith)
plan-Collects (Challenge.choose_method (m ∷ ms)) h =
    let (a, b, _) = checked-planned _ _ h in (ap styles a, b)
plan-Collects (Challenge.required_action action) h =
    let (a, b, _) = checked-planned _ _ h in
    (
      subst (Introduced action.message action.fields) (sym a)
          (action-Introduced action.message action.fields),
      subst (AfterFields action.fields) (sym b) (next-AfterFields action.fields),
    )
plan-Collects (Challenge.info t) h = let (a, b, _) = checked-planned _ _ h in (ap styles a, λ e. cc)
plan-Collects (Challenge.web_authn w) h =
    let (a, b, _) = checked-planned _ _ h in (ap styles a, λ e. cc)

-- No plan, of a challenge or of a failure, holds a zero byte, so that its texts can become C strings.
pub plan-without_nul :
    (c : Challenge) (reason : Text) {p : ConversationPlan}
    → (plan c ≡ planned p) ⊎ (failure_plan reason ≡ planned p)
    → any has_nul p.messages ≡ false
unfolding plan failure_plan
plan-without_nul c reason (inl h) = challenge_plan c h
plan-without_nul c reason (inr h) = clean _ _ h
