-- ===== src/Cli/Terminal/Echo.antt =====
-- The terminal gets its settings back.
use himmelcloak.Prelude.{
  Text, [], ◌∷◌, Option, none, some, Bool, true, false, Bool-cases, inl, inr, ◌≡◌, ◌⊎◌, refl, sym,
  ap,
}
use mathlib.Core.Path.{subst}
use himmelcloak.Cli.Outcome.{Outcome, done, failed}
use himmelcloak.Cli.Terminal.{
  Console, Tty, put_back, restore_terminal, drop_guard, silence, hide_echo, restored, hidden_from,
  end_line, converse_after, prepare, write_out, settle, close, converse, read_input,
}

module _ {C : Console} where
  -- The settings are the terminal's own and nothing is saved, or they are saved.
  abbrev IsHeld : C.Settings → Tty C → Type 0
  IsHeld original t = ((t.saved ≡ none) × (t.current ≡ original)) ⊎ (t.saved ≡ some original)

  -- The last thing done was to ask the terminal to take the settings back, which it refused; they are
  -- saved.
  abbrev pub Refused : C.Settings → Tty C → Type 0
  Refused original t =
      (t.saved ≡ some original) × ((w : C.World) × (C.tcsetattr original w ≡ (false, t.world)))

  -- The terminal has its own settings again and nothing is saved, or it refused them.
  abbrev pub IsRecoverable : C.Settings → Tty C → Type 0
  IsRecoverable original t = ((t.saved ≡ none) × (t.current ≡ original)) ⊎ Refused original t

  -- A restore that succeeds gives the settings back; one that fails was refused.
  abbrev Restores : C.Settings → Outcome (Unit {0}) × Tty C → Type 0
  Restores original (done _, t) = (t.saved ≡ none) × (t.current ≡ original)
  Restores original (failed e, t) = Refused original t

  put_back-Restores :
      (original : C.Settings) (t : Tty C)
      → t.saved ≡ some original
      → Restores original (put_back original t)
  unfolding put_back
  put_back-Restores original t h = elim (Bool-cases (C.tcsetattr original t.world).0) [
    | inl e ↦ rw e (refl, refl)
    | inr e ↦ rw e (h, (t.world, pair e))
  ]
    where
      pair : {x : Bool × C.World} → x.0 ≡ false → x ≡ (false, x.1)
      pair {x} e = ap (λ (b : Bool). (b, x.1)) e

  restored-Restores :
      (original : C.Settings) (o : Option C.Settings) (t : Tty C)
      → t.saved ≡ o
      → IsHeld original t
      → Restores original (restored o t)
  unfolding restored
  restored-Restores original none t q (inl h) = h
  restored-Restores original none t q (inr h) = absurd cc
  restored-Restores original (some x) t q (inl (a, b)) = absurd cc
  restored-Restores original (some x) t q (inr h) =
      let same : x ≡ original = cc in rw same (put_back-Restores original t h)

  restore-Restores :
      (original : C.Settings) (t : Tty C)
      → IsHeld original t
      → Restores original (restore_terminal t)
  unfolding restore_terminal
  restore-Restores original t h = restored-Restores original t.saved t refl h

  Restores-IsRecoverable :
      (original : C.Settings) (o : Outcome (Unit {0})) (t : Tty C)
      → Restores original (o, t)
      → IsRecoverable original t
  Restores-IsRecoverable original (done _) t h = inl h
  Restores-IsRecoverable original (failed e) t h = inr h

  restore-keeps :
      (original : C.Settings) (t : Tty C)
      → IsHeld original t
      → IsRecoverable original (restore_terminal t).1
  restore-keeps original t h =
      Restores-IsRecoverable original (restore_terminal t).0 (restore_terminal t).1
        (restore-Restores original t h)

  held : (original : C.Settings) (t : Tty C) → IsRecoverable original t → IsHeld original t
  held original t (inl h) = inl h
  held original t (inr h) = inr h.0

  -- With nothing saved there is nothing to restore.
  restore_nothing : (t : Tty C) → t.saved ≡ none → restore_terminal t ≡ (done tt, t)
  unfolding restore_terminal restored
  restore_nothing t h = rw h refl

  -- The terminal has its own settings, and a guard has nothing to do.
  abbrev Own : C.Settings → Tty C → Type 0
  Own original t = (t.saved ≡ none) × (t.current ≡ original)

  drop_guard-Own :
      (original : C.Settings) (t : Tty C) → Own original t → Own original (drop_guard t)
  unfolding drop_guard
  drop_guard-Own original t h =
      subst (λ (x : Outcome (Unit {0}) × Tty C). Own original x.1) (sym (restore_nothing t h.0)) h

  -- Hiding the input saves the settings, or leaves them to the terminal.
  abbrev Hides : C.Settings → Outcome (Unit {0}) × Tty C → Type 0
  Hides original (done _, t) = t.saved ≡ some original
  Hides original (failed e, t) = IsRecoverable original t

  silence-Hides :
      (original : C.Settings) (t : Tty C) → t.saved ≡ some original → Hides original (silence t)
  unfolding silence drop_guard
  silence-Hides original t h =
      elim (Bool-cases (C.tcsetattr (C.without_echo t.current) t.world).0) [
        | inl e ↦ rw e h
        | inr e ↦ rw e (
            restore-keeps original
              (record t { world = (C.tcsetattr (C.without_echo t.current) t.world).1 }) (inr h))
      ]

  hidden_from-Hides :
      (o : Option C.Settings) (t : Tty C)
      → t.saved ≡ none
      → t.saved ≡ o
      → Hides t.current (hidden_from o t)
  unfolding hidden_from
  hidden_from-Hides (some x) t n q = absurd cc
  hidden_from-Hides none t n q = elim (Bool-cases (C.tcgetattr t.world).0) [
    | inl e ↦ rw e (
        silence-Hides t.current
          (record { saved = some t.current; current = t.current; world = (C.tcgetattr t.world).1 })
          refl)
    | inr e ↦ rw e (inl (n, refl))
  ]

  end_line-keeps :
      (original : C.Settings) (o : Outcome (Unit {0})) (t : Tty C)
      → Restores original (o, t)
      → IsRecoverable original (end_line o t).1
  unfolding end_line drop_guard write_out
  end_line-keeps original (failed e) t h = restore-keeps original t (inr h.0)
  end_line-keeps original (done _) t h =
      elim (Bool-cases (C.write (10 ∷ []) (restore_terminal t).1.world).0) [
        | inl e ↦ rw e (inl (drop_guard-Own original t h))
        | inr e ↦ rw e (inl (drop_guard-Own original t h))
      ]

  close-keeps :
      (original : C.Settings) (line : Option Text) (x : Outcome (Unit {0})) (t : Tty C)
      → IsRecoverable original t
      → IsRecoverable original (close line (x, t)).1
  unfolding close
  close-keeps original line (failed e) t h = h
  close-keeps original line (done _) t h = h

  -- A visible input never touches the settings.
  converse_visible :
      (original : C.Settings) (prompt : Text) (t : Tty C)
      → Own original t
      → IsRecoverable original (converse prompt false t).1
  unfolding converse write_out settle
  converse_visible original prompt t h = elim (Bool-cases (C.write prompt t.world).0) [
    | inl e ↦ rw e (
        let (line, w) = C.read_line (C.write prompt t.world).1 in
        close-keeps original line (done tt) (record t { world = w }) (inl h))
    | inr e ↦ rw e (inl h)
  ]

  -- A hidden one restores them on every way out.
  converse_hidden :
      (original : C.Settings) (prompt : Text) (t : Tty C)
      → t.saved ≡ some original
      → IsRecoverable original (converse prompt true t).1
  unfolding converse write_out settle drop_guard
  converse_hidden original prompt t h = elim (Bool-cases (C.write prompt t.world).0) [
    | inl e ↦ rw e (
        let (line, w) = C.read_line (C.write prompt t.world).1 in
        let t2 : Tty C = record t { world = w } in
        let (o, t3) = restore_terminal t2 in
        close-keeps original line (end_line o t3).0 (end_line o t3).1
          (end_line-keeps original o t3 (restore-Restores original t2 (inr h))))
    | inr e ↦
        rw e (restore-keeps original (record t { world = (C.write prompt t.world).1 }) (inr h))
  ]

  after_hiding :
      (original : C.Settings) (o : Outcome (Unit {0})) (prompt : Text) (t : Tty C)
      → Hides original (o, t)
      → IsRecoverable original (converse_after o prompt true t).1
  unfolding converse_after
  after_hiding original (failed e) prompt t h = h
  after_hiding original (done _) prompt t h = converse_hidden original prompt t h

  -- However reading an input ends, with nothing saved before it: the terminal has its own settings again and nothing is
  -- saved; or the last thing done was to ask it to take them back, which it refused, and they stay saved for the
  -- next attempt.
  pub read_input-IsRecoverable :
      (prompt : Text) (hidden : Bool) (t : Tty C)
      → t.saved ≡ none
      → IsRecoverable t.current (read_input prompt hidden t).1
  unfolding read_input prepare converse_after hide_echo
  read_input-IsRecoverable prompt false t n = converse_visible t.current prompt t (n, refl)
  read_input-IsRecoverable prompt true t n =
      let (o, t1) = hide_echo t in
      after_hiding t.current o prompt t1 (hidden_from-Hides t.saved t n refl)
