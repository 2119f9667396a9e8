-- ===== src/Cli/Terminal.antt =====
-- Reading at the terminal (crates/himmelcloak-cli/src/test_login.rs): a password is typed with echo off,
-- and the saved settings come back on every way out.
pub mod Echo
use himmelcloak.Prelude.{
  Text, text, trim_end_matches, null, List, [], ◌∷◌, Option, none, some, Bool, true, false, ◌==◌,
  ◌||◌, if◌then◌else◌,
}
use himmelcloak.Cli.Outcome.{Outcome, done, failed}

-- The terminal and libc. A call of `tcsetattr` or `tcgetattr`, a write or a read may fail.
pub record Console : Type 1 where
  pub World : Type 0
  pub Settings : Type 0
  -- the settings without `ECHO` and `ECHONL`
  pub without_echo : Settings → Settings
  pub tcgetattr : World → Bool × World
  pub tcsetattr : Settings → World → Bool × World
  pub write : Text → World → Bool × World
  -- `read_line`; `none` when it fails, and no bytes at the end of the input
  pub read_line : World → Option Text × World

-- `SAVED_TERMINAL`, and the settings that the terminal has.
pub record Tty (C : Console) : Type 0 where
  pub saved : Option C.Settings
  pub current : C.Settings
  pub world : C.World

module _ {C : Console} where
  -- `tcsetattr` with the saved settings, which are dropped if it succeeds.
  put_back : C.Settings → Tty C → Outcome (Unit {0}) × Tty C
  put_back original t =
      let (set, w) = C.tcsetattr original t.world in
      if set
      then (done tt, record { saved = none; current = original; world = w })
      else (failed (text "cannot restore terminal settings"), record t { world = w })

  restored : Option C.Settings → Tty C → Outcome (Unit {0}) × Tty C
  unfolding put_back
  restored none t = (done tt, t)
  restored (some original) t = put_back original t

  -- `restore_terminal`
  unfoldable pub restore_terminal : Tty C → Outcome (Unit {0}) × Tty C
  unfolding restored
  restore_terminal t = restored t.saved t

  -- The guard: `RestoreEcho::drop`.
  unfoldable pub drop_guard : Tty C → Tty C
  unfolding restore_terminal
  drop_guard t = (restore_terminal t).1

  -- Turning echo off, once the settings are saved.
  silence : Tty C → Outcome (Unit {0}) × Tty C
  unfolding drop_guard
  silence t =
      let (set, w) = C.tcsetattr (C.without_echo t.current) t.world in
      if set
      then (done tt, record { saved = t.saved; current = C.without_echo t.current; world = w })
      else (failed (text "cannot hide password input"), drop_guard (record t { world = w }))

  hidden_from : Option C.Settings → Tty C → Outcome (Unit {0}) × Tty C
  unfolding silence
  hidden_from (some _) t = (failed (text "password input is already active"), t)
  hidden_from none t =
      let (got, w) = C.tcgetattr t.world in
      if got
      then silence (record { saved = some t.current; current = t.current; world = w })
      else (failed (text "password input requires an interactive terminal"), record t { world = w })

  -- `hide_echo`
  unfoldable pub hide_echo : Tty C → Outcome (Unit {0}) × Tty C
  unfolding hidden_from
  hide_echo t = hidden_from t.saved t

  -- Turning echo off for a hidden input.
  prepare : Bool → Tty C → Outcome (Unit {0}) × Tty C
  unfolding hide_echo
  prepare true t = hide_echo t
  prepare false t = (done tt, t)

  write_out : Text → Tty C → Bool × Tty C
  write_out s t = let (written, w) = C.write s t.world in (written, record t { world = w })

  end_line : Outcome (Unit {0}) → Tty C → Outcome (Unit {0}) × Tty C
  unfolding drop_guard write_out
  end_line (failed e) t = (failed e, drop_guard t)
  end_line (done _) t =
      let (written, t') = write_out (10 ∷ []) (drop_guard t) in
      if written then (done tt, t') else (failed (text "cannot write prompt"), t')

  -- `restore_terminal(TCSANOW)?` for a hidden input, the guard's drop, and the line end.
  settle : Bool → Tty C → Outcome (Unit {0}) × Tty C
  unfolding restore_terminal end_line
  settle false t = (done tt, t)
  settle true t = end_line (restore_terminal t).0 (restore_terminal t).1

-- What the line read comes to.
unfoldable pub entered : Option Text → Outcome Text
entered none = failed (text "cannot read input")
entered (some []) = failed (text "input ended before login completed")
entered (some (c ∷ line)) =
    let value = trim_end_matches (λ b. (b == 13) || (b == 10)) (c ∷ line) in
    if null value then failed (text "input must not be empty") else done value

module _ {C : Console} where
  -- What the line is worth once the terminal is settled.
  close : Option Text → Outcome (Unit {0}) × Tty C → Outcome Text × Tty C
  unfolding entered
  close line (failed e, t) = (failed e, t)
  close line (done _, t) = (entered line, t)

  -- The prompt is written and a line is read.
  converse : Text → Bool → Tty C → Outcome Text × Tty C
  unfolding write_out settle close drop_guard
  converse prompt hidden t =
      let (written, t1) = write_out prompt t in
      if written
      then (let (line, w) = C.read_line t1.world in
          close line (settle hidden (record t1 { world = w })))
      else (failed (text "cannot write prompt"), if hidden then drop_guard t1 else t1)

  converse_after : Outcome (Unit {0}) → Text → Bool → Tty C → Outcome Text × Tty C
  unfolding converse
  converse_after (failed e) prompt hidden t = (failed e, t)
  converse_after (done _) prompt hidden t = converse prompt hidden t

  -- `read_input`
  unfoldable pub read_input : Text → Bool → Tty C → Outcome Text × Tty C
  unfolding prepare converse_after
  read_input prompt hidden t =
      converse_after (prepare hidden t).0 prompt hidden (prepare hidden t).1
