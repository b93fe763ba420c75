-- ===== src/Tty/Modes.antt =====
-- The theorems on the terminal modes of lib/ttymodes.c.
use learn_apue.Base.{ℕ, Bool, true, some, ◌≡◌, refl, ap, ◌∙◌}
use learn_apue.Base.Int.{pos}
use learn_apue.Tty.{
  Termios, TtyState, reset, raw, cbreak, Tty, Driver, enter, change_mode, set_mode, verify,
  saved_termios, reset_from, cbreak_mode, cbreak_stuck, raw_mode, raw_stuck, tty_cbreak, tty_raw,
  tty_reset, put_back,
}

-- A driver that does what it is told for one descriptor: what was set is in force, and reading the
-- settings changes nothing.
pub record Obedient {W : Type 0} (d : Driver W) (fd : ℕ) (settings : W → Termios) : Type 0 where
  pub get : (w : W) → d.tcgetattr w fd ≡ (some (settings w), w)
  pub set : (w : W) (b : Termios) → (w' : W) × (d.tcsetattr w fd b ≡ (true, w')) × (settings w' ≡ b)

module _ {W : Type 0} (d : Driver W) (fd : ℕ) (settings : W → Termios)
    (good : Obedient d fd settings) where
  enter-reset :
      (change : Termios → Termios) (stuck : Termios → Bool) (mode : TtyState) (s : Tty W)
      → stuck (change (settings s.driver)) ≡ true
      → (t : Tty W) × (enter d reset change stuck mode fd s ≡ (pos 0, t))
        × (t.ttystate ≡ mode)
        × (settings t.driver ≡ change (settings s.driver))
        × (t.save_termios ≡ some (settings s.driver))
        × (t.ttysavefd ≡ pos fd)
  unfolding enter change_mode set_mode verify
  enter-reset change stuck mode s ok =
      let b = settings s.driver in
      let (w, run, now) = good.set s.driver (change b) in
      (
        record s { driver = w; save_termios = some b; ttystate = mode; ttysavefd = pos fd },
        rw (good.get s.driver, run, good.get w, now, ok),
        refl,
        now,
        refl,
        refl,
      )

  restored :
      (t : Tty W) (w : W) {b : Termios}
      → t.save_termios ≡ some b
      → d.tcsetattr t.driver fd b ≡ (true, w)
      → put_back d t (d.tcsetattr t.driver fd (saved_termios t.save_termios))
        ≡ (pos 0, record t { driver = w; ttystate = reset })
  unfolding put_back saved_termios
  restored t w saved back =
      ap (λ o. put_back d t (d.tcsetattr t.driver fd (saved_termios o))) saved
      ∙ ap (put_back d t) back

  -- On a driver that puts in force what it is told for the descriptor and a terminal in its own
  -- mode, `tty_cbreak` returns 0, leaves the terminal with echo and canonical mode off and reads of
  -- 1 byte without timer, and `tty_reset` after it returns 0 and brings back the settings from
  -- before.
  pub tty_reset-tty_cbreak :
      (s : Tty W)
      → s.ttystate ≡ reset
      → (t : Tty W) × (u : Tty W) × (tty_cbreak d fd s ≡ (pos 0, t))
        × (settings t.driver ≡ cbreak_mode (settings s.driver))
        × (tty_reset d fd t ≡ (pos 0, u))
        × (settings u.driver ≡ settings s.driver)
        × (u.ttystate ≡ reset)
  unfolding tty_cbreak tty_reset reset_from cbreak_mode cbreak_stuck
  tty_reset-tty_cbreak s state =
      let (t, run, mode, now, saved, _) = enter-reset cbreak_mode cbreak_stuck cbreak s refl in
      let (w, back, was) = good.set t.driver (settings s.driver) in
      (
        t,
        record t { driver = w; ttystate = reset },
        ap (λ m. enter d m cbreak_mode cbreak_stuck cbreak fd s) state ∙ run,
        now,
        ap (λ m. reset_from d m fd t) mode ∙ restored t w saved back,
        was,
        refl,
      )

  -- On such a driver and a terminal in its own mode, `tty_raw` returns 0, leaves the terminal with
  -- all processing of input and output off and reads of 1 byte without timer, and `tty_reset` after
  -- it returns 0 and brings back the settings from before.
  tty_reset-tty_raw :
      (s : Tty W)
      → s.ttystate ≡ reset
      → (t : Tty W) × (u : Tty W) × (tty_raw d fd s ≡ (pos 0, t))
        × (settings t.driver ≡ raw_mode (settings s.driver))
        × (tty_reset d fd t ≡ (pos 0, u))
        × (settings u.driver ≡ settings s.driver)
        × (u.ttystate ≡ reset)
  unfolding tty_raw tty_reset reset_from raw_mode raw_stuck
  tty_reset-tty_raw s state =
      let (t, run, mode, now, saved, _) = enter-reset raw_mode raw_stuck raw s refl in
      let (w, back, was) = good.set t.driver (settings s.driver) in
      (
        t,
        record t { driver = w; ttystate = reset },
        ap (λ m. enter d m raw_mode raw_stuck raw fd s) state ∙ run,
        now,
        ap (λ m. reset_from d m fd t) mode ∙ restored t w saved back,
        was,
        refl,
      )
