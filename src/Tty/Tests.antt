-- ===== src/Tty/Tests.antt =====
-- The theorems on the terminal modes for a driver that keeps one terminal's settings.
use learn_apue.Base.{none, some, true, false, ◌≡◌, refl}
use learn_apue.Base.Int.{pos, negsuc}
use learn_apue.Tty.{Termios, reset, Tty, Driver, cbreak_mode, tty_cbreak, tty_reset}
use learn_apue.Tty.Modes.{Obedient, tty_reset-tty_cbreak}

abbrev driver : Driver Termios
driver = record { tcgetattr = λ w fd. (some w, w); tcsetattr = λ w fd b. (true, b) }

abbrev zeros : Termios
zeros = record {
  echo = false;
  icanon = false;
  iexten = false;
  isig = false;
  brkint = false;
  icrnl = false;
  inpck = false;
  istrip = false;
  ixon = false;
  csize = 0;
  parenb = false;
  opost = false;
  vmin = 0;
  vtime = 0;
  rest = 0;
}

abbrev cooked : Termios
cooked = record zeros {
  echo = true;
  icanon = true;
  isig = true;
  icrnl = true;
  csize = 3;
  opost = true;
}

abbrev start : Tty Termios
start = record {
  driver = cooked;
  errno = 0;
  save_termios = none;
  ttysavefd = negsuc 0;
  ttystate = reset;
}

driver-Obedient : Obedient driver 0 (λ w. w)
driver-Obedient = record { get = λ w. refl; set = λ w b. (b, refl, refl) }

tty_reset-tty_cbreak_example :
    (t : Tty Termios) × (u : Tty Termios) × (tty_cbreak driver 0 start ≡ (pos 0, t))
    × (t.driver ≡ cbreak_mode cooked)
    × (tty_reset driver 0 t ≡ (pos 0, u))
    × (u.driver ≡ cooked)
    × (u.ttystate ≡ reset)
tty_reset-tty_cbreak_example = tty_reset-tty_cbreak driver 0 (λ w. w) driver-Obedient start refl
