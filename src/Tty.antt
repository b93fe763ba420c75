-- ===== src/Tty.antt =====
-- The terminal modes of lib/ttymodes.c. The terminal driver is a parameter: a state with
-- `tcgetattr`, none for a return value below 0, and `tcsetattr`, false for one below 0.
pub mod Modes
mod Tests
use learn_apue.Base.{ℕ, Bool, true, false, ◌&&◌, ◌||◌, Option, none, some, ◌==◌, ◌≡◌, if◌then◌else◌}
use learn_apue.Base.Int.{ℤ, pos, negsuc}

-- `struct termios`: the bits that the file names, and the rest. CSIZE is a field of two bits, and
-- CS8 is both of them, 3.
pub record Termios : Type 0 where
  pub echo : Bool
  pub icanon : Bool
  pub iexten : Bool
  pub isig : Bool
  pub brkint : Bool
  pub icrnl : Bool
  pub inpck : Bool
  pub istrip : Bool
  pub ixon : Bool
  pub csize : ℕ
  pub parenb : Bool
  pub opost : Bool
  pub vmin : ℕ
  pub vtime : ℕ
  pub rest : ℕ

pub data TtyState : Type 0 where
  reset raw cbreak : TtyState

-- The static variables of the file, `errno`, and the state of the driver.
pub record Tty (W : Type 0) : Type 0 where
  pub driver : W
  pub errno : ℕ
  pub save_termios : Option Termios
  pub ttysavefd : ℤ
  pub ttystate : TtyState

pub record Driver (W : Type 0) : Type 0 where
  pub tcgetattr : W → ℕ → Option Termios × W
  pub tcsetattr : W → ℕ → Termios → Bool × W

-- What the two modes ask of a terminal, and the test that they stuck.
unfoldable pub cbreak_mode : Termios → Termios
cbreak_mode b = record b { echo = false; icanon = false; vmin = 1; vtime = 0 }

unfoldable pub cbreak_stuck : Termios → Bool
cbreak_stuck b =
    if (b.echo || b.icanon)
      || (if b.vmin == 1 then false else true)
      || (if b.vtime == 0 then false else true)
    then false
    else true

unfoldable pub raw_mode : Termios → Termios
raw_mode b = record b {
  echo = false;
  icanon = false;
  iexten = false;
  isig = false;
  brkint = false;
  icrnl = false;
  inpck = false;
  istrip = false;
  ixon = false;
  csize = 3;
  parenb = false;
  opost = false;
  vmin = 1;
  vtime = 0;
}

unfoldable pub raw_stuck : Termios → Bool
raw_stuck b =
    if (b.echo || b.icanon || b.iexten || b.isig)
      || (b.brkint || b.icrnl || b.inpck || b.istrip || b.ixon)
      || (b.parenb || (if b.csize == 3 then false else true))
      || b.opost
      || (if b.vmin == 1 then false else true)
      || (if b.vtime == 0 then false else true)
    then false
    else true

-- The static structure is all zero before the first change of mode.
unfoldable pub saved_termios : Option Termios → Termios
saved_termios (some b) = b
saved_termios none = record {
  echo = false;
  icanon = false;
  iexten = false;
  isig = false;
  brkint = false;
  icrnl = false;
  inpck = false;
  istrip = false;
  ixon = false;
  csize = 0;
  parenb = false;
  opost = false;
  vmin = 0;
  vtime = 0;
  rest = 0;
}

module _ {W : Type 0} (d : Driver W) where
  -- What follows the second `tcgetattr`: the mode is kept, or the saved settings are put back.
  unfoldable pub verify :
      (Termios → Bool) → TtyState → ℕ → Termios → Tty W → Option Termios × W → ℤ × Tty W
  verify stuck mode fd saved s (none, w) =
      (negsuc 0, record s { driver = (d.tcsetattr w fd saved).1 })
  verify stuck mode fd saved s (some b, w) =
      if stuck b
      then (pos 0, record s { driver = w; ttystate = mode; ttysavefd = pos fd })
      else (negsuc 0, record s { driver = (d.tcsetattr w fd saved).1; errno = 22 })

  -- What follows the first `tcsetattr`.
  unfoldable pub set_mode : (Termios → Bool) → TtyState → ℕ → Termios → Tty W → Bool × W → ℤ × Tty W
  set_mode stuck mode fd b s (false, w) = (negsuc 0, record s { driver = w; save_termios = some b })
  set_mode stuck mode fd b s (true, w) =
      verify stuck mode fd b (record s { driver = w; save_termios = some b }) (d.tcgetattr w fd)

  -- What follows the first `tcgetattr`.
  unfoldable pub change_mode :
      (Termios → Termios) → (Termios → Bool) → TtyState → ℕ → Tty W → Option Termios × W → ℤ × Tty W
  change_mode change stuck mode fd s (none, w) = (negsuc 0, record s { driver = w })
  change_mode change stuck mode fd s (some b, w) =
      set_mode stuck mode fd b s (d.tcsetattr w fd (change b))

  -- What `tty_cbreak` and `tty_raw` share: their mode, its test and the state they enter. EINVAL
  -- is 22.
  unfoldable pub enter :
      TtyState → (Termios → Termios) → (Termios → Bool) → TtyState → ℕ → Tty W → ℤ × Tty W
  enter raw change stuck mode fd s = (negsuc 0, record s { errno = 22 })
  enter cbreak change stuck mode fd s = (negsuc 0, record s { errno = 22 })
  enter reset change stuck mode fd s = change_mode change stuck mode fd s (d.tcgetattr s.driver fd)

  -- `tty_cbreak`
  unfoldable pub tty_cbreak : ℕ → Tty W → ℤ × Tty W
  tty_cbreak fd s = enter s.ttystate cbreak_mode cbreak_stuck cbreak fd s

  -- `tty_raw`
  unfoldable pub tty_raw : ℕ → Tty W → ℤ × Tty W
  tty_raw fd s = enter s.ttystate raw_mode raw_stuck raw fd s

  -- What `tcsetattr` of the saved settings brings about.
  unfoldable pub put_back : Tty W → Bool × W → ℤ × Tty W
  put_back s (false, w) = (negsuc 0, record s { driver = w })
  put_back s (true, w) = (pos 0, record s { driver = w; ttystate = reset })

  unfoldable pub reset_from : TtyState → ℕ → Tty W → ℤ × Tty W
  reset_from reset fd s = (pos 0, s)
  reset_from raw fd s = put_back s (d.tcsetattr s.driver fd (saved_termios s.save_termios))
  reset_from cbreak fd s = put_back s (d.tcsetattr s.driver fd (saved_termios s.save_termios))

  -- `tty_reset`
  unfoldable pub tty_reset : ℕ → Tty W → ℤ × Tty W
  tty_reset fd s = reset_from s.ttystate fd s

  -- `tty_atexit`
  unfoldable pub tty_atexit : Tty W → Tty W
  tty_atexit s = elim s.ttysavefd [ negsuc n ↦ s | pos fd ↦ (tty_reset fd s).1 ]
