-- ===== src/Popen.antt =====
-- A command at the other end of a pipe: popen and pclose of lib/popen.c.
pub mod Children
mod Tests
use learn_apue.Base.{
  ℕ, zero, suc, ◌+◌, Bool, true, false, ◌||◌, Option, none, some, List, [], ◌∷◌, set, replicate,
  leb, ltb, ◌==◌, if◌then◌else◌,
}
use learn_apue.Base.Int.{ℤ, pos, negsuc}

-- What the second argument says; none for any other text than "r" and "w".
pub data PipeMode : Type 0 where
  reading : PipeMode
  writing : PipeMode

unfoldable pub pipe_mode : List ℕ → Option PipeMode
pipe_mode [] = none
pipe_mode (c ∷ []) = if c == b'r' then some reading else if c == b'w' then some writing else none
pipe_mode (c ∷ d ∷ l) = none

-- `childpid`, none for NULL, `maxfd`, `errno`, and the open descriptors.
pub record Commands : Type 0 where
  pub childpid : Option (List ℕ)
  pub maxfd : ℕ
  pub errno : ℕ
  pub is_open : ℕ → Bool

-- EINVAL and EMFILE
abbrev pub invalid_argument : ℕ
invalid_argument = 22

abbrev pub too_many_files : ℕ
too_many_files = 24

-- What the system calls of `popen` return, none and false for a failure.
pub record PopenCalls : Type 0 where
  pub open_max : ℕ
  pub calloc : Bool
  pub pipe : Option (ℕ × ℕ)
  pub fork : Option ℕ
  pub fdopen : Bool

unfoldable pub mark : Bool → ℕ → (ℕ → Bool) → ℕ → Bool
mark b fd is_open g = if g == fd then b else is_open g

unfoldable pub own_end : PipeMode → ℕ × ℕ → ℕ
own_end reading (r, w) = r
own_end writing (r, w) = w

unfoldable pub other_end : PipeMode → ℕ × ℕ → ℕ
other_end reading (r, w) = w
other_end writing (r, w) = r

-- The parent behind `fork`.
unfoldable pub after_fork :
    PopenCalls → PipeMode → ℕ × ℕ → List ℕ → Commands → Option ℕ → Option ℕ × Commands
after_fork calls mode pfd table s none = (none, s)
after_fork calls mode pfd table s (some pid) =
    let fd = own_end mode pfd in
    let s1 = record s { is_open = mark false (other_end mode pfd) s.is_open } in
    if calls.fdopen then (some fd, record s1 { childpid = some (set table fd pid) }) else (none, s1)

unfoldable pub after_pipe :
    PopenCalls → PipeMode → List ℕ → Commands → Option (ℕ × ℕ) → Option ℕ × Commands
after_pipe calls mode table s none = (none, s)
after_pipe calls mode table s (some (r, w)) =
    if leb s.maxfd r || leb s.maxfd w
    then (none, record s { errno = too_many_files })
    else after_fork calls mode (r, w) table
        (record s { is_open = mark true w (mark true r s.is_open) }) calls.fork

unfoldable pub with_table : PopenCalls → PipeMode → Commands → Option (List ℕ) → Option ℕ × Commands
with_table calls mode s (some table) = after_pipe calls mode table s calls.pipe
with_table calls mode s none =
    let table = replicate calls.open_max 0 in
    let s1 = record s { maxfd = calls.open_max } in
    if calls.calloc
    then after_pipe calls mode table (record s1 { childpid = some table }) calls.pipe
    else (none, s1)

unfoldable pub with_mode : PopenCalls → Commands → Option PipeMode → Option ℕ × Commands
with_mode calls s none = (none, record s { errno = invalid_argument })
with_mode calls s (some mode) = with_table calls mode s s.childpid

-- `popen` in the parent: the descriptor of the stream that it returns, none for NULL.
unfoldable pub popen : PopenCalls → List ℕ → Commands → Option ℕ × Commands
popen calls type s = with_mode calls s (pipe_mode type)

-- What each descriptor of the child stands for: `close`, `dup2`, and the loop over `childpid`.
unfoldable pub close_fd : ℕ → (ℕ → Option ℕ) → ℕ → Option ℕ
close_fd fd files g = if g == fd then none else files g

unfoldable pub dup2 : ℕ → ℕ → (ℕ → Option ℕ) → ℕ → Option ℕ
dup2 old new files g = if g == new then files old else files g

unfoldable pub close_children : List ℕ → ℕ → (ℕ → Option ℕ) → ℕ → Option ℕ
close_children [] i files = files
close_children (pid ∷ table) i files =
    close_children table (suc i) (if ltb 0 pid then close_fd i files else files)

unfoldable pub to_standard : ℕ → ℕ → ℕ → (ℕ → Option ℕ) → ℕ → Option ℕ
to_standard std end' other files =
    let f = close_fd other files in if end' == std then f else close_fd end' (dup2 end' std f)

unfoldable pub standard_fd : PipeMode → ℕ
standard_fd reading = 1
standard_fd writing = 0

-- The child up to `execl`.
unfoldable pub child : PipeMode → ℕ × ℕ → List ℕ → (ℕ → Option ℕ) → ℕ → Option ℕ
child mode pfd table files =
    close_children table 0
      (to_standard (standard_fd mode) (other_end mode pfd) (own_end mode pfd) files)

-- What a `waitpid` comes to.
pub data Wait : Type 0 where
  interrupted : Wait
  wait_error : Wait
  status : ℕ → Wait

unfoldable pub wait_for : List Wait → Option ℤ
wait_for [] = none
wait_for (interrupted ∷ l) = wait_for l
wait_for (wait_error ∷ l) = some (negsuc 0)
wait_for (status n ∷ l) = some (pos n)

unfoldable pub pid_at : List ℕ → ℕ → ℕ
pid_at [] i = 0
pid_at (pid ∷ t) zero = pid
pid_at (pid ∷ t) (suc i) = pid_at t i

-- Behind the tests of `pclose`; `fclose` frees the descriptor whatever it returns.
unfoldable pub close_stream : ℕ → Bool → List Wait → List ℕ → Commands → Option ℤ × Commands
close_stream fd closes waits table s =
    let s1 = record s { childpid = some (set table fd 0); is_open = mark false fd s.is_open } in
    (if closes then wait_for waits else some (negsuc 0), s1)

unfoldable pub with_childpid :
    ℕ → Bool → List Wait → Commands → Option (List ℕ) → Option ℤ × Commands
with_childpid fd closes waits s none = (some (negsuc 0), record s { errno = invalid_argument })
with_childpid fd closes waits s (some table) =
    if leb s.maxfd fd || (pid_at table fd == 0)
    then (some (negsuc 0), record s { errno = invalid_argument })
    else close_stream fd closes waits table s

-- `pclose` of the stream with the descriptor, with what `fclose` (`closes`) and the calls of `waitpid` come to; no
-- value if it still waits.
unfoldable pub pclose : ℕ → Bool → List Wait → Commands → Option ℤ × Commands
pclose fd closes waits s = with_childpid fd closes waits s s.childpid
