-- ===== src/Popen/Children.antt =====
-- What a command of lib/popen.c is started with, and how its stream is closed.
use learn_apue.Base.{
  ℕ, zero, suc, ◌+◌, ◌<◌, ◌≡◌, ◌≢◌, refl, sym, ap, ◌∙◌, ◌⊎◌, inl, inr, Bool, true, false, ◌||◌,
  Option, none, some, List, [], ◌∷◌, ◌++◌, arith, length, set, replicate, leb, ltb, ◌==◌,
  Bool-cases, if◌then◌else◌,
}
use learn_apue.Base.Int.{pos}
use learn_apue.Popen.{
  PipeMode, reading, writing, pipe_mode, Commands, PopenCalls, mark, own_end, other_end, after_fork,
  after_pipe, with_table, with_mode, popen, close_fd, dup2, close_children, to_standard,
  standard_fd, child, interrupted, status, wait_for, pid_at, close_stream, with_childpid, pclose,
}

close_children-below :
    (t : List ℕ) (i g : ℕ) (files : ℕ → Option ℕ) → g < i → close_children t i files g ≡ files g
unfolding close_children close_fd
close_children-below [] i g files h = refl
close_children-below (pid ∷ t) i g files h =
    let differs : (g == i) ≡ false = ground arith in
    elim (Bool-cases (ltb 0 pid)) [
      | inl runs ↦
          rw runs
            (close_children-below t (suc i) g (close_fd i files) (omega arith) ∙ rw differs refl)
      | inr free ↦ rw free (close_children-below t (suc i) g files (omega arith))
    ]

-- The loop closes the descriptors that have a process.
close_children-pid_at :
    (t : List ℕ) (i k g : ℕ) (files : ℕ → Option ℕ)
    → g ≡ i + k
    → close_children t i files g ≡ (if ltb 0 (pid_at t k) then none else files g)
unfolding close_children close_fd pid_at
close_children-pid_at [] i k g files e = refl
close_children-pid_at (pid ∷ t) i zero g files e =
    let same : (g == i) ≡ true = ground arith in
    elim (Bool-cases (ltb 0 pid)) [
      | inl runs ↦
          rw runs (close_children-below t (suc i) g (close_fd i files) (omega arith) ∙ rw same refl)
      | inr free ↦ rw free (close_children-below t (suc i) g files (omega arith))
    ]
close_children-pid_at (pid ∷ t) i (suc k) g files e =
    let differs : (g == i) ≡ false = ground arith in
    elim (Bool-cases (ltb 0 pid)) [
      | inl runs ↦
          rw runs
            (close_children-pid_at t (suc i) k g (close_fd i files) (omega arith) ∙ rw differs refl)
      | inr free ↦ rw free (close_children-pid_at t (suc i) k g files (omega arith))
    ]

-- If the ends of the pipe are different, and the standard descriptor that the command uses for it
-- is not a stream of an earlier `popen`, then in the command that descriptor is its end of the
-- pipe, all streams of earlier calls and the ends of the pipe themselves are closed, and every
-- other descriptor is what it is in the parent.
pub child-pid_at :
    (mode : PipeMode) (pfd : ℕ × ℕ) (t : List ℕ) (files : ℕ → Option ℕ)
    → own_end mode pfd ≢ other_end mode pfd
    → pid_at t (standard_fd mode) ≡ 0
    → (child mode pfd t files (standard_fd mode) ≡ files (other_end mode pfd))
      × ((g : ℕ) → 0 < pid_at t g → child mode pfd t files g ≡ none)
      × ((g : ℕ)
          → g ≢ standard_fd mode
          → (g ≡ own_end mode pfd) ⊎ (g ≡ other_end mode pfd)
          → child mode pfd t files g ≡ none)
      × ((g : ℕ)
          → pid_at t g ≡ 0
          → g ≢ standard_fd mode
          → g ≢ own_end mode pfd
          → g ≢ other_end mode pfd
          → child mode pfd t files g ≡ files g)
unfolding child to_standard close_fd dup2
child-pid_at mode pfd t files ne free =
    let loop = λ (g : ℕ).
      close_children-pid_at t 0 g g
        (to_standard (standard_fd mode) (other_end mode pfd) (own_end mode pfd) files)
        (omega arith) in
    (
      loop (standard_fd mode) ∙ ground arith,
      λ g h. loop g ∙ ground arith,
      λ g ns h. loop g ∙ ground arith,
      λ g h ns no_own no_other. loop g ∙ ground arith,
    )

pid_at-set : (t : List ℕ) (fd pid : ℕ) → fd < length t → pid_at (set t fd pid) fd ≡ pid
unfolding pid_at
pid_at-set [] fd pid h = absurd (omega arith)
pid_at-set (x ∷ t) zero pid h = refl
pid_at-set (x ∷ t) (suc fd) pid h = pid_at-set t fd pid (omega arith)

set-set : (t : List ℕ) (fd pid : ℕ) → pid_at t fd ≡ 0 → set (set t fd pid) fd 0 ≡ t
unfolding pid_at
set-set [] fd pid h = refl
set-set (x ∷ t) zero pid h = ap (λ y. y ∷ t) (sym h)
set-set (x ∷ t) (suc fd) pid h = ap (λ l. x ∷ l) (set-set t fd pid h)

wait_for-interrupted :
    (k n : ℕ) → wait_for (replicate k interrupted ++ (status n ∷ [])) ≡ some (pos n)
unfolding wait_for
wait_for-interrupted zero n = refl
wait_for-interrupted (suc k) n = wait_for-interrupted k n

-- All calls of `popen` succeed, with descriptors and a process that are new.
pub record Succeeds (calls : PopenCalls) (pfd : ℕ × ℕ) (pid : ℕ) (t : List ℕ) (s : Commands)
    : Type 0 where
  pub piped : calls.pipe ≡ some pfd
  pub forked : calls.fork ≡ some pid
  pub opened : calls.fdopen ≡ true
  pub table : s.childpid ≡ some t
  pub size : length t ≡ s.maxfd
  pub low : (pfd.0 < s.maxfd) × (pfd.1 < s.maxfd)
  pub two : pfd.0 ≢ pfd.1
  pub new_fds : (s.is_open pfd.0 ≡ false) × (s.is_open pfd.1 ≡ false)
  pub process : 0 < pid

own_end-low : (mode : PipeMode) (pfd : ℕ × ℕ) (n : ℕ) → pfd.0 < n → pfd.1 < n → own_end mode pfd < n
unfolding own_end
own_end-low reading pfd n a b = a
own_end-low writing pfd n a b = b

-- Both ends of the pipe are closed again.
mark-restored :
    (mode : PipeMode) (pfd : ℕ × ℕ) (is_open : ℕ → Bool) (g : ℕ)
    → is_open pfd.0 ≡ false
    → is_open pfd.1 ≡ false
    → mark false
        (own_end mode pfd)
        (mark false (other_end mode pfd) (mark true pfd.1 (mark true pfd.0 is_open)))
        g
      ≡ is_open g
unfolding mark own_end other_end
mark-restored mode pfd is_open g new_r new_w = elim (Bool-cases (g == pfd.0)) [
  | inl r ↦ let is : g ≡ pfd.0 = ground arith in both mode (ap is_open is ∙ new_r) (inl is)
  | inr not_r ↦ elim (Bool-cases (g == pfd.1)) [
    | inl w ↦ let is : g ≡ pfd.1 = ground arith in both mode (ap is_open is ∙ new_w) (inr is)
    | inr not_w ↦ neither mode not_r not_w
  ]
]
  where
    both :
        (mode : PipeMode)
        → is_open g ≡ false
        → (g ≡ pfd.0) ⊎ (g ≡ pfd.1)
        → mark false
            (own_end mode pfd)
            (mark false (other_end mode pfd) (mark true pfd.1 (mark true pfd.0 is_open)))
            g
          ≡ is_open g
    both reading closed is = rw closed (ground arith)
    both writing closed is = rw closed (ground arith)

    neither :
        (mode : PipeMode)
        → (g == pfd.0) ≡ false
        → (g == pfd.1) ≡ false
        → mark false
            (own_end mode pfd)
            (mark false (other_end mode pfd) (mark true pfd.1 (mark true pfd.0 is_open)))
            g
          ≡ is_open g
    neither reading not_r not_w = rw (not_r, not_w) refl
    neither writing not_r not_w = rw (not_r, not_w) refl

-- If all calls of `popen` succeed, with two new descriptors below `maxfd` for the pipe and a new
-- process, the table of processes is there and has no process for the stream's descriptor, then
-- `popen` returns the stream, and `pclose` of it, if `fclose` succeeds, returns the status that
-- `waitpid` gives after any number of interrupted calls; the table and the open descriptors are
-- then those from before.
pub pclose-popen :
    (calls : PopenCalls) (mode : PipeMode) (type : List ℕ) (pfd : ℕ × ℕ) (pid k n : ℕ) (t : List ℕ)
    (s : Commands)
    → pipe_mode type ≡ some mode
    → Succeeds calls pfd pid t s
    → pid_at t (own_end mode pfd) ≡ 0
    → (s1 : Commands) × (s2 : Commands) × (popen calls type s ≡ (some (own_end mode pfd), s1))
      × (pclose (own_end mode pfd) true (replicate k interrupted ++ (status n ∷ [])) s1
          ≡ (some (pos n), s2))
      × (s2.childpid ≡ some t)
      × ((g : ℕ) → s2.is_open g ≡ s.is_open g)
unfolding popen with_mode with_table after_pipe after_fork pclose with_childpid close_stream mark
    own_end other_end
pclose-popen calls mode type pfd pid k n t s m ok free =
    let fd = own_end mode pfd in
    let fits : (leb s.maxfd pfd.0 || leb s.maxfd pfd.1) ≡ false =
      ground (arith, ok.low.0, ok.low.1) in
    let inside : fd < s.maxfd = own_end-low mode pfd s.maxfd ok.low.0 ok.low.1 in
    let known : (leb s.maxfd fd || (pid == 0)) ≡ false = ground (arith, ok.process, inside) in
    let parent = mark false (other_end mode pfd) (mark true pfd.1 (mark true pfd.0 s.is_open)) in
    (
      record { childpid = some (set t fd pid); maxfd = s.maxfd; errno = s.errno; is_open = parent },
      record {
        childpid = some (set (set t fd pid) fd 0);
        maxfd = s.maxfd;
        errno = s.errno;
        is_open = mark false fd parent;
      },
      rw (m, ok.table, ok.piped, fits, ok.forked, ok.opened) refl,
      rw (pid_at-set t fd pid (omega (arith, ok.size, inside)), known, wait_for-interrupted k n)
          refl,
      ap some (set-set t fd pid free),
      λ g. mark-restored mode pfd s.is_open g ok.new_fds.0 ok.new_fds.1,
    )
