-- ===== src/Popen/Tests.antt =====
-- A stream that is read from, beside one that another command writes to.
use learn_apue.Base.{
  ℕ, ◌≡◌, ◌≢◌, ◌⊎◌, ◌<◌, refl, true, some, none, List, [], ◌∷◌, ◌++◌, arith, replicate, ◌==◌,
}
use learn_apue.Base.Int.{pos}
use learn_apue.Popen.{
  reading, pipe_mode, Commands, PopenCalls, own_end, other_end, popen, child, standard_fd,
  interrupted, status, pid_at, pclose,
}
use learn_apue.Popen.Children.{child-pid_at, pclose-popen}

abbrev table : List ℕ
table = 0 ∷ 0 ∷ 0 ∷ 90 ∷ 0 ∷ 0 ∷ []

abbrev one_command : Commands
one_command = record { childpid = some table; maxfd = 6; errno = 0; is_open = λ g. g == 3 }

abbrev good_calls : PopenCalls
good_calls = record {
  open_max = 6;
  calloc = true;
  pipe = some (4, 5);
  fork = some 91;
  fdopen = true;
}

child-pid_at_example :
    (child reading (4, 5) table some 1 ≡ some 5)
    × ((g : ℕ) → 0 < pid_at table g → child reading (4, 5) table some g ≡ none)
    × ((g : ℕ) → g ≢ 1 → (g ≡ 4) ⊎ (g ≡ 5) → child reading (4, 5) table some g ≡ none)
    × ((g : ℕ)
        → pid_at table g ≡ 0
        → g ≢ 1
        → g ≢ 4
        → g ≢ 5
        → child reading (4, 5) table some g ≡ some g)
unfolding standard_fd own_end other_end pid_at
child-pid_at_example = child-pid_at reading (4, 5) table some (ground arith) refl

pclose-popen_example :
    (s1 : Commands) × (s2 : Commands) × (popen good_calls (b'r' ∷ []) one_command ≡ (some 4, s1))
    × (pclose 4 true (replicate 2 interrupted ++ (status 7 ∷ [])) s1 ≡ (some (pos 7), s2))
    × (s2.childpid ≡ some table)
    × ((g : ℕ) → s2.is_open g ≡ one_command.is_open g)
unfolding own_end pid_at pipe_mode
pclose-popen_example =
    pclose-popen good_calls reading (b'r' ∷ []) (4, 5) 91 2 7 table one_command refl
      (record {
        piped = refl;
        forked = refl;
        opened = refl;
        table = refl;
        size = refl;
        low = (omega arith, omega arith);
        two = ground arith;
        new_fds = (refl, refl);
        process = omega arith;
      })
      refl
