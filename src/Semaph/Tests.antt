-- ===== src/Semaph/Tests.antt =====
-- The theorems on the semaphores over a system with a single set.
use learn_apue.Base.{ℕ, zero, suc, ◌≡◌, refl, true, Option, none, some, arith}
use learn_apue.Base.Int.{ℤ, pos, negsuc}
use learn_apue.Semaph.Kernel.{Values, operate_all, Documented}
use learn_apue.Semaph.Users.{open_values, new_values, sem_close-sem_create, sem_close-sem_open}
use learn_apue.Semaph.{
  SemCalls, Semop, semop_ok, semop_failed, returned, sem_create, sem_open, sem_close, bad_key,
}

-- The set, if it exists.
abbrev One : Type 0
One = Option Values

abbrev tried : One → One → Semop × One
tried none w = (semop_failed, w)
tried (some s) w = (semop_ok, some s)

abbrev read_count : One → Option ℕ × One
read_count none = (none, none)
read_count (some s) = (some s.count, some s)

abbrev make_set : One → Option ℕ × One
make_set none = (some 7, some new_values)
make_set (some s) = (some 7, some s)

abbrev set_one : One → ℕ → ℤ → One
set_one none n v = none
set_one (some s) zero (pos v) = some (record s { value = v })
set_one (some s) (suc n) (pos v) = some (record s { count = v })
set_one (some s) n (negsuc v) = some s

abbrev one_set : SemCalls One
one_set = record {
  semget = λ w key create. make_set w;
  semop = λ w id ops. tried (operate_all ops w) w;
  getval = λ w id n. read_count w;
  setval = λ w id n v. (true, set_one w n v);
  rmid = λ w id. (true, none);
}

one_set-Documented : Documented one_set (λ w id. w)
one_set-Documented = record {
  semop_does = λ w id ops s t e run. (some t, rw (e, run) refl, refl);
  getval_does = λ w id s e. (some s, rw e refl, refl);
  set_value = λ w id x s e small. (some (record s { value = x }), rw e refl, refl);
  set_count = λ w id x s e small. (some (record s { count = x }), rw e refl, refl);
  rmid_does = λ w id s e. (none, refl, refl);
}

sem_close-sem_create_example :
    (u : One) × (t : One) × (sem_create one_set 1 (pos 5) (pos 1) none ≡ (returned (some 7), u))
    × (u ≡ some (open_values 1 1))
    × (sem_close one_set 7 u ≡ (returned tt, t))
    × (t ≡ none)
unfolding bad_key
sem_close-sem_create_example =
    sem_close-sem_create one_set-Documented 0 7 1 (pos 5) none (some new_values) refl refl refl
      (omega arith)

sem_close-sem_open_example :
    (u : One) × (t : One) × (sem_open one_set (pos 5) (some (open_values 3 2))
      ≡ (returned (some 7), u))
    × (u ≡ some (open_values 3 3))
    × (sem_close one_set 7 u ≡ (returned tt, t))
    × (t ≡ some (open_values 3 2))
unfolding bad_key
sem_close-sem_open_example =
    sem_close-sem_open one_set-Documented 7 3 2 (pos 5) (some (open_values 3 2))
      (some (open_values 3 2)) refl refl (omega arith) (omega arith) refl
