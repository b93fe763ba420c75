-- ===== src/Semaph/Kernel.antt =====
-- What lib/semaph.c relies on of the System V calls: a set of three semaphores and its operations.
use learn_apue.Base.{
  ℕ, zero, suc, ◌+◌, ◌-◌, ◌≡◌, Option, none, some, List, [], ◌∷◌, ltb, leb, ◌≤◌, if◌then◌else◌,
  true,
}
use learn_apue.Base.Int.{ℤ, pos, negsuc}
use learn_apue.Semaph.{SemBuf, SemCalls, semop_ok}

-- The values of the set: the semaphore itself, the process counter and the lock.
pub record Values : Type 0 where
  pub value : ℕ
  pub count : ℕ
  pub lock : ℕ

-- The largest value that a semaphore may have.
abbrev pub largest : ℕ
largest = 32767

-- One operation on a value: a wait for 0, an addition, a subtraction; none if it blocks or fails.
unfoldable pub change : ℤ → ℕ → Option ℕ
change (pos zero) zero = some 0
change (pos zero) (suc v) = none
change (pos (suc n)) v = if leb (v + suc n) largest then some (v + suc n) else none
change (negsuc n) v = if ltb n v then some (v - suc n) else none

unfoldable pub put_value : Values → Option ℕ → Option Values
put_value s none = none
put_value s (some x) = some (record s { value = x })

unfoldable pub put_count : Values → Option ℕ → Option Values
put_count s none = none
put_count s (some x) = some (record s { count = x })

unfoldable pub put_lock : Values → Option ℕ → Option Values
put_lock s none = none
put_lock s (some x) = some (record s { lock = x })

unfoldable pub operate : ℕ → ℤ → Values → Option Values
operate zero op s = put_value s (change op s.value)
operate (suc zero) op s = put_count s (change op s.count)
operate (suc (suc zero)) op s = put_lock s (change op s.lock)
operate (suc (suc (suc n))) op s = none

-- The operations of an array, all or none of which are done.
unfoldable pub operate_all : List SemBuf → Option Values → Option Values
operate_all ops none = none
operate_all [] (some s) = some s
operate_all (op ∷ ops) (some s) = operate_all ops (operate op.sem_num op.sem_op s)

-- The calls behave as documented; `table` gives the values of the sets that exist.
pub record Documented {W : Type 0} (k : SemCalls W) (table : W → ℕ → Option Values) : Type 0 where
  pub semop_does :
      (w : W) (id : ℕ) (ops : List SemBuf) (s t : Values)
      → table w id ≡ some s
      → operate_all ops (some s) ≡ some t
      → (u : W) × (k.semop w id ops ≡ (semop_ok, u)) × (table u id ≡ some t)
  pub getval_does :
      (w : W) (id : ℕ) (s : Values)
      → table w id ≡ some s
      → (u : W) × (k.getval w id 1 ≡ (some s.count, u)) × (table u id ≡ some s)
  pub set_value :
      (w : W) (id x : ℕ) (s : Values)
      → table w id ≡ some s
      → x ≤ largest
      → (u : W) × (k.setval w id 0 (pos x) ≡ (true, u))
        × (table u id ≡ some (record s { value = x }))
  pub set_count :
      (w : W) (id x : ℕ) (s : Values)
      → table w id ≡ some s
      → x ≤ largest
      → (u : W) × (k.setval w id 1 (pos x) ≡ (true, u))
        × (table u id ≡ some (record s { count = x }))
  pub rmid_does :
      (w : W) (id : ℕ) (s : Values)
      → table w id ≡ some s
      → (u : W) × (k.rmid w id ≡ (true, u)) × (table u id ≡ none)
