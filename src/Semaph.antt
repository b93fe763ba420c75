-- ===== src/Semaph.antt =====
-- The semaphores of lib/semaph.c over the calls of System V semaphores, which are a parameter.
pub mod Kernel
pub mod Users
mod Tests
use Prim.Native.String.{String}
use learn_apue.Base.{
  ℕ, zero, suc, Bool, true, false, ◌||◌, Option, none, some, List, [], ◌∷◌, ◌==◌, if◌then◌else◌,
  ltb, ◌≡◌, refl,
}
use learn_apue.Base.Int.{ℤ, pos, negsuc, eqb_ℤ}

pub record SemBuf : Type 0 where
  pub sem_num : ℕ
  pub sem_op : ℤ
  pub sem_undo : Bool

-- A return value of `semop`: 0, or -1 with `errno` at EINVAL or at something else.
pub data Semop : Type 0 where
  semop_ok semop_einval semop_failed : Semop

-- The system calls. An identifier is a number, and none stands for a return value below 0.
pub record SemCalls (W : Type 0) : Type 0 where
  pub semget : W → ℤ → Bool → Option ℕ × W
  pub semop : W → ℕ → List SemBuf → Semop × W
  pub getval : W → ℕ → ℕ → Option ℕ × W
  pub setval : W → ℕ → ℕ → ℤ → Bool × W
  pub rmid : W → ℕ → Bool × W

-- How a call ends: it returns, or the process ends in `err_sys` or `err_dump`, or the rounds of a
-- loop are used up.
pub data Outcome {ℓ} (A : Type ℓ) : Type ℓ where
  returned : A → Outcome A
  died : String → Outcome A
  out_of_rounds : Outcome A

abbrev pub bigcount : ℕ
bigcount = 10000

abbrev pub op_lock : List SemBuf
op_lock =
    record { sem_num = 2; sem_op = pos 0; sem_undo = false }
    ∷ record { sem_num = 2; sem_op = pos 1; sem_undo = true }
    ∷ []

abbrev pub op_endcreate : List SemBuf
op_endcreate =
    record { sem_num = 1; sem_op = negsuc 0; sem_undo = true }
    ∷ record { sem_num = 2; sem_op = negsuc 0; sem_undo = true }
    ∷ []

abbrev pub op_open : List SemBuf
op_open = record { sem_num = 1; sem_op = negsuc 0; sem_undo = true } ∷ []

abbrev pub op_close : List SemBuf
op_close =
    record { sem_num = 2; sem_op = pos 0; sem_undo = false }
    ∷ record { sem_num = 2; sem_op = pos 1; sem_undo = true }
    ∷ record { sem_num = 1; sem_op = pos 1; sem_undo = true }
    ∷ []

abbrev pub op_unlock : List SemBuf
op_unlock = record { sem_num = 2; sem_op = negsuc 0; sem_undo = true } ∷ []

abbrev pub op_op : ℤ → List SemBuf
op_op n = record { sem_num = 0; sem_op = n; sem_undo = true } ∷ []

-- A key that is IPC_PRIVATE, 0, or -1 is refused.
unfoldable pub bad_key : ℤ → Bool
bad_key key = eqb_ℤ key (pos 0) || eqb_ℤ key (negsuc 0)

module _ {W : Type 0} (k : SemCalls W) where
  -- The result of a call that must succeed.
  unfoldable pub must {ℓ} : {A : Type ℓ} → String → A → Semop × W → Outcome A × W
  must text a (semop_ok, w) = (returned a, w)
  must text a (semop_einval, w) = (died text, w)
  must text a (semop_failed, w) = (died text, w)

  -- The end of `sem_create`.
  unfoldable pub end_create : ℕ → W → Outcome (Option ℕ) × W
  end_create id w = must "can't end create" (some id) (k.semop w id op_endcreate)

  unfoldable pub init_count : ℕ → Bool × W → Outcome (Option ℕ) × W
  init_count id (false, w) = (died "can SETVAL[1]", w)
  init_count id (true, w) = end_create id w

  unfoldable pub init_value : ℕ → Bool × W → Outcome (Option ℕ) × W
  init_value id (false, w) = (died "can SETVAL[0]", w)
  init_value id (true, w) = init_count id (k.setval w id 1 (pos bigcount))

  -- The semaphore is locked, and the process counter has been read.
  unfoldable pub create_locked : ℤ → ℕ → Option ℕ × W → Outcome (Option ℕ) × W
  create_locked initval id (none, w) = (died "can't GETVAL", w)
  create_locked initval id (some zero, w) = init_value id (k.setval w id 0 initval)
  create_locked initval id (some (suc n), w) = end_create id w

  -- The semaphore is locked, or, if another process has removed it, created again by `again`.
  unfoldable pub create_lock :
      (W → Outcome (Option ℕ) × W) → ℤ → ℕ → Semop × W → Outcome (Option ℕ) × W
  create_lock again initval id (semop_ok, w) = create_locked initval id (k.getval w id 1)
  create_lock again initval id (semop_einval, w) = again w
  create_lock again initval id (semop_failed, w) = (died "can't lock", w)

  unfoldable pub create_got :
      (W → Outcome (Option ℕ) × W) → ℤ → Option ℕ × W → Outcome (Option ℕ) × W
  create_got again initval (none, w) = (returned none, w)
  create_got again initval (some id, w) = create_lock again initval id (k.semop w id op_lock)

  -- The loop behind `again`.
  unfoldable pub create_loop : ℕ → ℤ → ℤ → W → Outcome (Option ℕ) × W
  create_loop zero key initval w = (out_of_rounds, w)
  create_loop (suc n) key initval w =
      create_got (create_loop n key initval) initval (k.semget w key true)

  -- A bad key gives -1.
  unfoldable pub unless_bad : Bool → (W → Outcome (Option ℕ) × W) → W → Outcome (Option ℕ) × W
  unless_bad true get w = (returned none, w)
  unless_bad false get w = get w

  -- `sem_create`, none for a return value of -1.
  unfoldable pub sem_create : ℕ → ℤ → ℤ → W → Outcome (Option ℕ) × W
  sem_create rounds key initval w = unless_bad (bad_key key) (create_loop rounds key initval) w

  unfoldable pub open_got : Option ℕ × W → Outcome (Option ℕ) × W
  open_got (none, w) = (returned none, w)
  open_got (some id, w) = must "can't open" (some id) (k.semop w id op_open)

  -- `sem_open`
  unfoldable pub sem_open : ℤ → W → Outcome (Option ℕ) × W
  sem_open key w = unless_bad (bad_key key) (λ v. open_got (k.semget v key false)) w

  unfoldable pub removed : Bool × W → Outcome (Unit {0}) × W
  removed (false, w) = (died "can't IPC_RMID", w)
  removed (true, w) = (returned tt, w)

  -- `sem_rm`
  unfoldable pub sem_rm : ℕ → W → Outcome (Unit {0}) × W
  sem_rm id w = removed (k.rmid w id)

  -- The process counter decides whether the semaphore is removed.
  unfoldable pub close_counted : ℕ → Option ℕ × W → Outcome (Unit {0}) × W
  close_counted id (none, w) = (died "can't GETVAL", w)
  close_counted id (some semval, w) =
      if ltb bigcount semval
      then (died "sem[1] > BIGCOUNT", w)
      else if semval == bigcount
      then sem_rm id w
      else must "can't unlock" tt (k.semop w id op_unlock)

  unfoldable pub close_locked : ℕ → Semop × W → Outcome (Unit {0}) × W
  close_locked id (semop_ok, w) = close_counted id (k.getval w id 1)
  close_locked id (semop_einval, w) = (died "can't semop", w)
  close_locked id (semop_failed, w) = (died "can't semop", w)

  -- `sem_close`
  unfoldable pub sem_close : ℕ → W → Outcome (Unit {0}) × W
  sem_close id w = close_locked id (k.semop w id op_close)

  -- `sem_op`
  unfoldable pub sem_op_call : ℕ → ℤ → W → Outcome (Unit {0}) × W
  sem_op_call id value w =
      if eqb_ℤ value (pos 0)
      then (died "can't have value == 0", w)
      else must "sem_op error" tt (k.semop w id (op_op value))

  -- `sem_wait`
  unfoldable pub sem_wait : ℕ → W → Outcome (Unit {0}) × W
  sem_wait id = sem_op_call id (negsuc 0)

  -- `sem_signal`
  unfoldable pub sem_signal : ℕ → W → Outcome (Unit {0}) × W
  sem_signal id = sem_op_call id (pos 1)
