-- ===== src/Semaph/Users.antt =====
-- The process counter of lib/semaph.c counts the processes that have the semaphore open.
use learn_apue.Base.{
  ℕ, suc, ◌+◌, ◌-◌, ◌≤◌, ◌<◌, ◌≡◌, refl, ap, true, false, Option, none, some, [], ◌∷◌, arith, ltb,
  leb, ◌==◌,
}
use learn_apue.Base.Int.{ℤ, pos, negsuc}
use learn_apue.Semaph.Kernel.{
  Values, largest, change, put_value, put_count, put_lock, operate, operate_all, Documented,
}
use learn_apue.Semaph.{
  SemCalls, returned, bigcount, op_lock, op_endcreate, op_open, op_close, op_unlock, op_op, bad_key,
  must, end_create, init_count, init_value, create_locked, create_lock, create_got, create_loop,
  unless_bad, sem_create, open_got, sem_open, removed, sem_rm, close_counted, close_locked,
  sem_close, sem_op_call, sem_wait, sem_signal,
}

-- The values while so many processes have the semaphore open and none is in between.
abbrev pub open_values : ℕ → ℕ → Values
open_values v p = record { value = v; count = bigcount - p; lock = 0 }

-- The values of a set that the system has just made.
abbrev pub new_values : Values
new_values = record { value = 0; count = 0; lock = 0 }

lock_does :
    (v c : ℕ)
    → operate_all op_lock (some (record { value = v; count = c; lock = 0 }))
      ≡ some (record { value = v; count = c; lock = 1 })
unfolding operate_all operate change put_lock
lock_does v c = refl

change-suc : (c : ℕ) → change (negsuc 0) (suc c) ≡ some c
unfolding change
change-suc c =
    let positive : ltb 0 (suc c) ≡ true = ground arith in
    let less : suc c - 1 ≡ c = omega arith in rw (positive, less)

change-add : (v : ℕ) → v < largest → change (pos 1) v ≡ some (v + 1)
unfolding change
change-add v h = let fits : leb (v + 1) largest ≡ true = ground arith in rw fits

endcreate_does :
    (v c : ℕ)
    → operate_all op_endcreate (some (record { value = v; count = suc c; lock = 1 }))
      ≡ some (record { value = v; count = c; lock = 0 })
unfolding operate_all operate put_lock put_count change
endcreate_does v c =
    ap
      (λ o.
        operate_all (record { sem_num = 2; sem_op = negsuc 0; sem_undo = true } ∷ [])
          (put_count (record { value = v; count = suc c; lock = 1 }) o))
      (change-suc c)

open_does :
    (v c : ℕ)
    → operate_all op_open (some (record { value = v; count = suc c; lock = 0 }))
      ≡ some (record { value = v; count = c; lock = 0 })
unfolding operate_all operate put_count
open_does v c =
    ap (λ o. operate_all [] (put_count (record { value = v; count = suc c; lock = 0 }) o))
      (change-suc c)

close_does :
    (v c : ℕ)
    → c < largest
    → operate_all op_close (some (record { value = v; count = c; lock = 0 }))
      ≡ some (record { value = v; count = c + 1; lock = 1 })
unfolding operate_all operate change put_lock put_count
close_does v c h =
    ap (λ o. operate_all [] (put_count (record { value = v; count = c; lock = 1 }) o))
      (change-add c h)

unlock_does :
    (v c : ℕ)
    → operate_all op_unlock (some (record { value = v; count = c; lock = 1 }))
      ≡ some (record { value = v; count = c; lock = 0 })
unfolding operate_all operate change put_lock
unlock_does v c = refl

module _ {W : Type 0} {k : SemCalls W} {table : W → ℕ → Option Values}
    (sys : Documented k table) where
  end_create-Values :
      (w : W) (id v c : ℕ)
      → table w id ≡ some (record { value = v; count = suc c; lock = 1 })
      → (u : W) × (end_create k id w ≡ (returned (some id), u))
        × (table u id ≡ some (record { value = v; count = c; lock = 0 }))
  unfolding end_create must
  end_create-Values w id v c e =
      let (u, run, e') = sys.semop_does w id op_endcreate _ _ e (endcreate_does v c) in
      (u, rw run, e')

  -- On a set that was just made, `sem_create` sets the value and counts itself.
  sem_create-new :
      (rounds id n : ℕ) (key : ℤ) (w w1 : W)
      → bad_key key ≡ false
      → k.semget w key true ≡ (some id, w1)
      → table w1 id ≡ some new_values
      → n ≤ largest
      → (u : W) × (sem_create k (suc rounds) key (pos n) w ≡ (returned (some id), u))
        × (table u id ≡ some (open_values n 1))
  unfolding sem_create create_loop create_got create_lock create_locked init_value init_count
      unless_bad
  sem_create-new rounds id n key w w1 good got e small =
      let (w2, r2, e2) = sys.semop_does w1 id op_lock _ _ e (lock_does 0 0) in
      let (w3, r3, e3) = sys.getval_does w2 id _ e2 in
      let (w4, r4, e4) = sys.set_value w3 id n _ e3 small in
      let (w5, r5, e5) = sys.set_count w4 id bigcount _ e4 (omega arith) in
      let (u, r6, e6) = end_create-Values w5 id n 9999 e5 in
      (u, simp (good, got, r2, r3, r4, r5, r6), e6)

  -- `sem_close` of the last process removes the set.
  sem_close-last :
      (id v : ℕ) (w : W)
      → table w id ≡ some (open_values v 1)
      → (u : W) × (sem_close k id w ≡ (returned tt, u)) × (table u id ≡ none)
  unfolding sem_close close_locked close_counted sem_rm removed
  sem_close-last id v w e =
      let (w2, r2, e2) = sys.semop_does w id op_close _ _ e (close_does v 9999 (omega arith)) in
      let (w3, r3, e3) = sys.getval_does w2 id _ e2 in
      let (u, r4, e4) = sys.rmid_does w3 id _ e3 in (u, simp (r2, r3, r4), e4)

  sem_open-joins :
      (id v p : ℕ) (key : ℤ) (w w1 : W)
      → bad_key key ≡ false
      → k.semget w key false ≡ (some id, w1)
      → p < bigcount
      → table w1 id ≡ some (open_values v p)
      → (u : W) × (sem_open k key w ≡ (returned (some id), u))
        × (table u id ≡ some (open_values v (suc p)))
  unfolding sem_open open_got must unless_bad
  sem_open-joins id v p key w w1 good got h e =
      let c : bigcount - p ≡ suc (bigcount - suc p) = omega arith in
      let (u, r, e') =
        sys.semop_does w1 id op_open _ _ (rw c at e) (open_does v (bigcount - suc p)) in
      (u, simp (good, got, r), e')

  -- `sem_close` of another process leaves the set with one process less.
  sem_close-others :
      (id v p : ℕ) (w : W)
      → 1 ≤ p
      → p < bigcount
      → table w id ≡ some (open_values v (suc p))
      → (u : W) × (sem_close k id w ≡ (returned tt, u)) × (table u id ≡ some (open_values v p))
  unfolding sem_close close_locked close_counted must
  sem_close-others id v p w some_left h e =
      let one_more : bigcount - suc p + 1 ≡ bigcount - p = omega arith in
      let (w2, r2, e2) =
        sys.semop_does w id op_close _ _ e (close_does v (bigcount - suc p) (omega arith)) in
      let (w3, r3, e3) = sys.getval_does w2 id _ e2 in
      let (u, r4, e4) =
        sys.semop_does w3 id op_unlock _ _ e3 (unlock_does v (bigcount - suc p + 1)) in
      let below : ltb bigcount (bigcount - suc p + 1) ≡ false = ground arith in
      let differs : (bigcount - suc p + 1 == bigcount) ≡ false = ground arith in
      (u, simp (r2, r3, below, differs, r4), rw one_more at e4)

  -- If the system calls behave as documented, the key is neither 0 nor -1, `semget` makes a new set
  -- for it, and the initial value is at most 32767, then `sem_create` in at least one round returns
  -- the set with the initial value and one process, and a `sem_close` then removes the set.
  pub sem_close-sem_create :
      (rounds id n : ℕ) (key : ℤ) (w w1 : W)
      → bad_key key ≡ false
      → k.semget w key true ≡ (some id, w1)
      → table w1 id ≡ some new_values
      → n ≤ largest
      → (u : W) × (t : W) × (sem_create k (suc rounds) key (pos n) w ≡ (returned (some id), u))
        × (table u id ≡ some (open_values n 1))
        × (sem_close k id u ≡ (returned tt, t))
        × (table t id ≡ none)
  sem_close-sem_create rounds id n key w w1 good got e small =
      let (u, created, eu) = sem_create-new rounds id n key w w1 good got e small in
      let (t, closed, et) = sem_close-last id n u eu in (u, t, created, eu, closed, et)

  -- If the system calls behave as documented, the key is neither 0 nor -1, and `semget` finds the
  -- set, which at least one process and fewer than 10000 have open, then `sem_open` returns the set
  -- with one process more and the same value, and a `sem_close` then leaves the set with the value
  -- and the processes from before.
  pub sem_close-sem_open :
      (id v p : ℕ) (key : ℤ) (w w1 : W)
      → bad_key key ≡ false
      → k.semget w key false ≡ (some id, w1)
      → 1 ≤ p
      → p < bigcount
      → table w1 id ≡ some (open_values v p)
      → (u : W) × (t : W) × (sem_open k key w ≡ (returned (some id), u))
        × (table u id ≡ some (open_values v (suc p)))
        × (sem_close k id u ≡ (returned tt, t))
        × (table t id ≡ some (open_values v p))
  sem_close-sem_open id v p key w w1 good got some_left h e =
      let (u, opened, eu) = sem_open-joins id v p key w w1 good got h e in
      let (t, closed, et) = sem_close-others id v p u some_left h eu in
      (u, t, opened, eu, closed, et)

  value_up :
      (v c : ℕ)
      → v < largest
      → operate_all (op_op (pos 1)) (some (record { value = v; count = c; lock = 0 }))
        ≡ some (record { value = v + 1; count = c; lock = 0 })
  unfolding operate_all operate put_value
  value_up v c h =
      ap (λ o. operate_all [] (put_value (record { value = v; count = c; lock = 0 }) o))
        (change-add v h)

  value_down :
      (v c : ℕ)
      → operate_all (op_op (negsuc 0)) (some (record { value = v + 1; count = c; lock = 0 }))
        ≡ some (record { value = v; count = c; lock = 0 })
  unfolding operate_all operate put_value
  value_down v c =
      let plus : v + 1 ≡ suc v = omega arith in
      rw plus (
        ap (λ o. operate_all [] (put_value (record { value = suc v; count = c; lock = 0 }) o))
          (change-suc v))

  -- If the system calls behave as documented and the set exists with a value below 32767,
  -- `sem_signal` adds 1 to the value, and a `sem_wait` then does not block and brings the value
  -- back.
  sem_wait-sem_signal :
      (id v p : ℕ) (w : W)
      → v < largest
      → table w id ≡ some (open_values v p)
      → (u : W) × (t : W) × (sem_signal k id w ≡ (returned tt, u))
        × (table u id ≡ some (open_values (v + 1) p))
        × (sem_wait k id u ≡ (returned tt, t))
        × (table t id ≡ some (open_values v p))
  unfolding sem_signal sem_wait sem_op_call must
  sem_wait-sem_signal id v p w h e =
      let (u, up, eu) = sys.semop_does w id (op_op (pos 1)) _ _ e (value_up v (bigcount - p) h) in
      let (t, down, et) =
        sys.semop_does u id (op_op (negsuc 0)) _ _ eu (value_down v (bigcount - p)) in
      (u, t, simp up, eu, simp down, et)
