-- ===== src/Spooler/Jobno.antt =====
-- The job number that printer/printd.c writes is the one that it begins with the next time.
use learn_apue.Base.{
  ℕ, zero, suc, ◌^◌, ◌≤◌, ◌<◌, ◌≡◌, refl, ap, ◌∙◌, false, List, [], ◌∷◌, ◌++◌, arith, take, drop,
  length, All,
}
use mathlib.Core.List.{append-nil}
use learn_apue.Base.Int.{pos}
use learn_apue.Bytes.Decimal.{atol, print, is_digit, print-cons, length-print, atol-print_stop}
use learn_apue.Bytes.Text.{codes}
use learn_apue.Spooler.Files.{Daemon, print_int}
use learn_apue.Spooler.Printing.{update_jobno}
use learn_apue.Spooler.Restart.{int32_of, int32_of_small, job_buffer, first_jobno, init_request}

drop_all : (n : ℕ) (xs : List ℕ) → length xs ≤ n → drop n xs ≡ []
drop_all zero [] h = refl
drop_all zero (x ∷ xs) h = absurd (omega arith)
drop_all (suc n) [] h = refl
drop_all (suc n) (x ∷ xs) h = drop_all n xs (omega arith)

take_all : (n : ℕ) (xs : List ℕ) → length xs ≤ n → take n xs ≡ xs
take_all zero [] h = refl
take_all zero (x ∷ xs) h = absurd (omega arith)
take_all (suc n) [] h = refl
take_all (suc n) (x ∷ xs) h = ap (λ l. x ∷ l) (take_all n xs (omega arith))

abbrev NoDigits : List ℕ → Type 0
NoDigits = All (λ c. is_digit c ≡ false)

drop_cons :
    (n : ℕ) (xs ys : List ℕ)
    → NoDigits xs
    → n < length xs
    → (c : ℕ) × (rest : List ℕ) × (drop n (xs ++ ys) ≡ c ∷ rest) × (is_digit c ≡ false)
drop_cons n [] ys d h = absurd (omega arith)
drop_cons zero (x ∷ xs) ys (dx, ds) h = (x, xs ++ ys, refl, dx)
drop_cons (suc n) (x ∷ xs) ys (dx, ds) h = drop_cons n xs ys ds (omega arith)

jobno_path-NoDigits : NoDigits (codes "/var/spool/printer/jobno" ++ (0 ∷ []))
unfolding is_digit
jobno_path-NoDigits = ground arith

first_jobno-cons :
    (stack file : List ℕ) (x : ℕ) (s : List ℕ)
    → file ≡ x ∷ s
    → first_jobno stack file ≡ int32_of (atol (job_buffer stack file))
unfolding first_jobno
first_jobno-cons stack file x s e = rw e

first_jobno-print : (stack : List ℕ) (n : ℕ) → n < 2 ^ 31 → first_jobno stack (print n) ≡ pos n
unfolding job_buffer
first_jobno-print stack n h =
    let path = codes "/var/spool/printer/jobno" ++ (0 ∷ []) in
    let short : length (print n) ≤ 10 = length-print 9 n (omega arith) in
    let all : take 64 (print n) ≡ print n = take_all 64 (print n) (omega arith) in
    let (c, rest, e, stop) =
      drop_cons (length (print n)) path (drop (length path) stack) jobno_path-NoDigits
        (omega arith) in
    let (x, s, is) = print-cons n in
    first_jobno-cons stack (print n) x s is
    ∙ rw (all, e, atol-print_stop n c rest stop, int32_of_small n h)

-- If the next job number is not negative and fits an `int32_t`, and the job file is not longer
-- than its digits, then after `update_jobno` a daemon with the same job file begins with this job
-- number.
pub init_request-update_jobno :
    (stack : List ℕ) (d e : Daemon) (n : ℕ)
    → d.pending.nextjob ≡ pos n
    → n < 2 ^ 31
    → length d.job_file ≤ length (print n)
    → e.job_file ≡ (update_jobno d).job_file
    → (init_request stack e).pending.nextjob ≡ pos n
unfolding init_request update_jobno print_int
init_request-update_jobno stack d e n is small short same =
    rw (same, is, drop_all (length (print n)) d.job_file short, append-nil (print n))
      (first_jobno-print stack n small)
