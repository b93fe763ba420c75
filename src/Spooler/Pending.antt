-- ===== src/Spooler/Pending.antt =====
-- The pending jobs of printer/printd.c are a queue to which a job can be given back.
use learn_apue.Base.{
  ℕ, zero, suc, ◌≤◌, ◌≡◌, ◌≢◌, refl, ap, ◌∙◌, false, none, some, List, [], ◌∷◌, ◌++◌, arith, ◌==◌,
  Bool-cases, inl, inr,
}
use learn_apue.Base.Int.{ℤ, pos, pos_part}
use learn_apue.Links.Ends.{Represents, Represents-insert_head, Represents-append_tail}
use learn_apue.Links.Payload.{put_at, contents, contents-put_at, contents-append, put_at_self}
use learn_apue.Links.Removal.{Represents-unlink_node}
use learn_apue.Links.Segments.{Away}
use learn_apue.Spooler.Jobs.{
  PrintReq, PrintJob, Pending, incr_int32, at_least_one, get_newjobno, add_job, replace_job,
  remove_job, pick_job,
}

-- The jobs are pending, in this order, at the addresses.
pub record PendingAre (s : Pending) (xs : List ℕ) (js : List PrintJob) : Type 0 where
  pub links : Represents s.links xs
  pub jobs : contents s.jobs xs ≡ js

-- With a new address from `malloc`, `add_job` puts the request behind the pending jobs.
pub add_job-PendingAre :
    {s : Pending} (a : ℕ) (r : PrintReq) (n : ℤ) (xs : List ℕ) (js : List PrintJob)
    → PendingAre s xs js
    → a ≢ 0
    → Away a xs
    → (t : Pending) × (add_job (some a) r n s ≡ some t)
      × PendingAre t (xs ++ (a ∷ [])) (js ++ (record { jobid = n; req = r } ∷ []))
unfolding add_job
add_job-PendingAre {s} a r n xs js v nz away =
    let j : PrintJob = record { jobid = n; req = r } in
    (
      record s { links = _; jobs = _ },
      refl,
      record {
        links = Represents-append_tail a xs v.links nz away;
        jobs = rw (
          contents-append (put_at a j s.jobs) xs (a ∷ []),
          put_at_self a j s.jobs,
          contents-put_at a j s.jobs xs away ∙ v.jobs,
        );
      },
    )

-- If some job is pending, the printer thread takes the first; the others stay pending in their
-- order, and if it gives the job back with `replace_job`, all jobs are pending in the order from
-- before.
pub replace_job-pick_job :
    {s : Pending} (j : PrintJob) (js : List PrintJob) (x : ℕ) (xs : List ℕ)
    → PendingAre s (x ∷ xs) (j ∷ js)
    → (t : Pending) × (pick_job s ≡ some (x, t))
      × (t.jobs x ≡ j)
      × PendingAre t xs js
      × PendingAre (replace_job x t) (x ∷ xs) (j ∷ js)
      × (t.nextjob ≡ s.nextjob)
unfolding pick_job remove_job replace_job
replace_job-pick_job {s} j js x xs v =
    let (ne, nz) = v.links.nonnull in
    let (away, d) = v.links.distinct in
    let e : (x == 0) ≡ false = ground arith in
    let links = Represents-unlink_node x [] xs v.links in
    (
      remove_job x s,
      rw (v.links.first, e),
      (let all = v.jobs in cc),
      record { links = links; jobs = (let all = v.jobs in cc) },
      record { links = Represents-insert_head x xs links ne away; jobs = v.jobs },
      refl,
    )

pick_job-none : {s : Pending} → PendingAre s [] [] → pick_job s ≡ none
unfolding pick_job
pick_job-none v = rw v.links.first

pos_ne : (a b : ℕ) → a ≢ b → pos a ≢ pos b
pos_ne a b ne e = ne (ap pos_part e)

-- A job number that is positive and fits an `int32_t`.
abbrev pub InRange : ℤ → Type 0
InRange n = (k : ℕ) × (n ≡ pos k) × (1 ≤ k) × (k ≤ 2147483647)

-- If the next job number is positive and fits an `int32_t`, so is the number that `get_newjobno`
-- returns, and the next one after it, which is another.
get_newjobno-InRange :
    (s : Pending)
    → InRange s.nextjob
    → InRange (get_newjobno s).0
      × InRange (get_newjobno s).1.nextjob
      × ((get_newjobno s).1.nextjob ≢ (get_newjobno s).0)
unfolding get_newjobno incr_int32 at_least_one
get_newjobno-InRange s (zero, e, lo, hi) = absurd (omega arith)
get_newjobno-InRange s (suc k, e, lo, hi) = elim (Bool-cases (suc k == 2147483647)) [
  | inl top ↦
      let large : 1 ≢ suc k = ground arith in
      rw (e, top)
        ((suc k, refl, lo, hi), (1, refl, omega arith, omega arith), pos_ne 1 (suc k) large)
  | inr below ↦
      let next : suc (suc k) ≤ 2147483647 = ground arith in
      rw (e, below)
        (
          (suc k, refl, lo, hi),
          (suc (suc k), refl, omega arith, next),
          pos_ne (suc (suc k)) (suc k) (ground arith),
        )
]
