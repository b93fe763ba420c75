-- ===== src/ThreadQueue/Signals.antt =====
-- Which thread a job of threads/queue.c is for, and what that thread does with it.
use learn_apue.Base.{
  ℕ, ◌+◌, ◌<◌, ◌≡◌, ◌≢◌, refl, true, Option, none, some, List, [], ◌∷◌, ◌++◌, arith, length,
  length-append, ◌==◌, Bool-cases, Option-cases, inl, inr,
}
use learn_apue.Base.Int.{pos}
use learn_apue.JobQueue.{Job, job_append, done}
use learn_apue.JobQueue.Refinement.{QueueIs, take_job, job_insert-job_append-QueueIs}
use learn_apue.JobQueue.Handling.{expected, expected_of, remaining, left_of, handle_job-expected}
use learn_apue.Links.Segments.{Away}
use learn_apue.ThreadQueue.{
  ThreadQueue, thread_index, Sent, send_to, append_job, turns, turn_of, round_of, handle_round,
}

some_is_not_none : (p : Job × List Job) → ◌≡◌ {A = Option (Job × List Job)} (some p) none → ⊥
some_is_not_none p e = cc

-- A job behind others is the first for its thread if they have none.
take_job-append :
    (id : ℕ) (j : Job) (js : List Job)
    → take_job id js ≡ none
    → j.j_id ≡ id
    → take_job id (js ++ (j ∷ [])) ≡ some (j, js)
unfolding take_job
take_job-append id j [] h e = let same : (j.j_id == id) ≡ true = ground arith in rw same refl
take_job-append id j (k ∷ js) h e = elim (Bool-cases (k.j_id == id)) [
  | inl hit ↦ absurd (some_is_not_none (k, js) (rw hit at h))
  | inr miss ↦ elim (Option-cases (take_job id js)) [
    | inl no_job ↦ rw (miss, take_job-append id j js no_job e) refl
    | inr (found, is) ↦ absurd (some_is_not_none (found.0, k ∷ found.1) (rw (miss, is) at h))
  ]
]

-- What a round does if some job is the thread's.
expected-taken :
    (id : ℕ) (l : List Job) (j : Job) (rest : List Job)
    → take_job id l ≡ some (j, rest)
    → (expected id l ≡ done j) × (remaining id l ≡ rest)
unfolding expected expected_of remaining left_of take_job
expected-taken id [] j rest h = absurd cc
expected-taken id (k ∷ l) j rest h = (rw h refl, rw h refl)

-- The queue after a job was appended, and after its thread has turned to it.
abbrev pub Reaches : ℕ → ℕ → Job → ThreadQueue → List ℕ → List Job → Sent → Type 0
Reaches rounds i jp t xs js sent =
    (sent.ret ≡ pos 0)
    × (sent.signals ≡ some i)
    × (sent.after.leaked ≡ t.leaked)
    × ((t' : ThreadQueue) × (xs' : List ℕ) × (handle_round rounds jp.j_id sent.after
          ≡ some (turns i (done jp) t'))
        × QueueIs t'.queue xs' js)

-- If the queue holds some jobs, fewer than the rounds less one, `malloc` returns a new address,
-- the job's thread is one of the queue's and no job there is for it, then `job_append` returns 0,
-- leaks nothing and signals the condition on which that thread waits; its next round of
-- `handle_job` is done with just that job, and the queue then holds the jobs from before in their
-- order.
pub handle_round-append_job :
    (rounds a i : ℕ) (jp : Job) (t : ThreadQueue) (xs : List ℕ) (js : List Job)
    → QueueIs t.queue xs js
    → a ≢ 0
    → Away a xs
    → thread_index jp.j_id t.q_thread ≡ some i
    → take_job jp.j_id js ≡ none
    → length xs + 1 < rounds
    → Reaches rounds i jp t xs js (append_job (some a) jp t)
unfolding append_job send_to handle_round round_of turn_of expected remaining
handle_round-append_job rounds a i jp t xs js v nz away is none_yet enough =
    let put = job_insert-job_append-QueueIs a jp xs js v nz away in
    let q = (job_append (some a) jp t.queue).1 in
    let (q', xs', run, v') =
      handle_job-expected jp.j_id rounds (xs ++ (a ∷ [])) (js ++ (jp ∷ [])) put.3
        (omega (arith, length-append xs (a ∷ []))) in
    let taken = take_job-append jp.j_id jp js none_yet refl in
    let turn = expected-taken jp.j_id (js ++ (jp ∷ [])) jp js taken in
    rw is (
      put.2,
      refl,
      refl,
      (record t { queue = q' }, xs', rw (is, run, turn.0) refl, rw turn.1 at v'),
    )
