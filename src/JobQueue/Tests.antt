-- ===== src/JobQueue/Tests.antt =====
-- The theorems on the job queue at a queue with one job.
use learn_apue.Base.{ℕ, ◌≡◌, refl, some, [], ◌∷◌, arith, List}
use learn_apue.JobQueue.{Job, Queue, handle_job}
use learn_apue.JobQueue.Handling.{expected, remaining, handle_job-expected}
use learn_apue.JobQueue.Refinement.{QueueIs}

abbrev job_a : Job
job_a = record { j_id = 71; j_content = b'1' ∷ b'x' ∷ [] }

abbrev job_b : Job
job_b = record { j_id = 72; j_content = b'2' ∷ b'y' ∷ [] }

abbrev one_job : Queue
one_job = record {
  links = record { next = λ _. 0; prev = λ _. 0; head = 40; tail = 40 };
  jobs = λ _. job_a;
}

one_job-QueueIs : QueueIs one_job (40 ∷ []) (job_a ∷ [])
one_job-QueueIs = record {
  links = record {
    linked = (refl, refl, tt);
    first = refl;
    last = refl;
    nonnull = (ground arith, tt);
    distinct = (tt, tt);
  };
  jobs = refl;
}

handle_job-expected_example :
    (q' : Queue) × (xs' : List ℕ) × (handle_job 3 71 one_job ≡ some (expected 71 (job_a ∷ []), q'))
    × QueueIs q' xs' (remaining 71 (job_a ∷ []))
handle_job-expected_example =
    handle_job-expected 71 3 (40 ∷ []) (job_a ∷ []) one_job-QueueIs (omega arith)
