-- ===== src/ThreadQueue/Tests.antt =====
-- A job for the second of three threads.
use learn_apue.Base.{refl, some, [], ◌∷◌, arith}
use learn_apue.JobQueue.{Job}
use learn_apue.JobQueue.Refinement.{QueueIs, take_job}
use learn_apue.ThreadQueue.Signals.{Reaches, handle_round-append_job}
use learn_apue.ThreadQueue.{ThreadQueue, thread_index, one_further, append_job}

abbrev job_1 : Job
job_1 = record { j_id = 71; j_content = b'1' ∷ [] }

abbrev job_2 : Job
job_2 = record { j_id = 72; j_content = b'2' ∷ [] }

abbrev three_threads : ThreadQueue
three_threads = record {
  queue = record {
    links = record { next = λ _. 0; prev = λ _. 0; head = 40; tail = 40 };
    jobs = λ _. job_1;
  };
  q_thread = 71 ∷ 72 ∷ 73 ∷ [];
  leaked = [];
}

three_threads-QueueIs : QueueIs three_threads.queue (40 ∷ []) (job_1 ∷ [])
three_threads-QueueIs = record {
  links = record {
    linked = (refl, refl, tt);
    first = refl;
    last = refl;
    nonnull = (ground arith, tt);
    distinct = (tt, tt);
  };
  jobs = refl;
}

handle_round-append_job_example :
    Reaches 3 1 job_2 three_threads
      (40 ∷ [])
      (job_1 ∷ [])
      (append_job (some 56) job_2 three_threads)
unfolding thread_index one_further take_job
handle_round-append_job_example =
    handle_round-append_job 3 56 1 job_2 three_threads (40 ∷ []) (job_1 ∷ []) three_threads-QueueIs
      (ground arith) (ground arith, tt) refl refl (omega arith)
