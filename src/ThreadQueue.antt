-- ===== src/ThreadQueue.antt =====
-- The job queue of threads/queue.c, which knows its threads: each waits on a condition of its own.
pub mod Signals
mod Tests
use learn_apue.Base.{
  ℕ, zero, suc, ◌-◌, Bool, true, false, ◌&&◌, Option, none, some, List, [], ◌∷◌, get_elem?, leb,
  ◌==◌, if◌then◌else◌,
}
use learn_apue.Base.Int.{ℤ, pos, negsuc}
use learn_apue.JobQueue.{Job, Queue, job_insert, job_append, Handled, handle_job}

-- `struct queue` with the identifiers of its threads, and the copies of jobs that nothing leads to. Each
-- operation on the list holds the write lock; the mutexes and conditions have no field.
pub record ThreadQueue : Type 0 where
  pub queue : Queue
  pub q_thread : List ℕ
  pub leaked : List ℕ

unfoldable pub next_error : ℕ → ℕ → ℕ
next_error zero later = later
next_error (suc e) later = suc e

-- The loop of `init_queue`, from the return values of `pthread_mutex_init` and `pthread_cond_init`.
unfoldable pub init_threads : List (ℕ × ℕ) → ℕ
init_threads [] = 0
init_threads ((mutex, cond) ∷ l) = next_error mutex (next_error cond (init_threads l))

-- `queue_init`, where the first call returns `rwlock`.
unfoldable pub init_queue : ℕ → List (ℕ × ℕ) → ThreadQueue → ℕ × ThreadQueue
init_queue rwlock inits t =
    let links = record t.queue.links { head = 0; tail = 0 } in
    (next_error rwlock (init_threads inits), record t { queue = record t.queue { links = links } })

unfoldable pub one_further : Option ℕ → Option ℕ
one_further none = none
one_further (some i) = some (suc i)

-- The search for a thread: its index, none for NTHREAD.
unfoldable pub thread_index : ℕ → List ℕ → Option ℕ
thread_index id [] = none
thread_index id (self ∷ threads) =
    let rest = one_further (thread_index id threads) in if self == id then some 0 else rest

-- What `job_insert` and `job_append` return, and the condition that they signal.
pub record Sent : Type 0 where
  pub ret : ℤ
  pub signals : Option ℕ
  pub after : ThreadQueue

unfoldable pub send_to : Option ℕ → ℕ → ℤ × Queue → ThreadQueue → Sent
send_to none job_ptr put t = record {
  ret = negsuc 0;
  signals = none;
  after = record t { leaked = job_ptr ∷ t.leaked };
}
send_to (some i) job_ptr put t = record {
  ret = put.0;
  signals = some i;
  after = record t { queue = put.1 };
}

-- `job_insert` and `job_append`. The first argument is what `malloc` returns, none for NULL.
unfoldable pub insert_job : Option ℕ → Job → ThreadQueue → Sent
insert_job none jp t = record { ret = negsuc 0; signals = none; after = t }
insert_job (some job_ptr) jp t =
    send_to (thread_index jp.j_id t.q_thread) job_ptr (job_insert (some job_ptr) jp t.queue) t

unfoldable pub append_job : Option ℕ → Job → ThreadQueue → Sent
append_job none jp t = record { ret = negsuc 0; signals = none; after = t }
append_job (some job_ptr) jp t =
    send_to (thread_index jp.j_id t.q_thread) job_ptr (job_append (some job_ptr) jp t.queue) t

-- What a thread does in a round of `handle_job`, and the condition that it waits on then, if it waits.
pub data ThreadRound : Type 0 where
  returns : ThreadRound
  turns : ℕ → Handled → ThreadQueue → ThreadRound

unfoldable pub turn_of : ℕ → ThreadQueue → Option (Handled × Queue) → Option ThreadRound
turn_of i t none = none
turn_of i t (some (handled, q)) = some (turns i handled (record t { queue = q }))

unfoldable pub round_of : Option ℕ → Option (Handled × Queue) → ThreadQueue → Option ThreadRound
round_of none round t = some returns
round_of (some i) round t = turn_of i t round

-- A round of `handle_job` for the thread, which returns if it is none of the queue's; none if the rounds
-- of the search are used up.
unfoldable pub handle_round : ℕ → ℕ → ThreadQueue → Option ThreadRound
handle_round rounds self t =
    round_of (thread_index self t.q_thread) (handle_job rounds self t.queue) t

unfoldable pub job_for : List ℕ → Option ℕ → Option Job
job_for line none = none
job_for line (some id) = some (record { j_id = id; j_content = line })

-- The job that `main` makes of a line, none if the line does not begin with the digit of a thread.
unfoldable pub line_job : ThreadQueue → List ℕ → Option Job
line_job t [] = none
line_job t (c ∷ line) =
    if leb 49 c && leb c 51 then job_for (c ∷ line) (get_elem? t.q_thread (c - 48 - 1)) else none
