-- ===== src/JobQueue.antt =====
-- The job queue of threads/rwlock.c: jobs for three threads in a doubly linked list.
pub mod Refinement
pub mod Handling
mod Tests
use learn_apue.Base.{
  ℕ, zero, suc, ◌-◌, Bool, true, false, ◌&&◌, ◌||◌, Option, none, some, List, [], ◌∷◌, leb, ◌==◌,
  if◌then◌else◌,
}
use learn_apue.Base.Int.{ℤ, pos, negsuc}
use learn_apue.Links.Payload.{put_at}
use learn_apue.Links.Ends.{Ends, insert_head, append_tail, unlink_end}

-- `struct job` without its links.
pub record Job : Type 0 where
  pub j_id : ℕ
  pub j_content : List ℕ

-- `struct queue` with the jobs that it leads to. The locks are left out: each operation holds the
-- write lock from its first change to its last.
pub record Queue : Type 0 where
  pub links : Ends
  pub jobs : ℕ → Job

-- `queue_init`, from the return values of the three calls that make the locks; the first that is
-- not 0 is returned.
unfoldable pub queue_init : ℕ → ℕ → ℕ → Queue → ℕ × Queue
queue_init rwlock mutex cond qp =
    let q = record qp { links = record qp.links { head = 0; tail = 0 } } in
    let err = if rwlock == 0 then (if mutex == 0 then cond else mutex) else rwlock in (err, q)

-- `job_insert` and `job_append`. The first argument is what `malloc` returns, none for NULL.
unfoldable pub job_insert : Option ℕ → Job → Queue → ℤ × Queue
job_insert none jp qp = (negsuc 0, qp)
job_insert (some job_ptr) jp qp =
    (pos 0, record { links = insert_head job_ptr qp.links; jobs = put_at job_ptr jp qp.jobs })

unfoldable pub job_append : Option ℕ → Job → Queue → ℤ × Queue
job_append none jp qp = (negsuc 0, qp)
job_append (some job_ptr) jp qp =
    (pos 0, record { links = append_tail job_ptr qp.links; jobs = put_at job_ptr jp qp.jobs })

-- `job_remove`
unfoldable pub job_remove : ℕ → Queue → Queue
job_remove jp qp = record qp { links = unlink_end jp qp.links }

-- The loop of `job_find`: the address of the job, 0 for NULL; none if the rounds are used up.
unfoldable pub find_from : ℕ → ℕ → ℕ → Queue → Option ℕ
find_from zero id jp qp = none
find_from (suc n) id jp qp =
    let rest = find_from n id (qp.links.next jp) qp in
    if (jp == 0) || ((qp.jobs jp).j_id == id) then some jp else rest

-- `job_find`
unfoldable pub job_find : ℕ → ℕ → Queue → Option ℕ
job_find rounds id qp = find_from rounds id qp.links.head qp

-- What one round of `handle_job` does.
pub data Handled : Type 0 where
  waits : Handled
  not_found : Handled
  done : Job → Handled

unfoldable pub handle_found : ℕ → Queue → Handled × Queue
handle_found zero qp = (not_found, qp)
handle_found (suc a) qp = (done (qp.jobs (suc a)), job_remove (suc a) qp)

unfoldable pub handle_search : Queue → Option ℕ → Option (Handled × Queue)
handle_search qp none = none
handle_search qp (some a) = some (handle_found a qp)

-- A round of `handle_job` for the thread: it waits if the queue is empty, else it takes the first
-- job that is its own.
unfoldable pub handle_job : ℕ → ℕ → Queue → Option (Handled × Queue)
handle_job rounds self qp =
    if (qp.links.tail == 0) || (qp.links.head == 0)
    then some (waits, qp)
    else handle_search qp (job_find rounds self qp)

-- The job that `main` makes of a line, none if the line does not begin with the digit of a thread.
-- `threads` gives the identifier of each thread.
unfoldable pub job_of_line : (ℕ → ℕ) → List ℕ → Option Job
job_of_line threads [] = none
job_of_line threads (c ∷ line) =
    if leb 49 c && leb c 51
    then some (record { j_id = threads (c - 48 - 1); j_content = c ∷ line })
    else none
