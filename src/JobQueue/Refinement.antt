-- ===== src/JobQueue/Refinement.antt =====
-- The queue of threads/rwlock.c is a list of jobs.
use learn_apue.Base.{
  ℕ, ◌≡◌, ◌≢◌, refl, ◌∙◌, Option, none, some, List, [], ◌∷◌, ◌++◌, ◌==◌, if◌then◌else◌,
}
use learn_apue.Base.Int.{pos, negsuc}
use learn_apue.JobQueue.{Job, Queue, job_insert, job_append}
use learn_apue.Links.Ends.{Represents, Represents-insert_head, Represents-append_tail}
use learn_apue.Links.Payload.{put_at, contents, contents-put_at, contents-append, put_at_self}
use learn_apue.Links.Segments.{Away}

-- The queue holds the jobs, in this order, at the addresses.
pub record QueueIs (q : Queue) (xs : List ℕ) (js : List Job) : Type 0 where
  pub links : Represents q.links xs
  pub jobs : contents q.jobs xs ≡ js

-- With a new address from `malloc`, `job_insert` puts the job in front of the queue's jobs and
-- `job_append` puts it behind them, and both return 0; without one they return -1 and change
-- nothing.
pub job_insert-job_append-QueueIs :
    {q : Queue} (a : ℕ) (j : Job) (xs : List ℕ) (js : List Job)
    → QueueIs q xs js
    → a ≢ 0
    → Away a xs
    → ((job_insert (some a) j q).0 ≡ pos 0)
      × QueueIs (job_insert (some a) j q).1 (a ∷ xs) (j ∷ js)
      × ((job_append (some a) j q).0 ≡ pos 0)
      × QueueIs (job_append (some a) j q).1 (xs ++ (a ∷ [])) (js ++ (j ∷ []))
      × (job_insert none j q ≡ (negsuc 0, q))
      × (job_append none j q ≡ (negsuc 0, q))
unfolding job_insert job_append
job_insert-job_append-QueueIs {q} a j xs js v nz away =
    let same = contents-put_at a j q.jobs xs away ∙ v.jobs in
    (
      refl,
      record {
        links = Represents-insert_head a xs v.links nz away;
        jobs = rw (put_at_self a j q.jobs, same);
      },
      refl,
      record {
        links = Represents-append_tail a xs v.links nz away;
        jobs = rw (contents-append (put_at a j q.jobs) xs (a ∷ []), put_at_self a j q.jobs, same);
      },
      refl,
      refl,
    )

-- The first job for a thread, and the list without it.
unfoldable pub take_job : ℕ → List Job → Option (Job × List Job)
take_job id [] = none
take_job id (j ∷ js) =
    let rest : Option (Job × List Job) = elim (take_job id js) [
      | none ↦ none
      | some (k, ks) ↦ some (k, j ∷ ks)
    ] in
    if j.j_id == id then some (j, js) else rest
