-- ===== src/JobQueue/Handling.antt =====
-- A thread of threads/rwlock.c takes the first job that is its own.
use learn_apue.Base.{
  ℕ, zero, suc, ◌<◌, ◌≡◌, ◌≢◌, ◌⊎◌, refl, ap, ◌∙◌, false, Option, none, some, List, [], ◌∷◌, ◌++◌,
  arith, length, ◌==◌, Bool-cases, inl, inr,
}
use learn_apue.JobQueue.Refinement.{QueueIs, take_job}
use learn_apue.JobQueue.{
  Job, Queue, job_remove, job_find, find_from, Handled, waits, not_found, done, handle_found,
  handle_search, handle_job,
}
use learn_apue.Links.Removal.{Represents-unlink_end}
use learn_apue.Links.Payload.{contents}
use learn_apue.Links.Segments.{front, back, Seg, Away, All-back}

-- No job of the nodes is the thread's, and the search comes to the end.
abbrev pub Missing : Queue → ℕ → ℕ → List ℕ → ℕ → Type 0
Missing q id rounds xs b =
    (find_from rounds id (front xs b) q ≡ some 0) × (take_job id (contents q.jobs xs) ≡ none)

-- The first job that is the thread's stands at `x`.
pub record Located (q : Queue) (id rounds : ℕ) (xs : List ℕ) : Type 0 where
  pub pre : List ℕ
  pub x : ℕ
  pub post : List ℕ
  pub is : xs ≡ pre ++ (x ∷ post)
  pub nonnull : x ≢ 0
  pub found : find_from rounds id (front xs 0) q ≡ some x
  pub taken : take_job id (contents q.jobs xs) ≡ some (q.jobs x, contents q.jobs (pre ++ post))

search_nodes :
    (q : Queue) (id rounds a : ℕ) (xs : List ℕ)
    → Seg q.links.next q.links.prev a xs 0
    → Away 0 xs
    → length xs < rounds
    → Missing q id rounds xs 0 ⊎ Located q id rounds xs
unfolding find_from take_job
search_nodes q id zero a xs s nz enough = absurd (omega arith)
search_nodes q id (suc n) a [] s nz enough = inl (refl, refl)
search_nodes q id (suc n) a (x ∷ xs) (before, after, s) (ne, nz) enough =
    let e : (x == 0) ≡ false = ground arith in
    elim (Bool-cases ((q.jobs x).j_id == id)) [
      | inl hit ↦ inr (record {
        pre = [];
        x = x;
        post = xs;
        is = refl;
        nonnull = ne;
        found = rw (e, hit);
        taken = rw hit;
      })
      | inr miss ↦ elim (search_nodes q id n x xs s nz (omega arith)) [
        | inl (end', none') ↦ inl (rw (e, miss, after) end', rw (miss, none'))
        | inr l ↦ inr (record {
          pre = x ∷ l.pre;
          x = l.x;
          post = l.post;
          is = ap (λ t. x ∷ t) l.is;
          nonnull = l.nonnull;
          found = rw (e, miss, after) l.found;
          taken = rw (miss, l.taken);
        })
      ]
    ]

-- What a round of `handle_job` does with a list of jobs, and what it leaves of it.
unfoldable pub expected_of : Option (Job × List Job) → Handled
expected_of none = not_found
expected_of (some (k, ks)) = done k

unfoldable pub expected : ℕ → List Job → Handled
expected self [] = waits
expected self (j ∷ js) = expected_of (take_job self (j ∷ js))

unfoldable pub left_of : List Job → Option (Job × List Job) → List Job
left_of js none = js
left_of js (some (k, ks)) = ks

unfoldable pub remaining : ℕ → List Job → List Job
remaining self js = left_of js (take_job self js)

handle_found-nonnull :
    (a : ℕ) (q : Queue) → a ≢ 0 → handle_found a q ≡ (done (q.jobs a), job_remove a q)
unfolding handle_found
handle_found-nonnull zero q ne = absurd (ne refl)
handle_found-nonnull (suc a) q ne = refl

module _ {q : Queue} (self rounds x : ℕ) (xs : List ℕ) (js : List Job)
    (v : QueueIs q (x ∷ xs) js) where
  -- The result of a round of `handle_job`.
  abbrev Handles : Type 0
  Handles =
      (q' : Queue) × (xs' : List ℕ) × (handle_job rounds self q ≡ some (expected self js, q'))
      × QueueIs q' xs' (remaining self js)

  searches : handle_job rounds self q ≡ handle_search q (find_from rounds self x q)
  unfolding handle_job job_find
  searches =
      let (ne, nz) = v.links.nonnull in
      let e : (x == 0) ≡ false = ground arith in
      let e' : (back x xs == 0) ≡ false = ground (arith, All-back (λ a. a ≢ 0) x xs (ne, nz)) in
      rw (v.links.first, v.links.last, e, e')

  handle-missing : Missing q self rounds (x ∷ xs) 0 → Handles
  unfolding handle_search handle_found expected expected_of remaining left_of
  handle-missing (miss, none') = (
    q,
    x ∷ xs,
    searches ∙ rw (← v.jobs, miss, none'),
    rw (← v.jobs, none') (record { links = v.links; jobs = refl }),
  )

  handle-located : Located q self rounds (x ∷ xs) → Handles
  unfolding handle_search expected expected_of remaining left_of job_remove
  handle-located l =
      let links = rw l.is at v.links in
      (
        job_remove l.x q,
        l.pre ++ l.post,
        searches ∙ rw (← v.jobs, l.found, handle_found-nonnull l.x q l.nonnull, l.taken),
        rw (← v.jobs, l.taken)
            (record { links = Represents-unlink_end l.x l.pre l.post links; jobs = refl }),
      )

-- If a queue holds some jobs, fewer than the rounds, a round of `handle_job` waits if there are
-- none, finds none if none is the thread's, and else is done with the first that is; the queue
-- then holds the other jobs in their order.
pub handle_job-expected :
    {q : Queue} (self rounds : ℕ) (xs : List ℕ) (js : List Job)
    → QueueIs q xs js
    → length xs < rounds
    → (q' : Queue) × (xs' : List ℕ) × (handle_job rounds self q ≡ some (expected self js, q'))
      × QueueIs q' xs' (remaining self js)
unfolding handle_job expected remaining take_job left_of
handle_job-expected {q} self rounds [] js v enough = (
  q,
  [],
  rw (← v.jobs, v.links.first, v.links.last),
  rw (← v.jobs) (record { links = v.links; jobs = refl }),
)
handle_job-expected {q} self rounds (x ∷ xs) js v enough =
    elim (search_nodes q self rounds 0 (x ∷ xs) v.links.linked v.links.nonnull enough) [
      | inl miss ↦ handle-missing self rounds x xs js v miss
      | inr l ↦ handle-located self rounds x xs js v l
    ]
