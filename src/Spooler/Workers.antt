-- ===== src/Spooler/Workers.antt =====
-- The list of worker threads of printer/printd.c. An operation holds `workerlock`.
use learn_apue.Base.{ℕ, zero, suc, Option, none, some, List, [], ◌∷◌, ◌==◌, if◌then◌else◌}
use learn_apue.Links.Payload.{put_at}
use learn_apue.Links.Segments.{Field, upd}

-- `struct worker_thread` without its links.
pub record Worker : Type 0 where
  pub tid : ℕ
  pub sockfd : ℕ

-- `workers` and the threads that it leads to.
pub record Workers : Type 0 where
  pub next : Field
  pub prev : Field
  pub workers : ℕ
  pub threads : ℕ → Worker

-- `add_worker` with the address from `malloc`.
unfoldable pub add_worker : ℕ → ℕ → ℕ → Workers → Workers
add_worker wtp tid sockfd w =
    let w1 = record w { threads = put_at wtp (record { tid = tid; sockfd = sockfd }) w.threads } in
    let w2 = record w1 { prev = upd w1.prev wtp 0 } in
    let w3 = record w2 { next = upd w2.next wtp w2.workers } in
    if w3.workers == 0
    then record w3 { workers = wtp }
    else record w3 { prev = upd w3.prev w3.workers wtp }

unfoldable pub also : ℕ → Option (List ℕ) → Option (List ℕ)
also tid none = none
also tid (some l) = some (tid ∷ l)

-- The loop of `kill_workers`: the threads that are cancelled; none if the rounds are used up.
unfoldable pub kill_from : ℕ → ℕ → Workers → Option (List ℕ)
kill_from zero wtp w = none
kill_from (suc n) wtp w =
    let rest = also (w.threads wtp).tid (kill_from n (w.next wtp) w) in
    if wtp == 0 then some [] else rest

-- `kill_workers`
unfoldable pub kill_workers : ℕ → Workers → Option (List ℕ)
kill_workers rounds w = kill_from rounds w.workers w

-- The thread is taken out of the list.
unfoldable pub unlink_worker : ℕ → Workers → Workers
unlink_worker wtp w =
    let w1 =
      if w.next wtp == 0 then w else record w { prev = upd w.prev (w.next wtp) (w.prev wtp) } in
    if w1.prev wtp == 0
    then record w1 { workers = w1.next wtp }
    else record w1 { next = upd w1.next (w1.prev wtp) (w1.next wtp) }

-- The loop of `client_cleanup`: the socket that is closed, if the thread is found.
unfoldable pub cleanup_from : ℕ → ℕ → ℕ → Workers → Option (Option ℕ × Workers)
cleanup_from zero tid wtp w = none
cleanup_from (suc n) tid wtp w =
    let rest = cleanup_from n tid (w.next wtp) w in
    let thread = w.threads wtp in
    if wtp == 0
    then some (none, w)
    else if thread.tid == tid
    then some (some thread.sockfd, unlink_worker wtp w)
    else rest

-- `client_cleanup`
unfoldable pub client_cleanup : ℕ → ℕ → Workers → Option (Option ℕ × Workers)
client_cleanup rounds tid w = cleanup_from rounds tid w.workers w
