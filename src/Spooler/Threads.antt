-- ===== src/Spooler/Threads.antt =====
-- A client thread of printer/printd.c that is alone in the list of workers.
use learn_apue.Base.{
  ℕ, suc, ◌≡◌, ◌≢◌, refl, ap, ◌∙◌, false, Option, none, some, List, arith, Bool-cases, inl, inr,
  ◌==◌, ==_refl,
}
use learn_apue.Base.Int.{ℤ}
use learn_apue.Links.Payload.{put_at, put_at_self}
use learn_apue.Links.Segments.{upd, upd_self}
use learn_apue.Spooler.Accept.{
  ClientIo, RequestRead, got, ended, broken, Reply, enqueue, write_request, create_request,
  close_data, create_data, answer_request, serve_client, cleaned, clean_up, client_thread,
}
use learn_apue.Spooler.Files.{Daemon, is_whole}
use learn_apue.Spooler.Jobs.{PrintReq, Pending, get_newjobno}
use learn_apue.Spooler.Workers.{
  Worker, Workers, add_worker, unlink_worker, cleanup_from, client_cleanup,
}

-- The list of workers is the same.
abbrev SameWorkers : Workers → Option (Reply × Daemon) → Type 0
SameWorkers w none = Unit
SameWorkers w (some (reply, t)) = t.workers ≡ w

SameWorkers-enqueue :
    (n : ℤ) (d : Daemon) (p : Option Pending) → SameWorkers d.workers (enqueue n d p)
unfolding enqueue
SameWorkers-enqueue n d none = tt
SameWorkers-enqueue n d (some p) = refl

SameWorkers-create_request :
    (c : Option ℕ) (io : ClientIo) (r : PrintReq) (n : ℤ) (d : Daemon)
    → SameWorkers d.workers (create_request c io r n d)
unfolding create_request write_request
SameWorkers-create_request (some e) io r n d = refl
SameWorkers-create_request none io r n d = elim (Bool-cases (is_whole io.write_req 328)) [
  | inl e ↦ rw e (SameWorkers-enqueue n _ _)
  | inr e ↦ rw e refl
]

SameWorkers-close_data :
    (w : Option ℕ × (List ℕ → Option (List ℕ))) (io : ClientIo) (r : PrintReq) (n : ℤ) (d : Daemon)
    → SameWorkers d.workers (close_data w io r n d)
unfolding close_data
SameWorkers-close_data (some e, f) io r n d = refl
SameWorkers-close_data (none, f) io r n d = SameWorkers-create_request io.creat_req io _ n _

SameWorkers-create_data :
    (c : Option ℕ) (io : ClientIo) (r : PrintReq) (n : ℤ) (d : Daemon)
    → SameWorkers d.workers (create_data c io r n d)
unfolding create_data
SameWorkers-create_data (some e) io r n d = refl
SameWorkers-create_data none io r n d = SameWorkers-close_data _ io r n d

SameWorkers-answer_request :
    (q : RequestRead) (io : ClientIo) (d : Daemon) → SameWorkers d.workers (answer_request q io d)
unfolding answer_request
SameWorkers-answer_request ended io d = refl
SameWorkers-answer_request (broken e) io d = refl
SameWorkers-answer_request (got r) io d =
    SameWorkers-create_data io.creat_data io r (get_newjobno d.pending).0
      (record d { pending = (get_newjobno d.pending).1 })

cleanup_alone :
    (rounds wtp tid sockfd : ℕ) (w : Workers)
    → w.workers ≡ 0
    → wtp ≢ 0
    → (u : Workers) × (client_cleanup (suc rounds) tid (add_worker wtp tid sockfd w)
        ≡ some (some sockfd, u))
      × (u.workers ≡ 0)
unfolding client_cleanup cleanup_from add_worker unlink_worker
cleanup_alone rounds wtp tid sockfd w empty nz =
    let no_null : (wtp == 0) ≡ false = ground arith in
    let v : Worker = record { tid = tid; sockfd = sockfd } in
    let self : put_at wtp v w.threads wtp ≡ v = put_at_self wtp v w.threads in
    let w1 : Workers = record {
      next = upd w.next wtp 0;
      prev = upd w.prev wtp 0;
      workers = wtp;
      threads = put_at wtp v w.threads;
    } in
    (
      record w1 { workers = 0 },
      rw (empty, no_null, self, ==_refl tid, upd_self w.next wtp 0, upd_self w.prev wtp 0)
          (ap (λ x. some (some sockfd, record w1 { workers = x })) (upd_self w.next wtp 0)),
      refl,
    )

-- If no client thread is in the list of workers and the work between `add_worker` and the cleanup
-- ends with a reply, `client_thread` with a node of its own ends with this reply in at least one
-- round of the cleanup's loop, has closed its own socket, and leaves no client thread in the
-- list.
pub client_thread-alone :
    (rounds wtp tid sockfd : ℕ) (io : ClientIo) (d t : Daemon) (reply : Reply)
    → d.workers.workers ≡ 0
    → wtp ≢ 0
    → serve_client io (record d { workers = add_worker wtp tid sockfd d.workers }) ≡ some (reply, t)
    → (w : Workers) × (client_thread (suc rounds) wtp tid sockfd io d
        ≡ some (reply, some sockfd, record t { workers = w }))
      × (w.workers ≡ 0)
unfolding client_thread clean_up cleaned serve_client
client_thread-alone rounds wtp tid sockfd io d t reply empty nz e =
    let w0 = add_worker wtp tid sockfd d.workers in
    let same : t.workers ≡ w0 =
      rw e at (SameWorkers-answer_request io.request io (record d { workers = w0 })) in
    let (w, run, gone) = cleanup_alone rounds wtp tid sockfd d.workers empty nz in
    (w, ap (λ o. clean_up (suc rounds) tid o) e ∙ rw (same, run), gone)
