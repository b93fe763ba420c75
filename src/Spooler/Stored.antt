-- ===== src/Spooler/Stored.antt =====
-- What `client_thread` of printer/printd.c leaves in the spool directory and the list of jobs.
use learn_apue.Base.{
  ℕ, ◌≡◌, ◌≢◌, refl, sym, ap, ◌∙◌, true, false, Option, none, some, List, [], ◌∷◌, ◌++◌, length,
  All, Bool-cases, inl, inr, str_eq, eq_of_str_eq,
}
use mathlib.Core.List.{append_assoc, append-nil}
use learn_apue.Base.Int.{ℤ}
use learn_apue.Links.Segments.{Away}
use learn_apue.Spooler.Accept.{
  ClientIo, RequestRead, got, ended, broken, Block, Reply, accepted, rejected, flags_after,
  add_bytes, append_file, write_blocks, enqueue, write_request, create_request, close_data,
  create_data, answer_request, serve_client,
}
use learn_apue.Spooler.Files.{
  Daemon, whole_req, part_req, is_whole, set_file, set_file_same, set_file_other, print_int,
}
use learn_apue.Spooler.Jobs.{PrintReq, PrintJob, Pending, get_newjobno}
use learn_apue.Spooler.Pending.{PendingAre, add_job-PendingAre}

-- The same files and pending jobs.
pub record Untouched (d t : Daemon) : Type 0 where
  pub files : (m : List ℕ) → t.data_files m ≡ d.data_files m
  pub reqs : (m : List ℕ) → t.req_files m ≡ d.req_files m
  pub links : t.pending.links ≡ d.pending.links
  pub jobs : t.pending.jobs ≡ d.pending.jobs

-- A rejected request has touched nothing.
abbrev Clean : Daemon → Option (Reply × Daemon) → Type 0
Clean d none = Unit
Clean d (some (accepted n, t)) = Unit
Clean d (some (rejected e, t)) = Untouched d t

-- Apart from the file `n`, which did not exist, the files are the same.
abbrev Adds : {A : Type 0} → List ℕ → (List ℕ → Option A) → (List ℕ → Option A) → Type 0
Adds n f g = (f n ≡ none) × ((m : List ℕ) → str_eq n m ≡ false → g m ≡ f m)

Adds-none :
    {A : Type 0}
    → (n : List ℕ) (f g : List ℕ → Option A) → Adds n f g
    → (m : List ℕ) → set_file n none g m ≡ f m
unfolding set_file
Adds-none n f g (e, other) m = elim (Bool-cases (str_eq n m)) [
  | inl same ↦ rw same (sym e ∙ ap f (eq_of_str_eq n m same))
  | inr differ ↦ rw differ (other m differ)
]

Adds-set_file :
    {A : Type 0}
    → (n : List ℕ) (v : Option A) (f g : List ℕ → Option A) → Adds n f g
    → Adds n f (set_file n v g)
Adds-set_file n v f g (e, other) = (e, λ m ne. set_file_other n m v g ne ∙ other m ne)

Adds-write_blocks :
    (n : List ℕ) (bs : List Block) (f g : List ℕ → Option (List ℕ))
    → Adds n f g
    → Adds n f (write_blocks n bs g).1
unfolding write_blocks append_file
Adds-write_blocks n [] f g a = a
Adds-write_blocks n (b ∷ bs) f g a = elim (Bool-cases (is_whole b.wrote (length b.bytes))) [
  | inl e ↦ rw e (Adds-write_blocks n bs f (append_file n b.bytes g) (Adds-set_file n _ f g a))
  | inr e ↦ rw e (Adds-set_file n _ f g a)
]

module _ (d : Daemon) (n : ℤ) (no_req : d.req_files (print_int n) ≡ none) where
  -- The state after some steps: only the data file is new.
  record Storing (t : Daemon) : Type 0 where
    files : Adds (print_int n) d.data_files t.data_files
    reqs : t.req_files ≡ d.req_files
    links : t.pending.links ≡ d.pending.links
    jobs : t.pending.jobs ≡ d.pending.jobs

  Clean-enqueue : (t : Daemon) (p : Option Pending) → Clean d (enqueue n t p)
  unfolding enqueue
  Clean-enqueue t none = tt
  Clean-enqueue t (some p) = tt

  Clean-create_request :
      (c : Option ℕ) (io : ClientIo) (r : PrintReq) (t : Daemon)
      → Storing t
      → Clean d (create_request c io r n t)
  unfolding create_request write_request
  Clean-create_request (some e) io r t s = record {
    files = Adds-none (print_int n) d.data_files t.data_files s.files;
    reqs = λ m. ap (λ f. f m) s.reqs;
    links = s.links;
    jobs = s.jobs;
  }
  Clean-create_request none io r t s = elim (Bool-cases (is_whole io.write_req 328)) [
    | inl e ↦ rw e (Clean-enqueue _ _)
    | inr e ↦ rw e (record {
      files = Adds-none (print_int n) d.data_files t.data_files s.files;
      reqs = Adds-none (print_int n) d.req_files _ (
          Adds-set_file (print_int n) _ d.req_files _ (
            Adds-set_file (print_int n) _ d.req_files t.req_files
              (no_req, λ m ne. ap (λ f. f m) s.reqs)));
      links = s.links;
      jobs = s.jobs;
    })
  ]

  Clean-close_data :
      (io : ClientIo) (r : PrintReq) (t : Daemon) (w : Option ℕ × (List ℕ → Option (List ℕ)))
      → Adds (print_int n) d.data_files w.1
      → t.req_files ≡ d.req_files
      → t.pending.links ≡ d.pending.links
      → t.pending.jobs ≡ d.pending.jobs
      → Clean d (close_data w io r n t)
  unfolding close_data
  Clean-close_data io r t (some e, f) a rs ls js = record {
    files = Adds-none (print_int n) d.data_files f a;
    reqs = λ m. ap (λ g. g m) rs;
    links = ls;
    jobs = js;
  }
  Clean-close_data io r t (none, f) a rs ls js =
      Clean-create_request io.creat_req io _ _
        (record { files = a; reqs = rs; links = ls; jobs = js })

Clean-create_data :
    (d t : Daemon) (c : Option ℕ) (io : ClientIo) (r : PrintReq) (n : ℤ)
    → d.data_files (print_int n) ≡ none
    → d.req_files (print_int n) ≡ none
    → t.data_files ≡ d.data_files
    → t.req_files ≡ d.req_files
    → t.pending.links ≡ d.pending.links
    → t.pending.jobs ≡ d.pending.jobs
    → Clean d (create_data c io r n t)
unfolding create_data
Clean-create_data d t (some e) io r n nd nr fs rs ls js = record {
  files = λ m. ap (λ g. g m) fs;
  reqs = λ m. ap (λ g. g m) rs;
  links = ls;
  jobs = js;
}
Clean-create_data d t none io r n nd nr fs rs ls js =
    Clean-close_data d n nr io r t
      (write_blocks (print_int n) io.blocks (set_file (print_int n) (some []) t.data_files))
      (Adds-write_blocks (print_int n) io.blocks d.data_files _ (
        Adds-set_file (print_int n) (some []) d.data_files t.data_files
          (nd, λ m ne. ap (λ g. g m) fs)))
      rs ls js

Clean-answer_request :
    (d : Daemon) (q : RequestRead) (io : ClientIo)
    → d.data_files (print_int d.pending.nextjob) ≡ none
    → d.req_files (print_int d.pending.nextjob) ≡ none
    → Clean d (answer_request q io d)
unfolding answer_request get_newjobno
Clean-answer_request d ended io nd nr = record {
  files = λ m. refl;
  reqs = λ m. refl;
  links = refl;
  jobs = refl;
}
Clean-answer_request d (broken e) io nd nr = record {
  files = λ m. refl;
  reqs = λ m. refl;
  links = refl;
  jobs = refl;
}
Clean-answer_request d (got r) io nd nr =
    Clean-create_data d _ io.creat_data io r d.pending.nextjob nd nr refl refl refl refl

-- If no file has the next job number as its name, then a request that is rejected, after
-- whichever steps, leaves all files and the list of pending jobs as they were.
pub serve_client-Untouched :
    (io : ClientIo) (d t : Daemon) (e : ℕ)
    → d.data_files (print_int d.pending.nextjob) ≡ none
    → d.req_files (print_int d.pending.nextjob) ≡ none
    → serve_client io d ≡ some (rejected e, t)
    → Untouched d t
unfolding serve_client
serve_client-Untouched io d t e nd nr h = rw h at (Clean-answer_request d io.request io nd nr)

-- The bytes of all blocks.
unfoldable pub document : List Block → List ℕ
document [] = []
document (b ∷ bs) = b.bytes ++ document bs

write_blocks-document :
    (n : List ℕ) (bs : List Block) (f : List ℕ → Option (List ℕ)) (c : List ℕ)
    → All (λ b. is_whole b.wrote (length b.bytes) ≡ true) bs
    → f n ≡ some c
    → (g : List ℕ → Option (List ℕ)) × (write_blocks n bs f ≡ (none, g))
      × (g n ≡ some (c ++ document bs))
unfolding write_blocks document append_file add_bytes
write_blocks-document n [] f c h e = (f, refl, e ∙ ap some (sym (append-nil c)))
write_blocks-document n (b ∷ bs) f c (w, ws) e =
    let e' : append_file n b.bytes f n ≡ some (c ++ b.bytes) = rw (set_file_same, e) in
    let (g, run, is) = write_blocks-document n bs (append_file n b.bytes f) (c ++ b.bytes) ws e' in
    (g, rw w run, rw (← append_assoc c b.bytes (document bs)) is)

-- What the daemon has of an accepted request: both files and, behind the other jobs, its own.
pub record IsStored (io : ClientIo) (r : PrintReq) (a : ℕ) (xs : List ℕ) (js : List PrintJob)
    (d t : Daemon) : Type 0 where
  pub file : t.data_files (print_int d.pending.nextjob) ≡ some (document io.blocks)
  pub req : t.req_files (print_int d.pending.nextjob) ≡ some (whole_req r)
  pub jobs :
      PendingAre t.pending
        (xs ++ (a ∷ []))
        (js ++ (record { jobid = d.pending.nextjob; req = r } ∷ []))

-- If the request comes whole, all blocks and the request are written whole to files that could be
-- created, and `malloc` returns a new address, then `client_thread` accepts under the next job
-- number; the data file then holds all blocks, the request file the request with the flags as the
-- first block sets them, and the job is pending behind the others.
pub serve_client-accepted :
    (io : ClientIo) (d : Daemon) (r : PrintReq) (a : ℕ) (xs : List ℕ) (js : List PrintJob)
    → PendingAre d.pending xs js
    → io.request ≡ got r
    → io.creat_data ≡ none
    → All (λ b. is_whole b.wrote (length b.bytes) ≡ true) io.blocks
    → io.creat_req ≡ none
    → is_whole io.write_req 328 ≡ true
    → io.malloc ≡ some a
    → a ≢ 0
    → Away a xs
    → (t : Daemon) × (serve_client io d ≡ some (accepted d.pending.nextjob, t))
      × IsStored io (record r { flags = flags_after io.stale io.blocks r.flags }) a xs js d t
unfolding serve_client answer_request create_data close_data create_request write_request enqueue
    get_newjobno
serve_client-accepted io d r a xs js v got_it created all created' wrote memory nz away =
    let n = d.pending.nextjob in
    let req : PrintReq = record r { flags = flags_after io.stale io.blocks r.flags } in
    let (g, run, is) =
      write_blocks-document (print_int n) io.blocks (set_file (print_int n) (some []) d.data_files)
        [] all (set_file_same (print_int n) (some []) d.data_files) in
    let (p, added, jobs) =
      add_job-PendingAre {s = (get_newjobno d.pending).1} a req n xs js
        (record { links = v.links; jobs = v.jobs }) nz away in
    (
      record d {
        data_files = g;
        req_files =
            set_file (print_int n) (some (whole_req req))
              (set_file (print_int n) (some part_req) d.req_files);
        pending = p;
      },
      rw (got_it, created, run, created', wrote, memory, added),
      record { file = is; req = set_file_same (print_int n) _ _; jobs = jobs },
    )
