-- ===== src/Spooler/Recovery.antt =====
-- After a restart, printer/printd.c has the jobs of the spool directory and the next job number.
use learn_apue.Base.{
  ℕ, zero, suc, take, ltb, ◌&&◌, str_eq, ◌≤◌, ◌≡◌, ◌≢◌, refl, sym, ap, ◌∙◌, true, false, Option,
  none, some, List, [], Bool, ◌∷◌, ◌++◌, arith, length, All, if◌then◌else◌, Bool-cases, inl, inr,
}
use mathlib.Core.List.{append_assoc, append-nil}
use learn_apue.Base.Int.{ℤ}
use learn_apue.Links.Segments.{Away, NoRepeats, Away-join}
use learn_apue.Spooler.Files.{Daemon, ReqFile, whole_req, part_req, set_file, set_file_other}
use learn_apue.Spooler.Jobs.{PrintReq, PrintJob}
use learn_apue.Spooler.Pending.{PendingAre, add_job-PendingAre}
use learn_apue.Bytes.Text.{is_dots}
use learn_apue.Spooler.Restart.{
  Listed, Starting, queued, add_request, drop_request, job_of_name, requeue, open_request, max_name,
  one_entry, build_qonstart,
}

-- The job of a request file that is whole.
unfoldable pub job_in : ℤ → Option ReqFile → List PrintJob
job_in jobid none = []
job_in jobid (some part_req) = []
job_in jobid (some (whole_req r)) = record { jobid = jobid; req = r } ∷ []

unfoldable pub job_at : Listed → Option ReqFile → List PrintJob
job_at e file = if e.opens && e.reads then job_in (job_of_name e.name) file else []

-- The jobs of the whole request files that can be opened and read, in the order of the directory.
unfoldable pub recovered : (List ℕ → Option ReqFile) → List Listed → List PrintJob
recovered f [] = []
recovered f (e ∷ es) =
    let rest = recovered f es in if is_dots e.name then rest else job_at e (f e.name) ++ rest

-- A directory lists each name once, and all fit their buffer.
abbrev pub Listing : List Listed → Type 0
Listing [] = Unit
Listing (e ∷ es) =
    (length e.name ≤ max_name) × All (λ e'. str_eq e.name e'.name ≡ false) es × Listing es

-- A file of another name does not count.
recovered-set_file :
    (n : List ℕ) (v : Option ReqFile) (f : List ℕ → Option ReqFile) (es : List Listed)
    → All (λ e'. str_eq n e'.name ≡ false) es
    → recovered (set_file n v f) es ≡ recovered f es
unfolding recovered
recovered-set_file n v f [] h = refl
recovered-set_file n v f (e ∷ es) (h, hs) =
    rw (recovered-set_file n v f es hs, set_file_other n e.name v f h) refl

-- Addresses that `malloc` may return for new nodes behind the nodes of a list.
pub record Free (xs addresses : List ℕ) : Type 0 where
  pub nonnull : All (λ a. a ≢ 0) addresses
  pub apart : All (λ a. Away a xs) addresses
  pub distinct : NoRepeats addresses

-- The names lead to some state in which these jobs are pending.
abbrev Requeued : List Listed → Option Starting → List ℕ → List PrintJob → Type 0
Requeued es start xs js =
    (t : Daemon) × (ys : List ℕ) × (build_qonstart es start ≡ some t)
    × PendingAre t.pending (xs ++ ys) js

abbrev Recovers : List Listed → Type 0
Recovers es =
    (d : Daemon) (addresses : List ℕ) (room : ℕ) (xs : List ℕ) (js : List PrintJob)
    → PendingAre d.pending xs js
    → Free xs addresses
    → length es ≤ length addresses
    → Requeued es (some (addresses, room, d)) xs (js ++ take room (recovered d.req_files es))

Free-rest : (xs : List ℕ) (a : ℕ) (left : List ℕ) → Free xs (a ∷ left) → Free (xs ++ (a ∷ [])) left
Free-rest xs a left f =
    let (nz, nzs) = f.nonnull in
    let (w, ws) = f.apart in
    let (new, d) = f.distinct in
    record { nonnull = nzs; apart = apart_both xs a left ws new; distinct = d }
  where
    apart_both :
        (xs : List ℕ) (a : ℕ) (left : List ℕ)
        → All (λ b. Away b xs) left
        → Away a left
        → All (λ b. Away b (xs ++ (a ∷ []))) left
    apart_both xs a [] ws new = tt
    apart_both xs a (b ∷ left) (w, ws) (ne, new) =
        (Away-join b xs (a ∷ []) w ((λ e. ne (sym e)), tt), apart_both xs a left ws new)

module _ (es : List Listed) (ih : Recovers es) (e : Listed)
    (apart : All (λ e'. str_eq e.name e'.name ≡ false) es) (d : Daemon) (xs : List ℕ)
    (js : List PrintJob) (p : PendingAre d.pending xs js) where
  Recovers-drop :
      (addresses : List ℕ) (room : ℕ)
      → Free xs addresses
      → length es ≤ length addresses
      → Requeued es
          (some (addresses, room, drop_request e.name d))
          xs
          (js ++ take room (recovered d.req_files es))
  unfolding drop_request
  Recovers-drop addresses room f enough =
      rw (← recovered-set_file e.name none d.req_files es apart) (
        ih (drop_request e.name d) addresses room xs js (record { links = p.links; jobs = p.jobs })
          f enough)

  Recovers-add :
      (r : PrintReq) (n : ℤ) (addresses : List ℕ) (room : ℕ)
      → Free xs addresses
      → suc (length es) ≤ length addresses
      → Requeued es
          (add_request addresses room r n d)
          xs
          (js ++ (record { jobid = n; req = r } ∷ take room (recovered d.req_files es)))
  unfolding add_request queued
  Recovers-add r n [] room f enough = absurd (omega arith)
  Recovers-add r n (a ∷ left) room f enough =
      let (nz, nzs) = f.nonnull in
      let (w, ws) = f.apart in
      let (q, added, pq) = add_job-PendingAre a r n xs js p nz w in
      let j : PrintJob = record { jobid = n; req = r } in
      let more = take room (recovered d.req_files es) in
      let (t, ys, run, pt) =
        ih (record d { pending = q }) left room (xs ++ (a ∷ [])) (js ++ (j ∷ [])) pq
          (Free-rest xs a left f) (omega arith) in
      (
        t,
        a ∷ ys,
        ap (λ o. build_qonstart es (queued left room d o)) added ∙ run,
        rw (← append_assoc xs (a ∷ []) ys, ← append_assoc js (j ∷ []) more) pt,
      )

  Recovers-open :
      (v : Option ReqFile) (addresses : List ℕ) (room : ℕ)
      → Free xs addresses
      → suc (length es) ≤ length addresses
      → Requeued es
          (open_request e v addresses room d)
          xs
          (js ++ take room (job_at e v ++ recovered d.req_files es))
  unfolding open_request requeue job_at job_in
  Recovers-open none addresses room f enough = elim (Bool-cases (e.opens && e.reads)) [
    | inl able ↦ rw able (ih d addresses room xs js p f (omega arith))
    | inr unable ↦ rw unable (ih d addresses room xs js p f (omega arith))
  ]
  Recovers-open (some file) addresses zero f enough = ih d addresses zero xs js p f (omega arith)
  Recovers-open (some file) addresses (suc room) f enough = elim (Bool-cases e.opens) [
    | inr shut ↦ rw shut (ih d addresses (suc room) xs js p f (omega arith))
    | inl opens ↦ elim (Bool-cases e.reads) [
      | inr fails ↦ rw (opens, fails) (Recovers-drop addresses (suc room) f (omega arith))
      | inl reads ↦ rw (opens, reads) (read_file file)
    ]
  ]
    where
      read_file :
          (file : ReqFile)
          → Requeued es (requeue e.name true file addresses room d) xs (
              js
              ++ take
                  (suc room)
                  (job_in (job_of_name e.name) (some file) ++ recovered d.req_files es))
      read_file part_req = Recovers-drop addresses (suc room) f (omega arith)
      read_file (whole_req r) = Recovers-add r (job_of_name e.name) addresses room f enough

  Recovers-entry :
      (dots long : Bool) (addresses : List ℕ) (room : ℕ)
      → long ≡ false
      → Free xs addresses
      → suc (length es) ≤ length addresses
      → Requeued es
          (if dots
            then some (addresses, room, d)
            else if long
            then none
            else open_request e (d.req_files e.name) addresses room d)
          xs
          (js
            ++ take room (
                if dots
                then recovered d.req_files es
                else job_at e (d.req_files e.name) ++ recovered d.req_files es))
  Recovers-entry true long addresses room h f enough = ih d addresses room xs js p f (omega arith)
  Recovers-entry false true addresses room h f enough = absurd cc
  Recovers-entry false false addresses room h f enough =
      Recovers-open (d.req_files e.name) addresses room f enough

-- Let the directory list each name once, none longer than 39 bytes, and `malloc` return new
-- addresses, at least as many as there are names. Then `build_qonstart` ends, and behind the jobs
-- from before those of the whole request files that can be opened and read are pending, in the
-- order of the directory, but no more than the daemon can open descriptors: each of them leaves one
-- open.
pub build_qonstart-recovered :
    (es : List Listed) (d : Daemon) (addresses : List ℕ) (room : ℕ) (xs : List ℕ)
    (js : List PrintJob)
    → Listing es
    → PendingAre d.pending xs js
    → Free xs addresses
    → length es ≤ length addresses
    → (t : Daemon) × (ys : List ℕ) × (build_qonstart es (some (addresses, room, d)) ≡ some t)
      × PendingAre t.pending (xs ++ ys) (js ++ take room (recovered d.req_files es))
unfolding build_qonstart one_entry recovered
build_qonstart-recovered [] d addresses room xs js l p f enough =
    (d, [], refl, rw (append-nil xs, take_nil room, append-nil js) p)
  where
    take_nil : (n : ℕ) → ◌≡◌ {A = List PrintJob} (take n []) []
    take_nil zero = refl
    take_nil (suc n) = refl
build_qonstart-recovered (e ∷ es) d addresses room xs js (short, apart, l) p f enough =
    let ih : Recovers es =
      λ d' a' r' xs' js' p' f' n'. build_qonstart-recovered es d' a' r' xs' js' l p' f' n' in
    let fits : ltb max_name (length e.name) ≡ false = ground arith in
    Recovers-entry es ih e apart d xs js p (is_dots e.name) (ltb max_name (length e.name)) addresses
      room fits f enough
