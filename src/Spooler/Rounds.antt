-- ===== src/Spooler/Rounds.antt =====
-- What a round of `printer_thread` of printer/printd.c does with the spooled job.
use learn_apue.Base.{
  ℕ, str_eq, ◌+◌, ◌≡◌, refl, ap, ◌∙◌, Bool, true, false, Option, none, some, List, [], ◌∷◌, ◌++◌,
  arith, drop, length, length-append, ◌≤◌, ◌<◌, leb, length-drop, take_append_drop, All, Bool-cases,
  inl, inr,
}
use mathlib.Core.List.{append_assoc}
use learn_apue.Base.Int.{ℤ}
use learn_apue.Spooler.Files.{Daemon, is_whole, set_file, set_file_same, set_file_other, print_int}
use learn_apue.Spooler.Ipp.{
  header_bufsz, printer_uri, ipp_text, http_text, http_header, is_text, extra,
}
use learn_apue.Spooler.Header.{ipp_header-ipp_text}
use learn_apue.Spooler.Jobs.{PrintJob, replace_job}
use learn_apue.Spooler.Pending.{PendingAre, replace_job-pick_job}
use learn_apue.Spooler.Printing.{
  SentBlock, PrinterIo, Round, waits, exits, overruns, Sending, all_sent, gives_up, overrun,
  sending, with_http, with_ipp, canceled, deferred, printed, update_jobno, reconfigure, prefix,
  send_blocks, send_document, send_job, defer, finish_job, print_job, print_configured, picked,
  printer_round, word32,
}

-- The spooled files have not changed, the job file has the next job number, and these jobs are
-- pending.
pub record Keeps (d t : Daemon) (xs : List ℕ) (js : List PrintJob) : Type 0 where
  pub files : t.data_files ≡ d.data_files
  pub reqs : t.req_files ≡ d.req_files
  pub numbered : t.job_file ≡ (update_jobno d).job_file
  pub jobs : PendingAre t.pending xs js

-- Both files of the job are gone, those of other jobs are the same, the job file has the next job
-- number, and these jobs are pending.
pub record Drops (d t : Daemon) (id : ℤ) (xs : List ℕ) (js : List PrintJob) : Type 0 where
  pub file : t.data_files (print_int id) ≡ none
  pub req : t.req_files (print_int id) ≡ none
  pub files : (m : List ℕ) → str_eq (print_int id) m ≡ false → t.data_files m ≡ d.data_files m
  pub reqs : (m : List ℕ) → str_eq (print_int id) m ≡ false → t.req_files m ≡ d.req_files m
  pub numbered : t.job_file ≡ (update_jobno d).job_file
  pub jobs : PendingAre t.pending xs js

-- What a round may do with the first pending job, at `x`.
abbrev pub Outcome : Daemon → ℕ → List ℕ → PrintJob → List PrintJob → Round → Type 0
Outcome d x xs j js waits = ⊥
Outcome d x xs j js exits = Unit
Outcome d x xs j js overruns = Unit
Outcome d x xs j js (canceled t) = Keeps d t xs js
Outcome d x xs j js (deferred t) = Keeps d t (x ∷ xs) (j ∷ js)
Outcome d x xs j js (printed sent t) = Drops d t j.jobid xs js

module _ (d : Daemon) (x : ℕ) (xs : List ℕ) (j : PrintJob) (js : List PrintJob) where
  -- The printer thread holds the job at `x`.
  record Holds (t : Daemon) : Type 0 where
    keeps : Keeps d t xs js
    job : t.pending.jobs x ≡ j
    again : PendingAre (replace_job x t.pending) (x ∷ xs) (j ∷ js)

  Outcome-finish_job :
      (status : Bool) (sent : Sending) (id : ℤ) (t : Daemon)
      → id ≡ j.jobid
      → Holds t
      → Outcome d x xs j js (finish_job status sent x id t)
  unfolding finish_job defer
  Outcome-finish_job status overrun id t e h = tt
  Outcome-finish_job status gives_up id t e h = record {
    files = h.keeps.files;
    reqs = h.keeps.reqs;
    numbered = h.keeps.numbered;
    jobs = h.again;
  }
  Outcome-finish_job false (all_sent sent) id t e h = record {
    files = h.keeps.files;
    reqs = h.keeps.reqs;
    numbered = h.keeps.numbered;
    jobs = h.again;
  }
  Outcome-finish_job true (all_sent sent) id t e h = rw e (record {
    file = set_file_same (print_int j.jobid) none t.data_files;
    req = set_file_same (print_int j.jobid) none t.req_files;
    files = λ m ne.
        set_file_other (print_int j.jobid) m none t.data_files ne ∙ ap (λ f. f m) h.keeps.files;
    reqs = λ m ne.
        set_file_other (print_int j.jobid) m none t.req_files ne ∙ ap (λ f. f m) h.keeps.reqs;
    numbered = h.keeps.numbered;
    jobs = h.keeps.jobs;
  })

  Outcome-print_job :
      (io : PrinterIo) (c : Option (List ℕ)) (t : Daemon)
      → Holds t
      → Outcome d x xs j js (print_job io c x t)
  unfolding print_job
  Outcome-print_job io none t h = h.keeps
  Outcome-print_job io (some c) t h = elim (Bool-cases io.opens) [
    | inr e ↦ rw e h.keeps
    | inl e ↦ elim (Bool-cases io.stats) [
      | inr e' ↦ rw (e, e') h.keeps
      | inl e' ↦ rw (e, e') (Outcome-finish_job io.status _ _ t (ap (λ i. i.jobid) h.job) h)
    ]
  ]

  Outcome-print_configured :
      (io : PrinterIo) (asked : Bool) (address : Option (List ℕ)) (t : Daemon)
      → Holds t
      → Outcome d x xs j js (print_configured io x (reconfigure asked address t))
  unfolding print_configured reconfigure
  Outcome-print_configured io false address t h = Outcome-print_job io _ t h
  Outcome-print_configured io true none t h = tt
  Outcome-print_configured io true (some name) t h = Outcome-print_job io _ _ (record {
    keeps = record {
      files = h.keeps.files;
      reqs = h.keeps.reqs;
      numbered = h.keeps.numbered;
      jobs = h.keeps.jobs;
    };
    job = h.job;
    again = h.again;
  })

-- If some job is pending, a round of the printer thread does not wait. Unless it ends the daemon or
-- a header overruns its buffer, the job file begins with the next job number then, and: if the
-- round cancels the first job, the data and request files are as they were, and the other jobs are
-- pending; if it defers the job, these files are the same and the same jobs are pending in the same
-- order; if it has printed the job, its two files are gone, those of other jobs are the same, and
-- the other jobs are pending.
pub printer_round-Outcome :
    (io : PrinterIo) (d : Daemon) (x : ℕ) (xs : List ℕ) (j : PrintJob) (js : List PrintJob)
    → PendingAre d.pending (x ∷ xs) (j ∷ js)
    → Outcome d x xs j js (printer_round io d)
unfolding printer_round picked update_jobno
printer_round-Outcome io d x xs j js v =
    let (p, e, job, jobs, again, next) = replace_job-pick_job j js x xs v in
    elim (Bool-cases io.updates) [
      | inr stops ↦ rw (e, stops) tt
      | inl goes ↦
          simp (e, goes)
            (Outcome-print_configured d x xs j js io d.reread io.address _ (record {
              keeps = record { files = refl; reqs = refl; numbered = rw next refl; jobs = jobs };
              job = job;
              again = again;
            }))
    ]

-- The bytes that the blocks take out of the file.
unfoldable pub taken : List SentBlock → ℕ
taken [] = 0
taken (b ∷ bs) = b.nr + taken bs

send_blocks_whole :
    (bs : List SentBlock) (left : List ℕ)
    → All (λ b. is_whole b.wrote b.nr ≡ true) bs
    → taken bs ≡ length left
    → send_blocks true bs left ≡ some left
unfolding send_blocks taken prefix
send_blocks_whole [] [] w e = refl
send_blocks_whole [] (c ∷ left) w e = absurd (omega arith)
send_blocks_whole (b ∷ bs) left (h, w) e =
    let enough : taken bs ≡ length (drop b.nr left) = omega (arith, length-drop b.nr left) in
    rw (h, send_blocks_whole bs (drop b.nr left) w enough, take_append_drop b.nr left)

unfoldable pub backspace : Bool → List ℕ
backspace true = 8 ∷ []
backspace false = []

send_document_whole :
    (text : Bool) (io : PrinterIo) (content : List ℕ)
    → io.reads ≡ true
    → All (λ b. is_whole b.wrote b.nr ≡ true) io.blocks
    → taken io.blocks ≡ length content
    → is_whole io.hack 1 ≡ true
    → send_document text io content ≡ some (backspace text ++ content)
unfolding send_document backspace prefix
send_document_whole true io content r w e h = rw (h, r, send_blocks_whole io.blocks content w e)
send_document_whole false io content r w e h = rw (r, send_blocks_whole io.blocks content w e)

length-backspace : (text : Bool) → length (backspace text) ≡ extra text
unfolding backspace extra
length-backspace true = refl
length-backspace false = refl

-- The body of the HTTP request for a job.
abbrev pub body_of : List ℕ → PrintJob → List ℕ → List ℕ
body_of name j content =
    ipp_text name (word32 j.jobid) j.req ++ (backspace (is_text j.req.flags) ++ content)

length-body_of :
    (name : List ℕ) (j : PrintJob) (content : List ℕ)
    → length content + length (ipp_text name (word32 j.jobid) j.req) + extra (is_text j.req.flags)
      ≡ length (body_of name j content)
length-body_of name j content =
    let text = is_text j.req.flags in
    let ipp = ipp_text name (word32 j.jobid) j.req in
    omega (
      arith,
      length-append ipp (backspace text ++ content),
      length-append (backspace text) content,
      length-backspace text,
    )

-- The HTTP header depends on the length of the body alone.
http_text-length :
    (name : List ℕ) (st_size ilen : ℕ) (text : Bool) (n : ℕ)
    → st_size + ilen + extra text ≡ n
    → http_text name st_size ilen text ≡ http_text name n 0 false
unfolding http_text extra
http_text-length name st_size ilen text n e = let e' : n + 0 + 0 ≡ n = omega arith in rw (e, e')

-- The HTTP header that names the length of the body, and the body.
abbrev pub request_of : List ℕ → PrintJob → List ℕ → List ℕ
request_of name j content =
    http_text name (length (body_of name j content)) 0 false ++ body_of name j content

-- The headers for a job fit their buffers.
pub record FitBuffers (name : List ℕ) (j : PrintJob) (content : List ℕ) : Type 0 where
  pub str : length (printer_uri name) < 64
  pub ibuf : length (ipp_text name (word32 j.jobid) j.req) ≤ header_bufsz
  pub hbuf : length (http_text name (length (body_of name j content)) 0 false) ≤ header_bufsz

module _ (io : PrinterIo) (name : List ℕ) (j : PrintJob) (content : List ℕ) where
  send_job-request_of :
      FitBuffers name j content
      → io.connects ≡ true
      → is_whole io.headers (
          length (http_text name (length (body_of name j content)) 0 false)
          + length (ipp_text name (word32 j.jobid) j.req))
        ≡ true
      → is_whole io.hack 1 ≡ true
      → All (λ b. is_whole b.wrote b.nr ≡ true) io.blocks
      → taken io.blocks ≡ length content
      → io.reads ≡ true
      → send_job io name j content ≡ all_sent (request_of name j content)
  unfolding send_job prefix with_ipp with_http http_header sending
  send_job-request_of fit c hs h w t r =
      let e =
        http_text-length name (length content) _ (is_text j.req.flags) _
          (length-body_of name j content) in
      let room : leb (length (http_text name (length (body_of name j content)) 0 false))
            header_bufsz
          ≡ true =
        ground (arith, fit.hbuf) in
      simp (
        ipp_header-ipp_text name (word32 j.jobid) j.req fit.str fit.ibuf,
        e,
        room,
        c,
        hs,
        send_document_whole (is_text j.req.flags) io content r w t h,
        append_assoc,
      )

-- If some job is pending, its data file exists, the headers fit their buffers, every call of a round
-- succeeds and moves all bytes, the blocks read are the whole file, the printer is content, and no
-- new configuration is asked for, then the printer has been sent the HTTP header and a body of the
-- IPP header, the backspace in front of plain text and the file; the content length in the HTTP
-- header is the length of the body. The job and its two files are gone then, the other jobs are
-- pending, their files are the same, and the job file begins with the next job number.
pub printer_round-printed :
    (io : PrinterIo) (d : Daemon) (x : ℕ) (xs : List ℕ) (j : PrintJob) (js : List PrintJob)
    (content : List ℕ)
    → PendingAre d.pending (x ∷ xs) (j ∷ js)
    → d.reread ≡ false
    → d.data_files (print_int j.jobid) ≡ some content
    → FitBuffers d.printer_name j content
    → io.updates ≡ true
    → io.opens ≡ true
    → io.stats ≡ true
    → io.connects ≡ true
    → is_whole io.headers (
        length (http_text d.printer_name (length (body_of d.printer_name j content)) 0 false)
        + length (ipp_text d.printer_name (word32 j.jobid) j.req))
      ≡ true
    → is_whole io.hack 1 ≡ true
    → All (λ b. is_whole b.wrote b.nr ≡ true) io.blocks
    → taken io.blocks ≡ length content
    → io.reads ≡ true
    → io.status ≡ true
    → (t : Daemon) × (printer_round io d ≡ printed (request_of d.printer_name j content) t)
      × Drops d t j.jobid xs js
unfolding printer_round picked update_jobno print_configured print_job finish_job reconfigure
printer_round-printed io d x xs j js content v same file fit up op st con hs h w t r ok =
    let (p, e, job, jobs, again, next) = replace_job-pick_job j js x xs v in
    let sent = send_job-request_of io d.printer_name j content fit con hs h w t r in
    let d1 = update_jobno (record d { pending = p }) in
    let t : Daemon = record d1 {
      data_files = set_file (print_int j.jobid) none d.data_files;
      req_files = set_file (print_int j.jobid) none d.req_files;
    } in
    let run : printer_round io d ≡ printed (request_of d.printer_name j content) t =
      simp (e, up, same, job, file, op, st, sent, ok) in
    (t, run, (let all = printer_round-Outcome io d x xs j js v in rw run at all))
