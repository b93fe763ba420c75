-- ===== src/Spooler/Printing.antt =====
-- A round of `printer_thread` of printer/printd.c: the next job is sent to the printer.
use learn_apue.Base.{
  ℕ, ◌+◌, ◌-◌, Bool, true, false, Option, none, some, List, [], ◌∷◌, ◌++◌, take, drop, length,
  if◌then◌else◌,
}
use learn_apue.Base.Int.{ℤ, pos, negsuc}
use learn_apue.Spooler.Files.{Daemon, Transfer, is_whole, set_file, print_int}
use learn_apue.Spooler.Ipp.{ipp_header, http_header, is_text}
use learn_apue.Spooler.Jobs.{PrintJob, Pending, pick_job, replace_job}

-- A block of so many bytes that `read` returns, and what `writen` to the printer does with it.
pub record SentBlock : Type 0 where
  pub nr : ℕ
  pub wrote : Transfer

-- What the system calls of a round do. `updates`: the job file can be written. `address`: the
-- printer's name that `get_printaddr` finds, if the configuration is read again. `blocks` go on
-- until `read` returns 0, or -1 if not `reads`. `status`: what `printer_status` returns.
pub record PrinterIo : Type 0 where
  pub updates : Bool
  pub address : Option (List ℕ)
  pub opens : Bool
  pub stats : Bool
  pub connects : Bool
  pub headers : Transfer
  pub hack : Transfer
  pub blocks : List SentBlock
  pub reads : Bool
  pub status : Bool

-- How a round ends: there is no job, the daemon exits, or a header overruns its buffer; or the job is canceled, deferred, or
-- printed with the bytes that were sent.
pub data Round : Type 0 where
  waits : Round
  exits : Round
  overruns : Round
  canceled : Daemon → Round
  deferred : Daemon → Round
  printed : List ℕ → Daemon → Round

-- `update_jobno`: the number is written over the start of the job file.
unfoldable pub update_jobno : Daemon → Daemon
update_jobno d =
    let buf = print_int d.pending.nextjob in
    record d { job_file = buf ++ drop (length buf) d.job_file }

-- `htonl` takes the job number for an unsigned one.
unfoldable pub word32 : ℤ → ℕ
word32 (pos n) = n
word32 (negsuc n) = 4294967295 - n

-- The configuration is read again if a signal asked for it; the daemon exits without an address.
unfoldable pub reconfigure : Bool → Option (List ℕ) → Daemon → Option Daemon
reconfigure false address d = some d
reconfigure true none d = none
reconfigure true (some name) d = some (record d { reread = false; printer_name = name })

unfoldable pub prefix : List ℕ → Option (List ℕ) → Option (List ℕ)
prefix s none = none
prefix s (some l) = some (s ++ l)

-- The loop that copies the file to the printer, from what is left of it: the bytes sent, or none.
unfoldable pub send_blocks : Bool → List SentBlock → List ℕ → Option (List ℕ)
send_blocks reads [] left = if reads then some [] else none
send_blocks reads (b ∷ bs) left =
    let rest = prefix (take b.nr left) (send_blocks reads bs (drop b.nr left)) in
    if is_whole b.wrote b.nr then rest else none

-- A backspace is sent in front of plain text.
unfoldable pub send_document : Bool → PrinterIo → List ℕ → Option (List ℕ)
send_document false io content = send_blocks io.reads io.blocks content
send_document true io content =
    if is_whole io.hack 1 then prefix (8 ∷ []) (send_blocks io.reads io.blocks content) else none

-- What comes of sending a job: the bytes that were sent, or the job is deferred, or a header overruns
-- its buffer.
pub data Sending : Type 0 where
  all_sent : List ℕ → Sending
  gives_up overrun : Sending

unfoldable pub sending : Option (List ℕ) → Sending
sending none = gives_up
sending (some bytes) = all_sent bytes

unfoldable pub with_http : PrinterIo → Bool → List ℕ → List ℕ → Option (List ℕ) → Sending
with_http io text content ibuf none = overrun
with_http io text content ibuf (some hbuf) =
    if is_whole io.headers (length hbuf + length ibuf)
    then sending (prefix (hbuf ++ ibuf) (send_document text io content))
    else gives_up

unfoldable pub with_ipp : PrinterIo → List ℕ → Bool → List ℕ → Option (List ℕ) → Sending
with_ipp io name text content none = overrun
with_ipp io name text content (some ibuf) =
    with_http io text content ibuf (http_header name (length content) (length ibuf) text)

-- From `connect_retry` to the end of the file.
unfoldable pub send_job : PrinterIo → List ℕ → PrintJob → List ℕ → Sending
send_job io name jp content =
    if io.connects
    then with_ipp io name (is_text jp.req.flags) content (ipp_header name (word32 jp.jobid) jp.req)
    else gives_up

-- The job is given back.
unfoldable pub defer : ℕ → Daemon → Round
defer jp d = deferred (record d { pending = replace_job jp d.pending })

-- The printer has answered, or the job is deferred.
unfoldable pub finish_job : Bool → Sending → ℕ → ℤ → Daemon → Round
finish_job status overrun jp jobid d = overruns
finish_job status gives_up jp jobid d = defer jp d
finish_job false (all_sent sent) jp jobid d = defer jp d
finish_job true (all_sent sent) jp jobid d = printed sent (record d {
  data_files = set_file (print_int jobid) none d.data_files;
  req_files = set_file (print_int jobid) none d.req_files;
})

-- The data file is opened, if it exists, and the job is sent.
unfoldable pub print_job : PrinterIo → Option (List ℕ) → ℕ → Daemon → Round
print_job io none jp d = canceled d
print_job io (some content) jp d =
    let job = d.pending.jobs jp in
    if io.opens
    then if io.stats
      then finish_job io.status (send_job io d.printer_name job content) jp job.jobid d
      else canceled d
    else canceled d

unfoldable pub print_configured : PrinterIo → ℕ → Option Daemon → Round
print_configured io jp none = exits
print_configured io jp (some d) =
    print_job io (d.data_files (print_int (d.pending.jobs jp).jobid)) jp d

unfoldable pub picked : PrinterIo → Daemon → Option (ℕ × Pending) → Round
picked io d none = waits
picked io d (some (jp, p)) =
    let d1 = update_jobno (record d { pending = p }) in
    if io.updates then print_configured io jp (reconfigure d1.reread io.address d1) else exits

-- A round of `printer_thread`
unfoldable pub printer_round : PrinterIo → Daemon → Round
printer_round io d = picked io d (pick_job d.pending)
