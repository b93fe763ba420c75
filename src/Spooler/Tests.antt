-- ===== src/Spooler/Tests.antt =====
-- The theorems on the print spooler at small inputs.
use learn_apue.Base.{
  take, str_eq, ◌+◌, ◌≡◌, refl, true, false, none, some, [], ◌∷◌, ◌++◌, arith, length, drop,
  ==_refl, List, ℕ, ◌<◌, ◌≤◌,
}
use learn_apue.Base.Int.{pos}
use learn_apue.Bytes.Text.{codes}
use learn_apue.Spooler.Header.{length-ipp_text, read_attributes, read_attributes-ipp_header}
use learn_apue.Spooler.Ipp.{
  be16, be32, add_options, add_option, extra, ipp_header, ipp_text, http_text, attributes,
  mime_type, is_text, printer_uri, crlf,
}
use learn_apue.Spooler.Jobs.{PrintReq, PrintJob, Pending, get_newjobno, at_least_one, incr_int32}
use learn_apue.Spooler.Pending.{PendingAre}
use learn_apue.Spooler.Unreached.{add_worker-unreached}
use learn_apue.Spooler.Workers.{Workers, add_worker, kill_workers, client_cleanup}
use learn_apue.Spooler.Accept.{
  ClientIo, got, accepted, rejected, flags_after, append_file, serve_client, client_thread, ended,
  answer_request, create_data, close_data, write_blocks,
}
use learn_apue.Spooler.Files.{
  print_int, Daemon, whole_req, part_req, moved, failed, is_whole, error_of, moved_bytes, set_file,
}
use learn_apue.Bytes.Decimal.{print, is_space}
use learn_apue.Spooler.Threads.{client_thread-alone}
use learn_apue.Spooler.Client.{build_request, length-build_request}
use learn_apue.Spooler.Config.{
  scan_configfile, scan_line, match_line, scan_word, skip_space, word_bytes, nonempty, scan_value,
  with_value, config_line, text_of, join_lines, Other, scan_configfile-config_line,
}
use learn_apue.Spooler.Restart.{Listed, init_request, build_qonstart}
use learn_apue.Spooler.Recovery.{Listing, recovered, build_qonstart-recovered}
use learn_apue.Spooler.Jobno.{init_request-update_jobno}
use learn_apue.Spooler.Printing.{update_jobno, PrinterIo, printed, printer_round, word32}
use learn_apue.Spooler.Rounds.{
  backspace, Outcome, Drops, FitBuffers, taken, request_of, body_of, printer_round-Outcome,
  printer_round-printed,
}
use learn_apue.Spooler.Stored.{Untouched, IsStored, serve_client-Untouched, serve_client-accepted}

abbrev small_req : PrintReq
small_req = record { size = 12; flags = 1; usernm = codes "ann"; jobnm = codes "notes.txt" }

abbrev job_7 : PrintJob
job_7 = record { jobid = pos 7; req = small_req }

abbrev one_pending : Pending
one_pending = record {
  links = record { next = λ _. 0; prev = λ _. 0; head = 40; tail = 40 };
  jobs = λ _. job_7;
  nextjob = pos 2147483647;
}

one_pending-PendingAre : PendingAre one_pending (40 ∷ []) (job_7 ∷ [])
one_pending-PendingAre = record {
  links = record {
    linked = (refl, refl, tt);
    first = refl;
    last = refl;
    nonnull = (ground arith, tt);
    distinct = (tt, tt);
  };
  jobs = refl;
}

abbrev one_worker : Workers
one_worker = record {
  next = λ _. 0;
  prev = λ _. 0;
  workers = 16;
  threads = λ _. record { tid = 3; sockfd = 5 };
}

add_worker-unreached_example :
    (kill_workers 2 (add_worker 24 4 6 one_worker) ≡ some (3 ∷ []))
    × (client_cleanup 2 4 (add_worker 24 4 6 one_worker)
        ≡ some (none, add_worker 24 4 6 one_worker))
add_worker-unreached_example =
    add_worker-unreached 2 24 4 6 one_worker 16 [] (refl, ground arith, refl) (ground arith, tt)
      (ground arith, tt) (omega arith)

read_attributes-ipp_header_example :
    (ibuf : List ℕ) × (ipp_header (codes "laser") 7 small_req ≡ some ibuf)
    × (read_attributes 6 (drop 9 ibuf) ≡ some (attributes (codes "laser") small_req))
unfolding mime_type is_text
read_attributes-ipp_header_example =
    read_attributes-ipp_header (codes "laser") 7 small_req (omega arith) (omega arith)

-- A daemon with the job and its files.
abbrev daemon_7 : Daemon
daemon_7 = record {
  data_files = set_file (codes "7") (some (codes "hello")) (λ n. none);
  req_files = set_file (codes "7") (some (whole_req small_req)) (λ n. none);
  job_file = codes "7";
  pending = one_pending;
  workers = one_worker;
  reread = false;
  printer_name = codes "laser";
}

abbrev good_printer : PrinterIo
good_printer = record {
  updates = true;
  address = none;
  opens = true;
  stats = true;
  connects = true;
  headers = moved (
      length
        (http_text (codes "laser") (length (body_of (codes "laser") job_7 (codes "hello"))) 0 false)
      + length (ipp_text (codes "laser") 7 small_req));
  hack = moved 1;
  blocks = record { nr = 5; wrote = moved 5 } ∷ [];
  reads = true;
  status = true;
}

printer_round-Outcome_example :
    Outcome daemon_7 40 [] job_7 []
      (printer_round (record good_printer { status = false }) daemon_7)
printer_round-Outcome_example =
    printer_round-Outcome (record good_printer { status = false }) daemon_7 40 [] job_7 []
      one_pending-PendingAre

laser-FitBuffers : FitBuffers (codes "laser") job_7 (codes "hello")
unfolding printer_uri mime_type is_text http_text crlf print word32 ipp_text be16 be32 add_options
    attributes add_option backspace extra
laser-FitBuffers = record {
  str = omega arith;
  ibuf = omega (arith, length-ipp_text (codes "laser") 7 small_req);
  hbuf = omega arith;
}

printer_round-printed_example :
    (t : Daemon) × (printer_round good_printer daemon_7
      ≡ printed (request_of (codes "laser") job_7 (codes "hello")) t)
    × Drops daemon_7 t (pos 7) [] []
unfolding set_file is_whole taken word32 str_eq print_int print
printer_round-printed_example =
    printer_round-printed good_printer daemon_7 40 [] job_7 [] (codes "hello")
      one_pending-PendingAre refl refl laser-FitBuffers refl refl refl refl (==_refl _) refl
      (refl, tt) refl refl refl

abbrev good_client : ClientIo
good_client = record {
  request = got small_req;
  creat_data = none;
  stale = [];
  blocks =
      record { bytes = codes "%!PS-"; wrote = moved 5 }
      ∷ record { bytes = codes "x"; wrote = moved 1 }
      ∷ [];
  creat_req = none;
  write_req = moved 328;
  malloc = some 56;
}

serve_client-accepted_example :
    (t : Daemon) × (serve_client good_client daemon_7 ≡ some (accepted (pos 2147483647), t))
    × IsStored good_client
        (record small_req { flags = flags_after [] good_client.blocks 1 })
        56
        (40 ∷ [])
        (job_7 ∷ [])
        daemon_7
        t
unfolding is_whole
serve_client-accepted_example =
    serve_client-accepted good_client daemon_7 small_req 56 (40 ∷ []) (job_7 ∷ [])
      one_pending-PendingAre refl refl (refl, (refl, tt)) refl refl refl (ground arith)
      (ground arith, tt)

-- A client for whose document there is no room.
abbrev full_disk : ClientIo
full_disk = record good_client { blocks = record { bytes = codes "%!PS-"; wrote = failed 28 } ∷ [] }

abbrev after_full_disk : Daemon
after_full_disk = record daemon_7 {
  data_files = set_file (print_int (pos 2147483647)) none (
      append_file (print_int (pos 2147483647)) []
        (set_file (print_int (pos 2147483647)) (some []) daemon_7.data_files));
  pending = record one_pending { nextjob = pos 1 };
}

rejects_full_disk : serve_client full_disk daemon_7 ≡ some (rejected 28, after_full_disk)
unfolding serve_client answer_request create_data close_data write_blocks is_whole error_of
    get_newjobno moved_bytes at_least_one incr_int32
rejects_full_disk = refl

serve_client-Untouched_example : Untouched daemon_7 after_full_disk
unfolding set_file str_eq print_int print
serve_client-Untouched_example =
    serve_client-Untouched full_disk daemon_7 after_full_disk 28 refl refl rejects_full_disk

-- A spool directory with a whole request and a part of one.
abbrev spooled : Daemon
spooled = record daemon_7 {
  req_files = set_file (codes "8") (some part_req) daemon_7.req_files;
  pending = record {
    links = record { next = λ _. 0; prev = λ _. 0; head = 0; tail = 0 };
    jobs = λ _. job_7;
    nextjob = pos 9;
  };
}

spooled-PendingAre : PendingAre spooled.pending [] []
spooled-PendingAre = record {
  links = record { linked = tt; first = refl; last = refl; nonnull = tt; distinct = tt };
  jobs = refl;
}

abbrev readable : List ℕ → Listed
readable name = record { name = name; opens = true; reads = true }

abbrev listing : List Listed
listing = readable (codes ".") ∷ readable (codes "8") ∷ readable (codes "7") ∷ []

listing-Listing : Listing listing
unfolding str_eq
listing-Listing =
    (omega arith, (refl, (refl, tt)), (omega arith, (refl, tt), (omega arith, tt, tt)))

build_qonstart-recovered_example :
    (t : Daemon) × (ys : List ℕ) × (build_qonstart listing (some (16 ∷ 24 ∷ 32 ∷ [], 1000, spooled))
      ≡ some t)
    × PendingAre t.pending ys (take 1000 (recovered spooled.req_files listing))
build_qonstart-recovered_example =
    build_qonstart-recovered listing spooled (16 ∷ 24 ∷ 32 ∷ []) 1000 [] [] listing-Listing
      spooled-PendingAre
      (record {
        nonnull = (ground arith, (ground arith, (ground arith, tt)));
        apart = (tt, (tt, (tt, tt)));
        distinct = ((ground arith, (ground arith, tt)), ((ground arith, tt), (tt, tt)));
      })
      (omega arith)

init_request-update_jobno_example :
    (init_request [] (update_jobno (record spooled { job_file = codes "7" }))).pending.nextjob
    ≡ pos 9
unfolding print
init_request-update_jobno_example =
    init_request-update_jobno [] (record spooled { job_file = codes "7" })
      (update_jobno (record spooled { job_file = codes "7" })) 9 refl (omega arith) (omega arith)
      refl

abbrev ann_request : PrintReq
ann_request = build_request (some (codes "ann")) (codes "/home/ann/notes.txt") 12 true

length-build_request_example :
    (length ann_request.usernm < 64)
    × (length ann_request.jobnm < 256)
    × (length (ipp_text (codes "laser") 7 ann_request) ≤ 512)
    × (ipp_header (codes "laser") 7 ann_request ≡ some (ipp_text (codes "laser") 7 ann_request))
length-build_request_example =
    length-build_request (codes "laser") (codes "/home/ann/notes.txt") (some (codes "ann")) 7 12
      true (omega arith)

-- A line for another keyword, in front of the line.
on_line-Other : Other (codes "to") (codes "#on")
unfolding scan_line match_line scan_word skip_space word_bytes nonempty scan_value with_value
    is_space text_of
on_line-Other = record {
  one_line = (refl, (refl, (refl, tt)));
  fits = omega arith;
  no_match = refl;
}

scan_configfile-config_line_example :
    scan_configfile
      (codes "to")
      (join_lines (codes "#on" ∷ []) (config_line (codes "to") (codes "hp") ++ codes "x"))
    ≡ some (codes "hp")
unfolding is_space
scan_configfile-config_line_example =
    scan_configfile-config_line b't' b'h' (codes "o") (codes "p") (codes "#on" ∷ []) (codes "x")
      ((refl, refl), ((refl, refl), tt)) (omega arith) ((refl, refl), ((refl, refl), tt))
      (omega arith) (on_line-Other, tt)

-- A client that hangs up, with no other client there.
abbrev hung_up : ClientIo
hung_up = record good_client { request = ended }

abbrev no_clients : Daemon
no_clients = record daemon_7 { workers = record one_worker { workers = 0 } }

client_thread-alone_example :
    (w : Workers) × (client_thread 1 24 4 6 hung_up no_clients
      ≡ some (rejected 5, some 6, record no_clients { workers = w }))
    × (w.workers ≡ 0)
unfolding serve_client answer_request
client_thread-alone_example =
    client_thread-alone 0 24 4 6 hung_up no_clients
      (record no_clients { workers = add_worker 24 4 6 no_clients.workers }) (rejected 5) refl
      (ground arith) refl
