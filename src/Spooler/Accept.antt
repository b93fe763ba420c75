-- ===== src/Spooler/Accept.antt =====
-- `client_thread` of printer/printd.c: a client's request and document are stored and queued.
use learn_apue.Base.{
  ℕ, ◌+◌, ◌-◌, ◌%◌, Bool, Option, none, some, List, [], ◌∷◌, ◌++◌, take, drop, length, str_eq,
  if◌then◌else◌,
}
use learn_apue.Base.Int.{ℤ}
use learn_apue.Bytes.Text.{codes}
use learn_apue.Spooler.Files.{
  Daemon, whole_req, part_req, Transfer, is_whole, error_of, moved_bytes, print_int, set_file,
}
use learn_apue.Spooler.Jobs.{PrintReq, Pending, get_newjobno, add_job}
use learn_apue.Spooler.Workers.{Workers, add_worker, client_cleanup}

-- What `treadn` makes of the request: the structure, its numbers in the host's order; the end of
-- the stream before it is whole; an error.
pub data RequestRead : Type 0 where
  got : PrintReq → RequestRead
  ended : RequestRead
  broken : ℕ → RequestRead

-- A block that `tread` returns, and what `write` does with it.
pub record Block : Type 0 where
  pub bytes : List ℕ
  pub wrote : Transfer

-- What the system calls of a thread do. A `creat` succeeds, none, or fails with an error. `stale` is
-- what the buffer holds before the first block comes; the blocks go on until `tread` returns 0 or -1.
pub record ClientIo : Type 0 where
  pub request : RequestRead
  pub creat_data : Option ℕ
  pub stale : List ℕ
  pub blocks : List Block
  pub creat_req : Option ℕ
  pub write_req : Transfer
  pub malloc : Option ℕ

-- The `struct printresp`: a job number, or the error.
pub data Reply : Type 0 where
  accepted : ℤ → Reply
  rejected : ℕ → Reply

-- `strncmp(buf, "%!PS", 4) == 0`
unfoldable pub is_postscript : List ℕ → Bool
is_postscript buf = str_eq (take 4 buf) (codes "%!PS")

-- `flags |= PR_TEXT`
unfoldable pub set_text : ℕ → ℕ
set_text flags = flags - flags % 2 + 1

-- The flags after the first block has come into the buffer.
unfoldable pub flags_after : List ℕ → List Block → ℕ → ℕ
flags_after stale [] flags = flags
flags_after stale (b ∷ bs) flags =
    if is_postscript (b.bytes ++ drop (length b.bytes) stale) then flags else set_text flags

unfoldable pub add_bytes : List ℕ → Option (List ℕ) → Option (List ℕ)
add_bytes s none = none
add_bytes s (some c) = some (c ++ s)

unfoldable pub append_file : List ℕ → List ℕ → (List ℕ → Option (List ℕ)) → List ℕ → Option (List ℕ)
append_file n s f = set_file n (add_bytes s (f n)) f

-- The loop that stores the blocks; the error that ends it, if one does.
unfoldable pub write_blocks :
    List ℕ → List Block → (List ℕ → Option (List ℕ)) → Option ℕ × (List ℕ → Option (List ℕ))
write_blocks name [] f = (none, f)
write_blocks name (b ∷ bs) f =
    let rest = write_blocks name bs (append_file name b.bytes f) in
    if is_whole b.wrote (length b.bytes)
    then rest
    else (some (error_of b.wrote), append_file name (take (moved_bytes b.wrote) b.bytes) f)

-- The reply is sent, and the job is queued; without memory for it the daemon ends, none.
unfoldable pub enqueue : ℤ → Daemon → Option Pending → Option (Reply × Daemon)
enqueue jobid d none = none
enqueue jobid d (some p) = some (accepted jobid, record d { pending = p })

-- The request is written to its file. It takes `sizeof(struct printreq)` = 328 bytes.
unfoldable pub write_request : ClientIo → PrintReq → ℤ → Daemon → Option (Reply × Daemon)
write_request io req jobid d =
    if is_whole io.write_req 328
    then enqueue jobid
        (record d { req_files = set_file (print_int jobid) (some (whole_req req)) d.req_files })
        (add_job io.malloc req jobid d.pending)
    else some (
      rejected (error_of io.write_req),
      record d {
        req_files =
            set_file (print_int jobid) none
              (set_file (print_int jobid) (some part_req) d.req_files);
        data_files = set_file (print_int jobid) none d.data_files;
      },
    )

unfoldable pub create_request :
    Option ℕ → ClientIo → PrintReq → ℤ → Daemon → Option (Reply × Daemon)
create_request (some e) io req jobid d =
    some (rejected e, record d { data_files = set_file (print_int jobid) none d.data_files })
create_request none io req jobid d =
    write_request io req jobid
      (record d { req_files = set_file (print_int jobid) (some part_req) d.req_files })

-- After the loop on the blocks.
unfoldable pub close_data :
    Option ℕ × (List ℕ → Option (List ℕ))
    → ClientIo
    → PrintReq
    → ℤ
    → Daemon
    → Option (Reply × Daemon)
close_data (some e, f) io req jobid d =
    some (rejected e, record d { data_files = set_file (print_int jobid) none f })
close_data (none, f) io req jobid d =
    create_request io.creat_req io (record req { flags = flags_after io.stale io.blocks req.flags })
      jobid (record d { data_files = f })

unfoldable pub create_data : Option ℕ → ClientIo → PrintReq → ℤ → Daemon → Option (Reply × Daemon)
create_data (some e) io req jobid d = some (rejected e, d)
create_data none io req jobid d =
    close_data
      (write_blocks (print_int jobid) io.blocks (set_file (print_int jobid) (some []) d.data_files))
      io req jobid d

unfoldable pub answer_request : RequestRead → ClientIo → Daemon → Option (Reply × Daemon)
answer_request ended io d = some (rejected 5, d)
answer_request (broken e) io d = some (rejected e, d)
answer_request (got req) io d =
    create_data io.creat_data io req (get_newjobno d.pending).0
      (record d { pending = (get_newjobno d.pending).1 })

-- `client_thread` between `add_worker` and the cleanup.
unfoldable pub serve_client : ClientIo → Daemon → Option (Reply × Daemon)
serve_client io d = answer_request io.request io d

unfoldable pub cleaned :
    Reply → Daemon → Option (Option ℕ × Workers) → Option (Reply × Option ℕ × Daemon)
cleaned reply d none = none
cleaned reply d (some (closed, w)) = some (reply, closed, record d { workers = w })

-- A whole `client_thread`: the reply, the socket that the cleanup closes, and the state. None if the
-- daemon ends, or the rounds of the cleanup's loop are used up.
unfoldable pub clean_up : ℕ → ℕ → Option (Reply × Daemon) → Option (Reply × Option ℕ × Daemon)
clean_up rounds tid none = none
clean_up rounds tid (some (reply, d)) = cleaned reply d (client_cleanup rounds tid d.workers)

unfoldable pub client_thread :
    ℕ → ℕ → ℕ → ℕ → ClientIo → Daemon → Option (Reply × Option ℕ × Daemon)
client_thread rounds wtp tid sockfd io d =
    clean_up rounds tid
      (serve_client io (record d { workers = add_worker wtp tid sockfd d.workers }))
