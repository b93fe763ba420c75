-- ===== src/Spooler/Restart.antt =====
-- How the daemon of printer/printd.c starts: the job number and the requests in the spool directory.
use learn_apue.Base.{
  ℕ, zero, suc, Bool, false, ◌-◌, ◌%◌, ◌^◌, ◌<◌, ◌≡◌, arith, true, Option, none, some, List, [],
  ◌∷◌, ◌++◌, take, drop, length, ltb, if◌then◌else◌,
}
use learn_apue.Base.Int.{ℤ, pos, negsuc}
use learn_apue.Bytes.Decimal.{atol}
use learn_apue.Bytes.Text.{codes, is_dots}
use learn_apue.Spooler.Files.{Daemon, ReqFile, whole_req, part_req, set_file}
use learn_apue.Spooler.Jobs.{PrintReq, Pending, add_job}

-- A `long` is stored in an `int32_t`.
unfoldable pub int32_of : ℤ → ℤ
int32_of (pos n) = let m = n % 2 ^ 32 in if ltb m (2 ^ 31) then pos m else negsuc (2 ^ 32 - m - 1)
int32_of (negsuc n) =
    let m = n % 2 ^ 32 in if ltb m (2 ^ 31) then negsuc m else pos (2 ^ 32 - m - 1)

pub int32_of_small : (n : ℕ) → n < 2 ^ 31 → int32_of (pos n) ≡ pos n
unfolding int32_of
int32_of_small n h =
    let small : n % 2 ^ 32 ≡ n = omega arith in
    let positive : ltb n (2 ^ 31) ≡ true = ground arith in rw (small, positive)

-- The buffer that `atol` reads: up to 64 bytes of the job file, over the name of the file that
-- `sprintf` put there with its null byte, over what the stack held.
unfoldable pub job_buffer : List ℕ → List ℕ → List ℕ
job_buffer stack file =
    let read = take 64 file in
    let name = codes "/var/spool/printer/jobno" ++ (0 ∷ []) in
    read ++ drop (length read) (name ++ drop (length name) stack)

-- `nextjob` that `init_request` finds, given the contents of the job file.
unfoldable pub first_jobno : List ℕ → List ℕ → ℤ
first_jobno stack [] = pos 1
first_jobno stack (c ∷ file) = int32_of (atol (job_buffer stack (c ∷ file)))

-- `init_request`; the lock on the job file is not modelled.
unfoldable pub init_request : List ℕ → Daemon → Daemon
init_request stack d = record d {
  pending = record d.pending { nextjob = first_jobno stack d.job_file };
}

-- A name that `readdir` returns, whether `open` of its request file succeeds if a descriptor is left,
-- and whether `read` of it does not fail.
pub record Listed : Type 0 where
  pub name : List ℕ
  pub opens : Bool
  pub reads : Bool

-- The addresses that `malloc` has left, how many descriptors the daemon can still open, and its state.
abbrev pub Starting : Type 0
Starting = List ℕ × ℕ × Daemon

-- None if the daemon ends, which it does if `add_job` has no memory.
unfoldable pub queued : List ℕ → ℕ → Daemon → Option Pending → Option Starting
queued left room d none = none
queued left room d (some p) = some (left, room, record d { pending = p })

unfoldable pub add_request : List ℕ → ℕ → PrintReq → ℤ → Daemon → Option Starting
add_request [] room r jobid d = queued [] room d (add_job none r jobid d.pending)
add_request (a ∷ left) room r jobid d = queued left room d (add_job (some a) r jobid d.pending)

-- The request file and the data file of the name are unlinked.
unfoldable pub drop_request : List ℕ → Daemon → Daemon
drop_request name d = record d {
  req_files = set_file name none d.req_files;
  data_files = set_file name none d.data_files;
}

-- The job number that the name of a file stands for.
unfoldable pub job_of_name : List ℕ → ℤ
job_of_name name = int32_of (atol name)

-- An open request file is read, with so many descriptors left. It is closed only if it is dropped,
-- because the read failed or it is too short.
unfoldable pub requeue : List ℕ → Bool → ReqFile → List ℕ → ℕ → Daemon → Option Starting
requeue name false file addresses room d = some (addresses, suc room, drop_request name d)
requeue name true part_req addresses room d = some (addresses, suc room, drop_request name d)
requeue name true (whole_req r) addresses room d = add_request addresses room r (job_of_name name) d

-- Without a file, a descriptor or permission, `open` fails, and the name is passed over.
unfoldable pub open_request : Listed → Option ReqFile → List ℕ → ℕ → Daemon → Option Starting
open_request e none addresses room d = some (addresses, room, d)
open_request e (some file) addresses zero d = some (addresses, zero, d)
open_request e (some file) addresses (suc room) d =
    if e.opens then requeue e.name e.reads file addresses room d else some (addresses, suc room, d)

-- The longest name that fits `fname[64]` behind the directory, which is not checked.
abbrev pub max_name : ℕ
max_name = 39

-- None if the daemon ends or `fname` is overrun.
unfoldable pub one_entry : Listed → List ℕ → ℕ → Daemon → Option Starting
one_entry e addresses room d =
    if is_dots e.name
    then some (addresses, room, d)
    else if ltb max_name (length e.name)
    then none
    else open_request e (d.req_files e.name) addresses room d

-- The loop of `build_qonstart` over what `readdir` returns; a directory that cannot be opened lists
-- nothing.
unfoldable pub build_qonstart : List Listed → Option Starting → Option Daemon
build_qonstart entries none = none
build_qonstart [] (some (addresses, room, d)) = some d
build_qonstart (e ∷ entries) (some (addresses, room, d)) =
    build_qonstart entries (one_entry e addresses room d)
