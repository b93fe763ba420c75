-- ===== src/Spooler/Jobs.antt =====
-- The list of pending jobs of printer/printd.c, and the job numbers.
use learn_apue.Base.{ℕ, zero, suc, Option, none, some, List, ◌==◌, if◌then◌else◌}
use learn_apue.Base.Int.{ℤ, pos, negsuc}
use learn_apue.Links.Ends.{Ends, insert_head, append_tail, unlink_node}
use learn_apue.Links.Payload.{put_at}

-- `struct printreq`; a name is the string up to its null byte.
pub record PrintReq : Type 0 where
  pub size : ℕ
  pub flags : ℕ
  pub usernm : List ℕ
  pub jobnm : List ℕ

-- `struct job` without its links.
pub record PrintJob : Type 0 where
  pub jobid : ℤ
  pub req : PrintReq

-- `jobhead`, `jobtail`, the jobs that they lead to, and `nextjob`. An operation holds `joblock` from
-- its first step to its last.
pub record Pending : Type 0 where
  pub links : Ends
  pub jobs : ℕ → PrintJob
  pub nextjob : ℤ

-- `nextjob++`: an `int32_t` wraps round.
unfoldable pub incr_int32 : ℤ → ℤ
incr_int32 (pos n) = if n == 2147483647 then negsuc 2147483647 else pos (suc n)
incr_int32 (negsuc zero) = pos 0
incr_int32 (negsuc (suc n)) = negsuc n

unfoldable pub at_least_one : ℤ → ℤ
at_least_one (pos zero) = pos 1
at_least_one (pos (suc n)) = pos (suc n)
at_least_one (negsuc n) = pos 1

-- `get_newjobno`
unfoldable pub get_newjobno : Pending → ℤ × Pending
get_newjobno s = (s.nextjob, record s { nextjob = at_least_one (incr_int32 s.nextjob) })

-- `add_job`. The address is what `malloc` returns; without one the daemon ends, none.
unfoldable pub add_job : Option ℕ → PrintReq → ℤ → Pending → Option Pending
add_job none reqp jobid s = none
add_job (some jp) reqp jobid s = some (record s {
  links = append_tail jp s.links;
  jobs = put_at jp (record { jobid = jobid; req = reqp }) s.jobs;
})

-- `replace_job`
unfoldable pub replace_job : ℕ → Pending → Pending
replace_job jp s = record s { links = insert_head jp s.links }

-- `remove_job`
unfoldable pub remove_job : ℕ → Pending → Pending
remove_job target s = record s { links = unlink_node target s.links }

-- The start of a round of `printer_thread`: the first job is taken out; none if it waits.
unfoldable pub pick_job : Pending → Option (ℕ × Pending)
pick_job s = if s.links.head == 0 then none else some (s.links.head, remove_job s.links.head s)
