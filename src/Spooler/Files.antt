-- ===== src/Spooler/Files.antt =====
-- The spool directory and the other state of the daemon of printer/printd.c.
use learn_apue.Base.{
  ℕ, suc, ◌≡◌, Bool, false, Option, List, ◌∷◌, ◌==◌, if◌then◌else◌, str_eq, str_eq_refl,
}
use learn_apue.Bytes.Decimal.{print}
use learn_apue.Base.Int.{ℤ, pos, negsuc}
use learn_apue.Spooler.Jobs.{PrintReq, Pending}
use learn_apue.Spooler.Workers.{Workers}

-- What a request file holds: a whole `struct printreq`, or less.
pub data ReqFile : Type 0 where
  whole_req : PrintReq → ReqFile
  part_req : ReqFile

-- The files of `SPOOLDIR/DATADIR` and of `SPOOLDIR/REQDIR` by their names, the contents of the job file, and the globals; the addresses of the printer are not modelled.
pub record Daemon : Type 0 where
  pub data_files : List ℕ → Option (List ℕ)
  pub req_files : List ℕ → Option ReqFile
  pub job_file : List ℕ
  pub pending : Pending
  pub workers : Workers
  pub reread : Bool
  pub printer_name : List ℕ

-- What `write`, `writev` or `writen` did: it wrote so many bytes, or failed with an `errno`.
pub data Transfer : Type 0 where
  moved : ℕ → Transfer
  failed : ℕ → Transfer

-- Whether it wrote all of so many bytes.
unfoldable pub is_whole : Transfer → ℕ → Bool
is_whole (moved n) k = n == k
is_whole (failed e) k = false

-- The error that is reported: `EIO` (5) for a short transfer.
unfoldable pub error_of : Transfer → ℕ
error_of (moved n) = 5
error_of (failed e) = e

unfoldable pub moved_bytes : Transfer → ℕ
moved_bytes (moved n) = n
moved_bytes (failed e) = 0

-- `%d`, the name of a job's files.
unfoldable pub print_int : ℤ → List ℕ
print_int (pos n) = print n
print_int (negsuc n) = b'-' ∷ print (suc n)

module _ {A : Type 0} where
  -- `creat` and `unlink` of the file of the name.
  unfoldable pub set_file : List ℕ → Option A → (List ℕ → Option A) → List ℕ → Option A
  set_file n v f m = if str_eq n m then v else f m

  pub set_file_other :
      (n m : List ℕ) (v : Option A) (f : List ℕ → Option A)
      → str_eq n m ≡ false
      → set_file n v f m ≡ f m
  unfolding set_file
  set_file_other n m v f e = rw e

pub set_file_same :
    {A : Type 0} → (n : List ℕ) (v : Option A) (f : List ℕ → Option A) → set_file n v f n ≡ v
unfolding set_file
set_file_same n v f = rw (str_eq_refl n)
