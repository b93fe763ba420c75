-- ===== src/Db/Open.antt =====
-- `db_open` of db/db.c with `_db_alloc`, `_db_free` and `db_close`, over the disk that holds the two
-- files. Descriptors are not numbered, and a file that can be opened can be read and written.
use learn_apue.Base.{
  ℕ, zero, suc, ◌+◌, Bool, true, false, ◌&&◌, Option, none, some, List, [], ◌∷◌, ◌++◌, length, ◌==◌,
  if◌then◌else◌,
}
use learn_apue.Base.Int.{pos}
use learn_apue.Bytes.Decimal.{pad}
use learn_apue.Bytes.File.{File, write_at}
use learn_apue.Db.State.{
  newline, ptr_sz, nhash_def, hash_off, idxfd, Db, Run, M, pure, ◌>>◌, modify, lock, un_lock,
}
use learn_apue.Db.Ops.{rewind}

pub record Disk : Type 0 where
  pub idx_file : Option File
  pub dat_file : Option File

-- `open` with the flags O_CREAT and O_TRUNC.
unfoldable pub open_file : Bool → Bool → Option File → Option File
open_file creat trunc none = if creat then some [] else none
open_file creat trunc (some f) = some (if trunc then [] else f)

-- `_db_alloc`, and the two fields that `db_open` sets at once. The buffers are empty strings.
unfoldable pub alloc : File → File → Db
alloc i d = record {
  idx = i;
  dat = d;
  idx_pos = 0;
  locks = [];
  errno = 0;
  idxbuf = [];
  datbuf = [];
  idxoff = 0;
  idxlen = 0;
  datoff = 0;
  datlen = 0;
  ptrval = pos 0;
  ptroff = 0;
  chainoff = 0;
  hashoff = hash_off;
  nhash = nhash_def;
  cnt_delok = 0;
  cnt_delerr = 0;
  cnt_fetchok = 0;
  cnt_fetcherr = 0;
  cnt_nextrec = 0;
  cnt_stor1 = 0;
  cnt_stor2 = 0;
  cnt_stor3 = 0;
  cnt_stor4 = 0;
  cnt_storerr = 0;
}

-- `n` chain pointers of value 0.
unfoldable pub zero_ptrs : ℕ → List ℕ
zero_ptrs zero = []
zero_ptrs (suc n) = pad ptr_sz 0 ++ zero_ptrs n

-- The initial contents of the index file: the free list pointer, the hash table, a newline.
unfoldable pub empty_table : List ℕ
empty_table = zero_ptrs (nhash_def + 1) ++ newline ∷ []

unfoldable pub init_table : Bool → M (Unit {0})
init_table false = pure tt
init_table true = do
  lock idxfd 0 0
  modify (λ s.
      if length s.idx == 0
      then record s {
        idx = write_at s.idx s.idx_pos empty_table;
        idx_pos = s.idx_pos + length empty_table;
      }
      else s)
  un_lock idxfd 0 0

-- The handle that `db_open` returns, none for NULL.
unfoldable pub open_handle : Bool → Bool → Option File → Option File → Option (Run (Unit {0}))
open_handle creat trunc none d = none
open_handle creat trunc (some i) none = none
open_handle creat trunc (some i) (some d) =
    some ((init_table (creat && trunc) >> rewind) (alloc i d))

-- `db_open`: what the disk holds once the files are open, and the handle.
unfoldable pub open_db : Bool → Bool → Disk → Disk × Option (Run (Unit {0}))
open_db creat trunc k =
    let i = open_file creat trunc k.idx_file in
    let d = open_file creat trunc k.dat_file in
    (record { idx_file = i; dat_file = d }, open_handle creat trunc i d)

-- `db_close`: the files keep what was written, and the process's locks on them go.
unfoldable pub close_db : Db → Disk
close_db s = record { idx_file = some s.idx; dat_file = some s.dat }
