-- ===== src/Db/Writers.antt =====
-- What the writers of db/db.c do when no check stops them.
use learn_apue.Base.{ℕ, ◌+◌, ◌*◌, ◌≤◌, ◌≡◌, refl, ◌∙◌, List, [], ◌∷◌, ◌++◌, arith, length, le→ltb}
use learn_apue.Base.Int.{pos}
use learn_apue.Bytes.Decimal.{pad}
use learn_apue.Bytes.File.{write_at}
use learn_apue.Db.Disk.{
  Whence, seek_set, seek_end, lock_end, unlock_end, writedat, index_line, put_index, writeidx,
  writeptr,
}
use learn_apue.Db.State.{Db, idxfd, datfd, Lock, drop_lock, ok, ptr_max, newline}

-- The lock of one byte of the index file.
abbrev pub byte_lock : ℕ → Lock
byte_lock a = record { fd = idxfd; start = a; len = 1 }

-- `_db_writeptr` prints the pointer into its field.
pub writeptr-lem :
    (o n : ℕ) (s : Db)
    → n ≤ ptr_max
    → writeptr o (pos n) s ≡ ok tt (record s { idx = write_at s.idx o (pad 7 n); idx_pos = o + 7 })
unfolding writeptr
writeptr-lem o n s h = rw (le→ltb ptr_max n h)

-- The state after `_db_writedat` at `o`.
abbrev pub data_written : List ℕ → ℕ → Db → Db
data_written v o s = record s {
  datoff = o;
  datlen = length v + 1;
  dat = write_at s.dat o (v ++ newline ∷ []);
}

pub writedat-set :
    (v : List ℕ) (o : ℕ) (s : Db) → writedat v o seek_set s ≡ ok tt (data_written v o s)
unfolding writedat lock_end unlock_end
writedat-set v o s = refl

-- Data is appended under a lock of the data file, which is dropped again.
pub writedat-end :
    (v : List ℕ) (s : Db) (a : ℕ)
    → s.locks ≡ byte_lock a ∷ []
    → writedat v 0 seek_end s ≡ ok tt (data_written v (length s.dat) s)
unfolding writedat lock_end unlock_end drop_lock
writedat-end v s a e =
    let size : length s.dat + 0 ≡ length s.dat = omega arith in
    let kept : drop_lock datfd 0 0 s.locks ≡ s.locks = rw e in rw (size, kept)

-- The state after `_db_writeidx` at `o`.
abbrev pub index_written : List ℕ → ℕ → ℕ → Db → Db
index_written key o n s =
    let line = index_line key s.datoff s.datlen in
    let bytes = pad 7 n ++ (pad 4 (length line) ++ line) in
    record s {
      ptrval = pos n;
      idxbuf = line;
      idxoff = o;
      idx = write_at s.idx o bytes;
      idx_pos = o + length bytes;
    }

-- The printed line has a length that the library accepts.
abbrev pub Fits : List ℕ → ℕ → ℕ → Type 0
Fits key o l = (6 ≤ length (index_line key o l)) × (length (index_line key o l) ≤ 1024)

writeidx-checked :
    (key : List ℕ) (o n : ℕ) (w : Whence) (s : Db)
    → n ≤ ptr_max
    → Fits key s.datoff s.datlen
    → writeidx key o w (pos n) s
      ≡ put_index o w n (record s { ptrval = pos n; idxbuf = index_line key s.datoff s.datlen })
unfolding writeidx
writeidx-checked key o n w s le fits =
    let len = length (index_line key s.datoff s.datlen) in
    rw (
      le→ltb ptr_max n le,
      le→ltb 1026 (len + 1) (omega arith),
      le→ltb len 6 fits.0,
      le→ltb 1024 len fits.1,
    )

pub writeidx-set :
    (key : List ℕ) (o n : ℕ) (s : Db)
    → n ≤ ptr_max
    → Fits key s.datoff s.datlen
    → writeidx key o seek_set (pos n) s ≡ ok tt (index_written key o n s)
unfolding put_index lock_end unlock_end
writeidx-set key o n s le fits = writeidx-checked key o n seek_set s le fits

pub writeidx-end :
    (key : List ℕ) (n : ℕ) (s : Db) (a : ℕ)
    → n ≤ ptr_max
    → Fits key s.datoff s.datlen
    → s.locks ≡ byte_lock a ∷ []
    → writeidx key 0 seek_end (pos n) s ≡ ok tt (index_written key (length s.idx) n s)
unfolding put_index lock_end unlock_end drop_lock
writeidx-end key n s a le fits e =
    let size : length s.idx + 0 ≡ length s.idx = omega arith in
    let start = (s.nhash + 1) * 7 + 1 in
    let kept : drop_lock idxfd start 0 s.locks ≡ s.locks = rw e (ground arith) in
    let own : drop_lock idxfd start 0 (record { fd = idxfd; start = start; len = 0 } ∷ s.locks)
        ≡ drop_lock idxfd start 0 s.locks =
      ground arith in
    writeidx-checked key 0 n seek_end s le fits ∙ rw (size, own, kept)
