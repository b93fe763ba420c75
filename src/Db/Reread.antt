-- ===== src/Db/Reread.antt =====
-- An index record of db/db.c is read back as it was written.
use learn_apue.Base.{
  ℕ, ◌+◌, ◌≤◌, ◌≡◌, refl, List, ◌++◌, arith, length, length-append, take-append, drop-append, ◌==◌,
  false, ==_refl, le→ltb,
}
use learn_apue.Base.Int.{pos}
use learn_apue.Bytes.Decimal.{pad, atol-pad}
use learn_apue.Bytes.File.{read_at, Holds, write_at-Holds, read_at-Holds, Holds-append, Holds-join}
use learn_apue.Db.Disk.{seek_set, readidx, read_line, take_line, writeidx, index_line}
use learn_apue.Db.Line.{IsKey, parse_line-index_line}
use learn_apue.Db.Records.{length-pad7, length-pad4}
use learn_apue.Db.State.{Db, ok, ptr_max}
use learn_apue.Db.Writers.{Fits, index_written, writeidx-set}

-- The state after `_db_readidx` has read a record of the key at `o`, with the pointer `n`.
abbrev pub reread : List ℕ → ℕ → ℕ → Db → Db
reread key o n t =
    let len = length (index_line key t.datoff t.datlen) in
    record t { idx_pos = o + 11 + len; idxbuf = key; idxoff = o; idxlen = len; ptrval = pos n }

take_line-index_line :
    (key : List ℕ) (n o l len : ℕ) (s : Db)
    → IsKey key
    → 1 ≤ l
    → l ≤ 1024
    → take_line (pos n) len (index_line key o l) s
      ≡ ok (pos n) (record s {
        idx_pos = s.idx_pos + len;
        ptrval = pos n;
        idxlen = len;
        idxbuf = key;
        datoff = o;
        datlen = l;
      })
unfolding take_line
take_line-index_line key n o l len s k lo hi =
    rw (parse_line-index_line key o l k lo hi, take_line) refl

module _ (key : List ℕ) (o n : ℕ) (t : Db) (k : IsKey key) (lo : 1 ≤ t.datlen)
    (hi : t.datlen ≤ 1024) (o_pos : 1 ≤ o) (n_le : n ≤ ptr_max)
    (fits : Fits key t.datoff t.datlen) where
  abbrev line : List ℕ
  line = index_line key t.datoff t.datlen

  readidx-Holds :
      Holds t.idx o (pad 7 n ++ (pad 4 (length line) ++ line))
      → readidx (pos o) t ≡ ok (pos n) (reread key o n t)
  unfolding readidx read_line
  readidx-Holds h =
      let len = length line in
      let seven = length-pad7 n n_le in
      let four = length-pad4 len fits.1 in
      let (p, rest) = Holds-append t.idx o (pad 7 n) _ h in
      let (q, at_line) = Holds-append t.idx (o + length (pad 7 n)) (pad 4 len) line rest in
      let size : length (pad 7 n ++ pad 4 len) ≡ 11 = rw (length-append, seven, four) in
      let front : read_at t.idx o 11 ≡ pad 7 n ++ pad 4 len =
        rw size at (read_at-Holds t.idx o _ (Holds-join t.idx o _ _ p q)) in
      let place : o + length (pad 7 n) + length (pad 4 len) ≡ o + 11 = omega (arith, seven, four) in
      let body : read_at t.idx (o + 11) len ≡ line =
        read_at-Holds t.idx (o + 11) line (rw place at at_line) in
      let nonzero : (o == 0) ≡ false = ground (arith, o_pos) in
      rw (nonzero, front, length-append, seven, four, take-append 7 _ (pad 4 len) seven)
        (rw
          (
            drop-append 7 _ (pad 4 len) seven,
            atol-pad 7 n,
            atol-pad 4 len,
            le→ltb len 6 fits.0,
            le→ltb 1024 len fits.1,
            body,
            ==_refl len,
          )
          (take_line-index_line key n t.datoff t.datlen len _ k lo hi))

-- Let a key have neither null byte nor separator, the data's length be from 1 to DATLEN_MAX, the
-- pointer be at most PTR_MAX, and the line that is printed have IDXLEN_MIN to IDXLEN_MAX bytes. Then
-- `_db_writeidx` of the key and the pointer at an offset other than 0 succeeds, and `_db_readidx` at
-- this offset then returns the pointer, with the key in the buffer and the place and the length of
-- the data as they were written; it changes neither file.
pub readidx-writeidx :
    (key : List ℕ) (o n : ℕ) (s : Db)
    → IsKey key
    → 1 ≤ s.datlen
    → s.datlen ≤ 1024
    → 1 ≤ o
    → n ≤ ptr_max
    → Fits key s.datoff s.datlen
    → (writeidx key o seek_set (pos n) s ≡ ok tt (index_written key o n s))
      × (readidx (pos o) (index_written key o n s)
          ≡ ok (pos n) (reread key o n (index_written key o n s)))
readidx-writeidx key o n s k lo hi o_pos n_le fits = (
  writeidx-set key o n s n_le fits,
  readidx-Holds key o n (index_written key o n s) k lo hi o_pos n_le fits
      (write_at-Holds s.idx o _),
)
