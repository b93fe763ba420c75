-- ===== src/Db/Records.antt =====
-- Records of the two files as values, and what the readers of db/db.c make of them.
use learn_apue.Base.{
  ℕ, ◌+◌, ◌≤◌, ◌≡◌, refl, true, false, some, List, [], ◌∷◌, ◌++◌, arith, length, ◌==◌,
  length-append, take-append, drop-append, ==_refl, le→ltb,
}
use learn_apue.Base.Int.{pos}
use learn_apue.Bytes.Decimal.{pad, atol-pad, length-pad}
use learn_apue.Bytes.File.{File, read_at, Holds, read_at-Holds, Holds-append, Holds-join}
use learn_apue.Db.Disk.{readptr, readidx, read_line, take_line, readdat, index_line, chomp}
use learn_apue.Db.Line.{Lacks, IsKey, parse_line-index_line, chomp-append, c_string-Lacks}
use learn_apue.Db.State.{newline, ptr_max, Db, ok}
use mathlib.Core.List.{append-nil}

-- An index record at `off` and its data.
pub record Entry : Type 0 where
  pub off : ℕ
  pub next : ℕ
  pub datoff : ℕ
  pub key : List ℕ
  pub value : List ℕ

abbrev pub line_of : Entry → List ℕ
line_of e = index_line e.key e.datoff (length e.value + 1)

abbrev pub index_record : Entry → List ℕ
index_record e = pad 7 e.next ++ (pad 4 (length (line_of e)) ++ line_of e)

-- What the library asks of a record's parts.
pub record IsRecord (e : Entry) : Type 0 where
  pub key : IsKey e.key
  pub clean : Lacks 0 e.value
  pub off_pos : 1 ≤ e.off
  pub next_le : e.next ≤ ptr_max
  pub value_le : length e.value + 1 ≤ 1024
  pub line_ge : 6 ≤ length (line_of e)
  pub line_le : length (line_of e) ≤ 1024

-- The record stands in the files.
pub record Stands (i d : File) (e : Entry) : Type 0 where
  pub is_record : IsRecord e
  pub idx : Holds i e.off (index_record e)
  pub dat : Holds d e.datoff (e.value ++ newline ∷ [])

-- The state after `_db_readidx` has read a record.
abbrev pub loaded : Entry → Db → Db
loaded e s = record s {
  idx_pos = e.off + 11 + length (line_of e);
  idxbuf = e.key;
  idxoff = e.off;
  idxlen = length (line_of e);
  datoff = e.datoff;
  datlen = length e.value + 1;
  ptrval = pos e.next;
}

pub length-pad7 : (n : ℕ) → n ≤ ptr_max → length (pad 7 n) ≡ 7
length-pad7 n h = length-pad 6 n (omega arith)

pub length-pad4 : (n : ℕ) → n ≤ 1024 → length (pad 4 n) ≡ 4
length-pad4 n h = length-pad 3 n (omega arith)

pub length-index_record :
    (e : Entry) → IsRecord e → length (index_record e) ≡ 11 + length (line_of e)
length-index_record e r =
    rw (length-append, length-append, length-pad7 e.next r.next_le, length-pad4 _ r.line_le)
      (omega arith)

-- A pointer field is read as the number that was printed.
pub readptr-Holds :
    (o n : ℕ) (s : Db)
    → n ≤ ptr_max
    → Holds s.idx o (pad 7 n)
    → readptr o s ≡ ok (pos n) (record s { idx_pos = o + 7 })
unfolding readptr
readptr-Holds o n s le h =
    let bytes : read_at s.idx o 7 ≡ pad 7 n =
      rw (length-pad7 n le) at (read_at-Holds s.idx o (pad 7 n) h) in
    rw (bytes, length-pad7 n le, atol-pad 7 n)

module _ {i d : File} {e : Entry} (h : Stands i d e) where
  front_Holds :
      Holds i e.off (pad 7 e.next ++ pad 4 (length (line_of e))) × Holds i (e.off + 11) (line_of e)
  front_Holds =
      let r = h.is_record in
      let (p, rest) = Holds-append i e.off (pad 7 e.next) _ h.idx in
      let (l, line) = Holds-append i (e.off + length (pad 7 e.next)) (pad 4 _) _ rest in
      let e7 = length-pad7 e.next r.next_le in
      let at : e.off + length (pad 7 e.next) + length (pad 4 (length (line_of e))) ≡ e.off + 11 =
        omega (arith, e7, length-pad4 (length (line_of e)) r.line_le) in
      (Holds-join i e.off _ _ p l, rw at at line)

  pub front_read : read_at i e.off 11 ≡ pad 7 e.next ++ pad 4 (length (line_of e))
  front_read =
      let r = h.is_record in
      let n : length (pad 7 e.next ++ pad 4 (length (line_of e))) ≡ 11 =
        rw (length-append, length-pad7 e.next r.next_le, length-pad4 _ r.line_le) in
      rw n at (read_at-Holds i e.off _ front_Holds.0)

  pub line_read : read_at i (e.off + 11) (length (line_of e)) ≡ line_of e
  line_read = read_at-Holds i (e.off + 11) _ front_Holds.1

take_line-Stands :
    (e : Entry) (s : Db)
    → IsRecord e
    → take_line
        (pos e.next)
        (length (line_of e))
        (line_of e)
        (record s { idxoff = e.off; idx_pos = e.off + 11 })
      ≡ ok (pos e.next) (loaded e s)
unfolding take_line
take_line-Stands e s r = rw (
  parse_line-index_line e.key e.datoff (length e.value + 1) r.key (omega arith)
      (omega (arith, r.value_le)),
  take_line,
)

pub read_line-Stands :
    {e : Entry} (s : Db)
    → Stands s.idx s.dat e
    → read_line
        (pos e.next)
        (pos (length (line_of e)))
        (record s { idxoff = e.off; idx_pos = e.off + 11 })
      ≡ ok (pos e.next) (loaded e s)
unfolding read_line
read_line-Stands {e} s h =
    let r = h.is_record in
    rw
      (
        le→ltb (length (line_of e)) 6 r.line_ge,
        le→ltb 1024 (length (line_of e)) r.line_le,
        line_read h,
        ==_refl (length (line_of e)),
      )
      (take_line-Stands e s r)

-- `_db_readidx` reads a record that stands in the index file.
pub readidx-Stands :
    {e : Entry} (s : Db)
    → Stands s.idx s.dat e
    → readidx (pos e.off) s ≡ ok (pos e.next) (loaded e s)
unfolding readidx
readidx-Stands {e} s h =
    let r = h.is_record in
    let len = length (line_of e) in
    let seven = length-pad7 e.next r.next_le in
    let four = length-pad4 len r.line_le in
    let nonzero : (e.off == 0) ≡ false = ground (arith, r.off_pos) in
    rw (nonzero, front_read h, length-append, seven, four, take-append 7 _ (pad 4 len) seven)
      (rw (drop-append 7 _ (pad 4 len) seven, atol-pad 7 e.next, atol-pad 4 len)
        (read_line-Stands s h))

-- `_db_readdat` returns the data of the current record.
pub readdat-Holds :
    (e : Entry) (t : Db)
    → Lacks 0 e.value
    → Holds t.dat e.datoff (e.value ++ newline ∷ [])
    → t.datoff ≡ e.datoff
    → t.datlen ≡ length e.value + 1
    → readdat t ≡ ok e.value (record t { datbuf = e.value })
unfolding readdat
readdat-Holds e t clean h eo el =
    let n : length (e.value ++ newline ∷ []) ≡ length e.value + 1 = rw length-append in
    let whole : read_at t.dat t.datoff t.datlen ≡ e.value ++ newline ∷ [] =
      rw (eo, el) (rw n at (read_at-Holds t.dat e.datoff _ h)) in
    let line : chomp (e.value ++ newline ∷ []) ≡ some e.value =
      rw append-nil at (chomp-append e.value (newline ∷ []) [] (unfold chomp in refl)) in
    let size : (length (e.value ++ newline ∷ []) == t.datlen) ≡ true = rw (n, el) (==_refl _) in
    rw (whole, size, line, readdat, c_string-Lacks e.value clean)
