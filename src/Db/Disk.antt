-- ===== src/Db/Disk.antt =====
-- The functions of db/db.c that read and write pointers and records.
use Prim.Native.String.{String}
use learn_apue.Base.{
  ℕ, ◌+◌, ◌*◌, ◌&&◌, ◌||◌, Option, none, some, List, [], ◌∷◌, ◌++◌, length, take, drop, ltb, ◌==◌,
  if◌then◌else◌,
}
use learn_apue.Base.Int.{ℤ, pos, negsuc}
use learn_apue.Bytes.Decimal.{print, pad, atol}
use learn_apue.Bytes.File.{read_at, write_at}
use learn_apue.Db.State.{
  idxlen_sz, sep, newline, ptr_sz, ptr_max, idxlen_min, idxlen_max, datlen_max, Fd, idxfd, datfd,
  err_dump, err_quit, overrun, ok, stop, M, ◌>>=◌, ◌>>◌, get, modify, lock, un_lock,
}

pub data Whence : Type 0 where
  seek_set seek_end : Whence

-- The place that `lseek` finds in a file of the length `size`.
abbrev pub seek : Whence → ℕ → ℕ → ℕ
seek seek_set size offset = offset
seek seek_end size offset = size + offset

-- The bytes before the last, if the last is a newline.
unfoldable pub chomp : List ℕ → Option (List ℕ)
chomp [] = none
chomp (x ∷ []) = if x == newline then some [] else none
chomp (x ∷ y ∷ l) = elim (chomp (y ∷ l)) [ none ↦ none | some b ↦ some (x ∷ b) ]

-- The string at the front of a buffer.
unfoldable pub c_string : List ℕ → List ℕ
c_string [] = []
c_string (x ∷ l) = if x == 0 then [] else x ∷ c_string l

-- `strchr(s, SEP)` with the separator replaced by a null byte: what stands before and behind it.
unfoldable pub split_sep : List ℕ → Option (List ℕ × List ℕ)
split_sep [] = none
split_sep (x ∷ l) =
    let rest : Option (List ℕ × List ℕ) = elim (split_sep l) [
      | none ↦ none
      | some (a, b) ↦ some (x ∷ a, b)
    ] in
    if x == sep then some ([], l) else rest

-- What `_db_readidx` finds in the line of an index record, or its complaint.
pub data Line : Type 0 where
  fields : List ℕ → ℕ → ℕ → Line
  bad : String → Line

unfoldable pub check_fields : List ℕ → ℤ → ℤ → Line
check_fields key (negsuc o) l = bad "_db_readidx: starting offset < 0"
check_fields key (pos o) (negsuc l) = bad "_db_readidx: invalid length"
check_fields key (pos o) (pos l) =
    if (l == 0) || ltb datlen_max l then bad "_db_readidx: invalid length" else fields key o l

unfoldable pub check_rest : List ℕ → List ℕ → List ℕ → Line
check_rest key o l = elim (split_sep l) [
  | some _ ↦ bad "_db_readidx: too many separators"
  | none ↦ check_fields key (atol o) (atol l)
]

unfoldable pub parse_line : List ℕ → Line
parse_line line = elim (chomp line) [
  | none ↦ bad "_db_readidx: missing newline"
  | some b ↦ elim (split_sep (c_string b)) [
    | none ↦ bad "_db_readidx: missing first separator"
    | some (key, r) ↦ elim (split_sep r) [
      | none ↦ bad "_db_readidx: missing second separator"
      | some (o, l) ↦ check_rest key o l
    ]
  ]
]

-- `_db_readptr`
unfoldable pub readptr : ℕ → M ℤ
readptr offset s =
    let bytes = read_at s.idx offset ptr_sz in
    if length bytes == ptr_sz
    then ok (atol bytes) (record s { idx_pos = offset + ptr_sz })
    else stop (err_dump "_db_readptr: read error of ptr field") s

-- The end of `_db_readidx`: the line is parsed into the buffer and the data's place.
unfoldable pub take_line : ℤ → ℕ → List ℕ → M ℤ
take_line ptr len line s = elim (parse_line line) [
  | bad e ↦ stop (err_dump e) s
  | fields key o l ↦ ok ptr (record s {
    idx_pos = s.idx_pos + len;
    ptrval = ptr;
    idxlen = len;
    idxbuf = key;
    datoff = o;
    datlen = l;
  })
]

-- The line of an index record, which stands at the file offset.
unfoldable pub read_line : ℤ → ℤ → M ℤ
read_line ptr (negsuc n) s = stop (err_dump "_db_readidx: invalid length") s
read_line ptr (pos len) s =
    if ltb len idxlen_min || ltb idxlen_max len
    then stop (err_dump "_db_readidx: invalid length") s
    else let line = read_at s.idx s.idx_pos len in
      if length line == len
      then take_line ptr len line s
      else stop (err_dump "_db_readidx: read error of index record") s

-- `_db_readidx`. -1 is the end of the file, for offset 0 alone, which means the current offset.
unfoldable pub readidx : ℤ → M ℤ
readidx (negsuc n) s = stop (err_dump "_db_readidx: lseek error") s
readidx (pos n) s =
    let o = if n == 0 then s.idx_pos else n in
    let front = read_at s.idx o (ptr_sz + idxlen_sz) in
    if length front == ptr_sz + idxlen_sz
    then read_line (atol (take ptr_sz front)) (atol (drop ptr_sz front))
        (record s { idxoff = o; idx_pos = o + (ptr_sz + idxlen_sz) })
    else if (length front == 0) && (n == 0)
    then ok (negsuc 0) (record s { idxoff = o; idx_pos = o })
    else stop (err_dump "_db_readidx: readv error of index record") s

-- `_db_readdat`
unfoldable pub readdat : M (List ℕ)
readdat s =
    let bytes = read_at s.dat s.datoff s.datlen in
    if length bytes == s.datlen
    then elim (chomp bytes) [
      | none ↦ stop (err_dump "_db_readdat: missing newline") s
      | some b ↦ ok (c_string b) (record s { datbuf = c_string b })
    ]
    else stop (err_dump "_db_readdat: read error") s

unfoldable pub lock_end : Whence → Fd → ℕ → M (Unit {0})
lock_end seek_set fd start s = ok tt s
lock_end seek_end fd start s = lock fd start 0 s

unfoldable pub unlock_end : Whence → Fd → ℕ → M (Unit {0})
unlock_end seek_set fd start s = ok tt s
unlock_end seek_end fd start s = un_lock fd start 0 s

-- `_db_writedat`
unfoldable pub writedat : List ℕ → ℕ → Whence → M (Unit {0})
writedat data' offset whence = do
  lock_end whence datfd 0
  modify (λ s.
      let o = seek whence (length s.dat) offset in
      record s {
        datoff = o;
        datlen = length data' + 1;
        dat = write_at s.dat o (data' ++ newline ∷ []);
      })
  unlock_end whence datfd 0

-- The text that `_db_writeidx` prints into the index buffer.
unfoldable pub index_line : List ℕ → ℕ → ℕ → List ℕ
index_line key o l = key ++ (sep ∷ (print o ++ (sep ∷ (print l ++ newline ∷ []))))

-- The write of `_db_writeidx`, after its checks.
unfoldable pub put_index : ℕ → Whence → ℕ → M (Unit {0})
put_index offset whence ptr = do
  s ← get
  lock_end whence idxfd ((s.nhash + 1) * ptr_sz + 1)
  modify (λ s.
      let o = seek whence (length s.idx) offset in
      let bytes = pad ptr_sz ptr ++ (pad idxlen_sz (length s.idxbuf) ++ s.idxbuf) in
      record s { idxoff = o; idx = write_at s.idx o bytes; idx_pos = o + length bytes })
  unlock_end whence idxfd ((s.nhash + 1) * ptr_sz + 1)

-- `_db_writeidx`. The index buffer has room for IDXLEN_MAX + 2 bytes, and the text is printed into
-- it before its length is checked.
unfoldable pub writeidx : List ℕ → ℕ → Whence → ℤ → M (Unit {0})
writeidx key offset whence (negsuc n) s = stop (err_quit "_db_writeidx: invalid ptr") s
writeidx key offset whence (pos ptr) s =
    if ltb ptr_max ptr
    then stop (err_quit "_db_writeidx: invalid ptr") s
    else let line = index_line key s.datoff s.datlen in
      let len = length line in
      if ltb (idxlen_max + 2) (len + 1)
      then stop overrun s
      else if ltb len idxlen_min || ltb idxlen_max len
      then stop (err_dump "_db_writeidx: invalid length") s
      else put_index offset whence ptr (record s { ptrval = pos ptr; idxbuf = line })

-- `_db_writeptr`
unfoldable pub writeptr : ℕ → ℤ → M (Unit {0})
writeptr offset (negsuc n) s = stop (err_quit "_db_writeptr: invalid ptr") s
writeptr offset (pos ptr) s =
    if ltb ptr_max ptr
    then stop (err_quit "_db_writeptr: invalid ptr") s
    else ok tt
        (record s { idx = write_at s.idx offset (pad ptr_sz ptr); idx_pos = offset + ptr_sz })
