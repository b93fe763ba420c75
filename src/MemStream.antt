-- ===== src/MemStream.antt =====
-- The memory streams of exercises/fmemopen.c. The lengths that a call is given are those of an
-- `int`; what the code stores in an `int` is written out.
use learn_apue.Base.{
  ℕ, zero, suc, ◌+◌, ◌-◌, ◌%◌, ◌^◌, Bool, true, false, not, ◌&&◌, ◌||◌, Option, none, some, List,
  [], ◌∷◌, ◌++◌, take, drop, length, set, leb, ltb, ◌==◌, if◌then◌else◌,
}
use learn_apue.Base.Int.{ℤ, pos, negsuc, ◌+ℤ◌}
pub mod Bounds
pub mod Runs
pub mod Contents
mod Tests

-- The bits of `flags`.
pub record Flags : Type 0 where
  pub ms_read : Bool
  pub ms_write : Bool
  pub ms_append : Bool
  pub ms_truncate : Bool
  pub ms_mybuf : Bool

-- `struct memstream`; `buf` is the memory that it points to.
pub record MemStream : Type 0 where
  pub buf : List ℕ
  pub rsize : ℕ
  pub vsize : ℕ
  pub curpos : ℕ
  pub flags : Flags

abbrev pub no_flags : Flags
no_flags = record {
  ms_read = false;
  ms_write = false;
  ms_append = false;
  ms_truncate = false;
  ms_mybuf = false;
}

unfoldable pub is_zero : Flags → Bool
is_zero f = not (f.ms_read || f.ms_write || f.ms_append || f.ms_truncate || f.ms_mybuf)

-- A character of the type: the flags after it, or none for an error.
unfoldable pub type_char : Flags → ℕ → Option Flags
type_char f c =
    if c == b'r'
    then (if is_zero f then some (record f { ms_read = true }) else none)
    else if c == b'w'
    then (if is_zero f then some (record f { ms_write = true; ms_truncate = true }) else none)
    else if c == b'a'
    then (if is_zero f then some (record f { ms_append = true }) else none)
    else if c == b'+'
    then (if is_zero f then none else some (record f { ms_read = true; ms_write = true }))
    else if c == b'b'
    then (if is_zero f then none else some f)
    else none

unfoldable pub type_chars : Option Flags → List ℕ → Flags
type_chars none cs = no_flags
type_chars (some f) [] = f
type_chars (some f) (c ∷ cs) = type_chars (type_char f c) cs

-- `type_to_flags`
unfoldable pub type_to_flags : List ℕ → Flags
type_to_flags type = type_chars (some no_flags) type

-- `find_end` of a buffer of the length.
unfoldable pub find_end : List ℕ → ℕ
find_end [] = 0
find_end (c ∷ cs) = let rest = suc (find_end cs) in if c == 0 then 0 else rest

-- `fmemopen` fails with an `errno`, or returns the stream.
pub data Opened : Type 0 where
  error : ℕ → Opened
  stream : MemStream → Opened

-- The position and the size that a new stream has.
unfoldable pub start_stream : Flags → List ℕ → ℕ → ℕ → MemStream
start_stream flags buf size curpos = record {
  buf = buf;
  rsize = size;
  vsize = if flags.ms_append then curpos else if flags.ms_truncate then 0 else size;
  curpos = curpos;
  flags = flags;
}

-- `funopen` succeeds or fails with an `errno`.
unfoldable pub open_stream : Option ℕ → MemStream → Opened
open_stream none ms = stream ms
open_stream (some e) ms = error e

-- The stream's own buffer: `EINVAL` (22) unless it is read and written, `ENOMEM` (12).
unfoldable pub open_own : Flags → ℕ → Option (List ℕ) → Option ℕ → Opened
open_own flags size none funopen = if flags.ms_read && flags.ms_write then error 12 else error 22
open_own flags size (some fresh) funopen =
    if flags.ms_read && flags.ms_write
    then open_stream funopen (start_stream (record flags { ms_mybuf = true }) fresh size 0)
    else error 22

unfoldable pub open_with : Option (List ℕ) → Flags → ℕ → Option (List ℕ) → Option ℕ → Opened
open_with none flags size fresh funopen = open_own flags size fresh funopen
open_with (some buf) flags size fresh funopen =
    open_stream funopen (start_stream flags buf size (if flags.ms_append then find_end buf else 0))

-- `fmemopen` with what it is given, the `size` bytes of the caller's buffer if there is one, whether
-- there is memory for the structure, what `malloc` returns for a buffer, and what `funopen` does.
unfoldable pub fmemopen : Option (List ℕ) → ℕ → List ℕ → Bool → Option (List ℕ) → Option ℕ → Opened
fmemopen buf size type memory fresh funopen =
    if size == 0
    then error 22
    else if memory
    then if is_zero (type_to_flags type)
      then error 22
      else open_with buf (type_to_flags type) size fresh funopen
    else error 12

unfoldable pub min_of : ℕ → ℕ → ℕ
min_of a b = if ltb a b then a else b

-- `memcpy` into the buffer, none outside it.
unfoldable pub copy_in : ℕ → List ℕ → List ℕ → Option (List ℕ)
copy_in off s buf =
    if leb (off + length s) (length buf)
    then some (take off buf ++ (s ++ drop (off + length s) buf))
    else none

-- `memcpy` out of the buffer, none outside it.
unfoldable pub copy_out : ℕ → ℕ → List ℕ → Option (List ℕ)
copy_out off n buf = if leb (off + n) (length buf) then some (take n (drop off buf)) else none

-- An operation returns -1 and sets `errno`, or returns a number, with the bytes it read if any.
pub data Result : Type 0 where
  fails : ℕ → Result
  returns : ℕ → List ℕ → Result

unfoldable pub has_read : ℕ → MemStream → Option (List ℕ) → Option (Result × MemStream)
has_read nr ms none = none
has_read nr ms (some s) = some (returns nr s, record ms { curpos = ms.curpos + nr })

-- `mstream_read`; none if it accesses memory outside the buffer. `EBADF` is 9.
unfoldable pub mstream_read : ℕ → MemStream → Option (Result × MemStream)
mstream_read len ms =
    let nr = min_of len (ms.vsize - ms.curpos) in
    if ms.flags.ms_read
    then if leb ms.vsize ms.curpos
      then some (returns 0 [], ms)
      else has_read nr ms (copy_out ms.curpos nr ms.buf)
    else some (fails 9, ms)

unfoldable pub with_buf : MemStream → Option (List ℕ) → Option MemStream
with_buf ms none = none
with_buf ms (some buf) = some (record ms { buf = buf })

-- The stream with a null byte at the offset if the condition holds.
unfoldable pub terminate : Bool → ℕ → Option MemStream → Option MemStream
terminate need off none = none
terminate false off (some ms) = some ms
terminate true off (some ms) = with_buf ms (copy_in off (0 ∷ []) ms.buf)

-- The position moves behind what was written, the end with it, and a null byte is put there if the
-- stream is read too and there is room.
unfoldable pub advance : ℕ → MemStream → Option MemStream
advance curpos ms =
    let ms1 = record ms { curpos = curpos } in
    if ltb ms1.vsize curpos
    then terminate (ms.flags.ms_read && ms.flags.ms_write && ltb curpos ms.rsize) curpos
        (some (record ms1 { vsize = curpos }))
    else some ms1

-- A stream that is only written gets a null byte at the position, or at the end of the buffer.
unfoldable pub close_text : Option MemStream → Option MemStream
close_text none = none
close_text (some ms) =
    terminate (not ms.flags.ms_read) (if ltb ms.curpos ms.rsize then ms.curpos else ms.rsize - 1)
      (some ms)

unfoldable pub has_written : ℕ → Option MemStream → Option (Result × MemStream)
has_written nw none = none
has_written nw (some ms) = some (returns nw [], ms)

unfoldable pub copied : ℕ → ℕ → MemStream → Option (List ℕ) → Option (Result × MemStream)
copied off nw ms none = none
copied off nw ms (some buf) =
    has_written nw (close_text (advance (off + nw) (record ms { buf = buf })))

-- An integer is stored in an `int`.
unfoldable pub to_int : ℤ → ℤ
to_int (pos n) = let m = n % 2 ^ 32 in if ltb m (2 ^ 31) then pos m else negsuc (2 ^ 32 - m - 1)
to_int (negsuc n) = let m = n % 2 ^ 32 in if ltb m (2 ^ 31) then negsuc m else pos (2 ^ 32 - m - 1)

-- `mstream_write` at its `off`, an `int`: none if that is negative, so that the bytes are copied in
-- front of the buffer, and if `off + nw` overflows.
unfoldable pub write_from : ℤ → List ℕ → MemStream → Option (Result × MemStream)
write_from (negsuc n) s ms = none
write_from (pos off) s ms =
    let nw = min_of (length s) (ms.rsize - off) in
    if ltb (off + nw) (2 ^ 31) then copied off nw ms (copy_in off (take nw s) ms.buf) else none

-- `mstream_write`; none if it accesses memory outside the buffer or an `int` overflows.
unfoldable pub mstream_write : List ℕ → MemStream → Option (Result × MemStream)
mstream_write s ms =
    let off = to_int (pos (if ms.flags.ms_append then ms.vsize else ms.curpos)) in
    if ms.flags.ms_append || ms.flags.ms_write then write_from off s ms else some (fails 9, ms)

pub data SeekWhence : Type 0 where
  seek_set : SeekWhence
  seek_end : SeekWhence
  seek_cur : SeekWhence

-- `off` of `mstream_seek`
unfoldable pub seek_offset : ℤ → SeekWhence → MemStream → ℤ
seek_offset position seek_set ms = to_int position
seek_offset position seek_end ms = to_int (pos ms.vsize +ℤ position)
seek_offset position seek_cur ms = to_int (pos ms.curpos +ℤ position)

unfoldable pub seek_to : ℤ → MemStream → Result × MemStream
seek_to (negsuc n) ms = (fails 22, ms)
seek_to (pos off) ms =
    if ltb ms.vsize off then (fails 22, ms) else (returns off [], record ms { curpos = off })

-- `mstream_seek`
unfoldable pub mstream_seek : ℤ → SeekWhence → MemStream → Result × MemStream
mstream_seek position whence ms = seek_to (seek_offset position whence ms) ms

-- What `mstream_close` frees of the buffer.
unfoldable pub mstream_close : MemStream → Bool
mstream_close ms = ms.flags.ms_mybuf
