-- ===== src/Rot13.antt =====
-- advio/rot13c2.c: a file is copied and translated with up to eight asynchronous operations at once.
pub mod Slices
pub mod Visits
pub mod Copies
mod Tests
use learn_apue.Base.{
  ℕ, zero, suc, ◌+◌, ◌-◌, Bool, true, false, not, ◌&&◌, ◌||◌, Option, none, some, List, [], ◌∷◌,
  map, take, drop, length, get_elem?, replicate, leb, ltb, ◌==◌, if◌then◌else◌,
}

-- `isalpha` in the C locale.
unfoldable pub is_alpha : ℕ → Bool
is_alpha c = (leb b'A' c && leb c b'Z') || (leb b'a' c && leb c b'z')

-- `translate`
unfoldable pub translate : ℕ → ℕ
translate c =
    if is_alpha c
    then if leb b'n' c
      then c - 13
      else if leb b'a' c
      then c + 13
      else if leb b'N' c
      then c - 13
      else c + 13
    else c

pub data RwOp : Type 0 where
  unused : RwOp
  read_pending : RwOp
  write_pending : RwOp

-- `struct buf` with the fields of its `aiocb`; of `data` the bytes that are written.
pub record Buf : Type 0 where
  pub op : RwOp
  pub last : Bool
  pub aio_offset : ℕ
  pub aio_nbytes : ℕ
  pub bytes : List ℕ

-- `off`, `numop`, and the byte of the output file at each offset, none where nothing was written.
-- `aiolist` has no field: it has the buffers that are not unused.
pub record Progress : Type 0 where
  pub off : ℕ
  pub numop : ℕ
  pub output : ℕ → Option ℕ

-- What the calls of a visit find: the operation is in progress; it is complete, with all bytes that
-- there are; it moved another number of bytes; one of the calls fails. A write that is complete has its
-- bytes in the file.
pub data Poll : Type 0 where
  in_progress : Poll
  complete : Poll
  short : ℕ → Poll
  failed : Poll

abbrev pub bsz : ℕ
bsz = 4096

unfoldable pub or_old : Option ℕ → Option ℕ → Option ℕ
or_old none old = old
or_old (some c) old = some c

unfoldable pub put_bytes : ℕ → List ℕ → (ℕ → Option ℕ) → ℕ → Option ℕ
put_bytes o s f p = if leb o p then or_old (get_elem? s (p - o)) (f p) else f p

-- How far the program is after some passes: it goes on, has ended with an error, or has come to the
-- end of the loop.
pub data Copying : Type 0 where
  running : List Buf → Progress → Copying
  exits : Copying
  ended : Progress → Copying

module _ (input : List ℕ) where
  unfoldable pub start_read : Poll → Buf → Progress → Option (Buf × Progress)
  start_read failed b g = none
  start_read poll b g = some (
    record b {
      op = read_pending;
      last = b.last || leb (length input) (g.off + bsz);
      aio_offset = g.off;
      aio_nbytes = bsz;
    },
    record g { off = g.off + bsz; numop = suc g.numop },
  )

  unfoldable pub visit_unused : Poll → Buf → Progress → Option (Buf × Progress)
  visit_unused poll b g = if ltb g.off (length input) then start_read poll b g else some (b, g)

  -- A read has returned so many bytes.
  unfoldable pub read_returned : ℕ → Buf → Progress → Option (Buf × Progress)
  read_returned n b g =
      if not (n == bsz) && not b.last
      then none
      else some (
        record b {
          op = write_pending;
          aio_nbytes = n;
          bytes = map translate (take n (drop b.aio_offset input));
        },
        g,
      )

  unfoldable pub visit_read : Poll → Buf → Progress → Option (Buf × Progress)
  visit_read in_progress b g = some (b, g)
  visit_read complete b g = read_returned (length (take bsz (drop b.aio_offset input))) b g
  visit_read (short n) b g = read_returned n b g
  visit_read failed b g = none

  -- A write has returned so many bytes.
  unfoldable pub write_returned : ℕ → Buf → Progress → Option (Buf × Progress)
  write_returned n b g =
      if n == b.aio_nbytes
      then some (
        record b { op = unused },
        record g { numop = g.numop - 1; output = put_bytes b.aio_offset b.bytes g.output },
      )
      else none

  unfoldable pub visit_write : Poll → Buf → Progress → Option (Buf × Progress)
  visit_write in_progress b g = some (b, g)
  visit_write complete b g = write_returned b.aio_nbytes b g
  visit_write (short n) b g = write_returned n b g
  visit_write failed b g = none

  -- A buffer is looked at; none if the process ends with an error.
  unfoldable pub visit_op : RwOp → Poll → Buf → Progress → Option (Buf × Progress)
  visit_op unused poll b g = visit_unused poll b g
  visit_op read_pending poll b g = visit_read poll b g
  visit_op write_pending poll b g = visit_write poll b g

  unfoldable pub visit : Poll → Buf → Progress → Option (Buf × Progress)
  visit poll b g = visit_op b.op poll b g

  unfoldable pub with_visited : Buf → Option (List Buf × Progress) → Option (List Buf × Progress)
  with_visited b none = none
  with_visited b (some (bs, g)) = some (b ∷ bs, g)

  unfoldable pub pass_on :
      Option (Buf × Progress)
      → (Progress → Option (List Buf × Progress))
      → Option (List Buf × Progress)
  pass_on none rest = none
  pass_on (some (b, g)) rest = with_visited b (rest g)

  -- The loop over the buffers from the index; `poll` says what is found at each.
  unfoldable pub pass : (ℕ → Poll) → ℕ → List Buf → Progress → Option (List Buf × Progress)
  pass poll i [] g = some ([], g)
  pass poll i (b ∷ bs) g = pass_on (visit (poll i) b g) (pass poll (suc i) bs)

  -- After a pass: nothing is left to do, or `aio_suspend` waits for an operation.
  unfoldable pub after_pass :
      Option (List Buf × Progress) → (List Buf → Progress → Copying) → Copying
  after_pass none rest = exits
  after_pass (some (bs, g)) rest =
      if g.numop == 0 && leb (length input) g.off then ended g else rest bs g

  -- The loop of `main`, for as many passes as there are answers.
  unfoldable pub copy_loop : List (ℕ → Poll) → List Buf → Progress → Copying
  copy_loop [] bs g = running bs g
  copy_loop (poll ∷ polls) bs g = after_pass (pass poll 0 bs g) (copy_loop polls)

abbrev pub unused_buf : Buf
unused_buf = record { op = unused; last = false; aio_offset = 0; aio_nbytes = 0; bytes = [] }

-- `main` with an empty output file and `NBUF` = 8 buffers.
unfoldable pub copy : List ℕ → List (ℕ → Poll) → Copying
copy input polls =
    copy_loop input polls (replicate 8 unused_buf)
      (record { off = 0; numop = 0; output = λ p. none })
