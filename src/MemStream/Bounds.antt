-- ===== src/MemStream/Bounds.antt =====
-- The operations on memory streams of exercises/fmemopen.c stay inside the buffer.
use learn_apue.Base.{
  ℕ, zero, suc, ◌+◌, ◌-◌, ◌%◌, ◌^◌, ◌≤◌, ◌<◌, ◌≡◌, refl, ap, ◌∙◌, Bool, true, false, not, ◌&&◌,
  ◌||◌, Option, some, List, [], ◌∷◌, ◌++◌, arith, take, drop, length, length-append, length-drop,
  leb, ltb, if◌then◌else◌, Bool-cases, inl, inr,
}
use learn_apue.Base.Int.{ℤ, pos, negsuc}
use learn_apue.MemStream.{
  MemStream, find_end, min_of, copy_in, copy_out, Result, fails, returns, has_read, mstream_read,
  with_buf, terminate, advance, close_text, has_written, copied, mstream_write, SeekWhence,
  seek_offset, seek_to, mstream_seek, to_int, write_from,
}

-- The buffer is as large as recorded, and its size fits an `int`; the position is at most at the end, the end in the buffer.
pub record Fine (ms : MemStream) : Type 0 where
  pub buffer : length ms.buf ≡ ms.rsize
  pub some_room : 1 ≤ ms.rsize
  pub small : ms.rsize < 2 ^ 31
  pub position : ms.curpos ≤ ms.vsize
  pub end' : ms.vsize ≤ ms.rsize

-- The access is in bounds, and the stream is fine after it.
abbrev pub Succeeds : Option (Result × MemStream) → Type 0
Succeeds o = (r : Result) × (t : MemStream) × (o ≡ some (r, t)) × Fine t

pub length-take : (n : ℕ) (xs : List ℕ) → n ≤ length xs → length (take n xs) ≡ n
length-take zero xs h = refl
length-take (suc n) [] h = absurd (omega arith)
length-take (suc n) (x ∷ xs) h = ap suc (length-take n xs (omega arith))

pub min_of_le : (a b : ℕ) → (min_of a b ≤ a) × (min_of a b ≤ b)
unfolding min_of
min_of_le a b = ground arith

pub copy_in-fits :
    (off : ℕ) (s buf : List ℕ)
    → off + length s ≤ length buf
    → (b : List ℕ) × (copy_in off s buf ≡ some b)
      × (b ≡ take off buf ++ (s ++ drop (off + length s) buf))
      × (length b ≡ length buf)
unfolding copy_in
copy_in-fits off s buf h =
    let e : leb (off + length s) (length buf) ≡ true = ground arith in
    (
      take off buf ++ (s ++ drop (off + length s) buf),
      rw e,
      refl,
      omega (
        arith,
        length-append (take off buf) (s ++ drop (off + length s) buf),
        length-append s (drop (off + length s) buf),
        length-drop (off + length s) buf,
        length-take off buf (omega arith),
      ),
    )

pub find_end_le : (buf : List ℕ) → find_end buf ≤ length buf
unfolding find_end
find_end_le [] = omega arith
find_end_le (c ∷ cs) = ground (arith, find_end_le cs)

pub mstream_read-Succeeds : (len : ℕ) (ms : MemStream) → Fine ms → Succeeds (mstream_read len ms)
unfolding mstream_read has_read copy_out
mstream_read-Succeeds len ms f = elim (Bool-cases ms.flags.ms_read) [
  | inr no_read ↦ (fails 9, ms, simp no_read, f)
  | inl may_read ↦ elim (Bool-cases (leb ms.vsize ms.curpos)) [
    | inl at_end ↦ (returns 0 [], ms, simp (may_read, at_end), f)
    | inr before_end ↦
        let nr = min_of len (ms.vsize - ms.curpos) in
        let (_, small) = min_of_le len (ms.vsize - ms.curpos) in
        let pos' = f.position in
        let end' = f.end' in
        let buffer = f.buffer in
        let inside : leb (ms.curpos + nr) (length ms.buf) ≡ true = ground arith in
        (
          returns nr (take nr (drop ms.curpos ms.buf)),
          record ms { curpos = ms.curpos + nr },
          simp (may_read, before_end, inside),
          record {
            buffer = f.buffer;
            some_room = f.some_room;
            small = f.small;
            position = omega arith;
            end' = f.end';
          },
        )
  ]
]

terminate-Fine :
    (need : Bool) (off : ℕ) (ms : MemStream)
    → Fine ms
    → off < ms.rsize
    → (t : MemStream) × (terminate need off (some ms) ≡ some t) × Fine t
unfolding terminate with_buf
terminate-Fine false off ms f h = (ms, refl, f)
terminate-Fine true off ms f h =
    let fits : off + 1 ≤ length ms.buf = omega (arith, f.buffer) in
    let (b, e, _, same) = copy_in-fits off (0 ∷ []) ms.buf fits in
    (
      record ms { buf = b },
      simp e,
      record {
        buffer = same ∙ f.buffer;
        some_room = f.some_room;
        small = f.small;
        position = f.position;
        end' = f.end';
      },
    )

terminate_not :
    (b : Bool) (off : ℕ) (ms : MemStream) → terminate (b && false) off (some ms) ≡ some ms
unfolding terminate
terminate_not true off ms = refl
terminate_not false off ms = refl

advance-Fine :
    (curpos : ℕ) (ms : MemStream)
    → Fine ms
    → curpos ≤ ms.rsize
    → (t : MemStream) × (advance curpos ms ≡ some t) × Fine t
unfolding advance
advance-Fine curpos ms f h = elim (Bool-cases (ltb ms.vsize curpos)) [
  | inr inside ↦ (
    record ms { curpos = curpos },
    simp inside,
    record {
      buffer = f.buffer;
      some_room = f.some_room;
      small = f.small;
      position = ground arith;
      end' = f.end';
    },
  )
  | inl behind ↦
      let ms1 : MemStream = record ms { curpos = curpos; vsize = curpos } in
      let f1 : Fine ms1 = record {
        buffer = f.buffer;
        some_room = f.some_room;
        small = f.small;
        position = omega arith;
        end' = h;
      } in
      elim (Bool-cases (ltb curpos ms.rsize)) [
        | inl room ↦
            let (t, e, ft) =
              terminate-Fine (ms.flags.ms_read && ms.flags.ms_write && true) curpos ms1 f1
                (ground arith) in
            (t, simp (behind, room) e, ft)
        | inr full ↦ (
          ms1,
          simp (behind, full) (terminate_not (ms.flags.ms_read && ms.flags.ms_write) curpos ms1),
          f1,
        )
      ]
]

close_text-Fine :
    (ms : MemStream) → Fine ms → (t : MemStream) × (close_text (some ms) ≡ some t) × Fine t
unfolding close_text
close_text-Fine ms f =
    let room = f.some_room in
    terminate-Fine (not ms.flags.ms_read)
      (if ltb ms.curpos ms.rsize then ms.curpos else ms.rsize - 1) ms f (ground arith)

write_at :
    (append : Bool) (ms : MemStream) → Fine ms → (if append then ms.vsize else ms.curpos) ≤ ms.rsize
write_at append ms f = let position = f.position in let end' = f.end' in ground arith

pub to_int-small : (n : ℕ) → n < 2 ^ 31 → to_int (pos n) ≡ pos n
unfolding to_int
to_int-small n h =
    let small : n % 2 ^ 32 ≡ n = omega arith in
    let positive : ltb n (2 ^ 31) ≡ true = ground arith in simp (small, positive)

write_from-Succeeds :
    (off : ℕ) (s : List ℕ) (ms : MemStream)
    → Fine ms
    → off ≤ ms.rsize
    → Succeeds (write_from (pos off) s ms)
unfolding write_from copied has_written
write_from-Succeeds off s ms f start =
    let nw = min_of (length s) (ms.rsize - off) in
    let (le_s, le_room) = min_of_le (length s) (ms.rsize - off) in
    let small = f.small in
    let no_overflow : ltb (off + nw) (2 ^ 31) ≡ true = ground arith in
    let size = length-take nw s le_s in
    let fits : off + length (take nw s) ≤ length ms.buf = omega (arith, f.buffer) in
    let (b, copy, _, same) = copy_in-fits off (take nw s) ms.buf fits in
    let ms1 : MemStream = record ms { buf = b } in
    let f1 : Fine ms1 = record {
      buffer = same ∙ f.buffer;
      some_room = f.some_room;
      small = f.small;
      position = f.position;
      end' = f.end';
    } in
    let (ms2, moved, f2) = advance-Fine (off + nw) ms1 f1 (omega arith) in
    let (t, closed, ft) = close_text-Fine ms2 f2 in
    (returns nw [], t, simp (no_overflow, copy, moved, closed), ft)

pub mstream_write-Succeeds : (s : List ℕ) (ms : MemStream) → Fine ms → Succeeds (mstream_write s ms)
unfolding mstream_write
mstream_write-Succeeds s ms f = elim (Bool-cases (ms.flags.ms_append || ms.flags.ms_write)) [
  | inr no_write ↦ (fails 9, ms, simp no_write, f)
  | inl may_write ↦
      let off = if ms.flags.ms_append then ms.vsize else ms.curpos in
      let start = write_at ms.flags.ms_append ms f in
      let small = f.small in
      let same : to_int (pos off) ≡ pos off = to_int-small off (omega arith) in
      let (r, t, run, ft) = write_from-Succeeds off s ms f start in
      (r, t, simp (may_write, same, run), ft)
]

seek_to-Fine : (z : ℤ) (ms : MemStream) → Fine ms → Fine (seek_to z ms).1
unfolding seek_to
seek_to-Fine (negsuc n) ms f = f
seek_to-Fine (pos off) ms f = elim (Bool-cases (ltb ms.vsize off)) [
  | inl out ↦ rw out f
  | inr inside ↦ rw inside (record {
    buffer = f.buffer;
    some_room = f.some_room;
    small = f.small;
    position = ground arith;
    end' = f.end';
  })
]

pub mstream_seek-Fine :
    (position : ℤ) (whence : SeekWhence) (ms : MemStream)
    → Fine ms
    → Fine (mstream_seek position whence ms).1
unfolding mstream_seek
mstream_seek-Fine position whence ms f = seek_to-Fine (seek_offset position whence ms) ms f
