-- ===== src/MemStream/Contents.antt =====
-- What is written to a memory stream of exercises/fmemopen.c is read back.
use learn_apue.Base.{
  ℕ, zero, suc, ◌+◌, ◌-◌, ◌%◌, ◌^◌, ◌≤◌, ◌<◌, ◌≡◌, refl, ap, ◌∙◌, Bool, true, false, ◌&&◌, some,
  List, [], ◌∷◌, ◌++◌, arith, take, drop, length, take-append, drop-append, leb, ltb, Bool-cases,
  inl, inr,
}
use learn_apue.Base.Int.{pos}
use learn_apue.MemStream.Bounds.{Fine, copy_in-fits, length-take, to_int-small}
use learn_apue.MemStream.{
  MemStream, min_of, copy_in, copy_out, returns, has_read, mstream_read, with_buf, terminate,
  advance, close_text, has_written, copied, write_from, mstream_write, seek_set, to_int,
  seek_offset, seek_to, mstream_seek,
}

-- Bytes of the buffer from an offset.
abbrev Holds : List ℕ → ℕ → List ℕ → Type 0
Holds buf off s = take (length s) (drop off buf) ≡ s

take_all : (s : List ℕ) → take (length s) s ≡ s
take_all [] = refl
take_all (x ∷ s) = ap (λ l. x ∷ l) (take_all s)

take_before :
    (n p : ℕ) (buf rest : List ℕ)
    → n ≤ p
    → p ≤ length buf
    → take n (take p buf ++ rest) ≡ take n buf
take_before zero p buf rest h h' = refl
take_before (suc n) zero buf rest h h' = absurd (omega arith)
take_before (suc n) (suc p) [] rest h h' = absurd (omega arith)
take_before (suc n) (suc p) (x ∷ buf) rest h h' =
    ap (λ l. x ∷ l) (take_before n p buf rest (omega arith) (omega arith))

-- What stands in front of an offset is not changed by what is put there.
drop_before :
    (off n p : ℕ) (buf rest : List ℕ)
    → off + n ≤ p
    → p ≤ length buf
    → take n (drop off (take p buf ++ rest)) ≡ take n (drop off buf)
drop_before zero n p buf rest h h' = take_before n p buf rest (omega arith) h'
drop_before (suc off) n zero buf rest h h' = absurd (omega arith)
drop_before (suc off) n (suc p) [] rest h h' = absurd (omega arith)
drop_before (suc off) n (suc p) (x ∷ buf) rest h h' =
    drop_before off n p buf rest (omega arith) (omega arith)

-- The stream holds the bytes at the offset, all in front of its end, and can be read.
record Keeps (off : ℕ) (s : List ℕ) (ms : MemStream) : Type 0 where
  holds : Holds ms.buf off s
  before : off + length s ≤ ms.vsize
  inside : ms.vsize ≤ length ms.buf
  reads : ms.flags.ms_read ≡ true

terminate-Keeps :
    (need : Bool) (off : ℕ) (s : List ℕ) (ms : MemStream)
    → Keeps off s ms
    → (need ≡ true → ms.vsize < length ms.buf)
    → (t : MemStream) × (terminate need ms.vsize (some ms) ≡ some t) × Keeps off s t
unfolding terminate with_buf
terminate-Keeps false off s ms k room = (ms, refl, k)
terminate-Keeps true off s ms k room =
    let there = room refl in
    let before = k.before in
    let (b, e, is, same) = copy_in-fits ms.vsize (0 ∷ []) ms.buf (omega arith) in
    (
      record ms { buf = b },
      simp e,
      record {
        holds = rw (is, drop_before off (length s) ms.vsize ms.buf _ before (omega arith)) k.holds;
        before = before;
        inside = omega (arith, same);
        reads = k.reads;
      },
    )

room :
    (a b : Bool) (n : ℕ) (ms : MemStream)
    → (a && b && ltb n ms.rsize) ≡ true
    → length ms.buf ≡ ms.rsize
    → n < length ms.buf
room true true n ms h e = ground arith
room true false n ms h e = absurd (ground arith)
room false b n ms h e = absurd (ground arith)

advance-Keeps :
    (off : ℕ) (s : List ℕ) (ms : MemStream)
    → Holds ms.buf off s
    → Fine ms
    → off + length s ≤ ms.rsize
    → ms.flags.ms_read ≡ true
    → (t : MemStream) × (advance (off + length s) ms ≡ some t) × Keeps off s t
unfolding advance
advance-Keeps off s ms holds f fits reads =
    let buffer = f.buffer in
    let last = f.end' in
    elim (Bool-cases (ltb ms.vsize (off + length s))) [
      | inr inside ↦ (
        record ms { curpos = off + length s },
        simp inside,
        record { holds = holds; before = ground arith; inside = omega arith; reads = reads },
      )
      | inl behind ↦
          let ms1 : MemStream = record ms { curpos = off + length s; vsize = off + length s } in
          let k : Keeps off s ms1 = record {
            holds = holds;
            before = omega arith;
            inside = omega arith;
            reads = reads;
          } in
          let need = ms.flags.ms_read && ms.flags.ms_write && ltb (off + length s) ms.rsize in
          let (t, e, kt) =
            terminate-Keeps need off s ms1 k
              (λ yes'. room ms.flags.ms_read ms.flags.ms_write (off + length s) ms yes' buffer) in
          (t, simp behind e, kt)
    ]

min_of_fits : (a b : ℕ) → a ≤ b → min_of a b ≡ a
unfolding min_of
min_of_fits a b h = ground arith

nil_of_length : (s : List ℕ) → length s ≡ 0 → s ≡ []
nil_of_length [] h = refl
nil_of_length (x ∷ s) h = absurd (omega arith)

-- With the stream at the bytes, they are read.
read-Keeps :
    (off : ℕ) (s : List ℕ) (t : MemStream)
    → Keeps off s t
    → (u : MemStream) × (mstream_read (length s) (record t { curpos = off })
        ≡ some (returns (length s) s, u))
unfolding mstream_read has_read copy_out
read-Keeps off s t k =
    let before = k.before in
    let inside = k.inside in
    elim (Bool-cases (leb t.vsize off)) [
      | inl at_end ↦
          let none_left : length s ≡ 0 = ground arith in
          let empty : s ≡ [] = nil_of_length s none_left in
          (record t { curpos = off }, simp (k.reads, at_end, empty))
      | inr before_end ↦
          let all : min_of (length s) (t.vsize - off) ≡ length s =
            min_of_fits (length s) _ (omega arith) in
          let fits : leb (off + length s) (length t.buf) ≡ true = ground arith in
          (record t { curpos = off + length s }, simp (k.reads, before_end, all, fits, k.holds))
    ]

-- `seek_set` to the bytes.
seek-Keeps :
    (off : ℕ) (s : List ℕ) (t : MemStream)
    → Keeps off s t
    → off < 2 ^ 31
    → mstream_seek (pos off) seek_set t ≡ (returns off [], record t { curpos = off })
unfolding mstream_seek seek_offset seek_to to_int
seek-Keeps off s t k h =
    let before = k.before in
    let small : off % 2 ^ 32 ≡ off = omega arith in
    let positive : ltb off (2 ^ 31) ≡ true = ground arith in
    let inside : ltb t.vsize off ≡ false = ground arith in simp (small, positive, inside)

copied-advance :
    (off nw : ℕ) (ms t : MemStream) (b : List ℕ)
    → advance (off + nw) (record ms { buf = b }) ≡ some t
    → t.flags.ms_read ≡ true
    → copied off nw ms (some b) ≡ some (returns nw [], t)
unfolding copied close_text has_written terminate
copied-advance off nw ms t b moved reads = rw (moved, reads)

write_from-in_place :
    (s : List ℕ) (ms : MemStream)
    → ms.curpos + length s ≤ ms.rsize
    → ms.rsize < 2 ^ 31
    → write_from (pos ms.curpos) s ms ≡ copied ms.curpos (length s) ms (copy_in ms.curpos s ms.buf)
unfolding write_from
write_from-in_place s ms fits small =
    let all : min_of (length s) (ms.rsize - ms.curpos) ≡ length s =
      min_of_fits (length s) _ (omega arith) in
    let no_overflow : ltb (ms.curpos + length s) (2 ^ 31) ≡ true = ground arith in
    simp (all, no_overflow, take_all s)

mstream_write-in_place :
    (s : List ℕ) (ms : MemStream)
    → ms.flags.ms_write ≡ true
    → ms.flags.ms_append ≡ false
    → ms.curpos + length s ≤ ms.rsize
    → ms.rsize < 2 ^ 31
    → mstream_write s ms ≡ copied ms.curpos (length s) ms (copy_in ms.curpos s ms.buf)
unfolding mstream_write
mstream_write-in_place s ms writes in_place fits small =
    let same = to_int-small ms.curpos (omega arith) in
    simp (in_place, writes, same) (write_from-in_place s ms fits small)

-- If a stream with a sound buffer, whose size fits an `int`, is open for reading and writing and
-- not for appending, and the bytes fit at its position, then all are written, `SEEK_SET` to where
-- the position was succeeds, and a read of as many bytes returns the bytes.
pub mstream_read-mstream_write :
    (s : List ℕ) (ms : MemStream)
    → Fine ms
    → ms.flags.ms_read ≡ true
    → ms.flags.ms_write ≡ true
    → ms.flags.ms_append ≡ false
    → ms.curpos + length s ≤ ms.rsize
    → (t : MemStream) × (u : MemStream) × (v : MemStream) × (mstream_write s ms
        ≡ some (returns (length s) [], t))
      × (mstream_seek (pos ms.curpos) seek_set t ≡ (returns ms.curpos [], u))
      × (mstream_read (length s) u ≡ some (returns (length s) s, v))
mstream_read-mstream_write s ms f reads writes in_place fits =
    let buffer = f.buffer in
    let (b, copy, is, same) = copy_in-fits ms.curpos s ms.buf (omega arith) in
    let ms1 : MemStream = record ms { buf = b } in
    let f1 : Fine ms1 = record {
      buffer = same ∙ f.buffer;
      some_room = f.some_room;
      small = f.small;
      position = f.position;
      end' = f.end';
    } in
    let holds : Holds b ms.curpos s = rw (
      is,
      drop-append ms.curpos (take ms.curpos ms.buf) (s ++ drop (ms.curpos + length s) ms.buf)
          (length-take ms.curpos ms.buf (omega arith)),
      take-append (length s) s (drop (ms.curpos + length s) ms.buf) refl,
    ) in
    let (t, moved, k) = advance-Keeps ms.curpos s ms1 holds f1 fits reads in
    let (v, run) = read-Keeps ms.curpos s t k in
    (
      t,
      record t { curpos = ms.curpos },
      v,
      mstream_write-in_place s ms writes in_place fits f.small
          ∙ rw copy (copied-advance ms.curpos (length s) ms t b moved k.reads),
      seek-Keeps ms.curpos s t k (omega (arith, f.small)),
      run,
    )
