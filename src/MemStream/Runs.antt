-- ===== src/MemStream/Runs.antt =====
-- What can be done with a stream that `fmemopen` of exercises/fmemopen.c returns.
use learn_apue.Base.{
  ℕ, ◌^◌, ◌≤◌, ◌<◌, ◌≡◌, refl, ap, ◌∙◌, Bool, true, false, ◌&&◌, Option, none, some, List, [], ◌∷◌,
  arith, length, ◌==◌, if◌then◌else◌, Bool-cases, inl, inr,
}
use learn_apue.Base.Int.{ℤ}
use learn_apue.MemStream.Bounds.{
  Fine, Succeeds, find_end_le, mstream_read-Succeeds, mstream_write-Succeeds, mstream_seek-Fine,
}
use learn_apue.MemStream.{
  Flags, MemStream, is_zero, type_to_flags, find_end, Opened, error, stream, start_stream,
  open_stream, open_own, open_with, fmemopen, Result, mstream_read, mstream_write, SeekWhence,
  mstream_seek,
}

-- The calls that the standard I/O library makes.
pub data Call : Type 0 where
  call_read : ℕ → Call
  call_write : List ℕ → Call
  call_seek : ℤ → SeekWhence → Call

unfoldable pub run_call : Call → MemStream → Option (Result × MemStream)
run_call (call_read len) ms = mstream_read len ms
run_call (call_write s) ms = mstream_write s ms
run_call (call_seek position whence) ms = some (mstream_seek position whence ms)

-- Calls one after the other; none if one of them accesses memory outside the buffer.
unfoldable pub run_calls : List Call → Option (Result × MemStream) → Option MemStream
run_calls cs none = none
run_calls [] (some (r, ms)) = some ms
run_calls (c ∷ cs) (some (r, ms)) = run_calls cs (run_call c ms)

run_call-Succeeds : (c : Call) (ms : MemStream) → Fine ms → Succeeds (run_call c ms)
unfolding run_call
run_call-Succeeds (call_read len) ms f = mstream_read-Succeeds len ms f
run_call-Succeeds (call_write s) ms f = mstream_write-Succeeds s ms f
run_call-Succeeds (call_seek position whence) ms f =
    let done = mstream_seek position whence ms in
    (done.0, done.1, refl, mstream_seek-Fine position whence ms f)

run_calls-Fine :
    (cs : List Call) (r : Result) (ms : MemStream)
    → Fine ms
    → (t : MemStream) × (run_calls cs (some (r, ms)) ≡ some t) × Fine t
unfolding run_calls
run_calls-Fine [] r ms f = (ms, refl, f)
run_calls-Fine (c ∷ cs) r ms f =
    let (r', ms', e, f') = run_call-Succeeds c ms f in
    let (t, run, ft) = run_calls-Fine cs r' ms' f' in (t, ap (λ o. run_calls cs o) e ∙ run, ft)

-- A stream that is opened is fine.
abbrev FineOpened : Opened → Type 0
FineOpened (error e) = Unit
FineOpened (stream ms) = Fine ms

module _ (flags : Flags) (size : ℕ) (nonzero : 1 ≤ size) (fits_int : size < 2 ^ 31) where
  start_stream-Fine :
      (buf : List ℕ) (curpos : ℕ)
      → length buf ≡ size
      → curpos ≤ size
      → (flags.ms_append ≡ false → curpos ≡ 0)
      → Fine (start_stream flags buf size curpos)
  unfolding start_stream
  start_stream-Fine buf curpos h le at_start = elim (Bool-cases flags.ms_append) [
    | inl append ↦ record {
      buffer = h;
      some_room = nonzero;
      small = fits_int;
      position = simp append (omega arith);
      end' = simp append le;
    }
    | inr other ↦
        let zero' = at_start other in
        record {
          buffer = h;
          some_room = nonzero;
          small = fits_int;
          position = ground arith;
          end' = ground arith;
        }
  ]

  FineOpened-open_stream :
      (funopen : Option ℕ) (ms : MemStream) → Fine ms → FineOpened (open_stream funopen ms)
  unfolding open_stream
  FineOpened-open_stream none ms f = f
  FineOpened-open_stream (some e) ms f = tt

FineOpened-open_own :
    (flags : Flags) (size : ℕ) (fresh : Option (List ℕ)) (funopen : Option ℕ)
    → 1 ≤ size
    → size < 2 ^ 31
    → ((b : List ℕ) → fresh ≡ some b → length b ≡ size)
    → FineOpened (open_own flags size fresh funopen)
unfolding open_own
FineOpened-open_own flags size none funopen pos' fits_int h =
    elim (Bool-cases (flags.ms_read && flags.ms_write)) [ inl e ↦ simp e tt | inr e ↦ simp e tt ]
FineOpened-open_own flags size (some b) funopen pos' fits_int h =
    elim (Bool-cases (flags.ms_read && flags.ms_write)) [
      | inr e ↦ simp e tt
      | inl e ↦
          let flags' : Flags = record flags { ms_mybuf = true } in
          simp e (
            FineOpened-open_stream flags' size pos' fits_int funopen _ (
              start_stream-Fine flags' size pos' fits_int b 0 (h b refl) (omega arith)
                (λ other. refl)))
    ]

FineOpened-open_with :
    (buf : Option (List ℕ)) (flags : Flags) (size : ℕ) (fresh : Option (List ℕ))
    (funopen : Option ℕ)
    → 1 ≤ size
    → size < 2 ^ 31
    → ((b : List ℕ) → buf ≡ some b → length b ≡ size)
    → ((b : List ℕ) → fresh ≡ some b → length b ≡ size)
    → FineOpened (open_with buf flags size fresh funopen)
unfolding open_with
FineOpened-open_with none flags size fresh funopen pos' fits_int hb hf =
    FineOpened-open_own flags size fresh funopen pos' fits_int hf
FineOpened-open_with (some b) flags size fresh funopen pos' fits_int hb hf =
    let same = hb b refl in
    let le = find_end_le b in
    FineOpened-open_stream flags size pos' fits_int funopen _ (
      start_stream-Fine flags size pos' fits_int b (if flags.ms_append then find_end b else 0) same
        (ground arith) (λ other. rw other))

FineOpened-fmemopen :
    (buf : Option (List ℕ)) (size : ℕ) (type : List ℕ) (memory : Bool) (fresh : Option (List ℕ))
    (funopen : Option ℕ)
    → size < 2 ^ 31
    → ((b : List ℕ) → buf ≡ some b → length b ≡ size)
    → ((b : List ℕ) → fresh ≡ some b → length b ≡ size)
    → FineOpened (fmemopen buf size type memory fresh funopen)
unfolding fmemopen
FineOpened-fmemopen buf size type memory fresh funopen fits_int hb hf =
    elim (Bool-cases (size == 0)) [
      | inl empty ↦ rw empty tt
      | inr some_size ↦ elim (Bool-cases memory) [
        | inr e ↦ rw (some_size, e) tt
        | inl e ↦ elim (Bool-cases (is_zero (type_to_flags type))) [
          | inl wrong ↦ rw (some_size, e, wrong) tt
          | inr right ↦
              let nonzero : 1 ≤ size = ground arith in
              rw (some_size, e, right)
                (FineOpened-open_with buf (type_to_flags type) size fresh funopen nonzero fits_int
                  hb hf)
        ]
      ]
    ]

-- If the size that `fmemopen` is given fits an `int`, the caller's buffer, if there is one, has
-- this size, and what `malloc` returns too, and a stream is opened, then any reads, writes and
-- seeks, in any order, access no memory outside the buffer and overflow no `int`; afterwards the
-- position is at most at the end, and the end in the buffer.
pub run_calls-fmemopen :
    (buf : Option (List ℕ)) (size : ℕ) (type : List ℕ) (memory : Bool) (fresh : Option (List ℕ))
    (funopen : Option ℕ) (ms : MemStream) (r : Result) (cs : List Call)
    → size < 2 ^ 31
    → ((b : List ℕ) → buf ≡ some b → length b ≡ size)
    → ((b : List ℕ) → fresh ≡ some b → length b ≡ size)
    → fmemopen buf size type memory fresh funopen ≡ stream ms
    → (t : MemStream) × (run_calls cs (some (r, ms)) ≡ some t) × Fine t
run_calls-fmemopen buf size type memory fresh funopen ms r cs fits_int hb hf e =
    run_calls-Fine cs r ms
      (rw e at (FineOpened-fmemopen buf size type memory fresh funopen fits_int hb hf))
