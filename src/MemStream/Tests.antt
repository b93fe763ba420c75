-- ===== src/MemStream/Tests.antt =====
-- The theorems on memory streams at a buffer of four bytes.
use learn_apue.Base.{ℕ, ◌≡◌, refl, none, some, true, false, [], ◌∷◌, arith, List, length}
use learn_apue.Base.Int.{pos, negsuc}
use learn_apue.Bytes.Text.{codes}
use learn_apue.MemStream.Bounds.{Fine}
use learn_apue.MemStream.Contents.{mstream_read-mstream_write}
use learn_apue.MemStream.Runs.{call_read, call_write, call_seek, run_calls, run_calls-fmemopen}
use learn_apue.MemStream.{
  MemStream, returns, fmemopen, is_zero, type_chars, type_char, open_with, open_stream, stream,
  start_stream, type_to_flags, mstream_read, mstream_write, mstream_seek, seek_set, seek_end,
}

abbrev four_bytes : List ℕ
four_bytes = codes "abcd"

abbrev update_stream : MemStream
update_stream = record {
  buf = four_bytes;
  rsize = 4;
  vsize = 4;
  curpos = 0;
  flags = record {
    ms_read = true;
    ms_write = true;
    ms_append = false;
    ms_truncate = false;
    ms_mybuf = false;
  };
}

four_bytes_size : (b : List ℕ) → some four_bytes ≡ some b → length b ≡ 4
four_bytes_size b e = rw (← some_inj e) refl
  where
    some_inj : some four_bytes ≡ some b → four_bytes ≡ b
    some_inj e = cc

no_buffer_size : (b : List ℕ) → none ≡ some b → length b ≡ 4
no_buffer_size b e = cc

opened : fmemopen (some four_bytes) 4 (codes "r+") true none none ≡ stream update_stream
unfolding fmemopen is_zero type_to_flags type_chars type_char open_with open_stream start_stream
opened = refl

run_calls-fmemopen_example :
    (t : MemStream) × (run_calls
        (call_write (codes "xyz") ∷ call_seek (negsuc 0) seek_end ∷ call_read 9 ∷ [])
        (some (returns 0 [], update_stream))
      ≡ some t)
    × Fine t
run_calls-fmemopen_example =
    run_calls-fmemopen (some four_bytes) 4 (codes "r+") true none none update_stream (returns 0 [])
      (call_write (codes "xyz") ∷ call_seek (negsuc 0) seek_end ∷ call_read 9 ∷ []) (omega arith)
      four_bytes_size no_buffer_size opened

update_stream-Fine : Fine update_stream
update_stream-Fine = record {
  buffer = refl;
  some_room = omega arith;
  small = omega arith;
  position = omega arith;
  end' = omega arith;
}

mstream_read-mstream_write_example :
    (t : MemStream) × (u : MemStream) × (v : MemStream) × (mstream_write (codes "xyz") update_stream
      ≡ some (returns 3 [], t))
    × (mstream_seek (pos 0) seek_set t ≡ (returns 0 [], u))
    × (mstream_read 3 u ≡ some (returns 3 (codes "xyz"), v))
mstream_read-mstream_write_example =
    mstream_read-mstream_write (codes "xyz") update_stream update_stream-Fine refl refl refl
      (omega arith)
