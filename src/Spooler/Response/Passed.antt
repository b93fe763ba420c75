-- ===== src/Spooler/Response/Passed.antt =====
-- The answers that printer_status of printer/printd.c passes over, and those that end it.
use learn_apue.Base.{
  ℕ, zero, suc, ◌+◌, ◌-◌, ◌^◌, ap, ◌≤◌, ◌<◌, ◌≡◌, refl, ◌∙◌, true, false, not, ◌&&◌, ◌||◌, List, [],
  ◌∷◌, ◌++◌, map, arith, length, All, leb, ltb, ◌==◌, if◌then◌else◌,
}
use learn_apue.Spooler.Response.Answers.{
  Start, code_line, start_bytes, on_read-code_line, tread-chunk, IsSuccess, IppAnswer, ipp_bytes,
  status_loop-one_read, status_loop-out_of_rounds,
}
use learn_apue.Spooler.Response.Scans.{Absent, blank_line}
use learn_apue.Spooler.Response.Stuck.{NoEnd}
use learn_apue.Spooler.Restart.{int32_of_small}
use learn_apue.Spooler.Response.{
  iobufsz, returns, overrun, out_of_rounds, on_error, on_code, status_loop, printer_status,
}

-- An answer that comes in one read, with any bytes behind its response line.
pub record IsAnswer (s : Start) (rest : List ℕ) : Type 0 where
  pub version_size : length s.version ≡ 8
  pub one_line : All (λ x. (not ((x == 13) || (x == 10))) ≡ true) s.reason
  pub fits : length (code_line s rest) ≤ iobufsz

abbrev pub chunk_of : Start × List ℕ → List ℕ
chunk_of (s, rest) = code_line s rest

-- An answer whose status is of 100 to 199.
abbrev pub IsInfo : Start × List ℕ → Type 0
IsInfo (s, rest) = IsAnswer s rest × (100 ≤ s.code) × (s.code ≤ 199)

status_loop-info :
    (infos : List (Start × List ℕ)) (answers rounds jobid : ℕ) (chunks : List (List ℕ))
    → All IsInfo infos
    → status_loop (length infos + answers) rounds jobid (map chunk_of infos ++ chunks)
      ≡ status_loop answers rounds jobid chunks
unfolding status_loop on_code
status_loop-info [] answers rounds jobid chunks h =
    let zero_left : 0 + answers ≡ answers = omega arith in rw zero_left refl
status_loop-info ((s, rest) ∷ infos) answers rounds jobid chunks ((a, low, high), hs) =
    let one_more : suc (length infos) + answers ≡ suc (length infos + answers) = omega arith in
    let is_info : (leb 100 s.code && leb s.code 199) ≡ true = ground arith in
    rw (one_more, tread-chunk iobufsz (code_line s rest) (map chunk_of infos ++ chunks) a.fits)
      (on_read-code_line rounds jobid _ s rest (map chunk_of infos ++ chunks) a.version_size
          a.one_line
        ∙ rw (int32_of_small s.code (omega arith), is_info)
            (status_loop-info infos answers rounds jobid chunks hs))

rounds-split :
    (infos : List (Start × List ℕ)) (rounds jobid : ℕ) (chunks : List (List ℕ))
    → All IsInfo infos
    → length infos < rounds
    → (answers : ℕ) × (printer_status rounds jobid (map chunk_of infos ++ chunks)
        ≡ status_loop (suc answers) rounds jobid chunks)
unfolding printer_status
rounds-split infos rounds jobid chunks h enough =
    let k = rounds - length infos - 1 in
    let split : rounds ≡ length infos + suc k = omega arith in
    (
      k,
      ap (λ n. status_loop n rounds jobid (map chunk_of infos ++ chunks)) split
          ∙ status_loop-info infos (suc k) rounds jobid chunks h,
    )

-- Let each answer come in one read of at most 8192 bytes, with a version of eight bytes and a
-- reason of one line, and `printer_status` have more rounds than there are answers with a status of
-- 100 to 199. After any number of these, an answer with a status of at least 300 that fits an
-- `int`, whatever follows its response line, makes it return 0 if the answer has less than 8192
-- bytes, and write a byte behind the buffer if it has 8192.
pub printer_status-error :
    (infos : List (Start × List ℕ)) (rounds jobid : ℕ) (s : Start) (rest : List ℕ)
    (chunks : List (List ℕ))
    → All IsInfo infos
    → IsAnswer s rest
    → 300 ≤ s.code
    → s.code < 2 ^ 31
    → length infos < rounds
    → printer_status rounds jobid (map chunk_of infos ++ (code_line s rest ∷ chunks))
      ≡ (if ltb (length (code_line s rest)) iobufsz then returns false else overrun)
unfolding status_loop on_code on_error
printer_status-error infos rounds jobid s rest chunks h a error int enough =
    let run = rounds-split infos rounds jobid (code_line s rest ∷ chunks) h enough in
    let not_info : (leb 100 s.code && leb s.code 199) ≡ false = ground arith in
    let no_success : (leb 200 s.code && leb s.code 299) ≡ false = ground arith in
    run.1
    ∙ rw (tread-chunk iobufsz (code_line s rest) chunks a.fits) (
        on_read-code_line rounds jobid _ s rest chunks a.version_size a.one_line
        ∙ rw (int32_of_small s.code int, not_info, no_success) refl)

-- Let each answer come in one read of at most 8192 bytes, with a version of eight bytes and a
-- reason of one line. After any number of answers with a status of 100 to 199, let one have a
-- status of 200 to 299, fields of which Content-Length is the first of its name and is followed
-- by the first blank line, and an IPP header, with a status of two bytes and an identifier of
-- four, that is as long as that length says at least. If the loops have two rounds more than
-- there are such answers and bytes in front of the length, `printer_status` returns 1 exactly if
-- the request's identifier in the header is the job's and the status there is at most 255.
pub printer_status-success :
    (infos : List (Start × List ℕ)) (rounds jobid : ℕ) (s : Start) (others : List ℕ) (a : IppAnswer)
    (chunks : List (List ℕ))
    → All IsInfo infos
    → IsSuccess s (others ++ (blank_line ++ ipp_bytes a))
    → Absent (λ b. b) blank_line others (blank_line ++ ipp_bytes a)
    → s.len ≤ length (ipp_bytes a)
    → a.status < 65536
    → a.request_id < 4294967296
    → length (start_bytes s (others ++ (blank_line ++ ipp_bytes a))) ≤ iobufsz
    → length infos + length s.fields + 1 < rounds
    → printer_status rounds jobid
        (map chunk_of infos ++ (start_bytes s (others ++ (blank_line ++ ipp_bytes a)) ∷ chunks))
      ≡ returns ((a.request_id == jobid) && leb a.status 255)
printer_status-success infos zero jobid s others a chunks h g ab hl hs hr fits enough =
    absurd (omega arith)
printer_status-success infos (suc rounds) jobid s others a chunks h g ab hl hs hr fits enough =
    let run =
      rounds-split infos (suc rounds) jobid
        (start_bytes s (others ++ (blank_line ++ ipp_bytes a)) ∷ chunks) h (omega arith) in
    run.1
    ∙ status_loop-one_read run.0 rounds jobid s others a chunks g ab hl hs hr fits (omega arith)

-- Let each answer come in one read of at most 8192 bytes, with a version of eight bytes and a
-- reason of one line. If, after any number of answers with a status of 100 to 199, a read gives
-- the start of an answer with a status of 200 to 299, with its first Content-Length field and at
-- least one byte more, but not the blank line that ends its header, then `printer_status` never
-- ends: whatever else arrives, and however many rounds the loops have beyond two more than there
-- are such answers and bytes in front of the length, it uses them up.
pub printer_status-NoEnd :
    (infos : List (Start × List ℕ)) (rounds jobid : ℕ) (s : Start) (others : List ℕ)
    (chunks : List (List ℕ))
    → All IsInfo infos
    → IsSuccess s others
    → NoEnd others
    → 1 ≤ length others
    → length (start_bytes s others) ≤ iobufsz
    → length infos + length s.fields + 1 < rounds
    → printer_status rounds jobid (map chunk_of infos ++ (start_bytes s others ∷ chunks))
      ≡ out_of_rounds
printer_status-NoEnd infos zero jobid s others chunks h g no_end some_left fits enough =
    absurd (omega arith)
printer_status-NoEnd infos (suc rounds) jobid s others chunks h g no_end some_left fits enough =
    let run =
      rounds-split infos (suc rounds) jobid (start_bytes s others ∷ chunks) h (omega arith) in
    run.1
    ∙ status_loop-out_of_rounds run.0 rounds jobid s others chunks g no_end some_left fits
        (omega arith)
