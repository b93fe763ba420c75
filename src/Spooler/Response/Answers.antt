-- ===== src/Spooler/Response/Answers.antt =====
-- What printer_status of printer/printd.c returns for an answer whose header comes in one read.
use learn_apue.Base.{
  ℕ, suc, ◌+◌, ◌*◌, ◌/◌, ◌%◌, ◌^◌, ◌≤◌, ◌<◌, ◌≡◌, refl, ap, ◌∙◌, Bool, true, false, not, ◌&&◌, ◌||◌,
  List, [], ◌∷◌, ◌++◌, arith, length, length-append, All, leb, ltb, ◌==◌, Bool-cases, inl, inr,
}
use learn_apue.Base.Int.{pos}
use learn_apue.Bytes.Decimal.{print, atol-print}
use learn_apue.Spooler.Ipp.{be16, be32}
use learn_apue.Spooler.Response.Scans.{
  Absent, at, name_of_field, length_field, blank_line, more_at_end-inside, status_line-statcode,
  find_length-goes_on, find_blank-found,
}
use learn_apue.Spooler.Response.Stuck.{NoEnd, find_blank-out_of_rounds}
use learn_apue.Spooler.Restart.{int32_of, int32_of_small}
use learn_apue.Spooler.Response.{
  iobufsz, tread, Cursor, Reading, goes_on, returns, out_of_rounds, bind, begins, to_lower,
  more_at_end, find_blank, rest_of_answer, ipp_status, http_success, on_code, on_status_line,
  on_read, status_loop,
}

-- The start of an answer, up to the line with its length.
pub record Start : Type 0 where
  pub version : List ℕ
  pub code : ℕ
  pub reason : List ℕ
  pub fields : List ℕ
  pub len : ℕ

abbrev pub code_line : Start → List ℕ → List ℕ
code_line s rest = s.version ++ (b' ' ∷ (print s.code ++ (b' ' ∷ (s.reason ++ (13 ∷ rest)))))

abbrev pub start_bytes : Start → List ℕ → List ℕ
start_bytes s rest = code_line s (s.fields ++ length_field s.len rest)

-- A status of 200 to 299 behind a version of eight bytes, with a reason of one line; the length is the
-- first field of its name.
pub record IsSuccess (s : Start) (rest : List ℕ) : Type 0 where
  pub version_size : length s.version ≡ 8
  pub one_line : All (λ x. (not ((x == 13) || (x == 10))) ≡ true) s.reason
  pub at_least : 200 ≤ s.code
  pub at_most : s.code ≤ 299
  pub first_field : Absent to_lower name_of_field s.fields (length_field s.len rest)

-- What is left to do when the length is known.
abbrev after_length : ℕ → ℕ → ℕ → Cursor → Reading Bool
after_length rounds jobid len c = bind (more_at_end c) (λ c1.
    bind (find_blank rounds c1)
      (λ c2. bind (rest_of_answer (int32_of (pos len)) c2) (λ c3. ipp_status jobid c3.at_cp)))

pub length-code_line :
    (s : Start) (rest : List ℕ)
    → length (code_line s rest)
      ≡ length s.version + 1 + length (print s.code) + 1 + length s.reason + 1 + length rest
length-code_line s rest = omega (
  arith,
  length-append s.version (b' ' ∷ (print s.code ++ (b' ' ∷ (s.reason ++ (13 ∷ rest))))),
  length-append (print s.code) (b' ' ∷ (s.reason ++ (13 ∷ rest))),
  length-append s.reason (13 ∷ rest),
)

-- An answer that comes in one read, up to its response line.
pub on_read-code_line :
    (rounds jobid : ℕ) (next : List (List ℕ) → Reading Bool) (s : Start) (rest : List ℕ)
    (chunks : List (List ℕ))
    → length s.version ≡ 8
    → All (λ x. (not ((x == 13) || (x == 10))) ≡ true) s.reason
    → on_read rounds jobid next (code_line s rest, chunks)
      ≡ on_code rounds jobid
          (record {
            i = 9 + length (print s.code) + 1 + length s.reason;
            at_cp = 0 ∷ rest;
            datsz = length (code_line s rest);
            bufsz = iobufsz;
            chunks = chunks;
          })
          next
          (int32_of (pos s.code))
unfolding on_read on_status_line bind
on_read-code_line rounds jobid next s rest chunks h8 hr = go (code_line s rest) refl
  where
    go :
        (l : List ℕ)
        → l ≡ code_line s rest
        → on_read rounds jobid next (l, chunks)
          ≡ on_code rounds jobid
              (record {
                i = 9 + length (print s.code) + 1 + length s.reason;
                at_cp = 0 ∷ rest;
                datsz = length l;
                bufsz = iobufsz;
                chunks = chunks;
              })
              next
              (int32_of (pos s.code))
    go [] e = absurd (omega (arith, ap length e, length-code_line s rest))
    go (b ∷ bs) e =
        let c : Cursor = record {
          i = 0;
          at_cp = b ∷ bs;
          datsz = length (b ∷ bs);
          bufsz = iobufsz;
          chunks = chunks;
        } in
        let st = status_line-statcode c s.version s.code s.reason rest h8 hr in
        rw e (
          ap (λ r. bind r (on_status_line rounds jobid chunks next)) st
          ∙ ap
              (λ v.
                on_code rounds jobid
                  (record {
                    i = 9 + length (print s.code) + 1 + length s.reason;
                    at_cp = 0 ∷ rest;
                    datsz = suc (length bs);
                    bufsz = iobufsz;
                    chunks = chunks;
                  })
                  next (int32_of v))
              (atol-print s.code))

pub tread-chunk :
    (n : ℕ) (chunk : List ℕ) (chunks : List (List ℕ))
    → length chunk ≤ n
    → tread n (chunk ∷ chunks) ≡ (chunk, chunks)
unfolding tread
tread-chunk n chunk chunks h = let fits : leb (length chunk) n ≡ true = ground arith in rw fits refl

-- The byte that the end of the reason is overwritten with is no letter.
begins-zero : (l : List ℕ) → begins to_lower name_of_field (0 ∷ l) ≡ goes_on false
unfolding begins to_lower
begins-zero l = refl

-- How far the first loops get in a successful answer.
record Begun (rounds jobid : ℕ) (s : Start) (rest : List ℕ) (r : Reading Bool) : Type 0 where
  c : Cursor
  j : ℕ
  result : r ≡ after_length rounds jobid s.len (at c j rest)
  exact : j + length rest ≡ c.datsz
  fits : c.datsz ≤ iobufsz

status_loop-Begun :
    (answers rounds jobid : ℕ) (s : Start) (rest : List ℕ) (chunks : List (List ℕ))
    → IsSuccess s rest
    → length (start_bytes s rest) ≤ iobufsz
    → length s.fields < rounds
    → Begun
        (suc rounds)
        jobid
        s
        rest
        (status_loop (suc answers) (suc rounds) jobid (start_bytes s rest ∷ chunks))
unfolding status_loop on_code http_success bind
status_loop-Begun answers rounds jobid s rest chunks g fits enough =
    let after = s.fields ++ length_field s.len rest in
    let start = 9 + length (print s.code) + 1 + length s.reason in
    let c : Cursor = record {
      i = start;
      at_cp = 0 ∷ after;
      datsz = length (start_bytes s rest);
      bufsz = iobufsz;
      chunks = chunks;
    } in
    let j = start + suc (length s.fields) + 15 + 1 + length (print s.len) + 1 in
    let total : j + length rest ≡ c.datsz = omega (
      arith,
      length-code_line s after,
      length-append s.fields (length_field s.len rest),
      length-append (print s.len) (13 ∷ rest),
      g.version_size,
    ) in
    let code = int32_of_small s.code (omega (arith, g.at_most)) in
    let not_info : (leb 100 s.code && leb s.code 199) ≡ false = ground (arith, g.at_least) in
    let success : (leb 200 s.code && leb s.code 299) ≡ true =
      ground (arith, g.at_least, g.at_most) in
    let found =
      find_length-goes_on (0 ∷ s.fields) rounds c start j s.len rest
        (begins-zero (s.fields ++ length_field s.len rest), g.first_field) (omega arith)
        (omega arith) refl in
    record {
      c = c;
      j = j;
      result = rw (tread-chunk iobufsz (start_bytes s rest) chunks fits) (
          on_read-code_line (suc rounds) jobid _ s after chunks g.version_size g.one_line
          ∙ rw (code, not_info, success, found) refl);
      exact = total;
      fits = fits;
    }

-- The IPP header of an answer.
pub record IppAnswer : Type 0 where
  pub major : ℕ
  pub minor : ℕ
  pub status : ℕ
  pub request_id : ℕ
  pub attributes : List ℕ

abbrev pub ipp_bytes : IppAnswer → List ℕ
ipp_bytes a = a.major ∷ a.minor ∷ (be16 a.status ++ (be32 a.request_id ++ a.attributes))

ipp_status-ipp_bytes :
    (jobid : ℕ) (a : IppAnswer)
    → a.status < 65536
    → a.request_id < 4294967296
    → ipp_status jobid (ipp_bytes a) ≡ returns ((a.request_id == jobid) && leb a.status 255)
unfolding ipp_status be16 be32
ipp_status-ipp_bytes jobid a hs hr =
    let n = a.request_id in
    let id : ((n / 65536 / 256 % 256 * 256 + n / 65536 % 256) * 256 + n / 256 % 256) * 256 + n % 256
        ≡ n =
      omega arith in
    let st : a.status / 256 % 256 * 256 + a.status % 256 ≡ a.status = omega arith in
    rw (id, st)
      (elim (Bool-cases (n == jobid)) [ inl same ↦ rw same refl | inr differs ↦ rw differs refl ])

-- An answer whose header has its end, and the IPP header with it.
pub status_loop-one_read :
    (answers rounds jobid : ℕ) (s : Start) (others : List ℕ) (a : IppAnswer)
    (chunks : List (List ℕ))
    → IsSuccess s (others ++ (blank_line ++ ipp_bytes a))
    → Absent (λ b. b) blank_line others (blank_line ++ ipp_bytes a)
    → s.len ≤ length (ipp_bytes a)
    → a.status < 65536
    → a.request_id < 4294967296
    → length (start_bytes s (others ++ (blank_line ++ ipp_bytes a))) ≤ iobufsz
    → length s.fields < rounds
    → status_loop
        (suc answers)
        (suc rounds)
        jobid
        (start_bytes s (others ++ (blank_line ++ ipp_bytes a)) ∷ chunks)
      ≡ returns ((a.request_id == jobid) && leb a.status 255)
unfolding bind rest_of_answer
status_loop-one_read answers rounds jobid s others a chunks g ab hl hs hr fits enough =
    let body = ipp_bytes a in
    let rest = others ++ (blank_line ++ body) in
    let b = status_loop-Begun answers rounds jobid s rest chunks g fits enough in
    let c = b.c in
    let len = length-append others (blank_line ++ body) in
    let end' = b.j + length others + 3 in
    let small : s.len < 2 ^ 31 = omega (arith, len, b.exact, b.fits) in
    let complete : ltb c.datsz (end' + s.len) ≡ false = ground (arith, len, b.exact) in
    b.result
    ∙ rw
        (
          more_at_end-inside (at c b.j rest) (omega (arith, len, b.exact)),
          find_blank-found others rounds c b.j end' body ab (omega (arith, len, b.exact)) refl,
          int32_of_small s.len small,
          complete,
        )
        (ipp_status-ipp_bytes jobid a hs hr)

-- An answer whose header has no end.
pub status_loop-out_of_rounds :
    (answers rounds jobid : ℕ) (s : Start) (others : List ℕ) (chunks : List (List ℕ))
    → IsSuccess s others
    → NoEnd others
    → 1 ≤ length others
    → length (start_bytes s others) ≤ iobufsz
    → length s.fields < rounds
    → status_loop (suc answers) (suc rounds) jobid (start_bytes s others ∷ chunks) ≡ out_of_rounds
unfolding bind
status_loop-out_of_rounds answers rounds jobid s others chunks g no_end some_left fits enough =
    let b = status_loop-Begun answers rounds jobid s others chunks g fits enough in
    let c = b.c in
    b.result
    ∙ rw
        (
          more_at_end-inside (at c b.j others) (omega (arith, b.exact)),
          find_blank-out_of_rounds (suc rounds) c b.j others no_end some_left b.exact,
        )
        refl
