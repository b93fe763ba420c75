-- ===== src/Spooler/Response.antt =====
-- How printer/printd.c reads the printer's answer: readmore and printer_status. The bytes from `cp` on are
-- a list, as far as they were received; the bytes before `cp` are not read again. Log messages are left out.
pub mod Scans
pub mod Answers
pub mod Stuck
pub mod Passed
mod Tests
use learn_apue.Base.{
  ℕ, zero, suc, ◌+◌, ◌-◌, ◌*◌, Bool, true, false, not, ◌&&◌, ◌||◌, Option, none, some, List, [],
  ◌∷◌, ◌++◌, take, drop, length, leb, ltb, ◌==◌, if◌then◌else◌,
}
use learn_apue.Base.Int.{ℤ, pos, negsuc}
use learn_apue.Bytes.Decimal.{is_digit, is_space, atol}
use learn_apue.Bytes.Text.{codes}
use learn_apue.Spooler.Restart.{int32_of}

abbrev pub iobufsz : ℕ
iobufsz = 8192

-- `tread` of so many bytes, from the chunks that arrive in time; what does not fit stays for the next
-- read. No bytes if it returns 0 or -1: nothing arrives in time, or the connection is closed.
unfoldable pub tread : ℕ → List (List ℕ) → List ℕ × List (List ℕ)
tread n [] = ([], [])
tread n (chunk ∷ chunks) =
    if leb (length chunk) n then (chunk, chunks) else (take n chunk, drop n chunk ∷ chunks)

-- `cp` with the bytes behind it, `i` and `datsz`, `bufsz`, and what the connection still delivers.
pub record Cursor : Type 0 where
  pub i : ℕ
  pub at_cp : List ℕ
  pub datsz : ℕ
  pub bufsz : ℕ
  pub chunks : List (List ℕ)

-- What a part of the program comes to: it goes on, `printer_status` returns, it reads a byte that was not
-- received, it writes behind the buffer, or the rounds are used up.
pub data Reading (A : Type 0) : Type 0 where
  goes_on : A → Reading A
  returns : Bool → Reading A
  unreceived : Reading A
  overrun : Reading A
  out_of_rounds : Reading A

unfoldable pub bind : {A B : Type 0} → Reading A → (A → Reading B) → Reading B
bind (goes_on a) f = f a
bind (returns b) f = returns b
bind unreceived f = unreceived
bind overrun f = overrun
bind out_of_rounds f = out_of_rounds

-- After `readmore` has read the bytes to `cp`. It returns the offset of their end, which the callers
-- add to `datsz`.
unfoldable pub has_more : Cursor → List ℕ × List (List ℕ) → Reading Cursor
has_more c ([], chunks) = returns false
has_more c (b ∷ bs, chunks) =
    let nr = length (b ∷ bs) in
    goes_on (record c {
      at_cp = (b ∷ bs) ++ drop nr c.at_cp;
      datsz = c.datsz + (c.i + nr);
      chunks = chunks;
    })

-- `readmore` at the offset `i`, with its caller's `goto out`.
unfoldable pub readmore : Cursor → Reading Cursor
readmore c =
    let bsz = if leb c.bufsz c.i then c.bufsz + iobufsz else c.bufsz in
    has_more (record c { bufsz = bsz }) (tread (bsz - c.i) c.chunks)

unfoldable pub more_at_end : Cursor → Reading Cursor
more_at_end c = if leb c.datsz c.i then readmore c else goes_on c

unfoldable pub with_first : ℕ → Reading (List ℕ × List ℕ) → Reading (List ℕ × List ℕ)
with_first x (goes_on (s, rest)) = goes_on (x ∷ s, rest)
with_first x (returns b) = returns b
with_first x unreceived = unreceived
with_first x overrun = overrun
with_first x out_of_rounds = out_of_rounds

-- A loop that moves `cp` over the bytes that pass the test.
unfoldable pub scan_while : (ℕ → Bool) → List ℕ → Reading (List ℕ × List ℕ)
scan_while p [] = unreceived
scan_while p (x ∷ l) =
    let more = scan_while p l in if p x then with_first x more else goes_on ([], x ∷ l)

unfoldable pub to_lower : ℕ → ℕ
to_lower c = if leb b'A' c && leb c b'Z' then c + 32 else c

-- If the bytes begin with the word, in the letters' case that the function leaves.
unfoldable pub begins : (ℕ → ℕ) → List ℕ → List ℕ → Reading Bool
begins f [] l = goes_on true
begins f (w ∷ ws) [] = unreceived
begins f (w ∷ ws) (x ∷ l) = let more = begins f ws l in if f w == f x then more else goes_on false

-- The response line: the status code if there are digits, with `cp` at the byte that ends the reason.
pub data StatusLine : Type 0 where
  bad_format : StatusLine
  statcode : List ℕ → Cursor → StatusLine

unfoldable pub after_digits : Cursor → ℕ → List ℕ × List ℕ → Reading StatusLine
after_digits c n ([], rest) = goes_on bad_format
after_digits c n (d ∷ ds, rest) =
    bind (scan_while (λ x. not ((x == 13) || (x == 10))) (drop 1 rest)) (λ reason. goes_on (
      statcode (d ∷ ds)
        (record c { i = n + length (d ∷ ds) + 1 + length reason.0; at_cp = 0 ∷ drop 1 reason.1 })))

unfoldable pub status_line : Cursor → Reading StatusLine
status_line c = bind (scan_while is_space (drop 8 c.at_cp)) (λ spaces.
    bind (scan_while is_digit spaces.1) (λ digits. after_digits c (8 + length spaces.0) digits))

unfoldable pub step_on : Cursor → List ℕ → Cursor
step_on c l = record c { i = suc c.i; at_cp = l }

-- The loop to the next letter C. The byte behind the last one is looked at too, but then `i` ends the
-- loop.
unfoldable pub seek_c : Cursor → ℕ → List ℕ → Reading Cursor
seek_c c i [] = if ltb i c.datsz then unreceived else goes_on (record c { i = i; at_cp = [] })
seek_c c i (x ∷ l) =
    let rest = seek_c c (suc i) l in
    if not (x == b'C') && not (x == b'c') && ltb i c.datsz
    then rest
    else goes_on (record c { i = i; at_cp = x ∷ l })

-- `atoi` stores the number in an `int`, here and for the status code.
-- The length behind the name of the field, and `cp` behind the byte that ends it.
unfoldable pub content_length : Cursor → Reading (ℤ × Cursor)
content_length c = bind (scan_while is_space (drop 15 c.at_cp)) (λ spaces.
    bind (scan_while is_digit spaces.1) (λ digits. goes_on (
      int32_of (atol digits.0),
      record c { i = c.i + 15 + length spaces.0 + length digits.0 + 1; at_cp = drop 1 digits.1 },
    )))

-- The loop that searches for the field.
unfoldable pub find_length : ℕ → Cursor → Reading (ℤ × Cursor)
find_length zero c = out_of_rounds
find_length (suc rounds) c =
    let next = find_length rounds in
    bind (seek_c c c.i c.at_cp) (λ c1. bind (more_at_end c1) (λ c2.
      bind (begins to_lower (codes "Content-Length:") c2.at_cp)
        (λ is_field. if is_field then content_length c2 else next (step_on c2 (drop 1 c2.at_cp)))))

-- The inner loop of the search for the end of the header: true if it is found.
unfoldable pub seek_blank : Cursor → ℕ → List ℕ → Reading (Bool × Cursor)
seek_blank c i [] =
    if ltb (i + 2) c.datsz then unreceived else goes_on (false, record c { i = i; at_cp = [] })
seek_blank c i (x ∷ l) =
    let rest = seek_blank c (suc i) l in
    if ltb (i + 2) c.datsz
    then bind (begins (λ b. b) (10 ∷ 13 ∷ 10 ∷ []) (x ∷ l)) (λ is_end.
      if is_end then goes_on (true, record c { i = i + 3; at_cp = drop 3 (x ∷ l) }) else rest)
    else goes_on (false, record c { i = i; at_cp = x ∷ l })

-- The loop that searches for the end of the header.
unfoldable pub find_blank : ℕ → Cursor → Reading Cursor
find_blank zero c = out_of_rounds
find_blank (suc rounds) c =
    let next = find_blank rounds in
    bind (seek_blank c c.i c.at_cp)
      (λ found. bind (more_at_end found.1) (λ c2. if found.0 then goes_on c2 else next c2))

-- If the answer has not come as far as its length says, one more read is done at `cp`.
unfoldable pub rest_of_answer : ℤ → Cursor → Reading Cursor
rest_of_answer (negsuc n) c = goes_on c
rest_of_answer (pos len) c = if ltb c.datsz (c.i + len) then readmore c else goes_on c

-- The status and the request's identifier in the IPP header at `cp`.
unfoldable pub ipp_status : ℕ → List ℕ → Reading Bool
ipp_status jobid (_ ∷ _ ∷ s1 ∷ s0 ∷ r3 ∷ r2 ∷ r1 ∷ r0 ∷ l) =
    if (((r3 * 256 + r2) * 256 + r1) * 256 + r0) == jobid
    then returns (leb (s1 * 256 + s0) 255)
    else returns false
ipp_status jobid _ = unreceived

-- An answer whose status is a success.
unfoldable pub http_success : ℕ → ℕ → Cursor → Reading Bool
http_success rounds jobid c = bind (find_length rounds c) (λ len. bind (more_at_end len.1) (λ c1.
    bind (find_blank rounds c1)
      (λ c2. bind (rest_of_answer len.0 c2) (λ c3. ipp_status jobid c3.at_cp))))

-- For an error, a null byte is put behind the data.
unfoldable pub on_error : Cursor → Reading Bool
on_error c = if ltb c.datsz c.bufsz then returns false else overrun

-- What is done for a status code: a status of 100 to 199 is passed over, one that is not of 200 to 299
-- is an error.
unfoldable pub on_code : ℕ → ℕ → Cursor → (List (List ℕ) → Reading Bool) → ℤ → Reading Bool
on_code rounds jobid c next (negsuc n) = on_error c
on_code rounds jobid c next (pos code) =
    if leb 100 code && leb code 199
    then next c.chunks
    else if leb 200 code && leb code 299
    then http_success rounds jobid c
    else on_error c

unfoldable pub on_status_line :
    ℕ → ℕ → List (List ℕ) → (List (List ℕ) → Reading Bool) → StatusLine → Reading Bool
on_status_line rounds jobid chunks next bad_format = next chunks
on_status_line rounds jobid chunks next (statcode digits c) =
    on_code rounds jobid c next (int32_of (atol digits))

unfoldable pub on_read :
    ℕ → ℕ → (List (List ℕ) → Reading Bool) → List ℕ × List (List ℕ) → Reading Bool
on_read rounds jobid next ([], chunks) = returns false
on_read rounds jobid next (b ∷ bs, chunks) =
    bind
      (status_line (record {
        i = 0;
        at_cp = b ∷ bs;
        datsz = length (b ∷ bs);
        bufsz = iobufsz;
        chunks = chunks;
      }))
      (on_status_line rounds jobid chunks next)

-- The loop of `printer_status` over the answers; each of its loops has so many rounds.
unfoldable pub status_loop : ℕ → ℕ → ℕ → List (List ℕ) → Reading Bool
status_loop zero rounds jobid chunks = out_of_rounds
status_loop (suc answers) rounds jobid chunks =
    on_read rounds jobid (status_loop answers rounds jobid) (tread iobufsz chunks)

-- `printer_status` of the job, from the chunks that arrive.
unfoldable pub printer_status : ℕ → ℕ → List (List ℕ) → Reading Bool
printer_status rounds jobid chunks = status_loop rounds rounds jobid chunks
