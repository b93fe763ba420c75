-- ===== src/Spooler/Response/Scans.antt =====
-- The loops of printer_status of printer/printd.c over bytes that were all received.
use learn_apue.Base.{
  ℕ, zero, suc, ◌+◌, ◌≤◌, ◌<◌, ◌≡◌, refl, ap, ◌∙◌, Bool, true, false, not, ◌&&◌, ◌||◌, List, [],
  ◌∷◌, ◌++◌, arith, drop, length, drop-append, All, leb, ltb, ◌==◌, Bool-cases, inl, inr,
  if◌then◌else◌,
}
use learn_apue.Base.Int.{ℤ, pos}
use learn_apue.Bytes.Decimal.{
  print, print-cons, print-Digits, Digits, is_digit, is_space, atol-print,
}
use learn_apue.Bytes.Text.{codes}
use learn_apue.Spooler.Restart.{int32_of}
use learn_apue.Spooler.Response.{
  Cursor, Reading, goes_on, bind, more_at_end, with_first, scan_while, to_lower, begins, statcode,
  after_digits, status_line, step_on, seek_c, content_length, find_length, seek_blank, find_blank,
}

scan_while-stop :
    (p : ℕ → Bool) (s : List ℕ) (x : ℕ) (rest : List ℕ)
    → All (λ y. p y ≡ true) s
    → p x ≡ false
    → scan_while p (s ++ (x ∷ rest)) ≡ goes_on (s, x ∷ rest)
unfolding scan_while with_first
scan_while-stop p [] x rest h e = rw e refl
scan_while-stop p (y ∷ s) x rest (hy, hs) e = rw (hy, scan_while-stop p s x rest hs e) refl

-- A digit is no white space.
not_space : (x : ℕ) → is_digit x ≡ true → is_space x ≡ false
unfolding is_digit is_space
not_space x h = ground arith

blank_is_space : is_space b' ' ≡ true
unfolding is_space
blank_is_space = refl

blank_is_no_digit : is_digit b' ' ≡ false
unfolding is_digit
blank_is_no_digit = refl

cr_is_no_digit : is_digit 13 ≡ false
unfolding is_digit
cr_is_no_digit = refl

-- A blank and a number, up to a byte that is no digit.
spaces-number :
    {A : Type 0} (n x : ℕ) (rest : List ℕ) (k : List ℕ × List ℕ → List ℕ × List ℕ → Reading A)
    → is_digit x ≡ false
    → bind
        (scan_while is_space (b' ' ∷ (print n ++ (x ∷ rest))))
        (λ spaces. bind (scan_while is_digit spaces.1) (k spaces))
      ≡ k (b' ' ∷ [], print n ++ (x ∷ rest)) (print n, x ∷ rest)
unfolding bind
spaces-number n x rest k e =
    let (d, s, is) = print-cons n in
    let digits : Digits (d ∷ s) = rw is at (print-Digits n) in
    let blank : scan_while is_space (b' ' ∷ ((d ∷ s) ++ (x ∷ rest)))
        ≡ goes_on (b' ' ∷ [], (d ∷ s) ++ (x ∷ rest)) =
      scan_while-stop is_space (b' ' ∷ []) d (s ++ (x ∷ rest)) (blank_is_space, tt)
        (not_space d digits.0) in
    rw (is, blank, scan_while-stop is_digit (d ∷ s) x rest digits e) refl

after_digits-reason :
    (c : Cursor) (code : ℕ) (reason rest : List ℕ)
    → All (λ x. (not ((x == 13) || (x == 10))) ≡ true) reason
    → after_digits c 9 (print code, b' ' ∷ (reason ++ (13 ∷ rest)))
      ≡ goes_on (
          statcode
            (print code)
            (record c { i = 9 + length (print code) + 1 + length reason; at_cp = 0 ∷ rest }))
unfolding after_digits bind
after_digits-reason c code reason rest hr =
    let (d, s, is) = print-cons code in
    rw (is, scan_while-stop (λ x. not ((x == 13) || (x == 10))) reason 13 rest hr refl) refl

-- The response line of an answer whose reason has no end of line.
pub status_line-statcode :
    (c : Cursor) (version : List ℕ) (code : ℕ) (reason rest : List ℕ)
    → length version ≡ 8
    → All (λ x. (not ((x == 13) || (x == 10))) ≡ true) reason
    → status_line
        (record c { at_cp = version ++ (b' ' ∷ (print code ++ (b' ' ∷ (reason ++ (13 ∷ rest))))) })
      ≡ goes_on (
          statcode
            (print code)
            (record c { i = 9 + length (print code) + 1 + length reason; at_cp = 0 ∷ rest }))
unfolding status_line
status_line-statcode c version code reason rest h hr =
    rw (drop-append 8 version (b' ' ∷ (print code ++ (b' ' ∷ (reason ++ (13 ∷ rest))))) h) (
      spaces-number code b' ' (reason ++ (13 ∷ rest)) _ blank_is_no_digit
      ∙ after_digits-reason _ code reason rest hr)

-- The bytes begin with the word nowhere in the first part.
abbrev pub Absent : (ℕ → ℕ) → List ℕ → List ℕ → List ℕ → Type 0
Absent f w [] rest = Unit
Absent f w (x ∷ h) rest = (begins f w (x ∷ (h ++ rest)) ≡ goes_on false) × Absent f w h rest

-- The bytes `l` behind `h`, and so much further.
abbrev pub at : Cursor → ℕ → List ℕ → Cursor
at c i l = record c { i = i; at_cp = l }

abbrev pub name_of_field : List ℕ
name_of_field = codes "Content-Length:"

-- The line with the length, up to its end.
abbrev pub length_field : ℕ → List ℕ → List ℕ
length_field len rest = name_of_field ++ (b' ' ∷ (print len ++ (13 ∷ rest)))

pub more_at_end-inside : (c : Cursor) → c.i < c.datsz → more_at_end c ≡ goes_on c
unfolding more_at_end
more_at_end-inside c h = rw (le→leb c h) refl
  where
    le→leb : (c : Cursor) → c.i < c.datsz → leb c.datsz c.i ≡ false
    le→leb c h = ground arith

-- What is done where the inner loop of the search for the field stops.
abbrev on_letter : ℕ → Cursor → Reading (ℤ × Cursor)
on_letter rounds c1 = bind (more_at_end c1) (λ c2.
    bind (begins to_lower name_of_field c2.at_cp) (λ is_field.
      if is_field then content_length c2 else find_length rounds (step_on c2 (drop 1 c2.at_cp))))

on_letter-field :
    (rounds : ℕ) (c : Cursor) (i len : ℕ) (rest : List ℕ)
    → i < c.datsz
    → on_letter rounds (at c i (length_field len rest))
      ≡ goes_on (int32_of (pos len), at c (i + 15 + 1 + length (print len) + 1) rest)
unfolding bind begins to_lower content_length
on_letter-field rounds c i len rest h = rw (more_at_end-inside (at c i (length_field len rest)) h) (
    spaces-number len 13 rest _ cr_is_no_digit
    ∙ ap (λ v. goes_on (int32_of v, at c (i + 15 + 1 + length (print len) + 1) rest))
        (atol-print len))

seek_c-at :
    (c : Cursor) (k : ℕ) (m : List ℕ) (i : ℕ) (l : List ℕ) → seek_c (at c k m) i l ≡ seek_c c i l
unfolding seek_c
seek_c-at c k m i [] = refl
seek_c-at c k m i (x ∷ l) = rw (seek_c-at c k m (suc i) l) refl

on_letter-other :
    (rounds : ℕ) (c : Cursor) (i x : ℕ) (l : List ℕ)
    → i < c.datsz
    → begins to_lower name_of_field (x ∷ l) ≡ goes_on false
    → on_letter (suc rounds) (at c i (x ∷ l)) ≡ bind (seek_c c (suc i) l) (on_letter rounds)
unfolding bind find_length step_on
on_letter-other rounds c i x l h e =
    rw (more_at_end-inside (at c i (x ∷ l)) h, e)
      (ap (λ r. bind r (on_letter rounds)) (seek_c-at c (suc i) l (suc i) l))

find_length-field :
    (h : List ℕ) (rounds : ℕ) (c : Cursor) (i j len : ℕ) (rest : List ℕ)
    → Absent to_lower name_of_field h (length_field len rest)
    → i + length h < c.datsz
    → length h ≤ rounds
    → j ≡ i + length h + 15 + 1 + length (print len) + 1
    → bind (seek_c c i (h ++ length_field len rest)) (on_letter rounds)
      ≡ goes_on (int32_of (pos len), at c j rest)
unfolding seek_c bind
find_length-field [] rounds c i j len rest ab hi hr e =
    let ej : j ≡ i + 15 + 1 + length (print len) + 1 = omega arith in
    rw ej (on_letter-field rounds c i len rest (omega arith))
find_length-field (x ∷ h) zero c i j len rest ab hi hr e = absurd (omega arith)
find_length-field (x ∷ h) (suc rounds) c i j len rest (differs, ab) hi hr e =
    elim (Bool-cases (not (x == b'C') && not (x == b'c') && ltb i c.datsz)) [
      | inl goes ↦ rw goes (
          find_length-field h (suc rounds) c (suc i) j len rest ab (omega arith) (omega arith)
            (omega arith))
      | inr stops ↦ rw stops (
          on_letter-other rounds c i x (h ++ length_field len rest) (omega arith) differs
          ∙ find_length-field h rounds c (suc i) j len rest ab (omega arith) (omega arith)
              (omega arith))
    ]

pub find_length-goes_on :
    (h : List ℕ) (rounds : ℕ) (c : Cursor) (i j len : ℕ) (rest : List ℕ)
    → Absent to_lower name_of_field h (length_field len rest)
    → i + length h < c.datsz
    → length h ≤ rounds
    → j ≡ i + length h + 15 + 1 + length (print len) + 1
    → find_length (suc rounds) (at c i (h ++ length_field len rest))
      ≡ goes_on (int32_of (pos len), at c j rest)
unfolding find_length
find_length-goes_on h rounds c i j len rest ab hi hr e =
    ap (λ r. bind r (on_letter rounds)) (seek_c-at c i _ i (h ++ length_field len rest))
    ∙ find_length-field h rounds c i j len rest ab hi hr e

-- The end of the header is found behind bytes that have none.
abbrev pub blank_line : List ℕ
blank_line = 10 ∷ 13 ∷ 10 ∷ []

seek_blank-found :
    (h : List ℕ) (c : Cursor) (i j : ℕ) (rest : List ℕ)
    → Absent (λ b. b) blank_line h (blank_line ++ rest)
    → i + length h + 3 ≤ c.datsz
    → j ≡ i + length h + 3
    → seek_blank c i (h ++ (blank_line ++ rest)) ≡ goes_on (true, at c j rest)
unfolding seek_blank begins bind
seek_blank-found [] c i j rest ab hi e =
    let inside : ltb (i + 2) c.datsz ≡ true = ground arith in
    let ej : j ≡ i + 3 = omega arith in rw (inside, ej) refl
seek_blank-found (x ∷ h) c i j rest (differs, ab) hi e =
    let inside : ltb (i + 2) c.datsz ≡ true = ground arith in
    rw (inside, differs) (seek_blank-found h c (suc i) j rest ab (omega arith) (omega arith))

pub find_blank-found :
    (h : List ℕ) (rounds : ℕ) (c : Cursor) (i j : ℕ) (rest : List ℕ)
    → Absent (λ b. b) blank_line h (blank_line ++ rest)
    → j < c.datsz
    → j ≡ i + length h + 3
    → find_blank (suc rounds) (at c i (h ++ (blank_line ++ rest))) ≡ goes_on (at c j rest)
unfolding find_blank bind
find_blank-found h rounds c i j rest ab hi e =
    let d : Cursor = at c i (h ++ (blank_line ++ rest)) in
    rw (seek_blank-found h d i j rest ab (omega arith) e, more_at_end-inside (at d j rest) hi) refl
