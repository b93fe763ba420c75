-- ===== src/Spooler/Response/Stuck.antt =====
-- The search of printer/printd.c for the end of the header, if the first read has not got it.
use learn_apue.Base.{
  ℕ, zero, suc, ◌+◌, ◌≤◌, ◌≡◌, ◌≢◌, ◌⊎◌, refl, true, false, List, [], ◌∷◌, arith, length, ltb, ◌==◌,
  Bool-cases, inl, inr,
}
use learn_apue.Spooler.Response.Scans.{at, blank_line, more_at_end-inside}
use learn_apue.Spooler.Response.{
  Cursor, goes_on, out_of_rounds, bind, begins, seek_blank, find_blank,
}

-- The blank line stands nowhere in the bytes.
abbrev pub NoEnd : List ℕ → Type 0
NoEnd [] = Unit
NoEnd (x ∷ l) = (begins (λ b. b) blank_line (x ∷ l) ≢ goes_on true) × NoEnd l

-- With enough bytes, it is known if they begin with the word.
begins-cases :
    (f : ℕ → ℕ) (w l : List ℕ)
    → length w ≤ length l
    → (begins f w l ≡ goes_on true) ⊎ (begins f w l ≡ goes_on false)
unfolding begins
begins-cases f [] l h = inl refl
begins-cases f (x ∷ w) [] h = absurd (omega arith)
begins-cases f (x ∷ w) (y ∷ l) h = elim (Bool-cases (f x == f y)) [
  | inl same ↦ rw same (begins-cases f w l (omega arith))
  | inr differs ↦ rw differs (inr refl)
]

-- Where the inner loop stops: in front of bytes that were received.
record Stopped (c : Cursor) (i : ℕ) (l : List ℕ) : Type 0 where
  k : ℕ
  m : List ℕ
  result : seek_blank c i l ≡ goes_on (false, at c k m)
  some_left : 1 ≤ length m
  exact : k + length m ≡ c.datsz
  none_left : NoEnd m

seek_blank-Stopped :
    (l : List ℕ) (c : Cursor) (i : ℕ)
    → NoEnd l
    → 1 ≤ length l
    → i + length l ≡ c.datsz
    → Stopped c i l
unfolding seek_blank bind
seek_blank-Stopped [] c i no_end h e = absurd (omega arith)
seek_blank-Stopped (x ∷ l) c i no_end h e = elim (Bool-cases (ltb (i + 2) c.datsz)) [
  | inr near ↦ record {
    k = i;
    m = x ∷ l;
    result = rw near refl;
    some_left = h;
    exact = e;
    none_left = no_end;
  }
  | inl inside ↦
      let enough : 3 ≤ length (x ∷ l) = ground arith in
      elim (begins-cases (λ b. b) blank_line (x ∷ l) enough) [
        | inl found ↦ absurd (no_end.0 found)
        | inr differs ↦
            let rest = seek_blank-Stopped l c (suc i) no_end.1 (omega arith) (omega arith) in
            record {
              k = rest.k;
              m = rest.m;
              result = rw (inside, differs) rest.result;
              some_left = rest.some_left;
              exact = rest.exact;
              none_left = rest.none_left;
            }
      ]
]

-- The loop has no round in which it finds the end or reads more.
pub find_blank-out_of_rounds :
    (rounds : ℕ) (c : Cursor) (i : ℕ) (l : List ℕ)
    → NoEnd l
    → 1 ≤ length l
    → i + length l ≡ c.datsz
    → find_blank rounds (at c i l) ≡ out_of_rounds
unfolding find_blank bind
find_blank-out_of_rounds zero c i l no_end h e = refl
find_blank-out_of_rounds (suc rounds) c i l no_end h e =
    let stop = seek_blank-Stopped l (at c i l) i no_end h e in
    rw
      (
        stop.result,
        more_at_end-inside (at c stop.k stop.m) (omega (arith, stop.some_left, stop.exact)),
      )
      (find_blank-out_of_rounds rounds c stop.k stop.m stop.none_left stop.some_left stop.exact)
