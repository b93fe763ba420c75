-- ===== src/Bytes/Decimal.antt =====
-- Decimal numbers as `sprintf` prints them and `atol` reads them.
-- `atol` of a text with more digits than a `long` holds is not bounded here.
use learn_apue.Base.{
  ℕ, zero, suc, ◌+◌, ◌-◌, ◌*◌, ◌/◌, ◌%◌, ◌^◌, ◌≤◌, ◌<◌, ◌≡◌, refl, ap, ◌∙◌, Bool, true, false, ◌&&◌,
  ◌||◌, List, [], ◌∷◌, ◌++◌, arith, length, replicate, All, length-append, length-replicate, ltb,
  leb, ◌==◌, if◌then◌else◌, Bool-cases, inl, inr,
}
use learn_apue.Base.Int.{ℤ, pos, sub_ℕ}
use native.Mathlib.Nat.{pow-suc}

print_digits : ℕ → ℕ → List ℕ → List ℕ
print_digits zero n s = s
print_digits (suc k) n s =
    let more = print_digits k (n / 10) ((48 + n % 10) ∷ s) in
    if ltb n 10 then (48 + n) ∷ s else more

-- `%ld`
unfoldable pub print : ℕ → List ℕ
unfolding print_digits
print n = print_digits (suc n) n []

-- `%*ld` with the width `w`: blanks in front.
unfoldable pub pad : ℕ → ℕ → List ℕ
unfolding print
pad w n = replicate (w - length (print n)) b' ' ++ print n

unfoldable pub is_digit : ℕ → Bool
is_digit c = leb b'0' c && leb c b'9'

read_digits : ℕ → List ℕ → ℕ
unfolding is_digit
read_digits acc [] = acc
read_digits acc (c ∷ s) =
    let rest = read_digits (acc * 10 + (c - 48)) s in if is_digit c then rest else acc

-- `isspace` in the C locale.
unfoldable pub is_space : ℕ → Bool
is_space c = c == b' ' || (leb 9 c && leb c 13)

read_sign : List ℕ → ℤ
unfolding read_digits
read_sign [] = pos 0
read_sign (c ∷ s) =
    if c == b'-'
    then sub_ℕ 0 (read_digits 0 s)
    else if c == b'+'
    then pos (read_digits 0 s)
    else pos (read_digits 0 (c ∷ s))

-- White space, a sign, digits; what follows them is ignored.
unfoldable pub atol : List ℕ → ℤ
unfolding read_sign is_space
atol [] = pos 0
atol (c ∷ s) = let rest = atol s in if is_space c then rest else read_sign (c ∷ s)

read_digits-print_digits :
    (k n : ℕ) (s : List ℕ) → n < k → read_digits 0 (print_digits k n s) ≡ read_digits n s
unfolding read_digits print_digits
read_digits-print_digits zero n s h = absurd (omega arith)
read_digits-print_digits (suc k) n s h =
    ground (arith, read_digits-print_digits k (n / 10) ((48 + n % 10) ∷ s))

abbrev pub Digits : List ℕ → Type 0
Digits = All (λ c. is_digit c ≡ true)

print_digits-Digits : (k n : ℕ) (s : List ℕ) → Digits s → Digits (print_digits k n s)
unfolding print_digits is_digit
print_digits-Digits zero n s h = h
print_digits-Digits (suc k) n s h = elim (Bool-cases (ltb n 10)) [
  | inl small ↦ rw small (ground arith, h)
  | inr large ↦ rw large (print_digits-Digits k (n / 10) ((48 + n % 10) ∷ s) (ground arith, h))
]

pub print-Digits : (n : ℕ) → Digits (print n)
unfolding print
print-Digits n = print_digits-Digits (suc n) n [] tt

atol-Digits : (c : ℕ) (s : List ℕ) → Digits (c ∷ s) → atol (c ∷ s) ≡ pos (read_digits 0 (c ∷ s))
unfolding atol is_digit
atol-Digits c s h = ground arith

print_digits-cons :
    (k n : ℕ) (s : List ℕ) → n < k → (c : ℕ) × (t : List ℕ) × (print_digits k n s ≡ c ∷ t)
unfolding print_digits
print_digits-cons zero n s h = absurd (omega arith)
print_digits-cons (suc k) n s h = elim (Bool-cases (ltb n 10)) [
  | inl small ↦ (48 + n, s, rw small)
  | inr large ↦ rw large (print_digits-cons k (n / 10) ((48 + n % 10) ∷ s) (ground arith))
]

-- At least one digit is printed.
pub print-cons : (n : ℕ) → (c : ℕ) × (s : List ℕ) × (print n ≡ c ∷ s)
unfolding print
print-cons n = print_digits-cons (suc n) n [] (omega arith)

read_digits-print : (n : ℕ) → read_digits 0 (print n) ≡ n
unfolding print read_digits
read_digits-print n = read_digits-print_digits (suc n) n [] (omega arith)

atol-blanks : (k : ℕ) (s : List ℕ) → atol (replicate k b' ' ++ s) ≡ atol s
unfolding atol
atol-blanks zero s = refl
atol-blanks (suc k) s = atol-blanks k s

pub atol-print : (n : ℕ) → atol (print n) ≡ pos n
atol-print n =
    let (c, s, e) = print-cons n in
    let digits : Digits (c ∷ s) = rw e at (print-Digits n) in
    let value : read_digits 0 (c ∷ s) ≡ n = rw e at (read_digits-print n) in
    rw (e, atol-Digits c s digits, value)

-- A number printed in a field of any width is read back.
pub atol-pad : (w n : ℕ) → atol (pad w n) ≡ pos n
unfolding pad
atol-pad w n = atol-blanks (w - length (print n)) (print n) ∙ atol-print n

length-print_digits :
    (d k n : ℕ) (s : List ℕ) → n < 10 ^ suc d → length (print_digits k n s) ≤ suc d + length s
unfolding print_digits
length-print_digits d zero n s h = omega arith
length-print_digits zero (suc k) n s h = ground arith
length-print_digits (suc d) (suc k) n s h =
    let p : 10 ^ suc (suc d) ≡ 10 * 10 ^ suc d = omega (arith, pow-suc 10 (suc d)) in
    ground (arith, length-print_digits d k (n / 10) ((48 + n % 10) ∷ s))

pub length-print : (d n : ℕ) → n < 10 ^ suc d → length (print n) ≤ suc d
unfolding print
length-print d n h = omega (arith, length-print_digits d (suc n) n [] h)

-- A field is exactly as wide as asked if the number fits.
pub length-pad : (d n : ℕ) → n < 10 ^ suc d → length (pad (suc d) n) ≡ suc d
unfolding pad
length-pad d n h = rw (length-append, length-replicate) (omega (arith, length-print d n h))

read_digits-stop :
    (acc : ℕ) (s : List ℕ) (c : ℕ) (rest : List ℕ)
    → Digits s
    → is_digit c ≡ false
    → read_digits acc (s ++ (c ∷ rest)) ≡ read_digits acc s
unfolding read_digits
read_digits-stop acc [] c rest d e = rw e
read_digits-stop acc (x ∷ s) c rest (dx, ds) e =
    rw (dx, read_digits-stop (acc * 10 + (x - 48)) s c rest ds e)

atol-digit : (c : ℕ) (s : List ℕ) → is_digit c ≡ true → atol (c ∷ s) ≡ pos (read_digits 0 (c ∷ s))
unfolding atol is_digit
atol-digit c s h = ground arith

-- What follows the digits is ignored.
pub atol-print_stop :
    (n c : ℕ) (rest : List ℕ) → is_digit c ≡ false → atol (print n ++ (c ∷ rest)) ≡ pos n
atol-print_stop n c rest e =
    let (x, s, is) = print-cons n in
    let digits : Digits (x ∷ s) = rw is at (print-Digits n) in
    let value : read_digits 0 (x ∷ s) ≡ n = rw is at (read_digits-print n) in
    rw is (
      atol-digit x (s ++ (c ∷ rest)) digits.0
      ∙ ap pos (read_digits-stop 0 (x ∷ s) c rest digits e ∙ value))
