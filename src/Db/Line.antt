-- ===== src/Db/Line.antt =====
-- The line of an index record is read back as it was printed.
use learn_apue.Base.{
  ℕ, ◌≤◌, ◌≡◌, refl, false, none, some, List, [], ◌∷◌, ◌++◌, arith, All, All-append, All-mono, ◌==◌,
}
use learn_apue.Base.Int.{pos}
use mathlib.Core.List.{append-nil}
use learn_apue.Bytes.Decimal.{print, is_digit, Digits, print-Digits, atol-print}
use learn_apue.Db.Disk.{
  chomp, c_string, split_sep, fields, check_fields, check_rest, parse_line, index_line,
}
use learn_apue.Db.State.{sep, newline}

abbrev pub Lacks : ℕ → List ℕ → Type 0
Lacks b = All (λ c. (c == b) ≡ false)

pub Digits-Lacks-sep : (s : List ℕ) → Digits s → Lacks sep s
unfolding is_digit
Digits-Lacks-sep = All-mono _ _ (λ c h. ground arith)

pub Digits-Lacks-null : (s : List ℕ) → Digits s → Lacks 0 s
unfolding is_digit
Digits-Lacks-null = All-mono _ _ (λ c h. ground arith)

pub chomp-append : (xs ys b : List ℕ) → chomp ys ≡ some b → chomp (xs ++ ys) ≡ some (xs ++ b)
unfolding chomp
chomp-append [] ys b h = h
chomp-append (x ∷ []) [] b h = cc
chomp-append (x ∷ []) (y ∷ ys) b h = rw h
chomp-append (x ∷ w ∷ xs) ys b h = rw (chomp-append (w ∷ xs) ys b h)

pub c_string-Lacks : (s : List ℕ) → Lacks 0 s → c_string s ≡ s
unfolding c_string
c_string-Lacks [] h = refl
c_string-Lacks (x ∷ s) h = rw (h.0, c_string-Lacks s h.1)

pub split_sep-append : (a b : List ℕ) → Lacks sep a → split_sep (a ++ sep ∷ b) ≡ some (a, b)
unfolding split_sep
split_sep-append [] b h = refl
split_sep-append (x ∷ a) b h = rw (h.0, split_sep-append a b h.1)

pub split_sep-none : (a : List ℕ) → Lacks sep a → split_sep a ≡ none
unfolding split_sep
split_sep-none [] h = refl
split_sep-none (x ∷ a) h = rw (h.0, split_sep-none a h.1)

-- The line without its newline.
abbrev body : List ℕ → ℕ → ℕ → List ℕ
body key o l = key ++ (sep ∷ (print o ++ (sep ∷ print l)))

chomp-index_line : (key : List ℕ) (o l : ℕ) → chomp (index_line key o l) ≡ some (body key o l)
unfolding index_line
chomp-index_line key o l =
    let last : chomp (sep ∷ (print l ++ newline ∷ [])) ≡ some (sep ∷ print l) =
      rw append-nil at (chomp-append (sep ∷ print l) (newline ∷ []) [] (unfold chomp in refl)) in
    chomp-append key _ _ (chomp-append (sep ∷ print o) _ _ last)

body-Lacks_null : (key : List ℕ) (o l : ℕ) → Lacks 0 key → Lacks 0 (body key o l)
body-Lacks_null key o l h = All-append _ key _ h (
  refl,
  All-append _ (print o) _ (Digits-Lacks-null _ (print-Digits o))
      (refl, Digits-Lacks-null _ (print-Digits l)),
)

-- A key that can be told from the rest of its record.
pub record IsKey (key : List ℕ) : Type 0 where
  pub no_null : Lacks 0 key
  pub no_sep : Lacks sep key

check_fields_lem :
    (key : List ℕ) (o l : ℕ) → 1 ≤ l → l ≤ 1024 → check_fields key (pos o) (pos l) ≡ fields key o l
unfolding check_fields
check_fields_lem key o l lo hi = ground arith

check_rest-print :
    (key : List ℕ) (o l : ℕ)
    → 1 ≤ l
    → l ≤ 1024
    → check_rest key (print o) (print l) ≡ fields key o l
unfolding check_rest
check_rest-print key o l lo hi =
    rw
      (
        split_sep-none (print l) (Digits-Lacks-sep _ (print-Digits l)),
        check_rest,
        atol-print o,
        atol-print l,
      )
      (check_fields_lem key o l lo hi)

-- The text of a key without null byte and separator, an offset and a data length from 1 to 1024 is
-- parsed into the same three.
pub parse_line-index_line :
    (key : List ℕ) (o l : ℕ)
    → IsKey key
    → 1 ≤ l
    → l ≤ 1024
    → parse_line (index_line key o l) ≡ fields key o l
unfolding parse_line
parse_line-index_line key o l k lo hi =
    rw
      (
        chomp-index_line key o l,
        parse_line,
        c_string-Lacks (body key o l) (body-Lacks_null key o l k.no_null),
        split_sep-append key (print o ++ (sep ∷ print l)) k.no_sep,
        split_sep-append (print o) (print l) (Digits-Lacks-sep _ (print-Digits o)),
      )
      (check_rest-print key o l lo hi)
