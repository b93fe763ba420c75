-- ===== src/Spooler/Config.antt =====
-- The configuration file of the print programs, `scan_configfile` of printer/util.c.
use learn_apue.Base.{
  ℕ, zero, suc, ◌≤◌, ◌≡◌, refl, true, false, Option, none, some, List, [], ◌∷◌, ◌++◌, arith, length,
  length-append, ◌<◌, ◌-◌, ◌∙◌, ◌||◌, ◌==◌, All, str_eq, str_eq_refl, if◌then◌else◌,
}
use mathlib.Core.List.{append_assoc, append-nil}
use learn_apue.Bytes.Decimal.{is_space}

-- The bytes of a word, at most so many, and what follows them.
unfoldable pub word_bytes : ℕ → List ℕ → List ℕ × List ℕ
word_bytes zero l = ([], l)
word_bytes (suc n) [] = ([], [])
word_bytes (suc n) (c ∷ l) =
    let rest = word_bytes n l in if is_space c then ([], c ∷ l) else (c ∷ rest.0, rest.1)

unfoldable pub skip_space : List ℕ → List ℕ
skip_space [] = []
skip_space (c ∷ l) = let rest = skip_space l in if is_space c then rest else c ∷ l

unfoldable pub nonempty : List ℕ × List ℕ → Option (List ℕ × List ℕ)
nonempty ([], l) = none
nonempty (c ∷ w, l) = some (c ∷ w, l)

-- `%<n>s` of `sscanf`: white space, and a word of at most so many bytes; none if there is no word.
unfoldable pub scan_word : ℕ → List ℕ → Option (List ℕ × List ℕ)
scan_word n l = nonempty (word_bytes n (skip_space l))

unfoldable pub with_value : List ℕ → Option (List ℕ × List ℕ) → Option (List ℕ × List ℕ)
with_value key none = none
with_value key (some (val, rest)) = some (key, val)

unfoldable pub scan_value : Option (List ℕ × List ℕ) → Option (List ℕ × List ℕ)
scan_value none = none
scan_value (some (key, l)) = with_value key (scan_word 511 l)

-- `sscanf(line, "%15s %511s", keybuf, valbuf)`, none if it does not return 2.
unfoldable pub scan_line : List ℕ → Option (List ℕ × List ℕ)
scan_line line = scan_value (scan_word 15 line)

-- The value if the keyword is that of the line.
unfoldable pub match_line : List ℕ → Option (List ℕ × List ℕ) → Option (List ℕ)
match_line keyword none = none
match_line keyword (some (key, val)) = if str_eq keyword key then some val else none

unfoldable pub or_else : Option (List ℕ) → Option (List ℕ) → Option (List ℕ)
or_else none o = o
or_else (some val) o = some val

-- MAXCFGLINE less one: as many bytes of a line as `fgets` returns.
abbrev pub max_line : ℕ
max_line = 511

unfoldable pub onto_line : ℕ → List (List ℕ) → List (List ℕ)
onto_line c [] = (c ∷ []) ∷ []
onto_line c (line ∷ lines) = (c ∷ line) ∷ lines

-- What `fgets` returns one time after the other, the first time at most so many bytes: it stops
-- behind a newline, and where the buffer is full.
unfoldable pub fgets_lines : ℕ → List ℕ → List (List ℕ)
fgets_lines room [] = []
fgets_lines room (c ∷ file) =
    let ends = (c == 10) || (room == 1) in
    let rest = fgets_lines (if ends then max_line else room - 1) file in
    if ends then (c ∷ []) ∷ rest else onto_line c rest

-- The string in a buffer ends at its first null byte.
unfoldable pub text_of : List ℕ → List ℕ
text_of [] = []
text_of (c ∷ line) = let rest = text_of line in if c == 0 then [] else c ∷ rest

-- The loop of `scan_configfile` over what `fgets` returns.
unfoldable pub scan_lines : List ℕ → List (List ℕ) → Option (List ℕ)
scan_lines keyword [] = none
scan_lines keyword (line ∷ lines) =
    or_else (match_line keyword (scan_line (text_of line))) (scan_lines keyword lines)

-- `scan_configfile` of the bytes of the configuration file.
unfoldable pub scan_configfile : List ℕ → List ℕ → Option (List ℕ)
scan_configfile keyword file = scan_lines keyword (fgets_lines max_line file)

-- A word has neither white space nor a null byte.
abbrev pub Word : List ℕ → Type 0
Word = All (λ c. (is_space c ≡ false) × ((c == 0) ≡ false))

word_bytes-Word :
    (n : ℕ) (w l : List ℕ) (c : ℕ)
    → Word w
    → length w ≤ n
    → is_space c ≡ true
    → word_bytes n (w ++ (c ∷ l)) ≡ (w, c ∷ l)
unfolding word_bytes
word_bytes-Word zero [] l c h k e = refl
word_bytes-Word zero (x ∷ w) l c h k e = absurd (omega arith)
word_bytes-Word (suc n) [] l c h k e = rw e
word_bytes-Word (suc n) (x ∷ w) l c ((hx, nx), hw) k e =
    rw (hx, word_bytes-Word n w l c hw (omega arith) e)

scan_word-Word :
    (n x : ℕ) (w l : List ℕ) (c : ℕ)
    → Word (x ∷ w)
    → length (x ∷ w) ≤ n
    → is_space c ≡ true
    → scan_word n (x ∷ (w ++ (c ∷ l))) ≡ some (x ∷ w, c ∷ l)
unfolding scan_word skip_space nonempty
scan_word-Word n x w l c ((hx, nx), hw) k e =
    rw (hx, word_bytes-Word n (x ∷ w) l c ((hx, nx), hw) k e)

-- The line `key value`.
abbrev pub config_line : List ℕ → List ℕ → List ℕ
config_line key val = key ++ (b' ' ∷ (val ++ (10 ∷ [])))

blank : is_space b' ' ≡ true
unfolding is_space
blank = refl

newline : is_space 10 ≡ true
unfolding is_space
newline = refl

scan_word-blank : (l : List ℕ) → scan_word 511 (b' ' ∷ l) ≡ scan_word 511 l
unfolding scan_word skip_space
scan_word-blank l = rw blank

scan_line-config_line :
    (x y : ℕ) (k v : List ℕ)
    → Word (x ∷ k)
    → length (x ∷ k) ≤ 15
    → Word (y ∷ v)
    → length (y ∷ v) ≤ 511
    → scan_line (config_line (x ∷ k) (y ∷ v)) ≡ some (x ∷ k, y ∷ v)
unfolding scan_line scan_value with_value
scan_line-config_line x y k v wk hk wv hv = rw (
  scan_word-Word 15 x k (y ∷ (v ++ (10 ∷ []))) b' ' wk hk (blank),
  scan_word-blank (y ∷ (v ++ (10 ∷ []))),
  scan_word-Word 511 y v [] 10 wv hv newline,
)

-- The line has no null byte.
text_of-Word : (w l : List ℕ) → Word w → text_of (w ++ l) ≡ w ++ text_of l
unfolding text_of
text_of-Word [] l h = refl
text_of-Word (c ∷ w) l ((hc, nc), hw) = rw (nc, text_of-Word w l hw) refl

text_of-config_line : (k v : List ℕ) → Word k → Word v → text_of (config_line k v) ≡ config_line k v
unfolding text_of
text_of-config_line k v wk wv =
    rw (text_of-Word k (b' ' ∷ (v ++ (10 ∷ []))) wk, text_of-Word v (10 ∷ []) wv) refl

-- Bytes without a newline.
abbrev pub OneLine : List ℕ → Type 0
OneLine = All (λ c. (c == 10) ≡ false)

newline-is_space : (c : ℕ) → is_space c ≡ false → (c == 10) ≡ false
unfolding is_space
newline-is_space c h = ground arith

Word-OneLine : (w l : List ℕ) → Word w → OneLine l → OneLine (w ++ l)
Word-OneLine [] l h o = o
Word-OneLine (c ∷ w) l ((hc, nc), hw) o = (newline-is_space c hc, Word-OneLine w l hw o)

-- A line that has room comes whole.
fgets_lines-line :
    (room : ℕ) (line rest : List ℕ)
    → OneLine line
    → length line < room
    → fgets_lines room (line ++ (10 ∷ rest)) ≡ (line ++ (10 ∷ [])) ∷ fgets_lines max_line rest
unfolding fgets_lines onto_line
fgets_lines-line room [] rest o h = refl
fgets_lines-line room (c ∷ line) rest (oc, o) h =
    let more : (room == 1) ≡ false = ground arith in
    rw (oc, more, fgets_lines-line (room - 1) line rest o (omega arith)) refl

-- Lines, each with its newline, and what follows them.
abbrev pub join_lines : List (List ℕ) → List ℕ → List ℕ
join_lines [] rest = rest
join_lines (line ∷ lines) rest = line ++ (10 ∷ join_lines lines rest)

-- A line in front: it fits the buffer, and has no value for the keyword.
pub record Other (keyword line : List ℕ) : Type 0 where
  pub one_line : OneLine line
  pub fits : length line < max_line
  pub no_match : match_line keyword (scan_line (text_of (line ++ (10 ∷ [])))) ≡ none

scan_configfile-join_lines :
    (keyword rest : List ℕ) (before : List (List ℕ))
    → All (Other keyword) before
    → scan_configfile keyword (join_lines before rest) ≡ scan_configfile keyword rest
unfolding scan_configfile scan_lines or_else
scan_configfile-join_lines keyword rest [] h = refl
scan_configfile-join_lines keyword rest (line ∷ before) (o, others) = rw (
  fgets_lines-line max_line line (join_lines before rest) o.one_line o.fits,
  o.no_match,
  scan_configfile-join_lines keyword rest before others,
)

-- Let a line of the configuration file be a keyword of 1 to 15 bytes, a blank and a value of at
-- least 1 byte, both without white space and null bytes, and the line with its newline have at most
-- 511 bytes. If the lines before it have at most as many, and none a value for the keyword, then
-- `scan_configfile` returns the value, whatever follows the line.
pub scan_configfile-config_line :
    (x y : ℕ) (k v : List ℕ) (before : List (List ℕ)) (after : List ℕ)
    → Word (x ∷ k)
    → length (x ∷ k) ≤ 15
    → Word (y ∷ v)
    → length (config_line (x ∷ k) (y ∷ v)) ≤ 511
    → All (Other (x ∷ k)) before
    → scan_configfile (x ∷ k) (join_lines before (config_line (x ∷ k) (y ∷ v) ++ after))
      ≡ some (y ∷ v)
unfolding scan_configfile scan_lines match_line or_else
scan_configfile-config_line x y k v before after wk hk wv size others =
    let line = (x ∷ k) ++ (b' ' ∷ (y ∷ v)) in
    let key_size = length-append (x ∷ k) (b' ' ∷ ((y ∷ v) ++ (10 ∷ []))) in
    let val_size = length-append (y ∷ v) (10 ∷ []) in
    let whole : length line < 511 =
      omega (arith, key_size, val_size, length-append (x ∷ k) (b' ' ∷ (y ∷ v))) in
    let one_line : OneLine line =
      Word-OneLine (x ∷ k) (b' ' ∷ (y ∷ v)) wk
        (refl, rw append-nil at (Word-OneLine (y ∷ v) [] wv tt)) in
    let same : config_line (x ∷ k) (y ∷ v) ++ after ≡ line ++ (10 ∷ after) = simp append_assoc in
    let same_line : line ++ (10 ∷ []) ≡ config_line (x ∷ k) (y ∷ v) = simp append_assoc in
    scan_configfile-join_lines (x ∷ k) (config_line (x ∷ k) (y ∷ v) ++ after) before others
    ∙ rw (
      same,
      fgets_lines-line max_line line after one_line whole,
      same_line,
      text_of-config_line (x ∷ k) (y ∷ v) wk wv,
      scan_line-config_line x y k v wk hk wv (omega (arith, key_size, val_size)),
      str_eq_refl (x ∷ k),
    )
