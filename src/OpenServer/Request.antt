-- ===== src/OpenServer/Request.antt =====
-- A request to the open server: ipc2/open_server/buf_args.c and `client_args` and `handle_request`
-- of ipc2/open_server/handle_request.c, with lib/bufargs.c beside it.
use learn_apue.Base.{
  ℕ, ◌+◌, ◌*◌, ◌≡◌, refl, Bool, true, false, length, ◌||◌, Option, none, some, List, [], ◌∷◌, ◌++◌,
  ◌==◌, leb, if◌then◌else◌, str_eq, str_eq_refl, All,
}
use learn_apue.Base.Int.{ℤ}
use learn_apue.Bytes.Decimal.{atol}

-- WHITE_CHARS
unfoldable pub is_white : ℕ → Bool
is_white c = (c == 32) || (c == 9) || (c == 10)

unfoldable pub put_first : ℕ → List (List ℕ) → List (List ℕ)
put_first c [] = (c ∷ []) ∷ []
put_first c (t ∷ ts) = (c ∷ t) ∷ ts

-- The tokens of the loop over `strsep`: what stands between two white characters, also if that is
-- nothing.
unfoldable pub tokens : List ℕ → List (List ℕ)
tokens [] = [] ∷ []
tokens (c ∷ buf) = let rest = tokens buf in if is_white c then [] ∷ rest else put_first c rest

abbrev pub request_word : List ℕ
request_word = b'o' ∷ b'p' ∷ b'e' ∷ b'n' ∷ []

-- `client_args`: the path and the flag, none for a return value of -1.
unfoldable pub client_args : List (List ℕ) → Option (List ℕ × ℤ)
client_args [] = none
client_args (a ∷ []) = none
client_args (a ∷ b ∷ []) = none
client_args (a ∷ b ∷ c ∷ []) = if str_eq a request_word then some (b, atol c) else none
client_args (a ∷ b ∷ c ∷ d ∷ l) = none

-- What `buf_args` does with the buffer: `client_args` returns -1, or takes a path and a flag; or
-- the pointers overrun `argv`.
pub data Parsed : Type 0 where
  args_overrun bad_args : Parsed
  taken_args : List ℕ → ℤ → Parsed

unfoldable pub parsed : Option (List ℕ × ℤ) → Parsed
parsed none = bad_args
parsed (some (path, flag)) = taken_args path flag

-- Whether the pointers to the tokens and the null pointer, 8 bytes each, fit `argv`, which has the
-- length of the string, 1 and the size of a pointer.
unfoldable pub argv_fits : List ℕ → Bool
argv_fits buf = leb (8 * (length (tokens buf) + 1)) (length buf + 1 + 8)

-- `buf_args` with `client_args`, if `malloc` finds memory for `argv`.
unfoldable pub buf_args : List ℕ → Parsed
buf_args buf = if argv_fits buf then parsed (client_args (tokens buf)) else args_overrun

-- How `handle_request` answers: an error text, or a descriptor that is sent.
pub data Answer : Type 0 where
  not_terminated usage : Answer
  cannot_open : List ℕ → Answer
  send_opened : ℕ → Answer

-- The bytes before the null byte that ends a request, none if it is not the last byte.
unfoldable pub terminated : List ℕ → Option (List ℕ)
terminated [] = none
terminated (c ∷ []) = if c == 0 then some [] else none
terminated (c ∷ d ∷ buf) = elim (terminated (d ∷ buf)) [ none ↦ none | some s ↦ some (c ∷ s) ]

-- A string ends at its first null byte.
unfoldable pub to_null : List ℕ → List ℕ
to_null [] = []
to_null (c ∷ s) = let rest = to_null s in if c == 0 then [] else c ∷ rest

unfoldable pub answer_open : List ℕ → Option ℕ → Answer
answer_open path none = cannot_open path
answer_open path (some fd) = send_opened fd

-- How `handle_request` ends: it answers, it ends the process, or it overruns memory.
pub data RequestEnd : Type 0 where
  answers : Answer → RequestEnd
  exits overruns : RequestEnd

-- The process ends if `send_fd` of the descriptor fails; that of an error is not checked.
unfoldable pub answer_sent : (ℕ → Bool) → Answer → RequestEnd
answer_sent send_fd (send_opened fd) = if send_fd fd then answers (send_opened fd) else exits
answer_sent send_fd a = answers a

unfoldable pub answer_args : (List ℕ → ℤ → Option ℕ) → (ℕ → Bool) → Parsed → RequestEnd
answer_args open_file send_fd args_overrun = overruns
answer_args open_file send_fd bad_args = answers usage
answer_args open_file send_fd (taken_args path flag) =
    answer_sent send_fd (answer_open path (open_file path flag))

unfoldable pub answer_buf : (List ℕ → ℤ → Option ℕ) → (ℕ → Bool) → Option (List ℕ) → RequestEnd
answer_buf open_file send_fd none = answers not_terminated
answer_buf open_file send_fd (some s) = answer_args open_file send_fd (buf_args (to_null s))

-- `handle_request`, with `open` as a parameter, and whether `send_fd` to the client succeeds.
unfoldable pub handle_request : (List ℕ → ℤ → Option ℕ) → (ℕ → Bool) → List ℕ → RequestEnd
handle_request open_file send_fd buf = answer_buf open_file send_fd (terminated buf)

-- If the request has its null byte, its string leaves room for the pointers to its tokens.
abbrev pub HasRoom : List ℕ → Type 0
HasRoom buf = (s : List ℕ) → terminated buf ≡ some s → argv_fits (to_null s) ≡ true

-- A request with room for its tokens is answered, if a descriptor that is opened for it can be
-- sent.
pub handle_request-answers :
    (open_file : List ℕ → ℤ → Option ℕ) (send_fd : ℕ → Bool) (buf : List ℕ)
    → HasRoom buf
    → ((fd : ℕ) → send_fd fd ≡ true)
    → (a : Answer) × (handle_request open_file send_fd buf ≡ answers a)
unfolding handle_request answer_buf buf_args answer_args answer_sent parsed
handle_request-answers open_file send_fd buf room sends = ended (terminated buf) (λ s e. room s e)
  where
    sent : (a : Answer) → (b : Answer) × (answer_sent send_fd a ≡ answers b)
    sent not_terminated = (not_terminated, refl)
    sent usage = (usage, refl)
    sent (cannot_open path) = (cannot_open path, refl)
    sent (send_opened fd) = (send_opened fd, rw (sends fd) refl)

    from_args :
        (o : Option (List ℕ × ℤ))
        → (a : Answer) × (answer_args open_file send_fd (parsed o) ≡ answers a)
    from_args none = (usage, refl)
    from_args (some (path, flag)) =
        let b = sent (answer_open path (open_file path flag)) in (b.0, b.1)

    ended :
        (o : Option (List ℕ))
        → ((s : List ℕ) → o ≡ some s → argv_fits (to_null s) ≡ true)
        → (a : Answer) × (answer_buf open_file send_fd o ≡ answers a)
    ended none h = (not_terminated, refl)
    ended (some s) h =
        let a = from_args (client_args (tokens (to_null s))) in (a.0, rw (h s refl) a.1)

-- The words that `strtok` finds: tokens that are not empty.
unfoldable pub words : List (List ℕ) → List (List ℕ)
words [] = []
words ([] ∷ ts) = words ts
words ((c ∷ t) ∷ ts) = (c ∷ t) ∷ words ts

unfoldable pub leading_white : List ℕ → List ℕ
leading_white [] = []
leading_white (c ∷ buf) = let rest = leading_white buf in if is_white c then c ∷ rest else []

-- The loop of `buf_args` of lib/bufargs.c: MAXARGC is 50.
unfoldable pub more_args : ℕ → List (List ℕ) → Option (List (List ℕ))
more_args argc [] = some []
more_args argc (w ∷ ws) =
    let rest : Option (List (List ℕ)) = elim (more_args (argc + 1) ws) [
      | none ↦ none
      | some l ↦ some (w ∷ l)
    ] in
    if leb 49 (argc + 1) then none else rest

-- The arguments that `buf_args` of lib/bufargs.c passes on, none for -1. `argv[0]` is the buffer up
-- to the end of the first word.
unfoldable pub first_args : List ℕ → List (List ℕ) → Option (List (List ℕ))
first_args lead [] = none
first_args lead (w ∷ ws) = elim (more_args 0 ws) [ none ↦ none | some l ↦ some ((lead ++ w) ∷ l) ]

unfoldable pub lib_buf_args : List ℕ → Option (List (List ℕ))
lib_buf_args buf = first_args (leading_white buf) (words (tokens buf))

abbrev pub NoWhite : List ℕ → Type 0
NoWhite = All (λ c. is_white c ≡ false)

tokens-NoWhite : (t : List ℕ) → NoWhite t → tokens t ≡ t ∷ []
unfolding tokens put_first
tokens-NoWhite [] h = refl
tokens-NoWhite (c ∷ t) (n, h) = rw (n, tokens-NoWhite t h)

tokens-append : (t rest : List ℕ) → NoWhite t → tokens (t ++ (32 ∷ rest)) ≡ t ∷ tokens rest
unfolding tokens put_first is_white
tokens-append [] rest h = refl
tokens-append (c ∷ t) rest (n, h) = rw (n, tokens-append t rest h)

request_word-NoWhite : NoWhite request_word
unfolding is_white
request_word-NoWhite = (refl, (refl, (refl, (refl, tt))))

-- The request "open", a path and a flag, each without white characters, one blank between two of
-- them and room for the pointers, is taken for that path and the number that the flag stands for.
buf_args-request :
    (path flag : List ℕ)
    → NoWhite path
    → NoWhite flag
    → argv_fits (request_word ++ (32 ∷ (path ++ (32 ∷ flag)))) ≡ true
    → buf_args (request_word ++ (32 ∷ (path ++ (32 ∷ flag)))) ≡ taken_args path (atol flag)
unfolding buf_args client_args parsed
buf_args-request path flag hp hf room = rw (
  room,
  tokens-append request_word (path ++ (32 ∷ flag)) request_word-NoWhite,
  tokens-append path flag hp,
  tokens-NoWhite flag hf,
  str_eq_refl request_word,
)
