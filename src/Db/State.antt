-- ===== src/Db/State.antt =====
-- The state of db/db.c: `DB` with the contents of its two files, what a call leaves behind when it
-- ends or gives up, and the record locks of lib/lockreg.c.
use Prim.Native.String.{String}
use learn_apue.Base.{ℕ, ◌+◌, ◌%◌, ◌^◌, Bool, true, false, ◌&&◌, List, [], ◌∷◌, ◌==◌, if◌then◌else◌}
use learn_apue.Base.Int.{ℤ}
use learn_apue.Bytes.File.{File}

abbrev pub idxlen_sz : ℕ
idxlen_sz = 4

abbrev pub sep : ℕ
sep = b':'

abbrev pub space : ℕ
space = b' '

abbrev pub newline : ℕ
newline = 10

abbrev pub ptr_sz : ℕ
ptr_sz = 7

abbrev pub ptr_max : ℕ
ptr_max = 9999999

abbrev pub nhash_def : ℕ
nhash_def = 137

abbrev pub free_off : ℕ
free_off = 0

abbrev pub hash_off : ℕ
hash_off = ptr_sz

abbrev pub idxlen_min : ℕ
idxlen_min = 6

abbrev pub idxlen_max : ℕ
idxlen_max = 1024

abbrev pub datlen_min : ℕ
datlen_min = 2

abbrev pub datlen_max : ℕ
datlen_max = 1024

pub data Fd : Type 0 where
  idxfd datfd : Fd

-- A region that the process has locked. The regions that are locked at one time never overlap, so
-- that unlocking a region drops the lock of exactly that region. Length 0 is up to the end.
pub record Lock : Type 0 where
  pub fd : Fd
  pub start : ℕ
  pub len : ℕ

abbrev pub same_fd : Fd → Fd → Bool
same_fd idxfd idxfd = true
same_fd idxfd datfd = false
same_fd datfd idxfd = false
same_fd datfd datfd = true

unfoldable pub drop_lock : Fd → ℕ → ℕ → List Lock → List Lock
drop_lock fd start len [] = []
drop_lock fd start len (l ∷ ls) =
    if same_fd l.fd fd && (l.start == start && l.len == len)
    then drop_lock fd start len ls
    else l ∷ drop_lock fd start len ls

-- `DB`. The descriptors and the name are left out; `idx`, `dat` are the contents of the files,
-- `idx_pos` the file offset of the index file, `errno` and `locks` belong to the process.
-- A buffer holds a string up to its null byte.
pub record Db : Type 0 where
  pub idx : File
  pub dat : File
  pub idx_pos : ℕ
  pub locks : List Lock
  pub errno : ℕ
  pub idxbuf : List ℕ
  pub datbuf : List ℕ
  pub idxoff : ℕ
  pub idxlen : ℕ
  pub datoff : ℕ
  pub datlen : ℕ
  pub ptrval : ℤ
  pub ptroff : ℕ
  pub chainoff : ℕ
  pub hashoff : ℕ
  pub nhash : ℕ
  pub cnt_delok : ℕ
  pub cnt_delerr : ℕ
  pub cnt_fetchok : ℕ
  pub cnt_fetcherr : ℕ
  pub cnt_nextrec : ℕ
  pub cnt_stor1 : ℕ
  pub cnt_stor2 : ℕ
  pub cnt_stor3 : ℕ
  pub cnt_stor4 : ℕ
  pub cnt_storerr : ℕ

-- `COUNT` is an unsigned long.
abbrev pub incr : ℕ → ℕ
incr n = (n + 1) % 2 ^ 64

-- How a process ends inside the library. `overrun` is a write behind the end of a buffer, which C
-- leaves undefined; `no_rounds` is a loop that has used up its rounds.
pub data Fault : Type 0 where
  err_dump err_quit : String → Fault
  overrun no_rounds : Fault

pub data Run {ℓ} (A : Type ℓ) : Type ℓ where
  ok : A → Db → Run A
  stop : Fault → Db → Run A

abbrev pub M {ℓ} : Type ℓ → Type ℓ
M A = Db → Run A

abbrev pub pure {ℓ} : {A : Type ℓ} → A → M A
pure = ok

abbrev pub and_then {ℓ κ} : {A : Type ℓ} {B : Type κ} → Run A → (A → M B) → Run B
and_then (ok a s) f = f a s
and_then (stop e s) f = stop e s

infixl 5 ◌>>=◌ ◌>>◌
abbrev pub ◌>>=◌ {ℓ κ} : {A : Type ℓ} {B : Type κ} → M A → (A → M B) → M B
◌>>=◌ m f s = and_then (m s) f

abbrev pub ◌>>◌ {ℓ} : {B : Type ℓ} → M (Unit {0}) → M B → M B
◌>>◌ m k s = and_then (m s) (λ _. k)

abbrev pub get : M Db
get s = ok s s

abbrev pub modify : (Db → Db) → M (Unit {0})
modify f s = ok tt (f s)

abbrev pub abort {ℓ} : {A : Type ℓ} → Fault → M A
abort e = stop e

-- `readw_lock` and `writew_lock`: they wait, and no other process is part of the model.
abbrev pub lock : Fd → ℕ → ℕ → M (Unit {0})
lock fd start len s =
    ok tt (record s { locks = record { fd = fd; start = start; len = len } ∷ s.locks })

abbrev pub un_lock : Fd → ℕ → ℕ → M (Unit {0})
un_lock fd start len s = ok tt (record s { locks = drop_lock fd start len s.locks })
