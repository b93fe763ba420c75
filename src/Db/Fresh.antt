-- ===== src/Db/Fresh.antt =====
-- The database that `db_open` of db/db.c makes.
use learn_apue.Base.{
  ℕ, zero, suc, ◌+◌, ◌*◌, ◌<◌, ◌≡◌, refl, true, Option, none, some, List, [], ◌∷◌, arith, length,
  length-append,
}
use learn_apue.Bytes.Decimal.{pad}
use learn_apue.Bytes.File.{File, Holds, Holds-append, write_at, write_at-Holds, length-write_at}
use learn_apue.Db.Open.{
  Disk, open_db, open_file, open_handle, alloc, zero_ptrs, empty_table, init_table,
}
use learn_apue.Db.Ops.{rewind}
use learn_apue.Db.Pairs.{find}
use learn_apue.Db.Records.{length-pad7}
use learn_apue.Db.State.{Db, ok, newline, drop_lock}
use learn_apue.Db.Valid.{Chains, Laid, Keyed, Valid, view}

length-zero : length (pad 7 0) ≡ 7
length-zero = length-pad7 0 (omega arith)

length-zero_ptrs : (n : ℕ) → length (zero_ptrs n) ≡ n * 7
unfolding zero_ptrs
length-zero_ptrs zero = refl
length-zero_ptrs (suc n) = rw (length-append, length-zero, length-zero_ptrs n) (omega arith)

-- Each of the pointers is a 0.
Holds-zero_ptrs :
    (f : File) (o n j : ℕ) → j < n → Holds f o (zero_ptrs n) → Holds f (o + j * 7) (pad 7 0)
unfolding zero_ptrs
Holds-zero_ptrs f o zero j h held = absurd (omega arith)
Holds-zero_ptrs f o (suc n) zero h held =
    let e : o + 0 * 7 ≡ o = omega arith in rw e (Holds-append f o (pad 7 0) (zero_ptrs n) held).0
Holds-zero_ptrs f o (suc n) (suc j) h held =
    let e : o + length (pad 7 0) + j * 7 ≡ o + suc j * 7 = omega (arith, length-zero) in
    let rest = (Holds-append f o (pad 7 0) (zero_ptrs n) held).1 in
    rw e at (Holds-zero_ptrs f (o + length (pad 7 0)) n j (omega arith) rest)

abbrev pub no_chains : Chains
no_chains j = []

pub no_chains-Keyed : Keyed no_chains
no_chains-Keyed = record { home = λ h. tt; unique = λ h. tt }

length-empty_table : length empty_table ≡ 967
unfolding empty_table
length-empty_table = rw (length-append, length-zero_ptrs 138) refl

empty_table-Laid : (d : File) → Laid (write_at [] 0 empty_table) d no_chains
unfolding empty_table
empty_table-Laid d = record {
  table = rw (length-write_at [] 0 empty_table, length-empty_table) (omega arith);
  heads = λ j h.
      let written =
        Holds-append _ 0 (zero_ptrs 138) (newline ∷ []) (write_at-Holds [] 0 empty_table) in
      let e : 0 + j * 7 ≡ j * 7 = omega arith in rw e at (Holds-zero_ptrs _ 0 138 j h written.0);
  chains = λ j. tt;
  beyond = λ j r m. absurd m;
  within = λ j. tt;
  between = λ j k ne a b x y. absurd x;
}

open_file-both : (o : Option File) → open_file true true o ≡ some []
unfolding open_file
open_file-both none = refl
open_file-both (some f) = refl

-- The database that has just been made.
abbrev pub fresh : Db
fresh = record (alloc (write_at [] 0 empty_table) []) { idx_pos = 967; idxoff = 967 }

pub fresh-Valid : Valid fresh no_chains
unfolding alloc
fresh-Valid = record {
  unlocked = refl;
  nhash = refl;
  hashoff = refl;
  laid = empty_table-Laid [];
  keyed = no_chains-Keyed;
}

pub length-fresh : length fresh.idx ≡ 967
unfolding alloc
length-fresh = rw (length-write_at [] 0 empty_table, length-empty_table) (omega arith)

-- Opening with O_CREAT and O_TRUNC, whatever files the disk held before, gives a valid database in
-- which no key has data; the files that it opens are empty.
pub open_db-fresh :
    (k : Disk)
    → (open_db true true k
        ≡ (record { idx_file = some []; dat_file = some [] }, some (ok tt fresh)))
      × Valid fresh no_chains
      × ((key : List ℕ) → view no_chains key ≡ none)
unfolding open_db open_handle alloc init_table rewind view drop_lock find
open_db-fresh k =
    (rw (open_file-both k.idx_file, open_file-both k.dat_file), fresh-Valid, λ key. refl)
