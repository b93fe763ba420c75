-- ===== src/FileWalk/Counts.antt =====
-- What the function of filedir/ftw8.c counts in a walk.
use learn_apue.Base.{
  ℕ, zero, suc, ◌+◌, ◌≡◌, refl, ap, ◌∙◌, true, false, some, List, [], ◌∷◌, ◌++◌, arith, length,
  ◌==◌, if◌then◌else◌, Bool-cases, inl, inr, ◌≤◌,
}
use learn_apue.Base.Int.{ℤ, pos, negsuc}
use learn_apue.Bytes.Text.{is_dots}
use learn_apue.FileWalk.Visits.{Named, visits, visits_entries, unless_stopped, myftw-visits}
use learn_apue.FileWalk.{
  FileKind, regular, block_special, char_special, fifo, symbolic_link, socket, Tree, Entries,
  unstatable, leaf, dir, end, entry, FtwType, ftw_f, ftw_d, ftw_dnr, ftw_ns, PathBuf, myftw,
}

-- The messages of `err_ret`, with the path.
pub data Complaint : Type 0 where
  cant_read_directory : List ℕ → Complaint
  stat_error : List ℕ → Complaint

-- The static counters, and what was written to the standard error, the last message first.
pub record Counters : Type 0 where
  pub nreg : ℕ
  pub ndir : ℕ
  pub nblk : ℕ
  pub nchr : ℕ
  pub nfifo : ℕ
  pub nslink : ℕ
  pub nsock : ℕ
  pub complaints : List Complaint

-- The inner switch of `myfunc`.
unfoldable pub count_leaf : FileKind → Counters → Counters
count_leaf regular c = record c { nreg = suc c.nreg }
count_leaf block_special c = record c { nblk = suc c.nblk }
count_leaf char_special c = record c { nchr = suc c.nchr }
count_leaf fifo c = record c { nfifo = suc c.nfifo }
count_leaf symbolic_link c = record c { nslink = suc c.nslink }
count_leaf socket c = record c { nsock = suc c.nsock }

unfoldable pub myfunc : List ℕ → FtwType → Counters → ℤ × Counters
myfunc pathname (ftw_f kind) c = (pos 0, count_leaf kind c)
myfunc pathname ftw_d c = (pos 0, record c { ndir = suc c.ndir })
myfunc pathname ftw_dnr c =
    (pos 0, record c { complaints = cant_read_directory pathname ∷ c.complaints })
myfunc pathname ftw_ns c = (pos 0, record c { complaints = stat_error pathname ∷ c.complaints })

-- The counter of a kind of file.
abbrev pub counter : FileKind → Counters → ℕ
counter regular c = c.nreg
counter block_special c = c.nblk
counter char_special c = c.nchr
counter fifo c = c.nfifo
counter symbolic_link c = c.nslink
counter socket c = c.nsock

abbrev pub index : FileKind → ℕ
index regular = 0
index block_special = 1
index char_special = 2
index fifo = 3
index symbolic_link = 4
index socket = 5

-- 1 for a file of the kind, else 0.
abbrev pub one_if : FileKind → FileKind → ℕ
one_if k kind = if index k == index kind then 1 else 0

counter-count_leaf :
    (k kind : FileKind) (c : Counters) → counter k (count_leaf kind c) ≡ counter k c + one_if k kind
unfolding count_leaf
counter-count_leaf k kind c = ground arith

-- How many files of a kind, directories, and files that cannot be read the hierarchy has.
abbrev mutual
  pub leaves : FileKind → Tree → ℕ
  leaves k unstatable = 0
  leaves k (leaf kind) = one_if k kind
  leaves k (dir readable es) = if readable then leaves_entries k es else 0

  pub leaves_entries : FileKind → Entries → ℕ
  leaves_entries k end = 0
  leaves_entries k (entry name t es) =
      let first = leaves k t in
      let rest = leaves_entries k es in if is_dots name then rest else first + rest

abbrev mutual
  pub dirs : Tree → ℕ
  dirs unstatable = 0
  dirs (leaf kind) = 0
  dirs (dir readable es) = suc (if readable then dirs_entries es else 0)

  pub dirs_entries : Entries → ℕ
  dirs_entries end = 0
  dirs_entries (entry name t es) =
      let first = dirs t in
      let rest = dirs_entries es in if is_dots name then rest else first + rest

abbrev mutual
  pub failures : Tree → ℕ
  failures unstatable = 1
  failures (leaf kind) = 0
  failures (dir readable es) = if readable then failures_entries es else 1

  pub failures_entries : Entries → ℕ
  failures_entries end = 0
  failures_entries (entry name t es) =
      let first = failures t in
      let rest = failures_entries es in if is_dots name then rest else first + rest

same_directories : (kind : FileKind) (c : Counters) → (count_leaf kind c).ndir ≡ c.ndir + 0
unfolding count_leaf
same_directories kind c = ground arith

same_messages :
    (kind : FileKind) (c : Counters)
    → length (count_leaf kind c).complaints ≡ length c.complaints + 0
unfolding count_leaf
same_messages kind c = ground arith

-- The counters after as many files as given, and one message for each failure.
pub record Counted (leaf_count : FileKind → ℕ) (dir_count failure_count : ℕ) (c c' : Counters)
    : Type 0 where
  pub counters : (k : FileKind) → counter k c' ≡ counter k c + leaf_count k
  pub directories : c'.ndir ≡ c.ndir + dir_count
  pub messages : length c'.complaints ≡ length c.complaints + failure_count

-- A walk that has not been stopped.
record Goes (ls : FileKind → ℕ) (ds fs : ℕ) (c : Counters) (r : ℤ × Counters) : Type 0 where
  ret : r.0 ≡ pos 0
  counted : Counted ls ds fs c r.1

Goes-next :
    (ls ls' : FileKind → ℕ) (ds fs ds' fs' : ℕ) (c : Counters) (r : ℤ × Counters)
    (next : Counters → ℤ × Counters)
    → Goes ls ds fs c r
    → ((c1 : Counters) → Goes ls' ds' fs' c1 (next c1))
    → Goes (λ k. ls k + ls' k) (ds + ds') (fs + fs') c (unless_stopped myfunc r next)
Goes-next ls ls' ds fs ds' fs' c (negsuc n, w) next a b = absurd (grind arith)
Goes-next ls ls' ds fs ds' fs' c (pos (suc n), w) next a b = absurd (grind arith)
Goes-next ls ls' ds fs ds' fs' c (pos zero, w) next a b =
    let h = b w in
    record {
      ret = h.ret;
      counted = record {
        counters = λ k. omega (arith, a.counted.counters k, h.counted.counters k);
        directories = omega (arith, a.counted.directories, h.counted.directories);
        messages = omega (arith, a.counted.messages, h.counted.messages);
      };
    }

mutual
  unfolding myfunc

  visits-Goes :
      (t : Tree) (p : List ℕ) (c : Counters)
      → Goes (λ k. leaves k t) (dirs t) (failures t) c (visits myfunc t p c)
  visits-Goes unstatable p c = record {
    ret = refl;
    counted = record {
      counters = λ k. ground arith;
      directories = omega arith;
      messages = omega arith;
    };
  }
  visits-Goes (leaf kind) p c = record {
    ret = refl;
    counted = record {
      counters = λ k. counter-count_leaf k kind c;
      directories = same_directories kind c;
      messages = same_messages kind c;
    };
  }
  visits-Goes (dir true es) p c =
      let c1 : Counters = record c { ndir = suc c.ndir } in
      let h = visits_entries-Goes es (p ++ b'/' ∷ []) c1 in
      record {
        ret = h.ret;
        counted = record {
          counters = λ k.
              let same : counter k c1 ≡ counter k c = ground arith in
              omega (arith, h.counted.counters k);
          directories = omega (arith, h.counted.directories);
          messages = h.counted.messages;
        };
      }
  visits-Goes (dir false es) p c = record {
    ret = refl;
    counted = record {
      counters = λ k. ground arith;
      directories = omega arith;
      messages = omega arith;
    };
  }

  visits_entries-Goes :
      (es : Entries) (p : List ℕ) (c : Counters)
      → Goes
          (λ k. leaves_entries k es)
          (dirs_entries es)
          (failures_entries es)
          c
          (visits_entries myfunc es p c)
  visits_entries-Goes end p c = record {
    ret = refl;
    counted = record {
      counters = λ k. omega arith;
      directories = omega arith;
      messages = omega arith;
    };
  }
  visits_entries-Goes (entry name t es) p c = elim (Bool-cases (is_dots name)) [
    | inl dots ↦ rw dots (visits_entries-Goes es p c)
    | inr other ↦ rw other (
        Goes-next (λ k. leaves k t) (λ k. leaves_entries k es) _ _ _ _ c
          (visits myfunc t (p ++ name) c) (visits_entries myfunc es p) (visits-Goes t (p ++ name) c)
          (λ c1. visits_entries-Goes es p c1))
  ]

-- Under the same two conditions `myftw` with `myfunc` returns 0, adds to the counter of each kind
-- the number of the files of that kind and to `ndir` the number of directories, those it cannot
-- read included, and writes one message for each directory that cannot be read and each file that
-- cannot be examined.
pub myftw-Counted :
    (size : ℕ) (pathname : List ℕ) (t : Tree) (c : Counters)
    → Named t
    → 256 ≤ size
    → (s : PathBuf) × (c' : Counters) × (myftw myfunc size pathname t c ≡ some (pos 0, s, c'))
      × Counted (λ k. leaves k t) (dirs t) (failures t) c c'
myftw-Counted size pathname t c n h =
    let run = myftw-visits myfunc size pathname t c n h in
    let goes = visits-Goes t pathname c in
    let c' = (visits myfunc t pathname c).1 in
    (run.0, c', run.1 ∙ ap (λ r. some (r, run.0, c')) goes.ret, goes.counted)
