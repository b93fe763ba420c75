-- ===== src/Db/Chain.antt =====
-- Chains of index records, and the search of `_db_find_and_lock` along one.
use learn_apue.Base.{
  ℕ, zero, suc, ◌≤◌, ◌<◌, ◌≡◌, refl, ap, ◌∙◌, Bool, true, false, Option, none, some, List, [], ◌∷◌,
  arith, length, if◌then◌else◌, str_eq, Bool-cases, inl, inr,
}
use learn_apue.Base.Int.{pos}
use learn_apue.Bytes.File.{File}
use learn_apue.Db.Disk.{readidx}
use learn_apue.Db.Ops.{find_loop}
use learn_apue.Db.Records.{Entry, Stands, loaded, readidx-Stands}
use learn_apue.Db.State.{Db, Run, ok, and_then}

-- The first offset of a chain, `t` if it is empty.
abbrev pub head_to : ℕ → List Entry → ℕ
head_to t [] = t
head_to t (e ∷ es) = e.off

-- The records stand in the files, each points to the one behind it, and the last to `t`.
abbrev pub ChainTo : File → File → ℕ → List Entry → Type 0
ChainTo i d t [] = Unit
ChainTo i d t (e ∷ es) = Stands i d e × (e.next ≡ head_to t es) × ChainTo i d t es

abbrev pub Chain : File → File → List Entry → Type 0
Chain i d es = ChainTo i d 0 es

-- The first record under a key.
unfoldable pub lookup : List ℕ → List Entry → Option Entry
lookup key [] = none
lookup key (e ∷ es) = if str_eq e.key key then some e else lookup key es

-- The place of the pointer that leads to that record, if the chain hangs on the pointer at `p`.
unfoldable pub before : List ℕ → ℕ → List Entry → ℕ
before key p [] = p
before key p (e ∷ es) = if str_eq e.key key then p else before key e.off es

-- The state that the search leaves when it has passed all records.
unfoldable pub passed : List Entry → Db → Db
passed [] s = s
passed (e ∷ es) s = passed es (record (loaded e s) { ptroff = e.off })

-- A state without what a search changes: two states that settle alike have the same files, locks,
-- tables, counters and error number.
abbrev pub settle : Db → Db
settle s = record s {
  idx_pos = 0;
  idxbuf = [];
  datbuf = [];
  idxoff = 0;
  idxlen = 0;
  datoff = 0;
  datlen = 0;
  ptrval = pos 0;
  ptroff = 0;
}

pub passed-settle : (es : List Entry) (s : Db) → settle (passed es s) ≡ settle s
unfolding passed
passed-settle [] s = refl
passed-settle (e ∷ es) s = passed-settle es (record (loaded e s) { ptroff = e.off })

find_step : ℕ → List ℕ → ℕ → Db → Run Bool
find_step k key o s = and_then (readidx (pos o) s) (λ next s. elim (str_eq s.idxbuf key) [
  | true ↦ ok true s
  | false ↦ find_loop k key next (record s { ptroff = o })
])

find_loop-find_step :
    (k : ℕ) (key : List ℕ) (o : ℕ) (s : Db)
    → 1 ≤ o
    → find_loop (suc k) key (pos o) s ≡ find_step k key o s
unfolding find_loop find_step
find_loop-find_step k key zero s h = elim h [ ]
find_loop-find_step k key (suc o) s h = refl

find_loop-zero : (k : ℕ) (key : List ℕ) (s : Db) → find_loop (suc k) key (pos 0) s ≡ ok false s
unfolding find_loop
find_loop-zero k key s = refl

module _ (k : ℕ) (key : List ℕ) (s : Db) {e : Entry} (h : Stands s.idx s.dat e) where
  find_loop-hit :
      str_eq e.key key ≡ true → find_loop (suc k) key (pos e.off) s ≡ ok true (loaded e s)
  unfolding find_step
  find_loop-hit hit =
      find_loop-find_step k key e.off s h.is_record.off_pos
      ∙ rw (readidx-Stands s h, and_then) (rw hit)

  find_loop-miss :
      str_eq e.key key ≡ false
      → find_loop (suc k) key (pos e.off) s
        ≡ find_loop k key (pos e.next) (record (loaded e s) { ptroff = e.off })
  unfolding find_step
  find_loop-miss miss =
      find_loop-find_step k key e.off s h.is_record.off_pos
      ∙ rw (readidx-Stands s h, and_then) (rw miss)

pub find_loop-none :
    (k : ℕ) (key : List ℕ) (es : List Entry) (s : Db)
    → Chain s.idx s.dat es
    → length es < k
    → lookup key es ≡ none
    → find_loop k key (pos (head_to 0 es)) s ≡ ok false (passed es s)
unfolding lookup passed
find_loop-none zero key es s c fuel h = absurd (omega arith)
find_loop-none (suc k) key [] s c fuel h = find_loop-zero k key s
find_loop-none (suc k) key (e ∷ es) s c fuel h =
    let s' = record (loaded e s) { ptroff = e.off } in
    find_loop-miss k key s c.0 (ground arith)
    ∙ ap (λ n. find_loop k key (pos n) s') c.1
    ∙ find_loop-none k key es s' c.2 (omega arith) (ground arith)

pub find_loop-some :
    (k : ℕ) (key : List ℕ) (es : List Entry) (e : Entry) (s : Db)
    → Chain s.idx s.dat es
    → length es < k
    → lookup key es ≡ some e
    → find_loop k key (pos (head_to 0 es)) s
      ≡ ok true (record (loaded e s) { ptroff = before key s.ptroff es })
unfolding lookup before
find_loop-some zero key es e s c fuel h = absurd (omega arith)
find_loop-some (suc k) key [] e s c fuel h = cc
find_loop-some (suc k) key (x ∷ es) e s c fuel h = elim (Bool-cases (str_eq x.key key)) [
  | inl hit ↦
      let same : x ≡ e = ground arith in
      rw hit (find_loop-hit k key s c.0 hit ∙ ap (λ x. ok true (loaded x s)) same)
  | inr miss ↦
      let s' = record (loaded x s) { ptroff = x.off } in
      rw miss (
        find_loop-miss k key s c.0 miss
        ∙ ap (λ n. find_loop k key (pos n) s') c.1
        ∙ find_loop-some k key es e s' c.2 (omega arith) (ground arith))
]
