-- ===== src/Db/Found.antt =====
-- What the two searches of db/db.c find: a record and the pointer that leads to it.
use learn_apue.Base.{
  ℕ, zero, suc, ◌+◌, ◌≤◌, ◌<◌, ◌≡◌, refl, ap, ◌∙◌, Bool, true, false, ◌&&◌, Option, none, some,
  List, [], ◌∷◌, arith, length, ◌==◌, if◌then◌else◌, str_eq, Bool-cases, inl, inr,
}
use learn_apue.Base.Int.{pos}
use learn_apue.Bytes.Decimal.{pad}
use learn_apue.Bytes.File.{Holds, write_at}
use learn_apue.Db.Chain.{head_to, Chain, lookup, before, settle}
use learn_apue.Db.Disk.{readidx}
use learn_apue.Db.Ops.{free_loop, findfree, take_free}
use learn_apue.Db.Records.{Entry, Stands, loaded, readidx-Stands, readptr-Holds}
use learn_apue.Db.State.{Db, Lock, idxfd, drop_lock, Run, ok, and_then, ptr_max}
use learn_apue.Db.Unlink.{Unlinked, first, later}
use learn_apue.Db.Writers.{byte_lock, writeptr-lem}

Unlinked-cons :
    (p : ℕ) (x e : Entry) (es es' : List Entry) (o : ℕ)
    → Unlinked x.off e es es' o
    → (l : List Entry) × Unlinked p e (x ∷ es) l o
Unlinked-cons p x e es es' o (first at is) =
    (record x { next = head_to 0 es' } ∷ es', later [] x es' at (ap (λ l. x ∷ l) is) refl)
Unlinked-cons p x e es es' o (later init y post at is is') =
    (x ∷ es', later (x ∷ init) y post at (ap (λ l. x ∷ l) is) (ap (λ l. x ∷ l) is'))

-- The pointer that `_db_find_and_lock` remembers leads to the record that it finds.
pub lookup-Unlinked :
    (key : List ℕ) (p : ℕ) (es : List Entry) (e : Entry)
    → lookup key es ≡ some e
    → (l : List Entry) × Unlinked p e es l (before key p es)
unfolding lookup before
lookup-Unlinked key p [] e h = cc
lookup-Unlinked key p (x ∷ es) e h = elim (Bool-cases (str_eq x.key key)) [
  | inl hit ↦ let same : x ≡ e = ground arith in rw hit (es, first refl (ap (λ y. y ∷ es) same))
  | inr miss ↦
      let (l, u) = lookup-Unlinked key x.off es e (ground arith) in
      rw miss (Unlinked-cons p x e es l _ u)
]

-- A deleted record of the sizes that are wanted.
abbrev pub fits_free : ℕ → ℕ → Entry → Bool
fits_free keylen datlen e = (length e.key == keylen) && (length e.value + 1 == datlen)

unfoldable pub lookup_free : ℕ → ℕ → List Entry → Option Entry
lookup_free keylen datlen [] = none
lookup_free keylen datlen (e ∷ es) =
    if fits_free keylen datlen e then some e else lookup_free keylen datlen es

unfoldable pub before_free : ℕ → ℕ → ℕ → List Entry → ℕ
before_free keylen datlen p [] = p
before_free keylen datlen p (e ∷ es) =
    if fits_free keylen datlen e then p else before_free keylen datlen e.off es

-- The pointer that `_db_findfree` remembers leads to the record that it finds.
pub lookup_free-Unlinked :
    (keylen datlen p : ℕ) (es : List Entry) (e : Entry)
    → lookup_free keylen datlen es ≡ some e
    → (l : List Entry) × Unlinked p e es l (before_free keylen datlen p es)
unfolding lookup_free before_free
lookup_free-Unlinked kl dl p [] e h = cc
lookup_free-Unlinked kl dl p (x ∷ es) e h = elim (Bool-cases (fits_free kl dl x)) [
  | inl hit ↦ let same : x ≡ e = ground arith in rw hit (es, first refl (ap (λ y. y ∷ es) same))
  | inr miss ↦
      let (l, u) = lookup_free-Unlinked kl dl x.off es e (ground arith) in
      rw miss (Unlinked-cons p x e es l _ u)
]

-- The sizes of the record are those asked for.
pub lookup_free-sizes :
    (keylen datlen : ℕ) (es : List Entry) (e : Entry)
    → lookup_free keylen datlen es ≡ some e
    → (length e.key ≡ keylen) × (length e.value + 1 ≡ datlen)
unfolding lookup_free
lookup_free-sizes kl dl [] e h = cc
lookup_free-sizes kl dl (x ∷ es) e h = elim (Bool-cases (fits_free kl dl x)) [
  | inl hit ↦
      let same : x ≡ e = ground arith in
      let sizes : (length x.key ≡ kl) × (length x.value + 1 ≡ dl) = ground arith in rw same at sizes
  | inr miss ↦ lookup_free-sizes kl dl es e (ground arith)
]

unfoldable pub passed_free : List Entry → Db → Db
passed_free [] s = s
passed_free (e ∷ es) s = passed_free es (loaded e s)

pub passed_free-settle :
    (es : List Entry) (s : Db)
    → (settle (passed_free es s) ≡ settle s) × ((passed_free es s).ptroff ≡ s.ptroff)
unfolding passed_free
passed_free-settle [] s = (refl, refl)
passed_free-settle (e ∷ es) s = passed_free-settle es (loaded e s)

free_step : ℕ → ℕ → ℕ → ℕ → ℕ → Db → Run (Bool × ℕ)
free_step k kl dl p o s = and_then (readidx (pos o) s) (λ next s.
    elim ((length s.idxbuf == kl) && (s.datlen == dl)) [
      | true ↦ ok (true, p) s
      | false ↦ free_loop k kl dl o next s
    ])

free_loop-free_step :
    (k kl dl p o : ℕ) (s : Db)
    → 1 ≤ o
    → free_loop (suc k) kl dl p (pos o) s ≡ free_step k kl dl p o s
unfolding free_loop free_step
free_loop-free_step k kl dl p zero s h = elim h [ ]
free_loop-free_step k kl dl p (suc o) s h = refl

free_loop-zero : (k kl dl p : ℕ) (s : Db) → free_loop (suc k) kl dl p (pos 0) s ≡ ok (false, p) s
unfolding free_loop
free_loop-zero k kl dl p s = refl

module _ (k kl dl p : ℕ) (s : Db) {e : Entry} (h : Stands s.idx s.dat e) where
  free_loop-hit :
      fits_free kl dl e ≡ true → free_loop (suc k) kl dl p (pos e.off) s ≡ ok (true, p) (loaded e s)
  unfolding free_step
  free_loop-hit hit =
      free_loop-free_step k kl dl p e.off s h.is_record.off_pos
      ∙ rw (readidx-Stands s h, and_then) (rw hit)

  free_loop-miss :
      fits_free kl dl e ≡ false
      → free_loop (suc k) kl dl p (pos e.off) s ≡ free_loop k kl dl e.off (pos e.next) (loaded e s)
  unfolding free_step
  free_loop-miss miss =
      free_loop-free_step k kl dl p e.off s h.is_record.off_pos
      ∙ rw (readidx-Stands s h, and_then) (rw miss)

free_loop-none :
    (k kl dl p : ℕ) (es : List Entry) (s : Db)
    → Chain s.idx s.dat es
    → length es < k
    → lookup_free kl dl es ≡ none
    → (q : ℕ) × (free_loop k kl dl p (pos (head_to 0 es)) s ≡ ok (false, q) (passed_free es s))
unfolding lookup_free passed_free
free_loop-none zero kl dl p es s c fuel h = absurd (omega arith)
free_loop-none (suc k) kl dl p [] s c fuel h = (p, free_loop-zero k kl dl p s)
free_loop-none (suc k) kl dl p (e ∷ es) s c fuel h =
    let (q, r) = free_loop-none k kl dl e.off es (loaded e s) c.2 (omega arith) (ground arith) in
    (
      q,
      free_loop-miss k kl dl p s c.0 (ground arith)
          ∙ ap (λ n. free_loop k kl dl e.off (pos n) (loaded e s)) c.1
          ∙ r,
    )

free_loop-some :
    (k kl dl p : ℕ) (es : List Entry) (e : Entry) (s : Db)
    → Chain s.idx s.dat es
    → length es < k
    → lookup_free kl dl es ≡ some e
    → free_loop k kl dl p (pos (head_to 0 es)) s ≡ ok (true, before_free kl dl p es) (loaded e s)
unfolding lookup_free before_free
free_loop-some zero kl dl p es e s c fuel h = absurd (omega arith)
free_loop-some (suc k) kl dl p [] e s c fuel h = cc
free_loop-some (suc k) kl dl p (x ∷ es) e s c fuel h = elim (Bool-cases (fits_free kl dl x)) [
  | inl hit ↦
      let same : x ≡ e = ground arith in
      rw hit (free_loop-hit k kl dl p s c.0 hit ∙ ap (λ x. ok (true, p) (loaded x s)) same)
  | inr miss ↦ rw miss (
      free_loop-miss k kl dl p s c.0 miss
      ∙ ap (λ n. free_loop k kl dl x.off (pos n) (loaded x s)) c.1
      ∙ free_loop-some k kl dl x.off es e (loaded x s) c.2 (omega arith) (ground arith))
]

-- The lock of the free list is dropped inside that of a chain.
pub drop_lock-inner :
    (a : ℕ) (ls : List Lock)
    → ls ≡ byte_lock a ∷ []
    → 1 ≤ a
    → drop_lock idxfd 0 1 (byte_lock 0 ∷ ls) ≡ ls
unfolding drop_lock
drop_lock-inner a ls e h = rw e (ground arith)

module _ (rounds kl dl a : ℕ) (s : Db) (es : List Entry) (held : s.locks ≡ byte_lock a ∷ [])
    (pos_a : 1 ≤ a) (le : head_to 0 es ≤ ptr_max) (pointer : Holds s.idx 0 (pad 7 (head_to 0 es)))
    (chain : Chain s.idx s.dat es) (enough : length es < rounds) where
  abbrev locked : Db
  locked = record s { locks = byte_lock 0 ∷ s.locks }

  abbrev at_head : Db
  at_head = record locked { idx_pos = 0 + 7 }

  pub findfree-none :
      lookup_free kl dl es ≡ none
      → (t : Db) × (findfree rounds kl dl s ≡ ok false t)
        × (settle t ≡ settle s)
        × (t.ptroff ≡ s.ptroff)
  unfolding findfree take_free
  findfree-none none_fits =
      let (q, run) = free_loop-none rounds kl dl 0 es at_head chain enough none_fits in
      let (same, ptroff) = passed_free-settle es at_head in
      let close = λ (x : Db). record x { locks = drop_lock idxfd 0 1 x.locks } in
      let p : close (settle (passed_free es at_head)) ≡ settle s =
        ap close same ∙ rw (drop_lock-inner a s.locks held pos_a) in
      (
        close (passed_free es at_head),
        rw (readptr-Holds 0 (head_to 0 es) locked le pointer, run),
        p,
        ptroff,
      )

  pub findfree-some :
      {e : Entry}
      → lookup_free kl dl es ≡ some e
      → e.next ≤ ptr_max
      → findfree rounds kl dl s
        ≡ ok true (record (loaded e s) {
          idx = write_at s.idx (before_free kl dl 0 es) (pad 7 e.next);
          idx_pos = before_free kl dl 0 es + 7;
        })
  unfolding findfree take_free
  findfree-some {e} found next = rw (
    readptr-Holds 0 (head_to 0 es) locked le pointer,
    free_loop-some rounds kl dl 0 es e at_head chain enough found,
    writeptr-lem (before_free kl dl 0 es) e.next (loaded e at_head) next,
    drop_lock-inner a s.locks held pos_a,
  )

pub lookup_free-Stands :
    {i d : List ℕ} (kl dl : ℕ) (es : List Entry) {e : Entry}
    → Chain i d es
    → lookup_free kl dl es ≡ some e
    → Stands i d e
unfolding lookup_free
lookup_free-Stands kl dl [] c found = cc
lookup_free-Stands {i} {d} kl dl (x ∷ es) {e} c found = elim (Bool-cases (fits_free kl dl x)) [
  | inl hit ↦ let same : x ≡ e = ground arith in rw same at c.0
  | inr miss ↦ lookup_free-Stands kl dl es c.2 (ground arith)
]
