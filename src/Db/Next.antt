-- ===== src/Db/Next.antt =====
-- `db_rewind` and `db_nextrec` of db/db.c on an index file that is a sequence of records.
use learn_apue.Base.{
  ℕ, zero, suc, ◌+◌, ◌<◌, ◌≡◌, ◌∙◌, ap, sym, refl, true, false, Option, none, some, List, [], ◌∷◌,
  arith, length, length-append, take-append, drop-append, if◌then◌else◌, Bool-cases, Option-cases,
  inl, inr,
}
use learn_apue.Base.Int.{pos, negsuc}
use learn_apue.Bytes.Decimal.{pad, atol-pad}
use learn_apue.Bytes.File.{File, read_at, read_at_end}
use learn_apue.Db.Chain.{settle}
use learn_apue.Db.Disk.{readidx, index_line}
use learn_apue.Db.Ops.{all_blank, next_loop, next_found, nextrec}
use learn_apue.Db.Pairs.{payload}
use learn_apue.Db.Records.{
  Entry, Stands, line_of, loaded, front_read, read_line-Stands, readdat-Holds, length-pad7,
  length-pad4,
}
use learn_apue.Db.Search.{drop_lock-own}
use learn_apue.Db.State.{Db, ok, idxfd, drop_lock, incr}
use mathlib.Core.Option

-- The records fill the index file from `p` on.
abbrev pub Consecutive : File → File → ℕ → List Entry → Type 0
Consecutive i d p [] = length i ≡ p
Consecutive i d p (e ∷ es) =
    (e.off ≡ p) × Stands i d e × Consecutive i d (e.off + 11 + length (line_of e)) es

-- The first record with a key that is not blank.
unfoldable pub first_live : List Entry → Option Entry
first_live [] = none
first_live (e ∷ es) = if all_blank e.key then first_live es else some e

-- The records behind it.
unfoldable pub behind_live : List Entry → List Entry
behind_live [] = []
behind_live (e ∷ es) = if all_blank e.key then behind_live es else es

-- `_db_readidx` reads the record at the file offset.
readidx-next :
    {e : Entry} (s : Db)
    → Stands s.idx s.dat e
    → e.off ≡ s.idx_pos
    → readidx (pos 0) s ≡ ok (pos e.next) (loaded e s)
unfolding readidx
readidx-next {e} s h here =
    let r = h.is_record in
    let len = length (line_of e) in
    let seven = length-pad7 e.next r.next_le in
    let four = length-pad4 len r.line_le in
    rw (← here, front_read h, length-append, seven, four, take-append 7 _ (pad 4 len) seven)
      (rw (drop-append 7 _ (pad 4 len) seven, atol-pad 7 e.next, atol-pad 4 len)
        (read_line-Stands s h))

readidx-end :
    (s : Db)
    → length s.idx ≡ s.idx_pos
    → readidx (pos 0) s ≡ ok (negsuc 0) (record s { idxoff = s.idx_pos })
unfolding readidx
readidx-end s e =
    let nothing : read_at s.idx s.idx_pos 11 ≡ [] = rw e at (read_at_end s.idx 11) in rw nothing

-- The loop ends at the first live record, or at the end of the file.
next_loop-live :
    (k : ℕ) (es : List Entry) (s : Db) {e : Entry}
    → Consecutive s.idx s.dat s.idx_pos es
    → length es < k
    → first_live es ≡ some e
    → (next_loop k s ≡ ok true (loaded e s))
      × Stands s.idx s.dat e
      × Consecutive s.idx s.dat (e.off + 11 + length (line_of e)) (behind_live es)
unfolding next_loop first_live behind_live all_blank index_line
next_loop-live k [] s c enough live = cc
next_loop-live zero (x ∷ es) s c enough live = absurd (omega arith)
next_loop-live (suc k) (x ∷ es) s {e} (here, st, c) enough live =
    elim (Bool-cases (all_blank x.key)) [
      | inl blank ↦
          let (run, st', rest) =
            next_loop-live k es (loaded x s) c (omega arith) (rw blank at live) in
          (rw (readidx-next s st here, blank) run, st', rw blank rest)
      | inr key ↦
          let same : x ≡ e = ground arith in
          (rw (readidx-next s st here, key, ← same), rw (← same) st, rw (key, ← same) c)
    ]

next_loop-end :
    (k : ℕ) (es : List Entry) (s : Db)
    → Consecutive s.idx s.dat s.idx_pos es
    → length es < k
    → first_live es ≡ none
    → (u : Db) × (next_loop k s ≡ ok false u)
      × (settle u ≡ settle s)
      × (u.idx_pos ≡ length s.idx)
      × (behind_live es ≡ [])
unfolding next_loop first_live behind_live all_blank index_line
next_loop-end zero es s c enough live = absurd (omega arith)
next_loop-end (suc k) [] s c enough live =
    (record s { idxoff = s.idx_pos }, rw (readidx-end s c), refl, omega arith, refl)
next_loop-end (suc k) (x ∷ es) s (here, st, c) enough live = elim (Bool-cases (all_blank x.key)) [
  | inl blank ↦
      let (u, run, same, end_pos, rest) =
        next_loop-end k es (loaded x s) c (omega arith) (rw blank at live) in
      (u, rw (readidx-next s st here, blank) run, same, end_pos, rw blank rest)
  | inr key ↦ absurd (let no : some x ≡ none = rw key at live in cc)
]

-- If the records of the index file stand one behind the other from the file offset to the end of
-- the file, no lock is held and there are more rounds than records, a call of `db_nextrec` returns the key and the data of the first whose key is not
-- blank, or nothing if there is none; it leaves both files alone, holds no lock, and the next call
-- goes on behind the record.
pub nextrec-first_live :
    (rounds : ℕ) (es : List Entry) (s : Db)
    → Consecutive s.idx s.dat s.idx_pos es
    → length es < rounds
    → s.locks ≡ []
    → (t : Db) × (nextrec rounds s ≡ ok (Option.map payload (first_live es)) t)
      × (t.idx ≡ s.idx)
      × (t.dat ≡ s.dat)
      × (t.locks ≡ [])
      × Consecutive t.idx t.dat t.idx_pos (behind_live es)
unfolding nextrec next_found
nextrec-first_live rounds es s c enough free =
    let armed = record s { locks = record { fd = idxfd; start = 0; len = 1 } ∷ s.locks } in
    let open' = drop_lock-own idxfd 0 1 s.locks free ∙ free in
    elim (Option-cases (first_live es)) [
      | inl e ↦
          let (u, run, same, end_pos, rest) = next_loop-end rounds es armed c enough e in
          let locks = ap (λ (x : Db). x.locks) same in
          let i = ap (λ (x : Db). x.idx) same in
          (
            record u { locks = drop_lock idxfd 0 1 u.locks },
            rw (e, run),
            i,
            ap (λ (x : Db). x.dat) same,
            ap (drop_lock idxfd 0 1) locks ∙ open',
            rw rest (ap length i ∙ sym end_pos),
          )
      | inr (e, live) ↦
          let (run, st, rest) = next_loop-live rounds es armed c enough live in
          let x = loaded e armed in
          (
            record x {
              datbuf = e.value;
              cnt_nextrec = incr x.cnt_nextrec;
              locks = drop_lock idxfd 0 1 x.locks;
            },
            rw (live, run, readdat-Holds e x st.is_record.clean st.dat refl refl),
            refl,
            refl,
            open',
            rest,
          )
    ]
