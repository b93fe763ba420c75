-- ===== src/Db/Remove.antt =====
-- `_db_dodelete` of db/db.c on a record of a hash chain.
use learn_apue.Base.{
  ℕ, zero, suc, ◌+◌, ◌-◌, ◌*◌, ◌≤◌, ◌<◌, ◌≡◌, ◌⊎◌, inl, inr, refl, sym, ap, ◌∙◌, false, List, [],
  ◌∷◌, ◌++◌, arith, length, replicate, length-replicate, length-append, ◌==◌,
}
use learn_apue.Base.Int.{pos}
use learn_apue.Bytes.Decimal.{print, pad}
use learn_apue.Bytes.File.{File, Holds, write_at, write_at_comm, length-write_at}
use learn_apue.Db.Chain.{head_to, settle}
use learn_apue.Db.Disk.{index_line}
use learn_apue.Db.Insert.{insert-Laid}
use learn_apue.Db.Layout.{region, ChainTo-bound}
use learn_apue.Db.Line.{Lacks}
use learn_apue.Db.Ops.{dodelete}
use learn_apue.Db.Found.{drop_lock-inner}
use learn_apue.Db.Records.{
  Entry, IsRecord, Stands, loaded, line_of, index_record, readptr-Holds, length-pad7,
  length-index_record,
}
use learn_apue.Db.State.{Db, ok, ptr_max, space, newline, sep}
use learn_apue.Db.Unlink.{Unlinked, Unlinked-In, Unlinked-place, unlink-Laid}
use learn_apue.Db.Valid.{Chains, head-le, put, put_ne, Laid}
use learn_apue.Db.Writers.{
  byte_lock, writeptr-lem, data_written, writedat-set, index_written, writeidx-set,
}

pub length-index_line :
    (key : List ℕ) (o l : ℕ)
    → length (index_line key o l) ≡ length key + (length (print o) + length (print l) + 3)
unfolding index_line
length-index_line key o l = rw (length-append, length-append, length-append) (omega arith)

pub replicate-Lacks : (n c b : ℕ) → (c == b) ≡ false → Lacks b (replicate n c)
replicate-Lacks zero c b h = tt
replicate-Lacks (suc n) c b h = (h, replicate-Lacks n c b h)

-- The record that `_db_dodelete` leaves in place of `e`, in front of the free list.
abbrev pub blanked : Entry → ℕ → Entry
blanked e f = record {
  off = e.off;
  next = f;
  datoff = e.datoff;
  key = replicate (length e.key) space;
  value = replicate (length e.value) space;
}

pub length-blanked : (e : Entry) (f : ℕ) → length (line_of (blanked e f)) ≡ length (line_of e)
length-blanked e f = rw (length-index_line, length-index_line, length-replicate, length-replicate)

pub blanked-IsRecord : (e : Entry) (f : ℕ) → IsRecord e → f ≤ ptr_max → IsRecord (blanked e f)
blanked-IsRecord e f r le = record {
  key = record {
    no_null = replicate-Lacks (length e.key) space 0 refl;
    no_sep = replicate-Lacks (length e.key) space sep refl;
  };
  clean = replicate-Lacks (length e.value) space 0 refl;
  off_pos = r.off_pos;
  next_le = le;
  value_le = rw length-replicate r.value_le;
  line_ge = rw (length-blanked e f) r.line_ge;
  line_le = rw (length-blanked e f) r.line_le;
}

pub region-blanked : (e : Entry) (f : ℕ) → region (blanked e f) ≡ region e
region-blanked e f = rw (length-blanked e f, length-replicate)

-- The files after a deletion, in the order of the writes.
abbrev pub deleted_idx : File → Entry → ℕ → ℕ → File
deleted_idx i e f o =
    write_at (write_at (write_at i e.off (index_record (blanked e f))) 0 (pad 7 e.off)) o
      (pad 7 e.next)

abbrev pub deleted_dat : File → Entry → ℕ → File
deleted_dat d e f = write_at d e.datoff ((blanked e f).value ++ newline ∷ [])

module _ (s : Db) (e : Entry) (o f a : ℕ) (held : s.locks ≡ byte_lock a ∷ []) (pos_a : 1 ≤ a)
    (rec : IsRecord e) (off_le : e.off ≤ ptr_max) (f_le : f ≤ ptr_max)
    (pointer : Holds s.idx 0 (pad 7 f)) where
  abbrev pub current : Db
  current = record (loaded e s) { ptroff = o }

  abbrev blank_buffers : Db
  blank_buffers = record current {
    idxbuf = (blanked e f).key;
    datbuf = (blanked e f).value;
    locks = byte_lock 0 ∷ s.locks;
  }

  abbrev blank_data : Db
  blank_data = data_written (blanked e f).value e.datoff blank_buffers

  abbrev head_read : Db
  head_read = record blank_data { idx_pos = 0 + 7 }

  abbrev blank_index : Db
  blank_index = index_written (blanked e f).key e.off f head_read

  abbrev head_written : Db
  head_written = record blank_index {
    idx = write_at blank_index.idx 0 (pad 7 e.off);
    idx_pos = 0 + 7;
  }

  -- `_db_dodelete` writes blanks over the record, puts it in front of the free list and leads the
  -- pointer past it.
  pub dodelete-lem :
      (t : Db) × (dodelete current ≡ ok tt t)
      × (settle t
          ≡ settle (record s { idx = deleted_idx s.idx e f o; dat = deleted_dat s.dat e f }))
      × (t.ptrval ≡ pos f)
  unfolding dodelete
  dodelete-lem =
      let b = blanked-IsRecord e f rec f_le in
      let n : length e.value + 1 - 1 ≡ length e.value = omega arith in
      (
        record head_written {
          idx = write_at head_written.idx o (pad 7 e.next);
          idx_pos = o + 7;
          locks = s.locks;
        },
        rw (
          n,
          writedat-set (blanked e f).value e.datoff blank_buffers,
          readptr-Holds 0 f blank_data f_le pointer,
          writeidx-set (blanked e f).key e.off f head_read f_le (b.line_ge, b.line_le),
          writeptr-lem 0 e.off blank_index off_le,
          writeptr-lem o e.next head_written rec.next_le,
          drop_lock-inner a s.locks held pos_a,
        ),
        refl,
        refl,
      )

-- The three writes to the index file may be made in the order in which the invariant is kept.
reorder :
    (i : File) (e : Entry) (f o : ℕ)
    → IsRecord e
    → f ≤ ptr_max
    → e.off ≤ ptr_max
    → e.off + (11 + length (line_of e)) ≤ length i
    → 7 ≤ o
    → o + 7 ≤ length i
    → (o + 7 ≤ e.off) ⊎ (e.off + (11 + length (line_of e)) ≤ o)
    → deleted_idx i e f o
      ≡ write_at
          (write_at (write_at i o (pad 7 e.next)) e.off (index_record (blanked e f)))
          0
          (pad 7 e.off)
reorder i e f o r f_le off_le inside low high apart =
    let p = length-pad7 e.next r.next_le in
    let q = length-pad7 e.off off_le in
    let b = blanked e f in
    let n : length (index_record b) ≡ 11 + length (line_of e) =
      length-index_record b (blanked-IsRecord e f r f_le) ∙ ap (λ k. 11 + k) (length-blanked e f) in
    let i1 = write_at i e.off (index_record b) in
    let size = length-write_at i e.off (index_record b) in
    let outer : deleted_idx i e f o ≡ write_at (write_at i1 o (pad 7 e.next)) 0 (pad 7 e.off) =
      write_at_comm i1 0 o (pad 7 e.off) (pad 7 e.next) (omega arith) (omega arith) in
    let inner : write_at i1 o (pad 7 e.next)
        ≡ write_at (write_at i o (pad 7 e.next)) e.off (index_record b) =
      elim apart [
        | inl before ↦
            sym
              (write_at_comm i o e.off (pad 7 e.next) (index_record b) (omega arith) (omega arith))
        | inr behind ↦
            write_at_comm i e.off o (index_record b) (pad 7 e.next) (omega arith) (omega arith)
      ] in
    outer ∙ ap (λ g. write_at g 0 (pad 7 e.off)) inner

-- The chains after a deletion.
abbrev pub removed_chains : ℕ → Entry → List Entry → Chains → Chains
removed_chains j e l cs = put 0 (blanked e (head_to 0 (cs 0)) ∷ cs 0) (put j l cs)

-- The record is in front of the free list, and the chains lie as the invariant wants it.
pub removed-Laid :
    {i d : File} {cs : Chains} (l : Laid i d cs) (j : ℕ)
    → 1 ≤ j
    → j < 138
    → (e : Entry) (es' : List Entry) (o : ℕ) → Stands i d e
    → Unlinked (j * 7) e (cs j) es' o
    → Laid
        (deleted_idx i e (head_to 0 (cs 0)) o)
        (deleted_dat d e (head_to 0 (cs 0)))
        (removed_chains j e es' cs)
removed-Laid {i} {d} {cs} l j ge small e es' o st u =
    let f = head_to 0 (cs 0) in
    let f_le = head-le l 0 in
    let mem = Unlinked-In l j small u in
    let (low, high) = l.beyond j (region e) mem in
    let bound = ChainTo-bound i d 0 (cs j) (l.chains j) (region e) mem in
    let (o_low, o_high, apart) = Unlinked-place l j small ge u in
    let (l1, free) = unlink-Laid l j small u in
    let zero_kept : put j es' cs 0 ≡ cs 0 = put_ne j 0 es' cs (omega arith) in
    let r = st.is_record in
    let laid =
      insert-Laid l1 0 (omega arith) (blanked e f) (blanked-IsRecord e f r f_le) (rw zero_kept refl)
        (rw (region-blanked e f) free) low high in
    rw (reorder i e f o r f_le high bound.0 o_low o_high apart) (rw zero_kept at laid)

-- A deletion leaves the sizes of the files.
pub length-deleted :
    {i d : File} {cs : Chains} (l : Laid i d cs) (j : ℕ)
    → 1 ≤ j
    → j < 138
    → (e : Entry) (es' : List Entry) (o : ℕ) → Stands i d e
    → Unlinked (j * 7) e (cs j) es' o
    → (length (deleted_idx i e (head_to 0 (cs 0)) o) ≡ length i)
      × (length (deleted_dat d e (head_to 0 (cs 0))) ≡ length d)
length-deleted {i} {d} {cs} l j ge small e es' o st u =
    let f = head_to 0 (cs 0) in
    let b = blanked e f in
    let r = st.is_record in
    let mem = Unlinked-In l j small u in
    let (low, high) = l.beyond j (region e) mem in
    let bound = ChainTo-bound i d 0 (cs j) (l.chains j) (region e) mem in
    let (o_low, o_high, apart) = Unlinked-place l j small ge u in
    let n : length (index_record b) ≡ 11 + length (line_of e) =
      length-index_record b (blanked-IsRecord e f r (head-le l 0))
      ∙ ap (λ k. 11 + k) (length-blanked e f) in
    let i1 = write_at i e.off (index_record b) in
    let i2 = write_at i1 0 (pad 7 e.off) in
    let s1 = length-write_at i e.off (index_record b) in
    let s2 = length-write_at i1 0 (pad 7 e.off) in
    let s3 = length-write_at i2 o (pad 7 e.next) in
    let blanks : length (b.value ++ newline ∷ []) ≡ length e.value + 1 =
      rw (length-append, length-replicate) in
    let s4 = length-write_at d e.datoff (b.value ++ newline ∷ []) in
    let p = length-pad7 e.next r.next_le in
    let q = length-pad7 e.off high in (omega arith, omega arith)
