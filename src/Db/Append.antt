-- ===== src/Db/Append.antt =====
-- A new record of db/db.c in front of its hash chain: at the ends of the files, or in the place of a
-- deleted record.
use learn_apue.Base.{
  ℕ, ◌+◌, ◌*◌, ◌≤◌, ◌≡◌, refl, sym, ◌∙◌, none, List, [], ◌∷◌, ◌++◌, arith, length,
}
use learn_apue.Base.Int.{pos}
use learn_apue.Bytes.Decimal.{pad}
use learn_apue.Bytes.File.{File, write_at}
use learn_apue.Db.Between.{slot_h, hash-lt, added}
use learn_apue.Db.Chain.{head_to}
use learn_apue.Db.Insert.{insert-Laid, IsFree-behind}
use learn_apue.Db.Layout.{Region, region, ChainTo-bound}
use learn_apue.Db.Line.{Lacks, IsKey}
use learn_apue.Db.Ops.{append_record, reuse_record}
use learn_apue.Db.Pairs.{pairs, find}
use learn_apue.Db.Records.{Entry, IsRecord, line_of, index_record}
use learn_apue.Db.Remove.{length-index_line}
use learn_apue.Db.State.{Db, ok, ptr_max, newline}
use learn_apue.Db.Valid.{Chains, Laid, Keyed, IsFree, head-le}
use learn_apue.Db.Writers.{
  byte_lock, writeptr-lem, data_written, writedat-set, writedat-end, Fits, index_written,
  writeidx-set, writeidx-end,
}

-- What a caller owes: a key and data that the library can store.
pub record Storable (key value : List ℕ) : Type 0 where
  pub is_key : IsKey key
  pub clean : Lacks 0 value
  pub value_ge : 1 ≤ length value
  pub value_le : length value + 1 ≤ 1024

-- The state after a record is written at `o`, its data at `p`.
abbrev pub record_written : List ℕ → List ℕ → ℕ → ℕ → ℕ → Db → Db
record_written key value o p n t =
    let w = index_written key o n (data_written value p t) in
    record w { idx = write_at w.idx t.chainoff (pad 7 o); idx_pos = t.chainoff + 7 }

pub append_record-lem :
    (key value : List ℕ) (n a : ℕ) (t : Db)
    → t.locks ≡ byte_lock a ∷ []
    → n ≤ ptr_max
    → length t.idx ≤ ptr_max
    → Fits key (length t.dat) (length value + 1)
    → append_record key value (pos n) t
      ≡ ok tt (record_written key value (length t.idx) (length t.dat) n t)
unfolding append_record
append_record-lem key value n a t held n_le room fits =
    let w = data_written value (length t.dat) t in
    rw (
      writedat-end value t a held,
      writeidx-end key n w a n_le fits held,
      writeptr-lem t.chainoff (length t.idx) (index_written key (length t.idx) n w) room,
    )

pub reuse_record-lem :
    (key value : List ℕ) (n : ℕ) (t : Db)
    → n ≤ ptr_max
    → t.idxoff ≤ ptr_max
    → Fits key t.datoff (length value + 1)
    → reuse_record key value (pos n) t ≡ ok tt (record_written key value t.idxoff t.datoff n t)
unfolding reuse_record
reuse_record-lem key value n t n_le high fits =
    let w = data_written value t.datoff t in
    rw (
      writedat-set value t.datoff t,
      writeidx-set key t.idxoff n w n_le fits,
      writeptr-lem t.chainoff t.idxoff (index_written key t.idxoff n w) high,
    )

abbrev pub new_entry : List ℕ → List ℕ → ℕ → ℕ → ℕ → Entry
new_entry key value o p n = record { off = o; next = n; datoff = p; key = key; value = value }

pub new-IsRecord :
    (key value : List ℕ) (o p n : ℕ)
    → Storable key value
    → Fits key p (length value + 1)
    → 1 ≤ o
    → n ≤ ptr_max
    → IsRecord (new_entry key value o p n)
new-IsRecord key value o p n can fits low n_le = record {
  key = can.is_key;
  clean = can.clean;
  off_pos = low;
  next_le = n_le;
  value_le = can.value_le;
  line_ge = fits.0;
  line_le = fits.1;
}

-- A key takes as many bytes in a deleted record of its sizes as the old key.
pub line-sizes :
    (key value : List ℕ) (e : Entry) (o n : ℕ)
    → length e.key ≡ length key
    → length e.value + 1 ≡ length value + 1
    → length (line_of (new_entry key value o e.datoff n)) ≡ length (line_of e)
line-sizes key value e o n k w =
    length-index_line key e.datoff (length value + 1)
    ∙ rw (← k, ← w) (sym (length-index_line e.key e.datoff (length e.value + 1)))

-- The files after the writes, by the chains in front of them.
module _ {i d : File} {cs : Chains} (l : Laid i d cs) (k : Keyed cs) (key value : List ℕ) (o p : ℕ)
    (can : Storable key value) (fits : Fits key p (length value + 1))
    (absent : find key (pairs (cs (slot_h key))) ≡ none) (low : 967 ≤ o) (high : o ≤ ptr_max) where
  abbrev pub entry : Entry
  entry = new_entry key value o p (head_to 0 (cs (slot_h key)))

  module _ (free : IsFree (region entry) cs) where
    pub added-Laid :
        Laid
          (write_at (write_at i o (index_record entry)) (slot_h key * 7) (pad 7 o))
          (write_at d p (value ++ newline ∷ []))
          (added k entry absent)
    added-Laid =
        insert-Laid l (slot_h key) (omega (arith, hash-lt key)) entry
          (new-IsRecord key value o p _ can fits (omega arith) (head-le l (slot_h key))) refl free
          low high

-- The bytes behind the ends of the files are free.
pub IsFree-end :
    {i d : File} {cs : Chains} (l : Laid i d cs) (r : Region)
    → r.off ≡ length i
    → r.datoff ≡ length d
    → IsFree r cs
IsFree-end {i} {d} {cs} l r = IsFree-behind i d cs r (λ j. ChainTo-bound i d 0 (cs j) (l.chains j))
