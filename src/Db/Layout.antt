-- ===== src/Db/Layout.antt =====
-- Where records stand, and what a write leaves alone.
use learn_apue.Base.{
  ℕ, ◌+◌, ◌≤◌, ◌≡◌, ◌⊎◌, inl, inr, refl, List, [], ◌∷◌, ◌++◌, arith, length, length-append,
}
use learn_apue.Bytes.Decimal.{pad}
use learn_apue.Bytes.File.{
  File, Holds, write_at, write_at-Holds, Holds-append, Holds-join, Holds-write_after,
  Holds-write_before, Holds-bound,
}
use learn_apue.Db.Chain.{ChainTo}
use learn_apue.Db.Records.{Entry, Stands, line_of, index_record, length-index_record, length-pad7}
use learn_apue.Db.State.{newline, ptr_max}

-- The bytes that a record takes in the two files.
pub record Region : Type 0 where
  pub off : ℕ
  pub size : ℕ
  pub datoff : ℕ
  pub datsize : ℕ

abbrev pub region : Entry → Region
region e = record {
  off = e.off;
  size = 11 + length (line_of e);
  datoff = e.datoff;
  datsize = length e.value + 1;
}

abbrev pub regions : List Entry → List Region
regions [] = []
regions (e ∷ es) = region e ∷ regions es

abbrev pub In : Region → List Region → Type 0
In r [] = ⊥
In r (x ∷ l) = (r ≡ x) ⊎ In r l

-- Neither record touches the other in either file.
pub record Apart (a b : Region) : Type 0 where
  pub idx : (a.off + a.size ≤ b.off) ⊎ (b.off + b.size ≤ a.off)
  pub dat : (a.datoff + a.datsize ≤ b.datoff) ⊎ (b.datoff + b.datsize ≤ a.datoff)

pub Apart-sym : (a b : Region) → Apart a b → Apart b a
Apart-sym a b h = ground (arith, h.idx, h.dat)

-- `n` bytes of the index file from `o` on spare all regions of a list; so for the data file.
abbrev pub SparesIdx : ℕ → ℕ → List Region → Type 0
SparesIdx o n l = (r : Region) → In r l → (o + n ≤ r.off) ⊎ (r.off + r.size ≤ o)

abbrev pub SparesDat : ℕ → ℕ → List Region → Type 0
SparesDat o n l = (r : Region) → In r l → (o + n ≤ r.datoff) ⊎ (r.datoff + r.datsize ≤ o)

pub Holds-spared :
    (f : File) (o p : ℕ) (bs ws : List ℕ)
    → (p + length ws ≤ o) ⊎ (o + length bs ≤ p)
    → Holds f o bs
    → Holds (write_at f p ws) o bs
Holds-spared f o p bs ws (inl le) h = Holds-write_before f o p bs ws le h
Holds-spared f o p bs ws (inr le) h = Holds-write_after f o p bs ws le h

module _ {i d : File} {e : Entry} (h : Stands i d e) where
  pub Stands-write_idx :
      (o : ℕ) (ws : List ℕ)
      → (o + length ws ≤ e.off) ⊎ (e.off + (11 + length (line_of e)) ≤ o)
      → Stands (write_at i o ws) d e
  Stands-write_idx o ws spared =
      let n = length-index_record e h.is_record in
      record {
        is_record = h.is_record;
        idx = Holds-spared i e.off o (index_record e) ws (rw n spared) h.idx;
        dat = h.dat;
      }

  pub Stands-write_dat :
      (o : ℕ) (ws : List ℕ)
      → (o + length ws ≤ e.datoff) ⊎ (e.datoff + (length e.value + 1) ≤ o)
      → Stands i (write_at d o ws) e
  Stands-write_dat o ws spared =
      let n : length (e.value ++ newline ∷ []) ≡ length e.value + 1 = rw length-append in
      record {
        is_record = h.is_record;
        idx = h.idx;
        dat = Holds-spared d e.datoff o (e.value ++ newline ∷ []) ws (rw n spared) h.dat;
      }

  -- The pointer field of a record may be written alone.
  pub Stands-set_next :
      (n : ℕ) → n ≤ ptr_max → Stands (write_at i e.off (pad 7 n)) d (record e { next = n })
  Stands-set_next n le =
      let r = h.is_record in
      let rest = (Holds-append i e.off (pad 7 e.next) _ h.idx).1 in
      let same : e.off + length (pad 7 e.next) ≡ e.off + length (pad 7 n) =
        omega (arith, length-pad7 e.next r.next_le, length-pad7 n le) in
      record {
        is_record = record {
          key = r.key;
          clean = r.clean;
          off_pos = r.off_pos;
          next_le = le;
          value_le = r.value_le;
          line_ge = r.line_ge;
          line_le = r.line_le;
        };
        idx =
            Holds-join _ e.off (pad 7 n) _ (write_at-Holds i e.off (pad 7 n))
              (Holds-write_before i _ e.off _ (pad 7 n) (omega arith) (rw same at rest));
        dat = h.dat;
      }

pub ChainTo-write_idx :
    (i d : File) (t : ℕ) (es : List Entry) (o : ℕ) (ws : List ℕ)
    → SparesIdx o (length ws) (regions es)
    → ChainTo i d t es
    → ChainTo (write_at i o ws) d t es
ChainTo-write_idx i d t [] o ws spared c = tt
ChainTo-write_idx i d t (e ∷ es) o ws spared c = (
  Stands-write_idx c.0 o ws (spared (region e) (inl refl)),
  c.1,
  ChainTo-write_idx i d t es o ws (λ r m. spared r (inr m)) c.2,
)

pub ChainTo-write_dat :
    (i d : File) (t : ℕ) (es : List Entry) (o : ℕ) (ws : List ℕ)
    → SparesDat o (length ws) (regions es)
    → ChainTo i d t es
    → ChainTo i (write_at d o ws) t es
ChainTo-write_dat i d t [] o ws spared c = tt
ChainTo-write_dat i d t (e ∷ es) o ws spared c = (
  Stands-write_dat c.0 o ws (spared (region e) (inl refl)),
  c.1,
  ChainTo-write_dat i d t es o ws (λ r m. spared r (inr m)) c.2,
)

-- Records of a chain stand before the ends of the files.
pub ChainTo-bound :
    (i d : File) (t : ℕ) (es : List Entry)
    → ChainTo i d t es
    → (r : Region) → In r (regions es)
    → (r.off + r.size ≤ length i) × (r.datoff + r.datsize ≤ length d)
ChainTo-bound i d t [] c r m = absurd m
ChainTo-bound i d t (e ∷ es) c r (inl same) =
    let h = c.0 in
    let n : length (e.value ++ newline ∷ []) ≡ length e.value + 1 = rw length-append in
    let bi = rw (length-index_record e h.is_record) at (Holds-bound i e.off _ h.idx) in
    let bd = rw n at (Holds-bound d e.datoff _ h.dat) in ground (arith, bi, bd)
ChainTo-bound i d t (e ∷ es) c r (inr m) = ChainTo-bound i d t es c.2 r m
