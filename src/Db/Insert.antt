-- ===== src/Db/Insert.antt =====
-- A record is written to free bytes and put in front of a chain.
use learn_apue.Base.{
  ℕ, ◌+◌, ◌*◌, ◌≤◌, ◌<◌, ◌≡◌, inl, inr, sym, [], ◌∷◌, ◌++◌, arith, length, length-append,
}
use learn_apue.Bytes.Decimal.{pad}
use learn_apue.Bytes.File.{
  File, Holds, write_at, write_at-Holds, length-write_at, Holds-write_before,
}
use learn_apue.Db.Chain.{head_to, Chain}
use learn_apue.Db.Layout.{
  Region, region, regions, In, Holds-spared, ChainTo-write_idx, ChainTo-write_dat,
}
use learn_apue.Db.Records.{Entry, IsRecord, Stands, index_record, length-pad7, length-index_record}
use learn_apue.Db.State.{ptr_max, newline}
use learn_apue.Db.Valid.{
  Chains, head-le, put, put_cases, IsFree, Laid, put-beyond, put-within, put-between,
}

-- Bytes at the end of both files are free.
pub IsFree-behind :
    (i d : File) (cs : Chains) (r : Region)
    → ((j : ℕ) (x : Region)
        → In x (regions (cs j))
        → (x.off + x.size ≤ length i) × (x.datoff + x.datsize ≤ length d))
    → r.off ≡ length i
    → r.datoff ≡ length d
    → IsFree r cs
IsFree-behind i d cs r bound eo ed j x m = let b = bound j x m in ground (arith, b)

module _ {i d : File} {cs : Chains} (l : Laid i d cs) (j : ℕ) (small : j < 138) (e : Entry)
    (rec : IsRecord e) (next : e.next ≡ head_to 0 (cs j)) (free : IsFree (region e) cs)
    (low : 967 ≤ e.off) (high : e.off ≤ ptr_max) where
  abbrev i1 : File
  i1 = write_at i e.off (index_record e)

  abbrev i2 : File
  i2 = write_at i1 (j * 7) (pad 7 e.off)

  abbrev d1 : File
  d1 = write_at d e.datoff (e.value ++ newline ∷ [])

  new_Stands : Stands i2 d1 e
  new_Stands = record {
    is_record = rec;
    idx =
        Holds-write_before i1 e.off (j * 7) _ _ (omega (arith, length-pad7 e.off high))
          (write_at-Holds i e.off (index_record e));
    dat = write_at-Holds d e.datoff _;
  }

  old_Chain : (k : ℕ) → Chain i2 d1 (cs k)
  old_Chain k =
      let n = length-index_record e rec in
      let v : length (e.value ++ newline ∷ []) ≡ length e.value + 1 = rw length-append in
      let c1 =
        ChainTo-write_dat i d 0 (cs k) e.datoff (e.value ++ newline ∷ [])
          (λ r m. let a = free k r m in rw v (ground (arith, a.dat))) (l.chains k) in
      let c2 =
        ChainTo-write_idx i d1 0 (cs k) e.off (index_record e)
          (λ r m. let a = free k r m in rw n (ground (arith, a.idx))) c1 in
      ChainTo-write_idx i1 d1 0 (cs k) (j * 7) (pad 7 e.off)
        (λ r m. let b = l.beyond k r m in inl (omega (arith, length-pad7 e.off high, b.0))) c2

  new_heads : (k : ℕ) → k < 138 → Holds i2 (k * 7) (pad 7 (head_to 0 (put j (e ∷ cs j) cs k)))
  new_heads k lt = elim (put_cases j k (e ∷ cs j) cs) [
    | inl (same, p) ↦ rw (p, same) (write_at-Holds i1 (j * 7) (pad 7 e.off))
    | inr (ne, p) ↦
        let w = length-pad7 (head_to 0 (cs k)) (head-le l k) in
        rw p (
          Holds-spared i1 (k * 7) (j * 7) _ _ (ground (arith, length-pad7 e.off high, w))
            (Holds-spared i (k * 7) e.off _ _ (inr (omega (arith, w))) (l.heads k lt)))
  ]

  -- The new record is the first of its chain; all other records and chains are as before.
  pub insert-Laid : Laid i2 d1 (put j (e ∷ cs j) cs)
  insert-Laid = record {
    table = omega (
      arith,
      l.table,
      length-write_at i e.off (index_record e),
      length-write_at i1 (j * 7) (pad 7 e.off),
    );
    heads = new_heads;
    chains = λ k. elim (put_cases j k (e ∷ cs j) cs) [
      | inl (same, p) ↦ rw p (new_Stands, next, old_Chain j)
      | inr (ne, p) ↦ rw p (old_Chain k)
    ];
    beyond =
        put-beyond l j (e ∷ cs j)
          (λ r m. elim m [ inl same ↦ rw same (low, high) | inr old ↦ l.beyond j r old ]);
    within = put-within l j (e ∷ cs j) (λ x m. free j x m, l.within j);
    between = put-between l j (e ∷ cs j) (λ k ne a b ma mb. elim ma [
      | inl same ↦ rw same (free k b mb)
      | inr old ↦ l.between j k (λ q. ne (sym q)) a b old mb
    ]);
  }
