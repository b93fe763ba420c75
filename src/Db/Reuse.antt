-- ===== src/Db/Reuse.antt =====
-- `db_store` of db/db.c on a new key: a deleted record of the same sizes is used again, or else the
-- files grow.
use learn_apue.Base.{
  ℕ, ◌+◌, ◌≤◌, ◌<◌, ◌≡◌, refl, sym, ap, ◌∙◌, Option, none, some, List, arith, length, if◌then◌else◌,
  str_eq, Option-cases, inl, inr,
}
use learn_apue.Base.Int.{pos}
use learn_apue.Bytes.Decimal.{pad}
use learn_apue.Bytes.File.{Holds, write_at}
use learn_apue.Db.Append.{
  Storable, record_written, reuse_record-lem, new_entry, line-sizes, added-Laid,
}
use learn_apue.Db.Between.{
  slot_h, hash-lt, added, Keyed-added, view-added, Keyed-put_zero, view-put_zero,
}
use learn_apue.Db.Chain.{head_to}
use learn_apue.Db.Found.{
  lookup_free, before_free, lookup_free-Unlinked, lookup_free-sizes, lookup_free-Stands,
  findfree-none, findfree-some,
}
use learn_apue.Db.Insertion.{Searched, Searched-settle, Updates, append-Inserts}
use learn_apue.Db.Layout.{region}
use learn_apue.Db.Ops.{reuse_record, insert_found, insert_new}
use learn_apue.Db.Pairs.{pairs, find}
use learn_apue.Db.Records.{Entry, Stands, line_of, loaded, readptr-Holds}
use learn_apue.Db.State.{Db, ok, ptr_max, incr}
use learn_apue.Db.Unlink.{Unlinked, Unlinked-In, unlink-Laid}
use learn_apue.Db.Valid.{Chains, IsFree, put, put_ne, head-le}
use learn_apue.Db.Writers.{Fits}

module _ (key value : List ℕ) (can : Storable key value) {u : Db} {cs : Chains}
    (v : Searched u key cs) (absent : find key (pairs (cs (slot_h key))) ≡ none) where
  abbrev n : ℕ
  n = head_to 0 (cs (slot_h key))

  -- The state after `_db_findfree` has found `e` behind the pointer at `q`.
  abbrev taken : Entry → ℕ → Db
  taken e q = record (loaded e u) { idx = write_at u.idx q (pad 7 e.next); idx_pos = q + 7 }

  module _ (e : Entry) (es' : List Entry) (q : ℕ) (st : Stands u.idx u.dat e)
      (un : Unlinked 0 e (cs 0) es' q) (keylen : length e.key ≡ length key)
      (datlen : length e.value + 1 ≡ length value + 1) where
    abbrev cs1 : Chains
    cs1 = put 0 es' cs

    kept : cs1 (slot_h key) ≡ cs (slot_h key)
    kept = put_ne 0 (slot_h key) es' cs (omega arith)

    pub absent1 : find key (pairs (cs1 (slot_h key))) ≡ none
    absent1 = rw kept absent

    low_high : (967 ≤ e.off) × (e.off ≤ ptr_max)
    low_high = v.laid.beyond 0 (region e) (Unlinked-In v.laid 0 (omega arith) un)

    same_region : (m : ℕ) → region (new_entry key value e.off e.datoff m) ≡ region e
    same_region m =
        let size = line-sizes key value e e.off m keylen datlen in
        let line : length (line_of (new_entry key value e.off e.datoff m)) ≡ length (line_of e) =
          size in
        λ i. record { off = e.off; size = 11 + line i; datoff = e.datoff; datsize = (sym datlen) i }

    fits : Fits key e.datoff (length value + 1)
    fits =
        let size = line-sizes key value e e.off n keylen datlen in
        let r = st.is_record in (rw size r.line_ge, rw size r.line_le)

    abbrev reused : Entry
    reused = new_entry key value e.off e.datoff (head_to 0 (cs1 (slot_h key)))

    -- The record stands where the deleted one stood.
    pub reuse-Inserts :
        reuse_record key value (pos n) (taken e q)
          ≡ ok tt (record_written key value e.off e.datoff n (taken e q))
        × Searched
            (record_written key value e.off e.datoff n (taken e q))
            key
            (added (Keyed-put_zero es' v.keyed) reused absent1)
        × Updates key value cs (added (Keyed-put_zero es' v.keyed) reused absent1)
    reuse-Inserts =
        let k1 = Keyed-put_zero es' v.keyed in
        let (l1, free) = unlink-Laid v.laid 0 (omega arith) un in
        let free1 : IsFree (region reused) cs1 =
          rw (same_region (head_to 0 (cs1 (slot_h key)))) free in
        let laid =
          added-Laid l1 k1 key value e.off e.datoff can fits absent1 low_high.0 low_high.1 free1 in
        let next : head_to 0 (cs1 (slot_h key)) ≡ n = ap (head_to 0) kept in
        (
          reuse_record-lem key value n (taken e q) (head-le v.laid (slot_h key)) low_high.1 fits,
          record {
            locked = v.locked;
            chainoff = v.chainoff;
            nhash = v.nhash;
            hashoff = v.hashoff;
            laid = rw (v.chainoff, ← next) laid;
            keyed = Keyed-added k1 reused absent1;
          },
          λ x.
              view-added k1 reused absent1 x
              ∙ ap (λ (o : Option (List ℕ)). if str_eq key x then some value else o)
                  (view-put_zero cs es' x),
        )

module _ (rounds : ℕ) (key value : List ℕ) (can : Storable key value) {u : Db} {cs : Chains}
    (v : Searched u key cs) (absent : find key (pairs (cs (slot_h key))) ≡ none)
    (room : length u.idx ≤ ptr_max) (fits_end : Fits key (length u.dat) (length value + 1))
    (enough : length (cs 0) < rounds) where
  -- What a store on a new key ends with.
  abbrev Stored : Type 0
  Stored =
      (t : Db) × (cs' : Chains) × (insert_new rounds key value u ≡ ok (pos 0) t)
      × Searched t key cs'
      × Updates key value cs cs'

  abbrev slot_read : Db
  slot_read = record u { idx_pos = u.chainoff + 7 }

  abbrev first_on_chain : ℕ
  first_on_chain = head_to 0 (cs (slot_h key))

  slot_Holds : Holds u.idx u.chainoff (pad 7 first_on_chain)
  slot_Holds = rw v.chainoff (v.laid.heads (slot_h key) (omega (arith, hash-lt key)))

  chainoff_pos : 1 ≤ u.chainoff
  chainoff_pos = omega (arith, v.chainoff)

  insert_append : lookup_free (length key) (length value + 1) (cs 0) ≡ none → Stored
  unfolding insert_new insert_found
  insert_append none_fits =
      let (t, run, same, _) =
        findfree-none rounds (length key) (length value + 1) u.chainoff slot_read (cs 0) v.locked
          chainoff_pos (head-le v.laid 0) (v.laid.heads 0 (omega arith)) (v.laid.chains 0) enough
          none_fits in
      let w : Searched t key cs = Searched-settle same v in
      let idx : t.idx ≡ u.idx = ap (λ (x : Db). x.idx) same in
      let dat : t.dat ≡ u.dat = ap (λ (x : Db). x.dat) same in
      let (appended, (s, up)) =
        append-Inserts rounds key value can w absent (rw idx room) (rw dat fits_end) in
      let last = record_written key value (length t.idx) (length t.dat) first_on_chain t in
      (
        record last { cnt_stor1 = incr last.cnt_stor1 },
        _,
        rw (
          readptr-Holds u.chainoff first_on_chain u (head-le v.laid (slot_h key)) slot_Holds,
          run,
          appended,
        ),
        record {
          locked = s.locked;
          chainoff = s.chainoff;
          nhash = s.nhash;
          hashoff = s.hashoff;
          laid = s.laid;
          keyed = s.keyed;
        },
        up,
      )

  insert_reuse : (e : Entry) → lookup_free (length key) (length value + 1) (cs 0) ≡ some e → Stored
  unfolding insert_new insert_found
  insert_reuse e found =
      let (es', un) = lookup_free-Unlinked (length key) (length value + 1) 0 (cs 0) e found in
      let (keylen, datlen) = lookup_free-sizes (length key) (length value + 1) (cs 0) e found in
      let q = before_free (length key) (length value + 1) 0 (cs 0) in
      let st = lookup_free-Stands (length key) (length value + 1) (cs 0) (v.laid.chains 0) found in
      let (reused, s, up) =
        reuse-Inserts key value can (Searched-settle {t = slot_read} refl v) absent e es' q st un
          keylen datlen in
      let last =
        record_written key value e.off e.datoff first_on_chain
          (taken key value can (Searched-settle {t = slot_read} refl v) absent e q) in
      (
        record last { cnt_stor2 = incr last.cnt_stor2 },
        _,
        rw (
          readptr-Holds u.chainoff first_on_chain u (head-le v.laid (slot_h key)) slot_Holds,
          findfree-some rounds (length key) (length value + 1) u.chainoff slot_read (cs 0) v.locked
              chainoff_pos (head-le v.laid 0) (v.laid.heads 0 (omega arith)) (v.laid.chains 0)
              enough found st.is_record.next_le,
          reused,
        ),
        record {
          locked = s.locked;
          chainoff = s.chainoff;
          nhash = s.nhash;
          hashoff = s.hashoff;
          laid = s.laid;
          keyed = s.keyed;
        },
        up,
      )

  -- A store on a new key succeeds, whether or not a deleted record can be used again.
  pub insert_new-Inserts : Stored
  insert_new-Inserts = elim (Option-cases (lookup_free (length key) (length value + 1) (cs 0))) [
    | inl none_fits ↦ insert_append none_fits
    | inr (e, found) ↦ insert_reuse e found
  ]
