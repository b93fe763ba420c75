-- ===== src/Db/Insertion.antt =====
-- The branches of `db_store` in db/db.c that add a record, in a state in which the chain of the key
-- has been searched and is locked.
use learn_apue.Base.{
  ℕ, ◌+◌, ◌*◌, ◌≤◌, ◌≡◌, refl, sym, none, some, List, [], ◌∷◌, arith, length, if◌then◌else◌, str_eq,
}
use learn_apue.Base.Int.{pos}
use learn_apue.Db.Append.{
  Storable, record_written, append_record-lem, new_entry, added-Laid, IsFree-end,
}
use learn_apue.Db.Between.{slot_h, added, Keyed-added, view-added}
use learn_apue.Db.Chain.{head_to, settle}
use learn_apue.Db.Layout.{region}
use learn_apue.Db.Ops.{append_record}
use learn_apue.Db.Pairs.{pairs, find}
use learn_apue.Db.State.{Db, ok, ptr_max, nhash_def, hash_off}
use learn_apue.Db.Valid.{Chains, Laid, Keyed, view, head-le}
use learn_apue.Db.Writers.{byte_lock, Fits}
use mathlib.Core.Path.{subst}

-- The chain of the key has been searched and is locked.
pub record Searched (u : Db) (key : List ℕ) (cs : Chains) : Type 0 where
  pub locked : u.locks ≡ byte_lock u.chainoff ∷ []
  pub chainoff : u.chainoff ≡ slot_h key * 7
  pub nhash : u.nhash ≡ nhash_def
  pub hashoff : u.hashoff ≡ hash_off
  pub laid : Laid u.idx u.dat cs
  pub keyed : Keyed cs

to_settle : {u : Db} {key : List ℕ} {cs : Chains} → Searched u key cs → Searched (settle u) key cs
to_settle v = record {
  locked = v.locked;
  chainoff = v.chainoff;
  nhash = v.nhash;
  hashoff = v.hashoff;
  laid = v.laid;
  keyed = v.keyed;
}

from_settle : {u : Db} {key : List ℕ} {cs : Chains} → Searched (settle u) key cs → Searched u key cs
from_settle v = record {
  locked = v.locked;
  chainoff = v.chainoff;
  nhash = v.nhash;
  hashoff = v.hashoff;
  laid = v.laid;
  keyed = v.keyed;
}

pub Searched-settle :
    {u t : Db} {key : List ℕ} {cs : Chains}
    → settle t ≡ settle u
    → Searched u key cs
    → Searched t key cs
Searched-settle {u} {t} {key} {cs} e v =
    from_settle (subst (λ (x : Db). Searched x key cs) (sym e) (to_settle v))

-- The key has the data, all other keys have what they had.
abbrev pub Updates : List ℕ → List ℕ → Chains → Chains → Type 0
Updates key value cs cs' =
    (q : List ℕ) → view cs' q ≡ (if str_eq key q then some value else view cs q)

module _ (rounds : ℕ) (key value : List ℕ) (can : Storable key value) where
  -- What an insertion achieves.
  abbrev pub Inserts : Db → Chains → Db → Chains → Type 0
  Inserts u cs t cs' = Searched t key cs' × Updates key value cs cs'

  module _ {u : Db} {cs : Chains} (v : Searched u key cs)
      (absent : find key (pairs (cs (slot_h key))) ≡ none) where
    abbrev n : ℕ
    n = head_to 0 (cs (slot_h key))

    slot_pos : 1 ≤ u.chainoff
    slot_pos = omega (arith, v.chainoff)

    -- The new record at the ends of the files.
    pub append-Inserts :
        length u.idx ≤ ptr_max
        → Fits key (length u.dat) (length value + 1)
        → append_record key value (pos n) u
            ≡ ok tt (record_written key value (length u.idx) (length u.dat) n u)
          × Inserts u cs
              (record_written key value (length u.idx) (length u.dat) n u)
              (added v.keyed (new_entry key value (length u.idx) (length u.dat) n) absent)
    append-Inserts room fits =
        let e = new_entry key value (length u.idx) (length u.dat) n in
        let l = v.laid in
        let low = l.table in
        let laid =
          added-Laid l v.keyed key value (length u.idx) (length u.dat) can fits absent low room
            (IsFree-end l (region e) refl refl) in
        (
          append_record-lem key value n u.chainoff u v.locked (head-le l (slot_h key)) room fits,
          (
            record {
              locked = v.locked;
              chainoff = v.chainoff;
              nhash = v.nhash;
              hashoff = v.hashoff;
              laid = rw v.chainoff laid;
              keyed = Keyed-added v.keyed e absent;
            },
            view-added v.keyed e absent,
          ),
        )
