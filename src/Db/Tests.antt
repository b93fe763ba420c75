-- ===== src/Db/Tests.antt =====
-- Runs of the library on small databases, and its theorems at concrete databases.
use mathlib.Core.Option
use learn_apue.Base.Int.{pos}
use learn_apue.Db.Reread.{reread, readidx-writeidx}
use learn_apue.Base.{ℕ, ◌*◌, ◌≤◌, ◌<◌, ◌≡◌, refl, true, none, some, List, [], ◌∷◌, length, arith}
use learn_apue.Bytes.Decimal.{print}
use learn_apue.Db.Append.{Storable, record_written, new_entry}
use learn_apue.Db.Between.{slot_h, hash-lt}
use learn_apue.Db.Branches.{Stores, store_code}
use learn_apue.Db.Delete.{Deletes, status, delete-Deletes}
use learn_apue.Db.Disk.{seek_set, index_line, readidx, writeidx}
use learn_apue.Db.Fetch.{fetch-view}
use learn_apue.Db.Fresh.{no_chains, fresh, fresh-Valid, length-fresh, open_db-fresh}
use learn_apue.Db.Insertion.{Searched, append-Inserts}
use learn_apue.Db.Chain.{ChainTo}
use learn_apue.Db.Next.{Consecutive, first_live, behind_live, nextrec-first_live}
use learn_apue.Db.Records.{Entry, Stands, length-index_record, length-pad7}
use learn_apue.Db.Open.{open_db, alloc}
use learn_apue.Db.Ops.{fetch, store, delete, nextrec, db_store, flag_of}
use learn_apue.Db.Pairs.{payload, find}
use learn_apue.Db.State.{Db, ok}
use learn_apue.Db.Store.{store-Stores}
use learn_apue.Db.Valid.{Chains, Valid, view, put, put_self}
use learn_apue.Bytes.File.{length-write_at}
use learn_apue.Db.Writers.{byte_lock, Fits, index_written}

abbrev key_a : List ℕ
key_a = b'a' ∷ []

abbrev two_bytes : List ℕ
two_bytes = b'x' ∷ b'y' ∷ []

a-Storable : Storable key_a two_bytes
a-Storable = record {
  is_key = record { no_null = (refl, tt); no_sep = (refl, tt) };
  clean = (refl, (refl, tt));
  value_ge = omega arith;
  value_le = omega arith;
}

abbrev locked : Db
locked = record fresh { chainoff = slot_h key_a * 7; locks = byte_lock (slot_h key_a * 7) ∷ [] }

locked-Searched : Searched locked key_a no_chains
locked-Searched =
    let v = fresh-Valid in
    record {
      locked = refl;
      chainoff = refl;
      nhash = v.nhash;
      hashoff = v.hashoff;
      laid = v.laid;
      keyed = v.keyed;
    }

a_fits : Fits key_a 0 3
unfolding index_line print
a_fits = (omega arith, omega arith)

open_db-fresh_example :
    (open_db true true (record { idx_file = some (1 ∷ []); dat_file = none })
      ≡ (record { idx_file = some []; dat_file = some [] }, some (ok tt fresh)))
    × Valid fresh no_chains
    × ((key : List ℕ) → view no_chains key ≡ none)
open_db-fresh_example = open_db-fresh (record { idx_file = some (1 ∷ []); dat_file = none })

-- A database with the data `xy` under the key `a`.
abbrev filled : Db
filled = record_written key_a two_bytes (length fresh.idx) 0 0 locked

abbrev one_db : Db
one_db = record filled { locks = [] }

abbrev one : Chains
one = put (slot_h key_a) (new_entry key_a two_bytes (length fresh.idx) 0 0 ∷ []) no_chains

room : length fresh.idx ≤ 9999999
room = rw length-fresh (omega arith)

one-Valid : Valid one_db one
unfolding find alloc
one-Valid =
    let (_, (w, _)) =
      append-Inserts 1 key_a two_bytes a-Storable locked-Searched refl room a_fits in
    record { unlocked = refl; nhash = w.nhash; hashoff = w.hashoff; laid = w.laid; keyed = w.keyed }

one_short : length (one (slot_h key_a)) < 5
one_short = rw (put_self (slot_h key_a) _ no_chains) (omega arith)

fetch-view_example :
    (t : Db) × (fetch 5 key_a one_db ≡ ok (view one key_a) t)
    × Valid t one
    × (t.idx ≡ one_db.idx)
    × (t.dat ≡ one_db.dat)
fetch-view_example = fetch-view 5 key_a one-Valid one_short

delete-Deletes_example :
    (t : Db) × (cs' : Chains) × (delete 5 key_a one_db ≡ ok (status (view one key_a)) t)
    × Deletes key_a one t cs'
delete-Deletes_example = delete-Deletes 5 key_a one-Valid one_short

store-Stores_example :
    (t : Db) × (cs' : Chains) × (store 5 key_a two_bytes 3 fresh
      ≡ ok (store_code db_store (view no_chains key_a)) t)
    × Stores db_store key_a two_bytes no_chains t cs'
unfolding alloc flag_of
store-Stores_example =
    store-Stores 5 key_a two_bytes fresh-Valid a-Storable (omega arith) (omega arith) room a_fits 3
      db_store refl

-- The database with the file offset at its one record.
abbrev rewound : Db
rewound = record one_db { idx_pos = length fresh.idx }

abbrev record_a : Entry
record_a = new_entry key_a two_bytes (length fresh.idx) 0 0

a_Stands : Stands one_db.idx one_db.dat record_a
a_Stands =
    let c : ChainTo one_db.idx one_db.dat 0 (record_a ∷ []) =
      rw (put_self (slot_h key_a) (record_a ∷ []) no_chains) at
        (one-Valid.laid.chains (slot_h key_a)) in
    c.0

one-Consecutive : Consecutive rewound.idx rewound.dat rewound.idx_pos (record_a ∷ [])
one-Consecutive = (
  refl,
  a_Stands,
  rw (length-write_at, length-write_at)
      (omega (
        arith,
        length-index_record record_a a_Stands.is_record,
        length-pad7 (length fresh.idx) room,
        hash-lt key_a,
        length-fresh,
      )),
)

nextrec-first_live_example :
    (t : Db) × (nextrec 5 rewound ≡ ok (Option.map payload (first_live (record_a ∷ []))) t)
    × (t.idx ≡ rewound.idx)
    × (t.dat ≡ rewound.dat)
    × (t.locks ≡ [])
    × Consecutive t.idx t.dat t.idx_pos (behind_live (record_a ∷ []))
nextrec-first_live_example =
    nextrec-first_live 5 (record_a ∷ []) rewound one-Consecutive (omega arith) refl

-- Data of three bytes at the offset 17, for which an index record is to be written.
abbrev data_at_17 : Db
data_at_17 = record fresh { datoff = 17; datlen = 3 }

a_at_17_fits : Fits key_a 17 3
unfolding index_line print
a_at_17_fits = (omega arith, omega arith)

readidx-writeidx_example :
    (writeidx key_a 2000 seek_set (pos 40) data_at_17
      ≡ ok tt (index_written key_a 2000 40 data_at_17))
    × (readidx (pos 2000) (index_written key_a 2000 40 data_at_17)
        ≡ ok (pos 40) (reread key_a 2000 40 (index_written key_a 2000 40 data_at_17)))
readidx-writeidx_example =
    readidx-writeidx key_a 2000 40 data_at_17 a-Storable.is_key (omega arith) (omega arith)
      (omega arith) (omega arith) a_at_17_fits
