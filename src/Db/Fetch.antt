-- ===== src/Db/Fetch.antt =====
-- `db_fetch` of db/db.c in a valid database.
use learn_apue.Base.{
  ℕ, ◌<◌, ◌≡◌, refl, sym, ap, ◌∙◌, Option, none, some, List, length, Option-cases, inl, inr,
}
use learn_apue.Db.Between.{slot_h, Valid-settle, Valid-HasChain}
use learn_apue.Db.Chain.{lookup}
use learn_apue.Db.Delete.{view-lookup-none, view-lookup-some}
use learn_apue.Db.Ops.{fetch}
use learn_apue.Db.Records.{Entry}
use learn_apue.Db.Search.{fetched, fetch-lookup}
use learn_apue.Db.State.{Db, ok}
use learn_apue.Db.Valid.{Chains, Valid, view}
use mathlib.Core.Option

lookup-view :
    (cs : Chains) (key : List ℕ)
    → Option.map (λ (e : Entry). e.value) (lookup key (cs (slot_h key))) ≡ view cs key
lookup-view cs key = elim (Option-cases (lookup key (cs (slot_h key)))) [
  | inl e ↦ rw e (sym (view-lookup-none cs key e))
  | inr (e, found) ↦ rw found (sym (view-lookup-some cs key e found))
]

fetched-Valid :
    {s : Db} {cs : Chains} (key : List ℕ) (o : Option Entry)
    → Valid s cs
    → Valid (fetched key o s) cs
fetched-Valid key none v = record {
  unlocked = v.unlocked;
  nhash = v.nhash;
  hashoff = v.hashoff;
  laid = v.laid;
  keyed = v.keyed;
}
fetched-Valid key (some e) v = record {
  unlocked = v.unlocked;
  nhash = v.nhash;
  hashoff = v.hashoff;
  laid = v.laid;
  keyed = v.keyed;
}

fetched-files :
    (key : List ℕ) (o : Option Entry) (s : Db)
    → ((fetched key o s).idx ≡ s.idx) × ((fetched key o s).dat ≡ s.dat)
fetched-files key none s = (refl, refl)
fetched-files key (some e) s = (refl, refl)

-- In a valid database, with more rounds than the hash chain of the key has records, a fetch returns
-- the data of the key, or nothing if it has none; it changes neither file and leaves a valid
-- database with the same chains.
pub fetch-view :
    {s : Db} {cs : Chains} (rounds : ℕ) (key : List ℕ)
    → Valid s cs
    → length (cs (slot_h key)) < rounds
    → (t : Db) × (fetch rounds key s ≡ ok (view cs key) t)
      × Valid t cs
      × (t.idx ≡ s.idx)
      × (t.dat ≡ s.dat)
fetch-view {s} {cs} rounds key v enough =
    let (t, run, same) = fetch-lookup rounds (Valid-HasChain key v) enough in
    let o = lookup key (cs (slot_h key)) in
    let (i, d) = fetched-files key o s in
    (
      t,
      run ∙ ap (λ x. ok x t) (lookup-view cs key),
      Valid-settle same (fetched-Valid key o v),
      ap (λ (x : Db). x.idx) same ∙ i,
      ap (λ (x : Db). x.dat) same ∙ d,
    )
