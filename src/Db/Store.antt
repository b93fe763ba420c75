-- ===== src/Db/Store.antt =====
-- `db_store` of db/db.c on every flag.
use learn_apue.Base.{
  ℕ, ◌+◌, ◌≤◌, ◌<◌, ◌≡◌, Bool, true, false, none, some, List, arith, length, ltb, le→ltb,
  Option-cases, inl, inr,
}
use learn_apue.Base.Int.{negsuc}
use learn_apue.Db.Append.{Storable}
use learn_apue.Db.Between.{slot_h, Valid-HasChain}
use learn_apue.Db.Branches.{
  Branch, Stores, store_code, end_state, found_state, missing, existing, unlocked-Valid,
}
use learn_apue.Db.Chain.{lookup}
use learn_apue.Db.Ops.{store, store_choice, store_flag, flag_of, Flag, find_and_lock, einval}
use learn_apue.Db.Search.{find_and_lock-none, find_and_lock-some}
use learn_apue.Db.State.{Db, ptr_max, idxfd, drop_lock, ok}
use learn_apue.Db.Valid.{Chains, Valid, view}
use learn_apue.Db.Writers.{Fits}

module _ {s : Db} {cs : Chains} (rounds : ℕ) (key value : List ℕ) (v : Valid s cs)
    (can : Storable key value) (enough : length (cs (slot_h key)) < rounds)
    (enough_free : length (cs 0) < rounds) (room : length s.idx ≤ ptr_max)
    (fits : Fits key (length s.dat) (length value + 1)) where
  closing :
      (f : Flag) (found : Bool) (u : Db)
      → find_and_lock rounds key s ≡ ok found u
      → Branch rounds key value v can enough enough_free room fits f found u
      → (t : Db) × (cs' : Chains) × (store_flag rounds key value f s
          ≡ ok (store_code f (view cs key)) t)
        × Stores f key value cs t cs'
  unfolding store_flag
  closing f found u located (t, cs', run, w, views) =
      let low : ltb (length value + 1) 2 ≡ false =
        le→ltb (length value + 1) 2 (omega (arith, can.value_ge)) in
      let high : ltb 1024 (length value + 1) ≡ false =
        le→ltb 1024 (length value + 1) can.value_le in
      (
        record t { locks = drop_lock idxfd t.chainoff 1 t.locks },
        cs',
        rw (low, high, located, run),
        record { valid = unlocked-Valid w; views = views },
      )

  -- In a valid database, with more rounds than the hash chain of the key and the free list have
  -- records, an index file that is not too long and a known flag, a store of data that is neither
  -- empty nor too long, without null bytes, under a key without null byte and separator whose index
  -- record fits, returns 0, or 1 for an insertion of a key that has data, or -1 for a replacement
  -- of one that has none; the database stays valid, the key then has the new data if the store
  -- writes, and every other key has what it had.
  pub store-Stores :
      (n : ℕ) (f : Flag)
      → flag_of n ≡ some f
      → (t : Db) × (cs' : Chains) × (store rounds key value n s ≡ ok (store_code f (view cs key)) t)
        × Stores f key value cs t cs'
  unfolding store store_choice
  store-Stores n f is =
      let h = Valid-HasChain key v in
      elim (Option-cases (lookup key (cs (slot_h key)))) [
        | inl e ↦ rw is (
            closing f false (end_state rounds key value v can enough enough_free room fits)
              (find_and_lock-none rounds h enough e)
              (missing rounds key value v can enough enough_free room fits f e))
        | inr (e, found) ↦ rw is (
            closing f true (found_state rounds key value v can enough enough_free room fits e found)
              (find_and_lock-some rounds h enough found)
              (existing rounds key value v can enough enough_free room fits e found f))
      ]

-- A store with an unknown flag returns -1 with `errno` at EINVAL, and changes nothing else.
store-unknown_flag :
    (rounds : ℕ) (key value : List ℕ) (n : ℕ) (s : Db)
    → flag_of n ≡ none
    → store rounds key value n s ≡ ok (negsuc 0) (record s { errno = einval })
unfolding store store_choice
store-unknown_flag rounds key value n s e = rw e
