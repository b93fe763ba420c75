-- ===== src/Db/Search.antt =====
-- `_db_find_and_lock` and `db_fetch` of db/db.c on a chain.
use learn_apue.Base.{
  ℕ, ◌+◌, ◌≤◌, ◌<◌, ◌≡◌, refl, ap, ◌∙◌, true, false, Option, none, some, List, [], ◌∷◌, arith,
  length, ==_refl, Option-cases, Bool-cases, str_eq, inl, inr,
}
use learn_apue.Bytes.Decimal.{pad}
use learn_apue.Bytes.File.{Holds}
use learn_apue.Db.Chain.{
  head_to, Chain, lookup, before, passed, settle, passed-settle, find_loop-none, find_loop-some,
}
use learn_apue.Db.Ops.{find_and_lock, slot_of, fetch, fetch_found}
use learn_apue.Db.Records.{Entry, Stands, loaded, readptr-Holds, readdat-Holds}
use learn_apue.Db.State.{Db, Fd, idxfd, datfd, Lock, drop_lock, incr, ok, ptr_max}
use mathlib.Core.Option

-- No lock is held, and the pointer for the key leads to the chain.
pub record HasChain (s : Db) (key : List ℕ) (es : List Entry) : Type 0 where
  pub unlocked : s.locks ≡ []
  pub head_le : head_to 0 es ≤ ptr_max
  pub pointer : Holds s.idx (slot_of s key) (pad 7 (head_to 0 es))
  pub chain : Chain s.idx s.dat es

-- The state with the chain of the key locked, and that in which the search begins.
abbrev pub armed : List ℕ → Db → Db
armed key s = record s {
  chainoff = slot_of s key;
  ptroff = slot_of s key;
  locks = record { fd = idxfd; start = slot_of s key; len = 1 } ∷ s.locks;
}

abbrev pub started : List ℕ → Db → Db
started key s = record (armed key s) { idx_pos = slot_of s key + 7 }

-- A lock that is the only one is dropped.
pub drop_lock-own :
    (fd : Fd) (a n : ℕ) (ls : List Lock)
    → ls ≡ []
    → drop_lock fd a n (record { fd = fd; start = a; len = n } ∷ ls) ≡ ls
unfolding drop_lock
drop_lock-own idxfd a n ls e = rw (e, ==_refl a, ==_refl n)
drop_lock-own datfd a n ls e = rw (e, ==_refl a, ==_refl n)

module _ {s : Db} {key : List ℕ} {es : List Entry} (rounds : ℕ) (h : HasChain s key es)
    (enough : length es < rounds) where
  pub find_and_lock-none :
      lookup key es ≡ none → find_and_lock rounds key s ≡ ok false (passed es (started key s))
  unfolding find_and_lock
  find_and_lock-none e =
      rw (readptr-Holds (slot_of s key) (head_to 0 es) (armed key s) h.head_le h.pointer)
        (find_loop-none rounds key es (started key s) h.chain enough e)

  pub find_and_lock-some :
      {e : Entry}
      → lookup key es ≡ some e
      → find_and_lock rounds key s
        ≡ ok true (record (loaded e (started key s)) { ptroff = before key (slot_of s key) es })
  unfolding find_and_lock
  find_and_lock-some {e} found =
      rw (readptr-Holds (slot_of s key) (head_to 0 es) (armed key s) h.head_le h.pointer)
        (find_loop-some rounds key es e (started key s) h.chain enough found)

-- The record that a search finds stands in the files, under the key.
pub lookup-Stands :
    {i d : List ℕ} (key : List ℕ) (es : List Entry) {e : Entry}
    → Chain i d es
    → lookup key es ≡ some e
    → Stands i d e
unfolding lookup
lookup-Stands key [] c found = cc
lookup-Stands {i} {d} key (x ∷ es) {e} c found = elim (Bool-cases (str_eq x.key key)) [
  | inl hit ↦ let same : x ≡ e = ground arith in rw same at c.0
  | inr miss ↦ lookup-Stands key es c.2 (ground arith)
]

-- What `db_fetch` changes, but for the fields that a search leaves behind.
abbrev pub fetched : List ℕ → Option Entry → Db → Db
fetched key none s = record s { chainoff = slot_of s key; cnt_fetcherr = incr s.cnt_fetcherr }
fetched key (some e) s = record s { chainoff = slot_of s key; cnt_fetchok = incr s.cnt_fetchok }

module _ {s : Db} {key : List ℕ} {es : List Entry} (rounds : ℕ) (h : HasChain s key es)
    (enough : length es < rounds) where
  fetch-none :
      lookup key es ≡ none
      → (t : Db) × (fetch rounds key s ≡ ok none t) × (settle t ≡ settle (fetched key none s))
  unfolding fetch fetch_found
  fetch-none e =
      let t = passed es (started key s) in
      let close = λ (x : Db). record x {
        cnt_fetcherr = incr x.cnt_fetcherr;
        locks = drop_lock idxfd x.chainoff 1 x.locks;
      } in
      let p : close (settle t) ≡ settle (fetched key none s) =
        ap close (passed-settle es (started key s))
        ∙ rw (drop_lock-own idxfd (slot_of s key) 1 s.locks h.unlocked) in
      (close t, rw (find_and_lock-none rounds h enough e), p)

  fetch-some :
      {e : Entry}
      → lookup key es ≡ some e
      → (t : Db) × (fetch rounds key s ≡ ok (some e.value) t)
        × (settle t ≡ settle (fetched key (some e) s))
  unfolding fetch fetch_found
  fetch-some {e} found =
      let u = record (loaded e (started key s)) { ptroff = before key (slot_of s key) es } in
      let st = lookup-Stands key es h.chain found in
      let close = λ (x : Db). record x {
        cnt_fetchok = incr x.cnt_fetchok;
        locks = drop_lock idxfd x.chainoff 1 x.locks;
      } in
      let p : settle (close u) ≡ settle (fetched key (some e) s) =
        rw (drop_lock-own idxfd (slot_of s key) 1 s.locks h.unlocked) in
      (
        close (record u { datbuf = e.value }),
        rw (
          find_and_lock-some rounds h enough found,
          readdat-Holds e u st.is_record.clean st.dat refl refl,
        ),
        p,
      )

  -- Once the chain of a key is known, a fetch returns the data of the first record under the key or
  -- nothing; but for what a search leaves behind it changes one counter and the chain's place.
  pub fetch-lookup :
      (t : Db) × (fetch rounds key s ≡ ok (Option.map (λ (e : Entry). e.value) (lookup key es)) t)
      × (settle t ≡ settle (fetched key (lookup key es) s))
  fetch-lookup = elim (Option-cases (lookup key es)) [
    | inl e ↦ rw e (fetch-none e)
    | inr (e, found) ↦ rw found (fetch-some found)
  ]
