-- ===== src/Db/Delete.antt =====
-- `db_delete` of db/db.c takes a key out of the database.
use learn_apue.Base.{
  ℕ, ◌*◌, ◌≤◌, ◌<◌, ◌≡◌, sym, ap, ◌∙◌, Option, none, some, List, [], ◌∷◌, arith, length,
  if◌then◌else◌, str_eq, eq_of_str_eq, Bool-cases, Option-cases, inl, inr,
}
use learn_apue.Base.Int.{ℤ, pos, negsuc}
use learn_apue.Db.Between.{
  slot_h, Valid-settle, slot_lem, Valid-HasChain, hash-lt, Keyed-removed, view-removed,
  Keyed-put_zero, view-put_zero,
}
use learn_apue.Db.Chain.{head_to, lookup, before, passed, settle, passed-settle}
use learn_apue.Db.Found.{lookup-Unlinked}
use learn_apue.Db.Ops.{hash, slot_of, dodelete, delete, delete_found}
use learn_apue.Db.Pairs.{find-lookup}
use learn_apue.Db.Records.{Entry, Stands, loaded}
use learn_apue.Db.Remove.{deleted_idx, deleted_dat, dodelete-lem, removed_chains, removed-Laid}
use learn_apue.Db.Search.{
  started, drop_lock-own, find_and_lock-none, find_and_lock-some, lookup-Stands,
}
use learn_apue.Db.State.{Db, nhash_def, ptr_max, idxfd, drop_lock, incr, ok}
use learn_apue.Db.Unlink.{Unlinked, Unlinked-pairs, Unlinked-In}
use learn_apue.Db.Valid.{Chains, Keyed, Valid, view, put, head-le}
use mathlib.Core.Path.{subst}
use learn_apue.Db.Layout.{region}
use learn_apue.Db.Writers.{byte_lock}

-- A record that a search finds has the key.
pub lookup-key : (key : List ℕ) (es : List Entry) (e : Entry) → lookup key es ≡ some e → e.key ≡ key
unfolding lookup
lookup-key key [] e h = cc
lookup-key key (x ∷ es) e h = elim (Bool-cases (str_eq x.key key)) [
  | inl hit ↦ let same : x ≡ e = ground arith in rw same at (eq_of_str_eq x.key key hit)
  | inr miss ↦ lookup-key key es e (ground arith)
]

pub view-lookup-none :
    (cs : Chains) (key : List ℕ) → lookup key (cs (slot_h key)) ≡ none → view cs key ≡ none
unfolding view
view-lookup-none cs key e = sym (find-lookup key (cs (slot_h key))) ∙ rw e

pub view-lookup-some :
    (cs : Chains) (key : List ℕ) (e : Entry)
    → lookup key (cs (slot_h key)) ≡ some e
    → view cs key ≡ some e.value
unfolding view
view-lookup-some cs key e h = sym (find-lookup key (cs (slot_h key))) ∙ rw h

-- 0 if the key has data, else -1.
abbrev pub status : Option (List ℕ) → ℤ
status none = negsuc 0
status (some v) = pos 0

-- After a deletion the database is valid, the key has no data, and all other keys keep theirs.
pub record Deletes (key : List ℕ) (cs : Chains) (t : Db) (cs' : Chains) : Type 0 where
  pub valid : Valid t cs'
  pub views : (q : List ℕ) → view cs' q ≡ (if str_eq key q then none else view cs q)

module _ {s : Db} {cs : Chains} (rounds : ℕ) (key : List ℕ) (v : Valid s cs)
    (enough : length (cs (slot_h key)) < rounds) where
  pub own_lock : (started key s).locks ≡ byte_lock (slot_of s key) ∷ []
  own_lock = ap (λ l. byte_lock (slot_of s key) ∷ l) v.unlocked

  delete-none :
      lookup key (cs (slot_h key)) ≡ none
      → (t : Db) × (delete rounds key s ≡ ok (negsuc 0) t) × Deletes key cs t cs
  unfolding delete delete_found
  delete-none e =
      let h = Valid-HasChain key v in
      let u = passed (cs (slot_h key)) (started key s) in
      let close = λ (x : Db). record x {
        cnt_delerr = incr x.cnt_delerr;
        locks = drop_lock idxfd x.chainoff 1 x.locks;
      } in
      let after = record s { chainoff = slot_of s key; cnt_delerr = incr s.cnt_delerr } in
      let p : settle (close u) ≡ settle after =
        ap close (passed-settle (cs (slot_h key)) (started key s))
        ∙ rw (drop_lock-own idxfd (slot_of s key) 1 s.locks v.unlocked) in
      let same : Valid after cs = record {
        unlocked = v.unlocked;
        nhash = v.nhash;
        hashoff = v.hashoff;
        laid = v.laid;
        keyed = v.keyed;
      } in
      (
        close u,
        rw (find_and_lock-none rounds h enough e),
        record {
          valid = Valid-settle p same;
          views = λ q. elim (Bool-cases (str_eq key q)) [
            | inl hit ↦ rw (hit, ← eq_of_str_eq key q hit) (view-lookup-none cs key e)
            | inr miss ↦ rw miss
          ];
        },
      )

  -- The pointer that leads to the record.
  abbrev pub place : ℕ
  place = before key (slot_of s key) (cs (slot_h key))

  module _ (e : Entry) (found : lookup key (cs (slot_h key)) ≡ some e) (es' : List Entry)
      (u : Unlinked (slot_h key * 7) e (cs (slot_h key)) es' place) where
    abbrev pub j : ℕ
    j = slot_h key

    abbrev pub f : ℕ
    f = head_to 0 (cs 0)

    pub small : j < 138
    small = omega (arith, hash-lt key)

    pub high : e.off ≤ ptr_max
    high = (v.laid.beyond j (region e) (Unlinked-In v.laid j small u)).1

    pub st : Stands s.idx s.dat e
    st = lookup-Stands key (cs j) (v.laid.chains j) found

    pub pos_slot : 1 ≤ slot_of s key
    pos_slot = rw (slot_lem key v) (omega arith)

    -- `_db_dodelete` in the state in which the search has found the record.
    pub dodelete_found :
        (t : Db) × (dodelete (record (loaded e (started key s)) { ptroff = place }) ≡ ok tt t)
        × (settle t
            ≡ settle (record (started key s) {
              idx = deleted_idx s.idx e f place;
              dat = deleted_dat s.dat e f;
            }))
        × (t.ptrval ≡ pos f)
    dodelete_found =
        dodelete-lem (started key s) e place f (slot_of s key) own_lock pos_slot st.is_record high
          (head-le v.laid 0) (v.laid.heads 0 (omega arith))

    pub keyed_removed : Keyed (removed_chains j e es' cs)
    keyed_removed =
        Keyed-put_zero _ (Keyed-removed v.keyed (hash nhash_def key) es' (Unlinked-pairs u))

    pub views_removed :
        (q : List ℕ)
        → view (removed_chains j e es' cs) q ≡ (if str_eq key q then none else view cs q)
    views_removed q =
        let k = lookup-key key (cs j) e found in
        view-put_zero (put j es' cs) _ q
        ∙ view-removed v.keyed (hash nhash_def key) es' (Unlinked-pairs u) (ap (hash nhash_def) k) q
        ∙ ap (λ (x : List ℕ). if str_eq x q then none else view cs q) k

    delete-some :
        (t : Db) × (delete rounds key s ≡ ok (pos 0) t)
        × Deletes key cs t (removed_chains j e es' cs)
    unfolding delete delete_found
    delete-some =
        let (t, run, same, _) = dodelete_found in
        let close = λ (x : Db). record x {
          cnt_delok = incr x.cnt_delok;
          locks = drop_lock idxfd x.chainoff 1 x.locks;
        } in
        let after = record s {
          idx = deleted_idx s.idx e f place;
          dat = deleted_dat s.dat e f;
          chainoff = slot_of s key;
          cnt_delok = incr s.cnt_delok;
        } in
        let p : settle (close t) ≡ settle after =
          ap close same ∙ rw (drop_lock-own idxfd (slot_of s key) 1 s.locks v.unlocked) in
        let valid : Valid after (removed_chains j e es' cs) = record {
          unlocked = v.unlocked;
          nhash = v.nhash;
          hashoff = v.hashoff;
          laid = removed-Laid v.laid j (omega arith) small e es' place st u;
          keyed = keyed_removed;
        } in
        (
          close t,
          rw (find_and_lock-some rounds (Valid-HasChain key v) enough found, run),
          record { valid = Valid-settle p valid; views = views_removed },
        )

  -- In a valid database, with more rounds than the hash chain of the key has records, a deletion
  -- returns 0 if the key has data and else -1; it leaves a valid database in which the key has no
  -- data and every other key has what it had.
  pub delete-Deletes :
      (t : Db) × (cs' : Chains) × (delete rounds key s ≡ ok (status (view cs key)) t)
      × Deletes key cs t cs'
  delete-Deletes = elim (Option-cases (lookup key (cs (slot_h key)))) [
    | inl e ↦ let (t, run, d) = delete-none e in (t, cs, rw (view-lookup-none cs key e) run, d)
    | inr (e, found) ↦
        let (es', u) = lookup-Unlinked key (slot_of s key) (cs (slot_h key)) e found in
        let u' = subst (λ p. Unlinked p e (cs (slot_h key)) es' place) (slot_lem key v) u in
        let (t, run, d) = delete-some e found es' u' in
        (t, removed_chains (slot_h key) e es' cs, rw (view-lookup-some cs key e found) run, d)
  ]
