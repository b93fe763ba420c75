-- ===== src/Db/Branches.antt =====
-- The branches of `db_store` of db/db.c in a valid database.
use learn_apue.Base.{
  ℕ, ◌+◌, ◌*◌, ◌≤◌, ◌<◌, ◌≡◌, refl, sym, ap, ◌∙◌, Bool, true, false, ◌&&◌, Option, none, some, List,
  [], arith, length, ◌==◌, if◌then◌else◌, str_eq, str_eq_refl, Bool-cases, inl, inr,
}
use learn_apue.Base.Int.{ℤ, pos, negsuc}
use learn_apue.Bytes.Decimal.{pad}
use learn_apue.Bytes.File.{Holds}
use learn_apue.Db.Append.{Storable, record_written}
use learn_apue.Db.Between.{slot_h, hash-lt, slot_lem}
use learn_apue.Db.Chain.{head_to, lookup, passed, passed-settle}
use learn_apue.Db.Delete.{
  own_lock, place, dodelete_found, keyed_removed, views_removed, small, st, lookup-key,
  view-lookup-none, view-lookup-some,
}
use learn_apue.Db.Found.{lookup-Unlinked}
use learn_apue.Db.Insertion.{Searched, Searched-settle, Updates, append-Inserts}
use learn_apue.Db.Ops.{
  hash, slot_of, store_found, Flag, db_insert, db_replace, db_store, insert_new, replace_old,
  enoent,
}
use learn_apue.Db.Overwrite.{
  lookup-split, revalued-Laid, revalued_chains, Keyed-revalued, view-revalued,
}
use learn_apue.Db.Pairs.{pairs, find, find-lookup}
use learn_apue.Db.Records.{Entry, loaded, readptr-Holds}
use learn_apue.Db.Remove.{deleted_idx, deleted_dat, removed_chains, removed-Laid, length-deleted}
use learn_apue.Db.Reuse.{insert_new-Inserts}
use learn_apue.Db.Search.{started, drop_lock-own}
use learn_apue.Db.State.{Db, nhash_def, ptr_max, idxfd, drop_lock, incr, ok}
use learn_apue.Db.Unlink.{Unlinked}
use learn_apue.Db.Valid.{Chains, Valid, view, head-le}
use learn_apue.Db.Writers.{Fits, data_written, writedat-set}
use mathlib.Core.Path.{subst}

-- What `db_store` returns, and whether it writes, by the flag and the data under the key before.
unfoldable pub store_code : Flag → Option (List ℕ) → ℤ
store_code db_insert (some v) = pos 1
store_code db_replace none = negsuc 0
store_code f o = pos 0

unfoldable pub store_writes : Flag → Option (List ℕ) → Bool
store_writes db_insert (some v) = false
store_writes db_replace none = false
store_writes f o = true

-- The database after the store.
pub record Stores (f : Flag) (key value : List ℕ) (cs : Chains) (t : Db) (cs' : Chains)
    : Type 0 where
  pub valid : Valid t cs'
  pub views :
      (q : List ℕ)
      → view cs' q
        ≡ (if store_writes f (view cs key) && str_eq key q then some value else view cs q)

pub unlocked-Valid :
    {t : Db} {key : List ℕ} {cs : Chains}
    → Searched t key cs
    → Valid (record t { locks = drop_lock idxfd t.chainoff 1 t.locks }) cs
unlocked-Valid {t} v = record {
  unlocked = ap (drop_lock idxfd t.chainoff 1) v.locked ∙ drop_lock-own idxfd t.chainoff 1 [] refl;
  nhash = v.nhash;
  hashoff = v.hashoff;
  laid = v.laid;
  keyed = v.keyed;
}

module _ {s : Db} {cs : Chains} (rounds : ℕ) (key value : List ℕ) (v : Valid s cs)
    (can : Storable key value) (enough : length (cs (slot_h key)) < rounds)
    (enough_free : length (cs 0) < rounds) (room : length s.idx ≤ ptr_max)
    (fits : Fits key (length s.dat) (length value + 1)) where
  pub started-Searched : Searched (started key s) key cs
  started-Searched = record {
    locked = own_lock rounds key v enough;
    chainoff = slot_lem key v;
    nhash = v.nhash;
    hashoff = v.hashoff;
    laid = v.laid;
    keyed = v.keyed;
  }

  -- The branch that the flag and the search choose, in the state that the search leaves.
  abbrev pub Branch : Flag → Bool → Db → Type 0
  Branch f found u =
      (t : Db) × (cs' : Chains) × (store_found rounds key value f found u
        ≡ ok (store_code f (view cs key)) t)
      × Searched t key cs'
      × ((q : List ℕ)
          → view cs' q
            ≡ (if store_writes f (view cs key) && str_eq key q then some value else view cs q))

  abbrev pub end_state : Db
  end_state = passed (cs (slot_h key)) (started key s)

  missing-Searched : Searched end_state key cs
  missing-Searched =
      Searched-settle (passed-settle (cs (slot_h key)) (started key s)) started-Searched

  missing_new :
      lookup key (cs (slot_h key)) ≡ none
      → (t : Db) × (cs' : Chains) × (insert_new rounds key value end_state ≡ ok (pos 0) t)
        × Searched t key cs'
        × Updates key value cs cs'
  missing_new e =
      let same = passed-settle (cs (slot_h key)) (started key s) in
      let absent : find key (pairs (cs (slot_h key))) ≡ none =
        sym (find-lookup key (cs (slot_h key))) ∙ rw e in
      let idx : end_state.idx ≡ s.idx = ap (λ (x : Db). x.idx) same in
      let dat : end_state.dat ≡ s.dat = ap (λ (x : Db). x.dat) same in
      insert_new-Inserts rounds key value can missing-Searched absent (rw idx room) (rw dat fits)
        enough_free

  pub missing : (f : Flag) → lookup key (cs (slot_h key)) ≡ none → Branch f false end_state
  unfolding store_found store_code store_writes
  missing db_replace e =
      let nothing = view-lookup-none cs key e in
      let w = missing-Searched in
      (
        record end_state { cnt_storerr = incr end_state.cnt_storerr; errno = enoent },
        cs,
        rw nothing,
        record {
          locked = w.locked;
          chainoff = w.chainoff;
          nhash = w.nhash;
          hashoff = w.hashoff;
          laid = w.laid;
          keyed = w.keyed;
        },
        λ q. rw nothing,
      )
  missing db_insert e =
      let nothing = view-lookup-none cs key e in
      let (t, cs', run, w, up) = missing_new e in
      (t, cs', rw nothing run, w, λ q. rw nothing (up q))
  missing db_store e =
      let nothing = view-lookup-none cs key e in
      let (t, cs', run, w, up) = missing_new e in (t, cs', run, w, up)

  module _ (e : Entry) (found : lookup key (cs (slot_h key)) ≡ some e) where
    -- The state in which the search has found the record.
    abbrev pub found_state : Db
    found_state = record (loaded e (started key s)) { ptroff = place rounds key v enough }

    found-Searched : Searched found_state key cs
    found-Searched =
        let w = started-Searched in
        record {
          locked = w.locked;
          chainoff = w.chainoff;
          nhash = w.nhash;
          hashoff = w.hashoff;
          laid = w.laid;
          keyed = w.keyed;
        }

    -- Data of the same length is written over the old.
    same_length :
        (length value + 1 == length e.value + 1) ≡ true
        → (t : Db) × (cs' : Chains) × (replace_old key value true found_state ≡ ok (pos 0) t)
          × Searched t key cs'
          × Updates key value cs cs'
    unfolding replace_old
    same_length eq =
        let w = found-Searched in
        let (init, post, is, before_none) = lookup-split key (cs (slot_h key)) e found in
        let len : length value ≡ length e.value = ground arith in
        let k = lookup-key key (cs (slot_h key)) e found in
        let written = data_written value e.datoff found_state in
        let views =
          view-revalued v.keyed (hash nhash_def key) e value init post is (ap (hash nhash_def) k)
            (rw k before_none) in
        (
          record written { cnt_stor4 = incr written.cnt_stor4 },
          revalued_chains v.keyed (hash nhash_def key) e value init post is,
          rw (writedat-set value e.datoff found_state),
          record {
            locked = w.locked;
            chainoff = w.chainoff;
            nhash = w.nhash;
            hashoff = w.hashoff;
            laid = revalued-Laid e value len init post v.laid (slot_h key) is can.clean;
            keyed = Keyed-revalued v.keyed (hash nhash_def key) e value init post is;
          },
          λ q. views q ∙ ap (λ (x : List ℕ). if str_eq x q then some value else view cs q) k,
        )

    module _ (es' : List Entry)
        (u : Unlinked (slot_h key * 7) e (cs (slot_h key)) es' (place rounds key v enough)) where
      abbrev gone : Chains
      gone = removed_chains (slot_h key) e es' cs

      abbrev deleted : Db
      deleted = record (started key s) {
        idx = deleted_idx s.idx e (head_to 0 (cs 0)) (place rounds key v enough);
        dat = deleted_dat s.dat e (head_to 0 (cs 0));
      }

      deleted-Searched : Searched deleted key gone
      deleted-Searched =
          let w = started-Searched in
          record {
            locked = w.locked;
            chainoff = w.chainoff;
            nhash = w.nhash;
            hashoff = w.hashoff;
            laid =
                removed-Laid v.laid (slot_h key) (omega arith)
                  (small rounds key v enough e found es' u) e es' (place rounds key v enough)
                  (st rounds key v enough e found es' u) u;
            keyed = keyed_removed rounds key v enough e found es' u;
          }

      gone_absent : find key (pairs (gone (slot_h key))) ≡ none
      unfolding view
      gone_absent = views_removed rounds key v enough e found es' u key ∙ rw (str_eq_refl key)

      replaced_view :
          (q : List ℕ)
          → (if str_eq key q then some value else view gone q)
            ≡ (if str_eq key q then some value else view cs q)
      replaced_view q = elim (Bool-cases (str_eq key q)) [
        | inl hit ↦ rw hit
        | inr miss ↦ rw miss (views_removed rounds key v enough e found es' u q ∙ rw miss)
      ]

      -- The record is deleted and a new one appended.
      other_length :
          (t : Db) × (cs' : Chains) × (replace_old key value false found_state ≡ ok (pos 0) t)
          × Searched t key cs'
          × Updates key value cs cs'
      unfolding replace_old
      other_length =
          let (t, run, same, _) = dodelete_found rounds key v enough e found es' u in
          let w : Searched t key gone = Searched-settle same deleted-Searched in
          let n = head_to 0 (gone (slot_h key)) in
          let t2 = record t { idx_pos = t.chainoff + 7 } in
          let w2 : Searched t2 key gone = Searched-settle refl w in
          let (li, ld) =
            length-deleted v.laid (slot_h key) (omega arith)
              (small rounds key v enough e found es' u) e es' (place rounds key v enough)
              (st rounds key v enough e found es' u) u in
          let idx : length t.idx ≡ length s.idx = ap (λ (x : Db). length x.idx) same ∙ li in
          let dat : length t.dat ≡ length s.dat = ap (λ (x : Db). length x.dat) same ∙ ld in
          let pointer : Holds t.idx t.chainoff (pad 7 n) =
            rw w.chainoff (w.laid.heads (slot_h key) (omega (arith, hash-lt key))) in
          let (appended, (x, up)) =
            append-Inserts rounds key value can w2 gone_absent (rw idx room) (rw dat fits) in
          let last = record_written key value (length t.idx) (length t.dat) n t2 in
          (
            record last { cnt_stor3 = incr last.cnt_stor3 },
            _,
            rw (run, readptr-Holds t.chainoff n t (head-le w.laid (slot_h key)) pointer, appended),
            record {
              locked = x.locked;
              chainoff = x.chainoff;
              nhash = x.nhash;
              hashoff = x.hashoff;
              laid = x.laid;
              keyed = x.keyed;
            },
            λ q. up q ∙ replaced_view q,
          )

    existing_replace :
        (t : Db) × (cs' : Chains) × (replace_old key value
            (length value + 1 == length e.value + 1)
            found_state
          ≡ ok (pos 0) t)
        × Searched t key cs'
        × Updates key value cs cs'
    existing_replace = elim (Bool-cases (length value + 1 == length e.value + 1)) [
      | inl eq ↦ rw eq (same_length eq)
      | inr ne ↦
          let (es', u) = lookup-Unlinked key (slot_of s key) (cs (slot_h key)) e found in
          let u' =
            subst (λ p. Unlinked p e (cs (slot_h key)) es' (place rounds key v enough))
              (slot_lem key v) u in
          rw ne (other_length es' u')
    ]

    pub existing : (f : Flag) → Branch f true found_state
    unfolding store_found store_code store_writes
    existing db_insert =
        let some_data = view-lookup-some cs key e found in
        let w = found-Searched in
        (
          record found_state { cnt_storerr = incr found_state.cnt_storerr },
          cs,
          rw some_data,
          record {
            locked = w.locked;
            chainoff = w.chainoff;
            nhash = w.nhash;
            hashoff = w.hashoff;
            laid = w.laid;
            keyed = w.keyed;
          },
          λ q. rw some_data,
        )
    existing db_replace =
        let some_data = view-lookup-some cs key e found in
        let (t, cs', run, w, up) = existing_replace in
        (t, cs', rw some_data run, w, λ q. rw some_data (up q))
    existing db_store = let (t, cs', run, w, up) = existing_replace in (t, cs', run, w, up)
