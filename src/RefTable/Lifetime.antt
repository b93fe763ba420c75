-- ===== src/RefTable/Lifetime.antt =====
-- How long an object of threads/mutex3.c stays in its table.
use learn_apue.Base.{
  ℕ, zero, suc, ◌≡◌, ◌≢◌, refl, sym, ◌∙◌, false, some, arith, ◌==◌, List, [], ◌∷◌, ◌++◌, length,
  ◌≤◌, ◌<◌, ==_refl,
}
use learn_apue.Base.Int.{pos}
use learn_apue.Links.Payload.{put_at, put_at_self}
use learn_apue.Links.Segments.{Field, upd, upd_ne, upd_self, Away, Away-split, NoRepeats}
use learn_apue.RefTable.{
  Foo, Table, foo_hash, link_foo, foo_alloc, count_up, count_down, store_count, foo_hold, find_foo,
  foo_find, unlink_foo, remove_foo, release_foo, foo_rele,
}

-- From `a` the `f_next` pointers lead through the nodes to the null pointer.
abbrev pub Chain : Field → ℕ → List ℕ → Type 0
Chain n a [] = a ≡ 0
Chain n a (x ∷ xs) = (a ≡ x) × (x ≢ 0) × Chain n (n x) xs

Chain-upd :
    (n : Field) (a b c : ℕ) (xs : List ℕ) → Away b xs → Chain n a xs → Chain (upd n b c) a xs
Chain-upd n a b c [] w l = l
Chain-upd n a b c (x ∷ xs) (ne, w) (e, nz, l) =
    (e, nz, rw (upd_ne n b c x ne) (Chain-upd n (n x) b c xs w l))

-- What the search for the node in front of `fp` finds and does.
record Unlinked (rounds fp p : ℕ) (t : Table) (xs ys : List ℕ) : Type 0 where
  at' : ℕ
  among : (b : ℕ) → Away b (p ∷ xs) → at' ≢ b
  run : unlink_foo rounds fp p t ≡ some (record t { f_next = upd t.f_next at' (t.f_next fp) })
  chain : Chain (upd t.f_next at' (t.f_next fp)) p (p ∷ (xs ++ ys))

unlink_foo-Unlinked :
    (n fp p : ℕ) (t : Table) (xs ys : List ℕ)
    → Chain t.f_next p (p ∷ (xs ++ (fp ∷ ys)))
    → NoRepeats (p ∷ (xs ++ (fp ∷ ys)))
    → length xs < n
    → Unlinked n fp p t xs ys
unfolding unlink_foo
unlink_foo-Unlinked zero fp p t xs ys l d h = absurd (omega arith)
unlink_foo-Unlinked (suc n) fp p t [] ys (e, nz, (e', nz', l)) ((ne, w), d) h = record {
  at' = p;
  among = λ b away. away.0;
  run = rw (e', ==_refl fp);
  chain = (
    refl,
    nz,
    rw (upd_self t.f_next p (t.f_next fp))
        (Chain-upd t.f_next (t.f_next fp) p (t.f_next fp) ys w l),
  );
}
unlink_foo-Unlinked (suc n) fp p t (x ∷ xs) ys (e, nz, (e', nz', l)) ((ne, w), (w', d)) h =
    let differs : x ≢ fp = away_here fp x xs ys w' in
    let other : (x == fp) ≡ false = ground arith in
    let next' : t.f_next p ≡ x = e' in
    let (wp, wrest) = Away-split p xs (fp ∷ ys) w in
    let u = unlink_foo-Unlinked n fp x t xs ys (refl, nz', l) (w', d) (omega arith) in
    let q = u.at' in
    let apart : p ≢ q = (λ same. u.among p (ne, wp) (sym same)) in
    record {
      at' = q;
      among = λ b away. u.among b away.1;
      run = rw (next', other) u.run;
      chain = (refl, nz, rw (upd_ne t.f_next q (t.f_next fp) p apart, next') u.chain);
    }
  where
    away_here : (fp x : ℕ) (xs ys : List ℕ) → Away x (xs ++ (fp ∷ ys)) → x ≢ fp
    away_here fp x [] ys w same = w.0 (sym same)
    away_here fp x (y ∷ xs) ys w same = away_here fp x xs ys w.1 same

module _ (rounds fp h : ℕ) (t : Table) (ys : List ℕ) where
  remove_foo-Chain :
      (xs : List ℕ)
      → foo_hash (t.foos fp).f_id ≡ h
      → Chain t.f_next (t.fh h) (xs ++ (fp ∷ ys))
      → NoRepeats (xs ++ (fp ∷ ys))
      → length xs ≤ rounds
      → (u : Table) × (remove_foo rounds fp t ≡ some u) × Chain u.f_next (u.fh h) (xs ++ ys)
  unfolding remove_foo
  remove_foo-Chain [] e (first, nz, l) d k = (
    record t { fh = upd t.fh h (t.f_next fp) },
    rw (e, first, ==_refl fp),
    rw (upd_self t.fh h (t.f_next fp)) l,
  )
  remove_foo-Chain (x ∷ xs) e (first, nz, l) (w, d) k =
      let differs : x ≢ fp = away_fp x xs w in
      let other : (x == fp) ≡ false = ground arith in
      let u = unlink_foo-Unlinked rounds fp x t xs ys (refl, nz, l) (w, d) (omega arith) in
      (
        record t { f_next = upd t.f_next u.at' (t.f_next fp) },
        rw (e, first, other) u.run,
        rw first u.chain,
      )
    where
      away_fp : (x : ℕ) (xs : List ℕ) → Away x (xs ++ (fp ∷ ys)) → x ≢ fp
      away_fp x [] w same = w.0 (sym same)
      away_fp x (y ∷ xs) w same = away_fp x xs w.1 same

-- If an object with one reference stands in the chain of its hash value, in which no object
-- stands twice, then with as many rounds as objects in front of it `foo_rele` ends, and takes it
-- out of the chain and leaves the others there in their order.
pub foo_rele-Chain :
    (rounds fp h : ℕ) (t : Table) (xs ys : List ℕ)
    → (t.foos fp).f_count ≡ pos 1
    → foo_hash (t.foos fp).f_id ≡ h
    → Chain t.f_next (t.fh h) (xs ++ (fp ∷ ys))
    → NoRepeats (xs ++ (fp ∷ ys))
    → length xs ≤ rounds
    → (u : Table) × (foo_rele rounds fp t ≡ some u) × Chain u.f_next (u.fh h) (xs ++ ys)
unfolding foo_rele release_foo store_count count_down
foo_rele-Chain rounds fp h t xs ys one e l d k =
    let v : Foo = record { f_count = pos 0; f_id = (t.foos fp).f_id } in
    let e' : foo_hash (put_at fp v t.foos fp).f_id ≡ h = rw (put_at_self fp v t.foos) e in
    let (u, run, chain) =
      remove_foo-Chain rounds fp h (record t { foos = put_at fp v t.foos }) ys xs e' l d k in
    (u, rw one run, chain)

-- With a new address from `malloc` and a lock that can be made, `foo_alloc` returns the address,
-- and `foo_find` of the identifier then finds it in the first round with two references, in front
-- of the chain from before.
pub foo_find-foo_alloc :
    (rounds a id : ℕ) (t : Table) (xs : List ℕ)
    → Chain t.f_next (t.fh (foo_hash id)) xs
    → a ≢ 0
    → Away a xs
    → (u : Table) × ((foo_alloc (some a) 0 id t).0 ≡ a)
      × (foo_find (suc rounds) id (foo_alloc (some a) 0 id t).1 ≡ some (a, u))
      × (u.foos a ≡ record { f_count = pos 2; f_id = id })
      × Chain u.f_next (u.fh (foo_hash id)) (a ∷ xs)
unfolding foo_alloc link_foo foo_find find_foo foo_hold store_count count_up
foo_find-foo_alloc rounds a id t xs l nz w =
    let t1 = link_foo a id t in
    let h = foo_hash id in
    let no_null : (a == 0) ≡ false = ground arith in
    let head : upd t.fh h a h ≡ a = upd_self t.fh h a in
    let foo : t1.foos a ≡ record { f_count = pos 1; f_id = id } = put_at_self a _ t.foos in
    (
      foo_hold a t1,
      refl,
      rw (head, no_null, foo, ==_refl id),
      (put_at_self a _ t1.foos ∙ rw foo),
      (head, nz, rw (upd_self t.f_next a (t.fh h)) (Chain-upd t.f_next (t.fh h) a (t.fh h) xs w l)),
    )
