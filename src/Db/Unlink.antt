-- ===== src/Db/Unlink.antt =====
-- A record is taken out of its chain by one pointer write.
use learn_apue.Base.{
  ℕ, ◌+◌, ◌*◌, ◌≤◌, ◌<◌, ◌≡◌, ◌≢◌, ◌⊎◌, inl, inr, refl, sym, List, [], ◌∷◌, ◌++◌, arith, length,
}
use learn_apue.Bytes.Decimal.{pad}
use learn_apue.Bytes.File.{File, Holds, write_at, write_at-Holds, length-write_at}
use learn_apue.Db.Chain.{head_to, ChainTo, Chain}
use learn_apue.Db.Layout.{
  Region, region, regions, In, Apart, Apart-sym, SparesIdx, Holds-spared, ChainTo-write_idx,
  Stands-set_next, ChainTo-bound,
}
use learn_apue.Db.Records.{Entry, line_of, length-pad7}
use learn_apue.Db.State.{ptr_max}
use learn_apue.Db.Pairs.{Removed, here, there, payload, pairs}
use learn_apue.Db.Valid.{
  Chains, head-le, put, put_cases, Distinct, IsFree, Laid, put-beyond, put-within, put-between,
}

Removed-In : {r : Region} {l l' : List Region} → Removed r l l' → In r l
Removed-In here = inl refl
Removed-In (there m) = inr (Removed-In m)

In-Removed : {r : Region} {l l' : List Region} → Removed r l l' → (x : Region) → In x l' → In x l
In-Removed here x m = inr m
In-Removed (there k) x (inl e) = inl e
In-Removed (there k) x (inr m) = inr (In-Removed k x m)

Distinct-Removed :
    {r : Region} {l l' : List Region}
    → Removed r l l'
    → Distinct l
    → Distinct l' × ((x : Region) → In x l' → Apart r x)
Distinct-Removed here d = (d.1, d.0)
Distinct-Removed {r} (there {x} k) d =
    let (rest, apart) = Distinct-Removed k d.1 in
    (
      (λ y m. d.0 y (In-Removed k y m), rest),
      λ y m. elim m [ inl e ↦ rw e (Apart-sym x r (d.0 r (Removed-In k))) | inr m' ↦ apart y m' ],
    )

-- The record `e` stands behind the pointer at `o` in `es`, which hangs on the pointer at `p`; `es'`
-- is the chain once that pointer leads past `e`.
pub data Unlinked (p : ℕ) (e : Entry) (es es' : List Entry) (o : ℕ) : Type 0 where
  first : o ≡ p → es ≡ e ∷ es' → Unlinked p e es es' o
  later :
      (init : List Entry) (x : Entry) (post : List Entry)
      → o ≡ x.off
      → es ≡ init ++ (x ∷ e ∷ post)
      → es' ≡ init ++ (record x { next = head_to 0 post } ∷ post)
      → Unlinked p e es es' o

mid-Removed :
    (e : Entry) (init : List Entry) (x : Entry) (post : List Entry) (n : ℕ)
    → Removed
        (region e)
        (regions (init ++ (x ∷ e ∷ post)))
        (regions (init ++ (record x { next = n } ∷ post)))
mid-Removed e [] x post n = there here
mid-Removed e (y ∷ init) x post n = there (mid-Removed e init x post n)

pub Unlinked-Removed :
    {p o : ℕ} {e : Entry} {es es' : List Entry}
    → Unlinked p e es es' o
    → Removed (region e) (regions es) (regions es')
Unlinked-Removed (first q s) = rw s here
Unlinked-Removed {e} (later init x post q s s') =
    rw (s, s') (mid-Removed e init x post (head_to 0 post))

mid-pairs :
    (e : Entry) (init : List Entry) (x : Entry) (post : List Entry) (n : ℕ)
    → Removed
        (payload e)
        (pairs (init ++ (x ∷ e ∷ post)))
        (pairs (init ++ (record x { next = n } ∷ post)))
mid-pairs e [] x post n = there here
mid-pairs e (y ∷ init) x post n = there (mid-pairs e init x post n)

-- Out of the key and data pairs of the chain that of the record goes.
pub Unlinked-pairs :
    {p o : ℕ} {e : Entry} {es es' : List Entry}
    → Unlinked p e es es' o
    → Removed (payload e) (pairs es) (pairs es')
Unlinked-pairs (first q s) = rw s here
Unlinked-pairs {e} (later init x post q s s') =
    rw (s, s') (mid-pairs e init x post (head_to 0 post))

pub ChainTo-split :
    (i d : File) (xs ys : List Entry)
    → Chain i d (xs ++ ys)
    → ChainTo i d (head_to 0 ys) xs × Chain i d ys
ChainTo-split i d [] ys c = (tt, c)
ChainTo-split i d (x ∷ []) ys c = ((c.0, c.1, tt), c.2)
ChainTo-split i d (x ∷ y ∷ xs) ys c =
    let (front, back) = ChainTo-split i d (y ∷ xs) ys c.2 in ((c.0, c.1, front), back)

pub ChainTo-join :
    (i d : File) (xs ys : List Entry)
    → ChainTo i d (head_to 0 ys) xs
    → Chain i d ys
    → Chain i d (xs ++ ys)
ChainTo-join i d [] ys c k = k
ChainTo-join i d (x ∷ []) ys c k = (c.0, c.1, k)
ChainTo-join i d (x ∷ y ∷ xs) ys c k = (c.0, c.1, ChainTo-join i d (y ∷ xs) ys c.2 k)

pub In-append_right :
    (xs ys : List Entry) (b : Region) → In b (regions ys) → In b (regions (xs ++ ys))
In-append_right [] ys b m = m
In-append_right (x ∷ xs) ys b m = inr (In-append_right xs ys b m)

pub Distinct-cross :
    (xs ys : List Entry)
    → Distinct (regions (xs ++ ys))
    → Distinct (regions ys) × ((a b : Region) → In a (regions xs) → In b (regions ys) → Apart a b)
Distinct-cross [] ys d = (d, λ a b m. absurd m)
Distinct-cross (x ∷ xs) ys d =
    let (rest, apart) = Distinct-cross xs ys d.1 in
    (
      rest,
      λ a b ma mb. elim ma [
        | inl same ↦ rw same (d.0 b (In-append_right xs ys b mb))
        | inr m ↦ apart a b m mb
      ],
    )

-- Seven bytes at the start of a record spare all records that are apart from it.
SparesIdx-Apart :
    (x : Entry) (n : ℕ) (l : List Region)
    → n ≤ ptr_max
    → ((r : Region) → In r l → Apart (region x) r)
    → SparesIdx x.off (length (pad 7 n)) l
SparesIdx-Apart x n l le apart r m = ground (arith, length-pad7 n le, (apart r m).idx)

-- The chain behind the redirected pointer of a record `x`.
redirected_Chain :
    (i d : File) (init : List Entry) (x e : Entry) (post : List Entry)
    → Chain i d (init ++ (x ∷ e ∷ post))
    → Distinct (regions (init ++ (x ∷ e ∷ post)))
    → head_to 0 post ≤ ptr_max
    → Chain
        (write_at i x.off (pad 7 (head_to 0 post)))
        d
        (init ++ (record x { next = head_to 0 post } ∷ post))
redirected_Chain i d init x e post c dis le =
    let n = head_to 0 post in
    let (front, back) = ChainTo-split i d init (x ∷ e ∷ post) c in
    let (ahead, cross) = Distinct-cross init (x ∷ e ∷ post) dis in
    let spare_init =
      SparesIdx-Apart x n (regions init) le
        (λ r m. Apart-sym r (region x) (cross r (region x) m (inl refl))) in
    let spare_post = SparesIdx-Apart x n (regions post) le (λ r m. ahead.0 r (inr m)) in
    ChainTo-join _ d init (record x { next = n } ∷ post)
      (ChainTo-write_idx i d x.off init x.off (pad 7 n) spare_init front)
      (
        Stands-set_next back.0 n le,
        refl,
        ChainTo-write_idx i d 0 post x.off (pad 7 n) spare_post back.2.2,
      )

head_same :
    (init : List Entry) (x e : Entry) (post : List Entry)
    → head_to 0 (init ++ (x ∷ e ∷ post))
      ≡ head_to 0 (init ++ (record x { next = head_to 0 post } ∷ post))
head_same [] x e post = refl
head_same (y ∷ init) x e post = refl

module _ {i d : File} {cs : Chains} (l : Laid i d cs) (j : ℕ) (small : j < 138) where
  -- The parts of the invariant that speak of regions alone.
  IsFree-after :
      (e : Entry) (es' : List Entry)
      → Removed (region e) (regions (cs j)) (regions es')
      → IsFree (region e) (put j es' cs)
  IsFree-after e es' rem k x m = elim (put_cases j k es' cs) [
    | inl (same, p) ↦ (Distinct-Removed rem (l.within j)).1 x (rw p at m)
    | inr (ne, p) ↦ l.between j k (λ q. ne (sym q)) (region e) x (Removed-In rem) (rw p at m)
  ]

  -- The pointers in front of the records, after one has been written.
  heads_after :
      (es' : List Entry) (o n : ℕ)
      → n ≤ ptr_max
      → ((o ≡ j * 7) × (n ≡ head_to 0 es')) ⊎ ((967 ≤ o) × (head_to 0 (cs j) ≡ head_to 0 es'))
      → (k : ℕ) → k < 138
      → Holds (write_at i o (pad 7 n)) (k * 7) (pad 7 (head_to 0 (put j es' cs k)))
  heads_after es' o n le how k lt = elim (put_cases j k es' cs) [
    | inl (same, p) ↦ elim how [
      | inl (at, value) ↦ rw (p, same, at, value) (write_at-Holds i (j * 7) _)
      | inr (beyond, head) ↦
          let w = length-pad7 (head_to 0 (cs j)) (head-le l j) in
          let kept =
            Holds-spared i (j * 7) o (pad 7 (head_to 0 (cs j))) (pad 7 n) (inr (omega (arith, w)))
              (l.heads j small) in
          rw (p, same, ← head) kept
    ]
    | inr (ne, p) ↦
        let w = length-pad7 (head_to 0 (cs k)) (head-le l k) in
        rw p (
          Holds-spared i (k * 7) o (pad 7 (head_to 0 (cs k))) (pad 7 n)
            (ground (arith, w, length-pad7 n le)) (l.heads k lt))
  ]

  Laid-after :
      (e : Entry) (es' : List Entry) (o n : ℕ)
      → n ≤ ptr_max
      → Removed (region e) (regions (cs j)) (regions es')
      → ((o ≡ j * 7) × (n ≡ head_to 0 es')) ⊎ ((967 ≤ o) × (head_to 0 (cs j) ≡ head_to 0 es'))
      → Chain (write_at i o (pad 7 n)) d es'
      → ((k : ℕ) → k ≢ j → SparesIdx o 7 (regions (cs k)))
      → Laid (write_at i o (pad 7 n)) d (put j es' cs)
  Laid-after e es' o n le rem how chain spare =
      let (dis, apart) = Distinct-Removed rem (l.within j) in
      record {
        table = omega (arith, l.table, length-write_at i o (pad 7 n));
        heads = heads_after es' o n le how;
        chains = λ k. elim (put_cases j k es' cs) [
          | inl (same, p) ↦ rw p chain
          | inr (ne, p) ↦ rw p (
              ChainTo-write_idx i d 0 (cs k) o (pad 7 n) (rw (length-pad7 n le) (spare k ne))
                (l.chains k))
        ];
        beyond = put-beyond l j es' (λ r m. l.beyond j r (In-Removed rem r m));
        within = put-within l j es' dis;
        between =
            put-between l j es'
              (λ k ne a b ma mb. l.between j k (λ q. ne (sym q)) a b (In-Removed rem a ma) mb);
      }

  -- Writing the pointer of a record over the pointer that leads to it takes it out of its chain,
  -- and its bytes are free.
  pub unlink-Laid :
      {e : Entry} {es' : List Entry} {o : ℕ}
      → Unlinked (j * 7) e (cs j) es' o
      → Laid (write_at i o (pad 7 e.next)) d (put j es' cs) × IsFree (region e) (put j es' cs)
  unlink-Laid {e} {es'} {o} (first at is) =
      let c : Chain i d (e ∷ es') = rw is at (l.chains j) in
      let u : Unlinked (j * 7) e (cs j) es' o = first at is in
      let rem = Unlinked-Removed u in
      let le : e.next ≤ ptr_max = c.0.is_record.next_le in
      let spare : (k : ℕ) → SparesIdx o 7 (regions (cs k)) =
        λ k r m. let b = l.beyond k r m in inl (omega (arith, b.0)) in
      (
        Laid-after e es' o e.next le rem (inl (at, c.1))
            (ChainTo-write_idx i d 0 es' o (pad 7 e.next)
              (λ r m. rw (length-pad7 e.next le) (spare j r (In-Removed rem r m))) c.2)
            (λ k ne. spare k),
        IsFree-after e es' rem,
      )
  unlink-Laid {e} {es'} {o} (later init x post at is is') =
      let n = head_to 0 post in
      let u : Unlinked (j * 7) e (cs j) es' o = later init x post at is is' in
      let rem = Unlinked-Removed u in
      let c : Chain i d (init ++ (x ∷ e ∷ post)) = rw is at (l.chains j) in
      let back = (ChainTo-split i d init (x ∷ e ∷ post) c).1 in
      let value : e.next ≡ n = back.2.1 in
      let le : n ≤ ptr_max = rw value at back.2.0.is_record.next_le in
      let dis : Distinct (regions (init ++ (x ∷ e ∷ post))) = rw is at (l.within j) in
      let mem : In (region x) (regions (cs j)) =
        rw is (In-append_right init (x ∷ e ∷ post) (region x) (inl refl)) in
      let low = (l.beyond j (region x) mem).0 in
      let head : head_to 0 (cs j) ≡ head_to 0 es' = rw (is, is') (head_same init x e post) in
      let chain : Chain (write_at i x.off (pad 7 n)) d es' =
        rw is' (redirected_Chain i d init x e post c dis le) in
      rw (at, value)
        (
          Laid-after e es' x.off n le rem (inr (low, head)) chain (λ k ne.
              rw (length-pad7 n le) at (
                SparesIdx-Apart x n (regions (cs k)) le
                  (λ r m. l.between j k (λ q. ne (sym q)) (region x) r mem m))),
          IsFree-after e es' rem,
        )

  -- The pointer field lies in the index file, behind the free list's, and is no part of the record.
  pub Unlinked-place :
      {e : Entry} {es' : List Entry} {o : ℕ}
      → 1 ≤ j
      → Unlinked (j * 7) e (cs j) es' o
      → (7 ≤ o) × (o + 7 ≤ length i) × ((o + 7 ≤ e.off) ⊎ (e.off + (11 + length (line_of e)) ≤ o))
  Unlinked-place {e} {es'} {o} ge (first at is) =
      let mem : In (region e) (regions (cs j)) = rw is (inl refl) in
      let low = (l.beyond j (region e) mem).0 in
      (omega arith, omega (arith, l.table), inl (omega (arith, low)))
  Unlinked-place {e} {es'} {o} ge (later init x post at is is') =
      let mem : In (region x) (regions (cs j)) =
        rw is (In-append_right init (x ∷ e ∷ post) (region x) (inl refl)) in
      let dis : Distinct (regions (init ++ (x ∷ e ∷ post))) = rw is at (l.within j) in
      let apart = (Distinct-cross init (x ∷ e ∷ post) dis).0.0 (region e) (inl refl) in
      let bound = ChainTo-bound i d 0 (cs j) (l.chains j) (region x) mem in
      let low = (l.beyond j (region x) mem).0 in
      (omega (arith, low), omega (arith, bound.0), ground (arith, apart.idx))

  -- The record itself is of the chain.
  pub Unlinked-In :
      {e : Entry} {es' : List Entry} {o p : ℕ}
      → Unlinked p e (cs j) es' o
      → In (region e) (regions (cs j))
  Unlinked-In u = Removed-In (Unlinked-Removed u)
