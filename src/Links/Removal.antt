-- ===== src/Links/Removal.antt =====
-- Both removals of Links/Ends take a node out of the list of nodes.
use learn_apue.Base.{ℕ, ◌≡◌, ◌≢◌, refl, sym, ◌∙◌, false, List, [], ◌∷◌, ◌++◌, arith, ◌==◌, ==_refl}
use learn_apue.Links.Ends.{Ends, Represents, unlink_node, unlink_end}
use learn_apue.Links.Segments.{
  Field, upd, front, back, Seg, Away, NoRepeats, Disjoint, All-back, back-append, Seg-upd_next,
  Seg-upd_prev, Seg-relink_next, Seg-relink_prev, Seg-split, Seg-join, Away-split, Away-join,
  NoRepeats-split, NoRepeats-join,
}

-- The links around the gap between two runs.
abbrev pub cut_next : Field → List ℕ → ℕ → Field
cut_next n [] c = n
cut_next n (x ∷ xs) c = upd n (back x xs) c

abbrev pub cut_prev : Field → List ℕ → ℕ → Field
cut_prev p [] c = p
cut_prev p (y ∷ ys) c = upd p y c

abbrev pub cut : Ends → List ℕ → List ℕ → Ends
cut l xs ys = record {
  next = cut_next l.next xs (front ys 0);
  prev = cut_prev l.prev ys (back 0 xs);
  head = front (xs ++ ys) 0;
  tail = back 0 (xs ++ ys);
}

Away-ys : (zs : List ℕ) (y : ℕ) (ys : List ℕ) (t : ℕ) → Disjoint zs (t ∷ (y ∷ ys)) → Away y zs
Away-ys [] y ys t h = tt
Away-ys (z ∷ zs) y ys t ((_, (ne, w)), h) = (ground arith, Away-ys zs y ys t h)

module _ {l : Ends} (t : ℕ) (xs ys : List ℕ) (v : Represents l (xs ++ (t ∷ ys))) where
  parts : NoRepeats xs × NoRepeats (t ∷ ys) × Disjoint xs (t ∷ ys)
  parts = NoRepeats-split xs (t ∷ ys) v.distinct

  nodes : Away 0 xs × Away 0 (t ∷ ys)
  nodes = Away-split 0 xs (t ∷ ys) v.nonnull

  segs : Seg l.next l.prev 0 xs t × Seg l.next l.prev (back 0 xs) (t ∷ ys) 0
  segs = Seg-split l.next l.prev 0 xs (t ∷ ys) 0 v.linked

  Disjoint-drop : (zs : List ℕ) → Disjoint zs (t ∷ ys) → Disjoint zs ys
  Disjoint-drop [] h = tt
  Disjoint-drop (z ∷ zs) ((_, w), h) = (w, Disjoint-drop zs h)

  distinct' : NoRepeats (xs ++ ys)
  distinct' = let (l', (w, r), apart) = parts in NoRepeats-join xs ys l' r (Disjoint-drop xs apart)

  nonnull' : Away 0 (xs ++ ys)
  nonnull' = let (a, (nz, b)) = nodes in Away-join 0 xs ys a b

  next_is : l.next t ≡ front ys 0
  next_is = segs.1.1

  prev_is : l.prev t ≡ back 0 xs
  prev_is = segs.1.0

-- The links around a node that is taken out.
linked-cut :
    {l : Ends} (t : ℕ) (xs ys : List ℕ)
    → Represents l (xs ++ (t ∷ ys))
    → Seg (cut l xs ys).next (cut l xs ys).prev 0 (xs ++ ys) 0
linked-cut {l} t [] [] v = tt
linked-cut {l} t [] (y ∷ ys) v =
    let (_, (_, d), _) = parts t [] (y ∷ ys) v in
    Seg-relink_prev l.next l.prev t y ys 0 0 d (segs t [] (y ∷ ys) v).1.2
linked-cut {l} t (x ∷ xs) [] v =
    let (d, _, _) = parts t (x ∷ xs) [] v in
    Seg-join _ _ 0 (x ∷ xs) [] 0
      (Seg-relink_next l.next l.prev 0 x xs t 0 d (segs t (x ∷ xs) [] v).0) tt
linked-cut {l} t (x ∷ xs) (y ∷ ys) v =
    let (dx, (_, dy), apart) = parts t (x ∷ xs) (y ∷ ys) v in
    let (left, (_, _, right)) = segs t (x ∷ xs) (y ∷ ys) v in
    let z = back x xs in
    let away = All-back (λ a. Away a (t ∷ (y ∷ ys))) x xs apart in
    Seg-join _ _ 0 (x ∷ xs) (y ∷ ys) 0
      (Seg-upd_prev (upd l.next z y) l.prev 0 (x ∷ xs) y y z (Away-ys (x ∷ xs) y ys t apart)
        (Seg-relink_next l.next l.prev 0 x xs t y dx left))
      (Seg-upd_next l.next (upd l.prev y z) z (y ∷ ys) 0 z y away.1
        (Seg-relink_prev l.next l.prev t y ys 0 z dy right))

pub Represents-cut :
    {l : Ends} (t : ℕ) (xs ys : List ℕ)
    → Represents l (xs ++ (t ∷ ys))
    → Represents (cut l xs ys) (xs ++ ys)
Represents-cut t xs ys v = record {
  linked = linked-cut t xs ys v;
  first = refl;
  last = refl;
  nonnull = nonnull' t xs ys v;
  distinct = distinct' t xs ys v;
}

-- What the tests of the two removals find.
module _ {l : Ends} (t x : ℕ) (xs ys : List ℕ) (v : Represents l ((x ∷ xs) ++ (t ∷ ys))) where
  back_nonnull : (back x xs == 0) ≡ false
  back_nonnull = ground (arith, All-back (λ a. a ≢ 0) x xs (nodes t (x ∷ xs) ys v).0)

  not_back : (t == back x xs) ≡ false
  not_back =
      let (_, _, apart) = parts t (x ∷ xs) ys v in
      ground (arith, (All-back (λ a. Away a (t ∷ ys)) x xs apart).0)

  not_first : (t == x) ≡ false
  not_first = let (_, _, ((ne, _), _)) = parts t (x ∷ xs) ys v in ground arith

module _ {l : Ends} (t : ℕ) (xs : List ℕ) (y : ℕ) (ys : List ℕ)
    (v : Represents l (xs ++ (t ∷ (y ∷ ys)))) where
  front_nonnull : (y == 0) ≡ false
  front_nonnull = let (_, (_, (ne, _))) = nodes t xs (y ∷ ys) v in ground arith

  not_next : (t == y) ≡ false
  not_next = let (_, ((ne, _), _), _) = parts t xs (y ∷ ys) v in ground arith

  tail_is : l.tail ≡ back 0 (xs ++ (y ∷ ys))
  tail_is = v.last ∙ back-append 0 xs (t ∷ (y ∷ ys)) ∙ sym (back-append 0 xs (y ∷ ys))

not_last :
    {l : Ends} (t : ℕ) (xs : List ℕ) (y : ℕ) (ys : List ℕ)
    → Represents l (xs ++ (t ∷ (y ∷ ys)))
    → back y ys ≢ t
not_last t xs y ys v = let (_, (w, _), _) = parts t xs (y ∷ ys) v in All-back (λ a. a ≢ t) y ys w

-- The last node of a list that ends in `y ∷ ys`.
back-tail : (xs : List ℕ) (y : ℕ) (ys : List ℕ) → back 0 (xs ++ (y ∷ ys)) ≡ back y ys
back-tail xs y ys = back-append 0 xs (y ∷ ys)

pub unlink_node-cut :
    {l : Ends} (t : ℕ) (xs ys : List ℕ)
    → Represents l (xs ++ (t ∷ ys))
    → unlink_node t l ≡ cut l xs ys
unfolding unlink_node
unlink_node-cut {l} t [] [] v = rw (next_is t [] [] v, prev_is t [] [] v, next_is t [] [] v)
unlink_node-cut {l} t [] (y ∷ ys) v = rw (
  next_is t [] (y ∷ ys) v,
  front_nonnull t [] y ys v,
  prev_is t [] (y ∷ ys) v,
  not_next t [] y ys v,
  next_is t [] (y ∷ ys) v,
  tail_is t [] y ys v,
)
unlink_node-cut {l} t (x ∷ xs) [] v = rw (
  next_is t (x ∷ xs) [] v,
  prev_is t (x ∷ xs) [] v,
  back_nonnull t x xs [] v,
  next_is t (x ∷ xs) [] v,
  v.first,
  back-append x xs [],
)
unlink_node-cut {l} t (x ∷ xs) (y ∷ ys) v = rw (
  next_is t (x ∷ xs) (y ∷ ys) v,
  front_nonnull t (x ∷ xs) y ys v,
  prev_is t (x ∷ xs) (y ∷ ys) v,
  not_next t (x ∷ xs) y ys v,
  back_nonnull t x xs (y ∷ ys) v,
  next_is t (x ∷ xs) (y ∷ ys) v,
  v.first,
  tail_is t (x ∷ xs) y ys v,
)

pub unlink_end-cut :
    {l : Ends} (t : ℕ) (xs ys : List ℕ)
    → Represents l (xs ++ (t ∷ ys))
    → unlink_end t l ≡ cut l xs ys
unfolding unlink_end
unlink_end-cut {l} t [] [] v = rw (v.first, ==_refl t, v.last, ==_refl t, next_is t [] [] v)
unlink_end-cut {l} t [] (y ∷ ys) v =
    let last : (back y ys == t) ≡ false = ground (arith, not_last t [] y ys v) in
    rw (
      v.first,
      ==_refl t,
      tail_is t [] y ys v,
      last,
      next_is t [] (y ∷ ys) v,
      prev_is t [] (y ∷ ys) v,
    )
unlink_end-cut {l} t (x ∷ xs) [] v = rw (
  v.first,
  not_first t x xs [] v,
  v.last,
  back-append x xs (t ∷ []),
  ==_refl t,
  next_is t (x ∷ xs) [] v,
  prev_is t (x ∷ xs) [] v,
  back-append x xs [],
)
unlink_end-cut {l} t (x ∷ xs) (y ∷ ys) v =
    let last : (t == back y ys) ≡ false = ground (arith, not_last t (x ∷ xs) y ys v) in
    rw (
      v.first,
      not_first t x xs (y ∷ ys) v,
      tail_is t (x ∷ xs) y ys v,
      back-tail (x ∷ xs) y ys,
      last,
      next_is t (x ∷ xs) (y ∷ ys) v,
      prev_is t (x ∷ xs) (y ∷ ys) v,
      not_back t x xs (y ∷ ys) v,
    )

-- A node is taken out by its own links.
pub Represents-unlink_node :
    {l : Ends} (t : ℕ) (xs ys : List ℕ)
    → Represents l (xs ++ (t ∷ ys))
    → Represents (unlink_node t l) (xs ++ ys)
Represents-unlink_node t xs ys v = rw (unlink_node-cut t xs ys v) (Represents-cut t xs ys v)

-- A node is taken out by comparing it with the ends.
pub Represents-unlink_end :
    {l : Ends} (t : ℕ) (xs ys : List ℕ)
    → Represents l (xs ++ (t ∷ ys))
    → Represents (unlink_end t l) (xs ++ ys)
Represents-unlink_end t xs ys v = rw (unlink_end-cut t xs ys v) (Represents-cut t xs ys v)
