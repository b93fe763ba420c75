-- ===== src/Barrier/Merging.antt =====
-- The numbers that the merge of threads/barrier.c makes of the parts, and their order.
use learn_apue.Base.{
  ℕ, zero, suc, ◌+◌, ◌≤◌, ◌<◌, ◌≡◌, refl, sym, ap, ◌∙◌, ◌⊎◌, inl, inr, some, List, [], ◌∷◌, ◌++◌,
  map, arith, length, All, All-mono, ltb, ◌==◌, Bool-cases, if◌then◌else◌,
}
use learn_apue.Barrier.{
  long_max, try_part, find_min, behind, take_from, put_number, merge_next, merge_loop, numnum,
  merge, sorted_numbers,
}

-- No number is greater than one behind it.
abbrev pub Sorted : List ℕ → Type 0
Sorted [] = Unit
Sorted (x ∷ l) = All (λ y. x ≤ y) l × Sorted l

-- How often a number stands in a list, and in lists.
abbrev pub count : ℕ → List ℕ → ℕ
count y [] = 0
count y (x ∷ l) = (if x == y then 1 else 0) + count y l

abbrev pub count_in : ℕ → List (List ℕ) → ℕ
count_in y [] = 0
count_in y (p ∷ ps) = count y p + count_in y ps

-- No number of the lists is less.
abbrev AtLeast : ℕ → List (List ℕ) → Type 0
AtLeast b ps = All (λ p. All (λ y. b ≤ y) p) ps

-- Where the inner loop finds the least number.
record Least (ps : List (List ℕ)) (i num m : ℕ) : Type 0 where
  pre : List (List ℕ)
  x : ℕ
  p : List ℕ
  post : List (List ℕ)
  here : ps ≡ pre ++ ((x ∷ p) ∷ post)
  index : m ≡ i + length pre
  less : x < num
  least : AtLeast x ps

AtLeast-mono : (a b : ℕ) (ps : List (List ℕ)) → a ≤ b → AtLeast b ps → AtLeast a ps
AtLeast-mono a b ps h =
    All-mono (λ p. All (λ y. b ≤ y) p) (λ p. All (λ y. a ≤ y) p)
      (λ p. All-mono (λ y. b ≤ y) (λ y. a ≤ y) (λ y g. omega arith) p) ps

-- The least number of the parts behind one is the least of all, if that one has no less number.
Least-behind :
    (q : List ℕ) (ps : List (List ℕ)) (i num num' m : ℕ)
    → num' ≤ num
    → All (λ y. num' ≤ y) q
    → Least ps (suc i) num' m
    → Least (q ∷ ps) i num m
Least-behind q ps i num num' m h hq l = record {
  pre = q ∷ l.pre;
  x = l.x;
  p = l.p;
  post = l.post;
  here = ap (λ r. q ∷ r) l.here;
  index = omega (arith, l.index);
  less = omega (arith, l.less);
  least = (All-mono (λ y. num' ≤ y) (λ y. l.x ≤ y) (λ y g. omega (arith, l.less)) q hq, l.least);
}

find_min-Least :
    (ps : List (List ℕ)) (i num minidx : ℕ)
    → All Sorted ps
    → (AtLeast num ps × (find_min ps i num minidx ≡ minidx))
      ⊎ Least ps i num (find_min ps i num minidx)
unfolding find_min try_part
find_min-Least [] i num minidx s = inl (tt, refl)
find_min-Least ([] ∷ ps) i num minidx s = elim (find_min-Least ps (suc i) num minidx s.1) [
  | inl h ↦ inl ((tt, h.0), h.1)
  | inr l ↦ inr (Least-behind [] ps i num num _ (omega arith) tt l)
]
find_min-Least ((x ∷ p) ∷ ps) i num minidx s = elim (Bool-cases (ltb x num)) [
  | inl smaller ↦
      let all : All (λ y. x ≤ y) (x ∷ p) = (omega arith, s.0.0) in
      rw smaller (elim (find_min-Least ps (suc i) x i s.1) [
        | inl h ↦ inr record {
          pre = [];
          x = x;
          p = p;
          post = ps;
          here = refl;
          index = omega (arith, h.1);
          less = ground arith;
          least = (all, h.0);
        }
        | inr l ↦ inr (Least-behind (x ∷ p) ps i num x _ (ground arith) all l)
      ])
  | inr larger ↦
      let le : num ≤ x = ground arith in
      let all : All (λ y. num ≤ y) (x ∷ p) =
        (le, All-mono (λ y. x ≤ y) (λ y. num ≤ y) (λ y g. omega arith) p s.0.0) in
      rw larger (elim (find_min-Least ps (suc i) num minidx s.1) [
        | inl h ↦ inl ((all, h.0), h.1)
        | inr l ↦ inr (Least-behind (x ∷ p) ps i num num _ (omega arith) all l)
      ])
]

take_from-here :
    (pre : List (List ℕ)) (x : ℕ) (p : List ℕ) (post : List (List ℕ))
    → take_from (length pre) (pre ++ ((x ∷ p) ∷ post)) ≡ some (x, pre ++ (p ∷ post))
unfolding take_from behind
take_from-here [] x p post = refl
take_from-here (q ∷ pre) x p post = rw (take_from-here pre x p post) refl

numnum-here :
    (pre : List (List ℕ)) (x : ℕ) (p : List ℕ) (post : List (List ℕ))
    → numnum (pre ++ ((x ∷ p) ∷ post)) ≡ suc (numnum (pre ++ (p ∷ post)))
unfolding numnum
numnum-here [] x p post = omega arith
numnum-here (q ∷ pre) x p post = omega (arith, numnum-here pre x p post)

count_in-here :
    (y : ℕ) (pre : List (List ℕ)) (x : ℕ) (p : List ℕ) (post : List (List ℕ))
    → count_in y (pre ++ ((x ∷ p) ∷ post))
      ≡ (if x == y then 1 else 0) + count_in y (pre ++ (p ∷ post))
count_in-here y [] x p post = omega arith
count_in-here y (q ∷ pre) x p post = omega (arith, count_in-here y pre x p post)

-- What holds for all parts holds if one loses its first number, if it holds for that part then.
All-here :
    (P : List ℕ → Type 0) (pre : List (List ℕ)) (x : ℕ) (p : List ℕ) (post : List (List ℕ))
    → (P (x ∷ p) → P p)
    → All P (pre ++ ((x ∷ p) ∷ post))
    → P (x ∷ p) × All P (pre ++ (p ∷ post))
All-here P [] x p post f (h, hs) = (h, (f h, hs))
All-here P (q ∷ pre) x p post f (h, hs) =
    let rest = All-here P pre x p post f hs in (rest.0, (h, rest.1))

-- The numbers in order, and each as often as before.
record Merged (n minidx : ℕ) (ps : List (List ℕ)) : Type 0 where
  out : List ℕ
  result : merge_loop n minidx ps ≡ some out
  sorted : Sorted out
  counts : (y : ℕ) → count y out ≡ count_in y ps
  lower : (b : ℕ) → AtLeast b ps → All (λ y. b ≤ y) out

none_left :
    (b : ℕ) (ps : List (List ℕ)) → AtLeast b ps → All (λ p. All (λ y. y < b) p) ps → numnum ps ≡ 0
unfolding numnum
none_left b [] h g = refl
none_left b ([] ∷ ps) h g = omega (arith, none_left b ps h.1 g.1)
none_left b ((x ∷ p) ∷ ps) h g = absurd (omega (arith, h.0.0, g.0.0))

no_count : (y : ℕ) (ps : List (List ℕ)) → numnum ps ≡ 0 → count_in y ps ≡ 0
unfolding numnum
no_count y [] h = refl
no_count y ([] ∷ ps) h = omega (arith, no_count y ps (omega arith))
no_count y ((x ∷ p) ∷ ps) h = absurd (omega arith)

merge_loop-Merged :
    (n minidx : ℕ) (ps : List (List ℕ))
    → numnum ps ≡ n
    → All Sorted ps
    → All (λ p. All (λ y. y < long_max) p) ps
    → Merged n minidx ps
unfolding merge_loop merge_next put_number
merge_loop-Merged zero minidx ps e s g = record {
  out = [];
  result = refl;
  sorted = tt;
  counts = λ y. sym (no_count y ps e);
  lower = λ b h. tt;
}
merge_loop-Merged (suc n) minidx ps e s g = elim (find_min-Least ps 0 long_max minidx s) [
  | inl h ↦ absurd (omega (arith, none_left long_max ps h.0 g))
  | inr l ↦
      let ps' = l.pre ++ (l.p ∷ l.post) in
      let s' = All-here Sorted l.pre l.x l.p l.post (λ h. h.1) (rw l.here at s) in
      let g' =
        All-here (λ p. All (λ y. y < long_max) p) l.pre l.x l.p l.post (λ h. h.1)
          (rw l.here at g) in
      let low =
        All-here (λ p. All (λ y. l.x ≤ y) p) l.pre l.x l.p l.post (λ h. h.1)
          (rw l.here at l.least) in
      let size : numnum ps' ≡ n =
        omega (arith, ap numnum l.here, numnum-here l.pre l.x l.p l.post) in
      let m = find_min ps 0 long_max minidx in
      let rest = merge_loop-Merged n m ps' size s'.1 g'.1 in
      let index : m ≡ length l.pre = omega (arith, l.index) in
      let taken : take_from m ps ≡ some (l.x, ps') =
        ap (λ k. take_from k ps) index
        ∙ (ap (take_from (length l.pre)) l.here ∙ take_from-here l.pre l.x l.p l.post) in
      record {
        out = l.x ∷ rest.out;
        result = rw (taken, rest.result) refl;
        sorted = (rest.lower l.x low.1, rest.sorted);
        counts = λ y.
            omega
              (arith, rest.counts y, ap (count_in y) l.here, count_in-here y l.pre l.x l.p l.post);
        lower = λ b h.
            let h' =
              All-here (λ p. All (λ y. b ≤ y) p) l.pre l.x l.p l.post (λ q. q.1) (rw l.here at h) in
            (h'.0.0, rest.lower b h'.1);
      }
]

-- What `heapsort` does with a part: the same numbers, in order.
pub record SortedBy (sort : List ℕ → List ℕ) (p : List ℕ) : Type 0 where
  pub in_order : Sorted (sort p)
  pub same_numbers : (y : ℕ) → count y (sort p) ≡ count y p
  pub small : All (λ y. y < long_max) (sort p)

map-Sorted :
    (sort : List ℕ → List ℕ) (parts : List (List ℕ))
    → All (SortedBy sort) parts
    → All Sorted (map sort parts)
      × All (λ p. All (λ y. y < long_max) p) (map sort parts)
      × ((y : ℕ) → count_in y (map sort parts) ≡ count_in y parts)
map-Sorted sort [] h = (tt, tt, λ y. refl)
map-Sorted sort (p ∷ parts) (h, hs) =
    let (s, g, c) = map-Sorted sort parts hs in
    ((h.in_order, s), (h.small, g), λ y. omega (arith, h.same_numbers y, c y))

-- If `heapsort` puts the numbers of each thread's part in order and they are less than LONG_MAX,
-- then whatever `minidx` is at first, `merge` takes no number from a part that has none left, and
-- its result is in order and has each number as often as the parts have it.
pub sorted_numbers-Sorted :
    (sort : List ℕ → List ℕ) (minidx : ℕ) (parts : List (List ℕ))
    → All (SortedBy sort) parts
    → (out : List ℕ) × (sorted_numbers sort minidx parts ≡ some out)
      × Sorted out
      × ((y : ℕ) → count y out ≡ count_in y parts)
unfolding sorted_numbers merge
sorted_numbers-Sorted sort minidx parts h =
    let (s, g, c) = map-Sorted sort parts h in
    let merged = merge_loop-Merged (numnum (map sort parts)) minidx (map sort parts) refl s g in
    (merged.out, merged.result, merged.sorted, λ y. merged.counts y ∙ c y)
