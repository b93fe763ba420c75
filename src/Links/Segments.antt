-- ===== src/Links/Segments.antt =====
-- Runs of nodes that are linked in both directions.
use learn_apue.Base.{
  ℕ, ◌≡◌, ◌≢◌, refl, List, [], ◌∷◌, ◌++◌, arith, All, ◌==◌, if◌then◌else◌, ==_refl,
}

-- A pointer field of all nodes, and a store into it.
abbrev pub Field : Type 0
Field = ℕ → ℕ

abbrev pub upd : Field → ℕ → ℕ → Field
upd f a v x = if x == a then v else f x

-- The first node of a run that leads to `b`, and the last of one that `a` leads to.
abbrev pub front : List ℕ → ℕ → ℕ
front [] b = b
front (x ∷ xs) b = x

abbrev pub back : ℕ → List ℕ → ℕ
back a [] = a
back a (x ∷ xs) = back x xs

-- The nodes are linked in their order, from `a` in front of them to `b` behind them.
abbrev pub Seg : Field → Field → ℕ → List ℕ → ℕ → Type 0
Seg n p a [] b = Unit
Seg n p a (x ∷ xs) b = (p x ≡ a) × (n x ≡ front xs b) × Seg n p x xs b

abbrev pub Away : ℕ → List ℕ → Type 0
Away a = All (λ x. x ≢ a)

abbrev pub NoRepeats : List ℕ → Type 0
NoRepeats [] = Unit
NoRepeats (x ∷ xs) = Away x xs × NoRepeats xs

pub upd_self : (f : Field) (a v : ℕ) → upd f a v a ≡ v
upd_self f a v = rw (==_refl a)

pub upd_ne : (f : Field) (a v x : ℕ) → x ≢ a → upd f a v x ≡ f x
upd_ne f a v x h = ground arith

pub All-back {κ} : (P : ℕ → Type κ) (x : ℕ) (xs : List ℕ) → All P (x ∷ xs) → P (back x xs)
All-back P x [] h = h.0
All-back P x (y ∷ ys) h = All-back P y ys h.1

pub back-append : (a : ℕ) (xs ys : List ℕ) → back a (xs ++ ys) ≡ back (back a xs) ys
back-append a [] ys = refl
back-append a (x ∷ xs) ys = back-append x xs ys

pub front-append : (xs ys : List ℕ) (b : ℕ) → front (xs ++ ys) b ≡ front xs (front ys b)
front-append [] ys b = refl
front-append (x ∷ xs) ys b = refl

-- A store into a node that is not of the run leaves it linked.
pub Seg-upd_next :
    (n p : Field) (a : ℕ) (xs : List ℕ) (b c v : ℕ)
    → Away c xs
    → Seg n p a xs b
    → Seg (upd n c v) p a xs b
Seg-upd_next n p a [] b c v w s = tt
Seg-upd_next n p a (x ∷ xs) b c v (ne, w) (before, after, s) =
    (before, rw (upd_ne n c v x ne) after, Seg-upd_next n p x xs b c v w s)

pub Seg-upd_prev :
    (n p : Field) (a : ℕ) (xs : List ℕ) (b c v : ℕ)
    → Away c xs
    → Seg n p a xs b
    → Seg n (upd p c v) a xs b
Seg-upd_prev n p a [] b c v w s = tt
Seg-upd_prev n p a (x ∷ xs) b c v (ne, w) (before, after, s) =
    (rw (upd_ne p c v x ne) before, after, Seg-upd_prev n p x xs b c v w s)

-- The run is led to another node by its last node.
pub Seg-relink_next :
    (n p : Field) (a x : ℕ) (xs : List ℕ) (b c : ℕ)
    → NoRepeats (x ∷ xs)
    → Seg n p a (x ∷ xs) b
    → Seg (upd n (back x xs) c) p a (x ∷ xs) c
Seg-relink_next n p a x [] b c d (before, after, s) = (before, upd_self n x c, tt)
Seg-relink_next n p a x (y ∷ ys) b c (w, d) (before, after, s) =
    let ne : x ≢ back y ys = ground (arith, All-back (λ z. z ≢ x) y ys w) in
    (before, rw (upd_ne n (back y ys) c x ne) after, Seg-relink_next n p x y ys b c d s)

-- The run hangs on another node by its first node.
pub Seg-relink_prev :
    (n p : Field) (a x : ℕ) (xs : List ℕ) (b c : ℕ)
    → NoRepeats (x ∷ xs)
    → Seg n p a (x ∷ xs) b
    → Seg n (upd p x c) c (x ∷ xs) b
Seg-relink_prev n p a x xs b c (w, d) (before, after, s) =
    (upd_self p x c, after, Seg-upd_prev n p x xs b x c w s)

pub Seg-split :
    (n p : Field) (a : ℕ) (xs ys : List ℕ) (b : ℕ)
    → Seg n p a (xs ++ ys) b
    → Seg n p a xs (front ys b) × Seg n p (back a xs) ys b
Seg-split n p a [] ys b s = (tt, s)
Seg-split n p a (x ∷ xs) ys b (before, after, s) =
    let (l, r) = Seg-split n p x xs ys b s in ((before, rw (front-append xs ys b) at after, l), r)

pub Seg-join :
    (n p : Field) (a : ℕ) (xs ys : List ℕ) (b : ℕ)
    → Seg n p a xs (front ys b)
    → Seg n p (back a xs) ys b
    → Seg n p a (xs ++ ys) b
Seg-join n p a [] ys b l r = r
Seg-join n p a (x ∷ xs) ys b (before, after, l) r =
    (before, rw (front-append xs ys b) after, Seg-join n p x xs ys b l r)

pub Away-split : (c : ℕ) (xs ys : List ℕ) → Away c (xs ++ ys) → Away c xs × Away c ys
Away-split c [] ys w = (tt, w)
Away-split c (x ∷ xs) ys (ne, w) = let (l, r) = Away-split c xs ys w in ((ne, l), r)

pub Away-join : (c : ℕ) (xs ys : List ℕ) → Away c xs → Away c ys → Away c (xs ++ ys)
Away-join c [] ys l r = r
Away-join c (x ∷ xs) ys (ne, l) r = (ne, Away-join c xs ys l r)

-- No node of one list is a node of the other.
abbrev pub Disjoint : List ℕ → List ℕ → Type 0
Disjoint xs ys = All (λ x. Away x ys) xs

pub NoRepeats-split :
    (xs ys : List ℕ) → NoRepeats (xs ++ ys) → NoRepeats xs × NoRepeats ys × Disjoint xs ys
NoRepeats-split [] ys d = (tt, d, tt)
NoRepeats-split (x ∷ xs) ys (w, d) =
    let (l, r, apart) = NoRepeats-split xs ys d in
    let (wl, wr) = Away-split x xs ys w in ((wl, l), r, (wr, apart))

pub NoRepeats-join :
    (xs ys : List ℕ) → NoRepeats xs → NoRepeats ys → Disjoint xs ys → NoRepeats (xs ++ ys)
NoRepeats-join [] ys l r apart = r
NoRepeats-join (x ∷ xs) ys (w, l) r (wr, apart) =
    (Away-join x xs ys w wr, NoRepeats-join xs ys l r apart)

pub Away-sym : (c : ℕ) (xs ys : List ℕ) → Disjoint xs (c ∷ ys) → Away c xs
Away-sym c [] ys h = tt
Away-sym c (x ∷ xs) ys ((ne, w), h) = (ground arith, Away-sym c xs ys h)
