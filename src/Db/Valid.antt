-- ===== src/Db/Valid.antt =====
-- The invariant of a database: how its chains lie in the two files. Chain 0 is the free list and
-- chain `suc h` the hash chain `h`; the pointer of chain `j` stands at `j * PTR_SZ`.
use learn_apue.Base.{
  ℕ, suc, ◌*◌, ◌≤◌, ◌<◌, ◌≡◌, ◌≢◌, ◌⊎◌, inl, inr, refl, sym, ◌∙◌, Option, List, [], ◌∷◌, arith,
  length, All, ◌==◌, if◌then◌else◌, ==_refl,
}
use learn_apue.Bytes.Decimal.{pad}
use learn_apue.Bytes.File.{File, Holds}
use learn_apue.Db.Chain.{head_to, Chain}
use learn_apue.Db.Layout.{Region, region, regions, In, Apart, Apart-sym}
use learn_apue.Db.Ops.{hash}
use learn_apue.Db.Pairs.{pairs, find, Unique}
use learn_apue.Db.Records.{Entry}
use learn_apue.Db.State.{Db, ptr_max, nhash_def, hash_off}

abbrev pub Chains : Type 0
Chains = ℕ → List Entry

unfoldable pub put : ℕ → List Entry → Chains → Chains
put j es cs k = if k == j then es else cs k

pub put_self : (j : ℕ) (es : List Entry) (cs : Chains) → put j es cs j ≡ es
unfolding put
put_self j es cs = rw (==_refl j)

pub put_ne : (j k : ℕ) (es : List Entry) (cs : Chains) → k ≢ j → put j es cs k ≡ cs k
unfolding put
put_ne j k es cs h = ground arith

pub put_cases :
    (j k : ℕ) (es : List Entry) (cs : Chains)
    → ((k ≡ j) × (put j es cs k ≡ es)) ⊎ ((k ≢ j) × (put j es cs k ≡ cs k))
unfolding put
put_cases j k es cs = ground arith

abbrev pub Distinct : List Region → Type 0
Distinct [] = Unit
Distinct (r ∷ l) = ((x : Region) → In x l → Apart r x) × Distinct l

-- A region that no record of the chains touches.
abbrev pub IsFree : Region → Chains → Type 0
IsFree r cs = (j : ℕ) (x : Region) → In x (regions (cs j)) → Apart r x

-- How the chains lie in the files.
pub record Laid (i d : File) (cs : Chains) : Type 0 where
  pub table : 967 ≤ length i
  pub heads : (j : ℕ) → j < 138 → Holds i (j * 7) (pad 7 (head_to 0 (cs j)))
  pub chains : (j : ℕ) → Chain i d (cs j)
  pub beyond : (j : ℕ) (r : Region) → In r (regions (cs j)) → (967 ≤ r.off) × (r.off ≤ ptr_max)
  pub within : (j : ℕ) → Distinct (regions (cs j))
  pub between :
      (j k : ℕ) → j ≢ k → (a b : Region) → In a (regions (cs j)) → In b (regions (cs k)) → Apart a b

-- A key stands in the hash chain of its hash value, and at most once.
pub record Keyed (cs : Chains) : Type 0 where
  pub home : (h : ℕ) → All (λ (key, value). hash nhash_def key ≡ h) (pairs (cs (suc h)))
  pub unique : (h : ℕ) → Unique (pairs (cs (suc h)))

-- The data under a key.
unfoldable pub view : Chains → List ℕ → Option (List ℕ)
view cs key = find key (pairs (cs (suc (hash nhash_def key))))

-- A database between two calls.
pub record Valid (s : Db) (cs : Chains) : Type 0 where
  pub unlocked : s.locks ≡ []
  pub nhash : s.nhash ≡ nhash_def
  pub hashoff : s.hashoff ≡ hash_off
  pub laid : Laid s.idx s.dat cs
  pub keyed : Keyed cs

-- A head of a chain is a place of the index file, or 0.
pub head-le : {i d : File} {cs : Chains} → Laid i d cs → (j : ℕ) → head_to 0 (cs j) ≤ ptr_max
head-le {cs} l j = go (cs j) (l.beyond j)
  where
    go :
        (es : List Entry)
        → ((r : Region) → In r (regions es) → (967 ≤ r.off) × (r.off ≤ ptr_max))
        → head_to 0 es ≤ ptr_max
    go [] h = omega arith
    go (e ∷ es) h = (h (region e) (inl refl)).1

-- One chain is exchanged for another; what must be known of the new one.
module _ {i d : File} {cs : Chains} (l : Laid i d cs) (j : ℕ) (es : List Entry) where
  pub put-beyond :
      ((r : Region) → In r (regions es) → (967 ≤ r.off) × (r.off ≤ ptr_max))
      → (k : ℕ) (r : Region) → In r (regions (put j es cs k))
      → (967 ≤ r.off) × (r.off ≤ ptr_max)
  put-beyond h k r m = elim (put_cases j k es cs) [
    | inl (e, p) ↦ h r (rw p at m)
    | inr (n, p) ↦ l.beyond k r (rw p at m)
  ]

  pub put-within : Distinct (regions es) → (k : ℕ) → Distinct (regions (put j es cs k))
  put-within h k = elim (put_cases j k es cs) [
    | inl (e, p) ↦ rw p h
    | inr (n, p) ↦ rw p (l.within k)
  ]

  pub put-between :
      ((k : ℕ) → k ≢ j → (a b : Region) → In a (regions es) → In b (regions (cs k)) → Apart a b)
      → (k m : ℕ) → k ≢ m
      → (a b : Region) → In a (regions (put j es cs k))
      → In b (regions (put j es cs m))
      → Apart a b
  put-between h k m ne a b ka mb = elim (put_cases j k es cs) [
    | inl (e, p) ↦ elim (put_cases j m es cs) [
      | inl (e', q) ↦ absurd (ne (e ∙ sym e'))
      | inr (n', q) ↦ h m n' a b (rw p at ka) (rw q at mb)
    ]
    | inr (n, p) ↦ elim (put_cases j m es cs) [
      | inl (e', q) ↦ Apart-sym b a (h k n b a (rw q at mb) (rw p at ka))
      | inr (n', q) ↦ l.between k m ne a b (rw p at ka) (rw q at mb)
    ]
  ]
