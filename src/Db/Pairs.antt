-- ===== src/Db/Pairs.antt =====
-- The contents of a chain: pairs of a key and data.
use learn_apue.Base.{
  ◌≡◌, ◌≢◌, refl, sym, ◌∙◌, true, Option, none, some, List, [], ◌∷◌, arith, ℕ, All, if◌then◌else◌,
  str_eq, str_eq_refl, eq_of_str_eq, Bool-cases, inl, inr,
}
use learn_apue.Db.Chain.{lookup}
use learn_apue.Db.Records.{Entry}
use mathlib.Core.Option

abbrev pub payload : Entry → List ℕ × List ℕ
payload e = (e.key, e.value)

abbrev pub pairs : List Entry → List (List ℕ × List ℕ)
pairs [] = []
pairs (e ∷ es) = payload e ∷ pairs es

-- The data of the first pair under a key.
unfoldable pub find : List ℕ → List (List ℕ × List ℕ) → Option (List ℕ)
find key [] = none
find key ((k, v) ∷ l) = if str_eq k key then some v else find key l

pub find-lookup :
    (key : List ℕ) (es : List Entry)
    → Option.map (λ (e : Entry). e.value) (lookup key es) ≡ find key (pairs es)
unfolding find lookup
find-lookup key [] = refl
find-lookup key (e ∷ es) = elim (Bool-cases (str_eq e.key key)) [
  | inl hit ↦ rw hit
  | inr miss ↦ rw miss (find-lookup key es)
]

abbrev pub Unique : List (List ℕ × List ℕ) → Type 0
Unique [] = Unit
Unique ((k, v) ∷ l) = (find k l ≡ none) × Unique l

-- `l'` is `l` less one occurrence of `r`.
pub data Removed {ℓ} {A : Type ℓ} (r : A) : List A → List A → Type ℓ where
  here : {l : List A} → Removed r (r ∷ l) l
  there : {x : A} {l l' : List A} → Removed r l l' → Removed r (x ∷ l) (x ∷ l')

pub All-Removed {ℓ κ} :
    {A : Type ℓ} (P : A → Type κ) {r : A} {l l' : List A} → Removed r l l' → All P l → All P l'
All-Removed P here h = h.1
All-Removed P (there m) h = (h.0, All-Removed P m h.1)

find-none-Removed :
    (q : List ℕ) {r : List ℕ × List ℕ} {l l' : List (List ℕ × List ℕ)}
    → Removed r l l'
    → find q l ≡ none
    → find q l' ≡ none
unfolding find
find-none-Removed q here h = ground arith
find-none-Removed q (there m) h = ground (arith, find-none-Removed q m)

find-same_key :
    (k q : List ℕ) (l : List (List ℕ × List ℕ)) → str_eq k q ≡ true → find q l ≡ find k l
find-same_key k q l h = rw (eq_of_str_eq k q h)

find-present :
    {r : List ℕ × List ℕ} {l l' : List (List ℕ × List ℕ)} → Removed r l l' → find r.0 l ≢ none
unfolding find
find-present {r} here h = ground (arith, str_eq_refl r.0)
find-present {r} (there {x} m) h = ground (arith, find-present m)

-- Removing a pair from a list with unique keys empties its key, and no other.
pub find-Removed :
    (q : List ℕ) {r : List ℕ × List ℕ} {l l' : List (List ℕ × List ℕ)}
    → Removed r l l'
    → Unique l
    → Unique l' × (find q l' ≡ (if str_eq r.0 q then none else find q l))
unfolding find
find-Removed q {r} (here {l}) u = (u.1, ground (arith, find-same_key r.0 q l))
find-Removed q {r} (there {x} {l} {l'} m) u =
    let (rest, value) = find-Removed q m u.1 in
    (
      (find-none-Removed x.0 m u.0, rest),
      elim (Bool-cases (str_eq r.0 q)) [
        | inl hit ↦ elim (Bool-cases (str_eq x.0 q)) [
          | inl both ↦
              let same : x.0 ≡ r.0 = eq_of_str_eq x.0 q both ∙ sym (eq_of_str_eq r.0 q hit) in
              absurd (find-present m (rw same at u.0))
          | inr miss ↦ ground arith
        ]
        | inr other ↦ ground arith
      ],
    )
