-- ===== src/Rot13/Slices.antt =====
-- The bytes that advio/rot13c2.c writes for a part of the input file.
use learn_apue.Base.{
  ℕ, zero, suc, ◌+◌, ◌-◌, ◌≤◌, ◌<◌, ◌≡◌, ◌⊎◌, inl, inr, refl, ap, ◌∙◌, true, false, Option, none,
  some, List, [], ◌∷◌, arith, map, take, drop, length, get_elem?, leb,
}
use learn_apue.Rot13.{translate, or_old, put_bytes}

module _ {A B : Type 0} (f : A → B) where
  map-take : (n : ℕ) (xs : List A) → map f (take n xs) ≡ take n (map f xs)
  map-take zero xs = refl
  map-take (suc n) [] = refl
  map-take (suc n) (x ∷ xs) = ap (λ l. f x ∷ l) (map-take n xs)

  map-drop : (n : ℕ) (xs : List A) → map f (drop n xs) ≡ drop n (map f xs)
  map-drop zero xs = refl
  map-drop (suc n) [] = refl
  map-drop (suc n) (x ∷ xs) = map-drop n xs

  pub length-map : (xs : List A) → length (map f xs) ≡ length xs
  length-map [] = refl
  length-map (x ∷ xs) = ap suc (length-map xs)

module _ {A : Type 0} where
  get_elem?-take : (n q : ℕ) (xs : List A) → q < n → get_elem? (take n xs) q ≡ get_elem? xs q
  get_elem?-take zero q xs h = absurd (omega arith)
  get_elem?-take (suc n) q [] h = refl
  get_elem?-take (suc n) zero (x ∷ xs) h = refl
  get_elem?-take (suc n) (suc q) (x ∷ xs) h = get_elem?-take n q xs (omega arith)

  get_elem?-take_beyond : (n q : ℕ) (xs : List A) → n ≤ q → get_elem? (take n xs) q ≡ none
  get_elem?-take_beyond zero q xs h = refl
  get_elem?-take_beyond (suc n) q [] h = refl
  get_elem?-take_beyond (suc n) zero (x ∷ xs) h = absurd (omega arith)
  get_elem?-take_beyond (suc n) (suc q) (x ∷ xs) h = get_elem?-take_beyond n q xs (omega arith)

  get_elem?-drop : (n q : ℕ) (xs : List A) → get_elem? (drop n xs) q ≡ get_elem? xs (n + q)
  get_elem?-drop zero q xs = let e : q ≡ 0 + q = omega arith in ap (λ i. get_elem? xs i) e
  get_elem?-drop (suc n) q [] = refl
  get_elem?-drop (suc n) q (x ∷ xs) =
      let e : suc (n + q) ≡ suc n + q = omega arith in
      get_elem?-drop n q xs ∙ ap (λ i. get_elem? (x ∷ xs) i) e

  pub get_elem?-beyond : (q : ℕ) (xs : List A) → length xs ≤ q → get_elem? xs q ≡ none
  get_elem?-beyond q [] h = refl
  get_elem?-beyond zero (x ∷ xs) h = absurd (omega arith)
  get_elem?-beyond (suc q) (x ∷ xs) h = get_elem?-beyond q xs (omega arith)

-- The translated byte of the input file at an offset.
abbrev pub wanted : List ℕ → ℕ → Option ℕ
wanted input p = get_elem? (map translate input) p

-- Nothing is there yet, or the right byte.
abbrev pub Sound : List ℕ → (ℕ → Option ℕ) → ℕ → Type 0
Sound input output p = (output p ≡ none) ⊎ (output p ≡ wanted input p)

or_old_sound : (w old : Option ℕ) → (old ≡ none) ⊎ (old ≡ w) → or_old w old ≡ w
unfolding or_old
or_old_sound none old (inl e) = e
or_old_sound none old (inr e) = e
or_old_sound (some c) old s = refl

module _ (input : List ℕ) (n o : ℕ) (output : ℕ → Option ℕ) where
  abbrev pub written : ℕ → Option ℕ
  written = put_bytes o (map translate (take n (drop o input))) output

  slice_inside :
      (p : ℕ)
      → o ≤ p
      → p < o + n
      → get_elem? (map translate (take n (drop o input))) (p - o) ≡ wanted input p
  slice_inside p h h' =
      let back : o + (p - o) ≡ p = omega arith in
      rw (map-take translate n (drop o input), map-drop translate o input)
        (get_elem?-take n (p - o) (drop o (map translate input)) (omega arith)
          ∙ get_elem?-drop o (p - o) (map translate input)
          ∙ ap (λ i. wanted input i) back)

  pub written_inside :
      (p : ℕ) → o ≤ p → p < o + n → Sound input output p → written p ≡ wanted input p
  unfolding put_bytes
  written_inside p h h' s =
      let e : leb o p ≡ true = ground arith in
      rw (e, slice_inside p h h') (or_old_sound (wanted input p) (output p) s)

  pub written_outside : (p : ℕ) → (p < o) ⊎ (o + n ≤ p) → written p ≡ output p
  unfolding put_bytes or_old
  written_outside p (inl h) = let e : leb o p ≡ false = ground arith in rw e
  written_outside p (inr h) =
      let e : leb o p ≡ true = ground arith in
      let none' : get_elem? (map translate (take n (drop o input))) (p - o) ≡ none =
        rw (map-take translate n (drop o input))
          (get_elem?-take_beyond n (p - o) (map translate (drop o input)) (omega arith)) in
      rw (e, none')
