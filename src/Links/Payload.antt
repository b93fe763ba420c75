-- ===== src/Links/Payload.antt =====
-- What the nodes of a list carry.
use learn_apue.Base.{
  ℕ, ◌≡◌, refl, ap, false, List, [], ◌∷◌, ◌++◌, arith, ◌==◌, if◌then◌else◌, ==_refl,
}
use learn_apue.Links.Segments.{Away}

module _ {ℓ} {A : Type ℓ} where
  -- `memcpy` into a new node.
  unfoldable pub put_at : ℕ → A → (ℕ → A) → ℕ → A
  put_at a v f x = if x == a then v else f x

  -- What the nodes of a list carry, in their order.
  abbrev pub contents : (ℕ → A) → List ℕ → List A
  contents f [] = []
  contents f (x ∷ xs) = f x ∷ contents f xs

  pub contents-put_at :
      (a : ℕ) (v : A) (f : ℕ → A) (xs : List ℕ)
      → Away a xs
      → contents (put_at a v f) xs ≡ contents f xs
  unfolding put_at
  contents-put_at a v f [] w = refl
  contents-put_at a v f (x ∷ xs) (ne, w) =
      let e : (x == a) ≡ false = ground arith in rw (e, contents-put_at a v f xs w)

  pub contents-append :
      (f : ℕ → A) (xs ys : List ℕ) → contents f (xs ++ ys) ≡ contents f xs ++ contents f ys
  contents-append f [] ys = refl
  contents-append f (x ∷ xs) ys = ap (λ l. f x ∷ l) (contents-append f xs ys)

  pub put_at_self : (a : ℕ) (v : A) (f : ℕ → A) → put_at a v f a ≡ v
  unfolding put_at
  put_at_self a v f = rw (==_refl a)
