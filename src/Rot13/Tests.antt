-- ===== src/Rot13/Tests.antt =====
-- The theorems on the asynchronous copy at a file of two bytes.
use learn_apue.Base.{ℕ, ◌≡◌, refl, [], ◌∷◌, arith, map, get_elem?, replicate}
use learn_apue.Bytes.Text.{codes}
use learn_apue.Rot13.Copies.{IsSound, copy-IsSound, copy-ended}
use learn_apue.Rot13.{translate, is_alpha, in_progress, complete, Progress, ended, copy}

translate_text : map translate (codes "Uryyb, Jbeyq") ≡ codes "Hello, World"
unfolding translate is_alpha
translate_text = refl

copy-IsSound_example :
    IsSound
      (codes "Ab")
      (copy (codes "Ab") ((λ j. complete) ∷ (λ j. in_progress) ∷ (λ j. complete) ∷ []))
copy-IsSound_example =
    copy-IsSound (codes "Ab") ((λ j. complete) ∷ (λ j. in_progress) ∷ (λ j. complete) ∷ [])
      ((λ j. tt), ((λ j. tt), ((λ j. tt), tt)))

copy-ended_example :
    (g : Progress) × (copy (codes "Ab") (replicate 7 (λ j. complete)) ≡ ended g)
    × ((p : ℕ) → g.output p ≡ get_elem? (map translate (codes "Ab")) p)
copy-ended_example =
    copy-ended (codes "Ab") (replicate 7 (λ j. complete))
      (
        (λ j. refl),
        (
          (λ j. refl),
          ((λ j. refl), ((λ j. refl), ((λ j. refl), ((λ j. refl), ((λ j. refl), tt))))),
        ),
      )
      (omega arith)
