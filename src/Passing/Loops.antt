-- ===== src/Passing/Loops.antt =====
-- The loop of lib/writen.c over partial writes.
use learn_apue.Base.{
  ℕ, suc, ◌+◌, ◌-◌, ◌≡◌, refl, ap, ◌∙◌, some, List, [], ◌∷◌, ◌++◌, arith, ◌==◌, false,
  if◌then◌else◌,
}
use learn_apue.Base.Int.{ℤ, pos, negsuc}
use learn_apue.Passing.{writen, writen_loop}

-- Writes that each take a byte and some more.
abbrev pub writes : List ℕ → List ℤ
writes [] = []
writes (m ∷ ms) = pos (suc m) ∷ writes ms

abbrev pub total : List ℕ → ℕ
total [] = 0
total (m ∷ ms) = suc m + total ms

failed_loop :
    (n : ℕ) (ms : List ℕ) (k e : ℕ) (rest : List ℤ)
    → writen_loop n (total ms + suc k) (writes ms ++ (negsuc e ∷ rest))
      ≡ (if suc k == n then some (negsuc 0) else some (pos (n - suc k)))
unfolding writen_loop
failed_loop n [] k e rest = let p : 0 + suc k ≡ suc k = omega arith in rw p
failed_loop n (m ∷ ms) k e rest =
    let p : suc m + total ms + suc k ≡ suc (m + total ms + k + 1) = omega arith in
    let q : suc (m + total ms + k + 1) - suc m ≡ total ms + suc k = omega arith in
    let here = writes (m ∷ ms) ++ (negsuc e ∷ rest) in
    let there = writes ms ++ (negsuc e ∷ rest) in
    ap (λ x. writen_loop n x here) p ∙ ap (λ x. writen_loop n x there) q ∙ failed_loop n ms k e rest

whole_loop :
    (n : ℕ) (ms : List ℕ) (rest : List ℤ)
    → writen_loop n (total ms) (writes ms ++ rest) ≡ some (pos n)
unfolding writen_loop
whole_loop n [] rest = refl
whole_loop n (m ∷ ms) rest =
    let p : suc m + total ms ≡ suc (m + total ms) = omega arith in
    let q : suc (m + total ms) - suc m ≡ total ms = omega arith in
    ap (λ x. writen_loop n x (writes (m ∷ ms) ++ rest)) p
    ∙ ap (λ x. writen_loop n x (writes ms ++ rest)) q
    ∙ whole_loop n ms rest

-- If the writes take all bytes between them, whatever the size of each, `writen` returns the
-- number of bytes; if at least one write succeeds, and then one fails before all bytes are
-- written, `writen` returns the number of bytes written so far.
pub writen-writes :
    (m : ℕ) (ms : List ℕ) (k e : ℕ) (rest : List ℤ)
    → (writen (total (m ∷ ms)) (writes (m ∷ ms) ++ rest) ≡ some (pos (total (m ∷ ms))))
      × (writen (total (m ∷ ms) + suc k) (writes (m ∷ ms) ++ (negsuc e ∷ rest))
          ≡ some (pos (total (m ∷ ms))))
unfolding writen
writen-writes m ms k e rest =
    let n = total (m ∷ ms) + suc k in
    let ne : (suc k == n) ≡ false = ground arith in
    let left : n - suc k ≡ total (m ∷ ms) = omega arith in
    (whole_loop (total (m ∷ ms)) (m ∷ ms) rest, rw (failed_loop n (m ∷ ms) k e rest, ne, left))
