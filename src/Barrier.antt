-- ===== src/Barrier.antt =====
-- The sort of threads/barrier.c: each thread sorts a part of the numbers, and behind the barrier the parts are
-- merged. A part is a list, of which `idx` leaves the numbers that were not taken. `random` returns no
-- negative number.
pub mod Merging
mod Tests
use learn_apue.Base.{
  ℕ, zero, suc, ◌+◌, Option, none, some, List, [], ◌∷◌, map, length, ltb, if◌then◌else◌,
}

-- LONG_MAX
abbrev pub long_max : ℕ
long_max = 9223372036854775807

-- The test of `merge` at a part that has numbers left.
unfoldable pub try_part : List ℕ → ℕ → ℕ → ℕ → (ℕ → ℕ → ℕ) → ℕ
try_part [] i num minidx rest = rest num minidx
try_part (x ∷ p) i num minidx rest =
    let less = rest x i in let not_less = rest num minidx in if ltb x num then less else not_less

-- The inner loop of `merge` over the parts from the index: what `minidx` is after it.
unfoldable pub find_min : List (List ℕ) → ℕ → ℕ → ℕ → ℕ
find_min [] i num minidx = minidx
find_min (p ∷ ps) i num minidx = try_part p i num minidx (find_min ps (suc i))

unfoldable pub behind : List ℕ → Option (ℕ × List (List ℕ)) → Option (ℕ × List (List ℕ))
behind p none = none
behind p (some (x, ps)) = some (x, p ∷ ps)

-- `nums[idx[minidx]]` and `idx[minidx]++`, none if nothing is left of the part.
unfoldable pub take_from : ℕ → List (List ℕ) → Option (ℕ × List (List ℕ))
take_from m [] = none
take_from zero ([] ∷ ps) = none
take_from zero ((x ∷ p) ∷ ps) = some (x, p ∷ ps)
take_from (suc m) (p ∷ ps) = behind p (take_from m ps)

unfoldable pub put_number : ℕ → Option (List ℕ) → Option (List ℕ)
put_number x none = none
put_number x (some l) = some (x ∷ l)

unfoldable pub merge_next :
    (List (List ℕ) → Option (List ℕ)) → Option (ℕ × List (List ℕ)) → Option (List ℕ)
merge_next rest none = none
merge_next rest (some (x, ps)) = put_number x (rest ps)

-- The outer loop of `merge` for so many numbers, with the `minidx` that the round before has left.
unfoldable pub merge_loop : ℕ → ℕ → List (List ℕ) → Option (List ℕ)
merge_loop zero minidx ps = some []
merge_loop (suc n) minidx ps =
    let m = find_min ps 0 long_max minidx in merge_next (merge_loop n m) (take_from m ps)

-- How many numbers there are.
unfoldable pub numnum : List (List ℕ) → ℕ
numnum [] = 0
numnum (p ∷ ps) = length p + numnum ps

-- `merge`; `minidx` is not set before it is first used.
unfoldable pub merge : ℕ → List (List ℕ) → Option (List ℕ)
merge minidx ps = merge_loop (numnum ps) minidx ps

-- What `main` gets if `heapsort` makes the list `sort p` of a part.
unfoldable pub sorted_numbers : (List ℕ → List ℕ) → ℕ → List (List ℕ) → Option (List ℕ)
sorted_numbers sort minidx parts = merge minidx (map sort parts)
