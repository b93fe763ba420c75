-- ===== src/Barrier/Tests.antt =====
-- The merge at two parts of two numbers.
use learn_apue.Base.{ℕ, ◌≡◌, refl, some, List, [], ◌∷◌, All, arith}
use learn_apue.Barrier.Merging.{Sorted, count, count_in, SortedBy, sorted_numbers-Sorted}
use learn_apue.Barrier.{
  sorted_numbers, merge, merge_loop, merge_next, put_number, take_from, behind, find_min, try_part,
  numnum,
}

-- A sort of two numbers.
abbrev swap_first : List ℕ → List ℕ
swap_first [] = []
swap_first (x ∷ []) = x ∷ []
swap_first (x ∷ y ∷ l) = y ∷ x ∷ l

abbrev two_parts : List (List ℕ)
two_parts = (5 ∷ 2 ∷ []) ∷ (7 ∷ 3 ∷ []) ∷ []

merged_parts : sorted_numbers swap_first 9 two_parts ≡ some (2 ∷ 3 ∷ 5 ∷ 7 ∷ [])
unfolding sorted_numbers merge merge_loop merge_next put_number take_from behind find_min try_part
    numnum
merged_parts = refl

two_parts-SortedBy : All (SortedBy swap_first) two_parts
two_parts-SortedBy = (
  record {
    in_order = ((omega arith, tt), (tt, tt));
    same_numbers = λ y. omega arith;
    small = (omega arith, (omega arith, tt));
  },
  (
    record {
      in_order = ((omega arith, tt), (tt, tt));
      same_numbers = λ y. omega arith;
      small = (omega arith, (omega arith, tt));
    },
    tt,
  ),
)

sorted_numbers-Sorted_example :
    (out : List ℕ) × (sorted_numbers swap_first 9 two_parts ≡ some out)
    × Sorted out
    × ((y : ℕ) → count y out ≡ count_in y two_parts)
sorted_numbers-Sorted_example = sorted_numbers-Sorted swap_first 9 two_parts two_parts-SortedBy
