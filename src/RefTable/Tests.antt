-- ===== src/RefTable/Tests.antt =====
-- The theorems on the table of objects at a chain of two.
use learn_apue.Base.{◌≡◌, refl, some, [], ◌∷◌, arith, ◌==◌, if◌then◌else◌}
use learn_apue.Base.Int.{pos}
use learn_apue.RefTable.Lifetime.{Chain, foo_rele-Chain, foo_find-foo_alloc}
use learn_apue.RefTable.{Table, foo_hash, foo_alloc, foo_find, foo_rele}

-- The nodes 40 and 48 are in the chain of the identifier 3.
abbrev two_foos : Table
two_foos = record {
  fh = λ i. 40;
  f_next = λ x. if x == 40 then 48 else 0;
  foos = λ x. record { f_count = pos 1; f_id = 3 };
}

foo_rele-Chain_example :
    (u : Table) × (foo_rele 1 48 two_foos ≡ some u) × Chain u.f_next (u.fh 3) (40 ∷ [])
unfolding foo_hash
foo_rele-Chain_example =
    foo_rele-Chain 1 48 3 two_foos (40 ∷ []) [] refl refl
      (refl, ground arith, (refl, ground arith, refl)) ((ground arith, tt), (tt, tt)) (omega arith)

foo_find-foo_alloc_example :
    (u : Table) × ((foo_alloc (some 56) 0 32 two_foos).0 ≡ 56)
    × (foo_find 1 32 (foo_alloc (some 56) 0 32 two_foos).1 ≡ some (56, u))
    × (u.foos 56 ≡ record { f_count = pos 2; f_id = 32 })
    × Chain u.f_next (u.fh (foo_hash 32)) (56 ∷ 40 ∷ 48 ∷ [])
foo_find-foo_alloc_example =
    foo_find-foo_alloc 0 56 32 two_foos (40 ∷ 48 ∷ [])
      (refl, ground arith, (refl, ground arith, refl)) (ground arith)
      (ground arith, (ground arith, tt))
