-- ===== src/Db/Between.antt =====
-- What the invariant says of the next call.
use learn_apue.Base.{
  ℕ, suc, ◌*◌, ◌<◌, ◌≡◌, refl, sym, ap, none, some, List, [], ◌∷◌, arith, All, if◌then◌else◌,
  str_eq, eq_of_str_eq, Bool-cases, inl, inr,
}
use learn_apue.Db.Chain.{settle}
use learn_apue.Db.Ops.{hash, slot_of}
use learn_apue.Db.Pairs.{pairs, find, Removed, All-Removed, find-Removed}
use learn_apue.Db.Records.{Entry}
use learn_apue.Db.Search.{HasChain}
use learn_apue.Db.State.{Db, nhash_def}
use learn_apue.Db.Valid.{Chains, Keyed, Valid, view, put, put_ne, put_cases, head-le}
use mathlib.Core.Path.{subst}

abbrev pub slot_h : List ℕ → ℕ
slot_h key = suc (hash nhash_def key)

-- The invariant asks nothing of what a search changes.
to_settle : {s : Db} {cs : Chains} → Valid s cs → Valid (settle s) cs
to_settle v = record {
  unlocked = v.unlocked;
  nhash = v.nhash;
  hashoff = v.hashoff;
  laid = v.laid;
  keyed = v.keyed;
}

from_settle : {s : Db} {cs : Chains} → Valid (settle s) cs → Valid s cs
from_settle v = record {
  unlocked = v.unlocked;
  nhash = v.nhash;
  hashoff = v.hashoff;
  laid = v.laid;
  keyed = v.keyed;
}

pub Valid-settle : {s t : Db} {cs : Chains} → settle t ≡ settle s → Valid s cs → Valid t cs
Valid-settle {s} {t} {cs} e v = from_settle (subst (λ (x : Db). Valid x cs) (sym e) (to_settle v))

pub hash-lt : (key : List ℕ) → hash nhash_def key < 137
unfolding hash
hash-lt key = omega arith

pub slot_lem : {s : Db} {cs : Chains} (key : List ℕ) → Valid s cs → slot_of s key ≡ slot_h key * 7
slot_lem key v = rw (v.nhash, v.hashoff) (omega arith)

pub Valid-HasChain :
    {s : Db} {cs : Chains} (key : List ℕ) → Valid s cs → HasChain s key (cs (slot_h key))
Valid-HasChain {s} {cs} key v = record {
  unlocked = v.unlocked;
  head_le = head-le v.laid (slot_h key);
  pointer = rw (slot_lem key v) (v.laid.heads (slot_h key) (omega (arith, hash-lt key)));
  chain = v.laid.chains (slot_h key);
}

-- A record leaves a hash chain: the keys stay in their chains, and its key alone loses its data.
module _ {cs : Chains} (k : Keyed cs) (h : ℕ) (es' : List Entry) {r : List ℕ × List ℕ}
    (rem : Removed r (pairs (cs (suc h))) (pairs es')) where
  pub Keyed-removed : Keyed (put (suc h) es' cs)
  Keyed-removed = record {
    home = λ g. elim (put_cases (suc h) (suc g) es' cs) [
      | inl (e, p) ↦
          let same : g ≡ h = omega arith in
          rw (p, same)
            (All-Removed (λ (q : List ℕ × List ℕ). hash nhash_def q.0 ≡ h) rem (k.home h))
      | inr (n, p) ↦ rw p (k.home g)
    ];
    unique = λ g. elim (put_cases (suc h) (suc g) es' cs) [
      | inl (e, p) ↦ rw p (find-Removed [] rem (k.unique h)).0
      | inr (n, p) ↦ rw p (k.unique g)
    ];
  }

  pub view-removed :
      hash nhash_def r.0 ≡ h
      → (q : List ℕ) → view (put (suc h) es' cs) q ≡ (if str_eq r.0 q then none else view cs q)
  unfolding view
  view-removed home q = elim (put_cases (suc h) (slot_h q) es' cs) [
    | inl (e, p) ↦
        let same : hash nhash_def q ≡ h = omega arith in
        rw (p, same) (find-Removed q rem (k.unique h)).1
    | inr (n, p) ↦ elim (Bool-cases (str_eq r.0 q)) [
      | inl hit ↦
          let same : slot_h q ≡ suc h = rw (← eq_of_str_eq r.0 q hit, home) in absurd (n same)
      | inr miss ↦ rw (p, miss)
    ]
  ]

-- The free list holds no keys of its own.
pub Keyed-put_zero : {cs : Chains} (es : List Entry) → Keyed cs → Keyed (put 0 es cs)
Keyed-put_zero {cs} es k = record {
  home = λ g. rw (put_ne 0 (suc g) es cs (omega arith)) (k.home g);
  unique = λ g. rw (put_ne 0 (suc g) es cs (omega arith)) (k.unique g);
}

pub view-put_zero : (cs : Chains) (es : List Entry) (q : List ℕ) → view (put 0 es cs) q ≡ view cs q
unfolding view
view-put_zero cs es q = rw (put_ne 0 (slot_h q) es cs (omega arith))

-- A record comes to the front of the hash chain of its key, which was not there.
module _ {cs : Chains} (k : Keyed cs) (e : Entry)
    (absent : find e.key (pairs (cs (slot_h e.key))) ≡ none) where
  abbrev pub added : Chains
  added = put (slot_h e.key) (e ∷ cs (slot_h e.key)) cs

  pub Keyed-added : Keyed added
  Keyed-added = record {
    home = λ g. elim (put_cases (slot_h e.key) (suc g) (e ∷ cs (slot_h e.key)) cs) [
      | inl (q, p) ↦
          let same : hash nhash_def e.key ≡ g = omega arith in
          rw p (
            subst
              (λ (h : ℕ).
                All (λ (q : List ℕ × List ℕ). hash nhash_def q.0 ≡ h)
                  (pairs (e ∷ cs (slot_h e.key))))
              same (refl, k.home (hash nhash_def e.key)))
      | inr (n, p) ↦ rw p (k.home g)
    ];
    unique = λ g. elim (put_cases (slot_h e.key) (suc g) (e ∷ cs (slot_h e.key)) cs) [
      | inl (q, p) ↦ rw p (absent, k.unique (hash nhash_def e.key))
      | inr (n, p) ↦ rw p (k.unique g)
    ];
  }

  pub view-added :
      (q : List ℕ) → view added q ≡ (if str_eq e.key q then some e.value else view cs q)
  unfolding view find
  view-added q = elim (put_cases (slot_h e.key) (slot_h q) (e ∷ cs (slot_h e.key)) cs) [
    | inl (same, p) ↦ rw (p, same)
    | inr (n, p) ↦ elim (Bool-cases (str_eq e.key q)) [
      | inl hit ↦ absurd (n (ap slot_h (sym (eq_of_str_eq e.key q hit))))
      | inr miss ↦ rw (p, miss)
    ]
  ]
