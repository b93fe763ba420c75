-- ===== src/OpenServer/Table.antt =====
-- The descriptors in the table of clients of ipc2/open_server/client_management.c, by index.
use learn_apue.Base.{
  ℕ, zero, suc, ◌≡◌, refl, sym, ap, ◌∙◌, ◌⊎◌, inl, inr, true, false, Option, none, some, List, [],
  ◌∷◌, ◌++◌, arith, replicate, get_elem?, length, length-append, ◌<◌, ◌≤◌, ◌==◌, Bool-cases,
  if◌then◌else◌,
}
use learn_apue.Base.Int.{ℤ, pos, negsuc, eqb_ℤ}
use learn_apue.OpenServer.Clients.{
  Client, available, client_alloc, take_entry, or_again, add_loop, client_add, client_del,
}

-- The descriptor at an index, -1 behind the table.
abbrev pub fd_at : List Client → ℕ → ℤ
fd_at [] i = negsuc 0
fd_at (c ∷ cs) zero = c.fd
fd_at (c ∷ cs) (suc i) = fd_at cs i

eq_of_eqb : (a : ℤ) (n : ℕ) → eqb_ℤ a (pos n) ≡ true → a ≡ pos n
eq_of_eqb (pos m) n h = let e : m ≡ n = ground arith in ap pos e
eq_of_eqb (negsuc m) n h = absurd (ground arith)

eq_minus_one : (a : ℤ) → eqb_ℤ a (negsuc 0) ≡ true → a ≡ negsuc 0
eq_minus_one (pos m) h = absurd (ground arith)
eq_minus_one (negsuc m) h = let e : m ≡ 0 = ground arith in ap negsuc e

eqb_of_eq : (a : ℤ) (n : ℕ) → a ≡ pos n → eqb_ℤ a (pos n) ≡ true
eqb_of_eq a n e = rw e (ground arith)

-- The first entry that is available has got the descriptor, and the others are as before.
pub record Added (cs : List Client) (fd : ℕ) (r : Option (ℕ × List Client)) : Type 0 where
  pub i : ℕ
  pub l : List Client
  pub result : r ≡ some (i, l)
  pub free : fd_at cs i ≡ negsuc 0
  pub inside : i < length l
  pub grown : length cs ≤ length l
  pub at : (j : ℕ) → fd_at l j ≡ (if j == i then pos fd else fd_at cs j)

Added-first :
    (c : Client) (cs : List Client) (fd uid : ℕ)
    → eqb_ℤ c.fd (negsuc 0) ≡ true
    → Added (c ∷ cs) fd (take_entry (pos fd) uid (c ∷ cs))
unfolding take_entry
Added-first c cs fd uid free = record {
  i = 0;
  l = record { fd = pos fd; uid = some uid } ∷ cs;
  result = rw free refl;
  free = eq_minus_one c.fd free;
  inside = omega arith;
  grown = omega arith;
  at = λ j. at j;
}
  where
    at :
        (j : ℕ)
        → fd_at (record { fd = pos fd; uid = some uid } ∷ cs) j
          ≡ (if j == 0 then pos fd else fd_at (c ∷ cs) j)
    at zero = refl
    at (suc j) = ground arith

Added-next :
    (c : Client) (cs : List Client) (fd uid : ℕ)
    → eqb_ℤ c.fd (negsuc 0) ≡ false
    → Added cs fd (take_entry (pos fd) uid cs)
    → Added (c ∷ cs) fd (take_entry (pos fd) uid (c ∷ cs))
unfolding take_entry
Added-next c cs fd uid busy a = record {
  i = suc a.i;
  l = c ∷ a.l;
  result = rw (busy, a.result) refl;
  free = a.free;
  inside = omega (arith, a.inside);
  grown = omega (arith, a.grown);
  at = λ j. at j;
}
  where
    at : (j : ℕ) → fd_at (c ∷ a.l) j ≡ (if j == suc a.i then pos fd else fd_at (c ∷ cs) j)
    at zero = ground arith
    at (suc j) = let same : (suc j == suc a.i) ≡ (j == a.i) = ground arith in rw same (a.at j)

take_entry-Added :
    (cs : List Client) (fd uid : ℕ)
    → (take_entry (pos fd) uid cs ≡ none) ⊎ Added cs fd (take_entry (pos fd) uid cs)
unfolding take_entry
take_entry-Added [] fd uid = inl refl
take_entry-Added (c ∷ cs) fd uid = elim (Bool-cases (eqb_ℤ c.fd (negsuc 0))) [
  | inl free ↦ inr (Added-first c cs fd uid free)
  | inr busy ↦ elim (take_entry-Added cs fd uid) [
    | inl nothing ↦ inl (rw (busy, nothing) refl)
    | inr a ↦ inr (Added-next c cs fd uid busy a)
  ]
]

-- With an entry that is available behind them, the search succeeds.
take_entry-available :
    (cs rest : List Client) (fd uid : ℕ)
    → Added (cs ++ (available ∷ rest)) fd (take_entry (pos fd) uid (cs ++ (available ∷ rest)))
take_entry-available [] rest fd uid = Added-first available rest fd uid (ground arith)
take_entry-available (c ∷ cs) rest fd uid = elim (Bool-cases (eqb_ℤ c.fd (negsuc 0))) [
  | inl free ↦ Added-first c (cs ++ (available ∷ rest)) fd uid free
  | inr busy ↦
      Added-next c (cs ++ (available ∷ rest)) fd uid busy (take_entry-available cs rest fd uid)
]

fd_at-replicate : (n j : ℕ) → fd_at (replicate n available) j ≡ negsuc 0
fd_at-replicate zero j = refl
fd_at-replicate (suc n) zero = refl
fd_at-replicate (suc n) (suc j) = fd_at-replicate n j

fd_at-append : (cs : List Client) (n j : ℕ) → fd_at (cs ++ replicate n available) j ≡ fd_at cs j
fd_at-append [] n j = fd_at-replicate n j
fd_at-append (c ∷ cs) n zero = refl
fd_at-append (c ∷ cs) n (suc j) = fd_at-append cs n j

add_loop-Added : (cs : List Client) (fd uid : ℕ) → Added cs fd (add_loop 2 (pos fd) uid cs)
unfolding add_loop or_again client_alloc
add_loop-Added cs fd uid = elim (take_entry-Added cs fd uid) [
  | inr a ↦ record {
    i = a.i;
    l = a.l;
    result = rw a.result refl;
    free = a.free;
    inside = a.inside;
    grown = a.grown;
    at = a.at;
  }
  | inl full ↦
      let a = take_entry-available cs (replicate 9 available) fd uid in
      record {
        i = a.i;
        l = a.l;
        result = rw (full, a.result) refl;
        free = sym (fd_at-append cs 10 a.i) ∙ a.free;
        inside = a.inside;
        grown = omega (arith, a.grown, length-append cs (replicate 10 available));
        at = λ j. a.at j ∙ ap (λ z. if j == a.i then pos fd else z) (fd_at-append cs 10 j);
      }
]

pub client_add-Added : (cs : List Client) (fd uid : ℕ) → Added cs fd (client_add 2 (pos fd) uid cs)
unfolding client_add client_alloc
client_add-Added [] fd uid =
    let a = add_loop-Added (replicate 10 available) fd uid in
    record {
      i = a.i;
      l = a.l;
      result = a.result;
      free = refl;
      inside = a.inside;
      grown = omega arith;
      at = λ j. a.at j ∙ ap (λ z. if j == a.i then pos fd else z) (fd_at-replicate 10 j);
    }
client_add-Added (c ∷ cs) fd uid = add_loop-Added (c ∷ cs) fd uid

-- The entry at the index is available, and the others are as before.
pub record Deleted (cs : List Client) (fd i : ℕ) : Type 0 where
  pub l : List Client
  pub result : client_del (pos fd) cs ≡ some l
  pub same_length : length l ≡ length cs
  pub at : (j : ℕ) → fd_at l j ≡ (if j == i then negsuc 0 else fd_at cs j)

pub client_del-Deleted :
    (cs : List Client) (fd i : ℕ)
    → fd_at cs i ≡ pos fd
    → ((j : ℕ) → fd_at cs j ≡ pos fd → j ≡ i)
    → Deleted cs fd i
unfolding client_del
client_del-Deleted [] fd i e only = absurd (grind arith)
client_del-Deleted (c ∷ cs) fd zero e only = record {
  l = record c { fd = negsuc 0 } ∷ cs;
  result = rw (eqb_of_eq c.fd fd e) refl;
  same_length = refl;
  at = λ j. at j;
}
  where
    at :
        (j : ℕ)
        → fd_at (record c { fd = negsuc 0 } ∷ cs) j
          ≡ (if j == 0 then negsuc 0 else fd_at (c ∷ cs) j)
    at zero = refl
    at (suc j) = ground arith
client_del-Deleted (c ∷ cs) fd (suc i) e only = elim (Bool-cases (eqb_ℤ c.fd (pos fd))) [
  | inl same ↦ absurd (omega (arith, only 0 (eq_of_eqb c.fd fd same)))
  | inr differs ↦
      let d = client_del-Deleted cs fd i e (λ j h. omega (arith, only (suc j) h)) in
      record {
        l = c ∷ d.l;
        result = rw (differs, d.result) refl;
        same_length = ap suc d.same_length;
        at = λ j. at d j;
      }
]
  where
    at :
        (d : Deleted cs fd i) (j : ℕ)
        → fd_at (c ∷ d.l) j ≡ (if j == suc i then negsuc 0 else fd_at (c ∷ cs) j)
    at d zero = ground arith
    at d (suc j) = let same : (suc j == suc i) ≡ (j == i) = ground arith in rw same (d.at j)

-- Inside the table there is an entry at each index.
pub entry_at :
    (cs : List Client) (i : ℕ)
    → i < length cs
    → (c : Client) × (get_elem? cs i ≡ some c) × (c.fd ≡ fd_at cs i)
entry_at [] i h = absurd (omega arith)
entry_at (c ∷ cs) zero h = (c, refl, refl)
entry_at (c ∷ cs) (suc i) h = entry_at cs i (omega arith)
