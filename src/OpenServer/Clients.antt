-- ===== src/OpenServer/Clients.antt =====
-- The table of clients, ipc2/open_server/client_management.c.
use learn_apue.Base.{
  ℕ, zero, suc, ◌≡◌, refl, ap, ◌∙◌, true, false, Option, none, some, List, [], ◌∷◌, ◌++◌, arith,
  replicate, if◌then◌else◌, ◌⊎◌, Bool-cases, inl, inr,
}
use learn_apue.Base.Int.{ℤ, pos, negsuc, eqb_ℤ}

-- `Client`: an entry with `fd` -1 is available; its `uid` is not set before it is first used.
pub record Client : Type 0 where
  pub fd : ℤ
  pub uid : Option ℕ

abbrev pub nalloc : ℕ
nalloc = 10

abbrev pub available : Client
available = record { fd = negsuc 0; uid = none }

-- `client_alloc`; the empty list is the array before its first allocation.
unfoldable pub client_alloc : List Client → List Client
client_alloc cs = cs ++ replicate nalloc available

-- The search of `client_add`: the index of the first entry that is available, and the array with
-- that entry taken.
unfoldable pub take_entry : ℤ → ℕ → List Client → Option (ℕ × List Client)
take_entry fd uid [] = none
take_entry fd uid (c ∷ cs) =
    let rest : Option (ℕ × List Client) = elim (take_entry fd uid cs) [
      | none ↦ none
      | some (i, l) ↦ some (suc i, c ∷ l)
    ] in
    if eqb_ℤ c.fd (negsuc 0) then some (0, record { fd = fd; uid = some uid } ∷ cs) else rest

unfoldable pub or_again :
    Option (ℕ × List Client) → Option (ℕ × List Client) → Option (ℕ × List Client)
or_again (some r) again = some r
or_again none again = again

-- The loop behind `again`, none if its rounds are used up.
unfoldable pub add_loop : ℕ → ℤ → ℕ → List Client → Option (ℕ × List Client)
add_loop zero fd uid cs = none
add_loop (suc n) fd uid cs = or_again (take_entry fd uid cs) (add_loop n fd uid (client_alloc cs))

-- `client_add`
unfoldable pub client_add : ℕ → ℤ → ℕ → List Client → Option (ℕ × List Client)
client_add rounds fd uid [] = add_loop rounds fd uid (client_alloc [])
client_add rounds fd uid (c ∷ cs) = add_loop rounds fd uid (c ∷ cs)

-- `client_del`, none if it ends the process.
unfoldable pub client_del : ℤ → List Client → Option (List Client)
client_del fd [] = none
client_del fd (c ∷ cs) =
    let rest : Option (List Client) = elim (client_del fd cs) [
      | none ↦ none
      | some l ↦ some (c ∷ l)
    ] in
    if eqb_ℤ c.fd fd then some (record c { fd = negsuc 0 } ∷ cs) else rest

-- The entries that are in use.
unfoldable pub connected : List Client → List Client
connected [] = []
connected (c ∷ cs) = let rest = connected cs in if eqb_ℤ c.fd (negsuc 0) then rest else c ∷ rest

-- No entry has the descriptor.
abbrev pub Absent : ℤ → List Client → Type 0
Absent fd [] = Unit
Absent fd (c ∷ cs) = (eqb_ℤ c.fd fd ≡ false) × Absent fd cs

-- What an entry that was taken and given back leaves.
abbrev pub TakenBack : ℕ → ℕ → List Client → Type 0
TakenBack fd uid cs =
    (i : ℕ) × (l : List Client) × (l' : List Client) × (take_entry (pos fd) uid cs ≡ some (i, l))
    × (client_del (pos fd) l ≡ some l')
    × (connected l' ≡ connected cs)

eqb_self : (n : ℕ) → eqb_ℤ (pos n) (pos n) ≡ true
eqb_self n = ground arith

eqb_neg : (n : ℕ) → eqb_ℤ (negsuc 0) (pos n) ≡ false
eqb_neg n = ground arith

-- With an entry that is available behind them, the search succeeds.
taken_back :
    (fd uid : ℕ) (cs rest : List Client)
    → Absent (pos fd) (cs ++ (available ∷ rest))
    → TakenBack fd uid (cs ++ (available ∷ rest))
unfolding take_entry client_del connected
taken_back fd uid [] rest absent =
    let used : Client = record { fd = pos fd; uid = some uid } in
    let freed : Client = record { fd = negsuc 0; uid = some uid } in
    (0, used ∷ rest, freed ∷ rest, refl, rw (eqb_self fd), refl)
taken_back fd uid (c ∷ cs) rest (ne, absent) =
    let (i, l, l', take, del, same) = taken_back fd uid cs rest absent in
    let used : Client = record { fd = pos fd; uid = some uid } in
    let freed : Client = record { fd = negsuc 0; uid = some uid } in
    let tail = cs ++ (available ∷ rest) in
    elim (Bool-cases (eqb_ℤ c.fd (negsuc 0))) [
      | inl free ↦ (0, used ∷ tail, freed ∷ tail, rw free, rw (eqb_self fd), rw free)
      | inr busy ↦
          (suc i, c ∷ l, c ∷ l', rw (busy, take), rw (ne, del), rw busy (ap (λ x. c ∷ x) same))
    ]

-- A search finds no entry, or takes one that a deletion gives back.
searched :
    (fd uid : ℕ) (cs : List Client)
    → Absent (pos fd) cs
    → (take_entry (pos fd) uid cs ≡ none) ⊎ TakenBack fd uid cs
unfolding take_entry client_del connected
searched fd uid [] absent = inl refl
searched fd uid (c ∷ cs) (ne, absent) =
    let used : Client = record { fd = pos fd; uid = some uid } in
    let freed : Client = record { fd = negsuc 0; uid = some uid } in
    elim (Bool-cases (eqb_ℤ c.fd (negsuc 0))) [
      | inl free ↦ inr (0, used ∷ cs, freed ∷ cs, rw free, rw (eqb_self fd), rw free)
      | inr busy ↦ elim (searched fd uid cs absent) [
        | inl nothing ↦ inl (rw (busy, nothing))
        | inr (i, l, l', take, del, same) ↦
            inr
              (suc i, c ∷ l, c ∷ l', rw (busy, take), rw (ne, del), rw busy (ap (λ x. c ∷ x) same))
      ]
    ]

Absent-append :
    (fd : ℕ) (cs ds : List Client)
    → Absent (pos fd) cs
    → Absent (pos fd) ds
    → Absent (pos fd) (cs ++ ds)
Absent-append fd [] ds a b = b
Absent-append fd (c ∷ cs) ds (ne, a) b = (ne, Absent-append fd cs ds a b)

Absent-available : (fd n : ℕ) → Absent (pos fd) (replicate n available)
Absent-available fd zero = tt
Absent-available fd (suc n) = (eqb_neg fd, Absent-available fd n)

connected-available : (cs : List Client) → connected (cs ++ replicate 10 available) ≡ connected cs
unfolding connected
connected-available [] = refl
connected-available (c ∷ cs) = elim (Bool-cases (eqb_ℤ c.fd (negsuc 0))) [
  | inl free ↦ rw free (connected-available cs)
  | inr busy ↦ rw busy (ap (λ x. c ∷ x) (connected-available cs))
]

-- What a client that is added and deleted leaves.
abbrev AddedDeleted : (List Client → Option (ℕ × List Client)) → ℕ → List Client → Type 0
AddedDeleted add fd cs =
    (i : ℕ) × (l : List Client) × (l' : List Client) × (add cs ≡ some (i, l))
    × (client_del (pos fd) l ≡ some l')
    × (connected l' ≡ connected cs)

added_loop :
    (fd uid : ℕ) (cs : List Client)
    → Absent (pos fd) cs
    → AddedDeleted (add_loop 2 (pos fd) uid) fd cs
unfolding add_loop or_again client_alloc
added_loop fd uid cs absent = elim (searched fd uid cs absent) [
  | inr (i, l, l', take, del, same) ↦ (i, l, l', rw take, del, same)
  | inl full ↦
      let more = Absent-append fd cs (replicate 10 available) absent (Absent-available fd 10) in
      let (i, l, l', take, del, same) = taken_back fd uid cs (replicate 9 available) more in
      (i, l, l', rw (full, take), del, same ∙ connected-available cs)
]

-- If no entry has the descriptor, then in two rounds `client_add` finds an entry, and a
-- `client_del` of the descriptor finds it again and leaves the clients that were connected before,
-- in the same order.
client_del-client_add :
    (fd uid : ℕ) (cs : List Client)
    → Absent (pos fd) cs
    → AddedDeleted (client_add 2 (pos fd) uid) fd cs
unfolding client_add client_alloc
client_del-client_add fd uid [] absent =
    let (i, l, l', add, del, same) =
      added_loop fd uid (replicate 10 available) (Absent-available fd 10) in
    (i, l, l', add, del, same ∙ connected-available [])
client_del-client_add fd uid (c ∷ cs) absent = added_loop fd uid (c ∷ cs) absent
