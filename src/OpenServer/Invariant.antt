-- ===== src/OpenServer/Invariant.antt =====
-- What the loop of ipc2/open_server/loop.c keeps of its table and its set of descriptors.
use learn_apue.Base.{
  ℕ, suc, ◌≤◌, ◌<◌, ◌≡◌, ◌≢◌, refl, sym, ap, ◌∙◌, ◌⊎◌, inl, inr, Bool, true, false, Option, some,
  List, arith, length, leb, ltb, ◌==◌, Bool-cases, if◌then◌else◌,
}
use learn_apue.Base.Int.{ℤ, pos, negsuc}
use learn_apue.OpenServer.Clients.{Client, client_add}
use learn_apue.OpenServer.Table.{fd_at, Added, client_add-Added, Deleted}
use learn_apue.OpenServer.Loop.{Server, fd_put, first_state, client_added, accept}

-- The descriptors of the clients stand in the table once each, below `last`; with the listening one they
-- are those of `origin_set`, and `max_fd` is no less than any.
pub record Valid (listen_fd : ℕ) (s : Server) : Type 0 where
  pub inside : s.last ≤ length s.client_array
  pub listens : s.origin_set listen_fd ≡ true
  pub listen_le : listen_fd ≤ s.max_fd
  pub below : (i fd : ℕ) → fd_at s.client_array i ≡ pos fd → i < s.last
  pub set : (i fd : ℕ) → fd_at s.client_array i ≡ pos fd → s.origin_set fd ≡ true
  pub bounded : (i fd : ℕ) → fd_at s.client_array i ≡ pos fd → fd ≤ s.max_fd
  pub other : (i fd : ℕ) → fd_at s.client_array i ≡ pos fd → fd ≢ listen_fd
  pub once :
      (i j fd : ℕ) → fd_at s.client_array i ≡ pos fd → fd_at s.client_array j ≡ pos fd → i ≡ j
  pub known :
      (fd : ℕ)
      → s.origin_set fd ≡ true
      → (fd ≡ listen_fd) ⊎ ((i : ℕ) × (fd_at s.client_array i ≡ pos fd))

pub first_state-Valid : (listen_fd : ℕ) → Valid listen_fd (first_state listen_fd)
unfolding first_state fd_put
first_state-Valid listen_fd = record {
  inside = omega arith;
  listens = ground arith;
  listen_le = omega arith;
  below = λ i fd e. absurd (grind arith);
  set = λ i fd e. absurd (grind arith);
  bounded = λ i fd e. absurd (grind arith);
  other = λ i fd e. absurd (grind arith);
  once = λ i j fd e e'. absurd (grind arith);
  known = λ fd h. ground arith;
}

-- The descriptor that an accepted connection adds, at each index.
place-cases :
    (b : Bool) (fd g : ℕ) (z : ℤ)
    → (if b then pos fd else z) ≡ pos g
    → ((b ≡ true) × (fd ≡ g)) ⊎ ((b ≡ false) × (z ≡ pos g))
place-cases true fd g z e = inl (refl, grind arith)
place-cases false fd g z e = inr (refl, e)

-- What an index of the table with an added client has.
Added-cases :
    (cs : List Client) (fd j g : ℕ) (r : Option (ℕ × List Client)) (a : Added cs fd r)
    → fd_at a.l j ≡ pos g
    → ((j ≡ a.i) × (fd ≡ g)) ⊎ ((j ≢ a.i) × (fd_at cs j ≡ pos g))
Added-cases cs fd j g r a e = elim (place-cases (j == a.i) fd g (fd_at cs j) (sym (a.at j) ∙ e)) [
  | inl (same, is) ↦ inl (ground arith, is)
  | inr (differs, old) ↦ inr (ground arith, old)
]

Added-old :
    (cs : List Client) (fd j g : ℕ) (r : Option (ℕ × List Client)) (a : Added cs fd r)
    → fd_at cs j ≡ pos g
    → fd_at a.l j ≡ pos g
Added-old cs fd j g r a e = elim (Bool-cases (j == a.i)) [
  | inl same ↦
      let is : j ≡ a.i = ground arith in
      let minus_one : negsuc 0 ≡ pos g = sym a.free ∙ (ap (fd_at cs) (sym is) ∙ e) in
      absurd (grind arith)
  | inr differs ↦ a.at j ∙ rw differs e
]

Added-new :
    (cs : List Client) (fd : ℕ) (r : Option (ℕ × List Client)) (a : Added cs fd r)
    → fd_at a.l a.i ≡ pos fd
Added-new cs fd r a = let same : (a.i == a.i) ≡ true = ground arith in a.at a.i ∙ rw same refl

-- A descriptor that is not in the set is none of the listening one and the clients'.
fresh_is_new :
    (listen_fd fd i : ℕ) (s : Server)
    → Valid listen_fd s
    → s.origin_set fd ≡ false
    → (fd ≢ listen_fd) × (fd_at s.client_array i ≢ pos fd)
fresh_is_new listen_fd fd i s v fresh = (
  λ e. let h : true ≡ false = sym v.listens ∙ (ap s.origin_set (sym e) ∙ fresh) in absurd cc,
  λ e. let h : true ≡ false = sym (v.set i fd e) ∙ fresh in absurd cc,
)

pub accept-Valid :
    (listen_fd fd uid : ℕ) (s : Server)
    → Valid listen_fd s
    → s.origin_set fd ≡ false
    → (s' : Server) × (accept (some (fd, uid)) s ≡ some s') × Valid listen_fd s'
unfolding accept client_added fd_put
accept-Valid listen_fd fd uid s v fresh =
    let cs = s.client_array in
    let a = client_add-Added cs fd uid in
    let cases = λ (j : ℕ) (g : ℕ) (e : fd_at a.l j ≡ pos g).
      Added-cases cs fd j g (client_add 2 (pos fd) uid cs) a e in
    let anew = Added-new cs fd (client_add 2 (pos fd) uid cs) a in
    let kept = λ (j : ℕ) (g : ℕ) (e : fd_at cs j ≡ pos g).
      Added-old cs fd j g (client_add 2 (pos fd) uid cs) a e in
    let new = λ (i : ℕ). fresh_is_new listen_fd fd i s v fresh in
    (
      record {
        client_array = a.l;
        origin_set = fd_put true fd s.origin_set;
        max_fd = if ltb s.max_fd fd then fd else s.max_fd;
        last = if leb s.last a.i then suc a.i else s.last;
      },
      rw a.result refl,
      record {
        inside = ground (arith, a.inside, a.grown, v.inside);
        listens = ground (arith, v.listens);
        listen_le = ground (arith, v.listen_le);
        below = λ j g e. elim (cases j g e) [
          | inl (is, same) ↦ ground arith
          | inr (differs, e') ↦ ground (arith, v.below j g e')
        ];
        set = λ j g e. elim (cases j g e) [
          | inl (is, same) ↦ ground arith
          | inr (differs, e') ↦ ground (arith, v.set j g e')
        ];
        bounded = λ j g e. elim (cases j g e) [
          | inl (is, same) ↦ ground arith
          | inr (differs, e') ↦ ground (arith, v.bounded j g e')
        ];
        other = λ j g e. elim (cases j g e) [
          | inl (is, same) ↦ λ h. (new 0).0 (omega arith)
          | inr (differs, e') ↦ v.other j g e'
        ];
        once = λ j k g e e'. elim (cases j g e) [
          | inl (is, same) ↦ elim (cases k g e') [
            | inl (is', same') ↦ omega arith
            | inr (differs', old') ↦ absurd ((new k).1 (old' ∙ ap pos (sym same)))
          ]
          | inr (differs, old) ↦ elim (cases k g e') [
            | inl (is', same') ↦ absurd ((new j).1 (old ∙ ap pos (sym same')))
            | inr (differs', old') ↦ v.once j k g old old'
          ]
        ];
        known = λ g h. elim (Bool-cases (g == fd)) [
          | inl same ↦ let is : g ≡ fd = ground arith in inr (a.i, rw is anew)
          | inr differs ↦ elim (v.known g (rw differs at h)) [
            | inl listening ↦ inl listening
            | inr (k, e) ↦ inr (k, kept k g e)
          ]
        ];
      },
    )

Deleted-cases :
    (cs : List Client) (fd i j g : ℕ) (d : Deleted cs fd i)
    → fd_at d.l j ≡ pos g
    → (j ≢ i) × (fd_at cs j ≡ pos g)
Deleted-cases cs fd i j g d e = elim (Bool-cases (j == i)) [
  | inl same ↦
      let minus_one : negsuc 0 ≡ pos g = sym (d.at j ∙ rw same refl) ∙ e in absurd (grind arith)
  | inr differs ↦ (ground arith, sym (d.at j ∙ rw differs refl) ∙ e)
]

-- A client that has closed the connection is taken out of the table and the set.
pub close-Valid :
    (listen_fd fd i : ℕ) (s : Server)
    → Valid listen_fd s
    → fd_at s.client_array i ≡ pos fd
    → (d : Deleted s.client_array fd i)
    → Valid listen_fd (record s { client_array = d.l; origin_set = fd_put false fd s.origin_set })
unfolding fd_put
close-Valid listen_fd fd i s v here d =
    let cs = s.client_array in
    let cases = λ (j : ℕ) (g : ℕ) (e : fd_at d.l j ≡ pos g). Deleted-cases cs fd i j g d e in
    let differs = λ (j : ℕ) (g : ℕ) (e : fd_at d.l j ≡ pos g) (h : g ≡ fd).
      (cases j g e).0 (v.once j i fd ((cases j g e).1 ∙ ap pos h) here) in
    record {
      inside = omega (arith, v.inside, d.same_length);
      listens = ground (arith, v.other i fd here, v.listens);
      listen_le = v.listen_le;
      below = λ j g e. v.below j g (cases j g e).1;
      set = λ j g e. ground (arith, differs j g e, v.set j g (cases j g e).1);
      bounded = λ j g e. v.bounded j g (cases j g e).1;
      other = λ j g e. v.other j g (cases j g e).1;
      once = λ j k g e e'. v.once j k g (cases j g e).1 (cases k g e').1;
      known = λ g h. elim (Bool-cases (g == fd)) [
        | inl same ↦ let contra : false ≡ true = rw same at h in absurd cc
        | inr other ↦ elim (v.known g (rw other at h)) [
          | inl listening ↦ inl listening
          | inr (k, e) ↦
              let apart : (k == i) ≡ false = elim (Bool-cases (k == i)) [
                | inr no_same ↦ no_same
                | inl same ↦
                    let is : k ≡ i = ground arith in
                    let eq : pos g ≡ pos fd = sym e ∙ (ap (fd_at cs) is ∙ here) in
                    let is' : g ≡ fd = grind arith in absurd (ground arith)
              ] in
              inr (k, d.at k ∙ rw apart e)
        ]
      ];
    }
