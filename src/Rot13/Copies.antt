-- ===== src/Rot13/Copies.antt =====
-- The output file of the copy in advio/rot13c2.c, and the end of its loop.
use learn_apue.Base.{
  ℕ, suc, ◌+◌, ◌*◌, ◌≤◌, ◌<◌, ◌≡◌, ◌⊎◌, inl, inr, refl, sym, ap, ◌∙◌, ◌&&◌, none, some, List, [],
  ◌∷◌, arith, map, length, get_elem?, replicate, All, leb, ltb, ◌==◌, Bool-cases,
}
use learn_apue.Rot13.Slices.{wanted, Sound, get_elem?-beyond, length-map}
use learn_apue.Rot13.Visits.{Fair, AtWork, weight, pend, IsReady, left, visit-After}
use learn_apue.Rot13.{
  translate, RwOp, unused, read_pending, write_pending, Buf, Progress, Poll, complete, visit,
  with_visited, pass_on, pass, Copying, running, exits, ended, after_pass, copy_loop, unused_buf,
  copy,
}

-- Some buffer of the list is at work on the offset, or `C` holds for it.
abbrev Covers : (ℕ → Type 0) → List Buf → ℕ → Type 0
Covers C [] p = C p
Covers C (b ∷ bs) p = AtWork b.op b.aio_offset p ⊎ Covers C bs p

Covers-add :
    (D C : ℕ → Type 0) (bs : List Buf) (p : ℕ) → D p ⊎ Covers C bs p → Covers (λ q. D q ⊎ C q) bs p
Covers-add D C [] p c = c
Covers-add D C (b ∷ bs) p (inl d) = inr (Covers-add D C bs p (inl d))
Covers-add D C (b ∷ bs) p (inr (inl w)) = inl w
Covers-add D C (b ∷ bs) p (inr (inr c)) = inr (Covers-add D C bs p (inr c))

Covers-split :
    (D C : ℕ → Type 0) (bs : List Buf) (p : ℕ) → Covers (λ q. D q ⊎ C q) bs p → D p ⊎ Covers C bs p
Covers-split D C [] p c = c
Covers-split D C (b ∷ bs) p (inl w) = inr (inl w)
Covers-split D C (b ∷ bs) p (inr c) = elim (Covers-split D C bs p c) [
  | inl d ↦ inl d
  | inr c' ↦ inr (inr c')
]

abbrev pub pending : List Buf → ℕ
pending [] = 0
pending (b ∷ bs) = pend b.op + pending bs

abbrev pub work : List Buf → ℕ
work [] = 0
work (b ∷ bs) = weight b.op + work bs

module _ (input : List ℕ) where
  -- What holds between two visits: where something was written it is right, what was read is written or
  -- in some buffer, and `numop` is the number of operations.
  record Inv (C : ℕ → Type 0) (m : ℕ) (bs : List Buf) (g : Progress) : Type 0 where
    sound : (p : ℕ) → Sound input g.output p
    covered : (p : ℕ) → p < g.off → (g.output p ≡ wanted input p) ⊎ Covers C bs p
    ready : All (λ b. IsReady input b.op b) bs
    count : g.numop ≡ m + pending bs

  -- What a pass over some of the buffers does, if `m` operations are pending elsewhere.
  record Passed (C : ℕ → Type 0) (m : ℕ) (poll : ℕ → Poll) (i : ℕ) (bs : List Buf) (g : Progress)
      : Type 0 where
    bufs : List Buf
    progress : Progress
    result : pass input poll i bs g ≡ some (bufs, progress)
    inv : Inv C m bufs progress
    same_length : length bufs ≡ length bs
    less : work bufs + left input progress ≤ work bs + left input g
    moves :
        ((j : ℕ) → poll j ≡ complete)
        → (1 ≤ work bs) ⊎ ((g.off < length input) × (1 ≤ length bs))
        → suc (work bufs + left input progress) ≤ work bs + left input g

  pass-Passed :
      (C : ℕ → Type 0) (m : ℕ) (poll : ℕ → Poll) (i : ℕ) (bs : List Buf) (g : Progress)
      → ((j : ℕ) → Fair (poll j))
      → Inv C m bs g
      → Passed C m poll i bs g
  unfolding pass pass_on visit with_visited
  pass-Passed C m poll i [] g fair v = record {
    bufs = [];
    progress = g;
    result = refl;
    inv = v;
    same_length = refl;
    less = omega arith;
    moves = λ c w. elim w [ inl h ↦ absurd (omega arith) | inr h ↦ absurd (omega (arith, h.1)) ];
  }
  pass-Passed C m poll i (b ∷ bs) g fair v =
      let count = v.count in
      let a =
        visit-After input (Covers C bs) b g b.op (poll i) refl (omega arith) (fair i)
          (record { sound = v.sound; covered = v.covered; ready = v.ready.0 }) in
      let b' = a.buf in
      let D : ℕ → Type 0 = λ p. AtWork b'.op b'.aio_offset p in
      let counted = a.count in
      let rest =
        pass-Passed (λ p. D p ⊎ C p) (m + pend b'.op) poll (suc i) bs a.progress fair
          (record {
            sound = a.before.sound;
            covered = λ p h. elim (a.before.covered p h) [
              | inl w ↦ inl w
              | inr c ↦ inr (Covers-add D C bs p c)
            ];
            ready = v.ready.1;
            count = omega arith;
          }) in
      let first = a.less in
      let others = rest.less in
      let total = rest.inv.count in
      record {
        bufs = b' ∷ rest.bufs;
        progress = rest.progress;
        result = rw (a.result, rest.result);
        inv = record {
          sound = rest.inv.sound;
          covered = λ p h. elim (rest.inv.covered p h) [
            | inl w ↦ inl w
            | inr c ↦ inr (Covers-split D C rest.bufs p c)
          ];
          ready = (a.before.ready, rest.inv.ready);
          count = omega arith;
        };
        less = omega arith;
        same_length = ap suc rest.same_length;
        moves = λ c w. elim (Bool-cases (leb 1 (weight b.op))) [
          | inl busy ↦ let strict = a.moves (c i) (inl (ground arith)) in omega arith
          | inr idle ↦ elim (Bool-cases (ltb g.off (length input))) [
            | inl more ↦ let strict = a.moves (c i) (inr (ground arith)) in omega arith
            | inr no_more ↦
                let later : 1 ≤ work bs = ground arith in
                let strict = rest.moves c (inl later) in omega arith
          ]
        ];
      }

  no_work : (bs : List Buf) (p : ℕ) → pending bs ≡ 0 → Covers (λ q. ⊥) bs p → ⊥
  no_work [] p e c = c
  no_work (b ∷ bs) p e (inr c) = no_work bs p (omega arith) c
  no_work (b ∷ bs) p e (inl w) = at_work b.op (omega arith) w
    where
      at_work : (op : RwOp) → pend op ≡ 0 → AtWork op b.aio_offset p → ⊥
      at_work unused e w = w
      at_work read_pending e w = absurd (omega arith)
      at_work write_pending e w = absurd (omega arith)

  -- The copy has not ended with an error. As long as it runs, the output has only bytes that are right;
  -- at its end, it is the translated input.
  abbrev pub IsSound : Copying → Type 0
  IsSound (running bs g) = (p : ℕ) → Sound input g.output p
  IsSound exits = ⊥
  IsSound (ended g) = (p : ℕ) → g.output p ≡ wanted input p

  Inv-output :
      (bs : List Buf) (g : Progress)
      → Inv (λ q. ⊥) 0 bs g
      → g.numop ≡ 0
      → length input ≤ g.off
      → (p : ℕ) → g.output p ≡ wanted input p
  Inv-output bs g v none_left all_read p =
      let count = v.count in
      elim (Bool-cases (ltb p (length input))) [
        | inl inside ↦ elim (v.covered p (ground arith)) [
          | inl w ↦ w
          | inr c ↦ elim (no_work bs p (omega arith) c) [ ]
        ]
        | inr beyond ↦
            let none' : wanted input p ≡ none =
              get_elem?-beyond p (map translate input)
                (ground (arith, length-map translate input)) in
            elim (v.sound p) [ inl n ↦ n ∙ sym none' | inr w ↦ w ]
      ]

  copy_loop-IsSound :
      (polls : List (ℕ → Poll)) (bs : List Buf) (g : Progress)
      → All (λ poll. (j : ℕ) → Fair (poll j)) polls
      → Inv (λ q. ⊥) 0 bs g
      → IsSound (copy_loop input polls bs g)
  unfolding copy_loop after_pass
  copy_loop-IsSound [] bs g fair v = v.sound
  copy_loop-IsSound (poll ∷ polls) bs g (fair, fairs) v =
      let a = pass-Passed (λ q. ⊥) 0 poll 0 bs g fair v in
      rw a.result (elim (Bool-cases (a.progress.numop == 0 && leb (length input) a.progress.off)) [
        | inl at_end ↦ rw at_end (Inv-output a.bufs a.progress a.inv (ground arith) (ground arith))
        | inr not_yet ↦ rw not_yet (copy_loop-IsSound polls a.bufs a.progress fairs a.inv)
      ])

  pending_le_work : (bs : List Buf) → pending bs ≤ work bs
  pending_le_work [] = omega arith
  pending_le_work (b ∷ bs) = omega (arith, pend_le_weight b.op, pending_le_work bs)
    where
      pend_le_weight : (op : RwOp) → pend op ≤ weight op
      pend_le_weight unused = omega arith
      pend_le_weight read_pending = omega arith
      pend_le_weight write_pending = omega arith

  -- The loop comes to its end, with the right output.
  Ends : Copying → Type 0
  Ends c = (g : Progress) × (c ≡ ended g) × ((p : ℕ) → g.output p ≡ wanted input p)

  copy_loop-Ends :
      (polls : List (ℕ → Poll)) (bs : List Buf) (g : Progress)
      → All (λ poll. (j : ℕ) → poll j ≡ complete) polls
      → Inv (λ q. ⊥) 0 bs g
      → 1 ≤ length bs
      → work bs + left input g < length polls
      → Ends (copy_loop input polls bs g)
  unfolding copy_loop after_pass Ends
  copy_loop-Ends [] bs g all v some_buf enough = absurd (omega arith)
  copy_loop-Ends (poll ∷ polls) bs g (all, alls) v some_buf enough =
      let fair : (j : ℕ) → Fair (poll j) = λ j. rw (all j) tt in
      let a = pass-Passed (λ q. ⊥) 0 poll 0 bs g fair v in
      let less = a.less in
      let count = a.inv.count in
      let le = pending_le_work a.bufs in
      rw a.result (elim (Bool-cases (a.progress.numop == 0 && leb (length input) a.progress.off)) [
        | inl at_end ↦
            rw at_end
              (a.progress, refl, Inv-output a.bufs a.progress a.inv (ground arith) (ground arith))
        | inr not_yet ↦
            let nonzero : 1 ≤ work bs + left input g = ground arith in
            let cause : (1 ≤ work bs) ⊎ ((g.off < length input) × (1 ≤ length bs)) = ground arith in
            let strict = a.moves all cause in
            rw not_yet (
              copy_loop-Ends polls a.bufs a.progress alls a.inv (omega (arith, a.same_length))
                (omega arith))
      ])

start-Inv :
    (input : List ℕ)
    → Inv input
        (λ q. ⊥)
        0
        (replicate 8 unused_buf)
        (record { off = 0; numop = 0; output = λ p. none })
start-Inv input = record {
  sound = λ p. inl refl;
  covered = λ p h. absurd (omega arith);
  ready = (tt, (tt, (tt, (tt, (tt, (tt, (tt, (tt, tt))))))));
  count = refl;
}

-- If no call fails and no operation is short, then in whatever order the asynchronous operations
-- complete the copy does not exit with an error; as long as it runs, each offset of the output is
-- unwritten or has the translated byte of the input, and at its end the output is the translated
-- input.
pub copy-IsSound :
    (input : List ℕ) (polls : List (ℕ → Poll))
    → All (λ poll. (j : ℕ) → Fair (poll j)) polls
    → IsSound input (copy input polls)
unfolding copy
copy-IsSound input polls fair = copy_loop-IsSound input polls _ _ fair (start-Inv input)

-- If every operation is complete when it is looked at, and there are more than three passes for
-- each byte of the input, then the loop of the copy ends, and the output is the translated input.
pub copy-ended :
    (input : List ℕ) (polls : List (ℕ → Poll))
    → All (λ poll. (j : ℕ) → poll j ≡ complete) polls
    → 3 * length input < length polls
    → (g : Progress) × (copy input polls ≡ ended g)
      × ((p : ℕ) → g.output p ≡ get_elem? (map translate input) p)
unfolding copy Ends
copy-ended input polls all enough =
    copy_loop-Ends input polls _ _ all (start-Inv input) (omega arith) (omega arith)
