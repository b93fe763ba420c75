-- ===== src/Rot13/Visits.antt =====
-- What a visit to one buffer of advio/rot13c2.c does for the whole copy.
use learn_apue.Base.{
  ℕ, zero, suc, ◌+◌, ◌-◌, ◌*◌, ◌≤◌, ◌<◌, ◌≡◌, ◌⊎◌, inl, inr, refl, ap, ◌∙◌, true, false, not, ◌&&◌,
  ◌||◌, Option, some, List, [], ◌∷◌, arith, map, take, drop, length, length-drop, leb, ltb, ◌==◌,
  Bool-cases,
}
use learn_apue.Rot13.Slices.{wanted, Sound, written, written_inside, written_outside}
use learn_apue.Rot13.{
  translate, RwOp, unused, read_pending, write_pending, Buf, Progress, Poll, in_progress, complete,
  short, failed, bsz, put_bytes, start_read, visit_unused, read_returned, visit_read,
  write_returned, visit_write, visit_op,
}

-- No call fails, and no operation moves fewer bytes than there are.
abbrev pub Fair : Poll → Type 0
Fair in_progress = Unit
Fair complete = Unit
Fair (short n) = ⊥
Fair failed = ⊥

-- The part of the file that a buffer is at work on.
abbrev pub AtWork : RwOp → ℕ → ℕ → Type 0
AtWork unused o p = ⊥
AtWork read_pending o p = (o ≤ p) × (p < o + bsz)
AtWork write_pending o p = (o ≤ p) × (p < o + bsz)

abbrev pub weight : RwOp → ℕ
weight unused = 0
weight read_pending = 2
weight write_pending = 1

abbrev pub pend : RwOp → ℕ
pend unused = 0
pend read_pending = 1
pend write_pending = 1

module _ (input : List ℕ) where
  -- A short read is expected at the end of the file only; what is written is the translation.
  abbrev pub IsReady : RwOp → Buf → Type 0
  IsReady unused b = Unit
  IsReady read_pending b = b.last ≡ false → b.aio_offset + bsz ≤ length input
  IsReady write_pending b = b.bytes ≡ map translate (take bsz (drop b.aio_offset input))

  -- What is left to do.
  abbrev pub left : Progress → ℕ
  left g = 3 * (length input - g.off)

  -- What a visit finds and leaves, where `C` are the offsets that other buffers are at work on.
  pub record Before (C : ℕ → Type 0) (op : RwOp) (b : Buf) (g : Progress) : Type 0 where
    pub sound : (p : ℕ) → Sound input g.output p
    pub covered :
        (p : ℕ) → p < g.off → (g.output p ≡ wanted input p) ⊎ (AtWork op b.aio_offset p ⊎ C p)
    pub ready : IsReady op b

  pub record After (C : ℕ → Type 0) (op : RwOp) (b : Buf) (g : Progress) (poll : Poll)
      (r : Option (Buf × Progress)) : Type 0 where
    pub buf : Buf
    pub progress : Progress
    pub result : r ≡ some (buf, progress)
    pub before : Before C buf.op buf progress
    pub count : progress.numop + pend op ≡ g.numop + pend buf.op
    pub less : weight buf.op + left progress ≤ weight op + left g
    pub moves :
        poll ≡ complete
        → (1 ≤ weight op) ⊎ (g.off < length input)
        → suc (weight buf.op + left progress) ≤ weight op + left g

  take-length : (n : ℕ) (xs : List ℕ) → take (length (take n xs)) xs ≡ take n xs
  take-length zero xs = refl
  take-length (suc n) [] = refl
  take-length (suc n) (x ∷ xs) = ap (λ l. x ∷ l) (take-length n xs)

  length-take : (n : ℕ) (xs : List ℕ) → n ≤ length xs → length (take n xs) ≡ n
  length-take zero xs h = refl
  length-take (suc n) [] h = absurd (omega arith)
  length-take (suc n) (x ∷ xs) h = ap suc (length-take n xs (omega arith))

  module _ (o : ℕ) (output : ℕ → Option ℕ) (p : ℕ) (s : Sound input output p) where
    -- The part that is written is right; the other bytes are the same.
    written_cases :
        (((o ≤ p) × (p < o + bsz)) × (written input bsz o output p ≡ wanted input p))
        ⊎ (((p < o) ⊎ (o + bsz ≤ p)) × (written input bsz o output p ≡ output p))
    written_cases = elim (Bool-cases (leb o p)) [
      | inr f ↦ inr (inl (ground arith), written_outside input bsz o output p (inl (ground arith)))
      | inl t ↦ elim (Bool-cases (ltb p (o + bsz))) [
        | inl t' ↦ inl (
          (ground arith, ground arith),
          written_inside input bsz o output p (ground arith) (ground arith) s,
        )
        | inr f ↦
            inr (inr (ground arith), written_outside input bsz o output p (inr (ground arith)))
      ]
    ]

    Sound-written : Sound input (written input bsz o output) p
    Sound-written = elim written_cases [
      | inl (_, e) ↦ inr e
      | inr (_, e) ↦ elim s [ inl n ↦ inl (e ∙ n) | inr w ↦ inr (e ∙ w) ]
    ]

    covered_written :
        (C : Type 0)
        → (output p ≡ wanted input p) ⊎ (AtWork write_pending o p ⊎ C)
        → (written input bsz o output p ≡ wanted input p) ⊎ (⊥ ⊎ C)
    covered_written C c = elim written_cases [
      | inl (_, e) ↦ inl e
      | inr (out, e) ↦ elim c [
        | inl w ↦ inl (e ∙ w)
        | inr (inr there) ↦ inr (inr there)
        | inr (inl (h, h')) ↦ elim out [
          | inl x ↦ absurd (omega arith)
          | inr x ↦ absurd (omega arith)
        ]
      ]
    ]

  module _ (C : ℕ → Type 0) (b : Buf) (g : Progress) where
    -- The visit changes nothing.
    stay :
        (op : RwOp) (poll : Poll)
        → b.op ≡ op
        → Before C op b g
        → (poll ≡ complete → ((1 ≤ weight op) ⊎ (g.off < length input)) → ⊥)
        → After C op b g poll (some (b, g))
    stay op poll e v idle = record {
      buf = b;
      progress = g;
      result = refl;
      before = simp e v;
      count = rw e;
      less = rw e (omega arith);
      moves = λ c m. absurd (idle c m);
    }

    start_read-After :
        (poll : Poll)
        → Fair poll
        → g.off < length input
        → Before C unused b g
        → After C unused b g poll (start_read input poll b g)
    unfolding start_read
    start_read-After poll fair more v =
        let b' : Buf = record b {
          op = read_pending;
          last = b.last || leb (length input) (g.off + bsz);
          aio_offset = g.off;
          aio_nbytes = bsz;
        } in
        let g' : Progress = record g { off = g.off + bsz; numop = suc g.numop } in
        record {
          buf = b';
          progress = g';
          result = started poll fair;
          before = record { sound = v.sound; covered = reached; ready = not_last };
          count = omega arith;
          less = omega arith;
          moves = λ c m. omega arith;
        }
      where
        started :
            (poll : Poll)
            → Fair poll
            → start_read input poll b g
              ≡ some (
                record b {
                  op = read_pending;
                  last = b.last || leb (length input) (g.off + bsz);
                  aio_offset = g.off;
                  aio_nbytes = bsz;
                },
                record g { off = g.off + bsz; numop = suc g.numop },
              )
        started in_progress f = refl
        started complete f = refl
        started (short n) f = elim f [ ]
        started failed f = elim f [ ]

        reached :
            (p : ℕ)
            → p < g.off + bsz
            → (g.output p ≡ wanted input p) ⊎ (AtWork read_pending g.off p ⊎ C p)
        reached p h = elim (Bool-cases (ltb p g.off)) [
          | inl old ↦ elim (v.covered p (ground arith)) [
            | inl there ↦ inl there
            | inr (inl none') ↦ elim none' [ ]
            | inr (inr c) ↦ inr (inr c)
          ]
          | inr new ↦ inr (inl (ground arith, h))
        ]

        not_last : (b.last || leb (length input) (g.off + bsz)) ≡ false → g.off + bsz ≤ length input
        not_last e = elim (Bool-cases (leb (length input) (g.off + bsz))) [
          | inl t ↦ absurd (ground arith)
          | inr f ↦ ground arith
        ]

    -- A read with all bytes that there are is not taken for a short one.
    expected :
        (n : ℕ)
        → n ≡ length (take bsz (drop b.aio_offset input))
        → IsReady read_pending b
        → (not (n == bsz) && not b.last) ≡ false
    expected n e ready = elim (Bool-cases b.last) [
      | inl last ↦ elim (Bool-cases (n == bsz)) [ inl t ↦ rw (last, t) | inr f ↦ rw (last, f) ]
      | inr more ↦
          let fits = ready more in
          let room : bsz ≤ length (drop b.aio_offset input) =
            omega (arith, length-drop b.aio_offset input) in
          let all : (n == bsz) ≡ true =
            ground (arith, length-take bsz (drop b.aio_offset input) room) in
          rw all
    ]

    visit_read-After :
        (poll : Poll)
        → b.op ≡ read_pending
        → Fair poll
        → Before C read_pending b g
        → After C read_pending b g poll (visit_read input poll b g)
    unfolding visit_read read_returned
    visit_read-After in_progress is fair v = stay read_pending in_progress is v (λ c m. absurd cc)
    visit_read-After complete is fair v =
        let n = length (take bsz (drop b.aio_offset input)) in
        let e = expected n refl v.ready in
        record {
          buf = record b {
            op = write_pending;
            aio_nbytes = n;
            bytes = map translate (take n (drop b.aio_offset input));
          };
          progress = g;
          result = simp e;
          before = record {
            sound = v.sound;
            covered = v.covered;
            ready = ap (λ l. map translate l) (take-length bsz (drop b.aio_offset input));
          };
          count = refl;
          less = omega arith;
          moves = λ c m. omega arith;
        }
    visit_read-After (short n) is fair v = elim fair [ ]
    visit_read-After failed is fair v = elim fair [ ]

    visit_write-After :
        (poll : Poll)
        → b.op ≡ write_pending
        → 1 ≤ g.numop
        → Fair poll
        → Before C write_pending b g
        → After C write_pending b g poll (visit_write input poll b g)
    unfolding visit_write write_returned
    visit_write-After in_progress is some_op fair v =
        stay write_pending in_progress is v (λ c m. absurd cc)
    visit_write-After complete is some_op fair v =
        let e : (b.aio_nbytes == b.aio_nbytes) ≡ true = ground arith in
        let o = b.aio_offset in
        record {
          buf = record b { op = unused };
          progress = record g { numop = g.numop - 1; output = put_bytes o b.bytes g.output };
          result = simp e;
          before = simp v.ready (record {
            sound = λ p. Sound-written o g.output p (v.sound p);
            covered = λ p h. covered_written o g.output p (v.sound p) (C p) (v.covered p h);
            ready = tt;
          });
          count = omega arith;
          less = omega arith;
          moves = λ c m. omega arith;
        }
    visit_write-After (short n) is some_op fair v = elim fair [ ]
    visit_write-After failed is some_op fair v = elim fair [ ]

    pub visit-After :
        (op : RwOp) (poll : Poll)
        → b.op ≡ op
        → pend op ≤ g.numop
        → Fair poll
        → Before C op b g
        → After C op b g poll (visit_op input op poll b g)
    unfolding visit_op visit_unused
    visit-After unused poll is some_op fair v = elim (Bool-cases (ltb g.off (length input))) [
      | inl more ↦ rw more (start_read-After poll fair (ground arith) v)
      | inr no_more ↦ rw no_more (stay unused poll is v (λ c m. idle m no_more))
    ]
      where
        idle : ((1 ≤ 0) ⊎ (g.off < length input)) → ltb g.off (length input) ≡ false → ⊥
        idle (inl h) e = absurd (omega arith)
        idle (inr h) e = absurd (ground arith)
    visit-After read_pending poll is some_op fair v = visit_read-After poll is fair v
    visit-After write_pending poll is some_op fair v = visit_write-After poll is some_op fair v
