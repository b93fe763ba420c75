-- ===== src/Db/Overwrite.antt =====
-- Data of the same length is written over that of a record.
use learn_apue.Base.{
  ℕ, suc, ◌+◌, ◌≡◌, refl, sym, ap, ◌∙◌, false, none, some, List, [], ◌∷◌, ◌++◌, arith, length,
  length-append, All, if◌then◌else◌, str_eq, eq_of_str_eq, Bool-cases, inl, inr,
}
use learn_apue.Bytes.File.{File, write_at, write_at-Holds}
use learn_apue.Db.Between.{slot_h}
use learn_apue.Db.Chain.{head_to, Chain, lookup}
use learn_apue.Db.Layout.{
  Region, region, regions, In, Apart, Apart-sym, SparesDat, ChainTo-write_dat,
}
use learn_apue.Db.Line.{Lacks}
use learn_apue.Db.Ops.{hash}
use learn_apue.Db.Pairs.{pairs, find, Unique}
use learn_apue.Db.Records.{Entry, Stands}
use learn_apue.Db.State.{newline, nhash_def}
use learn_apue.Db.Unlink.{ChainTo-split, ChainTo-join, Distinct-cross, In-append_right}
use learn_apue.Db.Valid.{
  Chains, Laid, Keyed, view, put, put_cases, Distinct, put-beyond, put-within, put-between,
}

abbrev pub revalued : List ℕ → Entry → Entry
revalued v e = record e { value = v }

-- A search splits the chain at the record that it finds.
pub lookup-split :
    (key : List ℕ) (es : List Entry) (e : Entry)
    → lookup key es ≡ some e
    → (init : List Entry) × (post : List Entry) × (es ≡ init ++ (e ∷ post))
      × (find key (pairs init) ≡ none)
unfolding lookup find
lookup-split key [] e h = cc
lookup-split key (x ∷ es) e h = elim (Bool-cases (str_eq x.key key)) [
  | inl hit ↦ let same : x ≡ e = ground arith in ([], es, ap (λ y. y ∷ es) same, refl)
  | inr miss ↦
      let (init, post, is, none_before) = lookup-split key es e (ground arith) in
      (x ∷ init, post, ap (λ l. x ∷ l) is, rw miss none_before)
]

module _ (e : Entry) (v : List ℕ) (same : length v ≡ length e.value) where
  pub region-revalued : region (revalued v e) ≡ region e
  region-revalued = rw same

  pub Stands-revalued :
      {i d : File}
      → Stands i d e
      → Lacks 0 v
      → Stands i (write_at d e.datoff (v ++ newline ∷ [])) (revalued v e)
  Stands-revalued {i} {d} st clean =
      let r = st.is_record in
      record {
        is_record = record {
          key = r.key;
          clean = clean;
          off_pos = r.off_pos;
          next_le = r.next_le;
          value_le = rw same r.value_le;
          line_ge = rw same r.line_ge;
          line_le = rw same r.line_le;
        };
        idx = rw same st.idx;
        dat = write_at-Holds d e.datoff (v ++ newline ∷ []);
      }

  pub regions-revalued :
      (init post : List Entry)
      → regions (init ++ (revalued v e ∷ post)) ≡ regions (init ++ (e ∷ post))
  regions-revalued [] post = ap (λ r. r ∷ regions post) region-revalued
  regions-revalued (x ∷ init) post = ap (λ l. region x ∷ l) (regions-revalued init post)

  pub head-revalued :
      (init post : List Entry)
      → head_to 0 (init ++ (revalued v e ∷ post)) ≡ head_to 0 (init ++ (e ∷ post))
  head-revalued [] post = refl
  head-revalued (x ∷ init) post = refl

  SparesDat-Apart :
      (l : List Region)
      → ((r : Region) → In r l → Apart (region e) r)
      → SparesDat e.datoff (length (v ++ newline ∷ [])) l
  SparesDat-Apart l apart r m =
      let n : length (v ++ newline ∷ []) ≡ length e.value + 1 = rw (length-append, same) in
      rw n (ground (arith, (apart r m).dat))

  module _ (init post : List Entry) where
    revalued-Chain :
        (i d : File)
        → Chain i d (init ++ (e ∷ post))
        → Distinct (regions (init ++ (e ∷ post)))
        → Lacks 0 v
        → Chain i (write_at d e.datoff (v ++ newline ∷ [])) (init ++ (revalued v e ∷ post))
    revalued-Chain i d c dis clean =
        let (front, back) = ChainTo-split i d init (e ∷ post) c in
        let (ahead, cross) = Distinct-cross init (e ∷ post) dis in
        let spare_init =
          SparesDat-Apart (regions init)
            (λ r m. Apart-sym r (region e) (cross r (region e) m (inl refl))) in
        let spare_post = SparesDat-Apart (regions post) ahead.0 in
        ChainTo-join i _ init (revalued v e ∷ post)
          (ChainTo-write_dat i d e.off init e.datoff _ spare_init front)
          (
            Stands-revalued back.0 clean,
            back.1,
            ChainTo-write_dat i d 0 post e.datoff _ spare_post back.2,
          )

    -- The files hold the new data in the old place.
    pub revalued-Laid :
        {i d : File} {cs : Chains} (l : Laid i d cs) (j : ℕ)
        → cs j ≡ init ++ (e ∷ post)
        → Lacks 0 v
        → Laid i
            (write_at d e.datoff (v ++ newline ∷ []))
            (put j (init ++ (revalued v e ∷ post)) cs)
    revalued-Laid {i} {d} {cs} l j is clean =
        let es' = init ++ (revalued v e ∷ post) in
        let regs : regions es' ≡ regions (cs j) =
          regions-revalued init post ∙ ap regions (sym is) in
        let dis : Distinct (regions (init ++ (e ∷ post))) = rw is at (l.within j) in
        let mem : In (region e) (regions (cs j)) =
          rw is (In-append_right init (e ∷ post) (region e) (inl refl)) in
        record {
          table = l.table;
          heads = λ k lt. elim (put_cases j k es' cs) [
            | inl (at, p) ↦
                let head : head_to 0 es' ≡ head_to 0 (cs k) =
                  head-revalued init post
                  ∙ ap (head_to 0) (sym is)
                  ∙ ap (λ m. head_to 0 (cs m)) (sym at) in
                rw (p, head) (l.heads k lt)
            | inr (ne, p) ↦ rw p (l.heads k lt)
          ];
          chains = λ k. elim (put_cases j k es' cs) [
            | inl (at, p) ↦ rw p (revalued-Chain i d (rw is at (l.chains j)) dis clean)
            | inr (ne, p) ↦ rw p (
                ChainTo-write_dat i d 0 (cs k) e.datoff _
                  (SparesDat-Apart (regions (cs k))
                    (λ r m. l.between j k (λ q. ne (sym q)) (region e) r mem m))
                  (l.chains k))
          ];
          beyond = put-beyond l j es' (λ r m. l.beyond j r (rw regs at m));
          within = put-within l j es' (rw regs (l.within j));
          between =
              put-between l j es'
                (λ k ne a b ma mb. l.between j k (λ q. ne (sym q)) a b (rw regs at ma) mb);
        }

-- The keys stay, and one key has new data.
find-none-revalued :
    (q : List ℕ) (e : Entry) (v : List ℕ) (init post : List Entry)
    → find q (pairs (init ++ (e ∷ post))) ≡ none
    → find q (pairs (init ++ (revalued v e ∷ post))) ≡ none
unfolding find
find-none-revalued q e v [] post h = ground arith
find-none-revalued q e v (x ∷ init) post h = ground (arith, find-none-revalued q e v init post)

Unique-revalued :
    (e : Entry) (v : List ℕ) (init post : List Entry)
    → Unique (pairs (init ++ (e ∷ post)))
    → Unique (pairs (init ++ (revalued v e ∷ post)))
Unique-revalued e v [] post u = u
Unique-revalued e v (x ∷ init) post u =
    (find-none-revalued x.key e v init post u.0, Unique-revalued e v init post u.1)

All-revalued :
    (P : List ℕ → Type 0) (e : Entry) (v : List ℕ) (init post : List Entry)
    → All (λ (p : List ℕ × List ℕ). P p.0) (pairs (init ++ (e ∷ post)))
    → All (λ (p : List ℕ × List ℕ). P p.0) (pairs (init ++ (revalued v e ∷ post)))
All-revalued P e v [] post h = h
All-revalued P e v (x ∷ init) post h = (h.0, All-revalued P e v init post h.1)

find-revalued :
    (q : List ℕ) (e : Entry) (v : List ℕ) (init post : List Entry)
    → find e.key (pairs init) ≡ none
    → find q (pairs (init ++ (revalued v e ∷ post)))
      ≡ (if str_eq e.key q then some v else find q (pairs (init ++ (e ∷ post))))
unfolding find
find-revalued q e v [] post h = ground arith
find-revalued q e v (x ∷ init) post h = elim (Bool-cases (str_eq e.key q)) [
  | inl hit ↦
      let same = eq_of_str_eq e.key q hit in
      let miss_own : str_eq x.key e.key ≡ false = ground arith in
      let miss : str_eq x.key q ≡ false = rw same at miss_own in
      rw (miss, hit) (find-revalued q e v init post (ground arith) ∙ rw hit)
  | inr other ↦ rw other (ground (arith, find-revalued q e v init post))
]

module _ {cs : Chains} (k : Keyed cs) (h : ℕ) (e : Entry) (v : List ℕ) (init post : List Entry)
    (is : cs (suc h) ≡ init ++ (e ∷ post)) where
  abbrev pub revalued_chains : Chains
  revalued_chains = put (suc h) (init ++ (revalued v e ∷ post)) cs

  pub Keyed-revalued : Keyed revalued_chains
  Keyed-revalued = record {
    home = λ g. elim (put_cases (suc h) (suc g) (init ++ (revalued v e ∷ post)) cs) [
      | inl (at, p) ↦
          let same : g ≡ h = omega arith in
          rw (p, same)
            (All-revalued (λ x. hash nhash_def x ≡ h) e v init post (rw is at (k.home h)))
      | inr (ne, p) ↦ rw p (k.home g)
    ];
    unique = λ g. elim (put_cases (suc h) (suc g) (init ++ (revalued v e ∷ post)) cs) [
      | inl (at, p) ↦ rw p (Unique-revalued e v init post (rw is at (k.unique h)))
      | inr (ne, p) ↦ rw p (k.unique g)
    ];
  }

  pub view-revalued :
      hash nhash_def e.key ≡ h
      → find e.key (pairs init) ≡ none
      → (q : List ℕ) → view revalued_chains q ≡ (if str_eq e.key q then some v else view cs q)
  unfolding view
  view-revalued home before q =
      elim (put_cases (suc h) (slot_h q) (init ++ (revalued v e ∷ post)) cs) [
        | inl (at, p) ↦ rw (p, at, is) (find-revalued q e v init post before)
        | inr (ne, p) ↦ elim (Bool-cases (str_eq e.key q)) [
          | inl hit ↦
              let same : slot_h q ≡ suc h = rw (← eq_of_str_eq e.key q hit, home) in
              absurd (ne same)
          | inr miss ↦ rw (p, miss)
        ]
      ]
