-- ===== src/Links/Ends.antt =====
-- Lists with a head and a tail pointer, as printer/printd.c and threads/rwlock.c keep them: the
-- operations in the steps of the sources, and what each does to the list of nodes.
use learn_apue.Base.{
  ℕ, ◌≡◌, ◌≢◌, refl, sym, ◌∙◌, false, List, [], ◌∷◌, ◌++◌, arith, ◌==◌, if◌then◌else◌,
}
use learn_apue.Links.Segments.{
  Field, upd, front, back, Seg, Away, NoRepeats, Disjoint, upd_self, upd_ne, All-back, back-append,
  Seg-upd_next, Seg-upd_prev, Seg-relink_next, Seg-relink_prev, Seg-join, Away-join, NoRepeats-join,
}

pub record Ends : Type 0 where
  pub next : Field
  pub prev : Field
  pub head : ℕ
  pub tail : ℕ

-- A node is put in front of the first.
unfoldable pub insert_head : ℕ → Ends → Ends
insert_head jp l =
    let l1 = record l { next = upd l.next jp l.head } in
    let l2 = record l1 { prev = upd l1.prev jp 0 } in
    let l3 =
      if l2.head == 0
      then record l2 { tail = jp }
      else record l2 { prev = upd l2.prev l2.head jp } in
    record l3 { head = jp }

-- A node is put behind the last.
unfoldable pub append_tail : ℕ → Ends → Ends
append_tail jp l =
    let l1 = record l { next = upd l.next jp 0 } in
    let l2 = record l1 { prev = upd l1.prev jp l1.tail } in
    let l3 =
      if l2.tail == 0
      then record l2 { head = jp }
      else record l2 { next = upd l2.next l2.tail jp } in
    record l3 { tail = jp }

-- A node is taken out, as printer/printd.c does it: by its own links.
unfoldable pub unlink_node : ℕ → Ends → Ends
unlink_node t l =
    let l1 =
      if l.next t == 0
      then record l { tail = l.prev t }
      else record l { prev = upd l.prev (l.next t) (l.prev t) } in
    if l1.prev t == 0
    then record l1 { head = l1.next t }
    else record l1 { next = upd l1.next (l1.prev t) (l1.next t) }

-- A node is taken out, as threads/rwlock.c does it: by comparing it with the ends.
unfoldable pub unlink_end : ℕ → Ends → Ends
unlink_end jp l =
    if jp == l.head
    then (let l1 = record l { head = l.next jp } in
        if l1.tail == jp
        then record l1 { tail = 0 }
        else record l1 { prev = upd l1.prev (l1.next jp) (l1.prev jp) })
    else if jp == l.tail
    then (let l1 = record l { tail = l.prev jp } in
        record l1 { next = upd l1.next (l1.prev jp) (l1.next jp) })
    else (let l1 = record l { next = upd l.next (l.prev jp) (l.next jp) } in
        record l1 { prev = upd l1.prev (l1.next jp) (l1.prev jp) })

-- The pointers stand for the list of nodes.
pub record Represents (l : Ends) (xs : List ℕ) : Type 0 where
  pub linked : Seg l.next l.prev 0 xs 0
  pub first : l.head ≡ front xs 0
  pub last : l.tail ≡ back 0 xs
  pub nonnull : Away 0 xs
  pub distinct : NoRepeats xs

pub Disjoint-one : (x : ℕ) (xs : List ℕ) → Away x xs → Disjoint xs (x ∷ [])
Disjoint-one x [] w = tt
Disjoint-one x (y ∷ ys) (ne, w) = ((ground arith, tt), Disjoint-one x ys w)

pub Represents-insert_head :
    {l : Ends} (x : ℕ) (xs : List ℕ)
    → Represents l xs
    → x ≢ 0
    → Away x xs
    → Represents (insert_head x l) (x ∷ xs)
unfolding insert_head
Represents-insert_head {l} x [] v nz away =
    let h : l.head ≡ 0 = v.first in
    rw h (record {
      linked = (upd_self l.prev x 0, upd_self l.next x 0, tt);
      first = refl;
      last = refl;
      nonnull = (nz, tt);
      distinct = (tt, tt);
    })
Represents-insert_head {l} x (y ∷ ys) v nz away =
    let h : l.head ≡ y = v.first in
    let e : (y == 0) ≡ false = ground (arith, v.nonnull) in
    let ne : x ≢ y = ground (arith, away) in
    let s1 = Seg-upd_next l.next l.prev 0 (y ∷ ys) 0 x y away v.linked in
    let s2 = Seg-upd_prev (upd l.next x y) l.prev 0 (y ∷ ys) 0 x 0 away s1 in
    let s3 = Seg-relink_prev (upd l.next x y) (upd l.prev x 0) 0 y ys 0 x v.distinct s2 in
    rw (h, e)
      (record {
        linked = (upd_ne (upd l.prev x 0) y x x ne ∙ upd_self l.prev x 0, upd_self l.next x y, s3);
        first = refl;
        last = v.last;
        nonnull = (nz, v.nonnull);
        distinct = (away, v.distinct);
      })

pub Represents-append_tail :
    {l : Ends} (x : ℕ) (xs : List ℕ)
    → Represents l xs
    → x ≢ 0
    → Away x xs
    → Represents (append_tail x l) (xs ++ (x ∷ []))
unfolding append_tail
Represents-append_tail {l} x [] v nz away =
    let h : l.tail ≡ 0 = v.last in
    rw h (record {
      linked = (upd_self l.prev x 0, upd_self l.next x 0, tt);
      first = refl;
      last = refl;
      nonnull = (nz, tt);
      distinct = (tt, tt);
    })
Represents-append_tail {l} x (y ∷ ys) v nz away =
    let z = back y ys in
    let h : l.tail ≡ z = v.last in
    let e : (z == 0) ≡ false = ground (arith, All-back (λ a. a ≢ 0) y ys v.nonnull) in
    let ne : x ≢ z = ground (arith, All-back (λ a. a ≢ x) y ys away) in
    let s1 = Seg-upd_next l.next l.prev 0 (y ∷ ys) 0 x 0 away v.linked in
    let s2 = Seg-upd_prev (upd l.next x 0) l.prev 0 (y ∷ ys) 0 x z away s1 in
    let s3 = Seg-relink_next (upd l.next x 0) (upd l.prev x z) 0 y ys 0 x v.distinct s2 in
    rw (h, e)
      (record {
        linked =
            Seg-join _ _ 0 (y ∷ ys) (x ∷ []) 0 s3
              (upd_self l.prev x z, upd_ne (upd l.next x 0) z x x ne ∙ upd_self l.next x 0, tt);
        first = v.first;
        last = sym (back-append y ys (x ∷ []));
        nonnull = Away-join 0 (y ∷ ys) (x ∷ []) v.nonnull (nz, tt);
        distinct =
            NoRepeats-join (y ∷ ys) (x ∷ []) v.distinct (tt, tt) (Disjoint-one x (y ∷ ys) away);
      })
