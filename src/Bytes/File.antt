-- ===== src/Bytes/File.antt =====
-- A regular file as the list of its bytes, read and written at an offset.
use learn_apue.Base.{
  ℕ, zero, suc, ◌+◌, ◌≤◌, ◌≡◌, refl, ap, List, [], ◌∷◌, ◌++◌, arith, length, take,
}
use Prim.Native.Nat.{max}

abbrev pub File : Type 0
File = List ℕ

-- `read` after `lseek`: fewer bytes at the end of the file, none beyond it.
unfoldable pub read_at : File → ℕ → ℕ → List ℕ
read_at f zero n = take n f
read_at [] (suc o) n = []
read_at (x ∷ f) (suc o) n = read_at f o n

overwrite : File → List ℕ → File
overwrite f [] = f
overwrite [] (b ∷ bs) = b ∷ overwrite [] bs
overwrite (x ∷ f) (b ∷ bs) = b ∷ overwrite f bs

-- `write` after `lseek`: a gap behind the old end is filled with null bytes.
unfoldable pub write_at : File → ℕ → List ℕ → File
unfolding overwrite
write_at f zero bs = overwrite f bs
write_at [] (suc o) bs = 0 ∷ write_at [] o bs
write_at (x ∷ f) (suc o) bs = x ∷ write_at f o bs

HasPrefix : File → List ℕ → Type 0
HasPrefix f [] = Unit
HasPrefix [] (b ∷ bs) = ⊥
HasPrefix (x ∷ f) (b ∷ bs) = (x ≡ b) × HasPrefix f bs

-- The bytes `bs` stand in the file at the offset `o`.
unfoldable pub Holds : File → ℕ → List ℕ → Type 0
unfolding HasPrefix
Holds f zero bs = HasPrefix f bs
Holds [] (suc o) bs = ⊥
Holds (x ∷ f) (suc o) bs = Holds f o bs

HasPrefix-take : (f : File) (bs : List ℕ) → HasPrefix f bs → take (length bs) f ≡ bs
unfolding HasPrefix
HasPrefix-take f [] h = refl
HasPrefix-take [] (b ∷ bs) h = elim h [ ]
HasPrefix-take (x ∷ f) (b ∷ bs) h = ground (arith, HasPrefix-take f bs h.1)

pub read_at-Holds : (f : File) (o : ℕ) (bs : List ℕ) → Holds f o bs → read_at f o (length bs) ≡ bs
unfolding read_at Holds
read_at-Holds [] zero bs h = HasPrefix-take [] bs h
read_at-Holds (x ∷ f) zero bs h = HasPrefix-take (x ∷ f) bs h
read_at-Holds [] (suc o) bs h = elim h [ ]
read_at-Holds (x ∷ f) (suc o) bs h = read_at-Holds f o bs h

overwrite-HasPrefix : (f : File) (bs : List ℕ) → HasPrefix (overwrite f bs) bs
unfolding overwrite HasPrefix
overwrite-HasPrefix f [] = tt
overwrite-HasPrefix [] (b ∷ bs) = (refl, overwrite-HasPrefix [] bs)
overwrite-HasPrefix (x ∷ f) (b ∷ bs) = (refl, overwrite-HasPrefix f bs)

-- What was written is there.
pub write_at-Holds : (f : File) (o : ℕ) (bs : List ℕ) → Holds (write_at f o bs) o bs
unfolding write_at Holds
write_at-Holds [] zero bs = overwrite-HasPrefix [] bs
write_at-Holds (x ∷ f) zero bs = overwrite-HasPrefix (x ∷ f) bs
write_at-Holds [] (suc o) bs = write_at-Holds [] o bs
write_at-Holds (x ∷ f) (suc o) bs = write_at-Holds f o bs

before_write :
    (f : File) (p : ℕ) (bs ws : List ℕ)
    → length bs ≤ p
    → HasPrefix f bs
    → HasPrefix (write_at f p ws) bs
unfolding write_at HasPrefix
before_write f p [] ws le h = tt
before_write [] p (b ∷ bs) ws le h = elim h [ ]
before_write (x ∷ f) zero (b ∷ bs) ws le h = absurd (omega arith)
before_write (x ∷ f) (suc p) (b ∷ bs) ws le h = (h.0, before_write f p bs ws (omega arith) h.1)

-- A write behind some bytes leaves them.
pub Holds-write_after :
    (f : File) (o p : ℕ) (bs ws : List ℕ)
    → o + length bs ≤ p
    → Holds f o bs
    → Holds (write_at f p ws) o bs
unfolding write_at Holds
Holds-write_after f zero p bs ws le h = before_write f p bs ws (omega arith) h
Holds-write_after [] (suc o) p bs ws le h = elim h [ ]
Holds-write_after (x ∷ f) (suc o) zero bs ws le h = absurd (omega arith)
Holds-write_after (x ∷ f) (suc o) (suc p) bs ws le h = Holds-write_after f o p bs ws (omega arith) h

behind_overwrite :
    (f : File) (o : ℕ) (bs ws : List ℕ) → length ws ≤ o → Holds f o bs → Holds (overwrite f ws) o bs
unfolding overwrite Holds
behind_overwrite f o bs [] le h = h
behind_overwrite f zero bs (w ∷ ws) le h = absurd (omega arith)
behind_overwrite [] (suc o) bs (w ∷ ws) le h = elim h [ ]
behind_overwrite (x ∷ f) (suc o) bs (w ∷ ws) le h = behind_overwrite f o bs ws (omega arith) h

-- A write in front of some bytes leaves them.
pub Holds-write_before :
    (f : File) (o p : ℕ) (bs ws : List ℕ)
    → p + length ws ≤ o
    → Holds f o bs
    → Holds (write_at f p ws) o bs
unfolding write_at Holds
Holds-write_before f o zero bs ws le h = behind_overwrite f o bs ws (omega arith) h
Holds-write_before f zero (suc p) bs ws le h = absurd (omega arith)
Holds-write_before [] (suc o) (suc p) bs ws le h = elim h [ ]
Holds-write_before (x ∷ f) (suc o) (suc p) bs ws le h =
    Holds-write_before f o p bs ws (omega arith) h

length-HasPrefix : (f : File) (bs : List ℕ) → HasPrefix f bs → length bs ≤ length f
unfolding HasPrefix
length-HasPrefix f [] h = omega arith
length-HasPrefix [] (b ∷ bs) h = elim h [ ]
length-HasPrefix (x ∷ f) (b ∷ bs) h = omega (arith, length-HasPrefix f bs h.1)

-- Bytes that stand in a file stand before its end.
pub Holds-bound : (f : File) (o : ℕ) (bs : List ℕ) → Holds f o bs → o + length bs ≤ length f
unfolding Holds
Holds-bound f zero bs h = omega (arith, length-HasPrefix f bs h)
Holds-bound [] (suc o) bs h = elim h [ ]
Holds-bound (x ∷ f) (suc o) bs h = omega (arith, Holds-bound f o bs h)

length-overwrite : (f : File) (bs : List ℕ) → length (overwrite f bs) ≡ max (length f) (length bs)
unfolding overwrite
length-overwrite f [] = omega arith
length-overwrite [] (b ∷ bs) = omega (arith, length-overwrite [] bs)
length-overwrite (x ∷ f) (b ∷ bs) = omega (arith, length-overwrite f bs)

pub length-write_at :
    (f : File) (o : ℕ) (bs : List ℕ) → length (write_at f o bs) ≡ max (length f) (o + length bs)
unfolding write_at
length-write_at f zero bs = omega (arith, length-overwrite f bs)
length-write_at [] (suc o) bs = omega (arith, length-write_at [] o bs)
length-write_at (x ∷ f) (suc o) bs = omega (arith, length-write_at f o bs)

HasPrefix-append :
    (f : File) (xs ys : List ℕ) → HasPrefix f (xs ++ ys) → HasPrefix f xs × Holds f (length xs) ys
unfolding HasPrefix Holds
HasPrefix-append f [] ys h = (tt, h)
HasPrefix-append [] (a ∷ xs) ys h = elim h [ ]
HasPrefix-append (x ∷ f) (a ∷ xs) ys h =
    let (front, back) = HasPrefix-append f xs ys h.1 in ((h.0, front), back)

-- The two parts of the bytes that stand at an offset.
pub Holds-append :
    (f : File) (o : ℕ) (xs ys : List ℕ)
    → Holds f o (xs ++ ys)
    → Holds f o xs × Holds f (o + length xs) ys
unfolding Holds
Holds-append f zero xs ys h =
    let (front, back) = HasPrefix-append f xs ys h in
    (front, let e : 0 + length xs ≡ length xs = omega arith in rw e back)
Holds-append [] (suc o) xs ys h = elim h [ ]
Holds-append (x ∷ f) (suc o) xs ys h =
    let (front, back) = Holds-append f o xs ys h in
    (front, let e : suc o + length xs ≡ suc (o + length xs) = omega arith in rw e back)

prefix_join :
    (f : File) (xs ys : List ℕ) → HasPrefix f xs → Holds f (length xs) ys → HasPrefix f (xs ++ ys)
unfolding HasPrefix Holds
prefix_join f [] ys h k = k
prefix_join [] (a ∷ xs) ys h k = elim h [ ]
prefix_join (x ∷ f) (a ∷ xs) ys h k = (h.0, prefix_join f xs ys h.1 k)

pub Holds-join :
    (f : File) (o : ℕ) (xs ys : List ℕ)
    → Holds f o xs
    → Holds f (o + length xs) ys
    → Holds f o (xs ++ ys)
unfolding Holds
Holds-join f zero xs ys h k =
    let e : 0 + length xs ≡ length xs = omega arith in prefix_join f xs ys h (rw e at k)
Holds-join [] (suc o) xs ys h k = elim h [ ]
Holds-join (x ∷ f) (suc o) xs ys h k =
    let e : suc o + length xs ≡ suc (o + length xs) = omega arith in
    Holds-join f o xs ys h (rw e at k)

overwrite_comm :
    (f : File) (p : ℕ) (xs ys : List ℕ)
    → length xs ≤ p
    → p + length ys ≤ length f
    → write_at (overwrite f xs) p ys ≡ overwrite (write_at f p ys) xs
unfolding write_at overwrite
overwrite_comm f p [] ys le h = refl
overwrite_comm f zero (x ∷ xs) ys le h = absurd (omega arith)
overwrite_comm [] (suc p) (x ∷ xs) ys le h = absurd (omega arith)
overwrite_comm (c ∷ f) (suc p) (x ∷ xs) ys le h =
    ap (λ l. x ∷ l) (overwrite_comm f p xs ys (omega arith) (omega arith))

-- Two writes inside a file that do not meet may be exchanged.
pub write_at_comm :
    (f : File) (o p : ℕ) (xs ys : List ℕ)
    → o + length xs ≤ p
    → p + length ys ≤ length f
    → write_at (write_at f o xs) p ys ≡ write_at (write_at f p ys) o xs
unfolding write_at
write_at_comm f zero p xs ys le h = overwrite_comm f p xs ys (omega arith) h
write_at_comm f (suc o) zero xs ys le h = absurd (omega arith)
write_at_comm [] (suc o) (suc p) xs ys le h = absurd (omega arith)
write_at_comm (c ∷ f) (suc o) (suc p) xs ys le h =
    ap (λ l. c ∷ l) (write_at_comm f o p xs ys (omega arith) (omega arith))

take_nil : (n : ℕ) → take {A = ℕ} n [] ≡ []
take_nil zero = refl
take_nil (suc n) = refl

-- A read at the end of the file finds nothing.
pub read_at_end : (f : File) (n : ℕ) → read_at f (length f) n ≡ []
unfolding read_at
read_at_end [] n = take_nil n
read_at_end (x ∷ f) n = read_at_end f n
