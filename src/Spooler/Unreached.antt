-- ===== src/Spooler/Unreached.antt =====
-- Which worker threads of printer/printd.c the list leads to.
use learn_apue.Base.{
  ℕ, zero, suc, ◌<◌, ◌≡◌, ◌≢◌, refl, ap, ◌∙◌, false, none, some, List, [], ◌∷◌, arith, length, map,
  All, ◌==◌,
}
use learn_apue.Links.Payload.{put_at}
use learn_apue.Links.Segments.{Field, upd, Away, upd_ne}
use learn_apue.Spooler.Workers.{
  Worker, Workers, add_worker, also, kill_from, kill_workers, cleanup_from, client_cleanup,
}

-- From `a` the `next` pointers lead through the nodes to the null pointer.
abbrev pub Leads : Field → ℕ → List ℕ → Type 0
Leads n a [] = a ≡ 0
Leads n a (x ∷ xs) = (a ≡ x) × (x ≢ 0) × Leads n (n x) xs

Leads-upd :
    (n : Field) (a b c : ℕ) (xs : List ℕ) → Away b xs → Leads n a xs → Leads (upd n b c) a xs
Leads-upd n a b c [] w l = l
Leads-upd n a b c (x ∷ xs) (ne, w) (e, nz, l) =
    (e, nz, rw (upd_ne n b c x ne) (Leads-upd n (n x) b c xs w l))

kill_from-Leads :
    (rounds a : ℕ) (w : Workers) (xs : List ℕ)
    → Leads w.next a xs
    → length xs < rounds
    → kill_from rounds a w ≡ some (map (λ x. (w.threads x).tid) xs)
unfolding kill_from also
kill_from-Leads zero a w xs l h = absurd (omega arith)
kill_from-Leads (suc n) a w [] l h = rw l
kill_from-Leads (suc n) a w (x ∷ xs) (e, nz, l) h =
    let no : (x == 0) ≡ false = ground arith in
    rw (e, no, kill_from-Leads n (w.next x) w xs l (omega arith))

cleanup_from-Leads :
    (rounds a tid : ℕ) (w : Workers) (xs : List ℕ)
    → Leads w.next a xs
    → All (λ x. (w.threads x).tid ≢ tid) xs
    → length xs < rounds
    → cleanup_from rounds tid a w ≡ some (none, w)
unfolding cleanup_from
cleanup_from-Leads zero a tid w xs l other h = absurd (omega arith)
cleanup_from-Leads (suc n) a tid w [] l other h = rw l
cleanup_from-Leads (suc n) a tid w (x ∷ xs) (e, nz, l) (ne, other) h =
    let no : (x == 0) ≡ false = ground arith in
    let miss : ((w.threads x).tid == tid) ≡ false = ground arith in
    rw (e, no, miss, cleanup_from-Leads n (w.next x) tid w xs l other (omega arith))

module _ (a : ℕ) (v : Worker) (f : ℕ → Worker) where
  other-put_at : (x : ℕ) → x ≢ a → put_at a v f x ≡ f x
  unfolding put_at
  other-put_at x ne = ground arith

  map-put_at :
      (xs : List ℕ) → Away a xs → map (λ x. (put_at a v f x).tid) xs ≡ map (λ x. (f x).tid) xs
  map-put_at [] w = refl
  map-put_at (x ∷ xs) (ne, w) = rw (other-put_at x ne, map-put_at xs w)

  other_tids :
      (tid : ℕ) (xs : List ℕ)
      → Away a xs
      → All (λ x. (f x).tid ≢ tid) xs
      → All (λ x. (put_at a v f x).tid ≢ tid) xs
  other_tids tid [] w h = tt
  other_tids tid (x ∷ xs) (ne, w) (h, hs) = (rw (other-put_at x ne) h, other_tids tid xs w hs)

-- If the list of workers leads to some threads, then after `add_worker` for another thread, with
-- a node of its own and more rounds than threads, `kill_workers` still cancels those threads and
-- not the new one, and `client_cleanup` for the new one finds nothing and leaves its socket open.
pub add_worker-unreached :
    (rounds b tid fd : ℕ) (w : Workers) (x : ℕ) (xs : List ℕ)
    → Leads w.next w.workers (x ∷ xs)
    → Away b (x ∷ xs)
    → All (λ y. (w.threads y).tid ≢ tid) (x ∷ xs)
    → length (x ∷ xs) < rounds
    → (kill_workers rounds (add_worker b tid fd w) ≡ some (map (λ y. (w.threads y).tid) (x ∷ xs)))
      × (client_cleanup rounds tid (add_worker b tid fd w) ≡ some (none, add_worker b tid fd w))
unfolding add_worker kill_workers client_cleanup
add_worker-unreached rounds b tid fd w x xs (e, nz, l) away other enough =
    let no : (x == 0) ≡ false = ground arith in
    let v : Worker = record { tid = tid; sockfd = fd } in
    let u : Workers = record {
      next = upd w.next b x;
      prev = upd (upd w.prev b 0) x b;
      workers = x;
      threads = put_at b v w.threads;
    } in
    let leads : Leads (upd w.next b x) x (x ∷ xs) =
      Leads-upd w.next x b x (x ∷ xs) away (refl, nz, l) in
    rw (e, no)
      (
        kill_from-Leads rounds x u (x ∷ xs) leads enough
            ∙ ap some (map-put_at b v w.threads (x ∷ xs) away),
        cleanup_from-Leads rounds x tid u (x ∷ xs) leads
            (other_tids b v w.threads tid (x ∷ xs) away other) enough,
      )
