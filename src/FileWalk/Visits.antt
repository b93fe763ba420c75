-- ===== src/FileWalk/Visits.antt =====
-- The files that filedir/ftw8.c passes to its function, with paths that are lists, not a buffer.
use learn_apue.Base.{
  ℕ, zero, suc, ◌+◌, ◌*◌, ◌≤◌, ◌≡◌, refl, sym, ◌∙◌, Bool, true, false, Option, some, List, [], ◌∷◌,
  ◌++◌, arith, take, length, leb, ltb, length-append, take-append, if◌then◌else◌, Bool-cases, inl,
  inr,
}
use learn_apue.Base.Int.{ℤ, pos, negsuc}
use learn_apue.Bytes.Text.{is_dots}
use mathlib.Core.List.{append-nil, append_assoc}
use learn_apue.FileWalk.{
  Tree, Entries, unstatable, leaf, dir, end, entry, FtwType, ftw_f, ftw_d, ftw_dnr, ftw_ns, PathBuf,
  put_name, put_slash, call, leave, open_dir, enter_dir, after_entry, into_entry, dopath,
  dopath_entries, walk_from, myftw,
}

-- Names of at most 255 bytes, as `readdir` returns them.
abbrev mutual
  pub Named : Tree → Type 0
  Named unstatable = Unit
  Named (leaf kind) = Unit
  Named (dir readable es) = NamedEntries es

  pub NamedEntries : Entries → Type 0
  NamedEntries end = Unit
  NamedEntries (entry name t es) = (length name ≤ 255) × Named t × NamedEntries es

module _ {W : Type 0} (func : List ℕ → FtwType → W → ℤ × W) where
  -- What comes next is done if the function has returned 0.
  abbrev pub unless_stopped : ℤ × W → (W → ℤ × W) → ℤ × W
  unless_stopped (pos zero, w) next = next w
  unless_stopped (pos (suc n), w) next = (pos (suc n), w)
  unless_stopped (negsuc n, w) next = (negsuc n, w)

  abbrev mutual
    -- A walk through the hierarchy below a path: a directory before its entries, in their order.
    pub visits : Tree → List ℕ → W → ℤ × W
    visits unstatable p w = func p ftw_ns w
    visits (leaf kind) p w = func p (ftw_f kind) w
    visits (dir readable es) p w =
        unless_stopped (func p ftw_d w)
          (if readable then visits_entries es (p ++ b'/' ∷ []) else func (p ++ b'/' ∷ []) ftw_dnr)

    pub visits_entries : Entries → List ℕ → W → ℤ × W
    visits_entries end p w = (pos 0, w)
    visits_entries (entry name t es) p w =
        let rest = visits_entries es p in
        let child = visits t (p ++ name) in
        if is_dots name then rest w else unless_stopped (child w) rest

  -- The walk has returned what it should, inside the buffer, and left the first part of it as it was.
  record Walked (p : List ℕ) (room : ℕ) (expected : ℤ × W) (o : Option (ℤ × PathBuf × W))
      : Type 0 where
    buf : PathBuf
    result : o ≡ some (expected.0, buf, expected.1)
    rest : List ℕ
    same_path : buf.fullpath ≡ p ++ rest
    fits : room ≤ buf.pathlen

  Walked-call :
      (type : FtwType) (s : PathBuf) (w : W) (p rest : List ℕ) (room : ℕ)
      → s.fullpath ≡ p ++ rest
      → room ≤ s.pathlen
      → Walked p room (func s.fullpath type w) (call func type s w)
  unfolding call
  Walked-call type s w p rest room e h = record {
    buf = s;
    result = refl;
    rest = rest;
    same_path = e;
    fits = h;
  }

  Walked-stop :
      (s : PathBuf) (p rest : List ℕ) (room : ℕ) (r : ℤ × W)
      → s.fullpath ≡ p ++ rest
      → room ≤ s.pathlen
      → Walked p room r (some (r.0, s, r.1))
  Walked-stop s p rest room r e h = record {
    buf = s;
    result = refl;
    rest = rest;
    same_path = e;
    fits = h;
  }

  -- If an entry is walked, and what comes next as well, the loop goes on or stops.
  Walked-after_entry :
      (p name : List ℕ) (room : ℕ) (e : ℤ × W) (next : W → ℤ × W) (o : Option (ℤ × PathBuf × W))
      (loop : PathBuf → W → Option (ℤ × PathBuf × W))
      → Walked (p ++ name) room e o
      → ((s : PathBuf) (w : W) (rest : List ℕ)
          → s.fullpath ≡ p ++ rest
          → room ≤ s.pathlen
          → Walked p room (next w) (loop s w))
      → Walked p room (unless_stopped e next) (after_entry func o loop)
  unfolding after_entry
  Walked-after_entry p name room (pos zero, w) next o loop a b =
      rw a.result (b a.buf w (name ++ a.rest) (a.same_path ∙ append_assoc p name a.rest) a.fits)
  Walked-after_entry p name room (pos (suc n), w) next o loop a b = rw a.result (
      Walked-stop a.buf p (name ++ a.rest) room (pos (suc n), w)
        (a.same_path ∙ append_assoc p name a.rest) a.fits)
  Walked-after_entry p name room (negsuc n, w) next o loop a b = rw a.result (
      Walked-stop a.buf p (name ++ a.rest) room (negsuc n, w)
        (a.same_path ∙ append_assoc p name a.rest) a.fits)

  put_name-some :
      (p rest name : List ℕ) (s : PathBuf)
      → s.fullpath ≡ p ++ rest
      → length p + length name + 1 ≤ s.pathlen
      → put_name (length p) name s ≡ some (record { fullpath = p ++ name; pathlen = s.pathlen })
  unfolding put_name
  put_name-some p rest name s e h =
      let inside : leb (length p) (length (p ++ rest)) ≡ true =
        ground (arith, length-append p rest) in
      let fits : leb (length p + length name + 1) s.pathlen ≡ true = ground arith in
      rw (e, inside, fits, take-append (length p) p rest refl) refl

  -- The slash always fits, and so do the longest name and a null byte behind it.
  record Slashed (p : List ℕ) (room : ℕ) (s : PathBuf) : Type 0 where
    buf : PathBuf
    result : put_slash s ≡ some buf
    same_path : buf.fullpath ≡ p ++ b'/' ∷ []
    for_name : length p + 257 ≤ buf.pathlen
    fits : room ≤ buf.pathlen

  put_slash-Slashed :
      (p : List ℕ) (room : ℕ) (s : PathBuf)
      → s.fullpath ≡ p
      → suc (length p) ≤ room
      → 256 ≤ room
      → room ≤ s.pathlen
      → Slashed p room s
  unfolding put_slash
  put_slash-Slashed p room s e h h256 fits =
      elim (Bool-cases (ltb s.pathlen (length p + 255 + 2))) [
        | inl small ↦ record {
          buf = record { fullpath = p ++ b'/' ∷ []; pathlen = s.pathlen * 2 };
          result =
              rw (e, small)
                (put_name-some p [] (b'/' ∷ []) (record { fullpath = p; pathlen = s.pathlen * 2 })
                  (sym (append-nil p)) (omega arith));
          same_path = refl;
          for_name = omega arith;
          fits = omega arith;
        }
        | inr large ↦ record {
          buf = record { fullpath = p ++ b'/' ∷ []; pathlen = s.pathlen };
          result =
              rw (e, large)
                (put_name-some p [] (b'/' ∷ []) (record { fullpath = p; pathlen = s.pathlen })
                  (sym (append-nil p)) (ground arith));
          same_path = refl;
          for_name = ground arith;
          fits = fits;
        }
      ]

  -- After the loop on a directory, the path is the directory's.
  Walked-leave :
      (p q : List ℕ) (room more : ℕ) (e : ℤ × W) (o : Option (ℤ × PathBuf × W))
      → room ≤ more
      → Walked (p ++ q) more e o
      → Walked p room e (leave func (length p) o)
  unfolding leave
  Walked-leave p q room more e o h a = rw a.result record {
    buf = record { fullpath = take (length p) a.buf.fullpath; pathlen = a.buf.pathlen };
    result = refl;
    rest = [];
    same_path =
        rw (a.same_path, append_assoc p q a.rest, append-nil p)
          (take-append (length p) p (q ++ a.rest) refl);
    fits = omega (arith, a.fits);
  }

  -- A directory for which the function has returned is opened and its entries are walked, or the walk stops.
  Walked-enter_dir :
      (readable : Bool) (es : Entries) (loop : PathBuf → W → Option (ℤ × PathBuf × W)) (p : List ℕ)
      (room : ℕ) (s : PathBuf) (r : ℤ × W)
      → s.fullpath ≡ p
      → suc (length p) ≤ room
      → 256 ≤ room
      → room ≤ s.pathlen
      → ((more : ℕ) (s' : PathBuf) (w : W)
          → s'.fullpath ≡ p ++ b'/' ∷ []
          → length p + 257 ≤ more
          → more ≤ s'.pathlen
          → Walked (p ++ b'/' ∷ []) more (visits_entries es (p ++ b'/' ∷ []) w) (loop s' w))
      → Walked p room
          (unless_stopped r (
            if readable then visits_entries es (p ++ b'/' ∷ []) else func (p ++ b'/' ∷ []) ftw_dnr))
          (enter_dir func readable loop s r)
  unfolding enter_dir open_dir
  Walked-enter_dir true es loop p room s (pos zero, w) e h h256 fits b =
      let slashed = put_slash-Slashed p room s e h h256 fits in
      let buf = slashed.buf in
      rw (slashed.result, e)
        (Walked-leave p (b'/' ∷ []) room buf.pathlen _ _ slashed.fits
          (b buf.pathlen buf w slashed.same_path slashed.for_name (omega arith)))
  Walked-enter_dir false es loop p room s (pos zero, w) e h h256 fits b =
      let slashed = put_slash-Slashed p room s e h h256 fits in
      rw (slashed.result, ← slashed.same_path)
        (Walked-call ftw_dnr slashed.buf w p (b'/' ∷ []) room slashed.same_path slashed.fits)
  Walked-enter_dir readable es loop p room s (pos (suc n), w) e h h256 fits b =
      Walked-stop s p [] room (pos (suc n), w) (e ∙ sym (append-nil p)) fits
  Walked-enter_dir readable es loop p room s (negsuc n, w) e h h256 fits b =
      Walked-stop s p [] room (negsuc n, w) (e ∙ sym (append-nil p)) fits

  mutual
    unfolding dopath into_entry

    dopath-Walked :
        (t : Tree) (s : PathBuf) (w : W) (room : ℕ)
        → Named t
        → suc (length s.fullpath) ≤ room
        → 256 ≤ room
        → room ≤ s.pathlen
        → Walked s.fullpath room (visits t s.fullpath w) (dopath func t s w)
    dopath-Walked unstatable s w room n h h256 fits =
        Walked-call ftw_ns s w s.fullpath [] room (sym (append-nil s.fullpath)) fits
    dopath-Walked (leaf kind) s w room n h h256 fits =
        Walked-call (ftw_f kind) s w s.fullpath [] room (sym (append-nil s.fullpath)) fits
    dopath-Walked (dir readable es) s w room n h h256 fits =
        let path = s.fullpath in
        let slash : List ℕ = b'/' ∷ [] in
        let len : length (path ++ slash) ≡ suc (length path) =
          omega (arith, length-append path slash) in
        Walked-enter_dir readable es (dopath_entries func es (suc (length path))) path room s
          (func path ftw_d w) refl h h256 fits
          (λ more s' w' e' h' fits'. rw (← len) (
            dopath_entries-Walked es s' w' (path ++ slash) [] more n
              (e' ∙ sym (append-nil (path ++ slash))) (omega arith) fits'))

    dopath_entries-Walked :
        (es : Entries) (s : PathBuf) (w : W) (p rest : List ℕ) (room : ℕ)
        → NamedEntries es
        → s.fullpath ≡ p ++ rest
        → length p + 256 ≤ room
        → room ≤ s.pathlen
        → Walked p room (visits_entries es p w) (dopath_entries func es (length p) s w)
    dopath_entries-Walked end s w p rest room n e h fits =
        Walked-stop s p rest room (pos 0, w) e fits
    dopath_entries-Walked (entry name t es) s w p rest room n e h fits =
        elim (Bool-cases (is_dots name)) [
          | inl dots ↦ rw dots (dopath_entries-Walked es s w p rest room n.2 e h fits)
          | inr other ↦
              rw (other, put_name-some p rest name s e (omega (arith, n.0)))
                (Walked-after_entry p name room (visits t (p ++ name) w) (visits_entries es p) _ _
                  (dopath-Walked t (record { fullpath = p ++ name; pathlen = s.pathlen }) w room n.1
                    (omega (arith, length-append p name, n.0)) (omega arith) fits)
                  (λ s' w' rest' e' fits'.
                    dopath_entries-Walked es s' w' p rest' room n.2 e' h fits'))
        ]

  -- If no name that `readdir` returns is longer than 255 bytes and `path_alloc` returns a buffer of
  -- at least 256, then for every function `myftw` never writes outside the path's buffer, and it
  -- returns and does what a walk does that has no shared buffer: each file is visited with the
  -- directory's path, a slash and its name, a directory before its entries, dot and dot-dot are
  -- left out, and the first value other than 0 ends the walk.
  pub myftw-visits :
      (size : ℕ) (pathname : List ℕ) (t : Tree) (w : W)
      → Named t
      → 256 ≤ size
      → (s : PathBuf) × (myftw func size pathname t w
          ≡ some ((visits t pathname w).0, s, (visits t pathname w).1))
  unfolding myftw walk_from
  myftw-visits size pathname t w n h = elim (Bool-cases (leb size (length pathname))) [
    | inl long ↦ rw long (from (length pathname * 2) (ground arith) (ground arith))
    | inr short ↦ rw short (from size (ground arith) h)
  ]
    where
      from :
          (room : ℕ)
          → suc (length pathname) ≤ room
          → 256 ≤ room
          → (s : PathBuf) × (walk_from func t w
                (put_name 0 pathname (record { fullpath = []; pathlen = room }))
              ≡ some ((visits t pathname w).0, s, (visits t pathname w).1))
      from room fits h256 =
          let a =
            dopath-Walked t (record { fullpath = pathname; pathlen = room }) w room n fits h256
              (omega arith) in
          rw
            (put_name-some [] [] pathname (record { fullpath = []; pathlen = room }) refl
              (omega arith))
            (a.buf, a.result)
