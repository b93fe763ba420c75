-- ===== src/FileWalk.antt =====
-- The walk through a file hierarchy of filedir/ftw8.c, with its path in one shared buffer. A directory is
-- the list of the names that `readdir` returns; `realloc` has memory, and `closedir` succeeds.
pub mod Visits
pub mod Counts
mod Tests
use learn_apue.Base.{
  ℕ, zero, suc, ◌+◌, ◌-◌, ◌*◌, Bool, true, false, ◌&&◌, Option, none, some, List, [], ◌∷◌, ◌++◌,
  take, length, leb, ltb, if◌then◌else◌,
}
use learn_apue.Base.Int.{ℤ, pos, negsuc}
use learn_apue.Bytes.Text.{is_dots}

-- What `lstat` says of a file that is no directory.
pub data FileKind : Type 0 where
  regular : FileKind
  block_special : FileKind
  char_special : FileKind
  fifo : FileKind
  symbolic_link : FileKind
  socket : FileKind

-- A file: `lstat` fails, it is no directory, or it is a directory that `opendir` can read or not.
mutual
  pub data Tree : Type 0 where
    unstatable : Tree
    leaf : FileKind → Tree
    dir : Bool → Entries → Tree

  pub data Entries : Type 0 where
    end : Entries
    entry : List ℕ → Tree → Entries → Entries

-- The third argument of the function, with what it uses of the second.
pub data FtwType : Type 0 where
  ftw_f : FileKind → FtwType
  ftw_d : FtwType
  ftw_dnr : FtwType
  ftw_ns : FtwType

-- `fullpath` up to its null byte, and `pathlen`.
pub record PathBuf : Type 0 where
  pub fullpath : List ℕ
  pub pathlen : ℕ

-- `strcpy(&fullpath[n], name)`, none if it does not fit the buffer or leaves a gap.
unfoldable pub put_name : ℕ → List ℕ → PathBuf → Option PathBuf
put_name n name s =
    if leb n (length s.fullpath) && leb (n + length name + 1) s.pathlen
    then some (record s { fullpath = take n s.fullpath ++ name })
    else none

-- The buffer is doubled if a name might not fit, and the slash is put behind the path.
unfoldable pub put_slash : PathBuf → Option PathBuf
put_slash s =
    let n = length s.fullpath in
    put_name n (b'/' ∷ [])
      (if ltb s.pathlen (n + 255 + 2) then record s { pathlen = s.pathlen * 2 } else s)

module _ {W : Type 0} (func : List ℕ → FtwType → W → ℤ × W) where
  unfoldable pub call : FtwType → PathBuf → W → Option (ℤ × PathBuf × W)
  call type s w = let (ret, w1) = func s.fullpath type w in some (ret, s, w1)

  -- The end of the loop on a directory: what stands behind the path is erased.
  unfoldable pub leave : ℕ → Option (ℤ × PathBuf × W) → Option (ℤ × PathBuf × W)
  leave n none = none
  leave n (some (ret, s, w)) = some (ret, record s { fullpath = take n s.fullpath }, w)

  unfoldable pub open_dir :
      Bool
      → ℕ
      → (PathBuf → W → Option (ℤ × PathBuf × W))
      → W
      → Option PathBuf
      → Option (ℤ × PathBuf × W)
  open_dir readable n loop w none = none
  open_dir true n loop w (some s) = leave n (loop s w)
  open_dir false n loop w (some s) = call ftw_dnr s w

  -- After the function was called for a directory.
  unfoldable pub enter_dir :
      Bool → (PathBuf → W → Option (ℤ × PathBuf × W)) → PathBuf → ℤ × W → Option (ℤ × PathBuf × W)
  enter_dir readable loop s (pos zero, w) =
      open_dir readable (length s.fullpath) loop w (put_slash s)
  enter_dir readable loop s (pos (suc n), w) = some (pos (suc n), s, w)
  enter_dir readable loop s (negsuc n, w) = some (negsuc n, s, w)

  -- The loop goes on if the walk of the entry has returned 0.
  unfoldable pub after_entry :
      Option (ℤ × PathBuf × W) → (PathBuf → W → Option (ℤ × PathBuf × W)) → Option (ℤ × PathBuf × W)
  after_entry none rest = none
  after_entry (some (pos zero, s, w)) rest = rest s w
  after_entry (some (pos (suc n), s, w)) rest = some (pos (suc n), s, w)
  after_entry (some (negsuc n, s, w)) rest = some (negsuc n, s, w)

  unfoldable pub into_entry :
      Option PathBuf
      → W
      → (PathBuf → W → Option (ℤ × PathBuf × W))
      → (PathBuf → W → Option (ℤ × PathBuf × W))
      → Option (ℤ × PathBuf × W)
  into_entry none w child rest = none
  into_entry (some s) w child rest = after_entry (child s w) rest

  unfoldable mutual
    -- `dopath`: its return value, the buffer, and what the function did; none if it writes outside the
    -- buffer.
    pub dopath : Tree → PathBuf → W → Option (ℤ × PathBuf × W)
    dopath unstatable s w = call ftw_ns s w
    dopath (leaf kind) s w = call (ftw_f kind) s w
    dopath (dir readable es) s w =
        enter_dir readable (dopath_entries es (suc (length s.fullpath))) s (func s.fullpath ftw_d w)

    -- The loop over the entries of a directory whose path with its slash has the length.
    pub dopath_entries : Entries → ℕ → PathBuf → W → Option (ℤ × PathBuf × W)
    dopath_entries end n s w = some (pos 0, s, w)
    dopath_entries (entry name t es) n s w =
        let rest = dopath_entries es n in
        let child = dopath t in
        if is_dots name then rest s w else into_entry (put_name n name s) w child rest

  unfoldable pub walk_from : Tree → W → Option PathBuf → Option (ℤ × PathBuf × W)
  walk_from t w none = none
  walk_from t w (some s) = dopath t s w

  -- `myftw`, where `path_alloc` returns a buffer of the size.
  unfoldable pub myftw : ℕ → List ℕ → Tree → W → Option (ℤ × PathBuf × W)
  myftw size pathname t w =
      let len = length pathname in
      walk_from t w (
        put_name 0 pathname
          (record { fullpath = []; pathlen = if leb size len then len * 2 else size }))
