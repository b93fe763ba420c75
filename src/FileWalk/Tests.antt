-- ===== src/FileWalk/Tests.antt =====
-- The theorems on the walk through a hierarchy, at a directory with a file, a link and a directory.
use learn_apue.Base.{◌≡◌, true, false, some, [], arith}
use learn_apue.Base.Int.{pos}
use learn_apue.Bytes.Text.{codes}
use learn_apue.FileWalk.Visits.{Named, visits, myftw-visits}
use learn_apue.FileWalk.Counts.{Counters, Counted, leaves, dirs, failures, myfunc, myftw-Counted}
use learn_apue.FileWalk.{
  Tree, unstatable, leaf, dir, end, entry, regular, symbolic_link, PathBuf, myftw,
}

abbrev home : Tree
home = dir true (
    entry (codes ".") (dir true end) (
      entry (codes "a") (leaf regular) (
        entry (codes "b") (leaf symbolic_link)
          (entry (codes "c") (dir false end) (entry (codes "gone") unstatable end)))))

abbrev zeros : Counters
zeros = record {
  nreg = 0;
  ndir = 0;
  nblk = 0;
  nchr = 0;
  nfifo = 0;
  nslink = 0;
  nsock = 0;
  complaints = [];
}

home-Named : Named home
home-Named = (
  omega arith,
  tt,
  (omega arith, tt, (omega arith, tt, (omega arith, tt, (omega arith, tt, tt)))),
)

myftw-visits_example :
    (s : PathBuf) × (myftw myfunc 256 (codes "/h") home zeros
      ≡ some
          ((visits myfunc home (codes "/h") zeros).0, s, (visits myfunc home (codes "/h") zeros).1))
myftw-visits_example = myftw-visits myfunc 256 (codes "/h") home zeros home-Named (omega arith)

myftw-Counted_example :
    (s : PathBuf) × (c' : Counters) × (myftw myfunc 256 (codes "/h") home zeros
      ≡ some (pos 0, s, c'))
    × Counted (λ k. leaves k home) (dirs home) (failures home) zeros c'
myftw-Counted_example = myftw-Counted 256 (codes "/h") home zeros home-Named (omega arith)
