-- ===== src/RefTable.antt =====
-- The table of objects with reference counts of threads/mutex3.c. An operation holds `hashlock`, so it is
-- one step. Identifiers are not negative, and a count does not reach the largest `int`.
pub mod Lifetime
mod Tests
use learn_apue.Base.{ℕ, zero, suc, ◌%◌, Option, none, some, ◌==◌, if◌then◌else◌}
use learn_apue.Base.Int.{ℤ, pos, negsuc}
use learn_apue.Links.Payload.{put_at}
use learn_apue.Links.Segments.{Field, upd}

-- `struct foo` without its lock and its link.
pub record Foo : Type 0 where
  pub f_count : ℤ
  pub f_id : ℕ

-- `fh` and the objects that it leads to.
pub record Table : Type 0 where
  pub fh : Field
  pub f_next : Field
  pub foos : ℕ → Foo

-- `HASH`, with `NHASH` = 29.
unfoldable pub foo_hash : ℕ → ℕ
foo_hash id = id % 29

unfoldable pub link_foo : ℕ → ℕ → Table → Table
link_foo fp id t =
    let t1 = record t { foos = put_at fp (record { f_count = pos 1; f_id = id }) t.foos } in
    let t2 = record t1 { f_next = upd t1.f_next fp (t1.fh (foo_hash id)) } in
    record t2 { fh = upd t2.fh (foo_hash id) fp }

-- `foo_alloc` with what `malloc` returns, none for NULL, and what `pthread_mutex_init` returns; the
-- address, 0 for NULL.
unfoldable pub foo_alloc : Option ℕ → ℕ → ℕ → Table → ℕ × Table
foo_alloc none err id t = (0, t)
foo_alloc (some fp) zero id t = (fp, link_foo fp id t)
foo_alloc (some fp) (suc err) id t = (0, t)

unfoldable pub count_up : ℤ → ℤ
count_up (pos n) = pos (suc n)
count_up (negsuc zero) = pos 0
count_up (negsuc (suc n)) = negsuc n

unfoldable pub count_down : ℤ → ℤ
count_down (pos zero) = negsuc 0
count_down (pos (suc n)) = pos n
count_down (negsuc n) = negsuc (suc n)

unfoldable pub store_count : ℕ → ℤ → Table → Table
store_count fp n t = record t { foos = put_at fp (record (t.foos fp) { f_count = n }) t.foos }

-- `foo_hold`
unfoldable pub foo_hold : ℕ → Table → Table
foo_hold fp t = store_count fp (count_up (t.foos fp).f_count) t

-- The loop of `foo_find`: none if the rounds are used up.
unfoldable pub find_foo : ℕ → ℕ → ℕ → Table → Option (ℕ × Table)
find_foo zero id fp t = none
find_foo (suc n) id fp t =
    let rest = find_foo n id (t.f_next fp) t in
    if fp == 0
    then some (0, t)
    else if (t.foos fp).f_id == id
    then some (fp, foo_hold fp t)
    else rest

-- `foo_find`
unfoldable pub foo_find : ℕ → ℕ → Table → Option (ℕ × Table)
foo_find rounds id t = find_foo rounds id (t.fh (foo_hash id)) t

-- The loop that looks for the object in front, and what is done then.
unfoldable pub unlink_foo : ℕ → ℕ → ℕ → Table → Option Table
unlink_foo zero fp tfp t = none
unlink_foo (suc n) fp tfp t =
    let rest = unlink_foo n fp (t.f_next tfp) t in
    if t.f_next tfp == fp then some (record t { f_next = upd t.f_next tfp (t.f_next fp) }) else rest

-- The last reference is gone.
unfoldable pub remove_foo : ℕ → ℕ → Table → Option Table
remove_foo rounds fp t =
    let idx = foo_hash (t.foos fp).f_id in
    if t.fh idx == fp
    then some (record t { fh = upd t.fh idx (t.f_next fp) })
    else unlink_foo rounds fp (t.fh idx) t

unfoldable pub release_foo : ℤ → ℕ → ℕ → Table → Option Table
release_foo (pos zero) rounds fp t = remove_foo rounds fp t
release_foo (pos (suc n)) rounds fp t = some t
release_foo (negsuc n) rounds fp t = some t

-- `foo_rele`
unfoldable pub foo_rele : ℕ → ℕ → Table → Option Table
foo_rele rounds fp t =
    let count = count_down (t.foos fp).f_count in
    release_foo count rounds fp (store_count fp count t)
