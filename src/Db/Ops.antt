-- ===== src/Db/Ops.antt =====
-- The operations of db/db.c. A `while` loop over a chain of the index file takes a number of
-- rounds, since a damaged file may hold a cycle.
use learn_apue.Base.{
  ℕ, zero, suc, ◌+◌, ◌-◌, ◌*◌, ◌%◌, ◌^◌, Bool, true, false, ◌&&◌, ◌||◌, Option, none, some, List,
  [], ◌∷◌, length, replicate, ltb, ◌==◌, if◌then◌else◌, str_eq,
}
use learn_apue.Base.Int.{ℤ, pos, negsuc}
use learn_apue.Db.Disk.{seek_set, seek_end, readptr, readidx, readdat, writedat, writeidx, writeptr}
use learn_apue.Db.State.{
  space, ptr_sz, free_off, datlen_min, datlen_max, idxfd, Db, incr, err_dump, no_rounds, ok, stop,
  M, pure, ◌>>=◌, ◌>>◌, and_then, get, modify, abort, lock, un_lock,
}

-- A `char` is signed: a byte of 128 or more is negative, here modulo 2 ^ 64.
unfoldable pub sign_extend : ℕ → ℕ
sign_extend c = if ltb c 128 then c else c + (2 ^ 64 - 256)

unfoldable pub hash_loop : ℕ → ℕ → List ℕ → ℕ
hash_loop hval i [] = hval
hash_loop hval i (c ∷ key) = hash_loop ((hval + sign_extend c * i) % 2 ^ 64) (i + 1) key

-- `_db_hash`
unfoldable pub hash : ℕ → List ℕ → ℕ
hash nhash key = hash_loop 0 1 key % nhash

-- The loop of `_db_find_and_lock`; true if the key is found.
unfoldable pub find_loop : ℕ → List ℕ → ℤ → M Bool
find_loop zero key offset s = stop no_rounds s
find_loop (suc k) key offset s = elim offset [
  | pos zero ↦ ok false s
  | pos (suc o) ↦ and_then (readidx (pos (suc o)) s) (λ next s. elim (str_eq s.idxbuf key) [
    | true ↦ ok true s
    | false ↦ find_loop k key next (record s { ptroff = suc o })
  ])
  | negsuc n ↦ and_then (readidx (negsuc n) s) (λ next s. ok false s)
]

-- The place of the chain pointer for a key.
abbrev pub slot_of : Db → List ℕ → ℕ
slot_of s key = hash s.nhash key * ptr_sz + s.hashoff

-- `_db_find_and_lock`; true for a return value of 0.
unfoldable pub find_and_lock : ℕ → List ℕ → M Bool
find_and_lock rounds key = do
  modify (λ s. record s { chainoff = slot_of s key; ptroff = slot_of s key })
  s ← get
  lock idxfd s.chainoff 1
  offset ← readptr s.ptroff
  find_loop rounds key offset

-- `_db_dodelete`
unfoldable pub dodelete : M (Unit {0})
dodelete = do
  modify (λ s. record s {
    datbuf = replicate (s.datlen - 1) space;
    idxbuf = replicate (length s.idxbuf) space;
  })
  lock idxfd free_off 1
  s ← get
  writedat s.datbuf s.datoff seek_set
  freeptr ← readptr free_off
  s ← get
  let saveptr = s.ptrval
  writeidx s.idxbuf s.idxoff seek_set freeptr
  s ← get
  writeptr free_off (pos s.idxoff)
  writeptr s.ptroff saveptr
  un_lock idxfd free_off 1

unfoldable pub fetch_found : Bool → M (Option (List ℕ))
fetch_found false = do modify (λ s. record s { cnt_fetcherr = incr s.cnt_fetcherr }); pure none
fetch_found true = do
  ptr ← readdat
  modify (λ s. record s { cnt_fetchok = incr s.cnt_fetchok })
  pure (some ptr)

-- `db_fetch`
unfoldable pub fetch : ℕ → List ℕ → M (Option (List ℕ))
fetch rounds key = do
  found ← find_and_lock rounds key
  ptr ← fetch_found found
  s ← get
  un_lock idxfd s.chainoff 1
  pure ptr

unfoldable pub delete_found : Bool → M ℤ
delete_found true = do
  dodelete
  modify (λ s. record s { cnt_delok = incr s.cnt_delok })
  pure (pos 0)
delete_found false = do modify (λ s. record s { cnt_delerr = incr s.cnt_delerr }); pure (negsuc 0)

-- `db_delete`
unfoldable pub delete : ℕ → List ℕ → M ℤ
delete rounds key = do
  found ← find_and_lock rounds key
  rc ← delete_found found
  s ← get
  un_lock idxfd s.chainoff 1
  pure rc

-- The loop of `_db_findfree`; true if a record of the sizes is found, and the place of the pointer
-- that leads to it.
unfoldable pub free_loop : ℕ → ℕ → ℕ → ℕ → ℤ → M (Bool × ℕ)
free_loop zero keylen datlen saveoffset offset s = stop no_rounds s
free_loop (suc k) keylen datlen saveoffset offset s = elim offset [
  | pos zero ↦ ok (false, saveoffset) s
  | pos (suc o) ↦ and_then (readidx (pos (suc o)) s) (λ next s.
      elim ((length s.idxbuf == keylen) && (s.datlen == datlen)) [
        | true ↦ ok (true, saveoffset) s
        | false ↦ free_loop k keylen datlen (suc o) next s
      ])
  | negsuc n ↦ and_then (readidx (negsuc n) s) (λ next s. ok (false, saveoffset) s)
]

unfoldable pub take_free : Bool → ℕ → M (Unit {0})
take_free false saveoffset = pure tt
take_free true saveoffset = do s ← get; writeptr saveoffset s.ptrval

-- `_db_findfree`; true for a return value of 0.
unfoldable pub findfree : ℕ → ℕ → ℕ → M Bool
findfree rounds keylen datlen = do
  lock idxfd free_off 1
  offset ← readptr free_off
  (found, saveoffset) ← free_loop rounds keylen datlen free_off offset
  take_free found saveoffset
  un_lock idxfd free_off 1
  pure found

pub data Flag : Type 0 where
  db_insert db_replace db_store : Flag

-- The flag that an argument of `db_store` stands for.
unfoldable pub flag_of : ℕ → Option Flag
flag_of n =
    if n == 1
    then some db_insert
    else if n == 2
    then some db_replace
    else if n == 3
    then some db_store
    else none

-- A new record at the ends of the files, in front of its hash chain.
unfoldable pub append_record : List ℕ → List ℕ → ℤ → M (Unit {0})
append_record key data' ptrval = do
  writedat data' 0 seek_end
  writeidx key 0 seek_end ptrval
  s ← get
  writeptr s.chainoff (pos s.idxoff)

-- A new record in the place of a deleted one, in front of its hash chain.
unfoldable pub reuse_record : List ℕ → List ℕ → ℤ → M (Unit {0})
reuse_record key data' ptrval = do
  s ← get
  writedat data' s.datoff seek_set
  s ← get
  writeidx key s.idxoff seek_set ptrval
  s ← get
  writeptr s.chainoff (pos s.idxoff)

unfoldable pub insert_found : List ℕ → List ℕ → ℤ → Bool → M ℤ
insert_found key data' ptrval false = do
  append_record key data' ptrval
  modify (λ s. record s { cnt_stor1 = incr s.cnt_stor1 })
  pure (pos 0)
insert_found key data' ptrval true = do
  reuse_record key data' ptrval
  modify (λ s. record s { cnt_stor2 = incr s.cnt_stor2 })
  pure (pos 0)

unfoldable pub insert_new : ℕ → List ℕ → List ℕ → M ℤ
insert_new rounds key data' = do
  s ← get
  ptrval ← readptr s.chainoff
  free ← findfree rounds (length key) (length data' + 1)
  insert_found key data' ptrval free

unfoldable pub replace_old : List ℕ → List ℕ → Bool → M ℤ
replace_old key data' false = do
  dodelete
  s ← get
  ptrval ← readptr s.chainoff
  append_record key data' ptrval
  modify (λ s. record s { cnt_stor3 = incr s.cnt_stor3 })
  pure (pos 0)
replace_old key data' true = do
  s ← get
  writedat data' s.datoff seek_set
  modify (λ s. record s { cnt_stor4 = incr s.cnt_stor4 })
  pure (pos 0)

abbrev pub enoent : ℕ
enoent = 2

abbrev pub einval : ℕ
einval = 22

-- The branches of `db_store` on the flag, once the chain has been searched.
unfoldable pub store_found : ℕ → List ℕ → List ℕ → Flag → Bool → M ℤ
store_found rounds key data' db_replace false = do
  modify (λ s. record s { cnt_storerr = incr s.cnt_storerr; errno = enoent })
  pure (negsuc 0)
store_found rounds key data' db_insert false = insert_new rounds key data'
store_found rounds key data' db_store false = insert_new rounds key data'
store_found rounds key data' db_insert true = do
  modify (λ s. record s { cnt_storerr = incr s.cnt_storerr })
  pure (pos 1)
store_found rounds key data' db_replace true = do
  s ← get
  replace_old key data' (length data' + 1 == s.datlen)
store_found rounds key data' db_store true = do
  s ← get
  replace_old key data' (length data' + 1 == s.datlen)

unfoldable pub store_flag : ℕ → List ℕ → List ℕ → Flag → M ℤ
store_flag rounds key data' flag =
    if ltb (length data' + 1) datlen_min || ltb datlen_max (length data' + 1)
    then abort (err_dump "db_store: invalid data length")
    else (do
      found ← find_and_lock rounds key
      rc ← store_found rounds key data' flag found
      s ← get
      un_lock idxfd s.chainoff 1
      pure rc)

unfoldable pub store_choice : ℕ → List ℕ → List ℕ → Option Flag → M ℤ
store_choice rounds key data' none = do modify (λ s. record s { errno = einval }); pure (negsuc 0)
store_choice rounds key data' (some f) = store_flag rounds key data' f

-- `db_store`
unfoldable pub store : ℕ → List ℕ → List ℕ → ℕ → M ℤ
store rounds key data' flag = store_choice rounds key data' (flag_of flag)

-- `db_rewind`
unfoldable pub rewind : M (Unit {0})
rewind = modify (λ s. let o = (s.nhash + 1) * ptr_sz + 1 in record s { idxoff = o; idx_pos = o })

unfoldable pub all_blank : List ℕ → Bool
all_blank [] = true
all_blank (c ∷ key) = (c == space) && all_blank key

-- The loop of `db_nextrec`; true if a record with a key that is not blank was read.
unfoldable pub next_loop : ℕ → M Bool
next_loop zero s = stop no_rounds s
next_loop (suc k) s = and_then (readidx (pos 0) s) (λ ptr s. elim ptr [
  | negsuc n ↦ ok false s
  | pos n ↦ elim (all_blank s.idxbuf) [ true ↦ next_loop k s | false ↦ ok true s ]
])

unfoldable pub next_found : Bool → M (Option (List ℕ × List ℕ))
next_found false = pure none
next_found true = do
  s ← get
  let key = s.idxbuf
  ptr ← readdat
  modify (λ s. record s { cnt_nextrec = incr s.cnt_nextrec })
  pure (some (key, ptr))

-- `db_nextrec`, with the key that it copies to its argument.
unfoldable pub nextrec : ℕ → M (Option (List ℕ × List ℕ))
nextrec rounds = do
  lock idxfd free_off 1
  found ← next_loop rounds
  r ← next_found found
  un_lock idxfd free_off 1
  pure r
