-- ===== src/OpenServer/Serving.antt =====
-- Whom a round of the loop of ipc2/open_server/loop.c serves.
use learn_apue.Base.{
  ℕ, zero, suc, ◌+◌, ◌-◌, ◌≤◌, ◌<◌, ◌≡◌, ◌≢◌, refl, sym, ◌∙◌, inl, inr, Bool, true, false, ◌&&◌,
  Option, none, some, List, [], ◌∷◌, ◌++◌, arith, leb, ltb, ◌==◌, Bool-cases, if◌then◌else◌,
}
use learn_apue.Base.Int.{ℤ, pos, negsuc}
use learn_apue.OpenServer.Request.{
  RequestEnd, answers, exits, overruns, HasRoom, handle_request, handle_request-answers,
}
use learn_apue.OpenServer.Table.{fd_at, client_del-Deleted, entry_at}
use learn_apue.OpenServer.Loop.{
  Server, Event, closed, answered, fd_put, with_event, close_client, on_handled, on_bytes, at_fd,
  at_entry, serve_clients,
}
use learn_apue.OpenServer.Invariant.{Valid, close-Valid}

module _ (read_set : ℕ → Bool) where
  abbrev pub is_ready : ℤ → ℕ
  is_ready (negsuc m) = 0
  is_ready (pos fd) = if read_set fd then 1 else 0

  -- How many of these entries are ready.
  abbrev pub ready_count : (ℕ → ℤ) → ℕ → ℕ → ℕ
  ready_count at i zero = 0
  ready_count at i (suc k) = is_ready (at i) + ready_count at (suc i) k

module _ (read_set : ℕ → Bool) (reads : ℕ → Option (List ℕ)) where
  abbrev pub after_read : ℕ → Option (List ℕ) → ℤ
  after_read fd none = pos fd
  after_read fd (some []) = negsuc 0
  after_read fd (some (b ∷ bs)) = pos fd

  -- What an entry holds after it was served.
  abbrev pub left : ℤ → ℤ
  left (negsuc m) = negsuc m
  left (pos fd) = if read_set fd then after_read fd (reads fd) else pos fd

module _ (open_file : List ℕ → ℤ → Option ℕ) (send_fd : ℕ → ℕ → Bool) (read_set : ℕ → Bool)
    (reads : ℕ → Option (List ℕ)) where
  abbrev pub handled : ℕ → RequestEnd → List Event
  handled fd (answers a) = answered fd a ∷ []
  handled fd exits = []
  handled fd overruns = []

  -- What a client that is ready is served with.
  abbrev pub event_of : ℕ → Option (List ℕ) → List Event
  event_of fd none = []
  event_of fd (some []) = closed fd ∷ []
  event_of fd (some (b ∷ bs)) = handled fd (handle_request open_file (send_fd fd) (b ∷ bs))

  abbrev pub event : ℤ → List Event
  event (negsuc m) = []
  event (pos fd) = if read_set fd then event_of fd (reads fd) else []

  -- What is sent and read for the descriptors that are ready: no `read` fails, a descriptor that is
  -- opened can be sent, and a request has room for the pointers to its tokens.
  pub record Obliging : Type 0 where
    pub no_error : (fd : ℕ) → read_set fd ≡ true → reads fd ≢ none
    pub sends : (fd new : ℕ) → read_set fd ≡ true → send_fd fd new ≡ true
    pub room : (fd : ℕ) (buf : List ℕ) → read_set fd ≡ true → reads fd ≡ some buf → HasRoom buf

  -- The events of the entries from the index, as many as given, in their order.
  abbrev pub events : (ℕ → ℤ) → ℕ → ℕ → List Event
  events at i zero = []
  events at i (suc k) = event (at i) ++ events at (suc i) k

  -- The entries from the index, as many as given, have been served.
  pub record Served (listen_fd k i n : ℕ) (s : Server) : Type 0 where
    pub s' : Server
    pub result :
        serve_clients open_file send_fd read_set reads k i n s
        ≡ some (s', events (fd_at s.client_array) i k)
    pub valid : Valid listen_fd s'
    pub table :
        (j : ℕ)
        → fd_at s'.client_array j ≡ (
            if leb i j && ltb j (i + k)
            then left read_set reads (fd_at s.client_array j)
            else fd_at s.client_array j)

  same_entries :
      (at at' : ℕ → ℤ) (i k : ℕ)
      → ((j : ℕ) → i ≤ j → at j ≡ at' j)
      → (events at i k ≡ events at' i k)
        × (ready_count read_set at i k ≡ ready_count read_set at' i k)
  same_entries at at' i zero h = (refl, refl)
  same_entries at at' i (suc k) h =
      let rest = same_entries at at' (suc i) k (λ j le. h j (omega arith)) in
      let here : at i ≡ at' i = h i (omega arith) in
      (rw (here, rest.0) refl, rw (here, rest.1) refl)

  idle_entry : (z : ℤ) → is_ready read_set z ≡ 0 → (event z ≡ []) × (left read_set reads z ≡ z)
  idle_entry (negsuc m) h = (refl, refl)
  idle_entry (pos fd) h = elim (Bool-cases (read_set fd)) [
    | inl yes' ↦ absurd (ground arith)
    | inr no' ↦ (rw no' refl, rw no' refl)
  ]

  -- If no entry is ready, nothing is left to do.
  idle_entries :
      (at : ℕ → ℤ) (i k : ℕ)
      → ready_count read_set at i k ≡ 0
      → (events at i k ≡ []) × ((j : ℕ) → i ≤ j → j < i + k → left read_set reads (at j) ≡ at j)
  idle_entries at i zero h = (refl, λ j a b. absurd (omega arith))
  idle_entries at i (suc k) h =
      let here = idle_entry (at i) (omega arith) in
      let rest = idle_entries at (suc i) k (omega arith) in
      (
        rw (here.0, rest.0) refl,
        λ j a b. elim (Bool-cases (j == i)) [
          | inl same ↦ let is : j ≡ i = ground arith in rw is here.1
          | inr differs ↦ rest.1 j (ground arith) (omega arith)
        ],
      )

  -- The entry at the index has got what it should, and the entries behind it are served.
  table-next :
      (at at1 at2 : ℕ → ℤ) (i k : ℕ)
      → at1 i ≡ left read_set reads (at i)
      → ((j : ℕ) → j ≢ i → at1 j ≡ at j)
      → ((j : ℕ)
          → at2 j
            ≡ (if leb (suc i) j && ltb j (suc i + k) then left read_set reads (at1 j) else at1 j))
      → (j : ℕ)
      → at2 j ≡ (if leb i j && ltb j (i + suc k) then left read_set reads (at j) else at j)
  table-next at at1 at2 i k here others after j = elim (Bool-cases (j == i)) [
    | inl same ↦
        let is : j ≡ i = ground arith in
        let no_more : (leb (suc i) i && ltb i (suc i + k)) ≡ false = ground arith in
        let in_range : (leb i i && ltb i (i + suc k)) ≡ true = ground arith in
        rw (is, in_range) (after i ∙ rw no_more here)
    | inr differs ↦
        let apart : at1 j ≡ at j = others j (ground arith) in
        let range : (leb i j && ltb j (i + suc k)) ≡ (leb (suc i) j && ltb j (suc i + k)) =
          ground arith in
        after j ∙ rw (range, apart) refl
  ]

  -- The same for one entry with the descriptor and those behind it.
  record EntryServed (listen_fd k i n : ℕ) (s : Server) (z : ℤ) : Type 0 where
    s' : Server
    result :
        at_fd open_file send_fd read_set reads n s
          (serve_clients open_file send_fd read_set reads k (suc i))
          z
        ≡ some (s', event z ++ events (fd_at s.client_array) (suc i) k)
    valid : Valid listen_fd s'
    table :
        (j : ℕ)
        → fd_at s'.client_array j ≡ (
            if leb i j && ltb j (i + suc k)
            then left read_set reads (fd_at s.client_array j)
            else fd_at s.client_array j)

  module _ (listen_fd k i : ℕ) (s : Server) (v : Valid listen_fd s)
      (ih : (n : ℕ) (s1 : Server)
        → Valid listen_fd s1
        → s1.last ≡ s.last
        → n ≡ ready_count read_set (fd_at s1.client_array) (suc i) k
        → Served listen_fd k (suc i) n s1) where
    pass_over :
        (n : ℕ) (z : ℤ)
        → fd_at s.client_array i ≡ z
        → is_ready read_set z ≡ 0
        → at_fd open_file send_fd read_set reads n s
            (serve_clients open_file send_fd read_set reads k (suc i))
            z
          ≡ serve_clients open_file send_fd read_set reads k (suc i) n s
        → n ≡ is_ready read_set z + ready_count read_set (fd_at s.client_array) (suc i) k
        → EntryServed listen_fd k i n s z
    pass_over n z here idle skip e =
        let rest = ih n s v refl (omega arith) in
        let nothing = idle_entry z idle in
        record {
          s' = rest.s';
          result = skip ∙ rw nothing.0 rest.result;
          valid = rest.valid;
          table =
              table-next (fd_at s.client_array) (fd_at s.client_array) (fd_at rest.s'.client_array)
                i k (rw (here, nothing.1) refl) (λ j ne. refl) rest.table;
        }

    answer_client :
        (n fd b : ℕ) (bs : List ℕ)
        → fd_at s.client_array i ≡ pos fd
        → read_set fd ≡ true
        → reads fd ≡ some (b ∷ bs)
        → Obliging
        → n ≡ is_ready read_set (pos fd) + ready_count read_set (fd_at s.client_array) (suc i) k
        → EntryServed listen_fd k i n s (pos fd)
    unfolding at_fd on_bytes with_event on_handled
    answer_client n fd b bs here ready bytes ok e =
        let (a, run) =
          handle_request-answers open_file (send_fd fd) (b ∷ bs) (ok.room fd (b ∷ bs) ready bytes)
            (λ new. ok.sends fd new ready) in
        let less : n - 1 ≡ ready_count read_set (fd_at s.client_array) (suc i) k = ground arith in
        let rest = ih (n - 1) s v refl less in
        record {
          s' = rest.s';
          result = rw (ready, bytes, run, rest.result) refl;
          valid = rest.valid;
          table =
              table-next (fd_at s.client_array) (fd_at s.client_array) (fd_at rest.s'.client_array)
                i k (rw (here, ready, bytes) refl) (λ j ne. refl) rest.table;
        }

    hang_up :
        (n fd : ℕ)
        → fd_at s.client_array i ≡ pos fd
        → read_set fd ≡ true
        → reads fd ≡ some []
        → n ≡ is_ready read_set (pos fd) + ready_count read_set (fd_at s.client_array) (suc i) k
        → EntryServed listen_fd k i n s (pos fd)
    unfolding at_fd on_bytes with_event close_client
    hang_up n fd here ready bytes e =
        let cs = s.client_array in
        let d = client_del-Deleted cs fd i here (λ j h. v.once j i fd h here) in
        let s1 : Server = record s {
          client_array = d.l;
          origin_set = fd_put false fd s.origin_set;
        } in
        let apart : (j : ℕ) → j ≢ i → fd_at d.l j ≡ fd_at cs j =
          λ j ne. let differs : (j == i) ≡ false = ground arith in d.at j ∙ rw differs refl in
        let same = same_entries (fd_at d.l) (fd_at cs) (suc i) k (λ j le. apart j (omega arith)) in
        let less : n - 1 ≡ ready_count read_set (fd_at d.l) (suc i) k = ground (arith, same.1) in
        let rest = ih (n - 1) s1 (close-Valid listen_fd fd i s v here d) refl less in
        let gone : fd_at d.l i ≡ negsuc 0 =
          let is : (i == i) ≡ true = ground arith in d.at i ∙ rw is refl in
        record {
          s' = rest.s';
          result = rw (ready, bytes, d.result, rest.result, same.0) refl;
          valid = rest.valid;
          table =
              table-next (fd_at cs) (fd_at d.l) (fd_at rest.s'.client_array) i k
                (gone ∙ rw (here, ready, bytes) refl) apart rest.table;
        }

    one_entry :
        (n : ℕ) (z : ℤ)
        → fd_at s.client_array i ≡ z
        → Obliging
        → n ≡ is_ready read_set z + ready_count read_set (fd_at s.client_array) (suc i) k
        → EntryServed listen_fd k i n s z
    unfolding at_fd
    one_entry n (negsuc m) here ok e = pass_over n (negsuc m) here refl refl e
    one_entry n (pos fd) here ok e = elim (Bool-cases (read_set fd)) [
      | inr idle ↦ pass_over n (pos fd) here (rw idle refl) (rw idle refl) e
      | inl ready ↦ bytes_read (reads fd) refl ready
    ]
      where
        bytes_read :
            (o : Option (List ℕ))
            → reads fd ≡ o
            → read_set fd ≡ true
            → EntryServed listen_fd k i n s (pos fd)
        bytes_read none is ready = absurd (ok.no_error fd ready is)
        bytes_read (some []) is ready = hang_up n fd here ready is e
        bytes_read (some (b ∷ bs)) is ready = answer_client n fd b bs here ready is ok e

  pub serve-Served :
      (listen_fd k i n : ℕ) (s : Server)
      → Valid listen_fd s
      → i + k ≤ s.last
      → n ≡ ready_count read_set (fd_at s.client_array) i k
      → Obliging
      → Served listen_fd k i n s
  unfolding serve_clients at_entry
  serve-Served listen_fd zero i n s v h e ok = record {
    s' = s;
    result = refl;
    valid = v;
    table = λ j. ground arith;
  }
  serve-Served listen_fd (suc k) i n s v h e ok = elim (Bool-cases (n == 0)) [
    | inl none_ready ↦
        let idle = idle_entries (fd_at s.client_array) i (suc k) (ground arith) in
        record {
          s' = s;
          result = rw (none_ready, idle.0) refl;
          valid = v;
          table = λ j. elim (Bool-cases (leb i j && ltb j (i + suc k))) [
            | inl within ↦ rw within (sym (idle.1 j (ground arith) (ground arith)))
            | inr beyond ↦ rw beyond refl
          ];
        }
    | inr some_ready ↦
        let (c, is_entry, holds) = entry_at s.client_array i (omega (arith, v.inside)) in
        let one =
          one_entry listen_fd k i s v
            (λ n' s1 v1 same e1. serve-Served listen_fd k (suc i) n' s1 v1 (omega arith) e1 ok) n
            (fd_at s.client_array i) refl ok e in
        record {
          s' = one.s';
          result = rw (some_ready, is_entry, holds) one.result;
          valid = one.valid;
          table = one.table;
        }
  ]
