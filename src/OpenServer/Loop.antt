-- ===== src/OpenServer/Loop.antt =====
-- The loop of ipc2/open_server/loop.c over the descriptors that are ready.
use learn_apue.Base.{
  ℕ, zero, suc, ◌-◌, Bool, true, false, Option, none, some, List, [], ◌∷◌, get_elem?, leb, ltb,
  ◌==◌, if◌then◌else◌,
}
use learn_apue.Base.Int.{ℤ, pos, negsuc}
use learn_apue.OpenServer.Clients.{Client, client_add, client_del}
use learn_apue.OpenServer.Request.{Answer, RequestEnd, answers, exits, overruns, handle_request}

-- The variables of `loop` and the table of clients. `last` is `max_index` + 1.
pub record Server : Type 0 where
  pub client_array : List Client
  pub origin_set : ℕ → Bool
  pub max_fd : ℕ
  pub last : ℕ

-- What is done for a client that is ready.
pub data Event : Type 0 where
  closed : ℕ → Event
  answered : ℕ → Answer → Event

-- `FD_SET` and `FD_CLR`
unfoldable pub fd_put : Bool → ℕ → (ℕ → Bool) → ℕ → Bool
fd_put b fd set g = if g == fd then b else set g

-- `loop` up to its first round.
unfoldable pub first_state : ℕ → Server
first_state listen_fd = record {
  client_array = [];
  origin_set = fd_put true listen_fd (λ g. false);
  max_fd = listen_fd;
  last = 0;
}

unfoldable pub client_added : ℕ → Server → Option (ℕ × List Client) → Option Server
client_added fd s none = none
client_added fd s (some (i, l)) = some (record {
  client_array = l;
  origin_set = fd_put true fd s.origin_set;
  max_fd = if ltb s.max_fd fd then fd else s.max_fd;
  last = if leb s.last i then suc i else s.last;
})

-- A connection with the descriptor and user that `server_accept` returns, none if it fails: then the
-- process ends. `client_add` has two rounds.
unfoldable pub accept : Option (ℕ × ℕ) → Server → Option Server
accept none s = none
accept (some (fd, uid)) s = client_added fd s (client_add 2 (pos fd) uid s.client_array)

unfoldable pub with_event : Event → Option (Server × List Event) → Option (Server × List Event)
with_event e none = none
with_event e (some (s, es)) = some (s, e ∷ es)

-- A client has closed the connection.
unfoldable pub close_client :
    ℕ
    → Server
    → Option (List Client)
    → (Server → Option (Server × List Event))
    → Option (Server × List Event)
close_client fd s none rest = none
close_client fd s (some l) rest =
    with_event (closed fd)
      (rest (record s { client_array = l; origin_set = fd_put false fd s.origin_set }))

-- Behind a request.
unfoldable pub on_handled :
    ℕ → RequestEnd → Option (Server × List Event) → Option (Server × List Event)
on_handled fd (answers a) rest = with_event (answered fd a) rest
on_handled fd exits rest = none
on_handled fd overruns rest = none

-- `open_file`: what `open` returns. `send_fd`: whether sending a descriptor to the client of the first
-- succeeds. `read_set`: the descriptors that `select` leaves. `reads`: what `read`
-- of a descriptor returns, none for an error, no bytes at the end.
module _ (open_file : List ℕ → ℤ → Option ℕ) (send_fd : ℕ → ℕ → Bool) (read_set : ℕ → Bool)
    (reads : ℕ → Option (List ℕ)) where
  unfoldable pub on_bytes :
      ℕ
      → Server
      → (Server → Option (Server × List Event))
      → Option (List ℕ)
      → Option (Server × List Event)
  on_bytes fd s rest none = none
  on_bytes fd s rest (some []) = close_client fd s (client_del (pos fd) s.client_array) rest
  on_bytes fd s rest (some (b ∷ bs)) =
      on_handled fd (handle_request open_file (send_fd fd) (b ∷ bs)) (rest s)

  unfoldable pub at_fd :
      ℕ → Server → (ℕ → Server → Option (Server × List Event)) → ℤ → Option (Server × List Event)
  at_fd n s rest (negsuc m) = rest n s
  at_fd n s rest (pos fd) =
      if read_set fd then on_bytes fd s (rest (n - 1)) (reads fd) else rest n s

  unfoldable pub at_entry :
      ℕ
      → Server
      → (ℕ → Server → Option (Server × List Event))
      → Option Client
      → Option (Server × List Event)
  at_entry n s rest none = none
  at_entry n s rest (some c) = at_fd n s rest c.fd

  -- The loop over the entries from the index, as many as given; `n` descriptors are still ready. None if
  -- the process ends, reads outside the table or overruns memory.
  unfoldable pub serve_clients : ℕ → ℕ → ℕ → Server → Option (Server × List Event)
  serve_clients zero i n s = some (s, [])
  serve_clients (suc k) i n s =
      let rest = serve_clients k (suc i) in
      if n == 0 then some (s, []) else at_entry n s rest (get_elem? s.client_array i)

  unfoldable pub no_events : Option Server → Option (Server × List Event)
  no_events none = none
  no_events (some s) = some (s, [])

  -- A round of the loop, with what `server_accept` returns and how many descriptors `select` has found.
  unfoldable pub round : ℕ → Option (ℕ × ℕ) → ℕ → Server → Option (Server × List Event)
  round listen_fd accepted n s =
      if read_set listen_fd then no_events (accept accepted s) else serve_clients s.last 0 n s
