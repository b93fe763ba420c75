-- ===== src/OpenServer/Reachable.antt =====
-- The states that the loop of ipc2/open_server/loop.c comes to.
use learn_apue.Base.{ℕ, ◌≡◌, inl, inr, Bool, true, false, Option, some, List, Bool-cases}
use learn_apue.Base.Int.{ℤ}
use learn_apue.OpenServer.Table.{fd_at}
use learn_apue.OpenServer.Loop.{Server, Event, first_state, no_events, round}
use learn_apue.OpenServer.Invariant.{Valid, first_state-Valid, accept-Valid}
use learn_apue.OpenServer.Keeping.{same_server, serve_clients-Valid}
use learn_apue.OpenServer.Serving.{ready_count}

-- What the system calls of a round promise: `server_accept` returns a descriptor that is not in use,
-- and without a connection `select` returns how many clients are ready.
pub record Documented (listen_fd : ℕ) (read_set : ℕ → Bool) (accepted : Option (ℕ × ℕ)) (n : ℕ)
    (s : Server) : Type 0 where
  pub new_fd :
      read_set listen_fd ≡ true
      → (fd : ℕ) × (uid : ℕ) × (accepted ≡ some (fd, uid)) × (s.origin_set fd ≡ false)
  pub count : read_set listen_fd ≡ false → n ≡ ready_count read_set (fd_at s.client_array) 0 s.last

module _ (open_file : List ℕ → ℤ → Option ℕ) (send_fd : ℕ → ℕ → Bool) (listen_fd : ℕ) where
  -- The states after some rounds.
  pub data Reachable : Server → Type 0 where
    begins : Reachable (first_state listen_fd)
    next :
        (read_set : ℕ → Bool) (reads : ℕ → Option (List ℕ)) (accepted : Option (ℕ × ℕ)) (n : ℕ)
        (s s' : Server) (es : List Event)
        → Reachable s
        → Documented listen_fd read_set accepted n s
        → round open_file send_fd read_set reads listen_fd accepted n s ≡ some (s', es)
        → Reachable s'

  module _ (read_set : ℕ → Bool) (reads : ℕ → Option (List ℕ)) (accepted : Option (ℕ × ℕ)) (n : ℕ)
      (s s' : Server) (es : List Event) where
    round-Valid :
        Valid listen_fd s
        → Documented listen_fd read_set accepted n s
        → round open_file send_fd read_set reads listen_fd accepted n s ≡ some (s', es)
        → Valid listen_fd s'
    unfolding round no_events
    round-Valid v d e = elim (Bool-cases (read_set listen_fd)) [
      | inl connects ↦
          let (fd, uid, is, fresh) = d.new_fd connects in
          let (s1, result, v1) = accept-Valid listen_fd fd uid s v fresh in
          let same : s1 ≡ s' = same_server (rw (connects, is, result) at e) in rw (← same) v1
      | inr waits ↦
          serve_clients-Valid open_file send_fd read_set reads listen_fd s.last 0 n s s' es v
            (rw waits at e)
    ]

  -- Whatever rounds the loop of the server has gone through, as long as `server_accept` returned
  -- descriptors that were not in use and `select` returned how many clients are ready: the
  -- descriptors of the clients stand in the table once each, at indices up to `max_index`; none is
  -- the listening one; with the listening one they are those of the set; and `max_fd` is no less
  -- than any of them.
  pub Reachable-Valid : (s : Server) → Reachable s → Valid listen_fd s
  Reachable-Valid s begins = first_state-Valid listen_fd
  Reachable-Valid s'' (next read_set reads accepted n s s' es r d e) =
      round-Valid read_set reads accepted n s s' es (Reachable-Valid s r) d e
