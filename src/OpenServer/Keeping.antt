-- ===== src/OpenServer/Keeping.antt =====
-- A round of ipc2/open_server/loop.c that comes to its end keeps the invariant, whatever is read and sent.
use learn_apue.Base.{
  ℕ, zero, suc, ◌-◌, ◌≡◌, refl, ap, Bool, Option, none, some, List, [], ◌∷◌, get_elem?, ◌==◌,
  Bool-cases, inl, inr,
}
use learn_apue.Base.Int.{ℤ, pos, negsuc}
use learn_apue.OpenServer.Clients.{Client}
use learn_apue.OpenServer.Invariant.{Valid, close-Valid}
use learn_apue.OpenServer.Loop.{
  Server, Event, closed, answered, with_event, close_client, on_handled, on_bytes, at_fd, at_entry,
  serve_clients,
}
use learn_apue.OpenServer.Request.{RequestEnd, answers, exits, overruns, handle_request}
use learn_apue.OpenServer.Table.{fd_at, client_del-Deleted}

pub same_server :
    {a b : Server} {es es' : List Event}
    → ◌≡◌ {A = Option (Server × List Event)} (some (a, es)) (some (b, es'))
    → a ≡ b
same_server {a} {b} e = ap (λ o. server_of a o) e
  where
    server_of : Server → Option (Server × List Event) → Server
    server_of a none = a
    server_of a (some (s, es)) = s

-- What comes before an event.
with_event-some :
    (ev : Event) (o : Option (Server × List Event)) (s : Server) (es : List Event)
    → with_event ev o ≡ some (s, es)
    → (es' : List Event) × (o ≡ some (s, es'))
unfolding with_event
with_event-some ev none s es e = absurd cc
with_event-some ev (some (t, es')) s es e =
    let same : t ≡ s = same_server e in (es', ap (λ u. some (u, es')) same)

on_handled-some :
    (fd : ℕ) (h : RequestEnd) (o : Option (Server × List Event)) (s : Server) (es : List Event)
    → on_handled fd h o ≡ some (s, es)
    → (es' : List Event) × (o ≡ some (s, es'))
unfolding on_handled
on_handled-some fd (answers a) o s es e = with_event-some (answered fd a) o s es e
on_handled-some fd exits o s es e = absurd cc
on_handled-some fd overruns o s es e = absurd cc

fd_at-get_elem? :
    (cs : List Client) (i : ℕ) (c : Client) → get_elem? cs i ≡ some c → fd_at cs i ≡ c.fd
fd_at-get_elem? [] i c e = absurd cc
fd_at-get_elem? (x ∷ cs) zero c e = let same : x ≡ c = cc in rw same refl
fd_at-get_elem? (x ∷ cs) (suc i) c e = fd_at-get_elem? cs i c e

module _ (open_file : List ℕ → ℤ → Option ℕ) (send_fd : ℕ → ℕ → Bool) (read_set : ℕ → Bool)
    (reads : ℕ → Option (List ℕ)) (listen_fd : ℕ) where
  -- The rest of a round keeps the invariant.
  abbrev Keeping : (Server → Option (Server × List Event)) → Type 0
  Keeping rest =
      (s s' : Server) (es : List Event)
      → Valid listen_fd s
      → rest s ≡ some (s', es)
      → Valid listen_fd s'

  on_bytes-Valid :
      (fd i : ℕ) (s s' : Server) (es : List Event) (rest : Server → Option (Server × List Event))
      (o : Option (List ℕ))
      → Keeping rest
      → Valid listen_fd s
      → fd_at s.client_array i ≡ pos fd
      → on_bytes open_file send_fd read_set reads fd s rest o ≡ some (s', es)
      → Valid listen_fd s'
  unfolding on_bytes close_client
  on_bytes-Valid fd i s s' es rest none k v here e = absurd cc
  on_bytes-Valid fd i s s' es rest (some []) k v here e =
      let d = client_del-Deleted s.client_array fd i here (λ j h. v.once j i fd h here) in
      let (es', run) = with_event-some (closed fd) _ s' es (rw d.result at e) in
      k _ s' es' (close-Valid listen_fd fd i s v here d) run
  on_bytes-Valid fd i s s' es rest (some (b ∷ bs)) k v here e =
      let (es', run) =
        on_handled-some fd (handle_request open_file (send_fd fd) (b ∷ bs)) (rest s) s' es e in
      k s s' es' v run

  at_fd-Valid :
      (n i : ℕ) (z : ℤ) (s s' : Server) (es : List Event)
      (rest : ℕ → Server → Option (Server × List Event))
      → ((m : ℕ) → Keeping (rest m))
      → Valid listen_fd s
      → fd_at s.client_array i ≡ z
      → at_fd open_file send_fd read_set reads n s rest z ≡ some (s', es)
      → Valid listen_fd s'
  unfolding at_fd
  at_fd-Valid n i (negsuc m) s s' es rest k v here e = k n s s' es v e
  at_fd-Valid n i (pos fd) s s' es rest k v here e = elim (Bool-cases (read_set fd)) [
    | inr idle ↦ k n s s' es v (rw idle at e)
    | inl ready ↦
        on_bytes-Valid fd i s s' es (rest (n - 1)) (reads fd) (k (n - 1)) v here (rw ready at e)
  ]

  -- Whatever entries are served, the invariant holds at the end if the process gets there.
  pub serve_clients-Valid :
      (k i n : ℕ) → Keeping (serve_clients open_file send_fd read_set reads k i n)
  unfolding serve_clients at_entry
  serve_clients-Valid zero i n s s' es v e = let same : s ≡ s' = same_server e in rw (← same) v
  serve_clients-Valid (suc k) i n s s' es v e = elim (Bool-cases (n == 0)) [
    | inl done ↦ let same : s ≡ s' = same_server (rw done at e) in rw (← same) v
    | inr more ↦
        served (λ m. serve_clients-Valid k (suc i) m) (get_elem? s.client_array i) refl
          (rw more at e)
  ]
    where
      served :
          ((m : ℕ) → Keeping (serve_clients open_file send_fd read_set reads k (suc i) m))
          → (o : Option Client) → get_elem? s.client_array i ≡ o
          → at_entry open_file send_fd read_set reads n s
              (serve_clients open_file send_fd read_set reads k (suc i))
              o
            ≡ some (s', es)
          → Valid listen_fd s'
      served ih none is run = absurd cc
      served ih (some c) is run =
          at_fd-Valid n i c.fd s s' es _ ih v (fd_at-get_elem? s.client_array i c is) run
