-- ===== src/OpenServer/Tests.antt =====
-- The theorems on the open server at a table with one client and at a request.
use learn_apue.Base.{
  ℕ, Bool, true, false, Option, none, some, List, [], ◌∷◌, ◌++◌, refl, replicate, ◌==◌,
}
use learn_apue.Base.Int.{ℤ, pos}
use learn_apue.Bytes.Text.{codes}
use learn_apue.OpenServer.Clients.{
  available, client_alloc, take_entry, or_again, add_loop, client_add,
}
use learn_apue.OpenServer.Loop.{Server, fd_put, first_state, client_added, accept, no_events, round}
use learn_apue.OpenServer.Invariant.{Valid}
use learn_apue.OpenServer.Reachable.{Reachable, begins, next, Reachable-Valid}

abbrev no_file : List ℕ → ℤ → Option ℕ
no_file path flag = none

abbrev all_sent : ℕ → ℕ → Bool
all_sent fd new = true

abbrev only : ℕ → ℕ → Bool
only fd g = g == fd

abbrev no_bytes : ℕ → Option (List ℕ)
no_bytes fd = some []

abbrev one_client : Server
one_client = record {
  client_array = record { fd = pos 4; uid = some 100 } ∷ replicate 9 available;
  origin_set = fd_put true 4 (fd_put true 3 (λ g. false));
  max_fd = 4;
  last = 1;
}

one_client-Reachable : Reachable no_file all_sent 3 one_client
unfolding round no_events accept client_added client_add client_alloc add_loop or_again take_entry
    first_state fd_put
one_client-Reachable =
    next (only 3) no_bytes (some (4, 100)) 1 (first_state 3) one_client [] begins
      (record { new_fd = λ h. (4, 100, refl, refl); count = λ h. absurd cc }) refl

Reachable-Valid_example : Valid 3 one_client
Reachable-Valid_example = Reachable-Valid no_file all_sent 3 one_client one_client-Reachable

-- A request whose string has 27 bytes, more than the 23 that three tokens need.
abbrev long_request : List ℕ
long_request = codes "open /etc/somewhere/hosts 0" ++ (0 ∷ [])

abbrev requests : ℕ → Option (List ℕ)
requests fd = some long_request
