-- ===== src/Passing.antt =====
-- Descriptors passed between processes: lib/sendfd.c, lib/senderr.c, lib/recvfd.c, and the loops of
-- lib/readn.c and lib/writen.c.
pub mod Loops
pub mod Roundtrip
mod Tests
use learn_apue.Base.{
  ℕ, zero, suc, ◌+◌, ◌-◌, ◌%◌, Bool, true, false, Option, none, some, List, [], ◌∷◌, length, ◌==◌,
  if◌then◌else◌,
}
use learn_apue.Base.Int.{ℤ, pos, negsuc}

-- The loop of `writen` over the return values of the calls of `write`, none if there are too few.
unfoldable pub writen_loop : ℕ → ℕ → List ℤ → Option ℤ
writen_loop n zero results = some (pos n)
writen_loop n (suc nleft) [] = none
writen_loop n (suc nleft) (negsuc e ∷ results) =
    if suc nleft == n then some (negsuc 0) else some (pos (n - suc nleft))
writen_loop n (suc nleft) (pos zero ∷ results) = some (pos (n - suc nleft))
writen_loop n (suc nleft) (pos (suc m) ∷ results) = writen_loop n (suc nleft - suc m) results

-- `writen`
unfoldable pub writen : ℕ → List ℤ → Option ℤ
writen n results = writen_loop n n results

-- The loop of `readn`, in the same way.
unfoldable pub readn_loop : ℕ → ℕ → List ℤ → Option ℤ
readn_loop n zero results = some (pos n)
readn_loop n (suc nleft) [] = none
readn_loop n (suc nleft) (negsuc e ∷ results) =
    if suc nleft == n then some (negsuc 0) else some (pos (n - suc nleft))
readn_loop n (suc nleft) (pos zero ∷ results) = some (pos (n - suc nleft))
readn_loop n (suc nleft) (pos (suc m) ∷ results) = readn_loop n (suc nleft - suc m) results

-- `readn`
unfoldable pub readn : ℕ → List ℤ → Option ℤ
readn n results = readn_loop n n results

-- A message: its bytes, and the descriptor in its control data.
pub record Message : Type 0 where
  pub bytes : List ℕ
  pub descriptor : Option ℕ

-- The status byte for an error; a `char` keeps the last 8 bits.
unfoldable pub status_byte : ℕ → ℕ
status_byte e = let b = e % 256 in if b == 0 then 1 else b

-- The message of `send_fd`.
unfoldable pub fd_message : ℤ → Message
fd_message (negsuc n) = record { bytes = 0 ∷ status_byte (suc n) ∷ []; descriptor = none }
fd_message (pos n) = record { bytes = 0 ∷ 0 ∷ []; descriptor = some n }

module _ {W : Type 0} (sendmsg : W → Message → ℤ × W) where
  unfoldable pub sent : ℤ × W → ℤ × W
  sent (negsuc e, w) = (negsuc 0, w)
  sent (pos n, w) = (if n == 2 then pos 0 else negsuc 0, w)

  -- `send_fd`
  unfoldable pub send_fd : ℤ → W → ℤ × W
  send_fd fd_to_send w = sent (sendmsg w (fd_message fd_to_send))

  -- The error code that `send_err` sends is negative.
  unfoldable pub error_code : ℤ → ℤ
  error_code (pos n) = negsuc 0
  error_code (negsuc n) = negsuc n

  -- The second half of `send_err`: the text has been written, or not.
  unfoldable pub send_status : ℕ → ℤ → ℤ × W → ℤ × W
  send_status n errcode (negsuc e, w) = (negsuc 0, w)
  send_status n errcode (pos m, w) =
      if m == n then send_fd (error_code errcode) w else (negsuc 0, w)

  -- `send_err`, with `writen` to the socket as a parameter.
  unfoldable pub send_err : (W → List ℕ → ℤ × W) → ℤ → List ℕ → W → ℤ × W
  send_err writen_fd errcode [] w = send_fd (error_code errcode) w
  send_err writen_fd errcode (c ∷ msg) w =
      send_status (length (c ∷ msg)) errcode (writen_fd w (c ∷ msg))

-- What the scan of a received buffer finds: text alone, text and then a status byte, or a null byte
-- that is not the last but one.
pub data Scan : Type 0 where
  text : List ℕ → Scan
  final : List ℕ → ℕ → Scan
  malformed : Scan

unfoldable pub keep : ℕ → Scan → Scan
keep c (text t) = text (c ∷ t)
keep c (final t status) = final (c ∷ t) status
keep c malformed = malformed

unfoldable pub scan_status : List ℕ → Scan
scan_status [] = malformed
scan_status (status ∷ []) = final [] (status % 256)
scan_status (status ∷ b ∷ bs) = malformed

unfoldable pub scan : List ℕ → Scan
scan [] = text []
scan (c ∷ bs) = let rest = keep c (scan bs) in if c == 0 then scan_status bs else rest

-- How `recv_fd` ends, with what was given to `userfunc` and took all of it.
pub data Received : Type 0 where
  dumped : Received
  result : ℤ → Received

-- The descriptor, or minus the status.
unfoldable pub new_fd : ℕ → Option ℕ → Received
new_fd zero none = dumped
new_fd zero (some fd) = result (pos fd)
new_fd (suc status) d = result (negsuc status)

module _ {U : Type 0} (userfunc : U → List ℕ → Bool × U) where
  -- `userfunc` has been called: the loop goes on, or ends with -1.
  unfoldable pub after_user : Received → Bool → Received
  after_user r true = r
  after_user r false = result (negsuc 0)

  -- Text is given to `userfunc`, none of it if it is empty.
  unfoldable pub give : U → List ℕ → Bool × U
  give u [] = (true, u)
  give u (c ∷ t) = userfunc u (c ∷ t)

  unfoldable pub received_final : Received → U → List ℕ → Received × U
  received_final dumped u t = (dumped, u)
  received_final (result r) u t = let (took, v) = give u t in (after_user (result r) took, v)

  unfoldable pub received_text : (U → Received × U) → Bool × U → Received × U
  received_text again (true, u) = again u
  received_text again (false, u) = (result (negsuc 0), u)

  unfoldable pub received : (U → Received × U) → Option ℕ → Scan → U → Received × U
  received again d malformed u = (dumped, u)
  received again d (text t) u = received_text again (give u t)
  received again d (final t status) u = received_final (new_fd status d) u t

  -- No bytes mean that the connection is closed.
  unfoldable pub received_bytes : (U → Received × U) → Option ℕ → List ℕ → U → Received × U
  received_bytes again d [] u = (result (negsuc 0), u)
  received_bytes again d (c ∷ bs) u = received again d (scan (c ∷ bs)) u

  -- `recv_fd` over the messages that `recvmsg` returns; behind them the connection is closed.
  unfoldable pub recv_fd : List Message → U → Received × U
  recv_fd [] u = (result (negsuc 0), u)
  recv_fd (m ∷ ms) u = received_bytes (recv_fd ms) m.descriptor m.bytes u
