-- ===== src/Passing/Roundtrip.antt =====
-- What is sent with `send_err` and `send_fd` is what `recv_fd` returns.
use learn_apue.Base.{
  ◌∙◌, ℕ, suc, ◌-◌, ◌%◌, ◌≤◌, ◌≡◌, refl, Bool, true, false, none, List, [], ◌∷◌, ◌++◌, length, ◌==◌,
  if◌then◌else◌, arith, All, Bool-cases, inl, inr,
}
use learn_apue.Base.Int.{ℤ, pos, negsuc}
use learn_apue.Passing.{
  Message, fd_message, status_byte, text, keep, scan, scan_status, result, new_fd, after_user, give,
  Received, received_final, received_text, received, received_bytes, recv_fd,
}

-- The pieces of text that `recvmsg` returns, without a descriptor.
abbrev pub as_messages : List (List ℕ) → List Message
as_messages [] = []
as_messages (t ∷ ts) = record { bytes = t; descriptor = none } ∷ as_messages ts

-- What the user function makes of the pieces, one after the other.
abbrev pub given : {U : Type 0} → (U → List ℕ → Bool × U) → U → List (List ℕ) → U
given userfunc u [] = u
given userfunc u (t ∷ ts) = given userfunc (userfunc u t).1 ts

received_text-whole :
    {U : Type 0}
    → (userfunc : U → List ℕ → Bool × U) (again : U → Received × U) (p : Bool × U) → p.0 ≡ true
    → received_text userfunc again p ≡ again p.1
unfolding received_text
received_text-whole userfunc again (true, u) e = refl
received_text-whole userfunc again (false, u) e = absurd cc

-- The value that `recv_fd` returns for one that `send_fd` was given: a descriptor as it is, an error
-- as minus its last 8 bits, or -1 if these are 0.
abbrev pub returned : ℤ → ℤ
returned (pos fd) = pos fd
returned (negsuc n) = if suc n % 256 == 0 then negsuc 0 else negsuc (suc n % 256 - 1)

scan-text : (t : List ℕ) → All (λ c. (c == 0) ≡ false) t → scan t ≡ text t
unfolding scan keep
scan-text [] h = refl
scan-text (c ∷ t) (n, h) = rw (n, scan-text t h)

-- The status byte of an error comes back as what `returned` says.
new_fd-status_byte :
    (n : ℕ) → new_fd (status_byte (suc n) % 256) none ≡ result (returned (negsuc n))
unfolding new_fd status_byte
new_fd-status_byte n = elim (Bool-cases (suc n % 256 == 0)) [
  | inl zero' ↦ rw zero'
  | inr ne ↦ let e : suc n % 256 % 256 ≡ suc (suc n % 256 - 1) = ground arith in rw (ne, e)
]

module _ {U : Type 0} (userfunc : U → List ℕ → Bool × U) where
  recv_fd-final :
      (fd : ℤ) (u : U) → recv_fd userfunc (fd_message fd ∷ []) u ≡ (result (returned fd), u)
  unfolding recv_fd received_bytes received received_final after_user give fd_message scan
      scan_status new_fd
  recv_fd-final (negsuc n) u = rw (new_fd-status_byte n)
  recv_fd-final (pos n) u = refl

-- Let text come from the other end in pieces that are neither empty nor hold a null byte, one for
-- each `recvmsg`, and then what `send_fd` sends, alone, a descriptor or an error. Then `recv_fd` with
-- a user function that takes the whole of each piece gives it all pieces in their order, and returns
-- the descriptor, or minus the last 8 bits of the error, -1 if these are 0.
pub recv_fd-fd_message :
    {U : Type 0}
    → (userfunc : U → List ℕ → Bool × U) (ts : List (List ℕ)) (fd : ℤ) (u : U)
    → ((v : U) (t : List ℕ) → (userfunc v t).0 ≡ true)
    → All (λ t. (1 ≤ length t) × All (λ c. (c == 0) ≡ false) t) ts
    → recv_fd userfunc (as_messages ts ++ (fd_message fd ∷ [])) u
      ≡ (result (returned fd), given userfunc u ts)
unfolding recv_fd received_bytes received give
recv_fd-fd_message userfunc [] fd u whole h = recv_fd-final userfunc fd u
recv_fd-fd_message userfunc ([] ∷ ts) fd u whole (h, hs) = absurd (omega (arith, h.0))
recv_fd-fd_message userfunc ((c ∷ t) ∷ ts) fd u whole (h, hs) = rw (scan-text (c ∷ t) h.1) (
    received_text-whole userfunc (recv_fd userfunc (as_messages ts ++ (fd_message fd ∷ [])))
      (userfunc u (c ∷ t)) (whole u (c ∷ t))
    ∙ recv_fd-fd_message userfunc ts fd (userfunc u (c ∷ t)).1 whole hs)
