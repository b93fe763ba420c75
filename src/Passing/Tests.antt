-- ===== src/Passing/Tests.antt =====
-- The theorem on passing descriptors at an error with a text, and of two writes.
use learn_apue.Base.{ℕ, List, Bool, true, ◌≡◌, ◌+◌, refl, arith, some, [], ◌∷◌, ◌++◌}
use learn_apue.Passing.Loops.{total, writes, writen-writes}
use learn_apue.Base.Int.{pos, negsuc}
use learn_apue.Passing.{fd_message, recv_fd, result, writen}
use learn_apue.Passing.Roundtrip.{as_messages, given, returned, recv_fd-fd_message}

-- A user function that keeps what it is given and takes all of it.
abbrev collect : List ℕ → List ℕ → Bool × List ℕ
collect u t = (true, u ++ t)

recv_fd-fd_message_example :
    recv_fd collect (as_messages ((b'n' ∷ b'o' ∷ []) ∷ []) ++ (fd_message (negsuc 12) ∷ [])) []
    ≡ (result (returned (negsuc 12)), given collect [] ((b'n' ∷ b'o' ∷ []) ∷ []))
recv_fd-fd_message_example =
    recv_fd-fd_message collect ((b'n' ∷ b'o' ∷ []) ∷ []) (negsuc 12) [] (λ v t. refl)
      ((omega arith, (refl, (refl, tt))), tt)

writen-writes_example :
    (writen (total (3 ∷ 1 ∷ [])) (writes (3 ∷ 1 ∷ []) ++ []) ≡ some (pos (total (3 ∷ 1 ∷ []))))
    × (writen (total (3 ∷ 1 ∷ []) + 2) (writes (3 ∷ 1 ∷ []) ++ (negsuc 0 ∷ []))
        ≡ some (pos (total (3 ∷ 1 ∷ []))))
writen-writes_example = writen-writes 3 (1 ∷ []) 1 0 []
