-- ===== src/Transfer.antt =====
-- send_all and send_file of webserver_project/src/network/network.c. What `send` and `sendfile`
-- return, call by call, is a list that is a parameter; when it is used up the loop is still running
-- and the result is `none`. `n` is not initialised: reading it before any call is `fault`.
pub mod Delivery
pub mod Tests
use let_us_connect_http_serv.Base.{
  Bytes, List, Option, Outcome, [], drop, fault, negsuc, none, ok, pos, some, suc, take, zero, ℕ, ℤ,
  ◌++◌, ◌+◌, ◌-◌, ◌∷◌,
}

-- A number of bytes, or -1 with errno: EINTR, EAGAIN or EWOULDBLOCK, or any other.
pub data Returned : Type 0 where
  transferred : ℕ → Returned
  interrupted would_block failed : Returned

-- `return n == -1 ? -1 : 0;`, for `n` not yet set, -1, or a number of bytes
pub data LastCall : Type 0 where
  unset minus_one bytes : LastCall

returned : {A : Type 0} → LastCall → A → Outcome (ℤ × A)
returned unset a = fault
returned minus_one a = ok (negsuc 0, a)
returned bytes a = ok (pos 0, a)

-- The loop of `send_all`: the bytes the kernel has taken, and `buf + total`.
unfoldable pub send_loop : List Returned → LastCall → Bytes → Bytes → Option (Outcome (ℤ × Bytes))
unfolding returned
send_loop calls n taken [] = some (returned n taken)
send_loop [] n taken (c ∷ left) = none
send_loop (transferred k ∷ calls) n taken (c ∷ left) =
    send_loop calls bytes (taken ++ take k (c ∷ left)) (drop k (c ∷ left))
send_loop (interrupted ∷ calls) n taken (c ∷ left) = send_loop calls minus_one taken (c ∷ left)
send_loop (would_block ∷ calls) n taken (c ∷ left) = some (ok (negsuc 0, taken))
send_loop (failed ∷ calls) n taken (c ∷ left) = some (returned minus_one taken)

-- The result and the bytes taken.
pub send_all : List Returned → Bytes → Option (Outcome (ℤ × Bytes))
send_all calls buf = send_loop calls unset [] buf

-- The loop of `send_file`: `total` and `bytesleft`; it tries again on EAGAIN, and 0 bytes are the
-- end of the file.
unfoldable pub file_loop : List Returned → LastCall → ℕ → ℕ → Option (Outcome (ℤ × ℕ))
unfolding returned
file_loop calls n total zero = some (returned n total)
file_loop [] n total (suc left) = none
file_loop (transferred zero ∷ calls) n total (suc left) = some (returned bytes total)
file_loop (transferred (suc k) ∷ calls) n total (suc left) =
    file_loop calls bytes (total + suc k) (left - k)
file_loop (interrupted ∷ calls) n total (suc left) = file_loop calls minus_one total (suc left)
file_loop (would_block ∷ calls) n total (suc left) = file_loop calls minus_one total (suc left)
file_loop (failed ∷ calls) n total (suc left) = some (returned minus_one total)

-- The result and the number of bytes transferred.
pub send_file : List Returned → ℕ → Option (Outcome (ℤ × ℕ))
send_file calls len = file_loop calls unset 0 len
