-- ===== src/Server/Socket.antt =====
-- Reading from a TCP connection: `_recv_exact` and `_read_message` of app/dns_server.py. A connection
-- is the list of what arrives on it, in order.
pub mod Framing
pub mod Ends
use ab_bedd4c0e_tsig_bugfix.Prelude.{
  ℕ, zero, suc, ◌+◌, ◌-◌, Bool, true, false, ◌||◌, Option, none, some, List, [], ◌∷◌, ◌++◌, ltb,
  if◌then◌else◌, length, take, drop,
}
use ab_bedd4c0e_tsig_bugfix.Errors.{Result, ok, err, out_of_fuel, os_error, ◌>>=◌}
use ab_bedd4c0e_tsig_bugfix.Text.{Bytes}
use ab_bedd4c0e_tsig_bugfix.Wire.Bytes.{unpack_h}
use ab_bedd4c0e_tsig_bugfix.Canonical.{max_tcp_message}

-- What `recv` meets next: bytes that have arrived; a reset or a timeout; another `OSError`. Behind the
-- last of them the peer has closed the connection.
pub data Arrival : Type 0 where
  bytes_in : Bytes → Arrival
  lost : Arrival
  failing : Arrival

abbrev put_back : Bytes → List Arrival → List Arrival
put_back [] later = later
put_back (b ∷ bs) later = bytes_in (b ∷ bs) ∷ later

-- Whether something was received, and what is left on the connection.
abbrev pub Received : Type 0
Received = Option (Bytes × List Arrival)

-- `recv(n)`: at most `n` of the bytes that have arrived, none at the end of the connection; `none`
-- for the exceptions that `_recv_exact` catches.
unfoldable pub recv : ℕ → List Arrival → Result Received
recv n [] = ok (some ([], []))
recv n (lost ∷ later) = ok none
recv n (failing ∷ later) = err os_error
recv n (bytes_in c ∷ later) = ok (some (take n c, put_back (drop n c) later))

abbrev pub recv_chunk : Received → (Bytes → List Arrival → Result Received) → Result Received
recv_chunk none next = ok none
recv_chunk (some ([], later)) next = ok none
recv_chunk (some (b ∷ bs, later)) next = next (b ∷ bs) later

-- The loop of `_recv_exact`, with its variable `buf`, in at most so many rounds.
unfoldable pub recv_loop : ℕ → ℕ → Bytes → List Arrival → Result Received
unfolding recv
recv_loop zero n buf conn = err out_of_fuel
recv_loop (suc rounds) n buf conn = elim (ltb (length buf) n) [
  | true ↦ recv (n - length buf) conn >>= λ got.
      recv_chunk got (λ chunk later. recv_loop rounds n (buf ++ chunk) later)
  | false ↦ ok (some (buf, conn))
]

-- Every round takes a byte, so one round more than bytes is enough.
unfoldable pub recv_exact : ℕ → List Arrival → Result Received
unfolding recv_loop
recv_exact n conn = recv_loop (suc n) n [] conn

abbrev pub body_of : Received → Result Received
body_of none = ok none
body_of (some (head, conn)) = do
  size ← unpack_h head
  if ltb size 12 || ltb max_tcp_message size then ok none else recv_exact size conn

unfoldable pub read_message : List Arrival → Result Received
unfolding recv_exact
read_message conn = do head ← recv_exact 2 conn; body_of head
