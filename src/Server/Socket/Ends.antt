-- ===== src/Server/Socket/Ends.antt =====
-- `_read_message` of app/dns_server.py ends on every connection.
use ab_bedd4c0e_tsig_bugfix.Prelude.{
  ℕ, zero, suc, ◌+◌, ◌-◌, ◌*◌, ◌≤◌, ◌<◌, ◌≡◌, refl, false, none, some, List, [], ◌∷◌, ◌++◌, arith,
  ltb, length, drop, length-append, length-take, Bool-cases, inl, inr, ◌||◌,
}
use ab_bedd4c0e_tsig_bugfix.Errors.{Fault, os_error, Result, ok, err, ◌>>=◌}
use ab_bedd4c0e_tsig_bugfix.Text.{Bytes}
use ab_bedd4c0e_tsig_bugfix.Storage.Tables.Laws.{IsIn, here, there}
use ab_bedd4c0e_tsig_bugfix.Wire.Bytes.{unpack_h}
use ab_bedd4c0e_tsig_bugfix.Canonical.{max_tcp_message}
use ab_bedd4c0e_tsig_bugfix.Server.Socket.{
  Arrival, bytes_in, lost, failing, put_back, recv, recv_chunk, Received, recv_loop, recv_exact,
  body_of, read_message,
}

-- An error is one that `recv` has raised, which the connection had coming.
abbrev pub IsRaised : List Arrival → Fault → Type 0
IsRaised conn e = (e ≡ os_error) × IsIn failing conn

-- What is received of `n` bytes: nothing, or all of them, or what `recv` raises. An error that is still
-- to come was on the connection.
abbrev pub IsReceived : ℕ → List Arrival → Result Received → Type 0
IsReceived n conn (ok none) = Unit
IsReceived n conn (ok (some (buf, later))) =
    (length buf ≡ n) × (IsIn failing later → IsIn failing conn)
IsReceived n conn (err e) = IsRaised conn e

put_back-failing :
    (c : Bytes) (later : List Arrival) → IsIn failing (put_back c later) → IsIn failing later
put_back-failing [] later m = m
put_back-failing (b ∷ bs) later (here e) = cc
put_back-failing (b ∷ bs) later (there m) = m

-- What one `recv` gives.
abbrev IsChunk : ℕ → List Arrival → Result Received → Type 0
IsChunk k conn (ok none) = Unit
IsChunk k conn (ok (some (chunk, later))) =
    (length chunk ≤ k) × (IsIn failing later → IsIn failing conn)
IsChunk k conn (err e) = IsRaised conn e

recv-IsChunk : (k : ℕ) (conn : List Arrival) → IsChunk k conn (recv k conn)
unfolding recv
recv-IsChunk k [] = (omega arith, λ m. m)
recv-IsChunk k (lost ∷ later) = tt
recv-IsChunk k (failing ∷ later) = (refl, here refl)
recv-IsChunk k (bytes_in c ∷ later) =
    (omega (arith, length-take k c), λ m. there (put_back-failing (drop k c) later m))

-- The rest of a round, at what its `recv` gave.
chunk-IsReceived :
    (k n : ℕ) (conn : List Arrival) (r : Result Received)
    (next : Bytes → List Arrival → Result Received)
    → IsChunk k conn r
    → ((b : ℕ) (bs : Bytes) (later : List Arrival)
        → length (b ∷ bs) ≤ k
        → IsReceived n later (next (b ∷ bs) later))
    → IsReceived n conn (r >>= λ got. recv_chunk got next)
chunk-IsReceived k n conn (err e) next c ih = c
chunk-IsReceived k n conn (ok none) next c ih = tt
chunk-IsReceived k n conn (ok (some ([], later))) next c ih = tt
chunk-IsReceived k n conn (ok (some (b ∷ bs, later))) next (short, from) ih =
    onward (next (b ∷ bs) later) (ih b bs later short)
  where
    onward : (r : Result Received) → IsReceived n later r → IsReceived n conn r
    onward (ok none) i = tt
    onward (ok (some (buf, rest))) (l, f) = (l, λ m. from (f m))
    onward (err e) (i, m) = (i, from m)

recv_loop-IsReceived :
    (rounds n : ℕ) (buf : Bytes) (conn : List Arrival)
    → length buf ≤ n
    → n < length buf + rounds
    → IsReceived n conn (recv_loop rounds n buf conn)
unfolding recv_loop
recv_loop-IsReceived zero n buf conn le lt = absurd (omega (arith, le, lt))
recv_loop-IsReceived (suc rounds) n buf conn le lt = elim (Bool-cases (ltb (length buf) n)) [
  | inr e ↦ rw (e, recv_loop) (ground (arith, le, e), λ m. m)
  | inl e ↦
      rw (e, recv_loop)
        (chunk-IsReceived (n - length buf) n conn (recv (n - length buf) conn)
          (λ chunk later. recv_loop rounds n (buf ++ chunk) later)
          (recv-IsChunk (n - length buf) conn)
          (λ b bs later short.
            (let l = length-append buf (b ∷ bs) in
              recv_loop-IsReceived rounds n (buf ++ b ∷ bs) later (ground (arith, e, short, l))
                (ground (arith, lt, l)))))
]

recv_exact-IsReceived : (n : ℕ) (conn : List Arrival) → IsReceived n conn (recv_exact n conn)
unfolding recv_exact
recv_exact-IsReceived n conn = recv_loop-IsReceived (suc n) n [] conn (omega arith) (omega arith)

-- What `_read_message` gives: nothing, a message of a size that is let in, or what `recv` raises.
abbrev pub IsMessage : List Arrival → Result Received → Type 0
IsMessage conn (ok none) = Unit
IsMessage conn (ok (some (msg, later))) = (12 ≤ length msg) × (length msg ≤ max_tcp_message)
IsMessage conn (err e) = IsRaised conn e

sized-IsMessage :
    (size : ℕ) (conn later : List Arrival) (r : Result Received)
    → (ltb size 12 || ltb max_tcp_message size) ≡ false
    → (IsIn failing later → IsIn failing conn)
    → IsReceived size later r
    → IsMessage conn r
sized-IsMessage size conn later (ok none) e from h = tt
sized-IsMessage size conn later (ok (some (msg, rest))) e from (l, f) =
    (ground (arith, e, l), ground (arith, e, l))
sized-IsMessage size conn later (err f) e from (i, m) = (i, from m)

body_of-IsMessage :
    (conn : List Arrival) (r : Result Received)
    → IsReceived 2 conn r
    → IsMessage conn (r >>= body_of)
unfolding unpack_h
body_of-IsMessage conn (ok none) h = tt
body_of-IsMessage conn (ok (some ([], later))) (h, f) = absurd (omega (arith, h))
body_of-IsMessage conn (ok (some (a ∷ [], later))) (h, f) = absurd (omega (arith, h))
body_of-IsMessage conn (ok (some (a ∷ b ∷ c ∷ m, later))) (h, f) = absurd (omega (arith, h))
body_of-IsMessage conn (ok (some (a ∷ b ∷ [], later))) (h, f) =
    let size = a * 256 + b in
    elim (Bool-cases (ltb size 12 || ltb max_tcp_message size)) [
      | inl e ↦ rw e tt
      | inr e ↦ rw e (
          sized-IsMessage size conn later (recv_exact size later) e f
            (recv_exact-IsReceived size later))
    ]
body_of-IsMessage conn (err e) h = h

-- Reading a message from a connection ends, whatever arrives: with nothing, or with a message of 12 to
-- 65,535 bytes, or with an OSError that recv raises, one that is neither a reset nor a timeout, where
-- one arrives.
pub read_message-IsMessage : (conn : List Arrival) → IsMessage conn (read_message conn)
unfolding read_message
read_message-IsMessage conn =
    body_of-IsMessage conn (recv_exact 2 conn) (recv_exact-IsReceived 2 conn)
