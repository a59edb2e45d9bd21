-- ===== src/Server/Socket/Framing.antt =====
-- `_read_message` of app/dns_server.py: a message comes through whatever the pieces it arrives in.
use ab_bedd4c0e_tsig_bugfix.Prelude.{
  ℕ, zero, suc, ◌+◌, ◌-◌, ◌≤◌, ◌<◌, ◌≡◌, refl, sym, ap, ◌∙◌, true, false, some, List, [], ◌∷◌, ◌++◌,
  arith, ltb, le→ltb, lt→ltb, length, take, drop, length-append, length-take, take-append-drop,
  append-nil, append_assoc, ◌||◌,
}
use ab_bedd4c0e_tsig_bugfix.Errors.{Result, ok, >>=-eq-ok}
use ab_bedd4c0e_tsig_bugfix.Text.{Bytes}
use ab_bedd4c0e_tsig_bugfix.Wire.Bytes.{be16, pack_h, pack_h-inv, unpack_h-be16}
use ab_bedd4c0e_tsig_bugfix.Canonical.{max_tcp_message}
use ab_bedd4c0e_tsig_bugfix.Server.Packer.{frame}
use ab_bedd4c0e_tsig_bugfix.Server.Socket.{
  Arrival, bytes_in, lost, failing, put_back, recv, Received, recv_loop, recv_exact, read_message,
}

-- Everything that arrives.
abbrev pub content : List Arrival → Bytes
content [] = []
content (bytes_in c ∷ later) = c ++ content later
content (lost ∷ later) = content later
content (failing ∷ later) = content later

-- A connection that is not lost; `recv` gives no empty piece before its end.
pub data IsFlowing : List Arrival → Type 0 where
  ended : IsFlowing []
  piece :
      {b : ℕ} {bs : Bytes} {later : List Arrival}
      → IsFlowing later
      → IsFlowing (bytes_in (b ∷ bs) ∷ later)

-- A piece that is no longer than what is awaited is its beginning.
piece-prefix :
    (c rest xs ys : Bytes)
    → c ++ rest ≡ xs ++ ys
    → length c ≤ length xs
    → (more : Bytes) × (xs ≡ c ++ more) × (rest ≡ more ++ ys)
piece-prefix [] rest xs ys h le = (xs, refl, h)
piece-prefix (a ∷ c) rest [] ys h le = absurd (omega (arith, le))
piece-prefix (a ∷ c) rest (x ∷ xs) ys h le =
    let (more, e, f) = piece-prefix c rest xs ys (cc h) (omega (arith, le)) in (more, cc (h, e), f)

put_back-content :
    (c : Bytes) (later : List Arrival) → content (put_back c later) ≡ c ++ content later
put_back-content [] later = refl
put_back-content (b ∷ bs) later = refl

put_back-IsFlowing :
    (c : Bytes) (later : List Arrival) → IsFlowing later → IsFlowing (put_back c later)
put_back-IsFlowing [] later f = f
put_back-IsFlowing (b ∷ bs) later f = piece f

-- These bytes are received, and the others are left on the connection.
abbrev pub Comes : Bytes → Bytes → Result Received → Type 0
Comes xs ys r =
    (conn : List Arrival) × (r ≡ ok (some (xs, conn))) × IsFlowing conn × (content conn ≡ ys)

-- A `recv` where bytes are awaited gives the first of them.
recv-Comes :
    (k : ℕ) (conn : List Arrival) (xs ys : Bytes)
    → IsFlowing conn
    → content conn ≡ xs ++ ys
    → length xs ≡ suc k
    → (b : ℕ) × (bs : Bytes) × (later : List Arrival) × (more : Bytes) × (recv (suc k) conn
        ≡ ok (some (b ∷ bs, later)))
      × IsFlowing later
      × (xs ≡ (b ∷ bs) ++ more)
      × (content later ≡ more ++ ys)
unfolding recv
recv-Comes k [] [] ys f h l = absurd (omega (arith, l))
recv-Comes k [] (x ∷ xs) ys f h l = cc
recv-Comes k (lost ∷ later) xs ys f h l = elim f [ ]
recv-Comes k (failing ∷ later) xs ys f h l = elim f [ ]
recv-Comes k (bytes_in [] ∷ later) xs ys f h l = elim f [ ]
recv-Comes k (bytes_in (b ∷ bs) ∷ later) xs ys (piece f) h l =
    let rest = put_back (drop k bs) later in
    let split = ap (λ (z : Bytes). z ++ content later) (take-append-drop (suc k) (b ∷ bs)) ∙ h in
    let whole : take (suc k) (b ∷ bs) ++ (drop k bs ++ content later) ≡ xs ++ ys =
      sym (append_assoc (take (suc k) (b ∷ bs)) (drop k bs) (content later)) ∙ split in
    let (more, e, g) =
      piece-prefix (b ∷ take k bs) (drop k bs ++ content later) xs ys whole
        (omega (arith, l, length-take k bs)) in
    (
      b,
      take k bs,
      rest,
      more,
      refl,
      put_back-IsFlowing (drop k bs) later f,
      e,
      put_back-content (drop k bs) later ∙ g,
    )

recv_loop-Comes :
    (rounds n : ℕ) (buf : Bytes) (conn : List Arrival) (xs ys : Bytes)
    → IsFlowing conn
    → content conn ≡ xs ++ ys
    → length buf + length xs ≡ n
    → length xs < rounds
    → Comes (buf ++ xs) ys (recv_loop rounds n buf conn)
unfolding recv_loop
recv_loop-Comes zero n buf conn xs ys f h l lt = absurd (omega (arith, lt))
recv_loop-Comes (suc rounds) n buf conn [] ys f h l lt =
    let e : ltb (length buf) n ≡ false = le→ltb (length buf) n (omega (arith, l)) in
    rw (e, recv_loop) (conn, rw (append-nil buf) refl, f, h)
recv_loop-Comes (suc rounds) n buf conn (x ∷ xs) ys f h l lt =
    let e : ltb (length buf) n ≡ true = lt→ltb (length buf) n (omega (arith, l)) in
    let k : n - length buf ≡ suc (length xs) = omega (arith, l) in
    let (b, bs, later, more, r, f', s, c) = recv-Comes (length xs) conn (x ∷ xs) ys f h refl in
    let la = length-append (b ∷ bs) more in
    let lx = ap (length {A = ℕ}) s in
    let lb = length-append buf (b ∷ bs) in
    let rest =
      recv_loop-Comes rounds n (buf ++ b ∷ bs) later more ys f' c (omega (arith, l, la, lx, lb))
        (omega (arith, lt, la, lx)) in
    let whole = append_assoc buf (b ∷ bs) more ∙ ap (λ (z : Bytes). buf ++ z) (sym s) in
    rw (e, k, r, recv_loop) (rw whole at rest)

recv_exact-Comes :
    (conn : List Arrival) (xs ys : Bytes)
    → IsFlowing conn
    → content conn ≡ xs ++ ys
    → Comes xs ys (recv_exact (length xs) conn)
unfolding recv_exact
recv_exact-Comes conn xs ys f h =
    recv_loop-Comes (suc (length xs)) (length xs) [] conn xs ys f h (omega arith) (omega arith)

framed :
    (size msg rest : Bytes) (conn : List Arrival)
    → size ≡ be16 (length msg)
    → 12 ≤ length msg
    → length msg ≤ max_tcp_message
    → IsFlowing conn
    → content conn ≡ (size ++ msg) ++ rest
    → Comes msg rest (read_message conn)
unfolding read_message
framed size msg rest conn e low high f h =
    let h' : content conn ≡ be16 (length msg) ++ (msg ++ rest) =
      h ∙ ap (λ (z : Bytes). (z ++ msg) ++ rest) e in
    let (conn', r, f', c) = recv_exact-Comes conn (be16 (length msg)) (msg ++ rest) f h' in
    let fits : (ltb (length msg) 12 || ltb max_tcp_message (length msg)) ≡ false =
      ground (arith, low, high) in
    rw (r, unpack_h-be16 (length msg), fits) (recv_exact-Comes conn' msg rest f' c)

-- A message of 12 to 65,535 bytes that is framed and arrives in whatever non-empty pieces, with other
-- bytes behind it or not, is the message that is read, and the other bytes are left on the
-- connection.
pub read_message-frame :
    (msg framed_msg rest : Bytes) (conn : List Arrival)
    → frame msg ≡ ok framed_msg
    → 12 ≤ length msg
    → length msg ≤ max_tcp_message
    → IsFlowing conn
    → content conn ≡ framed_msg ++ rest
    → Comes msg rest (read_message conn)
unfolding frame
read_message-frame msg framed_msg rest conn s low high f h =
    let (size, p, e) = >>=-eq-ok (pack_h (length msg)) _ s in
    let whole : size ++ msg ≡ framed_msg = cc e in
    framed size msg rest conn (pack_h-inv (length msg) size p) low high f
      (h ∙ ap (λ (z : Bytes). z ++ rest) (sym whole))
