-- ===== src/Server/Stream/Chain.antt =====
-- Which messages of a transfer are signed, and over what.
use ab_bedd4c0e_tsig_bugfix.Prelude.{
  ℕ, suc, ◌≡◌, sym, ◌∙◌, true, false, Option, some, List, [], ◌∷◌, ◌++◌, ◌==◌, arith,
}
use ab_bedd4c0e_tsig_bugfix.Errors.{Result, ok, ◌>>=◌, >>=-eq-ok, >>=-ext}
use ab_bedd4c0e_tsig_bugfix.Text.{Bytes}
use ab_bedd4c0e_tsig_bugfix.Wire.Mac.{sign_response}
use ab_bedd4c0e_tsig_bugfix.Server.Packer.{frame}
use ab_bedd4c0e_tsig_bugfix.Server.Stream.{
  Session, response_fudge, send_indexed, send_from, stream_signed_transfer,
}

-- Unsigned messages, framed one by one.
abbrev pub frames : List Bytes → Result (List Bytes)
frames [] = ok []
frames (m ∷ ms) = do out ← frame m; outs ← frames ms; ok (out ∷ outs)

suc-ne-zero : (i : ℕ) → (suc i == 0) ≡ false
suc-ne-zero i = ground arith

module _ (hmac : Bytes → Bytes → Bytes) (s : Session) where
  -- A message signed after a digest, and the MAC that it carries.
  abbrev pub signed_after : Bytes → Bytes → Result (Bytes × Bytes)
  signed_after prior plain =
      sign_response hmac s.secret plain s.key_name prior s.when response_fudge s.qid 0 0 []

  -- What RFC 2845's chain is in this program: first message after the request's MAC, the messages
  -- between as they are, the last one after the first one's MAC.
  abbrev pub chain : Bytes → List Bytes → Bytes → Result (List Bytes)
  chain first mids last = do
    (wire, mac) ← signed_after s.request_mac first
    out ← frame wire
    outs ← frames mids
    (wire', mac') ← signed_after mac last
    out' ← frame wire'
    ok (out ∷ outs ++ out' ∷ [])

  send_middle :
      (i : ℕ) (plain : Bytes) (first : Option Bytes)
      → send_indexed hmac s (suc i) plain false first ≡ (do out ← frame plain; ok (out, first))
  unfolding send_indexed
  send_middle i plain first = rw (suc-ne-zero i)

  send_last :
      (i : ℕ) (plain mac : Bytes)
      → send_indexed hmac s (suc i) plain true (some mac)
        ≡ (do (wire, mac') ← signed_after mac plain; out ← frame wire; ok (out, some mac))
  unfolding send_indexed
  send_last i plain mac = rw (suc-ne-zero i)

  rest_of : List Bytes → Bytes → Bytes → Result (List Bytes)
  rest_of mids last mac = do
    outs ← frames mids
    (wire', mac') ← signed_after mac last
    out' ← frame wire'
    ok (outs ++ out' ∷ [])

  send_rest :
      (i : ℕ) (pending : Bytes) (mids : List Bytes) (last mac : Bytes)
      → send_from hmac s (suc i) pending (mids ++ last ∷ []) (some mac)
        ≡ rest_of (pending ∷ mids) last mac
  unfolding send_from rest_of
  send_rest i pending [] last mac =
      ground (arith, send_middle i pending (some mac), send_last (suc i) last mac)
  send_rest i pending (m ∷ mids) last mac =
      ground (arith, send_middle i pending (some mac), send_rest (suc i) m mids last mac)

  abbrev first_then : (Bytes → Result (List Bytes)) → Bytes → Result (List Bytes)
  first_then rest first = do
    (wire, mac) ← signed_after s.request_mac first
    out ← frame wire
    outs ← rest mac
    ok (out ∷ outs)

  stream-first :
      (first m : Bytes) (ms : List Bytes)
      → stream_signed_transfer hmac s first (m ∷ ms)
        ≡ first_then (λ mac. send_from hmac s 1 m ms (some mac)) first
  unfolding stream_signed_transfer send_from send_indexed
  stream-first first m ms = ground arith

  chain-first :
      (first last : Bytes) (mids : List Bytes)
      → first_then (rest_of mids last) first ≡ chain first mids last
  unfolding rest_of
  chain-first first last mids = ground arith

  stream-pair :
      (first last : Bytes) → stream_signed_transfer hmac s first (last ∷ []) ≡ chain first [] last
  unfolding stream_signed_transfer send_from send_indexed
  stream-pair first last = ground arith

  -- A transfer of two messages or more sends the first message signed after the request's MAC, the
  -- messages between as they are, and the last message signed after the first one's MAC; it fails
  -- exactly where one of these steps fails.
  pub stream_signed_transfer-chain :
      (first : Bytes) (mids : List Bytes) (last : Bytes)
      → stream_signed_transfer hmac s first (mids ++ last ∷ []) ≡ chain first mids last
  stream_signed_transfer-chain first [] last = stream-pair first last
  stream_signed_transfer-chain first (m ∷ mids) last =
      stream-first first m (mids ++ last ∷ [])
      ∙ >>=-ext (signed_after s.request_mac first) _ _
          (λ r. >>=-ext (frame r.0) _ _ (λ out. rw (send_rest 0 m mids last r.1)))
      ∙ chain-first first last (m ∷ mids)

  -- A transfer of one message sends it signed after the request's MAC.
  pub stream_signed_transfer-single :
      (only : Bytes)
      → stream_signed_transfer hmac s only []
        ≡ (do (wire, mac) ← signed_after s.request_mac only; out ← frame wire; ok (out ∷ []))
  unfolding stream_signed_transfer send_from send_indexed
  stream_signed_transfer-single only = ground arith

  -- The frames of one transfer, and of one with other messages in the middle.
  pub record IsSwapped (first : Bytes) (mids' : List Bytes) (last : Bytes) (outs' sent : List Bytes)
      : Type 0 where
    pub head : Bytes
    pub middle : List Bytes
    pub tail : Bytes
    pub sent_eq : sent ≡ head ∷ middle ++ tail ∷ []
    pub swapped :
        stream_signed_transfer hmac s first (mids' ++ last ∷ []) ≡ ok (head ∷ outs' ++ tail ∷ [])

  chain-runs :
      (first last wire mac out wire' mac' out' : Bytes) (mids outs : List Bytes)
      → signed_after s.request_mac first ≡ ok (wire, mac)
      → frame wire ≡ ok out
      → frames mids ≡ ok outs
      → signed_after mac last ≡ ok (wire', mac')
      → frame wire' ≡ ok out'
      → chain first mids last ≡ ok (out ∷ outs ++ out' ∷ [])
  chain-runs first last wire mac out wire' mac' out' mids outs e1 e2 e3 e4 e5 =
      rw (e1, e2, e3, e4, e5)

  chain-swap :
      (first last : Bytes) (mids mids' outs' sent : List Bytes)
      → chain first mids last ≡ ok sent
      → frames mids' ≡ ok outs'
      → IsSwapped first mids' last outs' sent
  chain-swap first last mids mids' outs' sent h k =
      let ((wire, mac), e1, h1) = >>=-eq-ok (signed_after s.request_mac first) _ h in
      let (out, e2, h2) = >>=-eq-ok (frame wire) _ h1 in
      let (outs, e3, h3) = >>=-eq-ok (frames mids) _ h2 in
      let ((wire', mac'), e4, h4) = >>=-eq-ok (signed_after mac last) _ h3 in
      let (out', e5, h5) = >>=-eq-ok (frame wire') _ h4 in
      record {
        head = out;
        middle = outs;
        tail = out';
        sent_eq = cc;
        swapped =
            stream_signed_transfer-chain first mids' last
            ∙ chain-runs first last wire mac out wire' mac' out' mids' outs' e1 e2 k e4 e5;
      }

  -- Nothing of the messages between the first and the last goes into a MAC: if a transfer is sent, then
  -- with any other messages between (that can be framed) the same first and last frames are sent
  -- around them.
  pub middle_is_not_signed :
      (first last : Bytes) (mids mids' outs' sent : List Bytes)
      → stream_signed_transfer hmac s first (mids ++ last ∷ []) ≡ ok sent
      → frames mids' ≡ ok outs'
      → IsSwapped first mids' last outs' sent
  middle_is_not_signed first last mids mids' outs' sent h k =
      chain-swap first last mids mids' outs' sent
        (sym (stream_signed_transfer-chain first mids last) ∙ h) k
