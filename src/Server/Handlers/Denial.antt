-- ===== src/Server/Handlers/Denial.antt =====
-- What a denied transfer is answered with by `_deny` of app/dns_server.py.
use Prim.Native.Nat.{bit_or}
use ab_bedd4c0e_tsig_bugfix.Prelude.{
  ℕ, ◌≡◌, ◌≢◌, refl, ap, sym, true, false, Option, none, some, List, [], ◌∷◌, ◌++◌,
}
use ab_bedd4c0e_tsig_bugfix.Errors.{
  out_of_fuel, os_error, denied, Result, ok, err, ◌>>=◌, >>=-eq-ok, ok-inj,
}
use ab_bedd4c0e_tsig_bugfix.Text.{Text, Bytes}
use ab_bedd4c0e_tsig_bugfix.Storage.Tables.{Database}
use ab_bedd4c0e_tsig_bugfix.Wire.Tsig.{build_header, append_tsig}
use ab_bedd4c0e_tsig_bugfix.Wire.Query.{Tsig, Query, parse_query}
use ab_bedd4c0e_tsig_bugfix.Wire.Response.{
  flag_qr, flag_aa, rcode_refused, rcode_servfail, error_other, make_error_response,
}
use ab_bedd4c0e_tsig_bugfix.Server.Packer.{frame}
use ab_bedd4c0e_tsig_bugfix.Server.Access.{authorize_transfer}
use ab_bedd4c0e_tsig_bugfix.Server.Socket.{Arrival, read_message}
use ab_bedd4c0e_tsig_bugfix.Server.Handlers.{
  Sent, frames, broken_off, nothing, sent_frame, or_servfail, bare_header, is_transfer_type, denial,
  deny, tcp_handle,
}
use ab_bedd4c0e_tsig_bugfix.Server.Handlers.Replies.{IsEmptyReply, empty-IsEmptyReply}

-- REFUSED with the TSIG error, in a message that is nothing but header, question and the unsigned
-- TSIG record.
abbrev pub IsTsigRefusal : Query → Tsig → ℕ → ℕ → ℕ → Bytes → Type 0
IsTsigRefusal q t error now when msg =
    (head other : Bytes) × (build_header q.id (bit_or (bit_or flag_qr flag_aa) rcode_refused) 1 0 0
        1
      ≡ ok head)
    × (error_other error now ≡ ok other)
    × (append_tsig (head ++ q.raw_question) t.name when 300 [] q.id error (some 0) other ≡ ok msg)

-- With no TSIG error to tell, or no TSIG record to answer, there is no TSIG record.
abbrev pub IsRefusal : Query → Option ℕ → Option Tsig → ℕ → ℕ → Bytes → Type 0
IsRefusal q (some error) (some t) now when msg = IsTsigRefusal q t error now when msg
IsRefusal q _ _ now when msg = IsEmptyReply q rcode_refused true false msg

-- One frame, which holds such a message.
abbrev pub IsRefusalFrame : Query → Option ℕ → ℕ → ℕ → Bytes → Type 0
IsRefusalFrame q error now when out =
    (msg : Bytes) × (frame msg ≡ ok out) × IsRefusal q error q.tsig now when msg

tsig-IsTsigRefusal :
    (q : Query) (t : Tsig) (error now when : ℕ) (msg : Bytes)
    → q.tsig ≡ some t
    → make_error_response q rcode_refused (some error) now when ≡ ok msg
    → IsTsigRefusal q t error now when msg
unfolding make_error_response
tsig-IsTsigRefusal q t error now when msg e h =
    let (head, b, h1) =
      >>=-eq-ok (build_header q.id (bit_or (bit_or flag_qr flag_aa) rcode_refused) 1 0 0 1) _
        (rw e at h) in
    let (other, o, h2) = >>=-eq-ok (error_other error now) _ h1 in (head, other, b, o, h2)

denial-IsRefusal :
    (q : Query) (error : Option ℕ) (o : Option Tsig) (now when : ℕ) (msg : Bytes)
    → q.tsig ≡ o
    → denial q error o now when ≡ ok msg
    → IsRefusal q error o now when msg
denial-IsRefusal q none o now when msg e h = empty-IsEmptyReply q rcode_refused true false msg h
denial-IsRefusal q (some error) none now when msg e h =
    empty-IsEmptyReply q rcode_refused true false msg h
denial-IsRefusal q (some error) (some t) now when msg e h =
    tsig-IsTsigRefusal q t error now when msg e h

deny-IsRefusal :
    (q : Query) (error : Option ℕ) (now when : ℕ) (out : Bytes)
    → deny q error now when ≡ ok out
    → IsRefusalFrame q error now when out
unfolding deny
deny-IsRefusal q error now when out h =
    let (msg, m, f) = >>=-eq-ok (denial q error q.tsig now when) frame h in
    (msg, f, denial-IsRefusal q error q.tsig now when msg refl m)

-- Frames are sent only where nothing was raised.
bare-frames :
    (outs : List Bytes)
    → (do head ← bare_header rcode_servfail; out ← frame head; ok (broken_off out))
      ≡ ok (frames outs)
    → ⊥
bare-frames outs h =
    let (head, b, h1) = >>=-eq-ok (bare_header rcode_servfail) _ h in
    let (out, f, h2) = >>=-eq-ok (frame head) _ h1 in cc (ok-inj h2)

nothing-frames : (outs : List Bytes) → nothing ≢ frames outs
nothing-frames outs h = cc

sent-frames :
    (r : Result Bytes) (outs : List Bytes)
    → or_servfail (sent_frame r) ≡ ok (frames outs)
    → (out : Bytes) × (r ≡ ok out) × (outs ≡ out ∷ [])
sent-frames (ok out) outs h = (out, refl, cc (ok-inj h))
sent-frames (err out_of_fuel) outs h = cc
sent-frames (err os_error) outs h = absurd (nothing-frames outs (ok-inj h))
sent-frames (err e) outs h = absurd (bare-frames outs h)

-- A request for a transfer over TCP that is denied, where its answer can be framed, is answered with
-- one frame: REFUSED, with the AA flag, with the question and no record but, where there is a TSIG error to tell and a
-- TSIG record to answer, an unsigned TSIG record with that error; and the database stays as it is.
pub tcp_handle_denied :
    (hmac : Bytes → Bytes → Bytes) (now when ts : ℕ) (instance_id ref_id : Text) (configured : ℕ)
    (db db' : Database) (conn rest : List Arrival) (msg : Bytes) (q : Query)
    (error server_time : Option ℕ) (outs : List Bytes)
    → read_message conn ≡ ok (some (msg, rest))
    → parse_query msg ≡ ok q
    → is_transfer_type q.qtype ≡ true
    → authorize_transfer hmac now ts instance_id ref_id db q ≡ err (denied error server_time)
    → tcp_handle hmac now when ts instance_id ref_id configured db conn ≡ (db', ok (frames outs))
    → (db' ≡ db) × (out : Bytes) × (outs ≡ out ∷ []) × IsRefusalFrame q error now when out
unfolding tcp_handle
tcp_handle_denied hmac now when ts instance_id ref_id configured db db' conn rest msg q error
      server_time outs read parsed is_xfr not_allowed h =
    let h' : (db, or_servfail (sent_frame (deny q error now when))) ≡ (db', ok (frames outs)) =
      rw (read, parsed, is_xfr, not_allowed) at h in
    let (out, d, o) =
      sent-frames (deny q error now when) outs (ap (λ (p : Database × Result Sent). p.1) h') in
    (
      sym (ap (λ (p : Database × Result Sent). p.0) h'),
      out,
      o,
      deny-IsRefusal q error now when out d,
    )
