-- ===== src/Server/Handlers.antt =====
-- `UDPHandler.handle` and `TCPHandler.handle` of app/dns_server.py, with `_handle_simple`, `_deny` and
-- `_handle_transfer`: what is sent for one datagram or one connection. Sends succeed; the clock, the
-- instance's name and the new reference id are arguments.
pub mod Replies
pub mod Connection
pub mod Denial
use Prim.Native.Nat.{bit_or}
use ab_bedd4c0e_tsig_bugfix.Prelude.{
  ℕ, Bool, true, false, ◌||◌, Option, none, some, List, [], ◌∷◌, ltb, ◌==◌, if◌then◌else◌, length,
  take,
}
use ab_bedd4c0e_tsig_bugfix.Errors.{
  Fault, wire_error, struct_error, out_of_fuel, os_error, denied, Result, ok, err, ◌>>=◌,
}
use ab_bedd4c0e_tsig_bugfix.Text.{Text, Bytes}
use ab_bedd4c0e_tsig_bugfix.Canonical.{max_tcp_message}
use ab_bedd4c0e_tsig_bugfix.Storage.Tables.{Database}
use ab_bedd4c0e_tsig_bugfix.Storage.Transfers.{release_transfer}
use ab_bedd4c0e_tsig_bugfix.Wire.Tsig.{build_header, type_axfr, type_ixfr}
use ab_bedd4c0e_tsig_bugfix.Wire.Query.{Tsig, Query, parse_query}
use ab_bedd4c0e_tsig_bugfix.Wire.Response.{
  flag_qr, rcode_noerror, rcode_formerr, rcode_servfail, rcode_refused, make_error_response,
  make_simple_response,
}
use ab_bedd4c0e_tsig_bugfix.Server.Packer.{frame}
use ab_bedd4c0e_tsig_bugfix.Server.Access.{Plan, authorize_transfer}
use ab_bedd4c0e_tsig_bugfix.Server.Transfer.{handle_transfer}
use ab_bedd4c0e_tsig_bugfix.Server.Answer.{Answer, reply, is_transfer, answer_question}
use ab_bedd4c0e_tsig_bugfix.Server.Socket.{Arrival, Received, read_message}

-- `Config.MAX_UDP_PAYLOAD`
abbrev pub max_udp_payload : ℕ
max_udp_payload = 512

-- `try: … except Exception: …`; an exhausted bound is no exception
abbrev pub except_any {ℓ} : {A : Type ℓ} → Result A → Result A → Result A
except_any (ok a) d = ok a
except_any (err out_of_fuel) d = err out_of_fuel
except_any (err e) d = d

-- `build_header(0, FLAG_QR | rcode, 0, 0, 0, 0)`
unfoldable pub bare_header : ℕ → Result Bytes
bare_header rcode = build_header 0 (bit_or flag_qr rcode) 0 0 0 0

-- The reply to a query that is no transfer, its answers given as one byte string. `aa` is True by
-- default. The code -1 of a
-- transfer has no place in a header.
unfoldable pub reply_to : Query → Answer → Result Bytes
reply_to q is_transfer = err struct_error
reply_to q (reply rcode none) = make_simple_response q.id q.raw_question rcode [] true false
reply_to q (reply rcode (some [])) = make_simple_response q.id q.raw_question rcode [] true false
reply_to q (reply rcode (some (b ∷ bs))) =
    make_simple_response q.id q.raw_question rcode ((b ∷ bs) ∷ []) true false

-- The flags of the reply that stands in for one that is too long.
abbrev shortened : Query → Answer → Bytes → Result Bytes
shortened q (reply rcode (some (b ∷ bs))) resp =
    if ltb max_udp_payload (length resp)
    then make_simple_response q.id q.raw_question rcode [] true true
    else ok resp
shortened q _ resp = ok resp

abbrev pub is_transfer_type : ℕ → Bool
is_transfer_type qtype = qtype == type_axfr || qtype == type_ixfr

abbrev udp_answer : Database → Query → Result Bytes
udp_answer db q =
    if is_transfer_type q.qtype
    then make_simple_response q.id q.raw_question rcode_noerror [] true true
    else do answer ← answer_question db q; resp ← reply_to q answer; shortened q answer resp

abbrev servfail : Query → Result Bytes
servfail q = make_simple_response q.id q.raw_question rcode_servfail [] true false

abbrev udp_parsed : Database → Result Query → Result Bytes
udp_parsed db (err wire_error) = do head ← bare_header rcode_formerr; ok (take 512 head)
udp_parsed db (err e) = err e
udp_parsed db (ok q) = except_any (udp_answer db q) (servfail q)

-- `UDPHandler.handle`: the datagram sent back, or the exception that ends the handler
unfoldable pub udp_reply : Database → Bytes → Result Bytes
unfolding bare_header reply_to
udp_reply db data' = udp_parsed db (parse_query data')

-- `_handle_simple`: the frame sent
unfoldable pub handle_simple : Database → Query → Result Bytes
unfolding reply_to
handle_simple db q = do
  answer ← answer_question db q
  resp ← reply_to q answer
  sent ← (if ltb max_tcp_message (length resp) then servfail q else ok resp)
  frame sent

-- The response of `_deny`: a TSIG error where there is one and the query has a TSIG record.
abbrev pub denial : Query → Option ℕ → Option Tsig → ℕ → ℕ → Result Bytes
denial q (some error) (some t) now when = make_error_response q rcode_refused (some error) now when
denial q _ _ now when = make_simple_response q.id q.raw_question rcode_refused [] true false

-- `_deny`: the frame sent; `now` and `when` are the clock's two answers
unfoldable pub deny : Query → Option ℕ → ℕ → ℕ → Result Bytes
deny q error now when = do resp ← denial q error q.tsig now when; frame resp

-- What a connection ends with: the frames of a reply; the frames of a transfer that was broken off
-- by an exception, of which only the last, the bare SERVFAIL header, is told; nothing.
pub data Sent : Type 0 where
  frames : List Bytes → Sent
  broken_off : Bytes → Sent
  nothing : Sent

abbrev mac_of : Option Tsig → Bytes
mac_of none = []
mac_of (some t) = t.mac

-- The last two handlers of `TCPHandler.handle`.
abbrev pub or_servfail : Result Sent → Result Sent
or_servfail (err os_error) = ok nothing
or_servfail r =
    except_any r (do head ← bare_header rcode_servfail; out ← frame head; ok (broken_off out))

abbrev sent_frame : Result Bytes → Result Sent
sent_frame r = do out ← r; ok (frames (out ∷ []))

abbrev sent_frames : Result (List Bytes) → Result Sent
sent_frames r = do outs ← r; ok (frames outs)

module _ (hmac : Bytes → Bytes → Bytes) (now when ts : ℕ) (instance_id ref_id : Text)
    (configured : ℕ) where
  -- `_handle_transfer`, with the release of the pin in its `finally`, and `_deny`
  abbrev granted : Query → Database → Result (Database × Plan) → Database × Result Sent
  granted q db (err (denied error server_time)) = (db, sent_frame (deny q error now when))
  granted q db (err e) = (db, err e)
  granted q db (ok (db', plan)) = (
    release_transfer db' plan.ref_id ts,
    sent_frames (handle_transfer hmac db' plan q (mac_of q.tsig) when configured),
  )

  abbrev tcp_parsed : Database → Result Query → Database × Result Sent
  tcp_parsed db (err wire_error) =
      (db, sent_frame (do head ← bare_header rcode_formerr; frame head))
  tcp_parsed db (err e) = (db, err e)
  tcp_parsed db (ok q) =
      if is_transfer_type q.qtype
      then granted q db (authorize_transfer hmac now ts instance_id ref_id db q)
      else (db, sent_frame (handle_simple db q))

  abbrev tcp_message : Database → Result Received → Database × Result Sent
  tcp_message db (err e) = (db, err e)
  tcp_message db (ok none) = (db, ok nothing)
  tcp_message db (ok (some (msg, conn))) = tcp_parsed db (parse_query msg)

  -- `TCPHandler.handle` on what arrives: the database afterwards and what is sent
  unfoldable pub tcp_handle : Database → List Arrival → Database × Result Sent
  unfolding bare_header handle_simple deny
  tcp_handle db conn = let (db', r) = tcp_message db (read_message conn) in (db', or_servfail r)
