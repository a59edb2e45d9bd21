-- ===== src/Tests/Handlers.antt =====
-- Runs of the theorems on the handlers at concrete inputs.
use ab_bedd4c0e_tsig_bugfix.Prelude.{◌≡◌, refl, none, some, List, [], ◌∷◌, ◌++◌, arith}
use ab_bedd4c0e_tsig_bugfix.Errors.{ok, err, denied, os_error}
use ab_bedd4c0e_tsig_bugfix.Text.{Bytes, codes, lower, lower_char, join_dots}
use ab_bedd4c0e_tsig_bugfix.Wire.Bytes.{
  pack_h, pack_hhh, unpack_h, unpack_hh, unpack_header, unpack_hhh,
}
use ab_bedd4c0e_tsig_bugfix.Wire.Names.{
  decode_name, decode_loop, decode_byte, follow_pointer, read_label,
}
use ab_bedd4c0e_tsig_bugfix.Wire.Tsig.{build_header}
use ab_bedd4c0e_tsig_bugfix.Wire.Query.{Query, parse_query, read_authority, read_additional}
use ab_bedd4c0e_tsig_bugfix.Wire.Response.{simple_flags, make_simple_response}
use ab_bedd4c0e_tsig_bugfix.Server.Packer.{frame}
use ab_bedd4c0e_tsig_bugfix.Server.Access.{authorize_transfer}
use ab_bedd4c0e_tsig_bugfix.Server.Socket.{
  Arrival, bytes_in, failing, recv, recv_loop, recv_exact, read_message,
}
use ab_bedd4c0e_tsig_bugfix.Server.Socket.Ends.{IsMessage, read_message-IsMessage}
use ab_bedd4c0e_tsig_bugfix.Server.Socket.Framing.{ended, piece, Comes, read_message-frame}
use ab_bedd4c0e_tsig_bugfix.Server.Handlers.{frames, deny, tcp_handle}
use ab_bedd4c0e_tsig_bugfix.Server.Handlers.Denial.{IsRefusalFrame, tcp_handle_denied}
use ab_bedd4c0e_tsig_bugfix.Tests.{digest}
use ab_bedd4c0e_tsig_bugfix.Tests.Store.{db}

abbrev question : Bytes
question = 1 ∷ b'a' ∷ 7 ∷ codes "example" ++ 0 ∷ []

abbrev datagram : Bytes
datagram = 0 ∷ 7 ∷ 1 ∷ 0 ∷ 0 ∷ 1 ∷ 0 ∷ 0 ∷ 0 ∷ 0 ∷ 0 ∷ 0 ∷ question ++ 0 ∷ 1 ∷ 0 ∷ 1 ∷ []

abbrev query : Query
query = record {
  id = 7;
  flags = 256;
  qname = codes "a.example.";
  qtype = 1;
  qclass = 1;
  raw_question = question ++ 0 ∷ 1 ∷ 0 ∷ 1 ∷ [];
  tsig = none;
  tsig_offset = none;
  arcount = 0;
  raw = datagram;
  client_soa_serial = none;
}

-- A header with the flags and one answer, the question, and the record.
abbrev answer : Bytes
answer =
    0 ∷ 7 ∷ 132 ∷ 0 ∷ 0 ∷ 1 ∷ 0 ∷ 1 ∷ 0 ∷ 0 ∷ 0 ∷ 0 ∷ question
    ++ (0 ∷ 1 ∷ 0 ∷ 1 ∷ [])
    ++ question
    ++ (0 ∷ 1 ∷ 0 ∷ 1 ∷ 0 ∷ 0 ∷ 0 ∷ 60 ∷ 0 ∷ 4 ∷ 10 ∷ 0 ∷ 0 ∷ 1 ∷ [])

-- A message of 12 bytes, its length before it, in three pieces, with a byte of the next message.
abbrev twelve : Bytes
twelve = 1 ∷ 2 ∷ 3 ∷ 4 ∷ 5 ∷ 6 ∷ 7 ∷ 8 ∷ 9 ∷ 10 ∷ 11 ∷ 12 ∷ []

abbrev pieces : List Arrival
pieces =
    bytes_in (0 ∷ [])
    ∷ bytes_in (12 ∷ 1 ∷ 2 ∷ [])
    ∷ bytes_in (3 ∷ 4 ∷ 5 ∷ 6 ∷ 7 ∷ 8 ∷ 9 ∷ 10 ∷ 11 ∷ 12 ∷ 0 ∷ [])
    ∷ []

twelve-framed : frame twelve ≡ ok (0 ∷ 12 ∷ twelve)
unfolding frame pack_h
twelve-framed = refl

read_message-frame_example : Comes twelve (0 ∷ []) (read_message pieces)
read_message-frame_example =
    read_message-frame twelve (0 ∷ 12 ∷ twelve) (0 ∷ []) pieces twelve-framed (omega arith)
      (omega arith) (piece (piece (piece ended))) refl

read_message-IsMessage_example : IsMessage pieces (ok (some (twelve, bytes_in (0 ∷ []) ∷ [])))
unfolding read_message unpack_h
read_message-IsMessage_example = read_message-IsMessage pieces

-- An error of the socket in the middle of the message.
read_message-failing :
    read_message (bytes_in (0 ∷ []) ∷ bytes_in (12 ∷ 1 ∷ []) ∷ failing ∷ []) ≡ err os_error
unfolding read_message recv_exact recv_loop recv unpack_h
read_message-failing = refl

-- A request for the zone without a signature.
abbrev zone_question : Bytes
zone_question = 7 ∷ codes "example" ++ 0 ∷ 0 ∷ 252 ∷ 0 ∷ 1 ∷ []

abbrev unsigned : Bytes
unsigned = 0 ∷ 7 ∷ 1 ∷ 0 ∷ 0 ∷ 1 ∷ 0 ∷ 0 ∷ 0 ∷ 0 ∷ 0 ∷ 0 ∷ zone_question

abbrev unsigned_query : Query
unsigned_query = record {
  id = 7;
  flags = 256;
  qname = codes "example.";
  qtype = 252;
  qclass = 1;
  raw_question = zone_question;
  tsig = none;
  tsig_offset = none;
  arcount = 0;
  raw = unsigned;
  client_soa_serial = none;
}

unsigned-parsed : parse_query unsigned ≡ ok unsigned_query
unfolding parse_query read_authority read_additional decode_name decode_loop decode_byte
    follow_pointer read_label unpack_hh unpack_header unpack_hhh lower lower_char join_dots
unsigned-parsed = refl

unsigned-read : read_message (bytes_in (0 ∷ 25 ∷ unsigned) ∷ []) ≡ ok (some (unsigned, []))
unfolding read_message recv_exact recv_loop recv unpack_h
unsigned-read = refl

not_allowed :
    authorize_transfer digest 1000 1000000 (codes "i") (codes "new") db unsigned_query
    ≡ err (denied none none)
unfolding authorize_transfer
not_allowed = refl

abbrev refusal : Bytes
refusal = 0 ∷ 25 ∷ 0 ∷ 7 ∷ 132 ∷ 5 ∷ 0 ∷ 1 ∷ 0 ∷ 0 ∷ 0 ∷ 0 ∷ 0 ∷ 0 ∷ zone_question

refused :
    tcp_handle digest 1000 1000 1000000
      (codes "i")
      (codes "new")
      64000
      db
      (bytes_in (0 ∷ 25 ∷ unsigned) ∷ [])
    ≡ (db, ok (frames (refusal ∷ [])))
unfolding tcp_handle read_message recv_exact recv_loop recv unpack_h parse_query read_authority
    read_additional decode_name decode_loop decode_byte follow_pointer read_label unpack_hh
    unpack_header unpack_hhh lower lower_char join_dots authorize_transfer deny make_simple_response
    simple_flags build_header pack_hhh pack_h frame
refused = refl

tcp_handle_denied_example :
    (db ≡ db)
    × (out : Bytes) × (refusal ∷ [] ≡ out ∷ [])
    × IsRefusalFrame unsigned_query none 1000 1000 out
tcp_handle_denied_example =
    tcp_handle_denied digest 1000 1000 1000000 (codes "i") (codes "new") 64000 db db
      (bytes_in (0 ∷ 25 ∷ unsigned) ∷ []) [] unsigned unsigned_query none none (refusal ∷ [])
      unsigned-read unsigned-parsed refl not_allowed refused
