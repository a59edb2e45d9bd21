-- ===== src/Client/Accepted.antt =====
-- A query that the client signs is parsed by the server as the query that was meant, and carries the
-- MAC that the server expects.
use ab_bedd4c0e_tsig_bugfix.Prelude.{
  ℕ, ◌+◌, ◌/◌, ◌%◌, ◌^◌, ◌≤◌, ◌≡◌, refl, sym, ap, ◌∙◌, ◌++◌, [], append_assoc, arith, length, drop,
  take, drop-of_drop, slice-of_drop, le→ltb, ==_refl, length-append, take_of_length, drop_of_length,
  Option, none, some, append-nil, slice,
}
use ab_bedd4c0e_tsig_bugfix.Errors.{ok, >>=-eq-ok}
use ab_bedd4c0e_tsig_bugfix.Text.{Text, Bytes}
use ab_bedd4c0e_tsig_bugfix.Wire.Bytes.{
  be16, pack_h, header_layout, unpack_header-layout, unpack_hh-be,
}
use ab_bedd4c0e_tsig_bugfix.Wire.Names.{encode_name}
use ab_bedd4c0e_tsig_bugfix.Wire.Names.RoundTrip.{decode_name-at, normal}
use ab_bedd4c0e_tsig_bugfix.Wire.Names.Normal.{encode_name-normal}
use ab_bedd4c0e_tsig_bugfix.Wire.Tsig.{algorithm_wire, pack_time, tsig_variables, class_in}
use ab_bedd4c0e_tsig_bugfix.Wire.Tsig.Reading.{rdata_read}
use ab_bedd4c0e_tsig_bugfix.Wire.Query.{Tsig, Query, RrHead, read_additional, parse_query}
use ab_bedd4c0e_tsig_bugfix.Wire.Query.Reading.{
  tsig_head, read_rr-tsig, parse_tsig_rdata-tsig, tsig_ends,
}
use ab_bedd4c0e_tsig_bugfix.Wire.Mac.{digest_block, expected_request_mac}
use ab_bedd4c0e_tsig_bugfix.Client.{build_tsig_query}
use ab_bedd4c0e_tsig_bugfix.Client.Layout.{
  section_count, IsAuthority, IsSigned, build_tsig_query-IsSigned,
}
use ab_bedd4c0e_tsig_bugfix.Client.Authority.{authority_of, authority_of-IsAuthority}

pub pack_time-low : (when fudge : ℕ) → pack_time (when % 2 ^ 48) fudge ≡ pack_time when fudge
unfolding pack_time
pack_time-low when fudge =
    let hi : when % 2 ^ 48 / 2 ^ 32 % 2 ^ 16 ≡ when / 2 ^ 32 % 2 ^ 16 = omega arith in
    let lo : when % 2 ^ 48 % 2 ^ 32 ≡ when % 2 ^ 32 = omega arith in rw (hi, lo)

-- The digest's variables are the same for the name and the time as the server reads them.
tsig_variables-normal :
    (key_name : Text) (when fudge : ℕ) (vars : Bytes)
    → tsig_variables key_name algorithm_wire when fudge 0 [] ≡ ok vars
    → tsig_variables (normal key_name) algorithm_wire (when % 2 ^ 48) fudge 0 [] ≡ ok vars
unfolding tsig_variables
tsig_variables-normal key_name when fudge vars h =
    let (time, e1, h1) = >>=-eq-ok (pack_time when fudge) _ h in
    let (code, e2, h2) = >>=-eq-ok (pack_h 0) _ h1 in
    let (size, e3, h3) = >>=-eq-ok (pack_h (length {A = ℕ} [])) _ h2 in
    let (w, e4, h4) = >>=-eq-ok (encode_name key_name) _ h3 in
    rw (pack_time-low, encode_name-normal key_name w e4 ∙ sym e4) h

module _ (hmac : Bytes → Bytes → Bytes) (qid : ℕ) (qname : Text) (qtype : ℕ) (key_name : Text)
    (secret : Bytes) (when fudge : ℕ) (auth : Bytes) (serial : Option ℕ) (msg : Bytes)
    (is_auth : IsAuthority auth serial)
    (s : IsSigned hmac qid qname qtype key_name secret when fudge auth msg) where
  abbrev name_wire : Bytes
  name_wire = s.is_question.name_wire

  abbrev mac_of : Bytes
  mac_of = hmac secret (s.signed ++ s.vars)

  -- Where the parts of the message start.
  length-head : length s.head ≡ 12
  length-head = ap (length {A = ℕ}) s.head_eq

  length-question : length s.question ≡ length name_wire + 4
  length-question = omega (
    arith,
    ap (length {A = ℕ}) s.is_question.layout,
    length-append {0} (s.is_question.name_wire ++ be16 qtype) (be16 class_in),
    length-append {0} s.is_question.name_wire (be16 qtype),
  )

  msg_parts : msg ≡ s.head ++ (s.question ++ (auth ++ s.rr))
  msg_parts = s.layout ∙ simp append_assoc

  at_question : drop 12 msg ≡ s.question ++ (auth ++ s.rr)
  at_question =
      ap (drop 12) msg_parts
      ∙ drop_of_length 12 s.head (s.question ++ (auth ++ s.rr)) (sym length-head)

  at_name : drop 12 msg ≡ name_wire ++ ((be16 qtype ++ be16 class_in) ++ (auth ++ s.rr))
  at_name = at_question ∙ ap (λ t. t ++ (auth ++ s.rr)) s.is_question.layout ∙ simp append_assoc

  length-msg : length msg ≡ 12 + (length name_wire + 4 + (length auth + length s.rr))
  length-msg = omega (
    arith,
    ap (length {A = ℕ}) s.layout,
    length-append {0} (s.head ++ s.question ++ auth) s.rr,
    length-append {0} (s.head ++ s.question) auth,
    length-append {0} s.head s.question,
    length-head,
    length-question,
  )

  at_types : drop (12 + length name_wire) msg ≡ (be16 qtype ++ be16 class_in) ++ (auth ++ s.rr)
  at_types = drop-of_drop 12 (length name_wire) msg name_wire _ at_name refl

  at_auth : drop (12 + length name_wire + 4) msg ≡ auth ++ s.rr
  at_auth = drop-of_drop (12 + length name_wire) 4 msg (be16 qtype ++ be16 class_in) _ at_types refl

  at_rr : drop (12 + length name_wire + 4 + length auth) msg ≡ s.rr ++ []
  at_rr =
      drop-of_drop (12 + length name_wire + 4) (length auth) msg auth s.rr at_auth refl
      ∙ sym (append-nil s.rr)

  take-header : take 12 msg ≡ header_layout qid 256 1 0 (section_count auth) 1
  take-header =
      ap (take 12) msg_parts
      ∙ take_of_length 12 s.head (s.question ++ (auth ++ s.rr)) (sym length-head)
      ∙ s.head_eq

  abbrev at_end : ℕ
  at_end = 12 + length name_wire + 4 + length auth

  inside : at_end ≤ length msg
  inside = omega (arith, length-msg)

  abbrev parsed_tsig : Tsig
  parsed_tsig = record { name = normal key_name; rdata = rdata_read when fudge mac_of qid 0 [] }

  rr_head : RrHead
  rr_head = tsig_head key_name when fudge mac_of qid 0 [] s.rr s.rr_of msg [] at_end at_rr inside

  rr_ends : rr_head.rstart + rr_head.rdlen ≡ length msg
  unfolding rr_head
  rr_ends =
      tsig_ends key_name when fudge mac_of qid 0 [] s.rr s.rr_of msg [] at_end at_rr inside
      ∙ omega (arith, length-msg)

  read_additional-signed :
      read_additional 1 msg at_end none ≡ ok (length msg, some (parsed_tsig, at_end))
  unfolding read_additional rr_head tsig_head
  read_additional-signed = rw (
    read_rr-tsig key_name when fudge mac_of qid 0 [] s.rr s.rr_of msg [] at_end at_rr inside,
    parse_tsig_rdata-tsig key_name when fudge mac_of qid 0 [] s.rr s.rr_of msg [] at_end at_rr
        inside,
    rr_ends,
  )

  -- The query that was meant.
  parsed : Query
  parsed = record {
    id = qid;
    flags = 256;
    qname = normal qname;
    qtype = qtype;
    qclass = class_in;
    raw_question = slice msg 12 (12 + length name_wire + 4);
    tsig = some parsed_tsig;
    tsig_offset = some at_end;
    arcount = 1;
    raw = msg;
    client_soa_serial = serial;
  }

  parse_query-signed : parse_query msg ≡ ok parsed
  unfolding parse_query parsed
  parse_query-signed = rw (
    le→ltb (length msg) 12 (omega (arith, length-msg)),
    take-header,
    unpack_header-layout,
    decode_name-at qname name_wire msg _ 12 s.is_question.name_encoded at_name
        (omega (arith, length-msg)),
    le→ltb (length msg) (12 + length name_wire + 4) (omega (arith, length-msg)),
    slice-of_drop msg (be16 qtype ++ be16 class_in) _ (12 + length name_wire)
        (12 + length name_wire + 4) at_types refl,
    unpack_hh-be,
    is_auth.read msg s.rr (12 + length name_wire + 4) at_auth (omega (arith, length-msg)),
    read_additional-signed,
    ==_refl (length msg),
  )

  take-base : take at_end msg ≡ s.head ++ s.question ++ auth
  take-base =
      ap (take at_end) s.layout
      ∙ take_of_length at_end (s.head ++ s.question ++ auth) s.rr (
          omega (
            arith,
            length-append {0} (s.head ++ s.question) auth,
            length-append {0} s.head s.question,
            length-head,
            length-question,
          ))

  expected_request_mac-signed :
      expected_request_mac hmac secret parsed parsed_tsig at_end ≡ ok mac_of
  unfolding expected_request_mac digest_block parsed
  expected_request_mac-signed =
      rw (take-base, s.patched, tsig_variables-normal key_name when fudge s.vars s.vars_of)

-- What the server makes of a query.
pub record IsAccepted (hmac : Bytes → Bytes → Bytes) (qid : ℕ) (qname : Text) (qtype : ℕ)
    (key_name : Text) (secret : Bytes) (when fudge : ℕ) (serial : Option ℕ) (msg : Bytes)
    : Type 0 where
  pub query : Query
  pub entry : Tsig
  pub offset : ℕ
  pub is_parsed : parse_query msg ≡ ok query
  pub id_eq : query.id ≡ qid
  pub qname_eq : query.qname ≡ normal qname
  pub qtype_eq : query.qtype ≡ qtype
  pub serial_eq : query.client_soa_serial ≡ serial
  pub tsig_eq : query.tsig ≡ some entry
  pub offset_eq : query.tsig_offset ≡ some offset
  pub name_eq : entry.name ≡ normal key_name
  pub time_eq : entry.time ≡ when % 2 ^ 48
  pub fudge_eq : entry.fudge ≡ fudge
  pub mac_eq : expected_request_mac hmac secret query entry offset ≡ ok entry.mac

-- Whatever the digest function, a query that the client has built and signed, with no authority
-- record or with the SOA record of its serial, is parsed by the server as that query, with the key's
-- name in normal form and the time's low 48 bits, and carries exactly the MAC that the server
-- expects under the same secret.
pub signed_query-IsAccepted :
    (hmac : Bytes → Bytes → Bytes) (qid : ℕ) (qname : Text) (qtype : ℕ) (key_name : Text)
    (secret : Bytes) (when fudge : ℕ) (serial : Option ℕ) (auth msg : Bytes)
    → authority_of qname serial ≡ ok auth
    → build_tsig_query hmac qid qname qtype key_name secret when fudge auth ≡ ok msg
    → IsAccepted hmac qid qname qtype key_name secret when fudge serial msg
signed_query-IsAccepted hmac qid qname qtype key_name secret when fudge serial auth msg a h =
    let is_auth = authority_of-IsAuthority qname serial auth a in
    let s = build_tsig_query-IsSigned hmac qid qname qtype key_name secret when fudge auth msg h in
    record {
      query = parsed hmac qid qname qtype key_name secret when fudge auth serial msg is_auth s;
      entry = parsed_tsig hmac qid qname qtype key_name secret when fudge auth serial msg is_auth s;
      offset = at_end hmac qid qname qtype key_name secret when fudge auth serial msg is_auth s;
      is_parsed =
          parse_query-signed hmac qid qname qtype key_name secret when fudge auth serial msg is_auth
            s;
      id_eq = unfold parsed in refl;
      qname_eq = unfold parsed in refl;
      qtype_eq = unfold parsed in refl;
      serial_eq = unfold parsed in refl;
      tsig_eq = unfold parsed in refl;
      offset_eq = unfold parsed in refl;
      name_eq = refl;
      time_eq = refl;
      fudge_eq = refl;
      mac_eq =
          expected_request_mac-signed hmac qid qname qtype key_name secret when fudge auth serial
            msg is_auth s;
    }
