-- ===== src/Client.antt =====
-- app/dnsclient.py: the queries that a secondary builds and signs, and how it reads and verifies
-- signed responses. HMAC-SHA256 is a parameter, `hmac key block`.
pub mod Layout
pub mod Authority
pub mod Accepted
pub mod Record
pub mod Signature
pub mod Verified
use ab_bedd4c0e_tsig_bugfix.Prelude.{
  ℕ, zero, suc, ◌+◌, ◌/◌, ◌%◌, ◌^◌, Bool, not, Option, none, some, List, [], ◌∷◌, ◌++◌, ◌==◌,
  if◌then◌else◌, length, take, slice,
}
use ab_bedd4c0e_tsig_bugfix.Errors.{Result, ok, err, assertion_error, ◌>>=◌, ◌>>◌, raise_if}
use ab_bedd4c0e_tsig_bugfix.Text.{Text, Bytes, is_empty, text_eq}
use ab_bedd4c0e_tsig_bugfix.Wire.Bytes.{
  pack_h, pack_i, pack_hhih, unpack_header, unpack_hh, unpack_hhih, unpack_i,
}
use ab_bedd4c0e_tsig_bugfix.Wire.Names.{encode_name, decode_name}
use ab_bedd4c0e_tsig_bugfix.Wire.Tsig.{
  algorithm_wire, build_header, class_in, patch_arcount, parse_tsig_rdata, tsig_rr, tsig_variables,
  type_soa, type_tsig,
}
use ab_bedd4c0e_tsig_bugfix.Wire.Query.{Tsig}

unfoldable pub question_wire : Text → ℕ → Result Bytes
question_wire qname qtype = do
  name ← encode_name qname
  t ← pack_h qtype
  c ← pack_h class_in
  ok (name ++ t ++ c)

unfoldable pub soa_authority : Text → ℕ → Result Bytes
soa_authority zone serial = do
  name ← encode_name zone
  s ← pack_i serial
  refresh ← pack_i 7200
  retry ← pack_i 3600
  expire ← pack_i 1209600
  minimum ← pack_i 3600
  let rdata = name ++ name ++ s ++ refresh ++ retry ++ expire ++ minimum
  fixed ← pack_hhih type_soa class_in 3600 (length rdata)
  ok (name ++ fixed ++ rdata)

module _ (hmac : Bytes → Bytes → Bytes) where
  unfoldable pub build_tsig_query : ℕ → Text → ℕ → Text → Bytes → ℕ → ℕ → Bytes → Result Bytes
  build_tsig_query qid qname qtype key_name secret when fudge authority = do
    head ← build_header qid 0x0100 1 0 (if is_empty authority then 0 else 1) 1
    question ← question_wire qname qtype
    let base = head ++ question ++ authority
    signed ← patch_arcount base 1
    vars ← tsig_variables key_name algorithm_wire when fudge 0 []
    let mac = hmac secret (signed ++ vars)
    rr ← tsig_rr key_name when fudge mac qid 0 []
    ok (base ++ rr)

  -- `reference_request_mac`
  unfoldable pub reference_request_mac :
      Text → ℕ → ℕ → ℕ → Bytes → Text → Bytes → ℕ → ℕ → ℕ → Result Bytes
  reference_request_mac qname qtype qclass flags authority key_name secret when fudge qid = do
    name ← encode_name qname
    t ← pack_h qtype
    c ← pack_h qclass
    head ← build_header qid flags 1 0 (if is_empty authority then 0 else 1) 1
    let base = head ++ name ++ t ++ c ++ authority
    signed ← patch_arcount base 1
    vars ← tsig_variables key_name algorithm_wire when fudge 0 []
    ok (hmac secret (signed ++ vars))

unfoldable pub build_plain_query : ℕ → Text → ℕ → Bool → Result Bytes
unfolding question_wire
build_plain_query qid qname qtype rd = do
  head ← build_header qid (if rd then 0x0100 else 0) 1 0 0 0
  question ← question_wire qname qtype
  ok (head ++ question)

-- A record of a response.
pub record Rr : Type 0 where
  pub name : Text
  pub rtype : ℕ
  pub rclass : ℕ
  pub ttl : ℕ
  pub rdata : Bytes

-- One round of `_parse_rrs`: the record and the offset behind it. Nothing is checked: a slice past the
-- end is shorter.
unfoldable pub parse_rr : Bytes → ℕ → Result (Rr × ℕ × ℕ)
parse_rr buf off = do
  (name, off2) ← decode_name buf off
  (rtype, rclass, ttl, rdlen) ← unpack_hhih (slice buf off2 (off2 + 10))
  let rstart = off2 + 10
  ok (
    record {
      name = name;
      rtype = rtype;
      rclass = rclass;
      ttl = ttl;
      rdata = slice buf rstart (rstart + rdlen);
    },
    rstart,
    rdlen,
  )

-- `_parse_rrs`
unfoldable pub parse_rrs : ℕ → Bytes → ℕ → Result (List Rr × ℕ)
parse_rrs zero buf off = ok ([], off)
parse_rrs (suc n) buf off = do
  (rr, rstart, rdlen) ← parse_rr buf off
  (rrs, end) ← parse_rrs n buf (rstart + rdlen)
  ok (rr ∷ rrs, end)

abbrev pub Seen : Type 0
Seen = Option (Tsig × ℕ)

abbrev see_tsig : Bytes → ℕ → Rr → ℕ → ℕ → Seen → Result Seen
see_tsig buf start rr rstart rdlen seen =
    if rr.rtype == type_tsig
    then (do
      rdata ← parse_tsig_rdata buf rstart rdlen
      ok (some (record { name = rr.name; rdata = rdata }, start)))
    else ok seen

-- The loop over the additional section: the last TSIG record counts.
unfoldable pub parse_additional : ℕ → Bytes → ℕ → Seen → Result (List Rr × Seen)
parse_additional zero buf off seen = ok ([], seen)
parse_additional (suc n) buf off seen = do
  (rr, rstart, rdlen) ← parse_rr buf off
  seen' ← see_tsig buf off rr rstart rdlen seen
  (rrs, last) ← parse_additional n buf (rstart + rdlen) seen'
  ok (rr ∷ rrs, last)

pub record Message : Type 0 where
  pub id : ℕ
  pub flags : ℕ
  pub qname : Text
  pub qtype : ℕ
  pub answers : List Rr
  pub authority : List Rr
  pub additionals : List Rr
  pub tsig : Seen
  pub raw : Bytes
  pub arcount : ℕ
  pub question_end : ℕ

-- `rcode`, `tc` and `aa` of the returned dictionary
abbrev pub rcode : Message → ℕ
rcode m = m.flags % 16

abbrev pub tc : Message → Bool
tc m = m.flags / 2 ^ 9 % 2 == 1

abbrev pub aa : Message → Bool
aa m = m.flags / 2 ^ 10 % 2 == 1

unfoldable pub parse_message : Bytes → Result Message
parse_message buf = do
  (qid, flags, qd, an, ns, ar) ← unpack_header (take 12 buf)
  (qname, at_type) ← decode_name buf 12
  (qtype, qclass) ← unpack_hh (slice buf at_type (at_type + 4))
  (answers, at_authority) ← parse_rrs an buf (at_type + 4)
  (authority, at_additional) ← parse_rrs ns buf at_authority
  (additionals, tsig) ← parse_additional ar buf at_additional none
  ok (record {
    id = qid;
    flags = flags;
    qname = qname;
    qtype = qtype;
    answers = answers;
    authority = authority;
    additionals = additionals;
    tsig = tsig;
    raw = buf;
    arcount = ar;
    question_end = at_type + 4;
  })

-- `_signed_base`, at the offset of the TSIG record
unfoldable pub signed_base : Message → ℕ → Result Bytes
signed_base msg offset = patch_arcount (take offset msg.raw) msg.arcount

module _ (hmac : Bytes → Bytes → Bytes) where
  -- `verify_response_mac`, at the TSIG entry of the message and its offset
  unfoldable pub verify_response_mac : Message → Tsig → ℕ → Bytes → Bytes → Text → Result Bytes
  verify_response_mac msg t offset secret prior_mac key_name = do
    size ← pack_h (length prior_mac)
    base ← signed_base msg offset
    vars ← tsig_variables key_name algorithm_wire t.time t.fudge t.error t.other
    raise_if (not (text_eq (hmac secret (size ++ prior_mac ++ base ++ vars)) t.mac)) assertion_error
    ok t.mac

unfoldable pub soa_serial : Bytes → Result ℕ
soa_serial rdata = do
  (mname, at_rname) ← decode_name rdata 0
  (rname, p) ← decode_name rdata at_rname
  unpack_i (slice rdata p (p + 4))
