-- ===== src/Wire/Query.antt =====
-- `parse_query` of app/dnswire.py.
pub mod Reading
use ab_bedd4c0e_tsig_bugfix.Prelude.{
  ℕ, zero, suc, ◌+◌, ◌/◌, ◌%◌, ◌^◌, Bool, true, false, ◌&&◌, ◌||◌, not, Option, none, some, ltb,
  leb, ◌==◌, if◌then◌else◌, length, take, slice,
}
use ab_bedd4c0e_tsig_bugfix.Errors.{Result, ok, err, wire_error, ◌>>=◌, ◌>>◌, raise_if, except_wire}
use ab_bedd4c0e_tsig_bugfix.Text.{Text, Bytes}
use ab_bedd4c0e_tsig_bugfix.Wire.Bytes.{unpack_header, unpack_hh, unpack_hhih, unpack_i}
use ab_bedd4c0e_tsig_bugfix.Wire.Names.{decode_name}
use ab_bedd4c0e_tsig_bugfix.Wire.Tsig.{TsigRdata, parse_tsig_rdata, type_soa, type_tsig}

-- The TSIG entry of a parsed message: the record's owner and its data.
pub record Tsig : Type 0 where
  pub name : Text
  pub rdata : TsigRdata
  pub open rdata use *

pub record Query : Type 0 where
  pub id : ℕ
  pub flags : ℕ
  pub qname : Text
  pub qtype : ℕ
  pub qclass : ℕ
  pub raw_question : Bytes
  pub tsig : Option Tsig
  pub tsig_offset : Option ℕ
  pub arcount : ℕ
  pub raw : Bytes
  pub client_soa_serial : Option ℕ

-- What both section loops read of a record: `rstart` and `rdlen` say where its data lie.
pub record RrHead : Type 0 where
  pub owner : Text
  pub rtype : ℕ
  pub rstart : ℕ
  pub rdlen : ℕ

unfoldable pub read_rr : Bytes → ℕ → Result RrHead
read_rr buf off = do
  (owner, off2) ← decode_name buf off
  raise_if (ltb (length buf) (off2 + 10)) wire_error
  (rtype, rclass, ttl, rdlen) ← unpack_hhih (slice buf off2 (off2 + 10))
  raise_if (ltb (length buf) (off2 + 10 + rdlen)) wire_error
  ok (record { owner = owner; rtype = rtype; rstart = off2 + 10; rdlen = rdlen })

-- The `try` block that looks for the client's serial in an SOA record.
unfoldable pub read_serial : Bytes → RrHead → Option ℕ → Result (Option ℕ)
read_serial buf rr serial = do
  (mname, at_rname) ← decode_name buf rr.rstart
  (rname, p) ← decode_name buf at_rname
  if leb (p + 20) (rr.rstart + rr.rdlen)
      then (do s ← unpack_i (slice buf p (p + 4)); ok (some s))
      else ok serial

abbrev client_serial : Bytes → RrHead → Option ℕ → Result (Option ℕ)
client_serial buf rr serial =
    if rr.rtype == type_soa && leb 22 rr.rdlen
    then except_wire (read_serial buf rr serial) serial
    else ok serial

-- `for _ in range(ns)`
unfoldable pub read_authority : ℕ → Bytes → ℕ → Option ℕ → Result (ℕ × Option ℕ)
read_authority zero buf off serial = ok (off, serial)
read_authority (suc n) buf off serial = do
  rr ← read_rr buf off
  serial' ← client_serial buf rr serial
  read_authority n buf (rr.rstart + rr.rdlen) serial'

-- A TSIG record, with the offset at which it starts.
abbrev pub Found : Type 0
Found = Option (Tsig × ℕ)

abbrev is_some : Found → Bool
is_some none = false
is_some (some _) = true

abbrev take_tsig : Bytes → ℕ → RrHead → Found → Result Found
take_tsig buf start rr found =
    if rr.rtype == type_tsig
    then (do
      raise_if (is_some found) wire_error
      rdata ← parse_tsig_rdata buf rr.rstart rr.rdlen
      ok (some (record { name = rr.owner; rdata = rdata }, start)))
    else ok found

-- `for _ in range(ar)`
unfoldable pub read_additional : ℕ → Bytes → ℕ → Found → Result (ℕ × Found)
read_additional zero buf off found = ok (off, found)
read_additional (suc n) buf off found = do
  rr ← read_rr buf off
  found' ← take_tsig buf off rr found
  read_additional n buf (rr.rstart + rr.rdlen) found'

abbrev found_tsig : Found → Option Tsig
found_tsig none = none
found_tsig (some (t, _)) = some t

abbrev found_offset : Found → Option ℕ
found_offset none = none
found_offset (some (_, off)) = some off

unfoldable pub parse_query : Bytes → Result Query
parse_query buf = do
  raise_if (ltb (length buf) 12) wire_error
  (qid, flags, qd, an, ns, ar) ← unpack_header (take 12 buf)
  raise_if (flags / 2 ^ 15 % 2 == 1) wire_error
  raise_if (not (qd == 1) || not (an == 0)) wire_error
  (qname, at_type) ← decode_name buf 12
  raise_if (ltb (length buf) (at_type + 4)) wire_error
  (qtype, qclass) ← unpack_hh (slice buf at_type (at_type + 4))
  let question_end = at_type + 4
  (at_additional, serial) ← read_authority ns buf question_end none
  (end, found) ← read_additional ar buf at_additional none
  raise_if (not (end == length buf)) wire_error
  ok (record {
    id = qid;
    flags = flags;
    qname = qname;
    qtype = qtype;
    qclass = qclass;
    raw_question = slice buf 12 question_end;
    tsig = found_tsig found;
    tsig_offset = found_offset found;
    arcount = ar;
    raw = buf;
    client_soa_serial = serial;
  })
