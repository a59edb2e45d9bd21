-- ===== src/Client/Record.antt =====
-- The TSIG record of a signed response, as `parse_message` of app/dnsclient.py reads it.
use ab_bedd4c0e_tsig_bugfix.Prelude.{
  ℕ, ◌+◌, ◌≤◌, ◌≡◌, refl, ◌∙◌, ◌++◌, [], ◌∷◌, append-nil, arith, none, some, length, drop, slice,
  drop-of_drop, slice-of_drop, length-append, length-of_drop,
}
use ab_bedd4c0e_tsig_bugfix.Errors.{ok}
use ab_bedd4c0e_tsig_bugfix.Text.{Text, Bytes}
use ab_bedd4c0e_tsig_bugfix.Wire.Bytes.{unpack_hhih-be}
use ab_bedd4c0e_tsig_bugfix.Wire.Names.RoundTrip.{decode_name-at, normal}
use ab_bedd4c0e_tsig_bugfix.Wire.Tsig.{type_tsig, class_any}
use ab_bedd4c0e_tsig_bugfix.Wire.Tsig.Reading.{rdata_layout, rdata_read, parse_tsig_rdata-at}
use ab_bedd4c0e_tsig_bugfix.Wire.Query.{Tsig}
use ab_bedd4c0e_tsig_bugfix.Wire.Query.Reading.{fixed_part, IsTsigRr}
use ab_bedd4c0e_tsig_bugfix.Client.{Rr, parse_rr, parse_additional}

-- A TSIG record that was written at an offset, read there by the client.
module _ (key_name : Text) (when fudge : ℕ) (mac : Bytes) (orig_id error : ℕ) (other rr : Bytes)
    (r : IsTsigRr key_name (rdata_layout when fudge mac orig_id error other) rr) (buf : Bytes)
    (off : ℕ) (at : drop off buf ≡ rr) (inside : off ≤ length buf) where
  abbrev rdata : Bytes
  rdata = rdata_layout when fudge mac orig_id error other

  abbrev rstart : ℕ
  rstart = off + length r.name_wire + 10

  at_name :
      drop off buf
      ≡ r.name_wire ++ (fixed_part type_tsig class_any 0 (length rdata) ++ (rdata ++ []))
  at_name = at ∙ r.layout ∙ simp append-nil

  at_fixed :
      drop (off + length r.name_wire) buf
      ≡ fixed_part type_tsig class_any 0 (length rdata) ++ (rdata ++ [])
  at_fixed = drop-of_drop off (length r.name_wire) buf r.name_wire _ at_name refl

  at_rdata : drop rstart buf ≡ rdata ++ []
  at_rdata =
      drop-of_drop (off + length r.name_wire) 10 buf
        (fixed_part type_tsig class_any 0 (length rdata)) _ at_fixed refl

  whole : rstart ≤ length buf
  whole = omega (
    arith,
    length-of_drop off buf _ at_name inside,
    length-append {0} r.name_wire
        (fixed_part type_tsig class_any 0 (length rdata) ++ (rdata ++ [])),
  )

  abbrev pub the_rr : Rr
  the_rr = record {
    name = normal key_name;
    rtype = type_tsig;
    rclass = class_any;
    ttl = 0;
    rdata = slice buf rstart (rstart + length rdata);
  }

  abbrev pub entry_of : Tsig
  entry_of = record {
    name = normal key_name;
    rdata = rdata_read when fudge mac orig_id error other;
  }

  parse_rr-tsig : parse_rr buf off ≡ ok (the_rr, rstart, length rdata)
  unfolding parse_rr
  parse_rr-tsig =
      rw
        (
          decode_name-at key_name r.name_wire buf _ off r.encoded at_name inside,
          slice-of_drop buf (fixed_part type_tsig class_any 0 (length rdata)) _
              (off + length r.name_wire) (off + length r.name_wire + 10) at_fixed refl,
          unpack_hhih-be,
        )
        refl

  pub parse_additional-tsig :
      parse_additional 1 buf off none ≡ ok (the_rr ∷ [], some (entry_of, off))
  unfolding parse_additional
  parse_additional-tsig =
      rw
        (
          parse_rr-tsig,
          parse_tsig_rdata-at when fudge mac orig_id error other buf [] rstart at_rdata whole
              (length rdata) refl,
        )
        refl
