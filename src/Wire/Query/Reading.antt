-- ===== src/Wire/Query/Reading.antt =====
-- The readers of one resource record: what they give where a record was written.
use ab_bedd4c0e_tsig_bugfix.Prelude.{
  ℕ, ◌+◌, ◌≤◌, ◌≡◌, refl, ap, ◌∙◌, ◌++◌, append_assoc, arith, length, drop, drop-of_drop,
  slice-of_drop, le→ltb, length-of_drop, length-append,
}
use ab_bedd4c0e_tsig_bugfix.Errors.{ok, >>=-eq-ok}
use ab_bedd4c0e_tsig_bugfix.Text.{Text, Bytes}
use ab_bedd4c0e_tsig_bugfix.Wire.Bytes.{be16, be32, pack_hhih, pack_hhih-inv, unpack_hhih-be}
use ab_bedd4c0e_tsig_bugfix.Wire.Names.{encode_name}
use ab_bedd4c0e_tsig_bugfix.Wire.Names.RoundTrip.{decode_name-at, normal}
use ab_bedd4c0e_tsig_bugfix.Wire.Tsig.{
  algorithm_wire, tsig_rdata, tsig_rr, parse_tsig_rdata, type_tsig, class_any,
}
use ab_bedd4c0e_tsig_bugfix.Wire.Tsig.Reading.{
  rdata_layout, tsig_rdata-layout, rdata_read, parse_tsig_rdata-at,
}
use ab_bedd4c0e_tsig_bugfix.Wire.Query.{RrHead, read_rr}

abbrev pub fixed_part : ℕ → ℕ → ℕ → ℕ → Bytes
fixed_part rtype rclass ttl rdlen = be16 rtype ++ be16 rclass ++ be32 ttl ++ be16 rdlen

-- A record that was written at an offset, read there.
pub read_rr-at :
    (name : Text) (w : Bytes) (rtype rclass ttl : ℕ) (rdata buf rest : Bytes) (off : ℕ)
    → encode_name name ≡ ok w
    → drop off buf ≡ w ++ (fixed_part rtype rclass ttl (length rdata) ++ (rdata ++ rest))
    → off ≤ length buf
    → read_rr buf off
      ≡ ok (record {
        owner = normal name;
        rtype = rtype;
        rstart = off + length w + 10;
        rdlen = length rdata;
      })
unfolding read_rr
read_rr-at name w rtype rclass ttl rdata buf rest off enc at inside = rw (
  decode_name-at name w buf _ off enc at inside,
  le→ltb (length buf) (off + length w + 10) (omega (arith, whole)),
  slice-of_drop buf (fixed_part rtype rclass ttl (length rdata)) _ (off + length w)
      (off + length w + 10) at_fixed refl,
  unpack_hhih-be,
  le→ltb (length buf) (off + length w + 10 + length rdata)
      (omega (arith, whole, length-append {0} rdata rest)),
)
  where
    at_fixed :
        drop (off + length w) buf ≡ fixed_part rtype rclass ttl (length rdata) ++ (rdata ++ rest)
    at_fixed = drop-of_drop off (length w) buf w _ at refl

    whole : length buf ≡ off + (length w + (10 + length (rdata ++ rest)))
    whole =
        length-of_drop off buf _ at inside
        ∙ ap (λ (k : ℕ). off + k)
            (length-append w (fixed_part rtype rclass ttl (length rdata) ++ (rdata ++ rest))
              ∙ omega arith)

-- The parts of a record, in the order in which they are read.
pub record_parts :
    (w fixed rdata rr rdata' : Bytes) (rtype rclass ttl : ℕ)
    → rdata ≡ rdata'
    → fixed ≡ fixed_part rtype rclass ttl (length rdata)
    → ok (w ++ fixed ++ rdata) ≡ ok rr
    → rr ≡ w ++ (fixed_part rtype rclass ttl (length rdata') ++ rdata')
record_parts w fixed rdata rr rdata' rtype rclass ttl i j k =
    cc (append_assoc w (fixed_part rtype rclass ttl (length rdata)) rdata)

-- What `append_tsig` and the client put behind a message.
pub record IsTsigRr (key_name : Text) (rdata rr : Bytes) : Type 0 where
  pub name_wire : Bytes
  pub encoded : encode_name key_name ≡ ok name_wire
  pub layout : rr ≡ name_wire ++ (fixed_part type_tsig class_any 0 (length rdata) ++ rdata)

pub tsig_rr-IsTsigRr :
    (key_name : Text) (when fudge : ℕ) (mac : Bytes) (orig_id error : ℕ) (other rr : Bytes)
    → tsig_rr key_name when fudge mac orig_id error other ≡ ok rr
    → IsTsigRr key_name (rdata_layout when fudge mac orig_id error other) rr
unfolding tsig_rr
tsig_rr-IsTsigRr key_name when fudge mac orig_id error other rr h =
    let (rd, e, h1) =
      >>=-eq-ok (tsig_rdata algorithm_wire when fudge mac orig_id error other) _ h in
    let (w, e', h2) = >>=-eq-ok (encode_name key_name) _ h1 in
    let (fx, e'', h3) = >>=-eq-ok (pack_hhih type_tsig class_any 0 (length rd)) _ h2 in
    record {
      name_wire = w;
      encoded = e';
      layout =
          record_parts w fx rd rr (rdata_layout when fudge mac orig_id error other) type_tsig
            class_any 0 (tsig_rdata-layout when fudge mac orig_id error other rd e)
            (pack_hhih-inv type_tsig class_any 0 (length rd) fx e'') h3;
    }

-- A TSIG record that was written at an offset, read there by the loop over the additional section.
module _ (key_name : Text) (when fudge : ℕ) (mac : Bytes) (orig_id error : ℕ) (other rr : Bytes)
    (built : tsig_rr key_name when fudge mac orig_id error other ≡ ok rr) (buf rest : Bytes)
    (off : ℕ) (at : drop off buf ≡ rr ++ rest) (inside : off ≤ length buf) where
  is_rr : IsTsigRr key_name (rdata_layout when fudge mac orig_id error other) rr
  is_rr = tsig_rr-IsTsigRr key_name when fudge mac orig_id error other rr built

  rdata_of : Bytes
  rdata_of = rdata_layout when fudge mac orig_id error other

  unfoldable pub tsig_head : RrHead
  unfolding is_rr rdata_of
  tsig_head = record {
    owner = normal key_name;
    rtype = type_tsig;
    rstart = off + length is_rr.name_wire + 10;
    rdlen = length rdata_of;
  }

  tsig_at :
      drop off buf
      ≡ is_rr.name_wire
        ++ (fixed_part type_tsig class_any 0 (length rdata_of) ++ (rdata_of ++ rest))
  unfolding rdata_of
  tsig_at = at ∙ ap (λ t. t ++ rest) is_rr.layout ∙ simp append_assoc

  pub read_rr-tsig : read_rr buf off ≡ ok tsig_head
  unfolding tsig_head
  read_rr-tsig =
      read_rr-at key_name is_rr.name_wire type_tsig class_any 0 rdata_of buf rest off is_rr.encoded
        tsig_at inside

  tsig_rr_size : length rr ≡ length is_rr.name_wire + (10 + length rdata_of)
  unfolding rdata_of
  tsig_rr_size = omega (
    arith,
    ap (length {A = ℕ}) is_rr.layout,
    length-append {0} is_rr.name_wire
        (fixed_part type_tsig class_any 0 (length rdata_of) ++ rdata_of),
  )

  pub tsig_ends : tsig_head.rstart + tsig_head.rdlen ≡ off + length rr
  unfolding tsig_head
  tsig_ends = omega (arith, tsig_rr_size)

  tsig_whole : length buf ≡ off + (length is_rr.name_wire + (10 + (length rdata_of + length rest)))
  tsig_whole = omega (
    arith,
    length-of_drop off buf _ tsig_at inside,
    length-append {0} is_rr.name_wire
        (fixed_part type_tsig class_any 0 (length rdata_of) ++ (rdata_of ++ rest)),
    length-append {0} rdata_of rest,
  )

  rdata_at : drop (off + length is_rr.name_wire + 10) buf ≡ rdata_of ++ rest
  rdata_at =
      drop-of_drop (off + length is_rr.name_wire) 10 buf
        (fixed_part type_tsig class_any 0 (length rdata_of)) (rdata_of ++ rest)
        (drop-of_drop off (length is_rr.name_wire) buf is_rr.name_wire _ tsig_at refl) refl

  pub parse_tsig_rdata-tsig :
      parse_tsig_rdata buf tsig_head.rstart tsig_head.rdlen
      ≡ ok (rdata_read when fudge mac orig_id error other)
  unfolding tsig_head
  parse_tsig_rdata-tsig =
      parse_tsig_rdata-at when fudge mac orig_id error other buf rest
        (off + length is_rr.name_wire + 10) (unfold rdata_of in rdata_at)
        (omega (arith, tsig_whole)) (length rdata_of) (unfold rdata_of in refl)
