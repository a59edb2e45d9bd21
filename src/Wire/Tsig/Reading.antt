-- ===== src/Wire/Tsig/Reading.antt =====
-- `parse_tsig_rdata` reads what `_tsig_rdata` writes.
use ab_bedd4c0e_tsig_bugfix.Prelude.{
  ℕ, ◌+◌, ◌*◌, ◌/◌, ◌%◌, ◌^◌, ◌≤◌, ◌≡◌, refl, ◌∙◌, ◌++◌, append_assoc, arith, length, drop,
  drop-of_drop, slice-of_drop, le→ltb, eq→==, length-append, ap, drop-length,
}
use ab_bedd4c0e_tsig_bugfix.Errors.{ok}
use ab_bedd4c0e_tsig_bugfix.Text.{Text, Bytes, codes, split_dots, rstrip_dots, lower, lower_char}
use ab_bedd4c0e_tsig_bugfix.Wire.Bytes.{
  be16, be32, pack_h, pack_hih, pack_hhh, unpack_h-be16, unpack_hih-be, unpack_hhh-be,
}
use ab_bedd4c0e_tsig_bugfix.Wire.Names.{encode_name}
use ab_bedd4c0e_tsig_bugfix.Wire.Names.RoundTrip.{decode_name-at, normal}
use ab_bedd4c0e_tsig_bugfix.Wire.Tsig.{
  algorithm_wire, pack_time, tsig_rdata, parse_tsig_rdata, TsigRdata,
}

abbrev algorithm_name : Text
algorithm_name = codes "hmac-sha256."

encode_name-algorithm : encode_name algorithm_name ≡ ok algorithm_wire
unfolding encode_name split_dots rstrip_dots lower lower_char
encode_name-algorithm = refl

-- The fields of the record's data, one behind the other.
unfoldable pub rdata_layout : ℕ → ℕ → Bytes → ℕ → ℕ → Bytes → Bytes
rdata_layout when fudge mac orig_id error other =
    algorithm_wire
    ++ (be16 (when / 2 ^ 32 % 2 ^ 16) ++ be32 (when % 2 ^ 32) ++ be16 fudge)
    ++ be16 (length mac)
    ++ mac
    ++ (be16 orig_id ++ be16 error ++ be16 (length other))
    ++ other

pub tsig_rdata-layout :
    (when fudge : ℕ) (mac : Bytes) (orig_id error : ℕ) (other rdata : Bytes)
    → tsig_rdata algorithm_wire when fudge mac orig_id error other ≡ ok rdata
    → rdata ≡ rdata_layout when fudge mac orig_id error other
unfolding tsig_rdata rdata_layout pack_time pack_hih pack_h pack_hhh
tsig_rdata-layout when fudge mac orig_id error other rdata h = ground arith

pub length-rdata_layout :
    (when fudge : ℕ) (mac : Bytes) (orig_id error : ℕ) (other : Bytes)
    → length (rdata_layout when fudge mac orig_id error other) ≡ 29 + length mac + length other
unfolding rdata_layout
length-rdata_layout when fudge mac orig_id error other =
    omega (arith, length-append {0} (mac ++ tails_of) other, length-append {0} mac tails_of)
  where
    tails_of : Bytes
    tails_of = be16 orig_id ++ be16 error ++ be16 (length other)

time_48 : (when : ℕ) → when / 2 ^ 32 % 2 ^ 16 * 2 ^ 32 + when % 2 ^ 32 ≡ when % 2 ^ 48
time_48 when = omega arith

abbrev pub rdata_read : ℕ → ℕ → Bytes → ℕ → ℕ → Bytes → TsigRdata
rdata_read when fudge mac orig_id error other = record {
  algorithm = normal algorithm_name;
  time = when % 2 ^ 48;
  fudge = fudge;
  mac = mac;
  orig_id = orig_id;
  error = error;
  other = other;
}

module _ (when fudge : ℕ) (mac : Bytes) (orig_id error : ℕ) (other buf rest : Bytes) (off : ℕ)
    (at : drop off buf ≡ rdata_layout when fudge mac orig_id error other ++ rest)
    (inside : off ≤ length buf) where
  -- The fields in turn.
  abbrev times : Bytes
  times = be16 (when / 2 ^ 32 % 2 ^ 16) ++ be32 (when % 2 ^ 32) ++ be16 fudge

  abbrev tails : Bytes
  tails = be16 orig_id ++ be16 error ++ be16 (length other)

  at_alg :
      drop off buf
      ≡ algorithm_wire ++ (times ++ (be16 (length mac) ++ (mac ++ (tails ++ (other ++ rest)))))
  unfolding rdata_layout
  at_alg = at ∙ simp append_assoc

  at_time :
      drop (off + 13) buf ≡ times ++ (be16 (length mac) ++ (mac ++ (tails ++ (other ++ rest))))
  at_time = drop-of_drop off 13 buf algorithm_wire _ at_alg refl

  at_size : drop (off + 13 + 8) buf ≡ be16 (length mac) ++ (mac ++ (tails ++ (other ++ rest)))
  at_size = drop-of_drop (off + 13) 8 buf times _ at_time refl

  at_mac : drop (off + 13 + 8 + 2) buf ≡ mac ++ (tails ++ (other ++ rest))
  at_mac = drop-of_drop (off + 13 + 8) 2 buf (be16 (length mac)) _ at_size refl

  at_tail : drop (off + 13 + 8 + 2 + length mac) buf ≡ tails ++ (other ++ rest)
  at_tail = drop-of_drop (off + 13 + 8 + 2) (length mac) buf mac _ at_mac refl

  at_other : drop (off + 13 + 8 + 2 + length mac + 6) buf ≡ other ++ rest
  at_other = drop-of_drop (off + 13 + 8 + 2 + length mac) 6 buf tails _ at_tail refl

  -- Wherever the data of a TSIG record stand, the parser gives back what was packed there; of the
  -- time the low 48 bits.
  pub parse_tsig_rdata-at :
      (rdlen : ℕ)
      → rdlen ≡ length (rdata_layout when fudge mac orig_id error other)
      → parse_tsig_rdata buf off rdlen ≡ ok (rdata_read when fudge mac orig_id error other)
  unfolding parse_tsig_rdata
  parse_tsig_rdata-at rdlen size = rw (
    decode_name-at algorithm_name algorithm_wire buf _ off encode_name-algorithm at_alg inside,
    le→ltb (off + rdlen) (off + 13 + 8) (omega (arith, total)),
    slice-of_drop buf times _ (off + 13) (off + 13 + 8) at_time refl,
    unpack_hih-be,
    le→ltb (off + rdlen) (off + 13 + 8 + 2) (omega (arith, total)),
    slice-of_drop buf (be16 (length mac)) _ (off + 13 + 8) (off + 13 + 8 + 2) at_size refl,
    unpack_h-be16 (length mac),
    le→ltb (off + rdlen) (off + 13 + 8 + 2 + length mac + 6) (omega (arith, total)),
    slice-of_drop buf tails _ (off + 13 + 8 + 2 + length mac) (off + 13 + 8 + 2 + length mac + 6)
        at_tail refl,
    unpack_hhh-be,
    eq→== (off + 13 + 8 + 2 + length mac + 6 + length other) (off + rdlen) (omega (arith, total)),
    time_48 when,
    slice-of_drop buf mac _ (off + 13 + 8 + 2) (off + 13 + 8 + 2 + length mac) at_mac refl,
    slice-of_drop buf other rest (off + 13 + 8 + 2 + length mac + 6)
        (off + 13 + 8 + 2 + length mac + 6 + length other) at_other refl,
  )
    where
      total : rdlen ≡ 29 + length mac + length other
      total = size ∙ length-rdata_layout when fudge mac orig_id error other

-- Wherever the data that `_tsig_rdata` has packed stand in a buffer, the parser gives back what was
-- packed; of the time the low 48 bits.
pub parse_tsig_rdata-tsig_rdata :
    (when fudge : ℕ) (mac : Bytes) (orig_id error : ℕ) (other rdata pre rest : Bytes)
    → tsig_rdata algorithm_wire when fudge mac orig_id error other ≡ ok rdata
    → parse_tsig_rdata (pre ++ rdata ++ rest) (length pre) (length rdata)
      ≡ ok (rdata_read when fudge mac orig_id error other)
parse_tsig_rdata-tsig_rdata when fudge mac orig_id error other rdata pre rest h =
    parse_tsig_rdata-at when fudge mac orig_id error other (pre ++ rdata ++ rest) rest (length pre)
      (ap (drop (length pre)) (append_assoc pre rdata rest)
        ∙ drop-length pre (rdata ++ rest)
        ∙ ap (λ r. r ++ rest) (tsig_rdata-layout when fudge mac orig_id error other rdata h))
      (omega (arith, length-append {0} (pre ++ rdata) rest, length-append {0} pre rdata))
      (length rdata)
      (ap (length {A = ℕ}) (tsig_rdata-layout when fudge mac orig_id error other rdata h))
