-- ===== src/Client/Authority.antt =====
-- The SOA record by which an IXFR client names its serial, as the server reads it.
use ab_bedd4c0e_tsig_bugfix.Prelude.{
  ℕ, ◌+◌, ◌≤◌, ◌<◌, ◌≡◌, refl, ap, ◌∙◌, ◌++◌, [], ◌∷◌, append_assoc, arith, length, drop,
  drop-of_drop, slice-of_drop, le→leb, length-of_drop, length-append, Option, none, some,
}
use ab_bedd4c0e_tsig_bugfix.Errors.{Result, ok, >>=-eq-ok}
use ab_bedd4c0e_tsig_bugfix.Text.{Text, Bytes}
use ab_bedd4c0e_tsig_bugfix.Wire.Bytes.{
  be32, pack_i, pack_i-inv, pack_hhih, pack_hhih-inv, unpack_i-be32,
}
use ab_bedd4c0e_tsig_bugfix.Wire.Names.{encode_name}
use ab_bedd4c0e_tsig_bugfix.Wire.Names.RoundTrip.{
  decode_name-at, normal, encode_name-IsEncoded, labels_wire,
}
use ab_bedd4c0e_tsig_bugfix.Wire.Tsig.{type_soa, class_in}
use ab_bedd4c0e_tsig_bugfix.Wire.Query.{RrHead, read_serial, read_authority}
use ab_bedd4c0e_tsig_bugfix.Wire.Query.Reading.{fixed_part, read_rr-at, record_parts}
use ab_bedd4c0e_tsig_bugfix.Client.{soa_authority}
use ab_bedd4c0e_tsig_bugfix.Client.Layout.{section_count, IsAuthority, IsAuthority-empty}

-- The authority section of a transfer query: none for AXFR, the client's SOA for IXFR.
unfoldable pub authority_of : Text → Option ℕ → Result Bytes
authority_of zone none = ok []
authority_of zone (some serial) = soa_authority zone serial

abbrev soa_tail : ℕ → Bytes
soa_tail serial = be32 serial ++ (be32 7200 ++ be32 3600 ++ be32 1209600 ++ be32 3600)

abbrev soa_rdata : Bytes → ℕ → Bytes
soa_rdata w serial = w ++ (w ++ soa_tail serial)

record IsSoa (zone : Text) (serial : ℕ) (auth : Bytes) : Type 0 where
  name_wire : Bytes
  encoded : encode_name zone ≡ ok name_wire
  layout :
      auth
      ≡ name_wire
        ++ (fixed_part type_soa class_in 3600 (length (soa_rdata name_wire serial))
            ++ soa_rdata name_wire serial)

soa_rdata-parts :
    (w s : Bytes) (serial : ℕ)
    → s ≡ be32 serial
    → w ++ w ++ s ++ be32 7200 ++ be32 3600 ++ be32 1209600 ++ be32 3600 ≡ soa_rdata w serial
soa_rdata-parts w s serial e = rw e (simp append_assoc)

soa_authority-IsSoa :
    (zone : Text) (serial : ℕ) (auth : Bytes)
    → soa_authority zone serial ≡ ok auth
    → IsSoa zone serial auth
unfolding soa_authority pack_i
soa_authority-IsSoa zone serial auth h =
    let (w, e, h1) = >>=-eq-ok (encode_name zone) _ h in
    let (s, e1, h2) = >>=-eq-ok (pack_i serial) _ h1 in
    let rd : Bytes = w ++ w ++ s ++ be32 7200 ++ be32 3600 ++ be32 1209600 ++ be32 3600 in
    let (fx, e2, h3) = >>=-eq-ok (pack_hhih type_soa class_in 3600 (length rd)) _ h2 in
    record {
      name_wire = w;
      encoded = e;
      layout =
          record_parts w fx rd auth (soa_rdata w serial) type_soa class_in 3600
            (soa_rdata-parts w s serial (pack_i-inv serial s e1))
            (pack_hhih-inv type_soa class_in 3600 (length rd) fx e2) h3;
    }

length-name_wire : (name : Text) (w : Bytes) → encode_name name ≡ ok w → 0 < length w
length-name_wire name w h =
    let e = encode_name-IsEncoded name w h in
    omega (arith, ap (length {A = ℕ}) e.wire, length-append {0} (labels_wire e.parts) (0 ∷ []))

section_count_one : (auth : Bytes) → 0 < length auth → section_count auth ≡ 1
section_count_one [] h = elim h [ ]
section_count_one (b ∷ bs) h = refl

module _ (zone : Text) (serial : ℕ) (auth : Bytes) (soa : IsSoa zone serial auth) where
  abbrev name_len : ℕ
  name_len = length soa.name_wire

  length-soa_rdata : length (soa_rdata soa.name_wire serial) ≡ name_len + (name_len + 20)
  length-soa_rdata = omega (
    arith,
    length-append {0} soa.name_wire (soa.name_wire ++ soa_tail serial),
    length-append {0} soa.name_wire (soa_tail serial),
  )

  length-auth : length auth ≡ name_len + (10 + (name_len + (name_len + 20)))
  length-auth = omega (
    arith,
    ap (length {A = ℕ}) soa.layout,
    length-append {0} soa.name_wire (
        fixed_part type_soa class_in 3600 (length (soa_rdata soa.name_wire serial))
        ++ soa_rdata soa.name_wire serial),
    length-soa_rdata,
  )

  module _ (buf rest : Bytes) (off : ℕ) (at : drop off buf ≡ auth ++ rest)
      (inside : off ≤ length buf) where
    abbrev data_start : ℕ
    data_start = off + name_len + 10

    abbrev soa_head : RrHead
    soa_head = record {
      owner = normal zone;
      rtype = type_soa;
      rstart = data_start;
      rdlen = length (soa_rdata soa.name_wire serial);
    }

    soa_at :
        drop off buf
        ≡ soa.name_wire
          ++ (fixed_part type_soa class_in 3600 (length (soa_rdata soa.name_wire serial))
              ++ (soa_rdata soa.name_wire serial ++ rest))
    soa_at = at ∙ ap (λ t. t ++ rest) soa.layout ∙ simp append_assoc

    whole : length buf ≡ off + (length auth + length rest)
    whole = omega (arith, length-of_drop off buf _ at inside, length-append {0} auth rest)

    data_at : drop data_start buf ≡ soa.name_wire ++ (soa.name_wire ++ (soa_tail serial ++ rest))
    data_at =
        drop-of_drop (off + name_len) 10 buf
          (fixed_part type_soa class_in 3600 (length (soa_rdata soa.name_wire serial))) _
          (drop-of_drop off name_len buf soa.name_wire _ soa_at refl) refl
        ∙ simp append_assoc

    rname_at : drop (data_start + name_len) buf ≡ soa.name_wire ++ (soa_tail serial ++ rest)
    rname_at = drop-of_drop data_start name_len buf soa.name_wire _ data_at refl

    serial_at :
        drop (data_start + name_len + name_len) buf
        ≡ be32 serial ++ ((be32 7200 ++ be32 3600 ++ be32 1209600 ++ be32 3600) ++ rest)
    serial_at = drop-of_drop (data_start + name_len) name_len buf soa.name_wire _ rname_at refl

    read_serial-soa : read_serial buf soa_head none ≡ ok (some serial)
    unfolding read_serial
    read_serial-soa = rw (
      decode_name-at zone soa.name_wire buf _ data_start soa.encoded data_at
          (omega (arith, whole, length-auth)),
      decode_name-at zone soa.name_wire buf _ (data_start + name_len) soa.encoded rname_at
          (omega (arith, whole, length-auth)),
      le→leb (data_start + name_len + name_len + 20)
          (data_start + length (soa_rdata soa.name_wire serial)) (omega (arith, length-soa_rdata)),
      slice-of_drop buf (be32 serial) _ (data_start + name_len + name_len)
          (data_start + name_len + name_len + 4) serial_at refl,
      unpack_i-be32,
    )

    read_authority-soa : read_authority 1 buf off none ≡ ok (off + length auth, some serial)
    unfolding read_authority
    read_authority-soa =
        rw
          (
            read_rr-at zone soa.name_wire type_soa class_in 3600 (soa_rdata soa.name_wire serial)
                buf rest off soa.encoded soa_at inside,
            le→leb 22 (length (soa_rdata soa.name_wire serial))
                (omega (arith, length-soa_rdata, length-name_wire zone soa.name_wire soa.encoded)),
            read_serial-soa,
          )
          (ap (λ (k : ℕ). ok (k, some serial)) (omega (arith, length-auth, length-soa_rdata)))

pub authority_of-IsAuthority :
    (zone : Text) (serial : Option ℕ) (auth : Bytes)
    → authority_of zone serial ≡ ok auth
    → IsAuthority auth serial
unfolding authority_of
authority_of-IsAuthority zone none auth h = let e : auth ≡ [] = cc in rw e IsAuthority-empty
authority_of-IsAuthority zone (some serial) auth h =
    let soa = soa_authority-IsSoa zone serial auth h in
    record {
      read = λ buf rest off at inside.
          rw (section_count_one auth (omega (arith, length-auth zone serial auth soa)))
            (read_authority-soa zone serial auth soa buf rest off at inside);
    }
