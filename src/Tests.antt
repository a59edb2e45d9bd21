-- ===== src/Tests.antt =====
-- Runs of the theorems on the codec and the signing of transfers at concrete inputs.
pub mod Store
pub mod Access
pub mod Publish
pub mod Handlers
pub mod Service
use ab_bedd4c0e_tsig_bugfix.Prelude.{
  ℕ, ◌+◌, ◌%◌, ◌<◌, ◌≡◌, ◌≢◌, refl, true, none, some, List, [], ◌∷◌, ◌++◌, arith, length, ◌↔◌,
}
use ab_bedd4c0e_tsig_bugfix.Errors.{ok, err, out_of_fuel, ◌>>=◌}
use ab_bedd4c0e_tsig_bugfix.Text.{
  Text, Bytes, codes, text_eq, lower, lower_char, rstrip_dots, split_dots,
}
use ab_bedd4c0e_tsig_bugfix.Serial.{compare, is_forward, equal, modulus, half}
use ab_bedd4c0e_tsig_bugfix.Serial.Order.{
  Means, distance, compare-Means, is_forward_iff, compare-equal_iff,
}
use ab_bedd4c0e_tsig_bugfix.Wire.Bytes.{pack_h, pack_i, pack_hhih, pack_hih, pack_hhh}
use ab_bedd4c0e_tsig_bugfix.Wire.Names.{encode_name, encode_labels, encode_label, decode_name}
use ab_bedd4c0e_tsig_bugfix.Wire.Names.Ends.{IsRead, decode_name_ends, decode_name_bounds}
use ab_bedd4c0e_tsig_bugfix.Wire.Names.RoundTrip.{normal, decode_name-encode_name}
use ab_bedd4c0e_tsig_bugfix.Wire.Tsig.{
  algorithm_wire, build_header, patch_arcount, pack_time, parse_tsig_rdata, tsig_rdata,
  tsig_variables, tsig_rr, append_tsig,
}
use ab_bedd4c0e_tsig_bugfix.Wire.Tsig.Reading.{rdata_read, parse_tsig_rdata-tsig_rdata}
use ab_bedd4c0e_tsig_bugfix.Wire.Mac.{sign_response, prior_mac_wire}
use ab_bedd4c0e_tsig_bugfix.Client.{question_wire, soa_authority, build_tsig_query, Message}
use ab_bedd4c0e_tsig_bugfix.Client.Authority.{authority_of}
use ab_bedd4c0e_tsig_bugfix.Client.Accepted.{IsAccepted, signed_query-IsAccepted}
use ab_bedd4c0e_tsig_bugfix.Client.Verified.{IsVerified, sign_response-IsVerified}
use ab_bedd4c0e_tsig_bugfix.Server.Packer.{frame, rr_batches}
use ab_bedd4c0e_tsig_bugfix.Server.Packer.Batches.{flatten, AllFilled, AllFit, rr_batches_lem}
use ab_bedd4c0e_tsig_bugfix.Server.Stream.{Session, send_indexed, send_from, stream_signed_transfer}
use ab_bedd4c0e_tsig_bugfix.Server.Stream.Chain.{
  frames, signed_after, chain, stream_signed_transfer-chain, stream_signed_transfer-single,
  IsSwapped, middle_is_not_signed,
}

-- A digest that depends on the key and on the block.
abbrev sum : Bytes → ℕ
sum [] = 0
sum (b ∷ bs) = b + sum bs

abbrev pub digest : Bytes → Bytes → Bytes
digest key block = (sum key % 256) ∷ (sum block % 256) ∷ []

abbrev zone_name : Text
zone_name = codes "Example."

abbrev zone_wire : Bytes
zone_wire = 7 ∷ codes "example" ++ 0 ∷ []

abbrev key_name : Text
key_name = codes "K1"

abbrev secret : Bytes
secret = 1 ∷ 2 ∷ 3 ∷ []

abbrev auth_bytes : Bytes
auth_bytes =
    7 ∷ 101 ∷ 120 ∷ 97 ∷ 109 ∷ 112 ∷ 108 ∷ 101 ∷ 0 ∷ 0 ∷ 6 ∷ 0 ∷ 1 ∷ 0 ∷ 0 ∷ 14 ∷ 16 ∷ 0 ∷ 38 ∷ 7
    ∷ 101 ∷ 120 ∷ 97 ∷ 109 ∷ 112 ∷ 108 ∷ 101 ∷ 0 ∷ 7 ∷ 101 ∷ 120 ∷ 97 ∷ 109 ∷ 112 ∷ 108 ∷ 101 ∷ 0
    ∷ 0 ∷ 0 ∷ 0 ∷ 5 ∷ 0 ∷ 0 ∷ 28 ∷ 32 ∷ 0 ∷ 0 ∷ 14 ∷ 16 ∷ 0 ∷ 18 ∷ 117 ∷ 0 ∷ 0 ∷ 0 ∷ 14 ∷ 16 ∷ []

abbrev query_bytes : Bytes
query_bytes =
    0 ∷ 7 ∷ 1 ∷ 0 ∷ 0 ∷ 1 ∷ 0 ∷ 0 ∷ 0 ∷ 1 ∷ 0 ∷ 1 ∷ 7 ∷ 101 ∷ 120 ∷ 97 ∷ 109 ∷ 112 ∷ 108 ∷ 101 ∷ 0
    ∷ 0 ∷ 251 ∷ 0 ∷ 1 ∷ 7 ∷ 101 ∷ 120 ∷ 97 ∷ 109 ∷ 112 ∷ 108 ∷ 101 ∷ 0 ∷ 0 ∷ 6 ∷ 0 ∷ 1 ∷ 0 ∷ 0 ∷ 14
    ∷ 16 ∷ 0 ∷ 38 ∷ 7 ∷ 101 ∷ 120 ∷ 97 ∷ 109 ∷ 112 ∷ 108 ∷ 101 ∷ 0 ∷ 7 ∷ 101 ∷ 120 ∷ 97 ∷ 109 ∷ 112
    ∷ 108 ∷ 101 ∷ 0 ∷ 0 ∷ 0 ∷ 0 ∷ 5 ∷ 0 ∷ 0 ∷ 28 ∷ 32 ∷ 0 ∷ 0 ∷ 14 ∷ 16 ∷ 0 ∷ 18 ∷ 117 ∷ 0 ∷ 0 ∷ 0
    ∷ 14 ∷ 16 ∷ 2 ∷ 107 ∷ 49 ∷ 0 ∷ 0 ∷ 250 ∷ 0 ∷ 255 ∷ 0 ∷ 0 ∷ 0 ∷ 0 ∷ 0 ∷ 31 ∷ 11 ∷ 104 ∷ 109 ∷ 97
    ∷ 99 ∷ 45 ∷ 115 ∷ 104 ∷ 97 ∷ 50 ∷ 53 ∷ 54 ∷ 0 ∷ 0 ∷ 0 ∷ 101 ∷ 83 ∷ 241 ∷ 0 ∷ 1 ∷ 44 ∷ 0 ∷ 2 ∷ 6
    ∷ 82 ∷ 0 ∷ 7 ∷ 0 ∷ 0 ∷ 0 ∷ 0 ∷ []

abbrev session : Session
session = record {
  secret = secret;
  key_name = key_name;
  qid = 7;
  request_mac = 9 ∷ 9 ∷ [];
  when = 1700000000;
}

compare-Means_example : Means (compare 4294967290 3) (distance 4294967290 3)
compare-Means_example = compare-Means 4294967290 3

is_forward_iff_example :
    ((is_forward 4294967290 ((4294967290 + 10) % modulus)).0 ≡ true) ↔ ((0 < 10) × (10 < half))
is_forward_iff_example = is_forward_iff 4294967290 10 (omega arith)

-- A pointer to itself.
decode_name_ends_example : decode_name (192 ∷ 0 ∷ []) 0 ≢ err out_of_fuel
decode_name_ends_example = decode_name_ends (192 ∷ 0 ∷ []) 0

decode_name_bounds_example :
    IsRead (1 ∷ 97 ∷ 0 ∷ 192 ∷ 0 ∷ []) 3 (decode_name (1 ∷ 97 ∷ 0 ∷ 192 ∷ 0 ∷ []) 3)
decode_name_bounds_example = decode_name_bounds (1 ∷ 97 ∷ 0 ∷ 192 ∷ 0 ∷ []) 3

encode_name-zone : encode_name zone_name ≡ ok zone_wire
unfolding encode_name encode_labels encode_label text_eq lower lower_char rstrip_dots split_dots
encode_name-zone = refl

decode_name-encode_name_example :
    decode_name ((5 ∷ 6 ∷ []) ++ zone_wire ++ 8 ∷ []) 2
    ≡ ok (normal zone_name, 2 + length zone_wire)
decode_name-encode_name_example =
    decode_name-encode_name zone_name zone_wire (5 ∷ 6 ∷ []) (8 ∷ []) encode_name-zone

tsig_rdata-layout_run :
    tsig_rdata algorithm_wire 1700000000 300 (1 ∷ 2 ∷ []) 7 0 []
    ≡ ok (
        algorithm_wire
        ++ 0 ∷ 0 ∷ 101 ∷ 83 ∷ 241 ∷ 0 ∷ 1 ∷ 44 ∷ 0 ∷ 2 ∷ 1 ∷ 2 ∷ 0 ∷ 7 ∷ 0 ∷ 0 ∷ 0 ∷ 0 ∷ [])
unfolding tsig_rdata pack_time pack_h pack_hih pack_hhh
tsig_rdata-layout_run = refl

parse_tsig_rdata-tsig_rdata_example :
    parse_tsig_rdata
      ((4 ∷ [])
        ++ (algorithm_wire
            ++ 0 ∷ 0 ∷ 101 ∷ 83 ∷ 241 ∷ 0 ∷ 1 ∷ 44 ∷ 0 ∷ 2 ∷ 1 ∷ 2 ∷ 0 ∷ 7 ∷ 0 ∷ 0 ∷ 0 ∷ 0 ∷ [])
        ++ 5 ∷ [])
      1
      31
    ≡ ok (rdata_read 1700000000 300 (1 ∷ 2 ∷ []) 7 0 [])
parse_tsig_rdata-tsig_rdata_example =
    parse_tsig_rdata-tsig_rdata 1700000000 300 (1 ∷ 2 ∷ []) 7 0 []
      (algorithm_wire
        ++ 0 ∷ 0 ∷ 101 ∷ 83 ∷ 241 ∷ 0 ∷ 1 ∷ 44 ∷ 0 ∷ 2 ∷ 1 ∷ 2 ∷ 0 ∷ 7 ∷ 0 ∷ 0 ∷ 0 ∷ 0 ∷ [])
      (4 ∷ []) (5 ∷ []) tsig_rdata-layout_run

authority_of-auth : authority_of zone_name (some 5) ≡ ok auth_bytes
unfolding authority_of soa_authority encode_name encode_labels encode_label text_eq lower lower_char
    rstrip_dots split_dots pack_h pack_i pack_hhih
authority_of-auth = refl

build_tsig_query-query :
    build_tsig_query digest 7 zone_name 251 key_name secret 1700000000 300 auth_bytes
    ≡ ok query_bytes
unfolding build_tsig_query build_header question_wire patch_arcount tsig_variables tsig_rr pack_time
    tsig_rdata encode_name encode_labels encode_label text_eq lower lower_char rstrip_dots
    split_dots pack_h pack_i pack_hhih pack_hih pack_hhh
build_tsig_query-query = refl

signed_query-IsAccepted_example :
    IsAccepted digest 7 zone_name 251 key_name secret 1700000000 300 (some 5) query_bytes
signed_query-IsAccepted_example =
    signed_query-IsAccepted digest 7 zone_name 251 key_name secret 1700000000 300 (some 5)
      auth_bytes query_bytes authority_of-auth build_tsig_query-query

rr_batches_lem_example :
    let bs = rr_batches (1 ∷ []) ((1 ∷ 2 ∷ 3 ∷ []) ∷ (4 ∷ 5 ∷ []) ∷ (6 ∷ []) ∷ []) 18 2 in
    (flatten bs ≡ (1 ∷ 2 ∷ 3 ∷ []) ∷ (4 ∷ 5 ∷ []) ∷ (6 ∷ []) ∷ []) × AllFilled bs × AllFit 16 13 bs
rr_batches_lem_example =
    rr_batches_lem (1 ∷ []) (1 ∷ 2 ∷ 3 ∷ []) ((4 ∷ 5 ∷ []) ∷ (6 ∷ []) ∷ []) 18 2

-- Three messages, each a header alone.
abbrev plain : ℕ → Bytes
plain id = 0 ∷ id ∷ 132 ∷ 0 ∷ 0 ∷ 0 ∷ 0 ∷ 0 ∷ 0 ∷ 0 ∷ 0 ∷ 0 ∷ []

abbrev sent_frames : List Bytes
sent_frames =
    (0 ∷ 57 ∷ 0 ∷ 1 ∷ 132 ∷ 0 ∷ 0 ∷ 0 ∷ 0 ∷ 0 ∷ 0 ∷ 0 ∷ 0 ∷ 1 ∷ 2 ∷ 107 ∷ 49 ∷ 0 ∷ 0 ∷ 250 ∷ 0 ∷ 255
      ∷ 0 ∷ 0 ∷ 0 ∷ 0 ∷ 0 ∷ 31 ∷ 11 ∷ 104 ∷ 109 ∷ 97 ∷ 99 ∷ 45 ∷ 115 ∷ 104 ∷ 97 ∷ 50 ∷ 53 ∷ 54 ∷ 0
      ∷ 0 ∷ 0 ∷ 101 ∷ 83 ∷ 241 ∷ 0 ∷ 1 ∷ 44 ∷ 0 ∷ 2 ∷ 6 ∷ 202 ∷ 0 ∷ 7 ∷ 0 ∷ 0 ∷ 0 ∷ 0 ∷ [])
    ∷ (0 ∷ 12 ∷ 0 ∷ 2 ∷ 132 ∷ 0 ∷ 0 ∷ 0 ∷ 0 ∷ 0 ∷ 0 ∷ 0 ∷ 0 ∷ 0 ∷ [])
    ∷ (0 ∷ 57 ∷ 0 ∷ 3 ∷ 132 ∷ 0 ∷ 0 ∷ 0 ∷ 0 ∷ 0 ∷ 0 ∷ 0 ∷ 0 ∷ 1 ∷ 2 ∷ 107 ∷ 49 ∷ 0 ∷ 0 ∷ 250 ∷ 0
        ∷ 255 ∷ 0 ∷ 0 ∷ 0 ∷ 0 ∷ 0 ∷ 31 ∷ 11 ∷ 104 ∷ 109 ∷ 97 ∷ 99 ∷ 45 ∷ 115 ∷ 104 ∷ 97 ∷ 50 ∷ 53
        ∷ 54 ∷ 0 ∷ 0 ∷ 0 ∷ 101 ∷ 83 ∷ 241 ∷ 0 ∷ 1 ∷ 44 ∷ 0 ∷ 2 ∷ 6 ∷ 138 ∷ 0 ∷ 7 ∷ 0 ∷ 0 ∷ 0 ∷ 0
        ∷ [])
    ∷ []

sent-frames :
    stream_signed_transfer digest session (plain 1) ((plain 2 ∷ []) ++ plain 3 ∷ [])
    ≡ ok sent_frames
unfolding stream_signed_transfer send_from send_indexed sign_response frame prior_mac_wire
    append_tsig tsig_rr patch_arcount tsig_variables pack_time tsig_rdata encode_name encode_labels
    encode_label text_eq lower lower_char rstrip_dots split_dots pack_h pack_i pack_hhih pack_hih
    pack_hhh
sent-frames = refl

-- Another message in the middle, with other records.
abbrev forged : Bytes
forged = plain 2 ++ codes "forged"

forged-framed : frames (forged ∷ []) ≡ ok ((0 ∷ 18 ∷ forged) ∷ [])
unfolding frame pack_h
forged-framed = refl

stream_signed_transfer-chain_example :
    stream_signed_transfer digest session (plain 1) ((plain 2 ∷ []) ++ plain 3 ∷ [])
    ≡ chain digest session (plain 1) (plain 2 ∷ []) (plain 3)
stream_signed_transfer-chain_example =
    stream_signed_transfer-chain digest session (plain 1) (plain 2 ∷ []) (plain 3)

middle_is_not_signed_example :
    IsSwapped digest session (plain 1) (forged ∷ []) (plain 3) ((0 ∷ 18 ∷ forged) ∷ []) sent_frames
middle_is_not_signed_example =
    middle_is_not_signed digest session (plain 1) (plain 3) (plain 2 ∷ []) (forged ∷ [])
      ((0 ∷ 18 ∷ forged) ∷ []) sent_frames sent-frames forged-framed

abbrev signed_wire : Bytes
signed_wire =
    0 ∷ 1 ∷ 132 ∷ 0 ∷ 0 ∷ 0 ∷ 0 ∷ 0 ∷ 0 ∷ 0 ∷ 0 ∷ 1 ∷ 2 ∷ 107 ∷ 49 ∷ 0 ∷ 0 ∷ 250 ∷ 0 ∷ 255 ∷ 0 ∷ 0
    ∷ 0 ∷ 0 ∷ 0 ∷ 31 ∷ 11 ∷ 104 ∷ 109 ∷ 97 ∷ 99 ∷ 45 ∷ 115 ∷ 104 ∷ 97 ∷ 50 ∷ 53 ∷ 54 ∷ 0 ∷ 0 ∷ 0
    ∷ 101 ∷ 83 ∷ 241 ∷ 0 ∷ 1 ∷ 44 ∷ 0 ∷ 2 ∷ 6 ∷ 202 ∷ 0 ∷ 7 ∷ 0 ∷ 0 ∷ 0 ∷ 0 ∷ []

sign_response-plain :
    sign_response digest session.secret
      (plain 1)
      session.key_name
      session.request_mac
      1700000000
      300
      7
      0
      0
      []
    ≡ ok (signed_wire, 6 ∷ 202 ∷ [])
unfolding sign_response prior_mac_wire append_tsig tsig_rr patch_arcount tsig_variables pack_time
    tsig_rdata encode_name encode_labels encode_label text_eq lower lower_char rstrip_dots
    split_dots pack_h pack_i pack_hhih pack_hih pack_hhh
sign_response-plain = refl

-- The signed message as the client has parsed it.
abbrev signed_message : Message
signed_message = record {
  id = 1;
  flags = 33792;
  qname = [];
  qtype = 0;
  answers = [];
  authority = [];
  additionals = [];
  tsig = none;
  raw = signed_wire;
  arcount = 1;
  question_end = 12;
}

sign_response-IsVerified_example :
    IsVerified digest session.secret
      (plain 1)
      session.key_name
      session.request_mac
      1700000000
      300
      7
      0
      []
      signed_message
      (6 ∷ 202 ∷ [])
sign_response-IsVerified_example =
    sign_response-IsVerified digest session.secret (plain 1) session.key_name session.request_mac
      1700000000 300 7 0 0 [] signed_wire (6 ∷ 202 ∷ []) signed_message (omega arith)
      sign_response-plain refl refl
