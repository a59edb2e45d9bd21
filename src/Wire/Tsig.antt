-- ===== src/Wire/Tsig.antt =====
-- The building blocks of messages of app/dnswire.py: headers, resource records, and the TSIG record
pub mod Reading
-- with its parser.
use ab_bedd4c0e_tsig_bugfix.Prelude.{
  ℕ, ◌+◌, ◌-◌, ◌*◌, ◌/◌, ◌%◌, ◌^◌, Bool, ◌&&◌, not, Option, none, some, List, [], ◌∷◌, ◌++◌, ltb,
  leb, ◌==◌, if◌then◌else◌, length, take, drop, slice,
}
use ab_bedd4c0e_tsig_bugfix.Errors.{Result, ok, err, wire_error, ◌>>=◌, ◌>>◌, raise_if}
use ab_bedd4c0e_tsig_bugfix.Text.{Text, Bytes, codes}
use ab_bedd4c0e_tsig_bugfix.Wire.Bytes.{
  pack_h, pack_hhih, pack_hih, pack_hhh, unpack_h, unpack_hih, unpack_hhh,
}
use ab_bedd4c0e_tsig_bugfix.Wire.Names.{encode_name, decode_name}

abbrev pub type_soa : ℕ
type_soa = 6

abbrev pub type_tsig : ℕ
type_tsig = 250

abbrev pub type_ixfr : ℕ
type_ixfr = 251

abbrev pub type_axfr : ℕ
type_axfr = 252

abbrev pub type_any : ℕ
type_any = 255

abbrev pub class_in : ℕ
class_in = 1

abbrev pub class_any : ℕ
class_any = 255

abbrev pub tsig_badsig : ℕ
tsig_badsig = 16

abbrev pub tsig_badkey : ℕ
tsig_badkey = 17

abbrev pub tsig_badtime : ℕ
tsig_badtime = 18

-- `_ALGORITHM_WIRE`
abbrev pub algorithm_wire : Bytes
algorithm_wire = 11 ∷ codes "hmac-sha256" ++ 0 ∷ []

-- `_u32`
unfoldable pub check_u32 : ℕ → Result ℕ
check_u32 v = if ltb v (2 ^ 32) then ok v else err wire_error

unfoldable pub pack_rr : Text → ℕ → ℕ → ℕ → Bytes → Result Bytes
unfolding check_u32
pack_rr name rtype rclass ttl rdata = do
  owner ← encode_name name
  ttl' ← check_u32 ttl
  fixed ← pack_hhih rtype rclass ttl' (length rdata)
  ok (owner ++ fixed ++ rdata)

unfoldable pub build_header : ℕ → ℕ → ℕ → ℕ → ℕ → ℕ → Result Bytes
build_header qid flags qd an ns ar = do
  x ← pack_hhh qid flags qd
  y ← pack_hhh an ns ar
  ok (x ++ y)

unfoldable pub patch_arcount : Bytes → ℕ → Result Bytes
patch_arcount msg arcount = do count ← pack_h arcount; ok (take 10 msg ++ count ++ drop 12 msg)

-- The 48-bit time and the fudge, as they stand in the record and in the digest.
unfoldable pub pack_time : ℕ → ℕ → Result Bytes
pack_time when fudge = pack_hih (when / 2 ^ 32 % 2 ^ 16) (when % 2 ^ 32) fudge

-- `_tsig_rdata`
unfoldable pub tsig_rdata : Bytes → ℕ → ℕ → Bytes → ℕ → ℕ → Bytes → Result Bytes
tsig_rdata alg_wire when fudge mac orig_id error other = do
  time ← pack_time when fudge
  size ← pack_h (length mac)
  tail ← pack_hhh orig_id error (length other)
  ok (alg_wire ++ time ++ size ++ mac ++ tail ++ other)

unfoldable pub tsig_variables : Text → Bytes → ℕ → ℕ → ℕ → Bytes → Result Bytes
tsig_variables key_name alg_wire when fudge error other = do
  time ← pack_time when fudge
  err_code ← pack_h error
  other_len ← pack_h (length other)
  let rdata_no_mac = alg_wire ++ time ++ err_code ++ other_len ++ other
  owner ← encode_name key_name
  fixed ← pack_hhih type_tsig class_any 0 (length rdata_no_mac)
  ok (owner ++ fixed ++ rdata_no_mac)

-- The record as `append_tsig` puts it behind a message.
unfoldable pub tsig_rr : Text → ℕ → ℕ → Bytes → ℕ → ℕ → Bytes → Result Bytes
tsig_rr key_name when fudge mac orig_id error other = do
  rdata ← tsig_rdata algorithm_wire when fudge mac orig_id error other
  owner ← encode_name key_name
  fixed ← pack_hhih type_tsig class_any 0 (length rdata)
  ok (owner ++ fixed ++ rdata)

abbrev arcount_of : Option ℕ → Bytes → Result ℕ
arcount_of none msg = unpack_h (slice msg 10 12)
arcount_of (some n) msg = ok n

unfoldable pub append_tsig : Bytes → Text → ℕ → ℕ → Bytes → ℕ → ℕ → Option ℕ → Bytes → Result Bytes
append_tsig msg key_name when fudge mac orig_id error arcount_before other = do
  before ← arcount_of arcount_before msg
  rr ← tsig_rr key_name when fudge mac orig_id error other
  head ← patch_arcount msg (before + 1)
  ok (head ++ rr)

-- The dictionary that `parse_tsig_rdata` returns.
pub record TsigRdata : Type 0 where
  pub algorithm : Text
  pub time : ℕ
  pub fudge : ℕ
  pub mac : Bytes
  pub orig_id : ℕ
  pub error : ℕ
  pub other : Bytes

unfoldable pub parse_tsig_rdata : Bytes → ℕ → ℕ → Result TsigRdata
parse_tsig_rdata buf off rdlen = do
  let end = off + rdlen
  (alg, at_time) ← decode_name buf off
  raise_if (ltb end (at_time + 8)) wire_error
  (hi, lo, fudge) ← unpack_hih (slice buf at_time (at_time + 8))
  let at_size = at_time + 8
  raise_if (ltb end (at_size + 2)) wire_error
  maclen ← unpack_h (slice buf at_size (at_size + 2))
  let at_mac = at_size + 2
  raise_if (ltb end (at_mac + maclen + 6)) wire_error
  let at_tail = at_mac + maclen
  (orig_id, error, otherlen) ← unpack_hhh (slice buf at_tail (at_tail + 6))
  let at_other = at_tail + 6
  raise_if (not (at_other + otherlen == end)) wire_error
  ok (record {
    algorithm = alg;
    time = hi * 2 ^ 32 + lo;
    fudge = fudge;
    mac = slice buf at_mac (at_mac + maclen);
    orig_id = orig_id;
    error = error;
    other = slice buf at_other (at_other + otherlen);
  })

-- `abs(now - tsig_time)`
abbrev pub apart : ℕ → ℕ → ℕ
apart a b = if ltb a b then b - a else a - b

abbrev pub max_fudge : ℕ
max_fudge = 300

unfoldable pub verify_tsig_time : ℕ → ℕ → ℕ → Bool
verify_tsig_time tsig_time fudge now =
    leb 1 fudge && leb fudge max_fudge && leb (apart now tsig_time) fudge
