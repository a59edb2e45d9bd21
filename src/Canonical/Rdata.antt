-- ===== src/Canonical/Rdata.antt =====
-- `canonical_rdata` of app/canonical.py with its `_u32` and `_i32_nonneg`: record data as they come in
-- a request, checked, with their canonical JSON text and their wire form. IPv4 addresses are read as
-- `ipaddress` reads them; IPv6 addresses are a parameter.
pub mod Targets
pub mod Again
pub mod Stable
use ab_bedd4c0e_tsig_bugfix.Prelude.{
  ℕ, ◌+◌, ◌*◌, ◌-◌, Bool, true, false, not, ◌&&◌, ◌||◌, Option, none, some, String, List, [], ◌∷◌,
  ◌++◌, ◌==◌, if◌then◌else◌, ltb, leb, length,
}
use ab_bedd4c0e_tsig_bugfix.Errors.{
  ErrorCode, validation_error, limit_exceeded, serial_invalid, Fault, wire_error, api, Result, ok,
  err, ◌>>=◌, ◌>>◌, raise_if,
}
use ab_bedd4c0e_tsig_bugfix.Text.{Text, Bytes, codes, dot, is_empty, split_dots, text_eq}
use ab_bedd4c0e_tsig_bugfix.Json.{
  ℤ, pos, negsuc, Json, str, object, Fields, get_or, get_or_null, int_of, except_value, str_of,
  decimal, dump_text,
}
use ab_bedd4c0e_tsig_bugfix.Wire.Rdata.{
  Rdata, a_data, aaaa_data, ns_data, cname_data, mx_data, txt_data, soa_data, Soa, utf8,
  encode_rdata,
}
use ab_bedd4c0e_tsig_bugfix.Canonical.{api_error, canonical_target}

-- `Config.MAX_RDATA_LEN`
abbrev pub max_rdata_len : ℕ
max_rdata_len = 65535

abbrev pub invalid : Fault
invalid = api_error validation_error 400 []

-- `_u32` and `_i32_nonneg`, with the error for a number out of range
abbrev pub in_u32 : Fault → ℤ → Result ℕ
in_u32 bad (pos n) = if leb n 0xFFFFFFFF then ok n else err bad
in_u32 bad (negsuc n) = err bad

unfoldable pub u32_of : Fault → Json → Result ℕ
u32_of bad v = do z ← except_value (int_of v) (err invalid); in_u32 bad z

abbrev pub not_a_serial : Fault
not_a_serial = api_error serial_invalid 400 []

-- An octet of an IPv4 address: one to three digits, none of them a leading zero, at most 255.
abbrev octet_value : Text → ℕ → ℕ
octet_value [] n = n
octet_value (c ∷ s) n = octet_value s (n * 10 + (c - b'0'))

abbrev all_digits : Text → Bool
all_digits [] = true
all_digits (c ∷ s) = let rest = all_digits s in leb b'0' c && leb c b'9' && rest

abbrev leading_zero : Text → Bool
leading_zero [] = false
leading_zero (c ∷ s) = c == b'0' && not (is_empty s)

abbrev is_octet : Text → Bool
is_octet s =
    not (is_empty s)
    && all_digits s
    && leb (length s) 3
    && not (leading_zero s)
    && leb (octet_value s 0) 255

abbrev four_octets : List Text → Bool
four_octets (p ∷ q ∷ r ∷ s ∷ []) = is_octet p && is_octet q && is_octet r && is_octet s
four_octets _ = false

-- `ipaddress.IPv4Address(addr)`: such an address is its own text
unfoldable pub is_ipv4 : Text → Bool
is_ipv4 addr = four_octets (split_dots addr)

-- A name in record data, which must be a text.
unfoldable pub target_of : Json → Text → Result Text
target_of (str raw) zone = canonical_target raw zone
target_of _ zone = err invalid

abbrev pub of_object : Json → Result Fields
of_object (object fs) = ok fs
of_object _ = err invalid

-- `except dnswire.WireError`
abbrev pub except_wire_error {ℓ} : {A : Type ℓ} → Result A → Fault → Result A
except_wire_error (err wire_error) e = err e
except_wire_error r e = r

abbrev pub a_of : Text → Result Rdata
a_of addr = do raise_if (not (is_ipv4 addr)) invalid; ok (a_data addr)

abbrev pub aaaa_of : Option Text → Result Rdata
aaaa_of none = err invalid
aaaa_of (some compressed) = ok (aaaa_data compressed)

abbrev pub txt_of : Json → Result Rdata
txt_of (str text) = do
  encoded ← utf8 text
  raise_if (ltb max_rdata_len (length encoded)) (api_error limit_exceeded 413 [])
  ok (txt_data text)
txt_of _ = err invalid

abbrev pub mx_of : Text → ℤ → Result Rdata
mx_of exchange (pos n) = if leb n 0xFFFF then ok (mx_data n exchange) else err invalid
mx_of exchange (negsuc n) = err invalid

abbrev key_value : String → Text → Text
key_value key v = dump_text (codes key) ++ b':' ∷ v

abbrev comma : Text → Text → Text
comma a b = a ++ b',' ∷ b

abbrev braces : Text → Text
braces s = b'{' ∷ s ++ b'}' ∷ []

-- `json.dumps(canon, sort_keys=True, separators=(",", ":"))`
unfoldable pub dump : Rdata → Text
dump (a_data address) = braces (key_value "address" (dump_text address))
dump (aaaa_data address) = braces (key_value "address" (dump_text address))
dump (ns_data target) = braces (key_value "target" (dump_text target))
dump (cname_data target) = braces (key_value "target" (dump_text target))
dump (txt_data text) = braces (key_value "text" (dump_text text))
dump (mx_data preference exchange) = braces (
    comma (key_value "exchange" (dump_text exchange)) (key_value "preference" (decimal preference)))
dump (soa_data s) = braces (
    comma (key_value "expire" (decimal s.expire)) (
      comma (key_value "minimum" (decimal s.minimum)) (
        comma (key_value "mname" (dump_text s.mname)) (
          comma (key_value "refresh" (decimal s.refresh)) (
            comma (key_value "retry" (decimal s.retry)) (
              comma (key_value "rname" (dump_text s.rname))
                (key_value "serial" (decimal s.serial))))))))

module _ (repr : Json → Text) where
  abbrev pub field_text : Fields → Text → Text
  field_text fs key = str_of repr (get_or key (str []) fs)

abbrev pub soa_of_fields : Fields → Text → Result Rdata
soa_of_fields fs zone = do
  mname ← target_of (get_or (codes "mname") (str []) fs) zone
  rname ← target_of (get_or (codes "rname") (str []) fs) zone
  serial ← u32_of not_a_serial (get_or_null (codes "serial") fs)
  refresh ← u32_of invalid (get_or_null (codes "refresh") fs)
  retry ← u32_of invalid (get_or_null (codes "retry") fs)
  expire ← u32_of invalid (get_or_null (codes "expire") fs)
  minimum ← u32_of invalid (get_or_null (codes "minimum") fs)
  ok (
      soa_data (record {
        mname = mname;
        rname = rname;
        serial = serial;
        refresh = refresh;
        retry = retry;
        expire = expire;
        minimum = minimum;
      }))

module _ (repr : Json → Text) (compressed : Text → Option Text) (packed : Text → Result Bytes) where
  -- The canonical dictionary of a value by type.
  unfoldable pub canon_of : Text → Fields → Text → Result Rdata
  unfolding u32_of is_ipv4 target_of
  canon_of rtype fs zone =
      if text_eq rtype (codes "A")
      then a_of (field_text repr fs (codes "address"))
      else if text_eq rtype (codes "AAAA")
      then aaaa_of (compressed (field_text repr fs (codes "address")))
      else if text_eq rtype (codes "NS")
      then (do t ← target_of (get_or (codes "target") (str []) fs) zone; ok (ns_data t))
      else if text_eq rtype (codes "CNAME")
      then (do t ← target_of (get_or (codes "target") (str []) fs) zone; ok (cname_data t))
      else if text_eq rtype (codes "MX")
      then (do
        exchange ← target_of (get_or (codes "exchange") (str []) fs) zone
        pref ← except_value (int_of (get_or_null (codes "preference") fs)) (err invalid)
        mx_of exchange pref)
      else if text_eq rtype (codes "TXT")
      then txt_of (get_or (codes "text") (str []) fs)
      else if text_eq rtype (codes "SOA")
      then soa_of_fields fs zone
      else err invalid

  abbrev pub canon_and_wire : Text → Fields → Text → Result (Rdata × Bytes)
  canon_and_wire rtype fs zone = do
    canon ← canon_of rtype fs zone
    wire ← encode_rdata packed canon
    ok (canon, wire)

  -- The canonical JSON text and the wire form.
  unfoldable pub canonical_rdata : Text → Json → Text → Result (Text × Bytes)
  unfolding canon_of encode_rdata dump
  canonical_rdata rtype value zone = do
    fs ← of_object value
    (canon, wire) ← except_wire_error (canon_and_wire rtype fs zone) invalid
    raise_if (ltb max_rdata_len (length wire)) (api_error limit_exceeded 413 [])
    ok (dump canon, wire)
